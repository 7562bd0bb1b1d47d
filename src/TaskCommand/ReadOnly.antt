-- ===== src/TaskCommand/ReadOnly.antt =====
-- taskcli.go: only `task add` changes anything, and the others show what was asked for.
use doris_sync.Base.{String, ◌≡◌}
use doris_sync.Base.Act.{Result, Act, After}
use doris_sync.World.{World, Env}
use doris_sync.Clock.{Deps}
use doris_sync.Start.{Host}
use doris_sync.TaskStatus.{Days}
use doris_sync.TaskCommand.{TaskFlags, Answer, Shell}
use doris_sync.TaskCommand.Looks.{Looked, Looks}

-- The names that were asked for.
abbrev pub HasNames : TaskFlags → String → String → String → Type 0
HasNames flags source target table =
    (source ≡ flags.source_db) × (target ≡ flags.target_db) × (table ≡ flags.table)

-- What a command that does not add may answer: `list` the two lists, and `status` a task with the
-- names that were asked for.
abbrev pub IsAsked : String → TaskFlags → Answer → Type 0
IsAsked command flags (Answer.hourly_added task) = ⊥
IsAsked command flags (Answer.full_added task) = ⊥
IsAsked command flags (Answer.listed hourly full) = command ≡ "list"
IsAsked command flags (Answer.hourly_shown item day) =
    (command ≡ "status") × HasNames flags item.source_database item.target_database item.table
IsAsked command flags (Answer.full_shown item rows) =
    (command ≡ "status") × HasNames flags item.source_database item.target_database item.table

module _ (env : Env) (deps : Deps) (host : Host) (shell : Shell) (days : String → Days)
    (w : World) where
  -- What a command that does not add does.
  abbrev Shows : String → TaskFlags → Result Answer × World → Type 0
  Shows command flags r = After (Looked w) (λ answer v. Looked w v × IsAsked command flags answer) r
