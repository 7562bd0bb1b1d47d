-- ===== src/Targets.antt =====
-- main.go, fulltable.go: creating a table on the target. The map of the target's tables is the list
-- of their names.
use doris_sync.Base.{Option, String, List, ◌∷◌, contains, if◌then◌else◌}
use doris_sync.Base.Act.{Err, Act, pure, wrapping, ◌>>=◌, ◌>>◌}
use doris_sync.Config.{DatabasePair}
use doris_sync.World.{World, Env, target, exec}
use doris_sync.Sql.Create.{target_ddl}
use doris_sync.Clock.{Deps}
use doris_sync.Hourly.{lift}

-- The names of the target's tables, and the error.
abbrev pub Synced : Type 0
Synced = List String × Option Err

module _ (env : Env) (deps : Deps) where
  -- A target table that is missing is created; the names afterwards.
  unfoldable pub create_missing :
      DatabasePair → String → List String → String → Act World (List String)
  create_missing pair table names ddl = if contains names table then pure names else do
    statement ← lift (target_ddl deps.patterns ddl pair.target table)
    wrapping "create target table: " (exec env target statement)
    pure (table ∷ names)
