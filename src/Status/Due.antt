-- ===== src/Status/Due.antt =====
-- status.go, fulltable.go: the time that a report shows for a full-table task is the time from which
-- the scheduler finds it due.
use doris_sync.Base.{
  ℕ, ◌+◌, String, ◌==◌, Bool, true, false, Option, none, some, ◌≡◌, ◌⊎◌, refl, ap, ◌∙◌, inl, inr,
  leb, if◌then◌else◌,
}
use doris_sync.Base.Act.{ok}
use doris_sync.State.{FullTableTask}
use doris_sync.World.{Env}
use doris_sync.Clock.{Deps}
use doris_sync.Tasks.{full_table_due}
use doris_sync.Status.{next_due, due_text}

-- Due at once, shown as "", or due from a time on.
abbrev pub Foretells : Env → Deps → FullTableTask → String → Type 0
Foretells env deps task due =
    ((due ≡ "") × ((time : ℕ) → full_table_due env deps task time ≡ ok true))
    ⊎ ((t : ℕ) × (deps.parse_nano due ≡ some t)
        × ((time : ℕ) → full_table_due env deps task time ≡ ok (leb t time)))

module _ (env : Env) (deps : Deps) (duration_text : ℕ → String) where
  -- Where stamps read back, a report without an error on a full-table task shows "" for a task that
  -- is due at any time, and otherwise the stamp of the time from which on it is due.
  pub next_due-Foretells :
      (task : FullTableTask) (due : String)
      → ((t : ℕ) → deps.parse_nano (deps.format_nano t) ≡ some t)
      → next_due env deps duration_text task ≡ ok due
      → Foretells env deps task due
  unfolding next_due full_table_due
  next_due-Foretells task due back shown =
      go (task.last_success_at == "") (deps.parse_nano task.last_success_at) refl refl shown
    where
      go :
          (blank : Bool) (read : Option ℕ)
          → (task.last_success_at == "") ≡ blank
          → deps.parse_nano task.last_success_at ≡ read
          → (if blank then ok "" else due_text env deps duration_text task read) ≡ ok due
          → Foretells env deps task due
      go true read b r h = inl (cc h, λ time. rw (full_table_due, b) refl)
      go false none b r h = absurd (cc h)
      go false (some last) b r h =
          let same : due ≡ deps.format_nano (last + task.interval) = cc h in
          inr (
            last + task.interval,
            ap deps.parse_nano same ∙ back (last + task.interval),
            λ time. rw (full_table_due, b, r) refl,
          )
