-- ===== src/Tasks/Due.antt =====
-- fulltable.go: when a task for a whole table runs again.
use doris_sync.Base.{ℕ, ◌+◌, String, ◌==◌, true, none, some, leb}
use doris_sync.Base.{◌≡◌, ◌≢◌, refl, sym, ◌∙◌, ap, eq_iff, Bool-cases, inl, inr}
use doris_sync.Base.Table.{lookup-update, same_refl}
use doris_sync.Base.Act.{Result, ok, err, killed}
use doris_sync.State.{FullTableTask, TableKey, table_key, key_of}
use doris_sync.World.{World, Env, tick, write, write_to, now}
use doris_sync.Clock.{Deps}
use doris_sync.Tasks.{full_at, put_full_result, update_full_table_task, full_table_due}

-- A write that returns without an error has made its change.
written :
    (change : World → World) (r : Result (Unit {0})) (w w' : World)
    → write_to change r w ≡ (ok tt, w')
    → w' ≡ change (tick w)
written change (ok _) w w' h = sym (ap (λ x. x.1) h)
written change (err e) w w' h = cc (ap (λ x. x.0) h)
written change killed w w' h = cc (ap (λ x. x.0) h)

module _ (env : Env) (deps : Deps) (task : FullTableTask) where
  abbrev key : TableKey
  key = key_of task.pair task.table

  -- The row behind a success.
  abbrev pub succeeded : FullTableTask → String → ℕ → FullTableTask
  succeeded row phase time = record row {
    phase = phase;
    last_error = "";
    last_success_at = deps.format_nano time;
  }

  due_lem :
      (row : FullTableTask) (phase : String) (time later : ℕ)
      → deps.parse_nano (deps.format_nano time) ≡ some time
      → deps.format_nano time ≢ ""
      → full_table_due env deps (succeeded row phase time) later
        ≡ ok (leb (time + row.interval) later)
  unfolding full_table_due
  due_lem row phase time later parsed nonempty = elim (Bool-cases (deps.format_nano time == "")) [
    | inl blank ↦ absurd (nonempty ((eq_iff (deps.format_nano time) "").0 blank))
    | inr set ↦ rw (set, parsed) refl
  ]

  -- After a success that is recorded at a time, the row of the task is due again exactly from that
  -- time on by its interval, where the stamp of the time is not empty and reads back.
  pub full_table_due-update_full_table_task :
      (row : FullTableTask) (phase : String) (w w' : World) (later : ℕ)
      → full_at key w ≡ some row
      → deps.parse_nano (deps.format_nano (env.now w.calls)) ≡ some (env.now w.calls)
      → deps.format_nano (env.now w.calls) ≢ ""
      → update_full_table_task env deps task phase none true w ≡ (ok tt, w')
      → (row' : FullTableTask) × (full_at key w' ≡ some row')
        × (full_table_due env deps row' later ≡ ok (leb (env.now w.calls + row.interval) later))
  unfolding update_full_table_task now write
  full_table_due-update_full_table_task row phase w w' later there parsed nonempty run =
      let time = env.now w.calls in
      let changed = written (put_full_result env deps key phase none true time) _ (tick w) w' run in
      (
        succeeded row phase time,
        rw changed (
            lookup-update key key
              (λ t. record t {
                phase = phase;
                last_error = "";
                last_success_at = deps.format_nano time;
              })
              w.disk.full_table_task
            ∙ rw (same_refl key, there) refl),
        due_lem row phase time later parsed nonempty,
      )
