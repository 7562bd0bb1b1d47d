-- ===== src/TaskCommand/Looks.antt =====
-- status.go, taskstatus.go: a report and a comparison only look.
use doris_sync.Base.{
  ℕ, ◌+◌, eqb, String, ◌==◌, Bool, true, false, not, List, [], ◌∷◌, Option, none, some, ◌≡◌, inl,
  inr, Option-cases, if◌then◌else◌,
}
use doris_sync.Base.Act.{
  Result, ok, err, killed, Act, After, After-continue, After-wrapping, After-answer,
}
use doris_sync.State.{Disk}
use doris_sync.World.{
  World, Env, Event, Side, queried, executed, listed, deleted, saved_hourly, saved_partition,
  source, target, query, query_raw,
}
use doris_sync.SyncState.Opening.{query_rows, rows_from}
use doris_sync.Clock.{Zone, Deps}
use doris_sync.Status.{
  empty_report, read_tasks, read_windows, report_partitions, read_status, task_items, full_items,
  state_items,
}
use doris_sync.Status.Partitions.{tally_rows, inventory_tables}
use doris_sync.Status.Report.{StatusReport, StatusHourly, StatusFullTable}
use doris_sync.TaskStatus.{
  Days, count_table_rows, count_day_hours, compare_full_table, compare_between, compare_day,
  compare_task_day,
}
use doris_sync.TaskCommand.{}

-- What a history holds but questions.
abbrev changes : List Event → List Event
changes [] = []
changes (queried side sql r ∷ h) = changes h
changes (listed prefix ∷ h) = changes h
changes (executed side sql r ∷ h) = executed side sql r ∷ changes h
changes (deleted key ∷ h) = deleted key ∷ changes h
changes (saved_partition key e ∷ h) = saved_partition key e ∷ changes h
changes (saved_hourly key e ∷ h) = saved_hourly key e ∷ changes h

-- The file is as before, and nothing but questions left the program.
pub record Looked (w v : World) : Type 0 where
  pub file : v.disk ≡ w.disk
  pub calls : changes v.history ≡ changes w.history

module _ (env : Env) (w : World) where
  -- A call that looks, and its answer.
  abbrev pub Looks : {A : Type 0} → Result A × World → Type 0
  Looks r = After (Looked w) (λ _ v. Looked w v) r

  pub rows_lem :
      {A : Type 0} (view : Disk → A) (v : World) → Looked w v → Looks (query_rows env view v)
  unfolding query_rows
  rows_lem {A = A} view v h = go (env.read v.calls)
    where
      go : (r : Result (Unit {0})) → Looks (rows_from {A = A} view r v)
      go (ok _) = record { holds = record { file = h.file; calls = h.calls } }
      go (err e) = record { holds = record { file = h.file; calls = h.calls } }
      go killed = record { holds = h }

  pub pure_lem : {A : Type 0} (r : Result A) (v : World) → Looked w v → Looks (r, v)
  pure_lem r v h = After-answer r v h λ _ _. h

  query_lem : (side : Side) (sql : String) (v : World) → Looked w v → Looks (query env side sql v)
  unfolding query query_raw
  query_lem side sql v h =
      After-continue _ _
        (After-answer {Q = λ _ v'. Looked w v'} (env.query v.calls) _
          (record { file = h.file; calls = h.calls })
          (λ _ _. record { file = h.file; calls = h.calls }))
        λ rows v' k. record { holds = k }

  pub either_lem :
      {A : Type 0} (b : Bool) (f g : Act World A) (v : World)
      → Looks (f v)
      → Looks (g v)
      → Looks ((if b then f else g) v)
  either_lem true f g v h k = h
  either_lem false f g v h k = k

  module _ (deps : Deps) (duration_text : ℕ → String) where
    tasks_lem :
        (report : StatusReport) (v : World)
        → Looked w v
        → Looks (read_tasks env deps duration_text report v)
    unfolding read_tasks
    tasks_lem report v h = After-continue _ _ (rows_lem _ v h) λ tasks v₁ h₁.
        After-continue _ _ (pure_lem (task_items tasks.1 tasks.0) v₁ h₁) λ items v₂ h₂.
          After-continue _ _ (rows_lem _ v₂ h₂) λ full v₃ h₃.
            After-continue _ _ (pure_lem (full_items env deps duration_text full) v₃ h₃)
              λ done v₄ h₄. record { holds = h₄ }

    windows_lem :
        (report : StatusReport) (v : World)
        → Looked w v
        → Looks (read_windows env deps duration_text report v)
    unfolding read_windows
    windows_lem report v h = After-continue _ _ (rows_lem _ v h) λ rows v₁ h₁.
        After-continue _ _ (pure_lem (state_items rows) v₁ h₁) λ items v₂ h₂. record { holds = h₂ }

    partitions_lem :
        (report : StatusReport) (v : World)
        → Looked w v
        → Looks (report_partitions env deps duration_text report v)
    unfolding report_partitions
    partitions_lem report v h = After-continue _ _ (rows_lem _ v h) λ inventory v₁ h₁.
        After-continue _ _ (rows_lem _ v₁ h₁) λ rows v₂ h₂.
          After-continue _ _
            (pure_lem
              (tally_rows rows
                (record { tables = inventory_tables inventory; active = []; syncing = [] }))
              v₂ h₂)
            λ tally v₃ h₃. record { holds = h₃ }

    pub status_lem : (v : World) → Looked w v → Looks (read_status env deps duration_text v)
    unfolding read_status
    status_lem v h = After-continue _ _ (rows_lem _ v h) λ settings v₁ h₁.
        let report = empty_report settings in
        either_lem report.managed_tasks _ _ v₁ (tasks_lem report v₁ h₁) (
          either_lem (report.mode == "hourly-window") _ _ v₁ (windows_lem report v₁ h₁)
            (partitions_lem report v₁ h₁))

  module _ (deps : Deps) (days : String → Days) where
    pub full_lem :
        (item : StatusFullTable) (v : World)
        → Looked w v
        → Looks (compare_full_table env deps days item v)
    unfolding compare_full_table count_table_rows
    full_lem item v h =
        After-continue _ _
          (After-wrapping _ _
            (After-continue _ _ (query_lem source _ v h) λ rows v₁ h₁. pure_lem _ v₁ h₁))
          λ n v₂ h₂.
            After-continue _ _
              (After-wrapping _ _
                (After-continue _ _ (query_lem target _ v₂ h₂) λ rows v₃ h₃. pure_lem _ v₃ h₃))
              λ m v₄ h₄. record { holds = h₄ }

    hours_lem :
        (z : Zone) (side : Side) (db table name : String) (start end : ℕ) (v : World)
        → Looked w v
        → Looks (count_day_hours env deps days z side db table name start end v)
    unfolding count_day_hours
    hours_lem z side db table name start end v h =
        After-continue _ _ (query_lem side _ v h) λ rows v₁ h₁. pure_lem _ v₁ h₁

    between_lem :
        (item : StatusHourly) (z : Zone) (date : String) (start end : ℕ) (v : World)
        → Looked w v
        → Looks (compare_between env deps days item z date start end v)
    unfolding compare_between
    between_lem item z date start end v h =
        After-continue _ _ (After-wrapping _ _ (hours_lem z source _ _ _ start end v h)) λ ss v₁ h₁.
          After-continue _ _ (After-wrapping _ _ (hours_lem z target _ _ _ start end v₁ h₁))
            λ ts v₂ h₂. record { holds = h₂ }

    day_lem :
        (item : StatusHourly) (z : Zone) (date : String) (start : Option ℕ) (v : World)
        → Looked w v
        → Looks (compare_day env deps days item z date start v)
    unfolding compare_day
    day_lem item z date none v h = record { holds = h }
    day_lem item z date (some start) v h =
        either_lem (not ((days item.time_zone).format_day start == date)) _ _ v
          (record { holds = h })
          (either_lem (not (eqb ((days item.time_zone).next_day start) (start + 86400))) _ _ v
            (record { holds = h }) (between_lem item z date start _ v h))

    pub compare_lem :
        (item : StatusHourly) (date : String) (v : World)
        → Looked w v
        → Looks (compare_task_day env deps days item date v)
    unfolding compare_task_day
    compare_lem item date v h = elim (Option-cases (deps.load_location item.time_zone)) [
      | inl absent ↦ rw (compare_task_day, absent) (record { holds = h })
      | inr (z, found) ↦ rw (compare_task_day, found) (day_lem item z date _ v h)
    ]
