-- ===== src/HourlyCycle/Managed.antt =====
-- hourly.go: `cycleManagedHourly`, which runs the tasks of the state file.
use doris_sync.Base.{
  ℕ, String, ◌<>◌, Bool, true, false, not, List, [], ◌∷◌, ◌++◌, Option, none, some, map,
}
use doris_sync.Base.{contains, if◌then◌else◌}
use doris_sync.Base.Table.{Table, lookup, upsert, string_key}
use doris_sync.Base.Act.{
  Err, errorf, is_persistence, Result, ok, err, killed, Act, pure, fail, attempt, ◌>>=◌, ◌>>◌,
}
use doris_sync.Config.{DatabasePair, Options}
use doris_sync.Sql.{ident}
use doris_sync.State.{HourlyTask, FullTableTask}
use doris_sync.State.Keys.{state_key}
use doris_sync.World.{World, Env, target, exec, now, check_context}
use doris_sync.Database.{tables}
use doris_sync.Clock.{Deps}
use doris_sync.Tasks.{
  list_hourly_tasks, list_full_table_tasks, save_hourly_task_result, full_table_due,
  update_full_table_task,
}
use doris_sync.FullTable.{sync_full_table}
use doris_sync.Cycle.Errors.{return_joined}
use doris_sync.Cycle.Ensure.{Ensured, ensure_target_table}
use doris_sync.HourlyCycle.{of_table, hourly_failed, sync_windows}

-- The names of the tables of each target database that was opened.
abbrev pub TargetTables : Type 0
TargetTables = Table String (List String)

-- What a task leaves: these names, the number of its windows and its error.
pub record Tried : Type 0 where
  pub opened : TargetTables
  pub count : ℕ
  pub failure : Option Err

abbrev pub tried : TargetTables → ℕ → Option Err → Tried
tried opened count failure = record { opened = opened; count = count; failure = failure }

abbrev pub pair_key : DatabasePair → String
pair_key pair = state_key pair.source pair.target "" ""

abbrev pub unmapped : DatabasePair → Err
unmapped pair =
    errorf
      ("database mapping " <> (pair.source <> (" -> " <> (pair.target <> " is not configured"))))

module _ (env : Env) (deps : Deps) (auto_range : String → Bool) (o : Options) (fuel : ℕ) where
  unfoldable pub is_allowed : DatabasePair → Bool
  is_allowed pair = contains (map pair_key o.databases) (pair_key pair)

  -- The target's tables; a database that was not opened yet is created.
  unfoldable pub open_target : String → Option (List String) → Act World (List String)
  unfolding ident
  open_target db (some names) = pure names
  open_target db none = do
    exec env target ("CREATE DATABASE IF NOT EXISTS " <> ident db)
    tables env deps.is_int64 target db

  unfoldable pub run_ensured : HourlyTask → TargetTables → Ensured → Act World Tried
  run_ensured task opened e = elim e.failure [
    | some x ↦ pure (tried opened 0 (some x))
    | none ↦
        if not e.ready
        then pure (tried opened 0 (some (errorf "source table is not a supported OLAP table")))
        else (do
          result ← sync_windows env deps auto_range o fuel task
          pure (tried opened result.0 result.1))
  ]

  unfoldable pub run_opened : HourlyTask → TargetTables → List String → Act World Tried
  run_opened task opened names = do
    e ← ensure_target_table env deps auto_range o task.pair task.table names
    run_ensured task (upsert task.pair.target e.names opened) e

  unfoldable pub run_task : HourlyTask → TargetTables → Act World Tried
  run_task task opened =
      if not (is_allowed task.pair)
      then pure (tried opened 0 (some (unmapped task.pair)))
      else attempt (open_target task.pair.target (lookup task.pair.target opened))
          (run_opened task opened) (λ e. pure (tried opened 0 (some e)))

  unfoldable pub run_tasks :
      List HourlyTask → TargetTables → List Err → Act World (TargetTables × List Err)
  run_tasks [] opened failures = pure (opened, failures)
  run_tasks (task ∷ tasks) opened failures =
      let more = run_tasks tasks in
      do
        check_context env
        t ← run_task task opened
        save_hourly_task_result env deps task t.count t.failure
        failures' ← hourly_failed task.pair task.table t.failure failures
        more t.opened failures'

  -- A full-table task on an opened target.
  unfoldable pub full_opened : FullTableTask → TargetTables → List String → Act World Tried
  full_opened task opened names =
      attempt (update_full_table_task env deps task "backing_up" none false)
        (λ _. do
          synced ← sync_full_table env deps o.s3 task names
          pure (tried (upsert task.pair.target synced.0 opened) 0 synced.1))
        (λ e. pure (tried (upsert task.pair.target names opened) 0 (some e)))

  unfoldable pub run_full_task : FullTableTask → TargetTables → Act World Tried
  run_full_task task opened =
      if not (is_allowed task.pair)
      then pure (tried opened 0 (some (unmapped task.pair)))
      else attempt (open_target task.pair.target (lookup task.pair.target opened))
          (full_opened task opened) (λ e. pure (tried opened 0 (some e)))

  -- The result of a full-table task is recorded, unless the state file failed.
  unfoldable pub finish_full_task :
      FullTableTask → Tried → List Err → Act World (TargetTables × List Err)
  finish_full_task task t failures = elim t.failure [
    | none ↦ (do
      update_full_table_task env deps task "waiting" none true
      pure (t.opened, failures))
    | some e ↦ if is_persistence e then fail e else (do
      update_full_table_task env deps task "error" (some e) false
      pure (t.opened, failures ++ (of_table task.pair task.table e ∷ [])))
  ]

  -- A task that is not due is left out.
  unfoldable pub full_task_step :
      FullTableTask → Result Bool → TargetTables → List Err → Act World (TargetTables × List Err)
  full_task_step task (ok false) opened failures w = (ok (opened, failures), w)
  full_task_step task (ok true) opened failures w =
      ((do t ← run_full_task task opened; finish_full_task task t failures) w)
  full_task_step task (err e) opened failures w =
      finish_full_task task (tried opened 0 (some e)) failures w
  full_task_step task killed opened failures w = (killed, w)

  unfoldable pub run_full_tasks :
      List FullTableTask → TargetTables → List Err → Act World (List Err)
  run_full_tasks [] opened failures = pure failures
  run_full_tasks (task ∷ tasks) opened failures =
      let more = run_full_tasks tasks in
      do
        check_context env
        time ← now env
        next ← full_task_step task (full_table_due env deps task time) opened failures
        more next.0 next.1

  unfoldable pub cycle_managed_hourly : Act World (Unit {0})
  cycle_managed_hourly = do
    tasks ← list_hourly_tasks env
    next ← run_tasks tasks [] []
    full_tasks ← list_full_table_tasks env
    failures ← run_full_tasks full_tasks next.0 next.1
    return_joined failures
