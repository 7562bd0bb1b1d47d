-- ===== src/Tests/Runs.antt =====
-- Runs of the operations at concrete inputs.
use doris_sync.World.{source}
use doris_sync.Database.{query_metadata}
use doris_sync.Database.Attempts.{GrownBy, query_metadata-GrownBy}
use doris_sync.Base.{◌≤◌, true, false, some, [], ◌∷◌}
use doris_sync.Base.{◌≡◌, refl, arith}
use doris_sync.Base.Table.{lookup, upsert, string_key}
use doris_sync.Base.Text.{split, has_char}
use doris_sync.Base.Act.{ok, After}
use doris_sync.State.Keys.{state_key, split_state_key}
use doris_sync.Base.{leb, ◌+◌, inl}
use doris_sync.State.{FullTableTask, table_key, key_of}
use doris_sync.World.{now, write}
use doris_sync.Tasks.{update_full_table_task, full_table_due, full_at}
use doris_sync.Base.{ℕ, zero, suc, ap, is_some}
use doris_sync.Base.Text.{count_char}
use doris_sync.Hourly.Fuel.{Always}
use doris_sync.SyncState.{save_partition, write_entry}
use doris_sync.SyncState.Opening.{
  partition_name, open_state, query_rows, load_rows, load_partitions,
}
use doris_sync.SyncState.Roundtrip.{open_state-save_partition}
use doris_sync.Hourly.Ends.{IsRegular, sync_hourly_table-Ended}
use doris_sync.Tasks.Exclusive.{Apart}
use doris_sync.Tasks.Reachable.{TaskRuns-Apart, added_full, added_hourly, started}
use doris_sync.Tasks.Due.{full_table_due-update_full_table_task}
use doris_sync.Hourly.{sync_hourly_table}
use doris_sync.Hourly.Window.{sync_hourly_window}
use doris_sync.Hourly.Protocol.{key, Inv}
use doris_sync.Hourly.Once.{imports, import_once_per_window, Processes-Inv, fresh, run, IsNew}
use doris_sync.Hourly.Unknown.{Never, sync_hourly_window-AtMostListed, AtMostListed}
use doris_sync.Partition.Full.{sync_partition, job_key, source_identity}
use doris_sync.Partition.Announce.{Guarded, Has}
use doris_sync.Partition.Order.{IsImported}
use doris_sync.Partition.Imports.{sync_partition-Guarded}
use doris_sync.Partition.Delta.{advance_partition}
use doris_sync.Partition.Delta.Watermark.{advance_partition-copy_whole, copy_whole}
use doris_sync.Base.{map}
use doris_sync.OverwritePlan.{prepare_all}
use doris_sync.OverwritePlan.Preflight.{sent, prepare_all-Silent}
use doris_sync.Cycle.{plan_pairs}
use doris_sync.Cycle.Guard.{IsPreparation, IsDatabase}
use doris_sync.Cycle.Plans.{SentSince, plan_pairs-SentSince}
use doris_sync.Cycle.Imports.{Cycles-Guarded, begun, cycled}
use doris_sync.Sql.{sort_texts}
use doris_sync.Store.{backup_files, partition_prefix}
use doris_sync.Hourly.Exports.{Carried}
use doris_sync.State.Encoding.{
  unmarshal_entry, read_fields, marshal_entry, set_field, unless_empty, with_delta,
}
use doris_sync.Hourly.Chain.{Reaches, view, Processes-Reaches}
use doris_sync.Hourly.Answers.{IsUp, NeverStops}
use doris_sync.Hourly.Completes.{Exported, Done, idle, sync_hourly_window-Done}
use doris_sync.Base.{ap}
use doris_sync.Base.Text.{decimal}
use doris_sync.Status.{next_due}
use doris_sync.Status.Due.{Foretells, next_due-Foretells}
use doris_sync.Tests.{
  done_task, tally_deps, up_env, first_entry, options, forced, item, cycle_run, zone, deps, env, s3,
  pair, task, empty_world, hours_run, part, job, no_auto, is_int64, old_entry, pending, full_task,
  both_asked, stamped_deps, one_task, updated, ones, unary, unary_deps, p1, entry_world,
  saved_world, reopened,
}

empty_world-IsNew : IsNew task empty_world
empty_world-IsNew = record { no_calls = refl; no_row = unfold lookup in refl }

import_once_per_window_example : imports (key zone s3 task) "01:00" hours_run.history ≤ 1
import_once_per_window_example =
    import_once_per_window deps zone s3 task empty_world refl empty_world-IsNew hours_run
      (run env 5 fresh) "01:00"

Processes-Inv_example : Inv zone s3 task hours_run
Processes-Inv_example =
    Processes-Inv deps zone s3 task empty_world refl empty_world-IsNew hours_run (run env 5 fresh)

sync_partition-Guarded_example :
    After
      (λ w. Guarded s3 (IsPreparation deps options) w.history)
      (λ _ w.
        Has env s3 (IsPreparation deps options) (job_key job) (IsImported (source_identity part)) w)
      (sync_partition env is_int64 no_auto s3 false job empty_world)
sync_partition-Guarded_example =
    sync_partition-Guarded env is_int64 no_auto s3 false (IsPreparation deps options) job
      empty_world tt

advance_partition-copy_whole_example :
    advance_partition env deps no_auto s3 false job old_entry empty_world
    ≡ copy_whole env deps no_auto s3 false job empty_world
advance_partition-copy_whole_example =
    advance_partition-copy_whole env deps no_auto s3 false job old_entry empty_world

sync_hourly_window-AtMostListed_example : After (AtMostListed empty_world pending.prefix) Never (
    sync_hourly_window env deps s3 zone task
      ("ts" ∷ [])
      (record { next = "01:00"; pending = some pending })
      3600
      7200
      empty_world)
sync_hourly_window-AtMostListed_example =
    sync_hourly_window-AtMostListed env deps s3 zone task ("ts" ∷ []) "01:00" pending 3600 7200
      empty_world refl refl

TaskRuns-Apart_example : Apart both_asked.disk
unfolding lookup
TaskRuns-Apart_example =
    TaskRuns-Apart deps empty_world both_asked ((λ _. inl refl), inl refl)
      (added_full env full_task (added_hourly env task started))

full_table_due-update_full_table_task_example :
    (row' : FullTableTask) × (full_at (key_of pair "events") updated ≡ some row')
    × (full_table_due env stamped_deps row' 14400 ≡ ok (leb (10800 + 3600) 14400))
unfolding update_full_table_task now write lookup
full_table_due-update_full_table_task_example =
    full_table_due-update_full_table_task env stamped_deps full_task full_task "waiting" one_task
      updated 14400 refl refl (λ h. cc h) refl

ones-count : (n : ℕ) → count_char b'1' (ones n) ≡ n
unfolding count_char
ones-count zero = refl
ones-count (suc n) = let ih = ones-count n in omega arith

next_shown : next_due env tally_deps decimal done_task ≡ ok (ones (5 + 3600))
unfolding next_due count_char
next_shown = refl

next_due-Foretells_example : Foretells env tally_deps done_task (ones (5 + 3600))
next_due-Foretells_example =
    next_due-Foretells env tally_deps decimal done_task (ones (5 + 3600))
      (λ t. ap some (ones-count t)) next_shown

unary-IsRegular : IsRegular unary
unary-IsRegular = record { parsed = λ n. ap some (ones-count n); started = λ n. omega arith }

sync_hourly_table-Ended_example :
    After Always (λ o _. is_some o ≡ true) (sync_hourly_table env unary_deps s3 5 task empty_world)
sync_hourly_table-Ended_example =
    sync_hourly_table-Ended env unary_deps s3 unary task unary-IsRegular 10800 (λ _. omega arith) 4
      empty_world refl (omega arith)

open_state-save_partition_example :
    lookup (partition_name p1) reopened.memory.partitions ≡ some old_entry
unfolding has_char lookup save_partition write_entry write state_key split_state_key open_state
    query_rows load_rows load_partitions split upsert unmarshal_entry read_fields marshal_entry
    set_field unless_empty with_delta
open_state-save_partition_example =
    open_state-save_partition env env p1 old_entry empty_world.memory entry_world saved_world
      reopened (refl, refl, refl, refl) tt refl refl refl

query_metadata-GrownBy_example :
    After
      (GrownBy 3 empty_world)
      (λ _ w. GrownBy 3 empty_world w)
      (query_metadata env is_int64 source "SHOW TABLES" empty_world)
query_metadata-GrownBy_example =
    query_metadata-GrownBy env is_int64 source "SHOW TABLES" empty_world

Cycles-Guarded_example : Guarded s3 (IsPreparation deps options) cycle_run.history
Cycles-Guarded_example =
    Cycles-Guarded deps no_auto options empty_world refl cycle_run (cycled env begun)

plan_pairs-SentSince_example :
    After
      (λ w. SentSince [] (IsDatabase (pair ∷ [])) w.history)
      (λ _ w. SentSince [] (IsDatabase (pair ∷ [])) w.history)
      (plan_pairs env deps no_auto forced (pair ∷ []) [] 0 empty_world)
plan_pairs-SentSince_example = plan_pairs-SentSince env deps no_auto forced empty_world refl

prepare_all-Silent_example :
    After
      (λ w. sent w.history ≡ [])
      (λ jobs w. (map (λ job. job.item) jobs ≡ item ∷ []) × (sent w.history ≡ []))
      (prepare_all env deps no_auto forced (item ∷ []) empty_world)
prepare_all-Silent_example = prepare_all-Silent env deps no_auto forced (item ∷ []) empty_world refl

Processes-Reaches_example :
    Reaches (Carried zone s3 task hours_run.history) "01:00" (view (key zone s3 task) hours_run)
Processes-Reaches_example =
    Processes-Reaches deps zone s3 task empty_world refl empty_world-IsNew hours_run
      (run env 5 fresh)

up : IsUp up_env
up = record {
  answers = λ n. (_, refl);
  executes = λ n. refl;
  writes = λ n. refl;
  id = "00";
  draws = λ n. refl;
  stored = _;
  lists = λ n. refl;
}

first_window-Exported : Exported up_env up deps s3 zone task 3600
unfolding sort_texts backup_files up partition_prefix
first_window-Exported = refl

sync_hourly_window-Done_example :
    After NeverStops
      (Done up_env up deps s3 zone task "02:00")
      (sync_hourly_window up_env deps s3 zone task ("ts" ∷ []) first_entry 3600 7200 empty_world)
sync_hourly_window-Done_example =
    sync_hourly_window-Done up_env up deps s3 zone task ("ts" ∷ []) first_entry 3600 7200
      empty_world first_window-Exported refl idle
