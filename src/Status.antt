-- ===== src/Status.antt =====
-- status.go: `readStatus`, which reports on the state file.
pub mod Report
pub mod Partitions
pub mod Tallied
pub mod Counts
pub mod Due
use doris_sync.Base.{ℕ, ◌+◌, String, ◌==◌, Bool, true, false, List, [], ◌∷◌, Option, none, some}
use doris_sync.Base.{if◌then◌else◌}
use doris_sync.Base.Table.{Table, lookup, string_key}
use doris_sync.Base.Text.{str_lt}
use doris_sync.Base.Act.{errorf, Result, ok, err, killed, Act, pure, ◌>>=◌, ◌>>◌}
use doris_sync.Config.{DatabasePair}
use doris_sync.State.{
  HourlyState, HourlyPending, HourlyTask, FullTableTask, TableKey, Disk, Json, json, corrupt,
  key_of, table_key,
}
use doris_sync.World.{World, Env}
use doris_sync.SyncState.Opening.{query_rows, value_or_empty}
use doris_sync.Clock.{Deps}
use doris_sync.Hourly.{lift}
use doris_sync.Tasks.{sorted_hourly, sorted_full, before}
use Report.{StatusReport, StatusHourly, StatusFullTable}
use Partitions.{Tally, tally_rows, inventory_tables, summarise}

abbrev pub empty_report : Table String String → StatusReport
empty_report settings = record {
  mode = value_or_empty (lookup "mode" settings);
  managed_tasks = value_or_empty (lookup "hourly_managed" settings) == "1";
  time_field = value_or_empty (lookup "time_field" settings);
  time_zone = value_or_empty (lookup "time_zone" settings);
  hourly_start = value_or_empty (lookup "hourly_start" settings);
  hourly_windows = [];
  full_table_tasks = [];
  known_total_partitions = 0;
  current_partitions = 0;
  incremental_monitoring_count = 0;
  incremental_syncing_count = 0;
  tables = [];
  active_partitions = [];
  incremental_syncing_partitions = [];
}

-- The phase of a checkpoint.
unfoldable pub pending_phase : Option HourlyPending → String
pending_phase none = "waiting"
pending_phase (some p) = if p.backup_ready then "importing" else "backing_up"

abbrev pub pending_end_of : Option HourlyPending → String
pending_end_of none = ""
pending_end_of (some p) = p.to

abbrev pub with_entry : HourlyState → StatusHourly → StatusHourly
with_entry e item = record item {
  next_start = e.next;
  pending_end = pending_end_of e.pending;
  phase = pending_phase e.pending;
}

abbrev pub with_error : StatusHourly → StatusHourly
with_error item = record item { phase = if item.last_error == "" then item.phase else "error" }

abbrev pub queued_item : HourlyTask → StatusHourly
queued_item task = record {
  mode = "hourly-window";
  source_database = task.pair.source;
  target_database = task.pair.target;
  table = task.table;
  time_field = task.time_field;
  start = task.start;
  time_zone = task.time_zone;
  next_start = task.start;
  pending_end = "";
  phase = "queued";
  last_success_at = task.last_success_at;
  last_error = task.last_error;
}

-- A row of the tasks, with the checkpoint that the join finds.
unfoldable pub task_item : HourlyTask → Option (Json HourlyState) → Result StatusHourly
task_item task none = ok (with_error (queued_item task))
task_item task (some (json e)) = ok (with_error (with_entry e (queued_item task)))
task_item task (some corrupt) = err (errorf "invalid JSON")

abbrev pub prepended {ℓ} : {A : Type ℓ} → Result A → Result (List A) → Result (List A)
prepended (ok x) (ok xs) = ok (x ∷ xs)
prepended (ok x) (err e) = err e
prepended (ok x) killed = killed
prepended (err e) xs = err e
prepended killed xs = killed

unfoldable pub task_items :
    Table TableKey (Json HourlyState) → List HourlyTask → Result (List StatusHourly)
task_items states [] = ok []
task_items states (task ∷ tasks) =
    prepended (task_item task (lookup (key_of task.pair task.table) states))
      (task_items states tasks)

-- A row of the checkpoints in the static mode.
unfoldable pub state_item : TableKey → Json HourlyState → Result StatusHourly
state_item k (json e) = ok (
    with_entry e (record {
      mode = "";
      source_database = k.source;
      target_database = k.target;
      table = k.table;
      time_field = "";
      start = "";
      time_zone = "";
      next_start = "";
      pending_end = "";
      phase = "";
      last_success_at = "";
      last_error = "";
    }))
state_item k corrupt = err (errorf "invalid JSON")

unfoldable pub state_items : Table TableKey (Json HourlyState) → Result (List StatusHourly)
state_items [] = ok []
state_items ((k, raw) ∷ rows) = prepended (state_item k raw) (state_items rows)

-- ORDER BY source_db, target_db, table_name
abbrev pub pair_of : TableKey → DatabasePair
pair_of k = record { source = k.source; target = k.target }

insert_sorted : {V : Type 0} → TableKey × V → Table TableKey V → Table TableKey V
insert_sorted x [] = x ∷ []
insert_sorted x (y ∷ ys) =
    let rest = insert_sorted x ys in
    if before (pair_of y.0) y.0.table (pair_of x.0) x.0.table then y ∷ rest else x ∷ y ∷ ys

unfoldable pub sorted_rows : {V : Type 0} → Table TableKey V → Table TableKey V
unfolding insert_sorted
sorted_rows [] = []
sorted_rows (row ∷ rows) = insert_sorted row (sorted_rows rows)

-- The two sides of the join.
abbrev pub joined_rows : Disk → List HourlyTask × Table TableKey (Json HourlyState)
joined_rows d = (sorted_hourly d.hourly_task, d.hourly_state)

-- `duration_text` is Duration.String of a number of seconds.
module _ (env : Env) (deps : Deps) (duration_text : ℕ → String) where
  abbrev pub due_text : FullTableTask → Option ℕ → Result String
  due_text task none = err (errorf "invalid last_success_at")
  due_text task (some last) = ok (deps.format_nano (last + task.interval))

  unfoldable pub next_due : FullTableTask → Result String
  next_due task =
      if task.last_success_at == ""
      then ok ""
      else due_text task (deps.parse_nano task.last_success_at)

  abbrev pub full_item_at : FullTableTask → Result String → Result StatusFullTable
  full_item_at task (ok due) = ok (record {
    mode = "full-table";
    source_database = task.pair.source;
    target_database = task.pair.target;
    table = task.table;
    interval = duration_text task.interval;
    phase = task.phase;
    last_success_at = task.last_success_at;
    next_due_at = due;
    last_error = task.last_error;
  })
  full_item_at task (err e) = err e
  full_item_at task killed = killed

  unfoldable pub full_items : List FullTableTask → Result (List StatusFullTable)
  full_items [] = ok []
  full_items (task ∷ tasks) = prepended (full_item_at task (next_due task)) (full_items tasks)

  -- The tasks of the managed mode.
  unfoldable pub read_tasks : StatusReport → Act World StatusReport
  read_tasks report = do
    joined ← query_rows env joined_rows
    items ← lift (task_items joined.1 joined.0)
    full_tasks ← query_rows env (λ d. sorted_full d.full_table_task)
    full ← lift (full_items full_tasks)
    pure (record report { hourly_windows = items; full_table_tasks = full })

  -- The checkpoints of the static mode.
  unfoldable pub read_windows : StatusReport → Act World StatusReport
  read_windows report = do
    rows ← query_rows env (λ d. sorted_rows d.hourly_state)
    items ← lift (state_items rows)
    pure (record report { hourly_windows = items })

  unfoldable pub report_partitions : StatusReport → Act World StatusReport
  report_partitions report = do
    inventory ← query_rows env (λ d. d.table_inventory)
    rows ← query_rows env (λ d. d.partition_state)
    tally ← lift (
        tally_rows rows (record { tables = inventory_tables inventory; active = []; syncing = [] }))
    pure (summarise report tally)

  unfoldable pub read_status : Act World StatusReport
  read_status = do
    settings ← query_rows env (λ d. d.metadata)
    let report = empty_report settings
    if report.managed_tasks
        then read_tasks report
        else if report.mode == "hourly-window"
        then read_windows report
        else report_partitions report
