-- ===== src/Tests.antt =====
-- Data for runs at concrete inputs.
mod Values
mod Runs
mod Starts
use doris_sync.Base.{◌≤◌, String, ◌<>◌, ◌==◌, Bool, true, false, none, some, List, [], ◌∷◌}
use doris_sync.Base.{◌≡◌, refl, ◌⊎◌, ◌↔◌, eqb, if◌then◌else◌, arith, All, IsIn}
use doris_sync.Base.Table.{lookup, upsert, string_key}
use doris_sync.Base.Text.{split, has_char, trim_slashes}
use doris_sync.Base.Act.{ok, After}
use doris_sync.Config.{Endpoint, DatabasePair, S3Options, Options}
use doris_sync.OverwritePlan.{OverwriteTable, OverwritePlan}
use doris_sync.Cycle.{cycle}
use doris_sync.Start.{Host}
use doris_sync.Start.Flags.{Flags}
use doris_sync.Status.Report.{StatusHourly}
use doris_sync.TaskStatus.{Days}
use doris_sync.TaskCommand.{TaskFlags, Shell}
use doris_sync.Config.Names.{
  validate_partition_names, validate_partition_names_iff, IsExact, Distinct,
}
use doris_sync.Sql.{ident, sql_literal}
use doris_sync.Sql.Quote.{read_quoted, read-ident}
use doris_sync.State.{HourlyState, HourlyTask, HourlyPending, DeltaState, PartitionState}
use doris_sync.State.Keys.{state_key, split_state_key, split-state_key}
use doris_sync.World.{World, Env}
use doris_sync.Rows.{RawRow}
use doris_sync.Store.{path_escape, partition_prefix, is_unsafe_prefix}
use doris_sync.Store.Prefix.{is_unsafe_prefix-partition_prefix}
use doris_sync.Database.Range.{Partition, partition_range_bounds}
use doris_sync.Database.Match.{match_target_partition, match_loop, chosen, other_bounds, bounds}
use doris_sync.Database.Matching.{
  match_target_partition_sound, match_target_partition-IsRefused, IsRange, IsName, IsRefused,
}
use doris_sync.Clock.{Zone, Deps}
use doris_sync.Base.{leb, ◌+◌, inl}
use doris_sync.State.{FullTableTask, table_key, key_of}
use doris_sync.World.{now, write}
use doris_sync.Tasks.{
  add_hourly_task, add_full_table_task, update_full_table_task, full_table_due, full_at,
}
use doris_sync.Base.{ℕ, zero, suc, ap, is_some}
use doris_sync.Base.Text.{count_char}
use doris_sync.Hourly.Fuel.{Always}
use doris_sync.State.{PartitionKey}
use doris_sync.SyncState.{save_partition, write_entry}
use doris_sync.SyncState.Opening.{
  partition_name, open_state, query_rows, load_rows, load_partitions,
}
use doris_sync.SyncState.Roundtrip.{open_state-save_partition}
use doris_sync.Hourly.Ends.{IsRegular, sync_hourly_table-Ended}
use doris_sync.Tasks.Exclusive.{Apart}
use doris_sync.Tasks.Reachable.{TaskRuns-Apart, added_full, added_hourly, started}
use doris_sync.Tasks.Due.{full_table_due-update_full_table_task}
use doris_sync.Hourly.{sync_hourly_table}
use doris_sync.Hourly.Window.{sync_hourly_window}
use doris_sync.Hourly.Protocol.{key, Inv}
use doris_sync.Hourly.Once.{imports, import_once_per_window, Processes-Inv, fresh, run, IsNew}
use doris_sync.Hourly.Unknown.{sync_hourly_window-AtMostListed, AtMostListed}
use doris_sync.Partition.Full.{Job, sync_partition, job_key, source_identity, blank}
use doris_sync.Partition.Announce.{Guarded, Has}
use doris_sync.Partition.Order.{IsImported}
use doris_sync.Partition.Imports.{sync_partition-Guarded}
use doris_sync.Partition.Delta.{advance_partition, resume_delta}
use doris_sync.Partition.Delta.Watermark.{advance_partition-copy_whole, copy_whole}

-- A clock with three full hours, and an outside that answers every call.
abbrev pub zone : Zone
zone = record {
  parse = λ s.
      if s == "01:00"
      then some 3600
      else if s == "02:00"
      then some 7200
      else if s == "03:00"
      then some 10800
      else none;
  format = λ n. if eqb n 3600 then "01:00" else if eqb n 7200 then "02:00" else "03:00";
  minute = λ _. 0;
  second = λ _. 0;
  utc_stamp = λ n. if eqb n 3600 then "T01" else "T02";
  hour_start = λ n. n;
}

abbrev pub deps : Deps
deps = record {
  load_location = λ _. some zone;
  sha256 = λ s. s;
  columns_json = λ _. "[]";
  matches = λ pattern text. pattern == text;
  is_int64 = λ _. true;
  format_nano = λ _. "now";
  parse_nano = λ _. some 0;
  patterns = record {
    create_prefix = λ ddl. some "";
    auto_partition = λ ddl. none;
    distribution = λ ddl. none;
  };
  parse_watermark = λ _. some 0;
  parse_duration = λ _. 60;
}

abbrev answer : List RawRow
answer = (("Field", some "ts") ∷ ("Type", some "datetime") ∷ []) ∷ []

abbrev pub env : Env
env = record {
  query = λ _. ok answer;
  exec = λ _. ok tt;
  objects = λ _. ok (record { key = "a.parquet"; size = 1 } ∷ []);
  delete = λ _. ok tt;
  read = λ _. ok tt;
  write = λ _. ok tt;
  random = λ _. ok "00";
  now = λ _. 10800;
  cancelled = λ _. none;
}

abbrev pub s3 : S3Options
s3 = record {
  bucket = "b";
  prefix = "backup";
  region = "r";
  endpoint = "";
  client_endpoint = "";
  path_style = false;
  auth_mode = "";
  access_key = "";
  secret_key = "";
  role_arn = "";
  max_file_size = "1GB";
}

abbrev pub pair : DatabasePair
pair = record { source = "app"; target = "copy" }

abbrev pub task : HourlyTask
task = record {
  pair = pair;
  table = "events";
  time_field = "ts";
  start = "01:00";
  time_zone = "UTC";
  last_error = "";
  last_success_at = "";
}

abbrev pub empty_world : World
empty_world = record {
  calls = 0;
  disk = record {
    metadata = [];
    table_state = [];
    table_inventory = [];
    partition_state = [];
    hourly_state = [];
    hourly_task = [];
    full_table_task = [];
  };
  memory = record {
    tables = [];
    inventory = [];
    partitions = [];
    mode = "overwrite";
    time_field = "";
    seen_partitions = [];
    next_version_check = none;
  };
  history = [];
}

abbrev pub hours_run : World
hours_run = (sync_hourly_table env deps s3 5 task empty_world).1

abbrev january : String
january = "keys: [2026-01-01] keys: [2026-02-01]"

abbrev pub part : Partition
part = record { name = "p1"; version = "2"; id = "7"; range = january }

abbrev pub renamed : Partition
renamed = record { name = "p202601"; version = "1"; id = "9"; range = january }

abbrev pub job : Job
job = record { pair = pair; table = "events"; part = part; columns = "ts" ∷ [] }

abbrev pub no_auto : String → Bool
no_auto _ = false

abbrev pub is_int64 : String → Bool
is_int64 _ = true

abbrev pub old_entry : PartitionState
old_entry = record blank {
  backup_ready = true;
  imported_identity = "7:1";
  watermark = "2026-01-05";
  watermark_ready = true;
}

abbrev pub delta : DeltaState
delta = record {
  from = "2026-01-05";
  to = "2026-01-06";
  source_identity = "7:2";
  prefix = "backup/app/copy/events/p1/incremental/ps_1/";
  objects = "a.parquet" ∷ [];
  backup_ready = true;
  import_started = true;
  label = "ps_1";
  attempt = 0;
  created_at = 0;
}

abbrev pub pending : HourlyPending
pending = record {
  from = "01:00";
  to = "02:00";
  prefix = "backup/app/copy/events/hourly_T01/full/00/";
  objects = "a.parquet" ∷ [];
  backup_ready = true;
  import_started = true;
  label = "ps_2";
  attempt = 0;
}

abbrev pub full_task : FullTableTask
full_task = record {
  pair = pair;
  table = "events";
  interval = 3600;
  phase = "queued";
  last_error = "";
  last_success_at = "";
}

-- A table with an hourly task, for which a full-table task is asked.
abbrev pub both_asked : World
both_asked =
    (add_full_table_task env deps full_task (add_hourly_task env deps task empty_world).1).1

-- The stamps of one instant.
abbrev pub stamped_deps : Deps
stamped_deps = record deps { parse_nano = λ _. some 10800 }

abbrev pub one_task : World
one_task = record empty_world {
  disk = record empty_world.disk { full_table_task = (key_of pair "events", full_task) ∷ [] };
}

abbrev pub updated : World
updated = (update_full_table_task env stamped_deps full_task "waiting" none true one_task).1

-- A location that writes an instant with as many digits.
abbrev pub ones : ℕ → String
ones zero = ""
ones (suc n) = String.◌∷◌ "1" (ones n)

abbrev pub unary : Zone
unary = record {
  parse = λ s. some (count_char b'1' s);
  format = ones;
  minute = λ _. 0;
  second = λ _. 0;
  utc_stamp = λ _. "T";
  hour_start = λ n. n;
}

abbrev pub unary_deps : Deps
unary_deps = record deps { load_location = λ _. some unary }

abbrev pub p1 : PartitionKey
p1 = record { source = "app"; target = "copy"; table = "events"; partition = "p1" }

abbrev pub entry_world : World
entry_world = record empty_world {
  memory = record empty_world.memory { partitions = (partition_name p1, old_entry) ∷ [] };
}

abbrev pub saved_world : World
saved_world = (save_partition env (partition_name p1) entry_world).1

abbrev pub reopened : World
reopened = (open_state env (record saved_world { memory = empty_world.memory })).1

abbrev endpoint : Endpoint
endpoint = record { host = "h"; port = 9030; user = "u"; password = ""; cluster = ""; session = [] }

abbrev pub options : Options
options = record {
  source = endpoint;
  target = endpoint;
  databases = pair ∷ [];
  s3 = s3;
  state_file = "s.db";
  include_tables = "";
  exclude_tables = "";
  include_partitions = "";
  partitions = [];
  metadata_timeout = "10m";
  interval = "1h";
  hourly_start = "";
  time_zone = "UTC";
  managed_tasks = false;
  force_overwrite = false;
}

abbrev pub forced : Options
forced = record options { force_overwrite = true }

abbrev pub item : OverwriteTable
item = record {
  source_database = "app";
  target_database = "copy";
  table = "events";
  partitions = "p1" ∷ [];
}

abbrev pub plan : OverwritePlan
plan = record { tables = item ∷ [] }

-- A cycle of a process over the empty file.
abbrev pub cycle_run : World
cycle_run = (cycle env deps no_auto options empty_world).1

-- A bucket that holds the backup of the first window.
abbrev pub up_env : Env
up_env = record env {
  objects = λ _.
      ok (record { key = "backup/app/copy/events/hourly_T01/full/00/a.parquet"; size = 1 } ∷ []);
}

abbrev pub first_entry : HourlyState
first_entry = record { next = "01:00"; pending = none }

abbrev pub host : Host
host = record {
  lookup_env = λ _. some "secret";
  compiles = λ _. true;
  quote_meta = λ s. s;
  absolute = λ s. ok ("/srv/" <> s);
  decode_plan = λ _. ok plan;
}

-- The configuration of a service.
abbrev pub service : Options
service = record options {
  s3 = record s3 { auth_mode = "static"; access_key = "key"; secret_key = "secret" };
}

abbrev pub flags : Flags
flags = record {
  once = true;
  check_interval = "";
  sync_mode = "overwrite";
  time_field = "";
  partitions = "p1";
  window_start = "";
  state_file = "f.db";
  s3_prefix = "forced";
  table = "events";
  overwrite_plan_file = "";
  force_overwrite = true;
}

abbrev pub forced_run : Options
forced_run = record service {
  s3 = record service.s3 { prefix = "forced" };
  state_file = "f.db";
  partitions = "p1" ∷ [];
  include_tables = "^events$";
  interval = "";
  force_overwrite = true;
}

-- A file of the time-window mode.
abbrev pub window_file : World
window_file = record empty_world {
  disk = record empty_world.disk { metadata = ("mode", "time-window") ∷ [] };
}

abbrev pub status_task : StatusHourly
status_task = record {
  mode = "hourly-window";
  source_database = "app";
  target_database = "copy";
  table = "events";
  time_field = "ts";
  start = "1970-01-01 00:00:00";
  time_zone = "UTC";
  next_start = "1970-01-01 00:00:00";
  pending_end = "";
  phase = "queued";
  last_success_at = "";
  last_error = "";
}

abbrev pub days : String → Days
days _ = record {
  parse_day = λ _. some 0;
  format_day = λ _. "1970-01-01";
  next_day = λ n. n + 86400;
}

abbrev pub task_flags : TaskFlags
task_flags = record {
  mode = "hourly-window";
  interval = "1h";
  config_file = "config.json";
  date = "1970-01-01";
  source_db = "app";
  target_db = "copy";
  table = "events";
  time_field = "";
  start = "";
  zone = "UTC";
  arguments = [];
}

abbrev pub shell : Shell
shell = record {
  parse = λ _. ok task_flags;
  decode = λ _. ok service;
  read_duration = λ _. ok 3600;
  duration_text = λ _. "1h0m0s";
}

-- Stamps with as many digits as seconds.
abbrev pub tally_deps : Deps
tally_deps = record deps { format_nano = ones; parse_nano = λ s. some (count_char b'1' s) }

abbrev pub done_task : FullTableTask
done_task = record full_task { last_success_at = "11111" }
