-- ===== src/TaskCommand.antt =====
-- taskcli.go: the commands `task add`, `task status` and `task list`. The flag package, the file of the
-- configuration, durations as texts and the connections are parameters or a part of the driver.
pub mod Looks
pub mod ReadOnly
use doris_sync.Base.{
  ℕ, String, ◌<>◌, ◌==◌, Bool, true, false, not, ◌&&◌, ◌||◌, List, [], ◌∷◌, Option, none, some,
}
use doris_sync.Base.{is_nil, if◌then◌else◌}
use doris_sync.Base.Act.{errorf, Result, Act, pure, fail, ◌>>=◌, ◌>>◌}
use doris_sync.Config.{DatabasePair, Options}
use doris_sync.State.{HourlyTask, FullTableTask}
use doris_sync.World.{World, Env}
use doris_sync.SyncState.Opening.{open_state, run_statements, opening_statements}
use doris_sync.Clock.{Deps}
use doris_sync.Hourly.{lift}
use doris_sync.Tasks.{add_hourly_task, add_full_table_task}
use doris_sync.Start.{and_then, Host}
use doris_sync.Start.Load.{load_options}
use doris_sync.Status.{read_status}
use doris_sync.Status.Report.{StatusReport, StatusHourly, StatusFullTable}
use doris_sync.TaskStatus.{
  DayComparison, FullTableComparison, Days, compare_task_day, compare_full_table,
}

pub record TaskFlags : Type 0 where
  pub mode : String
  pub interval : String
  pub config_file : String
  pub date : String
  pub source_db : String
  pub target_db : String
  pub table : String
  pub time_field : String
  pub start : String
  pub zone : String
  pub arguments : List String

-- What a command prints.
pub data Answer : Type 0 where
  hourly_added : HourlyTask → Answer
  full_added : FullTableTask → Answer
  listed : List StatusHourly → List StatusFullTable → Answer
  hourly_shown : StatusHourly → Option DayComparison → Answer
  full_shown : StatusFullTable → Option FullTableComparison → Answer

-- The loop over opts.Databases.
unfoldable pub is_configured : TaskFlags → List DatabasePair → Bool
is_configured flags [] = false
is_configured flags (pair ∷ pairs) =
    let rest = is_configured flags pairs in
    if pair.source == flags.source_db && pair.target == flags.target_db then true else rest

unfoldable pub find_hourly : TaskFlags → List StatusHourly → Option StatusHourly
find_hourly flags [] = none
find_hourly flags (item ∷ items) =
    let rest = find_hourly flags items in
    if item.source_database == flags.source_db
      && item.target_database == flags.target_db
      && item.table == flags.table
    then some item
    else rest

unfoldable pub find_full : TaskFlags → List StatusFullTable → Option StatusFullTable
find_full flags [] = none
find_full flags (item ∷ items) =
    let rest = find_full flags items in
    if item.source_database == flags.source_db
      && item.target_database == flags.target_db
      && item.table == flags.table
    then some item
    else rest

-- flag.Parse, the decoded file of the configuration, and time.ParseDuration and Duration.String.
pub record Shell : Type 0 where
  pub parse : List String → Result TaskFlags
  pub decode : String → Result Options
  pub read_duration : String → Result ℕ
  pub duration_text : ℕ → String

module _ (env : Env) (deps : Deps) (host : Host) (shell : Shell) (days : String → Days) where
  unfoldable pub add_task : TaskFlags → Act World Answer
  add_task flags = do
    run_statements env opening_statements
    open_state env
    if flags.mode == "full-table"
        then (if not (flags.time_field == "") || not (flags.start == "")
            then fail (errorf "full-table mode does not use --time-field or --start")
            else do
              duration ← lift (shell.read_duration flags.interval)
              let task : FullTableTask = record {
                pair = record { source = flags.source_db; target = flags.target_db };
                table = flags.table;
                interval = duration;
                phase = "";
                last_error = "";
                last_success_at = "";
              }
              add_full_table_task env deps task
              pure (Answer.full_added task))
        else if not (flags.mode == "hourly-window")
        then fail (errorf "--mode must be hourly-window or full-table")
        else if not (flags.interval == "1h")
        then fail (errorf "--interval is only used in full-table mode")
        else do
          let task : HourlyTask = record {
            pair = record { source = flags.source_db; target = flags.target_db };
            table = flags.table;
            time_field = flags.time_field;
            start = flags.start;
            time_zone = flags.zone;
            last_error = "";
            last_success_at = "";
          }
          add_hourly_task env deps task
          pure (Answer.hourly_added task)

  -- The checks of the configuration of a comparison.
  unfoldable pub check_configured : TaskFlags → Act World (Unit {0})
  check_configured flags = do
    o ← lift (and_then (shell.decode flags.config_file) (load_options host deps))
    if not o.managed_tasks
        then fail (errorf "configuration must enable managedTasks")
        else if not (is_configured flags o.databases)
        then fail (errorf "database mapping is not in configuration")
        else pure tt

  unfoldable pub show_hourly : TaskFlags → StatusHourly → Act World Answer
  show_hourly flags item = if flags.date == "" then pure (Answer.hourly_shown item none) else do
    check_configured flags
    comparison ← compare_task_day env deps days item flags.date
    pure (Answer.hourly_shown item (some comparison))

  unfoldable pub show_full : TaskFlags → StatusFullTable → Act World Answer
  show_full flags item =
      if not (flags.date == "")
      then fail (errorf "--date comparison requires an hourly-window task with a time field")
      else if flags.config_file == ""
      then pure (Answer.full_shown item none)
      else do
        check_configured flags
        comparison ← compare_full_table env deps days item
        pure (Answer.full_shown item (some comparison))

  abbrev pub show_found :
      TaskFlags → Option StatusHourly → Option StatusFullTable → Act World Answer
  show_found flags (some item) full = show_hourly flags item
  show_found flags none (some item) = show_full flags item
  show_found flags none none = fail (errorf "task not found")

  unfoldable pub show_task : TaskFlags → StatusReport → Act World Answer
  show_task flags report =
      if flags.source_db == "" || flags.target_db == "" || flags.table == ""
      then fail (errorf "task status requires --source-db, --target-db, and --table")
      else show_found flags (find_hourly flags report.hourly_windows)
          (find_full flags report.full_table_tasks)

  unfoldable pub report_tasks : String → TaskFlags → Act World Answer
  report_tasks command flags = do
    report ← read_status env deps shell.duration_text
    if not report.managed_tasks
        then fail (errorf "state file is not in managedTasks mode")
        else if command == "list"
        then pure (Answer.listed report.hourly_windows report.full_table_tasks)
        else show_task flags report

  unfoldable pub run_parsed : String → TaskFlags → Act World Answer
  run_parsed command flags =
      if not (is_nil flags.arguments)
      then fail (errorf "unexpected arguments")
      else if not (flags.date == "") && (not (command == "status") || flags.config_file == "")
      then fail (errorf "--date requires task status and --config")
      else if command == "add"
      then add_task flags
      else report_tasks command flags

  unfoldable pub run_task_command : List String → Act World Answer
  run_task_command [] = fail (errorf "usage: task add|status|list [flags]")
  run_task_command (command ∷ args) =
      if not (command == "add") && not (command == "status") && not (command == "list")
      then fail (errorf "unknown task command")
      else do flags ← lift (shell.parse args); run_parsed command flags
