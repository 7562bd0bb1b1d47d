-- ===== src/Start/Flags.antt =====
-- main.go: the part of `run` that turns the flags and the configuration into the options of a run.
use doris_sync.Base.{String, ◌<>◌, ◌==◌, Bool, true, false, not, ◌||◌, ◌&&◌, Option, none, some}
use doris_sync.Base.{is_nil, ltb, length, eqb, if◌then◌else◌}
use doris_sync.Base.Text.{trim_space, trim_slashes, has_prefix}
use doris_sync.Base.Act.{Result, ok}
use doris_sync.Config.{Options}
use doris_sync.Config.Names.{parse_partition_names}
use doris_sync.Clock.{Deps, parse_hourly_start}
use doris_sync.OverwritePlan.{OverwritePlan, validate_overwrite_plan}
use doris_sync.Start.{refuse, and_then, Host}
use doris_sync.Start.Load.{minute}

pub record Flags : Type 0 where
  pub once : Bool
  pub check_interval : String
  pub sync_mode : String
  pub time_field : String
  pub partitions : String
  pub window_start : String
  pub state_file : String
  pub s3_prefix : String
  pub table : String
  pub overwrite_plan_file : String
  pub force_overwrite : Bool

abbrev pub has_partition_filter : Options → Bool
has_partition_filter o = not (is_nil o.partitions) || not (o.include_partitions == "")

abbrev pub has_table_filter : Options → Bool
has_table_filter o = not (o.include_tables == "") || not (o.exclude_tables == "")

unfoldable pub validate_forced_overwrite_mode : Bool → String → Result (Unit {0})
validate_forced_overwrite_mode once mode =
    refuse (not once || not (mode == "overwrite"))
      "--force-overwrite requires --sync-mode overwrite --once" (ok tt)

unfoldable pub validate_forced_overwrite : Bool → String → String → Options → Result (Unit {0})
validate_forced_overwrite once mode table o =
    and_then (validate_forced_overwrite_mode once mode) λ _.
      refuse (table == "" || not (trim_space table == table))
        "--force-overwrite requires an exact --table name"
        (refuse (is_nil o.partitions || not (o.include_partitions == ""))
          "--force-overwrite requires exact --partitions names"
          (refuse (not (eqb (length o.databases) 1))
            "--force-overwrite requires exactly one source/target database mapping" (ok tt)))

-- One prefix is the other, or a directory above it.
unfoldable pub is_nested : String → String → Bool
is_nested configured selected =
    configured == selected
    || has_prefix configured (selected <> "/")
    || has_prefix selected (configured <> "/")

module _ (host : Host) (deps : Deps) (flags : Flags) where
  -- The plan of a forced overwrite, if a file is named.
  unfoldable pub load_plan : Options → Result (Option OverwritePlan)
  load_plan o =
      if flags.overwrite_plan_file == ""
      then ok none
      else refuse (not flags.force_overwrite) "--overwrite-plan requires --force-overwrite" (
          refuse
            (not (flags.table == "")
              || not (flags.partitions == "")
              || has_partition_filter o
              || has_table_filter o)
            "--overwrite-plan cannot be combined with table or partition filters"
            (and_then (host.decode_plan flags.overwrite_plan_file)
              λ plan. and_then (validate_overwrite_plan plan o.databases) λ _. ok (some plan)))

  -- A forced overwrite has a state file and a prefix of its own.
  unfoldable pub separate : Options → Result Options
  separate o =
      if not flags.force_overwrite
      then ok o
      else refuse (flags.state_file == "" || flags.s3_prefix == "")
          "--force-overwrite requires --state-file and --s3-prefix dedicated to this run"
          (and_then (host.absolute o.state_file) λ configured_state.
            and_then (host.absolute flags.state_file) λ selected_state.
              refuse
                (configured_state == selected_state
                  || is_nested (trim_slashes o.s3.prefix) (trim_slashes flags.s3_prefix))
                "--force-overwrite state file and S3 prefix must differ from the service configuration"
                (refuse (trim_slashes flags.s3_prefix == "")
                  "--s3-prefix must be a nonempty dedicated directory"
                  (ok (record o {
                    managed_tasks = false;
                    hourly_start = "";
                    s3 = record o.s3 { prefix = flags.s3_prefix };
                  }))))

  abbrev pub with_state_file : Options → Options
  with_state_file o = record o {
    state_file = if flags.state_file == "" then o.state_file else flags.state_file;
  }

  -- The checks of the mode and its time field.
  unfoldable pub check_mode : Options → Result (Unit {0})
  check_mode o =
      refuse (flags.sync_mode == "time-window" && trim_space flags.time_field == "")
        "--time-field is required in time-window mode"
        (refuse (flags.sync_mode == "overwrite" && not (flags.time_field == ""))
          "--time-field is only valid in time-window or hourly-window mode"
          (if o.managed_tasks
            then refuse
                (not (flags.sync_mode == "hourly-window")
                  || not (flags.time_field == "")
                  || not (flags.window_start == "")
                  || not (o.hourly_start == ""))
                "managedTasks requires hourly-window mode with per-task time fields and starts"
                (refuse (has_table_filter o) "table filters are not used with managedTasks" (
                  refuse (has_partition_filter o || not (flags.partitions == ""))
                    "partition filters are not supported in hourly-window mode" (ok tt)))
            else refuse (flags.sync_mode == "hourly-window" && trim_space flags.time_field == "")
                "--time-field is required in static hourly-window mode" (ok tt)))

  abbrev pub with_start : Options → Options
  with_start o = record o {
    hourly_start = if flags.window_start == "" then o.hourly_start else flags.window_start;
  }

  -- The checks of the start of the hours.
  unfoldable pub check_start : Options → Result (Unit {0})
  check_start o =
      if flags.sync_mode == "hourly-window" && not o.managed_tasks
      then (and_then (parse_hourly_start deps o.hourly_start o.time_zone) λ _.
          refuse (has_partition_filter o)
            "partition filters are not supported in hourly-window mode" (ok tt))
      else refuse
          (not o.managed_tasks && (not (flags.window_start == "") || not (o.hourly_start == "")))
          "hourlyStart and --window-start require hourly-window mode" (ok tt)

  unfoldable pub with_partitions : Options → Result Options
  with_partitions o =
      if flags.partitions == ""
      then ok o
      else and_then (parse_partition_names flags.partitions)
          λ names. ok (record o { partitions = names; include_partitions = "" })

  -- regexp of the one table of a forced overwrite without a plan
  abbrev pub forced_tables : Option OverwritePlan → Options → String
  forced_tables none o = "^" <> (host.quote_meta flags.table <> "$")
  forced_tables (some plan) o = o.include_tables

  abbrev pub validated : Option OverwritePlan → Options → Result (Unit {0})
  validated none o = validate_forced_overwrite flags.once flags.sync_mode flags.table o
  validated (some plan) o = validate_forced_overwrite_mode flags.once flags.sync_mode

  unfoldable pub with_force : Option OverwritePlan → Options → Result Options
  with_force plan o =
      if flags.force_overwrite
      then (and_then (validated plan o) λ _. ok (record o {
        force_overwrite = true;
        include_tables = forced_tables plan o;
        exclude_tables = "";
      }))
      else refuse
          (not (flags.table == "")
            || not (flags.s3_prefix == "")
            || not (flags.overwrite_plan_file == ""))
          "--table, --s3-prefix and --overwrite-plan require --force-overwrite" (ok o)

  unfoldable pub with_interval : Options → Result Options
  with_interval o =
      refuse
        (not (flags.check_interval == "") && ltb (deps.parse_duration flags.check_interval) minute)
        "--check-interval must be at least 1m"
        (ok (record o {
          interval =
              if flags.once
              then ""
              else if flags.check_interval == ""
              then o.interval
              else flags.check_interval;
        }))

  -- The options of the run, and its plan.
  unfoldable pub configure : Result Options → Result (Options × Option OverwritePlan)
  configure read =
      refuse
        (not (flags.sync_mode == "overwrite")
          && not (flags.sync_mode == "time-window")
          && not (flags.sync_mode == "hourly-window"))
        "--sync-mode must be overwrite, time-window, or hourly-window"
        (and_then read λ loaded. and_then (load_plan loaded) λ plan.
          and_then (separate loaded) λ separated.
            let o = with_state_file separated in
            and_then (check_mode o) λ _. and_then (check_start (with_start o)) λ _.
              and_then (with_partitions (with_start o)) λ listed.
                and_then (with_force plan listed)
                  λ forced. and_then (with_interval forced) λ final. ok (final, plan))
