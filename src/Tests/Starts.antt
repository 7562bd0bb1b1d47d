-- ===== src/Tests/Starts.antt =====
-- Starts of runs, and comparisons of counts, at concrete inputs.
use doris_sync.Base.{◌≡◌, refl, some, none}
use doris_sync.Base.Table.{lookup, string_key}
use doris_sync.Base.Act.{ok, After}
use doris_sync.Hourly.Fuel.{Always}
use doris_sync.Base.Text.{trim_slashes, trim_space, has_prefix, split, equal_fold}
use doris_sync.Config.Names.{parse_partition_names, validate_partition_names}
use doris_sync.Start.{refuse, and_then}
use doris_sync.Start.Load.{
  load_options, check_decoded, with_defaults, has_blank_pair, resolve_secrets, resolve_secret,
  check_resolved, check_names,
}
use doris_sync.Start.Flags.{
  configure, load_plan, separate, is_nested, check_mode, check_start, with_partitions, with_force,
  validate_forced_overwrite, validate_forced_overwrite_mode, with_interval,
}
use doris_sync.Start.Usable.{IsUsable, load_options-IsUsable}
use doris_sync.Start.Separate.{IsSeparate, configure-IsSeparate}
use doris_sync.Start.Session.{open_session}
use doris_sync.Start.Refused.{Untouched, Never, open_session-Untouched}
use doris_sync.TaskStatus.{compare_task_day}
use doris_sync.TaskStatus.Hours.{IsWhole, compare_task_day-IsWhole}
use doris_sync.Base.Text.{decimal}
use doris_sync.Base.{[], length}
use doris_sync.Status.{empty_report, report_partitions}
use doris_sync.Status.Counts.{IsBalanced, report_partitions-IsBalanced}
use doris_sync.Tests.{
  env, deps, no_auto, host, service, flags, forced_run, window_file, status_task, days, empty_world,
  options, entry_world,
}

service_loads : load_options host deps service ≡ ok service
unfolding load_options and_then check_decoded refuse with_defaults has_blank_pair trim_slashes
    resolve_secrets resolve_secret check_resolved equal_fold check_names
service_loads = refl

load_options-IsUsable_example : IsUsable host deps service
load_options-IsUsable_example = load_options-IsUsable host deps service service service_loads

run_passes : configure host deps flags (ok service) ≡ ok (forced_run, none)
unfolding configure refuse and_then load_plan separate is_nested trim_slashes has_prefix check_mode
    check_start with_partitions parse_partition_names split trim_space with_force
    validate_forced_overwrite validate_forced_overwrite_mode with_interval validate_partition_names
run_passes = refl

configure-IsSeparate_example : IsSeparate host flags (ok service) forced_run
configure-IsSeparate_example =
    configure-IsSeparate host deps flags (ok service) forced_run none refl run_passes

saved_mode : lookup "mode" window_file.disk.metadata ≡ some "time-window"
unfolding lookup
saved_mode = refl

open_session-Untouched_example :
    After (Untouched window_file) Never (open_session env deps no_auto flags options 5 window_file)
open_session-Untouched_example =
    open_session-Untouched env deps no_auto flags options 5 window_file "time-window" saved_mode
      (λ e. cc e) (λ e. cc e)

compare_task_day-IsWhole_example :
    After Always
      (λ d _. IsWhole d)
      (compare_task_day env deps days status_task "1970-01-01" empty_world)
compare_task_day-IsWhole_example =
    compare_task_day-IsWhole env deps days status_task "1970-01-01" empty_world

report_partitions-IsBalanced_example :
    After Always
      (λ r _. IsBalanced (length entry_world.disk.partition_state) r)
      (report_partitions env deps decimal (empty_report []) entry_world)
report_partitions-IsBalanced_example =
    report_partitions-IsBalanced env deps decimal (empty_report []) entry_world
