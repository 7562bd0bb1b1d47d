-- ===== src/Tasks.antt =====
-- tasks.go: the tasks of the managed hourly mode; hourly.go: `checkHourlySettings`; fulltable.go: the
-- tasks for whole tables. The column created_at, which only lists show, is left out.
pub mod Exclusive
pub mod Steps
pub mod Reachable
pub mod Due
use doris_sync.Base.{
  ℕ, ◌+◌, String, ◌<>◌, ◌==◌, Bool, true, false, not, ◌||◌, ◌&&◌, Option, none, some, List, [], ◌∷◌,
}
use doris_sync.Base.{is_some, ltb, leb, if◌then◌else◌}
use doris_sync.Base.Text.{trim_space, str_lt}
use doris_sync.Base.Table.{Table, lookup, upsert, update, string_key}
use doris_sync.Base.Act.{Err, errorf, wrap, Result, ok, err, killed, Act, pure, fail, ◌>>=◌, ◌>>◌}
use doris_sync.Config.{DatabasePair}
use doris_sync.State.{HourlyTask, FullTableTask, TableKey, table_key, key_of, Disk}
use doris_sync.World.{World, Env, tick, read, write, now, persistence_error}
use doris_sync.SyncState.{set_disk, modify, save_metadata}
use doris_sync.Clock.{Deps, parse_hourly_start}
use doris_sync.Hourly.{lift}

abbrev pub setting : String → World → Option String
setting name w = lookup name w.disk.metadata

-- INSERT OR IGNORE of a setting.
abbrev pub ignore_put : String → String → World → World
ignore_put name value w =
    if is_some (setting name w)
    then w
    else set_disk (λ d. record d { metadata = upsert name value d.metadata }) w

-- An INSERT whose primary key may be there already; the error is the driver's.
abbrev pub insert_to : Bool → (World → World) → Result (Unit {0}) → Act World (Unit {0})
insert_to true change (ok _) w = (err (errorf "UNIQUE constraint failed"), tick w)
insert_to false change (ok _) w = (ok tt, change (tick w))
insert_to present change (err e) w = (err e, tick w)
insert_to present change killed w = (killed, w)

abbrev pub as_persistence : Result (Unit {0}) × World → Result (Unit {0}) × World
as_persistence (ok _, w) = (ok tt, w)
as_persistence (err e, w) = (err (persistence_error e), w)
as_persistence (killed, w) = (killed, w)

abbrev pub with_task_name : HourlyTask → Result (Unit {0}) × World → Result (Unit {0}) × World
with_task_name task (ok _, w) = (ok tt, w)
with_task_name task (err e, w) =
    (err (wrap ("add task " <> (task.pair.source <> ("." <> (task.table <> ": ")))) e), w)
with_task_name task (killed, w) = (killed, w)

abbrev pub hourly_at : TableKey → World → Option HourlyTask
hourly_at key w = lookup key w.disk.hourly_task

abbrev pub full_at : TableKey → World → Option FullTableTask
full_at key w = lookup key w.disk.full_table_task

abbrev pub put_hourly_task : TableKey → HourlyTask → World → World
put_hourly_task key task = set_disk (λ d. record d {
  hourly_task = upsert key (record task { last_error = ""; last_success_at = "" }) d.hourly_task;
})

abbrev pub put_full_task : TableKey → FullTableTask → World → World
put_full_task key task = set_disk (λ d. record d {
  full_table_task =
      upsert key (record task { phase = "queued"; last_error = ""; last_success_at = "" })
        d.full_table_task;
})

abbrev pub trimmed : String → Bool
trimmed s = trim_space s == s

abbrev pub error_text : Option Err → String
error_text none = ""
error_text (some e) = e.message

-- A setting that is there with another value.
abbrev pub differs : String → Option String → Bool
differs value none = false
differs value (some old) = not (old == value)

-- s.Mode, s.TimeField = "hourly-window", ""
abbrev pub managed_mode : Act World (Unit {0})
managed_mode = modify (λ m. record m { mode = "hourly-window"; time_field = "" })

abbrev pub other_mode : String → Bool
other_mode mode = not (mode == "") && not (mode == "hourly-window")

abbrev pub done_at : Bool → String → String → String
done_at true time old = time
done_at false time old = old

module _ (env : Env) (deps : Deps) where
  -- The loop of `checkHourlySettings` for one setting.
  unfoldable pub check_setting : String → String → Act World (Unit {0})
  check_setting name value = do
    existing ← read env (setting name)
    if differs value existing
        then fail (errorf ("state file cannot restart with another " <> name))
        else write env (ignore_put name value)

  -- `checkHourlySettings`. Go visits the two settings in either order; this is one of them.
  unfoldable pub check_hourly_settings : String → String → Act World (Unit {0})
  check_hourly_settings start zone = do
    managed ← read env (setting "hourly_managed")
    if is_some managed
        then fail (
            errorf
              "state file belongs to managed hourly tasks; use a new state file for static hourly-window mode")
        else do check_setting "hourly_start" start; check_setting "time_zone" zone

  unfoldable pub check_managed_hourly_settings : Act World (Unit {0})
  check_managed_hourly_settings = do
    static ← read env (setting "hourly_start")
    if is_some static
        then fail (
            errorf
              "state file belongs to static hourly-window mode; use a new state file for managed tasks")
        else do
          managed ← read env (setting "hourly_managed")
          if differs "1" managed
              then fail (errorf "invalid hourly_managed state setting")
              else write env (ignore_put "hourly_managed" "1")

  unfoldable pub insert_row : Bool → (World → World) → Act World (Unit {0})
  insert_row present change w = insert_to present change (env.write w.calls) w

  -- The statements of `addHourlyTask` behind its checks of the arguments.
  unfoldable pub register_hourly : HourlyTask → Act World (Unit {0})
  register_hourly task = do
    check_managed_hourly_settings
    taken ← read env (full_at (key_of task.pair task.table))
    if is_some taken then fail (errorf "table already has a full-table task") else do
      managed_mode
      save_metadata env
      λ w. with_task_name task (
          insert_row (is_some (hourly_at (key_of task.pair task.table) w))
            (put_hourly_task (key_of task.pair task.table) task) w)

  unfoldable pub add_hourly_task : HourlyTask → Act World (Unit {0})
  add_hourly_task task w =
      if task.pair.source == ""
        || task.pair.target == ""
        || task.table == ""
        || task.time_field == ""
      then (err (errorf "source-db, target-db, table, and time-field are required"), w)
      else if not (
          trimmed task.pair.source
          && trimmed task.pair.target
          && trimmed task.table
          && trimmed task.time_field)
      then (err (errorf "task identifiers must not have surrounding whitespace"), w)
      else ((do
        lift (parse_hourly_start deps task.start task.time_zone)
        if other_mode w.memory.mode
            then fail
                (errorf "state file uses another mode; managed tasks require a new state file")
            else register_hourly task)
          w)

  abbrev pub put_hourly_result : TableKey → ℕ → Option Err → ℕ → World → World
  put_hourly_result key completed run_err time = set_disk (λ d. record d {
    hourly_task =
        update key
          (λ t. record t {
            last_error = error_text run_err;
            last_success_at = done_at (ltb 0 completed) (deps.format_nano time) t.last_success_at;
          })
          d.hourly_task;
  })

  unfoldable pub save_hourly_task_result : HourlyTask → ℕ → Option Err → Act World (Unit {0})
  save_hourly_task_result task completed run_err = do
    time ← now env
    write env (put_hourly_result (key_of task.pair task.table) completed run_err time)

  -- The statements of `addFullTableTask` behind its checks of the arguments.
  unfoldable pub register_full : FullTableTask → Act World (Unit {0})
  register_full task = do
    check_managed_hourly_settings
    taken ← read env (hourly_at (key_of task.pair task.table))
    if is_some taken then fail (errorf "table already has an hourly-window task") else do
      managed_mode
      save_metadata env
      λ w. as_persistence (
          insert_row (is_some (full_at (key_of task.pair task.table) w))
            (put_full_task (key_of task.pair task.table) task) w)

  unfoldable pub add_full_table_task : FullTableTask → Act World (Unit {0})
  add_full_table_task task w =
      if task.pair.source == ""
        || task.pair.target == ""
        || task.table == ""
        || ltb task.interval 60
      then (err (errorf "source-db, target-db, table, and interval of at least 1m are required"), w)
      else if not (trimmed task.pair.source && trimmed task.pair.target && trimmed task.table)
      then (err (errorf "task identifiers must not have surrounding whitespace"), w)
      else if other_mode w.memory.mode
      then (err (errorf "state file uses another mode; managed tasks require a new state file"), w)
      else register_full task w

  abbrev pub put_full_result : TableKey → String → Option Err → Bool → ℕ → World → World
  put_full_result key phase run_err completed time = set_disk (λ d. record d {
    full_table_task =
        update key
          (λ t. record t {
            phase = phase;
            last_error = error_text run_err;
            last_success_at = done_at completed (deps.format_nano time) t.last_success_at;
          })
          d.full_table_task;
  })

  unfoldable pub update_full_table_task :
      FullTableTask → String → Option Err → Bool → Act World (Unit {0})
  update_full_table_task task phase run_err completed = do
    time ← now env
    write env (put_full_result (key_of task.pair task.table) phase run_err completed time)

  unfoldable pub full_table_due : FullTableTask → ℕ → Result Bool
  full_table_due task time =
      if task.last_success_at == "" then ok true else elim (deps.parse_nano task.last_success_at) [
        | none ↦ err (errorf "invalid last_success_at")
        | some last ↦ ok (leb (last + task.interval) time)
      ]

-- ORDER BY source_db, target_db, table_name
abbrev pub before : DatabasePair → String → DatabasePair → String → Bool
before p t q u =
    str_lt p.source q.source
    || (p.source == q.source && (str_lt p.target q.target || (p.target == q.target && str_lt t u)))

insert_hourly : HourlyTask → List HourlyTask → List HourlyTask
insert_hourly x [] = x ∷ []
insert_hourly x (y ∷ ys) =
    let rest = insert_hourly x ys in
    if before y.pair y.table x.pair x.table then y ∷ rest else x ∷ y ∷ ys

unfoldable pub sorted_hourly : Table TableKey HourlyTask → List HourlyTask
unfolding insert_hourly
sorted_hourly [] = []
sorted_hourly (row ∷ rows) = insert_hourly row.1 (sorted_hourly rows)

insert_full : FullTableTask → List FullTableTask → List FullTableTask
insert_full x [] = x ∷ []
insert_full x (y ∷ ys) =
    let rest = insert_full x ys in
    if before y.pair y.table x.pair x.table then y ∷ rest else x ∷ y ∷ ys

unfoldable pub sorted_full : Table TableKey FullTableTask → List FullTableTask
unfolding insert_full
sorted_full [] = []
sorted_full (row ∷ rows) = insert_full row.1 (sorted_full rows)

module _ (env : Env) where
  unfoldable pub list_hourly_tasks : Act World (List HourlyTask)
  unfolding sorted_hourly
  list_hourly_tasks = read env (λ w. sorted_hourly w.disk.hourly_task)

  unfoldable pub list_full_table_tasks : Act World (List FullTableTask)
  unfolding sorted_full
  list_full_table_tasks = read env (λ w. sorted_full w.disk.full_table_task)
