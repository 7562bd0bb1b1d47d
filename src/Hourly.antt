-- ===== src/Hourly.antt =====
-- hourly.go: one table's windows, from its checkpoint to the last full hour.
pub mod Window
pub mod Protocol
pub mod Exports
pub mod Steps
pub mod Run
pub mod Table
pub mod Once
pub mod Unknown
pub mod Fuel
pub mod Ends
pub mod Chain
pub mod Answers
pub mod Completes
use doris_sync.Base.{ℕ, zero, suc, ◌+◌, String, ◌==◌, Bool, true, false, Option, none, some, not}
use doris_sync.Base.{List, ltb, map, ◌&&◌, if◌then◌else◌}
use doris_sync.Base.Act.{
  Err, errorf, Result, ok, err, killed, Act, pure, fail, attempt, ◌>>=◌, ◌>>◌,
}
use doris_sync.Base.Table.{lookup, upsert, string_key}
use doris_sync.Base.Text.{str_lt}
use doris_sync.Config.{DatabasePair, S3Options}
use doris_sync.State.{HourlyState, HourlyTask}
use doris_sync.State.Keys.{state_key}
use doris_sync.World.{World, Env, source, target, now, check_context}
use doris_sync.Database.{Column, columns}
use doris_sync.Columns.{validate_hourly_time_field, validate_target_columns}
use doris_sync.SyncState.{table_hash, modify, save_table}
use doris_sync.Clock.{Zone, Deps, parse_hour, hour, hourly_cutoff, schema_hash}
use Window.{load_hourly, sync_hourly_window}

-- A count, and the error that the code returns beside it.
abbrev pub Counted : Type 0
Counted = ℕ × Option Err

-- What a run over a table returns; `none` if it was cut off because its fuel was used up.
abbrev pub Outcome : Type 0
Outcome = Option Counted

abbrev pub returned : ℕ → Option Err → Outcome
returned count e = some (count, e)

abbrev pub lift {ℓ} : {A : Type ℓ} → Result A → World → Result A × World
lift r w = (r, w)

module _ (env : Env) (deps : Deps) (s3 : S3Options) where
  -- The endless loop over the windows.
  unfoldable pub hourly_loop :
      Zone → HourlyTask → List String → ℕ → HourlyState → ℕ → Act World Outcome
  hourly_loop z task names zero entry completed = pure none
  hourly_loop z task names (suc fuel) entry completed =
      let more = hourly_loop z task names fuel in
      let stop : Err → Act World Outcome = λ e. pure (returned completed (some e)) in
      attempt (check_context env)
        (λ _.
          attempt (lift (parse_hour z entry.next))
            (λ start.
              if not (str_lt (z.format start) (z.format (start + hour)))
              then stop (
                  errorf
                    "the time zone has a repeated hour; use a fixed-offset zone for hourly-window mode")
              else (do
                time ← now env
                if ltb (hourly_cutoff z time) (start + hour)
                    then pure (returned completed none)
                    else attempt
                        (sync_hourly_window env deps s3 z task names entry start (start + hour))
                        (λ entry'. more entry' (completed + 1)) stop))
            stop)
        stop

  unfoldable pub start_loop :
      ℕ → HourlyTask → List String → HourlyState → Option Zone → Act World Outcome
  start_loop fuel task names entry (some z) = hourly_loop z task names fuel entry 0
  start_loop fuel task names entry none =
      attempt (check_context env) (λ _. pure (returned 0 (some (errorf "unknown time zone"))))
        (λ e. pure (returned 0 (some e)))

  -- The columns of the source become the table's schema, unless it had another one.
  unfoldable pub adopt_schema : HourlyTask → List Column → Act World HourlyState
  adopt_schema task cols w =
      let key = state_key task.pair.source task.pair.target task.table "" in
      let previous = table_hash key w in
      if not (previous == "") && not (previous == schema_hash deps cols)
      then (err (errorf "source schema changed; migrate target table before continuing"), w)
      else ((do
        modify λ m. record m { tables = upsert key (schema_hash deps cols) m.tables }
        save_table env key
        load_hourly env deps s3 task.pair task.table task.start)
          w)

  -- Everything before the loop, and the checkpoint.
  unfoldable pub prepare_hourly : HourlyTask → Act World (List String × HourlyState)
  prepare_hourly task = do
    cols ← columns env deps.is_int64 source task.pair.source task.table
    lift (validate_hourly_time_field cols task.time_field)
    target_cols ← columns env deps.is_int64 target task.pair.target task.table
    lift (validate_target_columns cols target_cols)
    entry ← adopt_schema task cols
    pure (map (λ col. col.name) cols, entry)

  unfoldable pub sync_hourly_table : ℕ → HourlyTask → Act World Outcome
  sync_hourly_table fuel task =
      attempt (prepare_hourly task)
        (λ prepared. start_loop fuel task prepared.0 prepared.1 (deps.load_location task.time_zone))
        (λ e. pure (returned 0 (some e)))
