-- ===== src/HourlyCycle.antt =====
-- hourly.go: `cycleHourly` over the tables of the configured databases. The managed mode is in
-- `HourlyCycle.Managed`. A table's fuel that is used up cuts the run off, as a kill does.
pub mod Managed
use doris_sync.Base.{ℕ, String, ◌<>◌, Bool, true, false, List, [], ◌∷◌, ◌++◌, Option, none, some}
use doris_sync.Base.{if◌then◌else◌}
use doris_sync.Base.Act.{
  Err, wrap, is_persistence, Result, ok, err, killed, Act, pure, fail, ◌>>=◌, ◌>>◌,
}
use doris_sync.Config.{DatabasePair, Options, allows_table}
use doris_sync.State.{HourlyTask}
use doris_sync.Sql.{ident}
use doris_sync.World.{World, Env, source, target, exec, check_context}
use doris_sync.Database.{tables}
use doris_sync.Clock.{Deps}
use doris_sync.Hourly.{Counted, Outcome, sync_hourly_table}
use doris_sync.Cycle.Errors.{return_joined}
use doris_sync.Cycle.Ensure.{Ensured, ensure_target_table}

-- The outcome of a table's windows.
abbrev pub counted : Outcome → World → Result Counted × World
counted none w = (killed, w)
counted (some c) w = (ok c, w)

abbrev pub of_table : DatabasePair → String → Err → Err
of_table pair table e = wrap (pair.source <> ("." <> (table <> ": "))) e

-- What the error of a table or a task does: an error of the state file ends the run.
unfoldable pub hourly_failed : DatabasePair → String → Option Err → List Err → Act World (List Err)
hourly_failed pair table none failures = pure failures
hourly_failed pair table (some e) failures =
    if is_persistence e then fail e else pure (failures ++ (of_table pair table e ∷ []))

module _ (env : Env) (deps : Deps) (auto_range : String → Bool) (o : Options) (fuel : ℕ) where
  -- hourlyTask{Pair: pair, Table: table, …}
  abbrev pub static_task : DatabasePair → String → World → HourlyTask
  static_task pair table w = record {
    pair = pair;
    table = table;
    time_field = w.memory.time_field;
    start = o.hourly_start;
    time_zone = o.time_zone;
    last_error = "";
    last_success_at = "";
  }

  unfoldable pub sync_windows : HourlyTask → Act World Counted
  sync_windows task = do outcome ← sync_hourly_table env deps o.s3 fuel task; counted outcome

  -- The windows of a table that is ready.
  unfoldable pub sync_ensured : DatabasePair → String → Ensured → Act World Counted
  sync_ensured pair table e w = elim e.failure [
    | some x ↦ (ok (0, some x), w)
    | none ↦ if e.ready then sync_windows (static_task pair table w) w else (ok (0, none), w)
  ]

  unfoldable pub hourly_tables :
      DatabasePair → List String → List String → List Err → Act World (List Err)
  hourly_tables pair [] names failures = pure failures
  hourly_tables pair (table ∷ rest) names failures =
      let more = hourly_tables pair rest in
      if allows_table deps.matches o table
      then (do
        check_context env
        e ← ensure_target_table env deps auto_range o pair table names
        result ← sync_ensured pair table e
        failures' ← hourly_failed pair table result.1 failures
        more e.names failures')
      else more names failures

  unfoldable pub hourly_pairs : List DatabasePair → List Err → Act World (List Err)
  unfolding ident
  hourly_pairs [] failures = pure failures
  hourly_pairs (pair ∷ pairs) failures =
      let more = hourly_pairs pairs in
      do
        exec env target ("CREATE DATABASE IF NOT EXISTS " <> ident pair.target)
        source_tables ← tables env deps.is_int64 source pair.source
        target_tables ← tables env deps.is_int64 target pair.target
        failures' ← hourly_tables pair source_tables target_tables failures
        more failures'

  unfoldable pub cycle_hourly : Act World (Unit {0})
  cycle_hourly = do failures ← hourly_pairs o.databases []; return_joined failures
