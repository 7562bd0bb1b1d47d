-- ===== src/Start/Session.antt =====
-- main.go: the part of `run` from the checks of the connections on: the state file is opened and claimed
-- for a mode, and the cycles run. The lock file, and opening the connections and the client of the
-- bucket, are not here. The wait between two cycles is left out. Fuel counts the rounds.
use doris_sync.Base.{
  ℕ, zero, suc, ◌+◌, String, ◌==◌, Bool, false, not, ◌&&◌, List, [], ◌∷◌, Option, none, some,
}
use doris_sync.Base.{if◌then◌else◌}
use doris_sync.Base.Act.{
  errorf, is_persistence, Result, ok, err, killed, Act, pure, fail, wrapping, attempt, ◌>>=◌, ◌>>◌,
}
use doris_sync.Config.{Options}
use doris_sync.World.{World, Env, Side, source, target, query, now, context_done}
use doris_sync.Rows.{Row}
use doris_sync.Database.{field}
use doris_sync.SyncState.{modify, save_metadata}
use doris_sync.SyncState.Opening.{open_state, run_statements, opening_statements}
use doris_sync.Clock.{Deps}
use doris_sync.Tasks.{check_hourly_settings, check_managed_hourly_settings}
use doris_sync.OverwritePlan.{OverwritePlan, cycle_overwrite_plan}
use doris_sync.Cycle.{cycle}
use doris_sync.HourlyCycle.{cycle_hourly}
use doris_sync.HourlyCycle.Managed.{cycle_managed_hourly}
use doris_sync.Start.Flags.{Flags}

-- A setting of the file that another run has left.
abbrev pub is_other : String → String → Bool
is_other saved chosen = not (saved == "") && not (saved == chosen)

abbrev pub connection_sql : String
connection_sql = "SELECT 1 AS connection_check"

abbrev pub is_connected : List Row → Bool
is_connected [] = false
is_connected (row ∷ []) = field "connectioncheck" row == "1"
is_connected (row ∷ next ∷ rows) = false

module _ (env : Env) (deps : Deps) (auto_range : String → Bool) (flags : Flags) (o : Options)
    (fuel : ℕ) where
  -- The settings of the hourly mode.
  unfoldable pub check_settings : Act World (Unit {0})
  check_settings =
      if flags.sync_mode == "hourly-window"
      then (if o.managed_tasks
          then check_managed_hourly_settings env deps
          else check_hourly_settings env deps o.hourly_start o.time_zone)
      else pure tt

  unfoldable pub claim_state : Act World (Unit {0})
  claim_state = do
    check_settings
    modify λ m. record m { mode = flags.sync_mode; time_field = flags.time_field }
    save_metadata env

  -- A file of another mode or time field is refused.
  unfoldable pub adopt_state : Act World (Unit {0})
  adopt_state w =
      if is_other w.memory.mode flags.sync_mode
      then (err (errorf "state file uses another mode; use a separate state file"), w)
      else if is_other w.memory.time_field flags.time_field
      then (err (errorf "state file uses another time field"), w)
      else claim_state w

  -- checkConnection
  unfoldable pub check_connection : Side → Act World (Unit {0})
  check_connection side = do
    rows ← query env side connection_sql
    if is_connected rows then pure tt else fail (errorf "SELECT 1 returned an unexpected result")

  -- From the connections on, up to the first cycle.
  unfoldable pub open_session : Act World (Unit {0})
  open_session = do
    wrapping "source SELECT 1 failed: " (check_connection source)
    wrapping "target SELECT 1 failed: " (check_connection target)
    run_statements env opening_statements
    open_state env
    adopt_state

  unfoldable pub one_cycle : Act World (Unit {0})
  one_cycle =
      if flags.sync_mode == "hourly-window"
      then (if o.managed_tasks
          then cycle_managed_hourly env deps auto_range o fuel
          else cycle_hourly env deps auto_range o fuel)
      else cycle env deps auto_range o

  -- What a round ends with: the result of the run, or `none` for another round.
  abbrev Verdict : Type 0
  Verdict = Option (Result (Unit {0}))

  abbrev verdict : Result (Unit {0}) → Verdict
  verdict r = some r

  -- Behind a cycle.
  unfoldable pub after_cycle : Result (Unit {0}) → Act World Verdict
  after_cycle result = do
    stopped ← context_done env
    if stopped
        then pure (verdict (ok tt))
        else if o.interval == ""
        then pure (verdict result)
        else elim result [
          | ok a ↦ pure none
          | err e ↦ if is_persistence e then pure (verdict (err e)) else pure none
          | killed ↦ pure (verdict killed)
        ]

  unfoldable pub round : Act World Verdict
  round = attempt one_cycle (λ _. after_cycle (ok tt)) (λ e. after_cycle (err e))

  -- The endless loop; `none` if the rounds are used up.
  unfoldable pub serve : ℕ → Act World Verdict
  serve zero = pure none
  serve (suc rounds) =
      let more = serve rounds in do v ← round; elim v [ some r ↦ pure (verdict r) | none ↦ more ]

  -- s.nextVersionCheck = time.Now().Add(interval)
  unfoldable pub schedule_check : Act World (Unit {0})
  schedule_check = if o.interval == "" then pure tt else (do
    time ← now env
    modify λ m. record m { next_version_check = some (time + deps.parse_duration o.interval) })

  unfoldable pub run_session : ℕ → Option OverwritePlan → Act World Verdict
  run_session rounds (some plan) = do
    open_session
    attempt (cycle_overwrite_plan env deps auto_range o plan) (λ _. pure (verdict (ok tt)))
        (λ e. pure (verdict (err e)))
  run_session rounds none = do open_session; schedule_check; serve rounds
