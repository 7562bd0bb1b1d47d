-- ===== src/Hourly/Ends.antt =====
-- hourly.go: with enough fuel no run of `syncHourlyTable` is cut off.
use doris_sync.Base.{
  ℕ, zero, suc, ◌+◌, ◌*◌, ◌≤◌, ◌<◌, String, ◌==◌, true, false, not, List, some, ◌&&◌,
}
use doris_sync.Base.{
  ◌≡◌, refl, ap, is_some, ltb, eqb, arith, eq_iff, inl, inr, Bool-cases, Option-cases,
  if◌then◌else◌,
}
use doris_sync.Base.Text.{str_lt}
use doris_sync.Base.Act.{Err, errorf, Result, ok, err, killed, After, After-caught, After-answer}
use doris_sync.Config.{S3Options}
use doris_sync.State.{HourlyState, HourlyTask}
use doris_sync.World.{World, Env, tick, check_context, now}
use doris_sync.Clock.{Zone, Deps, parse_hour, hour, hourly_cutoff}
use doris_sync.Hourly.{Outcome, hourly_loop, start_loop, prepare_hourly, sync_hourly_table}
use doris_sync.Hourly.Fuel.{Always, any_run, window_lem}

-- A location in which a text stands for one instant, and an hour starts no later than it goes on.
pub record IsRegular (z : Zone) : Type 0 where
  pub parsed : (n : ℕ) → z.parse (z.format n) ≡ some n
  pub started : (n : ℕ) → z.hour_start n ≤ n

module _ (env : Env) (deps : Deps) (s3 : S3Options) (z : Zone) (task : HourlyTask)
    (regular : IsRegular z) (limit : ℕ) (clock : (k : ℕ) → env.now k ≤ limit) where
  -- The run was not cut off.
  abbrev pub Ended : Outcome → World → Type 0
  Ended o w = is_some o ≡ true

  parse_hour-parse :
      (value : String) (start : ℕ) → parse_hour z value ≡ ok start → z.parse value ≡ some start
  unfolding parse_hour
  parse_hour-parse value start h = elim (Option-cases (z.parse value)) [
    | inl bad ↦ absurd (let k = rw (parse_hour, bad) at h in cc k)
    | inr (n, good) ↦ rw good (ap some (same n (rw (parse_hour, good) at h)))
  ]
    where
      same :
          (n : ℕ)
          → (if z.format n == value && eqb (z.minute n) 0 && eqb (z.second n) 0
              then ok n
              else err (errorf "hourlyStart/--window-start must be an exact hour"))
            ≡ Result.ok start
          → n ≡ start
      same n k = ground arith

  -- What the parsed start of an entry is, if the entry is at a time.
  at_start :
      (value : String) (from start : ℕ)
      → value ≡ z.format from
      → parse_hour z value ≡ ok start
      → start ≡ from
  at_start value from start at h =
      let seen : z.parse value ≡ some start = parse_hour-parse value start h in
      let k : z.parse (z.format from) ≡ some start = rw at at seen in cc (regular.parsed from)

  -- A window that is due ends an hour before the limit, at least.
  due_lem :
      (k start : ℕ)
      → ltb (hourly_cutoff z (env.now k)) (start + hour) ≡ false
      → start + hour ≤ limit
  unfolding hourly_cutoff
  due_lem k start h = let c = clock k in let s = regular.started (env.now k) in ground arith

  -- The loop from an entry at a known time, with some fuel.
  abbrev Ends : List String → ℕ → ℕ → Type 0
  Ends names fuel from =
      (entry : HourlyState) (completed : ℕ) (w : World)
      → entry.next ≡ z.format from
      → After Always Ended (hourly_loop env deps s3 z task names fuel entry completed w)

  step_lem :
      (names : List String) (fuel : ℕ) (entry : HourlyState) (from completed : ℕ) (w : World)
      → entry.next ≡ z.format from
      → limit < from + hour * fuel
      → (from + hour ≤ limit → Ends names fuel (from + hour))
      → After Always Ended (hourly_loop env deps s3 z task names (suc fuel) entry completed w)
  unfolding hourly_loop now
  step_lem names fuel entry from completed w at enough more =
      After-caught (check_context env w) _ _ (any_run (check_context env w))
        (λ _ w₁ _.
          After-caught {Q = λ start _. start ≡ from} (parse_hour z entry.next, w₁) _ _
            (After-answer (parse_hour z entry.next) w₁ tt
              (λ start eq. at_start entry.next from start at eq))
            (λ start w₂ same.
              elim (Bool-cases (not (str_lt (z.format start) (z.format (start + hour))))) [
                | inl repeated ↦ rw repeated (record { holds = refl })
                | inr later ↦
                    rw later
                      (elim (Bool-cases (ltb (hourly_cutoff z (env.now w₂.calls)) (start + hour))) [
                        | inl early ↦ rw early (record { holds = refl })
                        | inr due ↦ rw due (
                            After-caught _ _ _
                              (window_lem env deps s3 z task names entry start (start + hour)
                                (tick w₂))
                              (λ entry' w₃ ends.
                                more (rw (← same) (due_lem w₂.calls start due)) entry'
                                  (completed + 1) w₃ (rw (← same) ends))
                              (λ _ _ _. record { holds = refl }))
                      ])
              ])
            (λ _ _ _. record { holds = refl }))
        (λ _ _ _. record { holds = refl })

  -- With the fuel for each hour up to the limit.
  loop_lem :
      (names : List String) (fuel from : ℕ)
      → limit < from + hour * fuel
      → Ends names (suc fuel) from
  loop_lem names zero from enough entry completed w at =
      step_lem names zero entry from completed w at enough (λ below. absurd (omega arith))
  loop_lem names (suc fuel) from enough entry completed w at =
      step_lem names (suc fuel) entry from completed w at enough
        (λ below. loop_lem names fuel (from + hour) (omega arith))

  parse_hour-format :
      (value : String) (start : ℕ) → parse_hour z value ≡ ok start → value ≡ z.format start
  unfolding parse_hour
  parse_hour-format value start h = ground (arith, eq_iff (z.format start) value)

  stopped_lem :
      (names : List String) (fuel : ℕ) (entry : HourlyState) (completed : ℕ) (e : Err) (w : World)
      → parse_hour z entry.next ≡ err e
      → After Always Ended (hourly_loop env deps s3 z task names (suc fuel) entry completed w)
  unfolding hourly_loop
  stopped_lem names fuel entry completed e w bad =
      After-caught (check_context env w) _ _ (any_run (check_context env w))
        (λ _ w₁ _. rw bad (record { holds = refl })) (λ _ _ _. record { holds = refl })

  never_killed : (value : String) → ¬ (parse_hour z value ≡ killed)
  unfolding parse_hour
  never_killed value h = ground arith

  any_lem :
      (names : List String) (fuel : ℕ) (entry : HourlyState) (completed : ℕ) (w : World)
      → limit < hour * fuel
      → (r : Result ℕ) → parse_hour z entry.next ≡ r
      → After Always Ended (hourly_loop env deps s3 z task names (suc fuel) entry completed w)
  any_lem names fuel entry completed w enough (ok start) h =
      loop_lem names fuel start (omega arith) entry completed w
        (parse_hour-format entry.next start h)
  any_lem names fuel entry completed w enough (err e) h =
      stopped_lem names fuel entry completed e w h
  any_lem names fuel entry completed w enough killed h = absurd (never_killed entry.next h)

  -- In a location whose texts read back and whose hours start no later than their instants, where
  -- the clock stays below a limit, a run over the table does not return the mark of a run that was
  -- cut off, if it has one unit of fuel more than hours that pass the limit.
  pub sync_hourly_table-Ended :
      (fuel : ℕ) (w : World)
      → deps.load_location task.time_zone ≡ some z
      → limit < hour * fuel
      → After Always Ended (sync_hourly_table env deps s3 (suc fuel) task w)
  unfolding sync_hourly_table start_loop
  sync_hourly_table-Ended fuel w located enough = rw located (
      After-caught _ _ _ (any_run (prepare_hourly env deps s3 task w))
        (λ prepared w₁ _.
          any_lem prepared.0 fuel prepared.1 0 w₁ enough (parse_hour z prepared.1.next) refl)
        (λ _ _ _. record { holds = refl }))
