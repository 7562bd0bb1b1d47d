-- ===== src/TaskStatus/Hours.antt =====
-- taskstatus.go: a comparison of a day covers its 24 hours.
use doris_sync.Base.{
  ℕ, zero, suc, ◌+◌, ◌<◌, String, ◌==◌, Bool, true, false, not, List, [], ◌∷◌, Option, none, some,
  ◌∙◌, ◌≡◌, refl, ap, arith, All, All-mono, length, eqb, inl, inr, Bool-cases, Option-cases,
}
use doris_sync.Base.Act.{errorf, Result, ok, err, killed, After, After-continue, After-wrapping}
use doris_sync.World.{World, Env, Side, source, target, query}
use doris_sync.Rows.{Row}
use doris_sync.Database.{field}
use doris_sync.Clock.{Zone, Deps}
use doris_sync.Hourly.Fuel.{Always, any_run}
use doris_sync.Status.Report.{StatusHourly}
use doris_sync.TaskStatus.{
  DayComparison, Days, int64_bound, total, parse_count, signed_parts, in_int64, unsigned,
  checked_count, checked_hour, set_at, no_counts, put_hour, put_hours, compare_hours,
  build_day_comparison, count_day_hours, compare_between, compare_day, compare_task_day,
}
use doris_sync.TaskStatus.Sums.{differences, build_day_comparison-difference}

-- Counts of rows, one for each hour.
abbrev IsDay : List ℕ → Type 0
IsDay counts = (length counts ≡ 24) × All (λ n. n < int64_bound) counts

in_int64_lem :
    (negative : Bool) (o : Option ℕ) (n : ℕ) → in_int64 negative o ≡ some n → n < int64_bound
in_int64_lem negative none n h = absurd (cc h)
in_int64_lem true (some m) n h = ground arith
in_int64_lem false (some m) n h = ground arith

abbrev IsCount : ℕ → Type 0
IsCount n = n < int64_bound

-- What a result holds, if it is one.
abbrev OfOk : {A : Type 0} → (A → Type 0) → Result A → Type 0
OfOk P (ok a) = P a
OfOk P (err e) = Unit
OfOk P killed = Unit

count_lem : (row : Row) → OfOk IsCount (checked_count row)
unfolding checked_count parse_count
count_lem row =
    let parts = signed_parts (field "rowcount" row) in
    go (in_int64 parts.0 (unsigned parts.1)) (in_int64_lem parts.0 (unsigned parts.1))
  where
    go :
        (o : Option ℕ)
        → ((n : ℕ) → o ≡ some n → n < int64_bound)
        → OfOk IsCount (elim o [ none ↦ err (errorf "invalid row_count") | some n ↦ ok n ])
    go none h = tt
    go (some n) h = h n refl

length-set_at : (i n : ℕ) (xs : List ℕ) → length (set_at i n xs) ≡ length xs
unfolding set_at
length-set_at i n [] = refl
length-set_at zero n (x ∷ xs) = refl
length-set_at (suc i) n (x ∷ xs) = omega (arith, length-set_at i n xs)

set_at-All :
    (i n : ℕ) (xs : List ℕ) → n < int64_bound → All IsCount xs → All IsCount (set_at i n xs)
unfolding set_at
set_at-All i n [] h k = tt
set_at-All zero n (x ∷ xs) h k = (h, k.1)
set_at-All (suc i) n (x ∷ xs) h k = (k.0, set_at-All i n xs h k.1)

put_lem :
    (hour count : Result ℕ) (counts : List ℕ)
    → OfOk IsCount count
    → IsDay counts
    → OfOk IsDay (put_hour hour count counts)
unfolding put_hour
put_lem (ok i) (ok n) counts h day =
    (length-set_at i n counts ∙ day.0, set_at-All i n counts h day.1)
put_lem (ok i) (err e) counts h day = tt
put_lem (ok i) killed counts h day = tt
put_lem (err e) count counts h day = tt
put_lem killed count counts h day = tt

puts_lem :
    (rows : List Row) (counts : Result (List ℕ))
    → OfOk IsDay counts
    → OfOk IsDay (put_hours rows counts)
unfolding put_hours
puts_lem [] counts h = h
puts_lem (row ∷ rows) (err e) h = tt
puts_lem (row ∷ rows) killed h = tt
puts_lem (row ∷ rows) (ok counts) h =
    puts_lem rows _ (put_lem (checked_hour row) (checked_count row) counts (count_lem row) h)

none_counted : (n : ℕ) → (length (no_counts n) ≡ n) × All IsCount (no_counts n)
none_counted zero = (refl, tt)
none_counted (suc n) = let rest = none_counted n in (ap suc rest.0, (omega arith, rest.1))

length-compare_hours :
    (n : ℕ) (ss ts : List ℕ) → length ss ≡ length ts → length (compare_hours n ss ts) ≡ length ss
unfolding compare_hours
length-compare_hours n [] ts e = refl
length-compare_hours n (s ∷ ss) [] e = absurd (cc e)
length-compare_hours n (s ∷ ss) (t ∷ ts) e =
    ap suc (length-compare_hours (suc n) ss ts (omega (arith, e)))

-- A comparison of a day with 24 hours whose differences add up.
pub record IsWhole (d : DayComparison) : Type 0 where
  pub hours : length d.hours ≡ 24
  pub adds_up : d.difference ≡ total 0 (differences d.hours)

whole_lem :
    (date zone : String) (ss ts : List ℕ)
    → IsDay ss
    → IsDay ts
    → IsWhole (build_day_comparison date zone ss ts)
unfolding build_day_comparison
whole_lem date zone ss ts s t =
    let same : length ss ≡ length ts = omega (arith, s.0, t.0) in
    record {
      hours = length-compare_hours 0 ss ts same ∙ s.0;
      adds_up =
          build_day_comparison-difference date zone ss ts same
            (All-mono ss (λ n h. omega arith) s.1);
    }

answer_lem :
    {A : Type 0} {P : A → Type 0} (r : Result A) (w : World)
    → OfOk P r
    → After Always (λ a _. P a) (r, w)
answer_lem (ok a) w h = record { holds = h }
answer_lem (err e) w h = record { holds = tt }
answer_lem killed w h = record { holds = tt }

module _ (env : Env) (deps : Deps) (days : String → Days) where
  counts_lem :
      (z : Zone) (side : Side) (db table name : String) (start end : ℕ) (w : World)
      → After Always
          (λ counts _. IsDay counts)
          (count_day_hours env deps days z side db table name start end w)
  unfolding count_day_hours
  counts_lem z side db table name start end w =
      After-continue _ _ (any_run (query env side _ w))
        λ rows w₁ _. answer_lem _ w₁ (puts_lem rows (ok (no_counts 24)) (none_counted 24))

  between_lem :
      (task : StatusHourly) (z : Zone) (date : String) (start end : ℕ) (w : World)
      → After Always (λ d _. IsWhole d) (compare_between env deps days task z date start end w)
  unfolding compare_between
  between_lem task z date start end w =
      After-continue _ _ (After-wrapping _ _ (counts_lem z source _ _ _ start end w)) λ ss w₁ s.
        After-continue _ _ (After-wrapping _ _ (counts_lem z target _ _ _ start end w₁))
          λ ts w₂ t. record { holds = whole_lem date task.time_zone ss ts s t }

  day_lem :
      (task : StatusHourly) (z : Zone) (date : String) (start : Option ℕ) (w : World)
      → After Always (λ d _. IsWhole d) (compare_day env deps days task z date start w)
  unfolding compare_day
  day_lem task z date none w = record { holds = tt }
  day_lem task z date (some start) w =
      elim (Bool-cases (not ((days task.time_zone).format_day start == date))) [
        | inl other ↦ rw other (record { holds = tt })
        | inr same ↦
            rw same
              (elim (Bool-cases
                (not (eqb ((days task.time_zone).next_day start) (start + 86400)))) [
                  | inl shifted ↦ rw shifted (record { holds = tt })
                  | inr regular ↦ rw regular (between_lem task z date start _ w)
                ])
      ]

  -- However the two databases answer, a comparison of a day that is returned has 24 hours, and its
  -- difference is the sum of the differences of its hours, each and the sum as an int64 wraps them.
  pub compare_task_day-IsWhole :
      (task : StatusHourly) (date : String) (w : World)
      → After Always (λ d _. IsWhole d) (compare_task_day env deps days task date w)
  unfolding compare_task_day
  compare_task_day-IsWhole task date w = elim (Option-cases (deps.load_location task.time_zone)) [
    | inl unknown ↦ rw (compare_task_day, unknown) (record { holds = tt })
    | inr (z, known) ↦
        rw (compare_task_day, known) (day_lem task z date ((days task.time_zone).parse_day date) w)
  ]
