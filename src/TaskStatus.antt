-- ===== src/TaskStatus.antt =====
-- taskstatus.go: the rows of a task's table on both sides, compared. Opening the two connections is
-- part of the driver. A count is the number that an int64 holds; a difference of counts is a number
-- below 2^64, in two's complement.
pub mod Sums
pub mod Hours
use Prim.Native.Char.{Char, code}
use doris_sync.Base.{
  ℕ, zero, suc, ◌+◌, ◌-◌, ◌*◌, ◌%◌, ◌^◌, ◌/◌, String, ◌<>◌, ◌==◌, Bool, true, false, not, ◌||◌,
  ◌&&◌, List, [], ◌∷◌, Option, none, some,
}
use doris_sync.Base.{ltb, leb, eqb, if◌then◌else◌}
use doris_sync.Base.Text.{decimal}
use doris_sync.Base.Act.{errorf, Result, ok, err, Act, pure, fail, wrapping, ◌>>=◌, ◌>>◌}
use doris_sync.Sql.{ident, qtable}
use doris_sync.World.{World, Env, Side, source, target, query}
use doris_sync.Rows.{Row}
use doris_sync.Database.{field}
use doris_sync.Clock.{Zone, Deps}
use doris_sync.Hourly.{lift}
use doris_sync.Status.Report.{StatusHourly, StatusFullTable}
use doris_sync.Hourly.Window.{hourly_where}

pub record HourComparison : Type 0 where
  pub hour : String
  pub source_rows : ℕ
  pub target_rows : ℕ
  pub difference : ℕ

pub record DayComparison : Type 0 where
  pub date : String
  pub time_zone : String
  pub source_total : ℕ
  pub target_total : ℕ
  pub difference : ℕ
  pub hours : List HourComparison

pub record FullTableComparison : Type 0 where
  pub source_rows : ℕ
  pub target_rows : ℕ
  pub difference : ℕ

-- The dates of a location: time.ParseInLocation and Format of "2006-01-02", and AddDate(0, 0, 1).
pub record Days : Type 0 where
  pub parse_day : String → Option ℕ
  pub format_day : ℕ → String
  pub next_day : ℕ → ℕ

abbrev pub word : ℕ
word = 18446744073709551616

abbrev pub int64_bound : ℕ
int64_bound = 9223372036854775808

-- Addition and subtraction of int64 values.
abbrev pub add64 : ℕ → ℕ → ℕ
add64 a b = (a + b) % word

abbrev pub sub64 : ℕ → ℕ → ℕ
sub64 a b = (a + (word - b)) % word

-- The digits of a number in base 10.
unfoldable pub digits : ℕ → String → Option ℕ
digits n String.[] = some n
digits n (String.◌∷◌ c s) =
    let rest = digits (n * 10 + (code c - 48)) s in
    if leb 48 (code c) && leb (code c) 57 then rest else none

unfoldable pub unsigned : String → Option ℕ
unsigned s = if s == "" then none else digits 0 s

-- The sign of a number, and the rest.
abbrev pub signed_parts : String → Bool × String
signed_parts String.[] = (false, "")
signed_parts (String.◌∷◌ c s) =
    if eqb (code c) b'-'
    then (true, s)
    else if eqb (code c) b'+'
    then (false, s)
    else (false, String.◌∷◌ c s)

abbrev pub in_int64 : Bool → Option ℕ → Option ℕ
in_int64 negative none = none
in_int64 true (some n) = if eqb n 0 then some 0 else none
in_int64 false (some n) = if ltb n int64_bound then some n else none

-- strconv.ParseInt(text, 10, 64), where a negative value is an error to the caller.
unfoldable pub parse_count : String → Option ℕ
parse_count s = let parts = signed_parts s in in_int64 parts.0 (unsigned parts.1)

unfoldable pub checked_count : Row → Result ℕ
checked_count row = elim (parse_count (field "rowcount" row)) [
  | none ↦ err (errorf "invalid row_count")
  | some n ↦ ok n
]

unfoldable pub single_count : List Row → Result ℕ
single_count (row ∷ []) = checked_count row
single_count rows = err (errorf "expected one count row")

-- counts[hour] = count
unfoldable pub set_at : ℕ → ℕ → List ℕ → List ℕ
set_at i n [] = []
set_at zero n (x ∷ xs) = n ∷ xs
set_at (suc i) n (x ∷ xs) = x ∷ set_at i n xs

abbrev pub no_counts : ℕ → List ℕ
no_counts zero = []
no_counts (suc n) = 0 ∷ no_counts n

unfoldable pub checked_hour : Row → Result ℕ
checked_hour row = elim (parse_count (field "hourofday" row)) [
  | none ↦ err (errorf "invalid hour_of_day")
  | some n ↦ if ltb 23 n then err (errorf "invalid hour_of_day") else ok n
]

-- The loop over the rows of hours.
unfoldable pub put_hour : Result ℕ → Result ℕ → List ℕ → Result (List ℕ)
put_hour (ok hour) (ok count) counts = ok (set_at hour count counts)
put_hour (ok hour) (err e) counts = err e
put_hour (err e) count counts = err e
put_hour Result.killed count counts = Result.killed
put_hour (ok hour) Result.killed counts = Result.killed

unfoldable pub put_hours : List Row → Result (List ℕ) → Result (List ℕ)
put_hours [] counts = counts
put_hours (row ∷ rows) (err e) = err e
put_hours (row ∷ rows) Result.killed = Result.killed
put_hours (row ∷ rows) (ok counts) =
    put_hours rows (put_hour (checked_hour row) (checked_count row) counts)

-- fmt.Sprintf("%02d:00", hour)
abbrev pub hour_text : ℕ → String
hour_text n = (if ltb n 10 then "0" else "") <> (decimal n <> ":00")

unfoldable pub compare_hours : ℕ → List ℕ → List ℕ → List HourComparison
unfolding decimal
compare_hours n (s ∷ ss) (t ∷ ts) =
    record { hour = hour_text n; source_rows = s; target_rows = t; difference = sub64 t s }
    ∷ compare_hours (suc n) ss ts
compare_hours n _ _ = []

-- result.SourceTotal += source[hour]
unfoldable pub total : ℕ → List ℕ → ℕ
total sum [] = sum
total sum (n ∷ ns) = total (add64 sum n) ns

unfoldable pub build_day_comparison : String → String → List ℕ → List ℕ → DayComparison
build_day_comparison date zone source_counts target_counts = record {
  date = date;
  time_zone = zone;
  source_total = total 0 source_counts;
  target_total = total 0 target_counts;
  difference = sub64 (total 0 target_counts) (total 0 source_counts);
  hours = compare_hours 0 source_counts target_counts;
}

module _ (env : Env) (deps : Deps) (days : String → Days) where
  unfoldable pub count_table_rows : Side → String → String → Act World ℕ
  count_table_rows side db table = do
    rows ← query env side ("SELECT COUNT(*) AS row_count FROM " <> qtable db table)
    lift (single_count rows)

  unfoldable pub compare_full_table : StatusFullTable → Act World FullTableComparison
  compare_full_table task = do
    source_rows ←
        wrapping "count source rows: " (count_table_rows source task.source_database task.table)
    target_rows ←
        wrapping "count target rows: " (count_table_rows target task.target_database task.table)
    pure (record {
      source_rows = source_rows;
      target_rows = target_rows;
      difference = sub64 target_rows source_rows;
    })

  unfoldable pub count_day_hours :
      Zone → Side → String → String → String → ℕ → ℕ → Act World (List ℕ)
  count_day_hours z side db table name start end = do
    rows ← query env side (
        "SELECT HOUR("
        <> (ident name
            <> (") AS hour_of_day, COUNT(*) AS row_count FROM "
                <> (qtable db table
                    <> (hourly_where z name start end
                        <> (" GROUP BY HOUR(" <> (ident name <> ") ORDER BY hour_of_day")))))))
    lift (put_hours rows (ok (no_counts 24)))

  -- Between two midnights.
  unfoldable pub compare_between : StatusHourly → Zone → String → ℕ → ℕ → Act World DayComparison
  compare_between task z date start end = do
    source_counts ←
        wrapping "count source rows: "
          (count_day_hours z source task.source_database task.table task.time_field start end)
    target_counts ←
        wrapping "count target rows: "
          (count_day_hours z target task.target_database task.table task.time_field start end)
    pure (build_day_comparison date task.time_zone source_counts target_counts)

  abbrev pub day : ℕ
  day = 86400

  -- A day with 24 hours.
  unfoldable pub compare_day : StatusHourly → Zone → String → Option ℕ → Act World DayComparison
  compare_day task z date none = fail (errorf "--date must be YYYY-MM-DD")
  compare_day task z date (some start) =
      let d = days task.time_zone in
      if not (d.format_day start == date)
      then fail (errorf "--date must be YYYY-MM-DD")
      else if not (eqb (d.next_day start) (start + day))
      then fail
          (errorf "daylight-saving transition; 24-hour comparison requires a fixed-offset day")
      else compare_between task z date start (d.next_day start)

  unfoldable pub compare_task_day : StatusHourly → String → Act World DayComparison
  compare_task_day task date = elim (deps.load_location task.time_zone) [
    | none ↦ fail (errorf "task time zone")
    | some z ↦ compare_day task z date ((days task.time_zone).parse_day date)
  ]
