-- ===== src/Clock.antt =====
-- Go's `time`, for one location, and the other values that depend on data outside the program: the
-- time-zone database, SHA-256 and the user's regular expressions. They are parameters.
use doris_sync.Base.{ℕ, ◌-◌, String, ◌<>◌, ◌==◌, Bool, Option, none, some, List, eqb, is_some}
use doris_sync.Base.{◌&&◌, if◌then◌else◌}
use doris_sync.Base.Text.{decimal, take_chars}
use doris_sync.Base.Act.{errorf, Result, ok, err}
use doris_sync.Sql.Create.{Patterns}
use doris_sync.Database.{Column}

-- A location. An instant is a number of seconds; texts are those of `hourlyLayout`.
pub record Zone : Type 0 where
  pub parse : String → Option ℕ
  pub format : ℕ → String
  pub minute : ℕ → ℕ
  pub second : ℕ → ℕ
  -- t.UTC().Format("20060102T150405Z")
  pub utc_stamp : ℕ → String
  -- time.Date of the year, month, day and hour of an instant
  pub hour_start : ℕ → ℕ

pub record Deps : Type 0 where
  pub load_location : String → Option Zone
  -- SHA-256 of a text in hexadecimal
  pub sha256 : String → String
  -- json.Marshal of the columns
  pub columns_json : List Column → String
  -- regexp.MustCompile(pattern).MatchString(text)
  pub matches : String → String → Bool
  -- strconv.ParseInt(text, 10, 64) without an error
  pub is_int64 : String → Bool
  -- time.RFC3339Nano in UTC
  pub format_nano : ℕ → String
  pub parse_nano : String → Option ℕ
  -- the regular expressions of sql.go
  pub patterns : Patterns
  -- time.Parse of the layouts of `parseWatermark`
  pub parse_watermark : String → Option ℕ
  -- time.ParseDuration in seconds, 0 for an error
  pub parse_duration : String → ℕ

-- createPrefix.MatchString
abbrev pub is_create_table : Deps → String → Bool
is_create_table deps ddl = is_some (deps.patterns.create_prefix ddl)

-- `parseHourlyStart` in a location that was loaded.
unfoldable pub parse_hour : Zone → String → Result ℕ
parse_hour z value = elim (z.parse value) [
  | none ↦ err (errorf "hourlyStart/--window-start must be an exact hour")
  | some start ↦
      if z.format start == value && eqb (z.minute start) 0 && eqb (z.second start) 0
      then ok start
      else err (errorf "hourlyStart/--window-start must be an exact hour")
]

module _ (deps : Deps) where
  unfoldable pub parse_hourly_start : String → String → Result ℕ
  unfolding parse_hour
  parse_hourly_start value zone = elim (deps.load_location zone) [
    | none ↦ err (errorf "unknown time zone")
    | some z ↦ parse_hour z value
  ]

  unfoldable pub delta_label : String → String → String → String → ℕ → String
  unfolding take_chars decimal
  delta_label key from to identity n =
      "ps_"
      <> take_chars 24 (
          deps.sha256
            (key <> ("|" <> (from <> ("|" <> (to <> ("|" <> (identity <> ("|" <> decimal n)))))))))

  unfoldable pub schema_hash : List Column → String
  schema_hash cols = deps.sha256 (deps.columns_json cols)

abbrev pub hour : ℕ
hour = 3600

unfoldable pub hourly_cutoff : Zone → ℕ → ℕ
hourly_cutoff z now = z.hour_start now - hour
