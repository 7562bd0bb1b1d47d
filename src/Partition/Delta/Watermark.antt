-- ===== src/Partition/Delta/Watermark.antt =====
-- incremental.go: what `maxTime` can return, and what the time-window mode does with it.
use doris_sync.Base.{String, ◌==◌, Bool, false, not, Option, none, some, List, [], ◌∷◌}
use doris_sync.Base.{◌≡◌, refl, is_some, if◌then◌else◌, All, Bool-cases, inl, inr}
use doris_sync.Base.Table.{string_key}
use doris_sync.Base.Text.{has_char}
use doris_sync.Base.Act.{Result, ok, err, killed, Act, pure, continue, After, ◌>>=◌, ◌>>◌}
use doris_sync.Config.{S3Options}
use doris_sync.State.{PartitionState}
use doris_sync.World.{World, Env, query, query_raw}
use doris_sync.Rows.{RawRow, Row, scan_rows}
use doris_sync.Rows.Headers.{Plain, scan_rows-Plain, lookup-Plain}
use doris_sync.Clock.{Deps}
use doris_sync.Hourly.{lift}
use doris_sync.Database.{field}
use doris_sync.Database.Range.{Partition}
use doris_sync.Partition.Full.{Job, target_match}
use doris_sync.Partition.Delta.{
  single_max, max_time, has_new_time, start_delta, copy_and_seed, advance_partition,
}

abbrev pub Always : World → Type 0
Always _ = Unit

abbrev IsBlank : String → World → Type 0
IsBlank value _ = value ≡ ""

max_header : (row : Row) → Plain row → field "max_time" row ≡ ""
max_header row plain = rw (field, lookup-Plain "max_time" row (unfold has_char in refl) plain) refl

single_max-IsBlank :
    (rows : List Row) (w : World) → All Plain rows → After Always IsBlank (single_max rows, w)
unfolding single_max
single_max-IsBlank [] w p = record { holds = tt }
single_max-IsBlank (row ∷ []) w p = record { holds = max_header row p.0 }
single_max-IsBlank (row ∷ row' ∷ rows) w p = record { holds = tt }

raw_answer :
    (r : Result (List RawRow)) (w : World)
    → After Always IsBlank (
        continue (continue (r, w) (λ rows. pure (scan_rows rows))) (λ rows. lift (single_max rows)))
raw_answer (ok rows) w = single_max-IsBlank (scan_rows rows) w (scan_rows-Plain rows)
raw_answer (err e) w = record { holds = tt }
raw_answer killed w = record { holds = tt }

module _ (env : Env) (deps : Deps) (auto_range : String → Bool) (s3 : S3Options)
    (force : Bool) where
  max_time-After :
      (j : Job) (w : World) → After Always IsBlank (max_time env deps auto_range s3 force j w)
  unfolding max_time query query_raw
  max_time-After j w = raw_answer (env.query w.calls) _

  -- However the database answers, a result of maxTime is "": the code looks the value up under
  -- "max_time", and no header of a row has an underscore.
  pub max_time-blank :
      (j : Job) (w w' : World) (value : String)
      → max_time env deps auto_range s3 force j w ≡ (ok value, w')
      → value ≡ ""
  max_time-blank j w w' value answer =
      let seen : After Always IsBlank (max_time env deps auto_range s3 force j w) =
        max_time-After j w in
      (rw answer at seen).holds

  no_new_time : (watermark : String) → has_new_time deps watermark "" ≡ ok false
  unfolding has_new_time
  no_new_time watermark = elim (Bool-cases (watermark == "")) [
    | inl blank ↦ rw blank refl
    | inr set ↦ rw set refl
  ]

  abbrev copy : Job → Act World (Unit {0})
  copy = copy_and_seed env deps auto_range s3 force

  -- A partition that has changed, copied as a whole.
  abbrev pub copy_whole : Job → Act World (Unit {0})
  copy_whole j = do
    found ← target_match env deps.is_int64 auto_range s3 force j
    if not (is_some found) then copy j else do max_time env deps auto_range s3 force j; copy j

  max_branch :
      (j : Job) (e : PartitionState) (r : Result String × World)
      → After Always IsBlank r
      → continue r (λ new_max. lift (has_new_time deps e.watermark new_max) >>= λ new_time.
          if new_time
          then start_delta env deps auto_range s3 force j e.watermark new_max
          else copy j)
        ≡ continue r (λ _. copy j)
  max_branch j e (ok value, w) h = rw (h.holds, no_new_time e.watermark) refl
  max_branch j e (err x, w) h = refl
  max_branch j e (killed, w) h = refl

  match_branch :
      (j : Job) (e : PartitionState) (r : Result (Option Partition) × World)
      → continue r (λ found.
        if not (is_some found)
        then copy j
        else (max_time env deps auto_range s3 force j >>= λ new_max.
            lift (has_new_time deps e.watermark new_max) >>= λ new_time.
            if new_time
            then start_delta env deps auto_range s3 force j e.watermark new_max
            else copy j))
        ≡ continue r (λ found.
          if not (is_some found)
          then copy j
          else (max_time env deps auto_range s3 force j >> copy j))
  match_branch j e (ok none, w) = refl
  match_branch j e (ok (some p), w) =
      max_branch j e (max_time env deps auto_range s3 force j w) (max_time-After j w)
  match_branch j e (err x, w) = refl
  match_branch j e (killed, w) = refl

  -- The branch of syncPartitionByMode for a source that has changed does what copying the whole
  -- partition does: it never starts a delta.
  pub advance_partition-copy_whole :
      (j : Job) (e : PartitionState) (w : World)
      → advance_partition env deps auto_range s3 force j e w ≡ copy_whole j w
  unfolding advance_partition
  advance_partition-copy_whole j e w =
      match_branch j e (target_match env deps.is_int64 auto_range s3 force j w)
