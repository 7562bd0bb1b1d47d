-- ===== src/World.antt =====
-- The state of a run and the calls that leave the program: the two Doris front ends, the bucket,
-- the SQLite file, the clock, the context and the random source. What they answer is `Env`, a
-- parameter: at each call the next answer of its kind, of any value, an error, or the end of the
-- process before the call has an effect.
pub mod Keeps
use doris_sync.Base.{ℕ, ◌+◌, String, ◌<>◌, Bool, Option, none, some, List, ◌∷◌, is_some}
use doris_sync.Base.Act.{Err, persistence, Result, ok, err, killed, Act, pure, ◌>>=◌}
use doris_sync.Rows.{RawRow, Row, scan_rows}
use doris_sync.State.{Disk, Memory, HourlyState, TableKey, PartitionState, PartitionKey}

pub data Side : Type 0 where
  source target : Side

-- An object of a bucket listing. A missing key or size is "" or 0.
pub record Object : Type 0 where
  pub key : String
  pub size : ℕ

-- What a call of the program has done to the outside, newest first in a history.
pub data Event : Type 0 where
  queried : Side → String → Result (List RawRow) → Event
  executed : Side → String → Result (Unit {0}) → Event
  listed : String → Event
  deleted : String → Event
  saved_hourly : TableKey → HourlyState → Event
  saved_partition : PartitionKey → PartitionState → Event

pub record Env : Type 0 where
  pub query : ℕ → Result (List RawRow)
  pub exec : ℕ → Result (Unit {0})
  pub objects : ℕ → Result (List Object)
  pub delete : ℕ → Result (Unit {0})
  pub read : ℕ → Result (Unit {0})
  pub write : ℕ → Result (Unit {0})
  pub random : ℕ → Result String
  pub now : ℕ → ℕ
  pub cancelled : ℕ → Option Err

pub record World : Type 0 where
  pub calls : ℕ
  pub disk : Disk
  pub memory : Memory
  pub history : List Event

abbrev pub tick : World → World
tick w = record w { calls = w.calls + 1 }

abbrev pub log : Event → World → World
log e w = record w { calls = w.calls + 1; history = e ∷ w.history }

-- persistenceError
abbrev pub persistence_error : Err → Err
persistence_error e = record {
  kind = persistence;
  message = "state persistence failed: " <> e.message;
}

abbrev pub write_to : (World → World) → Result (Unit {0}) → Act World (Unit {0})
write_to change (ok _) w = (ok tt, change (tick w))
write_to change (err e) w = (err (persistence_error e), tick w)
write_to change killed w = (killed, w)

abbrev pub read_from {ℓ} : {A : Type ℓ} → (World → A) → Result (Unit {0}) → World → Result A × World
read_from view (ok _) w = (ok (view w), tick w)
read_from view (err e) w = (err (persistence_error e), tick w)
read_from view killed w = (killed, w)

module _ (env : Env) where
  unfoldable pub query_raw : Side → String → Act World (List RawRow)
  query_raw side sql w = let r = env.query w.calls in (r, log (queried side sql r) w)

  -- `d.query`: one statement and its rows.
  unfoldable pub query : Side → String → Act World (List Row)
  unfolding query_raw scan_rows
  query side sql = do rows ← query_raw side sql; pure (scan_rows rows)

  -- `d.exec`. The statement counts as sent, also when the process dies in the call.
  unfoldable pub exec : Side → String → Act World (Unit {0})
  exec side sql w = let r = env.exec w.calls in (r, log (executed side sql r) w)

  -- All pages of ListObjectsV2 under a prefix.
  unfoldable pub objects : String → Act World (List Object)
  objects prefix w = (env.objects w.calls, log (listed prefix) w)

  unfoldable pub delete_object : String → Act World (Unit {0})
  delete_object key w = (env.delete w.calls, log (deleted key) w)

  -- One statement, or one transaction, on the SQLite file: all of its change or nothing.
  unfoldable pub write : (World → World) → Act World (Unit {0})
  write change w = write_to change (env.write w.calls) w

  unfoldable pub read {ℓ} : {A : Type ℓ} → (World → A) → World → Result A × World
  read view w = read_from view (env.read w.calls) w

  -- rand.Read, in hexadecimal.
  unfoldable pub random_hex : Act World String
  random_hex w = (env.random w.calls, tick w)

  -- time.Now()
  unfoldable pub now : Act World ℕ
  now w = (ok (env.now w.calls), tick w)

  -- ctx.Err() != nil
  unfoldable pub context_done : Act World Bool
  context_done w = (ok (is_some (env.cancelled w.calls)), tick w)

  -- if err := ctx.Err(); err != nil { return err }
  unfoldable pub check_context : Act World (Unit {0})
  check_context w = elim (env.cancelled w.calls) [
    | none ↦ (ok tt, tick w)
    | some e ↦ (err e, tick w)
  ]
