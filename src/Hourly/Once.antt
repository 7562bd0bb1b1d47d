-- ===== src/Hourly/Once.antt =====
-- hourly.go: what the protocol means for the rows of a window, over any number of processes.
use doris_sync.Base.{ℕ, ◌+◌, ◌≤◌, String, ◌==◌, true, false, Option, none, some, List, [], ◌∷◌}
use doris_sync.Base.{
  ◌≡◌, refl, ap, sym, ◌∙◌, if◌then◌else◌, arith, eq_iff, Bool-cases, inl, inr, ◌⊎◌,
}
use doris_sync.Base.Act.{Result}
use doris_sync.Base.Text.{str_lt, str_lt_irrefl, str_lt_trans}
use doris_sync.Base.Table.{lookup, same_refl}
use doris_sync.Config.{S3Options}
use doris_sync.State.{HourlyState, HourlyTask, Memory, TableKey, table_key}
use doris_sync.World.{
  World, Env, Event, queried, executed, listed, deleted, saved_partition, saved_hourly, source,
  target,
}
use doris_sync.Clock.{Zone, Deps}
use doris_sync.Hourly.{sync_hourly_table}
use doris_sync.Hourly.Protocol.{
  last_saved, started, key, Legal, MaySave, MayImport, first, stay, advance, announced, Inv,
}
use doris_sync.Hourly.Table.{run_lem}

-- One for a statement that is sent while the cursor stands at the window that starts at `n`.
abbrev pub sent_at : String → Option HourlyState → ℕ
sent_at n none = 0
sent_at n (some e) = if e.next == n then 1 else 0

-- How often a statement was sent to the target for the window that starts at `n`.
abbrev pub imports : TableKey → String → List Event → ℕ
imports k n [] = 0
imports k n (executed target sql r ∷ h) = sent_at n (last_saved k h) + imports k n h
imports k n (executed source sql r ∷ h) = imports k n h
imports k n (saved_hourly j e ∷ h) = imports k n h
imports k n (queried side sql r ∷ h) = imports k n h
imports k n (listed prefix ∷ h) = imports k n h
imports k n (deleted object ∷ h) = imports k n h
imports k n (saved_partition j e ∷ h) = imports k n h

-- The cursor is behind the window that starts at `n`, or at it with its import announced.
abbrev IsPast : String → Option HourlyState → Type 0
IsPast n none = ⊥
IsPast n (some e) = (str_lt n e.next ≡ true) ⊎ ((n ≡ e.next) × (started e.pending ≡ true))

module _ (z : Zone) (s3 : S3Options) (task : HourlyTask) (n : String) where
  abbrev k : TableKey
  k = key z s3 task

  -- At most one import, and after one the cursor does not come back.
  abbrev OnceAt : List Event → Type 0
  OnceAt h = (imports k n h ≤ 1) × ((imports k n h ≡ 0) ⊎ IsPast n (last_saved k h))

  stay-IsPast :
      (old e : HourlyState)
      → started old.pending ≡ false
      → e.next ≡ old.next
      → IsPast n (some old)
      → IsPast n (some e)
  stay-IsPast old e unstarted same (inl behind) = inl (rw same behind)
  stay-IsPast old e unstarted same (inr here) = cc

  advance-IsPast :
      (old e : HourlyState) (to : String)
      → e.next ≡ to
      → str_lt old.next to ≡ true
      → IsPast n (some old)
      → IsPast n (some e)
  advance-IsPast old e to eq later (inl behind) =
      inl (rw eq (str_lt_trans n old.next to behind later))
  advance-IsPast old e to eq later (inr here) = inl (rw (eq, here.0) later)

  save-IsPast :
      (h : List Event) (e : HourlyState)
      → MaySave z s3 task h e
      → IsPast n (last_saved k h)
      → IsPast n (some e)
  save-IsPast h e (first fresh begins idle) past = absurd (rw fresh at past)
  save-IsPast h e (stay old saved unstarted ready same backed) past =
      stay-IsPast old e unstarted same (rw saved at past)
  save-IsPast h e (advance old p saved pending from eq later d) past =
      advance-IsPast old e p.to (ap (λ (x : HourlyState). x.next) eq) later (rw saved at past)

  -- The cursor cannot be at a checkpoint that announces an import for the first time, and past it.
  fresh_import :
      (h : List Event) (e : HourlyState)
      → MaySave z s3 task h e
      → started e.pending ≡ true
      → n ≡ e.next
      → ¬ IsPast n (last_saved k h)
  fresh_import h e (first fresh begins idle) st at past = cc (ap started idle)
  fresh_import h e (advance old p saved pending from eq later d) st at past =
      cc (ap (λ (x : HourlyState). started x.pending) eq)
  fresh_import h e (stay old saved unstarted ready same backed) st at past =
      not_both (rw saved at past)
    where
      not_both : IsPast n (some old) → ⊥
      not_both (inl behind) = cc (str_lt_irrefl old.next, rw (at ∙ same) at behind)
      not_both (inr here) = cc

  abbrev rest : List Event → List Event
  rest [] = []
  rest (x ∷ xs) = xs

  -- Saving keeps the count.
  save_once :
      (j : TableKey) (e : HourlyState) (h : List Event)
      → (table_key.same j k ≡ true → MaySave z s3 task h e)
      → OnceAt h
      → OnceAt (saved_hourly j e ∷ h)
  save_once j e h may (few, inl unsent) = (few, inl unsent)
  save_once j e h may (few, inr past) = elim (Bool-cases (table_key.same j k)) [
    | inl mine ↦ (few, inr (rw mine (save-IsPast h e (may mine) past)))
    | inr other ↦ (few, inr (rw other past))
  ]

  elsewhere_once :
      (h : List Event) (e : HourlyState)
      → MaySave z s3 task h e
      → OnceAt h
      → (e.next == n) ≡ false
      → (sent_at n (some e) + imports k n h ≤ 1)
        × ((sent_at n (some e) + imports k n h ≡ 0) ⊎ IsPast n (some e))
  elsewhere_once h e may (few, inl unsent) elsewhere = rw elsewhere (omega arith, inl (omega arith))
  elsewhere_once h e may (few, inr past) elsewhere =
      rw elsewhere (omega arith, inr (save-IsPast h e may past))

  here_once :
      (h : List Event) (e : HourlyState)
      → MaySave z s3 task h e
      → started e.pending ≡ true
      → OnceAt h
      → (e.next == n) ≡ true
      → (sent_at n (some e) + imports k n h ≤ 1)
        × ((sent_at n (some e) + imports k n h ≡ 0) ⊎ IsPast n (some e))
  here_once h e may begun (few, inr past) here =
      absurd (fresh_import h e may begun (sym ((eq_iff e.next n).0 here)) past)
  here_once h e may begun (few, inl unsent) here =
      rw here (omega arith, inr (inr (sym ((eq_iff e.next n).0 here), begun)))

  import_once :
      (sql : String) (r : Result (Unit {0})) (h : List Event)
      → MayImport z s3 task sql h
      → Legal z s3 task h
      → OnceAt (rest h)
      → OnceAt (executed target sql r ∷ h)
  import_once sql r _ (announced e p names {h} pending begun from eq) (may, legal) once =
      let save = may (same_refl k) in
      let st : started e.pending ≡ true = rw pending begun in
      rw (same_refl k) (elim (Bool-cases (e.next == n)) [
        | inr elsewhere ↦ elsewhere_once h e save once elsewhere
        | inl here ↦ here_once h e save st once here
      ])

  both : (h : List Event) → Legal z s3 task h → OnceAt h × OnceAt (rest h)
  both [] l = ((omega arith, inl refl), (omega arith, inl refl))
  both (saved_hourly j e ∷ h) (may, l) = let o = both h l in (save_once j e h may o.0, o.0)
  both (executed target sql r ∷ h) (may, l) =
      let o = both h l in (import_once sql r h may l o.1, o.0)
  both (executed source sql r ∷ h) l = let o = both h l in (o.0, o.0)
  both (queried side sql r ∷ h) l = let o = both h l in (o.0, o.0)
  both (listed prefix ∷ h) l = let o = both h l in (o.0, o.0)
  both (deleted object ∷ h) l = let o = both h l in (o.0, o.0)
  both (saved_partition j e ∷ h) l = let o = both h l in (o.0, o.0)

  pub once_of_Legal : (h : List Event) → Legal z s3 task h → imports k n h ≤ 1
  once_of_Legal h l = (both h l).0.0

-- Processes, one after the other: each runs over the table some times, with whatever answers from
-- outside, and may be killed at any call. A new process starts with some other memory.
pub data Processes (deps : Deps) (s3 : S3Options) (task : HourlyTask) (w₀ : World)
    : World → Type 0 where
  fresh : Processes deps s3 task w₀ w₀
  run :
      (env : Env) (fuel : ℕ) {w : World}
      → Processes deps s3 task w₀ w
      → Processes deps s3 task w₀ (sync_hourly_table env deps s3 fuel task w).1
  restart :
      (memory : Memory) {w : World}
      → Processes deps s3 task w₀ w
      → Processes deps s3 task w₀ (record w { memory = memory })

-- No checkpoint of the table, and no call yet.
pub record IsNew (task : HourlyTask) (w : World) : Type 0 where
  pub no_calls : w.history ≡ []
  pub no_row :
      lookup
        (let k : TableKey = record {
          source = task.pair.source;
          target = task.pair.target;
          table = task.table;
        } in
          k)
        w.disk.hourly_state
      ≡ none

module _ (deps : Deps) (z : Zone) (s3 : S3Options) (task : HourlyTask) (w₀ : World) where
  new-Inv : IsNew task w₀ → Inv z s3 task w₀
  new-Inv new = record {
    legal = rw new.no_calls tt;
    row = rw new.no_calls new.no_row;
    is_ready = rw new.no_calls tt;
  }

  -- From a file without a checkpoint of the table, whatever processes have run over it: each
  -- checkpoint that was saved is the first one, at the start of the task, or stays at its window, for
  -- which no import was announced before, and has exported it if it calls the backup complete, or passes a window whose import has just returned without
  -- an error or in which the source has just shown no row; each statement to the target is the import
  -- that the checkpoint saved right before it announces; and the file holds the checkpoint that was
  -- saved last.
  pub Processes-Inv :
      deps.load_location task.time_zone ≡ some z
      → IsNew task w₀
      → (w : World) → Processes deps s3 task w₀ w
      → Inv z s3 task w
  Processes-Inv located new w fresh = new-Inv new
  Processes-Inv located new w (run env fuel {w = v} p) =
      run_lem env deps z s3 task fuel v located (Processes-Inv located new v p)
  Processes-Inv located new w (restart memory {w = v} p) =
      let i = Processes-Inv located new v p in
      record { legal = i.legal; row = i.row; is_ready = i.is_ready }

  -- From a file without a checkpoint of the table, whatever processes have run over it, however
  -- they failed or were killed: for each window start, at most one statement has been sent to the
  -- target while the cursor stood there.
  pub import_once_per_window :
      deps.load_location task.time_zone ≡ some z
      → IsNew task w₀
      → (w : World) → Processes deps s3 task w₀ w
      → (n : String) → imports (key z s3 task) n w.history ≤ 1
  import_once_per_window located new w p n =
      once_of_Legal z s3 task n w.history (Processes-Inv located new w p).legal
