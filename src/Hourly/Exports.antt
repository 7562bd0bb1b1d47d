-- ===== src/Hourly/Exports.antt =====
-- hourly.go: a window whose backup is complete has been exported, and one that was passed has been
-- carried to the target or was empty.
use doris_sync.Base.{String, true, Option, none, some, List, [], ◌∷◌}
use doris_sync.Base.{◌≡◌, ◌⊎◌, refl, ap, arith, Bool-cases, inl, inr, ℕ}
use doris_sync.Base.Act.{ok, err, killed}
use doris_sync.Base.Table.{same_refl}
use doris_sync.Config.{S3Options}
use doris_sync.State.{HourlyPending, HourlyState, HourlyTask, table_key}
use doris_sync.World.{
  Event, queried, executed, listed, deleted, saved_partition, saved_hourly, source, target,
}
use doris_sync.Clock.{Zone}
use doris_sync.Hourly.Protocol.{
  last_saved, ready, key, Within, IsExport, Backed, probe_sql, import_sql, Delivered, Legal,
  MaySave, MayImport, first, stay, advance, announced,
}

module _ (z : Zone) (s3 : S3Options) (task : HourlyTask) where
  later :
      (o : Option HourlyPending) (x : Event) (h : List Event)
      → Backed z s3 task o h
      → Backed z s3 task o (x ∷ h)
  later none x h b = tt
  later (some p) x h b = λ done. inr (b done)

  nothing_pending :
      (e : HourlyState) (h : List Event) → e.pending ≡ none → Backed z s3 task e.pending h
  nothing_pending e h idle = rw idle tt

  saved-Backed :
      (e : HourlyState) (h : List Event) → MaySave z s3 task h e → Backed z s3 task e.pending h
  saved-Backed e h (first unsaved start idle) = nothing_pending e h idle
  saved-Backed e h (stay old saved unstarted ready same backed) = backed
  saved-Backed e h (advance old p saved pending from eq after d) =
      nothing_pending e h (ap (λ (x : HourlyState). x.pending) eq)

  pub last_saved-Backed :
      (h : List Event) (e : HourlyState)
      → Legal z s3 task h
      → last_saved (key z s3 task) h ≡ some e
      → Backed z s3 task e.pending h
  last_saved-Backed [] e l saved = absurd (cc saved)
  last_saved-Backed (saved_hourly j e' ∷ h) e (may, l) saved =
      elim (Bool-cases (table_key.same j (key z s3 task))) [
        | inl mine ↦
            let here : some e' ≡ some e = rw mine at saved in
            let same : e ≡ e' = cc here in
            rw same (later e'.pending _ h (saved-Backed e' h (may mine)))
        | inr other ↦ later e.pending _ h (last_saved-Backed h e l (rw other at saved))
      ]
  last_saved-Backed (executed target sql r ∷ h) e (may, l) saved =
      later e.pending _ h (last_saved-Backed h e l saved)
  last_saved-Backed (executed source sql r ∷ h) e l saved =
      later e.pending _ h (last_saved-Backed h e l saved)
  last_saved-Backed (queried side sql r ∷ h) e l saved =
      later e.pending _ h (last_saved-Backed h e l saved)
  last_saved-Backed (listed prefix ∷ h) e l saved =
      later e.pending _ h (last_saved-Backed h e l saved)
  last_saved-Backed (deleted object ∷ h) e l saved =
      later e.pending _ h (last_saved-Backed h e l saved)
  last_saved-Backed (saved_partition j x ∷ h) e l saved =
      later e.pending _ h (last_saved-Backed h e l saved)

  -- The import of the files of a window has returned without an error.
  abbrev pub IsImport : HourlyPending → Event → Type 0
  IsImport p x =
      (names : List String) × (x ≡ executed target (import_sql z s3 task names p) (ok tt))

  -- It has, and before it these files were exported.
  abbrev pub Copied : HourlyPending → List Event → Type 0
  Copied p [] = ⊥
  Copied p (x ∷ h) = (IsImport p x × Within (IsExport z s3 task p) h) ⊎ Copied p h

  -- The source has shown no row in exactly this window.
  abbrev pub IsEmpty : String → String → Event → Type 0
  IsEmpty from to x =
      (start : ℕ) × (end : ℕ) × (z.format start ≡ from)
      × (z.format end ≡ to)
      × (x ≡ queried source (probe_sql z s3 task start end) (ok []))

  -- What a history has done for a window.
  abbrev pub Carried : List Event → String → String → Type 0
  Carried h from to =
      Within (IsEmpty from to) h
      ⊎ ((p : HourlyPending) × (p.from ≡ from) × (p.to ≡ to) × Copied p h)

  pub still :
      (x : Event) (h : List Event) (from to : String) → Carried h from to → Carried (x ∷ h) from to
  still x h from to (inl empty) = inl (inr empty)
  still x h from to (inr (p, begins, ends, copied)) = inr (p, begins, ends, inr copied)

  -- The backup behind an import that was just announced.
  saved_files :
      (e : HourlyState) (p : HourlyPending) (h : List Event)
      → MaySave z s3 task h e
      → e.pending ≡ some p
      → p.import_started ≡ true
      → Within (IsExport z s3 task p) h
  saved_files e p h (first unsaved start idle) pending begun = absurd (cc (idle, pending))
  saved_files e p h (stay old saved unstarted fit same backed) pending begun =
      let mine : Backed z s3 task (some p) h = rw pending at backed in
      let fit' : ready (some p) ≡ true = rw pending at fit in mine (ground arith)
  saved_files e p h (advance old q saved due from eq after d) pending begun =
      absurd (cc (ap (λ (x : HourlyState). x.pending) eq, pending))

  imported_lem :
      (old : HourlyState) (p : HourlyPending) (sql : String) (h : List Event)
      → MayImport z s3 task sql h
      → Legal z s3 task h
      → last_saved (key z s3 task) h ≡ some old
      → old.pending ≡ some p
      → Copied p (executed target sql (ok tt) ∷ h)
  imported_lem old p sql _ (announced e q names {h} due begun from eq) (may, l) saved pending =
      let here : some e ≡ some old = rw (same_refl (key z s3 task)) at saved in
      let same : q ≡ p = cc (here, due, pending) in
      inl (
        (names, rw (eq, same) refl),
        inr (
            saved_files e p h (may (same_refl (key z s3 task))) (rw (← same) due)
              (rw (← same) begun)),
      )

  -- A window may be passed only when it has been carried to the target, or is empty.
  pub window_lem :
      (old : HourlyState) (p : HourlyPending) (h : List Event)
      → Delivered z s3 task p h
      → Legal z s3 task h
      → last_saved (key z s3 task) h ≡ some old
      → old.pending ≡ some p
      → Carried h p.from p.to
  window_lem old p (executed target sql (ok _) ∷ h) d (may, l) saved pending =
      inr (p, refl, refl, imported_lem old p sql h may l saved pending)
  window_lem old p (queried source sql (ok []) ∷ h) (start, end, begins, ends, eq) l saved pending =
      inl (inl (start, end, begins, ends, rw eq refl))
  window_lem old p [] d l saved pending = absurd d
  window_lem old p (queried source sql (ok (r ∷ rs)) ∷ h) d l saved pending = absurd d
  window_lem old p (queried source sql (err x) ∷ h) d l saved pending = absurd d
  window_lem old p (queried source sql killed ∷ h) d l saved pending = absurd d
  window_lem old p (queried target sql r ∷ h) d l saved pending = absurd d
  window_lem old p (executed source sql r ∷ h) d l saved pending = absurd d
  window_lem old p (executed target sql (err x) ∷ h) d l saved pending = absurd d
  window_lem old p (executed target sql killed ∷ h) d l saved pending = absurd d
  window_lem old p (listed prefix ∷ h) d l saved pending = absurd d
  window_lem old p (deleted object ∷ h) d l saved pending = absurd d
  window_lem old p (saved_hourly j e ∷ h) d l saved pending = absurd d
  window_lem old p (saved_partition j e ∷ h) d l saved pending = absurd d
