-- ===== src/Hourly/Unknown.antt =====
-- hourly.go: a window whose import was announced before an interruption.
use doris_sync.Base.{ℕ, String, ◌==◌, ◌||◌, ◌&&◌, true, not, List, ◌∷◌, some}
use doris_sync.Base.{◌≡◌, refl, is_nil, ◌⊎◌, inl, inr, Bool-cases}
use doris_sync.Base.Act.{After, After-continue, After-mono, After-answer}
use doris_sync.Config.{S3Options}
use doris_sync.State.{HourlyPending, HourlyTask}
use doris_sync.World.{World, Env, listed, objects, log}
use doris_sync.Store.{list}
use doris_sync.Clock.{Zone, Deps}
use doris_sync.Hourly.Window.{
  equal_strings, import_window, ready_window, run_window, open_window, sync_hourly_window,
}

-- A run that has listed the backup, and has changed and sent nothing.
abbrev OnlyListed : World → String → World → Type 0
OnlyListed w prefix w' =
    (w'.disk ≡ w.disk) × (w'.memory ≡ w.memory) × (w'.history ≡ listed prefix ∷ w.history)

abbrev pub Never : {A : Type 0} → A → World → Type 0
Never _ _ = ⊥

list-OnlyListed :
    (env : Env) (prefix : String) (w : World)
    → After (OnlyListed w prefix) (λ _ w'. OnlyListed w prefix w') (list env prefix w)
unfolding list objects
list-OnlyListed env prefix w =
    After-continue _ _
      (After-answer {I = OnlyListed w prefix} {Q = λ _ w'. OnlyListed w prefix w'}
        (env.objects w.calls) (log (listed prefix) w) (refl, refl, refl)
        (λ _ _. (refl, refl, refl)))
      λ _ _ k. record { holds = k }

-- At most a listing of the backup, and no change.
abbrev pub AtMostListed : World → String → World → Type 0
AtMostListed w prefix w' =
    (w'.disk ≡ w.disk)
    × (w'.memory ≡ w.memory)
    × ((w'.history ≡ w.history) ⊎ (w'.history ≡ listed prefix ∷ w.history))

module _ (env : Env) (deps : Deps) (s3 : S3Options) (z : Zone) (task : HourlyTask) where
  import_lem :
      (names : List String) (next : String) (p : HourlyPending) (w : World)
      → p.import_started ≡ true
      → After (AtMostListed w p.prefix) Never (import_window env deps s3 task names next p w)
  unfolding import_window
  import_lem names next p w started = simp started (
      After-continue {Q = λ _ w'. AtMostListed w p.prefix w'} _ _
        (After-mono _ (list-OnlyListed env p.prefix w) (λ _ k. (k.0, k.1, inr k.2))
          (λ _ _ k. (k.0, k.1, inr k.2)))
        λ actual w₁ k. elim (Bool-cases (equal_strings actual p.objects)) [
          | inl same ↦ rw same (record { holds = k })
          | inr differ ↦ rw differ (record { holds = k })
        ])

  ready_lem :
      (names : List String) (next : String) (p : HourlyPending) (w : World)
      → p.import_started ≡ true
      → After (AtMostListed w p.prefix) Never (ready_window env deps s3 task names next p w)
  unfolding ready_window
  ready_lem names next p w started =
      elim (Bool-cases (p.prefix == "" || p.label == "" || is_nil p.objects)) [
        | inl incomplete ↦ rw incomplete (record { holds = (refl, refl, inl refl) })
        | inr complete ↦ rw complete (import_lem names next p w started)
      ]

  run_window_lem :
      (names : List String) (next : String) (p : HourlyPending) (start end : ℕ) (w : World)
      → p.backup_ready ≡ true
      → p.import_started ≡ true
      → After
          (AtMostListed w p.prefix)
          Never
          (run_window env deps s3 z task names next p start end w)
  unfolding run_window
  run_window_lem names next p start end w ready started =
      elim (Bool-cases (not (p.from == z.format start && p.to == z.format end))) [
        | inl other ↦ rw other (record { holds = (refl, refl, inl refl) })
        | inr same ↦ rw same (simp ready (ready_lem names next p w started))
      ]

  -- A window whose import was announced never completes by itself: a run over it at most lists the
  -- backup, changes neither the memory nor the file, sends nothing, and does not end without an
  -- error.
  pub sync_hourly_window-AtMostListed :
      (names : List String) (next : String) (p : HourlyPending) (start end : ℕ) (w : World)
      → p.backup_ready ≡ true
      → p.import_started ≡ true
      → After (AtMostListed w p.prefix) Never (
          sync_hourly_window env deps s3 z task names
            (record { next = next; pending = some p })
            start
            end
            w)
  unfolding sync_hourly_window open_window
  sync_hourly_window-AtMostListed names next p start end w ready started =
      run_window_lem names next p start end w ready started
