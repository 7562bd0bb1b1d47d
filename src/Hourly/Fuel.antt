-- ===== src/Hourly/Fuel.antt =====
-- hourly.go: the loop of `syncHourlyTable` ends.
use doris_sync.Base.{ℕ, String, ◌==◌, true, false, not, ◌||◌, ◌&&◌, List, [], ◌∷◌, none, some}
use doris_sync.Base.{◌≡◌, refl, ◌∙◌, is_nil, arith, eq_iff, inl, inr, Bool-cases, if◌then◌else◌}
use doris_sync.Base.Act.{Result, ok, err, killed, After, After-continue, After-wrapping, After-mono}
use doris_sync.Config.{S3Options}
use doris_sync.State.{HourlyPending, HourlyState, HourlyTask}
use doris_sync.Store.{list, backup_generation_prefix}
use doris_sync.World.{query, exec, source, target}
use doris_sync.World.{World, Env}
use doris_sync.Rows.{Row}
use doris_sync.Clock.{Zone, Deps}
use doris_sync.Hourly.Window.{
  open_window, save_hourly, equal_strings, save_completed_hourly, finish_hourly, start_import,
  import_window, ready_window, record_backup, export_window, after_probe, backup_window, run_window,
  sync_hourly_window,
}

abbrev pub Always : World → Type 0
Always _ = Unit

pub any_run : {A : Type 0} (r : Result A × World) → After Always (λ _ _. Unit) r
any_run (ok a, w) = record { holds = tt }
any_run (err e, w) = record { holds = tt }
any_run (killed, w) = record { holds = tt }

-- A window that returns has moved the cursor to its end.
module _ (env : Env) (deps : Deps) (s3 : S3Options) (z : Zone) (task : HourlyTask) where
  abbrev pub EndsAt : String → HourlyState → World → Type 0
  EndsAt to e w = e.next ≡ to

  finish_lem :
      (next : String) (p : HourlyPending) (w : World)
      → After Always (EndsAt p.to) (finish_hourly env deps s3 task.pair task.table next p w)
  unfolding finish_hourly
  finish_lem next p w = elim (Bool-cases (p.from == next)) [
    | inl here ↦
        let completed : HourlyState = record { next = p.to; pending = none } in
        rw here (
          After-continue _ _
            (any_run (save_completed_hourly env deps s3 task.pair task.table completed w))
            λ _ _ _. record { holds = refl })
    | inr other ↦ rw other (record { holds = tt })
  ]

  start_lem :
      (names : List String) (next : String) (p : HourlyPending) (w : World)
      → After Always (EndsAt p.to) (start_import env deps s3 task names next p w)
  unfolding start_import
  start_lem names next p w =
      let started : HourlyPending = record p { import_started = true } in
      let entry : HourlyState = record { next = next; pending = some started } in
      After-continue _ _ (any_run (save_hourly env deps s3 task.pair task.table entry w)) λ _ w₁ _.
        After-continue _ _ (After-wrapping _ _ (any_run (exec env target _ w₁)))
          λ _ w₂ _. finish_lem next started w₂

  import_lem :
      (names : List String) (next : String) (p : HourlyPending) (w : World)
      → After Always (EndsAt p.to) (import_window env deps s3 task names next p w)
  unfolding import_window
  import_lem names next p w = After-continue _ _ (any_run (list env p.prefix w)) λ actual w₁ _.
      elim (Bool-cases (equal_strings actual p.objects)) [
        | inr differ ↦ rw differ (record { holds = tt })
        | inl same ↦ rw same (elim (Bool-cases p.import_started) [
          | inl again ↦ rw again (record { holds = tt })
          | inr first ↦ simp first (start_lem names next p w₁)
        ])
      ]

  ready_lem :
      (names : List String) (next : String) (p : HourlyPending) (w : World)
      → After Always (EndsAt p.to) (ready_window env deps s3 task names next p w)
  unfolding ready_window
  ready_lem names next p w =
      elim (Bool-cases (p.prefix == "" || p.label == "" || is_nil p.objects)) [
        | inl incomplete ↦ rw incomplete (record { holds = tt })
        | inr complete ↦ rw complete (import_lem names next p w)
      ]

  record_lem :
      (names : List String) (next : String) (p : HourlyPending) (objects : List String) (w : World)
      → After Always (EndsAt p.to) (record_backup env deps s3 task names next p objects w)
  unfolding record_backup
  record_lem names next p [] w = record { holds = tt }
  record_lem names next p (o ∷ os) w =
      let backed : HourlyPending = record p { objects = o ∷ os; backup_ready = true } in
      let entry : HourlyState = record { next = next; pending = some backed } in
      After-continue _ _ (any_run (save_hourly env deps s3 task.pair task.table entry w))
        λ _ w₁ _. ready_lem names next backed w₁

  probe_lem :
      (names : List String) (next : String) (p : HourlyPending) (where_clause : String)
      (rows : List Row) (w : World)
      → After Always (EndsAt p.to) (after_probe env deps s3 task names next p where_clause rows w)
  unfolding after_probe export_window
  probe_lem names next p where_clause [] w = finish_lem next p w
  probe_lem names next p where_clause (row ∷ rows) w =
      After-continue _ _ (After-wrapping _ _ (any_run (query env source _ w))) λ _ w₁ _.
        After-continue _ _ (any_run (list env p.prefix w₁))
          λ objects w₂ _. record_lem names next p objects w₂

  backup_lem :
      (names : List String) (next : String) (p : HourlyPending) (start end : ℕ) (w : World)
      → After Always (EndsAt p.to) (backup_window env deps s3 z task names next p start end w)
  unfolding backup_window
  backup_lem names next p start end w =
      After-continue _ _ (any_run (backup_generation_prefix env _ w)) λ prefix w₁ _.
        After-continue _ _ (any_run (save_hourly env deps s3 task.pair task.table _ w₁)) λ _ w₂ _.
          After-continue _ _ (any_run (query env source _ w₂))
            λ rows w₃ _. probe_lem names next _ _ rows w₃

  fits :
      (p : HourlyPending) (start end : ℕ)
      → not (p.from == z.format start && p.to == z.format end) ≡ false
      → p.to ≡ z.format end
  fits p start end h = ground (arith, eq_iff p.from (z.format start), eq_iff p.to (z.format end))

  run_lem :
      (names : List String) (next : String) (p : HourlyPending) (start end : ℕ) (w : World)
      → After Always
          (EndsAt (z.format end))
          (run_window env deps s3 z task names next p start end w)
  unfolding run_window
  run_lem names next p start end w =
      elim (Bool-cases (not (p.from == z.format start && p.to == z.format end))) [
        | inl other ↦ rw other (record { holds = tt })
        | inr same ↦
            let ends : After Always (EndsAt p.to) (
                (if p.backup_ready
                    then ready_window env deps s3 task names next p
                    else backup_window env deps s3 z task names next p start end)
                  w) =
              elim (Bool-cases p.backup_ready) [
                | inl done ↦ simp done (ready_lem names next p w)
                | inr todo ↦ simp todo (backup_lem names next p start end w)
              ] in
            rw same (After-mono _ ends (λ _ i. i) (λ _ _ e. e ∙ fits p start end same))
      ]

  pub window_lem :
      (names : List String) (entry : HourlyState) (start end : ℕ) (w : World)
      → After Always
          (EndsAt (z.format end))
          (sync_hourly_window env deps s3 z task names entry start end w)
  unfolding sync_hourly_window
  window_lem names entry start end w =
      After-continue _ _
        (any_run (
          open_window env deps s3 task.pair task.table entry.next entry.pending (z.format start)
            (z.format end) w))
        λ p w₁ _. run_lem names entry.next p start end w₁
