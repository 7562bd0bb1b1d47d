-- ===== src/Hourly/Run.antt =====
-- hourly.go: a whole window keeps the protocol, whatever fails in it.
use doris_sync.Base.{ℕ, String, ◌==◌, true, false, not, Option, none, some, List, [], ◌∷◌}
use doris_sync.Base.{◌≡◌, refl, sym, ◌∙◌, ◌||◌, ◌&&◌, arith, eq_iff, Bool-cases, inl, inr, is_nil}
use doris_sync.Base.Text.{str_lt}
use doris_sync.Base.Act.{ok, After, After-continue, After-wrapping, After-mono}
use doris_sync.Config.{S3Options}
use doris_sync.State.{HourlyPending, HourlyState, HourlyTask}
use doris_sync.World.{World, Env, Event, now, write, tick, queried, source}
use doris_sync.Rows.{RawRow, scan_rows}
use doris_sync.Store.{list}
use doris_sync.State.Keys.{state_key}
use doris_sync.Clock.{Zone, Deps, delta_label}
use doris_sync.Hourly.Window.{
  new_pending, run_window, record_backup, after_probe, hourly_where, put_completed, start_import,
  save_completed_hourly, finish_hourly, import_window, ready_window, export_window, backup_window,
  open_window, sync_hourly_window, equal_strings, save_hourly,
}
use doris_sync.Hourly.Protocol.{
  Within, IsExport, Backed, ready, ReadyRow, key, probe_sql, Delivered, MaySave, stay, advance, Inv,
  At,
}
use doris_sync.Hourly.Exports.{last_saved-Backed}
use doris_sync.Hourly.Steps.{
  list_keeps, random_keeps, query_keeps, save_lem, exec_lem, put_Here, write_answer, tick_keeps,
}

module _ (env : Env) (deps : Deps) (z : Zone) (s3 : S3Options) (task : HourlyTask) where
  -- The checkpoint behind a window: the cursor at its end, and nothing pending.
  abbrev pub passed : HourlyPending → HourlyState
  passed p = record { next = p.to; pending = none }

  abbrev pub Passed : HourlyPending → HourlyState → World → Type 0
  Passed p e w = At z s3 task e w × (e ≡ passed p)

  -- A checkpoint in memory with its pending window, which ends later than it starts.
  pub record Open (e : HourlyState) (p : HourlyPending) : Type 0 where
    pub pending : e.pending ≡ some p
    pub from : p.from ≡ e.next
    pub later : str_lt e.next p.to ≡ true

  completed_lem :
      (e : HourlyState) (p : HourlyPending) (w : World)
      → At z s3 task e w
      → Open e p
      → Delivered z s3 task p w.history
      → After
          (Inv z s3 task)
          (λ _ w'. At z s3 task (passed p) w')
          (save_completed_hourly env deps s3 task.pair task.table (passed p) w)
  unfolding save_completed_hourly now write
  completed_lem e p w h o d =
      let w₁ = tick w in
      let h₁ = tick_keeps env deps z s3 task e w h in
      let may : MaySave z s3 task w₁.history (passed p) =
        advance e p h.saved o.pending o.from refl o.later d in
      write_answer env deps z s3 task
        (put_completed env deps s3 (key z s3 task) (passed p) (env.now w.calls))
        (env.write w₁.calls) w₁ h₁.inv
        (put_Here env deps z s3 task (passed p) w₁
          (put_completed env deps s3 (key z s3 task) (passed p) (env.now w.calls) (tick w₁)) h₁.inv
          may refl refl refl)

  finish_lem :
      (e : HourlyState) (p : HourlyPending) (w : World)
      → At z s3 task e w
      → Open e p
      → Delivered z s3 task p w.history
      → After (Inv z s3 task) (Passed p) (finish_hourly env deps s3 task.pair task.table e.next p w)
  unfolding finish_hourly
  finish_lem e p w h o d =
      rw ((eq_iff p.from e.next).1 o.from)
        (After-continue _ _ (completed_lem e p w h o d) (λ _ w' h'. record { holds = (h', refl) }))

  -- The backup that the checkpoint calls complete has been exported.
  exported :
      (e : HourlyState) (p : HourlyPending) (w : World)
      → At z s3 task e w
      → Open e p
      → p.backup_ready ≡ true
      → Within (IsExport z s3 task p) w.history
  exported e p w h o b =
      let all = last_saved-Backed z s3 task w.history e h.inv.legal h.saved in
      let mine : Backed z s3 task (some p) w.history = rw o.pending at all in mine b

  start_lem :
      (names : List String) (e : HourlyState) (p : HourlyPending) (w : World)
      → At z s3 task e w
      → Open e p
      → p.backup_ready ≡ true
      → p.import_started ≡ false
      → After (Inv z s3 task) (Passed p) (start_import env deps s3 task names e.next p w)
  unfolding start_import
  start_lem names e p w h o b fresh =
      let announced : HourlyPending = record p { import_started = true } in
      let entry : HourlyState = record { next = e.next; pending = some announced } in
      let opened : Open entry announced = record {
        pending = refl;
        from = o.from;
        later = o.later;
      } in
      After-continue (save_hourly env deps s3 task.pair task.table entry w) _
        (save_lem env deps z s3 task entry w h.inv
          (stay e h.saved (rw o.pending fresh) b refl (λ _. exported e p w h o b)) b)
        λ _ w₁ s.
          After-continue _ _
            (After-wrapping _ _
              (exec_lem env deps z s3 task entry announced names w.history w₁ s refl refl o.from))
            λ _ w₂ sent. finish_lem entry announced w₂ sent.0 opened (rw sent.1.1 tt)

  import_lem :
      (names : List String) (e : HourlyState) (p : HourlyPending) (w : World)
      → At z s3 task e w
      → Open e p
      → p.backup_ready ≡ true
      → After (Inv z s3 task) (Passed p) (import_window env deps s3 task names e.next p w)
  unfolding import_window
  import_lem names e p w h o b =
      After-continue (list env p.prefix w) _ (list_keeps env deps z s3 task e p.prefix w h)
        λ actual w₁ found.
          let h₁ = found.0 in
          elim (Bool-cases (equal_strings actual p.objects)) [
            | inr differ ↦ rw differ (record { holds = h₁.inv })
            | inl same ↦ rw same (elim (Bool-cases p.import_started) [
              | inl again ↦ rw again (record { holds = h₁.inv })
              | inr fresh ↦ simp fresh (start_lem names e p w₁ h₁ o b fresh)
            ])
          ]

  ready_lem :
      (names : List String) (e : HourlyState) (p : HourlyPending) (w : World)
      → At z s3 task e w
      → Open e p
      → p.backup_ready ≡ true
      → After (Inv z s3 task) (Passed p) (ready_window env deps s3 task names e.next p w)
  unfolding ready_window
  ready_lem names e p w h o b =
      elim (Bool-cases (p.prefix == "" || p.label == "" || is_nil p.objects)) [
        | inl incomplete ↦ rw incomplete (record { holds = h.inv })
        | inr complete ↦ rw complete (import_lem names e p w h o b)
      ]

  record_lem :
      (names : List String) (e : HourlyState) (p : HourlyPending) (objects : List String)
      (w : World)
      → At z s3 task e w
      → Open e p
      → p.import_started ≡ false
      → Within (IsExport z s3 task p) w.history
      → After (Inv z s3 task) (Passed p) (record_backup env deps s3 task names e.next p objects w)
  unfolding record_backup
  record_lem names e p [] w h o fresh done = record { holds = h.inv }
  record_lem names e p (x ∷ xs) w h o fresh done =
      let backed : HourlyPending = record p { objects = x ∷ xs; backup_ready = true } in
      let entry : HourlyState = record { next = e.next; pending = some backed } in
      After-continue _ _
        (save_lem env deps z s3 task entry w h.inv
          (stay e h.saved (rw o.pending fresh) (rw fresh refl) refl (λ _. done)) (rw fresh refl))
        λ _ w₁ s.
          ready_lem names entry backed w₁ s.0
            (record { pending = refl; from = o.from; later = o.later }) refl

  export_lem :
      (names : List String) (start end : ℕ) (e : HourlyState) (p : HourlyPending) (w : World)
      → At z s3 task e w
      → Open e p
      → p.import_started ≡ false
      → z.format start ≡ p.from
      → z.format end ≡ p.to
      → After (Inv z s3 task) (Passed p) (
          export_window env deps s3 task names e.next p
            (hourly_where z task.time_field start end)
            w)
  unfolding export_window
  export_lem names start end e p w h o fresh from to =
      After-continue _ _ (After-wrapping _ _ (query_keeps env deps z s3 task e _ w h)) λ _ w₁ seen.
        After-continue _ _ (list_keeps env deps z s3 task e p.prefix w₁ seen.0) λ objects w₂ h₂.
          record_lem names e p objects w₂ h₂.0 o fresh
            (rw (h₂.1) (inr (rw (seen.1.2) (inl (start, end, names, seen.1.0, from, to, refl)))))

  probe_lem :
      (names : List String) (start end : ℕ) (e : HourlyState) (p : HourlyPending)
      (raw : List RawRow) (h : List Event) (w : World)
      → At z s3 task e w
      → Open e p
      → p.import_started ≡ false
      → z.format start ≡ p.from
      → z.format end ≡ p.to
      → w.history ≡ queried source (probe_sql z s3 task start end) (ok raw) ∷ h
      → After (Inv z s3 task) (Passed p) (
          after_probe env deps s3 task names e.next p
            (hourly_where z task.time_field start end)
            (scan_rows raw)
            w)
  unfolding after_probe scan_rows
  probe_lem names start end e p [] h w here o fresh from to seen =
      finish_lem e p w here o (rw seen (start, end, from, to, refl))
  probe_lem names start end e p (row ∷ rows) h w here o fresh from to seen =
      export_lem names start end e p w here o fresh from to

  backup_lem :
      (names : List String) (start end : ℕ) (e : HourlyState) (p : HourlyPending) (w : World)
      → At z s3 task e w
      → Open e p
      → p.import_started ≡ false
      → p.backup_ready ≡ false
      → z.format start ≡ p.from
      → z.format end ≡ p.to
      → After
          (Inv z s3 task)
          (Passed p)
          (backup_window env deps s3 z task names e.next p start end w)
  unfolding backup_window
  backup_lem names start end e p w h o fresh unready from to =
      After-continue _ _ (random_keeps env deps z s3 task e _ w h) λ prefix w₁ h₁.
        let label =
          delta_label deps (state_key task.pair.source task.pair.target task.table "hourly")
            (z.format start) (z.format end) prefix 0 in
        let q : HourlyPending = record p { prefix = prefix; objects = []; label = label } in
        let entry : HourlyState = record { next = e.next; pending = some q } in
        let opened : Open entry q = record { pending = refl; from = o.from; later = o.later } in
        After-continue _ _
          (save_lem env deps z s3 task entry w₁ h₁.inv
            (stay e h₁.saved (rw o.pending fresh) (rw fresh refl) refl
              (λ b. absurd (cc (unready, b))))
            (rw fresh refl))
          λ _ w₂ s.
            After-continue _ _ (query_keeps env deps z s3 task entry _ w₂ s.0) λ rows w₃ seen.
              rw (seen.1.1) (
                probe_lem names start end entry q seen.1.0 w₂.history w₃ seen.0 opened fresh from to
                  seen.1.2)

  fits :
      (start end : ℕ) (p : HourlyPending)
      → not (p.from == z.format start && p.to == z.format end) ≡ false
      → (z.format start ≡ p.from) × (z.format end ≡ p.to)
  fits start end p h = ground (arith, eq_iff p.from (z.format start), eq_iff p.to (z.format end))

  unstarted :
      (e : HourlyState) (p : HourlyPending) (w : World)
      → At z s3 task e w
      → e.pending ≡ some p
      → p.backup_ready ≡ false
      → p.import_started ≡ false
  unstarted e p w h pending unready =
      let fit : ReadyRow (some e) = rw h.saved at h.inv.is_ready in
      let fit' : ready (some p) ≡ true = rw pending at fit in ground arith

  opened_lem :
      (names : List String) (start end : ℕ) (e : HourlyState) (p : HourlyPending) (w : World)
      → At z s3 task e w
      → e.pending ≡ some p
      → z.format start ≡ e.next
      → str_lt (z.format start) (z.format end) ≡ true
      → After (Inv z s3 task) (Passed p) (run_window env deps s3 z task names e.next p start end w)
  unfolding run_window
  opened_lem names start end e p w h pending at later =
      elim (Bool-cases (not (p.from == z.format start && p.to == z.format end))) [
        | inl other ↦ rw other (record { holds = h.inv })
        | inr same ↦
            let (from, to) = fits start end p same in
            let o : Open e p = record {
              pending = pending;
              from = sym from ∙ at;
              later = rw (← at, ← to) later;
            } in
            rw same (elim (Bool-cases p.backup_ready) [
              | inl done ↦ simp done (ready_lem names e p w h o done)
              | inr todo ↦ simp todo (
                  backup_lem names start end e p w h o (unstarted e p w h pending todo) todo from
                    to)
            ])
      ]

  open_lem :
      (from to next : String) (o : Option HourlyPending) (w : World)
      → At z s3 task (record { next = next; pending = o }) w
      → After
          (Inv z s3 task)
          (λ p w'. At z s3 task (record { next = next; pending = some p }) w')
          (open_window env deps s3 task.pair task.table next o from to w)
  unfolding open_window
  open_lem from to next (some p) w h = record { holds = h }
  open_lem from to next none w h =
      let p = new_pending from to in
      let entry : HourlyState = record { next = next; pending = some p } in
      let idle : HourlyState = record { next = next; pending = none } in
      After-continue _ _
        (save_lem env deps z s3 task entry w h.inv (stay idle h.saved refl refl refl (λ b. cc b))
          refl)
        λ _ w₁ s. record { holds = s.0 }

  -- One window, from a checkpoint that is saved, at the cursor.
  pub window_lem :
      (names : List String) (start end : ℕ) (e : HourlyState) (w : World)
      → At z s3 task e w
      → z.format start ≡ e.next
      → str_lt (z.format start) (z.format end) ≡ true
      → After
          (Inv z s3 task)
          (λ e' w'. At z s3 task e' w')
          (sync_hourly_window env deps s3 z task names e start end w)
  unfolding sync_hourly_window
  window_lem names start end e w h at later =
      After-continue _ _ (open_lem (z.format start) (z.format end) e.next e.pending w h) λ p w₁ h₁.
        After-mono _
          (opened_lem names start end (record { next = e.next; pending = some p }) p w₁ h₁ refl at
            later)
          (λ _ i. i) (λ _ _ q. q.0)
