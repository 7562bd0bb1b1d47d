-- ===== src/Hourly/Completes.antt =====
-- hourly.go: a window completes when every call is answered.
use doris_sync.Base.{ap, ℕ, String, ◌<>◌, ◌==◌, true, false, List, [], ◌∷◌, Option, none, some}
use doris_sync.Base.{◌≡◌, refl, sym, ◌∙◌, is_nil, eq_iff}
use doris_sync.Base.Act.{After, After-continue, After-wrapping, After-mono}
use doris_sync.Config.{S3Options}
use doris_sync.Sql.{sort_texts}
use doris_sync.State.{key_of, HourlyPending, HourlyState, HourlyTask}
use doris_sync.Store.{backup_files, partition_prefix}
use doris_sync.World.{World, Env, now, tick}
use doris_sync.Rows.{Row}
use doris_sync.Clock.{Zone, Deps, delta_label}
use doris_sync.Hourly.Window.{
  open_window, save_hourly, equal_strings, save_completed_hourly, finish_hourly, start_import,
  import_window, ready_window, record_backup, export_window, after_probe, backup_window, run_window,
  sync_hourly_window, new_pending, put_hourly, put_completed,
}
use doris_sync.Hourly.Answers.{
  IsUp, NeverStops, Answered, equal_strings_refl, append_nonempty, nonempty_append, query_lem,
  exec_lem, generation, random_lem, write_lem, files, list_lem,
}

module _ (env : Env) (up : IsUp env) (deps : Deps) (s3 : S3Options) (z : Zone)
    (task : HourlyTask) where
  save_lem :
      (e : HourlyState) (w : World) → Answered (save_hourly env deps s3 task.pair task.table e w)
  unfolding save_hourly
  save_lem e w = write_lem env up (put_hourly (key_of task.pair task.table) e) w

  abbrev pub Done : String → HourlyState → World → Type 0
  Done to e w = e ≡ record { next = to; pending = none }

  finish_lem :
      (next : String) (p : HourlyPending) (w : World)
      → p.from ≡ next
      → After NeverStops (Done p.to) (finish_hourly env deps s3 task.pair task.table next p w)
  unfolding finish_hourly save_completed_hourly now
  finish_lem next p w here = rw ((eq_iff p.from next).1 here) (
      After-continue _ _
        (write_lem env up
          (put_completed env deps s3 (key_of task.pair task.table)
            (record { next = p.to; pending = none }) (env.now w.calls))
          (tick w))
        λ _ _ _. record { holds = refl })

  -- A pending window that no import was announced for, at the cursor.
  record Open (next : String) (p : HourlyPending) : Type 0 where
    here : p.from ≡ next
    unstarted : p.import_started ≡ false

  -- With the place of its files.
  record Placed (p : HourlyPending) : Type 0 where
    has_prefix : (p.prefix == "") ≡ false
    has_label : (p.label == "") ≡ false
    filled : is_nil (files env up p.prefix) ≡ false

  start_lem :
      (names : List String) (next : String) (p : HourlyPending) (w : World)
      → Open next p
      → After NeverStops (Done p.to) (start_import env deps s3 task names next p w)
  unfolding start_import
  start_lem names next p w open' =
      let started : HourlyPending = record p { import_started = true } in
      After-continue _ _ (save_lem (record { next = next; pending = some started }) w) λ _ w₁ _.
        After-continue _ _ (After-wrapping _ _ (exec_lem env up _ w₁))
          λ _ w₂ _. finish_lem next started w₂ open'.here

  import_lem :
      (names : List String) (next : String) (p : HourlyPending) (w : World)
      → Open next p
      → p.objects ≡ files env up p.prefix
      → After NeverStops (Done p.to) (import_window env deps s3 task names next p w)
  unfolding import_window
  import_lem names next p w open' same =
      After-continue _ _ (list_lem env up p.prefix w) λ actual w₁ found.
        let equal : equal_strings actual p.objects ≡ true =
          rw (found, same) (equal_strings_refl (files env up p.prefix)) in
        simp (equal, open'.unstarted) (start_lem names next p w₁ open')

  ready_lem :
      (names : List String) (next : String) (p : HourlyPending) (w : World)
      → Open next p
      → Placed p
      → p.objects ≡ files env up p.prefix
      → After NeverStops (Done p.to) (ready_window env deps s3 task names next p w)
  unfolding ready_window
  ready_lem names next p w open' placed same =
      let filled : is_nil p.objects ≡ false = rw same placed.filled in
      simp (placed.has_prefix, placed.has_label, filled) (import_lem names next p w open' same)

  record_lem :
      (names : List String) (next : String) (p : HourlyPending) (objects : List String) (w : World)
      → Open next p
      → Placed p
      → objects ≡ files env up p.prefix
      → After NeverStops (Done p.to) (record_backup env deps s3 task names next p objects w)
  unfolding record_backup
  record_lem names next p [] w open' placed same =
      absurd (let e = ap is_nil same in let full = placed.filled in cc)
  record_lem names next p (o ∷ os) w open' placed same =
      let backed : HourlyPending = record p { objects = o ∷ os; backup_ready = true } in
      After-continue _ _ (save_lem (record { next = next; pending = some backed }) w) λ _ w₁ _.
        ready_lem names next backed w₁ (record { here = open'.here; unstarted = open'.unstarted })
          (record {
            has_prefix = placed.has_prefix;
            has_label = placed.has_label;
            filled = placed.filled;
          })
          same

  probe_lem :
      (names : List String) (next : String) (p : HourlyPending) (where_clause : String)
      (rows : List Row) (w : World)
      → Open next p
      → Placed p
      → After NeverStops (Done p.to) (after_probe env deps s3 task names next p where_clause rows w)
  unfolding after_probe export_window
  probe_lem names next p where_clause [] w open' placed = finish_lem next p w open'.here
  probe_lem names next p where_clause (row ∷ rows) w open' placed =
      After-continue _ _ (After-wrapping _ _ (query_lem env up _ w)) λ _ w₁ _.
        After-continue _ _ (list_lem env up p.prefix w₁)
          λ objects w₂ found. record_lem names next p objects w₂ open' placed found

  label_lem :
      (key from to identity : String) → (delta_label deps key from to identity 0 == "") ≡ false
  unfolding delta_label
  label_lem key from to identity = nonempty_append "ps_" _ refl

  -- Where the backup of a window is put.
  abbrev pub window_prefix : ℕ → String
  window_prefix start = generation env up (
      partition_prefix s3 task.pair.source task.pair.target task.table
        ("hourly_" <> z.utc_stamp start))

  abbrev pub Exported : ℕ → Type 0
  Exported start = is_nil (files env up (window_prefix start)) ≡ false

  placed_lem :
      (start : ℕ) (prefix : String) (p : HourlyPending)
      → Exported start
      → prefix ≡ window_prefix start
      → p.prefix ≡ prefix
      → (p.label == "") ≡ false
      → Placed p
  placed_lem start prefix p exported at_window at_prefix label = record {
    has_prefix =
        rw (at_prefix, at_window)
          (append_nonempty _ _ (nonempty_append "full/" (up.id <> "/") refl));
    has_label = label;
    filled = rw (at_prefix, at_window) exported;
  }

  backup_lem :
      (names : List String) (next : String) (p : HourlyPending) (start end : ℕ) (w : World)
      → Exported start
      → Open next p
      → After NeverStops (Done p.to) (backup_window env deps s3 z task names next p start end w)
  unfolding backup_window
  backup_lem names next p start end w exported open' =
      After-continue _ _ (random_lem env up _ w) λ prefix w₁ named.
        After-continue _ _ (save_lem _ w₁) λ _ w₂ _.
          After-continue _ _ (query_lem env up _ w₂) λ rows w₃ _.
            probe_lem names next _ _ rows w₃
              (record { here = open'.here; unstarted = open'.unstarted })
              (placed_lem start prefix _ exported named refl (label_lem _ _ _ _))

  -- What an interrupted run may have left of a window: nothing, a window with no complete backup, or
  -- one with its backup recorded and still in the bucket. The import was not announced.
  pub data Resumable (next to : String) : Option HourlyPending → Type 0 where
    idle : Resumable next to none
    unbacked :
        (p : HourlyPending)
        → p.from ≡ next
        → p.to ≡ to
        → p.import_started ≡ false
        → p.backup_ready ≡ false
        → Resumable next to (some p)
    backed :
        (p : HourlyPending)
        → p.from ≡ next
        → p.to ≡ to
        → p.import_started ≡ false
        → p.backup_ready ≡ true
        → (p.prefix == "") ≡ false
        → (p.label == "") ≡ false
        → is_nil p.objects ≡ false
        → p.objects ≡ sort_texts (backup_files p.prefix up.stored)
        → Resumable next to (some p)

  run_lem :
      (names : List String) (next : String) {p : HourlyPending} (start end : ℕ) (w : World)
      → Exported start
      → next ≡ z.format start
      → Resumable next (z.format end) (some p)
      → After NeverStops
          (Done (z.format end))
          (run_window env deps s3 z task names next p start end w)
  unfolding run_window
  run_lem names next start end w exported stands (unbacked p here to unstarted unready) =
      let from' = (eq_iff p.from (z.format start)).1 (here ∙ stands) in
      let to' = (eq_iff p.to (z.format end)).1 to in
      simp (from', to', unready)
        (After-mono _
          (backup_lem names next p start end w exported
            (record { here = here; unstarted = unstarted }))
          (λ _ i. i) (λ _ _ e. rw to at e))
  run_lem names next start end w exported stands
        (backed p here to unstarted ready prefix label full same) =
      let from' = (eq_iff p.from (z.format start)).1 (here ∙ stands) in
      let to' = (eq_iff p.to (z.format end)).1 to in
      simp (from', to', ready)
        (After-mono _
          (ready_lem names next p w (record { here = here; unstarted = unstarted })
            (record { has_prefix = prefix; has_label = label; filled = rw⁻¹ same full }) same)
          (λ _ i. i) (λ _ _ e. rw to at e))

  -- A window at the cursor that no import was announced for completes when every call is answered
  -- without an error and the bucket shows the same objects at each listing, with a file for the backup
  -- of the window: the run is neither stopped nor does it return an error, and leaves the cursor at the
  -- end of the window, with nothing pending. This holds for a new window and for one that an interrupted
  -- run has left, without a complete backup or with one that is still in the bucket.
  pub sync_hourly_window-Done :
      (names : List String) (entry : HourlyState) (start end : ℕ) (w : World)
      → Exported start
      → entry.next ≡ z.format start
      → Resumable entry.next (z.format end) entry.pending
      → After NeverStops
          (Done (z.format end))
          (sync_hourly_window env deps s3 z task names entry start end w)
  unfolding sync_hourly_window open_window
  sync_hourly_window-Done names entry start end w exported stands left = go entry.pending left
    where
      go :
          (pending : Option HourlyPending)
          → Resumable entry.next (z.format end) pending
          → After NeverStops (Done (z.format end)) (
              sync_hourly_window env deps s3 z task names
                (record entry { pending = pending })
                start
                end
                w)
      go (some p) r = run_lem names entry.next start end w exported stands r
      go none r =
          let p = new_pending (z.format start) (z.format end) in
          After-continue {Q = λ p' _. p' ≡ p} _ _
            (After-continue _ _ (save_lem (record { next = entry.next; pending = some p }) w)
              λ _ w₁ _. record { holds = refl })
            λ p' w₁ eq. rw eq (
              run_lem names entry.next start end w₁ exported stands
                (unbacked p (sym stands) refl refl refl))
