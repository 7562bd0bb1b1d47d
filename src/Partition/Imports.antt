-- ===== src/Partition/Imports.antt =====
-- main.go: `syncPartition` sends what its last record announces, and what it ends with.
use doris_sync.Base.{String, Bool, true, false, not, ◌&&◌, List, ◌∷◌, Option, none, some}
use doris_sync.Base.{
  ◌≡◌, refl, ap, arith, eq_iff, is_nil, is_some, inl, inr, Bool-cases, if◌then◌else◌,
}
use doris_sync.Base.Table.{lookup-upsert_self, string_key}
use doris_sync.Base.Act.{
  Result, ok, After, After-continue, After-wrapping, After-answer, After-mono, pure,
}
use doris_sync.Config.{S3Options}
use doris_sync.State.{PartitionState}
use doris_sync.World.{World, Env, executed, target, log, exec}
use doris_sync.Database.Range.{Partition}
use doris_sync.Hourly.Window.{equal_strings}
use doris_sync.Partition.Full.{
  Job, job_key, source_identity, entry_at, assign, check_complete, needs_backup, backup_if_needed,
  send, exec_auto_partition_overwrite, import_backup, import_entry, copy_partition, is_complete,
  sync_entry, sync_partition, finished, confirm_import, deliver, in_progress,
}
use doris_sync.Partition.Announce.{
  LoadsBackup, overwrites, overwrites_auto, inserts, of_backup, Announced, Guarded, MaySend,
  announced, after_set, sets, auto_create_sql, Safe, Has, Recorded, Keeps, list-Keeps,
}
use doris_sync.Partition.Order.{
  Any, Backed, IsImported, name, identity, saved_lem, assigned_lem, current_lem, match_lem,
  target_lem, arrived_lem, backup_lem,
}

-- An entry that is backed up with the files of another one, and such an entry whose import is
-- announced.
abbrev BackedAs : String → PartitionState → PartitionState → Type 0
BackedAs identity e x =
    (e.backup_prefix ≡ x.backup_prefix) × (e.objects ≡ x.objects) × Backed identity x

abbrev AnnouncingAs : String → PartitionState → PartitionState → Type 0
AnnouncingAs identity e x = (x.import_in_progress ≡ true) × BackedAs identity e x

module _ (env : Env) (is_int64 auto_range : String → Bool) (s3 : S3Options) (force : Bool)
    (prepares : String → Type 0) (j : Job) where
  abbrev n : String
  n = name env is_int64 auto_range s3 force prepares j

  abbrev v : String
  v = identity env is_int64 auto_range s3 force prepares j

  abbrev St : World → Type 0
  St = Safe env s3 prepares n

  abbrev Ht : (PartitionState → Type 0) → World → Type 0
  Ht P = Has env s3 prepares n P

  abbrev Kt : (PartitionState → Type 0) → {A : Type 0} → Result A × World → Type 0
  Kt P = Keeps env s3 prepares n P

  abbrev Rt : (PartitionState → Type 0) → World → Type 0
  Rt P = Recorded env s3 prepares n P

  -- The files of an entry are those of the entry that it is like.
  loads_lem :
      (e x : PartitionState) (sql : String)
      → e.backup_prefix ≡ x.backup_prefix
      → e.objects ≡ x.objects
      → LoadsBackup s3 j e sql
      → LoadsBackup s3 j x sql
  loads_lem e x sql prefix objects (overwrites part eq) =
      overwrites part (rw (prefix, objects) at eq)
  loads_lem e x sql prefix objects (overwrites_auto eq) = overwrites_auto (rw prefix at eq)
  loads_lem e x sql prefix objects (inserts eq) = inserts (rw prefix at eq)

  -- A record of an entry whose import is announced lets a load of its backup pass.
  announced_lem :
      (e : PartitionState) (sql : String) (w : World)
      → LoadsBackup s3 j e sql
      → Rt (AnnouncingAs v e) w
      → Announced s3 sql w.history
  announced_lem e sql w loads r =
      let fits = r.has.fits in
      rw r.newest (
        of_backup j r.of_name fits.0 fits.1.2.0 fits.1.2.1
          (loads_lem e r.has.entry sql fits.1.0 fits.1.1 loads))

  exec_lem :
      (sql : String) (w : World) {P : PartitionState → Type 0}
      → MaySend s3 sql w.history
      → Ht P w
      → After St
          (λ _ w'. Ht Any w' × (w'.history ≡ executed target sql (ok tt) ∷ w.history))
          (exec env target sql w)
  unfolding exec
  exec_lem sql w may has =
      let h : Ht Any (log (executed target sql (env.exec w.calls)) w) = record {
        safe = (inr may, has.safe);
        entry = has.entry;
        there = has.there;
        fits = tt;
      } in
      After-answer (env.exec w.calls) _ h.safe
        λ _ eq. (h, ap (λ answer. executed target sql answer ∷ w.history) eq)

  one_exec :
      (e : PartitionState) (sql : String) (w : World)
      → LoadsBackup s3 j e sql
      → Rt (AnnouncingAs v e) w
      → Kt Any (exec env target sql w)
  one_exec e sql w loads r =
      After-mono _ (exec_lem sql w (announced (announced_lem e sql w loads r)) r.has) (λ _ i. i)
        (λ _ _ q. q.0)

  auto_lem :
      (e : PartitionState) (sql : String) (w : World)
      → LoadsBackup s3 j e sql
      → Rt (AnnouncingAs v e) w
      → Kt Any (exec_auto_partition_overwrite env is_int64 auto_range s3 force sql w)
  unfolding exec_auto_partition_overwrite
  auto_lem e sql w loads r =
      let a = announced_lem e sql w loads r in
      After-continue _ _ (After-wrapping _ _ (exec_lem auto_create_sql w (sets sql refl a) r.has))
        λ _ w₁ q.
          After-mono _ (exec_lem sql w₁ (after_set (rw q.1 (refl, a))) q.0) (λ _ i. i)
            (λ _ _ k. k.0)

  send_lem :
      (e : PartitionState) (found : Option Partition) (w : World)
      → Rt (AnnouncingAs v e) w
      → Kt Any (send env is_int64 auto_range s3 force j e found w)
  unfolding send
  send_lem e (some p) w r = After-wrapping _ _ (one_exec e _ w (overwrites p.name refl) r)
  send_lem e none w r = elim (Bool-cases (force && not (is_nil e.objects))) [
    | inl forced ↦ rw forced (After-wrapping _ _ (auto_lem e _ w (overwrites_auto refl) r))
    | inr plain ↦ rw plain (elim (Bool-cases (is_nil e.objects)) [
      | inl empty ↦ rw empty (record {
        holds = record { safe = r.has.safe; entry = r.has.entry; there = r.has.there; fits = tt };
      })
      | inr full ↦ rw full (After-wrapping _ _ (one_exec e _ w (inserts refl) r))
    ])
  ]

  confirm_lem :
      (objects : List String) (w : World)
      → Ht Any w
      → Kt (IsImported v) (confirm_import env is_int64 auto_range s3 force j objects w)
  unfolding confirm_import
  confirm_lem objects w h =
      After-continue _ _ (arrived_lem env is_int64 auto_range s3 force prepares j objects w h)
        λ _ w₁ h₁.
          After-continue _ _ (current_lem env is_int64 auto_range s3 force prepares j _ w₁ h₁)
            λ _ w₂ h₂.
              assigned_lem env is_int64 auto_range s3 force prepares j
                (finished env is_int64 auto_range s3 force v) w₂ h₂ (λ _ _ _. (refl, refl))

  deliver_lem :
      (e : PartitionState) (found : Option Partition) (w : World)
      → Ht (BackedAs v e) w
      → Kt (IsImported v) (deliver env is_int64 auto_range s3 force j e found w)
  unfolding deliver
  deliver_lem e found w h =
      After-continue _ _
        (saved_lem env is_int64 auto_range s3 force prepares j {R = AnnouncingAs v e}
          (in_progress env is_int64 auto_range s3 force) w h (λ _ _ b. (refl, b)))
        λ _ w₁ r. After-continue _ _ (send_lem e found w₁ r) λ _ w₂ h₂. confirm_lem e.objects w₂ h₂

  import_lem :
      (e : PartitionState) (w : World)
      → Ht (BackedAs v e) w
      → Kt (IsImported v) (import_backup env is_int64 auto_range s3 force j e w)
  unfolding import_backup
  import_lem e w h =
      After-continue _ _ (list-Keeps env s3 prepares n e.backup_prefix w h) λ current w₁ h₁.
        elim (Bool-cases (equal_strings current e.objects)) [
          | inr differ ↦ rw differ (record { holds = h₁.safe })
          | inl same ↦ rw same (
              After-continue _ _ (current_lem env is_int64 auto_range s3 force prepares j _ w₁ h₁)
                λ _ w₂ h₂.
                  After-continue _ _ (match_lem env is_int64 auto_range s3 force prepares j w₂ h₂)
                    λ found w₃ h₃.
                      After-continue _ _
                        (target_lem env is_int64 auto_range s3 force prepares j found w₃ h₃)
                        λ _ w₄ h₄. deliver_lem e found w₄ h₄)
        ]

  -- An entry that needs no new backup has one of this version.
  backed :
      (e : PartitionState) → needs_backup env is_int64 auto_range s3 force v e ≡ false → Backed v e
  backed e h = ground (arith, eq_iff e.backup_identity v)

  backed_lem :
      (w : World) → Ht Any w → Kt (Backed v) (backup_if_needed env is_int64 auto_range s3 force j w)
  unfolding backup_if_needed
  backed_lem w h =
      elim (Bool-cases (needs_backup env is_int64 auto_range s3 force v (entry_at n w))) [
        | inl needed ↦ rw needed (backup_lem env is_int64 auto_range s3 force prepares j w h)
        | inr had ↦
            let fits : Backed v h.entry = backed h.entry (rw h.there at had) in
            rw had (record {
              holds = record { safe = h.safe; entry = h.entry; there = h.there; fits = fits };
            })
      ]

  copy_lem :
      (w : World)
      → Ht Any w
      → Kt (IsImported v) (copy_partition env is_int64 auto_range s3 force j w)
  unfolding copy_partition import_entry
  copy_lem w h = After-continue _ _ (backed_lem w h) λ _ w₁ h₁.
      let fits : BackedAs v (entry_at n w₁) h₁.entry = rw h₁.there (refl, refl, h₁.fits) in
      import_lem (entry_at n w₁) w₁
        (record { safe = h₁.safe; entry = h₁.entry; there = h₁.there; fits = fits })

  -- What the check of a complete entry says.
  abbrev Checked : Bool → PartitionState → Type 0
  Checked true = IsImported v
  Checked false = Any

  complete_lem :
      (w : World)
      → Ht (IsImported v) w
      → After St
          (λ done w'. Ht (Checked done) w')
          (check_complete env is_int64 auto_range s3 force j w)
  unfolding check_complete
  complete_lem w h = elim (Bool-cases (is_nil (entry_at n w).objects)) [
    | inl empty ↦ rw empty (record { holds = h })
    | inr full ↦ rw full (
        After-continue _ _ (match_lem env is_int64 auto_range s3 force prepares j w h)
          λ found w₁ h₁. elim (Bool-cases (is_some found)) [
            | inl there ↦ rw there (record { holds = h₁ })
            | inr gone ↦ rw gone (
                After-continue _ _
                  (assigned_lem env is_int64 auto_range s3 force prepares j {R = Any}
                    (λ e. record e { imported_identity = "" }) w₁ h₁ (λ _ _ _. tt))
                  λ _ w₂ h₂. record { holds = h₂ })
          ])
  ]

  imported :
      (e : PartitionState)
      → is_complete env is_int64 auto_range s3 force v e ≡ true
      → IsImported v e
  imported e h = ground (arith, eq_iff e.imported_identity v)

  checked_lem :
      (done : Bool) (w : World)
      → Ht (Checked done) w
      → Kt
          (IsImported v)
          ((if done then pure tt else copy_partition env is_int64 auto_range s3 force j) w)
  checked_lem true w h = record { holds = h }
  checked_lem false w h = copy_lem w h

  entry_lem :
      (w : World) → Ht Any w → Kt (IsImported v) (sync_entry env is_int64 auto_range s3 force j w)
  unfolding sync_entry
  entry_lem w h =
      elim (Bool-cases (is_complete env is_int64 auto_range s3 force v (entry_at n w))) [
        | inr stale ↦ rw stale (copy_lem w h)
        | inl complete ↦
            let fits : IsImported v h.entry = imported h.entry (rw h.there at complete) in
            rw complete (
              After-continue _ _
                (complete_lem w
                  (record { safe = h.safe; entry = h.entry; there = h.there; fits = fits }))
                λ done w₁ h₁. checked_lem done w₁ h₁)
      ]

  -- If every statement to the target in the history prepares the target, or loads what the record
  -- right before it announces, a run of syncPartition leaves such a history, however it ends; and
  -- when it ends without an error, the entry in memory is imported at this version, with no import in
  -- progress. A record announces the load of its backup, into the table of its key, when it marks an
  -- import in progress and the backup of a version of its partition complete; and the load of its
  -- pending delta, when that has its backup and was started. The setting for an automatic overwrite
  -- may stand between the record and its statement.
  pub sync_partition-Guarded :
      (w : World)
      → Guarded s3 prepares w.history
      → After
          (λ w'. Guarded s3 prepares w'.history)
          (λ _ w'. Has env s3 prepares (job_key j) (IsImported (source_identity j.part)) w')
          (sync_partition env is_int64 auto_range s3 force j w)
  unfolding sync_partition
  sync_partition-Guarded w safe = entry_lem (assign n (λ e. e) w).1 (record {
    safe = safe;
    entry = entry_at n w;
    there = lookup-upsert_self n (entry_at n w) w.memory.partitions;
    fits = tt;
  })
