-- ===== src/Partition/Delta/Imports.antt =====
-- incremental.go: what `syncPartitionByMode` sends to the target.
use doris_sync.Base.{String, ◌<>◌, ◌==◌, Bool, true, not, List, [], ◌∷◌, Option, none, some}
use doris_sync.Base.{◌≡◌, refl, is_some, inl, inr, Bool-cases}
use doris_sync.Base.Table.{lookup, lookup-upsert_self, string_key}
use doris_sync.Base.Act.{Result, After, After-continue, After-wrapping, After-mono, After-answer}
use doris_sync.Config.{S3Options}
use doris_sync.Sql.{import_labeled_sql}
use doris_sync.State.{PartitionState, DeltaState}
use doris_sync.World.{World, Env, Event, source, target, exec, now}
use doris_sync.World.Keeps.{
  branch-Kept, IsOpen, Kept, Now, Now-IsStable, save_partition-Kept, list-Kept, clear-Kept,
}
use doris_sync.Database.Keeps.{query-Keeps, partitions-Keeps, lift-Keeps}
use doris_sync.Database.Match.{match_target_partition}
use doris_sync.SyncState.{save_partition}
use doris_sync.Base.Text.{has_prefix}
use doris_sync.Clock.{Deps}
use doris_sync.Hourly.Window.{equal_strings}
use doris_sync.Store.{uri}
use doris_sync.Partition.Full.{
  Job, job_key, source_identity, entry_at, entry_or_blank, assign, assign_and_save, require_current,
  target_match, is_current, sync_partition,
}
use doris_sync.Partition.Announce.{Guarded, announced, of_delta, Recorded, save-Recorded}
use doris_sync.Partition.Imports.{sync_partition-Guarded}
use doris_sync.Partition.Delta.{
  is_at, max_time, single_max, has_new_time, checked_watermark, seed_watermark, finish_delta,
  seeded, finished_delta, require_source, set_delta, import_delta, record_delta, backup_delta,
  resume_delta, start_delta, copy_and_seed, advance_partition, needs_full, sync_window_mode,
  sync_partition_by_mode,
}

module _ (env : Env) (deps : Deps) (auto_range : String → Bool) (s3 : S3Options) (force : Bool)
    (prepares : String → Type 0) (j : Job) where
  abbrev G : List Event → Type 0
  G = Guarded s3 prepares

  pub Guarded-IsOpen : IsOpen G
  Guarded-IsOpen = record {
    at_query = λ side sql r h g. g;
    at_list = λ prefix h g. g;
    at_delete = λ key h g. g;
    at_save = λ key e h g. g;
  }

  abbrev Ok : {A : Type 0} → Result A × World → Type 0
  Ok r = Kept env G r

  full_lem :
      (w : World) → G w.history → Ok (sync_partition env deps.is_int64 auto_range s3 force j w)
  full_lem w g =
      After-mono _ (sync_partition-Guarded env deps.is_int64 auto_range s3 force prepares j w g)
        (λ _ i. i) (λ _ _ h. h.safe)

  save_lem :
      (f : PartitionState → PartitionState) (w : World)
      → G w.history
      → Ok (assign_and_save env deps.is_int64 auto_range s3 force (job_key j) f w)
  unfolding assign_and_save now
  save_lem f w g = save_partition-Kept env G Guarded-IsOpen (job_key j) _ g

  lift_lem : {A : Type 0} (r : Result A) (w : World) → G w.history → Ok (r, w)
  lift_lem r w g = lift-Keeps env deps.is_int64 (Now-IsStable env G Guarded-IsOpen) r w g

  max_lem : (w : World) → G w.history → Ok (max_time env deps auto_range s3 force j w)
  unfolding max_time
  max_lem w g =
      After-continue _ _
        (query-Keeps env deps.is_int64 (Now-IsStable env G Guarded-IsOpen) source _ w g)
        λ rows w₁ g₁. lift_lem (single_max rows) w₁ g₁

  current_lem :
      (complaint : String) (w : World)
      → G w.history
      → Ok (require_current env deps.is_int64 auto_range s3 force j complaint w)
  unfolding require_current
  current_lem complaint w g =
      After-continue _ _
        (partitions-Keeps env deps.is_int64 (Now-IsStable env G Guarded-IsOpen) source j.pair.source
          j.table w g)
        λ parts w₁ g₁. elim (Bool-cases (is_current parts j.part)) [
          | inl still ↦ rw still (record { holds = g₁ })
          | inr gone ↦ rw gone (record { holds = g₁ })
        ]

  match_lem :
      (w : World) → G w.history → Ok (target_match env deps.is_int64 auto_range s3 force j w)
  unfolding target_match
  match_lem w g =
      After-continue _ _
        (partitions-Keeps env deps.is_int64 (Now-IsStable env G Guarded-IsOpen) target j.pair.target
          j.table w g)
        λ parts w₁ g₁. lift_lem (match_target_partition j.part parts) w₁ g₁

  source_lem :
      (d : DeltaState) (complaint : String) (w : World)
      → G w.history
      → Ok (require_source env deps auto_range s3 force j d complaint w)
  unfolding require_source
  source_lem d complaint w g =
      After-continue _ _
        (partitions-Keeps env deps.is_int64 (Now-IsStable env G Guarded-IsOpen) source j.pair.source
          j.table w g)
        λ parts w₁ g₁. elim (Bool-cases (is_at parts j.part.name d.source_identity)) [
          | inl same ↦ rw same (record { holds = g₁ })
          | inr differ ↦ rw differ (
              After-continue _ _ (save_partition-Kept env G Guarded-IsOpen (job_key j) _ g₁)
                λ _ w₂ g₂. record { holds = g₂ })
        ]

  seed_lem : (w : World) → G w.history → Ok (seed_watermark env deps auto_range s3 force j w)
  unfolding seed_watermark
  seed_lem w g = After-continue _ _ (max_lem w g) λ value w₁ g₁.
      After-continue _ _ (lift_lem (checked_watermark deps value) w₁ g₁) λ _ w₂ g₂.
        After-continue _ _ (current_lem _ w₂ g₂)
          λ _ w₃ g₃. save_lem (seeded env deps auto_range s3 force value) w₃ g₃

  copy_lem : (w : World) → G w.history → Ok (copy_and_seed env deps auto_range s3 force j w)
  unfolding copy_and_seed
  copy_lem w g = After-continue _ _ (full_lem w g) λ _ w₁ g₁. seed_lem w₁ g₁

  -- An announced delta, and its import.
  abbrev Pending : DeltaState → PartitionState → Type 0
  Pending d e = e.pending_delta ≡ some d

  send_lem :
      (d : DeltaState) (w : World)
      → d.import_started ≡ true
      → d.backup_ready ≡ true
      → Recorded env s3 prepares (job_key j) (Pending d) w
      → Ok (
          exec env target
            (import_labeled_sql j.pair.target j.table
              (uri s3 d.prefix <> "*.parquet")
              j.columns
              d.label
              s3)
            w)
  unfolding exec
  send_lem d w started ready r =
      let may = announced (rw r.newest (of_delta j d r.of_name r.has.fits started ready refl)) in
      After-answer (env.exec w.calls) _ (inr may, r.has.safe) (λ _ _. (inr may, r.has.safe))

  announce_lem :
      (d : DeltaState) (w : World)
      → G w.history
      → After
          (Now env G)
          (λ _ w'. Recorded env s3 prepares (job_key j) (Pending d) w')
          (save_partition env
            (job_key j)
            (assign (job_key j) (set_delta env deps auto_range s3 force (some d)) w).1)
  announce_lem d w g = save-Recorded env s3 prepares (job_key j) _ (record {
    safe = g;
    entry = set_delta env deps auto_range s3 force (some d) (entry_at (job_key j) w);
    there = lookup-upsert_self (job_key j) _ w.memory.partitions;
    fits = refl;
  })

  import_lem :
      (d : DeltaState) (w : World)
      → d.backup_ready ≡ true
      → G w.history
      → Ok (import_delta env deps auto_range s3 force j d w)
  unfolding import_delta finish_delta
  import_lem d w ready g =
      After-continue _ _ (list-Kept env G Guarded-IsOpen d.prefix w g) λ actual w₁ g₁.
        elim (Bool-cases (equal_strings actual d.objects)) [
          | inr differ ↦ rw differ (record { holds = g₁ })
          | inl same ↦ elim (Bool-cases d.import_started) [
            | inl started ↦ simp (same, started) (record { holds = g₁ })
            | inr fresh ↦
                simp (same, fresh)
                  (After-continue _ _ (source_lem d _ w₁ g₁) λ _ w₂ g₂.
                    After-continue _ _ (announce_lem (record d { import_started = true }) w₂ g₂)
                      λ _ w₃ r.
                        After-continue _ _ (After-wrapping _ _ (send_lem _ w₃ refl ready r))
                          λ _ w₄ g₄. save_lem (finished_delta env deps auto_range s3 force d) w₄ g₄)
          ]
        ]

  record_lem :
      (d : DeltaState) (objects : List String) (w : World)
      → G w.history
      → Ok (record_delta env deps auto_range s3 force j d objects w)
  unfolding record_delta
  record_lem d [] w g = record { holds = g }
  record_lem d (o ∷ os) w g = After-continue _ _ (source_lem d _ w g) λ _ w₁ g₁.
      After-continue _ _ (save_partition-Kept env G Guarded-IsOpen (job_key j) _ g₁)
        λ _ w₂ g₂. import_lem (record d { objects = o ∷ os; backup_ready = true }) w₂ refl g₂

  resume_lem :
      (d : Option DeltaState) (w : World)
      → G w.history
      → Ok (resume_delta env deps auto_range s3 force j d w)
  unfolding resume_delta backup_delta
  resume_lem none w g = record { holds = g }
  resume_lem (some d) w g = elim (Bool-cases d.backup_ready) [
    | inl ready ↦ simp ready (import_lem d w ready g)
    | inr unready ↦ simp unready (
        After-continue _ _ (clear-Kept env G Guarded-IsOpen s3 d.prefix w g) λ _ w₁ g₁.
          After-continue _ _
            (After-wrapping _ _
              (query-Keeps env deps.is_int64 (Now-IsStable env G Guarded-IsOpen) source _ w₁ g₁))
            λ _ w₂ g₂.
              After-continue _ _ (list-Kept env G Guarded-IsOpen d.prefix w₂ g₂)
                λ objects w₃ g₃. record_lem d objects w₃ g₃)
  ]

  start_lem :
      (from to : String) (w : World)
      → G w.history
      → Ok (start_delta env deps auto_range s3 force j from to w)
  unfolding start_delta now
  start_lem from to w g =
      After-continue _ _ (save_partition-Kept env G Guarded-IsOpen (job_key j) _ g)
        λ _ w₁ g₁. resume_lem _ w₁ g₁

  advance_lem :
      (e : PartitionState) (w : World)
      → G w.history
      → Ok (advance_partition env deps auto_range s3 force j e w)
  unfolding advance_partition
  advance_lem e w g = After-continue _ _ (match_lem w g) λ found w₁ g₁.
      elim (Bool-cases (is_some found)) [
        | inr gone ↦ rw gone (copy_lem w₁ g₁)
        | inl there ↦ rw there (
            After-continue _ _ (max_lem w₁ g₁) λ new_max w₂ g₂.
              After-continue _ _ (lift_lem (has_new_time deps e.watermark new_max) w₂ g₂)
                λ new_time w₃ g₃.
                  branch-Kept env G new_time _ _ w₃ (start_lem e.watermark new_max w₃ g₃)
                    (copy_lem w₃ g₃))
      ]

  window_lem :
      (found : Option PartitionState) (w : World)
      → G w.history
      → Ok (sync_window_mode env deps auto_range s3 force j found w)
  unfolding sync_window_mode
  window_lem found w g =
      let e = entry_or_blank found in
      branch-Kept env G (needs_full env deps auto_range s3 force found) _ _ w (copy_lem w g) (
        branch-Kept env G (is_some e.pending_delta) _ _ w (resume_lem e.pending_delta w g) (
          branch-Kept env G (e.imported_identity == source_identity j.part) _ _ w (full_lem w g) (
            branch-Kept env G (not (has_prefix e.imported_identity (j.part.id <> ":"))) _ _ w
              (copy_lem w g) (advance_lem e w g))))

  -- What syncPartitionByMode sends is announced as well, a delta by the record that marks it started.
  pub sync_partition_by_mode-Guarded :
      (w : World)
      → Guarded s3 prepares w.history
      → After
          (λ w'. Guarded s3 prepares w'.history)
          (λ _ w'. Guarded s3 prepares w'.history)
          (sync_partition_by_mode env deps auto_range s3 force j w)
  unfolding sync_partition_by_mode
  sync_partition_by_mode-Guarded w g = elim (Bool-cases (w.memory.mode == "overwrite")) [
    | inl whole ↦ rw whole (full_lem w g)
    | inr window ↦ rw window (window_lem (lookup (job_key j) w.memory.partitions) w g)
  ]
