-- ===== src/Partition/Order.antt =====
-- main.go: `syncPartition` records an import in the file before it sends it.
use doris_sync.Base.{ℕ, String, Bool, true, false, List, [], ◌∷◌, Option, none, some}
use doris_sync.Base.{◌≡◌, refl, is_nil, is_some, inl, inr, Bool-cases}
use doris_sync.Base.Act.{Result, After, After-continue, After-wrapping, After-mono}
use doris_sync.Config.{S3Options}
use doris_sync.State.{PartitionState}
use doris_sync.World.{World, Env, source, target, tick, query, now}
use doris_sync.Database.Range.{Partition}
use doris_sync.Database.Match.{match_target_partition}
use doris_sync.Database.Keeps.{query-Keeps, create_table-Keeps, partitions-Keeps}
use doris_sync.Partition.Full.{
  Job, job_key, source_identity, assign, assign_and_save, require_current, is_current, target_match,
  check_exported, make_backup, check_target, is_auto_partition_ddl, check_arrived, begin_backup,
  end_backup,
}
use doris_sync.Partition.Announce.{
  Safe, Has, Recorded, Keeps, Has-tick, Has-IsStable, Has-answer, list-Keeps, random-Keeps,
  clear-Keeps, Has-assign, save-Recorded,
}

-- What is known of an entry: nothing, that its backup is complete, that its import is announced as
-- well, that it is imported.
abbrev pub Any : PartitionState → Type 0
Any e = Unit

abbrev pub Backed : String → PartitionState → Type 0
Backed identity e = (e.backup_ready ≡ true) × (e.backup_identity ≡ identity)

abbrev pub IsImported : String → PartitionState → Type 0
IsImported identity e = (e.imported_identity ≡ identity) × (e.import_in_progress ≡ false)

module _ (env : Env) (is_int64 auto_range : String → Bool) (s3 : S3Options) (force : Bool)
    (prepares : String → Type 0) (j : Job) where
  abbrev pub name : String
  name = job_key j

  abbrev pub identity : String
  identity = source_identity j.part

  abbrev pub S : World → Type 0
  S = Safe env s3 prepares name

  abbrev pub H : (PartitionState → Type 0) → World → Type 0
  H P = Has env s3 prepares name P

  abbrev pub K : (PartitionState → Type 0) → {A : Type 0} → Result A × World → Type 0
  K P = Keeps env s3 prepares name P

  pub saved_lem :
      {P R : PartitionState → Type 0} (f : PartitionState → PartitionState) (w : World)
      → H P w
      → ((t : ℕ) (e : PartitionState) → P e → R (record (f e) { updated_at = t }))
      → After S
          (λ _ w'. Recorded env s3 prepares name R w')
          (assign_and_save env is_int64 auto_range s3 force name f w)
  unfolding assign_and_save now
  saved_lem {P = P} {R = R} f w h fits =
      let w₁ = (assign name f w).1 in
      let t = env.now w₁.calls in
      let Stamped : PartitionState → Type 0 = λ e. R (record e { updated_at = t }) in
      let h₁ : H Stamped w₁ = Has-assign env s3 prepares name f w h (λ e p. fits t e p) in
      let h₂ : H Stamped (tick w₁) = Has-tick env s3 prepares name w₁ h₁ in
      save-Recorded env s3 prepares name _
        (Has-assign env s3 prepares name (λ e. record e { updated_at = t }) (tick w₁) h₂ (λ e p. p))

  pub assigned_lem :
      {P R : PartitionState → Type 0} (f : PartitionState → PartitionState) (w : World)
      → H P w
      → ((t : ℕ) (e : PartitionState) → P e → R (record (f e) { updated_at = t }))
      → K R (assign_and_save env is_int64 auto_range s3 force name f w)
  assigned_lem f w h fits = After-mono _ (saved_lem f w h fits) (λ _ i. i) (λ _ _ r. r.has)

  module _ {P : PartitionState → Type 0} where
    pub current_lem :
        (complaint : String) (w : World)
        → H P w
        → K P (require_current env is_int64 auto_range s3 force j complaint w)
    unfolding require_current
    current_lem complaint w h =
        After-continue _ _
          (After-mono _
            (partitions-Keeps env is_int64 (Has-IsStable env s3 prepares name) source j.pair.source
              j.table w h)
            (λ _ k. k.safe) (λ _ _ k. k))
          λ parts w₁ k. elim (Bool-cases (is_current parts j.part)) [
            | inl still ↦ rw still (record { holds = k })
            | inr gone ↦ rw gone (record { holds = k.safe })
          ]

    pub match_lem : (w : World) → H P w → K P (target_match env is_int64 auto_range s3 force j w)
    unfolding target_match
    match_lem w h =
        After-continue _ _
          (After-mono _
            (partitions-Keeps env is_int64 (Has-IsStable env s3 prepares name) target j.pair.target
              j.table w h)
            (λ _ k. k.safe) (λ _ _ k. k))
          λ parts w₁ k. Has-answer env s3 prepares name (match_target_partition j.part parts) w₁ k

    query_lem : (sql : String) (w : World) → H P w → K P (query env source sql w)
    query_lem sql w h =
        After-mono _ (query-Keeps env is_int64 (Has-IsStable env s3 prepares name) source sql w h)
          (λ _ k. k.safe) (λ _ _ k. k)

    exported_lem :
        (objects : List String) (w : World)
        → H P w
        → K P (check_exported env is_int64 auto_range s3 force j objects w)
    unfolding check_exported
    exported_lem (o ∷ os) w h = record { holds = h }
    exported_lem [] w h = After-continue _ _ (query_lem _ w h) λ rows w₁ k.
        elim (Bool-cases (is_nil rows)) [
          | inl empty ↦ rw empty (record { holds = k })
          | inr more ↦ rw more (record { holds = k.safe })
        ]

    pub target_lem :
        (found : Option Partition) (w : World)
        → H P w
        → K P (check_target env is_int64 auto_range s3 force j found w)
    unfolding check_target
    target_lem (some p) w h = record { holds = h }
    target_lem none w h =
        After-continue _ _
          (After-mono _
            (create_table-Keeps env is_int64 (Has-IsStable env s3 prepares name) target
              j.pair.target j.table w h)
            (λ _ k. k.safe) (λ _ _ k. k))
          λ ddl w₁ k. elim (Bool-cases (is_auto_partition_ddl auto_range ddl)) [
            | inl auto ↦ rw auto (record { holds = k })
            | inr manual ↦ rw manual (record { holds = k.safe })
          ]

    pub arrived_lem :
        (objects : List String) (w : World)
        → H P w
        → K P (check_arrived env is_int64 auto_range s3 force j objects w)
    unfolding check_arrived
    arrived_lem [] w h = record { holds = h }
    arrived_lem (o ∷ os) w h = After-continue _ _ (match_lem w h) λ found w₁ k.
        elim (Bool-cases (is_some found)) [
          | inl there ↦ rw there (record { holds = k })
          | inr missing ↦ rw missing (record { holds = k.safe })
        ]

  -- A backup ends with a complete entry of the version.
  pub backup_lem :
      (w : World) → H Any w → K (Backed identity) (make_backup env is_int64 auto_range s3 force j w)
  unfolding make_backup
  backup_lem w h = After-continue _ _ (random-Keeps env s3 prepares name _ w h) λ prefix w₁ h₁.
      After-continue _ _
        (assigned_lem {R = Any} (begin_backup env is_int64 auto_range s3 force identity prefix) w₁
          h₁ (λ _ _ _. tt))
        λ _ w₂ h₂.
          After-continue _ _ (After-wrapping _ _ (clear-Keeps env s3 prepares name _ w₂ h₂))
            λ _ w₃ h₃. After-continue _ _ (After-wrapping _ _ (query_lem _ w₃ h₃)) λ _ w₄ h₄.
              After-continue _ _ (list-Keeps env s3 prepares name prefix w₄ h₄) λ objects w₅ h₅.
                After-continue _ _ (exported_lem objects w₅ h₅) λ _ w₆ h₆.
                  After-continue _ _ (current_lem _ w₆ h₆) λ _ w₇ h₇.
                    assigned_lem (end_backup env is_int64 auto_range s3 force identity objects) w₇
                      h₇ (λ _ _ _. (refl, refl))
