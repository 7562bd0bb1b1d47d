-- ===== src/SyncState/Reopened.antt =====
-- state.go: what a new process reads back.
use doris_sync.Base.{String, ◌==◌, false, [], ◌∷◌, Option, none, some, All}
use doris_sync.Base.{◌≡◌, refl, sym, ap, ◌∙◌, eq_iff, inl, inr, Bool-cases}
use doris_sync.Base.Text.{has_char}
use doris_sync.Base.Table.{Table, lookup, lookup-upsert, string_key}
use doris_sync.Base.Act.{Result, ok, err, killed, After, After-continue}
use doris_sync.State.{
  Disk, PartitionState, PartitionKey, partition_key, same_partition, Json, json, corrupt,
}
use doris_sync.State.Keys.{split_state_key, split-state_key}
use doris_sync.World.{World, Env}
use doris_sync.SyncState.Opening.{
  partition_name, load_partitions, load_rows, rows_from, query_rows, open_state, with_partition,
}

-- The four names have no U+0000.
abbrev pub IsPlain : PartitionKey → Type 0
IsPlain k =
    (has_char 0 k.source ≡ false)
    × (has_char 0 k.target ≡ false)
    × (has_char 0 k.table ≡ false)
    × (has_char 0 k.partition ≡ false)

pub split_name :
    (k : PartitionKey)
    → IsPlain k
    → split_state_key (partition_name k) ≡ ok (k.source ∷ k.target ∷ k.table ∷ k.partition ∷ [])
split_name k p = split-state_key k.source k.target k.table k.partition p.0 p.1 p.2 p.3

-- The names of plain keys are as different as the keys.
name_inj :
    (a b : PartitionKey) → IsPlain a → IsPlain b → partition_name a ≡ partition_name b → a ≡ b
name_inj a b p q h = cc (split_name a p, split_name b q, ap split_state_key h)

same_name :
    (a b : PartitionKey)
    → IsPlain a
    → IsPlain b
    → (partition_name a == partition_name b) ≡ same_partition a b
same_name a b p q = elim (Bool-cases (partition_name a == partition_name b)) [
  | inl same ↦
      let e = name_inj a b p q ((eq_iff (partition_name a) (partition_name b)).0 same) in
      same ∙ sym ((partition_key.same_iff a b).1 e)
  | inr other ↦ elim (Bool-cases (same_partition a b)) [
    | inr o ↦ other ∙ sym o
    | inl s ↦
        let e = (partition_key.same_iff a b).0 s in
        absurd (
          let k = (eq_iff (partition_name a) (partition_name b)).1 (ap partition_name e) in
          cc (k, other))
  ]
]

-- The entry of a row, if there is one that can be read.
abbrev pub entry_of : Option (Json PartitionState) → Option PartitionState
entry_of none = none
entry_of (some (json e)) = some e
entry_of (some corrupt) = none

-- The maps have what the rows have.
abbrev Loaded :
    PartitionKey
    → Table PartitionKey (Json PartitionState)
    → Result (Table String PartitionState)
    → Type 0
Loaded k rows (ok loaded) = lookup (partition_name k) loaded ≡ entry_of (lookup k rows)
Loaded k rows _ = Unit

load_step :
    (k a : PartitionKey) (entry : PartitionState) (rows : Table PartitionKey (Json PartitionState))
    (r : Result (Table String PartitionState))
    → (partition_name a == partition_name k) ≡ same_partition a k
    → Loaded k rows r
    → Loaded k ((a, json entry) ∷ rows) (with_partition (partition_name a) entry r)
unfolding lookup
load_step k a entry rows (err e) same h = tt
load_step k a entry rows killed same h = tt
load_step k a entry rows (ok loaded) same h =
    lookup-upsert (partition_name a) (partition_name k) entry loaded
    ∙ rw same (elim (Bool-cases (same_partition a k)) [
      | inl here ↦ rw here refl
      | inr there ↦ rw there h
    ])

load-Loaded :
    (k : PartitionKey) (rows : Table PartitionKey (Json PartitionState))
    → IsPlain k
    → All (λ row. IsPlain row.0) rows
    → Loaded k rows (load_partitions rows)
unfolding load_partitions lookup
load-Loaded k [] p all = refl
load-Loaded k ((a, corrupt) ∷ rows) p all = tt
load-Loaded k ((a, json entry) ∷ rows) p all =
    load_step k a entry rows (load_partitions rows) (same_name a k all.0 p)
      (load-Loaded k rows p all.1)

module _ (env : Env) where
  abbrev Same : Disk → World → Type 0
  Same d w = w.disk ≡ d

  rows_lem :
      {A : Type 0} (view : Disk → A) (w : World) (d : Disk)
      → Same d w
      → After (λ _. Unit) (λ a w'. Same d w' × (a ≡ view d)) (query_rows env view w)
  unfolding query_rows
  rows_lem view w d same = go (env.read w.calls)
    where
      go :
          (r : Result (Unit {0}))
          → After (λ _. Unit) (λ a w'. Same d w' × (a ≡ view d)) (rows_from view r w)
      go (ok _) = record { holds = (same, ap view same) }
      go (err e) = record { holds = tt }
      go killed = record { holds = tt }

  -- What is in memory behind a good opening.
  abbrev Restored : PartitionKey → Disk → World → Type 0
  Restored k d w =
      lookup (partition_name k) w.memory.partitions ≡ entry_of (lookup k d.partition_state)

  parsed_lem :
      (k : PartitionKey) (d : Disk) (w : World) (r : Result (Table String PartitionState))
      → Same d w
      → Loaded k d.partition_state r
      → After
          (λ _. Unit)
          (λ loaded w'.
            Same d w' × (lookup (partition_name k) loaded ≡ entry_of (lookup k d.partition_state)))
          (r, w)
  parsed_lem k d w (ok loaded) same h = record { holds = (same, h) }
  parsed_lem k d w (err e) same h = record { holds = tt }
  parsed_lem k d w killed same h = record { holds = tt }

  open_state-After :
      (k : PartitionKey) (w : World)
      → IsPlain k
      → All (λ row. IsPlain row.0) w.disk.partition_state
      → After (λ _. Unit) (λ _ w'. Restored k w.disk w' × Same w.disk w') (open_state env w)
  unfolding open_state
  open_state-After k w p all =
      let d = w.disk in
      After-continue _ _ (rows_lem (λ d'. load_rows d'.table_state) w d refl) λ hashes w₁ h₁.
        After-continue _ _ (rows_lem (λ d'. load_rows d'.table_inventory) w₁ d h₁.0) λ counts w₂ h₂.
          After-continue _ _ (rows_lem (λ d'. load_partitions d'.partition_state) w₂ d h₂.0)
            λ read w₃ h₃.
              After-continue _ _
                (parsed_lem k d w₃ read h₃.0 (rw (h₃.1) (load-Loaded k d.partition_state p all)))
                λ loaded w₄ h₄.
                  After-continue _ _ (rows_lem (λ d'. d'.metadata) w₄ d h₄.0)
                    λ settings w₅ h₅. record { holds = (h₄.1, h₅.0) }

  -- A process that opens the file has each partition's entry in memory as its row holds it, where
  -- the names have no U+0000.
  pub open_state-Restored :
      (k : PartitionKey) (w w' : World)
      → IsPlain k
      → All (λ row. IsPlain row.0) w.disk.partition_state
      → open_state env w ≡ (ok tt, w')
      → lookup (partition_name k) w'.memory.partitions ≡ entry_of (lookup k w.disk.partition_state)
  open_state-Restored k w w' p all run =
      let seen : After (λ _. Unit) (λ _ v. Restored k w.disk v × Same w.disk v) (open_state env w) =
        open_state-After k w p all in
      (rw run at seen).holds.0
