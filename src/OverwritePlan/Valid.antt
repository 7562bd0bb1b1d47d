-- ===== src/OverwritePlan/Valid.antt =====
-- overwrite_plan.go: which plans `validateOverwritePlan` accepts.
use doris_sync.Base.{ℕ, suc, Bool, true, false, List, [], ◌∷◌, map, ◌≡◌, refl, ap}
use doris_sync.Base.{
  ◌↔◌, ◌⊎◌, inl, inr, All, contains, is_nil, arith, eq_iff, Bool-cases, if◌then◌else◌,
}
use doris_sync.Base.Text.{trim_space, has_char}
use doris_sync.Base.Act.{Err, Result, ok, err}
use doris_sync.Config.{DatabasePair}
use doris_sync.Config.Names.{validate_partition_names_iff, IsExact, Distinct}
use doris_sync.State.Keys.{split_state_key, split-state_key}
use doris_sync.OverwritePlan.{
  OverwriteTable, OverwritePlan, passed, in_item, is_mapped, has_exact_names, item_key, target_key,
  check_item, check_items, validate_overwrite_plan,
}

-- No name with the separator of the keys in it.
pub record IsPlain (item : OverwriteTable) : Type 0 where
  pub source : has_char 0 item.source_database ≡ false
  pub target : has_char 0 item.target_database ≡ false
  pub table : has_char 0 item.table ≡ false

-- The pair of databases of an item is one of the mappings.
abbrev pub IsMapped : List DatabasePair → OverwriteTable → Type 0
IsMapped [] item = ⊥
IsMapped (pair ∷ pairs) item =
    ((pair.source ≡ item.source_database) × (pair.target ≡ item.target_database))
    ⊎ IsMapped pairs item

-- An item by itself.
pub record IsItem (mappings : List DatabasePair) (item : OverwriteTable) : Type 0 where
  pub exact_source : IsExact item.source_database
  pub exact_target : IsExact item.target_database
  pub exact_table : IsExact item.table
  pub mapped : IsMapped mappings item
  pub some_partition : is_nil item.partitions ≡ false
  pub exact_partitions : All IsExact item.partitions
  pub distinct_partitions : Distinct item.partitions

-- Two items that overwrite the same table.
abbrev pub SameTarget : OverwriteTable → OverwriteTable → Type 0
SameTarget a b = (a.target_database ≡ b.target_database) × (a.table ≡ b.table)

abbrev pub Unused : List OverwriteTable → OverwriteTable → Type 0
Unused [] item = Unit
Unused (other ∷ others) item = (¬ SameTarget other item) × Unused others item

-- No item overwrites the table of one before it.
abbrev pub Apart : List OverwriteTable → List OverwriteTable → Type 0
Apart before [] = Unit
Apart before (item ∷ items) = Unused before item × Apart (item ∷ before) items

is_mapped_iff :
    (pairs : List DatabasePair) (item : OverwriteTable)
    → (is_mapped pairs item ≡ true) ↔ IsMapped pairs item
unfolding is_mapped
is_mapped_iff [] item = ((λ h. cc h), λ h. absurd h)
is_mapped_iff (pair ∷ pairs) item =
    let rest = is_mapped_iff pairs item in
    let s = eq_iff pair.source item.source_database in
    let t = eq_iff pair.target item.target_database in
    ((λ h. ground (arith, s, t, rest)), λ h. ground (arith, s, t, rest))

names_iff :
    (item : OverwriteTable)
    → (has_exact_names item ≡ true)
      ↔ (IsExact item.source_database × IsExact item.target_database × IsExact item.table)
unfolding has_exact_names
names_iff item =
    let a = eq_iff item.source_database "" in
    let b = eq_iff item.target_database "" in
    let c = eq_iff item.table "" in
    let d = eq_iff (trim_space item.source_database) item.source_database in
    let e = eq_iff (trim_space item.target_database) item.target_database in
    let f = eq_iff (trim_space item.table) item.table in
    ((λ h. ground (arith, a, b, c, d, e, f)), λ h. ground (arith, a, b, c, d, e, f))

in_item_iff : (i : ℕ) (r : Result (Unit {0})) → (in_item i r ≡ ok tt) ↔ (r ≡ ok tt)
in_item_iff i (ok a) = ((λ h. refl), λ h. refl)
in_item_iff i (err e) = ((λ h. cc h), λ h. cc h)
in_item_iff i Result.killed = ((λ h. cc h), λ h. cc h)

check_item_sound :
    (mappings : List DatabasePair) (i : ℕ) (item : OverwriteTable)
    → check_item mappings i item ≡ ok tt
    → IsItem mappings item
unfolding check_item
check_item_sound mappings i item h = elim (Bool-cases (has_exact_names item)) [
  | inr bad ↦ absurd (let k = rw bad at h in cc k)
  | inl exact ↦ elim (Bool-cases (is_mapped mappings item)) [
    | inr bad ↦ absurd (let k = rw (exact, bad) at h in cc k)
    | inl mapped ↦ elim (Bool-cases (is_nil item.partitions)) [
      | inl bad ↦ absurd (let k = rw (exact, mapped, bad) at h in cc k)
      | inr some' ↦
          let k = (in_item_iff i _).0 (rw (exact, mapped, some') at h) in
          let names = (names_iff item).0 exact in
          let parts = (validate_partition_names_iff item.partitions).0 k in
          record {
            exact_source = names.0;
            exact_target = names.1;
            exact_table = names.2;
            mapped = (is_mapped_iff mappings item).0 mapped;
            some_partition = some';
            exact_partitions = parts.0;
            distinct_partitions = parts.1;
          }
    ]
  ]
]

check_item_complete :
    (mappings : List DatabasePair) (i : ℕ) (item : OverwriteTable)
    → IsItem mappings item
    → check_item mappings i item ≡ ok tt
unfolding check_item
check_item_complete mappings i item h =
    let exact = (names_iff item).1 (h.exact_source, h.exact_target, h.exact_table) in
    let parts =
      (validate_partition_names_iff item.partitions).1
        (h.exact_partitions, h.distinct_partitions) in
    rw (exact, (is_mapped_iff mappings item).1 h.mapped, h.some_partition, parts) refl

-- Keys with the same target and table.
target_key-SameTarget :
    (a b : OverwriteTable) → IsPlain a → IsPlain b → target_key a ≡ target_key b → SameTarget a b
unfolding has_char
target_key-SameTarget a b p q h =
    let s = split-state_key "" a.target_database a.table "" refl p.target p.table refl in
    let t = split-state_key "" b.target_database b.table "" refl q.target q.table refl in
    let e = ap split_state_key h in (cc, cc)

SameTarget→key : (a b : OverwriteTable) → SameTarget a b → target_key a ≡ target_key b
SameTarget→key a b (db, table) = cc

item_key-SameTarget :
    (a b : OverwriteTable) → IsPlain a → IsPlain b → item_key a ≡ item_key b → SameTarget a b
unfolding has_char
item_key-SameTarget a b p q h =
    let s =
      split-state_key a.source_database a.target_database a.table "" p.source p.target p.table
        refl in
    let t =
      split-state_key b.source_database b.target_database b.table "" q.source q.target q.table
        refl in
    let e = ap split_state_key h in (cc, cc)

-- The keys of the items before.
new_target_sound :
    (before : List OverwriteTable) (item : OverwriteTable)
    → contains (map target_key before) (target_key item) ≡ false
    → Unused before item
new_target_sound [] item h = tt
new_target_sound (other ∷ before) item h =
    let rest = new_target_sound before item in
    let same = SameTarget→key other item in
    ground (arith, eq_iff (target_key other) (target_key item), same, rest)

new_target_complete :
    (before : List OverwriteTable) (item : OverwriteTable)
    → All IsPlain before
    → IsPlain item
    → Unused before item
    → contains (map target_key before) (target_key item) ≡ false
new_target_complete [] item p q h = refl
new_target_complete (other ∷ before) item p q h =
    let rest = new_target_complete before item p.1 q h.1 in
    let same = target_key-SameTarget other item p.0 q in
    ground (arith, eq_iff (target_key other) (target_key item), same, rest, h.0)

new_item_complete :
    (before : List OverwriteTable) (item : OverwriteTable)
    → All IsPlain before
    → IsPlain item
    → Unused before item
    → contains (map item_key before) (item_key item) ≡ false
new_item_complete [] item p q h = refl
new_item_complete (other ∷ before) item p q h =
    let rest = new_item_complete before item p.1 q h.1 in
    let same = item_key-SameTarget other item p.0 q in
    ground (arith, eq_iff (item_key other) (item_key item), same, rest, h.0)

passed_ok : (r s : Result (Unit {0})) → passed r s ≡ ok tt → (r ≡ ok tt) × (s ≡ ok tt)
passed_ok (ok a) s h = (refl, h)
passed_ok (err e) s h = absurd (cc h)
passed_ok Result.killed s h = absurd (cc h)

else_ok :
    (b : Bool) (e : Err) (s : Result (Unit {0}))
    → (if b then err e else s) ≡ ok tt
    → (b ≡ false) × (s ≡ ok tt)
else_ok true e s h = absurd (cc h)
else_ok false e s h = (refl, h)

items_sound :
    (mappings : List DatabasePair) (i : ℕ) (before items : List OverwriteTable)
    → check_items mappings i (map item_key before) (map target_key before) items ≡ ok tt
    → All (IsItem mappings) items × Apart before items
unfolding check_items
items_sound mappings i before [] h = (tt, tt)
items_sound mappings i before (item ∷ items) h =
    let a = passed_ok (check_item mappings i item) _ h in
    let b = else_ok (contains (map item_key before) (item_key item)) _ _ a.1 in
    let c = else_ok (contains (map target_key before) (target_key item)) _ _ b.1 in
    let rest = items_sound mappings (suc i) (item ∷ before) items c.1 in
    ((check_item_sound mappings i item a.0, rest.0), (new_target_sound before item c.0, rest.1))

items_complete :
    (mappings : List DatabasePair) (i : ℕ) (before items : List OverwriteTable)
    → All IsPlain before
    → All IsPlain items
    → All (IsItem mappings) items
    → Apart before items
    → check_items mappings i (map item_key before) (map target_key before) items ≡ ok tt
unfolding check_items
items_complete mappings i before [] p q h k = refl
items_complete mappings i before (item ∷ items) p q h k =
    rw
      (
        check_item_complete mappings i item h.0,
        new_item_complete before item p q.0 k.0,
        new_target_complete before item p q.0 k.0,
      )
      (items_complete mappings (suc i) (item ∷ before) items (q.0, p) q.1 h.1 k.1)

-- A plan whose names have no U+0000 passes exactly when it has an item, and every item has trimmed,
-- nonempty names of its databases and table, a mapping that is configured, and partitions with
-- trimmed, nonempty names, at least one and none twice, and no item has the target database and the
-- table of one before it.
pub validate_overwrite_plan_iff :
    (plan : OverwritePlan) (mappings : List DatabasePair)
    → All IsPlain plan.tables
    → (validate_overwrite_plan plan mappings ≡ ok tt)
      ↔ ((is_nil plan.tables ≡ false) × All (IsItem mappings) plan.tables × Apart [] plan.tables)
unfolding validate_overwrite_plan
validate_overwrite_plan_iff plan mappings plain = (
  (λ h.
      let a = else_ok (is_nil plan.tables) _ _ h in
      let found = items_sound mappings 0 [] plan.tables a.1 in (a.0, found.0, found.1)),
  (λ h. rw h.0 (items_complete mappings 0 [] plan.tables tt plain h.1 h.2)),
)
