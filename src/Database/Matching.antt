-- ===== src/Database/Matching.antt =====
-- database.go: what `matchTargetPartition` finds.
use doris_sync.Base.{ℕ, ◌+◌, ◌≤◌, ◌==◌, Bool, true, false, List, [], ◌∷◌, Option, none, some}
use doris_sync.Base.{
  ◌≡◌, refl, ◌⊎◌, inl, inr, All, IsIn, All-IsIn, arith, eq_iff, is_some, Bool-cases, if◌then◌else◌,
}
use doris_sync.Base.Act.{Result, ok, err, killed}
use doris_sync.Database.Range.{Partition}
use doris_sync.Database.Match.{
  match_loop, chosen, match_target_partition, same_bounds, other_bounds, bounds,
}

module _ (source : Partition) where
  abbrev pub IsRange : Partition → Type 0
  IsRange p = same_bounds (bounds p) (bounds source) ≡ true

  abbrev pub IsName : Partition → Type 0
  IsName p = p.name ≡ source.name

  module _ (P : Partition → Type 0) where
    abbrev Named : Option Partition → Type 0
    Named none = Unit
    Named (some p) = P p × IsName p

    abbrev Ranged : Option Partition → Type 0
    Ranged none = Unit
    Ranged (some p) = P p × IsRange p

    abbrev Sound : Result (Option Partition × Option Partition) → Type 0
    Sound (ok (by_name, by_range)) = Named by_name × Ranged by_range
    Sound _ = Unit

    Named-step :
        (b : Bool) (t : Partition) (o : Option Partition)
        → (t.name == source.name) ≡ b
        → P t
        → Named o
        → Named (if b then some t else o)
    Named-step true t o e p n = (p, (eq_iff t.name source.name).0 e)
    Named-step false t o e p n = n

    loop-Sound :
        (targets : List Partition) (by_name by_range : Option Partition)
        → All P targets
        → Named by_name
        → Ranged by_range
        → Sound (match_loop source targets by_name by_range)
    unfolding match_loop
    loop-Sound [] a b all n r = (n, r)
    loop-Sound (t ∷ ts) a b all n r =
        let n' = Named-step (t.name == source.name) t a refl all.0 n in
        elim (Bool-cases (same_bounds (bounds t) (bounds source))) [
          | inr other ↦ rw other (loop-Sound ts _ b all.1 n' r)
          | inl same ↦ rw same (elim (Bool-cases (is_some b)) [
            | inl twice ↦ rw twice tt
            | inr once ↦ rw once (loop-Sound ts _ (some t) all.1 n' (all.0, same))
          ])
        ]

    -- The one that is chosen.
    abbrev Chosen : Result (Option Partition) → Type 0
    Chosen (ok (some p)) =
        P p × (IsRange p ⊎ (IsName p × (other_bounds (bounds p) (bounds source) ≡ false)))
    Chosen _ = Unit

    chosen-Chosen :
        (r : Result (Option Partition × Option Partition)) → Sound r → Chosen (chosen source r)
    unfolding chosen
    chosen-Chosen (ok (a, some p)) h = (h.1.0, inl h.1.1)
    chosen-Chosen (ok (none, none)) h = tt
    chosen-Chosen (ok (some p, none)) h =
        elim (Bool-cases (other_bounds (bounds p) (bounds source))) [
          | inl other ↦ rw other tt
          | inr agree ↦ rw agree (h.0.0, inr (h.0.1, agree))
        ]
    chosen-Chosen (err e) h = tt
    chosen-Chosen killed h = tt

  -- A partition that is found is one of the targets, and it has the bounds of the source, or it has
  -- its name and no known bounds that differ.
  pub match_target_partition_sound :
      (targets : List Partition) (p : Partition)
      → match_target_partition source targets ≡ ok (some p)
      → IsIn p targets
        × (IsRange p ⊎ (IsName p × (other_bounds (bounds p) (bounds source) ≡ false)))
  unfolding match_target_partition
  match_target_partition_sound targets p found =
      let all =
        chosen-Chosen (λ x. IsIn x targets) _
          (loop-Sound (λ x. IsIn x targets) targets none none (All-IsIn targets) tt tt) in
      rw found at all

  -- How many targets have the bounds of the source.
  abbrev pub range_count : List Partition → ℕ
  range_count [] = 0
  range_count (t ∷ ts) = (if same_bounds (bounds t) (bounds source) then 1 else 0) + range_count ts

  abbrev pub IsRefused : {A : Type 0} → Result A → Type 0
  IsRefused (err e) = Unit
  IsRefused _ = ⊥

  abbrev one : Option Partition → ℕ
  one none = 0
  one (some p) = 1

  loop-IsRefused :
      (targets : List Partition) (by_name by_range : Option Partition)
      → 2 ≤ one by_range + range_count targets
      → IsRefused (match_loop source targets by_name by_range)
  unfolding match_loop
  loop-IsRefused [] a none h = absurd (omega arith)
  loop-IsRefused [] a (some r) h = absurd (omega arith)
  loop-IsRefused (t ∷ ts) a none h = elim (Bool-cases (same_bounds (bounds t) (bounds source))) [
    | inl same ↦ rw same (loop-IsRefused ts _ (some t) (let k = rw same at h in omega arith))
    | inr other ↦ rw other (loop-IsRefused ts _ none (let k = rw other at h in omega arith))
  ]
  loop-IsRefused (t ∷ ts) a (some r) h =
      elim (Bool-cases (same_bounds (bounds t) (bounds source))) [
        | inl same ↦ rw same tt
        | inr other ↦ rw other (loop-IsRefused ts _ (some r) (let k = rw other at h in omega arith))
      ]

  chosen-IsRefused :
      (r : Result (Option Partition × Option Partition)) → IsRefused r → IsRefused (chosen source r)
  unfolding chosen
  chosen-IsRefused (err e) h = tt
  chosen-IsRefused (ok _) h = elim h [ ]
  chosen-IsRefused killed h = elim h [ ]

  -- Two targets with the bounds of the source are an error, whatever their names are.
  pub match_target_partition-IsRefused :
      (targets : List Partition)
      → 2 ≤ range_count targets
      → IsRefused (match_target_partition source targets)
  unfolding match_target_partition
  match_target_partition-IsRefused targets h =
      chosen-IsRefused _ (loop-IsRefused targets none none (omega arith))
