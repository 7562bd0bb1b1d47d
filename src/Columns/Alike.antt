-- ===== src/Columns/Alike.antt =====
-- main.go: what `validateTargetColumns` accepts.
use doris_sync.Base.{true, List, [], ◌∷◌, length}
use doris_sync.Base.{◌≡◌, refl, ◌↔◌, arith, eq_iff}
use doris_sync.Base.Text.{equal_fold}
use doris_sync.Base.Act.{ok}
use doris_sync.Database.{Column}
use doris_sync.Columns.{same_columns, validate_target_columns}

-- The same names in the same order, and types that differ in the case of letters only.
abbrev pub Alike : List Column → List Column → Type 0
Alike [] [] = Unit
Alike (a ∷ cols) (b ∷ others) =
    (a.name ≡ b.name) × (equal_fold a.type b.type ≡ true) × Alike cols others
Alike _ _ = ⊥

same_columns-Alike : (a b : List Column) → same_columns a b ≡ true → Alike a b
unfolding same_columns
same_columns-Alike [] [] h = tt
same_columns-Alike [] (b ∷ bs) h = absurd (cc h)
same_columns-Alike (a ∷ cols) [] h = absurd (cc h)
same_columns-Alike (a ∷ cols) (b ∷ bs) h =
    ground (arith, eq_iff a.name b.name, same_columns-Alike cols bs)

Alike-same_columns : (a b : List Column) → Alike a b → same_columns a b ≡ true
unfolding same_columns
Alike-same_columns [] [] h = refl
Alike-same_columns [] (b ∷ bs) h = elim h [ ]
Alike-same_columns (a ∷ cols) [] h = elim h [ ]
Alike-same_columns (a ∷ cols) (b ∷ bs) h =
    ground (arith, eq_iff a.name b.name, Alike-same_columns cols bs)

Alike-length : (a b : List Column) → Alike a b → length a ≡ length b
Alike-length [] [] h = refl
Alike-length [] (b ∷ bs) h = elim h [ ]
Alike-length (a ∷ cols) [] h = elim h [ ]
Alike-length (a ∷ cols) (b ∷ bs) h = let ih = Alike-length cols bs h.2 in omega arith

-- The columns of a target are accepted exactly when they have the same names as those of the source
-- in the same order, and types that differ in the case of letters only.
pub validate_target_columns_iff :
    (source target : List Column)
    → (validate_target_columns source target ≡ ok tt) ↔ Alike source target
unfolding validate_target_columns
validate_target_columns_iff source target = (
  (λ h. same_columns-Alike source target (ground arith)),
  (λ a.
      let same = Alike-same_columns source target a in
      let counted = Alike-length source target a in rw same (ground arith)),
)
