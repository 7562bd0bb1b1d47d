-- ===== src/Config/Names.antt =====
-- config.go: `validatePartitionNames` and `parsePartitionNames`.
use doris_sync.Base.{String, ◌==◌, false, List, [], ◌∷◌, map, not}
use doris_sync.Base.{contains, if◌then◌else◌, ◌||◌, ◌≡◌, refl, arith, eq_iff, All, ◌≢◌, ◌↔◌}
use doris_sync.Base.Act.{errorf, Result, ok, err}
use doris_sync.Base.Text.{trim_space, split}

-- The loop over the names, with the set of those that were seen.
unfoldable pub validate_names_loop : List String → List String → Result (Unit {0})
validate_names_loop seen [] = ok tt
validate_names_loop seen (name ∷ names) =
    let rest = validate_names_loop (name ∷ seen) names in
    if name == "" || not (trim_space name == name)
    then err (errorf "partition names must be nonempty and have no surrounding spaces")
    else if contains seen name
    then err (errorf "duplicate partition name")
    else rest

unfoldable pub validate_partition_names : List String → Result (Unit {0})
unfolding validate_names_loop
validate_partition_names names = validate_names_loop [] names

checked_names : List String → Result (Unit {0}) → Result (List String)
checked_names names (ok _) = ok names
checked_names names (err e) = err e
checked_names names Result.killed = Result.killed

unfoldable pub parse_partition_names : String → Result (List String)
unfolding checked_names validate_partition_names
parse_partition_names raw =
    if raw == ""
    then ok []
    else let names = map trim_space (split b',' raw) in
      checked_names names (validate_partition_names names)

-- What a list of names has to be: each nonempty and trimmed, and none twice.
abbrev pub IsExact : String → Type 0
IsExact name = (name ≢ "") × (trim_space name ≡ name)

abbrev pub Fresh : List String → List String → Type 0
Fresh seen [] = Unit
Fresh seen (name ∷ names) = (contains seen name ≡ false) × Fresh (name ∷ seen) names

validate_names_loop_sound :
    (seen names : List String)
    → validate_names_loop seen names ≡ ok tt
    → All IsExact names × Fresh seen names
unfolding validate_names_loop
validate_names_loop_sound seen [] h = (tt, tt)
validate_names_loop_sound seen (name ∷ names) h = ground (
  arith,
  eq_iff name "",
  eq_iff (trim_space name) name,
  validate_names_loop_sound (name ∷ seen) names,
)

validate_names_loop_complete :
    (seen names : List String)
    → All IsExact names
    → Fresh seen names
    → validate_names_loop seen names ≡ ok tt
unfolding validate_names_loop
validate_names_loop_complete seen [] h f = refl
validate_names_loop_complete seen (name ∷ names) h f = ground (
  arith,
  eq_iff name "",
  eq_iff (trim_space name) name,
  validate_names_loop_complete (name ∷ seen) names,
)

-- No name twice.
abbrev pub Distinct : List String → Type 0
Distinct [] = Unit
Distinct (name ∷ names) = (contains names name ≡ false) × Distinct names

absent :
    (name : String) (seen names : List String)
    → All (λ x. contains (name ∷ seen) x ≡ false) names
    → (contains names name ≡ false) × All (λ x. contains seen x ≡ false) names
absent name seen [] h = (refl, tt)
absent name seen (x ∷ names) h =
    let rest = absent name seen names h.1 in ground (arith, eq_iff name x, eq_iff x name, rest, h.0)

present :
    (name : String) (seen names : List String)
    → contains names name ≡ false
    → All (λ x. contains seen x ≡ false) names
    → All (λ x. contains (name ∷ seen) x ≡ false) names
present name seen [] h k = tt
present name seen (x ∷ names) h k =
    ground (arith, eq_iff name x, eq_iff x name, present name seen names, k.0, k.1)

Fresh→Distinct :
    (seen names : List String)
    → Fresh seen names
    → Distinct names × All (λ x. contains seen x ≡ false) names
Fresh→Distinct seen [] h = (tt, tt)
Fresh→Distinct seen (name ∷ names) h =
    let rest = Fresh→Distinct (name ∷ seen) names h.1 in
    let kept = absent name seen names rest.1 in ((kept.0, rest.0), (h.0, kept.1))

Distinct→Fresh :
    (seen names : List String)
    → Distinct names
    → All (λ x. contains seen x ≡ false) names
    → Fresh seen names
Distinct→Fresh seen [] h k = tt
Distinct→Fresh seen (name ∷ names) h k =
    (k.0, Distinct→Fresh (name ∷ seen) names h.1 (present name seen names h.0 k.1))

none_seen : (names : List String) → All (λ x. contains [] x ≡ false) names
none_seen [] = tt
none_seen (name ∷ names) = (refl, none_seen names)

-- A list of names passes exactly when each name is nonempty and trimmed and none is there twice.
pub validate_partition_names_iff :
    (names : List String)
    → (validate_partition_names names ≡ ok tt) ↔ (All IsExact names × Distinct names)
unfolding validate_partition_names
validate_partition_names_iff names = (
  (λ h.
      let found = validate_names_loop_sound [] names h in
      (found.0, (Fresh→Distinct [] names found.1).0)),
  (λ h. validate_names_loop_complete [] names h.0 (Distinct→Fresh [] names h.1 (none_seen names))),
)
