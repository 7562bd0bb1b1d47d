-- ===== src/Base/Table.antt =====
-- A keyed table: Go's `map`, and an SQLite table with a primary key. Rows keep the order of
-- their first insertion.
use Prim.Native.String.{String}
use mathlib.Core.Path.{◌≡◌, refl}
use mathlib.Core.Logic.{◌↔◌}
use mathlib.Core.Bool.{Bool, true}
use mathlib.Core.Option.{Option, none, some}
use mathlib.Core.List.{List, [], ◌∷◌}
use native.Mathlib.Omega.{arith}
use text.Mathlib.Text.{◌==◌ as str_eq}
use text.Mathlib.TextEquality.{eq_iff}
use doris_sync.Base.Tests.{if◌then◌else◌}

-- Keys that can be compared.
pub record Key (K : Type 0) : Type 0 where
  pub same : K → K → Bool
  pub same_iff : (a b : K) → (same a b ≡ true) ↔ (a ≡ b)

instance abbrev pub string_key : Key String
string_key = record { same = str_eq; same_iff = eq_iff }

abbrev pub Table : Type 0 → Type 0 → Type 0
Table K V = List (K × V)

abbrev pub map_some {ℓ} : {V : Type ℓ} → (V → V) → Option V → Option V
map_some f none = none
map_some f (some v) = some (f v)

pub same_refl : {K : Type 0} ⦃k : Key K⦄ (a : K) → k.same a a ≡ true
same_refl ⦃k⦄ a = (k.same_iff a a).1 refl

module _ {K V : Type 0} ⦃k : Key K⦄ where
  unfoldable pub lookup : K → Table K V → Option V
  lookup a [] = none
  lookup a ((b, v) ∷ t) = if k.same b a then some v else lookup a t

  -- INSERT … ON CONFLICT DO UPDATE, and assignment to a key of a map.
  unfoldable pub upsert : K → V → Table K V → Table K V
  upsert a v [] = (a, v) ∷ []
  upsert a v ((b, w) ∷ t) = if k.same b a then (b, v) ∷ t else (b, w) ∷ upsert a v t

  -- UPDATE … WHERE key: no row, no change.
  unfoldable pub update : K → (V → V) → Table K V → Table K V
  update a f [] = []
  update a f ((b, w) ∷ t) = if k.same b a then (b, f w) ∷ t else (b, w) ∷ update a f t

  pub lookup-upsert :
      (a b : K) (v : V) (t : Table K V)
      → lookup b (upsert a v t) ≡ (if k.same a b then some v else lookup b t)
  unfolding lookup upsert
  lookup-upsert a b v [] = refl
  lookup-upsert a b v ((c, w) ∷ t) =
      ground (arith, k.same_iff c a, k.same_iff c b, k.same_iff a b, lookup-upsert a b v t)

  pub lookup-update :
      (a b : K) (f : V → V) (t : Table K V)
      → lookup b (update a f t) ≡ (if k.same a b then map_some f (lookup b t) else lookup b t)
  unfolding lookup update
  lookup-update a b f [] = ground arith
  lookup-update a b f ((c, w) ∷ t) =
      ground (arith, k.same_iff c a, k.same_iff c b, k.same_iff a b, lookup-update a b f t)

  pub lookup-upsert_self : (a : K) (v : V) (t : Table K V) → lookup a (upsert a v t) ≡ some v
  lookup-upsert_self a v t = ground (arith, lookup-upsert a a v t, same_refl a)
