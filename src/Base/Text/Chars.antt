-- ===== src/Base/Text/Chars.antt =====
-- Which characters a text has, after the operations on it.
use Prim.Native.Char.{Char, code}
use Prim.Native.Nat.{ℕ, zero, suc, ◌+◌, ◌-◌}
use mathlib.Core.Option.{some}
use Prim.Native.String.{String, ◌++◌}
use mathlib.Core.Path.{◌≡◌, refl, ◌∙◌}
use mathlib.Core.Bool.{Bool, true, false, ◌||◌, ◌&&◌}
use mathlib.Core.Logic.{inl, inr}
use native.Mathlib.Omega.{arith}
use text.Mathlib.TextLemmas.{nil-append, cons-append}
use doris_sync.Base.Tests.{eqb, leb, Bool-cases, if◌then◌else◌}
use doris_sync.Base.Text.{
  has_char, replace_char, char_text, to_lower, lower_one, count_char, strip_prefix,
}

pub both_false : {a b : Bool} → a ≡ false → b ≡ false → (a || b) ≡ false
both_false h k = rw h k

module _ (x : ℕ) where
  pub has_char-append : (s t : String) → has_char x (s ++ t) ≡ (has_char x s || has_char x t)
  unfolding has_char
  has_char-append String.[] t = rw nil-append refl
  has_char-append (String.◌∷◌ c s) t = rw cons-append (ground (arith, has_char-append s t))

  pub has_char-char_text :
      (i : ℕ) (s : String) → has_char x s ≡ false → has_char x (char_text i s) ≡ false
  unfolding has_char char_text
  has_char-char_text i String.[] h = refl
  has_char-char_text zero (String.◌∷◌ c s) h = ground arith
  has_char-char_text (suc i) (String.◌∷◌ c s) h = ground (arith, has_char-char_text i s)

  kept_self :
      (b : Bool) (c : Char)
      → eqb (code c) x ≡ b
      → has_char x (if b then "" else String.◌∷◌ c String.[]) ≡ false
  unfolding has_char
  kept_self true c e = refl
  kept_self false c e = ground (arith, e)

  kept :
      (b : Bool) (c : Char)
      → eqb (code c) x ≡ false
      → has_char x (if b then "" else String.◌∷◌ c String.[]) ≡ false
  unfolding has_char
  kept true c e = refl
  kept false c e = ground (arith, e)

  not_first : (c : Char) (s : String) → has_char x (String.◌∷◌ c s) ≡ false → eqb (code c) x ≡ false
  unfolding has_char
  not_first c s h = ground arith

  not_later : (c : Char) (s : String) → has_char x (String.◌∷◌ c s) ≡ false → has_char x s ≡ false
  unfolding has_char
  not_later c s h = ground arith

  -- A removed character is gone, and no other comes.
  pub has_char-replace_self : (s : String) → has_char x (replace_char x "" s) ≡ false
  unfolding replace_char
  has_char-replace_self String.[] = unfold has_char in refl
  has_char-replace_self (String.◌∷◌ c s) =
      has_char-append _ _ ∙ both_false (kept_self (eqb (code c) x) c refl) (has_char-replace_self s)

  pub has_char-replace :
      (y : ℕ) (s : String) → has_char x s ≡ false → has_char x (replace_char y "" s) ≡ false
  unfolding replace_char
  has_char-replace y String.[] h = unfold has_char in refl
  has_char-replace y (String.◌∷◌ c s) h =
      has_char-append _ _
      ∙ both_false (kept (eqb (code c) y) c (not_first c s h))
          (has_char-replace y s (not_later c s h))

lower_one-underscore : (c : Char) → eqb (code c) b'_' ≡ false → has_char b'_' (lower_one c) ≡ false
unfolding lower_one
lower_one-underscore c h = elim (Bool-cases (leb b'A' (code c) && leb (code c) b'Z')) [
  | inl upper ↦
      rw upper (
        has_char-char_text b'_' (code c - 65) "abcdefghijklmnopqrstuvwxyz"
          (unfold has_char in refl))
  | inr other ↦ rw other (unfold has_char in ground arith)
]

pub to_lower-underscore :
    (s : String) → has_char b'_' s ≡ false → has_char b'_' (to_lower s) ≡ false
unfolding to_lower
to_lower-underscore String.[] h = unfold has_char in refl
to_lower-underscore (String.◌∷◌ c s) h =
    has_char-append b'_' _ _
    ∙ both_false (lower_one-underscore c (not_first b'_' c s h))
        (to_lower-underscore s (not_later b'_' c s h))

module _ (x : ℕ) where
  pub count_char-append : (s t : String) → count_char x (s ++ t) ≡ count_char x s + count_char x t
  unfolding count_char
  count_char-append String.[] t = rw nil-append (omega arith)
  count_char-append (String.◌∷◌ c s) t =
      rw cons-append (let ih = count_char-append s t in omega arith)

  pub count_char-none : (s : String) → has_char x s ≡ false → count_char x s ≡ 0
  unfolding count_char
  count_char-none String.[] h = refl
  count_char-none (String.◌∷◌ c s) h =
      let rest = count_char-none s (not_later x c s h) in rw (not_first x c s h) (omega arith)

-- A text that starts with another one, by construction.
pub strip_prefix-append : (p s : String) → strip_prefix p (p ++ s) ≡ some s
unfolding strip_prefix
strip_prefix-append String.[] s = rw nil-append refl
strip_prefix-append (String.◌∷◌ c p) s =
    rw cons-append (let ih = strip_prefix-append p s in ground (arith, ih))
