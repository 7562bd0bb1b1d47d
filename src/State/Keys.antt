-- ===== src/State/Keys.antt =====
-- state.go: `stateKey` and `splitStateKey`.
use doris_sync.Base.{String, ◌<>◌, List, [], ◌∷◌, ◌≡◌, refl, false, arith}
use text.Mathlib.TextLemmas.{nil-append, cons-append}
use doris_sync.Base.Text.{join, split, has_char}
use doris_sync.Base.Act.{Result, ok, err, errorf}

-- The separator is the character U+0000.
unfoldable pub state_key : String → String → String → String → String
unfolding join
state_key source target table partition = join "\0" (source ∷ target ∷ table ∷ partition ∷ [])

four_parts : List String → Result (List String)
four_parts (a ∷ b ∷ c ∷ d ∷ []) = ok (a ∷ b ∷ c ∷ d ∷ [])
four_parts _ = err (errorf "invalid state key")

unfoldable pub split_state_key : String → Result (List String)
unfolding four_parts
split_state_key key = four_parts (split 0 key)

nul-append : (s : String) → split 0 ("\0" <> s) ≡ "" ∷ split 0 s
unfolding split
nul-append s = rw (cons-append _ "" s) (rw nil-append refl)

split-append : (a s : String) → has_char 0 a ≡ false → split 0 (a <> ("\0" <> s)) ≡ a ∷ split 0 s
unfolding split has_char
split-append String.[] s h = rw (nil-append ("\0" <> s)) (nul-append s)
split-append (String.◌∷◌ c a) s h = rw cons-append (ground (arith, split-append a s))

split_plain : (a : String) → has_char 0 a ≡ false → split 0 a ≡ a ∷ []
unfolding split has_char
split_plain String.[] h = refl
split_plain (String.◌∷◌ c a) h = ground (arith, split_plain a)

module _ (source target table partition : String) where
  -- Splitting the key of four texts with no U+0000 in them gives the four texts back.
  pub split-state_key :
      has_char 0 source ≡ false
      → has_char 0 target ≡ false
      → has_char 0 table ≡ false
      → has_char 0 partition ≡ false
      → split_state_key (state_key source target table partition)
        ≡ ok (source ∷ target ∷ table ∷ partition ∷ [])
  unfolding split_state_key state_key
  split-state_key hs ht hn hp = rw (
    split-append source _ hs,
    split-append target _ ht,
    split-append table _ hn,
    split_plain partition hp,
  )
