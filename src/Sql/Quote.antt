-- ===== src/Sql/Quote.antt =====
-- sql.go: `ident` against a reader of text in backquotes.
use Prim.Native.Char.{Char, code}
use doris_sync.Base.{String, ◌<>◌, Bool, true, false, Option, none, some, ◌≡◌, refl, sym, ap, ◌∙◌}
use doris_sync.Base.{if◌then◌else◌, eqb, eqb→eq, not, arith}
use doris_sync.Base.Text.{replace_char}
use doris_sync.Sql.{ident}
use text.Mathlib.TextLemmas.{nil-append, cons-append, append_assoc}
use text.Mathlib.TextEquality.{Char-path}

abbrev pub Read : Type 0
Read = Option (String × String)

abbrev pub with_first : Char → Read → Read
with_first c none = none
with_first c (some (s, left)) = some (String.◌∷◌ c s, left)

abbrev is : Char → Char → Bool
is q c = eqb (code c) (code q)

-- A text up to its closing quote, where a doubled quote is one quote; the flag is that the
-- character before was a quote.
unfoldable pub read_doubled : Char → Bool → String → Read
read_doubled q false String.[] = none
read_doubled q true String.[] = some ("", "")
read_doubled q false (String.◌∷◌ c s) =
    let again = read_doubled q true s in
    let plain = read_doubled q false s in if is q c then again else with_first c plain
read_doubled q true (String.◌∷◌ c s) =
    let plain = read_doubled q false s in
    if is q c then with_first q plain else some ("", String.◌∷◌ c s)

-- A quoted text and what is left behind it.
unfoldable pub read_quoted : Char → String → Read
unfolding read_doubled
read_quoted q String.[] = none
read_quoted q (String.◌∷◌ c s) = if is q c then read_doubled q false s else none

-- The text does not go on with the quote.
abbrev pub stops : Char → String → Bool
stops q String.[] = true
stops q (String.◌∷◌ c s) = not (is q c)

module _ (q : Char) where
  abbrev one : String
  one = String.◌∷◌ q String.[]

  abbrev two : String
  two = String.◌∷◌ q one

  same : is q q ≡ true
  same = ground arith

  closing : (left : String) → stops q left ≡ true → read_doubled q true left ≡ some ("", left)
  unfolding read_doubled
  closing String.[] h = refl
  closing (String.◌∷◌ c left) h = ground (arith, h)

  doubled :
      (r : String)
      → read_doubled q false (String.◌∷◌ q (String.◌∷◌ q r)) ≡ with_first q (read_doubled q false r)
  unfolding read_doubled
  doubled r = ground arith

  other :
      (c : Char) (r : String)
      → is q c ≡ false
      → read_doubled q false (String.◌∷◌ c r) ≡ with_first c (read_doubled q false r)
  unfolding read_doubled
  other c r e = ground (arith, e)

  piece :
      (b : Bool) (c : Char) (s left r : String)
      → is q c ≡ b
      → read_doubled q false r ≡ some (s, left)
      → read_doubled q false ((if b then two else String.◌∷◌ c String.[]) <> r)
        ≡ some (String.◌∷◌ c s, left)
  piece true c s left r e h =
      rw (cons-append, cons-append, nil-append)
        (doubled r
          ∙ ap (with_first q) h
          ∙ ap (λ x. some (String.◌∷◌ x s, left))
              (Char-path q c (sym (eqb→eq (code c) (code q) e))))
  piece false c s left r e h = rw (cons-append, nil-append) (other c r e ∙ ap (with_first c) h)

  read-replace :
      (s left : String)
      → stops q left ≡ true
      → read_doubled q false (replace_char (code q) two s <> (one <> left)) ≡ some (s, left)
  unfolding replace_char
  read-replace String.[] left h =
      rw (nil-append, cons-append, nil-append)
        (unfold read_doubled in rw (same, closing left h) refl)
  read-replace (String.◌∷◌ c s) left h =
      rw append_assoc (piece (is q c) c s left _ refl (read-replace s left h))

-- Reading an identifier that `ident` has quoted gives the identifier back, and what follows it,
-- unless that starts with a backquote.
pub read-ident :
    (s left : String) → stops "`" left ≡ true → read_quoted "`" (ident s <> left) ≡ some (s, left)
unfolding ident read_quoted
read-ident s left h =
    rw (cons-append, nil-append, cons-append)
      (ap (read_doubled "`" false) (append_assoc _ _ left) ∙ read-replace "`" s left h)
