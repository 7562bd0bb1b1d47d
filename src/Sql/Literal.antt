-- ===== src/Sql/Literal.antt =====
-- sql.go: `sqlLiteral` against a reader of text in single quotes, where a doubled quote is a quote and
-- a backslash keeps the character behind it, as `closingParen` takes them.
use Prim.Native.Char.{Char, code}
use doris_sync.Base.{String, ◌<>◌, Bool, true, false, none, some, ◌≡◌, refl, sym, ap, ◌∙◌}
use doris_sync.Base.{if◌then◌else◌, eqb, eqb→eq, arith}
use doris_sync.Base.Text.{replace_char, has_char}
use doris_sync.Sql.{sql_literal}
use doris_sync.Sql.Quote.{Read, with_first, stops}
use text.Mathlib.TextLemmas.{nil-append, cons-append, append_assoc}
use text.Mathlib.TextEquality.{Char-path}

-- Within a literal, behind a single quote, or behind a backslash.
pub data Place : Type 0 where
  inside behind_quote behind_backslash : Place

unfoldable pub read_from : Place → String → Read
read_from inside String.[] = none
read_from behind_quote String.[] = some ("", "")
read_from behind_backslash String.[] = none
read_from inside (String.◌∷◌ c s) =
    let quote = read_from behind_quote s in
    let escape = read_from behind_backslash s in
    let plain = read_from inside s in
    if eqb (code c) b'\\' then escape else if eqb (code c) b'\'' then quote else with_first c plain
read_from behind_quote (String.◌∷◌ c s) =
    let plain = read_from inside s in
    if eqb (code c) b'\'' then with_first "'" plain else some ("", String.◌∷◌ c s)
read_from behind_backslash (String.◌∷◌ c s) = let plain = read_from inside s in with_first c plain

-- A literal, and what is left behind it.
unfoldable pub read_literal : String → Read
unfolding read_from
read_literal String.[] = none
read_literal (String.◌∷◌ c s) = if eqb (code c) b'\'' then read_from inside s else none

closing : (left : String) → stops "'" left ≡ true → read_from behind_quote left ≡ some ("", left)
unfolding read_from
closing String.[] h = refl
closing (String.◌∷◌ c left) h = ground (arith, h)

ends :
    (left : String)
    → stops "'" left ≡ true
    → read_from inside (String.◌∷◌ "'" left) ≡ some ("", left)
ends left h = unfold read_from in closing left h

doubled :
    (r : String)
    → read_from inside (String.◌∷◌ "'" (String.◌∷◌ "'" r)) ≡ with_first "'" (read_from inside r)
unfolding read_from
doubled r = refl

other :
    (c : Char) (r : String)
    → eqb (code c) b'\'' ≡ false
    → eqb (code c) b'\\' ≡ false
    → read_from inside (String.◌∷◌ c r) ≡ with_first c (read_from inside r)
unfolding read_from
other c r e n = rw (n, e) refl

piece :
    (b : Bool) (c : Char) (s left r : String)
    → eqb (code c) b'\'' ≡ b
    → eqb (code c) b'\\' ≡ false
    → read_from inside r ≡ some (s, left)
    → read_from inside ((if b then "''" else String.◌∷◌ c String.[]) <> r)
      ≡ some (String.◌∷◌ c s, left)
piece true c s left r e n h =
    rw (cons-append, cons-append, nil-append)
      (doubled r
        ∙ ap (with_first "'") h
        ∙ ap (λ x. some (String.◌∷◌ x s, left)) (Char-path "'" c (sym (eqb→eq (code c) b'\'' e))))
piece false c s left r e n h = rw (cons-append, nil-append) (other c r e n ∙ ap (with_first c) h)

read-replace :
    (s left : String)
    → has_char b'\\' s ≡ false
    → stops "'" left ≡ true
    → read_from inside (replace_char b'\'' "''" s <> ("'" <> left)) ≡ some (s, left)
unfolding replace_char has_char
read-replace String.[] left n h = rw (nil-append, cons-append, nil-append) (ends left h)
read-replace (String.◌∷◌ c s) left n h =
    let here : eqb (code c) b'\\' ≡ false = ground (arith, n) in
    let there : has_char b'\\' s ≡ false = ground (arith, n) in
    rw append_assoc (piece (eqb (code c) b'\'') c s left _ refl here (read-replace s left there h))

-- Reading a literal that `sqlLiteral` has quoted gives the text back, and what follows it, where the
-- text has no backslash and what follows does not start with a single quote.
pub read-sql_literal :
    (s left : String)
    → has_char b'\\' s ≡ false
    → stops "'" left ≡ true
    → read_literal (sql_literal s <> left) ≡ some (s, left)
unfolding sql_literal read_literal
read-sql_literal s left n h =
    rw (cons-append, nil-append, cons-append)
      (ap (read_from inside) (append_assoc _ _ left) ∙ read-replace s left n h)
