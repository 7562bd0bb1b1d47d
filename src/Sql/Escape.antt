-- ===== src/Sql/Escape.antt =====
-- sql.go: `sqlString` against a reader of text in double quotes with backslashes.
use Prim.Native.Char.{Char, code}
use doris_sync.Base.{ℕ, String, ◌<>◌, Bool, true, false, none, some, ◌≡◌, refl, sym, ap, ◌∙◌}
use doris_sync.Base.{if◌then◌else◌, eqb, eqb→eq, Bool-cases, inl, inr}
use doris_sync.Base.Text.{replace_char}
use doris_sync.Sql.{sql_string}
use doris_sync.Sql.Quote.{Read, with_first}
use text.Mathlib.TextLemmas.{nil-append, cons-append, append_assoc, append-nil}
use text.Mathlib.TextEquality.{Char-path}

-- A text up to its closing quote; the flag is that the character before was a backslash.
unfoldable pub read_escaped : Bool → String → Read
read_escaped flag String.[] = none
read_escaped true (String.◌∷◌ c s) = let plain = read_escaped false s in with_first c plain
read_escaped false (String.◌∷◌ c s) =
    let next = read_escaped true s in
    let plain = read_escaped false s in
    if eqb (code c) b'"'
    then some ("", s)
    else if eqb (code c) b'\\'
    then next
    else with_first c plain

unfoldable pub read_string : String → Read
unfolding read_escaped
read_string String.[] = none
read_string (String.◌∷◌ c s) = if eqb (code c) b'"' then read_escaped false s else none

replace-append :
    (o : ℕ) (n s t : String) → replace_char o n (s <> t) ≡ replace_char o n s <> replace_char o n t
unfolding replace_char
replace-append o n String.[] t = rw (nil-append, nil-append) refl
replace-append o n (String.◌∷◌ c s) t =
    rw (cons-append, append_assoc)
      (ap (λ x. (if eqb (code c) o then n else String.◌∷◌ c String.[]) <> x)
        (replace-append o n s t))

-- What one character becomes.
abbrev backslash : Char → String
backslash c = if eqb (code c) b'\\' then "\\\\" else String.◌∷◌ c String.[]

abbrev escape : String → String
escape s = replace_char b'"' "\\\"" (replace_char b'\\' "\\\\" s)

escape-cons :
    (c : Char) (s : String)
    → escape (String.◌∷◌ c s) ≡ replace_char b'"' "\\\"" (backslash c) <> escape s
escape-cons c s = unfold replace_char in replace-append b'"' "\\\"" (backslash c) _

abbrev quoted : Char → String
quoted c = replace_char b'"' "\\\"" (backslash c)

-- Reading what a character becomes.
piece :
    (c : Char) (r : String)
    → read_escaped false (quoted c <> r) ≡ with_first c (read_escaped false r)
piece c r = elim (Bool-cases (eqb (code c) b'\\')) [
  | inl slash ↦
      let e : "\\" ≡ c = Char-path "\\" c (sym (eqb→eq (code c) b'\\' slash)) in
      rw (← e) (
        unfold replace_char in
        unfold read_escaped in rw (cons-append, cons-append, nil-append) refl)
  | inr other ↦ rw other (elim (Bool-cases (eqb (code c) b'"')) [
    | inl quote ↦
        let e : "\"" ≡ c = Char-path "\"" c (sym (eqb→eq (code c) b'"' quote)) in
        rw (← e) (
          unfold replace_char in
          unfold read_escaped in rw (cons-append, cons-append, nil-append) refl)
    | inr plain ↦
        unfold replace_char in
        rw plain
          (rw (append-nil, cons-append, nil-append) (unfold read_escaped in rw (plain, other) refl))
  ])
]

read-escape : (s left : String) → read_escaped false (escape s <> ("\"" <> left)) ≡ some (s, left)
read-escape String.[] left =
    unfold replace_char in rw (nil-append, cons-append, nil-append) (unfold read_escaped in refl)
read-escape (String.◌∷◌ c s) left =
    ap (λ x. read_escaped false (x <> ("\"" <> left))) (escape-cons c s)
    ∙ ap (read_escaped false) (append_assoc (quoted c) (escape s) ("\"" <> left))
    ∙ piece c _
    ∙ ap (with_first c) (read-escape s left)

-- Reading a text that `sqlString` has quoted gives the text back, and what follows it.
pub read-sql_string : (s left : String) → read_string (sql_string s <> left) ≡ some (s, left)
unfolding sql_string read_string
read-sql_string s left =
    rw (cons-append, nil-append, cons-append)
      (ap (read_escaped false) (append_assoc _ _ left) ∙ read-escape s left)
