-- ===== src/Sql/Create.antt =====
-- sql.go: `targetDDL`, which rewrites a CREATE TABLE statement. The matchers of the three regular
-- expressions are parameters.
pub mod Closing
use Prim.Native.Char.{Char, code}
use doris_sync.Base.{
  ℕ, zero, suc, ◌+◌, ◌-◌, String, ◌<>◌, ◌==◌, Bool, true, false, not, ◌&&◌, ◌||◌, Option, none,
  some,
}
use doris_sync.Base.{eqb, is_some, if◌then◌else◌}
use doris_sync.Base.Text.{take_chars, trim_left, trim_space, has_prefix, has_suffix}
use doris_sync.Base.Act.{errorf, Result, ok, err, killed}
use doris_sync.Sql.{qtable}

-- What a pass of the loop ends with: the index is returned, or the loop goes on with an index to
-- skip or not, a quote (0 for none) and a depth.
pub data Step : Type 0 where
  found : Step
  next : Bool → ℕ → ℕ → Step

-- i+1 < len(sql)
abbrev pub has_next : String → Bool
has_next String.[] = false
has_next (String.◌∷◌ c s) = true

-- i+1 < len(sql) && sql[i+1] == quote
abbrev pub starts_with : ℕ → String → Bool
starts_with q String.[] = false
starts_with q (String.◌∷◌ c s) = eqb (code c) q

abbrev is_quote : ℕ → Bool
is_quote c = eqb c b'\'' || eqb c b'"' || eqb c b'`'

-- One pass over a character, with what is behind it.
unfoldable pub pass : ℕ → ℕ → ℕ → String → Step
pass quote depth c behind =
    if not (eqb quote 0)
    then (if eqb c b'\\' && has_next behind
        then Step.next true quote depth
        else if eqb c quote
        then (if starts_with quote behind
            then Step.next true quote depth
            else Step.next false 0 depth)
        else Step.next false quote depth)
    else if is_quote c
    then Step.next false c depth
    else if eqb c b'('
    then Step.next false 0 (depth + 1)
    else if eqb c b')'
    then (if eqb depth 1 then Step.found else Step.next false 0 (depth - 1))
    else Step.next false 0 depth

-- The loop, from an index on.
unfoldable pub scan : Bool → ℕ → ℕ → ℕ → String → Option ℕ
scan skip quote depth i String.[] = none
scan true quote depth i (String.◌∷◌ c s) = scan false quote depth (suc i) s
scan false quote depth i (String.◌∷◌ c s) = elim (pass quote depth (code c) s) [
  | Step.found ↦ some i
  | Step.next skip q d ↦ scan skip q d (suc i) s
]

-- The index of the parenthesis that closes the one at the start of a text.
unfoldable pub closing_paren : String → Result ℕ
closing_paren sql = elim (scan false 0 0 0 sql) [
  | none ↦ err (errorf "unclosed parenthesis in AUTO PARTITION clause")
  | some i ↦ ok i
]

unfoldable pub drop_chars : ℕ → String → String
drop_chars zero s = s
drop_chars (suc n) String.[] = ""
drop_chars (suc n) (String.◌∷◌ c s) = drop_chars n s

-- strings.IndexByte: a text up to a character, and from it on.
unfoldable pub cut_at : ℕ → String → Option (String × String)
cut_at x String.[] = none
cut_at x (String.◌∷◌ c s) =
    let rest = cut_at x s in
    if eqb (code c) x
    then some ("", String.◌∷◌ c s)
    else elim rest [ none ↦ none | some (head, tail) ↦ some (String.◌∷◌ c head, tail) ]

abbrev is_blank : ℕ → Bool
is_blank c = eqb c b' ' || eqb c b'\n' || eqb c b'\r' || eqb c b'\t'

-- The blanks at the start of a text.
unfoldable pub blanks : String → String
blanks String.[] = ""
blanks (String.◌∷◌ c s) = let rest = blanks s in if is_blank (code c) then String.◌∷◌ c rest else ""

-- The first match of a pattern: what is behind createPrefix; a text up to the end of
-- autoPartitionClause, and the rest; a text up to distributionClause, and from it on.
pub record Patterns : Type 0 where
  pub create_prefix : String → Option String
  pub auto_partition : String → Option (String × String)
  pub distribution : String → Option (String × String)

module _ (patterns : Patterns) where
  -- The definitions, up to the distribution, give way to `()`.
  unfoldable pub without_definitions : String → String → Result String
  without_definitions kept on =
      if not (starts_with b'(' on)
      then err (errorf "AUTO PARTITION definitions are missing")
      else elim (patterns.distribution on) [
        | none ↦ err (errorf "AUTO PARTITION definitions have no DISTRIBUTED BY boundary")
        | some (before, clause) ↦
            let definitions = trim_space before in
            if not (has_prefix definitions "(") || not (has_suffix definitions ")")
            then err (errorf "unexpected AUTO PARTITION definitions")
            else ok (kept <> ("()\n" <> clause))
      ]

  -- From the parenthesis of the expression on, behind what is kept.
  unfoldable pub behind_expression : String → String → Result String
  behind_expression kept expression = elim (closing_paren expression) [
    | err e ↦ err e
    | killed ↦ killed
    | ok end ↦
        let behind = drop_chars (suc end) expression in
        without_definitions (kept <> (take_chars (suc end) expression <> blanks behind))
          (trim_left is_blank behind)
  ]

  unfoldable pub omit_auto_partition_definitions : String → Result String
  omit_auto_partition_definitions ddl = elim (patterns.auto_partition ddl) [
    | none ↦ ok ddl
    | some (head, tail) ↦ elim (cut_at b'(' tail) [
      | none ↦ err (errorf "AUTO PARTITION expression is missing")
      | some (gap, expression) ↦ behind_expression (head <> gap) expression
    ]
  ]

  unfoldable pub target_ddl : String → String → String → Result String
  target_ddl ddl db table = elim (patterns.create_prefix ddl) [
    | none ↦ err (errorf "unsupported SHOW CREATE TABLE result")
    | some rest ↦ omit_auto_partition_definitions ("CREATE TABLE " <> (qtable db table <> rest))
  ]
