-- ===== src/Database/Range.antt =====
-- database.go: `rangeOrderKey` and `partitionRangeBounds`, with the matchers of their two regular
-- expressions.
use Prim.Native.Char.{code}
use doris_sync.Base.{ℕ, zero, suc, String, ◌<>◌, ◌==◌, Bool, List, [], ◌∷◌, Option}
use doris_sync.Base.{none, some, ◌&&◌, ◌||◌, if◌then◌else◌, leb, eqb}
use doris_sync.Base.Text.{trim_space, trim_left, trim_right}

pub record Partition : Type 0 where
  pub name : String
  pub version : String
  pub id : String
  pub range : String

-- A character class for each character of a pattern; the match and what is left behind it.
abbrev Class : Type 0
Class = ℕ → Bool

abbrev digit : Class
digit c = leb b'0' c && leb c b'9'

match_classes : List Class → String → Option (String × String)
match_classes [] s = some ("", s)
match_classes (p ∷ ps) String.[] = none
match_classes (p ∷ ps) (String.◌∷◌ c s) =
    let rest = match_classes ps s in
    if p (code c)
    then elim rest [ none ↦ none | some (m, left) ↦ some (String.◌∷◌ c m, left) ]
    else none

abbrev date_classes : List Class
date_classes =
    digit
    ∷ digit
    ∷ digit
    ∷ digit
    ∷ (λ c. eqb c b'-')
    ∷ digit
    ∷ digit
    ∷ (λ c. eqb c b'-')
    ∷ digit
    ∷ digit
    ∷ []

abbrev time_classes : List Class
time_classes =
    (λ c. eqb c b' ' || eqb c b'T')
    ∷ digit
    ∷ digit
    ∷ (λ c. eqb c b':')
    ∷ digit
    ∷ digit
    ∷ (λ c. eqb c b':')
    ∷ digit
    ∷ digit
    ∷ []

-- `\d{4}-\d{2}-\d{2}(?:[ T]\d{2}:\d{2}:\d{2})?` at the start of a text.
match_date : String → Option String
unfolding match_classes
match_date s = elim (match_classes date_classes s) [
  | none ↦ none
  | some (date, left) ↦ elim (match_classes time_classes left) [
    | none ↦ some date
    | some (clock, _) ↦ some (date <> clock)
  ]
]

-- FindString: the leftmost match, "" if there is none.
find_date : String → String
unfolding match_date
find_date String.[] = ""
find_date (String.◌∷◌ c s) =
    let later = find_date s in elim (match_date (String.◌∷◌ c s)) [ none ↦ later | some m ↦ m ]

unfoldable pub range_order_key : Partition → String
unfolding find_date
range_order_key p = if find_date p.range == "" then p.name else find_date p.range

-- `(?i)keys:`
abbrev keys_classes : List Class
keys_classes =
    (λ c. eqb c b'k' || eqb c b'K' || eqb c 0x212A)
    ∷ (λ c. eqb c b'e' || eqb c b'E')
    ∷ (λ c. eqb c b'y' || eqb c b'Y')
    ∷ (λ c. eqb c b's' || eqb c b'S' || eqb c 0x17F)
    ∷ (λ c. eqb c b':')
    ∷ []

-- `\s*`
abbrev regexp_space : Class
regexp_space c = eqb c 9 || eqb c 10 || eqb c 12 || eqb c 13 || eqb c 32

-- `([^\]]*)\]`: the group, and what is left.
until_bracket : String → Option (String × String)
until_bracket String.[] = none
until_bracket (String.◌∷◌ c s) =
    let rest = until_bracket s in
    if eqb (code c) b']'
    then some ("", s)
    else elim rest [ none ↦ none | some (m, left) ↦ some (String.◌∷◌ c m, left) ]

bracketed : String → Option (String × String)
unfolding until_bracket
bracketed String.[] = none
bracketed (String.◌∷◌ c s) = if eqb (code c) b'[' then until_bracket s else none

match_keys : String → Option (String × String)
unfolding match_classes bracketed trim_left
match_keys s = elim (match_classes keys_classes s) [
  | none ↦ none
  | some (_, left) ↦ bracketed (trim_left regexp_space left)
]

char_count : String → ℕ
char_count String.[] = 0
char_count (String.◌∷◌ c s) = suc (char_count s)

-- FindAllStringSubmatch: the groups of the matches, none overlapping. Each round takes at least
-- one character, so the number of characters is enough fuel.
find_keys : ℕ → String → List String
unfolding match_keys
find_keys zero s = []
find_keys (suc fuel) String.[] = []
find_keys (suc fuel) (String.◌∷◌ c s) = elim (match_keys (String.◌∷◌ c s)) [
  | none ↦ find_keys fuel s
  | some (m, left) ↦ m ∷ find_keys fuel left
]

-- strings.Trim(…, "\"' ")
abbrev bound_trim : String → String
bound_trim s = trim_right quote (trim_left quote s)
  where
    quote : ℕ → Bool
    quote c = eqb c b'"' || eqb c b'\'' || eqb c b' '

two_bounds : List String → Option String
unfolding trim_space trim_right trim_left
two_bounds (low ∷ high ∷ []) =
    some (bound_trim (trim_space low) <> ("|" <> bound_trim (trim_space high)))
two_bounds _ = none

unfoldable pub partition_range_bounds : String → Option String
unfolding two_bounds find_keys char_count
partition_range_bounds raw = two_bounds (find_keys (suc (char_count raw)) raw)
