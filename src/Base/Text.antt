-- ===== src/Base/Text.antt =====
-- Texts: the parts of Go's `strings` that the program uses, over the characters of a text.
pub mod Chars
use Prim.Native.Char.{Char, code}
use Prim.Native.Nat.{ℕ, zero, suc, ◌+◌, ◌-◌, ◌/◌, ◌%◌}
use Prim.Native.String.{String, ◌++◌}
use mathlib.Core.Path.{◌≡◌, refl}
use mathlib.Core.Bool.{Bool, true, false, ◌&&◌, ◌||◌}
use mathlib.Core.Option.{Option, none, some}
use mathlib.Core.List.{List, [], ◌∷◌}
use native.Mathlib.Omega.{arith}
use text.Mathlib.Text.{◌==◌}
use doris_sync.Base.Tests.{eqb, leb, ltb, is_some, if◌then◌else◌}

-- unicode.IsSpace
pub is_space : ℕ → Bool
is_space c =
    (leb 9 c && leb c 13)
    || eqb c 32
    || eqb c 0x85
    || eqb c 0xA0
    || eqb c 0x1680
    || (leb 0x2000 c && leb c 0x200A)
    || eqb c 0x2028
    || eqb c 0x2029
    || eqb c 0x202F
    || eqb c 0x205F
    || eqb c 0x3000

-- strings.TrimLeft over a class of characters.
unfoldable pub trim_left : (ℕ → Bool) → String → String
trim_left p String.[] = ""
trim_left p (String.◌∷◌ c s) = if p (code c) then trim_left p s else String.◌∷◌ c s

-- strings.TrimRight: a character stays if something after it stays.
unfoldable pub trim_right : (ℕ → Bool) → String → String
trim_right p String.[] = ""
trim_right p (String.◌∷◌ c s) =
    let rest = trim_right p s in if p (code c) && rest == "" then "" else String.◌∷◌ c rest

unfoldable pub trim_space : String → String
unfolding trim_left trim_right is_space
trim_space s = trim_right is_space (trim_left is_space s)

-- strings.Trim(s, "/")
unfoldable pub trim_slashes : String → String
unfolding trim_left trim_right
trim_slashes s = trim_right (λ c. eqb c b'/') (trim_left (λ c. eqb c b'/') s)

-- strings.ReplaceAll of one character.
unfoldable pub replace_char : ℕ → String → String → String
replace_char old new String.[] = ""
replace_char old new (String.◌∷◌ c s) =
    (if eqb (code c) old then new else String.◌∷◌ c String.[]) ++ replace_char old new s

-- strings.Join
unfoldable pub join : String → List String → String
join sep [] = ""
join sep (x ∷ []) = x
join sep (x ∷ y ∷ ys) = x ++ (sep ++ join sep (y ∷ ys))

abbrev cons_first : Char → List String → List String
cons_first c [] = String.◌∷◌ c String.[] ∷ []
cons_first c (s ∷ rest) = String.◌∷◌ c s ∷ rest

-- strings.Split at one character: always one part more than there are separators.
unfoldable pub split : ℕ → String → List String
split sep String.[] = "" ∷ []
split sep (String.◌∷◌ c s) =
    let rest = split sep s in if eqb (code c) sep then "" ∷ rest else cons_first c rest

-- Is the character in the text? strings.Contains of one character.
unfoldable pub has_char : ℕ → String → Bool
has_char x String.[] = false
has_char x (String.◌∷◌ c s) = eqb (code c) x || has_char x s

-- Go's `<` on strings: byte order, which for UTF-8 is the order of the code points.
unfoldable pub str_lt : String → String → Bool
str_lt s String.[] = false
str_lt String.[] (String.◌∷◌ d t) = true
str_lt (String.◌∷◌ c s) (String.◌∷◌ d t) =
    ltb (code c) (code d) || (eqb (code c) (code d) && str_lt s t)

pub str_lt_irrefl : (s : String) → str_lt s s ≡ false
unfolding str_lt
str_lt_irrefl String.[] = refl
str_lt_irrefl (String.◌∷◌ c s) = ground (arith, str_lt_irrefl s)

pub str_lt_trans : (s t u : String) → str_lt s t ≡ true → str_lt t u ≡ true → str_lt s u ≡ true
unfolding str_lt
str_lt_trans String.[] String.[] u h k = ground arith
str_lt_trans String.[] (String.◌∷◌ d t) String.[] h k = ground arith
str_lt_trans String.[] (String.◌∷◌ d t) (String.◌∷◌ e u) h k = refl
str_lt_trans (String.◌∷◌ c s) String.[] u h k = ground arith
str_lt_trans (String.◌∷◌ c s) (String.◌∷◌ d t) String.[] h k = ground arith
str_lt_trans (String.◌∷◌ c s) (String.◌∷◌ d t) (String.◌∷◌ e u) h k =
    ground (arith, str_lt_trans s t u)

-- strings.TrimPrefix and strings.HasPrefix: what is left behind a prefix, if it is one.
unfoldable pub strip_prefix : String → String → Option String
strip_prefix String.[] s = some s
strip_prefix (String.◌∷◌ d p) String.[] = none
strip_prefix (String.◌∷◌ d p) (String.◌∷◌ c s) =
    if eqb (code d) (code c) then strip_prefix p s else none

unfoldable pub has_prefix : String → String → Bool
unfolding strip_prefix
has_prefix s p = is_some (strip_prefix p s)

unfoldable pub trim_prefix : String → String → String
unfolding strip_prefix
trim_prefix s p = elim (strip_prefix p s) [ none ↦ s | some rest ↦ rest ]

-- strings.Count of one character.
unfoldable pub count_char : ℕ → String → ℕ
count_char x String.[] = 0
count_char x (String.◌∷◌ c s) = (if eqb (code c) x then 1 else 0) + count_char x s

-- The character at an index, as a text.
unfoldable pub char_text : ℕ → String → String
char_text i String.[] = ""
char_text zero (String.◌∷◌ c s) = String.◌∷◌ c String.[]
char_text (suc i) (String.◌∷◌ c s) = char_text i s

lower_one : Char → String
unfolding char_text
lower_one c =
    if leb b'A' (code c) && leb (code c) b'Z'
    then char_text (code c - 65) "abcdefghijklmnopqrstuvwxyz"
    else String.◌∷◌ c String.[]

-- strings.ToLower. Letters outside ASCII are left as they are.
unfoldable pub to_lower : String → String
unfolding lower_one
to_lower String.[] = ""
to_lower (String.◌∷◌ c s) = lower_one c ++ to_lower s

upper_one : Char → String
unfolding char_text
upper_one c =
    if leb b'a' (code c) && leb (code c) b'z'
    then char_text (code c - 97) "ABCDEFGHIJKLMNOPQRSTUVWXYZ"
    else String.◌∷◌ c String.[]

-- strings.ToUpper. Letters outside ASCII are left as they are.
unfoldable pub to_upper : String → String
unfolding upper_one
to_upper String.[] = ""
to_upper (String.◌∷◌ c s) = upper_one c ++ to_upper s

-- strings.EqualFold
unfoldable pub equal_fold : String → String → Bool
unfolding to_lower
equal_fold a b = to_lower a == to_lower b

-- strings.HasSuffix
unfoldable pub has_suffix : String → String → Bool
has_suffix String.[] t = t == ""
has_suffix (String.◌∷◌ c s) t = String.◌∷◌ c s == t || has_suffix s t

-- strings.Contains
unfoldable pub has_text : String → String → Bool
unfolding has_prefix
has_text String.[] t = t == ""
has_text (String.◌∷◌ c s) t = has_prefix (String.◌∷◌ c s) t || has_text s t

-- %d of a number, its digits from the right; a number has no more digits than its fuel.
decimal_loop : ℕ → ℕ → String
decimal_loop zero n = ""
decimal_loop (suc f) n =
    let front = decimal_loop f (n / 10) in
    let last = char_text (n % 10) "0123456789" in if ltb n 10 then last else front ++ last

unfoldable pub decimal : ℕ → String
unfolding decimal_loop char_text
decimal n = decimal_loop (suc n) n

-- hash[:n] of a text of single-byte characters.
unfoldable pub take_chars : ℕ → String → String
take_chars zero s = ""
take_chars (suc n) String.[] = ""
take_chars (suc n) (String.◌∷◌ c s) = String.◌∷◌ c (take_chars n s)
