-- ===== src/Sql/Create/Closing.antt =====
-- sql.go: `closingParen` against the grammar of a text in parentheses.
use Prim.Native.Char.{Char, code}
use doris_sync.Base.{
  ℕ, zero, suc, ◌+◌, String, Bool, true, false, ◌||◌, some, ◌≡◌, ◌≢◌, refl, ◌∙◌, ap, arith, eqb,
}
use doris_sync.Base.Act.{ok}
use doris_sync.Sql.Create.{Step, has_next, starts_with, pass, scan, closing_paren, drop_chars}

-- A character that ends a text in quotes, and one that begins it.
abbrev pub IsQuote : ℕ → Type 0
IsQuote q = (eqb q b'\'' || eqb q b'"' || eqb q b'`') ≡ true

-- Text in quotes up to the closing one; a backslash and a doubled quote keep what follows.
pub data Quoted (q : ℕ) : String → String → Type 0 where
  ends :
      (c : Char) (u : String) → code c ≡ q → starts_with q u ≡ false → Quoted q (String.◌∷◌ c u) u
  escaped :
      (b c : Char) (t u : String)
      → code b ≡ b'\\'
      → Quoted q t u
      → Quoted q (String.◌∷◌ b (String.◌∷◌ c t)) u
  doubled :
      (c d : Char) (t u : String)
      → code c ≡ q
      → code d ≡ q
      → Quoted q t u
      → Quoted q (String.◌∷◌ c (String.◌∷◌ d t)) u
  plain :
      (c : Char) (t u : String)
      → code c ≢ b'\\'
      → code c ≢ q
      → Quoted q t u
      → Quoted q (String.◌∷◌ c t) u

-- A text that begins with one whose parentheses match, and what is behind it.
pub data Nested : String → String → Type 0 where
  nothing : (t : String) → Nested t t
  letter :
      (c : Char) (t u : String)
      → (eqb (code c) b'\'' || eqb (code c) b'"' || eqb (code c) b'`') ≡ false
      → code c ≢ b'('
      → code c ≢ b')'
      → Nested t u
      → Nested (String.◌∷◌ c t) u
  quoted :
      (c : Char) (t u v : String)
      → IsQuote (code c)
      → Quoted (code c) t u
      → Nested u v
      → Nested (String.◌∷◌ c t) v
  pair :
      (c d : Char) (t u v : String)
      → code c ≡ b'('
      → code d ≡ b')'
      → Nested t (String.◌∷◌ d u)
      → Nested u v
      → Nested (String.◌∷◌ c t) v

-- The loop goes from one index to another, over the text between.
record Goes (quote depth i : ℕ) (t : String) (depth' : ℕ) (u : String) : Type 0 where
  steps : ℕ
  arrives : scan false quote depth i t ≡ scan false 0 depth' (i + steps) u
  text : drop_chars steps t ≡ u

slash_step :
    (q d c : ℕ) (s : String)
    → c ≡ b'\\'
    → q ≢ 0
    → has_next s ≡ true
    → pass q d c s ≡ Step.next true q d
unfolding pass
slash_step q d c s e p n = ground arith

doubled_step :
    (q d c : ℕ) (s : String)
    → c ≡ q
    → q ≢ 0
    → starts_with q s ≡ true
    → pass q d c s ≡ Step.next true q d
unfolding pass
doubled_step q d c s e p n = ground arith

end_step :
    (q d c : ℕ) (s : String)
    → c ≡ q
    → q ≢ 0
    → q ≢ b'\\'
    → starts_with q s ≡ false
    → pass q d c s ≡ Step.next false 0 d
unfolding pass
end_step q d c s e p n h = ground arith

inside_step :
    (q d c : ℕ) (s : String) → q ≢ 0 → c ≢ b'\\' → c ≢ q → pass q d c s ≡ Step.next false q d
unfolding pass
inside_step q d c s p n h = ground arith

open_step : (d c : ℕ) (s : String) → IsQuote c → pass 0 d c s ≡ Step.next false c d
unfolding pass
open_step d c s h = ground arith

letter_step :
    (d c : ℕ) (s : String)
    → (eqb c b'\'' || eqb c b'"' || eqb c b'`') ≡ false
    → c ≢ b'('
    → c ≢ b')'
    → pass 0 d c s ≡ Step.next false 0 d
unfolding pass
letter_step d c s h k l = ground arith

down_step : (d c : ℕ) (s : String) → c ≡ b'(' → pass 0 d c s ≡ Step.next false 0 (suc d)
unfolding pass
down_step d c s h = ground arith

up_step : (d c : ℕ) (s : String) → c ≡ b')' → pass 0 (suc (suc d)) c s ≡ Step.next false 0 (suc d)
unfolding pass
up_step d c s h = ground arith

found_step : (c : ℕ) (s : String) → c ≡ b')' → pass 0 1 c s ≡ Step.found
unfolding pass
found_step c s h = ground arith

-- A pass whose outcome is known.
after_pass :
    (q d i : ℕ) (c : Char) (s : String) (skip : Bool) (q' d' : ℕ)
    → pass q d (code c) s ≡ Step.next skip q' d'
    → scan false q d i (String.◌∷◌ c s) ≡ scan skip q' d' (suc i) s
unfolding scan
after_pass q d i c s skip q' d' h = rw (scan, h) refl

found_at :
    (i : ℕ) (c : Char) (s : String) → code c ≡ b')' → scan false 0 1 i (String.◌∷◌ c s) ≡ some i
unfolding scan
found_at i c s h = let step = found_step (code c) s h in rw (scan, step) refl

drop-add : (m n : ℕ) (s : String) → drop_chars (m + n) s ≡ drop_chars n (drop_chars m s)
unfolding drop_chars
drop-add zero n s = let e : 0 + n ≡ n = omega arith in ap (λ k. drop_chars k s) e
drop-add (suc m) zero String.[] =
    let e : suc m + 0 ≡ suc m = omega arith in ap (λ k. drop_chars k "") e
drop-add (suc m) (suc n) String.[] =
    let e : suc m + suc n ≡ suc (m + suc n) = omega arith in ap (λ k. drop_chars k "") e
drop-add (suc m) n (String.◌∷◌ c s) =
    let e : suc m + n ≡ suc (m + n) = omega arith in
    ap (λ k. drop_chars k (String.◌∷◌ c s)) e ∙ drop-add m n s

same_index : (q d i j : ℕ) (s : String) → i ≡ j → scan false q d i s ≡ scan false q d j s
same_index q d i j s e = ap (λ k. scan false q d k s) e

-- One character, and the rest of the way.
one_on :
    (q d i : ℕ) (c : Char) (t : String) (q' d' d'' : ℕ) (u : String)
    → pass q d (code c) t ≡ Step.next false q' d'
    → Goes q' d' (suc i) t d'' u
    → Goes q d i (String.◌∷◌ c t) d'' u
unfolding drop_chars
one_on q d i c t q' d' d'' u step rest = record {
  steps = suc rest.steps;
  arrives =
      after_pass q d i c t false q' d' step ∙ rest.arrives ∙ same_index 0 d'' _ _ u (omega arith);
  text = rest.text;
}

-- A character, one that is skipped, and the rest of the way.
two_on :
    (q d i : ℕ) (c e : Char) (t : String) (d' : ℕ) (u : String)
    → pass q d (code c) (String.◌∷◌ e t) ≡ Step.next true q d
    → Goes q d (suc (suc i)) t d' u
    → Goes q d i (String.◌∷◌ c (String.◌∷◌ e t)) d' u
unfolding drop_chars scan
two_on q d i c e t d' u step rest = record {
  steps = suc (suc rest.steps);
  arrives =
      after_pass q d i c (String.◌∷◌ e t) true q d step
      ∙ rest.arrives
      ∙ same_index 0 d' _ _ u (omega arith);
  text = rest.text;
}

stays : (d i : ℕ) (t : String) → Goes 0 d i t d t
unfolding drop_chars
stays d i t = record { steps = 0; arrives = same_index 0 d i (i + 0) t (omega arith); text = refl }

-- One way behind another.
both_on :
    (q d i : ℕ) (t : String) (d' : ℕ) (u : String) (d'' : ℕ) (v : String)
    → Goes q d i t d' u
    → ((j : ℕ) → Goes 0 d' j u d'' v)
    → Goes q d i t d'' v
both_on q d i t d' u d'' v h rest =
    let k = rest (i + h.steps) in
    record {
      steps = h.steps + k.steps;
      arrives = h.arrives ∙ k.arrives ∙ same_index 0 d'' _ _ v (omega arith);
      text = drop-add h.steps k.steps t ∙ ap (drop_chars k.steps) h.text ∙ k.text;
    }

past_quotes : (q d i : ℕ) (t u : String) → q ≢ 0 → q ≢ b'\\' → Quoted q t u → Goes q d i t d u
past_quotes q d i _ u p n (Quoted.ends c _ e s) =
    one_on q d i c u 0 d d u (end_step q d (code c) u e p n s) (stays d (suc i) u)
past_quotes q d i _ u p n (Quoted.escaped b c t _ e h) =
    two_on q d i b c t d u (slash_step q d (code b) _ e p refl)
      (past_quotes q d (suc (suc i)) t u p n h)
past_quotes q d i _ u p n (Quoted.doubled c e t _ k l h) =
    two_on q d i c e t d u (doubled_step q d (code c) _ k p (ground (arith, l)))
      (past_quotes q d (suc (suc i)) t u p n h)
past_quotes q d i _ u p n (Quoted.plain c t _ k l h) =
    one_on q d i c t q d d u (inside_step q d (code c) t p k l) (past_quotes q d (suc i) t u p n h)

past_pairs : (d i : ℕ) (t u : String) → Nested t u → Goes 0 (suc d) i t (suc d) u
past_pairs d i _ u (Nested.nothing _) = stays (suc d) i u
past_pairs d i _ u (Nested.letter c t _ q o e h) =
    one_on 0 (suc d) i c t 0 (suc d) (suc d) u (letter_step (suc d) (code c) t q o e)
      (past_pairs d (suc i) t u h)
past_pairs d i _ v (Nested.quoted c t u _ q h k) =
    one_on 0 (suc d) i c t (code c) (suc d) (suc d) v (open_step (suc d) (code c) t q) (
      both_on (code c) (suc d) (suc i) t (suc d) u (suc d) v
        (past_quotes (code c) (suc d) (suc i) t u (ground (arith, q)) (ground (arith, q)) h)
        (λ j. past_pairs d j u v k))
past_pairs d i _ v (Nested.pair c e t u _ o s h k) =
    one_on 0 (suc d) i c t 0 (suc (suc d)) (suc d) v (down_step (suc d) (code c) t o) (
      both_on 0 (suc (suc d)) (suc i) t (suc (suc d)) (String.◌∷◌ e u) (suc d) v
        (past_pairs (suc d) (suc i) t (String.◌∷◌ e u) h)
        (λ j.
          one_on 0 (suc (suc d)) j e u 0 (suc d) (suc d) v (up_step d (code e) u s)
            (past_pairs d (suc j) u v k)))

-- In a text that begins with a parenthesis, then one in which parentheses match, quoted or not, and
-- a closing parenthesis, that is the parenthesis whose index is returned.
pub closing_paren-Nested :
    (c e : Char) (t rest : String)
    → code c ≡ b'('
    → code e ≡ b')'
    → Nested t (String.◌∷◌ e rest)
    → (i : ℕ) × (closing_paren (String.◌∷◌ c t) ≡ ok i)
      × (drop_chars i (String.◌∷◌ c t) ≡ String.◌∷◌ e rest)
unfolding closing_paren
closing_paren-Nested c e t rest o s h =
    let way =
      one_on 0 0 0 c t 0 1 1 (String.◌∷◌ e rest) (down_step 0 (code c) t o)
        (past_pairs 0 1 t (String.◌∷◌ e rest) h) in
    let last = found_at way.steps e rest s in
    let here : 0 + way.steps ≡ way.steps = omega arith in
    let arrives = way.arrives ∙ same_index 0 1 _ _ (String.◌∷◌ e rest) here ∙ last in
    (way.steps, rw (closing_paren, arrives) refl, way.text)
