-- ===== src/Hourly/Answers.antt =====
-- hourly.go: the calls of a run in which every call is answered.
use Prim.Native.Char.{Char}
use text.Mathlib.TextLemmas.{nil-append, cons-append}
use doris_sync.Base.{ap, ℕ, String, ◌<>◌, ◌==◌, Bool, true, false, List, [], ◌∷◌}
use doris_sync.Base.{◌≡◌, refl, eq_iff, inl, inr, Bool-cases}
use doris_sync.Base.Act.{Result, ok, After}
use doris_sync.Sql.{sort_texts}
use doris_sync.Store.{list, backup_files, backup_generation_prefix}
use doris_sync.World.{
  World, Env, Object, query, query_raw, exec, objects, random_hex, write, source, target,
}
use doris_sync.Rows.{RawRow}
use doris_sync.Hourly.Window.{equal_strings}

-- Every call is answered without an error, the random source by one text, and the bucket lists the
-- same objects at each call.
pub record IsUp (env : Env) : Type 0 where
  pub answers : (n : ℕ) → (rows : List RawRow) × (env.query n ≡ ok rows)
  pub executes : (n : ℕ) → env.exec n ≡ ok tt
  pub writes : (n : ℕ) → env.write n ≡ ok tt
  pub id : String
  pub draws : (n : ℕ) → env.random n ≡ ok id
  pub stored : List Object
  pub lists : (n : ℕ) → env.objects n ≡ ok stored

abbrev pub NeverStops : World → Type 0
NeverStops _ = ⊥

abbrev pub Answered : {A : Type 0} → Result A × World → Type 0
Answered r = After NeverStops (λ _ _. Unit) r

pub equal_strings_refl : (xs : List String) → equal_strings xs xs ≡ true
unfolding equal_strings
equal_strings_refl [] = refl
equal_strings_refl (x ∷ xs) = rw ((eq_iff x x).1 refl) (equal_strings_refl xs)

is_cons : String → Bool
is_cons String.[] = false
is_cons (String.◌∷◌ c s) = true

cons_nonempty : (c : Char) (s : String) → (String.◌∷◌ c s == "") ≡ false
unfolding is_cons
cons_nonempty c s = elim (Bool-cases (String.◌∷◌ c s == "")) [
  | inl empty ↦ absurd (let e = ap is_cons ((eq_iff (String.◌∷◌ c s) "").0 empty) in cc e)
  | inr full ↦ full
]

pub append_nonempty : (a s : String) → (s == "") ≡ false → (a <> s == "") ≡ false
append_nonempty String.[] s h = rw nil-append h
append_nonempty (String.◌∷◌ c a) s h = rw cons-append (cons_nonempty c _)

pub nonempty_append : (a s : String) → (a == "") ≡ false → (a <> s == "") ≡ false
nonempty_append String.[] s h = absurd (let e = (eq_iff "" "").1 refl in cc (h, e))
nonempty_append (String.◌∷◌ c a) s h = rw cons-append (cons_nonempty c _)

module _ (env : Env) (up : IsUp env) where
  pub query_lem : (sql : String) (w : World) → Answered (query env source sql w)
  unfolding query query_raw
  query_lem sql w = rw (up.answers w.calls).1 (record { holds = tt })

  pub exec_lem : (sql : String) (w : World) → Answered (exec env target sql w)
  unfolding exec
  exec_lem sql w = rw (up.executes w.calls) (record { holds = tt })

  abbrev pub generation : String → String
  generation root = root <> ("full/" <> (up.id <> "/"))

  pub random_lem :
      (root : String) (w : World)
      → After NeverStops
          (λ prefix _. prefix ≡ generation root)
          (backup_generation_prefix env root w)
  unfolding backup_generation_prefix random_hex
  random_lem root w = rw (up.draws w.calls) (record { holds = refl })

  pub write_lem : (change : World → World) (w : World) → Answered (write env change w)
  unfolding write
  write_lem change w = rw (up.writes w.calls) (record { holds = tt })

  -- What a listing returns.
  abbrev pub files : String → List String
  files prefix = sort_texts (backup_files prefix up.stored)

  pub list_lem :
      (prefix : String) (w : World)
      → After NeverStops (λ found _. found ≡ files prefix) (list env prefix w)
  unfolding list objects
  list_lem prefix w = rw (up.lists w.calls) (record { holds = refl })
