-- ===== src/Start.antt =====
-- config.go, main.go: what is checked before a run. The files that are read, the environment and the
-- regular expressions are parameters.
pub mod Load
pub mod Flags
pub mod Session
pub mod Refused
pub mod Usable
pub mod Separate
use doris_sync.Base.{String, Bool, Option}
use doris_sync.OverwritePlan.{OverwritePlan}
use doris_sync.Base.{true, false, ◌≡◌, refl, if◌then◌else◌}
use doris_sync.Base.Act.{errorf, Result, ok, err, killed}

-- if bad { return fmt.Errorf(complaint) }
unfoldable pub refuse {ℓ} : {A : Type ℓ} → Bool → String → Result A → Result A
refuse bad complaint rest = if bad then err (errorf complaint) else rest

-- value, err := r; if err != nil { return err }
unfoldable pub and_then {ℓ} : {A B : Type ℓ} → Result A → (A → Result B) → Result B
and_then (ok a) f = f a
and_then (err e) f = err e
and_then killed f = killed

-- The environment, whether a pattern compiles, and filepath.Abs.
pub record Host : Type 0 where
  pub lookup_env : String → Option String
  pub compiles : String → Bool
  pub quote_meta : String → String
  pub absolute : String → Result String
  pub decode_plan : String → Result OverwritePlan

-- What holds of a result without an error.
abbrev Holds : {A : Type 0} → (A → Type 0) → Result A → Type 0
Holds P (ok a) = P a
Holds P (err e) = Unit
Holds P killed = Unit

pub record OnOk {A : Type 0} (P : A → Type 0) (r : Result A) : Type 0 where
  pub holds : Holds P r

pub OnOk-refuse :
    {A : Type 0} {P : A → Type 0} (bad : Bool) (complaint : String) (rest : Result A)
    → (bad ≡ false → OnOk P rest)
    → OnOk P (refuse bad complaint rest)
unfolding refuse
OnOk-refuse true complaint rest h = record { holds = tt }
OnOk-refuse false complaint rest h = h refl

pub OnOk-if :
    {A : Type 0} {P : A → Type 0} (b : Bool) (x y : Result A)
    → (b ≡ true → OnOk P x)
    → (b ≡ false → OnOk P y)
    → OnOk P (if b then x else y)
OnOk-if true x y h k = h refl
OnOk-if false x y h k = k refl

pub OnOk-and_then :
    {A B : Type 0} {P : B → Type 0} (r : Result A) (f : A → Result B)
    → ((a : A) → r ≡ ok a → OnOk P (f a))
    → OnOk P (and_then r f)
unfolding and_then
OnOk-and_then (ok a) f h = h a refl
OnOk-and_then (err e) f h = record { holds = tt }
OnOk-and_then killed f h = record { holds = tt }

-- With what is known of the first result.
pub OnOk-chain :
    {A B : Type 0} {P : A → Type 0} {Q : B → Type 0} (r : Result A) (f : A → Result B)
    → OnOk P r
    → ((a : A) → r ≡ ok a → P a → OnOk Q (f a))
    → OnOk Q (and_then r f)
unfolding and_then
OnOk-chain (ok a) f p h = h a refl p.holds
OnOk-chain (err e) f p h = record { holds = tt }
OnOk-chain killed f p h = record { holds = tt }

pub OnOk-elim : {A : Type 0} {P : A → Type 0} (r : Result A) (a : A) → OnOk P r → r ≡ ok a → P a
OnOk-elim (ok x) a p h = let e : x ≡ a = cc in rw⁻¹ e p.holds
OnOk-elim (err e) a p h = absurd (cc h)
OnOk-elim killed a p h = absurd (cc h)
