-- ===== src/Base/Act.antt =====
-- Go code with effects: an action changes a state and returns a value or an `error`. The process
-- may also be killed at any call that leaves it; what was done before stays done.
use Prim.Native.String.{String, ◌++◌}
use mathlib.Core.Path.{◌≡◌, refl}
use mathlib.Core.Bool.{Bool, true, false}

-- `errStatePersistence` in the chain of an error, `context.DeadlineExceeded`, or neither.
pub data Kind : Type 0 where
  plain persistence deadline : Kind

pub record Err : Type 0 where
  pub kind : Kind
  pub message : String

abbrev pub errorf : String → Err
errorf message = record { kind = plain; message = message }

-- fmt.Errorf("…: %w", err)
abbrev pub wrap : String → Err → Err
wrap context e = record e { message = context ++ e.message }

-- errors.Is(err, errStatePersistence)
abbrev pub is_persistence : Err → Bool
is_persistence e = elim e.kind [ persistence ↦ true | _ ↦ false ]

pub data Result {ℓ} (A : Type ℓ) : Type ℓ where
  ok : A → Result A
  err : Err → Result A
  killed : Result A

abbrev pub Act {ℓ} : Type ℓ → Type ℓ → Type ℓ
Act S A = S → Result A × S

module _ {ℓ} {S A : Type ℓ} where
  abbrev pub pure : A → Act S A
  pure a s = (ok a, s)

  abbrev pub fail : Err → Act S A
  fail e s = (err e, s)

  abbrev pub gets : (S → A) → Act S A
  gets f s = (ok (f s), s)

  abbrev with_context : String → Result A × S → Result A × S
  with_context m (ok a, s) = (ok a, s)
  with_context m (err e, s) = (err (wrap m e), s)
  with_context m (killed, s) = (killed, s)

  -- if err != nil { return fmt.Errorf("…: %w", err) }
  abbrev pub wrapping : String → Act S A → Act S A
  wrapping m act s = with_context m (act s)

module _ {ℓ} {S A B : Type ℓ} where
  abbrev pub continue : Result A × S → (A → Act S B) → Result B × S
  continue (ok a, s) f = f a s
  continue (err e, s) f = (err e, s)
  continue (killed, s) f = (killed, s)

  infixl 5 ◌>>=◌ ◌>>◌
  abbrev pub ◌>>=◌ : Act S A → (A → Act S B) → Act S B
  ◌>>=◌ m f s = continue (m s) f

  abbrev pub ◌>>◌ : Act S A → Act S B → Act S B
  m >> n = m >>= λ _. n

  abbrev pub caught : Result A × S → (A → Act S B) → (Err → Act S B) → Result B × S
  caught (ok a, s) f h = f a s
  caught (err e, s) f h = h e s
  caught (killed, s) f h = (killed, s)

  -- A call whose error the code looks at.
  abbrev pub attempt : Act S A → (A → Act S B) → (Err → Act S B) → Act S B
  attempt m f h s = caught (m s) f h

-- What holds after a run: `Q` of the value and the state on success, `I` of the state otherwise.
module _ {S : Type 0} where
  abbrev Holds : {A : Type 0} → (S → Type 0) → (A → S → Type 0) → Result A × S → Type 0
  Holds I Q (ok a, s) = Q a s
  Holds I Q (err e, s) = I s
  Holds I Q (killed, s) = I s

  pub record After {A : Type 0} (I : S → Type 0) (Q : A → S → Type 0) (r : Result A × S)
      : Type 0 where
    pub holds : Holds I Q r

  -- The rule for sequencing.
  pub After-continue :
      {A B : Type 0} {I : S → Type 0} {Q : A → S → Type 0} {R : B → S → Type 0} (r : Result A × S)
      (f : A → Act S B)
      → After I Q r
      → ((a : A) (s : S) → Q a s → After I R (f a s))
      → After I R (continue r f)
  After-continue (ok a, s) f h k = k a s h.holds
  After-continue (err e, s) f h k = record { holds = h.holds }
  After-continue (killed, s) f h k = record { holds = h.holds }

  pub After-wrapping :
      {A : Type 0} {I : S → Type 0} {Q : A → S → Type 0} (m : String) (r : Result A × S)
      → After I Q r
      → After I Q (with_context m r)
  After-wrapping m (ok a, s) h = record { holds = h.holds }
  After-wrapping m (err e, s) h = record { holds = h.holds }
  After-wrapping m (killed, s) h = record { holds = h.holds }

  -- Weaker conclusions.
  pub After-mono :
      {A : Type 0} {I J : S → Type 0} {Q R : A → S → Type 0} (r : Result A × S)
      → After I Q r
      → ((s : S) → I s → J s)
      → ((a : A) (s : S) → Q a s → R a s)
      → After J R r
  After-mono (ok a, s) h i q = record { holds = q a s h.holds }
  After-mono (err e, s) h i q = record { holds = i s h.holds }
  After-mono (killed, s) h i q = record { holds = i s h.holds }

  -- A call whose new state does not depend on its answer.
  pub After-answer :
      {A : Type 0} {I : S → Type 0} {Q : A → S → Type 0} (r : Result A) (s : S)
      → I s
      → ((a : A) → r ≡ ok a → Q a s)
      → After I Q (r, s)
  After-answer (ok a) s i q = record { holds = q a refl }
  After-answer (err e) s i q = record { holds = i }
  After-answer killed s i q = record { holds = i }

  -- The rule for a call whose error is looked at.
  pub After-caught :
      {A B : Type 0} {I : S → Type 0} {Q : A → S → Type 0} {R : B → S → Type 0} (r : Result A × S)
      (f : A → Act S B) (g : Err → Act S B)
      → After I Q r
      → ((a : A) (s : S) → Q a s → After I R (f a s))
      → ((e : Err) (s : S) → I s → After I R (g e s))
      → After I R (caught r f g)
  After-caught (ok a, s) f g h k l = k a s h.holds
  After-caught (err e, s) f g h k l = l e s h.holds
  After-caught (killed, s) f g h k l = record { holds = h.holds }

  -- What holds in either case.
  pub After-always :
      {A : Type 0} {I : S → Type 0} (r : Result A × S) → After I (λ _ s. I s) r → I r.1
  After-always (ok a, s) h = h.holds
  After-always (err e, s) h = h.holds
  After-always (killed, s) h = h.holds
