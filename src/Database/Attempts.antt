-- ===== src/Database/Attempts.antt =====
-- database.go: how often `queryMetadata` asks.
use doris_sync.Base.{ℕ, zero, suc, ◌+◌, ◌≤◌, String, Bool, not, ◌||◌, length}
use doris_sync.Base.{arith, is_some, Bool-cases, inl, inr}
use doris_sync.Base.Act.{
  Err, errorf, Result, ok, err, killed, After, Act, caught, After-continue, After-answer,
  After-mono,
}
use doris_sync.World.{World, Env, Side, query, query_raw, queried, log, tick, context_done}
use doris_sync.Database.{query_attempts, query_metadata, is_deadline}

-- The history is longer by at most so many calls.
abbrev pub GrownBy : ℕ → World → World → Type 0
GrownBy n w w' = length w'.history ≤ n + length w.history

-- The rule for a call whose error is looked at, where an error of the call says more.
caught_lem :
    {A B : Type 0} {I J : World → Type 0} {Q : A → World → Type 0} {R : B → World → Type 0}
    (r : Result A × World) (f : A → Act World B) (g : Err → Act World B)
    → After J Q r
    → ((w : World) → J w → I w)
    → ((a : A) (w : World) → Q a w → After I R (f a w))
    → ((e : Err) (w : World) → J w → After I R (g e w))
    → After I R (caught r f g)
caught_lem (ok a, w) f g h weaken k l = k a w h.holds
caught_lem (err e, w) f g h weaken k l = l e w h.holds
caught_lem (killed, w) f g h weaken k l = record { holds = weaken w h.holds }

module _ (env : Env) (is_int64 : String → Bool) (side : Side) (sql : String) where
  query_lem : (w : World) → After (GrownBy 1 w) (λ _ w'. GrownBy 1 w w') (query env side sql w)
  unfolding query query_raw
  query_lem w =
      let r = env.query w.calls in
      After-continue _ _
        (After-answer {I = GrownBy 1 w} {Q = λ _ w'. GrownBy 1 w w'} r (log (queried side sql r) w)
          (omega arith) (λ _ _. omega arith))
        λ _ _ k. record { holds = k }

  attempts_lem :
      (n : ℕ) (last : Err) (w : World)
      → After (GrownBy n w) (λ _ w'. GrownBy n w w') (query_attempts env is_int64 side sql n last w)
  unfolding query_attempts context_done
  attempts_lem zero last w = record { holds = omega arith }
  attempts_lem (suc n) last w =
      caught_lem (query env side sql w) _ _ (query_lem w) (λ _ k. omega arith)
        (λ _ w₁ k. record { holds = omega arith })
        λ e w₁ k. elim (Bool-cases (is_some (env.cancelled w₁.calls) || not (is_deadline e))) [
          | inl over ↦ rw over (record { holds = omega arith })
          | inr again ↦ rw again (
              After-mono _ (attempts_lem n e (tick w₁)) (λ _ g. omega arith) (λ _ _ g. omega arith))
        ]

  -- A metadata query reaches the database at most three times, whatever it answers.
  pub query_metadata-GrownBy :
      (w : World)
      → After (GrownBy 3 w) (λ _ w'. GrownBy 3 w w') (query_metadata env is_int64 side sql w)
  unfolding query_metadata
  query_metadata-GrownBy w = attempts_lem 3 (errorf "") w
