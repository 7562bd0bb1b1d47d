-- ===== src/Cycle/Plans.antt =====
-- main.go: what `cycle` sends before it copies the first table.
use doris_sync.Base.{ℕ, String, ◌<>◌, Bool, true, List, [], ◌∷◌, ◌++◌, Option, none, some}
use doris_sync.Base.{◌≡◌, refl, ap, ◌⊎◌, inl, inr, All}
use doris_sync.Base.Act.{Err, Result, After, After-continue}
use doris_sync.Config.{DatabasePair, Options, allows_table}
use doris_sync.Sql.{ident}
use doris_sync.World.{World, Env, Event, source, target}
use doris_sync.World.Keeps.{IsOpen, Kept, Now-IsStable, branch-Kept, check-Kept, exec-Kept}
use doris_sync.Database.Keeps.{tables-Keeps}
use doris_sync.Clock.{Deps}
use doris_sync.OverwritePlan.Preflight.{sent}
use doris_sync.Cycle.{
  preflight_failed, ensured_next, ensure_tables, plan_pair, plan_pairs, TablePlan,
}
use doris_sync.Cycle.Prepares.{MayExec, IsTableDdl, ensure_target_table-Kept}
use doris_sync.Cycle.Guard.{IsDatabase}

module _ (env : Env) (deps : Deps) (auto_range : String → Bool) (o : Options)
    (G : List Event → Type 0) (kept : IsOpen G) (S : String → Type 0) (may : MayExec G S)
    (allowed : (o.force_overwrite ≡ true) ⊎ ((sql : String) → IsTableDdl deps sql → S sql)) where
  abbrev Ok : {A : Type 0} → Result A × World → Type 0
  Ok r = Kept env G r

  failed_lem :
      (pair : DatabasePair) (table : String) (e : Err) (w : World)
      → G w.history
      → Ok (preflight_failed env deps auto_range o pair table e w)
  unfolding preflight_failed
  failed_lem pair table e w g =
      branch-Kept env G o.force_overwrite _ _ w (record { holds = g }) (check-Kept env G w g)

  next_lem :
      (pair : DatabasePair) (table : String) (ready : List String) (count : ℕ) (names : List String)
      (is_ready : Bool) (failure : Option Err) (w : World)
      → G w.history
      → Ok (
          ensured_next env deps auto_range o pair table ready count
            (record { names = names; ready = is_ready; failure = failure })
            w)
  unfolding ensured_next
  next_lem pair table ready count names is_ready none w g = record { holds = g }
  next_lem pair table ready count names is_ready (some e) w g =
      After-continue _ _ (failed_lem pair table e w g) λ _ w₁ g₁. record { holds = g₁ }

  tables_lem :
      (pair : DatabasePair) (tables names ready : List String) (count : ℕ) (w : World)
      → G w.history
      → Ok (ensure_tables env deps auto_range o pair tables names ready count w)
  unfolding ensure_tables
  tables_lem pair [] names ready count w g = record { holds = g }
  tables_lem pair (table ∷ tables) names ready count w g =
      branch-Kept env G (allows_table deps.matches o table) _ _ w
        (After-continue _ _
          (ensure_target_table-Kept env deps auto_range o G kept S may pair table names w allowed g)
          λ e w₁ g₁.
            After-continue _ _ (next_lem pair table ready count e.names e.ready e.failure w₁ g₁)
              λ next w₂ g₂. tables_lem pair tables next.0.0 next.0.1 next.1 w₂ g₂)
        (tables_lem pair tables names ready count w g)

  pair_lem :
      (pair : DatabasePair) (count : ℕ) (w : World)
      → S ("CREATE DATABASE IF NOT EXISTS " <> ident pair.target)
      → G w.history
      → Ok (plan_pair env deps auto_range o pair count w)
  unfolding plan_pair
  pair_lem pair count w creates g = After-continue _ _ (check-Kept env G w g) λ _ w₁ g₁.
      After-continue _ _ (exec-Kept env G S may.may _ w₁ creates g₁) λ _ w₂ g₂.
        After-continue _ _
          (tables-Keeps env deps.is_int64 (Now-IsStable env G kept) source pair.source w₂ g₂)
          λ source_tables w₃ g₃.
            After-continue _ _
              (tables-Keeps env deps.is_int64 (Now-IsStable env G kept) target pair.target w₃ g₃)
              λ target_tables w₄ g₄.
                After-continue _ _ (tables_lem pair source_tables target_tables [] count w₄ g₄)
                  λ planned w₅ g₅. record { holds = g₅ }

  pub plan_pairs-Kept :
      (pairs : List DatabasePair) (plans : List TablePlan) (count : ℕ) (w : World)
      → ((sql : String) → IsDatabase pairs sql → S sql)
      → G w.history
      → Ok (plan_pairs env deps auto_range o pairs plans count w)
  unfolding plan_pairs
  plan_pairs-Kept [] plans count w creates g = record { holds = g }
  plan_pairs-Kept (pair ∷ pairs) plans count w creates g =
      After-continue _ _ (pair_lem pair count w (creates _ (inl refl)) g)
        λ planned w₁ g₁. plan_pairs-Kept pairs _ planned.1 w₁ (λ sql d. creates sql (inr d)) g₁

-- What was sent since, newest first.
abbrev pub SentSince : List String → (String → Type 0) → List Event → Type 0
SentSince old P h = (new : List String) × (All P new) × (sent h ≡ new ++ old)

module _ (env : Env) (deps : Deps) (auto_range : String → Bool) (o : Options)
    (old : List String) where
  since : IsOpen (SentSince old (IsDatabase o.databases))
  since = record {
    at_query = λ side sql r h g. g;
    at_list = λ prefix h g. g;
    at_delete = λ key h g. g;
    at_save = λ key e h g. g;
  }

  databases : MayExec (SentSince old (IsDatabase o.databases)) (IsDatabase o.databases)
  databases = record { may = λ sql r h s g. (sql ∷ g.0, (s, g.1), ap (λ more. sql ∷ more) g.2) }

  -- The plans of a forced cycle, behind the statements that were sent before.
  pub plan_pairs_lem :
      (w : World)
      → o.force_overwrite ≡ true
      → sent w.history ≡ old
      → Kept env
          (SentSince old (IsDatabase o.databases))
          (plan_pairs env deps auto_range o o.databases [] 0 w)
  plan_pairs_lem w forced g =
      plan_pairs-Kept env deps auto_range o (SentSince old (IsDatabase o.databases)) since
        (IsDatabase o.databases) databases (inl forced) o.databases [] 0 w (λ sql d. d) ([], tt, g)

-- With --force-overwrite, the checks of all tables, which run before the first overwrite, send nothing
-- to the target but CREATE DATABASE IF NOT EXISTS for targets of the configuration, however they end.
pub plan_pairs-SentSince :
    (env : Env) (deps : Deps) (auto_range : String → Bool) (o : Options) (w : World)
    → o.force_overwrite ≡ true
    → After
        (λ w'. SentSince (sent w.history) (IsDatabase o.databases) w'.history)
        (λ _ w'. SentSince (sent w.history) (IsDatabase o.databases) w'.history)
        (plan_pairs env deps auto_range o o.databases [] 0 w)
plan_pairs-SentSince env deps auto_range o w forced =
    plan_pairs_lem env deps auto_range o (sent w.history) w forced refl
