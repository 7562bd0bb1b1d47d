-- ===== src/Cycle/Imports.antt =====
-- main.go, overwrite_plan.go: what whole cycles send to the target, over any number of processes.
use doris_sync.Base.{String, Bool, List, []}
use doris_sync.Base.{◌≡◌, inl, inr, eqb, is_nil}
use doris_sync.Base.Act.{Result, After-continue, After-always}
use doris_sync.Config.{Options}
use doris_sync.State.{Memory}
use doris_sync.World.{World, Env, Event}
use doris_sync.World.Keeps.{Kept, branch-Kept, choice-Kept}
use doris_sync.Clock.{Deps}
use doris_sync.Partition.Announce.{Guarded}
use doris_sync.Cycle.{check_missing, missing_names, cycle}
use doris_sync.Cycle.Guard.{IsPreparation, guard, may_prepare}
use doris_sync.Cycle.Sends.{run_plans-Guarded}
use doris_sync.Cycle.Plans.{plan_pairs-Kept}

module _ (env : Env) (deps : Deps) (auto_range : String → Bool) (o : Options) where
  abbrev G : List Event → Type 0
  G = Guarded o.s3 (IsPreparation deps o)

  abbrev Ok : {A : Type 0} → Result A × World → Type 0
  Ok r = Kept env G r

  missing_lem : (w : World) → G w.history → Ok (check_missing env deps auto_range o w)
  unfolding check_missing
  missing_lem w g =
      choice-Kept env G (is_nil (missing_names w.memory.seen_partitions o.partitions)) _ _
        (record { holds = g }) (record { holds = g })

  cycle_lem : (w : World) → G w.history → Ok (cycle env deps auto_range o w)
  unfolding cycle
  cycle_lem w g =
      After-continue _ _
        (plan_pairs-Kept env deps auto_range o G
          (guard env deps auto_range o (IsPreparation deps o)) (IsPreparation deps o)
          (may_prepare env deps auto_range o (IsPreparation deps o)) (inr (λ sql d. inr d))
          o.databases [] 0 _ (λ sql d. inl d) g)
        λ planned w₁ g₁. After-continue _ _ (missing_lem w₁ g₁) λ _ w₂ g₂.
          After-continue _ _
            (run_plans-Guarded env deps auto_range o (IsPreparation deps o) (λ sql d. inr d)
              planned.0 planned.1 w₂ g₂)
            λ count w₃ g₃.
              branch-Kept env G (eqb count 0) _ _ w₃ (record { holds = g₃ }) (record { holds = g₃ })

-- Processes, one after the other: each runs some cycles, with whatever answers from outside, and may
-- be killed at any call. A new process starts with some other memory.
pub data Cycles (deps : Deps) (auto_range : String → Bool) (o : Options) (w₀ : World)
    : World → Type 0 where
  begun : Cycles deps auto_range o w₀ w₀
  cycled :
      (env : Env) {w : World}
      → Cycles deps auto_range o w₀ w
      → Cycles deps auto_range o w₀ (cycle env deps auto_range o w).1
  reopened :
      (memory : Memory) {w : World}
      → Cycles deps auto_range o w₀ w
      → Cycles deps auto_range o w₀ (record w { memory = memory })

-- From a history without a call, whatever cycles any number of processes have run, in the overwrite or
-- the time-window mode, forced or not, and however they failed or were killed: each statement to the
-- target creates a database of the configuration or a table, or was announced: it loads what the
-- partition record saved right before it says, which is its complete backup with the import marked in
-- progress, or its pending delta with its backup, marked started.
pub Cycles-Guarded :
    (deps : Deps) (auto_range : String → Bool) (o : Options) (w₀ : World)
    → w₀.history ≡ []
    → (w : World) → Cycles deps auto_range o w₀ w
    → Guarded o.s3 (IsPreparation deps o) w.history
Cycles-Guarded deps auto_range o w₀ new w begun = rw new tt
Cycles-Guarded deps auto_range o w₀ new w (cycled env {w = v} runs) =
    After-always _
      (cycle_lem env deps auto_range o v (Cycles-Guarded deps auto_range o w₀ new v runs))
Cycles-Guarded deps auto_range o w₀ new w (reopened memory {w = v} runs) =
    Cycles-Guarded deps auto_range o w₀ new v runs
