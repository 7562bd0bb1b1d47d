-- ===== src/OverwritePlan/Preflight.antt =====
-- overwrite_plan.go: the checks of a whole plan come before its first overwrite.
use doris_sync.Base.{String, ◌==◌, Bool, true, false, not, ◌&&◌, List, [], ◌∷◌, map, none, some}
use doris_sync.Base.{◌≡◌, refl, inl, contains, Option}
use doris_sync.Base.Act.{Err, Result, After, After-continue, After-wrapping}
use doris_sync.Config.{Options}
use doris_sync.World.{
  World, Env, Event, queried, executed, listed, deleted, saved_hourly, saved_partition, source,
  target,
}
use doris_sync.World.Keeps.{IsOpen, Now, Kept, Now-IsStable, branch-Kept, choice-Kept, check-Kept}
use doris_sync.Database.{Column}
use doris_sync.Database.Keeps.{tables-Keeps, columns-Keeps}
use doris_sync.SyncState.{table_hash}
use doris_sync.Clock.{Deps, schema_hash}
use doris_sync.Cycle.Prepares.{MayExec, ensure_target_table-Kept}
use doris_sync.OverwritePlan.{
  OverwriteTable, Prepared, item_key, pair_of, only_name, for_item, require_name, require_ready,
  require_seen, require_schema, prepare, prepare_all,
}

-- The statements that were sent to the target.
abbrev pub sent : List Event → List String
sent [] = []
sent (executed target sql r ∷ h) = sql ∷ sent h
sent (executed source sql r ∷ h) = sent h
sent (queried side sql r ∷ h) = sent h
sent (listed prefix ∷ h) = sent h
sent (deleted key ∷ h) = sent h
sent (saved_partition key e ∷ h) = sent h
sent (saved_hourly key e ∷ h) = sent h

module _ (env : Env) (deps : Deps) (auto_range : String → Bool) (o : Options)
    (old : List String) where
  -- Only those.
  abbrev G : List Event → Type 0
  G h = sent h ≡ old

  silent : IsOpen G
  silent = record {
    at_query = λ side sql r h g. g;
    at_list = λ prefix h g. g;
    at_delete = λ key h g. g;
    at_save = λ key e h g. g;
  }

  nothing : MayExec G (λ _. ⊥)
  nothing = record { may = λ sql r h bad g. absurd bad }

  abbrev Ok : {A : Type 0} → Result A × World → Type 0
  Ok r = Kept env G r

  name_lem :
      (item : OverwriteTable) (names : List String) (w : World)
      → G w.history
      → Ok (require_name env deps auto_range o item names w)
  unfolding require_name
  name_lem item names w g =
      branch-Kept env G (contains names item.table) _ _ w (record { holds = g })
        (record { holds = g })

  ready_lem :
      (item : OverwriteTable) (names : List String) (ready : Bool) (failure : Option Err)
      (w : World)
      → G w.history
      → Ok (
          require_ready env deps auto_range o item
            (record { names = names; ready = ready; failure = failure })
            w)
  unfolding require_ready
  ready_lem item names true none w g = record { holds = g }
  ready_lem item names false none w g = record { holds = g }
  ready_lem item names ready (some e) w g = record { holds = g }

  seen_lem :
      (item : OverwriteTable) (names : List String) (w : World)
      → G w.history
      → Ok (require_seen env deps auto_range o item names w)
  unfolding require_seen
  seen_lem item [] w g = record { holds = g }
  seen_lem item (name ∷ names) w g =
      choice-Kept env G (contains w.memory.seen_partitions name) _ _ (seen_lem item names w g)
        (record { holds = g })

  schema_lem :
      (item : OverwriteTable) (cols : List Column) (w : World)
      → G w.history
      → Ok (require_schema env deps auto_range o item cols w)
  unfolding require_schema
  schema_lem item cols w g =
      let previous = table_hash (item_key item) w in
      choice-Kept env G (not (previous == "") && not (previous == schema_hash deps cols)) _ _
        (record { holds = g }) (record { holds = g })

  -- The item that was prepared.
  abbrev Of : OverwriteTable → Prepared → World → Type 0
  Of item job w = (job.item ≡ item) × G w.history

  prepare_lem :
      (item : OverwriteTable) (w : World)
      → o.force_overwrite ≡ true
      → G w.history
      → After (Now env G) (Of item) (prepare env deps auto_range o item w)
  unfolding prepare
  prepare_lem item w forced g = After-continue _ _ (check-Kept env G w g) λ _ w₁ g₁.
      After-continue _ _
        (After-wrapping _ _ (
          tables-Keeps env deps.is_int64 (Now-IsStable env G silent) source item.source_database w₁
            g₁))
        λ source_names w₂ g₂. After-continue _ _ (name_lem item source_names w₂ g₂) λ _ w₃ g₃.
          After-continue _ _
            (After-wrapping _ _ (
              tables-Keeps env deps.is_int64 (Now-IsStable env G silent) target item.target_database
                w₃ g₃))
            λ names w₄ g₄.
              After-continue _ _
                (ensure_target_table-Kept env deps auto_range (for_item o item) G silent (λ _. ⊥)
                  nothing (pair_of item) item.table (only_name item names) _ (inl forced) g₄)
                λ e w₅ g₅.
                  After-continue _ _ (ready_lem item e.names e.ready e.failure w₅ g₅) λ _ w₆ g₆.
                    After-continue _ _ (seen_lem item item.partitions w₆ g₆) λ _ w₇ g₇.
                      After-continue _ _
                        (columns-Keeps env deps.is_int64 (Now-IsStable env G silent) source
                          item.source_database item.table w₇ g₇)
                        λ cols w₈ g₈.
                          After-continue _ _ (schema_lem item cols w₈ g₈)
                            λ _ w₉ g₉. record { holds = (refl, g₉) }

  prepare_all_lem :
      (items : List OverwriteTable) (w : World)
      → o.force_overwrite ≡ true
      → G w.history
      → After
          (Now env G)
          (λ jobs w'. (map (λ job. job.item) jobs ≡ items) × G w'.history)
          (prepare_all env deps auto_range o items w)
  unfolding prepare_all
  prepare_all_lem [] w forced g = record { holds = (refl, g) }
  prepare_all_lem (item ∷ items) w forced g =
      After-continue _ _ (prepare_lem item w forced g) λ job w₁ q.
        After-continue _ _ (prepare_all_lem items w₁ forced q.1)
          λ jobs w₂ r. record { holds = (rw (q.0, r.0) refl, r.1) }

-- With --force-overwrite, the checks of all items of a plan, which run before the first overwrite,
-- send no statement to the target, however they end; when they pass, each item of the plan was
-- prepared, in its order.
pub prepare_all-Silent :
    (env : Env) (deps : Deps) (auto_range : String → Bool) (o : Options)
    (items : List OverwriteTable) (w : World)
    → o.force_overwrite ≡ true
    → After
        (λ w'. sent w'.history ≡ sent w.history)
        (λ jobs w'. (map (λ job. job.item) jobs ≡ items) × (sent w'.history ≡ sent w.history))
        (prepare_all env deps auto_range o items w)
prepare_all-Silent env deps auto_range o items w forced =
    prepare_all_lem env deps auto_range o (sent w.history) items w forced refl
