-- ===== src/Cycle/Sends.antt =====
-- main.go: what `syncTable` and `cycle` send to the target.
use doris_sync.Base.{ℕ, String, ◌==◌, Bool, not, ◌&&◌, List, [], ◌∷◌, Option, none, some, map}
use doris_sync.Base.{inr, contains}
use doris_sync.Base.Act.{Err, Result, is_persistence, After-continue, After-caught}
use doris_sync.Config.{DatabasePair, Options}
use doris_sync.State.Keys.{state_key}
use doris_sync.World.{World, Env, Event, source, target}
use doris_sync.World.Keeps.{
  Kept, Now-IsStable, branch-Kept, choice-Kept, check-Kept, save_table-Kept,
}
use doris_sync.Database.{Column, is_async_view}
use doris_sync.Database.Range.{Partition}
use doris_sync.Database.Match.{find_partition}
use doris_sync.Database.Keeps.{
  IsStable, create_table-Keeps, columns-Keeps, partitions-Keeps, lift-Keeps,
}
use doris_sync.Columns.{validate_time_field, validate_target_columns}
use doris_sync.SyncState.{table_hash}
use doris_sync.Clock.{is_create_table, Deps, schema_hash}
use doris_sync.Partition.Announce.{Guarded}
use doris_sync.Partition.Delta.Imports.{sync_partition_by_mode-Guarded}
use doris_sync.Cycle.{TablePlan, table_failed, synced_next, run_tables, run_plans}
use doris_sync.Cycle.Table.{
  same_time, latest_part, read_table, prepare_target, adopt_columns, scan_between, refreshed,
  part_failed, sync_part, sync_parts, copy_table, sync_prepared, sync_ddl, sync_table,
}
use doris_sync.Cycle.Prepares.{IsTableDdl, create_missing-Kept}
use doris_sync.Cycle.Guard.{guard, may_prepare, scan-Guarded}

module _ (env : Env) (deps : Deps) (auto_range : String → Bool) (o : Options)
    (prepares : String → Type 0)
    (creates : (sql : String) → IsTableDdl deps sql → prepares sql) where
  abbrev G : List Event → Type 0
  G = Guarded o.s3 prepares

  abbrev Ok : {A : Type 0} → Result A × World → Type 0
  Ok r = Kept env G r

  stable : IsStable (λ w. G w.history)
  stable = Now-IsStable env G (guard env deps auto_range o prepares)

  lift_lem : {A : Type 0} (r : Result A) (w : World) → G w.history → Ok (r, w)
  lift_lem r w g = lift-Keeps env deps.is_int64 stable r w g

  read_lem :
      (pair : DatabasePair) (table : String) (w : World)
      → G w.history
      → Ok (read_table env deps auto_range o pair table w)
  unfolding read_table
  read_lem pair table w g =
      After-continue _ _ (columns-Keeps env deps.is_int64 stable source pair.source table w g)
        λ cols w₁ g₁.
          After-continue _ _
            (branch-Kept env G (w₁.memory.mode == "time-window") _ _ w₁
              (lift_lem (validate_time_field cols w₁.memory.time_field) w₁ g₁)
              (record { holds = g₁ }))
            λ _ w₂ g₂.
              After-continue _ _
                (partitions-Keeps env deps.is_int64 stable source pair.source table w₂ g₂)
                λ parts w₃ g₃.
                  let previous = table_hash (state_key pair.source pair.target table "") w₃ in
                  branch-Kept env G
                    (not (previous == "") && not (previous == schema_hash deps cols)) _ _ w₃
                    (record { holds = g₃ }) (record { holds = g₃ })

  prepare_lem :
      (pair : DatabasePair) (table : String) (names : List String) (ddl : String)
      (cols : List Column) (w : World)
      → G w.history
      → Ok (prepare_target env deps auto_range o pair table names ddl cols w)
  unfolding prepare_target
  prepare_lem pair table names ddl cols w g =
      branch-Kept env G (not (contains names table)) _ _ w
        (create_missing-Kept env deps auto_range o G (guard env deps auto_range o prepares) prepares
          (may_prepare env deps auto_range o prepares) pair table names ddl w (inr creates) g)
        (After-continue _ _ (columns-Keeps env deps.is_int64 stable target pair.target table w g)
          λ target_cols w₁ g₁.
            After-continue _ _ (lift_lem (validate_target_columns cols target_cols) w₁ g₁)
              λ _ w₂ g₂. record { holds = g₂ })

  adopt_lem :
      (pair : DatabasePair) (table : String) (cols : List Column) (w : World)
      → G w.history
      → Ok (adopt_columns env deps auto_range o pair table cols w)
  unfolding adopt_columns
  adopt_lem pair table cols w g = save_table-Kept env G _ _ g

  between_lem : (w : World) → G w.history → Ok (scan_between env deps auto_range o w)
  unfolding scan_between
  between_lem w g =
      After-caught _ _ _ (scan-Guarded env deps auto_range o prepares w g)
        (λ _ w₁ g₁. record { holds = g₁ })
        λ e w₁ g₁.
          branch-Kept env G (is_persistence e) _ _ w₁ (record { holds = g₁ })
            (record { holds = g₁ })

  latest_lem : (part : Option Partition) (w : World) → G w.history → Ok (latest_part part w)
  latest_lem none w g = record { holds = g }
  latest_lem (some part) w g = record { holds = g }

  refreshed_lem :
      (pair : DatabasePair) (table : String) (part : Partition) (previous : Option ℕ) (w : World)
      → G w.history
      → Ok (refreshed env deps auto_range o pair table part previous w)
  unfolding refreshed
  refreshed_lem pair table part previous w g =
      choice-Kept env G (same_time previous w.memory.next_version_check) _ _ (record { holds = g })
        (After-continue _ _ (partitions-Keeps env deps.is_int64 stable source pair.source table w g)
          λ latest w₁ g₁. latest_lem (find_partition latest part.name) w₁ g₁)

  failed_lem :
      (part : Partition) (e : Err) (failures : List Err) (w : World)
      → G w.history
      → Ok (part_failed env deps auto_range o part e failures w)
  unfolding part_failed
  failed_lem part e failures w g =
      branch-Kept env G (is_persistence e) _ _ w (record { holds = g })
        (branch-Kept env G o.force_overwrite _ _ w (record { holds = g }) (record { holds = g }))

  part_lem :
      (pair : DatabasePair) (table : String) (names : List String) (part : Partition)
      (failures : List Err) (w : World)
      → G w.history
      → Ok (sync_part env deps auto_range o pair table names part failures w)
  unfolding sync_part
  part_lem pair table names part failures w g =
      After-caught _ _ _
        (sync_partition_by_mode-Guarded env deps auto_range o.s3 o.force_overwrite prepares
          (record { pair = pair; table = table; part = part; columns = names }) w g)
        (λ _ w₁ g₁. record { holds = g₁ }) λ e w₁ g₁. failed_lem part e failures w₁ g₁

  parts_lem :
      (pair : DatabasePair) (table : String) (names : List String) (parts : List Partition)
      (failures : List Err) (w : World)
      → G w.history
      → Ok (sync_parts env deps auto_range o pair table names parts failures w)
  unfolding sync_parts
  parts_lem pair table names [] failures w g = record { holds = g }
  parts_lem pair table names (part ∷ parts) failures w g =
      After-continue _ _ (check-Kept env G w g) λ _ w₁ g₁.
        After-continue _ _ (between_lem w₁ g₁) λ _ w₂ g₂.
          After-continue _ _ (refreshed_lem pair table part w₁.memory.next_version_check w₂ g₂)
            λ current w₃ g₃.
              After-continue _ _ (part_lem pair table names current failures w₃ g₃)
                λ found w₄ g₄. parts_lem pair table names parts found w₄ g₄

  prepared_lem :
      (pair : DatabasePair) (table : String) (cols : List Column) (parts : List Partition)
      (names : List String) (w : World)
      → G w.history
      → Ok (sync_prepared env deps auto_range o pair table cols parts names w)
  unfolding sync_prepared copy_table
  prepared_lem pair table cols parts names w g =
      After-caught _ _ _
        (After-continue _ _ (adopt_lem pair table cols w g)
          λ _ w₁ g₁. parts_lem pair table (map (λ col. col.name) cols) parts [] w₁ g₁)
        (λ failures w₂ g₂. record { holds = g₂ }) λ e w₂ g₂. record { holds = g₂ }

  ddl_lem :
      (pair : DatabasePair) (table : String) (names : List String) (ddl : String) (w : World)
      → G w.history
      → Ok (sync_ddl env deps auto_range o pair table names ddl w)
  unfolding sync_ddl
  ddl_lem pair table names ddl w g =
      branch-Kept env G (not (is_create_table deps ddl)) _ _ w (record { holds = g })
        (After-caught _ _ _ (read_lem pair table w g)
          (λ read w₁ g₁.
            After-caught _ _ _ (prepare_lem pair table names ddl read.0 w₁ g₁)
              (λ names' w₂ g₂. prepared_lem pair table read.0 read.1 names' w₂ g₂)
              λ e w₂ g₂. record { holds = g₂ })
          λ e w₁ g₁. record { holds = g₁ })

  pub sync_table-Guarded :
      (pair : DatabasePair) (table : String) (names : List String) (w : World)
      → G w.history
      → Ok (sync_table env deps auto_range o pair table names w)
  unfolding sync_table
  sync_table-Guarded pair table names w g =
      After-caught _ _ _ (create_table-Keeps env deps.is_int64 stable source pair.source table w g)
        (λ ddl w₁ g₁. ddl_lem pair table names ddl w₁ g₁)
        λ e w₁ g₁.
          branch-Kept env G (is_async_view e) _ _ w₁ (record { holds = g₁ }) (record { holds = g₁ })

  failure_lem :
      (pair : DatabasePair) (table : String) (e : Err) (w : World)
      → G w.history
      → Ok (table_failed env deps auto_range o pair table e w)
  unfolding table_failed
  failure_lem pair table e w g =
      branch-Kept env G o.force_overwrite _ _ w (record { holds = g })
        (branch-Kept env G (is_persistence e) _ _ w (record { holds = g }) (check-Kept env G w g))

  next_lem :
      (pair : DatabasePair) (table : String) (count : ℕ) (failure : Option Err) (w : World)
      → G w.history
      → Ok (synced_next env deps auto_range o pair table count failure w)
  unfolding synced_next
  next_lem pair table count none w g = record { holds = g }
  next_lem pair table count (some e) w g =
      After-continue _ _ (failure_lem pair table e w g) λ _ w₁ g₁. record { holds = g₁ }

  tables_lem :
      (pair : DatabasePair) (tables names : List String) (count : ℕ) (w : World)
      → G w.history
      → Ok (run_tables env deps auto_range o pair tables names count w)
  unfolding run_tables
  tables_lem pair [] names count w g = record { holds = g }
  tables_lem pair (table ∷ tables) names count w g =
      After-continue _ _ (sync_table-Guarded pair table names w g) λ synced w₁ g₁.
        After-continue _ _ (next_lem pair table count synced.1 w₁ g₁)
          λ count' w₂ g₂. tables_lem pair tables synced.0 count' w₂ g₂

  pub run_plans-Guarded :
      (plans : List TablePlan) (count : ℕ) (w : World)
      → Guarded o.s3 prepares w.history
      → Ok (run_plans env deps auto_range o plans count w)
  unfolding run_plans
  run_plans-Guarded [] count w g = record { holds = g }
  run_plans-Guarded (plan ∷ plans) count w g =
      After-continue _ _ (tables_lem plan.mapping plan.ready plan.target_names count w g)
        λ count' w₁ g₁. run_plans-Guarded plans count' w₁ g₁
