-- ===== src/Cycle/Guard.antt =====
-- main.go: what `maybeScanCompleted` and `syncTable` send to the target.
use doris_sync.Base.{ℕ, String, ◌<>◌, ◌==◌, Bool, List, [], ◌∷◌, Option, none, some}
use doris_sync.Base.{◌≡◌, ◌⊎◌, inl, ltb}
use doris_sync.Base.Table.{string_key}
use doris_sync.Base.Act.{Err, Result, After-continue, After-caught, After-wrapping}
use doris_sync.Config.{DatabasePair, Options}
use doris_sync.Sql.{ident, sort_texts}
use doris_sync.World.{World, Env, Event, source, now, tick}
use doris_sync.World.Keeps.{IsOpen, Kept, Now-IsStable, branch-Kept, check-Kept}
use doris_sync.Database.Range.{Partition}
use doris_sync.Database.Keeps.{create_table-Keeps, columns-Keeps, partitions-Keeps, lift-Keeps}
use doris_sync.Columns.{validate_time_field}
use doris_sync.Clock.{Deps}
use doris_sync.Partition.Announce.{Guarded}
use doris_sync.Partition.Delta.Imports.{sync_partition_by_mode-Guarded}
use doris_sync.Cycle.Errors.{return_joined}
use doris_sync.Cycle.Scan.{
  imported_tables, candidates, scan_columns, scan_parts, scan_found, scan_table, scan_tables,
  scan_pairs, scan_all, scan_if_due, maybe_scan_completed,
}
use doris_sync.Cycle.Table.{}
use doris_sync.Cycle.Prepares.{MayExec, IsTableDdl}

-- The statements that prepare the target create the databases of the configuration, or tables.
abbrev pub IsDatabase : List DatabasePair → String → Type 0
IsDatabase [] sql = ⊥
IsDatabase (pair ∷ pairs) sql =
    (sql ≡ "CREATE DATABASE IF NOT EXISTS " <> ident pair.target) ⊎ IsDatabase pairs sql

abbrev pub IsPreparation : Deps → Options → String → Type 0
IsPreparation deps o sql = IsDatabase o.databases sql ⊎ IsTableDdl deps sql

module _ (env : Env) (deps : Deps) (auto_range : String → Bool) (o : Options)
    (prepares : String → Type 0) where
  abbrev G : List Event → Type 0
  G = Guarded o.s3 prepares

  abbrev Ok : {A : Type 0} → Result A × World → Type 0
  Ok r = Kept env G r

  pub guard : IsOpen G
  guard = record {
    at_query = λ side sql r h g. g;
    at_list = λ prefix h g. g;
    at_delete = λ key h g. g;
    at_save = λ key e h g. g;
  }

  pub may_prepare : MayExec G prepares
  may_prepare = record { may = λ sql r h s g. (inl s, g) }

  lift_lem : {A : Type 0} (r : Result A) (w : World) → G w.history → Ok (r, w)
  lift_lem r w g = lift-Keeps env deps.is_int64 (Now-IsStable env G guard) r w g

  joined_lem : (es : List Err) (w : World) → G w.history → Ok (return_joined es w)
  joined_lem [] w g = record { holds = g }
  joined_lem (e ∷ es) w g = record { holds = g }

  columns_lem :
      (pair : DatabasePair) (table : String) (w : World)
      → G w.history
      → Ok (scan_columns env deps auto_range o pair table w)
  unfolding scan_columns
  columns_lem pair table w g =
      After-continue _ _
        (create_table-Keeps env deps.is_int64 (Now-IsStable env G guard) source pair.source table w
          g)
        λ _ w₁ g₁.
          After-continue _ _
            (columns-Keeps env deps.is_int64 (Now-IsStable env G guard) source pair.source table w₁
              g₁)
            λ cols w₂ g₂.
              After-continue _ _
                (branch-Kept env G (w₂.memory.mode == "time-window") _ _ w₂
                  (After-wrapping _ _
                    (lift_lem (validate_time_field cols w₂.memory.time_field) w₂ g₂))
                  (record { holds = g₂ }))
                λ _ w₃ g₃. record { holds = g₃ }

  parts_lem :
      (pair : DatabasePair) (table : String) (names : List String) (parts : List Partition)
      (failures : List Err) (w : World)
      → G w.history
      → Ok (scan_parts env deps auto_range o pair table names parts failures w)
  unfolding scan_parts
  parts_lem pair table names [] failures w g = record { holds = g }
  parts_lem pair table names (part ∷ parts) failures w g =
      After-caught _ _ _
        (sync_partition_by_mode-Guarded env deps auto_range o.s3 o.force_overwrite prepares
          (record { pair = pair; table = table; part = part; columns = names }) w g)
        (λ _ w₁ g₁. parts_lem pair table names parts failures w₁ g₁)
        λ e w₁ g₁. parts_lem pair table names parts _ w₁ g₁

  found_lem :
      (pair : DatabasePair) (table : String) (parts : List Partition) (failures : List Err)
      (w : World)
      → G w.history
      → Ok (scan_found env deps auto_range o pair table parts failures w)
  unfolding scan_found
  found_lem pair table [] failures w g = record { holds = g }
  found_lem pair table (part ∷ parts) failures w g =
      After-caught _ _ _ (columns_lem pair table w g)
        (λ names w₁ g₁. parts_lem pair table names (part ∷ parts) failures w₁ g₁)
        λ e w₁ g₁. record { holds = g₁ }

  tables_lem :
      (pair : DatabasePair) (names : List String) (failures : List Err) (w : World)
      → G w.history
      → Ok (scan_tables env deps auto_range o pair names failures w)
  unfolding scan_tables scan_table
  tables_lem pair [] failures w g = record { holds = g }
  tables_lem pair (table ∷ names) failures w g =
      After-continue _ _ (check-Kept env G w g) λ _ w₁ g₁.
        After-continue _ _
          (After-caught _ _ _
            (partitions-Keeps env deps.is_int64 (Now-IsStable env G guard) source pair.source table
              w₁ g₁)
            (λ parts w₂ g₂.
              found_lem pair table (candidates env deps auto_range o w₂.memory pair table parts)
                failures w₂ g₂)
            λ e w₂ g₂. record { holds = g₂ })
          λ found w₃ g₃. tables_lem pair names found w₃ g₃

  pairs_lem :
      (pairs : List DatabasePair) (failures : List Err) (w : World)
      → G w.history
      → Ok (scan_pairs env deps auto_range o pairs failures w)
  unfolding scan_pairs
  pairs_lem [] failures w g = record { holds = g }
  pairs_lem (pair ∷ pairs) failures w g =
      After-continue _ _
        (tables_lem pair
          (sort_texts (imported_tables env deps auto_range o pair w.memory.partitions)) failures w
          g)
        λ found w₁ g₁. pairs_lem pairs found w₁ g₁

  due_lem :
      (due : Option ℕ) (w : World) → G w.history → Ok (scan_if_due env deps auto_range o due w)
  unfolding scan_if_due scan_all now
  due_lem none w g = record { holds = g }
  due_lem (some due) w g =
      branch-Kept env G (ltb (env.now w.calls) due) _ _ (tick w) (record { holds = g })
        (After-continue _ _ (pairs_lem o.databases [] _ g)
          λ failures w₁ g₁. joined_lem failures w₁ g₁)

  pub scan-Guarded :
      (w : World)
      → Guarded o.s3 prepares w.history
      → Ok (maybe_scan_completed env deps auto_range o w)
  unfolding maybe_scan_completed
  scan-Guarded w g = due_lem w.memory.next_version_check w g
