-- ===== src/Cycle/Table.antt =====
-- main.go: `syncTable`. The names of the target's tables come back with its error.
use doris_sync.Base.{
  ℕ, String, ◌<>◌, ◌==◌, Bool, true, false, not, ◌&&◌, List, [], ◌∷◌, ◌++◌, Option, none, some, map,
}
use doris_sync.Base.{contains, eqb, if◌then◌else◌}
use doris_sync.Base.Table.{upsert, string_key}
use doris_sync.Base.Act.{
  Err, errorf, wrap, is_persistence, Act, pure, fail, gets, attempt, ◌>>=◌, ◌>>◌,
}
use doris_sync.Config.{DatabasePair, Options, allows_partition}
use doris_sync.State.Keys.{state_key}
use doris_sync.World.{World, Env, source, target, check_context}
use doris_sync.Database.{Column, columns, create_table_sql, partitions, is_async_view}
use doris_sync.Database.Range.{Partition}
use doris_sync.Database.Match.{find_partition}
use doris_sync.Columns.{validate_time_field, validate_target_columns}
use doris_sync.SyncState.{modify, table_hash, save_table}
use doris_sync.Clock.{is_create_table, Deps, schema_hash}
use doris_sync.Hourly.{lift}
use doris_sync.Targets.{Synced, create_missing}
use doris_sync.Partition.Delta.{sync_partition_by_mode}
use doris_sync.Cycle.Errors.{join_errors}
use doris_sync.Cycle.Scan.{maybe_scan_completed}

abbrev pub same_time : Option ℕ → Option ℕ → Bool
same_time none none = true
same_time (some a) (some b) = eqb a b
same_time _ _ = false

abbrev pub latest_part : Option Partition → Act World Partition
latest_part none = fail (errorf "source partition disappeared during version check")
latest_part (some part) = pure part

module _ (env : Env) (deps : Deps) (auto_range : String → Bool) (o : Options) where
  unfoldable pub selected : List Partition → List Partition
  selected [] = []
  selected (part ∷ parts) =
      let rest = selected parts in
      if allows_partition deps.matches o part.name then part ∷ rest else rest

  -- The columns and the selected partitions, after the checks on them.
  unfoldable pub read_table : DatabasePair → String → Act World (List Column × List Partition)
  read_table pair table = do
    cols ← columns env deps.is_int64 source pair.source table
    λ w.
        (if w.memory.mode == "time-window"
            then lift (validate_time_field cols w.memory.time_field)
            else pure tt)
          w
    parts ← partitions env deps.is_int64 source pair.source table
    previous ← gets (table_hash (state_key pair.source pair.target table ""))
    if not (previous == "") && not (previous == schema_hash deps cols)
        then fail (errorf "source schema changed; migrate target table before continuing")
        else pure (cols, selected parts)

  -- The target table is created, or its columns are compared; the names afterwards.
  unfoldable pub prepare_target :
      DatabasePair → String → List String → String → List Column → Act World (List String)
  prepare_target pair table names ddl cols =
      if not (contains names table) then create_missing env deps pair table names ddl else do
        target_cols ← columns env deps.is_int64 target pair.target table
        lift (validate_target_columns cols target_cols)
        pure names

  unfoldable pub adopt_columns : DatabasePair → String → List Column → Act World (Unit {0})
  adopt_columns pair table cols = do
    modify λ m. record m {
      tables = upsert (state_key pair.source pair.target table "") (schema_hash deps cols) m.tables;
    }
    save_table env (state_key pair.source pair.target table "")

  -- The check for changes; only an error of the state file stops the table.
  unfoldable pub scan_between : Act World (Unit {0})
  scan_between =
      attempt (maybe_scan_completed env deps auto_range o) (λ _. pure tt)
        (λ e. if is_persistence e then fail e else pure tt)

  -- After a check that ran, the partition is read again.
  unfoldable pub refreshed : DatabasePair → String → Partition → Option ℕ → Act World Partition
  refreshed pair table part previous w =
      if same_time previous w.memory.next_version_check
      then pure part w
      else ((do
        latest ← partitions env deps.is_int64 source pair.source table
        latest_part (find_partition latest part.name))
          w)

  abbrev pub of_part : Partition → Err → Err
  of_part part = wrap ("partition " <> (part.name <> ": "))

  -- What an error of a partition does: it stops the table, or it is kept for the end.
  unfoldable pub part_failed : Partition → Err → List Err → Act World (List Err)
  part_failed part e failures =
      if is_persistence e
      then fail e
      else if o.force_overwrite
      then fail (of_part part e)
      else pure (failures ++ (of_part part e ∷ []))

  unfoldable pub sync_part :
      DatabasePair → String → List String → Partition → List Err → Act World (List Err)
  sync_part pair table names part failures =
      attempt
        (sync_partition_by_mode env deps auto_range o.s3 o.force_overwrite
          (record { pair = pair; table = table; part = part; columns = names }))
        (λ _. pure failures) (λ e. part_failed part e failures)

  unfoldable pub sync_parts :
      DatabasePair → String → List String → List Partition → List Err → Act World (List Err)
  sync_parts pair table names [] failures = pure failures
  sync_parts pair table names (part ∷ parts) failures =
      let more = sync_parts pair table names parts in
      do
        check_context env
        previous ← gets (λ w. w.memory.next_version_check)
        scan_between
        current ← refreshed pair table part previous
        found ← sync_part pair table names current failures
        more found

  -- Behind the preparation of the target.
  unfoldable pub copy_table :
      DatabasePair → String → List Column → List Partition → Act World (List Err)
  copy_table pair table cols parts = do
    adopt_columns pair table cols
    sync_parts pair table (map (λ col. col.name) cols) parts []

  unfoldable pub sync_prepared :
      DatabasePair → String → List Column → List Partition → List String → Act World Synced
  sync_prepared pair table cols parts names =
      attempt (copy_table pair table cols parts) (λ failures. pure (names, join_errors failures))
        (λ e. pure (names, some e))

  unfoldable pub sync_ddl : DatabasePair → String → List String → String → Act World Synced
  sync_ddl pair table names ddl =
      if not (is_create_table deps ddl)
      then pure (names, none)
      else attempt (read_table pair table)
          (λ read.
            attempt (prepare_target pair table names ddl read.0)
              (sync_prepared pair table read.0 read.1) (λ e. pure (names, some e)))
          (λ e. pure (names, some e))

  unfoldable pub sync_table : DatabasePair → String → List String → Act World Synced
  sync_table pair table names =
      attempt (create_table_sql env deps.is_int64 source pair.source table)
        (sync_ddl pair table names)
        (λ e. if is_async_view e then pure (names, none) else pure (names, some e))
