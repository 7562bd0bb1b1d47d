-- ===== src/Cycle/Ensure.antt =====
-- main.go: `ensureTargetTable`. What the code changes in the map of target tables stays changed when
-- it returns an error, so the names come back in either case.
use doris_sync.Base.{
  String, ◌<>◌, Bool, true, false, not, ◌&&◌, List, [], ◌∷◌, ◌++◌, Option, none, some, map, length,
}
use doris_sync.Base.{contains, is_some, if◌then◌else◌}
use doris_sync.Base.Act.{Err, errorf, Act, pure, fail, attempt, wrapping, ◌>>=◌, ◌>>◌}
use doris_sync.Config.{DatabasePair, Options, allows_partition}
use doris_sync.State.Keys.{state_key}
use doris_sync.World.{World, Env, source, target}
use doris_sync.Database.{columns, create_table_sql, partitions, is_async_view}
use doris_sync.Database.Range.{Partition}
use doris_sync.Database.Match.{match_target_partition}
use doris_sync.Columns.{validate_target_columns}
use doris_sync.SyncState.{modify, save_inventory}
use doris_sync.Clock.{is_create_table, Deps}
use doris_sync.Hourly.{lift}
use doris_sync.Targets.{create_missing}
use doris_sync.Partition.Full.{is_auto_partition_ddl}

-- The names of the target's tables, whether the table is one to copy, and the error.
pub record Ensured : Type 0 where
  pub names : List String
  pub ready : Bool
  pub failure : Option Err

abbrev pub skipped : List String → Ensured
skipped names = record { names = names; ready = false; failure = none }

abbrev pub failed : List String → Err → Ensured
failed names e = record { names = names; ready = false; failure = some e }

abbrev pub ensured : List String → Ensured
ensured names = record { names = names; ready = true; failure = none }

module _ (env : Env) (deps : Deps) (auto_range : String → Bool) (o : Options) where
  -- Each partition that is selected has a partition on the target, or the target makes one.
  unfoldable pub check_parts : Bool → List Partition → List Partition → Act World (Unit {0})
  check_parts auto targets [] = pure tt
  check_parts auto targets (part ∷ parts) =
      let rest = check_parts auto targets parts in
      if not (allows_partition deps.matches o part.name) then rest else do
        found ← lift (match_target_partition part targets)
        if not (is_some found) && not auto
            then fail (
                errorf
                  "target partition matching source is missing and target table is not AUTO PARTITION")
            else rest

  -- What a forced overwrite asks of the target.
  unfoldable pub check_forced : DatabasePair → String → List Partition → Act World (Unit {0})
  check_forced pair table parts =
      if o.force_overwrite
      then (do
        ddl ← create_table_sql env deps.is_int64 target pair.target table
        targets ← partitions env deps.is_int64 target pair.target table
        check_parts (is_auto_partition_ddl auto_range ddl) targets parts)
      else pure tt

  abbrev pub see : List Partition → Act World (Unit {0})
  see parts =
      modify λ m. record m { seen_partitions = map (λ p. p.name) parts ++ m.seen_partitions }

  -- Behind the creation of the table.
  unfoldable pub check_table : DatabasePair → String → Act World (Unit {0})
  check_table pair table = do
    cols ← columns env deps.is_int64 source pair.source table
    target_cols ← columns env deps.is_int64 target pair.target table
    wrapping (pair.target <> ("." <> (table <> ": ")))
        (lift (validate_target_columns cols target_cols))
    parts ← partitions env deps.is_int64 source pair.source table
    check_forced pair table parts
    see parts
    save_inventory env (state_key pair.source pair.target table "") (length parts)

  unfoldable pub ensure_created : DatabasePair → String → List String → String → Act World Ensured
  ensure_created pair table names ddl =
      attempt (create_missing env deps pair table names ddl)
        (λ names'.
          attempt (check_table pair table) (λ _. pure (ensured names'))
            (λ e. pure (failed names' e)))
        (λ e. pure (failed names e))

  unfoldable pub ensure_ddl : DatabasePair → String → List String → String → Act World Ensured
  ensure_ddl pair table names ddl =
      if not (is_create_table deps ddl)
      then pure (skipped names)
      else if o.force_overwrite && not (contains names table)
      then pure
          (failed names (errorf "target table does not exist; forced overwrite will not create it"))
      else ensure_created pair table names ddl

  unfoldable pub ensure_target_table : DatabasePair → String → List String → Act World Ensured
  ensure_target_table pair table names =
      attempt (create_table_sql env deps.is_int64 source pair.source table)
        (ensure_ddl pair table names)
        (λ e. if is_async_view e then pure (skipped names) else pure (failed names e))
