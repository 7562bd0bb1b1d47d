-- ===== src/Partition/Full.antt =====
-- main.go: `syncPartition`. The entry that the code reads and writes through a pointer is the one
-- of the map in memory; each step reads it there.
use doris_sync.Base.{String, ◌<>◌, ◌==◌, Bool, true, false, Option, none, some, not, List, [], ◌∷◌}
use doris_sync.Base.{is_nil, is_some, ◌||◌, ◌&&◌, if◌then◌else◌}
use doris_sync.Base.Table.{lookup, upsert, string_key}
use doris_sync.Base.Text.{to_upper, has_text}
use doris_sync.Base.Act.{Result, errorf, Act, pure, fail, wrapping, ◌>>=◌, ◌>>◌}
use doris_sync.Config.{DatabasePair, S3Options}
use doris_sync.Sql.{
  ident, qtable, outfile_sql, overwrite_sql, overwrite_auto_partition_sql, import_sql,
}
use doris_sync.State.{PartitionState}
use doris_sync.State.Keys.{state_key}
use doris_sync.World.{World, Env, source, target, query, exec, now}
use doris_sync.Store.{partition_prefix, backup_generation_prefix, uri, list, clear}
use doris_sync.Database.{partitions, create_table_sql}
use doris_sync.Database.Range.{Partition}
use doris_sync.Database.Match.{find_partition, match_target_partition}
use doris_sync.SyncState.{modify, save_partition}
use doris_sync.Hourly.{lift}
use doris_sync.Hourly.Window.{equal_strings}

-- The arguments that the methods hand on.
pub record Job : Type 0 where
  pub pair : DatabasePair
  pub table : String
  pub part : Partition
  pub columns : List String

unfoldable pub source_identity : Partition → String
source_identity p = p.id <> (":" <> p.version)

abbrev pub job_key : Job → String
job_key j = state_key j.pair.source j.pair.target j.table j.part.name

-- &partitionState{}
abbrev pub blank : PartitionState
blank = record {
  source_identity = "";
  backup_identity = "";
  backup_prefix = "";
  imported_identity = "";
  objects = [];
  backup_ready = false;
  import_in_progress = false;
  watermark = "";
  watermark_ready = false;
  pending_delta = none;
  updated_at = 0;
}

abbrev pub entry_or_blank : Option PartitionState → PartitionState
entry_or_blank none = blank
entry_or_blank (some entry) = entry

abbrev pub entry_at : String → World → PartitionState
entry_at key w = entry_or_blank (lookup key w.memory.partitions)

-- An assignment through the pointer. The first one puts the entry into the map.
abbrev pub assign : String → (PartitionState → PartitionState) → Act World (Unit {0})
assign key f w =
    modify (λ m. record m { partitions = upsert key (f (entry_at key w)) m.partitions }) w

-- `isAutoPartitionDDL` over `autoRangeDDL.MatchString`.
unfoldable pub is_auto_partition_ddl : (String → Bool) → String → Bool
is_auto_partition_ddl auto_range ddl =
    has_text (to_upper ddl) "AUTO PARTITION BY LIST" || auto_range ddl

-- The partition is still there with the version that is being copied.
unfoldable pub is_current : List Partition → Partition → Bool
is_current parts part = elim (find_partition parts part.name) [
  | none ↦ false
  | some current ↦ source_identity current == source_identity part
]

module _ (env : Env) (is_int64 auto_range : String → Bool) (s3 : S3Options) (force : Bool) where
  -- entry.… = …; entry.UpdatedAt = time.Now(); s.state.savePartition(key)
  unfoldable pub assign_and_save : String → (PartitionState → PartitionState) → Act World (Unit {0})
  assign_and_save key f = do
    assign key f
    time ← now env
    assign key (λ e. record e { updated_at = time })
    save_partition env key

  unfoldable pub require_current : Job → String → Act World (Unit {0})
  require_current j complaint = do
    parts ← partitions env is_int64 source j.pair.source j.table
    if is_current parts j.part then pure tt else fail (errorf complaint)

  unfoldable pub target_match : Job → Act World (Option Partition)
  target_match j = do
    parts ← partitions env is_int64 target j.pair.target j.table
    lift (match_target_partition j.part parts)

  -- A partition that is complete already: nothing to do, or its target is gone and it is imported
  -- again.
  unfoldable pub check_complete : Job → Act World Bool
  check_complete j w =
      let entry = entry_at (job_key j) w in
      if is_nil entry.objects
      then (Result.ok true, w)
      else ((do
        found ← target_match j
        if is_some found then pure true else do
          assign_and_save (job_key j) (λ e. record e { imported_identity = "" })
          pure false)
          w)

  unfoldable pub check_exported : Job → List String → Act World (Unit {0})
  check_exported j (o ∷ os) = pure tt
  check_exported j [] = do
    rows ← query env source (
        "SELECT 1 FROM "
        <> (qtable j.pair.source j.table <> (" PARTITION(" <> (ident j.part.name <> ") LIMIT 1"))))
    if is_nil rows
        then pure tt
        else fail (errorf "OUTFILE produced no objects for nonempty source partition")

  abbrev pub begin_backup : String → String → PartitionState → PartitionState
  begin_backup identity prefix e = record e {
    source_identity = identity;
    backup_ready = false;
    backup_identity = "";
    backup_prefix = prefix;
    objects = [];
    import_in_progress = false;
  }

  abbrev pub end_backup : String → List String → PartitionState → PartitionState
  end_backup identity objects e = record e {
    backup_identity = identity;
    objects = objects;
    backup_ready = true;
  }

  unfoldable pub make_backup : Job → Act World (Unit {0})
  unfolding check_exported
  make_backup j = do
    let root = partition_prefix s3 j.pair.source j.pair.target j.table j.part.name
    prefix ← backup_generation_prefix env root
    assign_and_save (job_key j) (begin_backup (source_identity j.part) prefix)
    wrapping "clear backup prefix: " (clear env s3 root)
    wrapping "OUTFILE: " (
        query env source
          (outfile_sql j.pair.source j.table j.part.name (uri s3 prefix) j.columns s3))
    objects ← list env prefix
    check_exported j objects
    require_current j "source visible version changed during backup; retry next cycle"
    assign_and_save (job_key j) (end_backup (source_identity j.part) objects)

  abbrev pub needs_backup : String → PartitionState → Bool
  needs_backup identity e =
      force || not (e.backup_identity == identity) || not e.backup_ready || e.backup_prefix == ""

  unfoldable pub backup_if_needed : Job → Act World (Unit {0})
  backup_if_needed j w =
      if needs_backup (source_identity j.part) (entry_at (job_key j) w)
      then make_backup j w
      else (Result.ok tt, w)

  -- A target without the partition has to create it by itself.
  unfoldable pub check_target : Job → Option Partition → Act World (Unit {0})
  check_target j (some found) = pure tt
  check_target j none = do
    ddl ← create_table_sql env is_int64 target j.pair.target j.table
    if is_auto_partition_ddl auto_range ddl
        then pure tt
        else fail (errorf "target partition missing and target table does not use AUTO PARTITION")

  abbrev files : PartitionState → String
  files e = uri s3 e.backup_prefix <> "*.parquet"

  -- `d.execAutoPartitionOverwrite`
  unfoldable pub exec_auto_partition_overwrite : String → Act World (Unit {0})
  exec_auto_partition_overwrite statement = do
    wrapping "enable automatic partition creation for overwrite: "
        (exec env target "SET enable_auto_create_when_overwrite = true")
    exec env target statement

  unfoldable pub send : Job → PartitionState → Option Partition → Act World (Unit {0})
  send j e (some found) = wrapping "overwrite target partition: " (
      exec env target
        (overwrite_sql j.pair.target j.table found.name (files e) j.columns (is_nil e.objects) s3))
  send j e none =
      if force && not (is_nil e.objects)
      then wrapping "overwrite missing AUTO PARTITION: " (
          exec_auto_partition_overwrite
            (overwrite_auto_partition_sql j.pair.target j.table (files e) j.columns s3))
      else if is_nil e.objects
      then pure tt
      else wrapping "initial import partition: "
          (exec env target (import_sql j.pair.target j.table (files e) j.columns s3))

  unfoldable pub check_arrived : Job → List String → Act World (Unit {0})
  check_arrived j [] = pure tt
  check_arrived j (o ∷ os) = do
    found ← target_match j
    if is_some found
        then pure tt
        else fail (errorf "target AUTO PARTITION did not create a partition matching source range")

  abbrev pub finished : String → PartitionState → PartitionState
  finished identity e = record e { imported_identity = identity; import_in_progress = false }

  -- Behind the statement: the partition is there, its source has not changed, the import is recorded.
  unfoldable pub confirm_import : Job → List String → Act World (Unit {0})
  confirm_import j objects = do
    check_arrived j objects
    require_current j "source visible version changed during import; retry next cycle"
    assign_and_save (job_key j) (finished (source_identity j.part))

  abbrev pub in_progress : PartitionState → PartitionState
  in_progress e = record e { import_in_progress = true }

  unfoldable pub deliver : Job → PartitionState → Option Partition → Act World (Unit {0})
  deliver j e found = do
    assign_and_save (job_key j) in_progress
    send j e found
    confirm_import j e.objects

  -- From a complete backup to the recorded import.
  unfoldable pub import_backup : Job → PartitionState → Act World (Unit {0})
  import_backup j e = do
    current ← list env e.backup_prefix
    if not (equal_strings current e.objects)
        then fail (errorf "backup objects changed since export; refusing import")
        else do
          require_current j "source visible version changed before import; retry next cycle"
          found ← target_match j
          check_target j found
          deliver j e found

  unfoldable pub import_entry : Job → Act World (Unit {0})
  import_entry j w = import_backup j (entry_at (job_key j) w) w

  unfoldable pub copy_partition : Job → Act World (Unit {0})
  copy_partition j = do backup_if_needed j; import_entry j

  abbrev pub is_complete : String → PartitionState → Bool
  is_complete identity e =
      not force
      && e.backup_ready
      && not (e.backup_prefix == "")
      && e.imported_identity == identity
      && not e.import_in_progress

  unfoldable pub sync_entry : Job → Act World (Unit {0})
  sync_entry j w =
      if is_complete (source_identity j.part) (entry_at (job_key j) w)
      then ((do done ← check_complete j; if done then pure tt else copy_partition j) w)
      else copy_partition j w

  -- A partition that the map does not have gets a blank entry first.
  unfoldable pub sync_partition : Job → Act World (Unit {0})
  sync_partition j = do assign (job_key j) (λ e. e); sync_entry j
