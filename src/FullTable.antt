-- ===== src/FullTable.antt =====
-- fulltable.go: `syncFullTable`, which overwrites a whole table. The map of the target's tables is
-- the list of their names.
use doris_sync.Base.{
  String, ◌<>◌, false, not, List, [], ◌∷◌, map, is_nil, none, some, if◌then◌else◌,
}
use doris_sync.Base.Act.{errorf, Act, pure, fail, attempt, wrapping, ◌>>=◌, ◌>>◌}
use doris_sync.Config.{S3Options}
use doris_sync.Sql.{qtable, outfile_table_where_sql, overwrite_table_sql}
use doris_sync.State.{FullTableTask}
use doris_sync.World.{World, Env, source, target, query, exec}
use doris_sync.Rows.{Row}
use doris_sync.Store.{partition_prefix, backup_generation_prefix, uri, list, clear}
use doris_sync.Database.{columns, create_table_sql}
use doris_sync.Columns.{validate_target_columns}
use doris_sync.Clock.{is_create_table, Deps}
use doris_sync.Hourly.{lift}
use doris_sync.Tasks.{update_full_table_task}
use doris_sync.Targets.{Synced, create_missing}

module _ (env : Env) (deps : Deps) (s3 : S3Options) where
  unfoldable pub export_prefix : FullTableTask → List String → String → Act World String
  export_prefix task names prefix = do
    wrapping "full-table OUTFILE: " (
        query env source
          (outfile_table_where_sql task.pair.source task.table (uri s3 prefix) names "" s3))
    objects ← list env prefix
    if is_nil objects
        then fail (errorf "full-table OUTFILE returned no files for nonempty source")
        else pure (uri s3 prefix <> "*.parquet")

  -- The files of a table, "" if the table is empty.
  unfoldable pub export_table : FullTableTask → List String → String → List Row → Act World String
  export_table task names root [] = pure ""
  export_table task names root (row ∷ rows) = do
    prefix ← backup_generation_prefix env root
    export_prefix task names prefix

  unfoldable pub overwrite_table : FullTableTask → List String → Act World (Unit {0})
  overwrite_table task names = do
    let root = partition_prefix s3 task.pair.source task.pair.target task.table "full_table"
    wrapping "clear previous full-table backup: " (clear env s3 root)
    probe ←
        query env source ("SELECT 1 FROM " <> (qtable task.pair.source task.table <> " LIMIT 1"))
    files ← export_table task names root probe
    update_full_table_task env deps task "overwriting" none false
    wrapping "full-table overwrite: " (
        exec env target
          (overwrite_table_sql task.pair.target task.table files names (is_nil probe) s3))

  unfoldable pub check_columns : FullTableTask → Act World (List String)
  check_columns task = do
    cols ← columns env deps.is_int64 source task.pair.source task.table
    target_cols ← columns env deps.is_int64 target task.pair.target task.table
    lift (validate_target_columns cols target_cols)
    pure (map (λ col. col.name) cols)

  unfoldable pub overwrite_created : FullTableTask → List String → Act World Synced
  overwrite_created task names =
      attempt (do cols ← check_columns task; overwrite_table task cols) (λ _. pure (names, none))
        (λ e. pure (names, some e))

  unfoldable pub sync_full_ddl : FullTableTask → List String → String → Act World Synced
  sync_full_ddl task names ddl =
      if not (is_create_table deps ddl)
      then pure (names, some (errorf "source is not a supported OLAP table"))
      else attempt (create_missing env deps task.pair task.table names ddl) (overwrite_created task)
          (λ e. pure (names, some e))

  -- The names of the target's tables come back with the error.
  unfoldable pub sync_full_table : FullTableTask → List String → Act World Synced
  sync_full_table task names =
      attempt (create_table_sql env deps.is_int64 source task.pair.source task.table)
        (sync_full_ddl task names) (λ e. pure (names, some e))
