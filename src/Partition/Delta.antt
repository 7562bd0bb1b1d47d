-- ===== src/Partition/Delta.antt =====
-- incremental.go: the time-window mode, which copies the rows after a watermark.
pub mod Watermark
pub mod Imports
use doris_sync.Base.{
  ℕ, String, ◌<>◌, ◌==◌, Bool, true, false, Option, none, some, not, List, [], ◌∷◌,
}
use doris_sync.Base.{is_nil, is_some, ◌||◌, ◌&&◌, ltb, if◌then◌else◌}
use doris_sync.Base.Table.{lookup, string_key}
use doris_sync.Base.Text.{has_prefix}
use doris_sync.Base.Act.{Result, ok, err, errorf, Act, pure, fail, wrapping, ◌>>=◌, ◌>>◌}
use doris_sync.Config.{S3Options}
use doris_sync.Sql.{ident, qtable, sql_literal, outfile_where_sql, import_labeled_sql}
use doris_sync.State.{PartitionState, DeltaState}
use doris_sync.World.{World, Env, source, target, query, exec, now}
use doris_sync.Rows.{Row}
use doris_sync.Store.{partition_prefix, uri, list, clear}
use doris_sync.Database.{field, partitions}
use doris_sync.Database.Range.{Partition}
use doris_sync.Database.Match.{find_partition}
use doris_sync.SyncState.{save_partition}
use doris_sync.Clock.{Deps, delta_label}
use doris_sync.Hourly.{lift}
use doris_sync.Hourly.Window.{equal_strings}
use doris_sync.Partition.Full.{
  Job, job_key, source_identity, entry_or_blank, entry_at, assign, assign_and_save, require_current,
  target_match, sync_partition,
}

module _ (deps : Deps) where
  -- `parseWatermark`
  unfoldable pub parse_watermark : String → Result ℕ
  parse_watermark value = elim (deps.parse_watermark value) [
    | none ↦ err (errorf "invalid time watermark")
    | some time ↦ ok time
  ]

  unfoldable pub checked_watermark : String → Result (Unit {0})
  checked_watermark value = if value == "" then ok tt else elim (deps.parse_watermark value) [
    | none ↦ err (errorf "invalid time watermark")
    | some time ↦ ok tt
  ]

  -- Has the newest time passed the watermark?
  unfoldable pub has_new_time : String → String → Result Bool
  has_new_time watermark new_max =
      if watermark == "" || new_max == "" then ok false else elim (deps.parse_watermark watermark) [
        | none ↦ err (errorf "invalid time watermark")
        | some from ↦ elim (deps.parse_watermark new_max) [
          | none ↦ err (errorf "invalid time watermark")
          | some to ↦ ok (ltb from to)
        ]
      ]

-- The partition is there with this identity.
unfoldable pub is_at : List Partition → String → String → Bool
is_at parts name identity = elim (find_partition parts name) [
  | none ↦ false
  | some part ↦ source_identity part == identity
]

unfoldable pub single_max : List Row → Result String
single_max (row ∷ []) = ok (field "max_time" row)
single_max rows = err (errorf "MAX(time) returned a number of rows other than 1")

module _ (env : Env) (deps : Deps) (auto_range : String → Bool) (s3 : S3Options)
    (force : Bool) where
  abbrev pub full : Job → Act World (Unit {0})
  full = sync_partition env deps.is_int64 auto_range s3 force

  abbrev pub save_with : Job → (PartitionState → PartitionState) → Act World (Unit {0})
  save_with j = assign_and_save env deps.is_int64 auto_range s3 force (job_key j)

  abbrev pub current : Job → String → Act World (Unit {0})
  current = require_current env deps.is_int64 auto_range s3 force

  unfoldable pub max_time : Job → Act World String
  unfolding query single_max lookup
  max_time j w =
      ((do
        rows ← query env source (
            "SELECT MAX("
            <> (ident w.memory.time_field
                <> (") AS max_time FROM "
                    <> (qtable j.pair.source j.table
                        <> (" PARTITION(" <> (ident j.part.name <> ")"))))))
        lift (single_max rows))
        w)

  abbrev pub seeded : String → PartitionState → PartitionState
  seeded value e = record e { watermark = value; watermark_ready = true; pending_delta = none }

  unfoldable pub seed_watermark : Job → Act World (Unit {0})
  seed_watermark j = do
    value ← max_time j
    lift (checked_watermark deps value)
    current j "source changed while recording watermark; retry"
    save_with j (seeded value)

  -- A pending delta in the entry.
  abbrev pub set_delta : Option DeltaState → PartitionState → PartitionState
  set_delta d e = record e { pending_delta = d }

  abbrev pub finished_delta : DeltaState → PartitionState → PartitionState
  finished_delta d e = record e {
    imported_identity = d.source_identity;
    watermark = d.to;
    watermark_ready = true;
    pending_delta = none;
  }

  unfoldable pub finish_delta : Job → DeltaState → Act World (Unit {0})
  finish_delta j d = save_with j (finished_delta d)

  -- A delta whose source has changed is given up.
  unfoldable pub require_source : Job → DeltaState → String → Act World (Unit {0})
  require_source j d complaint = do
    parts ← partitions env deps.is_int64 source j.pair.source j.table
    if is_at parts j.part.name d.source_identity then pure tt else do
      assign (job_key j) (set_delta none)
      save_partition env (job_key j)
      fail (errorf complaint)

  -- The delta is announced in the file before it is sent.
  unfoldable pub import_delta : Job → DeltaState → Act World (Unit {0})
  import_delta j d = do
    actual ← list env d.prefix
    if not (equal_strings actual d.objects)
        then fail (errorf "delta backup objects changed; refusing import")
        else if d.import_started
        then fail (
            errorf (
              "delta import "
              <> (d.label
                  <> " outcome is unknown after interruption; verify target partition before retrying")))
        else do
          require_source j d "source version changed before delta import; retry next cycle"
          assign (job_key j) (set_delta (some (record d { import_started = true })))
          save_partition env (job_key j)
          wrapping
              ("delta import label "
                <> (d.label <> " returned an error; outcome must be verified before retrying: "))
              (exec env target (
                import_labeled_sql j.pair.target j.table (uri s3 d.prefix <> "*.parquet") j.columns
                  d.label s3))
          finish_delta j d

  -- The files of a delta, which has rows by its watermark.
  unfoldable pub record_delta : Job → DeltaState → List String → Act World (Unit {0})
  record_delta j d [] = fail (errorf "delta OUTFILE returned no objects for advanced watermark")
  record_delta j d (o ∷ os) = do
    require_source j d "source version changed during delta backup; retry next cycle"
    let backed = record d { objects = o ∷ os; backup_ready = true }
    assign (job_key j) (set_delta (some backed))
    save_partition env (job_key j)
    import_delta j backed

  unfoldable pub backup_delta : Job → DeltaState → Act World (Unit {0})
  backup_delta j d w =
      let field_name = ident w.memory.time_field in
      let where_clause =
        " WHERE "
        <> (field_name
            <> (" > "
                <> (sql_literal d.from
                    <> (" AND " <> (field_name <> (" <= " <> sql_literal d.to)))))) in
      ((do
        clear env s3 d.prefix
        wrapping "delta OUTFILE: " (
            query env source (
              outfile_where_sql j.pair.source j.table j.part.name (uri s3 d.prefix) j.columns
                where_clause s3))
        objects ← list env d.prefix
        record_delta j d objects)
        w)

  unfoldable pub resume_delta : Job → Option DeltaState → Act World (Unit {0})
  resume_delta j none = fail (errorf "missing pending delta")
  resume_delta j (some d) = if d.backup_ready then import_delta j d else backup_delta j d

  abbrev pub new_delta : Job → String → String → ℕ → DeltaState
  new_delta j from to time =
      let label = delta_label deps (job_key j) from to (source_identity j.part) 0 in
      record {
        from = from;
        to = to;
        source_identity = source_identity j.part;
        prefix =
            partition_prefix s3 j.pair.source j.pair.target j.table j.part.name
            <> ("incremental/" <> (label <> "/"));
        objects = [];
        backup_ready = false;
        import_started = false;
        label = label;
        attempt = 0;
        created_at = time;
      }

  unfoldable pub start_delta : Job → String → String → Act World (Unit {0})
  start_delta j from to = do
    time ← now env
    assign (job_key j) (set_delta (some (new_delta j from to time)))
    save_partition env (job_key j)
    resume_delta j (some (new_delta j from to time))

  unfoldable pub copy_and_seed : Job → Act World (Unit {0})
  copy_and_seed j = do full j; seed_watermark j

  -- A version that changed, with its partition on both sides: the new rows, or everything.
  unfoldable pub advance_partition : Job → PartitionState → Act World (Unit {0})
  advance_partition j e = do
    found ← target_match env deps.is_int64 auto_range s3 force j
    if not (is_some found) then copy_and_seed j else do
      new_max ← max_time j
      new_time ← lift (has_new_time deps e.watermark new_max)
      if new_time then start_delta j e.watermark new_max else copy_and_seed j

  -- An entry that is not ready for increments.
  abbrev pub needs_full : Option PartitionState → Bool
  needs_full none = true
  needs_full (some e) =
      not e.backup_ready
      || e.import_in_progress
      || e.imported_identity == ""
      || not e.watermark_ready

  unfoldable pub sync_window_mode : Job → Option PartitionState → Act World (Unit {0})
  sync_window_mode j found =
      let e = entry_or_blank found in
      if needs_full found
      then copy_and_seed j
      else if is_some e.pending_delta
      then resume_delta j e.pending_delta
      else if e.imported_identity == source_identity j.part
      then full j
      else if not (has_prefix e.imported_identity (j.part.id <> ":"))
      then copy_and_seed j
      else advance_partition j e

  unfoldable pub sync_partition_by_mode : Job → Act World (Unit {0})
  sync_partition_by_mode j w =
      if w.memory.mode == "overwrite"
      then full j w
      else sync_window_mode j (lookup (job_key j) w.memory.partitions) w
