-- ===== src/Cycle/Scan.antt =====
-- main.go: `maybeScanCompleted`, which copies again what has changed since it was imported.
use doris_sync.Base.{
  ℕ, ◌+◌, String, ◌<>◌, ◌==◌, Bool, false, not, ◌&&◌, ◌||◌, List, [], ◌∷◌, ◌++◌, Option, none, some,
  map,
}
use doris_sync.Base.{contains, is_some, ltb, if◌then◌else◌}
use doris_sync.Base.Text.{split}
use doris_sync.Base.Table.{Table, lookup, string_key}
use doris_sync.Base.Act.{Err, wrap, Act, pure, attempt, wrapping, ◌>>=◌, ◌>>◌}
use doris_sync.Config.{DatabasePair, Options, allows_table, allows_partition}
use doris_sync.Sql.{sort_texts}
use doris_sync.State.{PartitionState, Memory}
use doris_sync.State.Keys.{state_key}
use doris_sync.World.{World, Env, source, now, check_context}
use doris_sync.Database.{columns, create_table_sql, partitions}
use doris_sync.Database.Range.{Partition}
use doris_sync.Columns.{validate_time_field}
use doris_sync.SyncState.{modify}
use doris_sync.Clock.{Deps}
use doris_sync.Hourly.{lift}
use doris_sync.Partition.Full.{source_identity}
use doris_sync.Partition.Delta.{sync_partition_by_mode}
use doris_sync.Cycle.Errors.{return_joined}

abbrev pub dotted : DatabasePair → String → String
dotted pair table = pair.source <> ("." <> (table <> ": "))

-- An entry that was imported once.
abbrev pub was_imported : PartitionState → Bool
was_imported e = not (e.imported_identity == "")

-- An imported entry whose partition has to be looked at again.
abbrev pub is_stale : String → Partition → PartitionState → Bool
is_stale mode part e =
    not (e.imported_identity == source_identity part)
    || e.import_in_progress
    || is_some e.pending_delta
    || (mode == "time-window" && not e.watermark_ready)

module _ (env : Env) (deps : Deps) (auto_range : String → Bool) (o : Options) where
  -- The table of a key of the map, if it is of the pair and selected.
  abbrev table_of : DatabasePair → List String → PartitionState → Option String
  table_of pair (a ∷ b ∷ table ∷ part ∷ []) e =
      if a == pair.source
        && b == pair.target
        && was_imported e
        && allows_table deps.matches o table
        && allows_partition deps.matches o part
      then some table
      else none
  table_of pair _ e = none

  abbrev add_table : Option String → List String → List String
  add_table none tables = tables
  add_table (some table) tables = if contains tables table then tables else table ∷ tables

  unfoldable pub imported_tables : DatabasePair → Table String PartitionState → List String
  imported_tables pair [] = []
  imported_tables pair ((key, e) ∷ rest) =
      add_table (table_of pair (split 0 key) e) (imported_tables pair rest)

  candidate : Memory → DatabasePair → String → Partition → Bool
  candidate m pair table part =
      if allows_partition deps.matches o part.name
      then elim (lookup (state_key pair.source pair.target table part.name) m.partitions) [
        | none ↦ false
        | some e ↦ was_imported e && is_stale m.mode part e
      ]
      else false

  unfoldable pub candidates : Memory → DatabasePair → String → List Partition → List Partition
  unfolding candidate
  candidates m pair table [] = []
  candidates m pair table (part ∷ parts) =
      let rest = candidates m pair table parts in
      if candidate m pair table part then part ∷ rest else rest

  -- The statement and the columns of a table that has candidates.
  unfoldable pub scan_columns : DatabasePair → String → Act World (List String)
  scan_columns pair table = do
    create_table_sql env deps.is_int64 source pair.source table
    cols ← columns env deps.is_int64 source pair.source table
    λ w.
        (if w.memory.mode == "time-window"
            then wrapping (dotted pair table) (lift (validate_time_field cols w.memory.time_field))
            else pure tt)
          w
    pure (map (λ col. col.name) cols)

  abbrev pub part_error : DatabasePair → String → Partition → Err → Err
  part_error pair table part =
      wrap (pair.source <> ("." <> (table <> ("." <> (part.name <> ": ")))))

  -- The candidates in turn; an error does not stop the next one.
  unfoldable pub scan_parts :
      DatabasePair → String → List String → List Partition → List Err → Act World (List Err)
  scan_parts pair table names [] failures = pure failures
  scan_parts pair table names (part ∷ parts) failures =
      let more = scan_parts pair table names parts in
      attempt
        (sync_partition_by_mode env deps auto_range o.s3 o.force_overwrite
          (record { pair = pair; table = table; part = part; columns = names }))
        (λ _. more failures) (λ e. more (failures ++ (part_error pair table part e ∷ [])))

  unfoldable pub scan_found :
      DatabasePair → String → List Partition → List Err → Act World (List Err)
  scan_found pair table [] failures = pure failures
  scan_found pair table (part ∷ parts) failures =
      attempt (scan_columns pair table)
        (λ names. scan_parts pair table names (part ∷ parts) failures)
        (λ e. pure (failures ++ (e ∷ [])))

  unfoldable pub scan_table : DatabasePair → String → List Err → Act World (List Err)
  scan_table pair table failures =
      attempt (partitions env deps.is_int64 source pair.source table)
        (λ parts w. scan_found pair table (candidates w.memory pair table parts) failures w)
        (λ e. pure (failures ++ (wrap (dotted pair table) e ∷ [])))

  unfoldable pub scan_tables : DatabasePair → List String → List Err → Act World (List Err)
  scan_tables pair [] failures = pure failures
  scan_tables pair (table ∷ tables) failures =
      let more = scan_tables pair tables in
      do check_context env; found ← scan_table pair table failures; more found

  unfoldable pub scan_pairs : List DatabasePair → List Err → Act World (List Err)
  unfolding imported_tables sort_texts split
  scan_pairs [] failures = pure failures
  scan_pairs (pair ∷ pairs) failures =
      let more = scan_pairs pairs in
      do
        found ← (λ w.
            scan_tables pair (sort_texts (imported_tables pair w.memory.partitions)) failures w)
        more found

  -- The time of the next check is moved on before the check.
  unfoldable pub scan_all : Act World (Unit {0})
  scan_all = do
    time ← now env
    modify λ m. record m { next_version_check = some (time + deps.parse_duration o.interval) }
    failures ← scan_pairs o.databases []
    return_joined failures

  unfoldable pub scan_if_due : Option ℕ → Act World (Unit {0})
  scan_if_due none = pure tt
  scan_if_due (some due) = do time ← now env; if ltb time due then pure tt else scan_all

  unfoldable pub maybe_scan_completed : Act World (Unit {0})
  maybe_scan_completed w = scan_if_due w.memory.next_version_check w
