-- ===== src/OverwritePlan.antt =====
-- overwrite_plan.go: the plan of a forced overwrite. The decoding of its JSON is not modelled.
pub mod Valid
pub mod Preflight
use doris_sync.Base.{
  ℕ, suc, String, ◌<>◌, ◌==◌, Bool, true, false, not, ◌||◌, ◌&&◌, List, [], ◌∷◌, Option, none, some,
}
use doris_sync.Base.{contains, is_nil, if◌then◌else◌}
use doris_sync.Base.Text.{decimal}
use doris_sync.Base.Act.{
  Err, errorf, wrap, Result, ok, err, killed, Act, pure, fail, wrapping, ◌>>=◌, ◌>>◌,
}
use doris_sync.Config.{DatabasePair, Options}
use doris_sync.Config.Names.{validate_partition_names}
use doris_sync.State.Keys.{state_key}
use doris_sync.World.{World, Env, source, target, check_context}
use doris_sync.Database.{Column, columns, tables}
use doris_sync.SyncState.{table_hash}
use doris_sync.Clock.{Deps, schema_hash}
use doris_sync.Tasks.{trimmed}
use doris_sync.Cycle.{clear_seen}
use doris_sync.Cycle.Ensure.{Ensured, ensure_target_table}
use doris_sync.Cycle.Table.{sync_table}

pub record OverwriteTable : Type 0 where
  pub source_database : String
  pub target_database : String
  pub table : String
  pub partitions : List String

pub record OverwritePlan : Type 0 where
  pub tables : List OverwriteTable

-- return an error, or go on
abbrev pub passed : Result (Unit {0}) → Result (Unit {0}) → Result (Unit {0})
passed (ok _) rest = rest
passed (err e) rest = err e
passed killed rest = killed

abbrev pub in_item : ℕ → Result (Unit {0}) → Result (Unit {0})
in_item i (ok _) = ok tt
in_item i (err e) = err (wrap ("overwrite plan tables[" <> (decimal i <> "]: ")) e)
in_item i killed = killed

-- The loop over the mappings.
unfoldable pub is_mapped : List DatabasePair → OverwriteTable → Bool
is_mapped [] item = false
is_mapped (pair ∷ pairs) item =
    let rest = is_mapped pairs item in
    if pair.source == item.source_database && pair.target == item.target_database
    then true
    else rest

unfoldable pub has_exact_names : OverwriteTable → Bool
has_exact_names item = not (
    item.source_database == ""
    || item.target_database == ""
    || item.table == ""
    || not (trimmed item.source_database)
    || not (trimmed item.target_database)
    || not (trimmed item.table))

abbrev pub item_key : OverwriteTable → String
item_key item = state_key item.source_database item.target_database item.table ""

abbrev pub target_key : OverwriteTable → String
target_key item = state_key "" item.target_database item.table ""

-- The checks of one item by itself.
unfoldable pub check_item : List DatabasePair → ℕ → OverwriteTable → Result (Unit {0})
check_item mappings i item =
    if not (has_exact_names item)
    then err (
        errorf (
          "overwrite plan tables["
          <> (decimal i <> "] requires exact sourceDatabase, targetDatabase and table names")))
    else if not (is_mapped mappings item)
    then in_item i (
        err (
          errorf (
            "database mapping "
            <> (item.source_database
                <> (" -> " <> (item.target_database <> " is not configured"))))))
    else if is_nil item.partitions
    then in_item i (err (errorf "partitions must not be empty"))
    else in_item i (validate_partition_names item.partitions)

-- The loop over the items, with the keys of those before.
unfoldable pub check_items :
    List DatabasePair → ℕ → List String → List String → List OverwriteTable → Result (Unit {0})
check_items mappings i seen seen_targets [] = ok tt
check_items mappings i seen seen_targets (item ∷ items) =
    let rest =
      check_items mappings (suc i) (item_key item ∷ seen) (target_key item ∷ seen_targets) items in
    passed (check_item mappings i item) (
      if contains seen (item_key item)
      then err (errorf ("overwrite plan contains duplicate table " <> item.table))
      else if contains seen_targets (target_key item)
      then err (
          errorf (
            "overwrite plan targets "
            <> (item.target_database <> ("." <> (item.table <> " more than once")))))
      else rest)

unfoldable pub validate_overwrite_plan : OverwritePlan → List DatabasePair → Result (Unit {0})
validate_overwrite_plan plan mappings =
    if is_nil plan.tables
    then err (errorf "overwrite plan requires at least one table")
    else check_items mappings 0 [] [] plan.tables

-- `prepared`
pub record Prepared : Type 0 where
  pub item : OverwriteTable
  pub pair : DatabasePair
  pub target_names : List String

abbrev pub pair_of : OverwriteTable → DatabasePair
pair_of item = record { source = item.source_database; target = item.target_database }

abbrev pub preflight : String → OverwriteTable → String
preflight db item = "preflight " <> (db <> ("." <> (item.table <> ": ")))

-- map[string]bool{item.Table: containsName(targetNames, item.Table)}
abbrev pub only_name : OverwriteTable → List String → List String
only_name item names = if contains names item.table then item.table ∷ [] else []

-- s.options.Partitions = item.Partitions
abbrev pub for_item : Options → OverwriteTable → Options
for_item o item = record o { partitions = item.partitions }

module _ (env : Env) (deps : Deps) (auto_range : String → Bool) (o : Options) where
  unfoldable pub require_name : OverwriteTable → List String → Act World (Unit {0})
  require_name item names =
      if contains names item.table
      then pure tt
      else fail (errorf (preflight item.source_database item <> "source table does not exist"))

  unfoldable pub require_ready : OverwriteTable → Ensured → Act World (Unit {0})
  require_ready item e = elim e.failure [
    | some x ↦ fail (wrap (preflight item.source_database item) x)
    | none ↦
        if e.ready
        then pure tt
        else fail (
            errorf
              (preflight item.source_database item <> "only OLAP tables can be force-overwritten"))
  ]

  unfoldable pub require_seen : OverwriteTable → List String → Act World (Unit {0})
  require_seen item [] w = (ok tt, w)
  require_seen item (name ∷ names) w =
      let rest = require_seen item names w in
      if contains w.memory.seen_partitions name then rest else (
        err (
            errorf (
              preflight item.source_database item
              <> ("source partition " <> (name <> " does not exist")))),
        w,
      )

  unfoldable pub require_schema : OverwriteTable → List Column → Act World (Unit {0})
  require_schema item cols w =
      let previous = table_hash (item_key item) w in
      if not (previous == "") && not (previous == schema_hash deps cols)
      then (
        err (
            errorf (
              preflight item.source_database item
              <> "source schema changed; migrate target table before continuing")),
        w,
      )
      else (ok tt, w)

  -- The checks of one item before anything is overwritten.
  unfoldable pub prepare : OverwriteTable → Act World Prepared
  prepare item = do
    check_context env
    source_names ←
        wrapping (preflight item.source_database item)
          (tables env deps.is_int64 source item.source_database)
    require_name item source_names
    names ←
        wrapping (preflight item.target_database item)
          (tables env deps.is_int64 target item.target_database)
    clear_seen
    ensured ←
        ensure_target_table env deps auto_range (for_item o item) (pair_of item) item.table
          (only_name item names)
    require_ready item ensured
    require_seen item item.partitions
    cols ← columns env deps.is_int64 source item.source_database item.table
    require_schema item cols
    pure (record { item = item; pair = pair_of item; target_names = ensured.names })

  unfoldable pub prepare_all : List OverwriteTable → Act World (List Prepared)
  prepare_all [] = pure []
  prepare_all (item ∷ items) =
      let more = prepare_all items in do job ← prepare item; jobs ← more; pure (job ∷ jobs)

  unfoldable pub require_synced : Prepared → Option Err → Act World (Unit {0})
  require_synced job none = pure tt
  require_synced job (some e) =
      fail (wrap ("forced overwrite " <> (job.pair.source <> ("." <> (job.item.table <> ": ")))) e)

  unfoldable pub overwrite_all : List Prepared → Act World (Unit {0})
  overwrite_all [] = pure tt
  overwrite_all (job ∷ jobs) =
      let more = overwrite_all jobs in
      do
        synced ←
            sync_table env deps auto_range (for_item o job.item) job.pair job.item.table
              job.target_names
        require_synced job synced.1
        more

  unfoldable pub cycle_overwrite_plan : OverwritePlan → Act World (Unit {0})
  cycle_overwrite_plan plan = do jobs ← prepare_all plan.tables; overwrite_all jobs
