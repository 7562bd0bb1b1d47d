-- ===== src/SyncState/Opening.antt =====
-- state.go: `openState`, from the rows of the file to the maps in memory. The directory and the file's
-- mode are not here.
use doris_sync.Base.{String, List, [], ◌∷◌, Option, none, some}
use doris_sync.Base.Table.{Table, lookup, upsert, string_key}
use doris_sync.Base.Act.{errorf, Result, ok, err, killed, Act, pure, ◌>>=◌, ◌>>◌}
use doris_sync.State.{Disk, PartitionState, TableKey, PartitionKey, Json, json, corrupt}
use doris_sync.State.Keys.{state_key}
use doris_sync.World.{World, Env, tick}
use doris_sync.SyncState.{modify}

abbrev pub table_name : TableKey → String
table_name k = state_key k.source k.target k.table ""

abbrev pub partition_name : PartitionKey → String
partition_name k = state_key k.source k.target k.table k.partition

-- The loops over the rows; the primary keys make their order irrelevant.
unfoldable pub load_rows : {V : Type 0} → Table TableKey V → Table String V
load_rows [] = []
load_rows ((k, v) ∷ rows) = upsert (table_name k) v (load_rows rows)

abbrev pub with_partition :
    String
    → PartitionState
    → Result (Table String PartitionState)
    → Result (Table String PartitionState)
with_partition name entry (ok loaded) = ok (upsert name entry loaded)
with_partition name entry (err e) = err e
with_partition name entry killed = killed

unfoldable pub load_partitions :
    Table PartitionKey (Json PartitionState) → Result (Table String PartitionState)
load_partitions [] = ok []
load_partitions ((k, json entry) ∷ rows) =
    with_partition (partition_name k) entry (load_partitions rows)
load_partitions ((k, corrupt) ∷ rows) = err (errorf "partition state: invalid JSON")

-- "" where there is no such row.
abbrev pub value_or_empty : Option String → String
value_or_empty none = ""
value_or_empty (some value) = value

-- One of the four queries; its error is the driver's.
abbrev pub rows_from : {A : Type 0} → (Disk → A) → Result (Unit {0}) → World → Result A × World
rows_from view (ok _) w = (ok (view w.disk), tick w)
rows_from view (err e) w = (err e, tick w)
rows_from view killed w = (killed, w)

-- What openState executes first: settings of the connection, and tables that are created where they
-- are missing.
abbrev pub opening_statements : List String
opening_statements =
    "PRAGMA journal_mode=WAL" ∷ "PRAGMA synchronous=FULL" ∷ "PRAGMA busy_timeout=5000"
    ∷ "CREATE TABLE IF NOT EXISTS metadata (key TEXT PRIMARY KEY, value TEXT NOT NULL)"
    ∷ "CREATE TABLE IF NOT EXISTS table_state (source_db TEXT NOT NULL, target_db TEXT NOT NULL, table_name TEXT NOT NULL, schema_hash TEXT NOT NULL, PRIMARY KEY(source_db, target_db, table_name))"
    ∷ "CREATE TABLE IF NOT EXISTS table_inventory (source_db TEXT NOT NULL, target_db TEXT NOT NULL, table_name TEXT NOT NULL, partition_count INTEGER NOT NULL, updated_at TEXT NOT NULL, PRIMARY KEY(source_db, target_db, table_name))"
    ∷ "CREATE TABLE IF NOT EXISTS partition_state (source_db TEXT NOT NULL, target_db TEXT NOT NULL, table_name TEXT NOT NULL, partition_name TEXT NOT NULL, source_identity TEXT NOT NULL, backup_identity TEXT NOT NULL, imported_identity TEXT NOT NULL, watermark TEXT NOT NULL, backup_ready INTEGER NOT NULL, import_in_progress INTEGER NOT NULL, updated_at TEXT NOT NULL, state_json TEXT NOT NULL, PRIMARY KEY(source_db, target_db, table_name, partition_name))"
    ∷ "CREATE TABLE IF NOT EXISTS hourly_state (source_db TEXT NOT NULL, target_db TEXT NOT NULL, table_name TEXT NOT NULL, state_json TEXT NOT NULL, PRIMARY KEY(source_db, target_db, table_name))"
    ∷ "CREATE TABLE IF NOT EXISTS hourly_task (source_db TEXT NOT NULL, target_db TEXT NOT NULL, table_name TEXT NOT NULL, time_field TEXT NOT NULL, start_time TEXT NOT NULL, time_zone TEXT NOT NULL, last_error TEXT NOT NULL DEFAULT '', last_success_at TEXT NOT NULL DEFAULT '', created_at TEXT NOT NULL, PRIMARY KEY(source_db, target_db, table_name))"
    ∷ "CREATE TABLE IF NOT EXISTS full_table_task (source_db TEXT NOT NULL, target_db TEXT NOT NULL, table_name TEXT NOT NULL, interval_seconds INTEGER NOT NULL, phase TEXT NOT NULL DEFAULT 'queued', last_error TEXT NOT NULL DEFAULT '', last_success_at TEXT NOT NULL DEFAULT '', created_at TEXT NOT NULL, PRIMARY KEY(source_db, target_db, table_name))"
    ∷ []

-- One of them: no row changes, and its error is the driver's.
abbrev pub answered : Result (Unit {0}) → World → Result (Unit {0}) × World
answered (ok _) w = (ok tt, tick w)
answered (err e) w = (err e, tick w)
answered killed w = (killed, w)

module _ (env : Env) where
  unfoldable pub run_statements : List String → Act World (Unit {0})
  run_statements [] = pure tt
  run_statements (statement ∷ rest) =
      let more = run_statements rest in do (λ w. answered (env.write w.calls) w); more

  unfoldable pub query_rows : {A : Type 0} → (Disk → A) → World → Result A × World
  query_rows view w = rows_from view (env.read w.calls) w

  unfoldable pub open_state : Act World (Unit {0})
  open_state = do
    hashes ← query_rows (λ d. load_rows d.table_state)
    counts ← query_rows (λ d. load_rows d.table_inventory)
    read ← query_rows (λ d. load_partitions d.partition_state)
    loaded ← (λ w. (read, w))
    settings ← query_rows (λ d. d.metadata)
    modify λ m. record m {
      tables = hashes;
      inventory = counts;
      partitions = loaded;
      mode = value_or_empty (lookup "mode" settings);
      time_field = value_or_empty (lookup "time_field" settings);
    }
