-- ===== src/Status/Partitions.antt =====
-- status.go: the part of `readStatus` for the overwrite and the time-window mode.
use doris_sync.Base.{
  ℕ, ◌+◌, String, ◌<>◌, ◌==◌, true, false, not, ◌&&◌, List, [], ◌∷◌, Option, none, some,
}
use doris_sync.Base.{is_some, if◌then◌else◌}
use doris_sync.Base.Text.{str_lt}
use doris_sync.Base.Table.{Table, lookup, upsert, string_key}
use doris_sync.Base.Act.{errorf, Result, ok, err}
use doris_sync.State.{PartitionState, TableKey, PartitionKey, Json, json, corrupt}
use doris_sync.State.Keys.{state_key}
use doris_sync.Status.Report.{StatusTable, StatusPartition, StatusReport}

-- The cases of the switch.
pub data Phase : Type 0 where
  monitoring syncing initial : Phase

unfoldable pub phase_of : PartitionState → Phase
phase_of e =
    if not (e.imported_identity == "")
      && e.imported_identity == e.source_identity
      && not (e.backup_prefix == "")
      && not e.import_in_progress
      && not (is_some e.pending_delta)
    then Phase.monitoring
    else if not (e.imported_identity == "")
    then Phase.syncing
    else Phase.initial

abbrev pub phase_text : Phase → PartitionState → String
phase_text Phase.monitoring e = "incremental_monitoring"
phase_text Phase.syncing e = "incremental_syncing"
phase_text Phase.initial e = if e.backup_ready then "initial_import" else "initial_backup"

abbrev pub of_table : String → String → String → StatusTable
of_table source target table = record {
  source_database = source;
  target_database = target;
  table = table;
  total_partitions = 0;
  inventory_known = false;
  observed_partitions = 0;
  current_partitions = 0;
  incremental_monitoring = 0;
  incremental_syncing = 0;
}

abbrev pub table_key_text : StatusTable → String
table_key_text t = state_key t.source_database t.target_database t.table ""

abbrev pub part_key_text : StatusPartition → String
part_key_text p = state_key p.source_database p.target_database p.table p.partition

-- The loop over the inventory.
unfoldable pub inventory_tables : Table TableKey ℕ → Table String StatusTable
inventory_tables [] = []
inventory_tables ((k, total) ∷ rows) =
    upsert (state_key k.source k.target k.table "")
      (record (of_table k.source k.target k.table) {
        total_partitions = total;
        inventory_known = true;
      })
      (inventory_tables rows)

-- One partition more in a table.
abbrev pub count_phase : Phase → StatusTable → StatusTable
count_phase Phase.monitoring t = record t {
  observed_partitions = t.observed_partitions + 1;
  current_partitions = t.current_partitions + 1;
  incremental_monitoring = t.incremental_monitoring + 1;
}
count_phase Phase.syncing t = record t {
  observed_partitions = t.observed_partitions + 1;
  incremental_syncing = t.incremental_syncing + 1;
}
count_phase Phase.initial t = record t { observed_partitions = t.observed_partitions + 1 }

abbrev pub table_or_new : PartitionKey → Option StatusTable → StatusTable
table_or_new k none = of_table k.source k.target k.table
table_or_new k (some t) = t

-- What the loop over the partitions fills.
pub record Tally : Type 0 where
  pub tables : Table String StatusTable
  pub active : List StatusPartition
  pub syncing : List StatusPartition

abbrev pub shown : PartitionKey → PartitionState → StatusPartition
shown k e = record {
  source_database = k.source;
  target_database = k.target;
  table = k.table;
  partition = k.partition;
  phase = phase_text (phase_of e) e;
  source_identity = e.source_identity;
  imported_identity = e.imported_identity;
  backup_ready = e.backup_ready;
  updated_at = e.updated_at;
}

abbrev pub with_active : Phase → StatusPartition → List StatusPartition → List StatusPartition
with_active Phase.monitoring p ps = ps
with_active Phase.syncing p ps = p ∷ ps
with_active Phase.initial p ps = p ∷ ps

abbrev pub with_syncing : Phase → StatusPartition → List StatusPartition → List StatusPartition
with_syncing Phase.monitoring p ps = ps
with_syncing Phase.syncing p ps = p ∷ ps
with_syncing Phase.initial p ps = ps

unfoldable pub add_partition : PartitionKey → PartitionState → Tally → Tally
add_partition k e tally =
    let name = state_key k.source k.target k.table "" in
    let phase = phase_of e in
    record {
      tables =
          upsert name (count_phase phase (table_or_new k (lookup name tally.tables))) tally.tables;
      active = with_active phase (shown k e) tally.active;
      syncing = with_syncing phase (shown k e) tally.syncing;
    }

-- The loop over the rows; a row with invalid JSON ends it.
unfoldable pub tally_rows : Table PartitionKey (Json PartitionState) → Tally → Result Tally
tally_rows [] tally = ok tally
tally_rows ((k, json e) ∷ rows) tally = tally_rows rows (add_partition k e tally)
tally_rows ((k, corrupt) ∷ rows) tally = err (errorf ("partition " <> k.partition))

-- sort.Slice by the key
unfoldable pub insert_by : {A : Type 0} → (A → String) → A → List A → List A
insert_by key x [] = x ∷ []
insert_by key x (y ∷ ys) =
    let rest = insert_by key x ys in if str_lt (key y) (key x) then y ∷ rest else x ∷ y ∷ ys

unfoldable pub sort_by : {A : Type 0} → (A → String) → List A → List A
unfolding insert_by
sort_by key [] = []
sort_by key (x ∷ xs) = insert_by key x (sort_by key xs)

-- The sum of a field over the tables.
unfoldable pub sum_of : (StatusTable → ℕ) → Table String StatusTable → ℕ
sum_of f [] = 0
sum_of f ((name, t) ∷ rows) = f t + sum_of f rows

abbrev pub known_total : StatusTable → ℕ
known_total t = if t.inventory_known then t.total_partitions else 0

abbrev pub values : Table String StatusTable → List StatusTable
values [] = []
values ((name, t) ∷ rows) = t ∷ values rows

unfoldable pub summarise : StatusReport → Tally → StatusReport
summarise report tally = record report {
  known_total_partitions = sum_of known_total tally.tables;
  current_partitions = sum_of (λ t. t.current_partitions) tally.tables;
  incremental_monitoring_count = sum_of (λ t. t.incremental_monitoring) tally.tables;
  incremental_syncing_count = sum_of (λ t. t.incremental_syncing) tally.tables;
  tables = sort_by table_key_text (values tally.tables);
  active_partitions = sort_by part_key_text tally.active;
  incremental_syncing_partitions = sort_by part_key_text tally.syncing;
}
