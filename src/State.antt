-- ===== src/State.antt =====
-- state.go, tasks.go, fulltable.go, hourly.go: the rows and records that the program keeps.
-- A column that holds JSON is the value that it decodes to, or `corrupt`.
pub mod Keys
pub mod Encoding
use doris_sync.Base.{ℕ, String, ◌<>◌, ◌==◌, Bool, ◌&&◌, Option, List, ◌≡◌, ◌↔◌, true, arith, eq_iff}
use doris_sync.Base.Table.{Table, Key, string_key}
use doris_sync.Config.{DatabasePair}

-- Times are seconds.
pub record DeltaState : Type 0 where
  pub from : String
  pub to : String
  pub source_identity : String
  pub prefix : String
  pub objects : List String
  pub backup_ready : Bool
  pub import_started : Bool
  pub label : String
  pub attempt : ℕ
  pub created_at : ℕ

pub record PartitionState : Type 0 where
  pub source_identity : String
  pub backup_identity : String
  pub backup_prefix : String
  pub imported_identity : String
  pub objects : List String
  pub backup_ready : Bool
  pub import_in_progress : Bool
  pub watermark : String
  pub watermark_ready : Bool
  pub pending_delta : Option DeltaState
  pub updated_at : ℕ

pub record HourlyPending : Type 0 where
  pub from : String
  pub to : String
  pub prefix : String
  pub objects : List String
  pub backup_ready : Bool
  pub import_started : Bool
  pub label : String
  pub attempt : ℕ

pub record HourlyState : Type 0 where
  pub next : String
  pub pending : Option HourlyPending

pub data Json (A : Type 0) : Type 0 where
  json : A → Json A
  corrupt : Json A

pub record HourlyTask : Type 0 where
  pub pair : DatabasePair
  pub table : String
  pub time_field : String
  pub start : String
  pub time_zone : String
  pub last_error : String
  pub last_success_at : String

-- The interval is in seconds: a column of whole seconds keeps it.
pub record FullTableTask : Type 0 where
  pub pair : DatabasePair
  pub table : String
  pub interval : ℕ
  pub phase : String
  pub last_error : String
  pub last_success_at : String

-- The primary keys (source_db, target_db, table_name) and those with partition_name.
pub record TableKey : Type 0 where
  pub source : String
  pub target : String
  pub table : String

pub record PartitionKey : Type 0 where
  pub source : String
  pub target : String
  pub table : String
  pub partition : String

abbrev pub same_table : TableKey → TableKey → Bool
same_table a b = a.source == b.source && a.target == b.target && a.table == b.table

pub same_table_iff : (a b : TableKey) → (same_table a b ≡ true) ↔ (a ≡ b)
same_table_iff a b = (
  (λ h. ground (arith, eq_iff a.source b.source, eq_iff a.target b.target, eq_iff a.table b.table)),
  (λ e. ground (arith, eq_iff a.source b.source, eq_iff a.target b.target, eq_iff a.table b.table)),
)

instance abbrev pub table_key : Key TableKey
table_key = record { same = same_table; same_iff = same_table_iff }

abbrev pub same_partition : PartitionKey → PartitionKey → Bool
same_partition a b =
    a.source == b.source && a.target == b.target && a.table == b.table && a.partition == b.partition

pub same_partition_iff : (a b : PartitionKey) → (same_partition a b ≡ true) ↔ (a ≡ b)
same_partition_iff a b = (
  (λ h. ground (
    arith,
    eq_iff a.source b.source,
    eq_iff a.target b.target,
    eq_iff a.table b.table,
    eq_iff a.partition b.partition,
  )),
  (λ e. ground (
    arith,
    eq_iff a.source b.source,
    eq_iff a.target b.target,
    eq_iff a.table b.table,
    eq_iff a.partition b.partition,
  )),
)

instance abbrev pub partition_key : Key PartitionKey
partition_key = record { same = same_partition; same_iff = same_partition_iff }

abbrev pub key_of : DatabasePair → String → TableKey
key_of pair table = record { source = pair.source; target = pair.target; table = table }

-- The SQLite file.
pub record Disk : Type 0 where
  pub metadata : Table String String
  pub table_state : Table TableKey String
  pub table_inventory : Table TableKey ℕ
  pub partition_state : Table PartitionKey (Json PartitionState)
  pub hourly_state : Table TableKey (Json HourlyState)
  pub hourly_task : Table TableKey HourlyTask
  pub full_table_task : Table TableKey FullTableTask

-- `syncState` in memory, its maps keyed by `stateKey`, and the two fields of `syncer` that a cycle
-- changes: the partitions that it has seen, and the time of the next check (`none` is the zero time).
pub record Memory : Type 0 where
  pub tables : Table String String
  pub inventory : Table String ℕ
  pub partitions : Table String PartitionState
  pub mode : String
  pub time_field : String
  pub seen_partitions : List String
  pub next_version_check : Option ℕ
