-- ===== src/Status/Report.antt =====
-- status.go: what a report of the state file holds. The percentage is left out: it is the floating-point
-- quotient of the two counts beside it.
use doris_sync.Base.{ℕ, String, Bool, List}

pub record StatusTable : Type 0 where
  pub source_database : String
  pub target_database : String
  pub table : String
  pub total_partitions : ℕ
  pub inventory_known : Bool
  pub observed_partitions : ℕ
  pub current_partitions : ℕ
  pub incremental_monitoring : ℕ
  pub incremental_syncing : ℕ

pub record StatusPartition : Type 0 where
  pub source_database : String
  pub target_database : String
  pub table : String
  pub partition : String
  pub phase : String
  pub source_identity : String
  pub imported_identity : String
  pub backup_ready : Bool
  pub updated_at : ℕ

pub record StatusHourly : Type 0 where
  pub mode : String
  pub source_database : String
  pub target_database : String
  pub table : String
  pub time_field : String
  pub start : String
  pub time_zone : String
  pub next_start : String
  pub pending_end : String
  pub phase : String
  pub last_success_at : String
  pub last_error : String

pub record StatusFullTable : Type 0 where
  pub mode : String
  pub source_database : String
  pub target_database : String
  pub table : String
  pub interval : String
  pub phase : String
  pub last_success_at : String
  pub next_due_at : String
  pub last_error : String

pub record StatusReport : Type 0 where
  pub mode : String
  pub managed_tasks : Bool
  pub time_field : String
  pub time_zone : String
  pub hourly_start : String
  pub hourly_windows : List StatusHourly
  pub full_table_tasks : List StatusFullTable
  pub known_total_partitions : ℕ
  pub current_partitions : ℕ
  pub incremental_monitoring_count : ℕ
  pub incremental_syncing_count : ℕ
  pub tables : List StatusTable
  pub active_partitions : List StatusPartition
  pub incremental_syncing_partitions : List StatusPartition
