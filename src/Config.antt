-- ===== src/Config.antt =====
-- config.go: the configuration records, and the checks on partition names and filters.
pub mod Names
use doris_sync.Base.{ℕ, String, ◌==◌, starts_with, Bool, true, false, List, [], ◌∷◌, is_nil, not}
use doris_sync.Base.{contains, if◌then◌else◌, ◌||◌, ◌&&◌}

pub record Endpoint : Type 0 where
  pub host : String
  pub port : ℕ
  pub user : String
  pub password : String
  pub cluster : String
  pub session : List String

pub record DatabasePair : Type 0 where
  pub source : String
  pub target : String

pub record S3Options : Type 0 where
  pub bucket : String
  pub prefix : String
  pub region : String
  pub endpoint : String
  pub client_endpoint : String
  pub path_style : Bool
  pub auth_mode : String
  pub access_key : String
  pub secret_key : String
  pub role_arn : String
  pub max_file_size : String

pub record Options : Type 0 where
  pub source : Endpoint
  pub target : Endpoint
  pub databases : List DatabasePair
  pub s3 : S3Options
  pub state_file : String
  pub include_tables : String
  pub exclude_tables : String
  pub include_partitions : String
  pub partitions : List String
  pub metadata_timeout : String
  pub interval : String
  pub hourly_start : String
  pub time_zone : String
  pub managed_tasks : Bool
  pub force_overwrite : Bool

-- The filters, over the matcher of the regular expressions that the user writes:
-- `matches pattern name` is regexp.MustCompile(pattern).MatchString(name).
module _ (matches : String → String → Bool) where
  unfoldable pub allows_table : Options → String → Bool
  allows_table o name =
      if not (o.include_tables == "") && not (matches o.include_tables name)
      then false
      else o.exclude_tables == "" || not (matches o.exclude_tables name)

  unfoldable pub allows_partition : Options → String → Bool
  allows_partition o name =
      if is_nil o.partitions
      then o.include_partitions == "" || matches o.include_partitions name
      else contains o.partitions name
