-- ===== src/Start/Load.antt =====
-- config.go: `loadOptions` behind the decoding of its JSON, and `resolveSecret`.
use doris_sync.Base.{
  ℕ, String, ◌<>◌, ◌==◌, Bool, true, false, not, ◌||◌, ◌&&◌, List, [], ◌∷◌, Option, none, some,
}
use doris_sync.Base.{is_nil, is_some, eqb, ltb, if◌then◌else◌}
use doris_sync.Base.Text.{trim_slashes, has_prefix, trim_prefix, has_suffix, equal_fold}
use doris_sync.Base.Act.{errorf, Result, ok, err}
use doris_sync.Config.{Endpoint, DatabasePair, Options}
use doris_sync.Config.Names.{validate_partition_names}
use doris_sync.Clock.{Deps}
use doris_sync.Start.{refuse, and_then, Host}

-- strings.TrimSuffix
unfoldable pub trim_suffix : String → String → String
trim_suffix String.[] t = ""
trim_suffix (String.◌∷◌ c s) t =
    let rest = trim_suffix s t in if String.◌∷◌ c s == t then "" else String.◌∷◌ c rest

abbrev pub or_default : String → String → String
or_default value default = if value == "" then default else value

abbrev pub with_port : Endpoint → Endpoint
with_port e = record e { port = if eqb e.port 0 then 9030 else e.port }

unfoldable pub with_defaults : Options → Options
with_defaults o = record o {
  source = with_port o.source;
  target = with_port o.target;
  state_file = or_default o.state_file "partition-sync-state.db";
  interval = or_default o.interval "1h";
  metadata_timeout = or_default o.metadata_timeout "10m";
  time_zone = or_default o.time_zone "UTC";
  s3 = record o.s3 {
    max_file_size = or_default o.s3.max_file_size "1024MB";
    auth_mode = or_default o.s3.auth_mode "static";
  };
}

-- An unset variable, and one that is empty.
abbrev pub secret_value : String → Option String → Result String
secret_value name none = err (errorf ("environment variable " <> (name <> " is empty or unset")))
secret_value name (some value) =
    refuse (value == "") ("environment variable " <> (name <> " is empty or unset")) (ok value)

-- time.Minute
abbrev pub minute : ℕ
minute = 60

unfoldable pub has_blank_pair : List DatabasePair → Bool
has_blank_pair [] = false
has_blank_pair (pair ∷ pairs) =
    let rest = has_blank_pair pairs in if pair.source == "" || pair.target == "" then true else rest

module _ (host : Host) (deps : Deps) where
  unfoldable pub resolve_secret : String → Result String
  unfolding has_prefix has_suffix trim_prefix trim_suffix
  resolve_secret value =
      if not (has_prefix value "${") || not (has_suffix value "}")
      then ok value
      else let name = trim_suffix (trim_prefix value "${") "}" in
        secret_value name (host.lookup_env name)

  -- The loop over the four secrets.
  unfoldable pub resolve_secrets : Options → Result Options
  resolve_secrets o = and_then (resolve_secret o.source.password) λ source_password.
      and_then (resolve_secret o.target.password) λ target_password.
        and_then (resolve_secret o.s3.access_key) λ access_key.
          and_then (resolve_secret o.s3.secret_key) λ secret_key. ok (record o {
            source = record o.source { password = source_password };
            target = record o.target { password = target_password };
            s3 = record o.s3 { access_key = access_key; secret_key = secret_key };
          })

  -- A pattern that is set has to compile.
  abbrev pub bad_pattern : String → Bool
  bad_pattern pattern = not (pattern == "") && not (host.compiles pattern)

  -- The checks on the partitions that are listed.
  unfoldable pub check_names : Options → Result (Unit {0})
  check_names o =
      if is_nil o.partitions
      then ok tt
      else refuse (not (o.include_partitions == ""))
          "partitions and includePartitions cannot both be set"
          (validate_partition_names o.partitions)

  -- The checks behind the secrets.
  unfoldable pub check_resolved : Options → Result Options
  check_resolved o =
      refuse
        (equal_fold o.s3.auth_mode "static" && (o.s3.access_key == "" || o.s3.secret_key == ""))
        "static s3 auth requires accessKey and secretKey"
        (refuse (not (o.s3.auth_mode == "static") && not (o.s3.auth_mode == "iam"))
          "unsupported s3 authMode"
          (refuse (bad_pattern o.include_tables) "includeTables" (
            refuse (bad_pattern o.exclude_tables) "excludeTables" (
              refuse (bad_pattern o.include_partitions) "includePartitions" (
                and_then (check_names o) λ _.
                  refuse (not (o.interval == "") && ltb (deps.parse_duration o.interval) minute)
                    "interval must be a duration of at least 1m"
                    (refuse (ltb (deps.parse_duration o.metadata_timeout) minute)
                      "metadataTimeout must be a duration of at least 1m" (ok o)))))))

  -- The checks on what was decoded, with its defaults.
  unfoldable pub check_decoded : Options → Result (Unit {0})
  check_decoded o = refuse (not (is_some (deps.load_location o.time_zone))) "timeZone" (
      refuse
        (o.source.host == "" || o.target.host == "" || o.source.user == "" || o.target.user == "")
        "source and target host/user are required"
        (refuse (is_nil o.databases) "at least one databases mapping is required" (
          refuse (has_blank_pair o.databases) "each databases mapping needs source and target" (
            refuse (o.s3.bucket == "" || o.s3.region == "") "s3 bucket and region are required" (
              refuse (trim_slashes o.s3.prefix == "")
                "s3 prefix must be a nonempty dedicated directory" (ok tt))))))

  unfoldable pub load_options : Options → Result Options
  load_options decoded =
      let o = with_defaults decoded in
      and_then (check_decoded o)
        λ _. and_then (resolve_secrets o) λ resolved. check_resolved resolved
