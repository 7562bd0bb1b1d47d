-- ===== src/Start/Usable.antt =====
-- config.go: what is known of options that `loadOptions` returns.
use doris_sync.Base.{◌≤◌, String, ◌==◌, true, false, not, ◌||◌, ◌&&◌, List, [], ◌∷◌}
use doris_sync.Base.{◌≡◌, refl, ◌≢◌, ◌⊎◌, inl, inr, arith, eq_iff, is_nil, is_some, ltb, All}
use doris_sync.Base.Text.{trim_slashes, to_lower, equal_fold}
use doris_sync.Base.Act.{Result, ok, err}
use doris_sync.Config.{DatabasePair, Options}
use doris_sync.Config.Names.{
  IsExact, Distinct, validate_partition_names, validate_partition_names_iff,
}
use doris_sync.Store.{is_unsafe_prefix, partition_prefix}
use doris_sync.Store.Prefix.{is_unsafe_prefix-partition_prefix}
use doris_sync.Clock.{Deps}
use doris_sync.Start.{Host, OnOk, OnOk-if, OnOk-refuse, OnOk-and_then, OnOk-chain, OnOk-elim}
use doris_sync.Start.Load.{
  minute, with_defaults, has_blank_pair, resolve_secrets, check_names, check_resolved,
  check_decoded, load_options, bad_pattern,
}

-- Names of partitions, if some are listed.
abbrev pub IsListing : Options → Type 0
IsListing o =
    (is_nil o.partitions ≡ true)
    ⊎ ((o.include_partitions ≡ "") × All IsExact o.partitions × Distinct o.partitions)

-- Both databases of each mapping are named.
abbrev pub Named : List DatabasePair → Type 0
Named pairs = All (λ pair. (pair.source ≢ "") × (pair.target ≢ "")) pairs

-- A pattern that is set compiles.
abbrev pub Compiles : Host → String → Type 0
Compiles host pattern = (pattern ≡ "") ⊎ (host.compiles pattern ≡ true)

-- Both ends name a host and a user.
abbrev pub Reachable : Options → Type 0
Reachable o =
    (o.source.host ≢ "") × (o.target.host ≢ "") × (o.source.user ≢ "") × (o.target.user ≢ "")

pub record IsUsable (host : Host) (deps : Deps) (o : Options) : Type 0 where
  pub reachable : Reachable o
  pub bucket : (o.s3.bucket ≢ "") × (o.s3.region ≢ "")
  pub rooted : trim_slashes o.s3.prefix ≢ ""
  pub patterns :
      Compiles host o.include_tables
      × Compiles host o.exclude_tables
      × Compiles host o.include_partitions
  pub located : is_some (deps.load_location o.time_zone) ≡ true
  pub some_pair : is_nil o.databases ≡ false
  pub named_pairs : Named o.databases
  pub static_keys : (o.s3.auth_mode ≡ "static") → (o.s3.access_key ≢ "") × (o.s3.secret_key ≢ "")
  pub auth_mode : (o.s3.auth_mode ≡ "static") ⊎ (o.s3.auth_mode ≡ "iam")
  pub listing : IsListing o
  pub interval : (o.interval ≡ "") ⊎ (60 ≤ deps.parse_duration o.interval)
  pub timeout : 60 ≤ deps.parse_duration o.metadata_timeout
  pub clears :
      (source_db target_db table name : String)
      → is_unsafe_prefix o.s3 (partition_prefix o.s3 source_db target_db table name) ≡ false

named_lem : (pairs : List DatabasePair) → has_blank_pair pairs ≡ false → Named pairs
unfolding has_blank_pair
named_lem [] h = tt
named_lem (pair ∷ pairs) h =
    ground (arith, eq_iff pair.source "", eq_iff pair.target "", named_lem pairs)

static_lem : equal_fold "static" "static" ≡ true
unfolding equal_fold
static_lem = (eq_iff (to_lower "static") (to_lower "static")).1 refl

module _ (host : Host) (deps : Deps) where
  -- What the checks before the secrets say.
  record Checked (o : Options) : Type 0 where
    reachable : Reachable o
    bucket : (o.s3.bucket ≢ "") × (o.s3.region ≢ "")
    located : is_some (deps.load_location o.time_zone) ≡ true
    some_pair : is_nil o.databases ≡ false
    named_pairs : Named o.databases
    rooted : (trim_slashes o.s3.prefix == "") ≡ false

  reachable_lem :
      (o : Options)
      → (o.source.host == "" || o.target.host == "" || o.source.user == "" || o.target.user == "")
        ≡ false
      → Reachable o
  reachable_lem o h = ground (
    arith,
    eq_iff o.source.host "",
    eq_iff o.target.host "",
    eq_iff o.source.user "",
    eq_iff o.target.user "",
    h,
  )

  bucket_lem :
      (o : Options)
      → (o.s3.bucket == "" || o.s3.region == "") ≡ false
      → (o.s3.bucket ≢ "") × (o.s3.region ≢ "")
  bucket_lem o h = ground (arith, eq_iff o.s3.bucket "", eq_iff o.s3.region "", h)

  pattern_lem : (pattern : String) → bad_pattern host deps pattern ≡ false → Compiles host pattern
  pattern_lem pattern h = ground (arith, eq_iff pattern "", h)

  root_lem :
      (o : Options) → (trim_slashes o.s3.prefix == "") ≡ false → trim_slashes o.s3.prefix ≢ ""
  root_lem o h = ground (arith, eq_iff (trim_slashes o.s3.prefix) "", h)

  decoded_lem : (o : Options) → OnOk (λ _. Checked o) (check_decoded host deps o)
  unfolding check_decoded
  decoded_lem o = OnOk-refuse _ _ _ λ zone. OnOk-refuse _ _ _ λ ends. OnOk-refuse _ _ _ λ pairs.
      OnOk-refuse _ _ _ λ blank. OnOk-refuse _ _ _ λ bucket. OnOk-refuse _ _ _ λ root. record {
        holds = record {
          reachable = reachable_lem o ends;
          bucket = bucket_lem o bucket;
          located = ground (arith, zone);
          some_pair = pairs;
          named_pairs = named_lem o.databases blank;
          rooted = root;
        };
      }

  abbrev Kept : Options → Options → Type 0
  Kept o o' =
      (o'.time_zone ≡ o.time_zone)
      × (o'.databases ≡ o.databases)
      × (o'.s3.prefix ≡ o.s3.prefix)
      × ((o'.source.host ≡ o.source.host)
          × (o'.target.host ≡ o.target.host)
          × (o'.source.user ≡ o.source.user)
          × (o'.target.user ≡ o.target.user))
      × ((o'.s3.bucket ≡ o.s3.bucket) × (o'.s3.region ≡ o.s3.region))

  secrets_lem : (o : Options) → OnOk (Kept o) (resolve_secrets host deps o)
  unfolding resolve_secrets
  secrets_lem o = OnOk-and_then _ _ λ _ _. OnOk-and_then _ _ λ _ _. OnOk-and_then _ _ λ _ _.
      OnOk-and_then _ _
        λ _ _. record { holds = (refl, refl, refl, (refl, refl, refl, refl), (refl, refl)) }

  listing_lem : (o : Options) → OnOk (λ _. IsListing o) (check_names host deps o)
  unfolding check_names
  listing_lem o =
      OnOk-if (is_nil o.partitions) _ _ (λ none'. record { holds = inl none' })
        λ _. OnOk-refuse _ _ _ λ free. names free (validate_partition_names o.partitions) refl
    where
      names :
          not (o.include_partitions == "") ≡ false
          → (r : Result (Unit {0})) → validate_partition_names o.partitions ≡ r
          → OnOk (λ _. IsListing o) r
      names free (ok _) eq =
          let good = (validate_partition_names_iff o.partitions).0 eq in
          record {
            holds = inr (ground (arith, eq_iff o.include_partitions "", free), good.0, good.1);
          }
      names free (err e) eq = record { holds = tt }
      names free Result.killed eq = record { holds = tt }

  keys_lem :
      (o : Options)
      → (equal_fold o.s3.auth_mode "static" && (o.s3.access_key == "" || o.s3.secret_key == ""))
        ≡ false
      → (o.s3.auth_mode ≡ "static")
      → (o.s3.access_key ≢ "") × (o.s3.secret_key ≢ "")
  keys_lem o h static =
      let same : equal_fold o.s3.auth_mode "static" ≡ true = rw static static_lem in
      ground (arith, eq_iff o.s3.access_key "", eq_iff o.s3.secret_key "", h, same)

  mode_lem :
      (o : Options)
      → (not (o.s3.auth_mode == "static") && not (o.s3.auth_mode == "iam")) ≡ false
      → (o.s3.auth_mode ≡ "static") ⊎ (o.s3.auth_mode ≡ "iam")
  mode_lem o h = ground (arith, eq_iff o.s3.auth_mode "static", eq_iff o.s3.auth_mode "iam", h)

  interval_lem :
      (o : Options)
      → (not (o.interval == "") && ltb (deps.parse_duration o.interval) minute) ≡ false
      → (o.interval ≡ "") ⊎ (60 ≤ deps.parse_duration o.interval)
  interval_lem o h = ground (arith, eq_iff o.interval "", h)

  resolved_lem : (o : Options) → Checked o → OnOk (IsUsable host deps) (check_resolved host deps o)
  unfolding check_resolved
  resolved_lem o checked = OnOk-refuse _ _ _ λ keys. OnOk-refuse _ _ _ λ mode.
      OnOk-refuse _ _ _ λ tables. OnOk-refuse _ _ _ λ excluded. OnOk-refuse _ _ _ λ parts.
        OnOk-chain _ _ (listing_lem o) λ _ _ listing. OnOk-refuse _ _ _ λ often.
          OnOk-refuse _ _ _ λ long. record {
            holds = record {
              reachable = checked.reachable;
              bucket = checked.bucket;
              rooted = root_lem o checked.rooted;
              patterns = (
                pattern_lem o.include_tables tables,
                pattern_lem o.exclude_tables excluded,
                pattern_lem o.include_partitions parts,
              );
              located = checked.located;
              some_pair = checked.some_pair;
              named_pairs = checked.named_pairs;
              static_keys = keys_lem o keys;
              auth_mode = mode_lem o mode;
              listing = listing;
              interval = interval_lem o often;
              timeout = ground (arith, long);
              clears = λ s t table name.
                  rw (is_unsafe_prefix-partition_prefix o.s3 s t table name) checked.rooted;
            };
          }

  -- Options that loadOptions returns have a host and a user for both ends, a bucket and a region, a
  -- prefix that is not empty, table and partition patterns that compile where they are set, a time zone that exists, at least one mapping and no
  -- mapping with an unnamed database, a mode of authentication that is known and, for static keys,
  -- both keys, no list of partitions, or a list of exact names, none twice, with no pattern beside it,
  -- an interval and a metadata timeout of at least a minute, and a prefix under which the guard of
  -- clear refuses no partition.
  pub load_options-IsUsable :
      (decoded o : Options) → load_options host deps decoded ≡ ok o → IsUsable host deps o
  unfolding load_options
  load_options-IsUsable decoded o = OnOk-elim _ o (
      OnOk-chain _ _ (decoded_lem (with_defaults decoded)) λ _ _ checked.
        OnOk-chain _ _ (secrets_lem (with_defaults decoded)) λ o' _ kept. resolved_lem o' (record {
          reachable = let ends = kept.3 in rw (ends.0, ends.1, ends.2, ends.3) checked.reachable;
          bucket = rw (kept.4.0, kept.4.1) checked.bucket;
          located = rw kept.0 checked.located;
          some_pair = rw kept.1 checked.some_pair;
          named_pairs = rw kept.1 checked.named_pairs;
          rooted = rw kept.2 checked.rooted;
        }))
