-- ===== src/Tests/Values.antt =====
-- Texts, names and partitions at concrete inputs.
use doris_sync.Sql.{sql_string}
use doris_sync.Base.{ℕ}
use doris_sync.Sql.Create.{closing_paren, drop_chars}
use doris_sync.Sql.Create.Closing.{Quoted, Nested, closing_paren-Nested}
use doris_sync.Sql.Escape.{read_string, read-sql_string}
use doris_sync.Database.{Column}
use doris_sync.Columns.{validate_target_columns}
use doris_sync.Columns.Alike.{Alike, validate_target_columns_iff}
use doris_sync.Base.{◌<>◌, ◌==◌, false, some, [], ◌∷◌}
use doris_sync.Base.{String, ◌≡◌, refl, ◌⊎◌, ◌↔◌, arith, All, IsIn}
use doris_sync.Base.Table.{string_key}
use doris_sync.Base.Text.{has_char, trim_slashes}
use doris_sync.Base.Act.{ok}
use doris_sync.Config.Names.{
  validate_partition_names, validate_partition_names_iff, IsExact, Distinct,
}
use doris_sync.Sql.{ident, sql_literal}
use doris_sync.Sql.Quote.{read_quoted, read-ident}
use doris_sync.Sql.Literal.{read_literal, read-sql_literal}
use doris_sync.State.Keys.{state_key, split_state_key, split-state_key}
use doris_sync.Base.Text.{count_char}
use doris_sync.Base.{◌+◌}
use doris_sync.Store.{partition_prefix, is_unsafe_prefix}
use doris_sync.Store.Prefix.{count_char-partition_prefix, is_unsafe_prefix-partition_prefix}
use doris_sync.Database.Range.{partition_range_bounds}
use doris_sync.Database.Match.{match_target_partition, match_loop, chosen, other_bounds, bounds}
use doris_sync.Database.Matching.{
  match_target_partition_sound, match_target_partition-IsRefused, IsRange, IsName, IsRefused,
}
use doris_sync.State.{table_key}
use doris_sync.Base.Text.{has_char}
use doris_sync.OverwritePlan.{validate_overwrite_plan}
use doris_sync.OverwritePlan.Valid.{IsPlain, IsItem, Apart, validate_overwrite_plan_iff}
use doris_sync.Tests.{item, plan, pair, s3, part, renamed}

split-state_key_example :
    split_state_key (state_key "app" "copy" "events" "p1")
    ≡ ok ("app" ∷ "copy" ∷ "events" ∷ "p1" ∷ [])
unfolding has_char
split-state_key_example = split-state_key "app" "copy" "events" "p1" refl refl refl refl

validate_partition_names_iff_example :
    (validate_partition_names ("p1" ∷ "p2" ∷ []) ≡ ok tt)
    ↔ (All IsExact ("p1" ∷ "p2" ∷ []) × Distinct ("p1" ∷ "p2" ∷ []))
validate_partition_names_iff_example = validate_partition_names_iff ("p1" ∷ "p2" ∷ [])

read-ident_example : read_quoted "`" (ident "a`b" <> ".t") ≡ some ("a`b", ".t")
read-ident_example = read-ident "a`b" ".t" refl

read-sql_literal_example : read_literal (sql_literal "it's" <> ")") ≡ some ("it's", ")")
unfolding has_char
read-sql_literal_example = read-sql_literal "it's" ")" refl refl

count_char-partition_prefix_example :
    count_char b'/' (partition_prefix s3 "app" "copy" "a/b" "p1")
    ≡ count_char b'/' (trim_slashes s3.prefix) + 5
count_char-partition_prefix_example = count_char-partition_prefix s3 "app" "copy" "a/b" "p1"

is_unsafe_prefix-partition_prefix_example :
    is_unsafe_prefix s3 (partition_prefix s3 "app" "copy" "events" "p1")
    ≡ (trim_slashes s3.prefix == "")
is_unsafe_prefix-partition_prefix_example =
    is_unsafe_prefix-partition_prefix s3 "app" "copy" "events" "p1"

match_target_partition_sound_example :
    IsIn renamed (renamed ∷ [])
    × (IsRange part renamed
        ⊎ (IsName part renamed × (other_bounds (bounds renamed) (bounds part) ≡ false)))
unfolding match_target_partition match_loop chosen partition_range_bounds
match_target_partition_sound_example = match_target_partition_sound part (renamed ∷ []) renamed refl

match_target_partition-IsRefused_example :
    IsRefused part (match_target_partition part (renamed ∷ part ∷ []))
unfolding partition_range_bounds
match_target_partition-IsRefused_example =
    match_target_partition-IsRefused part (renamed ∷ part ∷ []) (omega arith)

read-sql_string_example : read_string (sql_string "a\"b" <> ",") ≡ some ("a\"b", ",")
read-sql_string_example = read-sql_string "a\"b" ","

abbrev stamp : String → Column
stamp kind = record { name = "ts"; type = kind }

validate_target_columns_iff_example :
    (validate_target_columns (stamp "datetime" ∷ []) (stamp "DATETIME" ∷ []) ≡ ok tt)
    ↔ Alike (stamp "datetime" ∷ []) (stamp "DATETIME" ∷ [])
validate_target_columns_iff_example =
    validate_target_columns_iff (stamp "datetime" ∷ []) (stamp "DATETIME" ∷ [])

item-IsPlain : All IsPlain (item ∷ [])
unfolding has_char
item-IsPlain = (record { source = refl; target = refl; table = refl }, tt)

validate_overwrite_plan_iff_example :
    (validate_overwrite_plan plan (pair ∷ []) ≡ ok tt)
    ↔ ((false ≡ false) × All (IsItem (pair ∷ [])) (item ∷ []) × Apart [] (item ∷ []))
validate_overwrite_plan_iff_example = validate_overwrite_plan_iff plan (pair ∷ []) item-IsPlain

-- (f(')'))
in_parentheses : Nested "f(')'))" ")"
in_parentheses =
    Nested.letter "f" _ _ refl (λ e. cc e) (λ e. cc e)
      (Nested.pair "(" ")" _ _ _ refl refl
        (Nested.quoted "'" _ _ _ refl
          (Quoted.plain ")" _ _ (λ e. cc e) (λ e. cc e) (Quoted.ends "'" _ refl refl))
          (Nested.nothing _))
        (Nested.nothing _))

closing_paren-Nested_example :
    (i : ℕ) × (closing_paren "(f(')'))" ≡ ok i) × (drop_chars i "(f(')'))" ≡ ")")
closing_paren-Nested_example = closing_paren-Nested "(" ")" "f(')'))" "" refl refl in_parentheses
