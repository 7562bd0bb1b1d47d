-- ===== src/Database.antt =====
-- database.go: metadata queries, what they return, and the matching of partitions. Opening a
-- connection is not here.
pub mod Match
pub mod Matching
pub mod Range
pub mod Keeps
pub mod Attempts
use doris_sync.Base.{
  ℕ, zero, suc, String, ◌<>◌, ◌==◌, Bool, true, false, List, [], ◌∷◌, Option, none,
}
use doris_sync.Base.{some, ◌&&◌, ◌||◌, not, if◌then◌else◌, is_nil}
use doris_sync.Base.Text.{str_lt, has_text, to_lower}
use doris_sync.Base.Table.{lookup, string_key}
use doris_sync.Base.Act.{Err, errorf, wrap, Kind, Result, ok, err, Act, attempt, pure, fail, ◌>>=◌}
use doris_sync.Sql.{ident, qtable, sort_texts}
use doris_sync.Rows.{Row}
use doris_sync.World.{World, Env, Side, query, context_done}
use Range.{Partition, range_order_key}

pub record Column : Type 0 where
  pub name : String
  pub type : String

abbrev is_deadline : Err → Bool
is_deadline e = elim e.kind [ Kind.deadline ↦ true | _ ↦ false ]

-- row[header]
abbrev pub field : String → Row → String
field header row = elim (lookup header row) [ none ↦ "" | some value ↦ value ]

prepend : Partition → Result (List Partition) → Result (List Partition)
prepend p (ok ps) = ok (p ∷ ps)
prepend p r = r

-- A version is a number of 64 bits: strconv.ParseInt is a parameter.
module _ (env : Env) (is_int64 : String → Bool) where
  -- The attempts that are left.
  unfoldable pub query_attempts : Side → String → ℕ → Err → Act World (List Row)
  unfolding query context_done
  query_attempts side statement zero last =
      fail (wrap ("metadata query timed out after 3 attempts: " <> (statement <> ": ")) last)
  query_attempts side statement (suc n) last =
      let again = query_attempts side statement n in
      attempt (query env side statement) pure
        λ e. do done ← context_done env; if done || not (is_deadline e) then fail e else again e

  unfoldable pub query_metadata : Side → String → Act World (List Row)
  unfolding query_attempts
  query_metadata side statement = query_attempts side statement 3 (errorf "")

  first_values : List Row → List String
  first_values [] = []
  first_values ([] ∷ rows) = first_values rows
  first_values ((value ∷ cells) ∷ rows) = value.1 ∷ first_values rows

  unfoldable pub tables : Side → String → Act World (List String)
  unfolding query_metadata first_values sort_texts ident
  tables side database_name = do
    rows ← query_metadata side ("SHOW TABLES FROM " <> ident database_name)
    pure (sort_texts (first_values rows))

  single_ddl : List Row → Act World String
  single_ddl (row ∷ []) =
      if field "createtable" row == ""
      then fail (errorf "SHOW CREATE TABLE has no Create Table field")
      else pure (field "createtable" row)
  single_ddl rows = fail (errorf "SHOW CREATE TABLE returned a number of rows other than 1")

  unfoldable pub create_table_sql : Side → String → String → Act World String
  unfolding query_metadata single_ddl qtable lookup
  create_table_sql side db table = do
    rows ← query_metadata side ("SHOW CREATE TABLE " <> qtable db table)
    single_ddl rows

  described : List Row → List Column
  described [] = []
  described (row ∷ rows) =
      let rest = described rows in
      if field "field" row == ""
      then rest
      else record { name = field "field" row; type = field "type" row } ∷ rest

  nonempty_columns : List Column → Act World (List Column)
  nonempty_columns [] = fail (errorf "DESC returned no columns")
  nonempty_columns (c ∷ cs) = pure (c ∷ cs)

  unfoldable pub columns : Side → String → String → Act World (List Column)
  unfolding query_metadata described nonempty_columns qtable lookup
  columns side db table = do
    rows ← query_metadata side ("DESC " <> qtable db table)
    nonempty_columns (described rows)

  abbrev partition_of : Row → Partition
  partition_of row = record {
    name = field "partitionname" row;
    version = field "visibleversion" row;
    id = field "partitionid" row;
    range = field "range" row;
  }

  read_partitions : List Row → Result (List Partition)
  unfolding prepend
  read_partitions [] = ok []
  read_partitions (row ∷ rows) =
      let rest = read_partitions rows in
      if field "partitionname" row == "" || field "visibleversion" row == ""
      then err (errorf "SHOW PARTITIONS lacks PartitionName or VisibleVersion")
      else if is_int64 (field "visibleversion" row)
      then prepend (partition_of row) rest
      else err (errorf "invalid VisibleVersion")

  -- The order of sort.Slice: by range, then by name.
  unfoldable pub comes_before : Partition → Partition → Bool
  unfolding range_order_key str_lt
  comes_before a b =
      if range_order_key a == range_order_key b
      then str_lt a.name b.name
      else str_lt (range_order_key a) (range_order_key b)

  insert_partition : Partition → List Partition → List Partition
  unfolding comes_before
  insert_partition p [] = p ∷ []
  insert_partition p (q ∷ qs) = if comes_before q p then q ∷ insert_partition p qs else p ∷ q ∷ qs

  unfoldable pub sort_partitions : List Partition → List Partition
  unfolding insert_partition
  sort_partitions [] = []
  sort_partitions (p ∷ ps) = insert_partition p (sort_partitions ps)

  unfoldable pub partitions : Side → String → String → Act World (List Partition)
  unfolding query_metadata read_partitions sort_partitions qtable lookup
  partitions side db table = do
    rows ← query_metadata side ("SHOW PARTITIONS FROM " <> qtable db table)
    found ← λ w. (read_partitions rows, w)
    pure (sort_partitions found)

-- Does the text of an error speak of an asynchronous materialized view?
unfoldable pub is_async_view : Err → Bool
unfolding has_text to_lower
is_async_view e =
    has_text (to_lower e.message) "show create materialized view"
    || has_text (to_lower e.message) "async materialized view"
