-- ===== src/Sql.antt =====
-- sql.go: the texts of the statements. Create rewrites a CREATE TABLE statement.
pub mod Quote
pub mod Literal
pub mod Escape
pub mod Create
use doris_sync.Base.{String, ◌<>◌, ◌==◌, Bool, true, false, List, [], ◌∷◌, map, Option, none, some}
use doris_sync.Base.{if◌then◌else◌, not}
use doris_sync.Base.Text.{replace_char, join, str_lt}
use doris_sync.Base.Table.{Table, upsert, lookup, string_key}
use doris_sync.Config.{S3Options}

unfoldable pub ident : String → String
unfolding replace_char
ident s = "`" <> (replace_char b'`' "``" s <> "`")

unfoldable pub qtable : String → String → String
unfolding ident
qtable db table = ident db <> ("." <> ident table)

unfoldable pub sql_literal : String → String
unfolding replace_char
sql_literal s = "'" <> (replace_char b'\'' "''" s <> "'")

unfoldable pub sql_string : String → String
unfolding replace_char
sql_string s = "\"" <> (replace_char b'"' "\\\"" (replace_char b'\\' "\\\\" s) <> "\"")

-- sort.Strings
unfoldable pub insert_text : String → List String → List String
insert_text x [] = x ∷ []
insert_text x (y ∷ ys) = if str_lt y x then y ∷ insert_text x ys else x ∷ y ∷ ys

unfoldable pub sort_texts : List String → List String
unfolding insert_text str_lt
sort_texts [] = []
sort_texts (x ∷ xs) = insert_text x (sort_texts xs)

abbrev Props : Type 0
Props = Table String String

-- A missing key of a map reads as "".
abbrev text_at : String → Props → String
text_at key props = elim (lookup key props) [ none ↦ "" | some value ↦ value ]

unfoldable pub s3_sql_properties : S3Options → Props
unfolding upsert
s3_sql_properties cfg =
    let region : Props = ("s3.region", cfg.region) ∷ [] in
    let located = if cfg.endpoint == "" then region else upsert "s3.endpoint" cfg.endpoint region in
    if cfg.auth_mode == "static"
    then upsert "s3.secret_key" cfg.secret_key (upsert "s3.access_key" cfg.access_key located)
    else if cfg.role_arn == ""
    then located
    else upsert "s3.role_arn" cfg.role_arn located

unfoldable pub sql_properties : Props → String
unfolding sort_texts sql_string lookup
sql_properties props = join ", " (
    map (λ key. sql_string key <> (" = " <> sql_string (text_at key props)))
      (sort_texts (map (λ row. row.0) props)))

unfoldable pub outfile_select_sql : String → String → List String → String → S3Options → String
unfolding ident sql_string s3_sql_properties sql_properties upsert join
outfile_select_sql from uri columns where_clause cfg =
    "SELECT "
    <> (join ", " (map ident columns)
        <> (" FROM "
            <> (from
                <> (where_clause
                    <> (" INTO OUTFILE "
                        <> (sql_string uri
                            <> (" FORMAT AS PARQUET PROPERTIES ("
                                <> (sql_properties (
                                      upsert "max_file_size" cfg.max_file_size
                                        (s3_sql_properties cfg))
                                    <> ")"))))))))

unfoldable pub outfile_where_sql :
    String → String → String → String → List String → String → S3Options → String
unfolding outfile_select_sql qtable ident
outfile_where_sql db table partition uri columns where_clause cfg =
    outfile_select_sql (qtable db table <> (" PARTITION(" <> (ident partition <> ")"))) uri columns
      where_clause cfg

unfoldable pub outfile_sql : String → String → String → String → List String → S3Options → String
unfolding outfile_where_sql
outfile_sql db table partition uri columns cfg =
    outfile_where_sql db table partition uri columns "" cfg

unfoldable pub outfile_table_where_sql :
    String → String → String → List String → String → S3Options → String
unfolding outfile_select_sql qtable
outfile_table_where_sql db table uri columns where_clause cfg =
    outfile_select_sql (qtable db table) uri columns where_clause cfg

unfoldable pub import_labeled_sql :
    String → String → String → List String → String → S3Options → String
unfolding qtable ident join s3_sql_properties sql_properties upsert
import_labeled_sql db table uri columns label cfg =
    let props = upsert "format" "parquet" (upsert "uri" uri (s3_sql_properties cfg)) in
    let quoted = join ", " (map ident columns) in
    "INSERT INTO "
    <> (qtable db table
        <> ((if label == "" then "" else " WITH LABEL " <> ident label)
            <> (" ("
                <> (quoted
                    <> (") SELECT "
                        <> (quoted <> (" FROM s3(" <> (sql_properties props <> ")"))))))))

unfoldable pub import_sql : String → String → String → List String → S3Options → String
unfolding import_labeled_sql
import_sql db table uri columns cfg = import_labeled_sql db table uri columns "" cfg

unfoldable pub overwrite_select_sql :
    String → String → String → String → List String → Bool → S3Options → String
unfolding qtable ident join s3_sql_properties sql_properties upsert
overwrite_select_sql db table partition_clause uri columns empty cfg =
    let quoted = join ", " (map ident columns) in
    let props = upsert "format" "parquet" (upsert "uri" uri (s3_sql_properties cfg)) in
    "INSERT OVERWRITE TABLE "
    <> (qtable db table
        <> (partition_clause
            <> (" ("
                <> (quoted
                    <> (") SELECT "
                        <> (quoted
                            <> (if empty
                                then " FROM " <> (qtable db table <> " WHERE 1 = 0")
                                else " FROM s3(" <> (sql_properties props <> ")"))))))))

unfoldable pub overwrite_sql :
    String → String → String → String → List String → Bool → S3Options → String
unfolding overwrite_select_sql ident
overwrite_sql db table partition uri columns empty cfg =
    overwrite_select_sql db table (" PARTITION(" <> (ident partition <> ")")) uri columns empty cfg

unfoldable pub overwrite_auto_partition_sql :
    String → String → String → List String → S3Options → String
unfolding overwrite_select_sql
overwrite_auto_partition_sql db table uri columns cfg =
    overwrite_select_sql db table " PARTITION(*)" uri columns false cfg

unfoldable pub overwrite_table_sql :
    String → String → String → List String → Bool → S3Options → String
unfolding overwrite_select_sql
overwrite_table_sql db table uri columns empty cfg =
    overwrite_select_sql db table "" uri columns empty cfg
