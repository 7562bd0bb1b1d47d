-- ===== src/Rows.antt =====
-- database.go: how a row of a result becomes a map from headers to values.
pub mod Headers
use doris_sync.Base.{String, ◌≡◌, refl, Option, none, some, List, [], ◌∷◌, false}
use doris_sync.Base.Text.{to_lower, replace_char}
use doris_sync.Base.Table.{Table, upsert, string_key}

-- A row of a result as the driver gives it, NULL as `none`, and the map that the code keeps.
abbrev pub RawRow : Type 0
RawRow = List (String × Option String)

abbrev pub Row : Type 0
Row = Table String String

unfoldable pub normalize_header : String → String
unfolding to_lower replace_char
normalize_header s = to_lower (replace_char b' ' "" (replace_char b'_' "" s))

unfoldable pub scan_row : RawRow → Row → Row
unfolding normalize_header upsert
scan_row [] entry = entry
scan_row ((header, none) ∷ cells) entry = scan_row cells entry
scan_row ((header, some value) ∷ cells) entry =
    scan_row cells (upsert (normalize_header header) value entry)

unfoldable pub scan_rows : List RawRow → List Row
unfolding scan_row
scan_rows [] = []
scan_rows (row ∷ rows) = scan_row row [] ∷ scan_rows rows
