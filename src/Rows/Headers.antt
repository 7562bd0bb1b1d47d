-- ===== src/Rows/Headers.antt =====
-- database.go: no header of a row that the code sees has an underscore.
use doris_sync.Base.{String, ◌==◌, ◌≡◌, refl, true, false, none, some, List, [], ◌∷◌}
use doris_sync.Base.{All, arith, eq_iff, Bool-cases, inl, inr, ap}
use doris_sync.Base.Text.{has_char}
use doris_sync.Base.Text.Chars.{has_char-replace_self, has_char-replace, to_lower-underscore}
use doris_sync.Base.Table.{lookup, upsert, string_key}
use doris_sync.Rows.{RawRow, Row, normalize_header, scan_row, scan_rows}

abbrev pub Plain : Row → Type 0
Plain row = All (λ cell. has_char b'_' cell.0 ≡ false) row

pub normalize_header-underscore : (s : String) → has_char b'_' (normalize_header s) ≡ false
normalize_header-underscore s =
    unfold normalize_header in
    to_lower-underscore _ (has_char-replace b'_' b' ' _ (has_char-replace_self b'_' s))

upsert-Plain :
    (key value : String) (row : Row)
    → has_char b'_' key ≡ false
    → Plain row
    → Plain (upsert key value row)
unfolding upsert
upsert-Plain key value [] h p = (h, tt)
upsert-Plain key value ((k, v) ∷ row) h p = elim (Bool-cases (k == key)) [
  | inl same ↦ rw same (p.0, p.1)
  | inr other ↦ rw other (p.0, upsert-Plain key value row h p.1)
]

scan_row-Plain : (cells : RawRow) (row : Row) → Plain row → Plain (scan_row cells row)
unfolding scan_row
scan_row-Plain [] row p = p
scan_row-Plain ((header, none) ∷ cells) row p = scan_row-Plain cells row p
scan_row-Plain ((header, some value) ∷ cells) row p =
    scan_row-Plain cells _
      (upsert-Plain (normalize_header header) value row (normalize_header-underscore header) p)

pub scan_rows-Plain : (raw : List RawRow) → All Plain (scan_rows raw)
unfolding scan_rows
scan_rows-Plain [] = tt
scan_rows-Plain (row ∷ rows) = (scan_row-Plain row [] tt, scan_rows-Plain rows)

-- A header with an underscore is in no such row.
pub lookup-Plain :
    (key : String) (row : Row) → has_char b'_' key ≡ true → Plain row → lookup key row ≡ none
unfolding lookup
lookup-Plain key [] h p = refl
lookup-Plain key ((k, v) ∷ row) h p =
    ground (arith, eq_iff k key, ap (has_char b'_'), lookup-Plain key row)
