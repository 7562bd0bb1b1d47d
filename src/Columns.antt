-- ===== src/Columns.antt =====
-- incremental.go, hourly.go, main.go: the checks on the columns of a table.
pub mod Alike
use doris_sync.Base.{String, ◌==◌, Bool, true, false, List, [], ◌∷◌, not, ◌&&◌, if◌then◌else◌}
use doris_sync.Base.{eqb, length}
use doris_sync.Base.Text.{to_upper, has_prefix, equal_fold}
use doris_sync.Base.Act.{errorf, Result, ok, err, killed}
use doris_sync.Database.{Column}

unfoldable pub validate_time_field : List Column → String → Result (Unit {0})
unfolding equal_fold to_upper has_prefix
validate_time_field [] name = err (errorf "--time-field is absent from source table")
validate_time_field (col ∷ cols) name =
    if equal_fold col.name name
    then (if has_prefix (to_upper col.type) "DATE"
        then ok tt
        else err (errorf "--time-field must be DATE or DATETIME"))
    else validate_time_field cols name

-- The loop of `validateHourlyTimeField`: some column of the name is a DATETIME.
unfoldable pub has_datetime : List Column → String → Bool
unfolding equal_fold to_upper has_prefix
has_datetime [] name = false
has_datetime (col ∷ cols) name =
    let rest = has_datetime cols name in
    if equal_fold col.name name && has_prefix (to_upper col.type) "DATETIME" then true else rest

hourly_verdict : Bool → Result (Unit {0}) → Result (Unit {0})
hourly_verdict found (err e) = err e
hourly_verdict found killed = killed
hourly_verdict true (ok _) = ok tt
hourly_verdict false (ok _) = err (errorf "hourly-window time field must be DATETIME")

unfoldable pub validate_hourly_time_field : List Column → String → Result (Unit {0})
unfolding validate_time_field has_datetime hourly_verdict
validate_hourly_time_field cols name =
    hourly_verdict (has_datetime cols name) (validate_time_field cols name)

unfoldable pub same_columns : List Column → List Column → Bool
unfolding equal_fold
same_columns [] [] = true
same_columns (a ∷ as') (b ∷ bs) =
    if not (a.name == b.name) then false else equal_fold a.type b.type && same_columns as' bs
same_columns _ _ = false

unfoldable pub validate_target_columns : List Column → List Column → Result (Unit {0})
unfolding same_columns
validate_target_columns source target =
    if not (eqb (length source) (length target))
    then err
        (errorf "target column count differs from source; existing target table was not changed")
    else if same_columns source target
    then ok tt
    else err (
        errorf
          "target column names, order, or types differ from source; existing target table was not changed")
