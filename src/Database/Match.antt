-- ===== src/Database/Match.antt =====
-- database.go: `matchTargetPartition`; main.go: `findPartition`.
use doris_sync.Base.{String, ◌==◌, Bool, true, false, List, [], ◌∷◌, Option, none, some}
use doris_sync.Base.{if◌then◌else◌, is_some}
use doris_sync.Base.Act.{errorf, Result, ok, err, killed}
use doris_sync.Database.Range.{Partition, partition_range_bounds}

unfoldable pub find_partition : List Partition → String → Option Partition
find_partition [] name = none
find_partition (part ∷ parts) name =
    if part.name == name then some part else find_partition parts name

-- Both bounds are known and equal.
abbrev pub same_bounds : Option String → Option String → Bool
same_bounds (some a) (some b) = a == b
same_bounds _ _ = false

-- Both bounds are known and differ.
abbrev pub other_bounds : Option String → Option String → Bool
other_bounds (some a) (some b) = if a == b then false else true
other_bounds _ _ = false

abbrev pub bounds : Partition → Option String
bounds p = partition_range_bounds p.range

-- The loop over the targets, with the last of the same name and the one of the same range.
unfoldable pub match_loop :
    Partition
    → List Partition
    → Option Partition
    → Option Partition
    → Result (Option Partition × Option Partition)
match_loop source [] same_name same_range = ok (same_name, same_range)
match_loop source (target ∷ targets) same_name same_range =
    let by_name = if target.name == source.name then some target else same_name in
    let plain = match_loop source targets by_name same_range in
    let ranged = match_loop source targets by_name (some target) in
    if same_bounds (bounds target) (bounds source)
    then (if is_some same_range
        then err (errorf "multiple target partitions match source range")
        else ranged)
    else plain

unfoldable pub chosen :
    Partition → Result (Option Partition × Option Partition) → Result (Option Partition)
chosen source (ok (same_name, some range)) = ok (some range)
chosen source (ok (some name, none)) =
    if other_bounds (bounds name) (bounds source)
    then err (errorf "partition has different source and target ranges")
    else ok (some name)
chosen source (ok (none, none)) = ok none
chosen source (err e) = err e
chosen source killed = killed

unfoldable pub match_target_partition : Partition → List Partition → Result (Option Partition)
unfolding match_loop chosen
match_target_partition source targets = chosen source (match_loop source targets none none)
