-- ===== src/Hourly/Chain.antt =====
-- hourly.go: the windows that a table has passed, as a machine that only moves forward.
use doris_sync.Base.{String, ◌==◌, true, Option, none, some, List, [], ◌∷◌}
use doris_sync.Base.{◌≡◌, refl, ap, sym, eq_iff, Bool-cases, inl, inr, if◌then◌else◌}
use doris_sync.Base.Text.{str_lt, str_lt_irrefl}
use doris_sync.Config.{S3Options}
use doris_sync.State.{HourlyState, HourlyTask, Json, json, corrupt, TableKey, table_key}
use doris_sync.World.{
  World, Event, Side, queried, executed, listed, deleted, saved_partition, saved_hourly,
}
use doris_sync.Clock.{Zone, Deps}
use doris_sync.Hourly.Window.{row_of}
use doris_sync.Hourly.Protocol.{last_saved, decoded, key, Legal, MaySave, first, stay, advance}
use doris_sync.Hourly.Exports.{Carried, still, window_lem}
use doris_sync.Hourly.Once.{Processes, Processes-Inv, IsNew}

-- A table to the outside: where its cursor stands, and the windows behind it, newest first.
pub record Progress : Type 0 where
  pub cursor : Option String
  pub passed : List (String × String)

abbrev progress : Option String → List (String × String) → Progress
progress cursor passed = record { cursor = cursor; passed = passed }

-- The machine: the cursor appears at the start of the task, and then passes one window at a time,
-- each of which starts where the cursor stands, ends later, and has moved its rows.
pub data Reaches (Moved : String → String → Type 0) (start : String) : Progress → Type 0 where
  nowhere : Reaches Moved start (record { cursor = none; passed = [] })
  begins : Reaches Moved start (record { cursor = some start; passed = [] })
  passes :
      (from to : String) {ws : List (String × String)}
      → Reaches Moved start (record { cursor = some from; passed = ws })
      → Moved from to
      → str_lt from to ≡ true
      → Reaches Moved start (record { cursor = some to; passed = (from, to) ∷ ws })

-- What the file says, and what the history shows.
abbrev pub cursor_of : Option (Json HourlyState) → Option String
cursor_of (some (json e)) = some e.next
cursor_of (some corrupt) = none
cursor_of none = none

abbrev moved : Option HourlyState → HourlyState → List (String × String) → List (String × String)
moved none e ws = ws
moved (some old) e ws = if old.next == e.next then ws else (old.next, e.next) ∷ ws

abbrev pub passed_windows : TableKey → List Event → List (String × String)
passed_windows k [] = []
passed_windows k (saved_hourly j e ∷ h) =
    if table_key.same j k then moved (last_saved k h) e (passed_windows k h) else passed_windows k h
passed_windows k (queried side sql r ∷ h) = passed_windows k h
passed_windows k (executed side sql r ∷ h) = passed_windows k h
passed_windows k (listed prefix ∷ h) = passed_windows k h
passed_windows k (deleted object ∷ h) = passed_windows k h
passed_windows k (saved_partition j e ∷ h) = passed_windows k h

abbrev pub view : TableKey → World → Progress
view k w = record { cursor = cursor_of (row_of k w); passed = passed_windows k w.history }

module _ (z : Zone) (s3 : S3Options) (task : HourlyTask) where
  abbrev k : TableKey
  k = key z s3 task

  abbrev next_of : Option HourlyState → Option String
  next_of none = none
  next_of (some e) = some e.next

  abbrev Moved : List Event → String → String → Type 0
  Moved = Carried z s3 task

  abbrev Chain : List Event → Type 0
  Chain h = Reaches (Moved h) task.start (progress (next_of (last_saved k h)) (passed_windows k h))

  -- What a history has done, a longer one has done.
  still_Reaches :
      (x : Event) (h : List Event) {m : Progress}
      → Reaches (Moved h) task.start m
      → Reaches (Moved (x ∷ h)) task.start m
  still_Reaches x h nowhere = nowhere
  still_Reaches x h begins = begins
  still_Reaches x h (passes from to r carried after) =
      passes from to (still_Reaches x h r) (still z s3 task x h from to carried) after

  unmoved :
      (old e : HourlyState) (ws : List (String × String)) (h : List Event)
      → e.next ≡ old.next
      → Reaches (Moved h) task.start (progress (some old.next) ws)
      → Reaches (Moved h) task.start (progress (some e.next) (moved (some old) e ws))
  unmoved old e ws h same r = rw ((eq_iff old.next e.next).1 (sym same), same) r

  forward :
      (old e : HourlyState) (to : String) (ws : List (String × String)) (h : List Event)
      → e.next ≡ to
      → str_lt old.next to ≡ true
      → Moved h old.next to
      → Reaches (Moved h) task.start (progress (some old.next) ws)
      → Reaches (Moved h) task.start (progress (some e.next) (moved (some old) e ws))
  forward old e to ws h eq later carried r = elim (Bool-cases (old.next == e.next)) [
    | inl same ↦
        absurd (let at = (eq_iff old.next e.next).0 same in let never = str_lt_irrefl to in cc)
    | inr other ↦ rw (other, eq) (passes old.next to r carried later)
  ]

  fresh_start : (h : List Event) → last_saved k h ≡ none → Chain h → passed_windows k h ≡ []
  fresh_start h unsaved c = nothing (rw unsaved at c)
    where
      nothing :
          {ws : List (String × String)} → Reaches (Moved h) task.start (progress none ws) → ws ≡ []
      nothing nowhere = refl

  save_lem :
      (h : List Event) (e : HourlyState)
      → MaySave z s3 task h e
      → Legal z s3 task h
      → Chain h
      → Reaches
          (Moved h)
          task.start
          (progress (some e.next) (moved (last_saved k h) e (passed_windows k h)))
  save_lem h e (first unsaved start idle) l c = rw (unsaved, start, fresh_start h unsaved c) begins
  save_lem h e (stay old saved unstarted ready same backed) l c =
      rw saved (unmoved old e (passed_windows k h) h same (rw saved at c))
  save_lem h e (advance old p saved pending from eq later d) l c = rw saved (
      forward old e p.to (passed_windows k h) h (ap (λ (x : HourlyState). x.next) eq) later
        (rw (← from) (window_lem z s3 task old p h d l saved pending)) (rw saved at c))

  chain_lem : (h : List Event) → Legal z s3 task h → Chain h
  chain_lem [] l = nowhere
  chain_lem (saved_hourly j e ∷ h) (may, l) = elim (Bool-cases (table_key.same j k)) [
    | inl mine ↦
        rw mine (still_Reaches (saved_hourly j e) h (save_lem h e (may mine) l (chain_lem h l)))
    | inr other ↦ rw other (still_Reaches (saved_hourly j e) h (chain_lem h l))
  ]
  chain_lem (executed Side.target sql r ∷ h) (may, l) = still_Reaches _ h (chain_lem h l)
  chain_lem (executed Side.source sql r ∷ h) l = still_Reaches _ h (chain_lem h l)
  chain_lem (queried side sql r ∷ h) l = still_Reaches _ h (chain_lem h l)
  chain_lem (listed prefix ∷ h) l = still_Reaches _ h (chain_lem h l)
  chain_lem (deleted object ∷ h) l = still_Reaches _ h (chain_lem h l)
  chain_lem (saved_partition j e ∷ h) l = still_Reaches _ h (chain_lem h l)

  cursor_decoded : (o : Option HourlyState) → cursor_of (decoded o) ≡ next_of o
  cursor_decoded none = refl
  cursor_decoded (some e) = refl

-- From a file without a checkpoint of the table, whatever processes have run over it: the cursor that
-- the file holds and the windows that the saved checkpoints have passed are what the machine reaches
-- from the start of the task: the windows follow one another without a gap and without an overlap, the
-- first starts at the start of the task, and the cursor stands at the end of the last. Each of them
-- was carried: the source has shown no row between its start and its end, or it has exported the rows
-- between its start and its end, and the import of the files below the prefix of that export has
-- then returned without an error.
pub Processes-Reaches :
    (deps : Deps) (z : Zone) (s3 : S3Options) (task : HourlyTask) (w₀ : World)
    → deps.load_location task.time_zone ≡ some z
    → IsNew task w₀
    → (w : World) → Processes deps s3 task w₀ w
    → Reaches (Carried z s3 task w.history) task.start (view (key z s3 task) w)
Processes-Reaches deps z s3 task w₀ located new w p =
    let i = Processes-Inv deps z s3 task w₀ located new w p in
    rw (i.row, cursor_decoded z s3 task (last_saved (key z s3 task) w.history))
      (chain_lem z s3 task w.history i.legal)
