-- ===== src/Tasks/Exclusive.antt =====
-- tasks.go, fulltable.go, hourly.go: what the task operations keep of the state file.
use doris_sync.Base.{String, ◌==◌, Bool, true, false, none}
use doris_sync.Base.{◌≡◌, refl, ◌∙◌, ◌⊎◌, inl, inr, is_some, Bool-cases}
use doris_sync.Base.Table.{lookup, upsert, lookup-upsert, string_key}
use doris_sync.Base.Act.{Result, ok, err, killed, After}
use doris_sync.State.{TableKey, table_key, Disk}
use doris_sync.World.{World, tick, write_to, read_from}
use doris_sync.SyncState.{put_metadata}
use doris_sync.Tasks.{setting, ignore_put, insert_to}

-- No table has tasks of both kinds.
abbrev pub TasksApart : Disk → Type 0
TasksApart d =
    (k : TableKey) → (lookup k d.hourly_task ≡ none) ⊎ (lookup k d.full_table_task ≡ none)

-- The file is not marked for static and for managed hours at once.
abbrev pub ModesApart : Disk → Type 0
ModesApart d =
    (lookup "hourly_start" d.metadata ≡ none) ⊎ (lookup "hourly_managed" d.metadata ≡ none)

abbrev pub Apart : Disk → Type 0
Apart d = TasksApart d × ModesApart d

abbrev pub I : World → Type 0
I w = Apart w.disk

module _ (P : Disk → Type 0) where
  -- What holds of the file, and the separation.
  abbrev pub J : World → Type 0
  J w = Apart w.disk × P w.disk

  pub read_lem :
      {A : Type 0} (view : Disk → A) (r : Result (Unit {0})) (w : World)
      → J w
      → After I (λ a w'. J w' × (a ≡ view w'.disk)) (read_from (λ w'. view w'.disk) r w)
  read_lem view (ok _) w j = record { holds = (j, refl) }
  read_lem view (err e) w j = record { holds = j.0 }
  read_lem view killed w j = record { holds = j.0 }

  pub write_lem :
      (change : World → World) (r : Result (Unit {0})) (w : World)
      → I w
      → J (change (tick w))
      → After I (λ _ w'. J w') (write_to change r w)
  write_lem change (ok _) w i j = record { holds = j }
  write_lem change (err e) w i j = record { holds = i }
  write_lem change killed w i j = record { holds = i }

  pub insert_lem :
      (present : Bool) (change : World → World) (r : Result (Unit {0})) (w : World)
      → I w
      → J (change (tick w))
      → After I (λ _ w'. J w') (insert_to present change r w)
  insert_lem true change (ok _) w i j = record { holds = i }
  insert_lem false change (ok _) w i j = record { holds = j }
  insert_lem true change (err e) w i j = record { holds = i }
  insert_lem false change (err e) w i j = record { holds = i }
  insert_lem true change killed w i j = record { holds = i }
  insert_lem false change killed w i j = record { holds = i }

abbrev pub Always : Disk → Type 0
Always d = Unit

-- Writing one setting leaves another one.
other_setting :
    (a b value : String) (d : Disk)
    → (a == b) ≡ false
    → lookup b (upsert a value d.metadata) ≡ lookup b d.metadata
other_setting a b value d other = lookup-upsert a b value d.metadata ∙ rw other refl

-- INSERT OR IGNORE of a mark, where the other mark is not there.
pub managed_Apart :
    (value : String) (w : World)
    → I w
    → setting "hourly_start" w ≡ none
    → Apart (ignore_put "hourly_managed" value w).disk
managed_Apart value w i unmarked = elim (Bool-cases (is_some (setting "hourly_managed" w))) [
  | inl there ↦ rw there i
  | inr absent ↦
      rw absent
        (i.0, inl (other_setting "hourly_managed" "hourly_start" value w.disk refl ∙ unmarked))
]

pub start_Apart :
    (value : String) (w : World)
    → I w
    → setting "hourly_managed" w ≡ none
    → Apart (ignore_put "hourly_start" value w).disk
      × (setting "hourly_managed" (ignore_put "hourly_start" value w) ≡ none)
start_Apart value w i unmarked = elim (Bool-cases (is_some (setting "hourly_start" w))) [
  | inl there ↦ rw there (i, unmarked)
  | inr absent ↦
      let still = other_setting "hourly_start" "hourly_managed" value w.disk refl ∙ unmarked in
      rw absent ((i.0, inr still), still)
]

pub zone_Apart : (value : String) (w : World) → I w → Apart (ignore_put "time_zone" value w).disk
zone_Apart value w i = elim (Bool-cases (is_some (setting "time_zone" w))) [
  | inl there ↦ rw there i
  | inr absent ↦ rw absent (
      rw
        (
          other_setting "time_zone" "hourly_managed" value w.disk refl,
          other_setting "time_zone" "hourly_start" value w.disk refl,
        )
        i)
]

pub metadata_Apart : (w : World) → I w → Apart (put_metadata w).disk
metadata_Apart w i =
    rw
      (
        lookup-upsert "time_field" "hourly_start" w.memory.time_field
            (upsert "mode" w.memory.mode w.disk.metadata),
        lookup-upsert "time_field" "hourly_managed" w.memory.time_field
            (upsert "mode" w.memory.mode w.disk.metadata),
        other_setting "mode" "hourly_start" w.memory.mode w.disk refl,
        other_setting "mode" "hourly_managed" w.memory.mode w.disk refl,
      )
      i
