-- ===== src/Tasks/Steps.antt =====
-- tasks.go, fulltable.go, hourly.go: each operation on tasks keeps the two kinds apart.
use doris_sync.Base.{String, ◌==◌, false, not, ◌||◌, ◌&&◌, Option, none, some}
use doris_sync.Base.{◌≡◌, refl, sym, inl, inr, is_some, ltb, Bool-cases}
use doris_sync.Base.Table.{lookup, lookup-upsert, string_key}
use doris_sync.Base.Act.{Result, ok, err, killed, After, After-continue, After-answer, After-mono}
use doris_sync.State.{HourlyTask, FullTableTask, TableKey, table_key, key_of, Disk}
use doris_sync.World.{World, Env, tick, read, write}
use doris_sync.SyncState.{save_metadata, put_metadata}
use doris_sync.Clock.{Deps, parse_hourly_start}
use doris_sync.Tasks.{
  setting, ignore_put, insert_row, as_persistence, with_task_name, hourly_at, full_at,
  put_hourly_task, put_full_task, differs, managed_mode, other_mode, trimmed,
  check_managed_hourly_settings, register_hourly, add_hourly_task, register_full,
  add_full_table_task,
}
use doris_sync.Tasks.Exclusive.{
  Apart, I, J, Always, read_lem, write_lem, insert_lem, managed_Apart, metadata_Apart,
}

-- Two keys of tasks: another one, or the one that has no task of the other kind.
put_hourly_Apart :
    (key : TableKey) (task : HourlyTask) (w : World)
    → I w
    → full_at key w ≡ none
    → Apart (put_hourly_task key task w).disk
put_hourly_Apart key task w i free = (
  (λ k. elim (Bool-cases (table_key.same key k)) [
    | inl same ↦ inr (rw ((table_key.same_iff key k).0 same) at free)
    | inr other ↦
        rw
          (
            lookup-upsert key k (record task { last_error = ""; last_success_at = "" })
                w.disk.hourly_task,
            other,
          )
          (i.0 k)
  ]),
  i.1,
)

put_full_Apart :
    (key : TableKey) (task : FullTableTask) (w : World)
    → I w
    → hourly_at key w ≡ none
    → Apart (put_full_task key task w).disk
put_full_Apart key task w i free = (
  (λ k. elim (Bool-cases (table_key.same key k)) [
    | inl same ↦ inl (rw ((table_key.same_iff key k).0 same) at free)
    | inr other ↦
        rw
          (
            lookup-upsert key k
                (record task { phase = "queued"; last_error = ""; last_success_at = "" })
                w.disk.full_table_task,
            other,
          )
          (i.0 k)
  ]),
  i.1,
)

pub none_of : {A : Type 0} (o : Option A) → is_some o ≡ false → o ≡ none
none_of none h = refl
none_of (some a) h = absurd (cc)

abbrev pub Unmarked : String → Disk → Type 0
Unmarked name d = lookup name d.metadata ≡ none

abbrev NoFull : TableKey → Disk → Type 0
NoFull key d = lookup key d.full_table_task ≡ none

abbrev NoHourly : TableKey → Disk → Type 0
NoHourly key d = lookup key d.hourly_task ≡ none

module _ (env : Env) (deps : Deps) where
  abbrev pub Keeps : {A : Type 0} → Result A × World → Type 0
  Keeps r = After I (λ _ w'. I w') r

  abbrev KeepsWith : (Disk → Type 0) → {A : Type 0} → Result A × World → Type 0
  KeepsWith P r = After I (λ _ w'. J P w') r

  -- A mark that is read and is not there.
  pub mark_lem :
      (name : String) (w : World)
      → I w
      → After I
          (λ a w'. (I w' × (is_some a ≡ false → Unmarked name w'.disk)))
          (read env (setting name) w)
  unfolding read
  mark_lem name w i =
      After-mono _ (read_lem Always (λ d. lookup name d.metadata) (env.read w.calls) w (i, tt))
        (λ _ j. j)
        (λ a w' q. (q.0.0, (λ h. none_of (lookup name w'.disk.metadata) (rw (sym q.1) h))))

  check_managed_lem : (w : World) → I w → Keeps (check_managed_hourly_settings env deps w)
  unfolding check_managed_hourly_settings read write
  check_managed_lem w i = After-continue _ _ (mark_lem "hourly_start" w i) λ static w₁ h₁.
      elim (Bool-cases (is_some static)) [
        | inl marked ↦ rw marked (record { holds = h₁.0 })
        | inr unmarked ↦ rw unmarked (
            After-continue _ _
              (read_lem (Unmarked "hourly_start") (λ d. lookup "hourly_managed" d.metadata)
                (env.read w₁.calls) w₁ (h₁.0, h₁.1 unmarked))
              λ managed w₂ h₂. elim (Bool-cases (differs "1" managed)) [
                | inl bad ↦ rw bad (record { holds = h₂.0.0 })
                | inr good ↦ rw good (
                    After-mono _
                      (write_lem Always (ignore_put "hourly_managed" "1") (env.write w₂.calls) w₂
                        h₂.0.0 (managed_Apart "1" (tick w₂) h₂.0.0 h₂.0.1, tt))
                      (λ _ j. j) (λ _ _ j. j.0))
              ])
      ]

  -- The mode is put into the memory and the file.
  mode_lem :
      (P : Disk → Type 0)
      → ((w : World) → P w.disk → P (put_metadata w).disk)
      → (w : World) → J P w
      → KeepsWith P (save_metadata env (managed_mode w).1)
  unfolding save_metadata write
  mode_lem P stable w j =
      let w₁ = (managed_mode w).1 in
      write_lem P put_metadata (env.write w₁.calls) w₁ j.0
        (metadata_Apart (tick w₁) j.0, stable (tick w₁) j.1)

  named_lem :
      (task : HourlyTask) (r : Result (Unit {0}) × World) → Keeps r → Keeps (with_task_name task r)
  named_lem task (ok _, w) h = record { holds = h.holds }
  named_lem task (err e, w) h = record { holds = h.holds }
  named_lem task (killed, w) h = record { holds = h.holds }

  persisted_lem : (r : Result (Unit {0}) × World) → Keeps r → Keeps (as_persistence r)
  persisted_lem (ok _, w) h = record { holds = h.holds }
  persisted_lem (err e, w) h = record { holds = h.holds }
  persisted_lem (killed, w) h = record { holds = h.holds }

  register_hourly_lem :
      (task : HourlyTask) (w : World) → I w → Keeps (register_hourly env deps task w)
  unfolding register_hourly read insert_row
  register_hourly_lem task w i =
      let key = key_of task.pair task.table in
      After-continue _ _ (check_managed_lem w i) λ _ w₁ i₁.
        After-continue _ _
          (read_lem Always (λ d. lookup key d.full_table_task) (env.read w₁.calls) w₁ (i₁, tt))
          λ taken w₂ q. elim (Bool-cases (is_some taken)) [
            | inl full ↦ rw full (record { holds = q.0.0 })
            | inr free ↦ rw free (
                After-continue _ _
                  (mode_lem (NoFull key) (λ _ n. n) w₂
                    (q.0.0, none_of (lookup key w₂.disk.full_table_task) (rw (sym q.1) free)))
                  λ _ w₃ j. named_lem task _ (
                    After-mono _
                      (insert_lem Always (is_some (hourly_at key w₃)) (put_hourly_task key task)
                        (env.write w₃.calls) w₃ j.0
                        (put_hourly_Apart key task (tick w₃) j.0 j.1, tt))
                      (λ _ k. k) (λ _ _ k. k.0)))
          ]

  register_full_lem :
      (task : FullTableTask) (w : World) → I w → Keeps (register_full env deps task w)
  unfolding register_full read insert_row
  register_full_lem task w i =
      let key = key_of task.pair task.table in
      After-continue _ _ (check_managed_lem w i) λ _ w₁ i₁.
        After-continue _ _
          (read_lem Always (λ d. lookup key d.hourly_task) (env.read w₁.calls) w₁ (i₁, tt))
          λ taken w₂ q. elim (Bool-cases (is_some taken)) [
            | inl hourly ↦ rw hourly (record { holds = q.0.0 })
            | inr free ↦ rw free (
                After-continue _ _
                  (mode_lem (NoHourly key) (λ _ n. n) w₂
                    (q.0.0, none_of (lookup key w₂.disk.hourly_task) (rw (sym q.1) free)))
                  λ _ w₃ j. persisted_lem _ (
                    After-mono _
                      (insert_lem Always (is_some (full_at key w₃)) (put_full_task key task)
                        (env.write w₃.calls) w₃ j.0 (put_full_Apart key task (tick w₃) j.0 j.1, tt))
                      (λ _ k. k) (λ _ _ k. k.0)))
          ]

  pub add_hourly_lem :
      (task : HourlyTask) (w : World) → I w → Keeps (add_hourly_task env deps task w)
  unfolding add_hourly_task
  add_hourly_lem task w i =
      elim (Bool-cases (
        task.pair.source == ""
        || task.pair.target == ""
        || task.table == ""
        || task.time_field == "")) [
          | inl missing ↦ rw missing (record { holds = i })
          | inr given ↦
              rw given
                (elim (Bool-cases (
                  not (
                    trimmed task.pair.source
                    && trimmed task.pair.target
                    && trimmed task.table
                    && trimmed task.time_field))) [
                      | inl spaces ↦ rw spaces (record { holds = i })
                      | inr exact ↦ rw exact (
                          After-continue _ _
                            (After-answer {Q = λ _ w'. I w'}
                              (parse_hourly_start deps task.start task.time_zone) w i (λ _ _. i))
                            λ _ w₁ i₁. elim (Bool-cases (other_mode w.memory.mode)) [
                              | inl other ↦ rw other (record { holds = i₁ })
                              | inr same ↦ rw same (register_hourly_lem task w₁ i₁)
                            ])
                    ])
        ]

  pub add_full_lem :
      (task : FullTableTask) (w : World) → I w → Keeps (add_full_table_task env deps task w)
  unfolding add_full_table_task
  add_full_lem task w i =
      elim (Bool-cases (
        task.pair.source == ""
        || task.pair.target == ""
        || task.table == ""
        || ltb task.interval 60)) [
          | inl missing ↦ rw missing (record { holds = i })
          | inr given ↦
              rw given
                (elim (Bool-cases (
                  not
                    (trimmed task.pair.source && trimmed task.pair.target && trimmed task.table))) [
                      | inl spaces ↦ rw spaces (record { holds = i })
                      | inr exact ↦ rw exact (elim (Bool-cases (other_mode w.memory.mode)) [
                        | inl other ↦ rw other (record { holds = i })
                        | inr same ↦ rw same (register_full_lem task w i)
                      ])
                    ])
        ]
