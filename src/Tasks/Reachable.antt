-- ===== src/Tasks/Reachable.antt =====
-- tasks.go, fulltable.go, hourly.go: the state file over any sequence of the operations on tasks.
use doris_sync.Base.{arith}
use doris_sync.Base.{ℕ, String, Bool, Option, none, some}
use doris_sync.Base.{◌≡◌, refl, ◌∙◌, ◌⊎◌, inl, inr, is_some, Bool-cases}
use doris_sync.Base.Table.{lookup, update, lookup-update, map_some, string_key}
use doris_sync.Base.Act.{Err, After, After-continue, After-mono}
use doris_sync.State.{HourlyTask, FullTableTask, TableKey, table_key, key_of, Disk}
use doris_sync.World.{World, Env, tick, read, write, now}
use doris_sync.Clock.{Deps}
use doris_sync.Tasks.{
  ignore_put, put_full_result, put_hourly_result, differs, check_setting, check_hourly_settings,
  add_hourly_task, save_hourly_task_result, add_full_table_task, update_full_table_task,
}
use doris_sync.Tasks.Exclusive.{Apart, I, J, Always, read_lem, write_lem, start_Apart, zone_Apart}
use doris_sync.State.{Memory}
use doris_sync.Base.Act.{After-always}
use doris_sync.Tasks.Steps.{add_hourly_lem, add_full_lem, mark_lem, Keeps, Unmarked}

map_none : {A : Type 0} (f : A → A) (o : Option A) → o ≡ none → map_some f o ≡ none
map_none f none h = refl
map_none f (some a) h = cc

-- An UPDATE adds no row.
update_hourly_Apart :
    (key : TableKey) (f : HourlyTask → HourlyTask) (d : Disk)
    → Apart d
    → Apart (record d { hourly_task = update key f d.hourly_task })
update_hourly_Apart key f d a = ((λ k. still k (a.0 k)), a.1)
  where
    still :
        (k : TableKey)
        → (lookup k d.hourly_task ≡ none) ⊎ (lookup k d.full_table_task ≡ none)
        → (lookup k (update key f d.hourly_task) ≡ none) ⊎ (lookup k d.full_table_task ≡ none)
    still k (inr free) = inr free
    still k (inl free) = inl (
        lookup-update key k f d.hourly_task
        ∙ rw (map_none f (lookup k d.hourly_task) free, free) (ground arith))

update_full_Apart :
    (key : TableKey) (f : FullTableTask → FullTableTask) (d : Disk)
    → Apart d
    → Apart (record d { full_table_task = update key f d.full_table_task })
update_full_Apart key f d a = ((λ k. still k (a.0 k)), a.1)
  where
    still :
        (k : TableKey)
        → (lookup k d.hourly_task ≡ none) ⊎ (lookup k d.full_table_task ≡ none)
        → (lookup k d.hourly_task ≡ none) ⊎ (lookup k (update key f d.full_table_task) ≡ none)
    still k (inl free) = inl free
    still k (inr free) = inr (
        lookup-update key k f d.full_table_task
        ∙ rw (map_none f (lookup k d.full_table_task) free, free) (ground arith))

module _ (env : Env) (deps : Deps) where
  hourly_result_lem :
      (task : HourlyTask) (completed : ℕ) (run_err : Option Err) (w : World)
      → I w
      → Keeps env deps (save_hourly_task_result env deps task completed run_err w)
  unfolding save_hourly_task_result now write
  hourly_result_lem task completed run_err w i =
      After-mono _
        (write_lem Always
          (put_hourly_result env deps (key_of task.pair task.table) completed run_err
            (env.now w.calls))
          (env.write (tick w).calls) (tick w) i (update_hourly_Apart _ _ w.disk i, tt))
        (λ _ k. k) (λ _ _ k. k.0)

  full_result_lem :
      (task : FullTableTask) (phase : String) (run_err : Option Err) (completed : Bool) (w : World)
      → I w
      → Keeps env deps (update_full_table_task env deps task phase run_err completed w)
  unfolding update_full_table_task now write
  full_result_lem task phase run_err completed w i =
      After-mono _
        (write_lem Always
          (put_full_result env deps (key_of task.pair task.table) phase run_err completed
            (env.now w.calls))
          (env.write (tick w).calls) (tick w) i (update_full_Apart _ _ w.disk i, tt))
        (λ _ k. k) (λ _ _ k. k.0)

  setting_lem :
      (name value : String) (P : Disk → Type 0) (w : World)
      → J P w
      → ((w' : World) → J P w' → J P (ignore_put name value w'))
      → After I (λ _ w'. J P w') (check_setting env deps name value w)
  unfolding check_setting read write
  setting_lem name value P w j put =
      After-continue _ _ (read_lem P (λ d. lookup name d.metadata) (env.read w.calls) w j)
        λ existing w₁ q. elim (Bool-cases (differs value existing)) [
          | inl bad ↦ rw bad (record { holds = q.0.0 })
          | inr good ↦ rw good (
              write_lem P (ignore_put name value) (env.write w₁.calls) w₁ q.0.0 (put (tick w₁) q.0))
        ]

  static_lem :
      (start zone : String) (w : World)
      → I w
      → Keeps env deps (check_hourly_settings env deps start zone w)
  unfolding check_hourly_settings
  static_lem start zone w i =
      After-continue _ _ (mark_lem env deps "hourly_managed" w i) λ managed w₁ h.
        elim (Bool-cases (is_some managed)) [
          | inl marked ↦ rw marked (record { holds = h.0 })
          | inr unmarked ↦ rw unmarked (
              After-continue _ _
                (setting_lem "hourly_start" start (Unmarked "hourly_managed") w₁ (h.0, h.1 unmarked)
                  (λ w' j. start_Apart start w' j.0 j.1))
                λ _ w₂ j.
                  After-mono _
                    (setting_lem "time_zone" zone Always w₂ (j.0, tt)
                      (λ w' k. (zone_Apart zone w' k.0, tt)))
                    (λ _ k. k) (λ _ _ k. k.0))
        ]

-- The operations on tasks and on the two modes of hours, one after the other, in any processes.
pub data TaskRuns (deps : Deps) (w₀ : World) : World → Type 0 where
  started : TaskRuns deps w₀ w₀
  restarted :
      (memory : Memory) {w : World}
      → TaskRuns deps w₀ w
      → TaskRuns deps w₀ (record w { memory = memory })
  added_hourly :
      (env : Env) (task : HourlyTask) {w : World}
      → TaskRuns deps w₀ w
      → TaskRuns deps w₀ (add_hourly_task env deps task w).1
  added_full :
      (env : Env) (task : FullTableTask) {w : World}
      → TaskRuns deps w₀ w
      → TaskRuns deps w₀ (add_full_table_task env deps task w).1
  ran_hourly :
      (env : Env) (task : HourlyTask) (completed : ℕ) (run_err : Option Err) {w : World}
      → TaskRuns deps w₀ w
      → TaskRuns deps w₀ (save_hourly_task_result env deps task completed run_err w).1
  ran_full :
      (env : Env) (task : FullTableTask) (phase : String) (run_err : Option Err) (completed : Bool)
      {w : World}
      → TaskRuns deps w₀ w
      → TaskRuns deps w₀ (update_full_table_task env deps task phase run_err completed w).1
  checked_static :
      (env : Env) (start zone : String) {w : World}
      → TaskRuns deps w₀ w
      → TaskRuns deps w₀ (check_hourly_settings env deps start zone w).1

-- From a file in which no table has tasks of both kinds and which is not marked for static and for
-- managed hours at once, no sequence of operations, whatever fails or is killed in them, leads to
-- one in which a table has, or which is.
pub TaskRuns-Apart :
    (deps : Deps) (w₀ w : World) → Apart w₀.disk → TaskRuns deps w₀ w → Apart w.disk
TaskRuns-Apart deps w₀ w a started = a
TaskRuns-Apart deps w₀ w a (restarted memory {w = v} r) = TaskRuns-Apart deps w₀ v a r
TaskRuns-Apart deps w₀ w a (added_hourly env task {w = v} r) =
    After-always (add_hourly_task env deps task v)
      (add_hourly_lem env deps task v (TaskRuns-Apart deps w₀ v a r))
TaskRuns-Apart deps w₀ w a (added_full env task {w = v} r) =
    After-always (add_full_table_task env deps task v)
      (add_full_lem env deps task v (TaskRuns-Apart deps w₀ v a r))
TaskRuns-Apart deps w₀ w a (ran_hourly env task completed run_err {w = v} r) =
    After-always (save_hourly_task_result env deps task completed run_err v)
      (hourly_result_lem env deps task completed run_err v (TaskRuns-Apart deps w₀ v a r))
TaskRuns-Apart deps w₀ w a (ran_full env task phase run_err completed {w = v} r) =
    After-always (update_full_table_task env deps task phase run_err completed v)
      (full_result_lem env deps task phase run_err completed v (TaskRuns-Apart deps w₀ v a r))
TaskRuns-Apart deps w₀ w a (checked_static env start zone {w = v} r) =
    After-always (check_hourly_settings env deps start zone v)
      (static_lem env deps start zone v (TaskRuns-Apart deps w₀ v a r))
