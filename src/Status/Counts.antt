-- ===== src/Status/Counts.antt =====
-- status.go: the numbers of the report and its lists agree.
use doris_sync.Base.{ℕ, ◌+◌, String, ◌≡◌, refl, ap, ◌∙◌, arith, length}
use doris_sync.Base.Table.{string_key}
use doris_sync.Base.Act.{Result, ok, err, killed, After, After-continue, After-answer}
use doris_sync.State.{Disk}
use doris_sync.World.{World, Env}
use doris_sync.SyncState.Opening.{query_rows, rows_from}
use doris_sync.Clock.{Deps}
use doris_sync.Hourly.Fuel.{Always}
use doris_sync.Status.Report.{StatusReport}
use doris_sync.Status.Partitions.{Tally, summarise, part_key_text}
use doris_sync.Status.{report_partitions}
use doris_sync.Status.Tallied.{
  IsTallied, length-sort_by, tally_rows-IsTallied, inventory_tables-IsTallied,
}

-- A report on so many partitions whose numbers agree with its lists: each partition is current or in
-- the list of the active ones, and each that lags behind is in the list of those.
pub record IsBalanced (n : ℕ) (r : StatusReport) : Type 0 where
  pub each : length r.active_partitions + r.current_partitions ≡ n
  pub behind : length r.incremental_syncing_partitions ≡ r.incremental_syncing_count
  pub same : r.incremental_monitoring_count ≡ r.current_partitions

summarise-IsBalanced :
    (report : StatusReport) (n : ℕ) (t : Tally) → IsTallied n t → IsBalanced n (summarise report t)
unfolding summarise
summarise-IsBalanced report n t h =
    let a = length-sort_by part_key_text t.active in
    let s = length-sort_by part_key_text t.syncing in
    record { each = omega (arith, h.each, a); behind = omega (arith, h.behind, s); same = h.same }

module _ (env : Env) where
  abbrev IsView : {A : Type 0} → (Disk → A) → Disk → A → World → Type 0
  IsView view d a w = (w.disk ≡ d) × (a ≡ view d)

  query_lem :
      {A : Type 0} (view : Disk → A) (w : World)
      → After Always (IsView view w.disk) (query_rows env view w)
  unfolding query_rows
  query_lem {A = A} view w = go (env.read w.calls)
    where
      go : (r : Result (Unit {0})) → After Always (IsView view w.disk) (rows_from {A = A} view r w)
      go (ok _) = record { holds = (refl, refl) }
      go (err e) = record { holds = tt }
      go killed = record { holds = tt }

  -- A report on the overwrite mode: each row of the partitions is counted as current or listed as
  -- active, never both; the list of the partitions that lag behind has as many as are counted.
  pub report_partitions-IsBalanced :
      (deps : Deps) (duration_text : ℕ → String) (report : StatusReport) (w : World)
      → After Always
          (λ r _. IsBalanced (length w.disk.partition_state) r)
          (report_partitions env deps duration_text report w)
  unfolding report_partitions
  report_partitions-IsBalanced deps duration_text report w =
      After-continue _ _ (query_lem (λ d. d.table_inventory) w) λ inventory w₁ i.
        After-continue _ _ (query_lem (λ d. d.partition_state) w₁) λ rows w₂ p.
          After-continue _ _
            (After-answer {Q = λ t _. IsTallied (length w.disk.partition_state) t} _ w₂ tt (λ t e.
              tally_rows-IsTallied rows 0 _ _ t (inventory_tables-IsTallied inventory)
                (omega (arith, ap length p.1 ∙ ap (λ d. length d.partition_state) i.0)) e))
            λ t w₃ h. record { holds = summarise-IsBalanced report _ t h }
