-- ===== src/Start/Refused.antt =====
-- main.go: a state file of another mode is left as it is.
use doris_sync.Base.{ℕ, String, ◌==◌, Bool, true, false, some, List, [], ◌∷◌, if◌then◌else◌}
use doris_sync.Base.{◌≡◌, refl, ◌∙◌, ap, ◌≢◌, arith, eq_iff}
use doris_sync.Base.Table.{lookup, string_key}
use doris_sync.Base.Act.{
  Result, ok, err, killed, After, After-continue, After-answer, After-wrapping, pure, fail, errorf,
}
use doris_sync.Config.{Options}
use doris_sync.State.{Disk}
use doris_sync.World.{
  World, Env, Event, Side, queried, executed, listed, deleted, saved_partition, saved_hourly,
  source, target, query, query_raw, log,
}
use doris_sync.SyncState.Opening.{
  open_state, run_statements, opening_statements, answered, query_rows, rows_from, value_or_empty,
}
use doris_sync.Clock.{Deps}
use doris_sync.Start.Flags.{Flags}
use doris_sync.Start.Session.{
  connection_sql, is_connected, check_connection, is_other, adopt_state, open_session,
}

-- What a history holds but the questions of the checks of the connections.
abbrev pub beyond_checks : List Event → List Event
beyond_checks [] = []
beyond_checks (queried side sql r ∷ h) =
    if sql == connection_sql then beyond_checks h else queried side sql r ∷ beyond_checks h
beyond_checks (executed side sql r ∷ h) = executed side sql r ∷ beyond_checks h
beyond_checks (listed prefix ∷ h) = listed prefix ∷ beyond_checks h
beyond_checks (deleted key ∷ h) = deleted key ∷ beyond_checks h
beyond_checks (saved_partition key e ∷ h) = saved_partition key e ∷ beyond_checks h
beyond_checks (saved_hourly key e ∷ h) = saved_hourly key e ∷ beyond_checks h

-- The rows of the file are as before, and so are the calls to the databases and the bucket but for
-- the checks of the connections.
abbrev pub Untouched : World → World → Type 0
Untouched w w' = (w'.disk ≡ w.disk) × (beyond_checks w'.history ≡ beyond_checks w.history)

abbrev pub Never : {A : Type 0} → A → World → Type 0
Never _ _ = ⊥

module _ (env : Env) where
  rows_lem :
      {A : Type 0} (view : Disk → A) (w v : World)
      → Untouched w v
      → After
          (Untouched w)
          (λ rows v'. Untouched w v' × (rows ≡ view w.disk))
          (query_rows env view v)
  unfolding query_rows
  rows_lem {A = A} view w v same = go (env.read v.calls)
    where
      go :
          (r : Result (Unit {0}))
          → After
              (Untouched w)
              (λ rows v'. Untouched w v' × (rows ≡ view w.disk))
              (rows_from {A = A} view r v)
      go (ok _) = record { holds = (same, ap view same.0) }
      go (err e) = record { holds = same }
      go killed = record { holds = same }

  check_lem :
      (deps : Deps) (auto_range : String → Bool) (flags : Flags) (o : Options) (fuel : ℕ)
      (side : Side) (w v : World)
      → Untouched w v
      → After
          (Untouched w)
          (λ _ v'. Untouched w v')
          (check_connection env deps auto_range flags o fuel side v)
  unfolding check_connection query query_raw
  check_lem deps auto_range flags o fuel side w v same =
      let r = env.query v.calls in
      After-continue _ _
        (After-continue _ _
          (After-answer {I = Untouched w} {Q = λ _ v'. Untouched w v'} r
            (log (queried side connection_sql r) v) same (λ _ _. same))
          λ raw v₁ h. record { holds = h })
        λ rows v₂ h. verdict (is_connected rows) v₂ h
    where
      verdict :
          (good : Bool) (v₂ : World)
          → Untouched w v₂
          → After
              (Untouched w)
              (λ _ v'. Untouched w v')
              ((if good then pure tt else fail (errorf "SELECT 1 returned an unexpected result"))
                v₂)
      verdict true v₂ h = record { holds = h }
      verdict false v₂ h = record { holds = h }

  statements_lem :
      (statements : List String) (w v : World)
      → Untouched w v
      → After (Untouched w) (λ _ v'. Untouched w v') (run_statements env statements v)
  unfolding run_statements
  statements_lem [] w v same = record { holds = same }
  statements_lem (statement ∷ rest) w v same =
      After-continue _ _ (one (env.write v.calls)) λ _ v₁ h. statements_lem rest w v₁ h
    where
      one : (r : Result (Unit {0})) → After (Untouched w) (λ _ v'. Untouched w v') (answered r v)
      one (ok _) = record { holds = same }
      one (err e) = record { holds = same }
      one killed = record { holds = same }

  open_lem :
      (w v : World)
      → Untouched w v
      → After
          (Untouched w)
          (λ _ v'.
            Untouched w v' × (v'.memory.mode ≡ value_or_empty (lookup "mode" w.disk.metadata)))
          (open_state env v)
  unfolding open_state
  open_lem w v same = After-continue _ _ (rows_lem _ w v same) λ hashes w₁ h₁.
      After-continue _ _ (rows_lem _ w w₁ h₁.0) λ counts w₂ h₂.
        After-continue _ _ (rows_lem _ w w₂ h₂.0) λ read w₃ h₃.
          After-continue _ _ (After-answer {Q = λ _ v. Untouched w v} read w₃ h₃.0 (λ _ _. h₃.0))
            λ loaded w₄ h₄.
              After-continue _ _ (rows_lem (λ d. d.metadata) w w₄ h₄) λ settings w₅ h₅. record {
                holds = (h₅.0, ap (λ t. value_or_empty (lookup "mode" t)) h₅.1);
              }

-- A run that has its lock and its connections, over a file that another mode has left, ends without
-- success, whatever is answered. It changes no row of the file, sends nothing to the databases but
-- the question SELECT 1 of the checks of the connections, and does not reach the bucket.
pub open_session-Untouched :
    (env : Env) (deps : Deps) (auto_range : String → Bool) (flags : Flags) (o : Options) (fuel : ℕ)
    (w : World) (saved : String)
    → lookup "mode" w.disk.metadata ≡ some saved
    → saved ≢ ""
    → saved ≢ flags.sync_mode
    → After (Untouched w) Never (open_session env deps auto_range flags o fuel w)
unfolding open_session adopt_state
open_session-Untouched env deps auto_range flags o fuel w saved found set differs =
    After-continue _ _
      (After-wrapping _ _ (check_lem env deps auto_range flags o fuel source w w (refl, refl)))
      λ _ w₁ h₁.
        After-continue _ _
          (After-wrapping _ _ (check_lem env deps auto_range flags o fuel target w w₁ h₁))
          λ _ w₂ h₂. After-continue _ _ (statements_lem env opening_statements w w₂ h₂) λ _ w₃ h₃.
            After-continue _ _ (open_lem env w w₃ h₃) λ _ v h.
              let mode : v.memory.mode ≡ saved = h.1 ∙ ap value_or_empty found in
              let other : is_other v.memory.mode flags.sync_mode ≡ true =
                rw mode
                  (ground (arith, eq_iff saved "", eq_iff saved flags.sync_mode, set, differs)) in
              rw other (record { holds = h.0 })
