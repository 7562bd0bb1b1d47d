-- ===== src/Cycle.antt =====
-- main.go: `cycle` over the databases. Its parts are in the modules below.
pub mod Errors
pub mod Ensure
pub mod Scan
pub mod Table
pub mod Prepares
pub mod Guard
pub mod Sends
pub mod Plans
pub mod Imports
use doris_sync.Base.{
  ℕ, suc, ◌+◌, String, ◌<>◌, Bool, true, false, List, [], ◌∷◌, ◌++◌, Option, none, some,
}
use doris_sync.Base.{contains, is_nil, eqb, if◌then◌else◌}
use doris_sync.Base.Text.{decimal, join}
use doris_sync.Base.Act.{
  Err, errorf, wrap, is_persistence, Result, ok, err, Act, pure, fail, ◌>>=◌, ◌>>◌,
}
use doris_sync.Config.{DatabasePair, Options, allows_table}
use doris_sync.Sql.{ident}
use doris_sync.World.{World, Env, source, target, exec, check_context}
use doris_sync.Database.{tables}
use doris_sync.SyncState.{modify}
use doris_sync.Clock.{Deps}
use Ensure.{Ensured, ensure_target_table}
use Table.{sync_table}

-- `tablePlan`: a pair of databases, the names of the target's tables and the tables to copy. The
-- tables that failed so far are counted beside it.
pub record TablePlan : Type 0 where
  pub mapping : DatabasePair
  pub target_names : List String
  pub ready : List String

abbrev pub Counting : Type 0 → Type 0
Counting A = A × ℕ

unfoldable pub missing_names : List String → List String → List String
missing_names seen [] = []
missing_names seen (name ∷ names) =
    let rest = missing_names seen names in if contains seen name then rest else name ∷ rest

-- clear(s.seenPartitions)
abbrev pub clear_seen : Act World (Unit {0})
clear_seen = modify λ m. record m { seen_partitions = [] }

module _ (env : Env) (deps : Deps) (auto_range : String → Bool) (o : Options) where
  abbrev Names : Type 0
  Names = List String

  -- What the error of a table does before anything is copied.
  unfoldable pub preflight_failed : DatabasePair → String → Err → Act World (Unit {0})
  preflight_failed pair table e =
      if o.force_overwrite
      then fail (wrap ("preflight " <> (pair.source <> ("." <> (table <> ": ")))) e)
      else check_context env

  -- The names after a table, and the tables that are ready.
  unfoldable pub ensured_next :
      DatabasePair → String → Names → ℕ → Ensured → Act World (Counting (Names × Names))
  ensured_next pair table ready count e = elim e.failure [
    | none ↦ pure ((e.names, (if e.ready then ready ++ (table ∷ []) else ready)), count)
    | some x ↦ (do preflight_failed pair table x; pure ((e.names, ready), suc count))
  ]

  unfoldable pub ensure_tables :
      DatabasePair → Names → Names → Names → ℕ → Act World (Counting (Names × Names))
  ensure_tables pair [] names ready count = pure ((names, ready), count)
  ensure_tables pair (table ∷ rest) names ready count =
      let more = ensure_tables pair rest in
      if allows_table deps.matches o table
      then (do
        e ← ensure_target_table env deps auto_range o pair table names
        next ← ensured_next pair table ready count e
        more next.0.0 next.0.1 next.1)
      else more names ready count

  unfoldable pub plan_pair : DatabasePair → ℕ → Act World (Counting TablePlan)
  unfolding ident
  plan_pair pair count = do
    check_context env
    exec env target ("CREATE DATABASE IF NOT EXISTS " <> ident pair.target)
    source_tables ← tables env deps.is_int64 source pair.source
    target_tables ← tables env deps.is_int64 target pair.target
    planned ← ensure_tables pair source_tables target_tables [] count
    pure (record { mapping = pair; target_names = planned.0.0; ready = planned.0.1 }, planned.1)

  unfoldable pub plan_pairs :
      List DatabasePair → List TablePlan → ℕ → Act World (Counting (List TablePlan))
  plan_pairs [] plans count = pure (plans, count)
  plan_pairs (pair ∷ pairs) plans count =
      let more = plan_pairs pairs in
      do planned ← plan_pair pair count; more (plans ++ (planned.0 ∷ [])) planned.1

  -- What the error of a table does while tables are copied.
  unfoldable pub table_failed : DatabasePair → String → Err → Act World (Unit {0})
  table_failed pair table e =
      if o.force_overwrite
      then fail (wrap ("forced overwrite " <> (pair.source <> ("." <> (table <> ": ")))) e)
      else if is_persistence e
      then fail e
      else check_context env

  unfoldable pub synced_next : DatabasePair → String → ℕ → Option Err → Act World ℕ
  synced_next pair table count none = pure count
  synced_next pair table count (some e) = do table_failed pair table e; pure (suc count)

  unfoldable pub run_tables : DatabasePair → Names → Names → ℕ → Act World ℕ
  run_tables pair [] names count = pure count
  run_tables pair (table ∷ rest) names count =
      let more = run_tables pair rest in
      do
        synced ← sync_table env deps auto_range o pair table names
        count' ← synced_next pair table count synced.1
        more synced.0 count'

  unfoldable pub run_plans : List TablePlan → ℕ → Act World ℕ
  run_plans [] count = pure count
  run_plans (plan ∷ plans) count =
      let more = run_plans plans in
      do count' ← run_tables plan.mapping plan.ready plan.target_names count; more count'

  -- A selected partition that no table has.
  unfoldable pub check_missing : Act World (Unit {0})
  check_missing w =
      let missing = missing_names w.memory.seen_partitions o.partitions in
      if is_nil missing
      then pure tt w
      else fail
          (errorf
            ("specified source partitions not found in selected tables: " <> join ", " missing))
          w

  -- The tables of all pairs are prepared, and then copied.
  unfoldable pub cycle : Act World (Unit {0})
  unfolding decimal
  cycle = do
    clear_seen
    planned ← plan_pairs o.databases [] 0
    check_missing
    count ← run_plans planned.0 planned.1
    if eqb count 0 then pure tt else fail (errorf (decimal count <> " tables failed"))
