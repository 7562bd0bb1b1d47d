-- ===== src/Cycle/Prepares.antt =====
-- main.go: what `ensureTargetTable` sends to the target.
use doris_sync.Base.{String, Bool, true, false, not, ◌&&◌, List, [], ◌∷◌}
use doris_sync.Base.{◌≡◌, refl, ◌⊎◌, inl, inr, contains, is_some, Bool-cases}
use doris_sync.Base.Act.{
  Result, ok, err, killed, After, After-continue, After-caught, After-wrapping,
}
use doris_sync.Config.{DatabasePair, Options, allows_partition}
use doris_sync.World.{World, Env, Event, executed, source, target}
use doris_sync.World.Keeps.{
  IsOpen, Now, Kept, Now-IsStable, branch-Kept, exec-Kept, save_inventory-Kept,
}
use doris_sync.Database.{is_async_view}
use doris_sync.Database.Range.{Partition}
use doris_sync.Database.Match.{match_target_partition}
use doris_sync.Database.Keeps.{create_table-Keeps, columns-Keeps, partitions-Keeps, lift-Keeps}
use doris_sync.Columns.{validate_target_columns}
use doris_sync.Sql.Create.{target_ddl}
use doris_sync.Clock.{is_create_table, Deps}
use doris_sync.Targets.{create_missing}
use doris_sync.Partition.Full.{is_auto_partition_ddl}
use doris_sync.Cycle.Ensure.{
  check_parts, check_forced, check_table, ensure_created, ensure_ddl, ensure_target_table,
}

-- Statements of one kind may be sent to the target: whatever `S` says of them.
pub record MayExec (G : List Event → Type 0) (S : String → Type 0) : Type 0 where
  pub may :
      (sql : String) (r : Result (Unit {0})) (h : List Event)
      → S sql
      → G h
      → G (executed target sql r ∷ h)

-- The statements that create a table.
abbrev pub IsTableDdl : Deps → String → Type 0
IsTableDdl deps sql =
    (ddl : String) × (db : String) × (table : String) × (target_ddl deps.patterns ddl db table
      ≡ ok sql)

module _ (env : Env) (deps : Deps) (auto_range : String → Bool) (o : Options)
    (G : List Event → Type 0) (kept : IsOpen G) (S : String → Type 0) (may : MayExec G S) where
  abbrev Ok : {A : Type 0} → Result A × World → Type 0
  Ok r = Kept env G r

  lift_lem : {A : Type 0} (r : Result A) (w : World) → G w.history → Ok (r, w)
  lift_lem r w g = lift-Keeps env deps.is_int64 (Now-IsStable env G kept) r w g

  abbrev DdlAllowed : Type 0
  DdlAllowed = (sql : String) → IsTableDdl deps sql → S sql

  ddl_lem :
      (r : Result String) (w : World)
      → ((sql : String) → r ≡ ok sql → S sql)
      → G w.history
      → After (Now env G) (λ sql w'. S sql × G w'.history) (r, w)
  ddl_lem (ok sql) w s g = record { holds = (s sql refl, g) }
  ddl_lem (err e) w s g = record { holds = g }
  ddl_lem killed w s g = record { holds = g }

  -- A table is created only if it is missing.
  pub create_missing-Kept :
      (pair : DatabasePair) (table : String) (names : List String) (ddl : String) (w : World)
      → (contains names table ≡ true) ⊎ DdlAllowed
      → G w.history
      → Ok (create_missing env deps pair table names ddl w)
  unfolding create_missing
  create_missing-Kept pair table names ddl w (inl there) g = rw there (record { holds = g })
  create_missing-Kept pair table names ddl w (inr allowed) g =
      branch-Kept env G (contains names table) _ _ w (record { holds = g })
        (After-continue _ _
          (ddl_lem (target_ddl deps.patterns ddl pair.target table) w
            (λ sql eq. allowed sql (ddl, pair.target, table, eq)) g)
          λ sql w₁ q.
            After-continue _ _ (After-wrapping _ _ (exec-Kept env G S may.may sql w₁ q.0 q.1))
              λ _ w₂ g₂. record { holds = g₂ })

  parts_lem :
      (auto : Bool) (targets parts : List Partition) (w : World)
      → G w.history
      → Ok (check_parts env deps auto_range o auto targets parts w)
  unfolding check_parts
  parts_lem auto targets [] w g = record { holds = g }
  parts_lem auto targets (part ∷ parts) w g =
      branch-Kept env G (not (allows_partition deps.matches o part.name)) _ _ w
        (parts_lem auto targets parts w g)
        (After-continue _ _ (lift_lem (match_target_partition part targets) w g) λ found w₁ g₁.
          branch-Kept env G (not (is_some found) && not auto) _ _ w₁ (record { holds = g₁ })
            (parts_lem auto targets parts w₁ g₁))

  forced_lem :
      (pair : DatabasePair) (table : String) (parts : List Partition) (w : World)
      → G w.history
      → Ok (check_forced env deps auto_range o pair table parts w)
  unfolding check_forced
  forced_lem pair table parts w g =
      branch-Kept env G o.force_overwrite _ _ w
        (After-continue _ _
          (create_table-Keeps env deps.is_int64 (Now-IsStable env G kept) target pair.target table w
            g)
          λ ddl w₁ g₁.
            After-continue _ _
              (partitions-Keeps env deps.is_int64 (Now-IsStable env G kept) target pair.target table
                w₁ g₁)
              λ targets w₂ g₂. parts_lem (is_auto_partition_ddl auto_range ddl) targets parts w₂ g₂)
        (record { holds = g })

  check_lem :
      (pair : DatabasePair) (table : String) (w : World)
      → G w.history
      → Ok (check_table env deps auto_range o pair table w)
  unfolding check_table
  check_lem pair table w g =
      After-continue _ _
        (columns-Keeps env deps.is_int64 (Now-IsStable env G kept) source pair.source table w g)
        λ cols w₁ g₁.
          After-continue _ _
            (columns-Keeps env deps.is_int64 (Now-IsStable env G kept) target pair.target table w₁
              g₁)
            λ target_cols w₂ g₂.
              After-continue _ _
                (After-wrapping _ _ (lift_lem (validate_target_columns cols target_cols) w₂ g₂))
                λ _ w₃ g₃.
                  After-continue _ _
                    (partitions-Keeps env deps.is_int64 (Now-IsStable env G kept) source pair.source
                      table w₃ g₃)
                    λ parts w₄ g₄.
                      After-continue _ _ (forced_lem pair table parts w₄ g₄)
                        λ _ w₅ g₅. save_inventory-Kept env G _ _ _ g₅

  created_lem :
      (pair : DatabasePair) (table : String) (names : List String) (ddl : String) (w : World)
      → (contains names table ≡ true) ⊎ DdlAllowed
      → G w.history
      → Ok (ensure_created env deps auto_range o pair table names ddl w)
  unfolding ensure_created
  created_lem pair table names ddl w allowed g =
      After-caught _ _ _ (create_missing-Kept pair table names ddl w allowed g)
        (λ names' w₁ g₁.
          After-caught _ _ _ (check_lem pair table w₁ g₁) (λ _ _ g₂. record { holds = g₂ })
            (λ _ _ g₂. record { holds = g₂ }))
        (λ _ _ g₁. record { holds = g₁ })

  abbrev Allowed : Type 0
  Allowed = (o.force_overwrite ≡ true) ⊎ DdlAllowed

  there_lem :
      (names : List String) (table : String)
      → Allowed
      → (o.force_overwrite && not (contains names table)) ≡ false
      → (contains names table ≡ true) ⊎ DdlAllowed
  there_lem names table (inr allowed) h = inr allowed
  there_lem names table (inl forced) h = elim (Bool-cases (contains names table)) [
    | inl there ↦ inl there
    | inr missing ↦ absurd (let k = rw (forced, missing) at h in cc k)
  ]

  table_lem :
      (pair : DatabasePair) (table : String) (names : List String) (ddl : String) (w : World)
      → Allowed
      → G w.history
      → Ok (ensure_ddl env deps auto_range o pair table names ddl w)
  unfolding ensure_ddl
  table_lem pair table names ddl w allowed g =
      branch-Kept env G (not (is_create_table deps ddl)) _ _ w (record { holds = g })
        (elim (Bool-cases (o.force_overwrite && not (contains names table))) [
          | inl refused ↦ rw refused (record { holds = g })
          | inr passed ↦
              rw passed
                (created_lem pair table names ddl w (there_lem names table allowed passed) g)
        ])

  -- Only the creation of a table is sent, and with a forced overwrite nothing.
  pub ensure_target_table-Kept :
      (pair : DatabasePair) (table : String) (names : List String) (w : World)
      → Allowed
      → G w.history
      → Ok (ensure_target_table env deps auto_range o pair table names w)
  unfolding ensure_target_table
  ensure_target_table-Kept pair table names w allowed g =
      After-caught _ _ _
        (create_table-Keeps env deps.is_int64 (Now-IsStable env G kept) source pair.source table w
          g)
        (λ ddl w₁ g₁. table_lem pair table names ddl w₁ allowed g₁)
        λ e w₁ g₁.
          branch-Kept env G (is_async_view e) _ _ w₁ (record { holds = g₁ }) (record { holds = g₁ })
