-- ===== src/Database/Keeps.antt =====
-- database.go: queries and metadata change nothing but the count of calls and the history, so
-- they keep whatever does not depend on these.
use doris_sync.Base.{ℕ, zero, suc, String, ◌==◌, Bool, List, []}
use doris_sync.Base.{◌∷◌, not, ◌||◌, is_some, Bool-cases, inl, inr}
use doris_sync.Base.Act.{Err, errorf, Result, After, After-continue, After-answer, After-caught}
use doris_sync.Rows.{RawRow, Row}
use doris_sync.World.{World, Env, Side, queried, tick, log, query, query_raw, context_done}
use doris_sync.Database.{
  field, is_deadline, query_attempts, query_metadata, tables, create_table_sql, single_ddl, columns,
  nonempty_columns, described, read_partitions, partitions, Column,
}

-- A predicate that queries keep.
pub record IsStable (P : World → Type 0) : Type 0 where
  pub at_tick : (w : World) → P w → P (tick w)
  pub at_query :
      (w : World) (side : Side) (sql : String) (r : Result (List RawRow))
      → P w
      → P (log (queried side sql r) w)

module _ (env : Env) (is_int64 : String → Bool) {P : World → Type 0} (stable : IsStable P) where
  abbrev pub Keeps : {A : Type 0} → Result A × World → Type 0
  Keeps r = After P (λ _ w. P w) r

  pub query-Keeps : (side : Side) (sql : String) (w : World) → P w → Keeps (query env side sql w)
  unfolding query query_raw
  query-Keeps side sql w p =
      let p' = stable.at_query w side sql (env.query w.calls) p in
      After-continue _ _ (After-answer (env.query w.calls) _ p' (λ _ _. p'))
        λ _ _ q. record { holds = q }

  attempts-Keeps :
      (side : Side) (sql : String) (n : ℕ) (last : Err) (w : World)
      → P w
      → Keeps (query_attempts env is_int64 side sql n last w)
  unfolding query_attempts context_done
  attempts-Keeps side sql zero last w p = record { holds = p }
  attempts-Keeps side sql (suc n) last w p =
      After-caught _ _ _ (query-Keeps side sql w p) (λ _ _ q. record { holds = q })
        λ e w₁ q. elim (Bool-cases (is_some (env.cancelled w₁.calls) || not (is_deadline e))) [
          | inl over ↦ rw over (record { holds = stable.at_tick w₁ q })
          | inr again ↦ rw again (attempts-Keeps side sql n e (tick w₁) (stable.at_tick w₁ q))
        ]

  pub metadata-Keeps :
      (side : Side) (sql : String) (w : World)
      → P w
      → Keeps (query_metadata env is_int64 side sql w)
  unfolding query_metadata
  metadata-Keeps side sql w p = attempts-Keeps side sql 3 (errorf "") w p

  pub tables-Keeps :
      (side : Side) (db : String) (w : World) → P w → Keeps (tables env is_int64 side db w)
  unfolding tables
  tables-Keeps side db w p =
      After-continue _ _ (metadata-Keeps side _ w p) λ _ _ q. record { holds = q }

  ddl-Keeps : (rows : List Row) (w : World) → P w → Keeps (single_ddl env is_int64 rows w)
  unfolding single_ddl
  ddl-Keeps [] w p = record { holds = p }
  ddl-Keeps (row ∷ []) w p = elim (Bool-cases (field "createtable" row == "")) [
    | inl missing ↦ rw missing (record { holds = p })
    | inr there ↦ rw there (record { holds = p })
  ]
  ddl-Keeps (row ∷ row' ∷ rows) w p = record { holds = p }

  pub create_table-Keeps :
      (side : Side) (db table : String) (w : World)
      → P w
      → Keeps (create_table_sql env is_int64 side db table w)
  unfolding create_table_sql
  create_table-Keeps side db table w p =
      After-continue _ _ (metadata-Keeps side _ w p) λ rows w₁ q. ddl-Keeps rows w₁ q

  nonempty-Keeps : (cs : List Column) (w : World) → P w → Keeps (nonempty_columns env is_int64 cs w)
  unfolding nonempty_columns
  nonempty-Keeps [] w p = record { holds = p }
  nonempty-Keeps (c ∷ cs) w p = record { holds = p }

  pub columns-Keeps :
      (side : Side) (db table : String) (w : World)
      → P w
      → Keeps (columns env is_int64 side db table w)
  unfolding columns
  columns-Keeps side db table w p =
      After-continue _ _ (metadata-Keeps side _ w p)
        λ rows w₁ q. nonempty-Keeps (described env is_int64 rows) w₁ q

  pub lift-Keeps : {A : Type 0} (r : Result A) (w : World) → P w → Keeps (r, w)
  lift-Keeps r w p = After-answer r w p (λ _ _. p)

  pub partitions-Keeps :
      (side : Side) (db table : String) (w : World)
      → P w
      → Keeps (partitions env is_int64 side db table w)
  unfolding partitions
  partitions-Keeps side db table w p = After-continue _ _ (metadata-Keeps side _ w p) λ rows w₁ q.
      After-continue _ _ (lift-Keeps (read_partitions env is_int64 rows) w₁ q)
        λ _ _ q'. record { holds = q' }
