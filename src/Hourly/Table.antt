-- ===== src/Hourly/Table.antt =====
-- hourly.go: runs over one table, with restarts between them, keep the protocol.
use doris_sync.Base.{
  ℕ, zero, suc, ◌+◌, String, ◌==◌, Bool, true, false, not, Option, none, some, List,
}
use doris_sync.Base.{◌≡◌, refl, sym, ◌∙◌, ◌&&◌, ◌||◌, arith, eq_iff, Bool-cases, inl, inr, ltb}
use doris_sync.Base.Text.{str_lt}
use doris_sync.Base.Act.{Err, Result, ok, err, killed, After, After-continue, After-answer}
use doris_sync.Base.Act.{After-caught, After-always}
use doris_sync.Base.Table.{upsert, string_key}
use doris_sync.Config.{S3Options}
use doris_sync.State.{HourlyState, HourlyTask, Json, json, corrupt}
use doris_sync.World.{read_from, source, target, World, Env, tick, check_context, now, read, write}
use doris_sync.Database.{Column}
use doris_sync.Database.Keeps.{IsStable, columns-Keeps, lift-Keeps}
use doris_sync.Columns.{validate_hourly_time_field, validate_target_columns}
use doris_sync.SyncState.{save_table, put_hash, table_at, set_memory, table_hash, After-with_parts}
use doris_sync.State.Keys.{state_key, split_state_key}
use doris_sync.Clock.{Zone, Deps, parse_hour, hour, hourly_cutoff, schema_hash}
use doris_sync.Hourly.{
  Outcome, hourly_loop, start_loop, adopt_schema, prepare_hourly, sync_hourly_table,
}
use doris_sync.Hourly.Window.{row_of, load_hourly, loaded_row, checked_entry, pending_matches}
use doris_sync.Hourly.Protocol.{decoded, key, Inv, At, first}
use doris_sync.Hourly.Steps.{save_lem, write_answer, tick_keeps, tick_Inv}
use doris_sync.Hourly.Run.{window_lem}

module _ (env : Env) (deps : Deps) (z : Zone) (s3 : S3Options) (task : HourlyTask) where
  abbrev I : World → Type 0
  I = Inv z s3 task

  parse_hour-format :
      (value : String) (start : ℕ) → parse_hour z value ≡ ok start → z.format start ≡ value
  unfolding parse_hour
  parse_hour-format value start h = ground (arith, eq_iff (z.format start) value)

  not-false : (b : Bool) → not b ≡ false → b ≡ true
  not-false b h = ground arith

  context_keeps :
      (e : HourlyState) (w : World)
      → At z s3 task e w
      → After I (λ _ w'. At z s3 task e w') (check_context env w)
  unfolding check_context
  context_keeps e w h = go (env.cancelled w.calls)
    where
      here : At z s3 task e (tick w)
      here = tick_keeps env deps z s3 task e w h

      go :
          (o : Option Err)
          → After I
              (λ _ w'. At z s3 task e w')
              (elim o as (λ _. Result (Unit {0}) × World) [
                | none ↦ (ok tt, tick w)
                | some x ↦ (err x, tick w)
              ])
      go none = record { holds = here }
      go (some x) = record { holds = here.inv }

  abbrev Kept : Outcome → World → Type 0
  Kept _ w = I w

  loop_lem :
      (names : List String) (fuel : ℕ) (e : HourlyState) (n : ℕ) (w : World)
      → At z s3 task e w
      → After I Kept (hourly_loop env deps s3 z task names fuel e n w)
  unfolding hourly_loop now
  loop_lem names zero e n w h = record { holds = h.inv }
  loop_lem names (suc fuel) e n w h =
      let again = loop_lem names fuel in
      After-caught (check_context env w) _ _ (context_keeps e w h)
        (λ _ w₁ h₁.
          After-caught {Q = λ start w'. At z s3 task e w' × (z.format start ≡ e.next)}
            (parse_hour z e.next, w₁) _ _
            (After-answer (parse_hour z e.next) w₁ h₁.inv
              (λ start eq. (h₁, parse_hour-format e.next start eq)))
            (λ start w₂ q.
              elim (Bool-cases (not (str_lt (z.format start) (z.format (start + hour))))) [
                | inl repeated ↦ rw repeated (record { holds = q.0.inv })
                | inr later ↦
                    let h₂ = tick_keeps env deps z s3 task e w₂ q.0 in
                    rw later
                      (elim (Bool-cases (ltb (hourly_cutoff z (env.now w₂.calls)) (start + hour))) [
                        | inl early ↦ rw early (record { holds = h₂.inv })
                        | inr due ↦ rw due (
                            After-caught _ _ _
                              (window_lem env deps z s3 task names start (start + hour) e (tick w₂)
                                h₂ q.1 (not-false _ later))
                              (λ e' w₃ h₃. again e' (n + 1) w₃ h₃) (λ _ _ i. record { holds = i }))
                      ])
              ])
            (λ _ _ i. record { holds = i }))
        (λ _ _ i. record { holds = i })

  Inv-IsStable : IsStable I
  Inv-IsStable = record {
    at_tick = λ w i. record { legal = i.legal; row = i.row; is_ready = i.is_ready };
    at_query = λ w side sql r i. record { legal = i.legal; row = i.row; is_ready = i.is_ready };
  }

  abbrev Still : {A : Type 0} → Result A × World → Type 0
  Still r = After I (λ _ w. I w) r

  save_table-Still : (name : String) (w : World) → I w → Still (save_table env name w)
  unfolding save_table write
  save_table-Still name w i = After-with_parts (split_state_key name) _ w i λ a b c d _.
      write_answer env deps z s3 task (put_hash (table_at a b c) (table_hash name w))
        (env.write w.calls) w i (record { legal = i.legal; row = i.row; is_ready = i.is_ready })

  decoded_inj : (o : Option HourlyState) (e : HourlyState) → decoded o ≡ some (json e) → o ≡ some e
  decoded_inj none e h = cc
  decoded_inj (some x) e h = cc

  undecoded : (o : Option HourlyState) → decoded o ≡ none → o ≡ none
  undecoded none h = refl
  undecoded (some x) h = cc

  checked_lem :
      (row : Json HourlyState) (w : World)
      → I w
      → row_of (key z s3 task) w ≡ some row
      → After I (λ e w'. At z s3 task e w') (checked_entry row w)
  unfolding checked_entry
  checked_lem corrupt w i found = record { holds = i }
  checked_lem (json e) w i found =
      elim (Bool-cases (e.next == "" || not (pending_matches e.next e.pending))) [
        | inl bad ↦ rw bad (record { holds = i })
        | inr good ↦
            rw good
              (record { holds = record { inv = i; saved = decoded_inj _ e (sym i.row ∙ found) } })
      ]

  loaded_lem :
      (o : Option (Json HourlyState)) (w : World)
      → I w
      → row_of (key z s3 task) w ≡ o
      → After I
          (λ e w'. At z s3 task e w')
          (loaded_row env deps s3 task.pair task.table task.start o w)
  unfolding loaded_row
  loaded_lem (some row) w i found = checked_lem row w i found
  loaded_lem none w i found =
      let entry : HourlyState = record { next = task.start; pending = none } in
      After-continue _ _
        (save_lem env deps z s3 task entry w i (first (undecoded _ (sym i.row ∙ found)) refl refl)
          refl)
        λ _ w₁ s. record { holds = s.0 }

  read_answer :
      (r : Result (Unit {0})) (w : World)
      → I w
      → After I
          (λ row w'. I w' × (row_of (key z s3 task) w' ≡ row))
          (read_from (row_of (key z s3 task)) r w)
  read_answer (ok _) w i = record { holds = (tick_Inv env deps z s3 task w i, refl) }
  read_answer (err e) w i = record { holds = tick_Inv env deps z s3 task w i }
  read_answer killed w i = record { holds = i }

  load_lem :
      (w : World)
      → I w
      → After I
          (λ e w'. At z s3 task e w')
          (load_hourly env deps s3 task.pair task.table task.start w)
  unfolding load_hourly read
  load_lem w i =
      After-continue _ _ (read_answer (env.read w.calls) w i) λ row w₁ q. loaded_lem row w₁ q.0 q.1

  adopt_lem :
      (cols : List Column) (w : World)
      → I w
      → After I (λ e w'. At z s3 task e w') (adopt_schema env deps s3 task cols w)
  unfolding adopt_schema
  adopt_lem cols w i =
      let key = state_key task.pair.source task.pair.target task.table "" in
      let hash = schema_hash deps cols in
      let w₁ = set_memory (λ m. record m { tables = upsert key hash m.tables }) w in
      let i₁ : I w₁ = record { legal = i.legal; row = i.row; is_ready = i.is_ready } in
      elim (Bool-cases (not (table_hash key w == "") && not (table_hash key w == hash))) [
        | inl changed ↦ rw changed (record { holds = i })
        | inr same ↦
            rw same (After-continue _ _ (save_table-Still key w₁ i₁) λ _ w₂ i₂. load_lem w₂ i₂)
      ]

  prepare_lem :
      (w : World)
      → I w
      → After I (λ prepared w'. At z s3 task prepared.1 w') (prepare_hourly env deps s3 task w)
  unfolding prepare_hourly
  prepare_lem w i =
      After-continue _ _
        (columns-Keeps env deps.is_int64 Inv-IsStable source task.pair.source task.table w i)
        λ cols w₁ i₁.
          After-continue _ _
            (lift-Keeps env deps.is_int64 Inv-IsStable
              (validate_hourly_time_field cols task.time_field) w₁ i₁)
            λ _ w₂ i₂.
              After-continue _ _
                (columns-Keeps env deps.is_int64 Inv-IsStable target task.pair.target task.table w₂
                  i₂)
                λ target_cols w₃ i₃.
                  After-continue _ _
                    (lift-Keeps env deps.is_int64 Inv-IsStable
                      (validate_target_columns cols target_cols) w₃ i₃)
                    λ _ w₄ i₄.
                      After-continue _ _ (adopt_lem cols w₄ i₄) λ _ _ h. record { holds = h }

  start_lem :
      (fuel : ℕ) (names : List String) (e : HourlyState) (w : World)
      → At z s3 task e w
      → After I Kept (start_loop env deps s3 fuel task names e (some z) w)
  unfolding start_loop
  start_lem fuel names e w h = loop_lem names fuel e 0 w h

  run_After :
      (fuel : ℕ) (w : World)
      → deps.load_location task.time_zone ≡ some z
      → I w
      → After I Kept (sync_hourly_table env deps s3 fuel task w)
  unfolding sync_hourly_table
  run_After fuel w located i = rw located (
      After-caught _ _ _ (prepare_lem w i)
        (λ prepared w₁ h. start_lem fuel prepared.0 prepared.1 w₁ h)
        (λ _ _ j. record { holds = j }))

  -- A run over the table keeps the protocol.
  pub run_lem :
      (fuel : ℕ) (w : World)
      → deps.load_location task.time_zone ≡ some z
      → I w
      → I (sync_hourly_table env deps s3 fuel task w).1
  run_lem fuel w located i =
      After-always (sync_hourly_table env deps s3 fuel task w) (run_After fuel w located i)
