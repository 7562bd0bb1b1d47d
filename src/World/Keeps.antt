-- ===== src/World/Keeps.antt =====
-- Calls that keep what is known of the history.
use doris_sync.Base.{
  ℕ, String, Bool, true, false, if◌then◌else◌, List, [], ◌∷◌, Option, none, some, inl, inr,
  Bool-cases,
}
use doris_sync.Base.Table.{lookup, string_key}
use doris_sync.Base.Act.{Err, Act, Result, ok, err, killed, After, After-continue, After-answer}
use doris_sync.Config.{S3Options}
use doris_sync.Rows.{RawRow}
use doris_sync.State.{PartitionState, PartitionKey}
use doris_sync.State.Keys.{split_state_key}
use doris_sync.World.{
  World, Env, Event, Side, Object, queried, executed, listed, deleted, saved_partition, target,
  tick, log, write, write_to, exec, objects, delete_object, check_context,
}
use doris_sync.Store.{list, clear, delete_all, is_unsafe_prefix}
use doris_sync.Database.Keeps.{IsStable}
use doris_sync.SyncState.{
  save_partition, save_table, save_inventory, write_entry, put_entry, After-with_parts,
}

-- A statement about histories that everything but the statements to the target keeps, and the records
-- of the hourly mode.
pub record IsOpen (G : List Event → Type 0) : Type 0 where
  pub at_query :
      (side : Side) (sql : String) (r : Result (List RawRow)) (h : List Event)
      → G h
      → G (queried side sql r ∷ h)
  pub at_list : (prefix : String) (h : List Event) → G h → G (listed prefix ∷ h)
  pub at_delete : (key : String) (h : List Event) → G h → G (deleted key ∷ h)
  pub at_save :
      (key : PartitionKey) (e : PartitionState) (h : List Event)
      → G h
      → G (saved_partition key e ∷ h)

module _ (env : Env) (G : List Event → Type 0) where
  abbrev pub Now : World → Type 0
  Now w = G w.history

  abbrev pub Kept : {A : Type 0} → Result A × World → Type 0
  Kept r = After Now (λ _ w. Now w) r

  -- Either branch keeps it.
  pub branch-Kept :
      {A : Type 0} (b : Bool) (f g : Act World A) (w : World)
      → Kept (f w)
      → Kept (g w)
      → Kept ((if b then f else g) w)
  branch-Kept true f g w h k = h
  branch-Kept false f g w h k = k

  pub choice-Kept :
      {A : Type 0} (b : Bool) (x y : Result A × World) → Kept x → Kept y → Kept (if b then x else y)
  choice-Kept true x y h k = h
  choice-Kept false x y h k = k

  pub check-Kept : (w : World) → Now w → Kept (check_context env w)
  unfolding check_context
  check-Kept w g = go (env.cancelled w.calls)
    where
      go :
          (o : Option Err)
          → Kept {A = Unit {0}} (elim o [ none ↦ (ok tt, tick w) | some e ↦ (err e, tick w) ])
      go none = record { holds = g }
      go (some e) = record { holds = g }

  write-Kept :
      (change : World → World) (w : World)
      → Now w
      → Now (change (tick w))
      → Kept (write env change w)
  unfolding write
  write-Kept change w g g' = go (env.write w.calls)
    where
      go : (r : Result (Unit {0})) → Kept (write_to change r w)
      go (ok _) = record { holds = g' }
      go (err e) = record { holds = g }
      go killed = record { holds = g }

  pub save_table-Kept : (name : String) (w : World) → Now w → Kept (save_table env name w)
  unfolding save_table
  save_table-Kept name w g =
      After-with_parts (split_state_key name) _ w g λ a b c d of_name. write-Kept _ w g g

  pub save_inventory-Kept :
      (name : String) (count : ℕ) (w : World) → Now w → Kept (save_inventory env name count w)
  unfolding save_inventory
  save_inventory-Kept name count w g =
      After-with_parts (split_state_key name) _ w g
        λ a b c d of_name. After-continue _ _ (write-Kept _ w g g) λ _ w₁ g₁. record { holds = g₁ }

  -- Statements of one kind that may be sent.
  module _ (S : String → Type 0)
      (at_exec : (sql : String) (r : Result (Unit {0})) (h : List Event)
        → S sql
        → G h
        → G (executed target sql r ∷ h)) where
    pub exec-Kept : (sql : String) (w : World) → S sql → Now w → Kept (exec env target sql w)
    unfolding exec
    exec-Kept sql w s g =
        let g' = at_exec sql (env.exec w.calls) w.history s g in
        After-answer (env.exec w.calls) _ g' (λ _ _. g')

  module _ (kept : IsOpen G) where
    pub Now-IsStable : IsStable Now
    Now-IsStable = record {
      at_tick = λ w g. g;
      at_query = λ w side sql r g. kept.at_query side sql r w.history g;
    }

    entry-Kept :
        (key : PartitionKey) (e : Option PartitionState) (w : World)
        → Now w
        → Kept (write_entry env key e w)
    unfolding write_entry
    entry-Kept key none w g = record { holds = g }
    entry-Kept key (some e) w g = write-Kept (put_entry key e) w g (kept.at_save key e w.history g)

    pub save_partition-Kept : (name : String) (w : World) → Now w → Kept (save_partition env name w)
    unfolding save_partition
    save_partition-Kept name w g =
        After-with_parts (split_state_key name) _ w g
          λ a b c d of_name. entry-Kept _ (lookup name w.memory.partitions) w g

    pub list-Kept : (prefix : String) (w : World) → Now w → Kept (list env prefix w)
    unfolding list objects
    list-Kept prefix w g =
        let g' = kept.at_list prefix w.history g in
        After-continue _ _
          (After-answer {I = Now} {Q = λ _ w. Now w} (env.objects w.calls) (log (listed prefix) w)
            g' (λ _ _. g'))
          λ _ _ k. record { holds = k }

    delete-Kept : (found : List Object) (w : World) → Now w → Kept (delete_all env found w)
    unfolding delete_all delete_object
    delete-Kept [] w g = record { holds = g }
    delete-Kept (o ∷ found) w g =
        let g' = kept.at_delete o.key w.history g in
        After-continue _ _
          (After-answer {I = Now} {Q = λ _ w. Now w} (env.delete w.calls) (log (deleted o.key) w) g'
            (λ _ _. g'))
          λ _ w₁ k. delete-Kept found w₁ k

    pub clear-Kept :
        (s3 : S3Options) (prefix : String) (w : World) → Now w → Kept (clear env s3 prefix w)
    unfolding clear objects
    clear-Kept s3 prefix w g =
        let g' = kept.at_list prefix w.history g in
        elim (Bool-cases (is_unsafe_prefix s3 prefix)) [
          | inl unsafe ↦ rw unsafe (record { holds = g })
          | inr safe ↦ rw safe (
              After-continue _ _
                (After-answer {I = Now} {Q = λ _ w. Now w} (env.objects w.calls)
                  (log (listed prefix) w) g' (λ _ _. g'))
                λ found w₁ k. delete-Kept found w₁ k)
        ]
