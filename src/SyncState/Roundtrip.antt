-- ===== src/SyncState/Roundtrip.antt =====
-- state.go: `savePartition` and then `openState`.
use doris_sync.Base.{[], ◌∷◌, some, All}
use doris_sync.Base.{◌≡◌, refl, sym, ap, ◌∙◌, inl, inr, Bool-cases}
use doris_sync.Base.Table.{Table, lookup, upsert, lookup-upsert_self, string_key}
use doris_sync.Base.Act.{Result, ok, err, killed}
use doris_sync.State.{Memory, PartitionState, PartitionKey, partition_key, Json, json}
use doris_sync.State.Encoding.Reread.{unmarshal-marshal_entry}
use doris_sync.World.{World, Env, tick, write, write_to}
use doris_sync.SyncState.{save_partition, write_entry, put_entry}
use doris_sync.SyncState.Opening.{partition_name, open_state}
use doris_sync.SyncState.Reopened.{IsPlain, split_name, open_state-Restored, entry_of}

abbrev Rows : Type 0
Rows = Table PartitionKey (Json PartitionState)

upsert-IsPlain :
    (k : PartitionKey) (v : Json PartitionState) (rows : Rows)
    → IsPlain k
    → All (λ row. IsPlain row.0) rows
    → All (λ row. IsPlain row.0) (upsert k v rows)
unfolding upsert
upsert-IsPlain k v [] p all = (p, tt)
upsert-IsPlain k v ((a, x) ∷ rows) p all = elim (Bool-cases (partition_key.same a k)) [
  | inl same ↦ rw same (all.0, all.1)
  | inr other ↦ rw other (all.0, upsert-IsPlain k v rows p all.1)
]

written :
    (change : World → World) (r : Result (Unit {0})) (w w' : World)
    → write_to change r w ≡ (ok tt, w')
    → w' ≡ change (tick w)
written change (ok _) w w' h = sym (ap (λ x. x.1) h)
written change (err e) w w' h = cc (ap (λ x. x.0) h)
written change killed w w' h = cc (ap (λ x. x.0) h)

-- A good save has put the entry into the row of its names.
save_lem :
    (env : Env) (k : PartitionKey) (e : PartitionState) (w w' : World)
    → IsPlain k
    → lookup (partition_name k) w.memory.partitions ≡ some e
    → save_partition env (partition_name k) w ≡ (ok tt, w')
    → w' ≡ put_entry k e (tick w)
unfolding save_partition write_entry write
save_lem env k e w w' p there saved =
    let run : save_partition env (partition_name k) w
        ≡ write_to (put_entry k e) (env.write w.calls) w =
      rw (split_name k p, there) refl in
    written (put_entry k e) (env.write w.calls) w w' (sym run ∙ saved)

-- An entry that was saved without an error, its fields written by their JSON tags and left out
-- where they are empty, is the entry that a new process, which opens the file
-- without an error, has in memory, where the names have no U+0000.
pub open_state-save_partition :
    (env env' : Env) (k : PartitionKey) (e : PartitionState) (memory : Memory) (w w₁ w₂ : World)
    → IsPlain k
    → All (λ row. IsPlain row.0) w.disk.partition_state
    → lookup (partition_name k) w.memory.partitions ≡ some e
    → save_partition env (partition_name k) w ≡ (ok tt, w₁)
    → open_state env' (record w₁ { memory = memory }) ≡ (ok tt, w₂)
    → lookup (partition_name k) w₂.memory.partitions ≡ some e
open_state-save_partition env env' k e memory w w₁ w₂ p all there saved opened =
    let at : w₁ ≡ put_entry k e (tick w) = save_lem env k e w w₁ p there saved in
    let rows : w₁.disk.partition_state ≡ upsert k (json e) w.disk.partition_state =
      ap (λ (v : World). v.disk.partition_state) at
      ∙ ap (λ x. upsert k x w.disk.partition_state) (unmarshal-marshal_entry e) in
    let plain : All (λ row. IsPlain row.0) w₁.disk.partition_state =
      rw rows (upsert-IsPlain k (json e) w.disk.partition_state p all) in
    open_state-Restored env' k (record w₁ { memory = memory }) w₂ p plain opened
    ∙ ap entry_of (ap (lookup k) rows ∙ lookup-upsert_self k (json e) w.disk.partition_state)
