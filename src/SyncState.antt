-- ===== src/SyncState.antt =====
-- state.go: the operations of `syncState`, which keep the maps in memory and the SQLite file.
pub mod Opening
pub mod Reopened
pub mod Roundtrip
use doris_sync.Base.{ℕ, String, List, [], ◌∷◌, Option, none, some, ◌≡◌, refl}
use doris_sync.Base.Table.{lookup, upsert, string_key}
use doris_sync.Base.Act.{errorf, Result, ok, err, killed, Act, fail, After, ◌>>◌}
use doris_sync.State.{
  Disk, Memory, PartitionState, TableKey, PartitionKey, json, table_key, partition_key,
}
use doris_sync.State.Encoding.{marshal_entry, unmarshal_entry}
use doris_sync.State.Keys.{split_state_key}
use doris_sync.World.{World, Env, saved_partition, write}

abbrev pub set_disk : (Disk → Disk) → World → World
set_disk f w = record w { disk = f w.disk }

abbrev pub set_memory : (Memory → Memory) → World → World
set_memory f w = record w { memory = f w.memory }

-- Assignments to the fields in memory.
abbrev pub modify : (Memory → Memory) → Act World (Unit {0})
modify f w = (ok tt, set_memory f w)

-- s.Tables[key]: "" if there is none.
abbrev pub table_hash : String → World → String
table_hash key w = elim (lookup key w.memory.tables) [ none ↦ "" | some hash ↦ hash ]

abbrev pub with_parts {ℓ} :
    {A : Type ℓ}
    → Result (List String)
    → (String → String → String → String → World → Result A × World)
    → World
    → Result A × World
with_parts (ok (a ∷ b ∷ c ∷ d ∷ [])) f w = f a b c d w
with_parts (ok _) f w = (err (errorf "invalid state key"), w)
with_parts (err e) f w = (err e, w)
with_parts killed f w = (killed, w)

-- The statements on the SQLite file.
abbrev pub put_metadata : World → World
put_metadata w =
    set_disk
      (λ d. record d {
        metadata = upsert "time_field" w.memory.time_field (upsert "mode" w.memory.mode d.metadata);
      })
      w

abbrev pub put_hash : TableKey → String → World → World
put_hash key hash = set_disk (λ d. record d { table_state = upsert key hash d.table_state })

abbrev pub put_count : TableKey → ℕ → World → World
put_count key count =
    set_disk (λ d. record d { table_inventory = upsert key count d.table_inventory })

-- The column state_json holds what json.Unmarshal reads of what json.Marshal writes.
abbrev pub put_entry : PartitionKey → PartitionState → World → World
put_entry key entry w = record w {
  disk = record w.disk {
    partition_state = upsert key (unmarshal_entry (marshal_entry entry)) w.disk.partition_state;
  };
  history = saved_partition key entry ∷ w.history;
}

abbrev pub table_at : String → String → String → TableKey
table_at source target table = record { source = source; target = target; table = table }

module _ (env : Env) where
  -- One transaction over the two settings.
  unfoldable pub save_metadata : Act World (Unit {0})
  save_metadata = write env put_metadata

  unfoldable pub save_table : String → Act World (Unit {0})
  save_table key = with_parts (split_state_key key) λ source target table _ w.
      write env (put_hash (table_at source target table) (table_hash key w)) w

  unfoldable pub save_inventory : String → ℕ → Act World (Unit {0})
  save_inventory key count = with_parts (split_state_key key) λ source target table _. do
    write env (put_count (table_at source target table) count)
    modify λ m. record m { inventory = upsert key count m.inventory }

  unfoldable pub write_entry : PartitionKey → Option PartitionState → Act World (Unit {0})
  write_entry key none = fail (errorf "missing partition state")
  write_entry key (some entry) = write env (put_entry key entry)

  unfoldable pub save_partition : String → Act World (Unit {0})
  save_partition key = with_parts (split_state_key key) λ source target table partition w.
      write_entry
        (record { source = source; target = target; table = table; partition = partition })
        (lookup key w.memory.partitions) w

-- The rule for `with_parts`.
pub After-with_parts :
    {A : Type 0} {I : World → Type 0} {Q : A → World → Type 0} (parts : Result (List String))
    (f : String → String → String → String → World → Result A × World) (w : World)
    → I w
    → ((a b c d : String) → parts ≡ ok (a ∷ b ∷ c ∷ d ∷ []) → After I Q (f a b c d w))
    → After I Q (with_parts parts f w)
After-with_parts (ok (a ∷ b ∷ c ∷ d ∷ [])) f w i h = h a b c d refl
After-with_parts (ok []) f w i h = record { holds = i }
After-with_parts (ok (a ∷ [])) f w i h = record { holds = i }
After-with_parts (ok (a ∷ b ∷ [])) f w i h = record { holds = i }
After-with_parts (ok (a ∷ b ∷ c ∷ [])) f w i h = record { holds = i }
After-with_parts (ok (a ∷ b ∷ c ∷ d ∷ e ∷ more)) f w i h = record { holds = i }
After-with_parts (err x) f w i h = record { holds = i }
After-with_parts killed f w i h = record { holds = i }
