-- ===== src/Partition/Announce.antt =====
-- main.go: the order of a partition's records in the file and of the statements to the target.
use doris_sync.Base.{String, ◌<>◌, true, List, [], ◌∷◌, some, ◌≡◌, refl}
use doris_sync.Base.{◌⊎◌, inl, inr, is_nil, Bool-cases}
use doris_sync.Base.Table.{lookup, lookup-upsert_self, string_key}
use doris_sync.Base.Act.{Result, ok, err, killed, After, After-continue, After-answer}
use doris_sync.Config.{S3Options}
use doris_sync.Sql.{overwrite_sql, overwrite_auto_partition_sql, import_sql, import_labeled_sql}
use doris_sync.State.{PartitionState, DeltaState, PartitionKey}
use doris_sync.State.Keys.{split_state_key}
use doris_sync.World.{
  World, Env, Event, Object, queried, executed, listed, deleted, saved_hourly, saved_partition,
}
use doris_sync.World.{
  source, target, tick, log, write, write_to, objects, delete_object, random_hex,
}
use doris_sync.Store.{uri, list, clear, delete_all, is_unsafe_prefix, backup_generation_prefix}
use doris_sync.Database.Keeps.{IsStable}
use doris_sync.SyncState.{save_partition, write_entry, put_entry, After-with_parts}
use doris_sync.Partition.Full.{Job, job_key, source_identity, assign, entry_at}

-- The statement that an automatic overwrite sends first.
abbrev pub auto_create_sql : String
auto_create_sql = "SET enable_auto_create_when_overwrite = true"

-- The text of a statement that loads the backup of an entry into the target of a job.
abbrev pub files : S3Options → PartitionState → String
files s3 e = uri s3 e.backup_prefix <> "*.parquet"

pub data LoadsBackup (s3 : S3Options) (j : Job) (e : PartitionState) (sql : String) : Type 0 where
  overwrites :
      (part : String)
      → sql ≡ overwrite_sql j.pair.target j.table part (files s3 e) j.columns (is_nil e.objects) s3
      → LoadsBackup s3 j e sql
  overwrites_auto :
      sql ≡ overwrite_auto_partition_sql j.pair.target j.table (files s3 e) j.columns s3
      → LoadsBackup s3 j e sql
  inserts :
      sql ≡ import_sql j.pair.target j.table (files s3 e) j.columns s3 → LoadsBackup s3 j e sql

-- The row of a job's partition.
abbrev pub OfJob : Job → PartitionKey → Type 0
OfJob j key =
    split_state_key (job_key j) ≡ ok (key.source ∷ key.target ∷ key.table ∷ key.partition ∷ [])

-- A record that announces the statement: a complete backup with its import in progress, or a delta
-- with its backup whose import was started.
pub data Announcement (s3 : S3Options) (sql : String) (key : PartitionKey) (e : PartitionState)
    : Type 0 where
  of_backup :
      (j : Job)
      → OfJob j key
      → e.import_in_progress ≡ true
      → e.backup_ready ≡ true
      → e.backup_identity ≡ source_identity j.part
      → LoadsBackup s3 j e sql
      → Announcement s3 sql key e
  of_delta :
      (j : Job) (d : DeltaState)
      → OfJob j key
      → e.pending_delta ≡ some d
      → d.import_started ≡ true
      → d.backup_ready ≡ true
      → sql
        ≡ import_labeled_sql j.pair.target j.table
            (uri s3 d.prefix <> "*.parquet")
            j.columns
            d.label
            s3
      → Announcement s3 sql key e

-- The newest event is a record that announces the statement.
abbrev pub Announced : S3Options → String → List Event → Type 0
Announced s3 sql (saved_partition key e ∷ h) = Announcement s3 sql key e
Announced s3 sql _ = ⊥

-- The newest event is the setting for an automatic overwrite, right behind such a record.
abbrev pub AfterSet : S3Options → String → List Event → Type 0
AfterSet s3 sql (executed target set (ok _) ∷ h) = (set ≡ auto_create_sql) × Announced s3 sql h
AfterSet s3 sql _ = ⊥

-- When a statement may be sent to the target.
pub data MaySend (s3 : S3Options) (sql : String) (h : List Event) : Type 0 where
  announced : Announced s3 sql h → MaySend s3 sql h
  after_set : AfterSet s3 sql h → MaySend s3 sql h
  sets : (next : String) → sql ≡ auto_create_sql → Announced s3 next h → MaySend s3 sql h

-- Each statement to the target prepares it, or was announced.
abbrev pub Guarded : S3Options → (String → Type 0) → List Event → Type 0
Guarded s3 prepares [] = Unit
Guarded s3 prepares (executed target sql r ∷ h) =
    (prepares sql ⊎ MaySend s3 sql h) × Guarded s3 prepares h
Guarded s3 prepares (executed source sql r ∷ h) = Guarded s3 prepares h
Guarded s3 prepares (queried side sql r ∷ h) = Guarded s3 prepares h
Guarded s3 prepares (listed prefix ∷ h) = Guarded s3 prepares h
Guarded s3 prepares (deleted key ∷ h) = Guarded s3 prepares h
Guarded s3 prepares (saved_partition key e ∷ h) = Guarded s3 prepares h
Guarded s3 prepares (saved_hourly key e ∷ h) = Guarded s3 prepares h

-- What the steps establish for the entry of one name.
module _ (env : Env) (s3 : S3Options) (prepares : String → Type 0) (name : String) where
  abbrev pub Safe : World → Type 0
  Safe w = Guarded s3 prepares w.history

  -- The entry is in the map, and it is as `P` says.
  pub record Has (P : PartitionState → Type 0) (w : World) : Type 0 where
    pub safe : Safe w
    pub entry : PartitionState
    pub there : lookup name w.memory.partitions ≡ some entry
    pub fits : P entry

  -- The record of that entry is the newest event.
  pub record Recorded (P : PartitionState → Type 0) (w : World) : Type 0 where
    pub has : Has P w
    pub key : PartitionKey
    pub of_name :
        split_state_key name ≡ ok (key.source ∷ key.target ∷ key.table ∷ key.partition ∷ [])
    pub before : List Event
    pub newest : w.history ≡ saved_partition key has.entry ∷ before

  abbrev pub Keeps : (PartitionState → Type 0) → {A : Type 0} → Result A × World → Type 0
  Keeps P r = After Safe (λ _ w. Has P w) r

  module _ {P : PartitionState → Type 0} where
    pub Has-tick : (w : World) → Has P w → Has P (tick w)
    Has-tick w h = record { safe = h.safe; entry = h.entry; there = h.there; fits = h.fits }

    pub Has-IsStable : IsStable (Has P)
    Has-IsStable = record {
      at_tick = λ w h. record { safe = h.safe; entry = h.entry; there = h.there; fits = h.fits };
      at_query = λ w side sql r h. record {
        safe = h.safe;
        entry = h.entry;
        there = h.there;
        fits = h.fits;
      };
    }

    -- The entry that the code reads.
    pub Has-entry_at : (w : World) → Has P w → P (entry_at name w)
    Has-entry_at w h = rw h.there h.fits

    pub Has-answer : {A : Type 0} (r : Result A) (w : World) → Has P w → Keeps P (r, w)
    Has-answer r w h = After-answer r w h.safe (λ _ _. h)

    pub list-Keeps : (prefix : String) (w : World) → Has P w → Keeps P (list env prefix w)
    unfolding list objects
    list-Keeps prefix w h =
        let h' : Has P (log (listed prefix) w) = record {
          safe = h.safe;
          entry = h.entry;
          there = h.there;
          fits = h.fits;
        } in
        After-continue _ _ (Has-answer (env.objects w.calls) _ h') λ _ _ k. record { holds = k }

    pub random-Keeps :
        (root : String) (w : World) → Has P w → Keeps P (backup_generation_prefix env root w)
    unfolding backup_generation_prefix random_hex
    random-Keeps root w h =
        After-continue _ _ (Has-answer (env.random w.calls) (tick w) (Has-tick w h))
          λ _ _ k. record { holds = k }

    delete-Keeps : (found : List Object) (w : World) → Has P w → Keeps P (delete_all env found w)
    unfolding delete_all delete_object
    delete-Keeps [] w h = record { holds = h }
    delete-Keeps (o ∷ found) w h =
        let h' : Has P (log (deleted o.key) w) = record {
          safe = h.safe;
          entry = h.entry;
          there = h.there;
          fits = h.fits;
        } in
        After-continue _ _ (Has-answer (env.delete w.calls) _ h') λ _ w₁ k. delete-Keeps found w₁ k

    pub clear-Keeps : (prefix : String) (w : World) → Has P w → Keeps P (clear env s3 prefix w)
    unfolding clear objects
    clear-Keeps prefix w h =
        let h' : Has P (log (listed prefix) w) = record {
          safe = h.safe;
          entry = h.entry;
          there = h.there;
          fits = h.fits;
        } in
        elim (Bool-cases (is_unsafe_prefix s3 prefix)) [
          | inl unsafe ↦ rw unsafe (record { holds = h.safe })
          | inr safe ↦ rw safe (
              After-continue _ _ (Has-answer (env.objects w.calls) _ h')
                λ found w₁ k. delete-Keeps found w₁ k)
        ]

  module _ {P R : PartitionState → Type 0} where
    -- An assignment through the pointer.
    pub Has-assign :
        (f : PartitionState → PartitionState) (w : World)
        → Has P w
        → ((e : PartitionState) → P e → R (f e))
        → Has R (assign name f w).1
    Has-assign f w h fits = record {
      safe = h.safe;
      entry = f (entry_at name w);
      there = lookup-upsert_self name (f (entry_at name w)) w.memory.partitions;
      fits = fits (entry_at name w) (Has-entry_at w h);
    }

  module _ {P : PartitionState → Type 0} where
    put_lem :
        (w : World) (h : Has P w) (key : PartitionKey)
        → split_state_key name ≡ ok (key.source ∷ key.target ∷ key.table ∷ key.partition ∷ [])
        → Recorded P (put_entry key h.entry (tick w))
    put_lem w h key of_name = record {
      has = record { safe = h.safe; entry = h.entry; there = h.there; fits = h.fits };
      key = key;
      of_name = of_name;
      before = w.history;
      newest = refl;
    }

    written :
        (change : World → World) (r : Result (Unit {0})) (w : World)
        → Safe w
        → Recorded P (change (tick w))
        → After Safe (λ _ w'. Recorded P w') (write_to change r w)
    written change (ok _) w i q = record { holds = q }
    written change (err e) w i q = record { holds = i }
    written change killed w i q = record { holds = i }

    pub save-Recorded :
        (w : World) → Has P w → After Safe (λ _ w'. Recorded P w') (save_partition env name w)
    unfolding save_partition write_entry write
    save-Recorded w h = After-with_parts (split_state_key name) _ w h.safe λ a b c d of_name.
        let key : PartitionKey = record { source = a; target = b; table = c; partition = d } in
        rw h.there
          (written (put_entry key h.entry) (env.write w.calls) w h.safe (put_lem w h key of_name))
