-- ===== src/Hourly/Protocol.antt =====
-- hourly.go: the order of checkpoints and imports of one table, read off the history of a run.
use doris_sync.Base.{ℕ, String, ◌<>◌, Bool, true, false, not, ◌||◌, Option, none, some, List}
use doris_sync.Base.{[], ◌∷◌, ◌≡◌, ◌⊎◌, if◌then◌else◌}
use doris_sync.Base.Text.{str_lt}
use doris_sync.Base.Act.{ok}
use doris_sync.Config.{S3Options}
use doris_sync.Rows.{RawRow}
use doris_sync.Sql.{qtable, import_labeled_sql, outfile_table_where_sql}
use doris_sync.State.{
  HourlyPending, HourlyState, HourlyTask, Json, json, TableKey, key_of, table_key,
}
use doris_sync.World.{
  World, Event, queried, executed, listed, deleted, saved_partition, saved_hourly, source, target,
}
use doris_sync.Store.{uri}
use doris_sync.Clock.{Zone}
use doris_sync.Hourly.Window.{hourly_where, row_of}

-- The checkpoint that was saved last.
abbrev pub last_saved : TableKey → List Event → Option HourlyState
last_saved k [] = none
last_saved k (saved_hourly j e ∷ h) = if table_key.same j k then some e else last_saved k h
last_saved k (queried side sql r ∷ h) = last_saved k h
last_saved k (executed side sql r ∷ h) = last_saved k h
last_saved k (listed prefix ∷ h) = last_saved k h
last_saved k (deleted key ∷ h) = last_saved k h
last_saved k (saved_partition j e ∷ h) = last_saved k h

abbrev pub decoded : Option HourlyState → Option (Json HourlyState)
decoded none = none
decoded (some e) = some (json e)

abbrev pub started : Option HourlyPending → Bool
started none = false
started (some p) = p.import_started

-- An import that was started has its backup.
abbrev pub ready : Option HourlyPending → Bool
ready none = true
ready (some p) = not p.import_started || p.backup_ready

abbrev pub ReadyRow : Option HourlyState → Type 0
ReadyRow none = Unit
ReadyRow (some e) = ready e.pending ≡ true

-- One of the events is such.
abbrev pub Within : (Event → Type 0) → List Event → Type 0
Within P [] = ⊥
Within P (x ∷ h) = P x ⊎ Within P h

module _ (z : Zone) (s3 : S3Options) (task : HourlyTask) where
  abbrev pub key : TableKey
  key = key_of task.pair task.table

  abbrev pub probe_sql : ℕ → ℕ → String
  probe_sql start end =
      "SELECT 1 FROM "
      <> (qtable task.pair.source task.table
          <> (hourly_where z task.time_field start end <> " LIMIT 1"))

  abbrev pub import_sql : List String → HourlyPending → String
  import_sql names p =
      import_labeled_sql task.pair.target task.table (uri s3 p.prefix <> "*.parquet") names p.label
        s3

  abbrev pub export_sql : List String → HourlyPending → ℕ → ℕ → String
  export_sql names p start end =
      outfile_table_where_sql task.pair.source task.table (uri s3 p.prefix) names
        (hourly_where z task.time_field start end) s3

  -- The source has written the rows of exactly this window below its prefix.
  abbrev pub IsExport : HourlyPending → Event → Type 0
  IsExport p x =
      (start : ℕ) × (end : ℕ) × (names : List String) × (rows : List RawRow) × (z.format start
        ≡ p.from)
      × (z.format end ≡ p.to)
      × (x ≡ queried source (export_sql names p start end) (ok rows))

  -- A backup that a checkpoint calls complete has been exported.
  abbrev pub Backed : Option HourlyPending → List Event → Type 0
  Backed none h = Unit
  Backed (some p) h = p.backup_ready ≡ true → Within (IsExport p) h

  -- What has to have just happened for the cursor to pass a window: its import has returned
  -- without an error, or the source has shown no row in it.
  abbrev pub Delivered : HourlyPending → List Event → Type 0
  Delivered p (executed target sql (ok _) ∷ h) = Unit
  Delivered p (queried source sql (ok []) ∷ h) =
      (start : ℕ) × (end : ℕ) × (z.format start ≡ p.from)
      × (z.format end ≡ p.to)
      × (sql ≡ probe_sql start end)
  Delivered p _ = ⊥

  -- When a checkpoint may be saved: the first one at the start of the task, one that
  -- stays at its window before the import, where a backup it calls complete has been exported, and one that passes a window that was delivered.
  pub data MaySave (h : List Event) (e : HourlyState) : Type 0 where
    first : last_saved key h ≡ none → e.next ≡ task.start → e.pending ≡ none → MaySave h e
    stay :
        (old : HourlyState)
        → last_saved key h ≡ some old
        → started old.pending ≡ false
        → ready e.pending ≡ true
        → e.next ≡ old.next
        → Backed e.pending h
        → MaySave h e
    advance :
        (old : HourlyState) (p : HourlyPending)
        → last_saved key h ≡ some old
        → old.pending ≡ some p
        → p.from ≡ old.next
        → e ≡ record { next = p.to; pending = none }
        → str_lt old.next p.to ≡ true
        → Delivered p h
        → MaySave h e

  -- When a statement may be sent to the target: right behind the checkpoint that announces it, and
  -- it is the import of that checkpoint.
  pub data MayImport (sql : String) : List Event → Type 0 where
    announced :
        (e : HourlyState) (p : HourlyPending) (names : List String) {h : List Event}
        → e.pending ≡ some p
        → p.import_started ≡ true
        → p.from ≡ e.next
        → sql ≡ import_sql names p
        → MayImport sql (saved_hourly key e ∷ h)

  abbrev pub Legal : List Event → Type 0
  Legal [] = Unit
  Legal (saved_hourly j e ∷ h) = (table_key.same j key ≡ true → MaySave h e) × Legal h
  Legal (executed target sql r ∷ h) = MayImport sql h × Legal h
  Legal (executed source sql r ∷ h) = Legal h
  Legal (queried side sql r ∷ h) = Legal h
  Legal (listed prefix ∷ h) = Legal h
  Legal (deleted k ∷ h) = Legal h
  Legal (saved_partition j e ∷ h) = Legal h

  -- The history is legal, and the file holds the checkpoint that was saved last.
  pub record Inv (w : World) : Type 0 where
    pub legal : Legal w.history
    pub row : row_of key w ≡ decoded (last_saved key w.history)
    pub is_ready : ReadyRow (last_saved key w.history)

  -- The checkpoint in memory is the one that was saved last.
  pub record At (e : HourlyState) (w : World) : Type 0 where
    pub inv : Inv w
    pub saved : last_saved key w.history ≡ some e
