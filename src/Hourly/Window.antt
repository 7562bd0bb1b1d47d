-- ===== src/Hourly/Window.antt =====
-- hourly.go: `loadHourly`, `saveHourly`, `saveCompletedHourly`, `finishHourly` and
-- `syncHourlyWindow`. The checkpoint that the code mutates is passed on as a value: `next` and
-- the pending window `p`.
use doris_sync.Base.{
  ℕ, String, ◌<>◌, ◌==◌, Bool, true, false, Option, none, some, not, List, [], ◌∷◌,
}
use doris_sync.Base.{is_nil, ◌||◌, ◌&&◌, if◌then◌else◌}
use doris_sync.Base.Table.{lookup, upsert, update}
use doris_sync.Base.Act.{errorf, Act, pure, fail, wrapping, ◌>>=◌, ◌>>◌}
use doris_sync.Config.{DatabasePair, S3Options}
use doris_sync.Sql.{ident, qtable, sql_literal, outfile_table_where_sql, import_labeled_sql}
use doris_sync.State.{
  HourlyPending, HourlyState, HourlyTask, Json, json, corrupt, TableKey, key_of, table_key,
}
use doris_sync.State.Keys.{state_key}
use doris_sync.World.{World, Env, saved_hourly, source, target, read, write, query, exec, now}
use doris_sync.Rows.{Row}
use doris_sync.Store.{partition_prefix, backup_generation_prefix, uri, list}
use doris_sync.Clock.{Zone, Deps, delta_label}

-- Equality of lists of texts.
unfoldable pub equal_strings : List String → List String → Bool
equal_strings [] [] = true
equal_strings (x ∷ xs) (y ∷ ys) = x == y && equal_strings xs ys
equal_strings _ _ = false

unfoldable pub hourly_where : Zone → String → ℕ → ℕ → String
unfolding ident sql_literal
hourly_where z field start end =
    " WHERE "
    <> (ident field
        <> (" >= "
            <> (sql_literal (z.format start)
                <> (" AND " <> (ident field <> (" < " <> sql_literal (z.format end)))))))

-- INSERT … ON CONFLICT DO UPDATE of the row.
abbrev pub put_hourly : TableKey → HourlyState → World → World
put_hourly key entry w = record w {
  disk = record w.disk { hourly_state = upsert key (json entry) w.disk.hourly_state };
  history = saved_hourly key entry ∷ w.history;
}

abbrev pub row_of : TableKey → World → Option (Json HourlyState)
row_of key w = lookup key w.disk.hourly_state

abbrev pub pending_matches : String → Option HourlyPending → Bool
pending_matches next none = true
pending_matches next (some p) = p.from == next

-- A checkpoint that was read: a pending window starts at the cursor.
unfoldable pub checked_entry : Json HourlyState → Act World HourlyState
checked_entry corrupt = fail (errorf "hourly state: invalid JSON")
checked_entry (json entry) =
    if entry.next == "" || not (pending_matches entry.next entry.pending)
    then fail (errorf "invalid hourly checkpoint")
    else pure entry

abbrev pub new_pending : String → String → HourlyPending
new_pending from to = record {
  from = from;
  to = to;
  prefix = "";
  objects = [];
  backup_ready = false;
  import_started = false;
  label = "";
  attempt = 0;
}

module _ (env : Env) (deps : Deps) (s3 : S3Options) where
  unfoldable pub save_hourly : DatabasePair → String → HourlyState → Act World (Unit {0})
  unfolding write
  save_hourly pair table entry = write env (put_hourly (key_of pair table) entry)

  unfoldable pub loaded_row :
      DatabasePair → String → String → Option (Json HourlyState) → Act World HourlyState
  unfolding save_hourly checked_entry
  loaded_row pair table start none = do
    let entry : HourlyState = record { next = start; pending = none }
    save_hourly pair table entry
    pure entry
  loaded_row pair table start (some row) = checked_entry row

  unfoldable pub load_hourly : DatabasePair → String → String → Act World HourlyState
  unfolding loaded_row read
  load_hourly pair table start = do
    row ← read env (row_of (key_of pair table))
    loaded_row pair table start row

  abbrev pub put_completed : TableKey → HourlyState → ℕ → World → World
  put_completed key entry time w =
      let w' = put_hourly key entry w in
      record w' {
        disk = record w'.disk {
          hourly_task =
              update key
                (λ task. record task { last_error = ""; last_success_at = deps.format_nano time })
                w'.disk.hourly_task;
        };
      }

  -- One transaction: the checkpoint, and the result of the task if the table has one.
  unfoldable pub save_completed_hourly : DatabasePair → String → HourlyState → Act World (Unit {0})
  unfolding write now
  save_completed_hourly pair table entry = do
    time ← now env
    write env (put_completed (key_of pair table) entry time)

  -- `entry` is the checkpoint with the pending window `p`.
  unfoldable pub finish_hourly :
      DatabasePair → String → String → HourlyPending → Act World HourlyState
  unfolding save_completed_hourly
  finish_hourly pair table next p =
      if p.from == next
      then (do
        let completed : HourlyState = record { next = p.to; pending = none }
        save_completed_hourly pair table completed
        pure completed)
      else fail (errorf "hourly checkpoint has no matching pending window")

  -- `entry.Pending == nil` opens the window and saves it.
  unfoldable pub open_window :
      DatabasePair
      → String
      → String
      → Option HourlyPending
      → String
      → String
      → Act World HourlyPending
  open_window pair table next (some p) from to = pure p
  open_window pair table next none from to = do
    let p = new_pending from to
    save_hourly pair table (record { next = next; pending = some p })
    pure p

  -- The import is announced in the checkpoint before it is sent.
  unfoldable pub start_import :
      HourlyTask → List String → String → HourlyPending → Act World HourlyState
  start_import task columns next p = do
    let started = record p { import_started = true }
    save_hourly task.pair task.table (record { next = next; pending = some started })
    wrapping
        ("hourly import "
          <> (p.label <> " returned an error; outcome must be verified before retrying: "))
        (exec env target (
          import_labeled_sql task.pair.target task.table (uri s3 p.prefix <> "*.parquet") columns
            p.label s3))
    finish_hourly task.pair task.table next started

  unfoldable pub import_window :
      HourlyTask → List String → String → HourlyPending → Act World HourlyState
  import_window task columns next p = do
    actual ← list env p.prefix
    if not (equal_strings actual p.objects)
        then fail (errorf "hourly backup files changed")
        else if p.import_started
        then fail (
            errorf (
              "hourly import "
              <> (p.label
                  <> " outcome is unknown after interruption; verify target rows before retrying")))
        else start_import task columns next p

  -- The checkpoint that an import needs.
  unfoldable pub ready_window :
      HourlyTask → List String → String → HourlyPending → Act World HourlyState
  ready_window task columns next p =
      if p.prefix == "" || p.label == "" || is_nil p.objects
      then fail (errorf "hourly backup checkpoint is incomplete")
      else import_window task columns next p

  -- The files of an export are recorded with the flag that they are complete.
  unfoldable pub record_backup :
      HourlyTask → List String → String → HourlyPending → List String → Act World HourlyState
  record_backup task columns next p [] =
      fail (errorf "hourly OUTFILE returned no files for nonempty window")
  record_backup task columns next p (o ∷ os) = do
    let backed = record p { objects = o ∷ os; backup_ready = true }
    save_hourly task.pair task.table (record { next = next; pending = some backed })
    ready_window task columns next backed

  -- Exporting a window that has rows.
  unfoldable pub export_window :
      HourlyTask → List String → String → HourlyPending → String → Act World HourlyState
  export_window task columns next p where_clause = do
    wrapping "hourly OUTFILE: " (
        query env source (
          outfile_table_where_sql task.pair.source task.table (uri s3 p.prefix) columns where_clause
            s3))
    objects ← list env p.prefix
    record_backup task columns next p objects

  -- A window without rows is complete.
  unfoldable pub after_probe :
      HourlyTask → List String → String → HourlyPending → String → List Row → Act World HourlyState
  after_probe task columns next p where_clause [] = finish_hourly task.pair task.table next p
  after_probe task columns next p where_clause (row ∷ rows) =
      export_window task columns next p where_clause

  -- `!p.BackupReady`: a new generation of the backup. An empty window needs none.
  unfoldable pub backup_window :
      Zone → HourlyTask → List String → String → HourlyPending → ℕ → ℕ → Act World HourlyState
  backup_window z task columns next p start end = do
    prefix ← backup_generation_prefix env (
        partition_prefix s3 task.pair.source task.pair.target task.table
          ("hourly_" <> z.utc_stamp start))
    let label =
        delta_label deps (state_key task.pair.source task.pair.target task.table "hourly")
          (z.format start) (z.format end) prefix 0
    let fresh = record p { prefix = prefix; objects = []; label = label }
    save_hourly task.pair task.table (record { next = next; pending = some fresh })
    let where_clause = hourly_where z task.time_field start end
    probe ←
        query env source
          ("SELECT 1 FROM " <> (qtable task.pair.source task.table <> (where_clause <> " LIMIT 1")))
    after_probe task columns next fresh where_clause probe

  -- The window that is pending has to be the one at the cursor.
  unfoldable pub run_window :
      Zone → HourlyTask → List String → String → HourlyPending → ℕ → ℕ → Act World HourlyState
  run_window z task columns next p start end =
      if not (p.from == z.format start && p.to == z.format end)
      then fail (errorf "pending hourly window does not match cursor")
      else if p.backup_ready
      then ready_window task columns next p
      else backup_window z task columns next p start end

  unfoldable pub sync_hourly_window :
      Zone → HourlyTask → List String → HourlyState → ℕ → ℕ → Act World HourlyState
  sync_hourly_window z task columns entry start end = do
    p ← open_window task.pair task.table entry.next entry.pending (z.format start) (z.format end)
    run_window z task columns entry.next p start end
