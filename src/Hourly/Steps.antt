-- ===== src/Hourly/Steps.antt =====
-- hourly.go: each call of a window keeps the protocol.
use doris_sync.Base.{String, true, some, List}
use doris_sync.Base.{◌∷◌, ◌≡◌, refl, ap}
use doris_sync.Base.Table.{upsert, lookup-upsert_self, same_refl}
use doris_sync.Base.Act.{Result, ok, err, killed, After, After-continue, After-answer}
use doris_sync.Config.{S3Options}
use doris_sync.State.{HourlyPending, HourlyState, HourlyTask, json, TableKey, table_key}
use doris_sync.World.{World, Env, Event, queried, executed, listed, saved_hourly, source, target}
use doris_sync.World.{tick, log, write_to, query, query_raw, exec, objects, write, random_hex}
use doris_sync.Rows.{RawRow, scan_rows}
use doris_sync.Store.{list, backup_generation_prefix}
use doris_sync.Clock.{Zone, Deps}
use doris_sync.Hourly.Window.{put_hourly, save_hourly}
use doris_sync.Hourly.Protocol.{
  started, ready, key, import_sql, MaySave, MayImport, announced, Inv, At,
}

module _ (env : Env) (deps : Deps) (z : Zone) (s3 : S3Options) (task : HourlyTask) where
  abbrev pub I : World → Type 0
  I = Inv z s3 task

  abbrev pub Here : HourlyState → World → Type 0
  Here = At z s3 task

  abbrev pub k : TableKey
  k = key z s3 task

  -- A call that is no import and saves no checkpoint keeps the checkpoint.
  pub tick_keeps : (e : HourlyState) (w : World) → Here e w → Here e (tick w)
  tick_keeps e w h = record {
    inv = record { legal = h.inv.legal; row = h.inv.row; is_ready = h.inv.is_ready };
    saved = h.saved;
  }

  pub list_keeps :
      (e : HourlyState) (prefix : String) (w : World)
      → Here e w
      → After I (λ _ w'. Here e w' × (w'.history ≡ listed prefix ∷ w.history)) (list env prefix w)
  unfolding list objects
  list_keeps e prefix w h =
      let h' : Here e (log (listed prefix) w) = record {
        inv = record { legal = h.inv.legal; row = h.inv.row; is_ready = h.inv.is_ready };
        saved = h.saved;
      } in
      After-continue {Q = λ _ w'. Here e w' × (w'.history ≡ listed prefix ∷ w.history)}
        (objects env prefix w) _ (After-answer (env.objects w.calls) _ h'.inv (λ _ _. (h', refl)))
        λ found w' here. record { holds = here }

  pub random_keeps :
      (e : HourlyState) (prefix : String) (w : World)
      → Here e w
      → After I (λ _ w'. Here e w') (backup_generation_prefix env prefix w)
  unfolding backup_generation_prefix random_hex
  random_keeps e prefix w h =
      After-continue (random_hex env w) _
        (After-answer (env.random w.calls) _ (tick_keeps e w h).inv (λ _ _. tick_keeps e w h))
        λ _ w' h'. record { holds = h' }

  -- A query of the source is the newest event behind it.
  pub query_keeps :
      (e : HourlyState) (sql : String) (w : World)
      → Here e w
      → After I
          (λ rows w'.
            Here e w'
            × ((raw : List RawRow) × (rows ≡ scan_rows raw)
                × (w'.history ≡ queried source sql (ok raw) ∷ w.history)))
          (query env source sql w)
  unfolding query query_raw
  query_keeps e sql w h =
      let r = env.query w.calls in
      let next : World = log (queried source sql r) w in
      let h' : Here e next = record {
        inv = record { legal = h.inv.legal; row = h.inv.row; is_ready = h.inv.is_ready };
        saved = h.saved;
      } in
      After-continue
        {Q = λ raw w'. Here e w' × (w'.history ≡ queried source sql (ok raw) ∷ w.history)}
        (query_raw env source sql w) _
        (After-answer r next h'.inv
          (λ raw eq. (h', ap (λ answer. queried source sql answer ∷ w.history) eq)))
        λ raw w' seen. record { holds = (seen.0, (raw, refl, seen.1)) }

  pub tick_Inv : (w : World) → I w → I (tick w)
  tick_Inv w i = record { legal = i.legal; row = i.row; is_ready = i.is_ready }

  pub write_answer :
      {Q : World → Type 0} (change : World → World) (r : Result (Unit {0})) (w : World)
      → I w
      → Q (change (tick w))
      → After I (λ _ w'. Q w') (write_to change r w)
  write_answer change (ok _) w i q = record { holds = q }
  write_answer change (err e) w i q = record { holds = tick_Inv w i }
  write_answer change killed w i q = record { holds = i }

  -- What a saved checkpoint establishes.
  abbrev pub Saved : HourlyState → List Event → World → Type 0
  Saved e h w = Here e w × (w.history ≡ saved_hourly k e ∷ h)

  pub put_Here :
      (e : HourlyState) (w w' : World)
      → I w
      → MaySave z s3 task w.history e
      → ready e.pending ≡ true
      → w'.history ≡ saved_hourly k e ∷ w.history
      → w'.disk.hourly_state ≡ upsert k (json e) w.disk.hourly_state
      → Here e w'
  put_Here e w w' i may fit hist disk = record {
    inv = record {
      legal = rw hist ((λ _. may), i.legal);
      row = rw (hist, disk) (rw (same_refl k) (lookup-upsert_self k (json e) w.disk.hourly_state));
      is_ready = rw hist (rw (same_refl k) fit);
    };
    saved = rw hist (rw (same_refl k) refl);
  }

  pub save_lem :
      (e : HourlyState) (w : World)
      → I w
      → MaySave z s3 task w.history e
      → ready e.pending ≡ true
      → After I (λ _ w'. Saved e w.history w') (save_hourly env deps s3 task.pair task.table e w)
  unfolding save_hourly write
  save_lem e w i may fit =
      write_answer (put_hourly k e) (env.write w.calls) w i
        (put_Here e w (put_hourly k e (tick w)) i may fit refl refl, refl)

  -- An import right behind the checkpoint that announces it.
  pub exec_lem :
      (e : HourlyState) (p : HourlyPending) (names : List String) (h : List Event) (w : World)
      → Saved e h w
      → e.pending ≡ some p
      → p.import_started ≡ true
      → p.from ≡ e.next
      → After I
          (λ _ w'.
            Here e w' × ((sql : String) × (w'.history ≡ executed target sql (ok tt) ∷ w.history)))
          (exec env target (import_sql z s3 task names p) w)
  unfolding exec
  exec_lem e p names h w s pending started from =
      let r = env.exec w.calls in
      let sql = import_sql z s3 task names p in
      let next : World = log (executed target sql r) w in
      let may : MayImport z s3 task sql w.history =
        rw s.1 (announced e p names pending started from refl) in
      let h' : Here e next = record {
        inv = record {
          legal = (may, s.0.inv.legal);
          row = s.0.inv.row;
          is_ready = s.0.inv.is_ready;
        };
        saved = s.0.saved;
      } in
      After-answer r next h'.inv
        (λ a eq. (h', (sql, ap (λ answer. executed target sql answer ∷ w.history) eq)))
