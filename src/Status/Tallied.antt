-- ===== src/Status/Tallied.antt =====
-- status.go: what the loop over the partitions counts and lists.
use doris_sync.Base.{
  ℕ, suc, ◌+◌, String, ◌==◌, Bool, true, false, List, [], ◌∷◌, Option, none, some, ◌≡◌, refl, ap,
  ◌∙◌, sym, arith, length, if◌then◌else◌,
}
use doris_sync.Base.Text.{str_lt}
use doris_sync.Base.Table.{Table, lookup, upsert, string_key}
use doris_sync.Base.Act.{ok}
use doris_sync.State.{PartitionState, PartitionKey, TableKey, Json, json, corrupt}
use doris_sync.State.Keys.{state_key}
use doris_sync.Status.Report.{StatusTable, StatusPartition}
use doris_sync.Status.Partitions.{
  Phase, phase_of, Tally, inventory_tables, of_table, count_phase, table_or_new, shown, with_active,
  with_syncing, add_partition, tally_rows, insert_by, sort_by, sum_of,
}

length-insert_by :
    {A : Type 0} (key : A → String) (x : A) (ys : List A)
    → length (insert_by key x ys) ≡ suc (length ys)
unfolding insert_by
length-insert_by key x [] = refl
length-insert_by {A = A} key x (y ∷ ys) =
    go (str_lt (key y) (key x)) (insert_by key x ys) (length-insert_by key x ys)
  where
    go :
        (b : Bool) (rest : List A)
        → length rest ≡ suc (length ys)
        → length (if b then y ∷ rest else x ∷ y ∷ ys) ≡ suc (suc (length ys))
    go true rest e = ap suc e
    go false rest e = refl

pub length-sort_by :
    {A : Type 0} (key : A → String) (xs : List A) → length (sort_by key xs) ≡ length xs
unfolding sort_by
length-sort_by key [] = refl
length-sort_by key (x ∷ xs) =
    length-insert_by key x (sort_by key xs) ∙ ap suc (length-sort_by key xs)

abbrev prior : (StatusTable → ℕ) → Option StatusTable → ℕ
prior f none = 0
prior f (some t) = f t

-- A table that takes the place of another.
sum_of-upsert :
    (f : StatusTable → ℕ) (name : String) (t : StatusTable) (rows : Table String StatusTable)
    → sum_of f (upsert name t rows) + prior f (lookup name rows) ≡ sum_of f rows + f t
unfolding sum_of upsert lookup
sum_of-upsert f name t [] = omega arith
sum_of-upsert f name t ((b, u) ∷ rows) =
    go (b == name) (upsert name t rows) (lookup name rows) (sum_of-upsert f name t rows)
  where
    go :
        (c : Bool) (rest : Table String StatusTable) (o : Option StatusTable)
        → sum_of f rest + prior f o ≡ sum_of f rows + f t
        → sum_of f (if c then (b, t) ∷ rows else (b, u) ∷ rest) + prior f (if c then some u else o)
          ≡ f u + sum_of f rows + f t
    go true rest o e = omega arith
    go false rest o e = omega (arith, e)

abbrev fresh : PartitionKey → StatusTable
fresh k = of_table k.source k.target k.table

prior_lem :
    (f : StatusTable → ℕ) (k : PartitionKey) (o : Option StatusTable)
    → f (fresh k) ≡ 0
    → prior f o ≡ f (table_or_new k o)
prior_lem f k none h = sym h
prior_lem f k (some t) h = refl

-- A count grows as its table does.
grown :
    (f : StatusTable → ℕ) (phase : Phase) (more : ℕ) (k : PartitionKey) (name : String)
    (tables : Table String StatusTable)
    → f (fresh k) ≡ 0
    → ((t : StatusTable) → f (count_phase phase t) ≡ f t + more)
    → sum_of f (upsert name (count_phase phase (table_or_new k (lookup name tables))) tables)
      ≡ sum_of f tables + more
grown f phase more k name tables zero_at_first step =
    let o = lookup name tables in
    let all = sum_of-upsert f name (count_phase phase (table_or_new k o)) tables in
    let before = prior_lem f k o zero_at_first in let after = step (table_or_new k o) in omega arith

abbrev current : StatusTable → ℕ
current t = t.current_partitions

abbrev monitored : StatusTable → ℕ
monitored t = t.incremental_monitoring

abbrev lagging : StatusTable → ℕ
lagging t = t.incremental_syncing

abbrev observed : StatusTable → ℕ
observed t = t.observed_partitions

-- What a partition adds to the counts.
abbrev as_current : Phase → ℕ
as_current Phase.monitoring = 1
as_current Phase.syncing = 0
as_current Phase.initial = 0

abbrev as_lagging : Phase → ℕ
as_lagging Phase.monitoring = 0
as_lagging Phase.syncing = 1
as_lagging Phase.initial = 0

current_step : (p : Phase) (t : StatusTable) → current (count_phase p t) ≡ current t + as_current p
current_step Phase.monitoring t = refl
current_step Phase.syncing t = omega arith
current_step Phase.initial t = omega arith

monitored_step :
    (p : Phase) (t : StatusTable) → monitored (count_phase p t) ≡ monitored t + as_current p
monitored_step Phase.monitoring t = refl
monitored_step Phase.syncing t = omega arith
monitored_step Phase.initial t = omega arith

lagging_step : (p : Phase) (t : StatusTable) → lagging (count_phase p t) ≡ lagging t + as_lagging p
lagging_step Phase.monitoring t = omega arith
lagging_step Phase.syncing t = refl
lagging_step Phase.initial t = omega arith

observed_step : (p : Phase) (t : StatusTable) → observed (count_phase p t) ≡ observed t + 1
observed_step Phase.monitoring t = refl
observed_step Phase.syncing t = refl
observed_step Phase.initial t = refl

active_step :
    (p : Phase) (x : StatusPartition) (xs : List StatusPartition)
    → length (with_active p x xs) + as_current p ≡ suc (length xs)
active_step Phase.monitoring x xs = omega arith
active_step Phase.syncing x xs = omega arith
active_step Phase.initial x xs = omega arith

syncing_step :
    (p : Phase) (x : StatusPartition) (xs : List StatusPartition)
    → length (with_syncing p x xs) ≡ length xs + as_lagging p
syncing_step Phase.monitoring x xs = omega arith
syncing_step Phase.syncing x xs = omega arith
syncing_step Phase.initial x xs = omega arith

-- The tally of so many partitions.
pub record IsTallied (n : ℕ) (t : Tally) : Type 0 where
  pub each : length t.active + sum_of current t.tables ≡ n
  pub behind : length t.syncing ≡ sum_of lagging t.tables
  pub same : sum_of monitored t.tables ≡ sum_of current t.tables
  pub seen : sum_of observed t.tables ≡ n

add_partition-IsTallied :
    (k : PartitionKey) (e : PartitionState) (n : ℕ) (t : Tally)
    → IsTallied n t
    → IsTallied (suc n) (add_partition k e t)
unfolding add_partition
add_partition-IsTallied k e n t h =
    let p = phase_of e in
    let name = state_key k.source k.target k.table "" in
    let c = grown current p (as_current p) k name t.tables refl (current_step p) in
    let m = grown monitored p (as_current p) k name t.tables refl (monitored_step p) in
    let l = grown lagging p (as_lagging p) k name t.tables refl (lagging_step p) in
    let o = grown observed p 1 k name t.tables refl (observed_step p) in
    let a = active_step p (shown k e) t.active in
    let s = syncing_step p (shown k e) t.syncing in
    record {
      each = omega (arith, h.each, c, a);
      behind = omega (arith, h.behind, l, s);
      same = omega (arith, h.same, c, m);
      seen = omega (arith, h.seen, o);
    }

pub tally_rows-IsTallied :
    (rows : Table PartitionKey (Json PartitionState)) (n m : ℕ) (start t : Tally)
    → IsTallied n start
    → n + length rows ≡ m
    → tally_rows rows start ≡ ok t
    → IsTallied m t
unfolding tally_rows
tally_rows-IsTallied [] n m start t h e r =
    let same : t ≡ start = cc r in
    rw same (record {
      each = omega (arith, e, h.each);
      behind = h.behind;
      same = h.same;
      seen = omega (arith, e, h.seen);
    })
tally_rows-IsTallied ((k, json s) ∷ rows) n m start t h e r =
    tally_rows-IsTallied rows (suc n) m (add_partition k s start) t
      (add_partition-IsTallied k s n start h) (omega (arith, e)) r
tally_rows-IsTallied ((k, corrupt) ∷ rows) n m start t h e r = absurd (cc r)

-- The inventory counts no partition.
inventory_lem :
    (f : StatusTable → ℕ)
    → ((source target table : String) (n : ℕ)
        → f (record (of_table source target table) { total_partitions = n; inventory_known = true })
          ≡ 0)
    → (rows : Table TableKey ℕ) → sum_of f (inventory_tables rows) ≡ 0
unfolding inventory_tables sum_of
inventory_lem f h [] = refl
inventory_lem f h ((k, total) ∷ rows) =
    let name = state_key k.source k.target k.table "" in
    let t : StatusTable = record (of_table k.source k.target k.table) {
      total_partitions = total;
      inventory_known = true;
    } in
    let all = sum_of-upsert f name t (inventory_tables rows) in
    let rest = inventory_lem f h rows in
    let none_yet = h k.source k.target k.table total in omega arith

pub inventory_tables-IsTallied :
    (rows : Table TableKey ℕ)
    → IsTallied 0 (record { tables = inventory_tables rows; active = []; syncing = [] })
inventory_tables-IsTallied rows =
    let c = inventory_lem current (λ _ _ _ _. refl) rows in
    let l = inventory_lem lagging (λ _ _ _ _. refl) rows in
    let m = inventory_lem monitored (λ _ _ _ _. refl) rows in
    let o = inventory_lem observed (λ _ _ _ _. refl) rows in
    record { each = omega arith; behind = omega arith; same = omega arith; seen = omega arith }
