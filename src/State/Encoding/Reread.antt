-- ===== src/State/Encoding/Reread.antt =====
-- state.go: what json.Marshal writes of an entry, json.Unmarshal reads back.
use doris_sync.Base.{String, ◌==◌, Bool, true, false, not, List, [], ◌∷◌, Option, none, some}
use doris_sync.Base.{is_nil, ◌≡◌, refl, ap, sym, ◌∙◌, eq_iff}
use doris_sync.State.{PartitionState, DeltaState, json}
use doris_sync.State.Encoding.{
  Scalar, Value, text, flag, number, texts, scalar, unless_empty, marshal_delta, with_delta,
  marshal_entry, no_delta, no_entry, set_delta_field, read_delta, set_field, read_fields,
  unmarshal_entry,
}

-- One field, which is left out only where it has the zero value.
delta_step :
    (b : Bool) (tag : String) (v : Scalar) (rest : List (String × Scalar)) (d d' : DeltaState)
    → set_delta_field tag v d ≡ json d'
    → (b ≡ true → d' ≡ d)
    → read_delta (unless_empty b tag v rest) d ≡ read_delta rest d'
unfolding read_delta unless_empty
delta_step true tag v rest d d' h same = ap (read_delta rest) (sym (same refl))
delta_step false tag v rest d d' h same = rw h refl

entry_step :
    (b : Bool) (tag : String) (v : Value) (rest : List (String × Value)) (e e' : PartitionState)
    → set_field tag v e ≡ json e'
    → (b ≡ true → e' ≡ e)
    → read_fields (unless_empty b tag v rest) e ≡ read_fields rest e'
unfolding read_fields unless_empty
entry_step true tag v rest e e' h same = ap (read_fields rest) (sym (same refl))
entry_step false tag v rest e e' h same = rw h refl

delta_put :
    (tag : String) (v : Scalar) (rest : List (String × Scalar)) (d d' : DeltaState)
    → set_delta_field tag v d ≡ json d'
    → read_delta ((tag, v) ∷ rest) d ≡ read_delta rest d'
unfolding read_delta
delta_put tag v rest d d' h = rw h refl

entry_put :
    (tag : String) (v : Value) (rest : List (String × Value)) (e e' : PartitionState)
    → set_field tag v e ≡ json e'
    → read_fields ((tag, v) ∷ rest) e ≡ read_fields rest e'
unfolding read_fields
entry_put tag v rest e e' h = rw h refl

delta_done : (d : DeltaState) → read_delta [] d ≡ json d
unfolding read_delta
delta_done d = refl

entry_done : (e : PartitionState) → read_fields [] e ≡ json e
unfolding read_fields
entry_done e = refl

empty_text : (s : String) → (s == "") ≡ true → s ≡ ""
empty_text s = (eq_iff s "").0

empty_list : (xs : List String) → is_nil xs ≡ true → xs ≡ []
empty_list [] h = refl
empty_list (x ∷ xs) h = absurd (cc h)

empty_flag : (b : Bool) → not b ≡ true → b ≡ false
empty_flag true h = absurd (cc h)
empty_flag false h = refl

read-marshal_delta : (d : DeltaState) → read_delta (marshal_delta d) no_delta ≡ json d
unfolding marshal_delta set_delta_field
read-marshal_delta d =
    let s1 : DeltaState = record {
      from = d.from;
      to = "";
      source_identity = "";
      prefix = "";
      objects = [];
      backup_ready = false;
      import_started = false;
      label = "";
      attempt = 0;
      created_at = 0;
    } in
    let s2 : DeltaState = record {
      from = d.from;
      to = d.to;
      source_identity = "";
      prefix = "";
      objects = [];
      backup_ready = false;
      import_started = false;
      label = "";
      attempt = 0;
      created_at = 0;
    } in
    let s3 : DeltaState = record {
      from = d.from;
      to = d.to;
      source_identity = d.source_identity;
      prefix = "";
      objects = [];
      backup_ready = false;
      import_started = false;
      label = "";
      attempt = 0;
      created_at = 0;
    } in
    let s4 : DeltaState = record {
      from = d.from;
      to = d.to;
      source_identity = d.source_identity;
      prefix = d.prefix;
      objects = [];
      backup_ready = false;
      import_started = false;
      label = "";
      attempt = 0;
      created_at = 0;
    } in
    let s5 : DeltaState = record {
      from = d.from;
      to = d.to;
      source_identity = d.source_identity;
      prefix = d.prefix;
      objects = d.objects;
      backup_ready = false;
      import_started = false;
      label = "";
      attempt = 0;
      created_at = 0;
    } in
    let s6 : DeltaState = record {
      from = d.from;
      to = d.to;
      source_identity = d.source_identity;
      prefix = d.prefix;
      objects = d.objects;
      backup_ready = d.backup_ready;
      import_started = false;
      label = "";
      attempt = 0;
      created_at = 0;
    } in
    let s7 : DeltaState = record {
      from = d.from;
      to = d.to;
      source_identity = d.source_identity;
      prefix = d.prefix;
      objects = d.objects;
      backup_ready = d.backup_ready;
      import_started = d.import_started;
      label = "";
      attempt = 0;
      created_at = 0;
    } in
    let s8 : DeltaState = record {
      from = d.from;
      to = d.to;
      source_identity = d.source_identity;
      prefix = d.prefix;
      objects = d.objects;
      backup_ready = d.backup_ready;
      import_started = d.import_started;
      label = d.label;
      attempt = 0;
      created_at = 0;
    } in
    let s9 : DeltaState = record {
      from = d.from;
      to = d.to;
      source_identity = d.source_identity;
      prefix = d.prefix;
      objects = d.objects;
      backup_ready = d.backup_ready;
      import_started = d.import_started;
      label = d.label;
      attempt = d.attempt;
      created_at = 0;
    } in
    delta_put "from" (text d.from) _ no_delta s1 refl
    ∙ delta_put "to" (text d.to) _ s1 s2 refl
    ∙ delta_put "sourceIdentity" (text d.source_identity) _ s2 s3 refl
    ∙ delta_put "prefix" (text d.prefix) _ s3 s4 refl
    ∙ delta_step (is_nil d.objects) "objects" (texts d.objects) _ s4 s5 refl
        (λ h. ap (λ x. record s4 { objects = x }) (empty_list d.objects h))
    ∙ delta_put "backupReady" (flag d.backup_ready) _ s5 s6 refl
    ∙ delta_put "importStarted" (flag d.import_started) _ s6 s7 refl
    ∙ delta_put "label" (text d.label) _ s7 s8 refl
    ∙ delta_put "attempt" (number d.attempt) _ s8 s9 refl
    ∙ delta_put "createdAt" (number d.created_at) _ s9 d refl
    ∙ delta_done d

delta_field :
    (o : Option DeltaState) (rest : List (String × Value)) (e e' : PartitionState)
    → record e { pending_delta = o } ≡ e'
    → e.pending_delta ≡ none
    → read_fields (with_delta o rest) e ≡ read_fields rest e'
unfolding read_fields set_field with_delta
delta_field none rest e e' h fresh =
    ap (read_fields rest) (sym (ap (λ x. record e { pending_delta = x }) (sym fresh)) ∙ h)
delta_field (some d) rest e e' h fresh = rw (read-marshal_delta d, h) refl

-- Unmarshal gives the entry back whose fields Marshal has written.
pub unmarshal-marshal_entry : (e : PartitionState) → unmarshal_entry (marshal_entry e) ≡ json e
unfolding unmarshal_entry marshal_entry set_field
unmarshal-marshal_entry e =
    let s1 : PartitionState = record {
      source_identity = e.source_identity;
      backup_identity = "";
      backup_prefix = "";
      imported_identity = "";
      objects = [];
      backup_ready = false;
      import_in_progress = false;
      watermark = "";
      watermark_ready = false;
      pending_delta = none;
      updated_at = 0;
    } in
    let s2 : PartitionState = record {
      source_identity = e.source_identity;
      backup_identity = e.backup_identity;
      backup_prefix = "";
      imported_identity = "";
      objects = [];
      backup_ready = false;
      import_in_progress = false;
      watermark = "";
      watermark_ready = false;
      pending_delta = none;
      updated_at = 0;
    } in
    let s3 : PartitionState = record {
      source_identity = e.source_identity;
      backup_identity = e.backup_identity;
      backup_prefix = e.backup_prefix;
      imported_identity = "";
      objects = [];
      backup_ready = false;
      import_in_progress = false;
      watermark = "";
      watermark_ready = false;
      pending_delta = none;
      updated_at = 0;
    } in
    let s4 : PartitionState = record {
      source_identity = e.source_identity;
      backup_identity = e.backup_identity;
      backup_prefix = e.backup_prefix;
      imported_identity = e.imported_identity;
      objects = [];
      backup_ready = false;
      import_in_progress = false;
      watermark = "";
      watermark_ready = false;
      pending_delta = none;
      updated_at = 0;
    } in
    let s5 : PartitionState = record {
      source_identity = e.source_identity;
      backup_identity = e.backup_identity;
      backup_prefix = e.backup_prefix;
      imported_identity = e.imported_identity;
      objects = e.objects;
      backup_ready = false;
      import_in_progress = false;
      watermark = "";
      watermark_ready = false;
      pending_delta = none;
      updated_at = 0;
    } in
    let s6 : PartitionState = record {
      source_identity = e.source_identity;
      backup_identity = e.backup_identity;
      backup_prefix = e.backup_prefix;
      imported_identity = e.imported_identity;
      objects = e.objects;
      backup_ready = e.backup_ready;
      import_in_progress = false;
      watermark = "";
      watermark_ready = false;
      pending_delta = none;
      updated_at = 0;
    } in
    let s7 : PartitionState = record {
      source_identity = e.source_identity;
      backup_identity = e.backup_identity;
      backup_prefix = e.backup_prefix;
      imported_identity = e.imported_identity;
      objects = e.objects;
      backup_ready = e.backup_ready;
      import_in_progress = e.import_in_progress;
      watermark = "";
      watermark_ready = false;
      pending_delta = none;
      updated_at = 0;
    } in
    let s8 : PartitionState = record {
      source_identity = e.source_identity;
      backup_identity = e.backup_identity;
      backup_prefix = e.backup_prefix;
      imported_identity = e.imported_identity;
      objects = e.objects;
      backup_ready = e.backup_ready;
      import_in_progress = e.import_in_progress;
      watermark = e.watermark;
      watermark_ready = false;
      pending_delta = none;
      updated_at = 0;
    } in
    let s9 : PartitionState = record {
      source_identity = e.source_identity;
      backup_identity = e.backup_identity;
      backup_prefix = e.backup_prefix;
      imported_identity = e.imported_identity;
      objects = e.objects;
      backup_ready = e.backup_ready;
      import_in_progress = e.import_in_progress;
      watermark = e.watermark;
      watermark_ready = e.watermark_ready;
      pending_delta = none;
      updated_at = 0;
    } in
    let s10 : PartitionState = record {
      source_identity = e.source_identity;
      backup_identity = e.backup_identity;
      backup_prefix = e.backup_prefix;
      imported_identity = e.imported_identity;
      objects = e.objects;
      backup_ready = e.backup_ready;
      import_in_progress = e.import_in_progress;
      watermark = e.watermark;
      watermark_ready = e.watermark_ready;
      pending_delta = e.pending_delta;
      updated_at = 0;
    } in
    entry_put "sourceIdentity" (scalar (text e.source_identity)) _ no_entry s1 refl
    ∙ entry_step (e.backup_identity == "") "backupIdentity" (scalar (text e.backup_identity)) _ s1
        s2 refl (λ h. ap (λ x. record s1 { backup_identity = x }) (empty_text e.backup_identity h))
    ∙ entry_step (e.backup_prefix == "") "backupPrefix" (scalar (text e.backup_prefix)) _ s2 s3 refl
        (λ h. ap (λ x. record s2 { backup_prefix = x }) (empty_text e.backup_prefix h))
    ∙ entry_step (e.imported_identity == "") "importedIdentity" (scalar (text e.imported_identity))
        _ s3 s4 refl
        (λ h. ap (λ x. record s3 { imported_identity = x }) (empty_text e.imported_identity h))
    ∙ entry_step (is_nil e.objects) "objects" (scalar (texts e.objects)) _ s4 s5 refl
        (λ h. ap (λ x. record s4 { objects = x }) (empty_list e.objects h))
    ∙ entry_put "backupReady" (scalar (flag e.backup_ready)) _ s5 s6 refl
    ∙ entry_put "importInProgress" (scalar (flag e.import_in_progress)) _ s6 s7 refl
    ∙ entry_step (e.watermark == "") "watermark" (scalar (text e.watermark)) _ s7 s8 refl
        (λ h. ap (λ x. record s7 { watermark = x }) (empty_text e.watermark h))
    ∙ entry_step (not e.watermark_ready) "watermarkReady" (scalar (flag e.watermark_ready)) _ s8 s9
        refl (λ h. ap (λ x. record s8 { watermark_ready = x }) (empty_flag e.watermark_ready h))
    ∙ delta_field e.pending_delta _ s9 s10 refl refl
    ∙ entry_put "updatedAt" (scalar (number e.updated_at)) _ s10 e refl
    ∙ entry_done e
