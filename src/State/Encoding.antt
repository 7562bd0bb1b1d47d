-- ===== src/State/Encoding.antt =====
-- state.go: the JSON of a `partitionState`, as json.Marshal writes it and json.Unmarshal reads it: an
-- object by its tags, whose values keep their kinds. The text of an object, and that of a time, are
-- the library's. Unmarshal takes a tag in any case; no two of these differ by case only.
pub mod Reread
use doris_sync.Base.{
  ℕ, String, ◌==◌, Bool, true, false, not, ◌||◌, List, [], ◌∷◌, Option, none, some,
}
use doris_sync.Base.{is_nil, if◌then◌else◌}
use doris_sync.State.{PartitionState, DeltaState, Json, json, corrupt}

-- The values of an object that holds no other one, and those of one that may.
pub data Scalar : Type 0 where
  text : String → Scalar
  flag : Bool → Scalar
  number : ℕ → Scalar
  texts : List String → Scalar

pub data Value : Type 0 where
  scalar : Scalar → Value
  object : List (String × Scalar) → Value

-- A field with the option omitempty.
unfoldable pub unless_empty {ℓ} :
    {A : Type ℓ} → Bool → String → A → List (String × A) → List (String × A)
unless_empty empty tag value rest = if empty then rest else (tag, value) ∷ rest

unfoldable pub marshal_delta : DeltaState → List (String × Scalar)
marshal_delta d =
    ("from", text d.from)
    ∷ ("to", text d.to)
    ∷ ("sourceIdentity", text d.source_identity)
    ∷ ("prefix", text d.prefix)
    ∷ unless_empty (is_nil d.objects) "objects" (texts d.objects) (
        ("backupReady", flag d.backup_ready)
        ∷ ("importStarted", flag d.import_started)
        ∷ ("label", text d.label)
        ∷ ("attempt", number d.attempt)
        ∷ ("createdAt", number d.created_at)
        ∷ [])

-- A nil pointer is empty.
unfoldable pub with_delta : Option DeltaState → List (String × Value) → List (String × Value)
with_delta none rest = rest
with_delta (some d) rest = ("pendingDelta", object (marshal_delta d)) ∷ rest

unfoldable pub marshal_entry : PartitionState → List (String × Value)
marshal_entry e =
    ("sourceIdentity", scalar (text e.source_identity))
    ∷ unless_empty (e.backup_identity == "") "backupIdentity" (scalar (text e.backup_identity)) (
        unless_empty (e.backup_prefix == "") "backupPrefix" (scalar (text e.backup_prefix)) (
          unless_empty (e.imported_identity == "") "importedIdentity"
            (scalar (text e.imported_identity))
            (unless_empty (is_nil e.objects) "objects" (scalar (texts e.objects)) (
              ("backupReady", scalar (flag e.backup_ready))
              ∷ ("importInProgress", scalar (flag e.import_in_progress))
              ∷ unless_empty (e.watermark == "") "watermark" (scalar (text e.watermark)) (
                  unless_empty (not e.watermark_ready) "watermarkReady"
                    (scalar (flag e.watermark_ready))
                    (with_delta e.pending_delta
                      (("updatedAt", scalar (number e.updated_at)) ∷ [])))))))

-- Unmarshal starts at the zero values.
abbrev pub no_delta : DeltaState
no_delta = record {
  from = "";
  to = "";
  source_identity = "";
  prefix = "";
  objects = [];
  backup_ready = false;
  import_started = false;
  label = "";
  attempt = 0;
  created_at = 0;
}

abbrev pub no_entry : PartitionState
no_entry = record {
  source_identity = "";
  backup_identity = "";
  backup_prefix = "";
  imported_identity = "";
  objects = [];
  backup_ready = false;
  import_in_progress = false;
  watermark = "";
  watermark_ready = false;
  pending_delta = none;
  updated_at = 0;
}

abbrev pub as_text : {A : Type 0} → Scalar → (String → A) → Json A
as_text (text x) f = json (f x)
as_text (flag x) f = corrupt
as_text (number x) f = corrupt
as_text (texts x) f = corrupt

abbrev pub as_flag : {A : Type 0} → Scalar → (Bool → A) → Json A
as_flag (text x) f = corrupt
as_flag (flag x) f = json (f x)
as_flag (number x) f = corrupt
as_flag (texts x) f = corrupt

abbrev pub as_number : {A : Type 0} → Scalar → (ℕ → A) → Json A
as_number (text x) f = corrupt
as_number (flag x) f = corrupt
as_number (number x) f = json (f x)
as_number (texts x) f = corrupt

abbrev pub as_texts : {A : Type 0} → Scalar → (List String → A) → Json A
as_texts (text x) f = corrupt
as_texts (flag x) f = corrupt
as_texts (number x) f = corrupt
as_texts (texts x) f = json (f x)

-- The field of a tag; other tags are ignored, and a value of another kind is an error.
unfoldable pub set_delta_field : String → Scalar → DeltaState → Json DeltaState
set_delta_field tag v d =
    if tag == "from"
    then as_text v (λ x. record d { from = x })
    else if tag == "to"
    then as_text v (λ x. record d { to = x })
    else if tag == "sourceIdentity"
    then as_text v (λ x. record d { source_identity = x })
    else if tag == "prefix"
    then as_text v (λ x. record d { prefix = x })
    else if tag == "objects"
    then as_texts v (λ x. record d { objects = x })
    else if tag == "backupReady"
    then as_flag v (λ x. record d { backup_ready = x })
    else if tag == "importStarted"
    then as_flag v (λ x. record d { import_started = x })
    else if tag == "label"
    then as_text v (λ x. record d { label = x })
    else if tag == "attempt"
    then as_number v (λ x. record d { attempt = x })
    else if tag == "createdAt"
    then as_number v (λ x. record d { created_at = x })
    else json d

abbrev pub then_json : {A B : Type 0} → Json A → (A → Json B) → Json B
then_json (json a) f = f a
then_json corrupt f = corrupt

-- The fields, one after the other.
unfoldable pub read_delta : List (String × Scalar) → DeltaState → Json DeltaState
read_delta [] d = json d
read_delta ((tag, v) ∷ rest) d = then_json (set_delta_field tag v d) (λ d'. read_delta rest d')

abbrev pub delta_of : Json DeltaState → PartitionState → Json PartitionState
delta_of (json d) e = json (record e { pending_delta = some d })
delta_of corrupt e = corrupt

-- The tags of the fields that hold no object.
abbrev pub is_plain_tag : String → Bool
is_plain_tag tag =
    tag == "sourceIdentity"
    || tag == "backupIdentity"
    || tag == "backupPrefix"
    || tag == "importedIdentity"
    || tag == "objects"
    || tag == "backupReady"
    || tag == "importInProgress"
    || tag == "watermark"
    || tag == "watermarkReady"
    || tag == "updatedAt"

unfoldable pub set_field : String → Value → PartitionState → Json PartitionState
set_field tag (object fields) e =
    if tag == "pendingDelta"
    then delta_of (read_delta fields no_delta) e
    else if is_plain_tag tag
    then corrupt
    else json e
set_field tag (scalar v) e =
    if tag == "sourceIdentity"
    then as_text v (λ x. record e { source_identity = x })
    else if tag == "backupIdentity"
    then as_text v (λ x. record e { backup_identity = x })
    else if tag == "backupPrefix"
    then as_text v (λ x. record e { backup_prefix = x })
    else if tag == "importedIdentity"
    then as_text v (λ x. record e { imported_identity = x })
    else if tag == "objects"
    then as_texts v (λ x. record e { objects = x })
    else if tag == "backupReady"
    then as_flag v (λ x. record e { backup_ready = x })
    else if tag == "importInProgress"
    then as_flag v (λ x. record e { import_in_progress = x })
    else if tag == "watermark"
    then as_text v (λ x. record e { watermark = x })
    else if tag == "watermarkReady"
    then as_flag v (λ x. record e { watermark_ready = x })
    else if tag == "pendingDelta"
    then corrupt
    else if tag == "updatedAt"
    then as_number v (λ x. record e { updated_at = x })
    else json e

unfoldable pub read_fields : List (String × Value) → PartitionState → Json PartitionState
read_fields [] e = json e
read_fields ((tag, v) ∷ rest) e = then_json (set_field tag v e) (λ e'. read_fields rest e')

unfoldable pub unmarshal_entry : List (String × Value) → Json PartitionState
unmarshal_entry fields = read_fields fields no_entry
