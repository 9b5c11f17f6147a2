-- ===== src/Store/Prepare.antt =====
-- The part of `_append` of storage/postgres.py before the connection is taken: the checks, the
-- fingerprint, the screen, and the row that is to be inserted.
use mcp_assist_memory.Prelude.{
  ℕ, Text, codes, Bool, true, false, not, Option, none, some, List, [], ◌∷◌, ◌&&◌, text_eq,
  mem_text, if◌then◌else◌, String,
}
use mcp_assist_memory.Errors.{Code}
use mcp_assist_memory.Result.{Result, ok, ◌>>=◌, ◌>>◌, raise, raise_if}
use mcp_assist_memory.Json.{Json, null, str, obj, Fields, end, field, get, opt_truthy, dumped}
use mcp_assist_memory.ShaEquiv.{Lookup}
use mcp_assist_memory.Sanitize.{sanitize}
use mcp_assist_memory.Screening.{screen_value}
use mcp_assist_memory.Store.Rows.{Draft}
use mcp_assist_memory.Store.Boundary.{boundary_meta, split_meta}

-- What the writer relies on: the namespace's profile, the resolver, the embedder (the first argument
-- says whether the text is a query), `rfc8785.dumps` (`none` where it raises), the hexadecimal
-- SHA-256 and the `repr` of a float.
pub record Services : Type 0 where
  pub profile : Fields
  pub resolver : Lookup
  pub embed_entry : Text → Json → Option Text
  pub embed_text : Bool → Text → Option Text
  pub jcs : Json → Option Text
  pub sha256 : Text → Text
  pub float_repr : ℕ → Text

-- the arguments of `_append`
pub record Request : Type 0 where
  pub namespace : Text
  pub key : Text
  pub value : Json
  pub kind : Text
  pub tags : List Text
  pub source_surface : Option Text
  pub event_id : Option Text
  pub tombstone : Bool
  pub meta : Option Json
  pub actor : Text
  pub salience : Option Json
  pub confidence : Option Json
  pub valid_until : Option ℕ
  pub embeddings : Option (Option Text × Option Text)
  pub origin : Text
  pub origin_detail : Option Text
  pub origin_model_id : Option Text
  pub origin_model_family : Option Text
  pub derived_from : List Text
  pub tool : Text
  pub role : Option Text

abbrev pub roles : List Text
roles =
    codes "author" ∷ codes "observer" ∷ codes "verifier" ∷ codes "curator" ∷ codes "approver" ∷ []

abbrev pub origins : List Text
origins =
    codes "tool" ∷ codes "retrieval" ∷ codes "synthesized" ∷ codes "human" ∷ codes "unknown" ∷ []

abbrev pub unattributed : Text
unattributed = codes "unattributed"

-- `s or d` for texts
abbrev pub text_or : Text → Text → Text
text_or [] d = d
text_or (c ∷ s) d = c ∷ s

-- `bool(s)` for an optional text
abbrev pub given : Option Text → Bool
given none = false
given (some []) = false
given (some (c ∷ s)) = true

abbrev pub role_ok : Option Text → Bool
role_ok none = true
role_ok (some r) = mem_text r roles

-- `raw_meta`
abbrev pub raw_meta : Option Json → Json
raw_meta (some (obj (field k v fs))) = obj (field k v fs)
raw_meta _ = null

abbrev maybe_embed_text : Services → Bool → Option Text → Option Text
maybe_embed_text s query none = none
maybe_embed_text s query (some []) = none
maybe_embed_text s query (some (c ∷ text)) = s.embed_text query (c ∷ text)

-- the two vectors of the row
unfoldable pub embed : Services → Request → Option Text × Option Text
embed s q = if q.tombstone then (none, none) else elim q.embeddings [
  | some (summary, hyde) ↦ (maybe_embed_text s false summary, maybe_embed_text s true hyde)
  | none ↦ (s.embed_entry q.key q.value, none)
]

-- What is fingerprinted of a call: the arguments of `idem_fingerprint`.
pub record Identity : Type 0 where
  pub tool : Text
  pub namespace : Text
  pub key : Text
  pub kind : Text
  pub payload : Json
  pub meta : Json

unfoldable pub envelope : Identity → Json
envelope q = obj (
    field (codes "tool") (str q.tool) (
      field (codes "namespace") (str q.namespace) (
        field (codes "key") (str q.key) (
          field (codes "kind") (str q.kind)
            (field (codes "payload") q.payload (field (codes "meta") q.meta end))))))

abbrev hashed : (Text → Text) → Option Text → Result Text
hashed sha256 (some canon) = ok (sha256 canon)
hashed sha256 none = raise Code.unrepresentable_number

unfoldable pub idem_fingerprint : Services → Identity → Result Text
unfolding envelope
idem_fingerprint s q = hashed s.sha256 (s.jcs (envelope q))

abbrev some_of : Result Text → Result (Option Text)
some_of m = m >>= λ f. ok (some f)

-- the fingerprint of a write that has an event id
unfoldable pub event_fingerprint : Services → Request → Json → Result (Option Text)
unfolding idem_fingerprint
event_fingerprint s q payload =
    if given q.event_id
    then some_of (
        idem_fingerprint s (record {
          tool = q.tool;
          namespace = q.namespace;
          key = q.key;
          kind = q.kind;
          payload = payload;
          meta = raw_meta q.meta;
        }))
    else ok none

-- `_content_hash`
unfoldable pub content_hash : Services → Json → Text
content_hash s v = s.sha256 (
    dumped
      (record {
        item_sep = codes ",";
        key_sep = codes ":";
        sorted = true;
        float_repr = s.float_repr;
      })
      v)

unfoldable pub screen : Services → Json → List String
screen s v =
    screen_value
      (record {
        item_sep = codes ", ";
        key_sep = codes ": ";
        sorted = false;
        float_repr = s.float_repr;
      })
      v

abbrev pub flagged : List String → Bool
flagged [] = false
flagged (h ∷ hs) = true

abbrev pub overrides : Option Fields → Bool
overrides none = false
overrides (some meta) = opt_truthy (get (codes "screening_override") meta)

abbrev pub non_empty : List Text → Option (List Text)
non_empty [] = none
non_empty (d ∷ ds) = some (d ∷ ds)

-- The row to insert, with the two flags that the acknowledgement needs.
pub record Prepared : Type 0 where
  pub draft : Draft
  pub override : Bool
  pub suppressed : Bool

-- The row, once every check has passed.
unfoldable pub draft_of : Services → Request → Option Fields → Option Text → Prepared
unfolding embed content_hash
draft_of s q meta fingerprint =
    let sanitized = sanitize q.value in
    let actor = text_or q.actor unattributed in
    let hits = if q.tombstone then [] else screen s sanitized in
    let override = flagged hits && (overrides meta && not (text_eq actor unattributed)) in
    let clinical = opt_truthy (get (codes "clinical") s.profile) in
    let suppressed = given q.origin_detail && clinical in
    let vectors = embed s q in
    record {
      draft = record {
        namespace = q.namespace;
        key = q.key;
        kind = q.kind;
        value = sanitized;
        source_surface = q.source_surface;
        tags = q.tags;
        event_id = q.event_id;
        tombstone = q.tombstone;
        embedding = vectors.0;
        hyde_embedding = vectors.1;
        columns = split_meta meta;
        meta = meta;
        content_hash = if q.tombstone then none else some (content_hash s sanitized);
        salience = q.salience;
        confidence = q.confidence;
        valid_until = q.valid_until;
        actor = actor;
        quarantined = flagged hits && not override;
        screening = hits;
        origin = text_or q.origin (codes "unknown");
        origin_detail = if suppressed then none else q.origin_detail;
        origin_model_id = q.origin_model_id;
        origin_model_family = q.origin_model_family;
        derived_from = non_empty q.derived_from;
        idem_fingerprint = fingerprint;
        role = q.role;
      };
      override = override;
      suppressed = suppressed;
    }

unfoldable pub prepare : Services → Request → Result Prepared
prepare s q = do
  raise_if (not (role_ok q.role)) Code.invalid_role
  meta ← boundary_meta (opt_truthy (get (codes "clinical") s.profile)) s.resolver q.meta
  fingerprint ← event_fingerprint s q (sanitize q.value)
  raise_if (not (mem_text (text_or q.origin (codes "unknown")) origins)) Code.invalid_origin
  ok (draft_of s q meta fingerprint)
