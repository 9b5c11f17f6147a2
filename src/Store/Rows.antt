-- ===== src/Store/Rows.antt =====
-- The rows of `memory_entry` and the queries over them. The table is a list, the newest row first;
-- `id` is the identity column. The version columns, which are constants, are left out.
use mcp_assist_memory.Prelude.{
  ℕ, Text, Bool, false, not, Option, none, some, List, [], ◌∷◌, ◌&&◌, ltb, leb, text_eq, keep,
  if◌then◌else◌, String,
}
use mcp_assist_memory.Json.{Json, Fields}

-- the keys of `_META_COLS`, as `_split_meta` projects them
pub record MetaColumns : Type 0 where
  pub repo_sha : Option Json
  pub base_sha : Option Json
  pub branch : Option Json
  pub dirty : Option Json
  pub session_id : Option Json
  pub temporal_mode : Option Json

-- What a writer hands to the INSERT: a row without what the database computes.
pub record Draft : Type 0 where
  pub namespace : Text
  pub key : Text
  pub kind : Text
  pub value : Json
  pub source_surface : Option Text
  pub tags : List Text
  pub event_id : Option Text
  pub tombstone : Bool
  pub embedding : Option Text
  pub hyde_embedding : Option Text
  pub columns : MetaColumns
  pub meta : Option Fields
  pub content_hash : Option Text
  pub salience : Option Json
  pub confidence : Option Json
  pub valid_until : Option ℕ
  pub actor : Text
  pub quarantined : Bool
  pub screening : List String
  pub origin : Text
  pub origin_detail : Option Text
  pub origin_model_id : Option Text
  pub origin_model_family : Option Text
  pub derived_from : Option (List Text)
  pub idem_fingerprint : Option Text
  pub role : Option Text

pub record Row : Type 0 where
  pub draft : Draft
  pub open draft use *
  pub id : ℕ
  pub revision : ℕ
  pub created_at : ℕ

abbrev pub Table : Type 0
Table = List Row

-- `namespace = %s AND key = %s`
unfoldable pub same_key : Text → Text → Row → Bool
same_key ns key r = text_eq ns r.namespace && text_eq key r.key

abbrev pub event_is : Text → Option Text → Bool
event_is e none = false
event_is e (some f) = text_eq e f

-- `namespace = %s AND actor = %s AND event_id = %s`
unfoldable pub same_event : Text → Text → Text → Row → Bool
same_event ns actor event r =
    text_eq ns r.namespace && (text_eq actor r.actor && event_is event r.event_id)

-- `COALESCE(MAX(revision), 0)` over the rows of a key
unfoldable pub max_revision : Text → Text → Table → ℕ
unfolding same_key
max_revision ns key [] = 0
max_revision ns key (r ∷ t) =
    let m = max_revision ns key t in
    if same_key ns key r then (if ltb m r.revision then r.revision else m) else m

-- `ORDER BY revision DESC`
unfoldable pub insert_desc : Row → List Row → List Row
insert_desc r [] = r ∷ []
insert_desc r (s ∷ t) = if leb s.revision r.revision then r ∷ s ∷ t else s ∷ insert_desc r t

unfoldable pub sort_desc : List Row → List Row
unfolding insert_desc
sort_desc [] = []
sort_desc (r ∷ t) = insert_desc r (sort_desc t)

abbrev pub head : {A : Type 0} → List A → Option A
head [] = none
head (x ∷ xs) = some x

-- `… ORDER BY revision DESC LIMIT 1`
unfoldable pub latest : Text → Text → Table → Option Row
unfolding sort_desc keep same_key
latest ns key t = head (sort_desc (keep (same_key ns key) t))

-- `_seen_event`
unfoldable pub seen_event : Text → Text → Text → Table → Option Row
unfolding sort_desc keep same_event
seen_event ns actor event t = head (sort_desc (keep (same_event ns actor event) t))

abbrev past : ℕ → Option ℕ → Bool
past now none = false
past now (some vu) = leb vu now

-- `_is_live`
unfoldable pub is_live : ℕ → Row → Bool
is_live now r = if r.tombstone then false else not (past now r.valid_until)
