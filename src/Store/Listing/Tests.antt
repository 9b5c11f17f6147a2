-- ===== src/Store/Listing/Tests.antt =====
-- Lists of a small table, and the theorems on lists at concrete tables.
use mcp_assist_memory.Prelude.{
  ℕ, Text, codes, text_eq, mem_text, true, false, none, some, List, [], ◌∷◌, ◌≡◌, ◌≢◌, ◌↔◌, ◌∙◌,
  ◌++◌, refl, arith, In, keep, starts_with, map, length, ◌<◌,
}
use mcp_assist_memory.Result.{ok}
use mcp_assist_memory.Json.{text_lt, str}
use mcp_assist_memory.Json.Order.{text_lt-irreflexive, text_lt-transitive, text_lt-total}
use mcp_assist_memory.Store.Rows.{
  Draft, MetaColumns, Row, Table, latest, is_live, sort_desc, same_key, insert_desc,
}
use mcp_assist_memory.Store.Insert.{kinds}
use mcp_assist_memory.Store.Prepare.{Request, Prepared, prepare, draft_of, event_fingerprint}
use mcp_assist_memory.Store.Boundary.{boundary_meta}
use mcp_assist_memory.Store.Append.{alone, landed_event, tombstone_of, memory_delete}
use mcp_assist_memory.Store.Reads.{memory_get}
use mcp_assist_memory.Store.Tests.{services, note, clock}
use mcp_assist_memory.Store.Listing.{
  Collation, Codec, Query, where_clauses, distinct_on_key, shown, live_rows, key_clauses, like,
  like_from, escape_like, percent, insert_key,
}
use mcp_assist_memory.Store.Listing.Like.{like-escape_like}
use mcp_assist_memory.Store.Listing.Sorted.{IsSorted}
use mcp_assist_memory.Store.Listing.Pages.{AllKeyed, walk, walk_complete}
use mcp_assist_memory.Store.Listing.Latest.{In-live_rows}
use mcp_assist_memory.Store.Listing.Stale.{memory_delete-listed}

-- the order of code points, and tokens that are the keys themselves
abbrev pub by_code : Collation
by_code = record {
  before = text_lt;
  irreflexive = text_lt-irreflexive;
  transitive = text_lt-transitive;
  total = text_lt-total;
}

abbrev plain : Codec
plain = record {
  encode = λ key. key;
  decode = λ token. some token;
  decode-encode = λ key. refl;
  encode-ne-nil = λ key h. h;
}

abbrev everything : Query
everything = record {
  namespace = codes "n";
  kind = none;
  tag = none;
  prefix = none;
  include_quarantined = false;
}

abbrev pub no_columns : MetaColumns
no_columns = record {
  repo_sha = none;
  base_sha = none;
  branch = none;
  dirty = none;
  session_id = none;
  temporal_mode = none;
}

abbrev pub blank : Draft
blank = record {
  namespace = codes "n";
  key = codes "k";
  kind = codes "note";
  value = str (codes "v");
  source_surface = none;
  tags = [];
  event_id = none;
  tombstone = false;
  embedding = none;
  hyde_embedding = none;
  columns = no_columns;
  meta = none;
  content_hash = none;
  salience = none;
  confidence = none;
  valid_until = none;
  actor = codes "ann";
  quarantined = false;
  screening = [];
  origin = codes "human";
  origin_detail = none;
  origin_model_id = none;
  origin_model_family = none;
  derived_from = none;
  idem_fingerprint = none;
  role = none;
}

abbrev pub entry : Text → List Text → ℕ → ℕ → Row
entry key tags id revision = record {
  draft = record blank { key = key; tags = tags };
  id = id;
  revision = revision;
  created_at = 100;
}

abbrev pub table : Table
table =
    entry (codes "b") [] 4 2
    ∷ entry (codes "c") (codes "x" ∷ []) 3 1
    ∷ entry (codes "a") [] 2 1
    ∷ entry (codes "b") (codes "x" ∷ []) 1 1
    ∷ []

listed : map (λ (r : Row). r.id) (live_rows by_code 200 everything none table) ≡ 2 ∷ 4 ∷ 3 ∷ []
unfolding live_rows where_clauses key_clauses like_from text_eq insert_key distinct_on_key keep
    is_live text_lt
listed = refl

pages :
    walk by_code plain 4 200 everything 2 none table
    ≡ some (live_rows by_code 200 everything none table)
unfolding walk live_rows where_clauses key_clauses like_from text_eq insert_key distinct_on_key keep
    is_live text_lt
pages = refl

prefix_example : like (escape_like (codes "a_") ++ percent) (codes "axb") ≡ false
prefix_example = like-escape_like (codes "a_") (codes "axb") ∙ (unfold starts_with in refl)

table_keyed : AllKeyed by_code plain (live_rows by_code 200 everything none table)
unfolding live_rows where_clauses key_clauses like_from text_eq insert_key distinct_on_key keep
    is_live text_lt
table_keyed = ((λ h. cc), ((λ h. cc), ((λ h. cc), tt)))

table-length : length (live_rows by_code 200 everything none table) < 4
unfolding live_rows where_clauses key_clauses like_from text_eq insert_key distinct_on_key keep
    is_live text_lt
table-length = omega arith

walk_complete_example :
    (walk by_code plain 4 200 everything 2 none table
      ≡ some (live_rows by_code 200 everything none table))
    × IsSorted by_code (live_rows by_code 200 everything none table)
walk_complete_example =
    walk_complete by_code plain 4 200 everything 2 table (omega arith) table_keyed table-length

abbrev newest_b : Row
newest_b = entry (codes "b") [] 4 2

In-live_rows_example : (In newest_b (live_rows by_code 200 everything none table)) ↔ (
    (memory_get 200 everything.namespace newest_b.key everything.include_quarantined table
      ≡ some newest_b)
    × (key_clauses everything newest_b.key ≡ true))
In-live_rows_example = In-live_rows by_code 200 everything newest_b table refl refl

-- an entry with the tag `x`, its deletion, and a list with that tag
abbrev tagged : Row
tagged = entry (codes "k") (codes "x" ∷ []) 1 1

abbrev removal : Request
removal = record note { event_id = none }

abbrev removed : Prepared
removed = draft_of services (tombstone_of removal (tagged ∷ [])) none none

removed-ready : prepare services (tombstone_of removal (tagged ∷ [])) ≡ ok removed
unfolding prepare tombstone_of event_fingerprint boundary_meta mem_text text_eq
removed-ready = refl

abbrev with_tag : Query
with_tag = record everything { tag = some (codes "x") }

latest-tagged : latest removal.namespace removal.key (tagged ∷ []) ≡ some tagged
unfolding latest sort_desc insert_desc keep same_key text_eq
latest-tagged = refl

tagged_clauses : where_clauses with_tag tagged ≡ true
unfolding where_clauses key_clauses like_from text_eq mem_text
tagged_clauses = refl

tagged-shown : shown by_code 200 false tagged ≡ true
unfolding is_live
tagged-shown = refl

removed_kind : mem_text removed.draft.kind kinds ≡ true
unfolding draft_of tombstone_of latest sort_desc insert_desc keep same_key mem_text text_eq
removed_kind = refl

removed_event : removed.draft.event_id ≢ some []
unfolding draft_of tombstone_of
removed_event h = cc

removed_unseen : landed_event removed.draft (tagged ∷ []) ≡ none
unfolding draft_of tombstone_of landed_event
removed_unseen = refl

memory_delete-listed_example :
    In tagged (
      live_rows by_code 200 with_tag none
        (memory_delete services clock (λ _. alone) removal (tagged ∷ [])).1)
    × (memory_get 200 removal.namespace removal.key true
          (memory_delete services clock (λ _. alone) removal (tagged ∷ [])).1
        ≡ none)
memory_delete-listed_example =
    memory_delete-listed by_code services clock removal (tagged ∷ []) removed 200 with_tag
      (codes "x") tagged removed-ready removed_kind removed_event removed_unseen refl refl refl
      (λ h. cc) latest-tagged tagged_clauses tagged-shown
