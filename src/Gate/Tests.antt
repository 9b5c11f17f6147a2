-- ===== src/Gate/Tests.antt =====
-- The pre-flight of a concrete deletion.
use mcp_assist_memory.Prelude.{
  List, ◌∷◌, codes, true, false, none, some, [], ◌≡◌, refl, arith, text_eq, any, starts_with,
}
use mcp_assist_memory.Result.{ok}
use mcp_assist_memory.Json.{bool, obj, end, field, str, get, get_field}
use mcp_assist_memory.ShaEquiv.{unavailable}
use mcp_assist_memory.Store.Prepare.{Services, Request, idem_fingerprint}
use mcp_assist_memory.Gate.State.{GateState, enabled_for, store_confirm}
use mcp_assist_memory.Gate.Preflight.{
  Call, Surroundings, no_reasoner, blocked, gate_fingerprint, is_destructive, is_override,
  preflight,
}
use mcp_assist_memory.Gate.Write.{gated_write}
use mcp_assist_memory.Gate.Untouched.{gated_write-untouched}
use mcp_assist_memory.Store.Append.{alone}
use mcp_assist_memory.Gate.Laws.{
  by_override, by_token, IsAuthorised, Proceeds, preflight-IsAuthorised,
}
use mcp_assist_memory.Gate.Tokens.{
  IsFresh, preflights, with_token, preflight_once, store_confirm-preflight,
}

abbrev services : Services
services = record {
  profile = end;
  resolver = unavailable;
  embed_entry = λ key value. none;
  embed_text = λ query text. none;
  jcs = λ value. some (codes "canonical");
  sha256 = λ text. text;
  float_repr = λ bits. [];
}

abbrev pub around : Surroundings
around = record {
  services = services;
  now = 200;
  fresh_token = codes "t";
  stale_dependencies = [];
  tier2 = no_reasoner;
}

abbrev pub deletion : Call
deletion = record {
  namespace = codes "n";
  profile = end;
  tool = codes "memory_delete";
  key = codes "k";
  kind = codes "note";
  value = obj (field (codes "deleted") (bool true) end);
  meta = none;
  actor = codes "ann";
  event_id = none;
  preview_requested = false;
  confirm_token = none;
}

abbrev pub quiet : GateState
quiet = record { memory = []; pending = []; blocks = []; intents = []; ledger = []; efficacy = [] }

abbrev previewed : GateState
previewed =
    store_confirm 100 (codes "t") (codes "n") (codes "memory_delete") (codes "k")
      (codes "canonical") quiet

deletion_fingerprint : gate_fingerprint services deletion ≡ ok (codes "canonical")
unfolding gate_fingerprint idem_fingerprint
deletion_fingerprint = refl

confirmed_fingerprint :
    gate_fingerprint services (with_token (codes "t") deletion) ≡ ok (codes "canonical")
unfolding gate_fingerprint idem_fingerprint
confirmed_fingerprint = refl

deletion_destructive : is_destructive (with_token (codes "t") deletion) ≡ true
unfolding is_destructive with_token text_eq
deletion_destructive = refl

token-Proceeds : Proceeds (preflight around (with_token (codes "t") deletion) previewed)
token-Proceeds =
    store_confirm-preflight around deletion quiet 100 116 [] (codes "canonical")
      deletion_fingerprint (omega arith)

token_given : (with_token (codes "t") deletion).confirm_token ≡ some (codes "t")
unfolding with_token
token_given = refl

preflight-IsAuthorised_example : IsAuthorised around (with_token (codes "t") deletion) previewed
preflight-IsAuthorised_example =
    preflight-IsAuthorised around (with_token (codes "t") deletion) previewed deletion_destructive
      token-Proceeds

-- a deletion that is given a preview, with a token of its own
abbrev between : List (Surroundings × Call)
between = (record around { fresh_token = codes "u" }, deletion) ∷ []

between-IsFresh : IsFresh (codes "t") between
unfolding text_eq
between-IsFresh = (refl, tt)

preflight_once_example :
    (preflight around
      (with_token (codes "t") deletion)
      (preflights between (preflight around (with_token (codes "t") deletion) previewed).0)).1
    ≡ blocked "confirm_invalid"
preflight_once_example =
    preflight_once around around (with_token (codes "t") deletion) (with_token (codes "t") deletion)
      between previewed 116 [] (codes "canonical") (codes "canonical") (omega arith) refl
      token_given token_given confirmed_fingerprint confirmed_fingerprint between-IsFresh

store_confirm-preflight_example : Proceeds (
    preflight around (with_token (codes "t") deletion) (
      store_confirm 100
        (codes "t")
        (codes "n")
        (codes "memory_delete")
        (codes "k")
        (codes "canonical")
        quiet))
store_confirm-preflight_example =
    store_confirm-preflight around deletion quiet 100 116 [] (codes "canonical")
      deletion_fingerprint (omega arith)

abbrev gated_deletion : Call
gated_deletion = record {
  namespace = codes "n";
  profile = field (codes "intent_gate") (str (codes "on")) end;
  tool = codes "memory_delete";
  key = codes "k";
  kind = codes "note";
  value = obj (field (codes "deleted") (bool true) end);
  meta = none;
  actor = codes "ann";
  event_id = none;
  preview_requested = false;
  confirm_token = none;
}

abbrev tombstone : Request
tombstone = record {
  namespace = codes "n";
  key = codes "k";
  value = obj (field (codes "deleted") (bool true) end);
  kind = codes "note";
  tags = [];
  source_surface = none;
  event_id = none;
  tombstone = true;
  meta = none;
  actor = codes "ann";
  salience = none;
  confidence = none;
  valid_until = none;
  embeddings = none;
  origin = codes "unknown";
  origin_detail = none;
  origin_model_id = none;
  origin_model_family = none;
  derived_from = [];
  tool = codes "memory_delete";
  role = none;
}

gated_deletion_destructive : is_destructive gated_deletion ≡ true
unfolding is_destructive text_eq
gated_deletion_destructive = refl

gated_deletion_enabled :
    enabled_for gated_deletion.profile gated_deletion.key gated_deletion.actor ≡ true
unfolding enabled_for text_eq get get_field any starts_with
gated_deletion_enabled = refl

gated_deletion_plain : is_override gated_deletion ≡ false
unfolding is_override
gated_deletion_plain = refl

gated_deletion_unauthorised : IsAuthorised around gated_deletion quiet → ⊥
gated_deletion_unauthorised (by_override h) = let e = gated_deletion_plain in cc
gated_deletion_unauthorised (by_token c token f p h e m o i) = cc

gated_write-untouched_example :
    (gated_write around (λ _. 200) (λ _. alone) gated_deletion tombstone quiet).0.memory
    ≡ quiet.memory
gated_write-untouched_example =
    gated_write-untouched around (λ _. 200) (λ _. alone) gated_deletion tombstone quiet
      gated_deletion_destructive gated_deletion_enabled gated_deletion_unauthorised
