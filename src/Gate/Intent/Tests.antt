-- ===== src/Gate/Intent/Tests.antt =====
-- An intent that contradicts a constraint, and a deletion after it.
use mcp_assist_memory.Prelude.{
  codes, true, false, none, some, [], ◌∷◌, ◌≡◌, refl, all, any, keep, starts_with, text_eq,
}
use mcp_assist_memory.Result.{ok}
use mcp_assist_memory.Json.{bool, str, end, field, get, get_field}
use mcp_assist_memory.Store.Prepare.{idem_fingerprint}
use mcp_assist_memory.Store.Listing.{distinct_on_key}
use mcp_assist_memory.Store.Search.Tests.{thousandths, engine, engine-IsIndex}
use mcp_assist_memory.Gate.State.{GateState, gate_conflict}
use mcp_assist_memory.Gate.Preflight.{
  Call, blocked, gate_fingerprint, is_destructive, is_override, preflight,
}
use mcp_assist_memory.Gate.Refs.Tests.{finders, constraint, found, found_conflict}
use mcp_assist_memory.Gate.Intent.Candidates.{
  Retriever, matched_with, trigger_scan_raises, skill_rows,
}
use mcp_assist_memory.Gate.Intent.Open.{
  Declared, Critic, by_structure, Opened, opens, hearing_of, heard, shown_with, flags_of, labels_of,
  intent_open,
}
use mcp_assist_memory.Gate.Intent.Caused.{IsCaused, intent_open-IsCaused}
use mcp_assist_memory.Gate.Intent.Unresolved.{intent_open-preflight}
use mcp_assist_memory.Gate.Tests.{around, deletion, quiet}

abbrev retriever : Retriever thousandths
retriever = record { engine = engine; rounded = λ s. s; hard_floor = 250; tokens_in = λ t. t ∷ [] }

abbrev critic : Critic thousandths
critic = record {
  retriever = retriever;
  finders = finders;
  sha256 = λ goal. goal;
  style = record { item_sep = []; key_sep = []; sorted = false; float_repr = λ bits. [] };
  parse_time = λ v. some 150;
  json_logic = λ trigger features. some (bool true);
  features_of = λ goal clinical. end;
  window_of = λ profile. 100;
}

abbrev declared : Declared
declared = record {
  namespace = codes "n";
  profile = end;
  goal = codes "x";
  scope = [];
  session_id = some (codes "s");
  clarification = none;
  include_quarantined = false;
}

abbrev constrained : GateState
constrained = record quiet { memory = constraint ∷ [] }

abbrev answer : Opened thousandths critic
answer = record {
  decision = gate_conflict;
  conflict = some (by_structure found);
  matched = shown_with thousandths critic (codes "n") constrained (some (by_structure found)) (
      heard thousandths critic (hearing_of thousandths critic 200 declared) (
        matched_with thousandths retriever 200 (codes "n") (codes "x") false false
          (constraint ∷ [])));
  flags = flags_of thousandths critic declared;
  labels = labels_of thousandths critic declared;
  intent_hash = codes "x";
}

answered : (intent_open thousandths critic 200 declared constrained).1 ≡ opens answer
unfolding intent_open trigger_scan_raises skill_rows get get_field all any keep distinct_on_key
    starts_with text_eq
answered = rw found_conflict refl

intent_open-IsCaused_example :
    IsCaused thousandths critic 200 declared
      (constraint ∷ [])
      (intent_open thousandths critic 200 declared constrained).1
intent_open-IsCaused_example =
    intent_open-IsCaused thousandths critic 200 declared constrained engine-IsIndex

abbrev linked : Call
linked = record deletion { meta = some (field (codes "session_id") (str (codes "s")) end) }

linked_fingerprint : gate_fingerprint around.services linked ≡ ok (codes "canonical")
unfolding gate_fingerprint idem_fingerprint
linked_fingerprint = refl

linked_override : is_override linked ≡ false
unfolding is_override get get_field text_eq
linked_override = refl

linked_destructive : is_destructive linked ≡ true
unfolding is_destructive text_eq
linked_destructive = refl

intent_open-preflight_example :
    (preflight around linked (intent_open thousandths critic 200 declared constrained).0).1
    ≡ blocked "unresolved_conflict_destructive"
unfolding get get_field text_eq
intent_open-preflight_example =
    intent_open-preflight thousandths critic 200 declared constrained answer around linked 115 []
      (codes "canonical") answered refl refl refl refl linked_fingerprint refl refl linked_override
      linked_destructive refl
