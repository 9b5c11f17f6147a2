-- ===== src/Gate/Efficacy/Tests.antt =====
-- Closing an outcome twice.
use mcp_assist_memory.Prelude.{
  some, inl, Text, codes, true, none, [], ◌∷◌, ◌≡◌, refl, ◌==◌, length, mem_text, text_eq,
}
use mcp_assist_memory.Result.{ok}
use mcp_assist_memory.Gate.Efficacy.{
  Event, Closing, Closed, Efficacy, closure_outcomes, gate_close_outcome,
}
use mcp_assist_memory.Gate.Efficacy.Once.{reclosing, gate_close_outcome_again}

abbrev hash : Text
hash = codes "0123456789abcdef0123456789abcdef0123456789abcdef0123456789abcdef"

abbrev surfaced : Event
surfaced = record {
  namespace = codes "n";
  skill_key = codes "skill/k";
  intent_hash = hash;
  stage = codes "surfaced";
  outcome = none;
  writer_actor = codes "gate-eval";
  event_id = none;
  session_id = none;
}

abbrev shown_once : Efficacy
shown_once = record { events = surfaced ∷ []; rollup = [] }

abbrev followed : Closing
followed = record {
  namespace = codes "n";
  intent_hash = hash;
  outcome = codes "followed";
  skill_key = none;
}

followed_valid : mem_text (codes "followed") closure_outcomes ≡ true
unfolding mem_text text_eq
followed_valid = refl

abandoned_valid : mem_text (codes "abandoned") closure_outcomes ≡ true
unfolding mem_text text_eq
abandoned_valid = refl

hash_long : (length hash == 64) ≡ true
hash_long = refl

gate_close_outcome_again_example :
    (d : Closed) × (gate_close_outcome
        (reclosing (codes "abandoned") (some (codes "skill/k")) followed)
        (gate_close_outcome followed shown_once).1
      ≡ (ok d, (gate_close_outcome followed shown_once).1))
    × (d.closed ≡ [])
gate_close_outcome_again_example =
    gate_close_outcome_again followed (codes "abandoned") (some (codes "skill/k")) shown_once
      (inl refl) followed_valid abandoned_valid hash_long
