-- ===== src/Gate/Skills/Tests.antt =====
-- A skill that an author without a name defines over one of a curator.
use mcp_assist_memory.Prelude.{codes, true, false, none, some, ◌≡◌, mem_text, text_eq}
use mcp_assist_memory.Json.{
  Json, bool, str, arr, obj, nil, cons, Fields, end, field, get, get_field, truthy,
}
use mcp_assist_memory.Regex.{matches}
use mcp_assist_memory.Triggers.{validate_trigger, evaluate_trigger, walk, suspicious}
use mcp_assist_memory.Gate.Skills.{
  Hearing, SkillArgs, escalates, skill_meta, has_valid_trigger, predicate_of, skill_expired,
}
use mcp_assist_memory.Gate.Skills.Laws.{skill_meta-escalates}

abbrev drops : Json
drops = obj (
    field (codes "==")
      (arr (
        cons (obj (field (codes "var") (str (codes "action")) end))
          (cons (str (codes "drop")) nil)))
      end)

abbrev hearing : Hearing
hearing = record {
  now = 200;
  window = 100;
  parse_time = λ v. some 150;
  json_logic = λ trigger features. some (bool true);
  features = end;
}

abbrev unnamed : SkillArgs
unnamed = record {
  namespace = codes "n";
  key = codes "skill/k";
  guidance = codes "g";
  polarity = codes "anti-pattern";
  trigger = some drops;
  trigger_author = codes "unvalidated";
  trigger_intent = none;
  temporal_mode = none;
  calibration_ts = none;
  actor = codes "ann";
  role = none;
  event_id = none;
}

abbrev curated : Fields
curated =
    field (codes "curator_provenance") (bool true)
      (field (codes "last_validated") (str (codes "t")) end)

skill_meta-escalates_example :
    escalates hearing (skill_meta (codes "t") unnamed curated) false ≡ true
unfolding has_valid_trigger predicate_of skill_expired evaluate_trigger validate_trigger walk
    mem_text text_eq matches suspicious truthy get get_field
skill_meta-escalates_example = skill_meta-escalates (codes "t") unnamed curated hearing false
