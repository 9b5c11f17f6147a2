-- ===== src/Gate/Skills.antt =====
-- storage/gate.py: when a skill may turn an intent into a conflict, and what `skill_define` stores. How
-- a time is parsed, json-logic and the clock are parameters; times are seconds.
pub mod Laws
pub mod Tests
use mcp_assist_memory.Prelude.{
  ℕ, ◌-◌, Text, codes, Bool, true, false, not, Option, none, some, List, [], ◌∷◌, ◌++◌, ◌&&◌, ltb,
  text_eq, mem_text, starts_with, take, all, is_some, if◌then◌else◌, String,
}
use mcp_assist_memory.Errors.{Code}
use mcp_assist_memory.Result.{Result, ok, err, ◌>>=◌, ◌>>◌, raise, raise_if}
use mcp_assist_memory.Json.{
  Json, null, bool, str, obj, Fields, end, get, get_field, set_field, drop_field, truthy,
  opt_truthy,
}
use mcp_assist_memory.Regex.{is_space}
use mcp_assist_memory.Triggers.{Fault, validate_trigger, evaluate_trigger}
use mcp_assist_memory.Store.Rows.{Row, Table, latest}
use mcp_assist_memory.Store.Prepare.{Services, Request}
use mcp_assist_memory.Store.Append.{Ack, Turn, append}

abbrev pub skill_prefix : Text
skill_prefix = codes "skill/"

-- What the judgement of a skill rests on: the time, the validity window, `fromisoformat`, json-logic
-- and the features of the intent.
pub record Hearing : Type 0 where
  pub now : ℕ
  pub window : ℕ
  pub parse_time : Json → Option ℕ
  pub json_logic : Json → Fields → Option Json
  pub features : Fields

-- `_skill_expired`
abbrev pub out_of_window : Hearing → Option ℕ → Bool
out_of_window h none = true
out_of_window h (some at) = ltb h.window (h.now - at)

unfoldable pub skill_expired : Hearing → Option Json → Bool
skill_expired h none = true
skill_expired h (some v) = if truthy v then out_of_window h (h.parse_time v) else true

abbrev no_faults : List Fault → Bool
no_faults [] = true
no_faults (f ∷ fs) = false

-- the trigger is there and passes the validator
unfoldable pub has_valid_trigger : Option Json → Bool
has_valid_trigger none = false
has_valid_trigger (some trigger) = no_faults (validate_trigger trigger)

-- `predicate_match`
unfoldable pub predicate_of : Hearing → Option Json → Option Bool
predicate_of h none = none
predicate_of h (some trigger) =
    if no_faults (validate_trigger trigger)
    then evaluate_trigger h.json_logic trigger h.features
    else none

abbrev pub is_true : Option Bool → Bool
is_true none = false
is_true (some b) = b

abbrev pub is_text : Text → Option Json → Bool
is_text t (some (str s)) = text_eq s t
is_text t _ = false

-- `eligible`, from the meta of a skill
unfoldable pub is_eligible : Hearing → Fields → Bool → Bool
unfolding skill_expired
is_eligible h meta quarantined =
    is_text (codes "anti-pattern") (get (codes "polarity") meta)
    && (opt_truthy (get (codes "curator_provenance") meta)
        && (not (skill_expired h (get (codes "last_validated") meta)) && not quarantined))

-- `eligible and predicate_match is True`
unfoldable pub escalates : Hearing → Fields → Bool → Bool
unfolding is_eligible predicate_of
escalates h meta quarantined =
    is_eligible h meta quarantined && is_true (predicate_of h (get (codes "trigger") meta))

pub record SkillArgs : Type 0 where
  pub namespace : Text
  pub key : Text
  pub guidance : Text
  pub polarity : Text
  pub trigger : Option Json
  pub trigger_author : Text
  pub trigger_intent : Option Text
  pub temporal_mode : Option Text
  pub calibration_ts : Option Text
  pub actor : Text
  pub role : Option Text
  pub event_id : Option Text

abbrev pub polarities : List Text
polarities = codes "anti-pattern" ∷ codes "best-practice" ∷ []

abbrev pub named_authors : List Text
named_authors = codes "human" ∷ codes "curator" ∷ []

abbrev pub trigger_authors : List Text
trigger_authors = codes "human" ∷ codes "curator" ∷ codes "unvalidated" ∷ []

-- `a or b`, for texts
abbrev pub text_or_else : Option Text → Text → Text
text_or_else none d = d
text_or_else (some []) d = d
text_or_else (some (c ∷ s)) d = c ∷ s

abbrev pub or_null : Option Text → Json
or_null none = null
or_null (some s) = str s

-- `meta[k] = v` where there is a value
abbrev pub put_given : Text → Option Text → Fields → Fields
put_given k none fs = fs
put_given k (some s) fs = set_field k (str s) fs

-- `meta.setdefault(k, v)`
abbrev pub put_default : Text → Json → Fields → Fields
put_default k v fs = if is_some (get_field k fs) then fs else set_field k v fs

-- what is known of the skill, whatever its trigger
unfoldable pub base_meta : Text → SkillArgs → Fields → Fields
base_meta now_text q old =
    let meta =
      put_given (codes "trigger_intent") q.trigger_intent
        (set_field (codes "polarity") (str q.polarity) old) in
    let meta2 = put_default (codes "trigger_intent") (str (take 200 q.guidance)) meta in
    if mem_text q.trigger_author named_authors
    then set_field (codes "last_validated") (str (text_or_else q.calibration_ts now_text)) meta2
    else meta2

-- the fields of a trigger that passed
unfoldable pub with_trigger : SkillArgs → Json → Fields → Fields
with_trigger q trigger meta =
    let meta2 = set_field (codes "trigger_calibration_ts") (or_null q.calibration_ts) (
      set_field (codes "trigger_temporal_mode")
        (str (text_or_else q.temporal_mode (codes "historical_snapshot")))
        (set_field (codes "trigger_author") (str q.trigger_author)
          (set_field (codes "trigger") trigger meta))) in
    if mem_text q.trigger_author named_authors
    then set_field (codes "curator_provenance") (bool true) meta2
    else meta2

abbrev pub without_trigger : Fields → Fields
without_trigger meta = drop_field (codes "trigger_author") (drop_field (codes "trigger") meta)

-- the meta that `skill_define` stores, over the meta of the latest revision
unfoldable pub skill_meta : Text → SkillArgs → Fields → Fields
unfolding base_meta with_trigger has_valid_trigger
skill_meta now_text q old = elim q.trigger [
  | none ↦ without_trigger (base_meta now_text q old)
  | some trigger ↦
      if has_valid_trigger (some trigger)
      then with_trigger q trigger (base_meta now_text q old)
      else without_trigger (base_meta now_text q old)
]

abbrev pub meta_of : Option Row → Fields
meta_of none = end
meta_of (some r) = elim r.meta [ none ↦ end | some meta ↦ meta ]

abbrev pub skill_request : Text → SkillArgs → Table → Request
skill_request now_text q t = record {
  namespace = q.namespace;
  key = q.key;
  value = str q.guidance;
  kind = codes "knowledge";
  tags = [];
  source_surface = none;
  event_id = q.event_id;
  tombstone = false;
  meta = some (obj (skill_meta now_text q (meta_of (latest q.namespace q.key t))));
  actor = q.actor;
  salience = none;
  confidence = none;
  valid_until = none;
  embeddings = none;
  origin = codes "tool";
  origin_detail = none;
  origin_model_id = none;
  origin_model_family = none;
  derived_from = [];
  tool = codes "memory_save";
  role = q.role;
}

-- the checks on the arguments
unfoldable pub check_skill : SkillArgs → Result (Unit {0})
check_skill q = do
  raise_if (not (starts_with q.key skill_prefix)) Code.invalid_argument
  raise_if (not (mem_text q.polarity polarities)) Code.invalid_argument
  raise_if (not (mem_text q.trigger_author trigger_authors)) Code.invalid_argument
  raise_if (all is_space q.guidance) Code.invalid_argument
  ok tt

abbrev defined : Result (Unit {0}) → Result Ack × Table → Table → Result Ack × Table
defined (err e) saved t = (err e, t)
defined (ok done) saved t = saved

-- `skill_define`, in a namespace without a gate
unfoldable pub skill_define :
    Services → (ℕ → ℕ) → (ℕ → Turn) → Text → SkillArgs → Table → Result Ack × Table
unfolding check_skill skill_meta
skill_define s clock turns now_text q t =
    defined (check_skill q) (append s clock turns (skill_request now_text q t) t) t
