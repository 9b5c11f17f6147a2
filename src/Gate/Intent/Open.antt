-- ===== src/Gate/Intent/Open.antt =====
-- `intent_open`.
use mcp_assist_memory.Prelude.{
  ℕ, Text, codes, Bool, true, false, not, Option, none, some, List, [], ◌∷◌, ◌++◌, ◌&&◌, ◌||◌,
  text_eq, starts_with, any, all, if◌then◌else◌, String,
}
use mcp_assist_memory.Errors.{Code, AppError, app_error}
use mcp_assist_memory.Json.{Json, str, Fields, Style, get, opt_truthy}
use mcp_assist_memory.Regex.{is_space}
use mcp_assist_memory.Screening.{screen_value}
use mcp_assist_memory.Phi.{text_looks_identifying}
use mcp_assist_memory.Store.Rows.{Row, latest}
use mcp_assist_memory.Store.Search.{Ranking}
use mcp_assist_memory.Gate.State.{
  Decision, gate_approved, gate_conflict, Intent, GateState, add_ledger,
}
use mcp_assist_memory.Gate.Refs.{
  Finders, Contradiction, Scan, consistent, contradicts, attribute_error, structured_conflict,
}
use mcp_assist_memory.Gate.Skills.{
  Hearing, skill_prefix, meta_of, skill_expired, has_valid_trigger, escalates,
}
use mcp_assist_memory.Gate.Intent.Candidates.{Retriever, Match, matched_with, trigger_scan_raises}

-- the arguments of the call, with the resolved profile
pub record Declared : Type 0 where
  pub namespace : Text
  pub profile : Fields
  pub goal : Text
  pub scope : List Text
  pub session_id : Option Text
  pub clarification : Option Text
  pub include_quarantined : Bool

-- What the call rests on: the retrieval, the patterns for references, SHA-256, the style of
-- `json.dumps`, `fromisoformat`, json-logic, the features of a goal, and the validity window of skills.
pub record Critic (ranking : Ranking) : Type 0 where
  pub retriever : Retriever ranking
  pub finders : Finders
  pub sha256 : Text → Text
  pub style : Style
  pub parse_time : Json → Option ℕ
  pub json_logic : Json → Fields → Option Json
  pub features_of : Text → Bool → Fields
  pub window_of : Fields → ℕ

-- what a conflict is with
pub data Cause : Type 0 where
  by_structure : Contradiction → Cause
  by_skill : Row → Cause

abbrev flag_when : Bool → String → List String
flag_when true flag = flag ∷ []
flag_when false flag = []

abbrev trigger_flags : Option Json → List String
trigger_flags none = "display_only_no_trigger" ∷ []
trigger_flags (some trigger) = flag_when (not (has_valid_trigger (some trigger))) "invalid_trigger"

abbrev pub provenanced : Row → Bool
provenanced r = opt_truthy (get (codes "curator_provenance") (meta_of (some r)))

abbrev pub expired : Hearing → Row → Bool
expired h r = skill_expired h (get (codes "last_validated") (meta_of (some r)))

-- the flags that the loop over the matches adds to a skill
unfoldable pub skill_flags : Hearing → Row → List String
skill_flags h r =
    flag_when (expired h r) "expired_skill"
    ++ (flag_when (not (provenanced r)) "unprovenanced_skill"
        ++ (flag_when r.quarantined "quarantined_skill"
            ++ trigger_flags (get (codes "trigger") (meta_of (some r)))))

abbrev pub is_skill : Row → Bool
is_skill r = starts_with r.key skill_prefix

-- a skill that turns the intent into a conflict
unfoldable pub violates : Hearing → Row → Bool
unfolding escalates
violates h r = is_skill r && escalates h (meta_of (some r)) r.quarantined

-- the skills whose match counts for their efficacy
unfoldable pub counts : Hearing → Row → Bool
counts h r =
    is_skill r
    && (opt_truthy (get (codes "polarity") (meta_of (some r)))
        && (not (expired h r) && (provenanced r && not r.quarantined)))

abbrev pub clarified : Option Text → Text
clarified none = []
clarified (some s) = s

abbrev any_hit : List String → Bool
any_hit [] = false
any_hit (h ∷ hs) = true

abbrev pub skill_of_cause : Option Cause → Option Text
skill_of_cause (some (by_skill r)) = some r.key
skill_of_cause _ = none

abbrev pub decision_of : Option Cause → Decision
decision_of none = gate_approved
decision_of (some cause) = gate_conflict

module _ (ranking : Ranking) (critic : Critic ranking) where
  open ranking use {Score}
  open critic use {
    retriever, finders, sha256, style, parse_time, json_logic, features_of, window_of,
  }

  pub record Opened : Type 0 where
    pub decision : Decision
    pub conflict : Option Cause
    pub matched : List (Match Score)
    pub flags : List String
    pub labels : List String
    pub intent_hash : Text

  -- an answer, an error, or the AttributeError of a scan of stored entries
  pub data Opening : Type 0 where
    opens : Opened → Opening
    refuses : AppError → Opening
    crashes : Opening

  abbrev pub is_clinical : Declared → Bool
  is_clinical d = opt_truthy (get (codes "clinical") d.profile)

  abbrev pub hearing_of : ℕ → Declared → Hearing
  hearing_of now d = record {
    now = now;
    window = window_of d.profile;
    parse_time = parse_time;
    json_logic = json_logic;
    features = features_of d.goal (is_clinical d);
  }

  abbrev with_flags : List String → Match Score → Match Score
  with_flags flags m = record { row = m.row; similarity = m.similarity; flags = m.flags ++ flags }

  -- the loop over the matches
  unfoldable pub heard : Hearing → List (Match Score) → List (Match Score)
  unfolding skill_flags
  heard h [] = []
  heard h (m ∷ ms) = (if is_skill m.row then with_flags (skill_flags h m.row) m else m) ∷ heard h ms

  -- `skill_conflict_key`, as the row of the first skill that escalates
  unfoldable pub skill_conflict : Hearing → List (Match Score) → Option Row
  unfolding violates
  skill_conflict h [] = none
  skill_conflict h (m ∷ ms) =
      let rest = skill_conflict h ms in if violates h m.row then some m.row else rest

  -- `m["flags"].append("conflict_contributor")` for the first match with the key
  unfoldable pub contribute : Text → List (Match Score) → List (Match Score)
  contribute key [] = []
  contribute key (m ∷ ms) =
      if text_eq m.row.key key
      then with_flags ("conflict_contributor" ∷ []) m ∷ ms
      else m ∷ contribute key ms

  -- `matched.append(_match_entry(row, …, flags=["structured_conflict"]))`
  abbrev appended : List (Match Score) → Option Row → List (Match Score)
  appended ms none = ms
  appended ms (some r) =
      ms ++ (record { row = r; similarity = none; flags = "structured_conflict" ∷ [] } ∷ [])

  abbrev pub shown_with : Text → GateState → Option Cause → List (Match Score) → List (Match Score)
  shown_with ns st none ms = ms
  shown_with ns st (some (by_skill r)) ms = contribute r.key ms
  shown_with ns st (some (by_structure c)) ms =
      if any (λ m. text_eq m.row.key c.key) ms then ms else appended ms (latest ns c.key st.memory)

  -- the events `matched` and `surfaced` of each skill that counts, the newest first
  unfoldable pub note_matches :
      Hearing → List (Match Score) → List (Text × String) → List (Text × String)
  unfolding counts
  note_matches h [] log = log
  note_matches h (m ∷ ms) log =
      note_matches h ms
        (if counts h m.row then (m.row.key, "surfaced") ∷ (m.row.key, "matched") ∷ log else log)

  -- the `INSERT INTO gate_intent`; in a clinical namespace without the goal
  abbrev pub registered : Declared → Opened → Intent
  registered d o = record {
    namespace = d.namespace;
    session_id = clarified d.session_id;
    intent_hash = o.intent_hash;
    goal = if is_clinical d then none else some d.goal;
    labels = o.labels;
    scope = d.scope;
    decision = o.decision;
    skill_key = skill_of_cause o.conflict;
  }

  -- the statements of the call, in their order
  abbrev pub persisted : Hearing → Declared → List (Match Score) → Opened → GateState → GateState
  persisted h d ms o st = add_ledger o.decision none none (record {
    memory = st.memory;
    pending = st.pending;
    blocks = st.blocks;
    intents = registered d o ∷ st.intents;
    ledger = st.ledger;
    efficacy = note_matches h ms st.efficacy;
  })

  abbrev pub screened : Declared → List String
  screened d = screen_value style (str d.goal)

  abbrev pub flags_of : Declared → List String
  flags_of d =
      flag_when (any_hit (screened d)) "intent_screened"
      ++ (flag_when (any_hit (screen_value style (str (clarified d.clarification))))
            "clarification_screened"
          ++ flag_when (is_clinical d) "phi_screened")

  abbrev pub labels_of : Declared → List String
  labels_of d =
      screened d
      ++ flag_when
          (is_clinical d
            && (text_looks_identifying d.goal
                || text_looks_identifying (clarified d.clarification)))
          "phi_detected"

  -- the call once it is known what the intent is in conflict with
  abbrev pub opened_with :
      Hearing → Declared → List (Match Score) → Option Cause → GateState → GateState × Opening
  opened_with h d ms cause st =
      let o : Opened = record {
        decision = decision_of cause;
        conflict = cause;
        matched = shown_with d.namespace st cause (heard h ms);
        flags = flags_of d;
        labels = labels_of d;
        intent_hash = sha256 d.goal;
      } in
      (persisted h d ms o st, opens o)

  abbrev pub caused_by_skill : Option Row → Option Cause
  caused_by_skill none = none
  caused_by_skill (some r) = some (by_skill r)

  -- a structured conflict comes first
  abbrev pub decided :
      Hearing → Declared → List (Match Score) → Scan → GateState → GateState × Opening
  decided h d ms attribute_error st = (st, crashes)
  decided h d ms (contradicts c) st = opened_with h d ms (some (by_structure c)) st
  decided h d ms consistent st = opened_with h d ms (caused_by_skill (skill_conflict h ms)) st

  unfoldable pub intent_open : ℕ → Declared → GateState → GateState × Opening
  unfolding matched_with trigger_scan_raises structured_conflict heard skill_conflict contribute
      note_matches
  intent_open now d st =
      if all is_space d.goal
      then (st, refuses (app_error Code.gate_blocked none none (some "empty_intent")))
      else if trigger_scan_raises ranking retriever now d.namespace d.goal d.include_quarantined
          st.memory
      then (st, crashes)
      else decided (hearing_of now d) d
          (matched_with ranking retriever now d.namespace d.goal (is_clinical d)
            d.include_quarantined st.memory)
          (structured_conflict finders retriever.engine.order now d.namespace d.goal st.memory) st
