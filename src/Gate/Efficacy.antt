-- ===== src/Gate/Efficacy.antt =====
-- storage/gate.py: the log of efficacy events, its projection and the closing of outcomes. The
-- outcome column of the match log and errors of the database are left out; the monthly rollup is the
-- list of the outcomes that it was told, the newest first.
pub mod Laws
pub mod Once
pub mod Tests
use mcp_assist_memory.Prelude.{
  ℕ, suc, Text, codes, Bool, true, false, not, Option, none, some, List, [], ◌∷◌, ◌++◌, ◌&&◌, ◌==◌,
  text_eq, mem_text, keep, any, map, length, is_some, if◌then◌else◌,
}
use mcp_assist_memory.Errors.{Code}
use mcp_assist_memory.Result.{Result, ok, err, raise}

pub record Event : Type 0 where
  pub namespace : Text
  pub skill_key : Text
  pub intent_hash : Text
  pub stage : Text
  pub outcome : Option Text
  pub writer_actor : Text
  pub event_id : Option Text
  pub session_id : Option Text

abbrev pub outcome_closed : Text
outcome_closed = codes "outcome_closed"

abbrev pub stages : List Text
stages = codes "matched" ∷ codes "surfaced" ∷ codes "acted_upon" ∷ outcome_closed ∷ []

-- `STAGE_WRITER[stage]`
unfoldable pub stage_writer : Text → Text
stage_writer stage =
    if text_eq stage outcome_closed
    then codes "gate-closure"
    else if text_eq stage (codes "acted_upon")
    then codes "gate-linkage"
    else codes "gate-eval"

abbrev pub closure_outcomes : List Text
closure_outcomes = codes "followed" ∷ codes "overridden" ∷ codes "abandoned" ∷ []

-- the columns of the unique index
unfoldable pub same_slot : Event → Event → Bool
same_slot a b =
    text_eq a.namespace b.namespace
    && (text_eq a.skill_key b.skill_key
        && (text_eq a.intent_hash b.intent_hash && text_eq a.stage b.stage))

-- `INSERT … ON CONFLICT DO NOTHING`, with whether a row landed
unfoldable pub insert_event : Event → List Event → Bool × List Event
unfolding same_slot
insert_event e log = if any (same_slot e) log then (false, log) else (true, e ∷ log)

abbrev pub landed : Bool × List Event → Result Bool × List Event
landed (b, log) = (ok b, log)

unfoldable pub record_efficacy_event : Bool → Event → List Event → Result Bool × List Event
unfolding stage_writer insert_event
record_efficacy_event strict e log =
    if not (mem_text e.stage stages)
    then (raise Code.invalid_argument, log)
    else if not (text_eq e.writer_actor (stage_writer e.stage))
    then ((if strict then raise Code.invalid_argument else ok false), log)
    else landed (insert_event e log)

pub record Projection : Type 0 where
  pub counts : List (Text × ℕ)
  pub outcomes : List (Text × ℕ)

-- how often each value of a column stands, for `GROUP BY`
unfoldable pub count_of : Text → List (Text × ℕ) → List (Text × ℕ)
count_of k [] = (k, 1) ∷ []
count_of k ((j, n) ∷ l) = if text_eq j k then (j, suc n) ∷ l else (j, n) ∷ count_of k l

unfoldable pub outcome_counts : List Event → List (Text × ℕ)
unfolding count_of
outcome_counts [] = []
outcome_counts (e ∷ log) = elim e.outcome [
  | none ↦ outcome_counts log
  | some o ↦ count_of o (outcome_counts log)
]

-- `efficacy_projection`
unfoldable pub efficacy_projection : Text → Text → List Event → Projection
unfolding outcome_counts
efficacy_projection ns key log =
    let mine = keep (λ e. text_eq e.namespace ns && text_eq e.skill_key key) log in
    record {
      counts = map (λ stage. (stage, length (keep (λ e. text_eq e.stage stage) mine))) stages;
      outcomes = outcome_counts (keep (λ e. text_eq e.stage outcome_closed) mine);
    }

pub record Closing : Type 0 where
  pub namespace : Text
  pub intent_hash : Text
  pub outcome : Text
  pub skill_key : Option Text

pub record Efficacy : Type 0 where
  pub events : List Event
  pub rollup : List Text

-- `SELECT DISTINCT skill_key`
unfoldable pub keys_of_intent : Text → Text → List Event → List Text
keys_of_intent ns hash [] = []
keys_of_intent ns hash (e ∷ log) =
    let rest = keys_of_intent ns hash log in
    if text_eq e.namespace ns && text_eq e.intent_hash hash
    then (if mem_text e.skill_key rest then rest else e.skill_key ∷ rest)
    else rest

abbrev pub asked_for : Option Text → List Text → List Text
asked_for none keys = keys
asked_for (some key) keys = keep (text_eq key) keys

abbrev pub closing_event : Closing → Text → Event
closing_event c key = record {
  namespace = c.namespace;
  skill_key = key;
  intent_hash = c.intent_hash;
  stage = outcome_closed;
  outcome = some c.outcome;
  writer_actor = codes "gate-closure";
  event_id = none;
  session_id = none;
}

-- `closed` and `already_closed`
pub record Closed : Type 0 where
  pub closed : List Text
  pub already : List Text

abbrev pub sorted_in : Bool → Text → Closed → Closed
sorted_in true key c = record { closed = c.closed ++ (key ∷ []); already = c.already }
sorted_in false key c = record { closed = c.closed; already = c.already ++ (key ∷ []) }

-- the loop over the keys
unfoldable pub close_keys : Closing → List Text → Closed → List Event → Result Closed × List Event
unfolding record_efficacy_event
close_keys c [] done log = (ok done, log)
close_keys c (key ∷ keys) done log =
    let (answer, log2) = record_efficacy_event true (closing_event c key) log in
    elim answer [ err e ↦ (err e, log2) | ok b ↦ close_keys c keys (sorted_in b key done) log2 ]

abbrev rolled_up : Text → Closed → List Text → List Text
rolled_up outcome done rollup = elim done.closed [ [] ↦ rollup | k ∷ ks ↦ outcome ∷ rollup ]

-- the rollup is told once, where anything was closed
abbrev pub closed_out : Closing → List Text → Result Closed × List Event → Result Closed × Efficacy
closed_out c rollup (err e, log) = (err e, record { events = log; rollup = rollup })
closed_out c rollup (ok done, log) =
    (ok done, record { events = log; rollup = rolled_up c.outcome done rollup })

unfoldable pub gate_close_outcome : Closing → Efficacy → Result Closed × Efficacy
unfolding keys_of_intent close_keys
gate_close_outcome c st =
    if not (mem_text c.outcome closure_outcomes)
    then (raise Code.invalid_argument, st)
    else if not (length c.intent_hash == 64)
    then (raise Code.invalid_argument, st)
    else closed_out c st.rollup (
        close_keys c (asked_for c.skill_key (keys_of_intent c.namespace c.intent_hash st.events))
          (record { closed = []; already = [] }) st.events)
