-- ===== src/Gate/Preflight.antt =====
-- `preflight` of storage/gate.py, step by step.
use mcp_assist_memory.Prelude.{
  ℕ, Text, codes, Bool, true, false, not, Option, none, some, List, [], ◌∷◌, ◌++◌, ◌&&◌, ◌||◌,
  text_eq, mem_text, if◌then◌else◌, String,
}
use mcp_assist_memory.Errors.{Code, AppError, app_error}
use mcp_assist_memory.Result.{Result, ok, err}
use mcp_assist_memory.Json.{Json, null, str, obj, Fields, end, field, get, drop_field, opt_truthy}
use mcp_assist_memory.Sanitize.{sanitize}
use mcp_assist_memory.Store.Rows.{Row, seen_event}
use mcp_assist_memory.Store.Prepare.{Services, Identity, idem_fingerprint, text_or, unattributed}
use mcp_assist_memory.Gate.State.{
  Pending, Block, Intent, GateState, Decision, gate_preview, gate_conflict, gate_blocked,
  store_confirm, consume_confirm, open_block, record_block, close_block, add_ledger, bump_skill,
  load_intent, profile_on,
}

-- the arguments of `preflight`
pub record Call : Type 0 where
  pub namespace : Text
  pub profile : Fields
  pub tool : Text
  pub key : Text
  pub kind : Text
  pub value : Json
  pub meta : Option Fields
  pub actor : Text
  pub event_id : Option Text
  pub preview_requested : Bool
  pub confirm_token : Option Text

-- What the reasoning tier answers; `no_reasoner` where there is none or it is disabled.
pub data Tier2 : Type 0 where
  no_reasoner approve conflict no_answer : Tier2

-- what the pre-flight gets from outside: the clock, the token of `uuid4`, the keys of the expired
-- dependencies, and the reasoning tier
pub record Surroundings : Type 0 where
  pub services : Services
  pub now : ℕ
  pub fresh_token : Text
  pub stale_dependencies : List Text
  pub tier2 : Tier2

-- The context that goes on to the write.
pub record GateContext : Type 0 where
  pub tier : ℕ
  pub flags : List String
  pub matched : List Text
  pub fingerprint : Text
  pub open_block : Option Block

-- How a pre-flight ends: the write goes on, or a response that persists nothing, or an error.
pub data Outcome : Type 0 where
  proceeds : GateContext → Outcome
  previews : GateContext → Text → Outcome
  conflicts : GateContext → Outcome
  refuses : AppError → Outcome

abbrev pub blocked : String → Outcome
blocked rule = refuses (app_error Code.gate_blocked none none (some rule))

abbrev stripped : Option Fields → Json
stripped none = null
stripped (some meta) = elim (drop_field (codes "gate_override") meta) [
  | end ↦ null
  | field k v fs ↦ obj (field k v fs)
]

abbrev whole : Option Fields → Json
whole none = null
whole (some meta) = obj meta

abbrev identity : Call → Json → Identity
identity q meta = record {
  tool = q.tool;
  namespace = q.namespace;
  key = q.key;
  kind = q.kind;
  payload = sanitize q.value;
  meta = meta;
}

-- `gate_fingerprint`
unfoldable pub gate_fingerprint : Services → Call → Result Text
gate_fingerprint s q = idem_fingerprint s (identity q (stripped q.meta))

abbrev meta_truthy : Text → Option Fields → Bool
meta_truthy k none = false
meta_truthy k (some meta) = opt_truthy (get k meta)

abbrev pub is_attributed : Text → Bool
is_attributed actor = not (text_eq (text_or actor unattributed) unattributed)

-- `override`
unfoldable pub is_override : Call → Bool
is_override q = meta_truthy (codes "gate_override") q.meta && is_attributed q.actor

unfoldable pub is_destructive : Call → Bool
is_destructive q = text_eq q.tool (codes "memory_delete")

abbrev session_text : Option Json → Option Text
session_text (some (str s)) = some s
session_text _ = none

abbrev pub session_of : Option Fields → Option Text
session_of none = none
session_of (some meta) = session_text (get (codes "session_id") meta)

abbrev pub flagged : String → GateContext → GateContext
flagged flag c = record {
  tier = c.tier;
  flags = c.flags ++ (flag ∷ []);
  matched = c.matched;
  fingerprint = c.fingerprint;
  open_block = c.open_block;
}

abbrev pub flag_if : Bool → String → GateContext → GateContext
flag_if true flag c = flagged flag c
flag_if false flag c = c

-- Whether the row of a token is for this call.
unfoldable pub is_for : Call → Text → Pending → Bool
is_for q fingerprint p =
    text_eq p.args_fingerprint fingerprint && (text_eq p.key q.key && text_eq p.tool q.tool)

-- step 1, on what `_consume_confirm` returned
abbrev pub confirmed : Call → GateContext → Option Pending × GateState → GateState × Outcome
confirmed q c (none, st) =
    (record_block q.namespace c.fingerprint "confirm_invalid" none st, blocked "confirm_invalid")
confirmed q c (some p, st) =
    if is_for q c.fingerprint p then (st, proceeds (flagged "confirmed" c)) else (
      record_block q.namespace c.fingerprint "confirm_mismatch" none st,
      blocked "confirm_mismatch",
    )

-- the effects of an event id that was used for another payload
abbrev pub closed_or_recorded : Call → GateContext → Option Block → GateState → GateState
closed_or_recorded q c (some b) st =
    add_ledger gate_blocked (some "idempotency_conflict") (some "confirmed_correct") (
      bump_skill "prevented_error" b.skill_key
        (close_block q.namespace b.id "confirmed_correct" st))
closed_or_recorded q c none st =
    add_ledger gate_blocked (some "idempotency_conflict") none
      (record_block q.namespace c.fingerprint "idempotency_conflict" none st)

abbrev pub differs : Option Text → Text → Bool
differs (some (c ∷ s)) t = not (text_eq (c ∷ s) t)
differs _ t = false

abbrev pub replayed :
    Call
    → GateContext
    → GateState
    → Row
    → Result Text
    → (GateContext → GateState × Outcome)
    → GateState × Outcome
replayed q c st existing (err e) next = (st, refuses e)
replayed q c st existing (ok incoming) next =
    if differs existing.idem_fingerprint incoming
    then (
      closed_or_recorded q c c.open_block st,
      refuses (app_error Code.idempotency_conflict none none (some "idempotency_conflict")),
    )
    else next (flagged "deduplicated_replay" c)

abbrev pub seen : Call → GateState → Option Text → Option Row
seen q st none = none
seen q st (some []) = none
seen q st (some (x ∷ e)) = seen_event q.namespace (text_or q.actor unattributed) (x ∷ e) st.memory

abbrev pub on_seen :
    Services
    → Call
    → GateContext
    → GateState
    → Option Row
    → (GateContext → GateState × Outcome)
    → GateState × Outcome
on_seen s q c st none next = next c
on_seen s q c st (some existing) next =
    replayed q c st existing (idem_fingerprint s (identity q (whole q.meta))) next

-- step 2, with the steps that follow it
unfoldable pub event_step :
    Services
    → Call
    → GateContext
    → GateState
    → (GateContext → GateState × Outcome)
    → GateState × Outcome
event_step s q c st next = on_seen s q c st (seen q st q.event_id) next

-- step 4
abbrev pub stale_step : List Text → GateContext → GateContext
stale_step [] c = c
stale_step (d ∷ ds) c = record {
  tier = c.tier;
  flags = c.flags ++ ("stale_context" ∷ []);
  matched = c.matched ++ (d ∷ ds);
  fingerprint = c.fingerprint;
  open_block = c.open_block;
}

abbrev out_of_scope : Text → List Text → Bool
out_of_scope tool [] = false
out_of_scope tool (s ∷ ss) = not (mem_text tool (s ∷ ss))

-- step 5: whether the call is outside the declared scope, and whether the intent is in conflict
abbrev pub mismatches : Call → Option Intent → Bool
mismatches q none = false
mismatches q (some i) = out_of_scope q.tool i.scope

abbrev in_conflict : Decision → Bool
in_conflict gate_conflict = true
in_conflict _ = false

abbrev pub unresolved : Option Intent → Bool
unresolved none = false
unresolved (some i) = in_conflict i.decision

abbrev skill_of : Option Intent → Option Text
skill_of none = none
skill_of (some i) = i.skill_key

abbrev tier_two : GateContext → GateContext
tier_two c = record {
  tier = 2;
  flags = c.flags;
  matched = c.matched;
  fingerprint = c.fingerprint;
  open_block = c.open_block;
}

-- step 8
abbrev pub preview_step : Surroundings → Call → Bool → GateState → GateContext → GateState × Outcome
preview_step w q mismatch st c =
    if q.preview_requested || (is_destructive q || mismatch)
    then (
      add_ledger gate_preview none none
          (store_confirm w.now w.fresh_token q.namespace q.tool q.key c.fingerprint st),
      previews c w.fresh_token,
    )
    else (st, proceeds c)

-- step 7, where the call is destructive and the intent is in conflict
abbrev pub escalate :
    Surroundings
    → Call
    → Option Intent
    → Bool
    → GateState
    → GateContext
    → Tier2
    → GateState × Outcome
escalate w q i mismatch st c approve =
    preview_step w q mismatch st (flagged "tier2_approved" (tier_two c))
escalate w q i mismatch st c no_answer =
    preview_step w q mismatch st (flagged "tier2_unavailable" (tier_two c))
escalate w q i mismatch st c conflict = (
  record_block q.namespace c.fingerprint "tier2_conflict" none
      (add_ledger gate_conflict (some "tier2_conflict") none st),
  conflicts (tier_two c),
)
escalate w q i mismatch st c no_reasoner = (
  add_ledger gate_blocked (some "unresolved_conflict_destructive") none
      (record_block q.namespace c.fingerprint "unresolved_conflict_destructive" (skill_of i) st),
  blocked "unresolved_conflict_destructive",
)

-- `profile.get("tier2") == "on"`, and a reasoner that is enabled
abbrev pub armed : Surroundings → Call → Tier2
armed w q = if profile_on (codes "tier2") q.profile then w.tier2 else no_reasoner

-- steps 5 to 9
unfoldable pub intent_steps : Surroundings → Call → GateState → GateContext → GateState × Outcome
intent_steps w q st c0 =
    let i = load_intent q.namespace (session_of q.meta) st in
    let mismatch = mismatches q i in
    let c = flag_if mismatch "intent_mismatch" c0 in
    if is_override q
    then (st, proceeds (flagged "gate_override" c))
    else if is_destructive q && unresolved i
    then escalate w q i mismatch st c (armed w q)
    else preview_step w q mismatch st c

abbrev pub start : Text → Option Block → GateContext
start fingerprint b = record {
  tier = 0;
  flags = [];
  matched = [];
  fingerprint = fingerprint;
  open_block = b;
}

abbrev pub fingerprinted : Surroundings → Call → GateState → Text → GateState × Outcome
fingerprinted w q st fingerprint =
    let c = start fingerprint (open_block q.namespace fingerprint st) in
    elim q.confirm_token [
      | some (x ∷ token) ↦ confirmed q c (consume_confirm w.now q.namespace (x ∷ token) st)
      | _ ↦
          event_step w.services q c st
            (λ d. intent_steps w q st (stale_step w.stale_dependencies d))
    ]

abbrev pub on_fingerprint : Surroundings → Call → GateState → Result Text → GateState × Outcome
on_fingerprint w q st (err e) = (st, refuses e)
on_fingerprint w q st (ok fingerprint) = fingerprinted w q st fingerprint

unfoldable pub preflight : Surroundings → Call → GateState → GateState × Outcome
preflight w q st = on_fingerprint w q st (gate_fingerprint w.services q)
