-- ===== src/Gate/State.antt =====
-- The tables of the gate and the statements on them: `gate_pending`, `gate_block_log`, and the
-- entries that the gate adds to its ledger and to the efficacy of a skill.
use mcp_assist_memory.Prelude.{
  ℕ, suc, ◌+◌, Text, codes, Bool, false, not, Option, none, some, List, [], ◌∷◌, ◌&&◌, ltb, text_eq,
  starts_with, any, find, map, length, is_some, if◌then◌else◌, String,
}
use mcp_assist_memory.Json.{Json, str, Fields, get}
use mcp_assist_memory.Store.Rows.{Table}

pub record Pending : Type 0 where
  pub token : Text
  pub namespace : Text
  pub tool : Text
  pub key : Text
  pub args_fingerprint : Text
  pub expires_at : ℕ
  pub consumed_at : Option ℕ

pub record Block : Type 0 where
  pub id : ℕ
  pub namespace : Text
  pub fingerprint : Text
  pub rule : String
  pub skill_key : Option Text
  pub closed : Option String

pub data Decision : Type 0 where
  gate_approved gate_preview gate_conflict gate_blocked : Decision

-- `_ledger(…, decision=, rule=, closure=)`
pub record LedgerEntry : Type 0 where
  pub decision : Decision
  pub rule : Option String
  pub closure : Option String

-- `gate_intent`, for a session
pub record Intent : Type 0 where
  pub namespace : Text
  pub session_id : Text
  pub intent_hash : Text
  pub goal : Option Text
  pub labels : List String
  pub scope : List Text
  pub decision : Decision
  pub skill_key : Option Text

-- the state of the gate; the newest rows come first
pub record GateState : Type 0 where
  pub memory : Table
  pub pending : List Pending
  pub blocks : List Block
  pub intents : List Intent
  pub ledger : List LedgerEntry
  pub efficacy : List (Text × String)

abbrev pub confirm_ttl : ℕ
confirm_ttl = 900

abbrev pub with_pending : List Pending → GateState → GateState
with_pending ps st = record {
  memory = st.memory;
  pending = ps;
  blocks = st.blocks;
  intents = st.intents;
  ledger = st.ledger;
  efficacy = st.efficacy;
}

abbrev pub with_blocks : List Block → GateState → GateState
with_blocks bs st = record {
  memory = st.memory;
  pending = st.pending;
  blocks = bs;
  intents = st.intents;
  ledger = st.ledger;
  efficacy = st.efficacy;
}

-- `_store_confirm`, with the token that `uuid4` gave
unfoldable pub store_confirm : ℕ → Text → Text → Text → Text → Text → GateState → GateState
store_confirm now token ns tool key fingerprint st =
    with_pending
      (record {
        token = token;
        namespace = ns;
        tool = tool;
        key = key;
        args_fingerprint = fingerprint;
        expires_at = now + confirm_ttl;
        consumed_at = none;
      }
        ∷ st.pending)
      st

-- the WHERE clause of the UPDATE in `_consume_confirm`
unfoldable pub is_open : ℕ → Text → Text → Pending → Bool
is_open now ns token p =
    text_eq token p.token
    && (text_eq ns p.namespace && (not (is_some p.consumed_at) && ltb now p.expires_at))

unfoldable pub consume : ℕ → Text → Text → Pending → Pending
consume now ns token p =
    if is_open now ns token p
    then record {
      token = p.token;
      namespace = p.namespace;
      tool = p.tool;
      key = p.key;
      args_fingerprint = p.args_fingerprint;
      expires_at = p.expires_at;
      consumed_at = some now;
    }
    else p

-- `_consume_confirm`: the row, and the table after the UPDATE
unfoldable pub consume_confirm : ℕ → Text → Text → GateState → Option Pending × GateState
consume_confirm now ns token st = (
  find (is_open now ns token) st.pending,
  with_pending (map (consume now ns token) st.pending) st,
)

-- `_open_block`
unfoldable pub open_block : Text → Text → GateState → Option Block
open_block ns fingerprint st =
    find
      (λ b. text_eq ns b.namespace && (text_eq fingerprint b.fingerprint && not (is_some b.closed)))
      st.blocks

-- `_record_block`
unfoldable pub record_block : Text → Text → String → Option Text → GateState → GateState
record_block ns fingerprint rule skill st =
    with_blocks
      (record {
        id = suc (length st.blocks);
        namespace = ns;
        fingerprint = fingerprint;
        rule = rule;
        skill_key = skill;
        closed = none;
      }
        ∷ st.blocks)
      st

abbrev same_id : ℕ → ℕ → Bool
same_id a b = not (ltb a b) && not (ltb b a)

unfoldable pub closing : Text → ℕ → String → Block → Block
closing ns id closure b =
    if same_id id b.id && (text_eq ns b.namespace && not (is_some b.closed))
    then record {
      id = b.id;
      namespace = b.namespace;
      fingerprint = b.fingerprint;
      rule = b.rule;
      skill_key = b.skill_key;
      closed = some closure;
    }
    else b

-- `_close_block`
unfoldable pub close_block : Text → ℕ → String → GateState → GateState
close_block ns id closure st = with_blocks (map (closing ns id closure) st.blocks) st

abbrev pub add_ledger : Decision → Option String → Option String → GateState → GateState
add_ledger decision rule closure st = record {
  memory = st.memory;
  pending = st.pending;
  blocks = st.blocks;
  intents = st.intents;
  ledger = record { decision = decision; rule = rule; closure = closure } ∷ st.ledger;
  efficacy = st.efficacy;
}

-- `if skill: bump_skill_efficacy(…, skill, counter)`, as a call that is noted
abbrev pub bump_skill : String → Option Text → GateState → GateState
bump_skill counter none st = st
bump_skill counter (some []) st = st
bump_skill counter (some (c ∷ skill)) st = record {
  memory = st.memory;
  pending = st.pending;
  blocks = st.blocks;
  intents = st.intents;
  ledger = st.ledger;
  efficacy = (c ∷ skill, counter) ∷ st.efficacy;
}

abbrev pub with_memory : Table → GateState → GateState
with_memory t st = record {
  memory = t;
  pending = st.pending;
  blocks = st.blocks;
  intents = st.intents;
  ledger = st.ledger;
  efficacy = st.efficacy;
}

-- `_load_intent`
unfoldable pub load_intent : Text → Option Text → GateState → Option Intent
load_intent ns none st = none
load_intent ns (some []) st = none
load_intent ns (some (c ∷ s)) st =
    find (λ i. text_eq ns i.namespace && text_eq (c ∷ s) i.session_id) st.intents

abbrev pub exempt_key_prefixes : List Text
exempt_key_prefixes = codes "gate/" ∷ codes "coord/" ∷ codes "_meta/" ∷ []

abbrev pub is_on : Option Json → Bool
is_on (some (str s)) = text_eq s (codes "on")
is_on _ = false

abbrev pub profile_on : Text → Fields → Bool
profile_on k profile = is_on (get k profile)

-- `enabled_for`
unfoldable pub enabled_for : Fields → Text → Text → Bool
unfolding any
enabled_for profile key actor =
    if not (profile_on (codes "intent_gate") profile)
    then false
    else if text_eq actor (codes "gate")
    then false
    else not (any (starts_with key) exempt_key_prefixes)
