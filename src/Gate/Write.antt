-- ===== src/Gate/Write.antt =====
-- A write behind the gate: `memory_save` and `memory_delete` of storage/postgres.py around `_append`,
-- with `on_write_success` and `on_write_error` of storage/gate.py. The efficacy events of surfaced
-- skills and the stale-pin advisory are left out.
use mcp_assist_memory.Prelude.{ℕ, Text, Option, none, some, if◌then◌else◌, String}
use mcp_assist_memory.Errors.{AppError}
use mcp_assist_memory.Result.{Result, ok, err}
use mcp_assist_memory.Store.Rows.{Table}
use mcp_assist_memory.Store.Prepare.{Request}
use mcp_assist_memory.Store.Append.{Ack, Turn, append}
use mcp_assist_memory.Gate.State.{
  Block, GateState, gate_approved, close_block, add_ledger, bump_skill, with_memory, enabled_for,
}
use mcp_assist_memory.Gate.Preflight.{
  Call, Surroundings, GateContext, Outcome, proceeds, previews, conflicts, refuses, preflight,
}

-- What a caller gets: an acknowledgement, a response that persists nothing, or an error.
pub data Reply : Type 0 where
  acknowledged : Ack → Reply
  preview_given : Text → Reply
  conflict_given : Reply
  failed : AppError → Reply

abbrev closed_as : Text → String → String → Option Block → GateState → GateState
closed_as ns closure counter none st = add_ledger gate_approved none none st
closed_as ns closure counter (some b) st =
    add_ledger gate_approved none (some closure)
      (bump_skill counter b.skill_key (close_block ns b.id closure st))

-- `on_write_success`
unfoldable pub on_write_success : Text → GateContext → Ack → GateState → GateState
on_write_success ns c a st =
    if a.deduplicated then st else closed_as ns "false_positive" "false_positive" c.open_block st

abbrev confirmed_correct : Text → Option Block → GateState → GateState
confirmed_correct ns none st = st
confirmed_correct ns (some b) st = closed_as ns "confirmed_correct" "prevented_error" (some b) st

-- `on_write_error`
unfoldable pub on_write_error : Text → GateContext → GateState → GateState
on_write_error ns c st = confirmed_correct ns c.open_block st

-- the end of a write that the gate let through, on what `_append` returned
abbrev pub finished : Text → GateContext → GateState → Result Ack × Table → GateState × Reply
finished ns c st (ok a, t) = (on_write_success ns c a (with_memory t st), acknowledged a)
finished ns c st (err e, t) = (on_write_error ns c (with_memory t st), failed e)

abbrev pub ungated : GateState → Result Ack × Table → GateState × Reply
ungated st (ok a, t) = (with_memory t st, acknowledged a)
ungated st (err e, t) = (with_memory t st, failed e)

-- what follows the pre-flight
abbrev pub guarded : (Table → Result Ack × Table) → Text → GateState × Outcome → GateState × Reply
guarded write ns (st, proceeds c) = finished ns c st (write st.memory)
guarded write ns (st, previews c token) = (st, preview_given token)
guarded write ns (st, conflicts c) = (st, conflict_given)
guarded write ns (st, refuses e) = (st, failed e)

-- The call as the gate sees it, and the request as `_append` gets it.
unfoldable pub gated_write :
    Surroundings → (ℕ → ℕ) → (ℕ → Turn) → Call → Request → GateState → GateState × Reply
gated_write w clock turns q request st =
    let write = λ (t : Table). append w.services clock turns request t in
    if enabled_for q.profile q.key q.actor
    then guarded write q.namespace (preflight w q st)
    else ungated st (write st.memory)
