-- ===== src/Gate/Untouched.antt =====
-- What the pre-flight does not touch.
use mcp_assist_memory.Prelude.{
  ℕ, Text, Bool, true, false, Option, none, some, [], ◌∷◌, ◌≡◌, refl, ◌∙◌, ◌&&◌, ◌||◌,
  if◌then◌else◌, String,
}
use mcp_assist_memory.Result.{Result, ok, err}
use mcp_assist_memory.Store.Rows.{Row, Table}
use mcp_assist_memory.Store.Prepare.{Services, Request}
use mcp_assist_memory.Store.Append.{Turn, append, Ack}
use mcp_assist_memory.Gate.State.{
  Pending, Block, Intent, GateState, store_confirm, consume_confirm, record_block, close_block,
  open_block, bump_skill, load_intent, enabled_for,
}
use mcp_assist_memory.Gate.Preflight.{
  Call, Surroundings, GateContext, Outcome, proceeds, previews, conflicts, refuses,
  gate_fingerprint, is_override, is_destructive, session_of, flag_if, is_for, confirmed, replayed,
  on_seen, seen, event_step, stale_step, mismatches, unresolved, preview_step, escalate, armed,
  intent_steps, start, on_fingerprint, preflight, differs, closed_or_recorded, Tier2, approve,
  no_answer, no_reasoner, conflict,
}
use mcp_assist_memory.Gate.Laws.{IsAuthorised, preflight-IsAuthorised}
use mcp_assist_memory.Gate.Write.{guarded, gated_write}

-- the outcome of steps leaves the table of memories as it is
abbrev Keeps : GateState → GateState × Outcome → Type 0
Keeps st out = out.0.memory ≡ st.memory

if-Keeps :
    (b : Bool) (st : GateState) (x y : GateState × Outcome)
    → Keeps st x
    → Keeps st y
    → Keeps st (if b then x else y)
if-Keeps true st x y h k = h
if-Keeps false st x y h k = k

preview_step-Keeps :
    (w : Surroundings) (q : Call) (m : Bool) (st : GateState) (c : GateContext)
    → Keeps st (preview_step w q m st c)
unfolding store_confirm
preview_step-Keeps w q m st c =
    if-Keeps (q.preview_requested || (is_destructive q || m)) st _ _ refl refl

escalate-Keeps :
    (w : Surroundings) (q : Call) (i : Option Intent) (m : Bool) (st : GateState) (c : GateContext)
    (t : Tier2)
    → Keeps st (escalate w q i m st c t)
unfolding record_block
escalate-Keeps w q i m st c approve = preview_step-Keeps w q m st _
escalate-Keeps w q i m st c no_answer = preview_step-Keeps w q m st _
escalate-Keeps w q i m st c conflict = refl
escalate-Keeps w q i m st c no_reasoner = refl

intent_steps-Keeps :
    (w : Surroundings) (q : Call) (st : GateState) (c : GateContext)
    → Keeps st (intent_steps w q st c)
unfolding intent_steps
intent_steps-Keeps w q st c0 =
    let i = load_intent q.namespace (session_of q.meta) st in
    let m = mismatches q i in
    let c = flag_if m "intent_mismatch" c0 in
    if-Keeps (is_override q) st _ _ refl (
      if-Keeps (is_destructive q && unresolved i) st _ _ (escalate-Keeps w q i m st c (armed w q))
        (preview_step-Keeps w q m st c))

bump_skill-memory :
    (n : String) (o : Option Text) (st : GateState) → (bump_skill n o st).memory ≡ st.memory
bump_skill-memory n none st = refl
bump_skill-memory n (some []) st = refl
bump_skill-memory n (some (c ∷ s)) st = refl

closed_or_recorded-memory :
    (q : Call) (c : GateContext) (o : Option Block) (st : GateState)
    → (closed_or_recorded q c o st).memory ≡ st.memory
unfolding record_block close_block
closed_or_recorded-memory q c none st = refl
closed_or_recorded-memory q c (some b) st =
    bump_skill-memory "prevented_error" b.skill_key
      (close_block q.namespace b.id "confirmed_correct" st)

event_step-Keeps :
    (s : Services) (q : Call) (c : GateContext) (st : GateState)
    (next : GateContext → GateState × Outcome)
    → ((d : GateContext) → Keeps st (next d))
    → Keeps st (event_step s q c st next)
unfolding event_step
event_step-Keeps s q c st next f = go (seen q st q.event_id)
  where
    again : (r : Row) (m : Result Text) → Keeps st (replayed q c st r m next)
    again r (err e) = refl
    again r (ok incoming) =
        if-Keeps (differs r.idem_fingerprint incoming) st _ _
          (closed_or_recorded-memory q c c.open_block st) (f _)

    go : (o : Option Row) → Keeps st (on_seen s q c st o next)
    go none = f c
    go (some r) = again r _

confirmed-Keeps :
    (q : Call) (c : GateContext) (o : Option Pending) (before st : GateState)
    → st.memory ≡ before.memory
    → Keeps before (confirmed q c (o, st))
unfolding record_block
confirmed-Keeps q c none before st h = h
confirmed-Keeps q c (some p) before st h = if-Keeps (is_for q c.fingerprint p) before _ _ h h

preflight-Keeps : (w : Surroundings) (q : Call) (st : GateState) → Keeps st (preflight w q st)
unfolding preflight consume_confirm
preflight-Keeps w q st = go (gate_fingerprint w.services q)
  where
    steps :
        (f : Text)
        → Keeps st (
            event_step w.services q
              (start f (open_block q.namespace f st))
              st
              (λ d. intent_steps w q st (stale_step w.stale_dependencies d)))
    steps f =
        event_step-Keeps w.services q (start f (open_block q.namespace f st)) st
          (λ d. intent_steps w q st (stale_step w.stale_dependencies d))
          (λ d. intent_steps-Keeps w q st (stale_step w.stale_dependencies d))

    by :
        (f : Text) (o : Option Text)
        → Keeps st (elim o [
          | some (x ∷ token) ↦
              confirmed q
                (start f (open_block q.namespace f st))
                (consume_confirm w.now q.namespace (x ∷ token) st)
          | _ ↦
              event_step w.services q
                (start f (open_block q.namespace f st))
                st
                (λ d. intent_steps w q st (stale_step w.stale_dependencies d))
        ])
    by f none = steps f
    by f (some []) = steps f
    by f (some (x ∷ token)) =
        let u = consume_confirm w.now q.namespace (x ∷ token) st in
        confirmed-Keeps q (start f (open_block q.namespace f st)) u.0 st u.1 refl

    go : (r : Result Text) → Keeps st (on_fingerprint w q st r)
    go (err e) = refl
    go (ok f) = by f q.confirm_token

guarded-memory :
    (write : Table → Result Ack × Table) (ns : Text) (st : GateState) (o : Outcome)
    → ((c : GateContext) → o ≡ proceeds c → ⊥)
    → (guarded write ns (st, o)).0.memory ≡ st.memory
guarded-memory write ns st (proceeds c) f = absurd (f c refl)
guarded-memory write ns st (previews c t) f = refl
guarded-memory write ns st (conflicts c) f = refl
guarded-memory write ns st (refuses e) f = refl

-- In a gated namespace, a deletion for which there is neither an override nor an open token of its own
-- leaves the table of memories as it is, whatever else the call carries.
pub gated_write-untouched :
    (w : Surroundings) (clock : ℕ → ℕ) (turns : ℕ → Turn) (q : Call) (request : Request)
    (st : GateState)
    → is_destructive q ≡ true
    → enabled_for q.profile q.key q.actor ≡ true
    → (IsAuthorised w q st → ⊥)
    → (gated_write w clock turns q request st).0.memory ≡ st.memory
unfolding gated_write
gated_write-untouched w clock turns q request st d e n =
    let p = preflight w q st in
    rw e (
      guarded-memory (λ (t : Table). append w.services clock turns request t) q.namespace p.0 p.1
        (λ c h. n (preflight-IsAuthorised w q st d (c, h)))
      ∙ preflight-Keeps w q st)
