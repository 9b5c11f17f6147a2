-- ===== src/Gate/Laws.antt =====
-- What lets a call through the pre-flight, and what a token is good for.
use mcp_assist_memory.Prelude.{
  ℕ, Text, Bool, true, Option, none, some, [], ◌∷◌, ◌≡◌, refl, arith, In, ◌&&◌, ◌||◌, find-some,
  if-cases,
}
use mcp_assist_memory.Result.{Result, ok, err}
use mcp_assist_memory.Store.Rows.{Row}
use mcp_assist_memory.Store.Prepare.{Services}
use mcp_assist_memory.Gate.State.{
  Pending, Intent, GateState, consume_confirm, is_open, open_block, load_intent,
}
use mcp_assist_memory.Gate.Preflight.{
  Call, Surroundings, GateContext, Outcome, proceeds, gate_fingerprint, is_override, is_destructive,
  session_of, flag_if, is_for, confirmed, replayed, on_seen, seen, event_step, stale_step,
  mismatches, unresolved, preview_step, escalate, armed, intent_steps, start, on_fingerprint,
  preflight, differs, Tier2, approve, no_answer, no_reasoner, conflict,
}

-- What entitles a destructive call to go on: an operator's override, or an open token of this very
-- call.
pub data IsAuthorised (w : Surroundings) (q : Call) (st : GateState) : Type 0 where
  by_override : is_override q ≡ true → IsAuthorised w q st
  by_token :
      (c : ℕ) (token fingerprint : Text) (p : Pending)
      → q.confirm_token ≡ some (c ∷ token)
      → gate_fingerprint w.services q ≡ ok fingerprint
      → In p st.pending
      → is_open w.now q.namespace (c ∷ token) p ≡ true
      → is_for q fingerprint p ≡ true
      → IsAuthorised w q st

abbrev pub Proceeds : GateState × Outcome → Type 0
Proceeds out = (c : GateContext) × (out.1 ≡ proceeds c)

preview_step-stops :
    (w : Surroundings) (q : Call) (m : Bool) (st : GateState) (c : GateContext)
    → is_destructive q ≡ true
    → Proceeds (preview_step w q m st c)
    → ⊥
preview_step-stops w q m st c d (x, h) =
    if-cases (q.preview_requested || (is_destructive q || m)) _ _
      (λ (o : GateState × Outcome). o.1 ≡ proceeds x) h (λ e k. cc) (λ e k. ground arith)

escalate-stops :
    (w : Surroundings) (q : Call) (i : Option Intent) (m : Bool) (st : GateState) (c : GateContext)
    (t : Tier2)
    → is_destructive q ≡ true
    → Proceeds (escalate w q i m st c t)
    → ⊥
escalate-stops w q i m st c approve d h = preview_step-stops w q m st _ d h
escalate-stops w q i m st c no_answer d h = preview_step-stops w q m st _ d h
escalate-stops w q i m st c conflict d (x, h) = cc
escalate-stops w q i m st c no_reasoner d (x, h) = cc

intent_steps-override :
    (w : Surroundings) (q : Call) (st : GateState) (c : GateContext)
    → is_destructive q ≡ true
    → Proceeds (intent_steps w q st c)
    → is_override q ≡ true
unfolding intent_steps
intent_steps-override w q st c0 d (x, h) =
    let i = load_intent q.namespace (session_of q.meta) st in
    let m = mismatches q i in
    let c = flag_if m "intent_mismatch" c0 in
    if-cases (is_override q) _ _ (λ (o : GateState × Outcome). o.1 ≡ proceeds x) h (λ e k. e)
      (λ e k.
        if-cases (is_destructive q && unresolved i) _ _
          (λ (o : GateState × Outcome). o.1 ≡ proceeds x) k
          (λ z l. absurd (escalate-stops w q i m st c (armed w q) d (x, l)))
          (λ z l. absurd (preview_step-stops w q m st c d (x, l))))

-- Where the event step lets a call proceed, the steps after it did.
event_step-next :
    (s : Services) (q : Call) (c : GateContext) (st : GateState)
    (next : GateContext → GateState × Outcome)
    → Proceeds (event_step s q c st next)
    → (d : GateContext) × Proceeds (next d)
unfolding event_step
event_step-next s q c st next h = go (seen q st q.event_id) h
  where
    again :
        (r : Row) (m : Result Text)
        → Proceeds (replayed q c st r m next)
        → (d : GateContext) × Proceeds (next d)
    again r (err e) (x, k) = cc
    again r (ok incoming) (x, k) =
        if-cases (differs r.idem_fingerprint incoming) _ _
          (λ (o : GateState × Outcome). o.1 ≡ proceeds x) k (λ e l. absurd (cc))
          (λ e l. (_, (x, l)))

    go :
        (o : Option Row)
        → Proceeds (on_seen s q c st o next)
        → (d : GateContext) × Proceeds (next d)
    go none k = (c, k)
    go (some r) k = again r _ k

event_step-override :
    (w : Surroundings) (q : Call) (st : GateState) (c : GateContext)
    → is_destructive q ≡ true
    → Proceeds (
        event_step w.services q c st (λ x. intent_steps w q st (stale_step w.stale_dependencies x)))
    → is_override q ≡ true
event_step-override w q st c d k =
    let (x, l) =
      event_step-next w.services q c st
        (λ x. intent_steps w q st (stale_step w.stale_dependencies x)) k in
    intent_steps-override w q st (stale_step w.stale_dependencies x) d l

-- the tokens' statement, as it shows in its result
confirmed-for :
    (q : Call) (c : GateContext) (o : Option Pending) (st : GateState)
    → Proceeds (confirmed q c (o, st))
    → (p : Pending) × (o ≡ some p) × (is_for q c.fingerprint p ≡ true)
confirmed-for q c none st (x, h) = cc
confirmed-for q c (some p) st (x, h) =
    if-cases (is_for q c.fingerprint p) _ _ (λ (o : GateState × Outcome). o.1 ≡ proceeds x) h
      (λ e k. (p, refl, e)) (λ e k. absurd (cc))

consume_confirm-open :
    (now : ℕ) (ns token : Text) (st : GateState) (p : Pending)
    → (consume_confirm now ns token st).0 ≡ some p
    → In p st.pending × (is_open now ns token p ≡ true)
unfolding consume_confirm
consume_confirm-open now ns token st p h = find-some (is_open now ns token) st.pending h

-- A gated deletion goes on only where a person answers for it: with an operator's override, or with a
-- token that is open, of this namespace, and was handed out for a call of the same tool, key and
-- fingerprint.
pub preflight-IsAuthorised :
    (w : Surroundings) (q : Call) (st : GateState)
    → is_destructive q ≡ true
    → Proceeds (preflight w q st)
    → IsAuthorised w q st
unfolding preflight
preflight-IsAuthorised w q st d h = go (gate_fingerprint w.services q) refl h
  where
    by :
        (f : Text) (o : Option Text)
        → gate_fingerprint w.services q ≡ ok f
        → q.confirm_token ≡ o
        → Proceeds (elim o [
          | some (x ∷ token) ↦
              confirmed q
                (start f (open_block q.namespace f st))
                (consume_confirm w.now q.namespace (x ∷ token) st)
          | _ ↦
              event_step w.services q
                (start f (open_block q.namespace f st))
                st
                (λ d. intent_steps w q st (stale_step w.stale_dependencies d))
        ])
        → IsAuthorised w q st
    by f none e t k =
        by_override (event_step-override w q st (start f (open_block q.namespace f st)) d k)
    by f (some []) e t k =
        by_override (event_step-override w q st (start f (open_block q.namespace f st)) d k)
    by f (some (x ∷ token)) e t k =
        let (p, a, b) =
          confirmed-for q (start f (open_block q.namespace f st))
            (consume_confirm w.now q.namespace (x ∷ token) st).0
            (consume_confirm w.now q.namespace (x ∷ token) st).1 k in
        let (m, u) = consume_confirm-open w.now q.namespace (x ∷ token) st p a in
        by_token x token f p t e m u b

    go :
        (r : Result Text)
        → gate_fingerprint w.services q ≡ r
        → Proceeds (on_fingerprint w q st r)
        → IsAuthorised w q st
    go (err e) z (x, k) = cc
    go (ok f) z k = by f q.confirm_token z refl k
