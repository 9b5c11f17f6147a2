-- ===== src/Gate/Pending.antt =====
-- What a pre-flight does to `gate_pending`: it leaves the rows, adds one with a fresh token, or marks
-- those of the token that the call presents.
use mcp_assist_memory.Prelude.{
  Text, Bool, true, false, Option, none, some, List, [], ◌∷◌, map, ◌≡◌, refl, subst, sym, ◌&&◌,
  ◌||◌, if◌then◌else◌, String, ◌+◌,
}
use mcp_assist_memory.Result.{Result, ok, err}
use mcp_assist_memory.Store.Rows.{Row}
use mcp_assist_memory.Store.Prepare.{Services}
use mcp_assist_memory.Gate.State.{
  Pending, Block, Intent, GateState, store_confirm, consume, consume_confirm, record_block,
  close_block, open_block, bump_skill, load_intent, confirm_ttl,
}
use mcp_assist_memory.Gate.Preflight.{
  Call, Surroundings, GateContext, Outcome, gate_fingerprint, is_override, is_destructive,
  session_of, flag_if, is_for, confirmed, replayed, on_seen, seen, event_step, stale_step,
  mismatches, unresolved, preview_step, escalate, armed, intent_steps, start, on_fingerprint,
  preflight, differs, closed_or_recorded, Tier2, approve, no_answer, no_reasoner, conflict,
}

-- the row that a preview of a call adds
abbrev pub fresh_row : Surroundings → Call → Text → Pending
fresh_row w q fingerprint = record {
  token = w.fresh_token;
  namespace = q.namespace;
  tool = q.tool;
  key = q.key;
  args_fingerprint = fingerprint;
  expires_at = w.now + confirm_ttl;
  consumed_at = none;
}

bump_skill-pending :
    (n : String) (o : Option Text) (st : GateState) → (bump_skill n o st).pending ≡ st.pending
bump_skill-pending n none st = refl
bump_skill-pending n (some []) st = refl
bump_skill-pending n (some (c ∷ s)) st = refl

closed_or_recorded-pending :
    (q : Call) (c : GateContext) (o : Option Block) (st : GateState)
    → (closed_or_recorded q c o st).pending ≡ st.pending
unfolding record_block close_block
closed_or_recorded-pending q c none st = refl
closed_or_recorded-pending q c (some b) st =
    bump_skill-pending "prevented_error" b.skill_key
      (close_block q.namespace b.id "confirmed_correct" st)

-- A property of the rows that holds before a pre-flight, with a fresh row more, and with the rows of a
-- token marked, holds after it.
module _ (P : List Pending → Type 0) (w : Surroundings) (q : Call) (st : GateState)
    (base : P st.pending)
    (stored : (fingerprint : Text) → P (fresh_row w q fingerprint ∷ st.pending))
    (used : (token : Text) → P (map (consume w.now q.namespace token) st.pending)) where
  abbrev Holds : GateState × Outcome → Type 0
  Holds out = P out.0.pending

  if-Holds : (b : Bool) (x y : GateState × Outcome) → Holds x → Holds y → Holds (if b then x else y)
  if-Holds true x y h k = h
  if-Holds false x y h k = k

  preview_step-Holds : (m : Bool) (c : GateContext) → Holds (preview_step w q m st c)
  unfolding store_confirm
  preview_step-Holds m c =
      if-Holds (q.preview_requested || (is_destructive q || m)) _ _ (stored c.fingerprint) base

  escalate-Holds :
      (i : Option Intent) (m : Bool) (c : GateContext) (t : Tier2) → Holds (escalate w q i m st c t)
  unfolding record_block
  escalate-Holds i m c approve = preview_step-Holds m _
  escalate-Holds i m c no_answer = preview_step-Holds m _
  escalate-Holds i m c conflict = base
  escalate-Holds i m c no_reasoner = base

  intent_steps-Holds : (c : GateContext) → Holds (intent_steps w q st c)
  unfolding intent_steps
  intent_steps-Holds c0 =
      let i = load_intent q.namespace (session_of q.meta) st in
      let m = mismatches q i in
      let c = flag_if m "intent_mismatch" c0 in
      if-Holds (is_override q) _ _ base (
        if-Holds (is_destructive q && unresolved i) _ _ (escalate-Holds i m c (armed w q))
          (preview_step-Holds m c))

  event_step-Holds :
      (s : Services) (c : GateContext) (next : GateContext → GateState × Outcome)
      → ((d : GateContext) → Holds (next d))
      → Holds (event_step s q c st next)
  unfolding event_step
  event_step-Holds s c next f = go (seen q st q.event_id)
    where
      again : (r : Row) (m : Result Text) → Holds (replayed q c st r m next)
      again r (err e) = base
      again r (ok incoming) =
          if-Holds (differs r.idem_fingerprint incoming) _ _
            (subst P (sym (closed_or_recorded-pending q c c.open_block st)) base) (f _)

      go : (o : Option Row) → Holds (on_seen s q c st o next)
      go none = f c
      go (some r) = again r _

  confirmed-Holds :
      (c : GateContext) (o : Option Pending) (after : GateState)
      → P after.pending
      → Holds (confirmed q c (o, after))
  unfolding record_block
  confirmed-Holds c none after h = h
  confirmed-Holds c (some p) after h = if-Holds (is_for q c.fingerprint p) _ _ h h

  pub preflight-Holds : P (preflight w q st).0.pending
  unfolding preflight consume_confirm
  preflight-Holds = go (gate_fingerprint w.services q)
    where
      steps :
          (f : Text)
          → Holds (
              event_step w.services q
                (start f (open_block q.namespace f st))
                st
                (λ d. intent_steps w q st (stale_step w.stale_dependencies d)))
      steps f =
          event_step-Holds w.services (start f (open_block q.namespace f st))
            (λ d. intent_steps w q st (stale_step w.stale_dependencies d))
            (λ d. intent_steps-Holds (stale_step w.stale_dependencies d))

      by :
          (f : Text) (o : Option Text)
          → Holds (elim o [
            | some (x ∷ token) ↦
                confirmed q
                  (start f (open_block q.namespace f st))
                  (consume_confirm w.now q.namespace (x ∷ token) st)
            | _ ↦
                event_step w.services q
                  (start f (open_block q.namespace f st))
                  st
                  (λ d. intent_steps w q st (stale_step w.stale_dependencies d))
          ])
      by f none = steps f
      by f (some []) = steps f
      by f (some (x ∷ token)) =
          let u = consume_confirm w.now q.namespace (x ∷ token) st in
          confirmed-Holds (start f (open_block q.namespace f st)) u.0 u.1 (used (x ∷ token))

      go : (r : Result Text) → Holds (on_fingerprint w q st r)
      go (err e) = base
      go (ok f) = by f q.confirm_token
