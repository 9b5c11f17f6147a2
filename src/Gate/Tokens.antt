-- ===== src/Gate/Tokens.antt =====
-- The life of a confirmation token.
use mcp_assist_memory.Prelude.{
  ℕ, ◌+◌, ◌≤◌, ◌<◌, Text, text_eq_refl, true, false, Option, none, some, List, [], ◌∷◌, ◌≡◌, refl,
  sym, subst, arith, inl, inr, ltb, find, map, Bool-cases, Bool, text_eq, All, ◌∙◌,
}
use mcp_assist_memory.Result.{ok}
use mcp_assist_memory.Gate.State.{
  Pending, GateState, store_confirm, consume_confirm, consume, is_open, open_block, record_block,
}
use mcp_assist_memory.Gate.Preflight.{
  Call, Surroundings, GateContext, blocked, gate_fingerprint, is_for, confirmed, start, preflight,
  flagged,
}
use mcp_assist_memory.Gate.Laws.{Proceeds}
use mcp_assist_memory.Gate.Pending.{fresh_row, preflight-Holds}

consume-closed :
    (now later : ℕ) (ns token : Text) (p : Pending)
    → now ≤ later
    → is_open later ns token (consume now ns token p) ≡ false
unfolding is_open consume
consume-closed now later ns token p h = ground arith

-- After the UPDATE, no row is open for the token.
find-consumed :
    (now later : ℕ) (ns token : Text) (ps : List Pending)
    → now ≤ later
    → find (is_open later ns token) (map (consume now ns token) ps) ≡ none
unfolding find
find-consumed now later ns token [] h = refl
find-consumed now later ns token (p ∷ ps) h =
    rw (consume-closed now later ns token p h, find-consumed now later ns token ps h)

confirmed-pending :
    (q : Call) (c : GateContext) (o : Option Pending) (st : GateState)
    → (confirmed q c (o, st)).0.pending ≡ st.pending
unfolding record_block
confirmed-pending q c none st = refl
confirmed-pending q c (some p) st = elim (Bool-cases (is_for q c.fingerprint p)) [
  | inl e ↦ rw e
  | inr e ↦ rw e
]

-- A pre-flight with a token is the token's step, on the statement's result.
preflight-token :
    (w : Surroundings) (q : Call) (st : GateState) (c : ℕ) (token f : Text)
    → q.confirm_token ≡ some (c ∷ token)
    → gate_fingerprint w.services q ≡ ok f
    → preflight w q st
      ≡ confirmed q
          (start f (open_block q.namespace f st))
          (consume_confirm w.now q.namespace (c ∷ token) st)
unfolding preflight
preflight-token w q st c token f t e = rw (e, t)

consume_confirm-none :
    (now : ℕ) (ns token : Text) (st : GateState)
    → find (is_open now ns token) st.pending ≡ none
    → (consume_confirm now ns token st).0 ≡ none
unfolding consume_confirm
consume_confirm-none now ns token st h = h

consume_confirm-pending :
    (now : ℕ) (ns token : Text) (st : GateState)
    → (consume_confirm now ns token st).1.pending ≡ map (consume now ns token) st.pending
unfolding consume_confirm
consume_confirm-pending now ns token st = refl

confirmed-none :
    (q : Call) (c : GateContext) (o : Option Pending) (st : GateState)
    → o ≡ none
    → (confirmed q c (o, st)).1 ≡ blocked "confirm_invalid"
confirmed-none q c none st h = refl
confirmed-none q c (some p) st h = cc

-- no row is open for a token, from a time on
abbrev IsSpent : ℕ → Text → Text → List Pending → Type 0
IsSpent since ns token ps = (now : ℕ) → since ≤ now → find (is_open now ns token) ps ≡ none

find-none-head :
    (p : Pending → Bool) (x : Pending) (ps : List Pending)
    → find p (x ∷ ps) ≡ none
    → (p x ≡ false) × (find p ps ≡ none)
unfolding find
find-none-head p x ps h = elim (Bool-cases (p x)) [
  | inl e ↦ let f : some x ≡ none = sym (rw (e)) ∙ h in absurd (cc)
  | inr e ↦ (e, sym (rw (e)) ∙ h)
]

find-more :
    (p : Pending → Bool) (x : Pending) (ps : List Pending)
    → p x ≡ false
    → find p ps ≡ none
    → find p (x ∷ ps) ≡ none
unfolding find
find-more p x ps e k = rw (e, k) refl

consume-spent :
    (now then : ℕ) (ns ns2 token token2 : Text) (p : Pending)
    → is_open now ns token p ≡ false
    → is_open now ns token (consume then ns2 token2 p) ≡ false
unfolding is_open consume
consume-spent now then ns ns2 token token2 p h = ground arith

find-consume :
    (now then : ℕ) (ns ns2 token token2 : Text) (ps : List Pending)
    → find (is_open now ns token) ps ≡ none
    → find (is_open now ns token) (map (consume then ns2 token2) ps) ≡ none
unfolding find
find-consume now then ns ns2 token token2 [] h = refl
find-consume now then ns ns2 token token2 (p ∷ ps) h =
    let (a, b) = find-none-head (is_open now ns token) p ps h in
    rw (
      consume-spent now then ns ns2 token token2 p a,
      find-consume now then ns ns2 token token2 ps b,
    )

fresh_row-closed :
    (w : Surroundings) (q : Call) (f : Text) (now : ℕ) (ns token : Text)
    → text_eq token w.fresh_token ≡ false
    → is_open now ns token (fresh_row w q f) ≡ false
unfolding is_open
fresh_row-closed w q f now ns token h = rw h refl

-- the pre-flights of some calls, in their order
abbrev pub preflights : List (Surroundings × Call) → GateState → GateState
preflights [] st = st
preflights ((w, q) ∷ calls) st = preflights calls (preflight w q st).0

-- The tokens that `uuid4` gives to the previews of some calls are not this one.
abbrev pub IsFresh : Text → List (Surroundings × Call) → Type 0
IsFresh token calls = All (λ x. text_eq token x.0.fresh_token ≡ false) calls

preflights-IsSpent :
    (since : ℕ) (ns token : Text) (calls : List (Surroundings × Call)) (st : GateState)
    → IsFresh token calls
    → IsSpent since ns token st.pending
    → IsSpent since ns token (preflights calls st).pending
preflights-IsSpent since ns token [] st a h = h
preflights-IsSpent since ns token ((w, q) ∷ calls) st (a, b) h =
    preflights-IsSpent since ns token calls (preflight w q st).0 b (
      preflight-Holds (IsSpent since ns token) w q st h
        (λ f now le.
          find-more (is_open now ns token) (fresh_row w q f) st.pending
            (fresh_row-closed w q f now ns token a) (h now le))
        (λ t now le. find-consume now w.now ns q.namespace token t st.pending (h now le)))

-- A token is good for one call: once a call that has a fingerprint has presented it in its namespace,
-- whether that call went on or was refused, a later call with a fingerprint that presents it there is
-- refused with `confirm_invalid`, whatever calls come to the pre-flight in between, in this namespace
-- or another (a preview among them is given another token).
pub preflight_once :
    (w w2 : Surroundings) (q q2 : Call) (between : List (Surroundings × Call)) (st : GateState)
    (c : ℕ) (token f f2 : Text)
    → w.now ≤ w2.now
    → q2.namespace ≡ q.namespace
    → q.confirm_token ≡ some (c ∷ token)
    → q2.confirm_token ≡ some (c ∷ token)
    → gate_fingerprint w.services q ≡ ok f
    → gate_fingerprint w2.services q2 ≡ ok f2
    → IsFresh (c ∷ token) between
    → (preflight w2 q2 (preflights between (preflight w q st).0)).1 ≡ blocked "confirm_invalid"
preflight_once w w2 q q2 between st c token f f2 le same t t2 e e2 fresh =
    let next = (preflight w q st).0 in
    let u = consume_confirm w.now q.namespace (c ∷ token) st in
    let a : next.pending ≡ u.1.pending =
      rw (preflight-token w q st c token f t e)
        (confirmed-pending q (start f (open_block q.namespace f st)) u.0 u.1) in
    let spent : IsSpent w.now q.namespace (c ∷ token) next.pending = λ now h.
      rw (a, consume_confirm-pending w.now q.namespace (c ∷ token) st)
        (find-consumed w.now now q.namespace (c ∷ token) st.pending h) in
    let after = preflights between next in
    let n : find (is_open w2.now q2.namespace (c ∷ token)) after.pending ≡ none =
      rw same
        (preflights-IsSpent w.now q.namespace (c ∷ token) between next fresh spent w2.now le) in
    let v = consume_confirm w2.now q2.namespace (c ∷ token) after in
    rw (preflight-token w2 q2 after c token f2 t2 e2) (
      confirmed-none q2 (start f2 (open_block q2.namespace f2 after)) v.0 v.1
        (consume_confirm-none w2.now q2.namespace (c ∷ token) after n))

-- The call again, with a token.
unfoldable pub with_token : Text → Call → Call
with_token token q = record {
  namespace = q.namespace;
  profile = q.profile;
  tool = q.tool;
  key = q.key;
  kind = q.kind;
  value = q.value;
  meta = q.meta;
  actor = q.actor;
  event_id = q.event_id;
  preview_requested = q.preview_requested;
  confirm_token = some token;
}

-- The row of a stored token is found, and is for the call it was stored for.
stored-found :
    (q : Call) (st : GateState) (now later c : ℕ) (token f : Text)
    → later < now + 900
    → (p : Pending) × ((consume_confirm later q.namespace
          (c ∷ token)
          (store_confirm now (c ∷ token) q.namespace q.tool q.key f st)).0
        ≡ some p)
      × (is_for q f p ≡ true)
unfolding consume_confirm store_confirm find is_open is_for
stored-found q st now later c token f h =
    let o : ltb later (now + 900) ≡ true = ground arith in
    (
      record {
        token = c ∷ token;
        namespace = q.namespace;
        tool = q.tool;
        key = q.key;
        args_fingerprint = f;
        expires_at = now + 900;
        consumed_at = none;
      },
      rw (text_eq_refl (c ∷ token), text_eq_refl q.namespace, o) refl,
      rw (text_eq_refl f, text_eq_refl q.key, text_eq_refl q.tool) refl,
    )

confirmed-Proceeds :
    (q : Call) (c : GateContext) (o : Option Pending) (st : GateState) (p : Pending)
    → o ≡ some p
    → is_for q c.fingerprint p ≡ true
    → Proceeds (confirmed q c (o, st))
confirmed-Proceeds q c none st p h e = cc
confirmed-Proceeds q c (some r) st p h e =
    let e2 : is_for q c.fingerprint r ≡ true = cc in (flagged "confirmed" c, rw e2)

-- A token that was stored for a call lets that call go on, unchanged, within its 900 seconds.
pub store_confirm-preflight :
    (w : Surroundings) (q : Call) (st : GateState) (now c : ℕ) (token f : Text)
    → gate_fingerprint w.services q ≡ ok f
    → w.now < now + 900
    → Proceeds (
        preflight w
          (with_token (c ∷ token) q)
          (store_confirm now (c ∷ token) q.namespace q.tool q.key f st))
store_confirm-preflight w q st now c token f e h =
    let q2 = with_token (c ∷ token) q in
    let st2 = store_confirm now (c ∷ token) q.namespace q.tool q.key f st in
    let e2 : gate_fingerprint w.services q2 ≡ ok f = unfold with_token gate_fingerprint in e in
    let (p, a, b) = stored-found q st now w.now c token f h in
    let u = consume_confirm w.now q.namespace (c ∷ token) st2 in
    let z : preflight w q2 st2
        ≡ confirmed q2 (start f (open_block q.namespace f st2))
            (consume_confirm w.now q.namespace (c ∷ token) st2) =
      unfold with_token in preflight-token w q2 st2 c token f refl e2 in
    subst Proceeds (sym z) (
      confirmed-Proceeds q2 (start f (open_block q.namespace f st2)) u.0 u.1 p a
        (unfold with_token is_for in b))
