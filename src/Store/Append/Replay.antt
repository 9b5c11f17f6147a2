-- ===== src/Store/Append/Replay.antt =====
-- A second write with an event id that has landed.
use mcp_assist_memory.Prelude.{
  ℕ, Text, text_eq, text_eq_iff, text_eq_refl, Bool, true, false, Option, none, some, List, [], ◌∷◌,
  ◌≡◌, refl, subst, arith, In, keep, any, inl, inr, Bool-cases, ◌&&◌,
}
use mcp_assist_memory.Result.{ok}
use mcp_assist_memory.Store.Rows.{
  Draft, Row, Table, sort_desc, insert_desc, same_event, seen_event, event_is,
}
use mcp_assist_memory.Store.Insert.{new_row, repeats_event}
use mcp_assist_memory.Store.Insert.Laws.{IsTable, empty, grown}
use mcp_assist_memory.Store.Prepare.{Services, Request, Prepared, prepare}
use mcp_assist_memory.Store.Append.{
  Turn, append, store, replay, landed_event, dedup_entry, conflicts,
}

same_event-eq :
    (ns actor event : Text) (r : Row)
    → same_event ns actor event r ≡ true
    → (ns ≡ r.namespace) × (actor ≡ r.actor) × (r.event_id ≡ some event)
unfolding same_event
same_event-eq ns actor event r h = go r.event_id refl h
  where
    go :
        (o : Option Text)
        → r.event_id ≡ o
        → (text_eq ns r.namespace && (text_eq actor r.actor && event_is event o)) ≡ true
        → (ns ≡ r.namespace) × (actor ≡ r.actor) × (r.event_id ≡ some event)
    go none e k = absurd (ground arith)
    go (some f) e k =
        ground (arith, text_eq_iff ns r.namespace, text_eq_iff actor r.actor, text_eq_iff event f)

-- Two rows of one event repeat each other.
repeats_event-both :
    (ns actor event : Text) (r s : Row)
    → same_event ns actor event r ≡ true
    → same_event ns actor event s ≡ true
    → repeats_event r s ≡ true
unfolding repeats_event
repeats_event-both ns actor event r s h k =
    let (a, b, c) = same_event-eq ns actor event r h in
    let k2 = subst (λ x. same_event x actor event s ≡ true) a k in
    let k3 = subst (λ x. same_event r.namespace x event s ≡ true) b k2 in rw (c, k3)

any-In : (p : Row → Bool) (r : Row) (t : List Row) → In r t → p r ≡ true → any p t ≡ true
unfolding any
any-In p r [] h e = absurd h
any-In p r (s ∷ t) h e = ground (arith, any-In p r t)

keep-nothing :
    (p q : Row → Bool) (t : List Row)
    → ((s : Row) → p s ≡ true → q s ≡ true)
    → any q t ≡ false
    → keep p t ≡ []
unfolding keep any
keep-nothing p q [] f h = refl
keep-nothing p q (s ∷ t) f h = ground (arith, f s, keep-nothing p q t f)

-- In a table, an event of an actor in a namespace has one row.
pub keep-event :
    (ns actor event : Text) (r : Row) {t : Table}
    → IsTable t
    → In r t
    → same_event ns actor event r ≡ true
    → keep (same_event ns actor event) t ≡ r ∷ []
unfolding keep
keep-event ns actor event r empty m h = absurd m
keep-event ns actor event r (grown s {t} table next fresh) (inl e) h =
    let h2 = subst (λ x. same_event ns actor event x ≡ true) e h in
    let k =
      keep-nothing (same_event ns actor event) (repeats_event s) t
        (λ x y. repeats_event-both ns actor event s x h2 y) fresh in
    rw (h2, k, e)
keep-event ns actor event r (grown s {t} table next fresh) (inr m) h =
    elim (Bool-cases (same_event ns actor event s)) [
      | inl e ↦
          let a = any-In (repeats_event s) r t m (repeats_event-both ns actor event s r e h) in
          absurd (cc)
      | inr e ↦ rw e (keep-event ns actor event r table m h)
    ]

-- An event id that has landed is answered from the table, whatever other writers do: the table stays
-- as it is, and the answer is the landed row, or `idempotency_conflict` where its fingerprint differs.
pub append-landed :
    (s : Services) (clock : ℕ → ℕ) (turns : ℕ → Turn) (q : Request) (p : Prepared) (c : ℕ)
    (event : Text) (r : Row) {t : Table}
    → IsTable t
    → In r t
    → prepare s q ≡ ok p
    → p.draft.event_id ≡ some (c ∷ event)
    → same_event p.draft.namespace p.draft.actor (c ∷ event) r ≡ true
    → append s clock turns q t ≡ (replay p.draft.idem_fingerprint r, t)
unfolding append store landed_event
append-landed s clock turns q p c event r {t} table m h e k =
    let f : seen_event p.draft.namespace p.draft.actor (c ∷ event) t ≡ some r =
      unfold seen_event sort_desc insert_desc in
      rw (keep-event p.draft.namespace p.draft.actor (c ∷ event) r table m k) in
    rw (h, e, f)

conflicts_irrefl : (o : Option Text) → conflicts o o ≡ false
conflicts_irrefl none = refl
conflicts_irrefl (some []) = refl
conflicts_irrefl (some (c ∷ s)) = rw (text_eq_refl (c ∷ s))

pub replay-own : (r : Row) → replay r.idem_fingerprint r ≡ ok (dedup_entry r)
unfolding replay
replay-own r = rw (conflicts_irrefl r.idem_fingerprint)

pub same_event-new :
    (now : ℕ) (d : Draft) (t : Table) (event : Text)
    → d.event_id ≡ some event
    → same_event d.namespace d.actor event (new_row now d t t) ≡ true
unfolding same_event new_row
same_event-new now d t event e =
    rw (text_eq_refl d.namespace, text_eq_refl d.actor, e, text_eq_refl event)
