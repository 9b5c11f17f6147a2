-- ===== src/Store/Append/Acked.antt =====
-- What an acknowledgement says of the table.
use mcp_assist_memory.Prelude.{
  ℕ, zero, suc, Text, true, false, Option, none, some, List, [], ◌∷◌, ◌≡◌, refl, subst, arith, In,
  In-keep_cases, keep, inl, inr, sym, ap,
}
use mcp_assist_memory.Result.{Result, ok, err}
use mcp_assist_memory.Store.Rows.{
  Draft, Row, Table, sort_desc, insert_desc, head, same_event, seen_event,
}
use mcp_assist_memory.Store.Insert.{
  Landing, landed, check_violation, unique_violation, insert, others_write, new_row,
}
use mcp_assist_memory.Store.Insert.Laws.{insert-landed}
use mcp_assist_memory.Store.Append.Laws.{others_write-In}
use mcp_assist_memory.Store.Prepare.{Services, Request, Prepared, prepare}
use mcp_assist_memory.Store.Append.{
  Ack, Turn, append, stored, store, retry, settle, attempts, verify, replay, landed_event,
  max_retries, ack_of, dedup_entry, conflicts,
}

insert_desc-In : (x r : Row) (l : List Row) → In x (insert_desc r l) → In x (r ∷ l)
unfolding insert_desc
insert_desc-In x r [] h = h
insert_desc-In x r (s ∷ t) h = ground (arith, insert_desc-In x r t)

pub sort_desc-In : (x : Row) (l : List Row) → In x (sort_desc l) → In x l
unfolding sort_desc
sort_desc-In x [] h = h
sort_desc-In x (r ∷ l) h = elim (insert_desc-In x r (sort_desc l) h) [
  | inl e ↦ inl e
  | inr m ↦ inr (sort_desc-In x l m)
]

pub head-In : (x : Row) (l : List Row) → head l ≡ some x → In x l
head-In x [] h = cc
head-In x (y ∷ l) h = inl (cc)

pub seen_event-In :
    (ns actor event : Text) (t : Table) (r : Row)
    → seen_event ns actor event t ≡ some r
    → In r t × (same_event ns actor event r ≡ true)
unfolding seen_event
seen_event-In ns actor event t r h = In-keep_cases (same_event ns actor event) r t (
    sort_desc-In r (keep (same_event ns actor event) t)
      (head-In r (sort_desc (keep (same_event ns actor event) t)) h))

-- The row of an acknowledgement is the write's own, or one with the write's event.
pub data IsAcked (d : Draft) (t : Table) : Ack → Type 0 where
  written : (a : Ack) → a.deduplicated ≡ false → a.row.draft ≡ d → In a.row t → IsAcked d t a
  replayed :
      (a : Ack) (event : Text)
      → a.deduplicated ≡ true
      → d.event_id ≡ some event
      → same_event d.namespace d.actor event a.row ≡ true
      → conflicts a.row.idem_fingerprint d.idem_fingerprint ≡ false
      → In a.row t
      → IsAcked d t a

landed_event-In :
    (d : Draft) (t : Table) (r : Row)
    → landed_event d t ≡ some r
    → (event : Text) × (d.event_id ≡ some event)
      × (same_event d.namespace d.actor event r ≡ true)
      × In r t
unfolding landed_event
landed_event-In d t r h = go d.event_id refl h
  where
    go :
        (o : Option Text)
        → d.event_id ≡ o
        → (elim o [ some (c ∷ e) ↦ seen_event d.namespace d.actor (c ∷ e) t | _ ↦ none ]) ≡ some r
        → (event : Text) × (d.event_id ≡ some event)
          × (same_event d.namespace d.actor event r ≡ true)
          × In r t
    go none e k = cc
    go (some []) e k = cc
    go (some (c ∷ s)) e k =
        let (m, q) = seen_event-In d.namespace d.actor (c ∷ s) t r k in (c ∷ s, e, q, m)

replay-ok :
    (f : Option Text) (r : Row) (a : Ack)
    → replay f r ≡ ok a
    → (a ≡ dedup_entry r) × (conflicts r.idem_fingerprint f ≡ false)
unfolding replay
replay-ok f r a h = ground arith

verify-ok : (p : Prepared) (r : Row) (t : Table) (a : Ack) → verify p r t ≡ ok a → a ≡ ack_of p r
unfolding verify
verify-ok p r t a h = ground arith

-- every acknowledgement that a call returns is true of its table
abbrev IsTold : Prepared → Result Ack × Table → Type 0
IsTold p out = (a : Ack) → out.0 ≡ ok a → IsAcked p.draft out.1 a

retry-acked :
    (rest : Table → Result Ack × Table) (p : Prepared) (t : Table) (o : Option Row)
    → landed_event p.draft t ≡ o
    → ((x : Table) → IsTold p (rest x))
    → IsTold p (retry rest p t o)
unfolding dedup_entry
retry-acked rest p t none e f = f t
retry-acked rest p t (some r) e f = λ a h.
    let (event, e1, e2, m) = landed_event-In p.draft t r e in
    let (q, c) = replay-ok p.draft.idem_fingerprint r a h in
    subst (λ x. IsAcked p.draft t x) (sym q) (replayed (dedup_entry r) event refl e1 e2 c m)

settle-acked :
    (rest : Table → Result Ack × Table) (now : ℕ) (behind : List Draft) (p : Prepared)
    (seen t : Table) (l : Landing)
    → insert now p.draft seen t ≡ l
    → ((x : Table) → IsTold p (rest x))
    → IsTold p (settle rest now behind p t l)
unfolding ack_of new_row
settle-acked rest now behind p seen t (landed r) e f = λ a h.
    let after = others_write now behind (r ∷ t) in
    let q = verify-ok p r after a h in
    let (n, _, _, _) = insert-landed now p.draft seen t e in
    subst (λ x. IsAcked p.draft after x) (sym q)
      (written (ack_of p r) refl (ap (λ (x : Row). x.draft) n)
        (others_write-In r now behind (r ∷ t) (inl refl)))
settle-acked rest now behind p seen t check_violation e f = λ a h. cc
settle-acked rest now behind p seen t unique_violation e f =
    let after = others_write now behind t in
    retry-acked rest p after (landed_event p.draft after) refl f

attempts-acked :
    (n : ℕ) (clock : ℕ → ℕ) (turns : ℕ → Turn) (p : Prepared) (t : Table)
    → IsTold p (attempts n clock turns p t)
unfolding attempts
attempts-acked zero clock turns p t = λ a h. cc
attempts-acked (suc n) clock turns p t =
    let now = clock n in
    let seen = others_write now (turns n).before t in
    let committed = others_write now (turns n).during seen in
    settle-acked (λ (x : Table). attempts n clock turns p x) now (turns n).behind p seen committed
      (insert now p.draft seen committed) refl (λ x. attempts-acked n clock turns p x)

-- No phantom acknowledgement: where an append returns one, whatever other writers committed
-- meanwhile, the row it names is in the table; it is the row of this request, or, where it is marked
-- as deduplicated, one of the same namespace, actor and event whose fingerprint does not differ.
pub append-acked :
    (s : Services) (clock : ℕ → ℕ) (turns : ℕ → Turn) (q : Request) (t : Table) (a : Ack)
    → (append s clock turns q t).0 ≡ ok a
    → (p : Prepared) × (prepare s q ≡ ok p) × IsAcked p.draft (append s clock turns q t).1 a
unfolding append store
append-acked s clock turns q t a h = go (prepare s q) refl h
  where
    go :
        (m : Result Prepared)
        → prepare s q ≡ m
        → (stored clock turns m t).0 ≡ ok a
        → (p : Prepared) × (prepare s q ≡ ok p) × IsAcked p.draft (stored clock turns m t).1 a
    go (ok p) e k = (
      p,
      e,
      retry-acked (λ (x : Table). attempts max_retries clock turns p x) p t (landed_event p.draft t)
          refl (λ x. attempts-acked max_retries clock turns p x) a k,
    )
    go (err x) e k = cc
