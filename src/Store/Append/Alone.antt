-- ===== src/Store/Append/Alone.antt =====
-- An append while no other writer commits: it succeeds, and reads see its row.
use mcp_assist_memory.Prelude.{
  ℕ, Text, text_eq_refl, mem_text, Bool, true, false, Option, none, some, List, [], ◌∷◌, ◌≡◌, ◌≢◌,
  refl, subst, ◌∙◌, arith, keep, keep-yes, keep-no, find, any, inl, inr, ◌≤◌, ◌+◌, Bool-cases, ◌==◌,
}
use mcp_assist_memory.Result.{ok}
use mcp_assist_memory.Store.Rows.{
  Draft, Row, Table, sort_desc, insert_desc, head, same_key, same_event, seen_event, latest,
  max_revision,
}
use mcp_assist_memory.Store.Insert.{
  kinds, landed, insert, others_write, new_row, repeats_revision, repeats_event,
}
use mcp_assist_memory.Store.Insert.Laws.{same_key_self}
use mcp_assist_memory.Store.Prepare.{Services, Request, Prepared, prepare}
use mcp_assist_memory.Store.Reads.{memory_get, memory_history, visible}
use mcp_assist_memory.Store.Append.{
  alone, append, store, attempts, verify, landed_event, ack_of, read_back, same_hash, same_bool,
}

-- no row of a table goes beyond the maximum of its key
abbrev AllLe : ℕ → List Row → Type 0
AllLe m [] = Unit {0}
AllLe m (r ∷ l) = (r.revision ≤ m) × AllLe m l

AllLe-weaken : (m n : ℕ) (l : List Row) → m ≤ n → AllLe m l → AllLe n l
AllLe-weaken m n [] h a = tt
AllLe-weaken m n (r ∷ l) h a = (omega (arith, a.0), AllLe-weaken m n l h a.1)

keep-AllLe : (ns key : Text) (t : Table) → AllLe (max_revision ns key t) (keep (same_key ns key) t)
unfolding keep max_revision
keep-AllLe ns key [] = tt
keep-AllLe ns key (r ∷ t) = elim (Bool-cases (same_key ns key r)) [
  | inl e ↦ rw e (
    ground arith,
    AllLe-weaken (max_revision ns key t) _ (keep (same_key ns key) t) (ground arith)
        (keep-AllLe ns key t),
  )
  | inr e ↦ rw e (keep-AllLe ns key t)
]

insert_desc-AllLe :
    (m : ℕ) (r : Row) (l : List Row) → r.revision ≤ m → AllLe m l → AllLe m (insert_desc r l)
unfolding insert_desc
insert_desc-AllLe m r [] h a = (h, tt)
insert_desc-AllLe m r (s ∷ l) h (b, c) = ground (arith, insert_desc-AllLe m r l h c)

sort_desc-AllLe : (m : ℕ) (l : List Row) → AllLe m l → AllLe m (sort_desc l)
unfolding sort_desc
sort_desc-AllLe m [] a = tt
sort_desc-AllLe m (r ∷ l) (b, c) = insert_desc-AllLe m r (sort_desc l) b (sort_desc-AllLe m l c)

insert_desc-first : (r : Row) (l : List Row) → AllLe r.revision l → insert_desc r l ≡ r ∷ l
unfolding insert_desc
insert_desc-first r [] a = refl
insert_desc-first r (s ∷ l) (b, c) = ground arith

-- The row that follows on comes first in the history of its key.
pub sort_desc-next :
    (ns key : Text) (r : Row) (t : Table)
    → same_key ns key r ≡ true
    → max_revision ns key t ≤ r.revision
    → sort_desc (keep (same_key ns key) (r ∷ t)) ≡ r ∷ sort_desc (keep (same_key ns key) t)
unfolding sort_desc keep
sort_desc-next ns key r t e h = rw e (
    insert_desc-first r (sort_desc (keep (same_key ns key) t)) (
      sort_desc-AllLe r.revision (keep (same_key ns key) t) (
        AllLe-weaken (max_revision ns key t) r.revision (keep (same_key ns key) t) h
          (keep-AllLe ns key t))))

no_repeats_revision :
    (r : Row) (t : Table)
    → max_revision r.namespace r.key t + 1 ≤ r.revision
    → any (repeats_revision r) t ≡ false
unfolding any repeats_revision max_revision
no_repeats_revision r [] h = refl
no_repeats_revision r (s ∷ t) h = ground (arith, no_repeats_revision r t)

insert_desc_nonempty : (r : Row) (l : List Row) → head (insert_desc r l) ≢ none
unfolding insert_desc
insert_desc_nonempty r [] h = cc
insert_desc_nonempty r (s ∷ l) h = ground arith

keep-none : (p : Row → Bool) (t : Table) → head (sort_desc (keep p t)) ≡ none → any p t ≡ false
unfolding any
keep-none p [] h = refl
keep-none p (r ∷ t) h = elim (Bool-cases (p r)) [
  | inl e ↦
      let k = subst (λ l. head (sort_desc l) ≡ none) (keep-yes p r t e) h in
      absurd (unfold sort_desc in insert_desc_nonempty r (sort_desc (keep p t)) k)
  | inr e ↦ rw e (keep-none p t (subst (λ l. head (sort_desc l) ≡ none) (keep-no p r t e) h))
]

any-ext : (f g : Row → Bool) (t : Table) → ((s : Row) → f s ≡ g s) → any f t ≡ any g t
unfolding any
any-ext f g [] h = refl
any-ext f g (s ∷ t) h = rw (h s, any-ext f g t h)

any-never : (t : Table) → any (λ (s : Row). false) t ≡ false
unfolding any
any-never [] = refl
any-never (s ∷ t) = any-never t

no_repeats_event :
    (r : Row) (t : Table)
    → r.event_id ≢ some []
    → landed_event r.draft t ≡ none
    → any (repeats_event r) t ≡ false
unfolding repeats_event landed_event
no_repeats_event r t h e = go r.event_id refl e
  where
    go :
        (o : Option Text)
        → r.event_id ≡ o
        → (elim o [ some (c ∷ e) ↦ seen_event r.namespace r.actor (c ∷ e) t | _ ↦ none ]) ≡ none
        → any (repeats_event r) t ≡ false
    go none q k = any-ext (repeats_event r) (λ _. false) t (λ s. rw q) ∙ any-never t
    go (some []) q k = absurd (h q)
    go (some (c ∷ x)) q k =
        any-ext (repeats_event r) (same_event r.namespace r.actor (c ∷ x)) t (λ s. rw q)
        ∙ keep-none (same_event r.namespace r.actor (c ∷ x)) t (unfold seen_event in k)

-- Where nothing stands in the way, the row lands.
insert-alone :
    (now : ℕ) (d : Draft) (t : Table)
    → mem_text d.kind kinds ≡ true
    → d.event_id ≢ some []
    → landed_event d t ≡ none
    → insert now d t t ≡ landed (new_row now d t t)
unfolding insert
insert-alone now d t k h e =
    let r = new_row now d t t in
    let a : any (repeats_revision r) t ≡ false =
      unfold new_row in no_repeats_revision r t (omega arith) in
    let b : any (repeats_event r) t ≡ false = unfold new_row in no_repeats_event r t h e in
    rw (k, a, b)

same_hash_refl : (o : Option Text) → same_hash o o ≡ true
same_hash_refl none = refl
same_hash_refl (some h) = text_eq_refl h

same_bool_refl : (b : Bool) → same_bool b b ≡ true
same_bool_refl true = refl
same_bool_refl false = refl

read_back-alone :
    (r : Row) (t : Table)
    → max_revision r.namespace r.key t ≤ r.revision
    → read_back r (r ∷ t) ≡ true
unfolding read_back memory_history find
read_back-alone r t h =
    let e = sort_desc-next r.namespace r.key r t (same_key_self r) h in
    let q : (r.revision == r.revision) ≡ true = ground arith in
    rw (e, q, same_hash_refl r.content_hash, same_bool_refl r.tombstone)

-- While no other writer commits, an append of a valid request whose event has not landed returns an
-- acknowledgement and leaves one row more; the row is of the next revision.
pub append-new_row :
    (s : Services) (clock : ℕ → ℕ) (q : Request) (t : Table) (p : Prepared)
    → prepare s q ≡ ok p
    → mem_text p.draft.kind kinds ≡ true
    → p.draft.event_id ≢ some []
    → landed_event p.draft t ≡ none
    → append s clock (λ _. alone) q t
      ≡ (ok (ack_of p (new_row (clock 2) p.draft t t)), new_row (clock 2) p.draft t t ∷ t)
unfolding append store attempts others_write verify
append-new_row s clock q t p h k v e =
    let i = insert-alone (clock 2) p.draft t k v e in
    let r = new_row (clock 2) p.draft t t in
    let b : read_back r (r ∷ t) ≡ true = unfold new_row in read_back-alone r t (omega arith) in
    rw (h, e, i, b)

-- The latest revision of a key is the row that follows on.
pub latest-next :
    (r : Row) (t : Table)
    → max_revision r.namespace r.key t ≤ r.revision
    → latest r.namespace r.key (r ∷ t) ≡ some r
unfolding latest
latest-next r t h = rw (sort_desc-next r.namespace r.key r t (same_key_self r) h)

-- After such an append, `memory_get` of the key reads the new row: it returns that row, unless the
-- row is a tombstone, is past its end, or is quarantined and quarantined rows are not asked for.
pub memory_get-new_row :
    (s : Services) (clock : ℕ → ℕ) (q : Request) (t : Table) (p : Prepared) (now : ℕ)
    (quarantined_too : Bool)
    → prepare s q ≡ ok p
    → mem_text p.draft.kind kinds ≡ true
    → p.draft.event_id ≢ some []
    → landed_event p.draft t ≡ none
    → memory_get now p.draft.namespace p.draft.key quarantined_too
        (append s clock (λ _. alone) q t).1
      ≡ visible now quarantined_too (some (new_row (clock 2) p.draft t t))
unfolding memory_get
memory_get-new_row s clock q t p now quarantined_too h k v e =
    let r = new_row (clock 2) p.draft t t in
    let l : latest p.draft.namespace p.draft.key (r ∷ t) ≡ some r =
      unfold new_row in latest-next r t (omega arith) in
    rw (append-new_row s clock q t p h k v e, l)
