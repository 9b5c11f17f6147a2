-- ===== src/Store/Listing/Stale.antt =====
-- The filters `kind` and `tag` stand before `DISTINCT ON (key)`: what a list with a filter shows need
-- not be the latest revision of its key.
use mcp_assist_memory.Prelude.{
  ℕ, ◌≤◌, Text, Bool, true, false, Option, none, some, [], ◌∷◌, ◌&&◌, leb, text_eq, mem_text, keep,
  keep-yes, keep-no, find, find-some, In, In-keep, if◌then◌else◌, ◌≡◌, ◌≢◌, refl, sym, ap, ◌∙◌,
  arith, Bool-cases, inl, inr,
}
use mcp_assist_memory.Result.{ok}
use mcp_assist_memory.Store.Rows.{Row, Table, is_live, same_key, latest, sort_desc}
use mcp_assist_memory.Store.Insert.{kinds, new_row}
use mcp_assist_memory.Store.Prepare.{Services, Request, Prepared, prepare, draft_of}
use mcp_assist_memory.Store.Append.{alone, append, landed_event, tombstone_of, memory_delete}
use mcp_assist_memory.Store.Append.Alone.{append-new_row, memory_get-new_row}
use mcp_assist_memory.Store.Screened.{prepare-ok}
use mcp_assist_memory.Store.Reads.{memory_get, visible}
use mcp_assist_memory.Store.Listing.{
  Collation, Query, where_clauses, distinct_on_key, shown, live_rows,
}
use mcp_assist_memory.Store.Listing.Sorted.{distinct_on_key-IsSorted, distinct_on_key-cons}
use mcp_assist_memory.Store.Listing.Latest.{
  has_key, newer, latest-yes, latest-no, find-insert_key, here, other_key,
}

-- What is found among some of the rows is no later than what is found among all.
abbrev Below : Option Row → Option Row → Type 0
Below none o = Unit {0}
Below (some a) none = ⊥
Below (some a) (some b) = a.revision ≤ b.revision

Below-newer : (r : Row) (a b : Option Row) → Below a b → Below (newer r a) (newer r b)
unfolding newer
Below-newer r none none h = omega arith
Below-newer r none (some b) h = ground arith
Below-newer r (some a) none h = absurd h
Below-newer r (some a) (some b) h = ground arith

Below-newer_right : (r : Row) (a b : Option Row) → Below a b → Below a (newer r b)
unfolding newer
Below-newer_right r none b h = tt
Below-newer_right r (some a) none h = absurd h
Below-newer_right r (some a) (some b) h = ground arith

newer-yes : (x b : Row) → leb b.revision x.revision ≡ true → newer x (some b) ≡ some x
unfolding newer
newer-yes x b q = rw q

newer-no : (x b : Row) → leb b.revision x.revision ≡ false → newer x (some b) ≡ some b
unfolding newer
newer-no x b q = rw q

-- One row more, where the latest of all is wanted among some of the rows: a row that is one of them,
-- and a row that is not.
leb_trans : (a b c : ℕ) → a ≤ b → leb b c ≡ true → leb a c ≡ true
leb_trans a b c h q = ground arith

differ :
    (w : Row → Bool) (x r : Row)
    → w x ≡ false
    → w r ≡ true
    → ◌≡◌ {A = Option Row} (some x) (some r)
    → ⊥
differ w x r h g e = cc

newer-among :
    (x r : Row) (a b : Option Row)
    → Below a b
    → newer x b ≡ some r
    → (b ≡ some r → a ≡ some r)
    → newer x a ≡ some r
newer-among x r none none h e f = e
newer-among x r none (some b) h e f = elim (Bool-cases (leb b.revision x.revision)) [
  | inl q ↦ unfold newer in sym (newer-yes x b q) ∙ e
  | inr q ↦ let n = f (sym (newer-no x b q) ∙ e) in absurd (cc)
]
newer-among x r (some a) none h e f = absurd h
newer-among x r (some a) (some b) h e f = elim (Bool-cases (leb b.revision x.revision)) [
  | inl q ↦
      newer-yes x a (leb_trans a.revision b.revision x.revision h q) ∙ sym (newer-yes x b q) ∙ e
  | inr q ↦
      let m = f (sym (newer-no x b q) ∙ e) in
      let g = sym (newer-no x b q) ∙ e in ap (newer x) (m ∙ sym g) ∙ e
]

newer-beside :
    (w : Row → Bool) (x r : Row) (a b : Option Row)
    → w x ≡ false
    → w r ≡ true
    → newer x b ≡ some r
    → (b ≡ some r → a ≡ some r)
    → a ≡ some r
newer-beside w x r a none h g e f = absurd (differ w x r h g (unfold newer in e))
newer-beside w x r a (some b) h g e f = elim (Bool-cases (leb b.revision x.revision)) [
  | inl q ↦ absurd (differ w x r h g (sym (newer-yes x b q) ∙ e))
  | inr q ↦ f (sym (newer-no x b q) ∙ e)
]

module _ (order : Collation) (ns key : Text) (w : Row → Bool) where
  -- what is found under the key among the rows that pass the test
  among : Table → Option Row
  among t = find (has_key key) (distinct_on_key order (keep w t))

  among-yes :
      (x : Row) (t : Table)
      → w x ≡ true
      → among (x ∷ t) ≡ (if text_eq x.key key then newer x (among t) else among t)
  unfolding among
  among-yes x t h =
      rw (keep-yes w x t h, distinct_on_key-cons order x (keep w t))
        (find-insert_key order key x (distinct_on_key order (keep w t))
          (distinct_on_key-IsSorted order (keep w t)))

  among-no : (x : Row) (t : Table) → w x ≡ false → among (x ∷ t) ≡ among t
  unfolding among
  among-no x t h = rw (keep-no w x t h)

  module _ (of_ns : (x : Row) → w x ≡ true → text_eq ns x.namespace ≡ true) where
    among-Below : (t : Table) → Below (among t) (latest ns key t)
    among-Below [] = unfold among in unfold keep in unfold distinct_on_key in unfold find in tt
    among-Below (x ∷ t) = elim (Bool-cases (w x)) [
      | inl h ↦ rw (among-yes x t h) (elim (Bool-cases (text_eq x.key key)) [
        | inl e ↦
            rw (e, latest-yes ns key x t (here ns key x (of_ns x h) e))
              (Below-newer x (among t) (latest ns key t) (among-Below t))
        | inr e ↦ rw (e, latest-no ns key x t (other_key ns key x (of_ns x h) e)) (among-Below t)
      ])
      | inr h ↦ rw (among-no x t h) (elim (Bool-cases (same_key ns key x)) [
        | inl e ↦
            rw (latest-yes ns key x t e)
              (Below-newer_right x (among t) (latest ns key t) (among-Below t))
        | inr e ↦ rw (latest-no ns key x t e) (among-Below t)
      ])
    ]

    -- The latest revision of a key is found among the rows that pass a test which it passes.
    among-latest : (r : Row) (t : Table) → latest ns key t ≡ some r → w r ≡ true → among t ≡ some r
    among-latest r [] h g = absurd (unfold latest in unfold sort_desc in unfold keep in cc)
    among-latest r (x ∷ t) h g = elim (Bool-cases (w x)) [
      | inl a ↦ rw (among-yes x t a) (elim (Bool-cases (text_eq x.key key)) [
        | inl e ↦
            let l = latest-yes ns key x t (here ns key x (of_ns x a) e) in
            rw e (
              newer-among x r (among t) (latest ns key t) (among-Below t) (sym l ∙ h)
                (λ f. among-latest r t f g))
        | inr e ↦
            let l = latest-no ns key x t (other_key ns key x (of_ns x a) e) in
            rw e (among-latest r t (sym l ∙ h) g)
      ])
      | inr a ↦ rw (among-no x t a) (elim (Bool-cases (same_key ns key x)) [
        | inl e ↦
            newer-beside w x r (among t) (latest ns key t) a g (sym (latest-yes ns key x t e) ∙ h)
              (λ f. among-latest r t f g)
        | inr e ↦ among-latest r t (sym (latest-no ns key x t e) ∙ h) g
      ])
    ]

where_clauses-namespace :
    (q : Query) (r : Row) → where_clauses q r ≡ true → text_eq q.namespace r.namespace ≡ true
unfolding where_clauses
where_clauses-namespace q r h = ground arith

where_clauses-untagged :
    (q : Query) (tag : Text) (r : Row)
    → q.tag ≡ some tag
    → tag ≢ []
    → r.tags ≡ []
    → where_clauses q r ≡ false
unfolding where_clauses mem_text
where_clauses-untagged q [] r e n h = absurd (n refl)
where_clauses-untagged q (c ∷ tag) r e n h = rw (e, h) (ground arith)

module _ (order : Collation) where
  -- A listed row that is the latest of its key is still listed once a row without the tag of the
  -- query has come on top of it.
  live_rows-covered :
      (now : ℕ) (q : Query) (tag : Text) (r d : Row) (t : Table)
      → q.tag ≡ some tag
      → tag ≢ []
      → d.tags ≡ []
      → latest q.namespace r.key t ≡ some r
      → where_clauses q r ≡ true
      → shown order now q.include_quarantined r ≡ true
      → In r (live_rows order now q none (d ∷ t))
  unfolding live_rows among
  live_rows-covered now q tag r d t e n h l w s =
      let p = λ (x : Row). where_clauses q x && true in
      let a : p d ≡ false = rw (where_clauses-untagged q tag d e n h) in
      let b : p r ≡ true = rw w in
      let f =
        among-latest order q.namespace r.key p (λ x g. where_clauses-namespace q x (first x g)) r t
          l b in
      let m = (find-some (has_key r.key) (distinct_on_key order (keep p t)) f).0 in
      rw (keep-no p d t a)
        (In-keep (shown order now q.include_quarantined) r (distinct_on_key order (keep p t)) m s)
    where
      first : (x : Row) → (where_clauses q x && true) ≡ true → where_clauses q x ≡ true
      first x g = ground arith

  tombstone-draft :
      (s : Services) (q : Request) (t : Table) (p : Prepared)
      → prepare s (tombstone_of q t) ≡ ok p
      → (p.draft.tags ≡ [])
        × (p.draft.tombstone ≡ true)
        × (p.draft.namespace ≡ q.namespace)
        × (p.draft.key ≡ q.key)
  tombstone-draft s q t p h =
      let (meta, f, z) = prepare-ok s (tombstone_of q t) p h in
      unfold draft_of in
      unfold tombstone_of in
      (
        ap (λ (x : Prepared). x.draft.tags) z,
        ap (λ (x : Prepared). x.draft.tombstone) z,
        ap (λ (x : Prepared). x.draft.namespace) z,
        ap (λ (x : Prepared). x.draft.key) z,
      )

  visible-tombstone :
      (now : ℕ) (b : Bool) (r : Row) → r.tombstone ≡ true → visible now b (some r) ≡ none
  unfolding visible is_live
  visible-tombstone now b r h = rw h

  -- After an undisturbed `memory_delete` of a key, a list with a tag that the deleted entry has still
  -- shows the deleted entry, while `memory_get` of the key finds nothing.
  pub memory_delete-listed :
      (s : Services) (clock : ℕ → ℕ) (d : Request) (t : Table) (p : Prepared) (now : ℕ) (q : Query)
      (tag : Text) (r : Row)
      → prepare s (tombstone_of d t) ≡ ok p
      → mem_text p.draft.kind kinds ≡ true
      → p.draft.event_id ≢ some []
      → landed_event p.draft t ≡ none
      → q.namespace ≡ d.namespace
      → r.key ≡ d.key
      → q.tag ≡ some tag
      → tag ≢ []
      → latest d.namespace d.key t ≡ some r
      → where_clauses q r ≡ true
      → shown order now q.include_quarantined r ≡ true
      → In r (live_rows order now q none (memory_delete s clock (λ _. alone) d t).1)
        × (memory_get now d.namespace d.key true (memory_delete s clock (λ _. alone) d t).1 ≡ none)
  unfolding memory_delete
  memory_delete-listed s clock d t p now q tag r h k v e n m g ne l w sh =
      let (a, b, c, f) = tombstone-draft s d t p h in
      let x = new_row (clock 2) p.draft t t in
      let rows = (append s clock (λ _. alone) (tombstone_of d t) t).1 in
      let l2 : latest q.namespace r.key t ≡ some r =
        ap (λ k. latest q.namespace k t) m ∙ ap (λ ns. latest ns d.key t) n ∙ l in
      (
        rw (append-new_row s clock (tombstone_of d t) t p h k v e)
            (live_rows-covered now q tag r x t g ne (unfold new_row in a) l2 w sh),
        ap (λ n2. memory_get now n2 d.key true rows) (sym c)
            ∙ ap (λ k2. memory_get now p.draft.namespace k2 true rows) (sym f)
            ∙ memory_get-new_row s clock (tombstone_of d t) t p now true h k v e
            ∙ visible-tombstone now true x (unfold new_row in b),
      )
