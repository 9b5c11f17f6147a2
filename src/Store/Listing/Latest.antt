-- ===== src/Store/Listing/Latest.antt =====
-- `DISTINCT ON (key)` over a namespace finds the latest revision of every key, so a list without the
-- filters `kind` and `tag` shows exactly what `memory_get` answers.
use mcp_assist_memory.Prelude.{
  ℕ, Text, Bool, true, false, Option, none, some, List, [], ◌∷◌, ◌&&◌, leb, text_eq, text_eq_iff,
  text_eq_refl, keep, keep-yes, keep-no, keep-keep, keep-ext, find, find-yes, find-no, find-some,
  In, In-keep, In-keep_cases, if◌then◌else◌, ◌≡◌, ◌↔◌, refl, sym, ap, ◌∙◌, subst, arith, Bool-cases,
  inl, inr,
}
use mcp_assist_memory.Store.Rows.{Row, Table, same_key, sort_desc, insert_desc, head, latest}
use mcp_assist_memory.Store.Reads.{memory_get, visible}
use mcp_assist_memory.Store.Listing.{
  Collation, Query, key_clauses, where_clauses, insert_key, distinct_on_key, shown, live_rows,
}
use mcp_assist_memory.Store.Listing.Sorted.{
  AllAfter, AllAfter-weaken, IsSorted, insert_key-same, insert_key-first, insert_key-later,
  insert_key-cases, distinct_on_key-IsSorted, distinct_on_key-keep, distinct_on_key-cons,
}

-- the later of a row and a row that may be there
unfoldable pub newer : Row → Option Row → Option Row
newer r none = some r
newer r (some s) = some (if leb s.revision r.revision then r else s)

head-insert_desc : (r : Row) (l : List Row) → head (insert_desc r l) ≡ newer r (head l)
unfolding insert_desc newer
head-insert_desc r [] = refl
head-insert_desc r (s ∷ l) = ground arith

pub latest-yes :
    (ns key : Text) (r : Row) (t : Table)
    → same_key ns key r ≡ true
    → latest ns key (r ∷ t) ≡ newer r (latest ns key t)
unfolding latest sort_desc
latest-yes ns key r t h =
    ap (λ l. head (sort_desc l)) (keep-yes (same_key ns key) r t h)
    ∙ head-insert_desc r (sort_desc (keep (same_key ns key) t))

pub latest-no :
    (ns key : Text) (r : Row) (t : Table)
    → same_key ns key r ≡ false
    → latest ns key (r ∷ t) ≡ latest ns key t
unfolding latest
latest-no ns key r t h = ap (λ l. head (sort_desc l)) (keep-no (same_key ns key) r t h)

abbrev pub has_key : Text → Row → Bool
has_key key r = text_eq r.key key

pub here :
    (ns key : Text) (r : Row)
    → text_eq ns r.namespace ≡ true
    → text_eq r.key key ≡ true
    → same_key ns key r ≡ true
unfolding same_key
here ns key r h e = ground (arith, text_eq_iff r.key key, text_eq_iff key r.key)

pub other_key :
    (ns key : Text) (r : Row)
    → text_eq ns r.namespace ≡ true
    → text_eq r.key key ≡ false
    → same_key ns key r ≡ false
unfolding same_key
other_key ns key r h e =
    ground (arith, text_eq_iff r.key key, text_eq_iff key r.key, Bool-cases (text_eq key r.key))

pub other_namespace :
    (ns key : Text) (r : Row) → text_eq ns r.namespace ≡ false → same_key ns key r ≡ false
unfolding same_key
other_namespace ns key r h = rw h

-- Where the inserted row has the key of the first row, one of the two is found.
newer-find :
    (key : Text) (r s : Row) (l : List Row)
    → text_eq r.key key ≡ true
    → text_eq s.key key ≡ true
    → find (has_key key) (if leb s.revision r.revision then r ∷ l else s ∷ l) ≡ newer r (some s)
unfolding newer
newer-find key r s l h g = elim (Bool-cases (leb s.revision r.revision)) [
  | inl q ↦ rw q (find-yes (has_key key) r l h)
  | inr q ↦ rw q (find-yes (has_key key) s l g)
]

skipped :
    (key : Text) (r s : Row) (l : List Row)
    → text_eq r.key key ≡ false
    → text_eq s.key key ≡ false
    → find (has_key key) (if leb s.revision r.revision then r ∷ l else s ∷ l) ≡ find (has_key key) l
skipped key r s l h g = elim (Bool-cases (leb s.revision r.revision)) [
  | inl q ↦ rw q (find-no (has_key key) r l h)
  | inr q ↦ rw q (find-no (has_key key) s l g)
]

module _ (order : Collation) where
  find-after : (key : Text) (l : List Row) → AllAfter order key l → find (has_key key) l ≡ none
  unfolding find
  find-after key [] a = refl
  find-after key (r ∷ l) (a, b) = elim (Bool-cases (text_eq r.key key)) [
    | inl e ↦
        let x = subst (λ k. order.before key k ≡ true) ((text_eq_iff r.key key).0 e) a in
        let y = order.irreflexive key in absurd (cc)
    | inr e ↦ rw e (find-after key l b)
  ]

  text_eq-other : (j k l : Text) → text_eq j k ≡ false → text_eq k l ≡ true → text_eq j l ≡ false
  text_eq-other j k l h e = subst (λ x. text_eq j x ≡ false) ((text_eq_iff k l).0 e) h

  pub find-insert_key :
      (key : Text) (r : Row) (l : List Row)
      → IsSorted order l
      → find (has_key key) (insert_key order r l)
        ≡ (if text_eq r.key key then newer r (find (has_key key) l) else find (has_key key) l)
  find-insert_key key r [] a = unfold insert_key in unfold find in unfold newer in refl
  find-insert_key key r (s ∷ l) (a, b) = elim (insert_key-cases order r s) [
    | inl e ↦
        let q = (text_eq_iff r.key s.key).0 e in
        rw (insert_key-same order r s l e) (elim (Bool-cases (text_eq r.key key)) [
          | inl h ↦
              let g = subst (λ k. text_eq k key ≡ true) q h in
              rw (h, find-yes (has_key key) s l g) (newer-find key r s l h g)
          | inr h ↦
              let g = subst (λ k. text_eq k key ≡ false) q h in
              rw (h, find-no (has_key key) s l g) (skipped key r s l h g)
        ])
    | inr (inl (e, f)) ↦
        rw (insert_key-first order r s l e f) (elim (Bool-cases (text_eq r.key key)) [
          | inl h ↦
              let x : find (has_key key) (s ∷ l) ≡ none =
                subst (λ k. find (has_key k) (s ∷ l) ≡ none) ((text_eq_iff r.key key).0 h)
                  (find-after r.key (s ∷ l) (f, AllAfter-weaken order r.key s.key l f a)) in
              rw (h, find-yes (has_key key) r (s ∷ l) h, x) (unfold newer in refl)
          | inr h ↦ rw (h, find-no (has_key key) r (s ∷ l) h)
        ])
    | inr (inr (e, f, g)) ↦
        rw (insert_key-later order r s l e f) (elim (Bool-cases (text_eq s.key key)) [
          | inl h ↦ rw (
            text_eq-other r.key s.key key e h,
            find-yes (has_key key) s l h,
            find-yes (has_key key) s (insert_key order r l) h,
          )
          | inr h ↦ rw (
            find-no (has_key key) s l h,
            find-no (has_key key) s (insert_key order r l) h,
            find-insert_key key r l b,
          )
        ])
  ]

  -- Without filters the newest revision of a key is found.
  find-distinct_on_key :
      (ns key : Text) (t : Table)
      → find (has_key key) (distinct_on_key order (keep (λ r. text_eq ns r.namespace) t))
        ≡ latest ns key t
  find-distinct_on_key ns key [] =
      unfold keep in
      unfold distinct_on_key in unfold find in unfold latest in unfold sort_desc in refl
  find-distinct_on_key ns key (r ∷ t) = elim (Bool-cases (text_eq ns r.namespace)) [
    | inl h ↦
        rw
          (
            keep-yes (λ (x : Row). text_eq ns x.namespace) r t h,
            distinct_on_key-cons order r (keep (λ (x : Row). text_eq ns x.namespace) t),
            find-insert_key key r
                (distinct_on_key order (keep (λ (x : Row). text_eq ns x.namespace) t))
                (distinct_on_key-IsSorted order _),
            find-distinct_on_key ns key t,
          )
          (elim (Bool-cases (text_eq r.key key)) [
            | inl e ↦ rw e (sym (latest-yes ns key r t (here ns key r h e)))
            | inr e ↦ rw e (sym (latest-no ns key r t (other_key ns key r h e)))
          ])
    | inr h ↦ rw (
      keep-no (λ (x : Row). text_eq ns x.namespace) r t h,
      find-distinct_on_key ns key t,
      latest-no ns key r t (other_namespace ns key r h),
    )
  ]

  AllAfter-In :
      (k : Text) (r : Row) (l : List Row)
      → AllAfter order k l
      → In r l
      → order.before k r.key ≡ true
  AllAfter-In k r [] a m = absurd m
  AllAfter-In k r (s ∷ l) (a, b) (inl e) =
      subst (λ (x : Row). order.before k x.key ≡ true) (sym e) a
  AllAfter-In k r (s ∷ l) (a, b) (inr m) = AllAfter-In k r l b m

  pub before-ne : (j k : Text) → order.before j k ≡ true → text_eq j k ≡ false
  before-ne j k h = elim (Bool-cases (text_eq j k)) [
    | inl e ↦
        let x = subst (λ i. order.before i k ≡ true) ((text_eq_iff j k).0 e) h in
        let y = order.irreflexive k in absurd (cc)
    | inr e ↦ e
  ]

  In-find : (r : Row) (l : List Row) → IsSorted order l → In r l → find (has_key r.key) l ≡ some r
  In-find r [] a m = absurd m
  In-find r (s ∷ l) (a, b) (inl e) =
      subst (λ (x : Row). find (has_key x.key) (s ∷ l) ≡ some x) (sym e)
        (find-yes (has_key s.key) s l (text_eq_refl s.key))
  In-find r (s ∷ l) (a, b) (inr m) =
      find-no (has_key r.key) s l (before-ne s.key r.key (AllAfter-In s.key r l a m))
      ∙ In-find r l b m

  -- A row is a latest revision exactly when `DISTINCT ON (key)` over its namespace has it.
  pub In-distinct_on_key :
      (ns : Text) (r : Row) (t : Table)
      → (In r (distinct_on_key order (keep (λ x. text_eq ns x.namespace) t)))
        ↔ (latest ns r.key t ≡ some r)
  In-distinct_on_key ns r t =
      let rows = distinct_on_key order (keep (λ x. text_eq ns x.namespace) t) in
      (
        λ m.
            sym (find-distinct_on_key ns r.key t)
            ∙ In-find r rows (distinct_on_key-IsSorted order (keep (λ x. text_eq ns x.namespace) t))
                m,
        λ e. (find-some (has_key r.key) rows (find-distinct_on_key ns r.key t ∙ e)).0,
      )

  -- A query without `kind` and `tag` tests the key only.
  live_rows-keys :
      (now : ℕ) (q : Query) (t : Table)
      → q.kind ≡ none
      → q.tag ≡ none
      → live_rows order now q none t
        ≡ keep (shown order now q.include_quarantined) (
            keep
              (λ r. key_clauses q r.key)
              (distinct_on_key order (keep (λ r. text_eq q.namespace r.namespace) t)))
  unfolding live_rows where_clauses
  live_rows-keys now q t k g =
      let ns = λ (r : Row). text_eq q.namespace r.namespace in
      let keys = λ (r : Row). key_clauses q r.key in
      ap (λ l. keep (shown order now q.include_quarantined) (distinct_on_key order l))
        (keep-ext _ (λ r. ns r && keys r) t (λ r. rw (k, g) (ground arith))
          ∙ sym (keep-keep keys ns t))
      ∙ ap (keep (shown order now q.include_quarantined))
          (distinct_on_key-keep order (key_clauses q) (keep ns t))

  same : {r s : Row} → ◌≡◌ {A = Option Row} (some s) (some r) → s ≡ r
  same h = cc

  visible-shown :
      (now : ℕ) (quarantined_too : Bool) (s : Row)
      → visible now quarantined_too (some s)
        ≡ (if shown order now quarantined_too s then some s else none)
  unfolding visible
  visible-shown now quarantined_too s = ground arith

  abbrev MemoryGetIff : ℕ → Bool → Row → Option Row → Type 0
  MemoryGetIff now quarantined_too r o =
      (visible now quarantined_too o ≡ some r)
      ↔ ((o ≡ some r) × (shown order now quarantined_too r ≡ true))

  visible_iff :
      (now : ℕ) (quarantined_too : Bool) (r : Row) (o : Option Row)
      → MemoryGetIff now quarantined_too r o
  visible_iff now quarantined_too r none = (unfold visible in λ h. absurd (cc), λ h. absurd (cc))
  visible_iff now quarantined_too r (some s) =
      rw (visible-shown now quarantined_too s)
        (elim (Bool-cases (shown order now quarantined_too s)) [
          | inl e ↦ rw e (
            λ h. (h, subst (λ (x : Row). shown order now quarantined_too x ≡ true) (cc) e),
            λ h. h.0,
          )
          | inr e ↦ rw e (
            λ h. absurd (cc),
            λ (h, g).
                let x =
                  subst (λ (y : Row). shown order now quarantined_too y ≡ true) (sym (same h)) g in
                absurd (cc),
          )
        ])

  pub memory_get-latest :
      (now : ℕ) (ns : Text) (quarantined_too : Bool) (r : Row) (t : Table)
      → (memory_get now ns r.key quarantined_too t ≡ some r)
        ↔ ((latest ns r.key t ≡ some r) × (shown order now quarantined_too r ≡ true))
  unfolding memory_get
  memory_get-latest now ns quarantined_too r t =
      visible_iff now quarantined_too r (latest ns r.key t)

  -- Without the filters `kind` and `tag`, a row is in the listing of a namespace exactly when its key
  -- passes the clauses on keys and `memory_get` of the key returns that row.
  pub In-live_rows :
      (now : ℕ) (q : Query) (r : Row) (t : Table)
      → q.kind ≡ none
      → q.tag ≡ none
      → (In r (live_rows order now q none t)) ↔ (
          (memory_get now q.namespace r.key q.include_quarantined t ≡ some r)
          × (key_clauses q r.key ≡ true))
  In-live_rows now q r t k g =
      let rows = distinct_on_key order (keep (λ x. text_eq q.namespace x.namespace) t) in
      let e = live_rows-keys now q t k g in
      let got = memory_get-latest now q.namespace q.include_quarantined r t in
      let there = In-distinct_on_key q.namespace r t in
      let keys = λ (x : Row). key_clauses q x.key in
      let p = shown order now q.include_quarantined in
      (
        λ m.
            let (a, b) = In-keep_cases p r (keep keys rows) (subst (In r) e m) in
            let (c, d) = In-keep_cases keys r rows a in (got.1 (there.0 c, b), d),
        λ (m, d).
            let (c, b) = got.0 m in
            subst (In r) (sym e)
              (In-keep p r (keep keys rows) (In-keep keys r rows (there.1 c) d) b),
      )
