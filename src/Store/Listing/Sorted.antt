-- ===== src/Store/Listing/Sorted.antt =====
-- `DISTINCT ON (key)`: its result is sorted by key, and a test on keys may stand before or after it.
use mcp_assist_memory.Prelude.{
  Text, Bool, true, false, List, [], ◌∷◌, text_eq, text_eq_iff, keep, keep-yes, keep-no, leb,
  if◌then◌else◌, ◌≡◌, ◌⊎◌, refl, sym, subst, arith, Bool-cases, inl, inr,
}
use mcp_assist_memory.Store.Rows.{Row}
use mcp_assist_memory.Store.Listing.{Collation, insert_key, distinct_on_key}

module _ (order : Collation) where
  -- every row comes after the key
  abbrev pub AllAfter : Text → List Row → Type 0
  AllAfter k [] = Unit {0}
  AllAfter k (r ∷ l) = (order.before k r.key ≡ true) × AllAfter k l

  abbrev pub IsSorted : List Row → Type 0
  IsSorted [] = Unit {0}
  IsSorted (r ∷ l) = AllAfter r.key l × IsSorted l

  pub AllAfter-weaken :
      (j k : Text) (l : List Row) → order.before j k ≡ true → AllAfter k l → AllAfter j l
  AllAfter-weaken j k [] h a = tt
  AllAfter-weaken j k (r ∷ l) h a = (order.transitive j k r.key h a.0, AllAfter-weaken j k l h a.1)

  insert_key-AllAfter :
      (k : Text) (r : Row) (l : List Row)
      → order.before k r.key ≡ true
      → AllAfter k l
      → AllAfter k (insert_key order r l)
  unfolding insert_key
  insert_key-AllAfter k r [] h a = (h, tt)
  insert_key-AllAfter k r (s ∷ l) h (a, b) = ground (arith, insert_key-AllAfter k r l h b)

  -- The cases of an insertion before a row.
  pub insert_key-same :
      (r s : Row) (l : List Row)
      → text_eq r.key s.key ≡ true
      → insert_key order r (s ∷ l) ≡ (if leb s.revision r.revision then r ∷ l else s ∷ l)
  unfolding insert_key
  insert_key-same r s l e = rw e

  pub insert_key-first :
      (r s : Row) (l : List Row)
      → text_eq r.key s.key ≡ false
      → order.before r.key s.key ≡ true
      → insert_key order r (s ∷ l) ≡ r ∷ s ∷ l
  unfolding insert_key
  insert_key-first r s l e h = rw (e, h)

  pub insert_key-later :
      (r s : Row) (l : List Row)
      → text_eq r.key s.key ≡ false
      → order.before r.key s.key ≡ false
      → insert_key order r (s ∷ l) ≡ s ∷ insert_key order r l
  unfolding insert_key
  insert_key-later r s l e h = rw (e, h)

  pub insert_key-cases :
      (r s : Row)
      → (text_eq r.key s.key ≡ true)
        ⊎ ((text_eq r.key s.key ≡ false) × (order.before r.key s.key ≡ true))
        ⊎ ((text_eq r.key s.key ≡ false)
            × (order.before r.key s.key ≡ false)
            × (order.before s.key r.key ≡ true))
  insert_key-cases r s = elim (Bool-cases (text_eq r.key s.key)) [
    | inl e ↦ inl e
    | inr e ↦ elim (Bool-cases (order.before r.key s.key)) [
      | inl h ↦ inr (inl (e, h))
      | inr h ↦ inr (inr (e, h, order.total r.key s.key h e))
    ]
  ]

  insert_key-IsSorted : (r : Row) (l : List Row) → IsSorted l → IsSorted (insert_key order r l)
  insert_key-IsSorted r [] a = unfold insert_key in (tt, tt)
  insert_key-IsSorted r (s ∷ l) (a, b) = elim (insert_key-cases r s) [
    | inl e ↦ rw (insert_key-same r s l e) (elim (Bool-cases (leb s.revision r.revision)) [
      | inl q ↦ rw q (subst (λ k. AllAfter k l) (sym ((text_eq_iff r.key s.key).0 e)) a, b)
      | inr q ↦ rw q (a, b)
    ])
    | inr (inl (e, h)) ↦
        rw (insert_key-first r s l e h) ((h, AllAfter-weaken r.key s.key l h a), (a, b))
    | inr (inr (e, h, g)) ↦
        rw (insert_key-later r s l e h)
          (insert_key-AllAfter s.key r l g a, insert_key-IsSorted r l b)
  ]

  pub distinct_on_key-IsSorted : (t : List Row) → IsSorted (distinct_on_key order t)
  unfolding distinct_on_key
  distinct_on_key-IsSorted [] = tt
  distinct_on_key-IsSorted (r ∷ t) = insert_key-IsSorted r _ (distinct_on_key-IsSorted t)

  pub distinct_on_key-cons :
      (r : Row) (t : List Row)
      → distinct_on_key order (r ∷ t) ≡ insert_key order r (distinct_on_key order t)
  unfolding distinct_on_key
  distinct_on_key-cons r t = refl

  keep-AllAfter : (p : Row → Bool) (k : Text) (l : List Row) → AllAfter k l → AllAfter k (keep p l)
  unfolding keep
  keep-AllAfter p k [] a = tt
  keep-AllAfter p k (r ∷ l) (a, b) = ground (arith, keep-AllAfter p k l b)

  pub keep-IsSorted : (p : Row → Bool) (l : List Row) → IsSorted l → IsSorted (keep p l)
  unfolding keep
  keep-IsSorted p [] a = tt
  keep-IsSorted p (r ∷ l) (a, b) = elim (Bool-cases (p r)) [
    | inl e ↦ rw e (keep-AllAfter p r.key l a, keep-IsSorted p l b)
    | inr e ↦ rw e (keep-IsSorted p l b)
  ]

  -- a row before all of a list is inserted in front
  insert_key-front : (r : Row) (l : List Row) → AllAfter r.key l → insert_key order r l ≡ r ∷ l
  unfolding insert_key
  insert_key-front r [] a = refl
  insert_key-front r (s ∷ l) (a, b) = elim (Bool-cases (text_eq r.key s.key)) [
    | inl e ↦
        let q = (text_eq_iff r.key s.key).0 e in
        let x : order.before s.key s.key ≡ true = subst (λ k. order.before k s.key ≡ true) q a in
        let y = order.irreflexive s.key in absurd (cc)
    | inr e ↦ rw (e, a)
  ]

  module _ (test : Text → Bool) where
    abbrev on_key : Row → Bool
    on_key r = test r.key

    -- A row whose key passes the test is inserted into what passes it; another is dropped.
    insert_key-keep_yes :
        (r : Row) (l : List Row)
        → IsSorted l
        → test r.key ≡ true
        → keep on_key (insert_key order r l) ≡ insert_key order r (keep on_key l)
    insert_key-keep_yes r [] a h = unfold insert_key in unfold keep in rw h
    insert_key-keep_yes r (s ∷ l) (a, b) h = elim (insert_key-cases r s) [
      | inl e ↦
          let g : test s.key ≡ true =
            subst (λ k. test k ≡ true) ((text_eq_iff r.key s.key).0 e) h in
          rw (insert_key-same r s l e, keep-yes on_key s l g)
            (rw (insert_key-same r s (keep on_key l) e)
              (elim (Bool-cases (leb s.revision r.revision)) [
                | inl q ↦ rw q (keep-yes on_key r l h)
                | inr q ↦ rw q (keep-yes on_key s l g)
              ]))
      | inr (inl (e, f)) ↦
          rw (insert_key-first r s l e f, keep-yes on_key r (s ∷ l) h)
            (sym (
              insert_key-front r (keep on_key (s ∷ l))
                (keep-AllAfter on_key r.key (s ∷ l) (f, AllAfter-weaken r.key s.key l f a))))
      | inr (inr (e, f, g)) ↦ rw (insert_key-later r s l e f) (elim (Bool-cases (test s.key)) [
        | inl q ↦ rw (
          keep-yes on_key s (insert_key order r l) q,
          keep-yes on_key s l q,
          insert_key-later r s (keep on_key l) e f,
          insert_key-keep_yes r l b h,
        )
        | inr q ↦ rw (
          keep-no on_key s (insert_key order r l) q,
          keep-no on_key s l q,
          insert_key-keep_yes r l b h,
        )
      ])
    ]

    insert_key-keep_no :
        (r : Row) (l : List Row)
        → test r.key ≡ false
        → keep on_key (insert_key order r l) ≡ keep on_key l
    insert_key-keep_no r [] h = unfold insert_key in unfold keep in rw h
    insert_key-keep_no r (s ∷ l) h = elim (insert_key-cases r s) [
      | inl e ↦
          let g : test s.key ≡ false =
            subst (λ k. test k ≡ false) ((text_eq_iff r.key s.key).0 e) h in
          rw (insert_key-same r s l e, keep-no on_key s l g)
            (elim (Bool-cases (leb s.revision r.revision)) [
              | inl q ↦ rw q (keep-no on_key r l h)
              | inr q ↦ rw q (keep-no on_key s l g)
            ])
      | inr (inl (e, f)) ↦ rw (insert_key-first r s l e f) (keep-no on_key r (s ∷ l) h)
      | inr (inr (e, f, g)) ↦ rw (insert_key-later r s l e f) (elim (Bool-cases (test s.key)) [
        | inl q ↦ rw (
          keep-yes on_key s (insert_key order r l) q,
          keep-yes on_key s l q,
          insert_key-keep_no r l h,
        )
        | inr q ↦ rw (
          keep-no on_key s (insert_key order r l) q,
          keep-no on_key s l q,
          insert_key-keep_no r l h,
        )
      ])
    ]

    pub distinct_on_key-keep :
        (t : List Row)
        → distinct_on_key order (keep on_key t) ≡ keep on_key (distinct_on_key order t)
    distinct_on_key-keep [] = unfold distinct_on_key in unfold keep in refl
    distinct_on_key-keep (r ∷ t) = elim (Bool-cases (test r.key)) [
      | inl h ↦ rw (
        keep-yes on_key r t h,
        distinct_on_key-cons r (keep on_key t),
        distinct_on_key-keep t,
        distinct_on_key-cons r t,
        insert_key-keep_yes r (distinct_on_key order t) (distinct_on_key-IsSorted t) h,
      )
      | inr h ↦ rw (
        keep-no on_key r t h,
        distinct_on_key-keep t,
        distinct_on_key-cons r t,
        insert_key-keep_no r (distinct_on_key order t) h,
      )
    ]
