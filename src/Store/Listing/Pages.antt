-- ===== src/Store/Listing/Pages.antt =====
-- Following `next_cursor` from page to page: it ends, and nothing is missed or repeated.
use mcp_assist_memory.Prelude.{
  ℕ, zero, suc, ◌-◌, ◌≤◌, ◌<◌, Text, Bool, true, false, Option, none, some, List, [], ◌∷◌, ◌++◌,
  ◌&&◌, ltb, keep, keep-no, keep-keep, keep_comm, keep-ext, take, drop, take-drop, take_all,
  length-drop, length, ◌≡◌, ◌≢◌, refl, sym, ap, ◌∙◌, subst, arith, Bool-cases, inl, inr, ltb→lt,
}
use mcp_assist_memory.Result.{Result, ok, err}
use mcp_assist_memory.Store.Rows.{Row, Table}
use mcp_assist_memory.Store.Listing.{
  Collation, Codec, Query, Page, where_clauses, beyond, distinct_on_key, shown, live_rows, last_key,
  after_key, memory_list_page,
}
use mcp_assist_memory.Store.Listing.Sorted.{
  AllAfter, IsSorted, distinct_on_key-IsSorted, distinct_on_key-keep, keep-IsSorted,
}

-- What is left after a page that is not the last.
left_over :
    (rows rest : List Row) (limit fuel : ℕ)
    → rest ≡ drop limit rows
    → 0 < limit
    → ltb limit (length rows) ≡ true
    → length rows < suc fuel
    → length rest < fuel
left_over rows rest limit fuel e p more h =
    let f : length rest ≡ length rows - limit = ap length e ∙ length-drop limit rows in
    let g = ltb→lt limit (length rows) more in omega arith

nonempty : (limit n : ℕ) → 0 < limit → ltb limit n ≡ true → 0 < n
nonempty limit n p h = omega (arith, ltb→lt limit n h)

not_more : (limit n : ℕ) → ltb limit n ≡ false → n ≤ limit
not_more limit n h = ground arith

module _ (order : Collation) where
  -- The cursor's clause may as well be applied to the whole listing.
  live_rows-after :
      (now : ℕ) (q : Query) (k : Text) (t : Table)
      → live_rows order now q (some k) t
        ≡ keep (λ r. order.before k r.key) (live_rows order now q none t)
  unfolding live_rows
  live_rows-after now q k t =
      let p = shown order now q.include_quarantined in
      let w = where_clauses q in
      let b = λ (r : Row). order.before k r.key in
      let open_end : keep (λ (r : Row). w r && true) t ≡ keep w t =
        keep-ext (λ r. w r && true) w t (λ r. ground arith) in
      ap (λ l. keep p (distinct_on_key order l)) (sym (keep-keep b w t))
      ∙ ap (keep p) (distinct_on_key-keep order (order.before k) (keep w t))
      ∙ keep_comm p b (distinct_on_key order (keep w t))
      ∙ ap (λ l. keep b (keep p (distinct_on_key order l))) (sym open_end)

  not_before : (j k : Text) → order.before j k ≡ true → order.before k j ≡ false
  not_before j k h = elim (Bool-cases (order.before k j)) [
    | inl e ↦ let x = order.transitive j k j h e in let y = order.irreflexive j in absurd (cc)
    | inr e ↦ e
  ]

  narrow :
      (a k x : Text)
      → order.before a k ≡ true
      → order.before k x ≡ (order.before a x && order.before k x)
  narrow a k x h = elim (Bool-cases (order.before k x)) [
    | inl e ↦ rw (e, order.transitive a k x h e)
    | inr e ↦ rw e (ground arith)
  ]

  live_rows-IsSorted :
      (now : ℕ) (q : Query) (k : Option Text) (t : Table)
      → IsSorted order (live_rows order now q k t)
  unfolding live_rows
  live_rows-IsSorted now q k t =
      let rows = keep (λ r. where_clauses q r && beyond order k r.key) t in
      keep-IsSorted order (shown order now q.include_quarantined) (distinct_on_key order rows)
        (distinct_on_key-IsSorted order rows)

  keep-after_all :
      (k : Text) (l : List Row) → AllAfter order k l → keep (λ r. order.before k r.key) l ≡ l
  unfolding keep
  keep-after_all k [] a = refl
  keep-after_all k (r ∷ l) (a, b) = rw (a, keep-after_all k l b)

  AllAfter-keep : (k : Text) (l : List Row) → AllAfter order k (keep (λ r. order.before k r.key) l)
  unfolding keep
  AllAfter-keep k [] = tt
  AllAfter-keep k (r ∷ l) = elim (Bool-cases (order.before k r.key)) [
    | inl e ↦ rw e (e, AllAfter-keep k l)
    | inr e ↦ rw e (AllAfter-keep k l)
  ]

  module _ (codec : Codec) where
    last_key-after :
        (j k : Text) (n : ℕ) (l : List Row)
        → AllAfter order j l
        → last_key order codec (take n l) ≡ some k
        → order.before j k ≡ true
    last_key-after j k zero l a h = cc
    last_key-after j k (suc n) [] a h = cc
    last_key-after j k (suc zero) (r ∷ l) (a, b) h = cc
    last_key-after j k (suc (suc n)) (r ∷ []) (a, b) h = cc
    last_key-after j k (suc (suc n)) (r ∷ s ∷ l) (a, b) h = last_key-after j k (suc n) (s ∷ l) b h

    -- What comes after the last key of a page is what the page leaves.
    keep-after_page :
        (k : Text) (n : ℕ) (l : List Row)
        → IsSorted order l
        → last_key order codec (take n l) ≡ some k
        → keep (λ r. order.before k r.key) l ≡ drop n l
    keep-after_page k zero l a h = cc
    keep-after_page k (suc n) [] a h = cc
    keep-after_page k (suc zero) (r ∷ l) (a, b) h =
        let e : r.key ≡ k = cc in
        let f = subst (λ j. order.before j r.key ≡ false) e (order.irreflexive r.key) in
        keep-no (λ s. order.before k s.key) r l f
        ∙ keep-after_all k l (subst (λ j. AllAfter order j l) e a)
    keep-after_page k (suc (suc n)) (r ∷ []) (a, b) h =
        let e : r.key ≡ k = cc in
        let f = subst (λ j. order.before j r.key ≡ false) e (order.irreflexive r.key) in
        keep-no (λ s. order.before k s.key) r [] f ∙ keep-after_all k [] tt
    keep-after_page k (suc (suc n)) (r ∷ s ∷ l) (a, b) h =
        let f = last_key-after r.key k (suc n) (s ∷ l) a h in
        keep-no (λ s. order.before k s.key) r (s ∷ l) (not_before r.key k f)
        ∙ keep-after_page k (suc n) (s ∷ l) b h

    last_key-some :
        (n : ℕ) (l : List Row)
        → 0 < n
        → 0 < length l
        → (k : Text) × (last_key order codec (take n l) ≡ some k)
    last_key-some zero l h g = absurd (omega arith)
    last_key-some (suc n) [] h g = absurd (omega arith)
    last_key-some (suc zero) (r ∷ l) h g = (r.key, refl)
    last_key-some (suc (suc n)) (r ∷ []) h g = (r.key, refl)
    last_key-some (suc (suc n)) (r ∷ s ∷ l) h g =
        last_key-some (suc n) (s ∷ l) (omega arith) (omega arith)

    -- no key is empty
    abbrev pub AllKeyed : List Row → Type 0
    AllKeyed [] = Unit {0}
    AllKeyed (r ∷ l) = (r.key ≢ []) × AllKeyed l

    keep-AllKeyed : (p : Row → Bool) (l : List Row) → AllKeyed l → AllKeyed (keep p l)
    unfolding keep
    keep-AllKeyed p [] a = tt
    keep-AllKeyed p (r ∷ l) (a, b) = elim (Bool-cases (p r)) [
      | inl e ↦ rw e (a, keep-AllKeyed p l b)
      | inr e ↦ rw e (keep-AllKeyed p l b)
    ]

    last_key-keyed :
        (n : ℕ) (l : List Row) (k : Text)
        → AllKeyed l
        → last_key order codec (take n l) ≡ some k
        → k ≢ []
    last_key-keyed zero l k a h = cc
    last_key-keyed (suc n) [] k a h = cc
    last_key-keyed (suc zero) (r ∷ l) k (a, b) h = λ e. a (cc)
    last_key-keyed (suc (suc n)) (r ∷ []) k (a, b) h = λ e. a (cc)
    last_key-keyed (suc (suc n)) (r ∷ s ∷ l) k (a, b) h = last_key-keyed (suc n) (s ∷ l) k b h

    abbrev behind : List Row → Option (List Row) → Option (List Row)
    behind rows none = none
    behind rows (some more) = some (rows ++ more)

    abbrev go_on : (Text → Option (List Row)) → List Row → Option Text → Option (List Row)
    go_on follow rows none = some rows
    go_on follow rows (some cursor) = behind rows (follow cursor)

    abbrev read : (Text → Option (List Row)) → Result (Page order) → Option (List Row)
    read follow (err e) = none
    read follow (ok page) = go_on follow page.entries page.next_cursor

    -- A client that asks for page after page, with the cursor of the page before, until there is no
    -- cursor. Nothing is returned where a page is refused or the fuel runs out.
    unfoldable pub walk : ℕ → ℕ → Query → ℕ → Option Text → Table → Option (List Row)
    unfolding memory_list_page
    walk zero now q limit cursor t = none
    walk (suc fuel) now q limit cursor t =
        read (λ c. walk fuel now q limit (some c) t)
          (memory_list_page order codec now q limit cursor t)

    after_key-encode :
        (k : Text) → k ≢ [] → after_key order codec (some (codec.encode k)) ≡ ok (some k)
    after_key-encode k h = go (codec.encode k) refl
      where
        go : (c : Text) → codec.encode k ≡ c → after_key order codec (some c) ≡ ok (some k)
        go [] e = absurd (codec.encode-ne-nil k h e)
        go (c ∷ s) e = rw (← e, codec.decode-encode k)

    -- The listing beyond a key in the listing beyond another.
    live_rows-narrow :
        (now : ℕ) (q : Query) (a : Option Text) (k : Text) (t : Table) (n : ℕ)
        → last_key order codec (take n (live_rows order now q a t)) ≡ some k
        → live_rows order now q (some k) t ≡ drop n (live_rows order now q a t)
    live_rows-narrow now q none k t n h =
        live_rows-after now q k t
        ∙ keep-after_page k n (live_rows order now q none t) (live_rows-IsSorted now q none t) h
    live_rows-narrow now q (some a) k t n h =
        let rest = live_rows order now q (some a) t in
        let all = live_rows order now q none t in
        let e = live_rows-after now q a t in
        let ak =
          last_key-after a k n rest (subst (AllAfter order a) (sym e) (AllAfter-keep a all)) h in
        live_rows-after now q k t
        ∙ keep-ext (λ r. order.before k r.key) (λ r. order.before a r.key && order.before k r.key)
            all (λ r. narrow a k r.key ak)
        ∙ sym (keep-keep (λ r. order.before k r.key) (λ r. order.before a r.key) all)
        ∙ ap (keep (λ r. order.before k r.key)) (sym e)
        ∙ keep-after_page k n rest (live_rows-IsSorted now q (some a) t) h

    AllKeyed-rows :
        (now : ℕ) (q : Query) (a : Option Text) (t : Table)
        → AllKeyed (live_rows order now q none t)
        → AllKeyed (live_rows order now q a t)
    AllKeyed-rows now q none t h = h
    AllKeyed-rows now q (some a) t h =
        subst AllKeyed (sym (live_rows-after now q a t)) (keep-AllKeyed _ _ h)

    walk-from :
        (fuel now : ℕ) (q : Query) (limit : ℕ) (cursor a : Option Text) (t : Table)
        → 0 < limit
        → AllKeyed (live_rows order now q none t)
        → after_key order codec cursor ≡ ok a
        → length (live_rows order now q a t) < fuel
        → walk fuel now q limit cursor t ≡ some (live_rows order now q a t)
    unfolding walk memory_list_page
    walk-from zero now q limit cursor a t p keyed c h = absurd (omega arith)
    walk-from (suc fuel) now q limit cursor a t p keyed c h =
        let rows = live_rows order now q a t in
        elim (Bool-cases (ltb limit (length rows))) [
          | inl more ↦
              let (k, e) = last_key-some limit rows p (nonempty limit (length rows) p more) in
              let n = live_rows-narrow now q a k t limit e in
              let ih =
                walk-from fuel now q limit (some (codec.encode k)) (some k) t p keyed
                  (after_key-encode k
                    (last_key-keyed limit rows k (AllKeyed-rows now q a t keyed) e))
                  (left_over rows (live_rows order now q (some k) t) limit fuel n p more h) in
              rw (c, more, e, ih, n) (ap some (take-drop limit rows))
          | inr done ↦
              rw (c, done) (ap some (take_all limit rows (not_more limit (length rows) done)))
        ]

    -- Where the limit is not zero and no listed key is empty, following `next_cursor` through a table
    -- that does not change ends within as many pages as there are live rows, and one more, and the
    -- pages together are the whole listing: every row once, in the order of the keys.
    pub walk_complete :
        (fuel now : ℕ) (q : Query) (limit : ℕ) (t : Table)
        → 0 < limit
        → AllKeyed (live_rows order now q none t)
        → length (live_rows order now q none t) < fuel
        → (walk fuel now q limit none t ≡ some (live_rows order now q none t))
          × IsSorted order (live_rows order now q none t)
    walk_complete fuel now q limit t p keyed h =
        (walk-from fuel now q limit none none t p keyed refl h, live_rows-IsSorted now q none t)
