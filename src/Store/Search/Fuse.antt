-- ===== src/Store/Search/Fuse.antt =====
-- The fusion of ranked lists: what comes out was in one of them, no key twice, and no more than the
-- limit.
use mcp_assist_memory.Prelude.{
  ℕ, zero, suc, ◌≤◌, length, length-take-le, Text, true, false, List, [], ◌∷◌, text_eq, text_eq_iff,
  take, map, All, All-take, ◌≡◌, refl, subst, Bool-cases, inl, inr,
}
use mcp_assist_memory.Store.Rows.{Row}
use mcp_assist_memory.Store.Search.{
  Ranking, Ranked, count_row, count_leg, count_legs, ahead, place_ranked, sort_ranked, rrf_fuse,
}

-- no row of the list has the key
abbrev pub NoKey : Text → List Row → Type 0
NoKey key l = All (λ r. text_eq r.key key ≡ false) l

abbrev pub NoKeyTwice : List Row → Type 0
NoKeyTwice [] = Unit {0}
NoKeyTwice (r ∷ l) = NoKey r.key l × NoKeyTwice l

pub text_eq_comm : (a b : Text) → text_eq a b ≡ false → text_eq b a ≡ false
text_eq_comm a b h = elim (Bool-cases (text_eq b a)) [
  | inl e ↦
      let x = subst (λ c. text_eq a c ≡ false) ((text_eq_iff b a).0 e) h in
      let y : text_eq a a ≡ true = (text_eq_iff a a).1 refl in absurd (cc)
  | inr e ↦ e
]

module _ (ranking : Ranking) where
  abbrev rows : List (Ranked ranking) → List Row
  rows l = map (λ e. e.row) l

  module _ (P : Row → Type 0) where
    count_row-All :
        (rank : ℕ) (r : Row) (l : List (Ranked ranking))
        → P r
        → All P (rows l)
        → All P (rows (count_row ranking rank r l))
    unfolding count_row
    count_row-All rank r [] p a = (p, tt)
    count_row-All rank r (e ∷ l) p (a, b) = elim (Bool-cases (text_eq e.row.key r.key)) [
      | inl h ↦ rw h (a, b)
      | inr h ↦ rw h (a, count_row-All rank r l p b)
    ]

    count_leg-All :
        (rank : ℕ) (rs : List Row) (l : List (Ranked ranking))
        → All P rs
        → All P (rows l)
        → All P (rows (count_leg ranking rank rs l))
    unfolding count_leg
    count_leg-All rank [] l p a = a
    count_leg-All rank (r ∷ rs) l (p, q) a =
        count_leg-All (suc rank) rs (count_row ranking rank r l) q (count_row-All rank r l p a)

    count_legs-All :
        (legs : List (List Row)) (l : List (Ranked ranking))
        → All (All P) legs
        → All P (rows l)
        → All P (rows (count_legs ranking legs l))
    unfolding count_legs
    count_legs-All [] l p a = a
    count_legs-All (leg ∷ legs) l (p, q) a =
        count_legs-All legs (count_leg ranking 1 leg l) q (count_leg-All 1 leg l p a)

    place_ranked-All :
        (e : Ranked ranking) (l : List (Ranked ranking))
        → P e.row
        → All P (rows l)
        → All P (rows (place_ranked ranking e l))
    unfolding place_ranked
    place_ranked-All e [] p a = (p, tt)
    place_ranked-All e (f ∷ l) p (a, b) = elim (Bool-cases (ahead ranking f e)) [
      | inl h ↦ rw h (a, place_ranked-All e l p b)
      | inr h ↦ rw h (p, (a, b))
    ]

    sort_ranked-All :
        (l : List (Ranked ranking)) → All P (rows l) → All P (rows (sort_ranked ranking l))
    unfolding sort_ranked
    sort_ranked-All [] a = tt
    sort_ranked-All (e ∷ l) (a, b) =
        place_ranked-All e (sort_ranked ranking l) a (sort_ranked-All l b)

  rows-take : (n : ℕ) (l : List (Ranked ranking)) → rows (take n l) ≡ take n (rows l)
  rows-take zero l = refl
  rows-take (suc n) [] = refl
  rows-take (suc n) (e ∷ l) = rw (rows-take n l)

  -- What is fused was in one of the lists.
  pub rrf_fuse-All :
      (P : Row → Type 0) (legs : List (List Row)) (limit : ℕ)
      → All (All P) legs
      → All P (rrf_fuse ranking legs limit)
  unfolding rrf_fuse
  rrf_fuse-All P legs limit a =
      rw (rows-take limit (sort_ranked ranking (count_legs ranking legs []))) (
        All-take P limit (rows (sort_ranked ranking (count_legs ranking legs [])))
          (sort_ranked-All P (count_legs ranking legs []) (count_legs-All P legs [] a tt)))

  count_row-NoKeyTwice :
      (rank : ℕ) (r : Row) (l : List (Ranked ranking))
      → NoKeyTwice (rows l)
      → NoKeyTwice (rows (count_row ranking rank r l))
  unfolding count_row
  count_row-NoKeyTwice rank r [] a = (tt, tt)
  count_row-NoKeyTwice rank r (e ∷ l) (a, b) = elim (Bool-cases (text_eq e.row.key r.key)) [
    | inl h ↦ rw h (a, b)
    | inr h ↦ rw h (
      count_row-All (λ s. text_eq s.key e.row.key ≡ false) rank r l (text_eq_comm e.row.key r.key h)
          a,
      count_row-NoKeyTwice rank r l b,
    )
  ]

  count_leg-NoKeyTwice :
      (rank : ℕ) (rs : List Row) (l : List (Ranked ranking))
      → NoKeyTwice (rows l)
      → NoKeyTwice (rows (count_leg ranking rank rs l))
  unfolding count_leg
  count_leg-NoKeyTwice rank [] l a = a
  count_leg-NoKeyTwice rank (r ∷ rs) l a =
      count_leg-NoKeyTwice (suc rank) rs (count_row ranking rank r l)
        (count_row-NoKeyTwice rank r l a)

  count_legs-NoKeyTwice :
      (legs : List (List Row)) (l : List (Ranked ranking))
      → NoKeyTwice (rows l)
      → NoKeyTwice (rows (count_legs ranking legs l))
  unfolding count_legs
  count_legs-NoKeyTwice [] l a = a
  count_legs-NoKeyTwice (leg ∷ legs) l a =
      count_legs-NoKeyTwice legs (count_leg ranking 1 leg l) (count_leg-NoKeyTwice 1 leg l a)

  place_ranked-NoKeyTwice :
      (e : Ranked ranking) (l : List (Ranked ranking))
      → NoKey e.row.key (rows l)
      → NoKeyTwice (rows l)
      → NoKeyTwice (rows (place_ranked ranking e l))
  unfolding place_ranked
  place_ranked-NoKeyTwice e [] n a = (tt, tt)
  place_ranked-NoKeyTwice e (f ∷ l) (n, m) (a, b) = elim (Bool-cases (ahead ranking f e)) [
    | inl h ↦ rw h (
      place_ranked-All (λ s. text_eq s.key f.row.key ≡ false) e l
          (text_eq_comm f.row.key e.row.key n) a,
      place_ranked-NoKeyTwice e l m b,
    )
    | inr h ↦ rw h ((n, m), (a, b))
  ]

  sort_ranked-NoKeyTwice :
      (l : List (Ranked ranking)) → NoKeyTwice (rows l) → NoKeyTwice (rows (sort_ranked ranking l))
  unfolding sort_ranked
  sort_ranked-NoKeyTwice [] a = tt
  sort_ranked-NoKeyTwice (e ∷ l) (a, b) =
      place_ranked-NoKeyTwice e (sort_ranked ranking l)
        (sort_ranked-All (λ s. text_eq s.key e.row.key ≡ false) l a) (sort_ranked-NoKeyTwice l b)

  pub take-NoKeyTwice : (n : ℕ) (l : List Row) → NoKeyTwice l → NoKeyTwice (take n l)
  take-NoKeyTwice zero l a = tt
  take-NoKeyTwice (suc n) [] a = tt
  take-NoKeyTwice (suc n) (r ∷ l) (a, b) =
      (All-take (λ s. text_eq s.key r.key ≡ false) n l a, take-NoKeyTwice n l b)

  pub rrf_fuse-NoKeyTwice :
      (legs : List (List Row)) (limit : ℕ) → NoKeyTwice (rrf_fuse ranking legs limit)
  unfolding rrf_fuse
  rrf_fuse-NoKeyTwice legs limit =
      rw (rows-take limit (sort_ranked ranking (count_legs ranking legs []))) (
        take-NoKeyTwice limit (rows (sort_ranked ranking (count_legs ranking legs [])))
          (sort_ranked-NoKeyTwice (count_legs ranking legs []) (count_legs-NoKeyTwice legs [] tt)))

  pub length-rrf_fuse-le :
      (legs : List (List Row)) (limit : ℕ) → length (rrf_fuse ranking legs limit) ≤ limit
  unfolding rrf_fuse
  length-rrf_fuse-le legs limit =
      rw (rows-take limit (sort_ranked ranking (count_legs ranking legs [])))
        (length-take-le limit (rows (sort_ranked ranking (count_legs ranking legs []))))
