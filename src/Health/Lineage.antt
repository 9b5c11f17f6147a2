-- ===== src/Health/Lineage.antt =====
-- The loop over the ancestors of an entry: it ends, and finds the tainted ancestors, all of them and
-- no others.
use mcp_assist_memory.Prelude.{
  ℕ, zero, suc, ◌+◌, ◌≤◌, Text, text_eq, text_eq_iff, mem_text, true, false, some, List, [], ◌∷◌,
  length, is_some, if◌then◌else◌, All, In-All, In, ◌≡◌, ◌⊎◌, sym, subst, ◌∙◌, arith, Bool-cases,
  inl, inr,
}
use mcp_assist_memory.Health.{Taint, get_key, union, parents_at, climb}

pub In-mem_text : (p : Text) (ks : List Text) → mem_text p ks ≡ true → In p ks
unfolding mem_text
In-mem_text p [] h = cc
In-mem_text p (k ∷ ks) h = elim (Bool-cases (text_eq p k)) [
  | inl e ↦ inl ((text_eq_iff p k).0 e)
  | inr e ↦ inr (In-mem_text p ks (sym (rw (e)) ∙ h))
]

In-union_right : (p : Text) (js ks : List Text) → In p ks → In p (union js ks)
unfolding union
In-union_right p [] ks m = m
In-union_right p (j ∷ js) ks m = elim (Bool-cases (mem_text j ks)) [
  | inl e ↦ rw e (In-union_right p js ks m)
  | inr e ↦ rw e (In-union_right p js (j ∷ ks) (inr m))
]

In-union_left : (p : Text) (js ks : List Text) → In p js → In p (union js ks)
unfolding union
In-union_left p [] ks m = absurd m
In-union_left p (j ∷ js) ks (inl q) = elim (Bool-cases (mem_text j ks)) [
  | inl e ↦ rw e (In-union_right p js ks (subst (λ x. In x ks) (sym q) (In-mem_text j ks e)))
  | inr e ↦ rw e (In-union_right p js (j ∷ ks) (inl q))
]
In-union_left p (j ∷ js) ks (inr m) = elim (Bool-cases (mem_text j ks)) [
  | inl e ↦ rw e (In-union_left p js ks m)
  | inr e ↦ rw e (In-union_left p js (j ∷ ks) m)
]

pub union-All : (P : Text → Type 0) (js ks : List Text) → All P js → All P ks → All P (union js ks)
unfolding union
union-All P [] ks a b = b
union-All P (j ∷ js) ks (a, c) b = elim (Bool-cases (mem_text j ks)) [
  | inl e ↦ rw e (union-All P js ks c b)
  | inr e ↦ rw e (union-All P js (j ∷ ks) c (a, b))
]

pub length-union-le : (js ks : List Text) → length (union js ks) ≤ length js + length ks
unfolding union
length-union-le [] ks = omega arith
length-union-le (j ∷ js) ks = elim (Bool-cases (mem_text j ks)) [
  | inl e ↦ rw e (omega (arith, length-union-le js ks))
  | inr e ↦ rw e (omega (arith, length-union-le js (j ∷ ks)))
]

module _ (tainted : List (Text × Taint)) (parents : List (Text × List Text)) where
  abbrev pub IsTainted : Text → Type 0
  IsTainted p = is_some (get_key p tainted) ≡ true

  -- the keys that an entry with these parents descends from
  pub data Descends (start : List Text) : Text → Type 0 where
    parent : (p : Text) → In p start → Descends start p
    further :
        (p q : Text) → Descends start p → In q (parents_at tainted parents p) → Descends start q

  -- The cases of one round.
  pub climb-seen :
      (fuel : ℕ) (seen : List Text) (p : Text) (rest hits : List Text)
      → mem_text p seen ≡ true
      → climb tainted parents (suc fuel) seen (p ∷ rest) hits
        ≡ climb tainted parents fuel seen rest hits
  unfolding climb
  climb-seen fuel seen p rest hits e = rw (e, climb)

  pub climb-new :
      (fuel : ℕ) (seen : List Text) (p : Text) (rest hits : List Text)
      → mem_text p seen ≡ false
      → climb tainted parents (suc fuel) seen (p ∷ rest) hits
        ≡ climb tainted parents fuel
            (p ∷ seen)
            (union (parents_at tainted parents p) rest)
            (if is_some (get_key p tainted) then p ∷ hits else hits)
  unfolding climb
  climb-new fuel seen p rest hits e = rw (e, climb)

  module _ (start : List Text) where
    abbrev pub IsHit : Text → Type 0
    IsHit p = Descends start p × IsTainted p

    IsHit-All :
        (p : Text) (hits : List Text)
        → Descends start p
        → All IsHit hits
        → All IsHit (if is_some (get_key p tainted) then p ∷ hits else hits)
    IsHit-All p hits d a = elim (Bool-cases (is_some (get_key p tainted))) [
      | inl e ↦ rw e ((d, e), a)
      | inr e ↦ rw e a
    ]

    pub climb_sound :
        (fuel : ℕ) (seen frontier hits out : List Text)
        → All (Descends start) frontier
        → All IsHit hits
        → climb tainted parents fuel seen frontier hits ≡ some out
        → All IsHit out
    climb_sound zero seen frontier hits out a b h = absurd (unfold climb in cc)
    climb_sound (suc fuel) seen [] hits out a b h =
        let e : hits ≡ out = unfold climb in cc in subst (All IsHit) e b
    climb_sound (suc fuel) seen (p ∷ rest) hits out (d, a) b h =
        elim (Bool-cases (mem_text p seen)) [
          | inl e ↦
              climb_sound fuel seen rest hits out a b (sym (climb-seen fuel seen p rest hits e) ∙ h)
          | inr e ↦
              climb_sound fuel (p ∷ seen) (union (parents_at tainted parents p) rest)
                (if is_some (get_key p tainted) then p ∷ hits else hits) out
                (union-All (Descends start) (parents_at tainted parents p) rest
                  (In-All (Descends start) (parents_at tainted parents p) (λ q m. further p q d m))
                  a)
                (IsHit-All p hits d b) (sym (climb-new fuel seen p rest hits e) ∙ h)
        ]

    -- What the loop keeps: every key of the start and every parent of a key that was seen was seen or
    -- is still to come, and every tainted key that was seen is a hit.
    pub record Covers (seen frontier hits : List Text) : Type 0 where
      pub starts : (p : Text) → In p start → In p seen ⊎ In p frontier
      pub follows :
          (p q : Text) → In p seen → In q (parents_at tainted parents p) → In q seen ⊎ In q frontier
      pub found : (p : Text) → In p seen → IsTainted p → In p hits

    drop_seen :
        (p q : Text) (seen rest : List Text)
        → In p seen
        → In q seen ⊎ In q (p ∷ rest)
        → In q seen ⊎ In q rest
    drop_seen p q seen rest m (inl n) = inl n
    drop_seen p q seen rest m (inr (inl e)) = inl (subst (λ x. In x seen) (sym e) m)
    drop_seen p q seen rest m (inr (inr n)) = inr n

    add_seen :
        (p q : Text) (seen rest ps : List Text)
        → In q seen ⊎ In q (p ∷ rest)
        → In q (p ∷ seen) ⊎ In q (union ps rest)
    add_seen p q seen rest ps (inl n) = inl (inr n)
    add_seen p q seen rest ps (inr (inl e)) = inl (inl e)
    add_seen p q seen rest ps (inr (inr n)) = inr (In-union_right q ps rest n)

    keep_hit :
        (p q : Text) (hits : List Text)
        → In q hits
        → In q (if is_some (get_key p tainted) then p ∷ hits else hits)
    keep_hit p q hits m = elim (Bool-cases (is_some (get_key p tainted))) [
      | inl e ↦ rw e (inr m)
      | inr e ↦ rw e m
    ]

    Covers-new :
        (p : Text) (seen rest hits : List Text)
        → Covers seen (p ∷ rest) hits
        → Covers
            (p ∷ seen)
            (union (parents_at tainted parents p) rest)
            (if is_some (get_key p tainted) then p ∷ hits else hits)
    Covers-new p seen rest hits c = record {
      starts = λ q m. add_seen p q seen rest (parents_at tainted parents p) (c.starts q m);
      follows = follow;
      found = find_hit;
    }
      where
        follow :
            (r q : Text)
            → In r (p ∷ seen)
            → In q (parents_at tainted parents r)
            → In q (p ∷ seen) ⊎ In q (union (parents_at tainted parents p) rest)
        follow r q (inl e) m = inr (
            In-union_left q (parents_at tainted parents p) rest
              (subst (λ x. In q (parents_at tainted parents x)) e m))
        follow r q (inr n) m =
            add_seen p q seen rest (parents_at tainted parents p) (c.follows r q n m)

        find_hit :
            (r : Text)
            → In r (p ∷ seen)
            → IsTainted r
            → In r (if is_some (get_key p tainted) then p ∷ hits else hits)
        find_hit r (inl e) t =
            let u : is_some (get_key p tainted) ≡ true = subst IsTainted e t in rw u (inl e)
        find_hit r (inr n) t = keep_hit p r hits (c.found r n t)

    pub climb-complete :
        (fuel : ℕ) (seen frontier hits out : List Text)
        → Covers seen frontier hits
        → climb tainted parents fuel seen frontier hits ≡ some out
        → (p : Text) → Descends start p
        → IsTainted p
        → In p out
    climb-complete zero seen frontier hits out c h p d t = absurd (unfold climb in cc)
    climb-complete (suc fuel) seen [] hits out c h p d t =
        let e : hits ≡ out = unfold climb in cc in subst (In p) e (c.found p (all_seen p d) t)
      where
        none_left : (q : Text) → In q seen ⊎ In q [] → In q seen
        none_left q (inl n) = n
        none_left q (inr n) = absurd n

        all_seen : (q : Text) → Descends start q → In q seen
        all_seen q (parent _ m) = none_left q (c.starts q m)
        all_seen q (further r _ f m) = none_left q (c.follows r q (all_seen r f) m)
    climb-complete (suc fuel) seen (r ∷ rest) hits out c h p d t =
        elim (Bool-cases (mem_text r seen)) [
          | inl e ↦
              let n = In-mem_text r seen e in
              climb-complete fuel seen rest hits out
                (record {
                  starts = λ q m. drop_seen r q seen rest n (c.starts q m);
                  follows = λ q s m k. drop_seen r s seen rest n (c.follows q s m k);
                  found = c.found;
                })
                (sym (climb-seen fuel seen r rest hits e) ∙ h) p d t
          | inr e ↦
              climb-complete fuel (r ∷ seen) (union (parents_at tainted parents r) rest)
                (if is_some (get_key r tainted) then r ∷ hits else hits) out
                (Covers-new r seen rest hits c) (sym (climb-new fuel seen r rest hits e) ∙ h) p d t
        ]
