-- ===== src/Health/Total.antt =====
-- The loop over the ancestors ends within the fuel that it is given.
use mcp_assist_memory.Prelude.{
  ℕ, zero, suc, ◌+◌, ◌*◌, ◌≤◌, ◌<◌, Text, text_eq, text_eq_iff, mem_text, true, false, some, List,
  [], ◌∷◌, ◌++◌, length, length-append, is_some, if◌then◌else◌, All, In-All, In, In-append_left,
  In-append_right, ◌≡◌, refl, subst, ◌∙◌, arith, Bool-cases, inl, inr,
}
use mcp_assist_memory.Health.{Taint, get_key, union, or_empty, parents_at, climb, named, climb_fuel}
use mcp_assist_memory.Health.Lineage.{length-union-le, union-All, climb-seen, climb-new}

-- how many of the keys were not seen
unseen : List Text → List Text → ℕ
unseen [] seen = 0
unseen (k ∷ ks) seen = if mem_text k seen then unseen ks seen else suc (unseen ks seen)

unseen-le : (ks seen : List Text) → unseen ks seen ≤ length ks
unfolding unseen
unseen-le [] seen = omega arith
unseen-le (k ∷ ks) seen = ground (arith, unseen-le ks seen)

mem_text-later :
    (k p : Text) (seen : List Text) → mem_text k seen ≡ true → mem_text k (p ∷ seen) ≡ true
unfolding mem_text
mem_text-later k p seen h = ground arith

mem_text_self : (p : Text) (seen : List Text) → mem_text p (p ∷ seen) ≡ true
unfolding mem_text
mem_text_self p seen = rw ((text_eq_iff p p).1 refl)

unseen_mono : (ks seen : List Text) (p : Text) → unseen ks (p ∷ seen) ≤ unseen ks seen
unfolding unseen
unseen_mono [] seen p = omega arith
unseen_mono (k ∷ ks) seen p = elim (Bool-cases (mem_text k seen)) [
  | inl e ↦ rw (e, mem_text-later k p seen e) (unseen_mono ks seen p)
  | inr e ↦ rw e (elim (Bool-cases (mem_text k (p ∷ seen))) [
    | inl f ↦ rw f (omega (arith, unseen_mono ks seen p))
    | inr f ↦ rw f (omega (arith, unseen_mono ks seen p))
  ])
]

-- Seeing a key of the list for the first time leaves fewer.
unseen-less :
    (ks seen : List Text) (p : Text)
    → In p ks
    → mem_text p seen ≡ false
    → unseen ks (p ∷ seen) < unseen ks seen
unfolding unseen
unseen-less [] seen p m h = absurd m
unseen-less (k ∷ ks) seen p (inl e) h =
    let a : mem_text k seen ≡ false = subst (λ x. mem_text x seen ≡ false) e h in
    let b : mem_text k (p ∷ seen) ≡ true =
      subst (λ x. mem_text x (p ∷ seen) ≡ true) e (mem_text_self p seen) in
    rw (a, b) (omega (arith, unseen_mono ks seen p))
unseen-less (k ∷ ks) seen p (inr m) h = elim (Bool-cases (mem_text k seen)) [
  | inl e ↦ rw (e, mem_text-later k p seen e) (unseen-less ks seen p m h)
  | inr e ↦ rw e (elim (Bool-cases (mem_text k (p ∷ seen))) [
    | inl f ↦ rw f (omega (arith, unseen-less ks seen p m h))
    | inr f ↦ rw f (omega (arith, unseen-less ks seen p m h))
  ])
]

-- The parents of a key are among the keys that are named, and no more than these.
get_key-named :
    (p : Text) (parents : List (Text × List Text))
    → All (λ q. In q (named parents)) (or_empty (get_key p parents))
      × (length (or_empty (get_key p parents)) ≤ length (named parents))
unfolding get_key named
get_key-named p [] = (tt, omega arith)
get_key-named p ((k, ps) ∷ m) = elim (Bool-cases (text_eq k p)) [
  | inl e ↦ rw e (
    In-All (λ q. In q (ps ++ named m)) ps (λ q n. In-append_left q ps (named m) n),
    omega (arith, length-append ps (named m)),
  )
  | inr e ↦
      let (a, b) = get_key-named p m in
      rw e (later (or_empty (get_key p m)) a, omega (arith, b, length-append ps (named m)))
]
  where
    later : (qs : List Text) → All (λ q. In q (named m)) qs → All (λ q. In q (ps ++ named m)) qs
    later [] a = tt
    later (q ∷ qs) (a, b) = (In-append_right q ps (named m) a, later qs b)

fewer : (u v n : ℕ) → v < u → v * suc n + suc n ≤ u * suc n
fewer u v n h = grind arith

module _ (tainted : List (Text × Taint)) (parents : List (Text × List Text)) where
  climb-total :
      (fuel : ℕ) (seen frontier hits : List Text)
      → All (λ p. In p (named parents)) frontier
      → unseen (named parents) seen * suc (length (named parents)) + length frontier < fuel
      → (out : List Text) × (climb tainted parents fuel seen frontier hits ≡ some out)
  climb-total zero seen frontier hits a h = absurd (omega arith)
  climb-total (suc fuel) seen [] hits a h = (hits, unfold climb in refl)
  climb-total (suc fuel) seen (p ∷ rest) hits (m, a) h = elim (Bool-cases (mem_text p seen)) [
    | inl e ↦
        let (out, f) = climb-total fuel seen rest hits a (omega arith) in
        (out, climb-seen tainted parents fuel seen p rest hits e ∙ f)
    | inr e ↦
        let ps = parents_at tainted parents p in
        let n = length (named parents) in
        let (b, c) = get_key-named p parents in
        let d =
          fewer (unseen (named parents) seen) (unseen (named parents) (p ∷ seen)) n
            (unseen-less (named parents) seen p m e) in
        let (out, f) =
          climb-total fuel (p ∷ seen) (union ps rest)
            (if is_some (get_key p tainted) then p ∷ hits else hits)
            (union-All (λ q. In q (named parents)) ps rest b a)
            (shorter (unseen (named parents) seen * suc n)
              (unseen (named parents) (p ∷ seen) * suc n) n (length ps) (length rest)
              (length (union ps rest)) fuel d c (length-union-le ps rest) h) in
        (out, climb-new tainted parents fuel seen p rest hits e ∙ f)
  ]
    where
      shorter :
          (u v n ps rest both fuel : ℕ)
          → v + suc n ≤ u
          → ps ≤ n
          → both ≤ ps + rest
          → u + suc rest < suc fuel
          → v + both < fuel
      shorter u v n ps rest both fuel d c e h = omega arith

  -- From the parents of an entry the fuel is enough.
  pub climb-ends :
      (ps : List Text)
      → All (λ p. In p (named parents)) ps
      → length ps ≤ length (named parents)
      → (out : List Text) × (climb tainted parents (climb_fuel parents) [] ps [] ≡ some out)
  climb-ends ps a h = climb-total (climb_fuel parents) [] ps [] a (
      unfold climb_fuel in
      enough (unseen (named parents) []) (length (named parents)) (length ps)
        (unseen-le (named parents) []) h)
    where
      enough : (u n l : ℕ) → u ≤ n → l ≤ n → u * suc n + l < suc (n * suc n + n)
      enough u n l h k = grind arith
