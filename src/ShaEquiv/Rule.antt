-- ===== src/ShaEquiv/Rule.antt =====
-- The comparison of references: what it accepts, and that it does not depend on the order of its
-- arguments or on their case.
use mcp_assist_memory.Prelude.{
  ℕ, ◌≤◌, suc, Text, true, Option, none, some, [], ◌∷◌, ◌++◌, ◌≡◌, refl, ap, ◌∙◌, ◌≢◌, sym, ◌↔◌,
  ◌⊎◌, arith, leb, length, lower, lower_code, text_eq_iff, starts_with, Bool-cases, inl, inr,
  length-append,
}
use mathlib.Core.List.{append-nil}
use mcp_assist_memory.ShaEquiv.{sha_match, equivalent, prefix_match}

-- `p` begins `s`.
abbrev pub Begins : Text → Text → Type 0
Begins p s = (t : Text) × (s ≡ p ++ t)

pub starts_with_split : (s p : Text) → starts_with s p ≡ true → Begins p s
unfolding starts_with
starts_with_split s [] h = (s, refl)
starts_with_split [] (d ∷ p) h = cc
starts_with_split (c ∷ s) (d ∷ p) h =
    let (t, e) = starts_with_split s p (ground arith) in (t, ground arith)

pub starts_with-append : (p t : Text) → starts_with (p ++ t) p ≡ true
unfolding starts_with
starts_with-append [] t = refl
starts_with-append (c ∷ p) t = ground (arith, starts_with-append p t)

pub length-lower : (s : Text) → length (lower s) ≡ length s
unfolding lower
length-lower [] = refl
length-lower (c ∷ s) = ap suc (length-lower s)

lower_code_idem : (c : ℕ) → lower_code (lower_code c) ≡ lower_code c
unfolding lower_code
lower_code_idem c = ground arith

pub lower-lower : (s : Text) → lower (lower s) ≡ lower s
unfolding lower
lower-lower [] = refl
lower-lower (c ∷ s) = cc (lower_code_idem c, lower-lower s)

le_total : (m n : ℕ) → (m ≤ n) ⊎ (n ≤ m)
le_total m n = omega arith

starts_with_same : (a b : Text) → length a ≡ length b → starts_with a b ≡ starts_with b a
unfolding starts_with
starts_with_same [] [] h = refl
starts_with_same [] (d ∷ b) h = absurd (omega arith)
starts_with_same (c ∷ a) [] h = absurd (omega arith)
starts_with_same (c ∷ a) (d ∷ b) h = ground (arith, starts_with_same a b)

prefix_match_comm : (a b : Text) → prefix_match a b ≡ prefix_match b a
unfolding prefix_match
prefix_match_comm a b = ground (arith, starts_with_same a b)

abbrev Agree : Text → Text → Type 0
Agree a b = (7 ≤ length a) × (7 ≤ length b) × (Begins a b ⊎ Begins b a)

Begins-le : (p s : Text) → Begins p s → length p ≤ length s
Begins-le p s (t, e) = omega (arith, length-append p t, ap length e)

starts_with_of : (p s : Text) → Begins p s → starts_with s p ≡ true
starts_with_of p s (t, e) = rw e (starts_with-append p t)

-- Two texts of one length, one of which begins the other, begin each other.
Begins-same : (a b : Text) → length b ≤ length a → Begins a b → Begins b a
Begins-same a b h p =
    starts_with_split a b
      (starts_with_same a b (omega (arith, Begins-le a b p)) ∙ starts_with_of a b p)

prefix_match-Agree : (a b : Text) → prefix_match a b ≡ true → Agree a b
unfolding prefix_match
prefix_match-Agree a b h = elim (Bool-cases (leb (length a) (length b))) [
  | inl e ↦
      let begins = starts_with_split b a (ground arith) in
      (ground arith, ground (arith, Begins-le a b begins), inl begins)
  | inr e ↦
      let begins = starts_with_split a b (ground arith) in
      (ground (arith, Begins-le b a begins), ground arith, inr begins)
]

prefix_match_of : (a b : Text) → Agree a b → prefix_match a b ≡ true
unfolding prefix_match
prefix_match_of a b (la, lb, inl p) = ground (arith, Begins-le a b p, starts_with_of a b p)
prefix_match_of a b (la, lb, inr p) = elim (Bool-cases (leb (length a) (length b))) [
  | inl e ↦ ground (
    arith,
    Begins-same b a (ground arith) p,
    starts_with_of a b (Begins-same b a (ground arith) p),
  )
  | inr e ↦ ground (arith, Begins-le b a p, starts_with_of b a p)
]

-- Two references are taken for one commit exactly when both have seven characters or more and, in
-- lower case, one begins the other.
pub sha_match_iff :
    (a b : Text)
    → (sha_match (some a) (some b) ≡ true) ↔ (
        (7 ≤ length a) × (7 ≤ length b) × (Begins (lower a) (lower b) ⊎ Begins (lower b) (lower a)))
unfolding sha_match
sha_match_iff [] b = (λ h. cc, λ h. absurd (omega arith))
sha_match_iff (c ∷ a) [] = (λ h. cc, λ h. absurd (omega arith))
sha_match_iff (c ∷ a) (d ∷ b) =
    let la = length-lower (c ∷ a) in
    let lb = length-lower (d ∷ b) in
    (
      λ h. let (m, n, p) = prefix_match-Agree _ _ h in (omega (arith, la), omega (arith, lb), p),
      λ h.
          prefix_match_of (lower (c ∷ a)) (lower (d ∷ b))
            (omega (arith, la), omega (arith, lb), h.2),
    )

-- The order of the arguments does not matter.
sha_match_comm : (a b : Option Text) → sha_match a b ≡ sha_match b a
unfolding sha_match
sha_match_comm none none = refl
sha_match_comm none (some b) = ground arith
sha_match_comm (some a) none = ground arith
sha_match_comm (some []) (some []) = refl
sha_match_comm (some []) (some (d ∷ b)) = refl
sha_match_comm (some (c ∷ a)) (some []) = refl
sha_match_comm (some (c ∷ a)) (some (d ∷ b)) = prefix_match_comm (lower (c ∷ a)) (lower (d ∷ b))

lower-cons_ne : (c : ℕ) (a : Text) → lower (c ∷ a) ≢ lower []
unfolding lower
lower-cons_ne c a e = cc

-- `equivalent` accepts the pairs that match and those that are equal in lower case, and no other.
equivalent_iff :
    (a b : Text)
    → a ≢ []
    → (equivalent (some a) (some b) ≡ true)
      ↔ ((lower a ≡ lower b) ⊎ (sha_match (some a) (some b) ≡ true))
unfolding equivalent sha_match
equivalent_iff [] b ne = absurd (ne refl)
equivalent_iff (c ∷ a) [] ne = (λ h. cc, λ h. ground (arith, lower-cons_ne c a))
equivalent_iff (c ∷ a) (d ∷ b) ne = ground (arith, text_eq_iff (lower (c ∷ a)) (lower (d ∷ b)))

prefixes_of_one : (a b t u : Text) → a ++ t ≡ b ++ u → length a ≤ length b → Begins a b
prefixes_of_one [] b t u e h = (b, refl)
prefixes_of_one (c ∷ a) [] t u e h = absurd (omega arith)
prefixes_of_one (c ∷ a) (d ∷ b) t u e h =
    let (v, q) = prefixes_of_one a b t u (cc) (omega arith) in (v, cc)

-- A match with a full name that is no shorter: the reference begins it.
pub match-Begins :
    (a full : Text)
    → length a ≤ length full
    → sha_match (some a) (some full) ≡ true
    → Begins (lower a) (lower full)
match-Begins a full la h = elim ((sha_match_iff a full).0 h).2 [
  | inl p ↦ p
  | inr p ↦ Begins-same (lower full) (lower a) (omega (arith, length-lower a, length-lower full)) p
]

-- Two references that match one full name, and are no longer than it, match each other.
sha_match_join :
    (a b full : Text)
    → length a ≤ length full
    → length b ≤ length full
    → sha_match (some a) (some full) ≡ true
    → sha_match (some b) (some full) ≡ true
    → sha_match (some a) (some b) ≡ true
sha_match_join a b full la lb ha hb =
    let (t, p) = match-Begins a full la ha in
    let (u, q) = match-Begins b full lb hb in
    let seven = ((sha_match_iff a full).0 ha).0 in
    let seven' = ((sha_match_iff b full).0 hb).0 in
    (sha_match_iff a b).1 (
      seven,
      seven',
      elim (le_total (length a) (length b)) [
        | inl h ↦ inl (
            prefixes_of_one (lower a) (lower b) t u (sym p ∙ q)
              (omega (arith, length-lower a, length-lower b)))
        | inr h ↦ inr (
            prefixes_of_one (lower b) (lower a) u t (sym q ∙ p)
              (omega (arith, length-lower a, length-lower b)))
      ],
    )

-- A reference matches itself from seven characters on.
pub sha_match_refl : (a : Text) → 7 ≤ length a → sha_match (some a) (some a) ≡ true
sha_match_refl a h = (sha_match_iff a a).1 (h, h, inl ([], sym (append-nil (lower a))))

-- The case of the answer does not matter.
pub sha_match-lower :
    (a b : Text) → sha_match (some a) (some b) ≡ true → sha_match (some a) (some (lower b)) ≡ true
sha_match-lower a b h =
    let (m, n, p) = (sha_match_iff a b).0 h in
    (sha_match_iff a (lower b)).1 (m, rw length-lower n, rw lower-lower p)
