-- ===== src/Retrieval/Top.antt =====
-- The top score of the guard is the largest cosine of the candidates.
use mcp_assist_memory.Prelude.{
  Bool, true, false, Option, none, some, List, [], ◌∷◌, ◌≡◌, refl, All, In, Bool-cases, inl, inr,
  if◌then◌else◌, ◌⊎◌, sym, ◌∙◌, subst,
}
use mcp_assist_memory.Retrieval.{Scores, scored, top_of}

-- how `<` behaves on the cosines
pub record IsOrdered (scores : Scores) : Type 0 where
  pub irreflexive : (a : scores.Score) → scores.lt a a ≡ false
  pub asymmetric : (a b : scores.Score) → scores.lt a b ≡ true → scores.lt b a ≡ false
  pub negatively_transitive :
      (a b c : scores.Score) → scores.lt a b ≡ false → scores.lt b c ≡ false → scores.lt a c ≡ false

module _ (scores : Scores) where
  -- A bound is not below a cosine, and nothing bounds a cosine where there is no score.
  abbrev pub IsBound : Option scores.Score → Option scores.Score → Type 0
  IsBound top none = Unit
  IsBound none (some c) = ⊥
  IsBound (some top) (some c) = scores.lt top c ≡ false

  scored-cases : (b c : Option scores.Score) → (scored scores b c ≡ b) ⊎ (scored scores b c ≡ c)
  scored-cases none none = inl refl
  scored-cases none (some s) = inr refl
  scored-cases (some t) none = inl refl
  scored-cases (some t) (some s) = elim (Bool-cases (scores.lt t s)) [
    | inl e ↦ inr (rw e refl)
    | inr e ↦ inl (rw e refl)
  ]

  module _ (ordered : IsOrdered scores) where
    chosen :
        (t s : scores.Score) (b : Bool)
        → scores.lt t s ≡ b
        → scored scores (some t) (some s) ≡ (if b then some s else some t)
    chosen t s true e = rw e refl
    chosen t s false e = rw e refl

    IsBound-scored :
        (b c r : Option scores.Score) → IsBound r (scored scores b c) → IsBound r b × IsBound r c
    IsBound-scored none none r h = (tt, tt)
    IsBound-scored none (some s) r h = (tt, h)
    IsBound-scored (some t) none r h = (h, tt)
    IsBound-scored (some t) (some s) none h = elim (Bool-cases (scores.lt t s)) [
      | inl e ↦ absurd (subst (IsBound none) (chosen t s true e) h)
      | inr e ↦ absurd (subst (IsBound none) (chosen t s false e) h)
    ]
    IsBound-scored (some t) (some s) (some r) h = elim (Bool-cases (scores.lt t s)) [
      | inl e ↦
          let k : scores.lt r s ≡ false = subst (IsBound (some r)) (chosen t s true e) h in
          (ordered.negatively_transitive r s t k (ordered.asymmetric t s e), k)
      | inr e ↦
          let k : scores.lt r t ≡ false = subst (IsBound (some r)) (chosen t s false e) h in
          (k, ordered.negatively_transitive r t s k e)
    ]

    IsBound-self : (b : Option scores.Score) → IsBound b b
    IsBound-self none = tt
    IsBound-self (some s) = ordered.irreflexive s

module _ (scores : Scores) {A : Type 0} where
  abbrev Attains : Option scores.Score → List (A × Option scores.Score) → Type 0
  Attains none cs = Unit
  Attains (some s) cs = (a : A) × In {A = A × Option scores.Score} (a, some s) cs

  -- the largest of the cosines of a list, or nothing where there is none
  abbrev pub IsTop : Option scores.Score → List (A × Option scores.Score) → Type 0
  IsTop top cs = Attains top cs × All (λ x. IsBound scores top x.1) cs

  module _ (ordered : IsOrdered scores) where
    top_of-bounds :
        (cs : List (A × Option scores.Score)) (b : Option scores.Score)
        → IsBound scores (top_of scores b cs) b
          × All (λ x. IsBound scores (top_of scores b cs) x.1) cs
    unfolding top_of
    top_of-bounds [] b = (IsBound-self scores ordered b, tt)
    top_of-bounds ((a, c) ∷ cs) b =
        let (h, k) = top_of-bounds cs (scored scores b c) in
        let (x, y) = IsBound-scored scores ordered b c (top_of scores (scored scores b c) cs) h in
        (x, (y, k))

  Attains-later :
      (x : A × Option scores.Score) (cs : List (A × Option scores.Score)) (o : Option scores.Score)
      → Attains o cs
      → Attains o (x ∷ cs)
  Attains-later x cs none h = tt
  Attains-later x cs (some s) (a, m) = (a, inr m)

  Attains-here :
      (a : A) (c : Option scores.Score) (cs : List (A × Option scores.Score))
      → Attains c ((a, c) ∷ cs)
  Attains-here a none cs = tt
  Attains-here a (some s) cs = (a, inl refl)

  -- The score that the loop ends with is the one that it starts with, or one of the list.
  top_of-from :
      (cs : List (A × Option scores.Score)) (b : Option scores.Score)
      → (top_of scores b cs ≡ b) ⊎ Attains (top_of scores b cs) cs
  unfolding top_of
  top_of-from [] b = inl refl
  top_of-from ((a, c) ∷ cs) b = elim (top_of-from cs (scored scores b c)) [
    | inr h ↦ inr (Attains-later (a, c) cs _ h)
    | inl e ↦ elim (scored-cases scores b c) [
      | inl f ↦ inl (e ∙ f)
      | inr f ↦ inr (subst (λ o. Attains o ((a, c) ∷ cs)) (sym (e ∙ f)) (Attains-here a c cs))
    ]
  ]

  pub top_of-IsTop :
      IsOrdered scores → (cs : List (A × Option scores.Score)) → IsTop (top_of scores none cs) cs
  top_of-IsTop ordered cs =
      (attained (top_of scores none cs) (top_of-from cs none), (top_of-bounds ordered cs none).1)
    where
      attained : (o : Option scores.Score) → (o ≡ none) ⊎ Attains o cs → Attains o cs
      attained o (inl e) = subst (λ x. Attains x cs) (sym e) tt
      attained o (inr h) = h
