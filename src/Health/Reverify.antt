-- ===== src/Health/Reverify.antt =====
-- Which claims `coord_health` is silent about.
use mcp_assist_memory.Prelude.{
  ℕ, ◌-◌, ◌≤◌, Text, text_eq, text_eq_iff, starts_with, drop, length, Bool, true, false, Option,
  none, some, List, [], ◌∷◌, ◌++◌, ◌&&◌, ◌==◌, keep, find-some, take-cases, sym, In, In-keep, ◌≡◌,
  ◌⊎◌, refl, ap, ◌∙◌, subst, arith, Option-cases, inl, inr, codes,
}
use mcp_assist_memory.Store.Rows.{Row, Table}
use mcp_assist_memory.Store.Listing.{Collation}
use mcp_assist_memory.Health.{
  Reason, is_verdict_on, state_is, reconcile_prefix, verdict_for, is_claim, reverify,
  reverify_claims, needs_reverification, health_rows, coord_health,
}

both : (x y : Bool) → (x && y) ≡ true → (x ≡ true) × (y ≡ true)
both x y h = ground arith

starts_with-split : (s p : Text) → starts_with s p ≡ true → s ≡ p ++ drop (length p) s
unfolding starts_with
starts_with-split s [] h = refl
starts_with-split [] (d ∷ p) h = cc
starts_with-split (c ∷ s) (d ∷ p) h =
    let (a, b) = both (c == d) (starts_with s p) h in
    let e : c ≡ d = ground arith in rw (← e) (ap (λ t. c ∷ t) (starts_with-split s p b))

is_verdict_on-key :
    (key : Text) (r : Row) → is_verdict_on key r ≡ true → r.key ≡ reconcile_prefix ++ key
unfolding is_verdict_on
is_verdict_on-key key r h =
    let (a, b) =
      both (starts_with r.key reconcile_prefix) (text_eq (drop (length reconcile_prefix) r.key) key)
        h in
    starts_with-split r.key reconcile_prefix a
    ∙ ap (λ t. reconcile_prefix ++ t) ((text_eq_iff (drop (length reconcile_prefix) r.key) key).0 b)

-- The verdict that is found for a claim is the record under the claim's own key.
verdict_for-some :
    (key : Text) (rows : List Row) {v : Row}
    → verdict_for key rows ≡ some v
    → In v rows × (v.key ≡ reconcile_prefix ++ key)
verdict_for-some key rows {v} h =
    let (a, b) = find-some (is_verdict_on key) rows {a = v} (unfold verdict_for in h) in
    (a, is_verdict_on-key key v b)

-- the report with the finding on one claim more
abbrev added : Text → Option Reason → List (Text × Reason) → List (Text × Reason)
added key none more = more
added key (some reason) more = (key, reason) ∷ more

reverify_claims-cons :
    (now window : ℕ) (rows : List Row) (c : Row) (cs : List Row)
    → reverify_claims now window rows (c ∷ cs)
      ≡ added c.key
          (reverify now window (verdict_for c.key rows))
          (reverify_claims now window rows cs)
reverify_claims-cons now window rows c cs =
    elim (Option-cases (reverify now window (verdict_for c.key rows))) [
      | inl e ↦ unfold reverify_claims in rw (e, reverify_claims)
      | inr (x, e) ↦ unfold reverify_claims in rw (e, reverify_claims)
    ]

reverify_claims-In :
    (now window : ℕ) (rows cs : List Row) (c : Row) {reason : Reason}
    → In c cs
    → reverify now window (verdict_for c.key rows) ≡ some reason
    → In {A = Text × Reason} (c.key, reason) (reverify_claims now window rows cs)
reverify_claims-In now window rows [] c m h = absurd m
reverify_claims-In now window rows (d ∷ cs) c {reason} (inl e) h =
    let f : reverify now window (verdict_for d.key rows) ≡ some reason =
      subst (λ (x : Row). reverify now window (verdict_for x.key rows) ≡ some reason) e h in
    let g : ◌≡◌ {A = Text × Reason} (c.key, reason) (d.key, reason) =
      ap (λ (x : Row). (x.key, reason)) e in
    rw (reverify_claims-cons now window rows d cs, f) (inl g)
reverify_claims-In now window rows (d ∷ cs) c {reason} (inr m) h =
    there (reverify now window (verdict_for d.key rows)) refl
      (reverify_claims-In now window rows cs c m h)
  where
    there :
        (o : Option Reason)
        → reverify now window (verdict_for d.key rows) ≡ o
        → In {A = Text × Reason} (c.key, reason) (reverify_claims now window rows cs)
        → In {A = Text × Reason} (c.key, reason) (reverify_claims now window rows (d ∷ cs))
    there none e n = rw (reverify_claims-cons now window rows d cs, e) n
    there (some x) e n = rw (reverify_claims-cons now window rows d cs, e) (inr n)

abbrev pub IsVerified : ℕ → ℕ → List Row → Row → Type 0
IsVerified now window rows c =
    (v : Row) × In v rows
    × (v.key ≡ reconcile_prefix ++ c.key)
    × (state_is (codes "unverifiable") v.value ≡ false)
    × (now - v.created_at ≤ window)

reverify-none :
    (now window : ℕ) (v : Row)
    → reverify now window (some v) ≡ none
    → (state_is (codes "unverifiable") v.value ≡ false) × (now - v.created_at ≤ window)
unfolding reverify
reverify-none now window v h = ground arith

needs_reverification-all :
    (now window : ℕ) (rows : List Row) (c : Row)
    → In c rows
    → is_claim c ≡ true
    → ((reason : Reason) × In {A = Text × Reason}
          (c.key, reason)
          (needs_reverification now window rows))
      ⊎ IsVerified now window rows c
unfolding needs_reverification
needs_reverification-all now window rows c m h =
    let n = In-keep is_claim c rows m h in
    elim (Option-cases (reverify now window (verdict_for c.key rows))) [
      | inr (reason, e) ↦
          inl (reason, reverify_claims-In now window rows (keep is_claim rows) c n e)
      | inl e ↦ inr (verified (verdict_for c.key rows) refl e)
    ]
  where
    verified :
        (o : Option Row)
        → verdict_for c.key rows ≡ o
        → reverify now window o ≡ none
        → IsVerified now window rows c
    verified none f e = absurd (unfold reverify in cc)
    verified (some v) f e =
        let (a, b) = verdict_for-some c.key rows f in
        let (x, y) = reverify-none now window v e in (v, a, b, x, y)

-- Of every live claim the report says that it wants another verification, or its verdict is on
-- record, is not `unverifiable` and is no older than the staleness window, or the report is cut: it
-- has as many items as `limit`.
pub needs_reverification-covers :
    (order : Collation) (now window limit : ℕ) (ns : Text) (t : Table) (c : Row)
    → In c (health_rows order now ns t)
    → is_claim c ≡ true
    → let report = (coord_health order now window limit ns t).unverified in
      ((reason : Reason) × In {A = Text × Reason} (c.key, reason) report)
      ⊎ (IsVerified now window (health_rows order now ns t) c ⊎ (length report ≡ limit))
unfolding coord_health
needs_reverification-covers order now window limit ns t c m h =
    let rows = health_rows order now ns t in
    elim (take-cases limit (needs_reverification now window rows)) [
      | inl e ↦ inr (inr e)
      | inr e ↦ elim (needs_reverification-all now window rows c m h) [
        | inl (reason, n) ↦
            inl (reason, subst (λ l. In {A = Text × Reason} (c.key, reason) l) (sym e) n)
        | inr v ↦ inr (inl v)
      ]
    ]
