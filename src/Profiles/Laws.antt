-- ===== src/Profiles/Laws.antt =====
-- A namespace is gated only where its profile says so.
use mcp_assist_memory.Prelude.{
  Text, codes, text_eq, text_eq_iff, ◌↔◌, any, starts_with, Bool, true, false, not, Option, none,
  some, List, [], ◌∷◌, ◌≡◌, refl, sym, ap, ◌∙◌, arith, mem_text, Bool-cases, inl, inr, if-cases,
  if◌then◌else◌,
}
use mcp_assist_memory.Json.{Json, null, bool, int, float, str, arr, obj, Fields, get, get_field}
use mcp_assist_memory.Json.Lookup.{get_field-set_same, get_field-set_other}
use mcp_assist_memory.Gate.State.{enabled_for, exempt_key_prefixes, profile_on}
use mcp_assist_memory.Profiles.{
  default_profile, valid, choose, choose_all, passed_through, pass, pass_all, resolve_profile,
}

not-both : (s t : Text) → text_eq s t ≡ false → s ≡ t → ⊥
not-both s t h q = let e = (text_eq_iff s t).1 q in cc

text_eq-false : (s t : Text) → text_eq s t ≡ false → text_eq t s ≡ false
text_eq-false s t h = elim (Bool-cases (text_eq t s)) [
  | inl e ↦ let q = (text_eq_iff t s).0 e in absurd (not-both s t h (sym q))
  | inr e ↦ e
]

-- A choice among the valid ones: the stored text where it is one, and the default otherwise.
unfoldable pub chosen : Text → List Text → Option Json → Text
chosen d choices (some (str s)) = if mem_text s choices then s else d
chosen d choices _ = d

choose-other :
    (j k : Text) (choices : List Text) (o : Option Json) (resolved : Fields)
    → text_eq k j ≡ false
    → get_field j (choose k choices o resolved) ≡ get_field j resolved
choose-other j k choices none resolved e = refl
choose-other j k choices (some (str s)) resolved e = elim (Bool-cases (mem_text s choices)) [
  | inl q ↦ rw (q, get_field-set_other j k (str s) resolved e)
  | inr q ↦ rw q
]
choose-other j k choices (some null) resolved e = refl
choose-other j k choices (some (bool b)) resolved e = refl
choose-other j k choices (some (int s n)) resolved e = refl
choose-other j k choices (some (float b)) resolved e = refl
choose-other j k choices (some (arr vs)) resolved e = refl
choose-other j k choices (some (obj fs)) resolved e = refl

choose-same :
    (k d : Text) (choices : List Text) (o : Option Json) (resolved : Fields)
    → get_field k resolved ≡ some (str d)
    → get_field k (choose k choices o resolved) ≡ some (str (chosen d choices o))
unfolding chosen
choose-same k d choices none resolved e = e
choose-same k d choices (some (str s)) resolved e = elim (Bool-cases (mem_text s choices)) [
  | inl q ↦ rw (q, get_field-set_same k (str s) resolved)
  | inr q ↦ rw (q, e)
]
choose-same k d choices (some null) resolved e = e
choose-same k d choices (some (bool b)) resolved e = e
choose-same k d choices (some (int s n)) resolved e = e
choose-same k d choices (some (float b)) resolved e = e
choose-same k d choices (some (arr vs)) resolved e = e
choose-same k d choices (some (obj fs)) resolved e = e

abbrev Apart : Text → List (Text × List Text) → Type 0
Apart j [] = Unit {0}
Apart j ((k, choices) ∷ vs) = (text_eq k j ≡ false) × Apart j vs

choose_all-other :
    (j : Text) (vs : List (Text × List Text)) (raw resolved : Fields)
    → Apart j vs
    → get_field j (choose_all vs raw resolved) ≡ get_field j resolved
unfolding choose_all
choose_all-other j [] raw resolved a = refl
choose_all-other j ((k, choices) ∷ vs) raw resolved (e, a) =
    rw (choose_all-other j vs raw (choose k choices (get_field k raw) resolved) a)
      (choose-other j k choices (get_field k raw) resolved e)

pass-other :
    (j k : Text) (o : Option Json) (resolved : Fields)
    → text_eq k j ≡ false
    → get_field j (pass k o resolved) ≡ get_field j resolved
pass-other j k none resolved e = refl
pass-other j k (some v) resolved e = get_field-set_other j k v resolved e

pass_all-other :
    (j : Text) (ks : List Text) (raw resolved : Fields)
    → mem_text j ks ≡ false
    → get_field j (pass_all ks raw resolved) ≡ get_field j resolved
unfolding pass_all mem_text
pass_all-other j [] raw resolved e = refl
pass_all-other j (k ∷ ks) raw resolved e = elim (Bool-cases (text_eq j k)) [
  | inl q ↦ absurd (ground arith)
  | inr q ↦
      let e2 : mem_text j ks ≡ false = ground arith in
      let q2 : text_eq k j ≡ false = text_eq-false j k q in
      rw (pass_all-other j ks raw (pass k (get_field k raw) resolved) e2)
        (pass-other j k (get_field k raw) resolved q2)
]

-- A key that stands once in the table, with its choices.
pub data IsOption (k : Text) (choices : List Text) : List (Text × List Text) → Type 0 where
  here : (vs : List (Text × List Text)) → Apart k vs → IsOption k choices ((k, choices) ∷ vs)
  there :
      (j : Text) (c : List Text) (vs : List (Text × List Text))
      → text_eq j k ≡ false
      → IsOption k choices vs
      → IsOption k choices ((j, c) ∷ vs)

choose_all-chosen :
    (k d : Text) (choices : List Text) {vs : List (Text × List Text)} (raw resolved : Fields)
    → IsOption k choices vs
    → get_field k resolved ≡ some (str d)
    → get_field k (choose_all vs raw resolved) ≡ some (str (chosen d choices (get_field k raw)))
unfolding choose_all
choose_all-chosen k d choices raw resolved (here vs a) e =
    rw (choose_all-other k vs raw (choose k choices (get_field k raw) resolved) a)
      (choose-same k d choices (get_field k raw) resolved e)
choose_all-chosen k d choices raw resolved (there j c vs q o) e =
    choose_all-chosen k d choices raw (choose j c (get_field j raw) resolved) o
      (choose-other k j c (get_field j raw) resolved q ∙ e)

-- A resolved profile holds, for each option, the stored value where that is a valid choice, and the
-- default otherwise: a typo in a stored profile never gets through.
pub resolve_profile-option :
    (k d : Text) (choices : List Text) (raw : Fields)
    → IsOption k choices valid
    → get_field k default_profile ≡ some (str d)
    → mem_text k passed_through ≡ false
    → get_field k (resolve_profile raw) ≡ some (str (chosen d choices (get_field k raw)))
unfolding resolve_profile
resolve_profile-option k d choices raw o e p =
    pass_all-other k passed_through raw (choose_all valid raw default_profile) p
    ∙ choose_all-chosen k d choices raw default_profile o e

intent_gate-IsOption : IsOption (codes "intent_gate") (codes "on" ∷ codes "off" ∷ []) valid
unfolding text_eq
intent_gate-IsOption =
    there _ _ _ refl (
      there _ _ _ refl (there _ _ _ refl (there _ _ _ refl (there _ _ _ refl (here _ (refl, tt))))))

abbrev on : Text
on = codes "on"

abbrev on_off : List Text
on_off = on ∷ codes "off" ∷ []

chosen-on :
    (o : Option Json) → (text_eq (chosen (codes "off") on_off o) on ≡ true) ↔ (o ≡ some (str on))
unfolding chosen text_eq mem_text
chosen-on none = (λ h. cc, λ h. cc)
chosen-on (some null) = (λ h. cc, λ h. cc)
chosen-on (some (bool b)) = (λ h. cc, λ h. cc)
chosen-on (some (int s n)) = (λ h. cc, λ h. cc)
chosen-on (some (float b)) = (λ h. cc, λ h. cc)
chosen-on (some (arr vs)) = (λ h. cc, λ h. cc)
chosen-on (some (obj fs)) = (λ h. cc, λ h. cc)
chosen-on (some (str s)) = (
  λ h.
      if-cases (mem_text s on_off) s (codes "off") (λ x. text_eq x on ≡ true) h
        (λ q k. ap (λ (x : Text). some (str x)) ((text_eq_iff s on).0 k)) (λ q k. absurd (cc)),
  λ h. let q : s ≡ on = cc in rw q,
)

profile_on-gate :
    (raw : Fields)
    → profile_on (codes "intent_gate") (resolve_profile raw)
      ≡ text_eq (chosen (codes "off") on_off (get_field (codes "intent_gate") raw)) on
unfolding get text_eq mem_text
profile_on-gate raw =
    let e : get_field (codes "intent_gate") (resolve_profile raw)
        ≡ some (str (chosen (codes "off") on_off (get_field (codes "intent_gate") raw))) =
      resolve_profile-option (codes "intent_gate") (codes "off") on_off raw intent_gate-IsOption
        (unfold get_field in refl) refl in
    rw e

gate_test :
    (a b c : Bool)
    → ((if not a then false else if b then false else not c) ≡ true)
      ↔ ((a ≡ true) × (b ≡ false) × (c ≡ false))
gate_test a b c = ground arith

-- A write is gated exactly where the stored profile of the namespace says `"intent_gate": "on"`, the
-- writer is not the gate itself, and the key is outside the gate's own prefixes.
pub enabled_for-opted_in :
    (raw : Fields) (key actor : Text)
    → (enabled_for (resolve_profile raw) key actor ≡ true) ↔ (
        (get_field (codes "intent_gate") raw ≡ some (str (codes "on")))
        × (text_eq actor (codes "gate") ≡ false)
        × (any (starts_with key) exempt_key_prefixes ≡ false))
unfolding enabled_for
enabled_for-opted_in raw key actor =
    let k = codes "intent_gate" in
    let o = get_field k raw in
    let g = chosen-on o in
    let p = profile_on-gate raw in
    let t =
      gate_test (profile_on k (resolve_profile raw)) (text_eq actor (codes "gate"))
        (any (starts_with key) exempt_key_prefixes) in
    (λ h. let (x, y, z) = t.0 h in (g.0 (sym p ∙ x), y, z), λ (x, y, z). t.1 (p ∙ g.1 x, y, z))
