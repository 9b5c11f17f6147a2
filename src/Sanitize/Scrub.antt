-- ===== src/Sanitize/Scrub.antt =====
-- What scrubbing guarantees of a stored text, and the class of texts that it turns into a marker.
use mcp_assist_memory.Prelude.{
  ℕ, zero, suc, ◌-◌, Text, codes, false, Option, none, some, [], ◌∷◌, ◌++◌, ◌≡◌, refl, arith,
  length, sym, ◌⊎◌, Option-cases, inl, inr, ◌≢◌, ◌∙◌,
}
use mcp_assist_memory.Regex.{fold}
use mcp_assist_memory.Json.{
  Json, null, bool, int, float, str, arr, obj, Items, nil, cons, Fields, end, field, set_field,
}
use mcp_assist_memory.Sanitize.{
  is_control, strip_controls, delim, delim_after, escape_delims, scrub_text, ◌>>=◌, sanitize,
  sanitize_items, sanitize_fields, after, after_folded, skip_blanks,
}

-- No control character but the tab, the line feed and the carriage return.
abbrev pub IsPrintable : Text → Type 0
IsPrintable [] = Unit
IsPrintable (c ∷ s) = (is_control c ≡ false) × IsPrintable s

strip_controls-IsPrintable : (s : Text) → IsPrintable (strip_controls s)
unfolding strip_controls
strip_controls-IsPrintable [] = tt
strip_controls-IsPrintable (c ∷ s) = ground (arith, strip_controls-IsPrintable s)

-- Every text of a value, its keys included, is printable.
abbrev mutual
  pub AllPrintable : Json → Type 0
  AllPrintable null = Unit
  AllPrintable (bool b) = Unit
  AllPrintable (int s n) = Unit
  AllPrintable (float b) = Unit
  AllPrintable (str s) = IsPrintable s
  AllPrintable (arr vs) = AllPrintableItems vs
  AllPrintable (obj fs) = AllPrintableFields fs

  pub AllPrintableItems : Items → Type 0
  AllPrintableItems nil = Unit
  AllPrintableItems (cons v vs) = AllPrintable v × AllPrintableItems vs

  pub AllPrintableFields : Fields → Type 0
  AllPrintableFields end = Unit
  AllPrintableFields (field k v fs) = IsPrintable k × AllPrintable v × AllPrintableFields fs

scrub_text-IsPrintable : (s : Text) → IsPrintable (scrub_text s)
unfolding scrub_text
scrub_text-IsPrintable s = strip_controls-IsPrintable (escape_delims zero s)

set_field-AllPrintable :
    (k : Text) (v : Json) (fs : Fields)
    → IsPrintable k
    → AllPrintable v
    → AllPrintableFields fs
    → AllPrintableFields (set_field k v fs)
unfolding set_field
set_field-AllPrintable k v end hk hv h = (hk, hv, tt)
set_field-AllPrintable k v (field j w fs) hk hv h = ground (arith, set_field-AllPrintable k v fs)

mutual
  unfolding sanitize

  printable : (v : Json) → AllPrintable (sanitize v)
  printable null = tt
  printable (bool b) = tt
  printable (int s n) = tt
  printable (float b) = tt
  printable (str s) = scrub_text-IsPrintable s
  printable (arr vs) = printable_items vs
  printable (obj fs) = printable_fields end fs tt

  printable_items : (vs : Items) → AllPrintableItems (sanitize_items vs)
  printable_items nil = tt
  printable_items (cons v vs) = (printable v, printable_items vs)

  printable_fields :
      (done fs : Fields) → AllPrintableFields done → AllPrintableFields (sanitize_fields done fs)
  printable_fields done end h = h
  printable_fields done (field k v fs) h = printable_fields _ fs (
      set_field-AllPrintable (scrub_text k) (sanitize v) done (scrub_text-IsPrintable k)
        (printable v) h)

-- No text of a sanitized value, at any depth and in a key or a value, has a control character but the
-- tab, the line feed and the carriage return.
pub sanitize-AllPrintable : (v : Json) → AllPrintable (sanitize v)
sanitize-AllPrintable v = printable v

-- No delimiter begins anywhere in the text.
abbrev pub NoDelim : Text → Type 0
NoDelim [] = Unit
NoDelim (c ∷ s) = (delim (c ∷ s) ≡ none) × NoDelim s

abbrev NoBracket : Text → Type 0
NoBracket [] = Unit
NoBracket (c ∷ s) = (c ≢ 91) × NoBracket s

-- A delimiter begins with `<`.
pub delim-ne : (c : ℕ) (s : Text) → c ≢ 60 → delim (c ∷ s) ≡ none
unfolding delim delim_after after
delim-ne c s h = ground arith

-- No character begins a delimiter.
abbrev NoAngle : Text → Type 0
NoAngle [] = Unit
NoAngle (c ∷ s) = (c ≢ 60) × NoAngle s

NoDelim-append : (p t : Text) → NoAngle p → NoDelim t → NoDelim (p ++ t)
NoDelim-append [] t h n = n
NoDelim-append (c ∷ p) t h n = (delim-ne c (p ++ t) h.0, NoDelim-append p t h.1 n)

escape-skip : (n c : ℕ) (s : Text) → escape_delims (suc n) (c ∷ s) ≡ escape_delims n s
unfolding escape_delims
escape-skip n c s = refl

pub escape-none :
    (c : ℕ) (s : Text)
    → delim (c ∷ s) ≡ none
    → escape_delims zero (c ∷ s) ≡ c ∷ escape_delims zero s
unfolding escape_delims
escape-none c s h = ground arith

escape-some :
    (c : ℕ) (s : Text) {m : Text × Text}
    → delim (c ∷ s) ≡ some m
    → escape_delims zero (c ∷ s) ≡ m.0 ++ escape_delims (length s - length m.1) s
unfolding escape_delims
escape-some c s h = ground arith

-- What is put in the place of a delimiter.
delim-replacement :
    (s : Text) {m : Text × Text}
    → delim s ≡ some m
    → (m.0 ≡ codes "[[UNTRUSTED_DATA]]") ⊎ (m.0 ≡ codes "[[END]]")
unfolding delim
delim-replacement s h = ground arith

bracket_first :
    (s : Text) (c : ℕ) (t r : Text) {m : Text × Text} → delim s ≡ some m → m.0 ++ t ≡ c ∷ r → c ≡ 91
bracket_first s c t r h e = elim (delim-replacement s h) [ inl q ↦ cc (q) | inr q ↦ cc (q) ]

-- A character that begins an escaped text is a bracket, or it was kept.
kept :
    (d : ℕ) (s r : Text)
    → d ≢ 91
    → escape_delims zero s ≡ d ∷ r
    → (s' : Text) × (s ≡ d ∷ s') × (r ≡ escape_delims zero s')
kept d [] r h e = unfold escape_delims in cc
kept d (c ∷ s) r h e = elim (Option-cases (delim (c ∷ s))) [
  | inl no_match ↦ (s, cc (escape-none c s no_match), cc (escape-none c s no_match))
  | inr (m, found) ↦
      absurd (h (bracket_first (c ∷ s) d _ r found (sym (escape-some c s found) ∙ e)))
]

after_split :
    (d : ℕ) (p t : Text) {r : Text}
    → after (d ∷ p) t ≡ some r
    → (t' : Text) × (t ≡ d ∷ t') × (after p t' ≡ some r)
unfolding after
after_split d p [] e = cc
after_split d p (c ∷ t) e = (t, ground arith, ground arith)

after_join : (d : ℕ) (p t : Text) {r : Text} → after p t ≡ some r → after (d ∷ p) (d ∷ t) ≡ some r
unfolding after
after_join d p t e = ground arith

folded_split :
    (d : ℕ) (p t : Text) {r : Text}
    → after_folded (d ∷ p) t ≡ some r
    → (c : ℕ) × (t' : Text) × (t ≡ c ∷ t') × (d ≡ fold c) × (after_folded p t' ≡ some r)
unfolding after_folded
folded_split d p [] e = cc
folded_split d p (c ∷ t) e = (c, t, refl, ground arith, ground arith)

folded_join :
    (c d : ℕ) (p t : Text) {r : Text}
    → d ≡ fold c
    → after_folded p t ≡ some r
    → after_folded (d ∷ p) (c ∷ t) ≡ some r
unfolding after_folded
folded_join c d p t q e = ground arith

fold-ne : (c d : ℕ) → d ≢ 91 → d ≡ fold c → c ≢ 91
unfolding fold
fold-ne c d h q e = ground arith

-- A literal with no bracket that begins an escaped text began the text itself.
after_escape :
    (p s : Text) {r : Text}
    → NoBracket p
    → after p (escape_delims zero s) ≡ some r
    → (s' : Text) × (after p s ≡ some s') × (r ≡ escape_delims zero s')
after_escape [] s h e = unfold after in (s, refl, cc)
after_escape (d ∷ p) s h e =
    let (t', q, e') = after_split d p (escape_delims zero s) e in
    let (s', qs, qr) = kept d s t' h.0 q in
    let (u, a, b) = after_escape p s' h.1 (rw qr at e') in (u, rw qs (after_join d p s' a), b)

folded_escape :
    (p s : Text) {r : Text}
    → NoBracket p
    → after_folded p (escape_delims zero s) ≡ some r
    → (s' : Text) × (after_folded p s ≡ some s') × (r ≡ escape_delims zero s')
folded_escape [] s h e = unfold after_folded in (s, refl, cc)
folded_escape (d ∷ p) s h e =
    let (c, t', q, f, e') = folded_split d p (escape_delims zero s) e in
    let (s', qs, qr) = kept c s t' (fold-ne c d h.0 f) q in
    let (u, a, b) = folded_escape p s' h.1 (rw qr at e') in (u, rw qs (folded_join c d p s' f a), b)

skip_kept :
    (c : ℕ) (s : Text)
    → skip_blanks (escape_delims zero s) ≡ escape_delims zero (skip_blanks s)
    → delim (c ∷ s) ≡ none
    → skip_blanks (c ∷ escape_delims zero s) ≡ escape_delims zero (skip_blanks (c ∷ s))
unfolding skip_blanks
skip_kept c s ih h = ground (arith, escape-none c s h)

bracket_stays :
    (s : Text) {m : Text × Text} (t : Text) → delim s ≡ some m → skip_blanks (m.0 ++ t) ≡ m.0 ++ t
unfolding skip_blanks
bracket_stays s t h = elim (delim-replacement s h) [ inl q ↦ rw q | inr q ↦ rw q ]

skip_found :
    (c : ℕ) (s : Text) {m : Text × Text} → delim (c ∷ s) ≡ some m → skip_blanks (c ∷ s) ≡ c ∷ s
unfolding skip_blanks
skip_found c s h = ground (arith, delim-ne c s)

skip_escape : (s : Text) → skip_blanks (escape_delims zero s) ≡ escape_delims zero (skip_blanks s)
skip_escape [] = unfold skip_blanks escape_delims in refl
skip_escape (c ∷ s) = elim (Option-cases (delim (c ∷ s))) [
  | inl no_match ↦ rw (escape-none c s no_match) (skip_kept c s (skip_escape s) no_match)
  | inr (m, found) ↦
      rw (skip_found c s found, escape-some c s found) (bracket_stays (c ∷ s) _ found)
]

Bind-some :
    {A B : Type 0} (m : Option A) (f : A → Option B) {b : B}
    → (m >>= f) ≡ some b
    → (a : A) × (m ≡ some a) × (f a ≡ some b)
Bind-some none f h = cc
Bind-some (some a) f h = (a, refl, h)

delim_after_split :
    (name t : Text) {r : Text}
    → delim_after name t ≡ some r
    → (t₁ : Text) × (t₂ : Text) × (after (codes "<<<") t ≡ some t₁)
      × (after_folded name (skip_blanks t₁) ≡ some t₂)
      × (after (codes ">>>") (skip_blanks t₂) ≡ some r)
unfolding delim_after
delim_after_split name t e =
    let (t₁, e₁, rest) = Bind-some _ _ e in
    let (t₂, e₂, e₃) = Bind-some _ _ rest in (t₁, t₂, e₁, e₂, e₃)

delim_after_join :
    (name t t₁ t₂ : Text) {r : Text}
    → after (codes "<<<") t ≡ some t₁
    → after_folded name (skip_blanks t₁) ≡ some t₂
    → after (codes ">>>") (skip_blanks t₂) ≡ some r
    → delim_after name t ≡ some r
unfolding delim_after
delim_after_join name t t₁ t₂ e₁ e₂ e₃ = rw (e₁, e₂) e₃

-- A delimiter in an escaped text would have been one in the text.
delim_after_escape :
    (name s : Text) {r : Text}
    → NoBracket name
    → delim_after name (escape_delims zero s) ≡ some r
    → (s' : Text) × (delim_after name s ≡ some s')
delim_after_escape name s {r} h e =
    let (t₁, t₂, e₁, e₂, e₃) = delim_after_split name (escape_delims zero s) e in
    let (s₁, a₁, q₁) = after_escape (codes "<<<") s (omega arith) e₁ in
    let (s₂, a₂, q₂) =
      folded_escape name (skip_blanks s₁) {r = t₂} h (rw (← skip_escape s₁, ← q₁) e₂) in
    let (s₃, a₃, q₃) =
      after_escape (codes ">>>") (skip_blanks s₂) {r = r} (omega arith)
        (rw (← skip_escape s₂, ← q₂) e₃) in
    (s₃, delim_after_join name s s₁ s₂ a₁ a₂ a₃)

delim-none_of :
    (s : Text)
    → ((r : Text) → delim_after (codes "untrusted_data") s ≢ some r)
    → ((r : Text) → delim_after (codes "end") s ≢ some r)
    → delim s ≡ none
unfolding delim
delim-none_of s p q = elim (Option-cases (delim_after (codes "untrusted_data") s)) [
  | inl e ↦ elim (Option-cases (delim_after (codes "end") s)) [
    | inl e' ↦ ground arith
    | inr (r, e') ↦ absurd (q r e')
  ]
  | inr (r, e) ↦ absurd (p r e)
]

delim-none_to :
    (s r : Text)
    → delim s ≡ none
    → (delim_after (codes "untrusted_data") s ≢ some r) × (delim_after (codes "end") s ≢ some r)
unfolding delim
delim-none_to s r h = (λ e. ground arith, λ e. ground arith)

delim-escape : (s : Text) → delim s ≡ none → delim (escape_delims zero s) ≡ none
delim-escape s h =
    delim-none_of (escape_delims zero s)
      (λ r e.
        let (s', q) = delim_after_escape (codes "untrusted_data") s {r = r} (omega arith) e in
        (delim-none_to s s' h).0 q)
      (λ r e.
        let (s', q) = delim_after_escape (codes "end") s {r = r} (omega arith) e in
        (delim-none_to s s' h).1 q)

replaced-NoDelim :
    (s t : Text) {m : Text × Text} → delim s ≡ some m → NoDelim t → NoDelim (m.0 ++ t)
replaced-NoDelim s t h n = elim (delim-replacement s h) [
  | inl q ↦ rw q (NoDelim-append (codes "[[UNTRUSTED_DATA]]") t (omega arith) n)
  | inr q ↦ rw q (NoDelim-append (codes "[[END]]") t (omega arith) n)
]

-- Escaping leaves no delimiter anywhere.
escape_delims-NoDelim : (skip : ℕ) (s : Text) → NoDelim (escape_delims skip s)
escape_delims-NoDelim skip [] = unfold escape_delims in tt
escape_delims-NoDelim (suc n) (c ∷ s) = rw escape-skip (escape_delims-NoDelim n s)
escape_delims-NoDelim zero (c ∷ s) = elim (Option-cases (delim (c ∷ s))) [
  | inl no_match ↦ rw (escape-none c s no_match) (
    rw (escape-none c s no_match) at (delim-escape (c ∷ s) no_match),
    escape_delims-NoDelim zero s,
  )
  | inr (m, found) ↦
      rw (escape-some c s found)
        (replaced-NoDelim (c ∷ s) _ found (escape_delims-NoDelim (length s - length m.1) s))
]

strip_controls_same : (s : Text) → IsPrintable s → strip_controls s ≡ s
unfolding strip_controls
strip_controls_same [] h = refl
strip_controls_same (c ∷ s) h = ground (arith, strip_controls_same s)

IsPrintable-append : (p t : Text) → IsPrintable p → IsPrintable t → IsPrintable (p ++ t)
IsPrintable-append [] t h n = n
IsPrintable-append (c ∷ p) t h n = (h.0, IsPrintable-append p t h.1 n)

replaced-IsPrintable :
    (s t : Text) {m : Text × Text} → delim s ≡ some m → IsPrintable t → IsPrintable (m.0 ++ t)
replaced-IsPrintable s t h n = elim (delim-replacement s h) [
  | inl q ↦ rw q (IsPrintable-append (codes "[[UNTRUSTED_DATA]]") t (ground arith) n)
  | inr q ↦ rw q (IsPrintable-append (codes "[[END]]") t (ground arith) n)
]

escape_delims-IsPrintable :
    (skip : ℕ) (s : Text) → IsPrintable s → IsPrintable (escape_delims skip s)
escape_delims-IsPrintable skip [] h = unfold escape_delims in tt
escape_delims-IsPrintable (suc n) (c ∷ s) h = rw escape-skip (escape_delims-IsPrintable n s h.1)
escape_delims-IsPrintable zero (c ∷ s) h = elim (Option-cases (delim (c ∷ s))) [
  | inl no_match ↦ rw (escape-none c s no_match) (h.0, escape_delims-IsPrintable zero s h.1)
  | inr (m, found) ↦ rw (escape-some c s found) (
      replaced-IsPrintable (c ∷ s) _ found
        (escape_delims-IsPrintable (length s - length m.1) s h.1))
]

scrub_text_printable : (s : Text) → IsPrintable s → scrub_text s ≡ escape_delims zero s
scrub_text_printable s h =
    unfold scrub_text in strip_controls_same _ (escape_delims-IsPrintable zero s h)

-- Where the written text has no control character, the stored text has no delimiter: at no position
-- of it does a marker begin, in any case and with any blanks inside.
pub scrub_text-NoDelim : (s : Text) → IsPrintable s → NoDelim (scrub_text s)
scrub_text-NoDelim s h = rw (scrub_text_printable s h) (escape_delims-NoDelim zero s)
