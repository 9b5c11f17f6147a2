-- ===== src/Sanitize/Wrap.antt =====
-- Unwrapping undoes wrapping.
use mcp_assist_memory.Prelude.{
  ℕ, Text, false, some, [], ◌∷◌, ◌++◌, ◌≡◌, refl, ap, arith, length, text_eq, text_eq_iff,
  Bool-cases, inl, inr, length-append, ◌≢◌,
}
use mcp_assist_memory.Json.{
  Json, null, bool, int, float, str, arr, obj, Items, nil, cons, Fields, end, field,
}
use mcp_assist_memory.Sanitize.{
  untrusted_open, untrusted_close, before_close, wrap_untrusted, strip_untrusted, wrap_value,
  wrap_items, wrap_fields, unwrap_value, unwrap_items, unwrap_fields,
}

text_eq-length : (s t : Text) → length s ≢ length t → text_eq s t ≡ false
text_eq-length s t h = elim (Bool-cases (text_eq s t)) [
  | inl e ↦ absurd (h (ap length ((text_eq_iff s t).0 e)))
  | inr e ↦ e
]

-- A text that ends in the closing marker, with something before it, is neither the closing marker
-- nor that marker with a line feed.
close_longer : (c : ℕ) (x : Text) → text_eq (c ∷ (x ++ untrusted_close)) untrusted_close ≡ false
close_longer c x =
    text_eq-length _ _ (λ e. absurd (omega (arith, e, length-append x untrusted_close)))

close_line :
    (c : ℕ) (x : Text) → text_eq (c ∷ (x ++ untrusted_close)) (untrusted_close ++ 10 ∷ []) ≡ false
close_line c [] = close_line_one c
  where
    close_line_one : (c : ℕ) → text_eq (c ∷ untrusted_close) (untrusted_close ++ 10 ∷ []) ≡ false
    close_line_one c = unfold text_eq in ground arith
close_line c (d ∷ x) =
    text_eq-length _ _ (λ e. absurd (omega (arith, e, length-append x untrusted_close)))

before_close-step :
    (c : ℕ) (x : Text)
    → before_close (x ++ untrusted_close) ≡ some x
    → before_close (c ∷ (x ++ untrusted_close)) ≡ some (c ∷ x)
unfolding before_close
before_close-step c x h = rw (close_longer c x, close_line c x, h)

strip-open :
    (r : Text) {x : Text} → before_close r ≡ some x → strip_untrusted (untrusted_open ++ r) ≡ x
unfolding strip_untrusted
strip-open r h = rw h

before_close-append : (x : Text) → before_close (x ++ untrusted_close) ≡ some x
before_close-append [] = unfold before_close in refl
before_close-append (c ∷ x) = before_close-step c x (before_close-append x)

strip_untrusted-wrap_untrusted : (s : Text) → strip_untrusted (wrap_untrusted s) ≡ s
strip_untrusted-wrap_untrusted s =
    unfold wrap_untrusted in strip-open (s ++ untrusted_close) (before_close-append s)

mutual
  unfolding wrap_value unwrap_value

  unwrap-wrap : (v : Json) → unwrap_value (wrap_value v) ≡ v
  unwrap-wrap null = refl
  unwrap-wrap (bool b) = refl
  unwrap-wrap (int s n) = refl
  unwrap-wrap (float b) = refl
  unwrap-wrap (str s) = ap str (strip_untrusted-wrap_untrusted s)
  unwrap-wrap (arr vs) = ap arr (unwrap-wrap_items vs)
  unwrap-wrap (obj fs) = ap obj (unwrap-wrap_fields fs)

  unwrap-wrap_items : (vs : Items) → unwrap_items (wrap_items vs) ≡ vs
  unwrap-wrap_items nil = refl
  unwrap-wrap_items (cons v vs) = cc (unwrap-wrap v, unwrap-wrap_items vs)

  unwrap-wrap_fields : (fs : Fields) → unwrap_fields (wrap_fields fs) ≡ fs
  unwrap-wrap_fields end = refl
  unwrap-wrap_fields (field k v fs) = cc (unwrap-wrap v, unwrap-wrap_fields fs)

-- Unwrapping what a read wrapped gives the stored value back, at any depth, whatever text it holds.
pub unwrap_value-wrap_value : (v : Json) → unwrap_value (wrap_value v) ≡ v
unwrap_value-wrap_value v = unwrap-wrap v
