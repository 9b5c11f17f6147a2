-- ===== src/Store/Listing/Like.antt =====
-- The prefix clause of `memory_list_page`: an escaped prefix is a prefix, never a pattern.
use mcp_assist_memory.Prelude.{
  ℕ, Text, Bool, true, false, [], ◌∷◌, ◌++◌, ◌==◌, starts_with, ◌≡◌, ◌∙◌, refl, arith, Bool-cases,
  inl, inr,
}
use mathlib.Core.List.{append_assoc}
use mcp_assist_memory.Store.Listing.{
  escaped_code, escape_like, like_from, like, percent, some_suffix, is_empty, eat,
}

some_suffix-any : (s : Text) → some_suffix is_empty s ≡ true
unfolding some_suffix
some_suffix-any [] = refl
some_suffix-any (c ∷ s) = ground (arith, some_suffix-any s)

like_from-any : (s : Text) → like_from false percent s ≡ true
unfolding like_from
like_from-any s = some_suffix-any s

eat-starts_with :
    (c : ℕ) (p : Text) (f : Text → Bool) (s : Text)
    → ((t : Text) → f t ≡ starts_with t p)
    → eat c f s ≡ starts_with s (c ∷ p)
unfolding starts_with
eat-starts_with c p f [] h = refl
eat-starts_with c p f (d ∷ s) h = ground (arith, h s)

like_from-escaped :
    (c : ℕ) (ps s : Text) → like_from false (escaped_code c ++ ps) s ≡ eat c (like_from false ps) s
unfolding escaped_code like_from
like_from-escaped c ps s = elim (Bool-cases (c == 92)) [
  | inl a ↦ rw a (ground arith)
  | inr a ↦ elim (Bool-cases (c == 37)) [
    | inl b ↦ rw (a, b) (ground arith)
    | inr b ↦ elim (Bool-cases (c == 95)) [
      | inl d ↦ rw (a, b, d) (ground arith)
      | inr d ↦ rw (a, b, d, b, d, a)
    ]
  ]
]

append_assoc_like :
    (c : ℕ) (p s : Text)
    → like_from false ((escaped_code c ++ escape_like p) ++ percent) s
      ≡ like_from false (escaped_code c ++ (escape_like p ++ percent)) s
append_assoc_like c p s = rw append_assoc

-- An escaped prefix with a percent sign behind it matches exactly the texts that begin with the
-- prefix, also where the prefix has a percent sign, an underscore or a backslash.
pub like-escape_like : (p s : Text) → like (escape_like p ++ percent) s ≡ starts_with s p
unfolding escape_like starts_with
like-escape_like [] [] = like_from-any []
like-escape_like [] (c ∷ s) = like_from-any (c ∷ s)
like-escape_like (c ∷ p) s =
    let e =
      eat-starts_with c p (like_from false (escape_like p ++ percent)) s (like-escape_like p) in
    append_assoc_like c p s ∙ like_from-escaped c (escape_like p ++ percent) s ∙ e
