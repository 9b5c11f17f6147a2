-- ===== src/Json/Order.antt =====
-- The order of texts by code points is a strict total order.
use mcp_assist_memory.Prelude.{Text, text_eq, true, false, [], ◌∷◌, ◌≡◌, refl, arith}
use mcp_assist_memory.Json.{text_lt}

pub text_lt-irreflexive : (a : Text) → text_lt a a ≡ false
unfolding text_lt
text_lt-irreflexive [] = refl
text_lt-irreflexive (c ∷ a) = ground (arith, text_lt-irreflexive a)

pub text_lt-transitive :
    (a b c : Text) → text_lt a b ≡ true → text_lt b c ≡ true → text_lt a c ≡ true
unfolding text_lt
text_lt-transitive [] [] c h g = cc
text_lt-transitive [] (x ∷ b) [] h g = cc
text_lt-transitive [] (x ∷ b) (z ∷ c) h g = refl
text_lt-transitive (x ∷ a) [] c h g = cc
text_lt-transitive (x ∷ a) (y ∷ b) [] h g = cc
text_lt-transitive (x ∷ a) (y ∷ b) (z ∷ c) h g = ground (arith, text_lt-transitive a b c)

pub text_lt-total : (a b : Text) → text_lt a b ≡ false → text_eq a b ≡ false → text_lt b a ≡ true
unfolding text_lt text_eq
text_lt-total [] [] h g = cc
text_lt-total [] (x ∷ b) h g = cc
text_lt-total (x ∷ a) [] h g = refl
text_lt-total (x ∷ a) (y ∷ b) h g = ground (arith, text_lt-total a b)
