-- ===== src/ShaEquiv.antt =====
-- storage/sha_equiv.py: the one rule by which commit references are compared, the validation of a
-- reference at the write boundary, and its best-effort resolution to the full name.
pub mod Rule
pub mod Boundary
pub mod Tests
use mcp_assist_memory.Prelude.{
  ℕ, Text, Bool, true, false, Option, none, some, List, [], ◌∷◌, ◌&&◌, ◌||◌, ltb, leb, ◌==◌, length,
  lower, lower_code, text_eq, starts_with, all, if◌then◌else◌,
}
use mcp_assist_memory.Errors.{Code}
use mcp_assist_memory.Result.{Result, ok, err, ◌>>=◌, ◌>>◌, raise, raise_if}

abbrev pub full_sha_len : ℕ
full_sha_len = 40

abbrev pub min_abbrev_len : ℕ
min_abbrev_len = 7

-- `c in string.hexdigits`
unfoldable pub is_hex_digit : ℕ → Bool
is_hex_digit c = (leb 48 c && leb c 57) || (leb 97 c && leb c 102) || (leb 65 c && leb c 70)

-- What a caller may pass as a reference: a text, or a JSON value that is no text.
pub data Ref : Type 0 where
  text : Text → Ref
  other : Ref

unfoldable pub is_hex_text : Text → Bool
unfolding is_hex_digit all
is_hex_text [] = false
is_hex_text (c ∷ s) = all is_hex_digit (c ∷ s)

unfoldable pub is_hex_ref : Ref → Bool
unfolding is_hex_text
is_hex_ref (text s) = is_hex_text s
is_hex_ref other = false

-- The comparison of `sha_match` once both sides are in lower case.
unfoldable pub prefix_match : Text → Text → Bool
prefix_match a b =
    if leb (length a) (length b)
    then leb min_abbrev_len (length a) && starts_with b a
    else leb min_abbrev_len (length b) && starts_with a b

-- `not a` for an optional text
abbrev pub absent : Option Text → Bool
absent none = true
absent (some []) = true
absent (some (c ∷ s)) = false

unfoldable pub text_match : Text → Text → Bool
unfolding prefix_match
text_match a b = prefix_match (lower a) (lower b)

unfoldable pub sha_match : Option Text → Option Text → Bool
unfolding text_match
sha_match (some (c ∷ a)) (some (d ∷ b)) = text_match (c ∷ a) (d ∷ b)
sha_match _ _ = false

unfoldable pub equivalent : Option Text → Option Text → Bool
unfolding text_match
equivalent (some (c ∷ a)) (some (d ∷ b)) =
    if text_eq (lower (c ∷ a)) (lower (d ∷ b)) then true else text_match (c ∷ a) (d ∷ b)
equivalent _ _ = false

unfoldable pub validate_ref : Ref → Result Text
unfolding is_hex_text
validate_ref other = raise Code.invalid_sha
validate_ref (text s) = do
  raise_if (if is_hex_text s then false else true) Code.invalid_sha
  raise_if (ltb full_sha_len (length s)) Code.invalid_sha
  raise_if (ltb (length s) min_abbrev_len) Code.invalid_sha
  ok (lower s)

-- What `await commit_sha(repo, ref)` did within its two seconds.
pub data Answer : Type 0 where
  resolved : Ref → Answer
  ambiguous : Answer
  timed_out : Answer
  failed : Answer

-- The resolver as `canonicalize` sees it: `None`, disabled, without `commit_sha`, or able to answer.
pub data Lookup : Type 0 where
  unavailable : Lookup
  asks : (Text → Text → Answer) → Lookup

-- The test on the answer, and the pair that is returned.
unfoldable pub accept : Text → Ref → Text × Option Text
unfolding is_hex_ref sha_match
accept ref other = (ref, none)
accept ref (text full) =
    if is_hex_ref (text full) && length full == full_sha_len && sha_match (some ref) (some full)
    then (lower full, some (lower full))
    else (ref, none)

abbrev outcome : Text → Answer → Result (Text × Option Text)
outcome ref (resolved full) = ok (accept ref full)
outcome ref ambiguous = raise Code.ambiguous_sha
outcome ref timed_out = ok (ref, none)
outcome ref failed = ok (ref, none)

abbrev lookup_ref : Text → Option Text → Lookup → Result (Text × Option Text)
lookup_ref ref (some (c ∷ repo)) (asks commit_sha) = outcome ref (commit_sha (c ∷ repo) ref)
lookup_ref ref _ _ = ok (ref, none)

unfoldable pub canonicalize : Text → Option Text → Lookup → Result (Text × Option Text)
unfolding accept
canonicalize ref repo resolver =
    if length ref == full_sha_len then ok (ref, some ref) else lookup_ref ref repo resolver
