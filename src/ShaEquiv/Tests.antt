-- ===== src/ShaEquiv/Tests.antt =====
-- The rule on commit names at concrete names.
use mcp_assist_memory.Prelude.{
  ◌≤◌, Text, codes, true, Option, some, ◌≡◌, refl, ◌↔◌, ◌⊎◌, arith, length, lower, all, starts_with,
}
use mcp_assist_memory.Errors.{Code}
use mcp_assist_memory.Result.{ok, raise}
use mcp_assist_memory.ShaEquiv.{
  text, is_hex_text, sha_match, validate_ref, canonicalize, Lookup, asks, resolved,
}
use mcp_assist_memory.ShaEquiv.Rule.{Begins, sha_match_iff}
use mcp_assist_memory.ShaEquiv.Boundary.{IsStored, IsResolution, validate_ref_iff, canonicalize_lem}

abbrev short : Text
short = codes "ABCDEF1"

abbrev long : Text
long = codes "abcdef12"

sha_match_iff_example : (sha_match (some short) (some long) ≡ true) ↔ (
    (7 ≤ length short)
    × (7 ≤ length long)
    × (Begins (lower short) (lower long) ⊎ Begins (lower long) (lower short)))
sha_match_iff_example = sha_match_iff short long

short_matches : sha_match (some short) (some long) ≡ true
unfolding sha_match lower starts_with
short_matches = refl

long_matches : sha_match (some long) (some long) ≡ true
unfolding sha_match lower starts_with
long_matches = refl

validate_ref_iff_example : (validate_ref (text short) ≡ ok (lower short)) ↔ (
    (is_hex_text short ≡ true)
    × (7 ≤ length short)
    × (length short ≤ 40)
    × (lower short ≡ lower short))
validate_ref_iff_example = validate_ref_iff short (lower short)

long_stored : IsStored long
unfolding is_hex_text all lower
long_stored = record { hex = refl; lowered = refl; long = omega arith; short = omega arith }

abbrev github : Lookup
github = asks (λ repo ref. resolved (text (codes "abcdef1234abcdef1234abcdef1234abcdef1234")))

canonicalize_example :
    (canonicalize long (some (codes "a/b")) github ≡ raise Code.ambiguous_sha)
    ⊎ ((r : Text × Option Text) × (canonicalize long (some (codes "a/b")) github ≡ ok r)
        × IsResolution long r)
canonicalize_example = canonicalize_lem long (some (codes "a/b")) github long_stored
