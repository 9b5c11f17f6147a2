-- ===== src/ShaEquiv/Boundary.antt =====
-- What passes the write boundary: a validated reference, and what its resolution may turn it into.
use mcp_assist_memory.Prelude.{
  ℕ, ◌≤◌, Text, true, Option, none, some, [], ◌∷◌, ◌≡◌, refl, ◌≢◌, sym, ◌↔◌, ◌⊎◌, arith, ◌==◌,
  length, lower, lower_code, all, Bool-cases, inl, inr, ◌&&◌,
}
use mcp_assist_memory.Errors.{Code}
use mcp_assist_memory.Result.{Result, ok, raise}
use mcp_assist_memory.ShaEquiv.{
  Ref, text, other, is_hex_digit, is_hex_text, sha_match, validate_ref, accept, outcome, lookup_ref,
  canonicalize, Lookup, asks, unavailable, Answer, resolved, ambiguous, timed_out, failed,
}
use mcp_assist_memory.ShaEquiv.Rule.{length-lower, lower-lower, sha_match_refl, sha_match-lower}

-- A reference as it is stored: lower-case hexadecimal, 7 to 40 characters.
pub record IsStored (s : Text) : Type 0 where
  pub hex : is_hex_text s ≡ true
  pub lowered : lower s ≡ s
  pub long : 7 ≤ length s
  pub short : length s ≤ 40

hex-lower_code : (c : ℕ) → is_hex_digit c ≡ true → is_hex_digit (lower_code c) ≡ true
unfolding is_hex_digit lower_code
hex-lower_code c h = ground arith

all-lower : (s : Text) → all is_hex_digit s ≡ true → all is_hex_digit (lower s) ≡ true
unfolding all lower
all-lower [] h = refl
all-lower (c ∷ s) h = ground (arith, hex-lower_code c, all-lower s)

hex-lower : (s : Text) → is_hex_text s ≡ true → is_hex_text (lower s) ≡ true
unfolding is_hex_text lower
hex-lower [] h = cc
hex-lower (c ∷ s) h = all-lower (c ∷ s) h

-- A reference is accepted exactly when it is a hexadecimal text of 7 to 40 characters, and then it
-- comes back in lower case.
pub validate_ref_iff :
    (s n : Text)
    → (validate_ref (text s) ≡ ok n)
      ↔ ((is_hex_text s ≡ true) × (7 ≤ length s) × (length s ≤ 40) × (n ≡ lower s))
unfolding validate_ref
validate_ref_iff s n = (λ h. ground arith, λ h. ground arith)

-- Whatever is refused is refused with `invalid_sha`.
pub validate_ref_error :
    (r : Ref) → ((n : Text) → validate_ref r ≢ ok n) → validate_ref r ≡ raise Code.invalid_sha
unfolding validate_ref
validate_ref_error other h = refl
validate_ref_error (text s) h = ground (arith, h (lower s))

validate_ref-other : (n : Text) → validate_ref other ≢ ok n
unfolding validate_ref
validate_ref-other n h = cc

-- What is accepted can be stored.
pub validate_ref-IsStored : (r : Ref) (n : Text) → validate_ref r ≡ ok n → IsStored n
validate_ref-IsStored other n h = absurd (validate_ref-other n h)
validate_ref-IsStored (text s) n h =
    let (hex, long, short, e) = (validate_ref_iff s n).0 h in
    record {
      hex = rw e (hex-lower s hex);
      lowered = rw e (lower-lower s);
      long = rw e (rw length-lower long);
      short = rw e (rw length-lower short);
    }

-- Validation is idempotent: what is stored passes unchanged.
pub validate_ref_stored : (s : Text) → IsStored s → validate_ref (text s) ≡ ok s
validate_ref_stored s h = (validate_ref_iff s s).1 (h.hex, h.long, h.short, sym h.lowered)

-- The pair that a resolution returns: nothing is known beyond the reference, or the full name, which
-- the reference abbreviates.
pub record IsResolution (ref : Text) (r : Text × Option Text) : Type 0 where
  pub stored : IsStored r.0
  pub same_commit : sha_match (some ref) (some r.0) ≡ true
  pub kept : r.1 ≡ none → r.0 ≡ ref
  pub full : (x : Text) → r.1 ≡ some x → (x ≡ r.0) × (length x ≡ 40)

kept-IsResolution : (ref : Text) → IsStored ref → IsResolution ref (ref, none)
kept-IsResolution ref h = record {
  stored = h;
  same_commit = sha_match_refl ref h.long;
  kept = λ _. refl;
  full = λ x e. cc;
}

accept-IsResolution :
    (ref : Text) (answer : Ref) → IsStored ref → IsResolution ref (accept ref answer)
unfolding accept
accept-IsResolution ref other h = kept-IsResolution ref h
accept-IsResolution ref (text full) h =
    elim (Bool-cases (is_hex_text full && length full == 40 && sha_match (some ref) (some full))) [
      | inl e ↦ rw e (taken (ground arith) (ground arith) (ground arith))
      | inr e ↦ rw e (kept-IsResolution ref h)
    ]
  where
    taken :
        is_hex_text full ≡ true
        → length full ≡ 40
        → sha_match (some ref) (some full) ≡ true
        → IsResolution ref (lower full, some (lower full))
    taken hex forty m = record {
      stored = record {
        hex = hex-lower full hex;
        lowered = lower-lower full;
        long = omega (arith, length-lower full);
        short = omega (arith, length-lower full);
      };
      same_commit = sha_match-lower ref full m;
      kept = λ e. cc;
      full = λ x e. (cc, ground (arith, length-lower full));
    }

abbrev pub Resolves : Text → Result (Text × Option Text) → Type 0
Resolves ref out =
    (out ≡ raise Code.ambiguous_sha)
    ⊎ ((r : Text × Option Text) × (out ≡ ok r) × IsResolution ref r)

outcome-Resolves : (ref : Text) (a : Answer) → IsStored ref → Resolves ref (outcome ref a)
outcome-Resolves ref (resolved full) h = inr (accept ref full, refl, accept-IsResolution ref full h)
outcome-Resolves ref ambiguous h = inl refl
outcome-Resolves ref timed_out h = inr ((ref, none), refl, kept-IsResolution ref h)
outcome-Resolves ref failed h = inr ((ref, none), refl, kept-IsResolution ref h)

lookup-Resolves :
    (ref : Text) (repo : Option Text) (resolver : Lookup)
    → IsStored ref
    → Resolves ref (lookup_ref ref repo resolver)
lookup-Resolves ref (some (c ∷ repo)) (asks f) h = outcome-Resolves ref (f (c ∷ repo) ref) h
lookup-Resolves ref (some (c ∷ repo)) unavailable h =
    inr ((ref, none), refl, kept-IsResolution ref h)
lookup-Resolves ref (some []) resolver h = inr ((ref, none), refl, kept-IsResolution ref h)
lookup-Resolves ref none resolver h = inr ((ref, none), refl, kept-IsResolution ref h)

-- For a validated reference, resolution either raises `ambiguous_sha` or returns a pair: what it says
-- to store can be stored, names the same commit, is the reference itself where nothing was resolved,
-- and is a full name of 40 characters where something was.
pub canonicalize_lem :
    (ref : Text) (repo : Option Text) (resolver : Lookup)
    → IsStored ref
    → (canonicalize ref repo resolver ≡ raise Code.ambiguous_sha)
      ⊎ ((r : Text × Option Text) × (canonicalize ref repo resolver ≡ ok r) × IsResolution ref r)
unfolding canonicalize
canonicalize_lem ref repo resolver h = elim (Bool-cases (length ref == 40)) [
  | inl e ↦ inr (
    (ref, some ref),
    rw e,
    record {
      stored = h;
      same_commit = sha_match_refl ref h.long;
      kept = λ q. cc;
      full = λ x q. (cc, ground arith);
    },
  )
  | inr e ↦ rw e (lookup-Resolves ref repo resolver h)
]
