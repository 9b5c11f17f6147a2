-- ===== src/Store/Boundary/Laws.antt =====
-- What the write boundary lets into the indexed columns.
use mcp_assist_memory.Prelude.{
  Text, codes, Bool, true, false, not, Option, none, some, ◌≡◌, refl, sym, subst, Bool-cases, inl,
  inr, text_eq,
}
use mcp_assist_memory.Errors.{Code}
use mcp_assist_memory.Result.{ok, >>=-ok, >>-ok, raise_if}
use mcp_assist_memory.Json.{
  Json, null, bool, int, float, str, arr, obj, Fields, end, field, get, set_field,
}
use mcp_assist_memory.Json.Lookup.{get-set_same, get-set_other}
use mcp_assist_memory.ShaEquiv.{Lookup, validate_ref, canonicalize}
use mcp_assist_memory.ShaEquiv.Boundary.{IsStored, validate_ref-IsStored, canonicalize_lem}
use mcp_assist_memory.Store.Rows.{MetaColumns}
use mcp_assist_memory.Store.Boundary.{
  temporal_modes, none_or_in, as_ref, as_repo, differs, check_attestation, canonical_field,
  put_repo_sha, put_base_sha, boundary_fields, boundary_meta, split_meta,
  declarable_evidence_states,
}

-- a column that holds a commit: nothing, or a text that can be stored
abbrev pub IsShaColumn : Option Json → Type 0
IsShaColumn none = Unit {0}
IsShaColumn (some (str s)) = IsStored s
IsShaColumn (some _) = ⊥

canonical_field-get :
    (k k_input : Text) (ref : Json) (new : Text) (out : Fields)
    → text_eq k_input k ≡ false
    → get k (canonical_field k k_input ref new out) ≡ some (str new)
unfolding canonical_field
canonical_field-get k k_input ref new out e = elim (Bool-cases (differs new ref)) [
  | inl q ↦
      rw (q, get-set_other k k_input ref (set_field k (str new) out) e, get-set_same k new out)
  | inr q ↦ rw (q, get-set_same k new out)
]

canonical_field-other :
    (j k k_input : Text) (ref : Json) (new : Text) (out : Fields)
    → text_eq k j ≡ false
    → text_eq k_input j ≡ false
    → get j (canonical_field k k_input ref new out) ≡ get j out
unfolding canonical_field
canonical_field-other j k k_input ref new out d e = elim (Bool-cases (differs new ref)) [
  | inl q ↦ rw (
    q,
    get-set_other j k_input ref (set_field k (str new) out) e,
    get-set_other j k (str new) out d,
  )
  | inr q ↦ rw (q, get-set_other j k (str new) out d)
]

column : (fs : Fields) (k s : Text) → get k fs ≡ some (str s) → IsStored s → IsShaColumn (get k fs)
column fs k s e h = subst IsShaColumn (sym e) h

empty_column : (fs : Fields) (k : Text) → get k fs ≡ none → IsShaColumn (get k fs)
empty_column fs k e = subst IsShaColumn (sym e) tt

canonicalize-stored :
    (ref : Text) (repo : Option Text) (resolver : Lookup) (r : Text × Option Text)
    → IsStored ref
    → canonicalize ref repo resolver ≡ ok r
    → IsStored r.0
canonicalize-stored ref repo resolver r h e = elim (canonicalize_lem ref repo resolver h) [
  | inl x ↦ absurd (cc)
  | inr (r2, x, y) ↦
      let q : r2 ≡ r = cc in subst (λ (z : Text × Option Text). IsStored z.0) q y.stored
]

put_repo_sha-stored :
    (resolver : Lookup) (meta : Fields) (o : Option Json) (fs out : Fields)
    → get (codes "repo_sha") fs ≡ o
    → put_repo_sha resolver meta o fs ≡ ok out
    → IsShaColumn (get (codes "repo_sha") out)
unfolding put_repo_sha text_eq
put_repo_sha-stored resolver meta none fs out g h =
    let e : out ≡ fs = cc in empty_column out (codes "repo_sha") (rw e g)
put_repo_sha-stored resolver meta (some ref) fs out g h =
    let (n, a, k) = >>=-ok (validate_ref (as_ref (some ref))) _ h in
    let (pair, b, l) = >>=-ok (canonicalize n (as_repo (get (codes "repo") meta)) resolver) _ k in
    let e : out ≡ canonical_field (codes "repo_sha") (codes "repo_sha_input") ref pair.0 fs = cc in
    column out (codes "repo_sha") pair.0
      (rw e (canonical_field-get (codes "repo_sha") (codes "repo_sha_input") ref pair.0 fs refl))
      (canonicalize-stored n _ resolver pair (validate_ref-IsStored _ n a) b)

put_repo_sha-other :
    (resolver : Lookup) (meta : Fields) (o : Option Json) (fs out : Fields) (j : Text)
    → text_eq (codes "repo_sha") j ≡ false
    → text_eq (codes "repo_sha_input") j ≡ false
    → put_repo_sha resolver meta o fs ≡ ok out
    → get j out ≡ get j fs
unfolding put_repo_sha
put_repo_sha-other resolver meta none fs out j d e h = let q : out ≡ fs = cc in rw q
put_repo_sha-other resolver meta (some ref) fs out j d e h =
    let (n, a, k) = >>=-ok (validate_ref (as_ref (some ref))) _ h in
    let (pair, b, l) = >>=-ok (canonicalize n (as_repo (get (codes "repo") meta)) resolver) _ k in
    let q : out ≡ canonical_field (codes "repo_sha") (codes "repo_sha_input") ref pair.0 fs = cc in
    rw q (canonical_field-other j (codes "repo_sha") (codes "repo_sha_input") ref pair.0 fs d e)

put_base_sha-stored :
    (o : Option Json) (fs out : Fields)
    → get (codes "base_sha") fs ≡ o
    → put_base_sha o fs ≡ ok out
    → IsShaColumn (get (codes "base_sha") out)
unfolding put_base_sha text_eq
put_base_sha-stored none fs out g h =
    let e : out ≡ fs = cc in empty_column out (codes "base_sha") (rw e g)
put_base_sha-stored (some ref) fs out g h =
    let (n, a, k) = >>=-ok (validate_ref (as_ref (some ref))) _ h in
    let e : out ≡ canonical_field (codes "base_sha") (codes "base_sha_input") ref n fs = cc in
    column out (codes "base_sha") n
      (rw e (canonical_field-get (codes "base_sha") (codes "base_sha_input") ref n fs refl))
      (validate_ref-IsStored _ n a)

put_base_sha-other :
    (o : Option Json) (fs out : Fields) (j : Text)
    → text_eq (codes "base_sha") j ≡ false
    → text_eq (codes "base_sha_input") j ≡ false
    → put_base_sha o fs ≡ ok out
    → get j out ≡ get j fs
unfolding put_base_sha
put_base_sha-other none fs out j d e h = let q : out ≡ fs = cc in rw q
put_base_sha-other (some ref) fs out j d e h =
    let (n, a, k) = >>=-ok (validate_ref (as_ref (some ref))) _ h in
    let q : out ≡ canonical_field (codes "base_sha") (codes "base_sha_input") ref n fs = cc in
    rw q (canonical_field-other j (codes "base_sha") (codes "base_sha_input") ref n fs d e)

raise_if-ok : (b : Bool) (c : Code) (u : Unit {0}) → raise_if b c ≡ ok u → b ≡ false
raise_if-ok true c u h = cc
raise_if-ok false c u h = refl

not-false : (b : Bool) → not b ≡ false → b ≡ true
not-false true h = refl
not-false false h = cc

-- what may stand in the indexed columns of a row
pub record IsEnvelope (columns : MetaColumns) : Type 0 where
  pub repo_sha : IsShaColumn columns.repo_sha
  pub base_sha : IsShaColumn columns.base_sha
  pub temporal_mode : none_or_in temporal_modes columns.temporal_mode ≡ true

boundary_fields-IsEnvelope :
    (clinical : Bool) (resolver : Lookup) (meta out : Fields)
    → boundary_fields clinical resolver meta ≡ ok out
    → IsEnvelope (split_meta (some out))
unfolding boundary_fields split_meta text_eq
boundary_fields-IsEnvelope clinical resolver meta out h =
    let repo = get (codes "repo_sha") meta in
    let base = get (codes "base_sha") meta in
    let (a, h1) =
      >>-ok
        (raise_if (not (none_or_in temporal_modes (get (codes "temporal_mode") meta)))
          Code.invalid_temporal_mode)
        _ h in
    let (b, h2) =
      >>-ok
        (raise_if (not (none_or_in declarable_evidence_states (get (codes "evidence_state") meta)))
          Code.invalid_evidence_state)
        _ h1 in
    let (c, h3) = >>-ok (check_attestation clinical (get (codes "attestation") meta)) _ h2 in
    let (mid, d, h4) = >>=-ok (put_repo_sha resolver meta repo meta) _ h3 in
    let mode : none_or_in temporal_modes (get (codes "temporal_mode") meta) ≡ true =
      not-false _ (raise_if-ok _ _ tt a) in
    record {
      repo_sha =
          subst IsShaColumn (sym (put_base_sha-other base mid out (codes "repo_sha") refl refl h4))
            (put_repo_sha-stored resolver meta repo meta mid refl d);
      base_sha =
          put_base_sha-stored base mid out
            (put_repo_sha-other resolver meta repo meta mid (codes "base_sha") refl refl d) h4;
      temporal_mode =
          rw
            (
              put_base_sha-other base mid out (codes "temporal_mode") refl refl h4,
              put_repo_sha-other resolver meta repo meta mid (codes "temporal_mode") refl refl d,
            )
            mode;
    }

empty-IsEnvelope : IsEnvelope (split_meta none)
unfolding split_meta
empty-IsEnvelope = record { repo_sha = tt; base_sha = tt; temporal_mode = refl }

ok-eq : {A : Type 0} {a b : A} → ok a ≡ ok b → a ≡ b
ok-eq h = cc

unsent : {out : Option Fields} → ok none ≡ ok out → IsEnvelope (split_meta out)
unsent h = subst (λ o. IsEnvelope (split_meta o)) (ok-eq h) empty-IsEnvelope

-- Whatever a writer sends as `meta` and whatever the resolver answers, a write that passes the boundary
-- stores in its commit columns nothing but lower-case hexadecimal names of 7 to 40 characters, and as
-- its temporal mode nothing but one of the four.
pub boundary_meta-IsEnvelope :
    (clinical : Bool) (resolver : Lookup) (meta : Option Json) (out : Option Fields)
    → boundary_meta clinical resolver meta ≡ ok out
    → IsEnvelope (split_meta out)
unfolding boundary_meta
boundary_meta-IsEnvelope clinical resolver (some (obj (field k v fs))) out h =
    let (fields, a, b) = >>=-ok (boundary_fields clinical resolver (field k v fs)) _ h in
    subst (λ o. IsEnvelope (split_meta o)) (ok-eq b)
      (boundary_fields-IsEnvelope clinical resolver (field k v fs) fields a)
boundary_meta-IsEnvelope clinical resolver (some (obj end)) out h = unsent h
boundary_meta-IsEnvelope clinical resolver none out h = unsent h
boundary_meta-IsEnvelope clinical resolver (some null) out h = unsent h
boundary_meta-IsEnvelope clinical resolver (some (bool b)) out h = unsent h
boundary_meta-IsEnvelope clinical resolver (some (int s n)) out h = unsent h
boundary_meta-IsEnvelope clinical resolver (some (float b)) out h = unsent h
boundary_meta-IsEnvelope clinical resolver (some (str s)) out h = unsent h
boundary_meta-IsEnvelope clinical resolver (some (arr vs)) out h = unsent h
