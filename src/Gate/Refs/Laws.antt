-- ===== src/Gate/Refs/Laws.antt =====
-- Which contradictions a declared intent can meet.
use mcp_assist_memory.Prelude.{
  ℕ, Text, codes, true, false, Option, none, some, List, [], ◌∷◌, keep, In, In-keep_cases,
  if◌then◌else◌, ◌≡◌, refl, sym, ap, ◌∙◌, subst, arith, Bool-cases, inl, inr,
}
use mcp_assist_memory.Json.{Json, null, bool, int, float, str, arr, obj, Fields, get, truthy}
use mcp_assist_memory.Store.Rows.{Row, Table}
use mcp_assist_memory.Store.Listing.{Collation}
use mcp_assist_memory.Gate.Refs.{
  Finders, Refs, extract_refs, coding, Contradiction, Scan, consistent, contradicts,
  attribute_error, differs_from, bad, first_bad, check_constraints, structured_of, check_structured,
  scan_rows, constraint_rows, structured_conflict, sorted_set,
}

abbrev pub allowed_branch : Option Json → Option Json
allowed_branch (some (obj fs)) = get (codes "allowed_branch") fs
allowed_branch _ = none

-- The contradiction is between a declared branch and a row that allows another branch only.
pub record IsBranchConflict (refs : Refs) (rows : List Row) (c : Contradiction) : Type 0 where
  pub row : Row
  pub listed : In row rows
  pub named : (c.key ≡ row.key) × (c.revision ≡ row.revision) × (c.revision_id ≡ row.id)
  pub about_branch : c.contradicted ≡ "allowed_branch"
  pub declared : In c.declared refs.branches
  pub allows : allowed_branch (structured_of row) ≡ some c.allowed
  pub differs : differs_from c.allowed c.declared ≡ true

later :
    (refs : Refs) (r : Row) (rows : List Row) (c : Contradiction)
    → IsBranchConflict refs rows c
    → IsBranchConflict refs (r ∷ rows) c
later refs r rows c f = record {
  row = f.row;
  listed = inr f.listed;
  named = f.named;
  about_branch = f.about_branch;
  declared = f.declared;
  allows = f.allows;
  differs = f.differs;
}

bad-In :
    (allowed : Json) (refs : List Text) (x : Text) (xs : List Text)
    → bad (some allowed) refs ≡ x ∷ xs
    → In x refs × (differs_from allowed x ≡ true)
bad-In allowed refs x xs h = elim (Bool-cases (truthy allowed)) [
  | inl e ↦
      let f : keep (differs_from allowed) refs ≡ x ∷ xs = sym (rw (e)) ∙ h in
      In-keep_cases (differs_from allowed) x refs (subst (In x) (sym f) (inl refl))
  | inr e ↦ let f : ◌≡◌ {A = List Text} [] (x ∷ xs) = sym (rw (e)) ∙ h in absurd (cc)
]

bad-nil : (allowed : Option Json) → bad allowed [] ≡ []
unfolding keep
bad-nil none = refl
bad-nil (some v) = ground arith

-- Without declared repositories only the branch is compared.
first-branch :
    (refs : Refs) (r : Row) (rows : List Row) (structured : Fields) (next : Scan)
    (c : Contradiction) (allowed : Option Json) (xs : List Text)
    → structured_of r ≡ some (obj structured)
    → get (codes "allowed_branch") structured ≡ allowed
    → bad allowed refs.branches ≡ xs
    → (next ≡ contradicts c → IsBranchConflict refs rows c)
    → first_bad r "allowed_branch" allowed xs next ≡ contradicts c
    → IsBranchConflict refs (r ∷ rows) c
first-branch refs r rows structured next c allowed [] s a b f h = later refs r rows c (f h)
first-branch refs r rows structured next c none (x ∷ xs) s a b f h = absurd (cc)
first-branch refs r rows structured next c (some v) (x ∷ xs) s a b f h =
    let e : record {
      key = r.key;
      revision = r.revision;
      revision_id = r.id;
      contradicted = "allowed_branch";
      declared = x;
      allowed = v;
    }
        ≡ c =
      cc in
    subst (IsBranchConflict refs (r ∷ rows)) e (record {
      row = r;
      listed = inl refl;
      named = (refl, refl, refl);
      about_branch = refl;
      declared = (bad-In v refs.branches x xs b).0;
      allows = ap allowed_branch s ∙ a;
      differs = (bad-In v refs.branches x xs b).1;
    })

no_repo :
    (refs : Refs) (r : Row) (structured : Fields) (next : Scan)
    → refs.repos ≡ []
    → check_constraints refs r structured next
      ≡ first_bad r "allowed_branch"
          (get (codes "allowed_branch") structured)
          (bad (get (codes "allowed_branch") structured) refs.branches)
          next
unfolding check_constraints
no_repo refs r structured next e =
    let f : bad (get (codes "allowed_repo") structured) refs.repos ≡ [] =
      ap (bad (get (codes "allowed_repo") structured)) e
      ∙ bad-nil (get (codes "allowed_repo") structured) in
    rw f

-- A value that is no object passes only where it is falsy.
falsy_only :
    (refs : Refs) (r : Row) (v : Json) (next : Scan) (c : Contradiction)
    → (if truthy v then attribute_error else next) ≡ contradicts c
    → next ≡ contradicts c
falsy_only refs r v next c h = elim (Bool-cases (truthy v)) [
  | inl e ↦ let f : attribute_error ≡ contradicts c = sym (rw (e)) ∙ h in absurd (cc)
  | inr e ↦ sym (rw (e)) ∙ h
]

structured_conflict-coding :
    (finders : Finders) (order : Collation) (now : ℕ) (ns goal : Text) (t : Table)
    → coding (extract_refs finders (some goal ∷ []) none) ≡ true
    → structured_conflict finders order now ns goal t
      ≡ scan_rows (extract_refs finders (some goal ∷ []) none) (constraint_rows order now ns t)
unfolding structured_conflict
structured_conflict-coding finders order now ns goal t e = rw e

structured_conflict-plain :
    (finders : Finders) (order : Collation) (now : ℕ) (ns goal : Text) (t : Table)
    → coding (extract_refs finders (some goal ∷ []) none) ≡ false
    → structured_conflict finders order now ns goal t ≡ consistent
unfolding structured_conflict
structured_conflict-plain finders order now ns goal t e = rw e

scan_rows-branch :
    (refs : Refs) (rows : List Row) (c : Contradiction)
    → refs.repos ≡ []
    → scan_rows refs rows ≡ contradicts c
    → IsBranchConflict refs rows c
scan_rows-branch refs [] c e h = absurd (unfold scan_rows in cc)
scan_rows-branch refs (r ∷ rows) c e h =
    row (structured_of r) refl (λ g. scan_rows-branch refs rows c e g) (unfold scan_rows in h)
  where
    row :
        (o : Option Json)
        → structured_of r ≡ o
        → (scan_rows refs rows ≡ contradicts c → IsBranchConflict refs rows c)
        → check_structured refs r o (scan_rows refs rows) ≡ contradicts c
        → IsBranchConflict refs (r ∷ rows) c
    row none s f g = later refs r rows c (f g)
    row (some (obj fs)) s f g =
        first-branch refs r rows fs (scan_rows refs rows) c (get (codes "allowed_branch") fs)
          (bad (get (codes "allowed_branch") fs) refs.branches) s refl refl f
          (sym (no_repo refs r fs (scan_rows refs rows) e) ∙ g)
    row (some null) s f g =
        later refs r rows c (f (falsy_only refs r null (scan_rows refs rows) c g))
    row (some (bool b)) s f g =
        later refs r rows c (f (falsy_only refs r (bool b) (scan_rows refs rows) c g))
    row (some (int i n)) s f g =
        later refs r rows c (f (falsy_only refs r (int i n) (scan_rows refs rows) c g))
    row (some (float b)) s f g =
        later refs r rows c (f (falsy_only refs r (float b) (scan_rows refs rows) c g))
    row (some (str x)) s f g =
        later refs r rows c (f (falsy_only refs r (str x) (scan_rows refs rows) c g))
    row (some (arr x)) s f g =
        later refs r rows c (f (falsy_only refs r (arr x) (scan_rows refs rows) c g))

-- The scan for contradictions with a declared intent finds only branches: a contradiction that it
-- returns names a scanned row whose `allowed_branch` differs from a branch in the goal, and never an
-- `allowed_repo`, which it therefore does not enforce.
pub structured_conflict-IsBranchConflict :
    (finders : Finders) (order : Collation) (now : ℕ) (ns goal : Text) (t : Table)
    (c : Contradiction)
    → structured_conflict finders order now ns goal t ≡ contradicts c
    → IsBranchConflict
        (extract_refs finders (some goal ∷ []) none)
        (constraint_rows order now ns t)
        c
structured_conflict-IsBranchConflict finders order now ns goal t c h =
    elim (Bool-cases (coding (extract_refs finders (some goal ∷ []) none))) [
      | inl e ↦
          scan_rows-branch (extract_refs finders (some goal ∷ []) none)
            (constraint_rows order now ns t) c (unfold extract_refs in unfold sorted_set in refl)
            (sym (structured_conflict-coding finders order now ns goal t e) ∙ h)
      | inr e ↦
          let x = sym (structured_conflict-plain finders order now ns goal t e) ∙ h in absurd (cc)
    ]
