-- ===== src/Store/Screened.antt =====
-- A write that the screen flags, from the request to the read.
use mcp_assist_memory.Prelude.{
  ℕ, Text, codes, text_eq, mem_text, Bool, true, false, not, Option, none, some, [], ◌≡◌, ◌≢◌, refl,
  sym, subst, ◌∙◌, ◌&&◌, Bool-cases, inl, inr,
}
use mcp_assist_memory.Errors.{Code}
use mcp_assist_memory.Result.{ok, >>=-ok, >>-ok, raise_if}
use mcp_assist_memory.Json.{Fields, get, opt_truthy}
use mcp_assist_memory.Sanitize.{sanitize}
use mcp_assist_memory.Store.Rows.{Row, Table, is_live}
use mcp_assist_memory.Store.Insert.{kinds, new_row}
use mcp_assist_memory.Store.Boundary.{boundary_meta}
use mcp_assist_memory.Store.Prepare.{
  Services, Request, Prepared, prepare, draft_of, screen, flagged, text_or, unattributed,
  event_fingerprint, origins, role_ok, overrides,
}
use mcp_assist_memory.Store.Reads.{memory_get, visible}
use mcp_assist_memory.Store.Append.{alone, append, landed_event}
use mcp_assist_memory.Store.Append.Alone.{memory_get-new_row}

-- What is prepared is the row of the request.
pub prepare-ok :
    (s : Services) (q : Request) (p : Prepared)
    → prepare s q ≡ ok p
    → (meta : Option Fields) × (f : Option Text) × (p ≡ draft_of s q meta f)
unfolding prepare
prepare-ok s q p h =
    let (a, h1) = >>-ok (raise_if (not (role_ok q.role)) Code.invalid_role) _ h in
    let (meta, b, h2) =
      >>=-ok (boundary_meta (opt_truthy (get (codes "clinical") s.profile)) s.resolver q.meta) _
        h1 in
    let (f, c, h3) = >>=-ok (event_fingerprint s q (sanitize q.value)) _ h2 in
    let (d, h4) =
      >>-ok
        (raise_if (not (mem_text (text_or q.origin (codes "unknown")) origins)) Code.invalid_origin)
        _ h3 in
    (meta, f, cc)

not-and_false : (b : Bool) → not (b && false) ≡ true
not-and_false true = refl
not-and_false false = refl

draft_of-quarantined :
    (s : Services) (q : Request) (meta : Option Fields) (f : Option Text)
    → q.tombstone ≡ false
    → flagged (screen s (sanitize q.value)) ≡ true
    → text_eq (text_or q.actor unattributed) unattributed ≡ true
    → (draft_of s q meta f).draft.quarantined ≡ true
unfolding draft_of
draft_of-quarantined s q meta f t h a = rw (t, h, a) (not-and_false (overrides meta))

visible-quarantined : (now : ℕ) (r : Row) → r.quarantined ≡ true → visible now false (some r) ≡ none
unfolding visible
visible-quarantined now r h = elim (Bool-cases (is_live now r)) [ inl e ↦ rw (e, h) | inr e ↦ rw e ]

-- A write that the screen flags and that no named actor signs is kept from default reads, whatever
-- its `meta` asks for: where it is appended undisturbed, `memory_get` without `include_quarantined`
-- finds nothing under its key.
pub memory_get-screened :
    (s : Services) (clock : ℕ → ℕ) (q : Request) (t : Table) (p : Prepared) (now : ℕ)
    → prepare s q ≡ ok p
    → mem_text p.draft.kind kinds ≡ true
    → p.draft.event_id ≢ some []
    → landed_event p.draft t ≡ none
    → q.tombstone ≡ false
    → flagged (screen s (sanitize q.value)) ≡ true
    → text_eq (text_or q.actor unattributed) unattributed ≡ true
    → memory_get now p.draft.namespace p.draft.key false (append s clock (λ _. alone) q t).1 ≡ none
memory_get-screened s clock q t p now h k v e b g a =
    let (meta, f, z) = prepare-ok s q p h in
    let y : p.draft.quarantined ≡ true =
      subst (λ (x : Prepared). x.draft.quarantined ≡ true) (sym z)
        (draft_of-quarantined s q meta f b g a) in
    memory_get-new_row s clock q t p now false h k v e
    ∙ visible-quarantined now (new_row (clock 2) p.draft t t) (unfold new_row in y)
