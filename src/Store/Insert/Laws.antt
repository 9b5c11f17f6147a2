-- ===== src/Store/Insert/Laws.antt =====
-- What the indexes guarantee: the invariant of the table, kept by every insertion.
use mcp_assist_memory.Prelude.{
  ℕ, ◌+◌, ◌≤◌, ◌<◌, Text, Bool, true, false, List, [], ◌∷◌, ◌≡◌, refl, sym, subst, ◌⊎◌, arith,
  text_eq_iff, any, Bool-cases, inl, inr, ltb, if◌then◌else◌, mem_text,
}
use mcp_assist_memory.Store.Rows.{Draft, Row, Table, same_key, max_revision}
use mcp_assist_memory.Store.Insert.{
  repeats_revision, repeats_event, Landing, landed, check_violation, unique_violation, new_row,
  insert, kinds, after_landing, others_write,
}

-- The keys of a table: revisions of one key are 1, 2, …, with no gap and no repetition, and an event
-- of one actor in one namespace has one row.
pub data IsTable : Table → Type 0 where
  empty : IsTable []
  grown :
      (r : Row) {t : Table}
      → IsTable t
      → r.revision ≡ max_revision r.namespace r.key t + 1
      → any (repeats_event r) t ≡ false
      → IsTable (r ∷ t)

same_key-eq :
    (ns key : Text) (r : Row) → same_key ns key r ≡ true → (ns ≡ r.namespace) × (key ≡ r.key)
unfolding same_key
same_key-eq ns key r h = ground (arith, text_eq_iff ns r.namespace, text_eq_iff key r.key)

pub same_key_self : (r : Row) → same_key r.namespace r.key r ≡ true
unfolding same_key
same_key_self r = ground (arith, text_eq_iff r.namespace r.namespace, text_eq_iff r.key r.key)

max_revision-same :
    (ns key : Text) (r : Row) (t : Table)
    → same_key ns key r ≡ true
    → max_revision ns key (r ∷ t)
      ≡ (if ltb (max_revision ns key t) r.revision then r.revision else max_revision ns key t)
unfolding max_revision
max_revision-same ns key r t h = rw h

max_revision-other :
    (ns key : Text) (r : Row) (t : Table)
    → same_key ns key r ≡ false
    → max_revision ns key (r ∷ t) ≡ max_revision ns key t
unfolding max_revision
max_revision-other ns key r t h = rw h

-- A row that follows on raises the maximum of its key by one.
pub max_revision-grown :
    (ns key : Text) (r : Row) (t : Table)
    → same_key ns key r ≡ true
    → r.revision ≡ max_revision r.namespace r.key t + 1
    → max_revision ns key (r ∷ t) ≡ max_revision ns key t + 1
max_revision-grown ns key r t h e =
    let (a, b) = same_key-eq ns key r h in
    let f : max_revision r.namespace r.key t ≡ max_revision ns key t = rw (a, b) in
    let m = max_revision-same ns key r t h in ground arith

pub max_revision_mono :
    (ns key : Text) (r : Row) (t : Table) → max_revision ns key t ≤ max_revision ns key (r ∷ t)
unfolding max_revision
max_revision_mono ns key r t = ground arith

repeats_revision-head :
    (r s : Row)
    → same_key r.namespace r.key s ≡ true
    → s.revision ≡ r.revision
    → repeats_revision r s ≡ true
unfolding repeats_revision
repeats_revision-head r s h e = ground arith

any-there :
    {A : Type 0} (p : A → Bool) (x : A) (xs : List A) → any p xs ≡ true → any p (x ∷ xs) ≡ true
unfolding any
any-there p x xs h = ground arith

any-here : {A : Type 0} (p : A → Bool) (x : A) (xs : List A) → p x ≡ true → any p (x ∷ xs) ≡ true
unfolding any
any-here p x xs h = ground arith

le-cases : (a b : ℕ) → a ≤ b + 1 → (a ≡ b + 1) ⊎ (a ≤ b)
le-cases a b h = ground arith

same_max :
    (ns key : Text) (s : Row) (t : Table)
    → same_key ns key s ≡ true
    → max_revision s.namespace s.key t ≡ max_revision ns key t
same_max ns key s t h = let (a, b) = same_key-eq ns key s h in rw (a, b)

-- Every revision from 1 to the maximum of a key is there.
pub revisions_dense :
    {t : Table} (r : Row)
    → IsTable t
    → 0 < r.revision
    → r.revision ≤ max_revision r.namespace r.key t
    → any (repeats_revision r) t ≡ true
revisions_dense r empty p h = absurd (unfold max_revision in omega arith)
revisions_dense r (grown s {t} table next fresh) p h =
    elim (Bool-cases (same_key r.namespace r.key s)) [
      | inl e ↦
          let f = same_max r.namespace r.key s t e in
          let g = max_revision-grown r.namespace r.key s t e next in
          elim (le-cases r.revision (max_revision r.namespace r.key t) (omega arith)) [
            | inl q ↦ any-here (repeats_revision r) s t (repeats_revision-head r s e (omega arith))
            | inr q ↦ any-there (repeats_revision r) s t (revisions_dense r table p q)
          ]
      | inr e ↦
          any-there (repeats_revision r) s t
            (revisions_dense r table p (omega (arith, max_revision-other r.namespace r.key s t e)))
    ]

pub after_landing_mono :
    (ns key : Text) (t : Table) (l : Landing)
    → max_revision ns key t ≤ max_revision ns key (after_landing t l)
after_landing_mono ns key t (landed r) = max_revision_mono ns key r t
after_landing_mono ns key t check_violation = omega arith
after_landing_mono ns key t unique_violation = omega arith

-- A row that lands on the committed table follows on from it, whatever the statement had seen of it.
pub new_row-next :
    (now : ℕ) (d : Draft) (seen : Table) {committed : Table}
    → IsTable committed
    → max_revision d.namespace d.key seen ≤ max_revision d.namespace d.key committed
    → any (repeats_revision (new_row now d seen committed)) committed ≡ false
    → max_revision d.namespace d.key seen ≡ max_revision d.namespace d.key committed
unfolding new_row
new_row-next now d seen {committed} table old fresh =
    elim (le-cases (max_revision d.namespace d.key seen + 1)
      (max_revision d.namespace d.key committed) (omega arith)) [
        | inl q ↦ omega arith
        | inr q ↦ let u = revisions_dense (new_row now d seen committed) table (omega arith) q in cc
      ]

-- What a landed row is.
pub insert-landed :
    (now : ℕ) (d : Draft) (seen committed : Table) {r : Row}
    → insert now d seen committed ≡ landed r
    → (r ≡ new_row now d seen committed)
      × (mem_text d.kind kinds ≡ true)
      × (any (repeats_revision r) committed ≡ false)
      × (any (repeats_event r) committed ≡ false)
unfolding insert
insert-landed now d seen committed {r} h = ground arith

pub insert-IsTable :
    (now : ℕ) (d : Draft) (seen : Table) {committed : Table}
    → IsTable committed
    → max_revision d.namespace d.key seen ≤ max_revision d.namespace d.key committed
    → IsTable (after_landing committed (insert now d seen committed))
insert-IsTable now d seen {committed} table old = keeps (insert now d seen committed) refl
  where
    keeps : (l : Landing) → insert now d seen committed ≡ l → IsTable (after_landing committed l)
    keeps check_violation e = table
    keeps unique_violation e = table
    keeps (landed r) e =
        let (a, b, c, f) = insert-landed now d seen committed e in
        let c2 : any (repeats_revision (new_row now d seen committed)) committed ≡ false = cc in
        let f2 : any (repeats_event (new_row now d seen committed)) committed ≡ false = cc in
        let g = new_row-next now d seen table old c2 in
        subst (λ x. IsTable (x ∷ committed)) (sym a)
          (grown (new_row now d seen committed) table (unfold new_row in omega arith) f2)

pub others_write-IsTable :
    (now : ℕ) (ds : List Draft) {t : Table} → IsTable t → IsTable (others_write now ds t)
unfolding others_write
others_write-IsTable now [] table = table
others_write-IsTable now (d ∷ ds) {t} table =
    others_write-IsTable now ds (insert-IsTable now d t table (omega arith))

pub others_write_mono :
    (ns key : Text) (now : ℕ) (ds : List Draft) (t : Table)
    → max_revision ns key t ≤ max_revision ns key (others_write now ds t)
unfolding others_write
others_write_mono ns key now [] t = omega arith
others_write_mono ns key now (d ∷ ds) t = omega (
  arith,
  after_landing_mono ns key t (insert now d t t),
  others_write_mono ns key now ds (after_landing t (insert now d t t)),
)
