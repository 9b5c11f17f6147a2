-- ===== src/Store/Append/Laws.antt =====
-- What `append` keeps, whatever the other writers do.
use mcp_assist_memory.Prelude.{ℕ, zero, suc, Option, none, some, List, [], ◌∷◌, In, inl, inr}
use mcp_assist_memory.Result.{Result, Result-cases}
use mcp_assist_memory.Store.Rows.{Draft, Row, Table}
use mcp_assist_memory.Store.Insert.{
  Landing, landed, check_violation, unique_violation, insert, after_landing, others_write,
}
use mcp_assist_memory.Store.Insert.Laws.{
  IsTable, insert-IsTable, others_write-IsTable, others_write_mono,
}
use mcp_assist_memory.Store.Prepare.{Services, Request, Prepared, prepare}
use mcp_assist_memory.Store.Append.{
  Ack, Turn, append, retry, settle, store, attempts, landed_event, max_retries,
}

after_landing-In : (r : Row) (t : Table) (l : Landing) → In r t → In r (after_landing t l)
after_landing-In r t (landed x) h = inr h
after_landing-In r t check_violation h = h
after_landing-In r t unique_violation h = h

-- A property of tables that every writer keeps holds after an append, whatever it returns.
module _ (P : Table → Type 0)
    (keeps : (now : ℕ) (d : Draft) (ds : List Draft) (t : Table)
      → P t
      → P (after_landing (others_write now ds t) (insert now d t (others_write now ds t))))
    (others : (now : ℕ) (ds : List Draft) (t : Table) → P t → P (others_write now ds t)) where
  retry-keeps :
      (rest : Table → Result Ack × Table) (p : Prepared) (t : Table) (o : Option Row)
      → ((x : Table) → P x → P ((rest x).1))
      → P t
      → P ((retry rest p t o).1)
  retry-keeps rest p t (some existing) f h = h
  retry-keeps rest p t none f h = f t h

  settle-keeps :
      (rest : Table → Result Ack × Table) (now : ℕ) (behind : List Draft) (p : Prepared) (t : Table)
      (l : Landing)
      → ((x : Table) → P x → P ((rest x).1))
      → P t
      → P (after_landing t l)
      → P ((settle rest now behind p t l).1)
  settle-keeps rest now behind p t (landed r) f h k = others now behind (r ∷ t) k
  settle-keeps rest now behind p t check_violation f h k = h
  settle-keeps rest now behind p t unique_violation f h k =
      let after = others_write now behind t in
      retry-keeps rest p after (landed_event p.draft after) f (others now behind t h)

  attempts-keeps :
      (n : ℕ) (clock : ℕ → ℕ) (turns : ℕ → Turn) (p : Prepared) (t : Table)
      → P t
      → P ((attempts n clock turns p t).1)
  unfolding attempts
  attempts-keeps zero clock turns p t h = h
  attempts-keeps (suc n) clock turns p t h =
      let now = clock n in
      let seen = others_write now (turns n).before t in
      let committed = others_write now (turns n).during seen in
      let k = others now (turns n).before t h in
      settle-keeps (λ (x : Table). attempts n clock turns p x) now (turns n).behind p committed
        (insert now p.draft seen committed) (λ x y. attempts-keeps n clock turns p x y)
        (others now (turns n).during seen k) (keeps now p.draft (turns n).during seen k)

  pub append-keeps :
      (s : Services) (clock : ℕ → ℕ) (turns : ℕ → Turn) (q : Request) (t : Table)
      → P t
      → P ((append s clock turns q t).1)
  unfolding append store
  append-keeps s clock turns q t h = elim (Result-cases (prepare s q)) [
    | inl (p, e) ↦ rw e (
        retry-keeps (λ (x : Table). attempts max_retries clock turns p x) p t
          (landed_event p.draft t) (λ x y. attempts-keeps max_retries clock turns p x y) h)
    | inr (e, f) ↦ rw f h
  ]

-- Whatever other writers commit meanwhile and however it ends, an append keeps the table's
-- invariant: revisions of a key are 1, 2, … without a gap or a repetition, and an event has one row.
pub append-IsTable :
    (s : Services) (clock : ℕ → ℕ) (turns : ℕ → Turn) (q : Request) {t : Table}
    → IsTable t
    → IsTable ((append s clock turns q t).1)
append-IsTable s clock turns q {t} table =
    append-keeps IsTable
      (λ now d ds t h.
        insert-IsTable now d t (others_write-IsTable now ds h)
          (others_write_mono d.namespace d.key now ds t))
      (λ now ds t h. others_write-IsTable now ds h) s clock turns q t table

pub others_write-In :
    (r : Row) (now : ℕ) (ds : List Draft) (t : Table) → In r t → In r (others_write now ds t)
unfolding others_write
others_write-In r now [] t h = h
others_write-In r now (d ∷ ds) t h =
    others_write-In r now ds (after_landing t (insert now d t t))
      (after_landing-In r t (insert now d t t) h)

-- The table is append-only: a row that is there before an append is there after it, unchanged,
-- however the append ends and whatever other writers commit meanwhile.
pub append-In :
    (s : Services) (clock : ℕ → ℕ) (turns : ℕ → Turn) (q : Request) (r : Row) (t : Table)
    → In r t
    → In r ((append s clock turns q t).1)
append-In s clock turns q r t h =
    append-keeps (λ x. In r x)
      (λ now d ds t h.
        after_landing-In r (others_write now ds t) (insert now d t (others_write now ds t))
          (others_write-In r now ds t h))
      (λ now ds t h. others_write-In r now ds t h) s clock turns q t h
