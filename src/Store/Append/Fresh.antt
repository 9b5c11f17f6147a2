-- ===== src/Store/Append/Fresh.antt =====
-- What an append of a new event leaves, told without the code that builds the row.
use mcp_assist_memory.Prelude.{
  ℕ, ◌+◌, ◌≤◌, ◌<◌, Text, text_eq, text_eq_iff, mem_text, Bool, true, false, not, Option, none,
  some, List, [], ◌∷◌, ◌≡◌, ◌≢◌, ◌⊎◌, ◌&&◌, refl, sym, ap, ◌∙◌, subst, arith, In, inl, inr,
  Bool-cases, Option-cases, leb, ltb, if◌then◌else◌,
}
use mcp_assist_memory.Errors.{Code}
use mcp_assist_memory.Result.{Result, ok, raise}
use mcp_assist_memory.Store.Rows.{Draft, Row, Table, max_revision, same_key, same_event, is_live}
use mcp_assist_memory.Store.Insert.{kinds, new_row, others_write}
use mcp_assist_memory.Store.Insert.Laws.{IsTable, others_write-IsTable}
use mcp_assist_memory.Store.Prepare.{Services, Request, Prepared, prepare}
use mcp_assist_memory.Store.Reads.{memory_get, visible}
use mcp_assist_memory.Store.Append.{
  Turn, Ack, alone, append, ack_of, replay, landed_event, dedup_entry, conflicts,
}
use mcp_assist_memory.Store.Append.Laws.{append-IsTable, others_write-In}
use mcp_assist_memory.Store.Append.Alone.{append-new_row, memory_get-new_row}
use mcp_assist_memory.Store.Append.Replay.{append-landed, replay-own, same_event-new}

-- one more than the largest revision of a key, and 1 for a key without rows
pub record IsNext (ns key : Text) (t : Table) (n : ℕ) : Type 0 where
  pub above : (s : Row) → In s t → s.namespace ≡ ns → s.key ≡ key → s.revision < n
  pub follows :
      (n ≡ 1) ⊎ ((s : Row) × In s t × (s.namespace ≡ ns) × (s.key ≡ key) × (n ≡ s.revision + 1))

same_key-eq :
    (ns key : Text) (r : Row) → same_key ns key r ≡ true → (r.namespace ≡ ns) × (r.key ≡ key)
unfolding same_key
same_key-eq ns key r h = ground (arith, text_eq_iff ns r.namespace, text_eq_iff key r.key)

eq-same_key : (ns key : Text) (r : Row) → r.namespace ≡ ns → r.key ≡ key → same_key ns key r ≡ true
unfolding same_key
eq-same_key ns key r a b = ground (arith, text_eq_iff ns r.namespace, text_eq_iff key r.key)

max_revision-above :
    (ns key : Text) (t : Table) (s : Row)
    → In s t
    → same_key ns key s ≡ true
    → s.revision ≤ max_revision ns key t
unfolding max_revision
max_revision-above ns key [] s m h = absurd m
max_revision-above ns key (r ∷ t) s (inl e) h =
    let k : same_key ns key r ≡ true = ap (same_key ns key) (sym e) ∙ h in
    let f : s.revision ≡ r.revision = ap (λ (x : Row). x.revision) e in ground arith
max_revision-above ns key (r ∷ t) s (inr m) h = ground (arith, max_revision-above ns key t s m h)

abbrev Attains : Text → Text → Table → ℕ → Type 0
Attains ns key t n = (n ≡ 0) ⊎ ((s : Row) × In s t × (same_key ns key s ≡ true) × (n ≡ s.revision))

Attains-older :
    (ns key : Text) (r : Row) (t : Table) (n : ℕ) → Attains ns key t n → Attains ns key (r ∷ t) n
Attains-older ns key r t n (inl e) = inl e
Attains-older ns key r t n (inr (s, m, h, e)) = inr (s, inr m, h, e)

max_revision-Attains : (ns key : Text) (t : Table) → Attains ns key t (max_revision ns key t)
unfolding max_revision
max_revision-Attains ns key [] = inl refl
max_revision-Attains ns key (r ∷ t) = elim (Bool-cases (same_key ns key r)) [
  | inr e ↦ rw e (Attains-older ns key r t _ (max_revision-Attains ns key t))
  | inl e ↦ elim (Bool-cases (ltb (max_revision ns key t) r.revision)) [
    | inl l ↦ rw (e, l) (inr (r, inl refl, e, refl))
    | inr l ↦ rw (e, l) (Attains-older ns key r t _ (max_revision-Attains ns key t))
  ]
]

max_revision-IsNext : (ns key : Text) (t : Table) → IsNext ns key t (max_revision ns key t + 1)
max_revision-IsNext ns key t = record {
  above = λ s m a b. omega (arith, max_revision-above ns key t s m (eq-same_key ns key s a b));
  follows = go (max_revision-Attains ns key t);
}
  where
    go :
        Attains ns key t (max_revision ns key t)
        → (max_revision ns key t + 1 ≡ 1)
          ⊎ ((s : Row) × In s t
              × (s.namespace ≡ ns)
              × (s.key ≡ key)
              × (max_revision ns key t + 1 ≡ s.revision + 1))
    go (inl e) = inl (omega arith)
    go (inr (s, m, h, e)) = let (a, b) = same_key-eq ns key s h in inr (s, m, a, b, omega arith)

-- While no other writer commits, an append of a valid request whose event has not landed returns an
-- acknowledgement of a row, not marked as a replay, and leaves exactly this row more: the row has what
-- was prepared for the request, and its revision is one more than the largest of its key, or 1 for a
-- key without rows.
pub append-alone :
    (s : Services) (clock : ℕ → ℕ) (q : Request) (t : Table) (p : Prepared)
    → prepare s q ≡ ok p
    → mem_text p.draft.kind kinds ≡ true
    → p.draft.event_id ≢ some []
    → landed_event p.draft t ≡ none
    → (r : Row) × (a : Ack) × (append s clock (λ _. alone) q t ≡ (ok a, r ∷ t))
      × (a.row ≡ r)
      × (a.deduplicated ≡ false)
      × (r.draft ≡ p.draft)
      × IsNext p.draft.namespace p.draft.key t r.revision
append-alone s clock q t p h k v e = (
  new_row (clock 2) p.draft t t,
  ack_of p (new_row (clock 2) p.draft t t),
  append-new_row s clock q t p h k v e,
  unfold ack_of in refl,
  unfold ack_of in refl,
  unfold new_row in refl,
  unfold new_row in max_revision-IsNext p.draft.namespace p.draft.key t,
)

-- why a read by default does not show a row
pub data IsHidden (now : ℕ) (quarantined_too : Bool) (d : Draft) : Type 0 where
  deleted : d.tombstone ≡ true → IsHidden now quarantined_too d
  expired : (end : ℕ) → d.valid_until ≡ some end → end ≤ now → IsHidden now quarantined_too d
  withheld : d.quarantined ≡ true → quarantined_too ≡ false → IsHidden now quarantined_too d

-- Either the row is returned, and nothing hides it, or nothing is returned, and it is hidden.
pub data IsRead (now : ℕ) (quarantined_too : Bool) (r : Row) : Option Row → Type 0 where
  shown : (IsHidden now quarantined_too r.draft → ⊥) → IsRead now quarantined_too r (some r)
  hidden : IsHidden now quarantined_too r.draft → IsRead now quarantined_too r none

not-IsHidden :
    (now : ℕ) (b : Bool) (d : Draft)
    → d.tombstone ≡ false
    → ((last : ℕ) → d.valid_until ≡ some last → last ≤ now → ⊥)
    → (d.quarantined ≡ false) ⊎ (b ≡ true)
    → IsHidden now b d
    → ⊥
not-IsHidden now b d t u w (deleted e) = cc
not-IsHidden now b d t u w (expired l e h) = u l e h
not-IsHidden now b d t u (inl w) (withheld q e) = cc
not-IsHidden now b d t u (inr w) (withheld q e) = cc

-- the last test of a read, for a row that is live
unhidden-IsRead :
    (now : ℕ) (b : Bool) (r : Row)
    → r.tombstone ≡ false
    → ((last : ℕ) → r.valid_until ≡ some last → last ≤ now → ⊥)
    → IsRead now b r (if r.quarantined && not b then none else some r)
unhidden-IsRead now b r t u = elim (Bool-cases r.quarantined) [
  | inr q ↦
      let e : (if r.quarantined && not b then none else some r) ≡ some r = rw q refl in
      subst (IsRead now b r) (sym e) (shown (not-IsHidden now b r.draft t u (inl q)))
  | inl q ↦ elim (Bool-cases b) [
    | inl w ↦
        let e : (if r.quarantined && not b then none else some r) ≡ some r = rw (q, w) refl in
        subst (IsRead now b r) (sym e) (shown (not-IsHidden now b r.draft t u (inr w)))
    | inr w ↦
        let e : (if r.quarantined && not b then none else some r) ≡ none = rw (q, w) refl in
        subst (IsRead now b r) (sym e) (hidden (withheld q w))
  ]
]

visible-IsRead : (now : ℕ) (b : Bool) (r : Row) → IsRead now b r (visible now b (some r))
unfolding visible is_live
visible-IsRead now b r =
    let last = if r.quarantined && not b then none else some r in
    elim (Bool-cases r.tombstone) [
      | inl t ↦
          let e : visible now b (some r) ≡ none = rw t refl in
          subst (IsRead now b r) (sym e) (hidden (deleted t))
      | inr t ↦ elim (Option-cases r.valid_until) [
        | inl v ↦
            let e : visible now b (some r) ≡ last = rw (t, v) refl in
            subst (IsRead now b r) (sym e) (unhidden-IsRead now b r t (λ l f h. cc))
        | inr (u, v) ↦ elim (Bool-cases (leb u now)) [
          | inl l ↦
              let e : visible now b (some r) ≡ none = rw (t, v, l) refl in
              subst (IsRead now b r) (sym e) (hidden (expired u v (ground arith)))
          | inr l ↦
              let e : visible now b (some r) ≡ last = rw (t, v, l) refl in
              subst (IsRead now b r) (sym e)
                (unhidden-IsRead now b r t (λ x f h. let g : u ≡ x = cc in ground arith))
        ]
      ]
    ]

-- After such an append, `memory_get` of the key returns the row that was appended, unless the row is
-- a tombstone, is past its end, or is quarantined and quarantined rows are not asked for; in these
-- cases it returns nothing, although the key may have older rows.
pub memory_get-append :
    (s : Services) (clock : ℕ → ℕ) (q : Request) (t : Table) (p : Prepared) (now : ℕ)
    (quarantined_too : Bool)
    → prepare s q ≡ ok p
    → mem_text p.draft.kind kinds ≡ true
    → p.draft.event_id ≢ some []
    → landed_event p.draft t ≡ none
    → (r : Row) × ((append s clock (λ _. alone) q t).1 ≡ r ∷ t)
      × (r.draft ≡ p.draft)
      × IsRead now quarantined_too r (
          memory_get now p.draft.namespace p.draft.key quarantined_too
            (append s clock (λ _. alone) q t).1)
memory_get-append s clock q t p now b h k v e =
    let r = new_row (clock 2) p.draft t t in
    (
      r,
      ap (λ (x : Result Ack × Table). x.1) (append-new_row s clock q t p h k v e),
      unfold new_row in refl,
      subst (IsRead now b r) (sym (memory_get-new_row s clock q t p now b h k v e))
          (visible-IsRead now b r),
    )

-- two fingerprints that are both there, are not empty and are not the same
abbrev pub Differ : Option Text → Option Text → Type 0
Differ a b = (x : Text) × (y : Text) × (a ≡ some x) × (b ≡ some y) × (x ≢ []) × (y ≢ []) × (x ≢ y)

-- the answer to a write whose event landed as a row
pub data IsReplay (fingerprint : Option Text) (r : Row) : Result Ack → Type 0 where
  conflict :
      Differ r.idem_fingerprint fingerprint
      → IsReplay fingerprint r (raise Code.idempotency_conflict)
  repeated :
      (Differ r.idem_fingerprint fingerprint → ⊥)
      → (a : Ack) → a.row ≡ r
      → a.deduplicated ≡ true
      → IsReplay fingerprint r (ok a)

conflicts-Differ : (a b : Option Text) → conflicts a b ≡ true → Differ a b
conflicts-Differ none b h = cc
conflicts-Differ (some []) b h = cc
conflicts-Differ (some (c ∷ s)) none h = cc
conflicts-Differ (some (c ∷ s)) (some []) h = cc
conflicts-Differ (some (c ∷ s)) (some (d ∷ t)) h = (
  c ∷ s,
  d ∷ t,
  refl,
  refl,
  (λ e. cc),
  (λ e. cc),
  λ e. let f = (text_eq_iff (c ∷ s) (d ∷ t)).1 e in ground arith,
)

Differ-conflicts : (a b : Option Text) → Differ a b → conflicts a b ≡ true
Differ-conflicts a b (x, y, e, f, g, h, k) = rw (e, f) (go x y g h k)
  where
    go : (x y : Text) → x ≢ [] → y ≢ [] → x ≢ y → conflicts (some x) (some y) ≡ true
    go [] y g h k = absurd (g refl)
    go (c ∷ s) [] g h k = absurd (h refl)
    go (c ∷ s) (d ∷ t) g h k = elim (Bool-cases (text_eq (c ∷ s) (d ∷ t))) [
      | inl w ↦ absurd (k ((text_eq_iff (c ∷ s) (d ∷ t)).0 w))
      | inr w ↦ rw w refl
    ]

replay-IsReplay :
    (fingerprint : Option Text) (r : Row) → IsReplay fingerprint r (replay fingerprint r)
unfolding replay dedup_entry
replay-IsReplay fingerprint r = elim (Bool-cases (conflicts r.idem_fingerprint fingerprint)) [
  | inl e ↦ rw e (conflict (conflicts-Differ r.idem_fingerprint fingerprint e))
  | inr e ↦ rw e (
      repeated (λ d. let f = Differ-conflicts r.idem_fingerprint fingerprint d in cc)
        (dedup_entry r) refl refl)
]

-- An event id that has landed is answered from the table, whatever other writers do during the call:
-- the table stays as it is, and the answer is the landed row, marked as deduplicated, or
-- `idempotency_conflict` exactly where both fingerprints are there and differ.
pub append-IsReplay :
    (s : Services) (clock : ℕ → ℕ) (turns : ℕ → Turn) (q : Request) (p : Prepared) (c : ℕ)
    (event : Text) (r : Row) {t : Table}
    → IsTable t
    → In r t
    → prepare s q ≡ ok p
    → p.draft.event_id ≡ some (c ∷ event)
    → same_event p.draft.namespace p.draft.actor (c ∷ event) r ≡ true
    → IsReplay p.draft.idem_fingerprint r (append s clock turns q t).0
      × ((append s clock turns q t).1 ≡ t)
append-IsReplay s clock turns q p c event r {t} table m h e k =
    rw (append-landed s clock turns q p c event r table m h e k)
      (replay-IsReplay p.draft.idem_fingerprint r, refl)

-- Exactly once: an append with an event id that has not landed, of a valid request and undisturbed;
-- then rows that other writers commit; then the same request again, under any interference. The
-- second append changes nothing and returns the row of the first, marked as a replay.
pub append-twice :
    (s : Services) (clock clock2 : ℕ → ℕ) (turns : ℕ → Turn) (q : Request) (p : Prepared) (c : ℕ)
    (event : Text) (later : ℕ) (others : List Draft) {t : Table}
    → IsTable t
    → prepare s q ≡ ok p
    → mem_text p.draft.kind kinds ≡ true
    → p.draft.event_id ≡ some (c ∷ event)
    → landed_event p.draft t ≡ none
    → (r : Row) × (a : Ack) × ((append s clock (λ _. alone) q t).1 ≡ r ∷ t)
      × (a.row ≡ r)
      × (a.deduplicated ≡ true)
      × (append s clock2 turns q (others_write later others (append s clock (λ _. alone) q t).1)
          ≡ (ok a, others_write later others (append s clock (λ _. alone) q t).1))
append-twice s clock clock2 turns q p c event later others {t} table h k e n =
    let v : p.draft.event_id ≢ some [] = λ x. cc in
    let a = append-new_row s clock q t p h k v n in
    let r = new_row (clock 2) p.draft t t in
    let a1 : (append s clock (λ _. alone) q t).1 ≡ r ∷ t = ap (λ (x : Result Ack × Table). x.1) a in
    let keeps : IsTable (r ∷ t) = subst IsTable a1 (append-IsTable s clock (λ _. alone) q table) in
    let t2 = others_write later others (r ∷ t) in
    let x =
      append-landed s clock2 turns q p c event r {t = t2} (others_write-IsTable later others keeps)
        (others_write-In r later others (r ∷ t) (inl refl)) h e
        (same_event-new (clock 2) p.draft t (c ∷ event) e) in
    let y : replay p.draft.idem_fingerprint r ≡ ok (dedup_entry r) =
      unfold new_row in replay-own r in
    (
      r,
      dedup_entry r,
      a1,
      unfold dedup_entry in refl,
      unfold dedup_entry in refl,
      rw (a1, x, y) refl,
    )
