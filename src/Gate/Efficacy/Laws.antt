-- ===== src/Gate/Efficacy/Laws.antt =====
-- The log of efficacy events has one event for a slot, and only grows.
use mcp_assist_memory.Prelude.{
  Text, Bool, true, false, List, [], ◌∷◌, ◌==◌, text_eq, text_eq_refl, mem_text, any, length, ◌≡◌,
  ◌⊎◌, refl, sym, ap, ◌∙◌, subst, Bool-cases, inl, inr, In,
}
use mcp_assist_memory.Result.{Result, ok, err}
use mcp_assist_memory.Gate.Efficacy.{
  Event, Closing, Closed, Efficacy, same_slot, insert_event, stages, stage_writer,
  record_efficacy_event, keys_of_intent, asked_for, closing_event, sorted_in, close_keys,
  closed_out, closure_outcomes, gate_close_outcome,
}

-- no event has the slot of a later one
abbrev pub IsLog : List Event → Type 0
IsLog [] = Unit
IsLog (e ∷ log) = (any (same_slot e) log ≡ false) × IsLog log

abbrev pub Grows : List Event → List Event → Type 0
Grows log log2 = (e : Event) → In e log → In e log2

abbrev Kept : List Event → List Event → Type 0
Kept log log2 = (IsLog log → IsLog log2) × Grows log log2

Kept-trans : (a b c : List Event) → Kept a b → Kept b c → Kept a c
Kept-trans a b c (f, g) (h, k) = (λ x. h (f x), λ e m. k e (g e m))

insert_event-Kept : (e : Event) (log : List Event) → Kept log (insert_event e log).1
unfolding insert_event
insert_event-Kept e log = elim (Bool-cases (any (same_slot e) log)) [
  | inl h ↦ rw h (λ x. x, λ y m. m)
  | inr h ↦ rw h (λ x. (h, x), λ y m. inr m)
]

record_efficacy_event-Kept :
    (strict : Bool) (e : Event) (log : List Event) → Kept log (record_efficacy_event strict e log).1
unfolding record_efficacy_event
record_efficacy_event-Kept strict e log = elim (Bool-cases (mem_text e.stage stages)) [
  | inr h ↦ rw h (λ x. x, λ y m. m)
  | inl h ↦ elim (Bool-cases (text_eq e.writer_actor (stage_writer e.stage))) [
    | inr k ↦ rw (h, k) (λ x. x, λ y m. m)
    | inl k ↦ rw (h, k) (insert_event-Kept e log)
  ]
]

-- one round of the loop
pub close_keys-cons :
    (c : Closing) (key : Text) (keys : List Text) (done : Closed) (log : List Event)
    → close_keys c (key ∷ keys) done log
      ≡ close_keys c keys
          (sorted_in (insert_event (closing_event c key) log).0 key done)
          (insert_event (closing_event c key) log).1
unfolding close_keys record_efficacy_event stage_writer text_eq mem_text
close_keys-cons c key keys done log = refl

close_keys-Kept :
    (c : Closing) (keys : List Text) (done : Closed) (log : List Event)
    → Kept log (close_keys c keys done log).1
close_keys-Kept c [] done log = unfold close_keys in (λ x. x, λ e m. m)
close_keys-Kept c (key ∷ keys) done log =
    let e = closing_event c key in
    let log2 = (insert_event e log).1 in
    rw (close_keys-cons c key keys done log) (
      Kept-trans log log2 (close_keys c keys (sorted_in (insert_event e log).0 key done) log2).1
        (insert_event-Kept e log)
        (close_keys-Kept c keys (sorted_in (insert_event e log).0 key done) log2))

close_keys-ok :
    (c : Closing) (keys : List Text) (done : Closed) (log : List Event)
    → (done2 : Closed) × ((close_keys c keys done log).0 ≡ ok done2)
close_keys-ok c [] done log = unfold close_keys in (done, refl)
close_keys-ok c (key ∷ keys) done log =
    rw (close_keys-cons c key keys done log) (close_keys-ok c keys _ _)

-- an event that has the slot of the closing of a key
abbrev pub IsClosed : Closing → Text → List Event → Type 0
IsClosed c key log = (e : Event) × In e log × (same_slot (closing_event c key) e ≡ true)

same_slot_self : (e : Event) → same_slot e e ≡ true
unfolding same_slot
same_slot_self e =
    rw
      (
        text_eq_refl e.namespace,
        text_eq_refl e.skill_key,
        text_eq_refl e.intent_hash,
        text_eq_refl e.stage,
      )
      refl

any-In :
    (p : Event → Bool) (log : List Event) → any p log ≡ true → (e : Event) × In e log × (p e ≡ true)
unfolding any
any-In p [] h = absurd (cc)
any-In p (e ∷ log) h = elim (Bool-cases (p e)) [
  | inl k ↦ (e, inl refl, k)
  | inr k ↦ let (x, m, l) = any-In p log (sym (rw (k)) ∙ h) in (x, inr m, l)
]

pub In-any :
    (p : Event → Bool) (log : List Event) (e : Event) → In e log → p e ≡ true → any p log ≡ true
unfolding any
In-any p [] e m h = absurd m
In-any p (x ∷ log) e (inl f) h = let k : p x ≡ true = ap p (sym f) ∙ h in rw k refl
In-any p (x ∷ log) e (inr m) h = elim (Bool-cases (p x)) [
  | inl k ↦ rw k refl
  | inr k ↦ rw k (In-any p log e m h)
]

-- what an insertion leaves: the slot is taken, and any new event is the one inserted
insert_event-IsClosed :
    (c : Closing) (key : Text) (log : List Event)
    → IsClosed c key (insert_event (closing_event c key) log).1
unfolding insert_event
insert_event-IsClosed c key log =
    let e = closing_event c key in
    elim (Bool-cases (any (same_slot e) log)) [
      | inl h ↦ rw h (any-In (same_slot e) log h)
      | inr h ↦ rw h (e, inl refl, same_slot_self e)
    ]

insert_event-new :
    (e : Event) (log : List Event) (x : Event) → In x (insert_event e log).1 → In x log ⊎ (x ≡ e)
unfolding insert_event
insert_event-new e log x m = elim (Bool-cases (any (same_slot e) log)) [
  | inl h ↦ let f : (insert_event e log).1 ≡ log = rw h refl in inl (subst (In x) f m)
  | inr h ↦ let f : (insert_event e log).1 ≡ e ∷ log = rw h refl in swap (subst (In x) f m)
]
  where
    swap : In x (e ∷ log) → In x log ⊎ (x ≡ e)
    swap (inl f) = inr f
    swap (inr n) = inl n

-- what the loop leaves
pub record IsClosing (c : Closing) (keys : List Text) (log log2 : List Event) : Type 0 where
  pub taken : (key : Text) → In key keys → IsClosed c key log2
  pub fresh :
      (e : Event) → In e log2 → In e log ⊎ ((key : Text) × In key keys × (e ≡ closing_event c key))

pub close_keys-IsClosing :
    (c : Closing) (keys : List Text) (done : Closed) (log : List Event)
    → IsClosing c keys log (close_keys c keys done log).1
close_keys-IsClosing c [] done log =
    unfold close_keys in record { taken = λ key m. absurd m; fresh = λ e m. inl m }
close_keys-IsClosing c (key ∷ keys) done log =
    let e = closing_event c key in
    let log2 = (insert_event e log).1 in
    let done2 = sorted_in (insert_event e log).0 key done in
    let rest = close_keys-IsClosing c keys done2 log2 in
    let grows = (close_keys-Kept c keys done2 log2).1 in
    rw (close_keys-cons c key keys done log) (record {
      taken = λ k m. taken k m (close_keys c keys done2 log2).1 grows rest.taken;
      fresh = λ x m. fresh x (rest.fresh x m);
    })
  where
    taken :
        (k : Text)
        → In k (key ∷ keys)
        → (log3 : List Event) → Grows (insert_event (closing_event c key) log).1 log3
        → ((j : Text) → In j keys → IsClosed c j log3)
        → IsClosed c k log3
    taken k (inl f) log3 g t =
        let (x, m, h) = insert_event-IsClosed c key log in
        subst (λ j. IsClosed c j log3) (sym f) (x, g x m, h)
    taken k (inr n) log3 g t = t k n

    fresh :
        (x : Event)
        → In x (insert_event (closing_event c key) log).1
          ⊎ ((j : Text) × In j keys × (x ≡ closing_event c j))
        → In x log ⊎ ((j : Text) × In j (key ∷ keys) × (x ≡ closing_event c j))
    fresh x (inl m) = old (insert_event-new (closing_event c key) log x m)
      where
        old :
            In x log ⊎ (x ≡ closing_event c key)
            → In x log ⊎ ((j : Text) × In j (key ∷ keys) × (x ≡ closing_event c j))
        old (inl n) = inl n
        old (inr f) = inr (key, inl refl, f)
    fresh x (inr (j, n, f)) = inr (j, inr n, f)

pub closed_out-events :
    (c : Closing) (rollup : List Text) (x : Result Closed × List Event)
    → (closed_out c rollup x).1.events ≡ x.1
closed_out-events c rollup (ok d, log) = refl
closed_out-events c rollup (err e, log) = refl

-- Closing an outcome keeps one event for a slot, and takes no event away.
gate_close_outcome-Kept :
    (c : Closing) (st : Efficacy) → Kept st.events (gate_close_outcome c st).1.events
unfolding gate_close_outcome
gate_close_outcome-Kept c st = elim (Bool-cases (mem_text c.outcome closure_outcomes)) [
  | inr h ↦ rw h (λ x. x, λ e m. m)
  | inl h ↦ elim (Bool-cases (length c.intent_hash == 64)) [
    | inr k ↦ rw (h, k) (λ x. x, λ e m. m)
    | inl k ↦
        let keys = asked_for c.skill_key (keys_of_intent c.namespace c.intent_hash st.events) in
        let done : Closed = record { closed = []; already = [] } in
        rw (h, k, closed_out-events c st.rollup (close_keys c keys done st.events))
          (close_keys-Kept c keys done st.events)
  ]
]
