-- ===== src/Gate/Efficacy/Once.antt =====
-- Closing the outcome of an intent again.
use mcp_assist_memory.Prelude.{
  Text, Bool, true, false, Option, none, some, List, [], ◌∷◌, ◌&&◌, ◌==◌, text_eq, text_eq_iff,
  mem_text, any, length, In-keep, In-keep_cases, ◌≡◌, ◌⊎◌, refl, sym, ap, ◌∙◌, subst, Bool-cases,
  inl, inr, In,
}
use mcp_assist_memory.Result.{Result, ok}
use mcp_assist_memory.Gate.Efficacy.{
  Event, Closing, Closed, Efficacy, same_slot, insert_event, keys_of_intent, asked_for,
  closing_event, sorted_in, close_keys, closed_out, closure_outcomes, gate_close_outcome,
}
use mcp_assist_memory.Gate.Efficacy.Laws.{
  IsClosed, In-any, close_keys-cons, close_keys-IsClosing, closed_out-events,
}

-- an event of an intent, for a skill
abbrev IsOf : Text → Text → Text → Event → Type 0
IsOf ns hash key e =
    ((text_eq e.namespace ns && text_eq e.intent_hash hash) ≡ true) × (e.skill_key ≡ key)

mem_text-In : (s : Text) (ts : List Text) → mem_text s ts ≡ true → In s ts
unfolding mem_text
mem_text-In s [] h = absurd (cc)
mem_text-In s (t ∷ ts) h = elim (Bool-cases (text_eq s t)) [
  | inl e ↦ inl ((text_eq_iff s t).0 e)
  | inr e ↦ inr (mem_text-In s ts (sym (rw (e)) ∙ h))
]

In-keys_of_intent :
    (ns hash key : Text) (log : List Event) (e : Event)
    → In e log
    → IsOf ns hash key e
    → In key (keys_of_intent ns hash log)
unfolding keys_of_intent
In-keys_of_intent ns hash key [] e m h = absurd m
In-keys_of_intent ns hash key (x ∷ log) e (inl f) (h, k) =
    let h2 : (text_eq x.namespace ns && text_eq x.intent_hash hash) ≡ true =
      ap (λ (z : Event). text_eq z.namespace ns && text_eq z.intent_hash hash) (sym f) ∙ h in
    let k2 : x.skill_key ≡ key = ap (λ (z : Event). z.skill_key) (sym f) ∙ k in
    elim (Bool-cases (mem_text x.skill_key (keys_of_intent ns hash log))) [
      | inl b ↦
          rw (h2, b)
            (subst (λ z. In z (keys_of_intent ns hash log)) k2
              (mem_text-In x.skill_key (keys_of_intent ns hash log) b))
      | inr b ↦ rw (h2, b) (inl (sym k2))
    ]
In-keys_of_intent ns hash key (x ∷ log) e (inr m) h =
    let n = In-keys_of_intent ns hash key log e m h in
    elim (Bool-cases (text_eq x.namespace ns && text_eq x.intent_hash hash)) [
      | inr a ↦ rw a n
      | inl a ↦ elim (Bool-cases (mem_text x.skill_key (keys_of_intent ns hash log))) [
        | inl b ↦ rw (a, b) n
        | inr b ↦ rw (a, b) (inr n)
      ]
    ]

keys_of_intent-In :
    (ns hash key : Text) (log : List Event)
    → In key (keys_of_intent ns hash log)
    → (e : Event) × In e log × IsOf ns hash key e
unfolding keys_of_intent
keys_of_intent-In ns hash key [] m = absurd m
keys_of_intent-In ns hash key (x ∷ log) m =
    elim (Bool-cases (text_eq x.namespace ns && text_eq x.intent_hash hash)) [
      | inr a ↦
          let f : keys_of_intent ns hash (x ∷ log) ≡ keys_of_intent ns hash log = rw a refl in
          older (keys_of_intent-In ns hash key log) (subst (In key) f m)
      | inl a ↦ elim (Bool-cases (mem_text x.skill_key (keys_of_intent ns hash log))) [
        | inl b ↦
            let f : keys_of_intent ns hash (x ∷ log) ≡ keys_of_intent ns hash log =
              rw (a, b) refl in
            older (keys_of_intent-In ns hash key log) (subst (In key) f m)
        | inr b ↦
            let f : keys_of_intent ns hash (x ∷ log) ≡ x.skill_key ∷ keys_of_intent ns hash log =
              rw (a, b) refl in
            newer (keys_of_intent-In ns hash key log) a (subst (In key) f m)
      ]
    ]
  where
    older :
        (In key (keys_of_intent ns hash log) → (e : Event) × In e log × IsOf ns hash key e)
        → In key (keys_of_intent ns hash log)
        → (e : Event) × In e (x ∷ log) × IsOf ns hash key e
    older k n = let (e, l, h) = k n in (e, inr l, h)

    newer :
        (In key (keys_of_intent ns hash log) → (e : Event) × In e log × IsOf ns hash key e)
        → (text_eq x.namespace ns && text_eq x.intent_hash hash) ≡ true
        → In key (x.skill_key ∷ keys_of_intent ns hash log)
        → (e : Event) × In e (x ∷ log) × IsOf ns hash key e
    newer k a (inl f) = (x, inl refl, (a, sym f))
    newer k a (inr n) = let (e, l, h) = k n in (e, inr l, h)

insert_event-taken :
    (e : Event) (log : List Event)
    → any (same_slot e) log ≡ true
    → insert_event e log ≡ (false, log)
unfolding insert_event
insert_event-taken e log h = rw h refl

close_keys-again :
    (c : Closing) (keys : List Text) (done : Closed) (log : List Event)
    → ((key : Text) → In key keys → IsClosed c key log)
    → (done2 : Closed) × (close_keys c keys done log ≡ (ok done2, log))
      × (done2.closed ≡ done.closed)
close_keys-again c [] done log t = (done, unfold close_keys in refl, refl)
close_keys-again c (key ∷ keys) done log t =
    let e = closing_event c key in
    let (x, m, h) = t key (inl refl) in
    let f : insert_event e log ≡ (false, log) =
      insert_event-taken e log (In-any (same_slot e) log x m h) in
    let (d, g, k) = close_keys-again c keys (sorted_in false key done) log (λ j n. t j (inr n)) in
    (
      d,
      close_keys-cons c key keys done log
          ∙ ap (λ (p : Bool × List Event). close_keys c keys (sorted_in p.0 key done) p.1) f
          ∙ g,
      k,
    )

asked_for-cases :
    (o : Option Text) (key : Text) (keys : List Text)
    → In key (asked_for o keys)
    → In key keys × ((others : List Text) → In key others → In key (asked_for o others))
asked_for-cases none key keys m = (m, λ l n. n)
asked_for-cases (some k) key keys m =
    let (a, b) = In-keep_cases (text_eq k) key keys m in (a, λ l n. In-keep (text_eq k) key l n b)

module _ (c : Closing) (st : Efficacy) where
  abbrev keys_at : List Event → List Text
  keys_at log = asked_for c.skill_key (keys_of_intent c.namespace c.intent_hash log)

  abbrev nothing : Closed
  nothing = record { closed = []; already = [] }

  -- after a closing every key of the intent that was asked for is closed
  all-IsClosed :
      (key : Text)
      → In key (keys_at (close_keys c (keys_at st.events) nothing st.events).1)
      → IsClosed c key (close_keys c (keys_at st.events) nothing st.events).1
  all-IsClosed key m =
      let log2 = (close_keys c (keys_at st.events) nothing st.events).1 in
      let done = close_keys-IsClosing c (keys_at st.events) nothing st.events in
      let (a, b) =
        asked_for-cases c.skill_key key (keys_of_intent c.namespace c.intent_hash log2) m in
      let (e, n, h) = keys_of_intent-In c.namespace c.intent_hash key log2 a in
      either log2 done.taken b e h (done.fresh e n)
    where
      either :
          (log2 : List Event)
          → ((k : Text) → In k (keys_at st.events) → IsClosed c k log2)
          → ((l : List Text) → In key l → In key (asked_for c.skill_key l))
          → (e : Event) → IsOf c.namespace c.intent_hash key e
          → In e st.events ⊎ ((k : Text) × In k (keys_at st.events) × (e ≡ closing_event c k))
          → IsClosed c key log2
      either log2 t b e h (inl n) =
          t key (b _ (In-keys_of_intent c.namespace c.intent_hash key st.events e n h))
      either log2 t b e (h, g) (inr (k, n, f)) =
          let w : k ≡ key = ap (λ (x : Event). x.skill_key) (sym f) ∙ g in
          subst (λ j. IsClosed c j log2) w (t k n)

closed_out-nothing :
    (c : Closing) (st : Efficacy) (d : Closed)
    → d.closed ≡ []
    → closed_out c st.rollup (ok d, st.events) ≡ (ok d, st)
closed_out-nothing c st d e = rw e refl

gate_close_outcome-valid :
    (c : Closing) (st : Efficacy)
    → mem_text c.outcome closure_outcomes ≡ true
    → (length c.intent_hash == 64) ≡ true
    → gate_close_outcome c st
      ≡ closed_out c st.rollup (
          close_keys c
            (asked_for c.skill_key (keys_of_intent c.namespace c.intent_hash st.events))
            (record { closed = []; already = [] })
            st.events)
unfolding gate_close_outcome
gate_close_outcome-valid c st h k = rw (h, k) refl

-- a closing of the same intent
abbrev pub reclosing : Text → Option Text → Closing → Closing
reclosing o skill c = record {
  namespace = c.namespace;
  intent_hash = c.intent_hash;
  outcome = o;
  skill_key = skill;
}

IsClosed-reclosing :
    (o : Text) (skill : Option Text) (c : Closing) (key : Text) (log : List Event)
    → IsClosed c key log
    → IsClosed (reclosing o skill c) key log
unfolding same_slot
IsClosed-reclosing o skill c key log x = x

-- What a closing asks for was asked for before, by a closing of all skills or of the same ones.
asked_for-again :
    (first skill : Option Text) (key : Text) (keys : List Text)
    → (first ≡ none) ⊎ (skill ≡ first)
    → In key (asked_for skill keys)
    → In key (asked_for first keys)
asked_for-again first skill key keys (inl e) m =
    subst (λ z. In key (asked_for z keys)) (sym e) (asked_for-cases skill key keys m).0
asked_for-again first skill key keys (inr e) m = subst (λ z. In key (asked_for z keys)) e m

-- After a valid closing of an intent, the closing of the same intent that comes right after, with any
-- outcome that is allowed, closes nothing and changes neither the log of events nor the rollup, where
-- the first closing named no skill, or both named the same.
pub gate_close_outcome_again :
    (c : Closing) (o : Text) (skill : Option Text) (st : Efficacy)
    → (c.skill_key ≡ none) ⊎ (skill ≡ c.skill_key)
    → mem_text c.outcome closure_outcomes ≡ true
    → mem_text o closure_outcomes ≡ true
    → (length c.intent_hash == 64) ≡ true
    → (d : Closed) × (gate_close_outcome (reclosing o skill c) (gate_close_outcome c st).1
        ≡ (ok d, (gate_close_outcome c st).1))
      × (d.closed ≡ [])
gate_close_outcome_again c o skill st same h k l =
    let st2 = (gate_close_outcome c st).1 in
    let c2 = reclosing o skill c in
    let keys = keys_of_intent c.namespace c.intent_hash st2.events in
    let first = gate_close_outcome-valid c st h l in
    let f : st2.events ≡ (close_keys c (keys_at c st st.events) (nothing c st) st.events).1 =
      ap (λ (x : Result Closed × Efficacy). x.1.events) first
      ∙ closed_out-events c st.rollup
          (close_keys c (keys_at c st st.events) (nothing c st) st.events) in
    let taken =
      subst (λ log. (key : Text) → In key (keys_at c st log) → IsClosed c key log) (sym f)
        (all-IsClosed c st) in
    let (d, g, e) = close_keys-again c2 (asked_for skill keys) (nothing c st) st2.events (λ key m.
      IsClosed-reclosing o skill c key st2.events
        (taken key (asked_for-again c.skill_key skill key keys same m))) in
    (
      d,
      gate_close_outcome-valid c2 st2 k l
          ∙ ap (closed_out c2 st2.rollup) g
          ∙ closed_out-nothing c2 st2 d e,
      e,
    )
