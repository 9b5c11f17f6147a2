-- ===== src/Gate/Intent/Caused.antt =====
-- Why a declared intent is in conflict.
use mcp_assist_memory.Prelude.{
  ℕ, true, false, Option, none, some, List, [], ◌∷◌, all, All, ◌≡◌, refl, sym, ◌∙◌, subst, arith,
  Bool-cases, inl, inr,
}
use mcp_assist_memory.Regex.{is_space}
use mcp_assist_memory.Store.Rows.{Row, Table}
use mcp_assist_memory.Store.Reads.{memory_get}
use mcp_assist_memory.Store.Search.{Ranking}
use mcp_assist_memory.Store.Search.Found.{IsIndex}
use mcp_assist_memory.Gate.State.{GateState}
use mcp_assist_memory.Gate.Refs.{
  Scan, consistent, contradicts, attribute_error, structured_conflict,
}
use mcp_assist_memory.Gate.Skills.{Hearing, escalates, meta_of}
use mcp_assist_memory.Gate.Intent.Candidates.{Match, trigger_scan_raises}
use mcp_assist_memory.Gate.Intent.Open.{
  Declared, Critic, Cause, by_structure, by_skill, Opening, opens, violates, skill_conflict,
  is_clinical, hearing_of, decision_of, decided, intent_open, heard, is_skill, opened_with,
  caused_by_skill,
}
use mcp_assist_memory.Gate.Intent.Visible.{matched_with-All}

-- a row that is no skill that escalates
abbrev pub IsHarmless : Hearing → Row → Type 0
IsHarmless h r = is_skill r ≡ true → escalates h (meta_of (some r)) r.quarantined ≡ false

violates-true :
    (h : Hearing) (r : Row)
    → violates h r ≡ true
    → (is_skill r ≡ true) × (escalates h (meta_of (some r)) r.quarantined ≡ true)
unfolding violates
violates-true h r e = ground arith

violates-false : (h : Hearing) (r : Row) → violates h r ≡ false → IsHarmless h r
unfolding violates
violates-false h r e s = ground arith

module _ (ranking : Ranking) (critic : Critic ranking) where
  open ranking use {Score}
  open critic use {retriever, finders}

  skill_conflict-violates :
      (h : Hearing) (P : Row → Type 0) (ms : List (Match Score)) (r : Row)
      → All (λ m. P m.row) ms
      → skill_conflict ranking critic h ms ≡ some r
      → P r × (is_skill r ≡ true) × (escalates h (meta_of (some r)) r.quarantined ≡ true)
  unfolding skill_conflict
  skill_conflict-violates h P [] r a e = absurd (cc)
  skill_conflict-violates h P (m ∷ ms) r (p, a) e = elim (Bool-cases (violates h m.row)) [
    | inl v ↦
        let f : some m.row ≡ some r = sym (rw (v)) ∙ e in
        let g : m.row ≡ r = cc in
        let (x, y) = violates-true h r (subst (λ z. violates h z ≡ true) g v) in (subst P g p, x, y)
    | inr v ↦ skill_conflict-violates h P ms r a (sym (rw (v)) ∙ e)
  ]

  -- what makes a cause: a contradiction of the scan, or a skill that is read and that is violated
  abbrev pub IsCause : ℕ → Declared → Table → Cause → Type 0
  IsCause now d t (by_structure c) =
      structured_conflict finders retriever.engine.order now d.namespace d.goal t ≡ contradicts c
  IsCause now d t (by_skill r) =
      (memory_get now d.namespace r.key d.include_quarantined t ≡ some r)
      × (is_skill r ≡ true)
      × (escalates (hearing_of ranking critic now d) (meta_of (some r)) r.quarantined ≡ true)

  -- An answer has the decision of its cause, the cause is real, and without one there is none: no
  -- structured conflict and no violated skill among the matches.
  abbrev pub IsCaused : ℕ → Declared → Table → Opening ranking critic → Type 0
  IsCaused now d t (opens o) =
      (o.decision ≡ decision_of o.conflict)
      × ((c : Cause) → o.conflict ≡ some c → IsCause now d t c)
      × (o.conflict ≡ none
          → (structured_conflict finders retriever.engine.order now d.namespace d.goal t
              ≡ consistent)
            × All (λ m. IsHarmless (hearing_of ranking critic now d) m.row) o.matched)
  IsCaused now d t _ = Unit

  heard-All :
      (h : Hearing) (P : Row → Type 0) (ms : List (Match Score))
      → All (λ m. P m.row) ms
      → All (λ m. P m.row) (heard ranking critic h ms)
  unfolding heard
  heard-All h P [] a = tt
  heard-All h P (m ∷ ms) (p, a) = elim (Bool-cases (is_skill m.row)) [
    | inl e ↦ rw e (p, heard-All h P ms a)
    | inr e ↦ rw e (p, heard-All h P ms a)
  ]

  skill_conflict-none :
      (h : Hearing) (ms : List (Match Score))
      → skill_conflict ranking critic h ms ≡ none
      → All (λ m. IsHarmless h m.row) ms
  unfolding skill_conflict
  skill_conflict-none h [] e = tt
  skill_conflict-none h (m ∷ ms) e = elim (Bool-cases (violates h m.row)) [
    | inl v ↦ let f : some m.row ≡ none = sym (rw (v)) ∙ e in absurd (cc)
    | inr v ↦ (violates-false h m.row v, skill_conflict-none h ms (sym (rw (v)) ∙ e))
  ]

  by_skill-IsCaused :
      (now : ℕ) (d : Declared) (st : GateState) (ms : List (Match Score)) (o : Option Row)
      → structured_conflict finders retriever.engine.order now d.namespace d.goal st.memory
        ≡ consistent
      → All
          (λ m. memory_get now d.namespace m.row.key d.include_quarantined st.memory ≡ some m.row)
          ms
      → skill_conflict ranking critic (hearing_of ranking critic now d) ms ≡ o
      → IsCaused now d st.memory
          (opened_with ranking critic
            (hearing_of ranking critic now d)
            d
            ms
            (caused_by_skill ranking critic o)
            st).1
  by_skill-IsCaused now d st ms none s a e = (
    refl,
    λ c f. absurd (cc),
    λ f. (
      s,
      heard-All (hearing_of ranking critic now d) (IsHarmless (hearing_of ranking critic now d)) ms
          (skill_conflict-none (hearing_of ranking critic now d) ms e),
    ),
  )
  by_skill-IsCaused now d st ms (some r) s a e = (
    refl,
    λ c f.
        let g : by_skill r ≡ c = cc in
        subst (IsCause now d st.memory) g (
          skill_conflict-violates (hearing_of ranking critic now d)
            (λ x. memory_get now d.namespace x.key d.include_quarantined st.memory ≡ some x) ms r a
            e),
    λ f. absurd (cc),
  )

  decided-IsCaused :
      (now : ℕ) (d : Declared) (st : GateState) (ms : List (Match Score)) (scan : Scan)
      → All
          (λ m. memory_get now d.namespace m.row.key d.include_quarantined st.memory ≡ some m.row)
          ms
      → structured_conflict finders retriever.engine.order now d.namespace d.goal st.memory ≡ scan
      → IsCaused now d st.memory
          (decided ranking critic (hearing_of ranking critic now d) d ms scan st).1
  decided-IsCaused now d st ms attribute_error a e = tt
  decided-IsCaused now d st ms (contradicts c) a e = (
    refl,
    λ k f. let g : by_structure c ≡ k = cc in subst (IsCause now d st.memory) g e,
    λ f. absurd (cc),
  )
  decided-IsCaused now d st ms consistent a e =
      by_skill-IsCaused now d st ms
        (skill_conflict ranking critic (hearing_of ranking critic now d) ms) e a refl

  -- Where the vector index returns rows that it was given: an intent that is opened is in conflict
  -- exactly where the answer names a cause. A cause is a contradiction that the structured scan finds,
  -- or a skill that `memory_get` returns and whose own meta makes it escalate on the features of the
  -- goal; no similarity is a cause. And where no cause is named, the scan finds no contradiction and no
  -- match is with a skill that escalates.
  pub intent_open-IsCaused :
      (now : ℕ) (d : Declared) (st : GateState)
      → IsIndex ranking retriever.engine
      → IsCaused now d st.memory (intent_open ranking critic now d st).1
  unfolding intent_open
  intent_open-IsCaused now d st index = elim (Bool-cases (all is_space d.goal)) [
    | inl e ↦ rw e tt
    | inr e ↦
        elim (Bool-cases (
          trigger_scan_raises ranking retriever now d.namespace d.goal d.include_quarantined
            st.memory)) [
              | inl f ↦ rw (e, f) tt
              | inr f ↦
                  rw (e, f)
                    (decided-IsCaused now d st _ _
                      (matched_with-All ranking retriever now d.namespace d.goal
                        (is_clinical ranking critic d) d.include_quarantined st.memory index)
                      refl)
            ]
  ]
