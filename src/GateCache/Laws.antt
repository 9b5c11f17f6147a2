-- ===== src/GateCache/Laws.antt =====
-- No entry outlives the version it was stored under.
use mcp_assist_memory.Prelude.{
  ℕ, ◌+◌, ◌≤◌, ◌<◌, Text, text_eq_refl, Bool, true, false, Option, none, some, List, [], ◌∷◌, ◌≡◌,
  refl, subst, sym, arith, ltb, leb, if◌then◌else◌, Bool-cases, inl, inr, In,
}
use mcp_assist_memory.GateCache.{
  Entry, GateCache, lookup, pop, get, get_hit, put, invalidate, apply_version, apply_notification,
  bump_version, reconnect, disconnect, set_version, partition, version_of, or_none,
}

-- What happens to a cache: calls of its owner, and the listener's notifications and connections.
pub data Event (A : Type 0) : Type 0 where
  got : ℕ → Text → Event A
  stored : ℕ → Text → A → Event A
  invalidated : Option Text → Event A
  bumped : Option ℕ → Event A
  notified : Text → Event A
  connected : Event A
  dropped : Event A

module _ {A : Type 0} where
  unfoldable pub after : Event A → GateCache A → GateCache A
  unfolding get put invalidate bump_version apply_notification reconnect disconnect
  after (got now ns) c = (get now ns c).1
  after (stored now ns v) c = put now ns v c
  after (invalidated ns) c = invalidate ns c
  after (bumped n) c = bump_version n c
  after (notified payload) c = (apply_notification payload c).1
  after connected c = reconnect c
  after dropped c = disconnect c

  abbrev pub AllLe : ℕ → List (Entry A) → Type 0
  AllLe n [] = Unit {0}
  AllLe n (e ∷ es) = (e.version ≤ n) × AllLe n es

  -- The invariant of a cache: no entry is of a later version than the cache.
  pub record IsCache (c : GateCache A) : Type 0 where
    pub bounded : AllLe c.version c.entries

  AllLe-weaken : (m n : ℕ) (es : List (Entry A)) → m ≤ n → AllLe m es → AllLe n es
  AllLe-weaken m n [] h a = tt
  AllLe-weaken m n (e ∷ es) h (b, c) = (omega arith, AllLe-weaken m n es h c)

  AllLe-pop : (n : ℕ) (ns : Text) (es : List (Entry A)) → AllLe n es → AllLe n (pop ns es)
  unfolding pop
  AllLe-pop n ns [] a = tt
  AllLe-pop n ns (e ∷ es) (b, c) = ground (arith, AllLe-pop n ns es c)

  AllLe-found :
      (n : ℕ) (ns : Text) (es : List (Entry A)) (e : Entry A) → AllLe n es → In e es → e.version ≤ n
  AllLe-found n ns [] e a m = absurd m
  AllLe-found n ns (x ∷ es) e (b, c) (inl q) = rw q b
  AllLe-found n ns (x ∷ es) e (b, c) (inr m) = AllLe-found n ns es e c m

  -- What a cache becomes: it keeps the invariant, and its version does not fall.
  pub record IsAfter (c d : GateCache A) : Type 0 where
    pub cache : AllLe d.version d.entries
    pub risen : c.version ≤ d.version

  get_hit-IsAfter :
      (now : ℕ) (ns : Text) (c : GateCache A) (o : Option (Entry A))
      → IsCache c
      → IsAfter c ((get_hit now ns c o).1)
  get_hit-IsAfter now ns c none h = record { cache = h.bounded; risen = omega arith }
  get_hit-IsAfter now ns c (some e) h = elim (Bool-cases (ltb e.version c.version)) [
    | inl q ↦ rw q (record { cache = h.bounded; risen = omega arith })
    | inr q ↦ elim (Bool-cases (ltb (e.stored_at + c.ttl) now)) [
      | inl z ↦
          rw (q, z)
            (record { cache = AllLe-pop c.version ns c.entries h.bounded; risen = omega arith })
      | inr z ↦ rw (q, z) (record { cache = h.bounded; risen = omega arith })
    ]
  ]

  invalidate-IsAfter : (o : Option Text) (c : GateCache A) → IsCache c → IsAfter c (invalidate o c)
  unfolding invalidate
  invalidate-IsAfter none c h = record { cache = tt; risen = omega arith }
  invalidate-IsAfter (some ns) c h = record {
    cache = AllLe-pop c.version ns c.entries h.bounded;
    risen = omega arith;
  }

  set_version-IsAfter :
      (n : ℕ) (c : GateCache A) → c.version ≤ n → IsCache c → IsAfter c (set_version n c)
  set_version-IsAfter n c k h = record {
    cache = AllLe-weaken c.version n c.entries k h.bounded;
    risen = k;
  }

  IsAfter-trans :
      {c d : GateCache A} (e : GateCache A) → IsAfter c d → (IsCache d → IsAfter d e) → IsAfter c e
  IsAfter-trans e h f =
      let k = f (record { bounded = h.cache }) in
      record { cache = k.cache; risen = omega (arith, h.risen, k.risen) }

  apply_version-IsAfter :
      (o : Option ℕ) (ns : Text) (c : GateCache A)
      → IsCache c
      → IsAfter c ((apply_version o ns c).1)
  apply_version-IsAfter none ns c h = record { cache = h.bounded; risen = omega arith }
  apply_version-IsAfter (some n) ns c h = elim (Bool-cases (leb n c.version)) [
    | inl q ↦ rw q (record { cache = h.bounded; risen = omega arith })
    | inr q ↦ rw q (
        IsAfter-trans (invalidate (or_none ns) (set_version n c))
          (set_version-IsAfter n c (ground arith) h)
          (invalidate-IsAfter (or_none ns) (set_version n c)))
  ]

  bump_version-IsAfter : (n : Option ℕ) (c : GateCache A) → IsCache c → IsAfter c (bump_version n c)
  unfolding bump_version
  bump_version-IsAfter n c h = set_version-IsAfter _ c (ground arith) h

  -- Every event keeps the invariant, that no entry is of a later version than the cache, and never
  -- lowers the version.
  pub after-IsAfter : (e : Event A) (c : GateCache A) → IsCache c → IsAfter c (after e c)
  unfolding after get put apply_notification reconnect disconnect
  after-IsAfter (got now ns) c h = get_hit-IsAfter now ns c (lookup ns c.entries) h
  after-IsAfter (stored now ns v) c h = record {
    cache = (omega arith, AllLe-pop c.version ns c.entries h.bounded);
    risen = omega arith;
  }
  after-IsAfter (invalidated ns) c h = invalidate-IsAfter ns c h
  after-IsAfter (bumped n) c h = bump_version-IsAfter n c h
  after-IsAfter (notified payload) c h =
      apply_version-IsAfter (version_of (partition payload).0) (partition payload).1 c h
  after-IsAfter connected c h =
      let d = invalidate none c in
      let k =
        IsAfter-trans (bump_version none d) (invalidate-IsAfter none c h)
          (bump_version-IsAfter none d) in
      record { cache = k.cache; risen = k.risen }
  after-IsAfter dropped c h = record { cache = h.bounded; risen = omega arith }

  lookup-In : (ns : Text) (es : List (Entry A)) (e : Entry A) → lookup ns es ≡ some e → In e es
  unfolding lookup
  lookup-In ns [] e h = cc
  lookup-In ns (x ∷ es) e h = ground (arith, lookup-In ns es e)

  -- a cache whose entries are all of an earlier version serves nothing
  get_hit-older :
      (now : ℕ) (ns : Text) (c : GateCache A) (o : Option (Entry A))
      → ((e : Entry A) → o ≡ some e → e.version < c.version)
      → (get_hit now ns c o).0 ≡ none
  get_hit-older now ns c none f = refl
  get_hit-older now ns c (some e) f =
      let q : ltb e.version c.version ≡ true = ground (arith, f e refl) in rw q refl

  invalidate-version : (o : Option Text) (c : GateCache A) → (invalidate o c).version ≡ c.version
  unfolding invalidate
  invalidate-version none c = refl
  invalidate-version (some ns) c = refl

  invalidate-AllLe :
      (n : ℕ) (o : Option Text) (c : GateCache A)
      → AllLe n c.entries
      → AllLe n ((invalidate o c).entries)
  unfolding invalidate
  invalidate-AllLe n none c h = tt
  invalidate-AllLe n (some ns) c h = AllLe-pop n ns c.entries h

  apply_version-stale :
      (n : ℕ) (ns : Text) (c : GateCache A)
      → leb n c.version ≡ true
      → apply_version (some n) ns c ≡ (false, c)
  apply_version-stale n ns c q = rw q

  apply_version-accepted :
      (n : ℕ) (ns : Text) (c : GateCache A)
      → leb n c.version ≡ false
      → apply_version (some n) ns c ≡ (true, invalidate (or_none ns) (set_version n c))
  apply_version-accepted n ns c q = rw q

  get-older :
      (now : ℕ) (ns : Text) (c : GateCache A) (m : ℕ)
      → AllLe m c.entries
      → m < c.version
      → (get now ns c).0 ≡ none
  unfolding get
  get-older now ns c m h k =
      get_hit-older now ns c (lookup ns c.entries)
        (λ e z. let u = AllLe-found m ns c.entries e h (lookup-In ns c.entries e z) in omega arith)

  apply_version-get :
      (o : Option ℕ) (m : Text) (c : GateCache A) (now : ℕ) (ns : Text)
      → IsCache c
      → (apply_version o m c).0 ≡ true
      → (get now ns (apply_version o m c).1).0 ≡ none
  apply_version-get none m c now ns h k = cc
  apply_version-get (some n) m c now ns h k = elim (Bool-cases (leb n c.version)) [
    | inl q ↦ let f = apply_version-stale n m c q in cc
    | inr q ↦
        let d = invalidate (or_none m) (set_version n c) in
        let v = invalidate-version (or_none m) (set_version n c) in
        subst (λ (x : Bool × GateCache A). (get now ns x.1).0 ≡ none)
          (sym (apply_version-accepted n m c q))
          (get-older now ns d c.version
            (invalidate-AllLe c.version (or_none m) (set_version n c) h.bounded) (ground arith))
  ]

  -- After a notification is accepted, no value stored before it is served, in any namespace.
  pub apply_notification-get :
      (payload : Text) (c : GateCache A) (now : ℕ) (ns : Text)
      → IsCache c
      → (apply_notification payload c).0 ≡ true
      → (get now ns (apply_notification payload c).1).0 ≡ none
  unfolding apply_notification
  apply_notification-get payload c now ns h e =
      apply_version-get (version_of (partition payload).0) (partition payload).1 c now ns h e

  apply_version_again :
      (o : Option ℕ) (ns : Text) (c : GateCache A)
      → apply_version o ns ((apply_version o ns c).1) ≡ (false, (apply_version o ns c).1)
  apply_version_again none ns c = refl
  apply_version_again (some n) ns c = elim (Bool-cases (leb n c.version)) [
    | inl q ↦
        let f = apply_version-stale n ns c q in
        subst (λ (x : Bool × GateCache A). apply_version (some n) ns x.1 ≡ (false, x.1)) (sym f) f
    | inr q ↦
        let d = invalidate (or_none ns) (set_version n c) in
        let v = invalidate-version (or_none ns) (set_version n c) in
        subst (λ (x : Bool × GateCache A). apply_version (some n) ns x.1 ≡ (false, x.1))
          (sym (apply_version-accepted n ns c q)) (apply_version-stale n ns d (ground arith))
  ]

  -- A notification that is delivered again is ignored.
  apply_notification_again :
      (payload : Text) (c : GateCache A)
      → apply_notification payload (apply_notification payload c).1
        ≡ (false, (apply_notification payload c).1)
  unfolding apply_notification
  apply_notification_again payload c =
      apply_version_again (version_of (partition payload).0) (partition payload).1 c

  -- A stored value is served until its time to live is over.
  get-put :
      (now later : ℕ) (ns : Text) (v : A) (c : GateCache A)
      → (get later ns (put now ns v c)).0 ≡ (if ltb (now + c.ttl) later then none else some v)
  unfolding get put lookup
  get-put now later ns v c =
      let q : ltb c.version c.version ≡ false = ground arith in
      elim (Bool-cases (ltb (now + c.ttl) later)) [
        | inl z ↦ rw (text_eq_refl ns, q, z)
        | inr z ↦ rw (text_eq_refl ns, q, z)
      ]
