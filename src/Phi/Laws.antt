-- ===== src/Phi/Laws.antt =====
-- What passes the gate against identifiers.
use mcp_assist_memory.Prelude.{
  ℕ, Text, Bool, true, false, not, some, List, [], ◌∷◌, ◌≡◌, refl, arith, any, In, inl, inr, ◌&&◌,
  ◌||◌, ◌⊎◌, ap, subst, ◌∙◌,
}
use mcp_assist_memory.Json.{
  Json, null, bool, int, float, str, arr, obj, Items, nil, cons, Fields, end, field, get_field,
}
use mcp_assist_memory.Phi.{
  value_looks_identifying, key_looks_identifying, is_empty_value, int_text, walk_has_phi,
  items_have_phi, fields_have_phi, scanned_op_fields, field_has_phi, assert_no_phi,
}

or-false : (a b : Bool) → (a || b) ≡ false → (a ≡ false) × (b ≡ false)
or-false a b h = ground arith

-- What stands in a value: the value itself, an item of a list, the value of a field, at any depth.
mutual
  pub data Within : Json → Json → Type 0 where
    itself : (v : Json) → Within v v
    in_list : (v : Json) (vs : Items) → WithinItems v vs → Within v (arr vs)
    in_object : (v : Json) (fs : Fields) → WithinFields v fs → Within v (obj fs)

  pub data WithinItems : Json → Items → Type 0 where
    first_item : (v w : Json) (vs : Items) → Within v w → WithinItems v (cons w vs)
    later_item : (v w : Json) (vs : Items) → WithinItems v vs → WithinItems v (cons w vs)

  pub data WithinFields : Json → Fields → Type 0 where
    first_field : (k : Text) (v w : Json) (fs : Fields) → Within v w → WithinFields v (field k w fs)
    later_field :
        (k : Text) (v w : Json) (fs : Fields) → WithinFields v fs → WithinFields v (field k w fs)

pub data HasField (k : Text) (v : Json) : Fields → Type 0 where
  here : (fs : Fields) → HasField k v (field k v fs)
  there : (j : Text) (w : Json) (fs : Fields) → HasField k v fs → HasField k v (field j w fs)

module _ (format_f : ℕ → Text) where
  -- A text or a number does not look identifying, and a key of an object with a value that is not
  -- empty is not named like an identifier.
  abbrev pub IsHarmless : Json → Type 0
  IsHarmless (int s n) = value_looks_identifying (int_text s n) ≡ false
  IsHarmless (float bits) = value_looks_identifying (format_f bits) ≡ false
  IsHarmless (str s) = value_looks_identifying s ≡ false
  IsHarmless (obj fs) =
      (k : Text) (v : Json)
      → HasField k v fs
      → (key_looks_identifying k ≡ false) ⊎ (is_empty_value v ≡ true)
  IsHarmless _ = Unit {0}

  key-harmless : (a b : Bool) → (a && not b) ≡ false → (a ≡ false) ⊎ (b ≡ true)
  key-harmless true true h = inr refl
  key-harmless true false h = absurd (cc)
  key-harmless false b h = inl refl

  fields-IsHarmless :
      (fs : Fields)
      → fields_have_phi format_f fs ≡ false
      → (k : Text) (v : Json) → HasField k v fs
      → (key_looks_identifying k ≡ false) ⊎ (is_empty_value v ≡ true)
  unfolding fields_have_phi
  fields-IsHarmless end h k v m = elim m [ ]
  fields-IsHarmless (field _ _ _) h k v (here _) =
      let (a, _) = or-false _ _ h in key-harmless (key_looks_identifying k) (is_empty_value v) a
  fields-IsHarmless (field _ _ fs) h k v (there _ _ _ m) =
      let (_, r) = or-false _ _ h in let (_, c) = or-false _ _ r in fields-IsHarmless fs c k v m

  value-IsHarmless : (v : Json) → walk_has_phi format_f v ≡ false → IsHarmless v
  unfolding walk_has_phi
  value-IsHarmless null h = tt
  value-IsHarmless (bool b) h = tt
  value-IsHarmless (int s n) h = h
  value-IsHarmless (float bits) h = h
  value-IsHarmless (str s) h = h
  value-IsHarmless (arr vs) h = tt
  value-IsHarmless (obj fs) h = fields-IsHarmless fs h

  -- The walk finds nothing in a part of a value that it finds nothing in.
  mutual
    unfolding walk_has_phi items_have_phi fields_have_phi

    walk-Within :
        (v w : Json)
        → Within v w
        → walk_has_phi format_f w ≡ false
        → walk_has_phi format_f v ≡ false
    walk-Within v _ (itself _) h = h
    walk-Within v (arr vs) (in_list _ _ m) h = items-Within v vs m h
    walk-Within v (obj fs) (in_object _ _ m) h = fields-Within v fs m h

    items-Within :
        (v : Json) (vs : Items)
        → WithinItems v vs
        → items_have_phi format_f vs ≡ false
        → walk_has_phi format_f v ≡ false
    items-Within v nil m h = elim m [ ]
    items-Within v (cons w vs) (first_item _ _ _ m) h =
        let (a, _) = or-false _ _ h in walk-Within v w m a
    items-Within v (cons w vs) (later_item _ _ _ m) h =
        let (_, b) = or-false _ _ h in items-Within v vs m b

    fields-Within :
        (v : Json) (fs : Fields)
        → WithinFields v fs
        → fields_have_phi format_f fs ≡ false
        → walk_has_phi format_f v ≡ false
    fields-Within v end m h = elim m [ ]
    fields-Within v (field k w fs) (first_field _ _ _ _ m) h =
        let (_, r) = or-false _ _ h in let (b, _) = or-false _ _ r in walk-Within v w m b
    fields-Within v (field k w fs) (later_field _ _ _ _ m) h =
        let (_, r) = or-false _ _ h in let (_, c) = or-false _ _ r in fields-Within v fs m c

  any-false :
      (p : Text → Bool) (k : Text) (ks : List Text) → any p ks ≡ false → In k ks → p k ≡ false
  unfolding any
  any-false p k [] h m = absurd m
  any-false p k (x ∷ ks) h (inl e) = let (a, b) = or-false (p x) (any p ks) h in ap p e ∙ a
  any-false p k (x ∷ ks) h (inr m) =
      let (a, b) = or-false (p x) (any p ks) h in any-false p k ks b m

  not-true : (b : Bool) → not b ≡ true → b ≡ false
  not-true true h = cc
  not-true false h = refl

  -- Where an operation passes, all that stands in its written fields at any depth is harmless: no text
  -- and no number that is a value looks identifying, and a key that is named like an identifier has an
  -- empty value. A key is not asked to look harmless as a value is.
  pub assert_no_phi-IsHarmless :
      (fs : Fields) (k : Text) (v w : Json)
      → assert_no_phi format_f (obj fs) ≡ true
      → In k scanned_op_fields
      → get_field k fs ≡ some v
      → Within w v
      → IsHarmless w
  unfolding assert_no_phi
  assert_no_phi-IsHarmless fs k v w h m g u =
      let f =
        any-false (λ x. field_has_phi format_f (get_field x fs)) k scanned_op_fields (not-true _ h)
          m in
      value-IsHarmless w (walk-Within w v u (subst (λ o. field_has_phi format_f o ≡ false) g f))
