-- ===== src/Phi/Tests.antt =====
-- Concrete operations.
use mcp_assist_memory.Prelude.{
  codes, true, false, some, [], ◌≡◌, refl, any, starts_with, lower, inl, text_eq,
}
use mcp_assist_memory.Json.{str, obj, Fields, end, field, get_field}
use mcp_assist_memory.Regex.{matches}
use mcp_assist_memory.Phi.{
  value_looks_identifying, key_looks_identifying, contains, walk_has_phi, assert_no_phi, ssn, email,
  phone, long_digits,
}
use mcp_assist_memory.Phi.Laws.{Within, WithinFields, IsHarmless, assert_no_phi-IsHarmless}

abbrev op : Fields
op = field (codes "value") (obj (field (codes "note") (str (codes "merged pr 12")) end)) end

op_passes : assert_no_phi (λ bits. []) (obj op) ≡ true
unfolding assert_no_phi walk_has_phi value_looks_identifying key_looks_identifying contains matches
    ssn email phone long_digits any get_field text_eq starts_with lower
op_passes = refl

op_value :
    get_field (codes "value") op
    ≡ some (obj (field (codes "note") (str (codes "merged pr 12")) end))
unfolding get_field text_eq
op_value = refl

note_Within :
    Within
      (str (codes "merged pr 12"))
      (obj (field (codes "note") (str (codes "merged pr 12")) end))
note_Within = Within.in_object _ _ (WithinFields.first_field _ _ _ _ (Within.itself _))

ssn_refused :
    assert_no_phi (λ bits. []) (obj (field (codes "value") (str (codes "123-45-6789")) end)) ≡ false
unfolding assert_no_phi walk_has_phi value_looks_identifying matches ssn any get_field text_eq
ssn_refused = refl

phone_found : matches phone (codes "call (555) 123-4567") ≡ true
unfolding matches phone
phone_found = refl

email_found : matches email (codes "to ann.b@x-y.org now") ≡ true
unfolding matches email
email_found = refl

assert_no_phi-IsHarmless_example : IsHarmless (λ bits. []) (str (codes "merged pr 12"))
assert_no_phi-IsHarmless_example =
    assert_no_phi-IsHarmless (λ bits. []) op (codes "value")
      (obj (field (codes "note") (str (codes "merged pr 12")) end)) (str (codes "merged pr 12"))
      op_passes (inl refl) op_value note_Within
