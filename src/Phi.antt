-- ===== src/Phi.antt =====
-- storage/phi.py: the gate against patient identifiers, on the operations of the curator. How `format`
-- prints a float is a parameter. Digits and letters beyond ASCII are not in `\d` and `\w`.
pub mod Laws
pub mod Tests
use mcp_assist_memory.Prelude.{
  ℕ, Text, codes, Bool, true, false, not, Option, none, some, List, [], ◌∷◌, ◌&&◌, ◌||◌, any,
  starts_with, lower, if◌then◌else◌, ◌==◌,
}
use mcp_assist_memory.Json.{
  Json, null, bool, int, float, str, arr, obj, Items, nil, cons, Fields, end, field, get_field,
}
use mcp_assist_memory.Json.Digits.{decimal}
use mcp_assist_memory.Regex.{
  Regex, one, seq, alt, star, boundary, not_ahead, not_behind, matches, plus, optional, char, times,
  is_digit, is_word, is_space,
}

abbrev digit : Regex
digit = one is_digit

pub ssn : Regex
ssn = seq boundary (
    seq (times 3 digit)
      (seq (char 45) (seq (times 2 digit) (seq (char 45) (seq (times 4 digit) boundary)))))

-- `[\w.+-]`, `[\w-]` and `[\w.-]`
abbrev local_char : ℕ → Bool
local_char c = is_word c || (c == 46 || (c == 43 || c == 45))

abbrev host_char : ℕ → Bool
host_char c = is_word c || c == 45

abbrev domain_char : ℕ → Bool
domain_char c = is_word c || (c == 46 || c == 45)

pub email : Regex
email = seq boundary (
    seq (plus (one local_char)) (
      seq (char 64)
        (seq (plus (one host_char)) (seq (char 46) (seq (plus (one domain_char)) boundary)))))

-- `[\s.-]?`
abbrev gap : Regex
gap = optional (one (λ c. is_space c || (c == 46 || c == 45)))

pub phone : Regex
phone = seq boundary (
    seq (optional (seq (optional (char 43)) (seq (alt (times 2 digit) digit) gap))) (
      seq (optional (char 40)) (
        seq (times 3 digit) (
          seq (optional (char 41))
            (seq gap (seq (times 3 digit) (seq gap (seq (times 4 digit) boundary))))))))

pub long_digits : Regex
long_digits =
    seq (not_behind is_digit) (seq (times 9 digit) (seq (star digit) (not_ahead is_digit)))

abbrev pub phi_key_tokens : List Text
phi_key_tokens =
    codes "patient"
    ∷ codes "mrn"
    ∷ codes "ssn"
    ∷ codes "dob"
    ∷ codes "date_of_birth"
    ∷ codes "birth_date"
    ∷ codes "birthdate"
    ∷ codes "first_name"
    ∷ codes "last_name"
    ∷ codes "full_name"
    ∷ codes "given_name"
    ∷ codes "family_name"
    ∷ codes "home_address"
    ∷ codes "street_address"
    ∷ codes "phone"
    ∷ codes "email"
    ∷ codes "insurance_id"
    ∷ codes "member_id"
    ∷ codes "medical_record"
    ∷ codes "diagnosis_code"
    ∷ []

unfoldable pub value_looks_identifying : Text → Bool
value_looks_identifying text =
    matches ssn text || (matches email text || (matches phone text || matches long_digits text))

-- `tok in low`
unfoldable pub contains : Text → Text → Bool
contains [] tok = starts_with [] tok
contains (c ∷ s) tok = starts_with (c ∷ s) tok || contains s tok

unfoldable pub key_looks_identifying : Text → Bool
key_looks_identifying key = any (contains (lower key)) phi_key_tokens

-- `text_looks_identifying`
unfoldable pub text_looks_identifying : Text → Bool
unfolding value_looks_identifying key_looks_identifying
text_looks_identifying [] = false
text_looks_identifying (c ∷ s) = value_looks_identifying (c ∷ s) || key_looks_identifying (c ∷ s)

-- `v in (None, "", [], {})`
abbrev pub is_empty_value : Json → Bool
is_empty_value null = true
is_empty_value (str []) = true
is_empty_value (arr nil) = true
is_empty_value (obj end) = true
is_empty_value _ = false

-- `str(n)`
abbrev pub int_text : Bool → ℕ → Text
int_text true n = 45 ∷ decimal n
int_text false n = decimal n

abbrev pub scanned_op_fields : List Text
scanned_op_fields =
    codes "value"
    ∷ codes "key"
    ∷ codes "subjects"
    ∷ codes "tags"
    ∷ codes "meta"
    ∷ codes "embeddings"
    ∷ []

module _ (format_f : ℕ → Text) where
  -- `_walk_has_phi`
  unfoldable mutual
    pub walk_has_phi : Json → Bool
    walk_has_phi null = false
    walk_has_phi (bool b) = false
    walk_has_phi (int s n) = value_looks_identifying (int_text s n)
    walk_has_phi (float bits) = value_looks_identifying (format_f bits)
    walk_has_phi (str s) = value_looks_identifying s
    walk_has_phi (arr vs) = items_have_phi vs
    walk_has_phi (obj fs) = fields_have_phi fs

    pub items_have_phi : Items → Bool
    items_have_phi nil = false
    items_have_phi (cons v vs) = walk_has_phi v || items_have_phi vs

    pub fields_have_phi : Fields → Bool
    fields_have_phi end = false
    fields_have_phi (field k v fs) =
        (key_looks_identifying k && not (is_empty_value v))
        || (walk_has_phi v || fields_have_phi fs)

  abbrev pub field_has_phi : Option Json → Bool
  field_has_phi none = false
  field_has_phi (some v) = walk_has_phi v

  -- `assert_no_phi`
  unfoldable pub assert_no_phi : Json → Bool
  assert_no_phi (obj op) = not (any (λ k. field_has_phi (get_field k op)) scanned_op_fields)
  assert_no_phi _ = false
