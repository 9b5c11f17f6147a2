-- ===== src/Json/Lookup.antt =====
-- Reading a field after one is set.
use mcp_assist_memory.Prelude.{
  Text, text_eq, text_eq_iff, text_eq_refl, false, none, some, ◌≡◌, refl, sym, subst, Bool-cases,
  inl, inr,
}
use mcp_assist_memory.Json.{Json, str, Fields, end, field, get, get_field, set_field, drop_field}

pub get_field-set_same :
    (k : Text) (v : Json) (fs : Fields) → get_field k (set_field k v fs) ≡ some v
unfolding get_field set_field
get_field-set_same k v end = rw (text_eq_refl k)
get_field-set_same k v (field j w fs) = elim (Bool-cases (text_eq j k)) [
  | inl e ↦ rw (e, e)
  | inr e ↦ rw (e, e, get_field-set_same k v fs)
]

pub get_field-set_other :
    (k j : Text) (v : Json) (fs : Fields)
    → text_eq j k ≡ false
    → get_field k (set_field j v fs) ≡ get_field k fs
unfolding get_field set_field
get_field-set_other k j v end e = rw e
get_field-set_other k j v (field i w fs) e = elim (Bool-cases (text_eq i j)) [
  | inl q ↦
      let e2 : text_eq i k ≡ false =
        subst (λ x. text_eq x k ≡ false) (sym ((text_eq_iff i j).0 q)) e in
      rw (q, e2)
  | inr q ↦ rw (q, get_field-set_other k j v fs e)
]

pub get-set_same : (k s : Text) (fs : Fields) → get k (set_field k (str s) fs) ≡ some (str s)
unfolding get
get-set_same k s fs = rw (get_field-set_same k (str s) fs)

pub get-set_other :
    (k j : Text) (v : Json) (fs : Fields)
    → text_eq j k ≡ false
    → get k (set_field j v fs) ≡ get k fs
unfolding get
get-set_other k j v fs e = rw (get_field-set_other k j v fs e)

pub get_field-drop_same : (k : Text) (fs : Fields) → get_field k (drop_field k fs) ≡ none
unfolding get_field drop_field
get_field-drop_same k end = refl
get_field-drop_same k (field j w fs) = elim (Bool-cases (text_eq j k)) [
  | inl e ↦ rw e (get_field-drop_same k fs)
  | inr e ↦ rw (e, e) (get_field-drop_same k fs)
]

pub get_field-drop_other :
    (k j : Text) (fs : Fields)
    → text_eq j k ≡ false
    → get_field k (drop_field j fs) ≡ get_field k fs
unfolding get_field drop_field
get_field-drop_other k j end e = refl
get_field-drop_other k j (field i w fs) e = elim (Bool-cases (text_eq i j)) [
  | inl q ↦
      let e2 : text_eq i k ≡ false =
        subst (λ x. text_eq x k ≡ false) (sym ((text_eq_iff i j).0 q)) e in
      rw (q, e2) (get_field-drop_other k j fs e)
  | inr q ↦ rw (q, get_field-drop_other k j fs e)
]
