-- ===== src/Triggers/Language.antt =====
-- The language of triggers that the head of storage/triggers.py documents.
use mcp_assist_memory.Prelude.{
  ℕ, suc, ◌≤◌, Text, codes, Bool, true, false, not, ◌≡◌, ◌&&◌, ◌||◌, text_eq, mem_text, length,
}
use mcp_assist_memory.Json.{
  Json, null, bool, int, float, str, arr, obj, Items, nil, cons, Fields, end, field,
}
use mcp_assist_memory.Regex.{matches}
use mcp_assist_memory.Triggers.{allowed_operators, allowed_vars, suspicious}

abbrev pub IsVar : Json → Type 0
IsVar (str s) = mem_text s allowed_vars ≡ true
IsVar _ = ⊥

-- what `var` is applied to: one of the documented variables, alone or as the only item of a list
abbrev pub IsVarArgs : Json → Type 0
IsVarArgs (str s) = mem_text s allowed_vars ≡ true
IsVarArgs (arr (cons (str s) nil)) = mem_text s allowed_vars ≡ true
IsVarArgs _ = ⊥

-- The language of triggers: every node at depth 8 at most, every operator and variable one of the
-- documented, every text short and harmless.
mutual
  pub data IsNode : ℕ → Json → Type 0 where
    null_node : (d : ℕ) → d ≤ 8 → IsNode d null
    bool_node : (d : ℕ) (b : Bool) → d ≤ 8 → IsNode d (bool b)
    int_node : (d : ℕ) (s : Bool) (n : ℕ) → d ≤ 8 → IsNode d (int s n)
    float_node : (d : ℕ) (bits : ℕ) → d ≤ 8 → IsNode d (float bits)
    text_node :
        (d : ℕ) (s : Text)
        → d ≤ 8
        → length s ≤ 200
        → matches suspicious s ≡ false
        → IsNode d (str s)
    list_node : (d : ℕ) (vs : Items) → d ≤ 8 → IsNodes (suc d) vs → IsNode d (arr vs)
    var_node :
        (d : ℕ) (args : Json)
        → d ≤ 8
        → IsVarArgs args
        → IsNode d (obj (field (codes "var") args end))
    operator_node :
        (d : ℕ) (op : Text) (args : Json)
        → d ≤ 8
        → mem_text op allowed_operators ≡ true
        → text_eq op (codes "var") ≡ false
        → IsArgs (suc d) args
        → IsNode d (obj (field op args end))

  pub data IsArgs : ℕ → Json → Type 0 where
    several : (d : ℕ) (vs : Items) → IsNodes d vs → IsArgs d (arr vs)
    single : (d : ℕ) (v : Json) → IsNode d v → IsArgs d v

  pub data IsNodes : ℕ → Items → Type 0 where
    no_nodes : (d : ℕ) → IsNodes d nil
    more_nodes : (d : ℕ) (v : Json) (vs : Items) → IsNode d v → IsNodes d vs → IsNodes d (cons v vs)

-- whether an argument list has no second item
abbrev pub is_alone : Json → Bool
is_alone (arr (cons v (cons w vs))) = false
is_alone _ = true

-- Whether no `var` at any depth is given a default, which is a second item of its argument list.
unfoldable mutual
  pub has_no_default : Json → Bool
  has_no_default (arr vs) = items_have_no_default vs
  has_no_default (obj fs) = fields_have_no_default fs
  has_no_default _ = true

  pub items_have_no_default : Items → Bool
  items_have_no_default nil = true
  items_have_no_default (cons v vs) = has_no_default v && items_have_no_default vs

  pub fields_have_no_default : Fields → Bool
  fields_have_no_default end = true
  fields_have_no_default (field op args fs) =
      (not (text_eq op (codes "var")) || is_alone args)
      && (has_no_default args && fields_have_no_default fs)
