-- ===== src/Triggers/Defaults.antt =====
-- `_check_var` of storage/triggers.py reads the first item of a variable's arguments alone.
use mcp_assist_memory.Prelude.{
  Text, codes, true, Option, ◌≡◌, refl, sym, subst, not, mem_text, text_eq, ℕ, [],
}
use mcp_assist_memory.Json.{Json, str, arr, obj, Items, cons, Fields, end, field}
use mcp_assist_memory.Triggers.{
  allowed_vars, walk, final, append_if, var_not_allowed, validate_trigger, exposed, decided,
  evaluate_trigger,
}
use mcp_assist_memory.Triggers.Language.{IsVarArgs, IsNode}

-- what the language asks of the arguments, where the operator of a node is `var`
abbrev IsVarNode : Json → Type 0
IsVarNode (obj (field op args end)) = text_eq op (codes "var") ≡ true → IsVarArgs args
IsVarNode _ = Unit {0}

IsNode-IsVarNode : (d : ℕ) (v : Json) → IsNode d v → IsVarNode v
IsNode-IsVarNode d v (IsNode.null_node _ _) = tt
IsNode-IsVarNode d v (IsNode.bool_node _ _ _) = tt
IsNode-IsVarNode d v (IsNode.int_node _ _ _ _) = tt
IsNode-IsVarNode d v (IsNode.float_node _ _ _) = tt
IsNode-IsVarNode d v (IsNode.text_node _ _ _ _ _) = tt
IsNode-IsVarNode d v (IsNode.list_node _ _ _ _) = tt
IsNode-IsVarNode d v (IsNode.var_node _ args _ a) = λ e. a
IsNode-IsVarNode d v (IsNode.operator_node _ op args _ _ n _) = λ e. absurd (cc)

-- A documented variable may be given any value as its default, with any operator in it and to any
-- depth: the trigger is no term of the documented language, and still it has no fault, and
-- json-logic decides it.
pub evaluate_trigger_defaults :
    (json_logic : Json → Fields → Option Json) (name : Text) (default : Json) (more : Items)
    (features : Fields)
    → mem_text name allowed_vars ≡ true
    → let trigger = obj (field (codes "var") (arr (cons (str name) (cons default more))) end) in
      (IsNode 0 trigger → ⊥)
      × (validate_trigger trigger ≡ [])
      × (evaluate_trigger json_logic trigger features
          ≡ decided (json_logic trigger (exposed features)))
unfolding evaluate_trigger
evaluate_trigger_defaults json_logic name default more features h =
    let trigger = obj (field (codes "var") (arr (cons (str name) (cons default more))) end) in
    let valid : validate_trigger trigger ≡ [] =
      unfold validate_trigger walk mem_text text_eq in
      subst
        (λ b. final (append_if (not b) var_not_allowed (record { faults = []; nodes = 1 })) ≡ [])
        (sym h) refl in
    (λ n. IsNode-IsVarNode 0 trigger n (unfold text_eq in refl), valid, rw valid)
