-- ===== src/Triggers/Tests.antt =====
-- Concrete triggers.
use mcp_assist_memory.Prelude.{codes, true, some, [], ◌∷◌, ◌≡◌, refl, mem_text, text_eq}
use mcp_assist_memory.Json.{Json, truthy, bool, str, arr, obj, nil, cons, Fields, end, field}
use mcp_assist_memory.Regex.{matches}
use mcp_assist_memory.Triggers.{
  validate_trigger, evaluate_trigger, walk, operator_not_allowed, suspicious, allowed_vars,
}
use mcp_assist_memory.Triggers.Language.{IsNode, has_no_default}
use mcp_assist_memory.Triggers.Laws.{validate_trigger-IsNode}
use mcp_assist_memory.Triggers.Defaults.{evaluate_trigger_defaults}

abbrev drops : Json
drops = obj (
    field (codes "==")
      (arr (
        cons (obj (field (codes "var") (str (codes "action")) end))
          (cons (str (codes "drop")) nil)))
      end)

drops_valid : validate_trigger drops ≡ []
unfolding validate_trigger walk mem_text text_eq matches suspicious
drops_valid = refl

loops_refused :
    validate_trigger (obj (field (codes "map") (arr nil) end)) ≡ operator_not_allowed ∷ []
unfolding validate_trigger walk mem_text text_eq
loops_refused = refl

drops_defaultless : has_no_default drops ≡ true
unfolding has_no_default text_eq
drops_defaultless = refl

validate_trigger-IsNode_example : IsNode 0 drops × (fs : Fields) × (drops ≡ obj fs)
validate_trigger-IsNode_example = validate_trigger-IsNode drops drops_defaultless drops_valid

-- a default with an operator that is not allowed
abbrev mapped : Json
mapped = obj (field (codes "map") (arr nil) end)

abbrev defaulted : Json
defaulted = obj (field (codes "var") (arr (cons (str (codes "action")) (cons mapped nil))) end)

action_allowed : mem_text (codes "action") allowed_vars ≡ true
unfolding mem_text text_eq
action_allowed = refl

evaluate_trigger_defaults_example :
    (IsNode 0 defaulted → ⊥)
    × (validate_trigger defaulted ≡ [])
    × (evaluate_trigger (λ t d. some (bool true)) defaulted end ≡ some true)
unfolding truthy
evaluate_trigger_defaults_example =
    evaluate_trigger_defaults (λ t d. some (bool true)) (codes "action") mapped nil end
      action_allowed
