-- ===== src/Triggers.antt =====
-- storage/triggers.py: which triggers pass, and what the evaluator is then given. json-logic itself
-- is a parameter, with `none` where it raises. An error is kept without its text.
pub mod Language
pub mod Laws
pub mod Defaults
pub mod Tests
use mcp_assist_memory.Prelude.{
  ℕ, suc, ◌+◌, Text, codes, Bool, true, false, not, Option, none, some, List, [], ◌∷◌, ◌++◌, ltb,
  leb, ◌&&◌, ◌||◌, text_eq, mem_text, length, if◌then◌else◌,
}
use mcp_assist_memory.Json.{
  Json, null, bool, int, float, str, arr, obj, Items, nil, cons, Fields, end, field, get, truthy,
}
use mcp_assist_memory.Regex.{
  Regex, one, seq, alt, boundary, matches, plus, optional, word, words, lit, blanks, blanks_plus,
  fold,
}

abbrev pub allowed_operators : List Text
allowed_operators =
    codes "==" ∷ codes "!=" ∷ codes "in" ∷ codes "and" ∷ codes "or" ∷ codes "!" ∷ codes "var" ∷ []

abbrev pub allowed_vars : List Text
allowed_vars = codes "action" ∷ codes "object" ∷ codes "condition" ∷ codes "raw" ∷ []

abbrev pub max_depth : ℕ
max_depth = 8

abbrev pub max_nodes : ℕ
max_nodes = 100

abbrev pub max_string_len : ℕ
max_string_len = 200

abbrev is_letter : ℕ → Bool
is_letter c = leb 97 (fold c) && leb (fold c) 122

unfoldable pub suspicious : Regex
suspicious = alt (seq (lit "<") (seq blanks (word "script"))) (
    alt (word "javascript:") (
      alt (lit "{{") (
        alt (lit "}}") (
          alt (lit "${") (
            alt (seq (lit "__") (seq (plus (one is_letter)) (lit "__"))) (
              alt (seq boundary (seq (words ("eval" ∷ "exec" ∷ "import" ∷ [])) boundary)) (
                alt
                  (seq boundary (
                    seq (word "ignore") (
                      seq blanks_plus (
                        seq (optional (seq (word "all") blanks_plus))
                          (seq (word "previous") boundary)))))
                  (seq boundary
                    (seq (word "system") (seq blanks_plus (seq (word "prompt") boundary)))))))))))

pub data Fault : Type 0 where
  is_null not_an_object empty_object too_many_nodes too_deep : Fault
  not_one_operator operator_not_allowed var_not_text var_not_allowed : Fault
  string_too_long looks_executable : Fault

-- `errors` and `counter["nodes"]`
pub record Walked : Type 0 where
  pub faults : List Fault
  pub nodes : ℕ

abbrev pub append_fault : Fault → Walked → Walked
append_fault e w = record { faults = w.faults ++ (e ∷ []); nodes = w.nodes }

abbrev pub count_node : Walked → Walked
count_node w = record { faults = w.faults; nodes = w.nodes + 1 }

abbrev pub append_if : Bool → Fault → Walked → Walked
append_if true e w = append_fault e w
append_if false e w = w

-- `args[0] if isinstance(args, list) and args else args`
abbrev pub var_name : Json → Json
var_name (arr (cons v vs)) = v
var_name v = v

-- `_check_var`, for the name
abbrev pub check_name : Json → Walked → Walked
check_name (str s) w = append_if (not (mem_text s allowed_vars)) var_not_allowed w
check_name _ w = append_fault var_not_text w

abbrev pub check_text : Text → Walked → Walked
check_text s w =
    append_if (matches suspicious s) looks_executable
      (append_if (ltb max_string_len (length s)) string_too_long w)

-- The guards at the head of `_walk`, and its body `f` on the counted state.
abbrev pub guarded : ℕ → Walked → (Walked → Walked) → Walked
guarded depth w f =
    let counted = count_node w in
    if ltb max_nodes counted.nodes
    then counted
    else if ltb max_depth depth
    then append_fault too_deep counted
    else f counted

-- The test on the operator; `f` walks the arguments.
abbrev pub walk_op : Text → Json → (Walked → Walked) → Walked → Walked
walk_op op args f w =
    if not (mem_text op allowed_operators)
    then append_fault operator_not_allowed w
    else if text_eq op (codes "var")
    then check_name (var_name args) w
    else f w

-- `_walk`. The first argument says that the value is what an operator is applied to: its loop then
-- runs over a list at once, while anything else is a node of its own.
unfoldable mutual
  pub walk : Bool → ℕ → Json → Walked → Walked
  walk applied depth null w = guarded depth w (λ x. x)
  walk applied depth (bool b) w = guarded depth w (λ x. x)
  walk applied depth (int s n) w = guarded depth w (λ x. x)
  walk applied depth (float bits) w = guarded depth w (λ x. x)
  walk applied depth (str s) w = guarded depth w (check_text s)
  walk true depth (arr vs) w = walk_items depth vs w
  walk false depth (arr vs) w = guarded depth w (λ x. walk_items (suc depth) vs x)
  walk applied depth (obj fs) w = guarded depth w (λ x. walk_object depth fs x)

  pub walk_object : ℕ → Fields → Walked → Walked
  walk_object depth end w = append_fault not_one_operator w
  walk_object depth (field op args end) w = walk_op op args (λ x. walk true (suc depth) args x) w
  walk_object depth (field op args (field k v fs)) w = append_fault not_one_operator w

  pub walk_items : ℕ → Items → Walked → Walked
  walk_items depth nil w = w
  walk_items depth (cons v vs) w = walk_items depth vs (walk false depth v w)

abbrev pub final : Walked → List Fault
final w = (append_if (ltb max_nodes w.nodes) too_many_nodes w).faults

unfoldable pub validate_trigger : Json → List Fault
validate_trigger null = is_null ∷ []
validate_trigger (obj end) = empty_object ∷ []
validate_trigger (obj (field k v fs)) =
    final (walk false 0 (obj (field k v fs)) (record { faults = []; nodes = 0 }))
validate_trigger _ = not_an_object ∷ []

abbrev or_null : Option Json → Json
or_null none = null
or_null (some v) = v

abbrev or_empty : Option Json → Json
or_empty none = str []
or_empty (some v) = v

-- `data`: the four documented features, the texts among them empty where the extraction has none
unfoldable pub exposed : Fields → Fields
exposed features = field (codes "action") (or_null (get (codes "action") features)) (
    field (codes "object") (or_null (get (codes "object") features)) (
      field (codes "condition") (or_empty (get (codes "condition") features))
        (field (codes "raw") (or_empty (get (codes "raw") features)) end)))

abbrev pub decided : Option Json → Option Bool
decided none = none
decided (some v) = some (truthy v)

abbrev pub evaluate_valid : Option Json → List Fault → Option Bool
evaluate_valid result [] = decided result
evaluate_valid result (e ∷ es) = none

-- The first argument is `jsonLogic`.
unfoldable pub evaluate_trigger : (Json → Fields → Option Json) → Json → Fields → Option Bool
unfolding exposed
evaluate_trigger json_logic trigger features =
    evaluate_valid (json_logic trigger (exposed features)) (validate_trigger trigger)
