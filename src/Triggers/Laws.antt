-- ===== src/Triggers/Laws.antt =====
-- The triggers that pass without defaults of variables.
use mcp_assist_memory.Prelude.{
  ℕ, suc, ◌≤◌, Text, codes, Bool, true, false, not, List, [], ◌∷◌, ◌++◌, ◌≡◌, ◌≢◌, ◌&&◌, ◌||◌, refl,
  sym, subst, text_eq_iff, arith, ltb, text_eq, mem_text, length, if-cases,
}
use mcp_assist_memory.Json.{
  Json, null, bool, int, float, str, arr, obj, Items, nil, cons, Fields, end, field,
}
use mcp_assist_memory.Regex.{matches}
use mcp_assist_memory.Triggers.{
  allowed_operators, allowed_vars, suspicious, Fault, Walked, append_fault, count_node, append_if,
  var_name, check_name, check_text, guarded, walk, walk_object, walk_items, final, validate_trigger,
  max_nodes, max_depth, max_string_len, too_deep, too_many_nodes, operator_not_allowed,
  not_one_operator, var_not_allowed, var_not_text, looks_executable, string_too_long,
}
use mcp_assist_memory.Triggers.Language.{
  IsVar, IsVarArgs, IsNode, null_node, bool_node, int_node, float_node, text_node, list_node,
  var_node, operator_node, IsArgs, several, single, IsNodes, no_nodes, more_nodes, is_alone,
  has_no_default, items_have_no_default, fields_have_no_default,
}

alone-IsVarArgs : (args : Json) → is_alone args ≡ true → IsVar (var_name args) → IsVarArgs args
alone-IsVarArgs (str s) a h = h
alone-IsVarArgs (arr nil) a h = absurd h
alone-IsVarArgs (arr (cons (str s) nil)) a h = h
alone-IsVarArgs (arr (cons null nil)) a h = absurd h
alone-IsVarArgs (arr (cons (bool b) nil)) a h = absurd h
alone-IsVarArgs (arr (cons (int s n) nil)) a h = absurd h
alone-IsVarArgs (arr (cons (float bits) nil)) a h = absurd h
alone-IsVarArgs (arr (cons (arr vs) nil)) a h = absurd h
alone-IsVarArgs (arr (cons (obj fs) nil)) a h = absurd h
alone-IsVarArgs (arr (cons v (cons w vs))) a h = absurd (cc)
alone-IsVarArgs null a h = absurd h
alone-IsVarArgs (bool b) a h = absurd h
alone-IsVarArgs (int s n) a h = absurd h
alone-IsVarArgs (float bits) a h = absurd h
alone-IsVarArgs (obj fs) a h = absurd h

both : (a b : Bool) → (a && b) ≡ true → (a ≡ true) × (b ≡ true)
both a b h = ground arith

-- a walk so far without a fault, within the bound on the nodes
pub record IsQuiet (w : Walked) : Type 0 where
  pub faultless : w.faults ≡ []
  pub bounded : w.nodes ≤ 100

not-false : (b : Bool) → not b ≡ false → b ≡ true
not-false true h = refl
not-false false h = cc

append-nonempty : (es : List Fault) (e : Fault) → es ++ (e ∷ []) ≢ []
append-nonempty [] e h = cc
append-nonempty (x ∷ es) e h = cc

append_fault-loud : (e : Fault) (w : Walked) → IsQuiet (append_fault e w) → ⊥
append_fault-loud e w h = append-nonempty w.faults e h.faultless

append_if-IsQuiet :
    (b : Bool) (e : Fault) (w : Walked) → IsQuiet (append_if b e w) → (b ≡ false) × IsQuiet w
append_if-IsQuiet true e w h = absurd (append_fault-loud e w h)
append_if-IsQuiet false e w h = (refl, h)

count_node-IsQuiet : (w : Walked) → IsQuiet (count_node w) → IsQuiet w
count_node-IsQuiet w h = record { faultless = h.faultless; bounded = omega (arith, h.bounded) }

-- Where the guards of a walk let it end quietly, its body ran, and ended quietly.
guarded-IsQuiet :
    (d : ℕ) (w : Walked) (f : Walked → Walked)
    → IsQuiet (guarded d w f)
    → (d ≤ 8) × IsQuiet (f (count_node w))
guarded-IsQuiet d w f h =
    if-cases (ltb max_nodes (count_node w).nodes) _ _ IsQuiet h
      (λ q k. absurd (let b = k.bounded in ground arith))
      (λ q k.
        if-cases (ltb max_depth d) _ _ IsQuiet k
          (λ z l. absurd (append_fault-loud too_deep (count_node w) l)) (λ z l. (ground arith, l)))

check_text-IsQuiet :
    (s : Text) (w : Walked)
    → IsQuiet (check_text s w)
    → (length s ≤ 200) × (matches suspicious s ≡ false) × IsQuiet w
check_text-IsQuiet s w h =
    let (a, k) = append_if-IsQuiet (matches suspicious s) looks_executable _ h in
    let (b, l) = append_if-IsQuiet (ltb max_string_len (length s)) string_too_long w k in
    (ground arith, a, l)

check_name-IsQuiet : (v : Json) (w : Walked) → IsQuiet (check_name v w) → IsVar v × IsQuiet w
check_name-IsQuiet (str s) w h =
    let (a, k) = append_if-IsQuiet (not (mem_text s allowed_vars)) var_not_allowed w h in
    (not-false _ a, k)
check_name-IsQuiet null w h = absurd (append_fault-loud var_not_text w h)
check_name-IsQuiet (bool b) w h = absurd (append_fault-loud var_not_text w h)
check_name-IsQuiet (int s n) w h = absurd (append_fault-loud var_not_text w h)
check_name-IsQuiet (float b) w h = absurd (append_fault-loud var_not_text w h)
check_name-IsQuiet (arr vs) w h = absurd (append_fault-loud var_not_text w h)
check_name-IsQuiet (obj fs) w h = absurd (append_fault-loud var_not_text w h)

abbrev IsAt : Bool → ℕ → Json → Type 0
IsAt false d v = IsNode d v
IsAt true d v = IsArgs d v

node-IsAt : (b : Bool) (d : ℕ) (v : Json) → IsNode d v → IsAt b d v
node-IsAt false d v h = h
node-IsAt true d v h = single d v h

mutual
  unfolding walk walk_object walk_items has_no_default items_have_no_default fields_have_no_default

  walk-IsQuiet :
      (b : Bool) (d : ℕ) (v : Json) (w : Walked)
      → has_no_default v ≡ true
      → IsQuiet (walk b d v w)
      → IsAt b d v × IsQuiet w
  walk-IsQuiet b d null w p h =
      let (a, k) = guarded-IsQuiet d w (λ x. x) h in
      (node-IsAt b d null (null_node d a), count_node-IsQuiet w k)
  walk-IsQuiet b d (bool x) w p h =
      let (a, k) = guarded-IsQuiet d w (λ x. x) h in
      (node-IsAt b d (bool x) (bool_node d x a), count_node-IsQuiet w k)
  walk-IsQuiet b d (int s n) w p h =
      let (a, k) = guarded-IsQuiet d w (λ x. x) h in
      (node-IsAt b d (int s n) (int_node d s n a), count_node-IsQuiet w k)
  walk-IsQuiet b d (float bits) w p h =
      let (a, k) = guarded-IsQuiet d w (λ x. x) h in
      (node-IsAt b d (float bits) (float_node d bits a), count_node-IsQuiet w k)
  walk-IsQuiet b d (str s) w p h =
      let (a, k) = guarded-IsQuiet d w (check_text s) h in
      let (u, c, l) = check_text-IsQuiet s (count_node w) k in
      (node-IsAt b d (str s) (text_node d s a u c), count_node-IsQuiet w l)
  walk-IsQuiet true d (arr vs) w p h =
      let (u, l) = walk_items-IsQuiet d vs w p h in (several d vs u, l)
  walk-IsQuiet false d (arr vs) w p h =
      let (a, k) = guarded-IsQuiet d w (λ x. walk_items (suc d) vs x) h in
      let (u, l) = walk_items-IsQuiet (suc d) vs (count_node w) p k in
      (list_node d vs a u, count_node-IsQuiet w l)
  walk-IsQuiet b d (obj fs) w p h =
      let (a, k) = guarded-IsQuiet d w (λ x. walk_object d fs x) h in
      let (u, l) = walk_object-IsQuiet d fs (count_node w) a p k in
      (node-IsAt b d (obj fs) u, count_node-IsQuiet w l)

  walk_object-IsQuiet :
      (d : ℕ) (fs : Fields) (w : Walked)
      → d ≤ 8
      → fields_have_no_default fs ≡ true
      → IsQuiet (walk_object d fs w)
      → IsNode d (obj fs) × IsQuiet w
  walk_object-IsQuiet d end w a p h = absurd (append_fault-loud not_one_operator w h)
  walk_object-IsQuiet d (field op args (field k v fs)) w a p h =
      absurd (append_fault-loud not_one_operator w h)
  walk_object-IsQuiet d (field op args end) w a p h =
      let (p0, p1) =
        both (not (text_eq op (codes "var")) || is_alone args) (has_no_default args && true) p in
      let (p2, _) = both (has_no_default args) true p1 in
      if-cases (not (mem_text op allowed_operators)) _ _ IsQuiet h
        (λ q k. absurd (append_fault-loud operator_not_allowed w k))
        (λ q k.
          if-cases (text_eq op (codes "var")) _ _ IsQuiet k
            (λ z l.
              let (n, m) = check_name-IsQuiet (var_name args) w l in
              (
                subst (λ o. IsNode d (obj (field o args end)))
                    (sym ((text_eq_iff op (codes "var")).0 z))
                    (var_node d args a (alone-IsVarArgs args (ground arith) n)),
                m,
              ))
            (λ z l.
              let (n, m) = walk-IsQuiet true (suc d) args w p2 l in
              (operator_node d op args a (not-false _ q) z n, m)))

  walk_items-IsQuiet :
      (d : ℕ) (vs : Items) (w : Walked)
      → items_have_no_default vs ≡ true
      → IsQuiet (walk_items d vs w)
      → IsNodes d vs × IsQuiet w
  walk_items-IsQuiet d nil w p h = (no_nodes d, h)
  walk_items-IsQuiet d (cons v vs) w p h =
      let (p0, p1) = both (has_no_default v) (items_have_no_default vs) p in
      let (b, k) = walk_items-IsQuiet d vs (walk false d v w) p1 h in
      let (a, l) = walk-IsQuiet false d v w p0 k in (more_nodes d v vs a b, l)

final-IsQuiet : (w : Walked) → final w ≡ [] → IsQuiet w
final-IsQuiet w h = go (ltb max_nodes w.nodes) refl h
  where
    go :
        (b : Bool)
        → ltb max_nodes w.nodes ≡ b
        → (append_if b too_many_nodes w).faults ≡ []
        → IsQuiet w
    go true e k = absurd (append-nonempty w.faults too_many_nodes k)
    go false e k = record { faultless = k; bounded = ground arith }

-- Where no variable of a trigger is given a default, a trigger without a fault is an object, and a
-- term of the documented language: each node has at most depth 8, each operator and each variable is
-- a documented one, each text is short and harmless.
pub validate_trigger-IsNode :
    (trigger : Json)
    → has_no_default trigger ≡ true
    → validate_trigger trigger ≡ []
    → IsNode 0 trigger × (fs : Fields) × (trigger ≡ obj fs)
unfolding validate_trigger has_no_default
validate_trigger-IsNode null p h = cc
validate_trigger-IsNode (bool b) p h = cc
validate_trigger-IsNode (int s n) p h = cc
validate_trigger-IsNode (float bits) p h = cc
validate_trigger-IsNode (str s) p h = cc
validate_trigger-IsNode (arr vs) p h = cc
validate_trigger-IsNode (obj end) p h = cc
validate_trigger-IsNode (obj (field k v fs)) p h =
    let start : Walked = record { faults = []; nodes = 0 } in
    let (a, _) =
      walk-IsQuiet false 0 (obj (field k v fs)) start p
        (final-IsQuiet (walk false 0 (obj (field k v fs)) start) h) in
    (a, field k v fs, refl)
