-- ===== src/PolicyIr/Tree/Check.antt =====
-- The checks of `NewTree` (`Tree.validate` and the methods of `checker` in tree.go). What the code
-- calls elsewhere is the record `Callees`.
use qubership_authz_agent.Base.{
  ℕ, ◌+◌, Bytes, Bool, true, false, List, [], ◌∷◌, Option, none, some, codes, contains, equal,
  is_empty, starts_with, not, ◌&&◌, ◌||◌, Result, ok, err, Check, fail_if, wrap, check_all, ◌>>◌,
  ◌>>=◌, if◌then◌else◌,
}
use qubership_authz_agent.PolicyIr.Cond.{
  Place, place_simplified, place_rule_condition, place_rule_target, place_policy_target,
  place_set_target, Atom, comparison, Condition, CondError, validate_condition,
}
use qubership_authz_agent.PolicyIr.Operand.{Operand, subject, pass_value, subject_permission_scope}
use qubership_authz_agent.PolicyIr.Tree.{
  Algorithm, algorithms, Effect, effects, Dialect, dialects, PipType, pip_types, CustomPredicate,
  Predicates, SimplifiedPolicy, SimplifiedGroup, Rule, Policy, Iterate, SetHead, PolicySet,
  policy_set, PolicySets, end, null, set, Pip, Tree,
}
use qubership_authz_agent.PolicyIr.Tree.Path.{
  Node, node_text, labels, labels_of, head_label, tail_labels, group_label, simplified_policy_label,
  policy_label, rule_label, set_labels, nil_index, nil_set_index,
}
use qubership_authz_agent.Regex.{is_some}

-- What the checks call: `jsonpath.Compile` (does it accept a path), `json.Compact` (the compacted
-- text, or none for text that is not JSON) and the `%q` of package fmt.
pub record Callees : Type 0 where
  pub compiles_path : Bytes → Bool
  pub compact : Bytes → Option Bytes
  pub quote : Bytes → Bytes

pub data Fault : Type 0 where
  nil_at : ℕ → Fault
  unknown_algorithm : Algorithm → Fault
  failing_with_children isolated_with_children : Fault
  no_var : Fault
  bound_twice : Bytes → Fault
  not_of_four : Algorithm → Fault
  unknown_effect : Effect → Fault
  bad_condition : CondError → Fault
  wrong_place : Place → Place → Fault
  outside_iterate : Bytes → Fault
  scope_in_iterate : Fault
  unknown_dialect : Dialect → Fault
  bad_param : Bytes → Fault

pub data TreeError : Type 0 where
  pip_nil group_nil : ℕ → TreeError
  pip_prefix pip_twice pip_isolated : Bytes → TreeError
  pip_type : Bytes → PipType → TreeError
  pip_json : Bytes → Bytes → TreeError
  at : Bytes → Fault → TreeError

-- `checker`: the vars bound so far, and those of the iterates around the node
pub record Checker : Type 0 where
  pub vars : List Bytes
  pub bound : List Bytes

-- `delete(m, k)` of a map used as a set
unfoldable pub delete : Bytes → List Bytes → List Bytes
delete k [] = []
delete k (x ∷ xs) = let rest = delete k xs in if equal k x then rest else x ∷ rest

-- `return fmt.Errorf("%s: …", where, …)`
abbrev pub fault_if : Node → Bool → Fault → Check TreeError
fault_if here b f = fail_if b (at (node_text here) f)

-- `if i := slices.Index(xs, nil); i >= 0 { return … }`
abbrev pub fail_at : (ℕ → TreeError) → Option ℕ → Check TreeError
fail_at e none = ok tt
fail_at e (some i) = err (e i)

-- `len(c.bound) > 0`
abbrev pub is_nonempty : List Bytes → Bool
is_nonempty [] = false
is_nonempty (x ∷ xs) = true

-- One operand of a comparison against the iterates around it.
unfoldable pub check_operand : List Bytes → Node → Option Operand → Check TreeError
check_operand bound here (some (pass_value v)) =
    fault_if here (not (contains bound v.var)) (outside_iterate v.var)
check_operand bound here (some (subject s)) =
    fault_if here (equal s.attr subject_permission_scope && is_nonempty bound) scope_in_iterate
check_operand bound here o = ok tt

unfoldable pub check_atom : List Bytes → Node → Option Atom → Check TreeError
unfolding check_operand
check_atom bound here (some (comparison c)) =
    check_operand bound here c.left >> check_operand bound here c.right
check_atom bound here a = ok tt

-- The loop over nodes that are not nil, each under its label.
unfoldable pub each {ℓ} :
    {A : Type ℓ}
    → (Node → A → Check TreeError)
    → Node
    → List Bytes
    → List (Option A)
    → Check TreeError
each f here ls [] = ok tt
each f here ls (none ∷ xs) = each f here ls xs
each f here ls (some x ∷ xs) = f (head_label ls ∷ here) x >> each f here (tail_labels ls) xs

-- The iterate of a set: its var is recorded, and is bound inside the set.
unfoldable pub enter : Node → Option Iterate → Checker → Result TreeError Checker
unfolding algorithms
enter here none c = ok c
enter here (some it) c = do
  fault_if here (is_empty it.var) no_var
  fault_if here (contains c.vars it.var) (bound_twice it.var)
  fault_if here (is_empty it.algorithm || not (contains algorithms it.algorithm))
      (not_of_four it.algorithm)
  ok (record { vars = it.var ∷ c.vars; bound = it.var ∷ c.bound })

-- The deferred `delete(c.bound, it.Var)`.
unfoldable pub leave : Option Iterate → Checker → Checker
unfolding delete
leave none c = c
leave (some it) c = record c { bound = delete it.var c.bound }

abbrev pub has_sets : PolicySets → Bool
has_sets end = false
has_sets ss = true

abbrev pub has_policies : List (Option Policy) → Bool
has_policies [] = false
has_policies (p ∷ ps) = true

abbrev pub has_children : SetHead → PolicySets → Bool
has_children h ss = is_some h.iterate || has_policies h.policies || has_sets ss

unfoldable pub all_empty : List Bytes → Bool
all_empty [] = true
all_empty (x ∷ xs) = is_empty x && all_empty xs

-- The text fields of a declaration but the name and the reason of isolation.
abbrev pub other_texts : Pip → List Bytes
other_texts p =
    p.pip_type ∷ p.claim ∷ p.header ∷ p.default_value ∷ p.url ∷ p.http_method ∷ p.bean_name
    ∷ p.json_path ∷ p.return_type ∷ p.headers ∷ p.resource_type ∷ p.domain ∷ p.product_mapping
    ∷ p.custom_mapping ∷ p.cacheable ∷ p.cache_period ∷ p.unsupported ∷ []

-- No field is set but the name and the reason: `reflect.DeepEqual` with such a `PIP`.
unfoldable pub only_isolated : Pip → Bool
unfolding all_empty
only_isolated p = all_empty (other_texts p) && not (is_some p.request_attributes)

-- The fields of a declaration that hold JSON as written.
abbrev pub json_fields : Pip → List (Bytes × Bytes)
json_fields p =
    (codes "defaultValue", p.default_value)
    ∷ (codes "productMapping", p.product_mapping)
    ∷ (codes "customMapping", p.custom_mapping)
    ∷ (codes "cacheable", p.cacheable)
    ∷ (codes "cachePeriod", p.cache_period)
    ∷ []

abbrev pub attributes : Pip → List (Bytes × Bytes)
attributes p = elim p.request_attributes [ none ↦ [] | some m ↦ m ]

abbrev pub no_vars : Checker
no_vars = record { vars = []; bound = [] }

abbrev pub check_dialect : Node → Dialect × Bytes → Check TreeError
check_dialect here (d, t) = fault_if here (not (contains dialects d)) (unknown_dialect d)

module _ (env : Callees) where
  -- `checkJSON`
  unfoldable pub is_compact : Bytes → Bool
  unfolding equal
  is_compact v = elim (env.compact v) [ none ↦ false | some w ↦ equal w v ]

  -- `checker.condition`
  unfoldable pub check_condition : List Bytes → Node → Option Condition → Place → Check TreeError
  unfolding validate_condition check_atom
  check_condition bound here none place = ok tt
  check_condition bound here (some c) place = do
    wrap (λ e. at (node_text here) (bad_condition e)) (validate_condition env.compiles_path c)
    fault_if here (not (equal c.place place)) (wrong_place c.place place)
    check_all (check_all (check_atom bound here)) c.disjuncts

  abbrev pub check_param : Node → Bytes × Bytes → Check TreeError
  check_param here (k, v) = fault_if here (not (is_compact v)) (bad_param k)

  -- The parameters of a custom predicate, in the order in which the map gives them.
  unfoldable pub check_params : Node → Option CustomPredicate → Check TreeError
  unfolding is_compact
  check_params here none = ok tt
  check_params here (some p) = check_all (check_param here) p.params

  -- `checkPredicates`
  unfoldable pub check_predicates : Node → Predicates → Check TreeError
  unfolding dialects check_params
  check_predicates here p = do check_all (check_dialect here) p.text; check_params here p.custom

  unfoldable pub check_rule : List Bytes → Node → Rule → Check TreeError
  unfolding effects check_condition check_predicates
  check_rule bound here r = do
    fault_if here (not (contains effects r.effect)) (unknown_effect r.effect)
    check_condition bound (codes "target" ∷ here) r.target place_rule_target
    check_condition bound (codes "condition" ∷ here) r.condition place_rule_condition
    check_predicates here r.predicates

  -- `checker.policy`
  unfoldable pub check_policy : List Bytes → Node → Policy → Check TreeError
  unfolding algorithms check_condition check_rule each nil_index labels labels_of rule_label
  check_policy bound here p = do
    fault_if here (not (contains algorithms p.algorithm)) (unknown_algorithm p.algorithm)
    check_condition bound (codes "target" ∷ here) p.target place_policy_target
    fail_at (λ i. at (node_text here) (nil_at i)) (nil_index 0 p.rules)
    each (check_rule bound) here (labels (labels_of (rule_label env.quote) p.rules)) p.rules

  unfoldable pub check_policies : List Bytes → Node → List (Option Policy) → Check TreeError
  unfolding check_policy each nil_index labels labels_of policy_label
  check_policies bound here ps = do
    fail_at (λ i. at (node_text here) (nil_at i)) (nil_index 0 ps)
    each (check_policy bound) here (labels (labels_of (policy_label env.quote) ps)) ps

  -- The children that an `AlwaysFails` or `Isolated` set must not have: `children` is
  -- `s.Iterate != nil || len(s.Policies) > 0 || len(s.Sets) > 0`.
  unfoldable pub check_head : List Bytes → Node → SetHead → Bool → Check TreeError
  unfolding algorithms check_condition
  check_head bound here h children = do
    fault_if here (not (contains algorithms h.algorithm)) (unknown_algorithm h.algorithm)
    fault_if here (not (is_empty h.always_fails) && children) failing_with_children
    fault_if here (not (is_empty h.isolated) && (not (is_empty h.always_fails) || children))
        isolated_with_children
    check_condition bound (codes "target" ∷ here) h.target place_set_target

  -- `checker.set` and the loop of `checker.sets`, under the labels of the siblings
  unfoldable mutual
    unfolding check_head enter leave check_policies nil_set_index labels set_labels

    pub check_set : Node → PolicySet → Checker → Result TreeError Checker
    check_set here (policy_set h ss) c =
        check_head c.bound here h (has_children h ss)
        >> (enter here h.iterate c >>= λ c₁.
            check_policies c₁.bound here h.policies
            >> (fail_at (λ i. at (node_text (codes "sets" ∷ here)) (nil_at i)) (nil_set_index 0 ss)
                >> (check_sets here (labels (set_labels env.quote ss)) ss c₁ >>= λ c₂.
                    ok (leave h.iterate c₂))))

    pub check_sets : Node → List Bytes → PolicySets → Checker → Result TreeError Checker
    check_sets here ls end c = ok c
    check_sets here ls (null ss) c = check_sets here ls ss c
    check_sets here ls (set s ss) c =
        check_set (head_label ls ∷ here) s c >>= λ c₁. check_sets here (tail_labels ls) ss c₁

  abbrev pub check_field : Bytes → Bytes × Bytes → Check TreeError
  check_field name (f, v) = fail_if (not (is_empty v) && not (is_compact v)) (pip_json name f)

  abbrev pub check_attribute : Bytes → Bytes × Bytes → Check TreeError
  check_attribute name (k, v) = fail_if (not (is_compact v)) (pip_json name k)

  -- The checks of a declaration that is not isolated.
  unfoldable pub check_usable : Pip → Check TreeError
  unfolding pip_types is_compact
  check_usable p = do
    fail_if (not (contains pip_types p.pip_type)) (pip_type p.name p.pip_type)
    check_all (check_field p.name) (json_fields p)
    check_all (check_attribute p.name) (attributes p)

  -- One round of the loop over the declarations, with the names seen so far.
  unfoldable pub check_pip : List Bytes → Pip → Check TreeError
  unfolding starts_with check_usable only_isolated
  check_pip names p = do
    fail_if (not (starts_with (codes "subject.") p.name)) (pip_prefix p.name)
    fail_if (contains names p.name) (pip_twice p.name)
    if not (is_empty p.isolated)
        then fail_if (not (only_isolated p)) (pip_isolated p.name)
        else check_usable p

  unfoldable pub check_pips : ℕ → List Bytes → List (Option Pip) → Check TreeError
  unfolding check_pip
  check_pips i names [] = ok tt
  check_pips i names (none ∷ ps) = err (pip_nil i)
  check_pips i names (some p ∷ ps) = check_pip names p >> check_pips (i + 1) (p.name ∷ names) ps

  unfoldable pub check_simplified : Node → SimplifiedPolicy → Check TreeError
  unfolding check_condition check_predicates
  check_simplified here p = do
    check_condition [] (codes "condition" ∷ here) p.condition place_simplified
    check_predicates here p.predicates

  unfoldable pub check_group : Node → SimplifiedGroup → Check TreeError
  unfolding check_simplified each nil_index labels labels_of simplified_policy_label
  check_group here g = do
    fail_at (λ i. at (node_text here) (nil_at i)) (nil_index 0 g.policies)
    each check_simplified here (labels (labels_of (simplified_policy_label env.quote) g.policies))
        g.policies

  -- `Tree.validate`
  unfoldable pub validate : Tree → Check TreeError
  unfolding check_pips check_group each nil_index labels labels_of group_label check_set set_labels
      nil_set_index
  validate t = do
    check_pips 0 [] t.pips
    fail_at group_nil (nil_index 0 t.simplified)
    each check_group [] (labels (labels_of (group_label env.quote) t.simplified)) t.simplified
    fail_at (λ i. at (node_text (codes "sets" ∷ [])) (nil_at i)) (nil_set_index 0 t.sets)
    check_sets [] (labels (set_labels env.quote t.sets)) t.sets no_vars >>= λ _. ok tt

  -- `NewTree`
  unfoldable pub new_tree :
      List (Option SimplifiedGroup) → PolicySets → List (Option Pip) → Result TreeError Tree
  unfolding validate
  new_tree simplified sets pips =
      let t : Tree = record { simplified = simplified; sets = sets; pips = pips } in
      do validate t; ok t
