-- ===== src/PolicyIr/Tree/Local.antt =====
-- The checks of the nodes of a tree, one by one, against what each node is to be.
use qubership_authz_agent.Base.{
  ℕ, ◌+◌, Bytes, Bool, true, false, List, [], ◌∷◌, Option, none, some, codes, contains_iff, equal,
  equal_iff, is_empty, is_empty_iff, is_empty-false_iff, not, ◌&&◌, ◌||◌, Check, Passes, check_all,
  check_all-All, ◌>>◌, >>_iff, All, some_inj, some-or-none, sym, ◌∙◌, In, ◌≡◌, ◌↔◌, inl, inr, refl,
  arith, Bool-cases,
}
use qubership_authz_agent.PolicyIr.Cond.Valid.{validate_condition_iff}
use qubership_authz_agent.PolicyIr.Cond.{
  Place, Atom, comparison, Condition, validate_condition, place_simplified, place_rule_condition,
  place_rule_target, place_policy_target, place_set_target,
}
use qubership_authz_agent.PolicyIr.Operand.{Operand, subject, pass_value, subject_permission_scope}
use qubership_authz_agent.PolicyIr.Tree.Check.{
  Callees, TreeError, nil_at, at, fail_at, check_operand, check_atom, is_compact, check_condition,
  check_param, check_params, check_dialect, check_predicates, check_rule, each, check_policy,
  check_policies, check_head, check_simplified, check_group,
}
use qubership_authz_agent.PolicyIr.Tree.Path.{
  Node, nil_index, labels, labels_of, rule_label, policy_label, simplified_policy_label, head_label,
  tail_labels, node_text,
}
use qubership_authz_agent.PolicyIr.Tree.Valid.{
  IsNode, IsScoped, IsScopedAtom, IsCompact, IsConditionAt, IsCustom, IsPredicates, IsRule,
  IsPolicy, IsHead, IsSimplified, IsGroup,
}
use qubership_authz_agent.PolicyIr.Tree.{
  algorithms, effects, dialects, CustomPredicate, Predicates, SimplifiedPolicy, SimplifiedGroup,
  Rule, Policy, SetHead,
}

module _ (bound : List Bytes) (here : Node) where
  operand_iff : (o : Option Operand) → Passes (check_operand bound here o) ↔ IsScoped bound o
  unfolding check_operand
  operand_iff none = (λ _. tt, λ _. refl)
  operand_iff (some (pass_value v)) = (
    λ h. (contains_iff bound v.var).0 (ground arith),
    λ m. ground (arith, (contains_iff bound v.var).1 m),
  )
  operand_iff (some (subject s)) = (
    λ h e. ground (arith, (equal_iff s.attr subject_permission_scope).1 e),
    λ f. elim (Bool-cases (equal s.attr subject_permission_scope)) [
      | inl e ↦ ground (arith, f ((equal_iff s.attr subject_permission_scope).0 e))
      | inr n ↦ ground arith
    ],
  )
  operand_iff (some _) = (λ _. tt, λ _. refl)

  atom_iff : (a : Option Atom) → Passes (check_atom bound here a) ↔ IsScopedAtom bound a
  unfolding check_atom
  atom_iff none = (λ _. tt, λ _. refl)
  atom_iff (some (comparison c)) = (
    λ h.
        let (l, r) =
          (>>_iff (check_operand bound here c.left) (check_operand bound here c.right)).0 h in
        ((operand_iff c.left).0 l, (operand_iff c.right).0 r),
    λ h.
        (>>_iff (check_operand bound here c.left) (check_operand bound here c.right)).1
          ((operand_iff c.left).1 h.0, (operand_iff c.right).1 h.1),
  )
  atom_iff (some _) = (λ _. tt, λ _. refl)

  atoms_iff :
      (ds : List (List (Option Atom)))
      → Passes (check_all (check_all (check_atom bound here)) ds)
        ↔ All (All (IsScopedAtom bound)) ds
  atoms_iff ds = check_all-All _ _ ds (λ d. check_all-All _ _ d atom_iff)

-- A list of pointers without nil, each checked, is a list of nodes with what the check decides.
pub each_iff {ℓ} :
    {A : Type ℓ} (f : Node → A → Check TreeError) (P : A → Type 0)
    → ((n : Node) (a : A) → Passes (f n a) ↔ P a)
    → (e : ℕ → TreeError) (i : ℕ) (here : Node) (ls : List Bytes) (xs : List (Option A))
    → Passes (fail_at e (nil_index i xs) >> each f here ls xs) ↔ All (IsNode P) xs
unfolding nil_index each
each_iff f P h e i here ls [] = (λ _. tt, λ _. refl)
each_iff f P h e i here ls (none ∷ xs) = (λ p. cc, λ p. absurd p.0)
each_iff f P h e i here ls (some x ∷ xs) =
    let l = head_label ls ∷ here in
    let rest = each_iff f P h e (i + 1) here (tail_labels ls) xs in
    (
      λ p.
          let a : Passes (f l x) = ground arith in
          let b : Passes (fail_at e (nil_index (i + 1) xs) >> each f here (tail_labels ls) xs) =
            ground arith in
          ((h l x).0 a, rest.0 b),
      λ q. ground (arith, (h l x).1 q.0, rest.1 q.1),
    )

module _ (env : Callees) where
  pub IsCompact-iff : (v : Bytes) → (is_compact env v ≡ true) ↔ IsCompact env v
  unfolding is_compact
  IsCompact-iff v = elim (some-or-none (env.compact v)) [
    | inl e ↦ (λ h. absurd (ground arith), λ h. absurd (ground arith))
    | inr (w, e) ↦ (
      λ h. ground (arith, (equal_iff w v).0 (ground arith)),
      λ h. ground (arith, (equal_iff w v).1 (some_inj (sym e ∙ h))),
    )
  ]

  pub condition_iff :
      (bound : List Bytes) (here : Node) (c : Option Condition) (place : Place)
      → Passes (check_condition env bound here c place) ↔ IsConditionAt env bound c place
  unfolding check_condition
  condition_iff bound here none place = (λ _. tt, λ _. refl)
  condition_iff bound here (some c) place = (
    λ h.
        let v : Passes (validate_condition env.compiles_path c) = ground arith in
        let r : Passes (check_all (check_all (check_atom bound here)) c.disjuncts) = ground arith in
        (
          (validate_condition_iff env.compiles_path c).0 v,
          (equal_iff c.place place).0 (ground arith),
          (atoms_iff bound here c.disjuncts).0 r,
        ),
    λ (v, p, r). ground (
      arith,
      (validate_condition_iff env.compiles_path c).1 v,
      (equal_iff c.place place).1 p,
      (atoms_iff bound here c.disjuncts).1 r,
    ),
  )

  params_iff :
      (here : Node) (p : Option CustomPredicate) → Passes (check_params env here p) ↔ IsCustom env p
  unfolding check_params
  params_iff here none = (λ _. tt, λ _. refl)
  params_iff here (some p) =
      check_all-All (check_param env here) (λ e. IsCompact env e.1) p.params
        (λ (k, v).
          (λ h. (IsCompact-iff v).0 (ground arith), λ c. ground (arith, (IsCompact-iff v).1 c)))

  predicates_iff :
      (here : Node) (p : Predicates) → Passes (check_predicates env here p) ↔ IsPredicates env p
  unfolding check_predicates
  predicates_iff here p =
      let (f, g) =
        check_all-All (check_dialect here) (λ e. In e.0 dialects) p.text
          (λ (d, t). (
            λ h. (contains_iff dialects d).0 (ground arith),
            λ c. ground (arith, (contains_iff dialects d).1 c),
          )) in
      (
        λ h. record {
          dialects_known = f (ground arith);
          custom_compact = (params_iff here p.custom).0 (ground arith);
        },
        λ v. ground (arith, g v.dialects_known, (params_iff here p.custom).1 v.custom_compact),
      )

  rule_iff :
      (bound : List Bytes) (here : Node) (r : Rule)
      → Passes (check_rule env bound here r) ↔ IsRule env bound r
  unfolding check_rule
  rule_iff bound here r =
      let t = condition_iff bound (codes "target" ∷ here) r.target place_rule_target in
      let c = condition_iff bound (codes "condition" ∷ here) r.condition place_rule_condition in
      let p = predicates_iff here r.predicates in
      (
        λ h. record {
          effect_known = (contains_iff effects r.effect).0 (ground arith);
          target_at = t.0 (ground arith);
          condition_at = c.0 (ground arith);
          predicates_ok = p.0 (ground arith);
        },
        λ v. ground (
          arith,
          (contains_iff effects r.effect).1 v.effect_known,
          t.1 v.target_at,
          c.1 v.condition_at,
          p.1 v.predicates_ok,
        ),
      )

  policy_iff :
      (bound : List Bytes) (here : Node) (p : Policy)
      → Passes (check_policy env bound here p) ↔ IsPolicy env bound p
  unfolding check_policy
  policy_iff bound here p =
      let t = condition_iff bound (codes "target" ∷ here) p.target place_policy_target in
      let r =
        each_iff (check_rule env bound) (IsRule env bound) (rule_iff bound)
          (λ i. at (node_text here) (nil_at i)) 0 here
          (labels (labels_of (rule_label env.quote) p.rules)) p.rules in
      (
        λ h. record {
          algorithm_known = (contains_iff algorithms p.algorithm).0 (ground arith);
          target_at = t.0 (ground arith);
          rules_ok = r.0 (ground arith);
        },
        λ v. ground (
          arith,
          (contains_iff algorithms p.algorithm).1 v.algorithm_known,
          t.1 v.target_at,
          r.1 v.rules_ok,
        ),
      )

  pub policies_iff :
      (bound : List Bytes) (here : Node) (ps : List (Option Policy))
      → Passes (check_policies env bound here ps) ↔ All (IsNode (IsPolicy env bound)) ps
  unfolding check_policies
  policies_iff bound here ps =
      each_iff (check_policy env bound) (IsPolicy env bound) (policy_iff bound)
        (λ i. at (node_text here) (nil_at i)) 0 here
        (labels (labels_of (policy_label env.quote) ps)) ps

  IsSimplified-iff :
      (here : Node) (p : SimplifiedPolicy)
      → Passes (check_simplified env here p) ↔ IsSimplified env p
  unfolding check_simplified
  IsSimplified-iff here p =
      let c = condition_iff [] (codes "condition" ∷ here) p.condition place_simplified in
      let q = predicates_iff here p.predicates in
      (
        λ h. record { condition_at = c.0 (ground arith); predicates_ok = q.0 (ground arith) },
        λ v. ground (arith, c.1 v.condition_at, q.1 v.predicates_ok),
      )

  pub IsGroup-iff :
      (here : Node) (g : SimplifiedGroup) → Passes (check_group env here g) ↔ IsGroup env g
  unfolding check_group
  IsGroup-iff here g =
      each_iff (check_simplified env) (IsSimplified env) IsSimplified-iff
        (λ i. at (node_text here) (nil_at i)) 0 here
        (labels (labels_of (simplified_policy_label env.quote) g.policies)) g.policies

  -- The two tests of a set without children, as `check_head` makes them.
  failing_test :
      (bound : List Bytes) (h : SetHead) (children : Bool)
      → IsHead env bound h children
      → (not (is_empty h.always_fails) && children) ≡ false
  failing_test bound h children v = elim (Bool-cases (is_empty h.always_fails)) [
    | inl e ↦ rw e
    | inr f ↦ ground (arith, v.failing_bare ((is_empty-false_iff h.always_fails).0 f))
  ]

  isolated_test :
      (bound : List Bytes) (h : SetHead) (children : Bool)
      → IsHead env bound h children
      → (not (is_empty h.isolated) && (not (is_empty h.always_fails) || children)) ≡ false
  isolated_test bound h children v = elim (Bool-cases (is_empty h.isolated)) [
    | inl e ↦ rw e
    | inr f ↦
        let (bare, runs) = v.isolated_bare ((is_empty-false_iff h.isolated).0 f) in
        ground (arith, bare, (is_empty_iff h.always_fails).1 runs)
  ]

  pub IsHead-iff :
      (bound : List Bytes) (here : Node) (h : SetHead) (children : Bool)
      → Passes (check_head env bound here h children) ↔ IsHead env bound h children
  unfolding check_head
  IsHead-iff bound here h children =
      let t = condition_iff bound (codes "target" ∷ here) h.target place_set_target in
      (
        λ p. record {
          algorithm_known = (contains_iff algorithms h.algorithm).0 (ground arith);
          failing_bare = λ f. ground (arith, (is_empty-false_iff h.always_fails).1 f);
          isolated_bare = λ f. (
            ground (arith, (is_empty-false_iff h.isolated).1 f),
            (is_empty_iff h.always_fails).0 (ground (arith, (is_empty-false_iff h.isolated).1 f)),
          );
          target_at = t.0 (ground arith);
        },
        λ v. ground (
          arith,
          (contains_iff algorithms h.algorithm).1 v.algorithm_known,
          failing_test bound h children v,
          isolated_test bound h children v,
          t.1 v.target_at,
        ),
      )
