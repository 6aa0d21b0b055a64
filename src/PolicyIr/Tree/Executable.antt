-- ===== src/PolicyIr/Tree/Executable.antt =====
-- Which trees have no unsupported form: those that the agent can execute in full.
use qubership_authz_agent.Base.{
  Bytes, Bool, true, false, List, [], ◌∷◌, ◌++◌, Option, none, some, codes, is_empty, is_empty_iff,
  is_empty-false_iff, ◌||◌, All, ◌≡◌, ◌↔◌, refl, arith, Bool-cases, inl, inr,
}
use qubership_authz_agent.PolicyIr.Cond.{Atom, comparison, unsupported_atom, Condition}
use qubership_authz_agent.PolicyIr.Operand.{Operand, unsupported}
use qubership_authz_agent.PolicyIr.Tree.Findings.{
  Finding, collect, operand_findings, atom_findings, condition_findings, each_findings,
  simplified_findings, rule_findings, nested_findings, pip_findings, policy_findings,
  group_findings, set_findings, sets_findings, unsupported_forms,
}
use qubership_authz_agent.PolicyIr.Tree.Path.{
  Node, labels, labels_of, group_label, simplified_policy_label, policy_label, rule_label,
  set_labels, head_label, tail_labels,
}
use qubership_authz_agent.PolicyIr.Tree.{
  SimplifiedGroup, SimplifiedPolicy, Rule, Policy, Iterate, PolicySet, policy_set, PolicySets, end,
  null, set, Pip, Tree,
}
use qubership_authz_agent.Regex.{is_some}

-- The node, where the pointer is not nil, has the property.
abbrev pub OnNode {ℓ} : {A : Type ℓ} → (A → Type 0) → Option A → Type 0
OnNode P none = Unit
OnNode P (some x) = P x

abbrev pub RunsOperand : Option Operand → Type 0
RunsOperand (some (unsupported u)) = ⊥
RunsOperand o = Unit

abbrev pub RunsAtom : Option Atom → Type 0
RunsAtom (some (unsupported_atom u)) = ⊥
RunsAtom (some (comparison c)) = RunsOperand c.left × RunsOperand c.right
RunsAtom a = Unit

abbrev pub RunsCondition : Option Condition → Type 0
RunsCondition none = Unit
RunsCondition (some c) = All (All RunsAtom) c.disjuncts

abbrev pub RunsRule : Rule → Type 0
RunsRule r = RunsCondition r.target × RunsCondition r.condition

abbrev pub RunsPolicy : Policy → Type 0
RunsPolicy p = RunsCondition p.target × All (OnNode RunsRule) p.rules

abbrev pub RunsGroup : SimplifiedGroup → Type 0
RunsGroup g = All (OnNode (λ (p : SimplifiedPolicy). RunsCondition p.condition)) g.policies

-- No iterate stands inside another.
abbrev pub NotNested : Bool → Option Iterate → Type 0
NotNested true (some it) = ⊥
NotNested iterating it = Unit

abbrev mutual
  pub RunsSet : Bool → PolicySet → Type 0
  RunsSet iterating (policy_set h ss) =
      NotNested iterating h.iterate
      × RunsCondition h.target
      × All (OnNode RunsPolicy) h.policies
      × RunsSets (iterating || is_some h.iterate) ss

  pub RunsSets : Bool → PolicySets → Type 0
  RunsSets iterating end = Unit
  RunsSets iterating (null ss) = RunsSets iterating ss
  RunsSets iterating (set s ss) = RunsSet iterating s × RunsSets iterating ss

-- Every condition, PIP declaration and iterate of the tree is of a form that the agent executes.
abbrev pub RunsTree : Tree → Type 0
RunsTree t =
    All (OnNode (λ (p : Pip). p.unsupported ≡ [])) t.pips
    × All (OnNode RunsGroup) t.simplified
    × RunsSets false t.sets

append-nil {ℓ} : {A : Type ℓ} (xs ys : List A) → (xs ++ ys ≡ []) ↔ ((xs ≡ []) × (ys ≡ []))
append-nil [] ys = (λ h. (refl, h), λ h. h.1)
append-nil (x ∷ xs) ys = (λ h. cc, λ h. cc (h.0))

-- Two lists of findings are empty together exactly when two properties hold together.
both_iff {ℓ} :
    {A : Type ℓ} {P Q : Type 0} (xs ys : List A)
    → (xs ≡ []) ↔ P
    → (ys ≡ []) ↔ Q
    → (xs ++ ys ≡ []) ↔ (P × Q)
both_iff xs ys (f, f') (g, g') = (
  λ h. let (a, b) = (append-nil xs ys).0 h in (f a, g b),
  λ (p, q). (append-nil xs ys).1 (f' p, g' q),
)

collect-nil {ℓ} :
    {A : Type ℓ} (f : A → List Finding) (P : A → Type 0)
    → ((a : A) → (f a ≡ []) ↔ P a)
    → (xs : List A) → (collect f xs ≡ []) ↔ All P xs
unfolding collect
collect-nil f P h [] = (λ _. tt, λ _. refl)
collect-nil f P h (x ∷ xs) = both_iff (f x) (collect f xs) (h x) (collect-nil f P h xs)

each-nil {ℓ} :
    {A : Type ℓ} (f : Node → A → List Finding) (P : A → Type 0)
    → ((n : Node) (a : A) → (f n a ≡ []) ↔ P a)
    → (here : Node) (ls : List Bytes) (xs : List (Option A))
    → (each_findings f here ls xs ≡ []) ↔ All (OnNode P) xs
unfolding each_findings
each-nil f P h here ls [] = (λ _. tt, λ _. refl)
each-nil f P h here ls (none ∷ xs) =
    let (g, g') = each-nil f P h here ls xs in (λ e. (tt, g e), λ e. g' e.1)
each-nil f P h here ls (some x ∷ xs) =
    both_iff (f (head_label ls ∷ here) x) (each_findings f here (tail_labels ls) xs)
      (h (head_label ls ∷ here) x) (each-nil f P h here (tail_labels ls) xs)

operand-nil : (here : Node) (o : Option Operand) → (operand_findings here o ≡ []) ↔ RunsOperand o
unfolding operand_findings
operand-nil here (some (unsupported u)) = (λ h. cc, λ h. absurd h)
operand-nil here none = (λ _. tt, λ _. refl)
operand-nil here (some _) = (λ _. tt, λ _. refl)

atom-nil : (here : Node) (a : Option Atom) → (atom_findings here a ≡ []) ↔ RunsAtom a
unfolding atom_findings
atom-nil here (some (unsupported_atom u)) = (λ h. cc, λ h. absurd h)
atom-nil here (some (comparison c)) =
    both_iff (operand_findings here c.left) (operand_findings here c.right)
      (operand-nil here c.left) (operand-nil here c.right)
atom-nil here none = (λ _. tt, λ _. refl)
atom-nil here (some _) = (λ _. tt, λ _. refl)

condition-nil :
    (here : Node) (c : Option Condition) → (condition_findings here c ≡ []) ↔ RunsCondition c
unfolding condition_findings
condition-nil here none = (λ _. tt, λ _. refl)
condition-nil here (some c) =
    collect-nil (collect (atom_findings here)) (All RunsAtom)
      (λ d. collect-nil (atom_findings here) RunsAtom (atom-nil here) d) c.disjuncts

rule-nil : (here : Node) (r : Rule) → (rule_findings here r ≡ []) ↔ RunsRule r
unfolding rule_findings
rule-nil here r =
    both_iff (condition_findings (codes "target" ∷ here) r.target)
      (condition_findings (codes "condition" ∷ here) r.condition)
      (condition-nil (codes "target" ∷ here) r.target)
      (condition-nil (codes "condition" ∷ here) r.condition)

simplified-nil :
    (here : Node) (p : SimplifiedPolicy)
    → (simplified_findings here p ≡ []) ↔ RunsCondition p.condition
unfolding simplified_findings
simplified-nil here p = condition-nil (codes "condition" ∷ here) p.condition

nested-nil :
    (here : Node) (iterating : Bool) (it : Option Iterate)
    → (nested_findings here iterating it ≡ []) ↔ NotNested iterating it
nested-nil here true (some it) = (λ h. cc, λ h. absurd h)
nested-nil here true none = (λ _. tt, λ _. refl)
nested-nil here false it = (λ _. tt, λ _. refl)

module _ (quote : Bytes → Bytes) where
  pip-nil :
      (p : Option Pip) → (pip_findings quote p ≡ []) ↔ OnNode (λ (q : Pip). q.unsupported ≡ []) p
  unfolding pip_findings
  pip-nil none = (λ _. tt, λ _. refl)
  pip-nil (some p) = elim (Bool-cases (is_empty p.unsupported)) [
    | inl e ↦ (λ h. (is_empty_iff p.unsupported).0 e, λ h. rw (e) refl)
    | inr n ↦
        (λ h. absurd (ground (arith, h)), λ h. absurd ((is_empty-false_iff p.unsupported).0 n h))
  ]

  policy-nil : (here : Node) (p : Policy) → (policy_findings quote here p ≡ []) ↔ RunsPolicy p
  unfolding policy_findings
  policy-nil here p =
      let ls = labels (labels_of (rule_label quote) p.rules) in
      both_iff (condition_findings (codes "target" ∷ here) p.target)
        (each_findings rule_findings here ls p.rules)
        (condition-nil (codes "target" ∷ here) p.target)
        (each-nil rule_findings RunsRule rule-nil here ls p.rules)

  group-nil : (here : Node) (g : SimplifiedGroup) → (group_findings quote here g ≡ []) ↔ RunsGroup g
  unfolding group_findings
  group-nil here g =
      each-nil simplified_findings (λ (p : SimplifiedPolicy). RunsCondition p.condition)
        simplified-nil here (labels (labels_of (simplified_policy_label quote) g.policies))
        g.policies

  -- Four lists of findings, one after another.
  four_iff :
      {P Q R S : Type 0} (xs ys zs ws : List Finding)
      → (xs ≡ []) ↔ P
      → (ys ≡ []) ↔ Q
      → (zs ≡ []) ↔ R
      → (ws ≡ []) ↔ S
      → (xs ++ (ys ++ (zs ++ ws)) ≡ []) ↔ (P × Q × R × S)
  four_iff xs ys zs ws p q r s =
      let (f, g) =
        both_iff xs (ys ++ (zs ++ ws)) p (both_iff ys (zs ++ ws) q (both_iff zs ws r s)) in
      (λ h. let (a, b) = f h in (a, b.0, b.1.0, b.1.1), λ (a, b, c, d). g (a, (b, (c, d))))

  mutual
    unfolding set_findings

    set-nil :
        (s : PolicySet) (here : Node) (iterating : Bool)
        → (set_findings quote here iterating s ≡ []) ↔ RunsSet iterating s
    set-nil (policy_set h ss) here iterating =
        let ls = labels (labels_of (policy_label quote) h.policies) in
        let inner = labels (set_labels quote ss) in
        four_iff (nested_findings here iterating h.iterate)
          (condition_findings (codes "target" ∷ here) h.target)
          (each_findings (policy_findings quote) here ls h.policies)
          (sets_findings quote here (iterating || is_some h.iterate) inner ss)
          (nested-nil here iterating h.iterate) (condition-nil (codes "target" ∷ here) h.target)
          (each-nil (policy_findings quote) RunsPolicy policy-nil here ls h.policies)
          (sets-nil ss here (iterating || is_some h.iterate) inner)

    sets-nil :
        (ss : PolicySets) (here : Node) (iterating : Bool) (ls : List Bytes)
        → (sets_findings quote here iterating ls ss ≡ []) ↔ RunsSets iterating ss
    sets-nil end here iterating ls = (λ _. tt, λ _. refl)
    sets-nil (null ss) here iterating ls = sets-nil ss here iterating ls
    sets-nil (set s ss) here iterating ls =
        both_iff (set_findings quote (head_label ls ∷ here) iterating s)
          (sets_findings quote here iterating (tail_labels ls) ss)
          (set-nil s (head_label ls ∷ here) iterating) (sets-nil ss here iterating (tail_labels ls))

  -- `Tree.Unsupported` is empty exactly for the trees without an unsupported declaration, atom or
  -- operand and without an iterate inside another.
  pub unsupported_forms-nil : (t : Tree) → (unsupported_forms quote t ≡ []) ↔ RunsTree t
  unfolding unsupported_forms
  unsupported_forms-nil t =
      let groups = labels (labels_of (group_label quote) t.simplified) in
      let roots = labels (set_labels quote t.sets) in
      let (f, g) =
        both_iff (collect (pip_findings quote) t.pips)
          (each_findings (group_findings quote) [] groups t.simplified
            ++ sets_findings quote [] false roots t.sets)
          (collect-nil (pip_findings quote) (OnNode (λ (p : Pip). p.unsupported ≡ [])) pip-nil
            t.pips)
          (both_iff (each_findings (group_findings quote) [] groups t.simplified)
            (sets_findings quote [] false roots t.sets)
            (each-nil (group_findings quote) RunsGroup group-nil [] groups t.simplified)
            (sets-nil t.sets [] false roots)) in
      (λ h. let (a, b) = f h in (a, b.0, b.1), λ (a, b, c). g (a, (b, c)))
