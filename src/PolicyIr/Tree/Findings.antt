-- ===== src/PolicyIr/Tree/Findings.antt =====
-- `Tree.Unsupported` (unsupported.go): the forms of a tree that the agent cannot execute yet. A nil
-- node, which no tree of `NewTree` holds, is passed over.
use qubership_authz_agent.Base.{
  Bytes, Bool, true, false, List, [], ◌∷◌, ◌++◌, Option, none, some, codes, is_empty, ◌||◌,
  if◌then◌else◌,
}
use qubership_authz_agent.PolicyIr.Cond.{Atom, comparison, unsupported_atom, Condition}
use qubership_authz_agent.PolicyIr.Operand.{Operand, unsupported}
use qubership_authz_agent.PolicyIr.Tree.Path.{
  Node, node_text, labels, labels_of, group_label, simplified_policy_label, policy_label,
  rule_label, set_labels, head_label, tail_labels,
}
use qubership_authz_agent.PolicyIr.Tree.{
  SimplifiedGroup, SimplifiedPolicy, Rule, Policy, Iterate, PolicySet, policy_set, PolicySets, end,
  null, set, Pip, Tree,
}
use qubership_authz_agent.PolicyIr.Unsupported.{
  Form, form_nested_iterate, form_pip_extension, Unsupported,
}
use qubership_authz_agent.Regex.{is_some}

pub record Finding : Type 0 where
  pub place : Bytes
  pub form : Form
  pub text : Bytes

unfoldable pub collect {ℓ} : {A : Type ℓ} → (A → List Finding) → List A → List Finding
collect f [] = []
collect f (x ∷ xs) = f x ++ collect f xs

abbrev pub found : Node → Unsupported → Finding
found here u = record { place = node_text here; form = u.form; text = u.text }

unfoldable pub operand_findings : Node → Option Operand → List Finding
operand_findings here (some (unsupported u)) = found here u ∷ []
operand_findings here o = []

unfoldable pub atom_findings : Node → Option Atom → List Finding
unfolding operand_findings
atom_findings here (some (unsupported_atom u)) = found here u ∷ []
atom_findings here (some (comparison c)) =
    operand_findings here c.left ++ operand_findings here c.right
atom_findings here a = []

-- The function `cond` of `Tree.Unsupported`.
unfoldable pub condition_findings : Node → Option Condition → List Finding
unfolding collect atom_findings
condition_findings here none = []
condition_findings here (some c) = collect (collect (atom_findings here)) c.disjuncts

unfoldable pub each_findings {ℓ} :
    {A : Type ℓ} → (Node → A → List Finding) → Node → List Bytes → List (Option A) → List Finding
each_findings f here ls [] = []
each_findings f here ls (none ∷ xs) = each_findings f here ls xs
each_findings f here ls (some x ∷ xs) =
    f (head_label ls ∷ here) x ++ each_findings f here (tail_labels ls) xs

unfoldable pub simplified_findings : Node → SimplifiedPolicy → List Finding
unfolding condition_findings
simplified_findings here p = condition_findings (codes "condition" ∷ here) p.condition

unfoldable pub rule_findings : Node → Rule → List Finding
unfolding condition_findings
rule_findings here r =
    condition_findings (codes "target" ∷ here) r.target
    ++ condition_findings (codes "condition" ∷ here) r.condition

abbrev pub nested_findings : Node → Bool → Option Iterate → List Finding
nested_findings here true (some it) =
    record {
      place = node_text here;
      form = form_nested_iterate;
      text = codes "iterate var " ++ it.var;
    }
    ∷ []
nested_findings here iterating it = []

module _ (quote : Bytes → Bytes) where
  unfoldable pub pip_findings : Option Pip → List Finding
  pip_findings none = []
  pip_findings (some p) =
      if is_empty p.unsupported
      then []
      else (record {
        place = codes "pip " ++ quote p.name;
        form = form_pip_extension;
        text = p.unsupported;
      }
          ∷ [])

  unfoldable pub policy_findings : Node → Policy → List Finding
  unfolding condition_findings rule_findings each_findings labels labels_of rule_label
  policy_findings here p =
      condition_findings (codes "target" ∷ here) p.target
      ++ each_findings rule_findings here (labels (labels_of (rule_label quote) p.rules)) p.rules

  unfoldable pub group_findings : Node → SimplifiedGroup → List Finding
  unfolding simplified_findings each_findings labels labels_of simplified_policy_label
  group_findings here g =
      each_findings simplified_findings here
        (labels (labels_of (simplified_policy_label quote) g.policies)) g.policies

  unfoldable mutual
    unfolding condition_findings policy_findings each_findings labels labels_of policy_label
        set_labels

    pub set_findings : Node → Bool → PolicySet → List Finding
    set_findings here iterating (policy_set h ss) =
        nested_findings here iterating h.iterate
        ++ (condition_findings (codes "target" ∷ here) h.target
            ++ (each_findings policy_findings here
                  (labels (labels_of (policy_label quote) h.policies)) h.policies
                ++ sets_findings here (iterating || is_some h.iterate)
                    (labels (set_labels quote ss)) ss))

    pub sets_findings : Node → Bool → List Bytes → PolicySets → List Finding
    sets_findings here iterating ls end = []
    sets_findings here iterating ls (null ss) = sets_findings here iterating ls ss
    sets_findings here iterating ls (set s ss) =
        set_findings (head_label ls ∷ here) iterating s
        ++ sets_findings here iterating (tail_labels ls) ss

  -- `Tree.Unsupported`
  unfoldable pub unsupported_forms : Tree → List Finding
  unfolding collect pip_findings group_findings each_findings set_findings labels labels_of
      group_label set_labels
  unsupported_forms t =
      collect pip_findings t.pips
      ++ (each_findings group_findings [] (labels (labels_of (group_label quote) t.simplified))
            t.simplified
          ++ sets_findings [] false (labels (set_labels quote t.sets)) t.sets)
