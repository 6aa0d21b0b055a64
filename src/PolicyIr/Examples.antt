-- ===== src/PolicyIr/Examples.antt =====
-- The theorems on internal/policyir at concrete inputs: a small tree, a comparison and some texts.
use qubership_authz_agent.Base.{
  ℕ, true, false, [], ◌∷◌, none, some, codes, get_elem?, drop, contains, equal, length, ◌≡◌, ◌<◌,
  ◌≤◌, ◌+◌, ◌↔◌, ◌⊎◌, refl, arith, IsFresh, record_all,
}
use qubership_authz_agent.PolicyIr.Cond.Valid.{
  IsValidCompare, IsValidCondition, validate_compare_iff, validate_condition_iff,
}
use qubership_authz_agent.PolicyIr.Cond.{
  Compare, comparison, is_m2m, Condition, validate_compare, validate_condition,
  place_rule_condition,
}
use qubership_authz_agent.PolicyIr.Operand.Valid.{IsValidOperand, validate_operand_iff}
use qubership_authz_agent.PolicyIr.Operand.{pass_value, lit, string, number, validate_operand}
use qubership_authz_agent.PolicyIr.Tree.Accept.{new_tree_iff}
use qubership_authz_agent.PolicyIr.Tree.Check.{Callees, Checker, check_set, new_tree, no_vars}
use qubership_authz_agent.PolicyIr.Tree.Executable.{RunsTree, unsupported_forms-nil}
use qubership_authz_agent.PolicyIr.Tree.Findings.{unsupported_forms}
use qubership_authz_agent.PolicyIr.Tree.Sets.{check_set-restores}
use qubership_authz_agent.PolicyIr.Tree.Valid.{IsValidTree, set_vars}
use qubership_authz_agent.PolicyIr.Tree.{
  PolicySet, policy_set, end, set, Policy, Rule, Iterate, Predicates, Pip, Tree,
}
use qubership_authz_agent.PolicyIr.Token.Bounds.{token_len-bounds, scan-ends, StartsName}
use qubership_authz_agent.PolicyIr.Token.Reads.{Reads}
use qubership_authz_agent.PolicyIr.Token.Tables.{run_end-span, open_end_iff, Closes}
use qubership_authz_agent.PolicyIr.Token.{new_attr_scanner, token_len, scan, span, in_run}

-- A path compiles, a text is compact, and a quoted text stands as it is.
abbrev callees : Callees
callees = record { compiles_path = λ p. true; compact = λ v. some v; quote = λ q. q }

-- $PASS_VALUE.x.id EQ 'a'
abbrev passes : Compare
passes = record {
  op = codes "EQ";
  left = some (pass_value (record { var = codes "x"; key = codes "id" }));
  right = some (lit (string (codes "a")));
}

abbrev when_passes : Condition
when_passes = record {
  place = place_rule_condition;
  disjuncts = (some (comparison passes) ∷ some is_m2m ∷ []) ∷ [];
}

abbrev no_predicates : Predicates
no_predicates = record { text = []; custom = none }

abbrev rule : Rule
rule = record {
  id = codes "r";
  name = [];
  effect = codes "ALLOW";
  frontend = false;
  target = none;
  condition = some when_passes;
  predicates = no_predicates;
}

abbrev policy : Policy
policy = record {
  id = codes "p";
  name = [];
  algorithm = codes "DENY_OVERRIDES";
  target = none;
  rules = some rule ∷ [];
}

abbrev iterate : Iterate
iterate = record { var = codes "x"; algorithm = codes "PERMIT_OVERRIDES" }

abbrev iterating : PolicySet
iterating =
    policy_set
      (record {
        id = codes "s";
        name = [];
        domain = [];
        external_id = [];
        algorithm = [];
        target = none;
        iterate = some iterate;
        always_fails = [];
        isolated = [];
        policies = some policy ∷ [];
      })
      end

abbrev token_pip : Pip
token_pip = record {
  name = codes "subject.tenant";
  pip_type = codes "TOKEN";
  claim = codes "tenant";
  header = [];
  default_value = codes "1";
  url = [];
  http_method = [];
  bean_name = [];
  json_path = [];
  return_type = [];
  headers = [];
  resource_type = [];
  domain = [];
  request_attributes = none;
  product_mapping = [];
  custom_mapping = [];
  cacheable = [];
  cache_period = [];
  unsupported = [];
  isolated = [];
}

abbrev tree : Tree
tree = record { simplified = []; sets = set iterating end; pips = some token_pip ∷ [] }

new_tree_example : (tree ≡ tree) × IsValidTree callees tree
unfolding new_tree contains
new_tree_example = (new_tree_iff callees [] (set iterating end) (some token_pip ∷ []) tree).0 refl

abbrev seen_x : Checker
seen_x = record { vars = codes "x" ∷ []; bound = [] }

check_set_example :
    (no_vars.bound ≡ [])
    × (seen_x.vars ≡ record_all (set_vars iterating) [])
    × IsFresh (set_vars iterating) []
unfolding check_set contains
check_set_example = check_set-restores callees iterating [] no_vars {d = seen_x} (λ v m. m) refl

compare_example : IsValidCompare callees.compiles_path passes
unfolding validate_compare contains equal
compare_example = (validate_compare_iff callees.compiles_path passes).0 refl

condition_example : IsValidCondition callees.compiles_path when_passes
unfolding validate_condition contains equal
condition_example = (validate_condition_iff callees.compiles_path when_passes).0 refl

operand_example : IsValidOperand (some (lit (number (codes "-0.05"))))
unfolding validate_operand
operand_example = (validate_operand_iff (some (lit (number (codes "-0.05"))))).0 refl

bracketed : get_elem? (new_attr_scanner (codes "a[b[c]]")).open_end 2 ≡ some (some 6)
unfolding new_attr_scanner
bracketed = refl

open_end_example : (m : ℕ) × Closes (drop 2 (codes "a[b[c]]")) m × (6 ≡ 2 + m)
open_end_example = (open_end_iff (codes "a[b[c]]") 2 6 (omega arith)).0 bracketed

run_end_example :
    get_elem? (new_attr_scanner (codes "a b]")).run_end 1
    ≡ some (1 + span in_run (drop 1 (codes "a b]")))
run_end_example = run_end-span (codes "a b]") 1 (omega arith)

token_len_example :
    (0 + token_len (new_attr_scanner (codes "ab.c d")) 0 ≤ length (codes "ab.c d"))
    × ((0 < token_len (new_attr_scanner (codes "ab.c d")) 0) ↔ StartsName (codes "ab.c d") 0)
    × ((¬ StartsName (codes "ab.c d") 0)
        ⊎ Reads (codes "ab.c d") 1 1 (0 + token_len (new_attr_scanner (codes "ab.c d")) 0))
token_len_example = token_len-bounds (codes "ab.c d") 0 (omega arith)

scan_example :
    (e : ℕ) × (scan 7 (new_attr_scanner (codes "a[b c]")) 1 1 ≡ some e)
    × (1 ≤ e)
    × (e ≤ length (codes "a[b c]"))
scan_example = scan-ends 7 (codes "a[b c]") 1 1 (omega arith) (omega arith)

forms_example : RunsTree tree
unfolding unsupported_forms
forms_example = (unsupported_forms-nil callees.quote tree).0 refl
