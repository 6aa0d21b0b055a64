-- ===== src/PolicyIr/Tree/Valid.antt =====
-- The tree that the comment of `NewTree` describes: what each node is to be, whatever the order in
-- which the code looks at it.
use qubership_authz_agent.Base.{
  Bytes, Bool, false, List, [], ◌∷◌, ◌++◌, Option, none, some, codes, All, In, IsDistinct, ◌≡◌, ◌≢◌,
  ◌⊎◌,
}
use qubership_authz_agent.PolicyIr.Cond.Valid.{IsValidCondition}
use qubership_authz_agent.PolicyIr.Cond.{
  Place, place_simplified, place_rule_condition, place_rule_target, place_policy_target,
  place_set_target, Atom, comparison, Condition,
}
use qubership_authz_agent.PolicyIr.Operand.{Operand, subject, pass_value, subject_permission_scope}
use qubership_authz_agent.PolicyIr.Tree.Check.{Callees, attributes, has_children}
use qubership_authz_agent.PolicyIr.Tree.{
  algorithms, effects, dialects, pip_types, CustomPredicate, Predicates, SimplifiedPolicy,
  SimplifiedGroup, Rule, Policy, Iterate, SetHead, PolicySet, policy_set, PolicySets, end, null,
  set, Pip, Tree,
}

-- A pointer that is not nil, to a node with the property.
abbrev pub IsNode {ℓ} : {A : Type ℓ} → (A → Type 0) → Option A → Type 0
IsNode P none = ⊥
IsNode P (some x) = P x

-- A pass value names an iterate around it; the permission scope is read outside every iterate.
abbrev pub IsScoped : List Bytes → Option Operand → Type 0
IsScoped bound (some (pass_value v)) = In v.var bound
IsScoped bound (some (subject s)) = s.attr ≡ subject_permission_scope → bound ≡ []
IsScoped bound o = Unit

abbrev pub IsScopedAtom : List Bytes → Option Atom → Type 0
IsScopedAtom bound (some (comparison c)) = IsScoped bound c.left × IsScoped bound c.right
IsScopedAtom bound a = Unit

-- The vars of the iterates around the children of a set.
abbrev pub inside : Option Iterate → List Bytes → List Bytes
inside none bound = bound
inside (some it) bound = it.var ∷ bound

-- A var and one of the four algorithms.
abbrev pub IsIterate : Option Iterate → Type 0
IsIterate none = Unit
IsIterate (some it) = (it.var ≢ []) × (it.algorithm ≢ []) × In it.algorithm algorithms

-- The vars that the iterates of a set bind, from the root down.
abbrev pub own_vars : Option Iterate → List Bytes
own_vars none = []
own_vars (some it) = it.var ∷ []

abbrev mutual
  pub set_vars : PolicySet → List Bytes
  set_vars (policy_set h ss) = own_vars h.iterate ++ sets_vars ss

  pub sets_vars : PolicySets → List Bytes
  sets_vars end = []
  sets_vars (null ss) = sets_vars ss
  sets_vars (set s ss) = set_vars s ++ sets_vars ss

abbrev pub names : List (Option Pip) → List Bytes
names [] = []
names (none ∷ ps) = names ps
names (some p ∷ ps) = p.name ∷ names ps

-- An isolated declaration: nothing but a name and the reason.
abbrev pub IsBare : Pip → Type 0
IsBare p = p ≡ record {
  name = p.name;
  pip_type = [];
  claim = [];
  header = [];
  default_value = [];
  url = [];
  http_method = [];
  bean_name = [];
  json_path = [];
  return_type = [];
  headers = [];
  resource_type = [];
  domain = [];
  request_attributes = none;
  product_mapping = [];
  custom_mapping = [];
  cacheable = [];
  cache_period = [];
  unsupported = [];
  isolated = p.isolated;
}

module _ (env : Callees) where
  -- One JSON value written compactly.
  abbrev pub IsCompact : Bytes → Type 0
  IsCompact v = env.compact v ≡ some v

  -- A condition, where there is one, is valid, stands at its place and reads what is in scope.
  abbrev pub IsConditionAt : List Bytes → Option Condition → Place → Type 0
  IsConditionAt bound none place = Unit
  IsConditionAt bound (some c) place =
      IsValidCondition env.compiles_path c
      × (c.place ≡ place)
      × All (All (IsScopedAtom bound)) c.disjuncts

  abbrev pub IsCustom : Option CustomPredicate → Type 0
  IsCustom none = Unit
  IsCustom (some p) = All (λ e. IsCompact e.1) p.params

  pub record IsPredicates (p : Predicates) : Type 0 where
    pub dialects_known : All (λ e. In e.0 dialects) p.text
    pub custom_compact : IsCustom p.custom

  pub record IsRule (bound : List Bytes) (r : Rule) : Type 0 where
    pub effect_known : In r.effect effects
    pub target_at : IsConditionAt bound r.target place_rule_target
    pub condition_at : IsConditionAt bound r.condition place_rule_condition
    pub predicates_ok : IsPredicates r.predicates

  pub record IsPolicy (bound : List Bytes) (p : Policy) : Type 0 where
    pub algorithm_known : In p.algorithm algorithms
    pub target_at : IsConditionAt bound p.target place_policy_target
    pub rules_ok : All (IsNode (IsRule bound)) p.rules

  -- A set that always fails, or is isolated, has no children, and no set is both.
  pub record IsHead (bound : List Bytes) (h : SetHead) (children : Bool) : Type 0 where
    pub algorithm_known : In h.algorithm algorithms
    pub failing_bare : h.always_fails ≢ [] → children ≡ false
    pub isolated_bare : h.isolated ≢ [] → (children ≡ false) × (h.always_fails ≡ [])
    pub target_at : IsConditionAt bound h.target place_set_target

  abbrev mutual
    pub IsPolicySet : List Bytes → PolicySet → Type 0
    IsPolicySet bound (policy_set h ss) =
        IsHead bound h (has_children h ss)
        × IsIterate h.iterate
        × All (IsNode (IsPolicy (inside h.iterate bound))) h.policies
        × IsPolicySets (inside h.iterate bound) ss

    pub IsPolicySets : List Bytes → PolicySets → Type 0
    IsPolicySets bound end = Unit
    IsPolicySets bound (null ss) = ⊥
    IsPolicySets bound (set s ss) = IsPolicySet bound s × IsPolicySets bound ss

  -- Absent, or compact JSON.
  abbrev pub IsJsonField : Bytes → Type 0
  IsJsonField v = (v ≡ []) ⊎ IsCompact v

  pub record IsUsable (p : Pip) : Type 0 where
    pub type_known : In p.pip_type pip_types
    pub default_value_ok : IsJsonField p.default_value
    pub product_mapping_ok : IsJsonField p.product_mapping
    pub custom_mapping_ok : IsJsonField p.custom_mapping
    pub cacheable_ok : IsJsonField p.cacheable
    pub cache_period_ok : IsJsonField p.cache_period
    pub attributes_ok : All (λ e. IsCompact e.1) (attributes p)

  pub record IsPip (p : Pip) : Type 0 where
    pub prefixed : (rest : Bytes) × (p.name ≡ codes "subject." ++ rest)
    pub isolated_bare : p.isolated ≢ [] → IsBare p
    pub usable : p.isolated ≡ [] → IsUsable p

  pub record IsSimplified (p : SimplifiedPolicy) : Type 0 where
    pub condition_at : IsConditionAt [] p.condition place_simplified
    pub predicates_ok : IsPredicates p.predicates

  abbrev pub IsGroup : SimplifiedGroup → Type 0
  IsGroup g = All (IsNode IsSimplified) g.policies

  pub record IsValidTree (t : Tree) : Type 0 where
    pub pips_ok : All (IsNode IsPip) t.pips
    pub names_distinct : IsDistinct (names t.pips)
    pub groups_ok : All (IsNode IsGroup) t.simplified
    pub sets_ok : IsPolicySets [] t.sets
    pub vars_distinct : IsDistinct (sets_vars t.sets)
