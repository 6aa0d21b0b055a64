-- ===== src/PolicyIr/Tree.antt =====
-- internal/policyir/tree.go: the policies of one tenant. A pointer is an `Option`, `none` for nil; a
-- map is the list of its entries; the sets of a set are a data type of their own.
pub mod Path
pub mod Check
pub mod Valid
pub mod Local
pub mod Pips
pub mod Iterates
pub mod Sets
pub mod Accept
mod Lookup
pub mod Findings
pub mod Executable
use qubership_authz_agent.Base.{Bytes, Bool, List, Option, [], ◌∷◌, codes}
use qubership_authz_agent.PolicyIr.Cond.{Condition}

abbrev pub Algorithm : Type 0
Algorithm = Bytes

pub algorithms : List Algorithm
algorithms =
    []
    ∷ codes "DENY_OVERRIDES"
    ∷ codes "PERMIT_OVERRIDES"
    ∷ codes "DENY_UNLESS_PERMIT"
    ∷ codes "PERMIT_UNLESS_DENY"
    ∷ []

abbrev pub Effect : Type 0
Effect = Bytes

pub effects : List Effect
effects =
    [] ∷ codes "ALLOW" ∷ codes "DENY" ∷ codes "NOT_APPLICABLE" ∷ codes "USE_FILTER_CONDITION" ∷ []

abbrev pub Dialect : Type 0
Dialect = Bytes

pub dialects : List Dialect
dialects = codes "rsql" ∷ codes "sql" ∷ codes "mongodb" ∷ codes "querydsl" ∷ []

abbrev pub PipType : Type 0
PipType = Bytes

pub pip_types : List PipType
pip_types =
    codes "GENERAL"
    ∷ codes "FILTERED"
    ∷ codes "HEADER"
    ∷ codes "TOKEN"
    ∷ codes "MAPPING"
    ∷ codes "PERMISSION_SCOPE"
    ∷ []

pub record CustomPredicate : Type 0 where
  pub predicate : Bytes
  pub params : List (Bytes × Bytes)

pub record Predicates : Type 0 where
  pub text : List (Dialect × Bytes)
  pub custom : Option CustomPredicate

pub record SimplifiedPolicy : Type 0 where
  pub id : Bytes
  pub frontend : Bool
  pub operation : Bytes
  pub roles : List Bytes
  pub condition : Option Condition
  pub predicates : Predicates

pub record SimplifiedGroup : Type 0 where
  pub id : Bytes
  pub name : Bytes
  pub external_id : Bytes
  pub domain : Bytes
  pub component : Bytes
  pub resource_type : Bytes
  pub policies : List (Option SimplifiedPolicy)

pub record Rule : Type 0 where
  pub id : Bytes
  pub name : Bytes
  pub effect : Effect
  pub frontend : Bool
  pub target : Option Condition
  pub condition : Option Condition
  pub predicates : Predicates

pub record Policy : Type 0 where
  pub id : Bytes
  pub name : Bytes
  pub algorithm : Algorithm
  pub target : Option Condition
  pub rules : List (Option Rule)

pub record Iterate : Type 0 where
  pub var : Bytes
  pub algorithm : Algorithm

-- The fields of a `PolicySet` but its child sets.
pub record SetHead : Type 0 where
  pub id : Bytes
  pub name : Bytes
  pub domain : Bytes
  pub external_id : Bytes
  pub algorithm : Algorithm
  pub target : Option Condition
  pub iterate : Option Iterate
  pub always_fails : Bytes
  pub isolated : Bytes
  pub policies : List (Option Policy)

mutual
  pub data PolicySet : Type 0 where
    policy_set : SetHead → PolicySets → PolicySet

  -- A list of pointers to sets: `null` holds a nil pointer.
  pub data PolicySets : Type 0 where
    end : PolicySets
    null : PolicySets → PolicySets
    set : PolicySet → PolicySets → PolicySets

pub record Pip : Type 0 where
  pub name : Bytes
  pub pip_type : PipType
  pub claim : Bytes
  pub header : Bytes
  pub default_value : Bytes
  pub url : Bytes
  pub http_method : Bytes
  pub bean_name : Bytes
  pub json_path : Bytes
  pub return_type : Bytes
  pub headers : Bytes
  pub resource_type : Bytes
  pub domain : Bytes
  pub request_attributes : Option (List (Bytes × Bytes))
  pub product_mapping : Bytes
  pub custom_mapping : Bytes
  pub cacheable : Bytes
  pub cache_period : Bytes
  pub unsupported : Bytes
  pub isolated : Bytes

pub record Tree : Type 0 where
  pub simplified : List (Option SimplifiedGroup)
  pub sets : PolicySets
  pub pips : List (Option Pip)
