-- ===== src/PolicyIr/Cond.antt =====
-- internal/policyir/cond.go: atoms, comparisons and conditions, and their validation. Whether
-- package jsonpath compiles a path is the parameter `compiles_path`.
pub mod Valid
use qubership_authz_agent.Base.{
  Bytes, Bool, true, false, List, [], ◌∷◌, Option, none, some, codes, contains, equal, not, ◌||◌,
  ◌==◌, length, ℕ, ◌+◌, Result, ok, err, Check, fail_if, wrap, ◌>>◌, ◌>>=◌, if◌then◌else◌,
}
use qubership_authz_agent.PolicyIr.Operand.{
  Operand, resource, pip_ref, lit, list, pattern_text, unsupported, OperandError, validate_operand,
}
use qubership_authz_agent.PolicyIr.Pattern.{Reason, pattern_text_reason}
use qubership_authz_agent.PolicyIr.Unsupported.{Unsupported, UnsupportedError, validate_unsupported}
use qubership_authz_agent.Regex.{is_some}

abbrev pub Place : Type 0
Place = Bytes

abbrev pub place_simplified : Place
place_simplified = codes "simplified"

abbrev pub place_rule_condition : Place
place_rule_condition = codes "rule_condition"

abbrev pub place_rule_target : Place
place_rule_target = codes "rule_target"

abbrev pub place_policy_target : Place
place_policy_target = codes "policy_target"

abbrev pub place_set_target : Place
place_set_target = codes "set_target"

pub places : List Place
places =
    place_simplified ∷ place_rule_condition ∷ place_rule_target ∷ place_policy_target
    ∷ place_set_target ∷ []

abbrev pub Operator : Type 0
Operator = Bytes

abbrev pub op_match : Operator
op_match = codes "MATCH"

abbrev pub op_not_match : Operator
op_not_match = codes "NOT_MATCH"

pub unary_operators : List Operator
unary_operators =
    codes "IS_NULL" ∷ codes "IS_NOT_NULL" ∷ codes "IS_EMPTY" ∷ codes "IS_NOT_EMPTY" ∷ []

pub list_operators : List Operator
list_operators =
    codes "IN"
    ∷ codes "NOT_IN"
    ∷ codes "CONTAINS_ANY"
    ∷ codes "NOT_CONTAINS_ANY"
    ∷ codes "IS_SUBSET"
    ∷ codes "IS_NOT_SUBSET"
    ∷ []

pub operators : List Operator
operators =
    codes "EQ"
    ∷ codes "NE"
    ∷ codes "LT"
    ∷ codes "LE"
    ∷ codes "GT"
    ∷ codes "GE"
    ∷ codes "IS_NULL"
    ∷ codes "IS_NOT_NULL"
    ∷ codes "IS_EMPTY"
    ∷ codes "IS_NOT_EMPTY"
    ∷ codes "IN"
    ∷ codes "NOT_IN"
    ∷ codes "CONTAINS"
    ∷ codes "NOT_CONTAINS"
    ∷ codes "CONTAINS_ANY"
    ∷ codes "NOT_CONTAINS_ANY"
    ∷ codes "IS_SUBSET"
    ∷ codes "IS_NOT_SUBSET"
    ∷ op_match
    ∷ op_not_match
    ∷ []

-- `Operator.Unary`
unfoldable pub is_unary : Operator → Bool
unfolding unary_operators
is_unary o = contains unary_operators o

-- `Operator.TakesList`
unfoldable pub takes_list : Operator → Bool
unfolding list_operators
takes_list o = contains list_operators o

pub record Access : Type 0 where
  pub denied : Bool
  pub operation : Bytes

pub record Compare : Type 0 where
  pub op : Operator
  pub left : Option Operand
  pub right : Option Operand

pub data Atom : Type 0 where
  const : Bool → Atom
  is_m2m : Atom
  access : Access → Atom
  comparison : Compare → Atom
  unsupported_atom : Unsupported → Atom

pub record Condition : Type 0 where
  pub place : Place
  pub disjuncts : List (List (Option Atom))

pub data CondError : Type 0 where
  unknown_operator : Operator → CondError
  left_error right_error : Operator → OperandError → CondError
  never_left filtered_left : Operator → CondError
  left_path right_path : Operator → Bytes → CondError
  unary_with_right : Operator → CondError
  not_a_pattern : Operator → CondError
  bad_pattern : Operator → Bytes → Reason → CondError
  pattern_elsewhere : Operator → CondError
  takes_no_list : Operator → CondError
  list_of_one : Operator → CondError
  unknown_place : Place → CondError
  no_disjuncts : CondError
  empty_disjunct : ℕ → CondError
  atom_nil : CondError
  unsupported_error : UnsupportedError → CondError
  in_atom : ℕ → ℕ → CondError → CondError

-- The switch on the left operand.
unfoldable pub check_left : Operator → Option Operand → Check CondError
check_left op (some (list l)) = err (never_left op)
check_left op (some (pattern_text t)) = err (never_left op)
check_left op (some (pip_ref v)) = fail_if v.filtered (filtered_left op)
check_left op o = ok tt

-- `c.Op == OpMatch || c.Op == OpNotMatch`
unfoldable pub is_match : Operator → Bool
is_match op = equal op op_match || equal op op_not_match

-- `patternText`
unfoldable pub check_pattern : Operator → Bytes → Check CondError
check_pattern op t = elim (pattern_text_reason t) [
  | none ↦ ok tt
  | some r ↦ err (bad_pattern op t r)
]

-- The branch of MATCH and NOT MATCH.
unfoldable pub check_match : Operator → Option Operand → Check CondError
unfolding check_pattern
check_match op (some (pattern_text t)) = check_pattern op t
check_match op o = err (not_a_pattern op)

-- The switch on the right operand of the other operators.
unfoldable pub check_right : Operator → Option Operand → Check CondError
check_right op (some (pattern_text t)) = err (pattern_elsewhere op)
check_right op (some (list l)) = fail_if (not (takes_list op)) (takes_no_list op)
check_right op (some (lit v)) = fail_if (takes_list op) (list_of_one op)
check_right op o = ok tt

module _ (compiles_path : Bytes → Bool) where
  -- `compiles`: none for an operand that is no resource, or whose path compiles
  unfoldable pub compiles : (Bytes → CondError) → Option Operand → Check CondError
  compiles e (some (resource path)) = fail_if (not (compiles_path path)) (e path)
  compiles e o = ok tt

  -- What follows `validateOperand(c.Right)`.
  unfoldable pub check_binary : Operator → Option Operand → Check CondError
  unfolding check_match compiles check_right is_match takes_list
  check_binary op (some (unsupported u)) = ok tt
  check_binary op right =
      if is_match op
      then check_match op right
      else (compiles (right_path op) right >> check_right op right)

  -- The right operand: absent for a unary operator, valid for a binary one.
  unfoldable pub check_arity : Operator → Option Operand → Check CondError
  unfolding check_binary is_unary validate_operand
  check_arity op right =
      if is_unary op
      then fail_if (is_some right) (unary_with_right op)
      else (wrap (right_error op) (validate_operand right) >> check_binary op right)

  unfoldable pub validate_compare : Compare → Check CondError
  unfolding operators check_left compiles check_arity validate_operand
  validate_compare c = do
    fail_if (not (contains operators c.op)) (unknown_operator c.op)
    wrap (left_error c.op) (validate_operand c.left)
    check_left c.op c.left
    compiles (left_path c.op) c.left
    check_arity c.op c.right

  -- `NewCompare`
  unfoldable pub new_compare : Operator → Option Operand → Option Operand → Result CondError Compare
  unfolding validate_compare
  new_compare op left right =
      let c : Compare = record { op = op; left = left; right = right } in
      do validate_compare c; ok c

  unfoldable pub validate_atom : Option Atom → Check CondError
  unfolding validate_compare validate_unsupported
  validate_atom none = err atom_nil
  validate_atom (some (const b)) = ok tt
  validate_atom (some is_m2m) = ok tt
  validate_atom (some (access a)) = ok tt
  validate_atom (some (comparison c)) = validate_compare c
  validate_atom (some (unsupported_atom u)) = wrap unsupported_error (validate_unsupported u)

  -- The atoms of disjunct `i`, from index `j` on.
  unfoldable pub check_atoms : ℕ → ℕ → List (Option Atom) → Check CondError
  unfolding validate_atom
  check_atoms i j [] = ok tt
  check_atoms i j (a ∷ rest) = do wrap (in_atom i j) (validate_atom a); check_atoms i (j + 1) rest

  -- The disjuncts from index `i` on.
  unfoldable pub check_disjuncts : ℕ → List (List (Option Atom)) → Check CondError
  unfolding check_atoms
  check_disjuncts i [] = ok tt
  check_disjuncts i (d ∷ rest) = do
    fail_if (length d == 0) (empty_disjunct i)
    check_atoms i 0 d
    check_disjuncts (i + 1) rest

  unfoldable pub validate_condition : Condition → Check CondError
  unfolding places check_disjuncts
  validate_condition c = do
    fail_if (not (contains places c.place)) (unknown_place c.place)
    fail_if (length c.disjuncts == 0) no_disjuncts
    check_disjuncts 0 c.disjuncts

  -- `NewCondition`
  unfoldable pub new_condition : Place → List (List (Option Atom)) → Result CondError Condition
  unfolding validate_condition
  new_condition place disjuncts =
      let c : Condition = record { place = place; disjuncts = disjuncts } in
      do validate_condition c; ok c
