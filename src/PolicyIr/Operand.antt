-- ===== src/PolicyIr/Operand.antt =====
-- internal/policyir/operand.go: the operands of a comparison and their validation. An interface
-- value is an `Option`, `none` for nil; the kinds of literal are one constructor, `lit`.
pub mod Valid
use qubership_authz_agent.Base.{
  ℕ, zero, suc, ◌+◌, Bytes, Bool, true, false, List, [], ◌∷◌, Option, none, some, codes, contains,
  equal, is_empty, ends_with, not, ◌&&◌, ◌||◌, ◌==◌, ltb, length, Result, ok, err, Check, fail_if,
  wrap, ◌>>◌, ◌>>=◌, if◌then◌else◌,
}
use qubership_authz_agent.PolicyIr.Unsupported.{Unsupported, UnsupportedError, validate_unsupported}
use qubership_authz_agent.Regex.{
  Regex, one, eps, seq, alt, star, plus, opt, text, between, digit, matches_whole,
}

abbrev pub SubjectAttr : Type 0
SubjectAttr = Bytes

abbrev pub subject_permission_scope : SubjectAttr
subject_permission_scope = codes "permissionScope"

pub subject_attrs : List SubjectAttr
subject_attrs =
    codes "id"
    ∷ codes "name"
    ∷ codes "type"
    ∷ codes "serviceAccount"
    ∷ codes "roles"
    ∷ codes "scopes"
    ∷ codes "permissions"
    ∷ codes "isM2M"
    ∷ subject_permission_scope
    ∷ []

pub record Subject : Type 0 where
  pub attr : SubjectAttr
  pub key : Bytes

pub record PipRef : Type 0 where
  pub name : Bytes
  pub filtered : Bool
  pub filtered_operation : Bytes

pub record Entitled : Type 0 where
  pub resource_type : Bytes
  pub names : List Bytes

pub record PassValue : Type 0 where
  pub var : Bytes
  pub key : Bytes

pub data Literal : Type 0 where
  string : Bytes → Literal
  number : Bytes → Literal
  bool : Bool → Literal

pub record ListOperand : Type 0 where
  pub items : List (Option Literal)
  pub raw : Bytes

pub data Operand : Type 0 where
  operation resource_type : Operand
  resource : Bytes → Operand
  subject : Subject → Operand
  pip_ref : PipRef → Operand
  entitled : Entitled → Operand
  pass_value : PassValue → Operand
  lit : Literal → Operand
  list : ListOperand → Operand
  pattern_text : Bytes → Operand
  unsupported : Unsupported → Operand

pub data OperandError : Type 0 where
  operand_nil : OperandError
  bad_path : Bytes → OperandError
  unknown_attribute : SubjectAttr → OperandError
  takes_no_key : SubjectAttr → Bytes → OperandError
  no_scope_key : OperandError
  no_pip_name : OperandError
  not_filtered_name : Bytes → OperandError
  operation_without_filtered : Bytes → OperandError
  no_entitled_names : OperandError
  no_variable no_pass_key : OperandError
  bad_number : Bytes → OperandError
  no_items no_raw : OperandError
  raw_of_one : Bytes → OperandError
  item : ℕ → OperandError → OperandError
  not_a_literal : ℕ → OperandError
  mixed_kinds : ℕ → Bytes → Bytes → OperandError
  empty_pattern : OperandError
  bad_unsupported : UnsupportedError → OperandError

-- ^(?:[0-9]+(?:\.[0-9]+)?|-[1-9][0-9]*(?:\.[0-9]+)?|-0\.[0-9]*[1-9])$
unfoldable pub number_syntax : Regex
number_syntax =
    let dot = one (λ c. c == b'.') in
    let minus = one (λ c. c == b'-') in
    let nonzero = one (between b'1' b'9') in
    let fraction = opt (seq dot (plus digit)) in
    alt (seq (plus digit) fraction) (
      alt (seq minus (seq nonzero (seq (star digit) fraction)))
        (seq (text (codes "-0.")) (seq (star digit) nonzero)))

unfoldable pub new_number : Bytes → Result OperandError Bytes
unfolding number_syntax matches_whole
new_number t = if not (matches_whole number_syntax t) then err (bad_number t) else ok t

-- The kind that `validateList` compares, by the names it prints.
unfoldable pub kind_of : Literal → Bytes
kind_of (string v) = codes "string"
kind_of (number t) = codes "number"
kind_of (bool b) = codes "bool"

-- The literal's own check: only a number has one.
unfoldable pub check_literal : ℕ → Literal → Check OperandError
unfolding new_number
check_literal i (number t) = wrap (item i) (new_number t >>= λ _. ok tt)
check_literal i (string v) = ok tt
check_literal i (bool b) = ok tt

-- The loop over the items, from index `i` on, with the kind of the item before.
unfoldable pub check_items : ℕ → Bytes → List (Option Literal) → Check OperandError
unfolding check_literal kind_of
check_items i kind [] = ok tt
check_items i kind (none ∷ rest) = err (not_a_literal i)
check_items i kind (some v ∷ rest) = do
  check_literal i v
  let k = kind_of v
  fail_if (not (is_empty kind) && not (equal k kind)) (mixed_kinds i k kind)
  check_items (i + 1) k rest

unfoldable pub validate_list : ListOperand → Check OperandError
unfolding check_items
validate_list l = do
  fail_if (length l.items == 0) no_items
  fail_if (length l.items == 1 && not (is_empty l.raw)) (raw_of_one l.raw)
  fail_if (ltb 1 (length l.items) && is_empty l.raw) no_raw
  check_items 0 [] l.items

-- `NewList` returns the list it builds when `validateList` passes it.
unfoldable pub new_list : Bytes → List (Option Literal) → Result OperandError ListOperand
unfolding validate_list
new_list raw items =
    let l : ListOperand = record { items = items; raw = raw } in do validate_list l; ok l

unfoldable pub validate_path : Bytes → Check OperandError
validate_path [] = ok tt
validate_path (c ∷ path) = if c == b'.' || c == b'[' then ok tt else err (bad_path (c ∷ path))

unfoldable pub validate_subject : Subject → Check OperandError
unfolding subject_attrs
validate_subject s = do
  fail_if (not (contains subject_attrs s.attr)) (unknown_attribute s.attr)
  fail_if (not (is_empty s.key) && not (equal s.attr subject_permission_scope))
      (takes_no_key s.attr s.key)
  fail_if (is_empty s.key && equal s.attr subject_permission_scope) no_scope_key

unfoldable pub validate_operand : Option Operand → Check OperandError
unfolding validate_path validate_subject validate_list new_number validate_unsupported
validate_operand none = err operand_nil
validate_operand (some operation) = ok tt
validate_operand (some resource_type) = ok tt
validate_operand (some (lit (string v))) = ok tt
validate_operand (some (lit (bool b))) = ok tt
validate_operand (some (resource path)) = validate_path path
validate_operand (some (subject s)) = validate_subject s
validate_operand (some (pip_ref v)) = do
  fail_if (is_empty v.name) no_pip_name
  fail_if (v.filtered && not (ends_with (codes ".filtered") v.name)) (not_filtered_name v.name)
  fail_if (not v.filtered && not (is_empty v.filtered_operation))
      (operation_without_filtered v.name)
validate_operand (some (entitled v)) = fail_if (length v.names == 0) no_entitled_names
validate_operand (some (pass_value v)) = do
  fail_if (is_empty v.var) no_variable
  fail_if (is_empty v.key) no_pass_key
validate_operand (some (lit (number t))) = new_number t >>= λ _. ok tt
validate_operand (some (list l)) = validate_list l
validate_operand (some (pattern_text t)) = fail_if (is_empty t) empty_pattern
validate_operand (some (unsupported u)) = wrap bad_unsupported (validate_unsupported u)
