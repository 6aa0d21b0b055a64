-- ===== src/PolicyIr/Operand/Valid.antt =====
-- What operand.go documents of a valid operand, and that `validateOperand` admits exactly those.
use qubership_authz_agent.Base.{
  ℕ, ◌+◌, ◌<◌, Bytes, true, false, List, [], ◌∷◌, Option, none, some, codes, contains_iff, equal,
  equal_iff, is_empty, is_empty_iff, is_empty-false_iff, ends_with_iff, not, ◌&&◌, ◌==◌, ltb,
  length, ok, Passes, wrap_iff, ◌>>=◌, All, In, ◌++◌, ◌≡◌, ◌≢◌, ◌↔◌, ◌⊎◌, inl, inr, refl, sym,
  subst, arith, Bool-cases,
}
use qubership_authz_agent.PolicyIr.Operand.{
  Subject, subject_attrs, subject_permission_scope, PipRef, Literal, string, number, bool,
  ListOperand, Operand, operation, resource_type, resource, subject, pip_ref, entitled, pass_value,
  lit, list, pattern_text, unsupported, number_syntax, new_number, kind_of, check_literal,
  check_items, validate_list, validate_subject, validate_operand,
}
use qubership_authz_agent.PolicyIr.Unsupported.{
  IsValidUnsupported, validate_unsupported, validate_unsupported_iff,
}
use qubership_authz_agent.Regex.Complete.{matches_whole_iff}
use qubership_authz_agent.Regex.Sound.{Matches}

-- A number literal the PAP accepts.
abbrev pub IsNumber : Bytes → Type 0
IsNumber t = Matches number_syntax t

-- Empty, or starting with a dot or a bracket.
abbrev pub IsPath : Bytes → Type 0
IsPath [] = Unit
IsPath (c ∷ path) = (c ≡ b'.') ⊎ (c ≡ b'[')

abbrev pub IsLiteral : Literal → Type 0
IsLiteral (number t) = IsNumber t
IsLiteral (string v) = Unit
IsLiteral (bool b) = Unit

-- A literal of the given kind, not nil.
abbrev pub IsItem : Bytes → Option Literal → Type 0
IsItem k none = ⊥
IsItem k (some v) = (kind_of v ≡ k) × IsLiteral v

-- Items of one kind, at least one, with the raw token exactly when there are several.
pub record IsValidList (l : ListOperand) : Type 0 where
  pub kind : Bytes
  pub some_item : 0 < length l.items
  pub one_kind : All (IsItem kind) l.items
  pub raw_iff_several : (1 < length l.items) ↔ (l.raw ≢ [])

-- A built-in attribute, with a key exactly for permissionScope.
pub record IsValidSubject (s : Subject) : Type 0 where
  pub known : In s.attr subject_attrs
  pub key_iff_scope : (s.key ≢ []) ↔ (s.attr ≡ subject_permission_scope)

pub record IsValidPipRef (v : PipRef) : Type 0 where
  pub named : v.name ≢ []
  pub filtered_name : v.filtered ≡ true → (front : Bytes) × (v.name ≡ front ++ codes ".filtered")
  pub plain : v.filtered ≡ false → v.filtered_operation ≡ []

abbrev pub IsValidOperand : Option Operand → Type 0
IsValidOperand none = ⊥
IsValidOperand (some operation) = Unit
IsValidOperand (some resource_type) = Unit
IsValidOperand (some (resource path)) = IsPath path
IsValidOperand (some (subject s)) = IsValidSubject s
IsValidOperand (some (pip_ref v)) = IsValidPipRef v
IsValidOperand (some (entitled v)) = 0 < length v.names
IsValidOperand (some (pass_value v)) = (v.var ≢ []) × (v.key ≢ [])
IsValidOperand (some (lit v)) = IsLiteral v
IsValidOperand (some (list l)) = IsValidList l
IsValidOperand (some (pattern_text t)) = t ≢ []
IsValidOperand (some (unsupported u)) = IsValidUnsupported u

IsNumber-iff : (t : Bytes) → Passes (new_number t >>= λ _. ok tt) ↔ IsNumber t
unfolding new_number
IsNumber-iff t = (
  λ h. (matches_whole_iff number_syntax t).0 (ground arith),
  λ m. rw ((matches_whole_iff number_syntax t).1 m),
)

check_literal_iff : (i : ℕ) (v : Literal) → Passes (check_literal i v) ↔ IsLiteral v
unfolding check_literal
check_literal_iff i (number t) = (
  λ h. (IsNumber-iff t).0 ((wrap_iff _ (new_number t >>= λ _. ok tt)).0 h),
  λ h. (wrap_iff _ (new_number t >>= λ _. ok tt)).1 ((IsNumber-iff t).1 h),
)
check_literal_iff i (string v) = (λ _. tt, λ _. refl)
check_literal_iff i (bool b) = (λ _. tt, λ _. refl)

kind_of-nonempty : (v : Literal) → is_empty (kind_of v) ≡ false
unfolding kind_of
kind_of-nonempty (string v) = refl
kind_of-nonempty (number t) = refl
kind_of-nonempty (bool b) = refl

-- Behind an item of kind `k` the rest has to be of that kind.
check_items_iff :
    (i : ℕ) (k : Bytes) (xs : List (Option Literal))
    → is_empty k ≡ false
    → Passes (check_items i k xs) ↔ All (IsItem k) xs
unfolding check_items
check_items_iff i k [] e = (λ _. tt, λ _. refl)
check_items_iff i k (none ∷ xs) e = (λ h. cc, λ h. absurd h.0)
check_items_iff i k (some v ∷ xs) e = (
  λ h.
      let a : Passes (check_literal i v) = ground arith in
      let p : kind_of v ≡ k = (equal_iff (kind_of v) k).0 (ground arith) in
      let c : Passes (check_items (i + 1) (kind_of v) xs) = ground arith in
      (
        (p, (check_literal_iff i v).0 a),
        (check_items_iff (i + 1) k xs e).0 (subst (λ x. Passes (check_items (i + 1) x xs)) p c),
      ),
  λ h.
      let c : Passes (check_items (i + 1) (kind_of v) xs) =
        rw (h.0.0) ((check_items_iff (i + 1) k xs e).1 h.1) in
      ground (arith, (check_literal_iff i v).1 h.0.1, (equal_iff (kind_of v) k).1 h.0.0, c),
)

-- The first item decides the kind.
check_items-IsItem :
    (xs : List (Option Literal))
    → 0 < length xs
    → Passes (check_items 0 [] xs)
    → (k : Bytes) × All (IsItem k) xs
unfolding check_items
check_items-IsItem [] l h = absurd (omega arith)
check_items-IsItem (none ∷ xs) l h = cc
check_items-IsItem (some v ∷ xs) l h =
    let a : Passes (check_literal 0 v) = ground arith in
    let c : Passes (check_items 1 (kind_of v) xs) = ground arith in
    (
      kind_of v,
      (
        (refl, (check_literal_iff 0 v).0 a),
        (check_items_iff 1 (kind_of v) xs (kind_of-nonempty v)).0 c,
      ),
    )

IsItem-check_items :
    (k : Bytes) (xs : List (Option Literal)) → All (IsItem k) xs → Passes (check_items 0 [] xs)
unfolding check_items
IsItem-check_items k [] h = refl
IsItem-check_items k (none ∷ xs) h = absurd h.0
IsItem-check_items k (some v ∷ xs) h =
    let c : Passes (check_items 1 (kind_of v) xs) =
      (check_items_iff 1 (kind_of v) xs (kind_of-nonempty v)).1
        (subst (λ x. All (IsItem x) xs) (sym h.0.0) h.1) in
    ground (arith, (check_literal_iff 0 v).1 h.0.1, c)

single : (l : ListOperand) → IsValidList l → (length l.items == 1 && not (is_empty l.raw)) ≡ false
single l v = elim (Bool-cases (is_empty l.raw)) [
  | inl e ↦ ground arith
  | inr w ↦ ground (arith, v.raw_iff_several.1 ((is_empty-false_iff l.raw).0 w))
]

several : (l : ListOperand) → IsValidList l → (ltb 1 (length l.items) && is_empty l.raw) ≡ false
several l v = elim (Bool-cases (ltb 1 (length l.items))) [
  | inl m ↦ ground (arith, (is_empty-false_iff l.raw).1 (v.raw_iff_several.0 (ground arith)))
  | inr f ↦ ground arith
]

validate_list_iff : (l : ListOperand) → Passes (validate_list l) ↔ IsValidList l
unfolding validate_list
validate_list_iff l = (
  λ h.
      let l₀ : 0 < length l.items = ground arith in
      let (k, all) = check_items-IsItem l.items l₀ (ground arith) in
      record {
        kind = k;
        some_item = l₀;
        one_kind = all;
        raw_iff_several = (
          λ several. (is_empty-false_iff l.raw).0 (ground arith),
          λ written. ground (arith, (is_empty-false_iff l.raw).1 written),
        );
      },
  λ v.
      ground
        (arith, v.some_item, single l v, several l v, IsItem-check_items v.kind l.items v.one_kind),
)

keyless :
    (s : Subject)
    → IsValidSubject s
    → (not (is_empty s.key) && not (equal s.attr subject_permission_scope)) ≡ false
keyless s v = elim (Bool-cases (is_empty s.key)) [
  | inl e ↦ rw e
  | inr w ↦
      let same =
        (equal_iff s.attr subject_permission_scope).1
          (v.key_iff_scope.0 ((is_empty-false_iff s.key).0 w)) in
      rw (w, same)
]

scope_has_key :
    (s : Subject)
    → IsValidSubject s
    → (is_empty s.key && equal s.attr subject_permission_scope) ≡ false
scope_has_key s v = elim (Bool-cases (equal s.attr subject_permission_scope)) [
  | inl e ↦ rw (
      (is_empty-false_iff s.key).1
        (v.key_iff_scope.1 ((equal_iff s.attr subject_permission_scope).0 e)))
  | inr n ↦ ground arith
]

validate_subject_iff : (s : Subject) → Passes (validate_subject s) ↔ IsValidSubject s
unfolding validate_subject
validate_subject_iff s = (
  λ h. record {
    known = (contains_iff subject_attrs s.attr).0 (ground arith);
    key_iff_scope = (
      λ w.
          (equal_iff s.attr subject_permission_scope).0
            (ground (arith, (is_empty-false_iff s.key).1 w)),
      λ e.
          (is_empty-false_iff s.key).0
            (ground (arith, (equal_iff s.attr subject_permission_scope).1 e)),
    );
  },
  λ v.
      ground (arith, (contains_iff subject_attrs s.attr).1 v.known, keyless s v, scope_has_key s v),
)

pip_ref_iff : (v : PipRef) → Passes (validate_operand (some (pip_ref v))) ↔ IsValidPipRef v
unfolding validate_operand
pip_ref_iff v = (
  λ h. record {
    named = (is_empty-false_iff v.name).0 (ground arith);
    filtered_name = λ f. (ends_with_iff (codes ".filtered") v.name).0 (ground arith);
    plain = λ f. (is_empty_iff v.filtered_operation).0 (ground arith);
  },
  λ g. elim (Bool-cases v.filtered) [
    | inl f ↦ ground (
      arith,
      (is_empty-false_iff v.name).1 g.named,
      (ends_with_iff (codes ".filtered") v.name).1 (g.filtered_name f),
    )
    | inr f ↦ ground (
      arith,
      (is_empty-false_iff v.name).1 g.named,
      (is_empty_iff v.filtered_operation).1 (g.plain f),
    )
  ],
)

-- `validateOperand` admits an operand exactly when it meets the rules of its type.
pub validate_operand_iff : (o : Option Operand) → Passes (validate_operand o) ↔ IsValidOperand o
unfolding validate_operand
validate_operand_iff none = (λ h. cc, λ h. absurd h)
validate_operand_iff (some operation) = (λ _. tt, λ _. refl)
validate_operand_iff (some resource_type) = (λ _. tt, λ _. refl)
validate_operand_iff (some (resource [])) = (λ _. tt, λ _. refl)
validate_operand_iff (some (resource (c ∷ path))) = (λ h. ground arith, λ h. ground arith)
validate_operand_iff (some (subject s)) = validate_subject_iff s
validate_operand_iff (some (pip_ref v)) = pip_ref_iff v
validate_operand_iff (some (entitled v)) = (λ h. ground arith, λ h. ground arith)
validate_operand_iff (some (pass_value v)) = (
  λ h. ground (arith, is_empty-false_iff v.var, is_empty-false_iff v.key),
  λ h. ground (arith, is_empty-false_iff v.var, is_empty-false_iff v.key),
)
validate_operand_iff (some (lit (string v))) = (λ _. tt, λ _. refl)
validate_operand_iff (some (lit (bool b))) = (λ _. tt, λ _. refl)
validate_operand_iff (some (lit (number t))) = IsNumber-iff t
validate_operand_iff (some (list l)) = validate_list_iff l
validate_operand_iff (some (pattern_text t)) =
    (λ h. ground (arith, is_empty-false_iff t), λ h. ground (arith, is_empty-false_iff t))
validate_operand_iff (some (unsupported u)) = (
  λ h. (validate_unsupported_iff u).0 ((wrap_iff _ (validate_unsupported u)).0 h),
  λ h. (wrap_iff _ (validate_unsupported u)).1 ((validate_unsupported_iff u).1 h),
)
