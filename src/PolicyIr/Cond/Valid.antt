-- ===== src/PolicyIr/Cond/Valid.antt =====
-- What cond.go documents of a valid comparison and a valid condition, and that validation admits
-- exactly those.
use qubership_authz_agent.Base.{
  equal, equal_iff, ◌⊎◌, Bytes, Bool, true, false, List, [], ◌∷◌, Option, none, some, contains_iff,
  length, ℕ, ◌+◌, ◌<◌, Passes, wrap_iff, ◌>>◌, All, In, ◌≡◌, ◌↔◌, inl, inr, refl, arith, Bool-cases,
}
use qubership_authz_agent.PolicyIr.Cond.{
  places, Operator, operators, is_unary, unary_operators, takes_list, list_operators, is_match,
  op_match, op_not_match, Compare, Atom, const, is_m2m, access, comparison, unsupported_atom,
  Condition, CondError, left_path, check_left, compiles, check_binary, check_arity,
  validate_compare, validate_atom, check_atoms, check_disjuncts, validate_condition,
}
use qubership_authz_agent.PolicyIr.Operand.Valid.{IsValidOperand, validate_operand_iff}
use qubership_authz_agent.PolicyIr.Operand.{
  Operand, resource, pip_ref, lit, list, pattern_text, unsupported, validate_operand,
}
use qubership_authz_agent.PolicyIr.Pattern.Valid.{IsPatternText, pattern_text_reason_iff}
use qubership_authz_agent.PolicyIr.Pattern.{pattern_text_reason}
use qubership_authz_agent.PolicyIr.Unsupported.{
  IsValidUnsupported, validate_unsupported, validate_unsupported_iff,
}

module _ (compiles_path : Bytes → Bool) where
  -- What may stand on the left: no list, no pattern, no FILTERED reference, no path that jsonpath
  -- refuses.
  abbrev pub IsLeft : Option Operand → Type 0
  IsLeft none = Unit
  IsLeft (some (list l)) = ⊥
  IsLeft (some (pattern_text t)) = ⊥
  IsLeft (some (pip_ref v)) = v.filtered ≡ false
  IsLeft (some (resource path)) = compiles_path path ≡ true
  IsLeft (some other) = Unit

  abbrev pub IsMatch : Operator → Type 0
  IsMatch op = (op ≡ op_match) ⊎ (op ≡ op_not_match)

  abbrev pub IsUnary : Operator → Type 0
  IsUnary op = In op unary_operators

  abbrev pub TakesList : Operator → Type 0
  TakesList op = In op list_operators

  -- What may stand right of a binary operator.
  abbrev pub IsRight : Operator → Option Operand → Type 0
  IsRight op none = ⊥
  IsRight op (some (unsupported u)) = Unit
  IsRight op (some (pattern_text t)) = IsMatch op × IsPatternText t
  IsRight op (some (list l)) = (¬ IsMatch op) × TakesList op
  IsRight op (some (lit v)) = (¬ IsMatch op) × (¬ TakesList op)
  IsRight op (some (resource path)) = (¬ IsMatch op) × (compiles_path path ≡ true)
  IsRight op (some other) = ¬ IsMatch op

  -- The rules that `NewCompare` documents.
  pub record IsValidCompare (c : Compare) : Type 0 where
    pub known : In c.op operators
    pub left_valid : IsValidOperand c.left
    pub left_admitted : IsLeft c.left
    pub unary : IsUnary c.op → c.right ≡ none
    pub binary : (¬ IsUnary c.op) → IsValidOperand c.right × IsRight c.op c.right

  abbrev pub IsValidAtom : Option Atom → Type 0
  IsValidAtom none = ⊥
  IsValidAtom (some (const b)) = Unit
  IsValidAtom (some is_m2m) = Unit
  IsValidAtom (some (access a)) = Unit
  IsValidAtom (some (comparison c)) = IsValidCompare c
  IsValidAtom (some (unsupported_atom u)) = IsValidUnsupported u

  -- At least one disjunct, each with at least one atom, at a place the package declares.
  pub record IsValidCondition (c : Condition) : Type 0 where
    pub place_known : In c.place places
    pub some_disjunct : 0 < length c.disjuncts
    pub disjuncts_valid : All (λ d. (0 < length d) × All IsValidAtom d) c.disjuncts

  IsLeft-iff :
      (op : Operator) (o : Option Operand) (e : Bytes → CondError)
      → Passes (check_left op o >> compiles compiles_path e o) ↔ IsLeft o
  unfolding check_left compiles
  IsLeft-iff op none e = (λ _. tt, λ _. refl)
  IsLeft-iff op (some (list l)) e = (λ h. cc, λ h. absurd h)
  IsLeft-iff op (some (pattern_text t)) e = (λ h. cc, λ h. absurd h)
  IsLeft-iff op (some (pip_ref v)) e = (λ h. ground arith, λ h. ground arith)
  IsLeft-iff op (some (resource path)) e = (λ h. ground arith, λ h. ground arith)
  IsLeft-iff op (some _) e = (λ _. tt, λ _. refl)

  IsMatch-iff : (op : Operator) → (is_match op ≡ true) ↔ IsMatch op
  unfolding is_match
  IsMatch-iff op =
      let (f, g) = equal_iff op op_match in
      let (f', g') = equal_iff op op_not_match in
      (
        λ h. elim (Bool-cases (equal op op_match)) [
          | inl e ↦ inl (f e)
          | inr n ↦ inr (f' (rw n at h))
        ],
        λ h. elim h [ inl e ↦ ground (arith, g e) | inr e ↦ ground (arith, g' e) ],
      )

  IsUnary-iff : (op : Operator) → (is_unary op ≡ true) ↔ IsUnary op
  unfolding is_unary
  IsUnary-iff op = contains_iff unary_operators op

  list_iff : (op : Operator) → (takes_list op ≡ true) ↔ TakesList op
  unfolding takes_list
  list_iff op = contains_iff list_operators op

  -- A test that fails, where passing means `P`
  fails_iff : {P : Type 0} (b : Bool) → (b ≡ true) ↔ P → (b ≡ false) ↔ (¬ P)
  fails_iff b (f, g) =
      (λ e p. let e' = g p in cc, λ n. elim (Bool-cases b) [ inl e ↦ absurd (n (f e)) | inr e ↦ e ])

  -- What stands right of a binary operator, by the tests of the code.
  abbrev Tests : Operator → Option Operand → Type 0
  Tests op none = ⊥
  Tests op (some (unsupported u)) = Unit
  Tests op (some (pattern_text t)) = (is_match op ≡ true) × (pattern_text_reason t ≡ none)
  Tests op (some (list l)) = (is_match op ≡ false) × (takes_list op ≡ true)
  Tests op (some (lit v)) = (is_match op ≡ false) × (takes_list op ≡ false)
  Tests op (some (resource path)) = (is_match op ≡ false) × (compiles_path path ≡ true)
  Tests op (some other) = is_match op ≡ false

  check_binary-Tests :
      (op : Operator) (o : Option Operand)
      → IsValidOperand o
      → Passes (check_binary compiles_path op o) ↔ Tests op o
  unfolding check_binary
  check_binary-Tests op none v = absurd v
  check_binary-Tests op (some (unsupported u)) v = (λ _. tt, λ _. refl)
  check_binary-Tests op (some _) v = (λ h. ground arith, λ h. ground arith)

  pair_iff : {A B C D : Type 0} → A ↔ B → C ↔ D → (A × C) ↔ (B × D)
  pair_iff (f, g) (f', g') = (λ (a, c). (f a, f' c), λ (b, d). (g b, g' d))

  Tests-IsRight : (op : Operator) (o : Option Operand) → Tests op o ↔ IsRight op o
  Tests-IsRight op none = (λ h. h, λ h. h)
  Tests-IsRight op (some (unsupported u)) = (λ h. h, λ h. h)
  Tests-IsRight op (some (pattern_text t)) = pair_iff (IsMatch-iff op) (pattern_text_reason_iff t)
  Tests-IsRight op (some (list l)) = pair_iff (fails_iff _ (IsMatch-iff op)) (list_iff op)
  Tests-IsRight op (some (lit v)) =
      pair_iff (fails_iff _ (IsMatch-iff op)) (fails_iff _ (list_iff op))
  Tests-IsRight op (some (resource path)) = pair_iff (fails_iff _ (IsMatch-iff op)) (λ h. h, λ h. h)
  Tests-IsRight op (some _) = fails_iff _ (IsMatch-iff op)

  arity_iff :
      (op : Operator) (o : Option Operand)
      → Passes (check_arity compiles_path op o)
        ↔ ((IsUnary op → o ≡ none) × ((¬ IsUnary op) → IsValidOperand o × IsRight op o))
  unfolding check_arity
  arity_iff op o =
      let (is, test) = IsUnary-iff op in
      let (is_not, fails) = fails_iff (is_unary op) (IsUnary-iff op) in
      let (right, right') = Tests-IsRight op o in
      (
        λ h. (
          λ u. let e = test u in ground arith,
          λ b.
              let e = fails b in
              let v : Passes (validate_operand o) = ground arith in
              let r : Passes (check_binary compiles_path op o) = ground arith in
              let v' = (validate_operand_iff o).0 v in
              (v', right ((check_binary-Tests op o v').0 r)),
        ),
        λ (f, g). elim (Bool-cases (is_unary op)) [
          | inl u ↦ ground (arith, f (is u))
          | inr b ↦
              let (v, r) = g (is_not b) in
              ground (arith, (validate_operand_iff o).1 v, (check_binary-Tests op o v).1 (right' r))
        ],
      )

  -- `validateCompare` admits a comparison exactly when it meets the rules that `NewCompare` documents: its operator
  -- is known, its operands are valid, and its right side is absent for a unary operator and else fits the operator.
  -- A pattern fits MATCH and NOT MATCH where its text is one attribute token or one wildcard token that is no
  -- number, no keyword and no attribute of the subject.
  pub validate_compare_iff :
      (c : Compare) → Passes (validate_compare compiles_path c) ↔ IsValidCompare c
  unfolding validate_compare
  validate_compare_iff c = (
    λ h.
        let v : Passes (validate_operand c.left) = ground arith in
        let l : Passes (check_left c.op c.left >> compiles compiles_path (left_path c.op) c.left) =
          ground arith in
        let (u, b) = (arity_iff c.op c.right).0 (ground arith) in
        record {
          known = (contains_iff operators c.op).0 (ground arith);
          left_valid = (validate_operand_iff c.left).0 v;
          left_admitted = (IsLeft-iff c.op c.left (left_path c.op)).0 l;
          unary = u;
          binary = b;
        },
    λ v. ground (
      arith,
      (contains_iff operators c.op).1 v.known,
      (validate_operand_iff c.left).1 v.left_valid,
      (IsLeft-iff c.op c.left (left_path c.op)).1 v.left_admitted,
      (arity_iff c.op c.right).1 (v.unary, v.binary),
    ),
  )

  atom_iff : (a : Option Atom) → Passes (validate_atom compiles_path a) ↔ IsValidAtom a
  unfolding validate_atom
  atom_iff none = (λ h. cc, λ h. absurd h)
  atom_iff (some (const b)) = (λ _. tt, λ _. refl)
  atom_iff (some is_m2m) = (λ _. tt, λ _. refl)
  atom_iff (some (access a)) = (λ _. tt, λ _. refl)
  atom_iff (some (comparison c)) = validate_compare_iff c
  atom_iff (some (unsupported_atom u)) = (
    λ h. (validate_unsupported_iff u).0 ((wrap_iff _ (validate_unsupported u)).0 h),
    λ h. (wrap_iff _ (validate_unsupported u)).1 ((validate_unsupported_iff u).1 h),
  )

  atoms_iff :
      (i j : ℕ) (d : List (Option Atom))
      → Passes (check_atoms compiles_path i j d) ↔ All IsValidAtom d
  unfolding check_atoms
  atoms_iff i j [] = (λ _. tt, λ _. refl)
  atoms_iff i j (a ∷ d) = (
    λ h.
        let v : Passes (validate_atom compiles_path a) = ground arith in
        let r : Passes (check_atoms compiles_path i (j + 1) d) = ground arith in
        ((atom_iff a).0 v, (atoms_iff i (j + 1) d).0 r),
    λ h. ground (arith, (atom_iff a).1 h.0, (atoms_iff i (j + 1) d).1 h.1),
  )

  disjuncts_iff :
      (i : ℕ) (ds : List (List (Option Atom)))
      → Passes (check_disjuncts compiles_path i ds)
        ↔ All (λ d. (0 < length d) × All IsValidAtom d) ds
  unfolding check_disjuncts
  disjuncts_iff i [] = (λ _. tt, λ _. refl)
  disjuncts_iff i (d ∷ ds) = (
    λ h.
        let v : Passes (check_atoms compiles_path i 0 d) = ground arith in
        let r : Passes (check_disjuncts compiles_path (i + 1) ds) = ground arith in
        ((ground arith, (atoms_iff i 0 d).0 v), (disjuncts_iff (i + 1) ds).0 r),
    λ h. ground (arith, h.0.0, (atoms_iff i 0 d).1 h.0.1, (disjuncts_iff (i + 1) ds).1 h.1),
  )

  -- `validateCondition` admits a condition exactly when it has a known place, at least one disjunct,
  -- no empty disjunct and valid atoms only.
  pub validate_condition_iff :
      (c : Condition) → Passes (validate_condition compiles_path c) ↔ IsValidCondition c
  unfolding validate_condition
  validate_condition_iff c = (
    λ h.
        let d : Passes (check_disjuncts compiles_path 0 c.disjuncts) = ground arith in
        record {
          place_known = (contains_iff places c.place).0 (ground arith);
          some_disjunct = ground arith;
          disjuncts_valid = (disjuncts_iff 0 c.disjuncts).0 d;
        },
    λ v. ground (
      arith,
      (contains_iff places c.place).1 v.place_known,
      v.some_disjunct,
      (disjuncts_iff 0 c.disjuncts).1 v.disjuncts_valid,
    ),
  )
