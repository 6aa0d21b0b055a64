-- ===== src/PolicyIr/Tree/Lookup.antt =====
-- Tree.PIP of internal/policyir/tree.go: the declaration of a name. A nil declaration, which the loop would
-- read, is a panic.
use qubership_authz_agent.Base.{
  Bytes, List, [], ◌∷◌, Option, none, some, equal, equal_iff, Result, ok, err, All, In, IsDistinct,
  Bool-cases, some_inj, ok_inj, if◌then◌else◌, ◌≡◌, ◌≢◌, ◌↔◌, inl, inr, refl, sym, ap, subst, ◌∙◌,
  arith,
}
use qubership_authz_agent.PolicyIr.Tree.Accept.{new_tree_iff}
use qubership_authz_agent.PolicyIr.Tree.Check.{Callees, new_tree}
use qubership_authz_agent.PolicyIr.Tree.Valid.{IsNode, IsPip, names}
use qubership_authz_agent.PolicyIr.Tree.{Pip, PolicySets, SimplifiedGroup, Tree}

data Panic : Type 0 where
  nil_declaration : Panic

unfoldable pip_in : Bytes → List (Option Pip) → Result Panic (Option Pip)
unfolding equal
pip_in name [] = ok none
pip_in name (none ∷ ps) = err nil_declaration
pip_in name (some p ∷ ps) =
    let rest = pip_in name ps in if equal p.name name then ok (some p) else rest

-- `Tree.PIP`
abbrev pip : Tree → Bytes → Result Panic (Option Pip)
pip t name = pip_in name t.pips

In-names : (p : Pip) (ps : List (Option Pip)) → In (some p) ps → In p.name (names ps)
In-names p [] i = absurd i
In-names p (none ∷ ps) i = elim i [ inl e ↦ cc | inr j ↦ In-names p ps j ]
In-names p (some q ∷ ps) i = elim i [
  | inl e ↦ inl (ap (λ (x : Pip). x.name) (some_inj e))
  | inr j ↦ inr (In-names p ps j)
]

pip_in_iff :
    (name : Bytes) (p : Pip) (ps : List (Option Pip))
    → All (λ o. o ≢ none) ps
    → IsDistinct (names ps)
    → (pip_in name ps ≡ ok (some p)) ↔ (In (some p) ps × (p.name ≡ name))
unfolding pip_in
pip_in_iff name p [] a d = (λ h. cc, λ (i, e). absurd i)
pip_in_iff name p (none ∷ ps) (n, a) d = absurd (n refl)
pip_in_iff name p (some q ∷ ps) (n, a) (new, d) =
    let (f, g) = pip_in_iff name p ps a d in
    elim (Bool-cases (equal q.name name)) [
      | inl e ↦
          let same = (equal_iff q.name name).0 e in
          rw (e) (
            λ h.
                let is = some_inj (ok_inj h) in
                (inl (ap some (sym is)), ap (λ (x : Pip). x.name) (sym is) ∙ same),
            λ (i, s). elim i [
              | inl h ↦ ap ok (sym h)
              | inr j ↦ absurd (new (subst (λ x. In x (names ps)) (s ∙ sym same) (In-names p ps j)))
            ],
          )
      | inr o ↦ rw (o) (
        λ h. let (i, s) = f h in (inr i, s),
        λ (i, s). elim i [
          | inl h ↦ absurd (
              ground (
                arith,
                (equal_iff q.name name).1 (ap (λ (x : Pip). x.name) (sym (some_inj h)) ∙ s),
              ))
          | inr j ↦ g (j, s)
        ],
      )
    ]

-- In a tree that `NewTree` returns, a name stands for the declaration that has it.
pip_iff :
    (env : Callees) (gs : List (Option SimplifiedGroup)) (ss : PolicySets) (ps : List (Option Pip))
    (t : Tree) (name : Bytes) (p : Pip)
    → new_tree env gs ss ps ≡ ok t
    → (pip t name ≡ ok (some p)) ↔ (In (some p) ps × (p.name ≡ name))
pip_iff env gs ss ps t name p h =
    let (same, v) = (new_tree_iff env gs ss ps t).0 h in
    subst
      (λ (l : List (Option Pip)). (pip t name ≡ ok (some p)) ↔ (In (some p) l × (p.name ≡ name)))
      (ap (λ (x : Tree). x.pips) same)
      (pip_in_iff name p t.pips (no_nil t.pips v.pips_ok) v.names_distinct)
  where
    no_nil : (l : List (Option Pip)) → All (IsNode (IsPip env)) l → All (λ o. o ≢ none) l
    no_nil [] a = tt
    no_nil (none ∷ l) (n, a) = absurd n
    no_nil (some q ∷ l) (n, a) = (λ e. cc, no_nil l a)
