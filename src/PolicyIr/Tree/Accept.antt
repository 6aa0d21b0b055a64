-- ===== src/PolicyIr/Tree/Accept.antt =====
-- `NewTree` as a whole: which trees it accepts.
use qubership_authz_agent.Base.{
  ℕ, List, Bytes, Option, [], ◌∷◌, codes, ok, Check, Passes, ◌>>◌, ◌>>=◌, >>=-eq-ok, >>_iff, All,
  IsDistinct, IsFresh-iff, ◌≡◌, ◌↔◌, refl, sym, ap, subst, arith,
}
use qubership_authz_agent.PolicyIr.Tree.Check.{
  Callees, TreeError, nil_at, at, group_nil, fail_at, no_vars, check_pips, check_group, each,
  check_sets, validate, new_tree,
}
use qubership_authz_agent.PolicyIr.Tree.Local.{each_iff, IsGroup-iff}
use qubership_authz_agent.PolicyIr.Tree.Path.{
  labels, labels_of, group_label, set_labels, nil_index, nil_set_index, node_text,
}
use qubership_authz_agent.PolicyIr.Tree.Pips.{pips_iff}
use qubership_authz_agent.PolicyIr.Tree.Iterates.{no_nil}
use qubership_authz_agent.PolicyIr.Tree.Sets.{
  walk_all_sound, walk_all_complete, IsPolicySets-no_nil,
}
use qubership_authz_agent.PolicyIr.Tree.Valid.{
  IsNode, IsGroup, IsPolicySets, IsValidTree, names, sets_vars,
}
use qubership_authz_agent.PolicyIr.Tree.{SimplifiedGroup, PolicySets, Pip, Tree}

-- Five checks in a row, the second with the third and the fourth with the fifth.
rows_iff {ℓ} :
    {E : Type ℓ} (a b c d e : Check E)
    → Passes (a >> (b >> (c >> (d >> e)))) ↔ (Passes a × Passes (b >> c) × Passes (d >> e))
rows_iff a b c d e = (
  λ h.
      let (x, h₁) = (>>_iff a (b >> (c >> (d >> e)))).0 h in
      let (y, h₂) = (>>_iff b (c >> (d >> e))).0 h₁ in
      let (z, w) = (>>_iff c (d >> e)).0 h₂ in (x, (>>_iff b c).1 (y, z), w),
  λ (x, y, w).
      let (y₀, y₁) = (>>_iff b c).0 y in
      (>>_iff a (b >> (c >> (d >> e)))).1
        (x, (>>_iff b (c >> (d >> e))).1 (y₀, (>>_iff c (d >> e)).1 (y₁, w))),
)

module _ (env : Callees) where
  abbrev groups_nil : List (Option SimplifiedGroup) → Check TreeError
  groups_nil gs = fail_at group_nil (nil_index 0 gs)

  abbrev groups_each : List (Option SimplifiedGroup) → Check TreeError
  groups_each gs = each (check_group env) [] (labels (labels_of (group_label env.quote) gs)) gs

  groups_iff :
      (gs : List (Option SimplifiedGroup))
      → Passes (groups_nil gs >> groups_each gs) ↔ All (IsNode (IsGroup env)) gs
  groups_iff gs =
      each_iff (check_group env) (IsGroup env) (IsGroup-iff env) group_nil 0 []
        (labels (labels_of (group_label env.quote) gs)) gs

  abbrev root_nil : ℕ → TreeError
  root_nil i = at (node_text (codes "sets" ∷ [])) (nil_at i)

  abbrev roots_nil : PolicySets → Check TreeError
  roots_nil ss = fail_at root_nil (nil_set_index 0 ss)

  abbrev root_labels : PolicySets → List Bytes
  root_labels ss = labels (set_labels env.quote ss)

  abbrev roots_walk : PolicySets → Check TreeError
  roots_walk ss = check_sets env [] (root_labels ss) ss no_vars >>= λ _. ok tt

  roots_iff :
      (ss : PolicySets)
      → Passes (roots_nil ss >> roots_walk ss)
        ↔ (IsPolicySets env [] ss × IsDistinct (sets_vars ss))
  roots_iff ss = (
    λ h.
        let (n, h₁) = (>>_iff (roots_nil ss) (roots_walk ss)).0 h in
        let (d, w, _) = >>=-eq-ok (check_sets env [] (root_labels ss) ss no_vars) (λ _. ok tt) h₁ in
        let (v, f) =
          walk_all_sound env ss [] (root_labels ss) no_vars (λ x m. m) 0 (no_nil root_nil 0 ss n)
            w in
        (v, (IsFresh-iff (sets_vars ss)).0 f.0),
    λ (v, f).
        let (d, w, _, _) =
          walk_all_complete env ss [] (root_labels ss) no_vars (λ x m. m) v
            ((IsFresh-iff (sets_vars ss)).1 f) in
        rw (IsPolicySets-no_nil env [] 0 ss v, w) refl,
  )

  validate_iff : (t : Tree) → Passes (validate env t) ↔ IsValidTree env t
  unfolding validate
  validate_iff t =
      let (p, p') = pips_iff env 0 [] t.pips in
      let (g, g') = groups_iff t.simplified in
      let (s, s') = roots_iff t.sets in
      let (r, r') =
        rows_iff (check_pips env 0 [] t.pips) (groups_nil t.simplified) (groups_each t.simplified)
          (roots_nil t.sets) (roots_walk t.sets) in
      (
        λ h.
            let (x, y, z) = r h in
            let (pips, fresh) = p x in
            let (sets, vars) = s z in
            record {
              pips_ok = pips;
              names_distinct = (IsFresh-iff (names t.pips)).0 fresh;
              groups_ok = g y;
              sets_ok = sets;
              vars_distinct = vars;
            },
        λ v. r' (
          p' (v.pips_ok, (IsFresh-iff (names t.pips)).1 v.names_distinct),
          g' v.groups_ok,
          s' (v.sets_ok, v.vars_distinct),
        ),
      )

-- `NewTree` returns a tree exactly when the groups, sets and declarations it is given are those of a
-- valid tree, and the tree it returns holds just them.
pub new_tree_iff :
    (env : Callees) (gs : List (Option SimplifiedGroup)) (ss : PolicySets) (ps : List (Option Pip))
    (t : Tree)
    → (new_tree env gs ss ps ≡ ok t)
      ↔ ((t ≡ record { simplified = gs; sets = ss; pips = ps }) × IsValidTree env t)
unfolding new_tree
new_tree_iff env gs ss ps t =
    let built : Tree = record { simplified = gs; sets = ss; pips = ps } in
    (
      λ h.
          let (_, v, e) = >>=-eq-ok (validate env built) (λ _. ok built) h in
          let same : t ≡ built = ground arith in
          (same, subst (IsValidTree env) (sym same) ((validate_iff env built).0 v)),
      λ (same, v).
          rw ((validate_iff env built).1 (subst (IsValidTree env) same v)) (ap ok (sym same)),
    )
