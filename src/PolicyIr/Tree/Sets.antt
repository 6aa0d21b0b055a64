-- ===== src/PolicyIr/Tree/Sets.antt =====
-- The walk over the sets (`checker.set`, `checker.sets`): its state is the vars seen so far, which
-- decide uniqueness, and the vars bound around the node, which decide scope.
use qubership_authz_agent.Base.{
  ℕ, ◌+◌, Bytes, List, ◌∷◌, none, codes, Result, ok, Passes, >>=-eq-ok, In, IsFresh, record_all,
  IsFresh-append, In-record_all, record_all-append, ◌≡◌, refl, sym, ap, subst, ◌∙◌, arith,
}
use qubership_authz_agent.PolicyIr.Tree.Check.{
  Callees, TreeError, nil_at, at, fail_at, Checker, check_head, enter, leave, check_policies,
  check_set, check_sets, has_children,
}
use qubership_authz_agent.PolicyIr.Tree.Local.{IsHead-iff, policies_iff}
use qubership_authz_agent.PolicyIr.Tree.Path.{
  Node, node_text, labels, set_labels, head_label, tail_labels, nil_set_index,
}
use qubership_authz_agent.PolicyIr.Tree.Valid.{
  IsIterate, IsPolicySet, IsPolicySets, inside, own_vars, set_vars, sets_vars,
}
use qubership_authz_agent.PolicyIr.Tree.{SetHead, PolicySet, policy_set, PolicySets, end, null, set}
use qubership_authz_agent.PolicyIr.Tree.Iterates.{
  IsTracked, entered, leave_entered, vars-leave, enter_sound, enter_complete, IsTracked-entered,
  set_chain, no_nil,
}

module _ (env : Callees) where
  abbrev nil_error : Node → ℕ → TreeError
  nil_error here i = at (node_text (codes "sets" ∷ here)) (nil_at i)

  set_steps :
      (here : Node) (h : SetHead) (ss : PolicySets) (c : Checker) {d : Checker}
      → check_set env here (policy_set h ss) c ≡ ok d
      → Passes (check_head env c.bound here h (has_children h ss))
        × (c₁ : Checker) × (enter here h.iterate c ≡ ok c₁)
        × Passes (check_policies env c₁.bound here h.policies)
        × Passes (fail_at (nil_error here) (nil_set_index 0 ss))
        × (c₂ : Checker) × (check_sets env here (labels (set_labels env.quote ss)) ss c₁ ≡ ok c₂)
        × (d ≡ leave h.iterate c₂)
  unfolding check_set
  set_steps here h ss c e =
      set_chain (check_head env c.bound here h (has_children h ss)) (enter here h.iterate c)
        (λ c₁. check_policies env c₁.bound here h.policies)
        (fail_at (nil_error here) (nil_set_index 0 ss))
        (λ c₁. check_sets env here (labels (set_labels env.quote ss)) ss c₁) (leave h.iterate) e

  -- What the walk establishes of a set, and of the state behind it.
  abbrev Walked : List Bytes → Checker → Checker → Type 0
  Walked vs c d = IsFresh vs c.vars × (d.vars ≡ record_all vs c.vars) × (d.bound ≡ c.bound)

  -- A set from its parts.
  parts_of_set :
      (h : SetHead) (ss : PolicySets) (here : Node) (c : Checker) {c₂ d : Checker}
      → IsTracked c
      → Passes (check_head env c.bound here h (has_children h ss))
      → IsIterate h.iterate
      → IsFresh (own_vars h.iterate) c.vars
      → Passes (check_policies env (inside h.iterate c.bound) here h.policies)
      → IsPolicySets env (inside h.iterate c.bound) ss
        × Walked (sets_vars ss) (entered h.iterate c) c₂
      → d ≡ leave h.iterate c₂
      → IsPolicySet env c.bound (policy_set h ss) × Walked (set_vars (policy_set h ss)) c d
  parts_of_set h ss here c {c₂} t a it f p (v, (fresh, vars, bound)) l = (
    (
      (IsHead-iff env c.bound here h (has_children h ss)).0 a,
      it,
      (policies_iff env (inside h.iterate c.bound) here h.policies).0 p,
      v,
    ),
    (
      (IsFresh-append (own_vars h.iterate) (sets_vars ss) c.vars).1 (f, fresh),
      ap (λ (x : Checker). x.vars) l
          ∙ vars-leave h.iterate c₂
          ∙ vars
          ∙ sym (record_all-append (own_vars h.iterate) (sets_vars ss) c.vars),
      ap (λ (x : Checker). x.bound) l ∙ leave_entered h.iterate c c₂ t f bound,
    ),
  )

  Walked-IsTracked : (vs : List Bytes) (c d : Checker) → Walked vs c d → IsTracked c → IsTracked d
  Walked-IsTracked vs c d (f, vars, bound) t v m =
      subst (λ x. In v x) (sym vars) (In-record_all v vs c.vars (t v (subst (λ x. In v x) bound m)))

  -- A list of sets from its first and the others.
  parts_of_sets :
      (s : PolicySet) (ss : PolicySets) (c c₁ d : Checker)
      → IsPolicySet env c.bound s × Walked (set_vars s) c c₁
      → IsPolicySets env c₁.bound ss × Walked (sets_vars ss) c₁ d
      → IsPolicySets env c.bound (set s ss) × Walked (sets_vars (set s ss)) c d
  parts_of_sets s ss c c₁ d (v, (f, vars, bound)) (v', (f', vars', bound')) = (
    (v, subst (λ x. IsPolicySets env x ss) bound v'),
    (
      (IsFresh-append (set_vars s) (sets_vars ss) c.vars).1
          (f, subst (λ x. IsFresh (sets_vars ss) x) vars f'),
      vars'
          ∙ ap (record_all (sets_vars ss)) vars
          ∙ sym (record_all-append (set_vars s) (sets_vars ss) c.vars),
      bound' ∙ bound,
    ),
  )

  mutual
    unfolding check_set nil_set_index

    pub walk_sound :
        (s : PolicySet) (here : Node) (c : Checker) {d : Checker}
        → IsTracked c
        → check_set env here s c ≡ ok d
        → IsPolicySet env c.bound s × Walked (set_vars s) c d
    walk_sound (policy_set h ss) here c t e =
        let (a, c₁, b, p, n, c₂, w, l) = set_steps here h ss c e in
        let (it, f, eq) = enter_sound here h.iterate c b in
        let ls = labels (set_labels env.quote ss) in
        parts_of_set h ss here c t a it f
          (subst (λ x. Passes (check_policies env x.bound here h.policies)) eq p)
          (walk_all_sound ss here ls (entered h.iterate c) (IsTracked-entered h.iterate c t) 0
            (no_nil (nil_error here) 0 ss n)
            (subst (λ x. check_sets env here ls ss x ≡ ok c₂) eq w))
          l

    pub walk_all_sound :
        (ss : PolicySets) (here : Node) (ls : List Bytes) (c : Checker) {d : Checker}
        → IsTracked c
        → (i : ℕ) → nil_set_index i ss ≡ none
        → check_sets env here ls ss c ≡ ok d
        → IsPolicySets env c.bound ss × Walked (sets_vars ss) c d
    walk_all_sound end here ls c t i n e = (tt, (tt, ground arith, ground arith))
    walk_all_sound (null ss) here ls c t i n e = cc
    walk_all_sound (set s ss) here ls c {d} t i n e =
        let (c₁, a, b) =
          >>=-eq-ok (check_set env (head_label ls ∷ here) s c)
            (λ x. check_sets env here (tail_labels ls) ss x) e in
        let first = walk_sound s (head_label ls ∷ here) c t a in
        parts_of_sets s ss c c₁ d first (
          walk_all_sound ss here (tail_labels ls) c₁ (Walked-IsTracked (set_vars s) c c₁ first.1 t)
            (i + 1) n b)

  -- A walk that succeeds, from a state to the state behind it.
  abbrev Walks : (Checker → Result TreeError Checker) → List Bytes → Checker → Type 0
  Walks f vs c =
      (d : Checker) × (f c ≡ ok d) × (d.vars ≡ record_all vs c.vars) × (d.bound ≡ c.bound)

  one-Walks :
      (h : SetHead) (ss : PolicySets) (here : Node) (c : Checker)
      → IsTracked c
      → Passes (check_head env c.bound here h (has_children h ss))
      → IsIterate h.iterate
      → IsFresh (own_vars h.iterate) c.vars
      → Passes (check_policies env (inside h.iterate c.bound) here h.policies)
      → nil_set_index 0 ss ≡ none
      → Walks
          (check_sets env here (labels (set_labels env.quote ss)) ss)
          (sets_vars ss)
          (entered h.iterate c)
      → Walks (check_set env here (policy_set h ss)) (set_vars (policy_set h ss)) c
  unfolding check_set
  one-Walks h ss here c t a it f p n (d, w, vars, bound) = (
    leave h.iterate d,
    rw (a, enter_complete here h.iterate c it f, p, n, w),
    vars-leave h.iterate d
        ∙ vars
        ∙ sym (record_all-append (own_vars h.iterate) (sets_vars ss) c.vars),
    leave_entered h.iterate c d t f bound,
  )

  pub IsPolicySets-no_nil :
      (bound : List Bytes) (i : ℕ) (ss : PolicySets)
      → IsPolicySets env bound ss
      → nil_set_index i ss ≡ none
  unfolding nil_set_index
  IsPolicySets-no_nil bound i end v = refl
  IsPolicySets-no_nil bound i (null ss) v = absurd v
  IsPolicySets-no_nil bound i (set s ss) v = IsPolicySets-no_nil bound (i + 1) ss v.1

  -- The walk over the other sets follows that over the first.
  then-Walks :
      (s : PolicySet) (ss : PolicySets) (here : Node) (ls : List Bytes) (c : Checker)
      (first : Walks (check_set env (head_label ls ∷ here) s) (set_vars s) c)
      → Walks (check_sets env here (tail_labels ls) ss) (sets_vars ss) first.0
      → Walks (check_sets env here ls (set s ss)) (sets_vars (set s ss)) c
  unfolding check_set
  then-Walks s ss here ls c (c₁, w, vars, bound) (d, w', vars', bound') = (
    d,
    rw (w) w',
    vars'
        ∙ ap (record_all (sets_vars ss)) vars
        ∙ sym (record_all-append (set_vars s) (sets_vars ss) c.vars),
    bound' ∙ bound,
  )

  mutual
    unfolding check_set

    walk_complete :
        (s : PolicySet) (here : Node) (c : Checker)
        → IsTracked c
        → IsPolicySet env c.bound s
        → IsFresh (set_vars s) c.vars
        → Walks (check_set env here s) (set_vars s) c
    walk_complete (policy_set h ss) here c t (a, it, p, v) fresh =
        let (f, g) = (IsFresh-append (own_vars h.iterate) (sets_vars ss) c.vars).0 fresh in
        one-Walks h ss here c t ((IsHead-iff env c.bound here h (has_children h ss)).1 a) it f
          ((policies_iff env (inside h.iterate c.bound) here h.policies).1 p)
          (IsPolicySets-no_nil (inside h.iterate c.bound) 0 ss v)
          (walk_all_complete ss here (labels (set_labels env.quote ss)) (entered h.iterate c)
            (IsTracked-entered h.iterate c t) v g)

    pub walk_all_complete :
        (ss : PolicySets) (here : Node) (ls : List Bytes) (c : Checker)
        → IsTracked c
        → IsPolicySets env c.bound ss
        → IsFresh (sets_vars ss) c.vars
        → Walks (check_sets env here ls ss) (sets_vars ss) c
    walk_all_complete end here ls c t v f = (c, refl, refl, refl)
    walk_all_complete (null ss) here ls c t v f = absurd v
    walk_all_complete (set s ss) here ls c t v f =
        let (g, g') = (IsFresh-append (set_vars s) (sets_vars ss) c.vars).0 f in
        let (c₁, w, vars, bound) = walk_complete s (head_label ls ∷ here) c t v.0 g in
        then-Walks s ss here ls c (c₁, w, vars, bound)
          (walk_all_complete ss here (tail_labels ls) c₁
            (Walked-IsTracked (set_vars s) c c₁ (g, vars, bound) t)
            (subst (λ x. IsPolicySets env x ss) (sym bound) v.1)
            (subst (λ x. IsFresh (sets_vars ss) x) (sym vars) g'))

  -- A check of a set that passes leaves the iterates around the set as it found them, and adds the
  -- vars of the set, each new, to those seen; the vars that are bound before it are to be among those
  -- seen.
  pub check_set-restores :
      (s : PolicySet) (here : Node) (c : Checker) {d : Checker}
      → IsTracked c
      → check_set env here s c ≡ ok d
      → (d.bound ≡ c.bound)
        × (d.vars ≡ record_all (set_vars s) c.vars)
        × IsFresh (set_vars s) c.vars
  check_set-restores s here c t e =
      let (_, (fresh, vars, bound)) = walk_sound s here c t e in (bound, vars, fresh)
