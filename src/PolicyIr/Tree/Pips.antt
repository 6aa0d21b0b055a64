-- ===== src/PolicyIr/Tree/Pips.antt =====
-- The checks of the PIP declarations against what a declaration is to be.
use qubership_authz_agent.Base.{
  ℕ, ◌+◌, Bytes, Bool, true, List, [], ◌∷◌, Option, none, some, codes, contains_iff, is_empty,
  is_empty_iff, is_empty-false_iff, starts_with_iff, not, ◌&&◌, Passes, check_all-All, All, In,
  IsFresh, ◌≡◌, ◌↔◌, inl, inr, refl, ap, arith, Bool-cases,
}
use qubership_authz_agent.PolicyIr.Tree.Check.{
  Callees, check_field, check_attribute, check_usable, check_pip, check_pips, all_empty,
  other_texts, only_isolated, json_fields, attributes,
}
use qubership_authz_agent.PolicyIr.Tree.Local.{IsCompact-iff}
use qubership_authz_agent.PolicyIr.Tree.Valid.{
  IsNode, IsCompact, IsBare, IsJsonField, IsUsable, IsPip, names,
}
use qubership_authz_agent.PolicyIr.Tree.{pip_types, Pip}
use qubership_authz_agent.Regex.{is_some}

all_empty_iff : (xs : List Bytes) → (all_empty xs ≡ true) ↔ All (λ x. x ≡ []) xs
unfolding all_empty
all_empty_iff [] = (λ _. tt, λ _. refl)
all_empty_iff (x ∷ xs) =
    let (f, g) = all_empty_iff xs in
    (
      λ h. ((is_empty_iff x).0 (ground arith), f (ground arith)),
      λ h. ground (arith, (is_empty_iff x).1 h.0, g h.1),
    )

absent_iff {ℓ} : {A : Type ℓ} (o : Option A) → (not (is_some o) ≡ true) ↔ (o ≡ none)
absent_iff none = (λ _. refl, λ _. refl)
absent_iff (some a) = (λ h. cc, λ h. cc)

IsBare-of_empty :
    (p : Pip) → All (λ x. x ≡ []) (other_texts p) → p.request_attributes ≡ none → IsBare p
IsBare-of_empty p h r = λ i. record {
  name = p.name;
  pip_type = h.0 i;
  claim = h.1.0 i;
  header = h.1.1.0 i;
  default_value = h.1.1.1.0 i;
  url = h.1.1.1.1.0 i;
  http_method = h.1.1.1.1.1.0 i;
  bean_name = h.1.1.1.1.1.1.0 i;
  json_path = h.1.1.1.1.1.1.1.0 i;
  return_type = h.1.1.1.1.1.1.1.1.0 i;
  headers = h.1.1.1.1.1.1.1.1.1.0 i;
  resource_type = h.1.1.1.1.1.1.1.1.1.1.0 i;
  domain = h.1.1.1.1.1.1.1.1.1.1.1.0 i;
  product_mapping = h.1.1.1.1.1.1.1.1.1.1.1.1.0 i;
  custom_mapping = h.1.1.1.1.1.1.1.1.1.1.1.1.1.0 i;
  cacheable = h.1.1.1.1.1.1.1.1.1.1.1.1.1.1.0 i;
  cache_period = h.1.1.1.1.1.1.1.1.1.1.1.1.1.1.1.0 i;
  unsupported = h.1.1.1.1.1.1.1.1.1.1.1.1.1.1.1.1.0 i;
  request_attributes = r i;
  isolated = p.isolated;
}

empty_of_bare : (p : Pip) → IsBare p → All (λ x. x ≡ []) (other_texts p)
empty_of_bare p b = (
  ap (λ (q : Pip). q.pip_type) b,
  (
    ap (λ (q : Pip). q.claim) b,
    (
      ap (λ (q : Pip). q.header) b,
      (
        ap (λ (q : Pip). q.default_value) b,
        (
          ap (λ (q : Pip). q.url) b,
          (
            ap (λ (q : Pip). q.http_method) b,
            (
              ap (λ (q : Pip). q.bean_name) b,
              (
                ap (λ (q : Pip). q.json_path) b,
                (
                  ap (λ (q : Pip). q.return_type) b,
                  (
                    ap (λ (q : Pip). q.headers) b,
                    (
                      ap (λ (q : Pip). q.resource_type) b,
                      (
                        ap (λ (q : Pip). q.domain) b,
                        (
                          ap (λ (q : Pip). q.product_mapping) b,
                          (
                            ap (λ (q : Pip). q.custom_mapping) b,
                            (
                              ap (λ (q : Pip). q.cacheable) b,
                              (
                                ap (λ (q : Pip). q.cache_period) b,
                                (ap (λ (q : Pip). q.unsupported) b, tt),
                              ),
                            ),
                          ),
                        ),
                      ),
                    ),
                  ),
                ),
              ),
            ),
          ),
        ),
      ),
    ),
  ),
)

-- `reflect.DeepEqual` finds exactly the declarations with nothing but a name and a reason.
IsBare-iff : (p : Pip) → (only_isolated p ≡ true) ↔ IsBare p
unfolding only_isolated
IsBare-iff p =
    let (f, g) = all_empty_iff (other_texts p) in
    let (a, a') = absent_iff p.request_attributes in
    (
      λ h.
          let (l, r) =
            and_parts (all_empty (other_texts p)) (not (is_some p.request_attributes)) h in
          IsBare-of_empty p (f l) (a r),
      λ b.
          and_both (all_empty (other_texts p)) (not (is_some p.request_attributes))
            (g (empty_of_bare p b)) (a' (ap (λ (q : Pip). q.request_attributes) b)),
    )
  where
    and_parts : (x y : Bool) → (x && y) ≡ true → (x ≡ true) × (y ≡ true)
    and_parts x y e = ground arith

    and_both : (x y : Bool) → x ≡ true → y ≡ true → (x && y) ≡ true
    and_both x y e e' = ground arith

module _ (env : Callees) where
  field_iff : (name f v : Bytes) → Passes (check_field env name (f, v)) ↔ IsJsonField env v
  field_iff name f v = elim (Bool-cases (is_empty v)) [
    | inl e ↦ (λ h. inl ((is_empty_iff v).0 e), λ h. rw e)
    | inr n ↦ (
      λ h. inr ((IsCompact-iff env v).0 (ground arith)),
      λ h. elim h [
        | inl e ↦ absurd ((is_empty-false_iff v).0 n e)
        | inr c ↦ ground (arith, (IsCompact-iff env v).1 c)
      ],
    )
  ]

  IsUsable-iff : (p : Pip) → Passes (check_usable env p) ↔ IsUsable env p
  unfolding check_usable
  IsUsable-iff p =
      let (g, g') =
        check_all-All (check_field env p.name) (λ e. IsJsonField env e.1) (json_fields p)
          (λ (n, v). field_iff p.name n v) in
      let (a, a') =
        check_all-All (check_attribute env p.name) (λ e. IsCompact env e.1) (attributes p)
          (λ (k, v). (
            λ h. (IsCompact-iff env v).0 (ground arith),
            λ c. ground (arith, (IsCompact-iff env v).1 c),
          )) in
      (
        λ h.
            let fields = g (ground arith) in
            record {
              type_known = (contains_iff pip_types p.pip_type).0 (ground arith);
              default_value_ok = fields.0;
              product_mapping_ok = fields.1.0;
              custom_mapping_ok = fields.1.1.0;
              cacheable_ok = fields.1.1.1.0;
              cache_period_ok = fields.1.1.1.1.0;
              attributes_ok = a (ground arith);
            },
        λ v.
            let fields = g' (
              v.default_value_ok,
              (
                v.product_mapping_ok,
                (v.custom_mapping_ok, (v.cacheable_ok, (v.cache_period_ok, tt))),
              ),
            ) in
            ground (
              arith,
              (contains_iff pip_types p.pip_type).1 v.type_known,
              fields,
              a' v.attributes_ok,
            ),
      )

  pip_iff :
      (seen : List Bytes) (p : Pip)
      → Passes (check_pip env seen p) ↔ (IsPip env p × (¬ In p.name seen))
  unfolding check_pip
  pip_iff seen p = elim (Bool-cases (is_empty p.isolated)) [
    | inl own ↦ (
      λ h. (
        record {
          prefixed = (starts_with_iff (codes "subject.") p.name).0 (ground arith);
          isolated_bare = λ n. absurd (n ((is_empty_iff p.isolated).0 own));
          usable = λ _. (IsUsable-iff p).0 (ground arith);
        },
        λ m. ground (arith, (contains_iff seen p.name).1 m),
      ),
      λ (v, n). ground (
        arith,
        (starts_with_iff (codes "subject.") p.name).1 v.prefixed,
        contains_iff seen p.name,
        (IsUsable-iff p).1 (v.usable ((is_empty_iff p.isolated).0 own)),
      ),
    )
    | inr bare ↦ (
      λ h. (
        record {
          prefixed = (starts_with_iff (codes "subject.") p.name).0 (ground arith);
          isolated_bare = λ n. (IsBare-iff p).0 (ground arith);
          usable = λ e. absurd ((is_empty-false_iff p.isolated).0 bare e);
        },
        λ m. ground (arith, (contains_iff seen p.name).1 m),
      ),
      λ (v, n). ground (
        arith,
        (starts_with_iff (codes "subject.") p.name).1 v.prefixed,
        contains_iff seen p.name,
        (IsBare-iff p).1 (v.isolated_bare ((is_empty-false_iff p.isolated).0 bare)),
      ),
    )
  ]

  -- The loop passes exactly when each declaration is one, and their names are new one after another.
  pub pips_iff :
      (i : ℕ) (seen : List Bytes) (ps : List (Option Pip))
      → Passes (check_pips env i seen ps) ↔ (All (IsNode (IsPip env)) ps × IsFresh (names ps) seen)
  unfolding check_pips
  pips_iff i seen [] = (λ _. (tt, tt), λ _. refl)
  pips_iff i seen (none ∷ ps) = (λ h. cc, λ h. absurd h.0.0)
  pips_iff i seen (some p ∷ ps) =
      let (f, g) = pips_iff (i + 1) (p.name ∷ seen) ps in
      (
        λ h.
            let (v, n) = (pip_iff seen p).0 (ground arith) in
            let (vs, ns) = f (ground arith) in ((v, vs), (n, ns)),
        λ h. ground (arith, (pip_iff seen p).1 (h.0.0, h.1.0), g (h.0.1, h.1.1)),
      )
