-- ===== src/TokenNamespaces/Allowed.antt =====
-- Which namespaces internal/token/namespaces/namespaces.go allows, and which tokens a verifier with its
-- check lets pass.
use qubership_authz_agent.Base.Int.{ℤ}
use qubership_authz_agent.Base.{
  ℕ, Bytes, Bool, true, List, [], ◌∷◌, Option, none, some, contains, contains_iff, equal, equal_iff,
  Result, ok, err, >>=-eq-ok, ok_inj, some_inj, Bool-cases, In, ◌≡◌, ◌≢◌, ◌↔◌, ◌⊎◌, inl, inr, refl,
  sym, ap, subst, ◌∙◌, arith,
}
use qubership_authz_agent.PolicyStore.Maps.{find, put, find-put, find-put_other}
use qubership_authz_agent.TokenKeys.Signing.{Jwk}
use qubership_authz_agent.TokenKeys.{Key}
use qubership_authz_agent.TokenNamespaces.{
  Domain, Composite, Topology, Allowlist, add_name, add_domains, namespaces_of, namespaces,
  or_false, is_allowed, read_topology, own_alone, load_from, load, reload, namespace_of,
  refuse_unless, admit,
}
use qubership_authz_agent.TokenVerify.Verifier.{Cache, admitted, verify, found_or_checked, cached}
use qubership_authz_agent.TokenVerify.{Code, Provider, Token, Outside}

-- The name is set in the map.
abbrev IsNamed : Bytes → List (Bytes × Bool) → Type 0
IsNamed n m = or_false (find n m) ≡ true

put_iff :
    (n k : Bytes) (m : List (Bytes × Bool)) → IsNamed n (put k true m) ↔ ((n ≡ k) ⊎ IsNamed n m)
put_iff n k m = elim (Bool-cases (equal n k)) [
  | inl e ↦
      let same = (equal_iff n k).0 e in
      (λ _. inl same, λ _. ap or_false (ap (λ x. find x (put k true m)) same ∙ find-put k true m))
  | inr d ↦
      let other : n ≢ k = λ e. ground (arith, d, (equal_iff n k).1 e) in
      let kept = find-put_other n k true m other in
      (
        λ h. inr (ap or_false (sym kept) ∙ h),
        λ h. elim h [ inl e ↦ absurd (other e) | inr s ↦ ap or_false kept ∙ s ],
      )
]

add_name_iff :
    (n k : Bytes) (m : List (Bytes × Bool))
    → IsNamed n (add_name k m) ↔ (((n ≡ k) × (n ≢ [])) ⊎ IsNamed n m)
add_name_iff n [] m = (λ h. inr h, λ h. elim h [ inl (e, d) ↦ absurd (d e) | inr s ↦ s ])
add_name_iff n (c ∷ cs) m =
    let (f, g) = put_iff n (c ∷ cs) m in
    (
      λ h. elim (f h) [ inl e ↦ inl (e, λ z. cc) | inr s ↦ inr s ],
      λ h. g (elim h [ inl (e, d) ↦ inl e | inr s ↦ inr s ]),
    )

-- A domain of the list has the name.
abbrev pub Names : Bytes → List (Option Domain) → Type 0
Names n ds = (d : Domain) × In (some d) ds × ((n ≡ d.origin) ⊎ (n ≡ d.peer))

add_domains_iff :
    (n : Bytes) (ds : List (Option Domain)) (m : List (Bytes × Bool))
    → IsNamed n (add_domains ds m) ↔ ((Names n ds × (n ≢ [])) ⊎ IsNamed n m)
unfolding add_domains
add_domains_iff n [] m = (λ h. inr h, λ h. elim h [ inl ((d, i, w), _) ↦ absurd i | inr s ↦ s ])
add_domains_iff n (none ∷ ds) m =
    let (f, g) = add_domains_iff n ds m in
    (
      λ h. elim (f h) [ inl ((d, i, w), ne) ↦ inl ((d, inr i, w), ne) | inr s ↦ inr s ],
      λ h. elim h [
        | inl ((d, inl e, w), ne) ↦ cc
        | inl ((d, inr i, w), ne) ↦ g (inl ((d, i, w), ne))
        | inr s ↦ g (inr s)
      ],
    )
add_domains_iff n (some d ∷ ds) m =
    let (f, g) = add_domains_iff n ds (add_name d.peer (add_name d.origin m)) in
    let (p, p') = add_name_iff n d.peer (add_name d.origin m) in
    let (o, o') = add_name_iff n d.origin m in
    (
      λ h. elim (f h) [
        | inl ((d', i, w), ne) ↦ inl ((d', inr i, w), ne)
        | inr s ↦ elim (p s) [
          | inl (e, ne) ↦ inl ((d, inl refl, inr e), ne)
          | inr s' ↦ elim (o s') [ inl (e, ne) ↦ inl ((d, inl refl, inl e), ne) | inr t ↦ inr t ]
        ]
      ],
      λ h. elim h [
        | inl ((d', inl e, inl w), ne) ↦
            g (inr (p' (inr (o' (inl (w ∙ ap (λ x. x.origin) (some_inj e), ne))))))
        | inl ((d', inl e, inr w), ne) ↦ g (inr (p' (inl (w ∙ ap (λ x. x.peer) (some_inj e), ne))))
        | inl ((d', inr i, w), ne) ↦ g (inl ((d', i, w), ne))
        | inr s ↦ g (inr (p' (inr (o' (inr s)))))
      ],
    )

-- The name is the origin or the peer of the baseline or of a satellite.
abbrev pub InComposite : Bytes → Option Composite → Type 0
InComposite n none = ⊥
InComposite n (some c) = Names n (c.baseline ∷ c.satellites) × (n ≢ [])

-- What a read of the file allows: the namespaces of the topology, or the own one where there is none.
abbrev pub AllowedBy : Bytes → Option Topology → Bytes → Type 0
AllowedBy own none n = (n ≡ own) × (n ≢ [])
AllowedBy own (some t) n = InComposite n t.composite

namespaces_iff : (n : Bytes) (o : Option Composite) → IsNamed n (namespaces_of o) ↔ InComposite n o
unfolding find
namespaces_iff n none = (λ h. cc, λ h. absurd h)
namespaces_iff n (some c) =
    let (f, g) = add_domains_iff n (c.baseline ∷ c.satellites) [] in
    (λ h. elim (f h) [ inl x ↦ x | inr s ↦ cc ], λ h. g (inl h))

own_alone_iff : (n own : Bytes) → IsNamed n (own_alone own) ↔ ((n ≡ own) × (n ≢ []))
unfolding find put
own_alone_iff n [] = (λ h. cc, λ h. absurd (h.1 h.0))
own_alone_iff n (c ∷ cs) =
    let (f, g) = put_iff n (c ∷ cs) [] in
    (λ h. elim (f h) [ inl e ↦ (e, λ z. cc) | inr s ↦ cc ], λ h. g (inl h.0))

load_from_iff :
    (r : Option Topology) (a : Allowlist) (n : Bytes)
    → IsNamed n (load_from r a).0 ↔ AllowedBy a.namespace r n
unfolding namespaces
load_from_iff none a n = own_alone_iff n a.namespace
load_from_iff (some t) a n = namespaces_iff n t.composite

-- After a reload, a namespace is allowed exactly when it is not empty and is the origin or the peer of the
-- baseline or of a satellite of the topology that was read; or, where the file cannot be read or parsed, when it is
-- the service's own namespace and not empty.
pub reload_iff :
    (files : Bytes → Option Bytes) (parse : Bytes → Option Topology) (a : Allowlist) (n : Bytes)
    → (is_allowed (reload files parse a) n ≡ true)
      ↔ AllowedBy a.namespace (read_topology files parse a.topology_file) n
unfolding is_allowed reload load
reload_iff files parse a n = load_from_iff (read_topology files parse a.topology_file) a n

module _ {J F : Type 0} (lib : Outside J F) where
  -- The token may pass: its provider is not restricted, or it names an allowed namespace.
  abbrev pub MayPass : Allowlist → List Bytes → Token J → Type 0
  MayPass a providers tok =
      (¬ In tok.provider_id providers)
      ⊎ ((n : Bytes) × (namespace_of lib tok ≡ some n) × (is_allowed a n ≡ true))

  refuse_unless_iff :
      (a : Allowlist) (o : Option Bytes)
      → (refuse_unless lib a o ≡ none) ↔ ((n : Bytes) × (o ≡ some n) × (is_allowed a n ≡ true))
  refuse_unless_iff a none = (λ h. cc, λ (n, e, h). cc)
  refuse_unless_iff a (some n) = (
    λ h. elim (Bool-cases (is_allowed a n)) [
      | inl e ↦ (n, refl, e)
      | inr d ↦ absurd (ground (arith, d, h))
    ],
    λ (k, e, h). rw (some_inj e, h),
  )

  admit_iff :
      (a : Allowlist) (providers : List Bytes) (tok : Token J)
      → (admit lib a providers tok ≡ none) ↔ MayPass a providers tok
  unfolding admit
  admit_iff a providers tok =
      let (f, g) = refuse_unless_iff a (namespace_of lib tok) in
      let (k, l) = contains_iff providers tok.provider_id in
      (
        λ h. elim (Bool-cases (contains providers tok.provider_id)) [
          | inl e ↦ inr (f (rw e at h))
          | inr d ↦ inl (λ i. ground (arith, d, l i))
        ],
        λ h. elim h [
          | inl out ↦ elim (Bool-cases (contains providers tok.provider_id)) [
            | inl e ↦ absurd (out (k e))
            | inr d ↦ rw d
          ]
          | inr named ↦ elim (Bool-cases (contains providers tok.provider_id)) [
            | inl e ↦ rw (e, g named)
            | inr d ↦ rw d
          ]
        ],
      )

  module _ (jwk : Jwk J) (bit_len : ℕ → ℕ) (provider : Bytes → Provider)
      (lookup : Bytes → Option (Key J)) (leeway : ℤ) {C : Type 0} (cache : Cache C (Token J)) where
    admitted-ok :
        (f : Token J → Option Code) (tok' tok : Token J)
        → admitted lib jwk bit_len provider lookup leeway (some f) tok' ≡ ok tok
        → f tok ≡ none
    admitted-ok f tok' tok h = go (f tok') refl h
      where
        go :
            (o : Option Code)
            → f tok' ≡ o
            → elim o as (λ x. Result Code (Token J)) [ none ↦ ok tok' | some code ↦ err code ]
              ≡ ok tok
            → f tok ≡ none
        go none e p = subst (λ t. f t ≡ none) (ok_inj p) e
        go (some code) e p = cc

    -- A token that a verifier with the check of an allowlist returns, from its cache or not, is of a provider
    -- that the check does not restrict, or its claims name a namespace that the topology file allowed
    -- at its last reload, or the service's own where the file could not be read or parsed.
    pub verify-AllowedBy :
        (files : Bytes → Option Bytes) (parse : Bytes → Option Topology) (a : Allowlist)
        (providers : List Bytes) (raw : Bytes) (now : ℤ) (c : C) (tok : Token J)
        → In tok.provider_id providers
        → (verify lib jwk bit_len provider lookup leeway cache
            (some (admit lib (reload files parse a) providers))
            raw
            now
            c).0
          ≡ ok tok
        → (n : Bytes) × (namespace_of lib tok ≡ some n)
          × AllowedBy a.namespace (read_topology files parse a.topology_file) n
    unfolding verify
    verify-AllowedBy files parse a providers raw now c tok restricted h =
        let b = reload files parse a in
        let (tok', _, passed) =
          >>=-eq-ok
            (found_or_checked lib jwk bit_len provider lookup leeway cache raw now
              (cached lib jwk bit_len provider lookup leeway cache (lib.digest raw) now c)).0
            (admitted lib jwk bit_len provider lookup leeway (some (admit lib b providers))) h in
        elim ((admit_iff b providers tok).0 (admitted-ok (admit lib b providers) tok' tok passed)) [
          | inl out ↦ absurd (out restricted)
          | inr (n, named, allowed) ↦ (n, named, (reload_iff files parse a n).0 allowed)
        ]
