-- ===== src/PolicyStore/Upload.antt =====
-- Uploads: what a failed and a successful one leave in memory and on disk.
use qubership_authz_agent.Base.{
  ℕ, ◌<◌, Bytes, List, [], ◌∷◌, Option, none, some, codes, is_empty, ◌≡◌, ◌≢◌, ◌↔◌, refl, sym, ap,
  subst, ◌∙◌, arith, In, In-append, Bool-cases, some-or-none, inl, inr,
}
use qubership_authz_agent.PolicyStore.Files.{Os, Failure, write_file_atomic}
use qubership_authz_agent.PolicyStore.Maps.{
  find, put, keys, sort, find-put, find-put_other, put-put_back, remove_key-put, keys-find, In-sort,
}
use qubership_authz_agent.PolicyStore.Store.{
  Codecs, Store, increment, decrement, file_name, policies_prefix, pips_prefix, normalize, index,
  gather, merged, restore, rehash, Outcome, state_of, written_as, write_state, commit, settle,
  set_domain_policies, set_domain_pips,
}

decrement-increment : (r : ℕ) → r < 18446744073709551616 → decrement (increment r) ≡ r
unfolding increment decrement
decrement-increment r h = omega arith

restore-put {ℓ} :
    {A : Type ℓ} (k : Bytes) (xs : List A) (m : List (Bytes × List A))
    → restore k (find k m) (put k xs m) ≡ m
unfolding restore
restore-put k xs m = elim (some-or-none (find k m)) [
  | inl e ↦ rw (e) (remove_key-put k xs m e)
  | inr (previous, e) ↦ rw (e) (put-put_back k xs previous m e)
]

-- A value stands in the merged view exactly when it stands in the collection of some domain.
pub In-merged :
    {A : Type 0} (a : A) (m : List (Bytes × List A))
    → In a (merged m) ↔ ((d : Bytes) × In a (index d m))
unfolding merged gather index normalize
In-merged {A = A} a m = (
  λ h. let (d, _, i) = (In-gather a (sort (keys m)) m).0 h in (d, i),
  λ (d, i). (In-gather a (sort (keys m)) m).1 (d, (In-sort d (keys m)).1 (known d i), i),
)
  where
    In-gather :
        (x : A) (ds : List Bytes) (n : List (Bytes × List A))
        → In x (gather ds n) ↔ ((d : Bytes) × In d ds × In x (index d n))
    In-gather x [] n = (λ h. absurd h, λ (d, i, _). absurd i)
    In-gather x (e ∷ ds) n =
        let (f, g) = In-append x (index e n) (gather ds n) in
        let (p, q) = In-gather x ds n in
        (
          λ h. elim (f h) [
            | inl i ↦ (e, inl refl, i)
            | inr r ↦ let (d, j, i) = p r in (d, inr j, i)
          ],
          λ (d, j, i). g (elim j [
            | inl s ↦ inl (subst (λ y. In x (index y n)) s i)
            | inr r ↦ inr (q (d, r, i))
          ]),
        )

    known : (d : Bytes) → In a (index d m) → In d (keys m)
    known d i = elim (some-or-none (find d m)) [
      | inl e ↦ absurd (subst (λ o. In a (normalize o)) e i)
      | inr r ↦ (keys-find d m).1 r
    ]

module _ {A P : Type 0} (json : Codecs A P) where
  -- The hashes are those of what the store exports, and the revision is a machine word.
  pub record IsCoherent (s : Store A P) : Type 0 where
    pub hashed : rehash json s ≡ s
    pub word : s.revision < 18446744073709551616

  module _ {D : Type 0} (os : Os D) where
    abbrev bumped : Store A P → Store A P
    bumped s = let s₁ = rehash json s in record s₁ { revision = increment s₁.revision }

    -- What a commit leaves in memory: the hashes of what it is given, and on success a new revision.
    abbrev IsCommitted : Store A P → Outcome json os → Type 0
    IsCommitted s ((t, d), none) = t ≡ bumped s
    IsCommitted s ((t, d), some e) = t ≡ rehash json s

    taken_back :
        (s : Store A P)
        → s.revision < 18446744073709551616
        → (let t = bumped s in record t { revision = decrement t.revision }) ≡ rehash json s
    unfolding rehash
    taken_back s w = λ i. record (rehash json s) { revision = decrement-increment s.revision w i }

    state-IsCommitted :
        (s : Store A P)
        → s.revision < 18446744073709551616
        → (o : Option Bytes) (d : D) → IsCommitted s (write_state json os (bumped s) o d)
    state-IsCommitted s w none d = taken_back s w
    state-IsCommitted s w (some state) d = last (write_file_atomic os (codes "state.json") state d)
      where
        last :
            (r : D × Failure)
            → IsCommitted s
                (written_as json os (codes "state.json") (bumped s) r λ d₁. ((bumped s, d₁), none))
        last (d₁, none) = refl
        last (d₁, some e) = taken_back s w

    commit-IsCommitted :
        (name raw now : Bytes) (s : Store A P) (d : D)
        → s.revision < 18446744073709551616
        → IsCommitted s (commit json os name raw now s d)
    unfolding commit rehash
    commit-IsCommitted name raw now s d w = elim (Bool-cases (is_empty s.data_dir)) [
      | inl e ↦ rw (e) refl
      | inr n ↦ rw (n) (first (write_file_atomic os name raw d))
    ]
      where
        first :
            (r : D × Failure)
            → IsCommitted s (
                written_as json os name (bumped s) r λ d₁.
                  write_state json os
                    (bumped s)
                    (json.encode_state (state_of json os (bumped s) now))
                    d₁)
        first (d₁, none) =
            state-IsCommitted s w (json.encode_state (state_of json os (bumped s) now)) d₁
        first (d₁, some e) = taken_back s w

    -- What a settled commit leaves: on failure, the store before the upload.
    abbrev IsSettled : Store A P → Store A P → Outcome json os → Type 0
    IsSettled s t ((r, d), none) = r ≡ bumped t
    IsSettled s t ((r, d), some e) = r ≡ s

    settle-IsSettled :
        (s t : Store A P) (undo : Store A P → Store A P) (o : Outcome json os)
        → rehash json (undo (rehash json t)) ≡ s
        → IsCommitted t o
        → IsSettled s t (settle json os undo o)
    unfolding settle
    settle-IsSettled s t undo ((r, d), none) back c = c
    settle-IsSettled s t undo ((r, d), some e) back c = ap (λ x. rehash json (undo x)) c ∙ back

    -- The store after an upload of `items`, as the entry of `domain` in `m`, that became `m'`.
    abbrev Replaces {ℓ} :
        {B : Type ℓ}
        → Bytes
        → Option (List B)
        → List (Bytes × List B)
        → List (Bytes × List B)
        → Type ℓ
    Replaces domain items m m' =
        (index domain m' ≡ normalize items)
        × ((other : Bytes) → other ≢ domain → index other m' ≡ index other m)

    put-Replaces {ℓ} :
        {B : Type ℓ} (domain : Bytes) (items : Option (List B)) (m : List (Bytes × List B))
        → Replaces domain items m (put domain (normalize items) m)
    unfolding index normalize
    put-Replaces domain items m = (
      ap normalize (find-put domain (normalize items) m),
      λ other h. ap normalize (find-put_other other domain (normalize items) m h),
    )

    bumped-IsCoherent : (s : Store A P) → IsCoherent (bumped s)
    unfolding rehash increment
    bumped-IsCoherent s = record { hashed = refl; word = omega arith }

    -- What `SetDomainPolicies` owes its caller.
    abbrev pub IsPoliciesUpload : Bytes → Option (List A) → Store A P → Outcome json os → Type 0
    IsPoliciesUpload domain items s ((t, d), some e) = t ≡ s
    IsPoliciesUpload domain items s ((t, d), none) =
        IsCoherent t
        × Replaces domain items s.policies t.policies
        × (t.pips ≡ s.pips)
        × (t.revision ≡ increment s.revision)

    -- On a coherent store, `SetDomainPolicies` with an error leaves the memory just as it was, and
    -- without one replaces the collection of the domain, and no other, in a coherent store with the
    -- next revision.
    pub set_domain_policies-IsPoliciesUpload :
        (domain : Bytes) (items : Option (List A)) (raw now : Bytes) (s : Store A P) (d : D)
        → IsCoherent s
        → IsPoliciesUpload domain items s (set_domain_policies json os domain items raw now s d)
    unfolding set_domain_policies rehash settle
    set_domain_policies-IsPoliciesUpload domain items raw now s d c =
        promised
          (settle json os undo
            (commit json os (file_name policies_prefix domain) raw now changed d))
          (settle-IsSettled s changed undo
            (commit json os (file_name policies_prefix domain) raw now changed d)
            (ap (λ m. rehash json (record s { policies = m }))
                (restore-put domain (normalize items) s.policies)
              ∙ c.hashed)
            (commit-IsCommitted (file_name policies_prefix domain) raw now changed d c.word))
      where
        changed : Store A P
        changed = record s { policies = put domain (normalize items) s.policies }

        undo : Store A P → Store A P
        undo t = record t { policies = restore domain (find domain s.policies) t.policies }

        promised : (o : Outcome json os) → IsSettled s changed o → IsPoliciesUpload domain items s o
        promised ((t, d'), some e) h = h
        promised ((t, d'), none) h =
            subst (λ x. IsPoliciesUpload domain items s ((x, d'), none)) (sym h)
              (bumped-IsCoherent changed, put-Replaces domain items s.policies, refl, refl)

    -- What `SetDomainPIPs` owes its caller.
    abbrev pub IsPipsUpload : Bytes → Option (List P) → Store A P → Outcome json os → Type 0
    IsPipsUpload domain items s ((t, d), some e) = t ≡ s
    IsPipsUpload domain items s ((t, d), none) =
        IsCoherent t
        × Replaces domain items s.pips t.pips
        × (t.policies ≡ s.policies)
        × (t.revision ≡ increment s.revision)

    -- On a coherent store, `SetDomainPIPs` with an error leaves the memory just as it was, and
    -- without one replaces the collection of the domain, and no other, in a coherent store with the
    -- next revision.
    pub set_domain_pips-IsPipsUpload :
        (domain : Bytes) (items : Option (List P)) (raw now : Bytes) (s : Store A P) (d : D)
        → IsCoherent s
        → IsPipsUpload domain items s (set_domain_pips json os domain items raw now s d)
    unfolding set_domain_pips rehash settle
    set_domain_pips-IsPipsUpload domain items raw now s d c =
        promised
          (settle json os undo (commit json os (file_name pips_prefix domain) raw now changed d))
          (settle-IsSettled s changed undo
            (commit json os (file_name pips_prefix domain) raw now changed d)
            (ap (λ m. rehash json (record s { pips = m }))
                (restore-put domain (normalize items) s.pips)
              ∙ c.hashed)
            (commit-IsCommitted (file_name pips_prefix domain) raw now changed d c.word))
      where
        changed : Store A P
        changed = record s { pips = put domain (normalize items) s.pips }

        undo : Store A P → Store A P
        undo t = record t { pips = restore domain (find domain s.pips) t.pips }

        promised : (o : Outcome json os) → IsSettled s changed o → IsPipsUpload domain items s o
        promised ((t, d'), some e) h = h
        promised ((t, d'), none) h =
            subst (λ x. IsPipsUpload domain items s ((x, d'), none)) (sym h)
              (bumped-IsCoherent changed, put-Replaces domain items s.pips, refl, refl)
