-- ===== src/PolicyStore/Disk.antt =====
-- Uploads on disk: which files an upload changes, and when the bytes it brings are there.
use qubership_authz_agent.Base.{
  ℕ, Bytes, List, [], ◌∷◌, ◌++◌, Option, none, some, codes, is_empty-false_iff, ◌≡◌, ◌≢◌, refl, ap,
  ◌∙◌, arith, ◌⊎◌, inl, inr,
}
use qubership_authz_agent.PolicyStore.Files.{
  Os, Failure, write_file_atomic, IsFileSystem, IsAtomic, write_file_atomic-IsAtomic,
}
use qubership_authz_agent.PolicyStore.Maps.{find, put}
use qubership_authz_agent.PolicyStore.Store.{
  Codecs, Store, increment, file_name, policies_prefix, pips_prefix, normalize, restore, rehash,
  Outcome, state_of, written_as, write_state, commit, settle, set_domain_policies, set_domain_pips,
}

module _ {A P D : Type 0} (json : Codecs A P) (os : Os D) where
  settle-disk :
      (undo : Store A P → Store A P) (o : Outcome json os)
      → ((settle json os undo o).0.1 ≡ o.0.1) × ((settle json os undo o).1 ≡ o.1)
  unfolding settle
  settle-disk undo ((s, d), none) = (refl, refl)
  settle-disk undo ((s, d), some e) = (refl, refl)

  -- Which files a commit changes, and that the bytes are at their place once the first write, with
  -- the failure `first`, has passed.
  abbrev pub IsCommit :
      (D → Bytes → Option Bytes)
      → (Bytes → Type 0)
      → Bytes
      → Bytes
      → D
      → Failure
      → Outcome json os
      → Type 0
  IsCommit read IsTemp name raw d first ((s, d'), e) =
      ((n : Bytes) → ¬ IsTemp n → n ≢ name → n ≢ codes "state.json" → read d' n ≡ read d n)
      × ((first ≡ none) ⊎ (e ≡ none) → read d' name ≡ some raw)

  module _ (read : D → Bytes → Option Bytes) (IsTemp : Bytes → Type 0)
      (fs : IsFileSystem os read IsTemp) (state_proper : ¬ IsTemp (codes "state.json"))
      (name raw : Bytes) (proper : ¬ IsTemp name) (other_name : name ≢ codes "state.json") where
    state_disk :
        (d d₁ : D) (s : Store A P)
        → IsAtomic read IsTemp name raw d (d₁, none)
        → (o : Option Bytes) → IsCommit read IsTemp name raw d none (write_state json os s o d₁)
    state_disk d d₁ s (full, same) none = (λ n h p q. same n h p, λ _. full)
    state_disk d d₁ s (full, same) (some state) =
        last (write_file_atomic os (codes "state.json") state d₁)
          (write_file_atomic-IsAtomic os read IsTemp fs (codes "state.json") state state_proper d₁)
      where
        last :
            (r : D × Failure)
            → IsAtomic read IsTemp (codes "state.json") state d₁ r
            → IsCommit read IsTemp name raw d none
                (written_as json os (codes "state.json") s r λ d₂. ((s, d₂), none))
        last (d₂, none) (a, b) =
            (λ n h p q. b n h q ∙ same n h p, λ _. b name proper other_name ∙ full)
        last (d₂, some e) b = (λ n h p q. b n h ∙ same n h p, λ _. b name proper ∙ full)

    commit-IsCommit :
        (now : Bytes) (s : Store A P) (d : D)
        → s.data_dir ≢ []
        → IsCommit read IsTemp name raw d
            (write_file_atomic os name raw d).1
            (commit json os name raw now s d)
    unfolding commit rehash
    commit-IsCommit now s d h = rw ((is_empty-false_iff s.data_dir).1 h) (
        first (write_file_atomic os name raw d)
          (write_file_atomic-IsAtomic os read IsTemp fs name raw proper d))
      where
        new : Store A P
        new = let s₁ = rehash json s in record s₁ { revision = increment s₁.revision }

        first :
            (r : D × Failure)
            → IsAtomic read IsTemp name raw d r
            → IsCommit read IsTemp name raw d r.1 (
                written_as json os name new r
                  λ d₁. write_state json os new (json.encode_state (state_of json os new now)) d₁)
        first (d₁, none) a = state_disk d d₁ new a (json.encode_state (state_of json os new now))
        first (d₁, some e) a = (λ n h p q. a n h, λ c. elim c [ inl x ↦ cc | inr x ↦ cc ])

    settled :
        (undo : Store A P → Store A P) (d : D) (first : Failure) (o : Outcome json os)
        → IsCommit read IsTemp name raw d first o
        → IsCommit read IsTemp name raw d first (settle json os undo o)
    unfolding settle
    settled undo d first ((s, d'), none) c = c
    settled undo d first ((s, d'), some e) c = c

  apart_from_state :
      (prefix domain : Bytes) (c : ℕ) → c ≢ b's' → (c ∷ prefix) ++ domain ≢ codes "state.json"
  apart_from_state prefix domain c h e = h (ap (λ x. elim x [ [] ↦ c | y ∷ ys ↦ y ]) e)

  module _ (read : D → Bytes → Option Bytes) (IsTemp : Bytes → Type 0)
      (fs : IsFileSystem os read IsTemp) (state_proper : ¬ IsTemp (codes "state.json"))
      (domain raw now : Bytes) (s : Store A P) (d : D) (on_disk : s.data_dir ≢ []) where
    -- On a file system as documented and with a data directory, `SetDomainPolicies` changes no file but
    -- that of the domain and state.json, temp files aside, and the bytes of the upload stand in the
    -- file of the domain whenever the upload passes, but also whenever it fails after that file was
    -- written.
    pub set_domain_policies-IsCommit :
        (items : Option (List A)) (proper : ¬ IsTemp (file_name policies_prefix domain))
        → IsCommit read IsTemp
            (file_name policies_prefix domain)
            raw
            d
            (write_file_atomic os (file_name policies_prefix domain) raw d).1
            (set_domain_policies json os domain items raw now s d)
    unfolding set_domain_policies commit
    set_domain_policies-IsCommit items proper =
        settled read IsTemp fs state_proper (file_name policies_prefix domain) raw proper
          (apart_from_state (codes "olicies-") (domain ++ codes ".json") b'p' (λ e. omega arith))
          undo d (write_file_atomic os (file_name policies_prefix domain) raw d).1
          (commit json os (file_name policies_prefix domain) raw now changed d)
          (commit-IsCommit read IsTemp fs state_proper (file_name policies_prefix domain) raw proper
            (apart_from_state (codes "olicies-") (domain ++ codes ".json") b'p' (λ e. omega arith))
            now changed d on_disk)
      where
        changed : Store A P
        changed = record s { policies = put domain (normalize items) s.policies }

        undo : Store A P → Store A P
        undo t = record t { policies = restore domain (find domain s.policies) t.policies }

    -- On a file system as documented and with a data directory, `SetDomainPIPs` changes no file but
    -- that of the domain and state.json, temp files aside, and the bytes of the upload stand in the
    -- file of the domain whenever the upload passes, but also whenever it fails after that file was
    -- written.
    pub set_domain_pips-IsCommit :
        (items : Option (List P)) (proper : ¬ IsTemp (file_name pips_prefix domain))
        → IsCommit read IsTemp
            (file_name pips_prefix domain)
            raw
            d
            (write_file_atomic os (file_name pips_prefix domain) raw d).1
            (set_domain_pips json os domain items raw now s d)
    unfolding set_domain_pips commit
    set_domain_pips-IsCommit items proper =
        settled read IsTemp fs state_proper (file_name pips_prefix domain) raw proper
          (apart_from_state (codes "ips-") (domain ++ codes ".json") b'p' (λ e. omega arith)) undo d
          (write_file_atomic os (file_name pips_prefix domain) raw d).1
          (commit json os (file_name pips_prefix domain) raw now changed d)
          (commit-IsCommit read IsTemp fs state_proper (file_name pips_prefix domain) raw proper
            (apart_from_state (codes "ips-") (domain ++ codes ".json") b'p' (λ e. omega arith)) now
            changed d on_disk)
      where
        changed : Store A P
        changed = record s { pips = put domain (normalize items) s.pips }

        undo : Store A P → Store A P
        undo t = record t { pips = restore domain (find domain s.pips) t.pips }
