-- ===== src/PolicyStore/Store.antt =====
-- The store itself: uploads, reads and hashes. The lock makes each operation one step. Packages json,
-- sha256 and hex are the record `Codecs`; a policy and a PIP are values of any two types, since the
-- store never looks into them. A nil slice is `none`; `int` is a word of 64 bits.
use qubership_authz_agent.Base.{
  ℕ, ◌+◌, ◌%◌, Bytes, List, [], ◌∷◌, ◌++◌, Option, none, some, codes, is_empty, take, if◌then◌else◌,
  equal, equal_iff, Bool-cases, inl, inr, ◌≡◌, refl, arith,
}
use qubership_authz_agent.PolicyStore.Files.{Os, Failure, write_file_atomic}
use qubership_authz_agent.PolicyStore.Maps.{
  find, put, remove_key, keys, sort, find-put, find-put_other,
}

pub record PersistedState : Type 0 where
  pub schema_version : ℕ
  pub revision : ℕ
  pub policies_hash : Bytes
  pub pips_hash : Bytes
  pub updated_at : Bytes

pub record Codecs (A P : Type 0) : Type 0 where
  pub encode_policies : List A → Option Bytes
  pub encode_pips : List P → Option Bytes
  pub decode_policies : Bytes → Option (Option (List A))
  pub decode_pips : Bytes → Option (Option (List P))
  pub encode_state : PersistedState → Option Bytes
  pub decode_state : Bytes → Option PersistedState
  pub hex_sha256 : Bytes → Bytes

pub record Store (A P : Type 0) : Type 0 where
  pub data_dir : Bytes
  pub policies : List (Bytes × List A)
  pub pips : List (Bytes × List P)
  pub policies_hash : Bytes
  pub pips_hash : Bytes
  pub revision : ℕ

pub data StoreError : Type 0 where
  persist : Bytes → Bytes → StoreError
  marshal : Bytes → StoreError

-- `s.revision++` and `s.revision--`
unfoldable pub increment : ℕ → ℕ
increment r = (r + 1) % 18446744073709551616

unfoldable pub decrement : ℕ → ℕ
decrement r = (r + 18446744073709551615) % 18446744073709551616

abbrev pub state_file_name : Bytes
state_file_name = codes "state.json"

abbrev pub policies_prefix : Bytes
policies_prefix = codes "policies-"

abbrev pub pips_prefix : Bytes
pips_prefix = codes "pips-"

abbrev pub file_name : Bytes → Bytes → Bytes
file_name prefix domain = prefix ++ (domain ++ codes ".json")

-- `normalizePolicies` and `normalizePIPs`
unfoldable pub normalize {ℓ} : {A : Type ℓ} → Option (List A) → List A
normalize none = []
normalize (some xs) = xs

-- What an index of a map yields: the zero value, a nil slice, for a missing key.
unfoldable pub index {ℓ} : {A : Type ℓ} → Bytes → List (Bytes × List A) → List A
unfolding find normalize
index k m = normalize (find k m)

pub index-put {ℓ} :
    {A : Type ℓ} (j k : Bytes) (xs : List A) (m : List (Bytes × List A))
    → index j (put k xs m) ≡ (if equal j k then xs else index j m)
unfolding index normalize
index-put j k xs m = elim (Bool-cases (equal j k)) [
  | inl e ↦ rw (e, (equal_iff j k).0 e, find-put k xs m) refl
  | inr n ↦ rw (n, find-put_other j k xs m (λ q. ground (arith, (equal_iff j k).1 q))) refl
]

unfoldable pub gather {ℓ} : {A : Type ℓ} → List Bytes → List (Bytes × List A) → List A
unfolding index
gather [] m = []
gather (d ∷ ds) m = index d m ++ gather ds m

-- `mergedPoliciesLocked` and `mergedPIPsLocked`
unfoldable pub merged {ℓ} : {A : Type ℓ} → List (Bytes × List A) → List A
unfolding gather sort keys
merged m = gather (sort (keys m)) m

-- The roll-back of one entry: what stood there before, or nothing.
unfoldable pub restore {ℓ} :
    {A : Type ℓ} → Bytes → Option (List A) → List (Bytes × List A) → List (Bytes × List A)
unfolding put remove_key
restore k (some previous) m = put k previous m
restore k none m = remove_key k m

module _ {A P : Type 0} (json : Codecs A P) where
  -- `hashItems`, of the marshalled collection
  unfoldable pub hash_items : Option Bytes → Bytes
  hash_items none = []
  hash_items (some b) = take 16 (json.hex_sha256 b)

  -- `rehashLocked`
  unfoldable pub rehash : Store A P → Store A P
  unfolding hash_items merged
  rehash s = record s {
    policies_hash = hash_items (json.encode_policies (merged s.policies));
    pips_hash = hash_items (json.encode_pips (merged s.pips));
  }

  unfoldable pub domain_policies : Bytes → Store A P → List A
  unfolding index
  domain_policies domain s = index domain s.policies

  unfoldable pub domain_pips : Bytes → Store A P → List P
  unfolding index
  domain_pips domain s = index domain s.pips

  -- `Policies` and `PIPs`: what the export API serves
  unfoldable pub exported_policies : Store A P → List A × Bytes
  unfolding merged
  exported_policies s = (merged s.policies, s.policies_hash)

  unfoldable pub exported_pips : Store A P → List P × Bytes
  unfolding merged
  exported_pips s = (merged s.pips, s.pips_hash)

  module _ {D : Type 0} (os : Os D) where
    -- A state of memory and disk, and the error returned.
    abbrev pub Outcome : Type 0
    Outcome = (Store A P × D) × Option StoreError

    abbrev pub state_of : Store A P → Bytes → PersistedState
    state_of s now = record {
      schema_version = 1;
      revision = s.revision;
      policies_hash = s.policies_hash;
      pips_hash = s.pips_hash;
      updated_at = now;
    }

    -- The end of `commitLocked`: a failed write takes the revision back.
    abbrev pub written_as : Bytes → Store A P → D × Failure → (D → Outcome) → Outcome
    written_as name s (d, some e) next =
        ((record s { revision = decrement s.revision }, d), some (persist name e))
    written_as name s (d, none) next = next d

    abbrev pub write_state : Store A P → Option Bytes → D → Outcome
    write_state s none d =
        ((record s { revision = decrement s.revision }, d), some (marshal state_file_name))
    write_state s (some state) d =
        written_as state_file_name s (write_file_atomic os state_file_name state d)
          λ d₁. ((s, d₁), none)

    unfoldable pub commit : Bytes → Bytes → Bytes → Store A P → D → Outcome
    unfolding rehash increment decrement write_file_atomic
    commit name raw now s₀ d =
        let s₁ = rehash s₀ in
        let s = record s₁ { revision = increment s₁.revision } in
        let done =
          written_as name s (write_file_atomic os name raw d)
            λ d₁. write_state s (json.encode_state (state_of s now)) d₁ in
        if is_empty s.data_dir then ((s, d), none) else done

    -- The roll-back after a commit that fails, by what the upload changes back.
    unfoldable pub settle : (Store A P → Store A P) → Outcome → Outcome
    unfolding rehash
    settle undo (s, none) = (s, none)
    settle undo ((s, d), some e) = ((rehash (undo s), d), some e)

    -- `SetDomainPolicies`
    unfoldable pub set_domain_policies :
        Bytes → Option (List A) → Bytes → Bytes → Store A P → D → Outcome
    unfolding commit settle restore find put normalize
    set_domain_policies domain items raw now s d =
        let previous = find domain s.policies in
        settle (λ s₁. record s₁ { policies = restore domain previous s₁.policies })
          (commit (file_name policies_prefix domain) raw now
            (record s { policies = put domain (normalize items) s.policies }) d)

    -- `SetDomainPIPs`
    unfoldable pub set_domain_pips :
        Bytes → Option (List P) → Bytes → Bytes → Store A P → D → Outcome
    unfolding commit settle restore find put normalize
    set_domain_pips domain items raw now s d =
        let previous = find domain s.pips in
        settle (λ s₁. record s₁ { pips = restore domain previous s₁.pips })
          (commit (file_name pips_prefix domain) raw now
            (record s { pips = put domain (normalize items) s.pips }) d)
