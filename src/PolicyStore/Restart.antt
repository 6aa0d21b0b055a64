-- ===== src/PolicyStore/Restart.antt =====
-- A restart: the domain that a file name stands for, and what the loaded store serves.
use qubership_authz_agent.Base.{
  Bytes, true, List, [], ◌∷◌, ◌++◌, Option, none, some, codes, equal, equal_iff, starts_with_iff,
  ends_with_iff, length, length-append, take, drop, In, ◌≡◌, ◌≢◌, ◌↔◌, ◌⊎◌, inl, inr, refl, sym, ap,
  subst, ◌∙◌, arith, Bool-cases,
}
use qubership_authz_agent.PolicyStore.Disk.{set_domain_policies-IsCommit}
use qubership_authz_agent.PolicyStore.Files.{Os, IsFileSystem}
use qubership_authz_agent.PolicyStore.Load.{
  Reader, is_valid_domain, trim_prefix, trim_suffix, domain_of, matches_of, legal_files,
  glob_domain_files, put_decoded, load_raw, load_files, load_from_disk,
}
use qubership_authz_agent.PolicyStore.Maps.{find, put, sort, find-put, find-put_other, In-sort}
use qubership_authz_agent.PolicyStore.Store.{
  Codecs, Store, normalize, index, rehash, domain_policies, file_name, policies_prefix,
  set_domain_policies,
}

drop-append {ℓ} : {A : Type ℓ} (xs ys : List A) → drop (length xs) (xs ++ ys) ≡ ys
drop-append [] ys = refl
drop-append (x ∷ xs) ys = drop-append xs ys

take-append {ℓ} : {A : Type ℓ} (xs ys : List A) → take (length xs) (xs ++ ys) ≡ xs
take-append [] [] = refl
take-append [] (y ∷ ys) = refl
take-append (x ∷ xs) ys = ap (◌∷◌ x) (take-append xs ys)

-- The domain is read back from the name of its file.
pub domain_of-file_name :
    (prefix domain : Bytes) → domain_of prefix (file_name prefix domain) ≡ domain
unfolding domain_of trim_prefix trim_suffix
domain_of-file_name prefix domain =
    rw
      (
        (starts_with_iff prefix (file_name prefix domain)).1 (domain ++ codes ".json", refl),
        drop-append prefix (domain ++ codes ".json"),
        (ends_with_iff (codes ".json") (domain ++ codes ".json")).1 (domain, refl),
        length-append domain (codes ".json"),
      )
      (ap (λ n. take n (domain ++ codes ".json")) (omega arith)
        ∙ take-append domain (codes ".json"))

-- A name that the pattern of a prefix matches.
abbrev pub IsFileName : Bytes → Bytes → Type 0
IsFileName prefix n = (x : Bytes) × (n ≡ file_name prefix x)

module _ {A D : Type 0} (reader : Reader D) (decode : Bytes → Option (Option (List A)))
    (d : D) where
  load_raw-other :
      (x domain : Bytes) (o : Option Bytes) (m : List (Bytes × List A))
      → domain ≢ x
      → find domain (load_raw reader decode x o m) ≡ find domain m
  load_raw-other x domain none m h = refl
  load_raw-other x domain (some raw) m h = put_decoded-other (decode raw)
    where
      put_decoded-other :
          (o : Option (Option (List A))) → find domain (put_decoded reader x o m) ≡ find domain m
      put_decoded-other none = refl
      put_decoded-other (some items) = find-put_other domain x (normalize items) m h

  module _ (prefix domain raw : Bytes) (items : Option (List A))
      (valid : is_valid_domain domain ≡ true)
      (reads : reader.read_file d (file_name prefix domain) ≡ some raw)
      (decodes : decode raw ≡ some items) where
    load_own :
        (m : List (Bytes × List A))
        → load_raw reader decode domain (reader.read_file d (file_name prefix domain)) m
          ≡ put domain (normalize items) m
    load_own m = rw (reads, decodes) refl

    abbrev Serves : List (Bytes × List A) → Type 0
    Serves m = find domain m ≡ some (normalize items)

    abbrev Ends : List Bytes → List (Bytes × List A) → Type 0
    Ends names m = Serves (load_files reader decode d (legal_files prefix names) m)

    -- One more file, that of the domain `x`.
    one_file :
        (x : Bytes) (ns : List Bytes)
        → ((m : List (Bytes × List A)) → In (file_name prefix domain) ns ⊎ Serves m → Ends ns m)
        → (m : List (Bytes × List A))
        → In (file_name prefix domain) (file_name prefix x ∷ ns) ⊎ Serves m
        → Ends (file_name prefix x ∷ ns) m
    unfolding load_files legal_files
    one_file x ns rest m h = elim (Bool-cases (equal domain x)) [
      | inl e ↦
          let same = (equal_iff domain x).0 e in
          subst (λ y. Ends (file_name prefix y ∷ ns) m) same
            (rw (domain_of-file_name prefix domain, valid)
              (rest (load_raw reader decode domain (reader.read_file d (file_name prefix domain)) m)
                (inr (rw (load_own m) (find-put domain (normalize items) m)))))
      | inr n ↦
          let other : domain ≢ x = λ q. absurd (ground (arith, (equal_iff domain x).1 q)) in
          let kept : In (file_name prefix domain) ns ⊎ Serves m = elim h [
            | inl i ↦ elim i [
              | inl q ↦ absurd (
                  other (
                    sym (domain_of-file_name prefix domain)
                    ∙ ap (domain_of prefix) q
                    ∙ domain_of-file_name prefix x))
              | inr j ↦ inl j
            ]
            | inr s ↦ inr s
          ] in
          elim (Bool-cases (is_valid_domain x)) [
            | inl v ↦
                rw (domain_of-file_name prefix x, v)
                  (rest (load_raw reader decode x (reader.read_file d (file_name prefix x)) m)
                    (elim kept [
                      | inl j ↦ inl j
                      | inr s ↦ inr (
                          load_raw-other x domain (reader.read_file d (file_name prefix x)) m other
                          ∙ s)
                    ]))
            | inr w ↦ rw (domain_of-file_name prefix x, w) (rest m kept)
          ]
    ]

    -- The loop over the files ends with the collection of the domain, wherever its file stands.
    pub load_files-find :
        (names : List Bytes) (m : List (Bytes × List A))
        → ((n : Bytes) → In n names → IsFileName prefix n)
        → In (file_name prefix domain) names ⊎ Serves m
        → Ends names m
    unfolding load_files legal_files
    load_files-find [] m named (inl i) = absurd i
    load_files-find [] m named (inr e) = e
    load_files-find (n ∷ ns) m named h =
        let (x, e) = named n (inl refl) in
        subst (λ y. Ends (y ∷ ns) m) (sym e)
          (one_file x ns (λ m' h'. load_files-find ns m' (λ k i. named k (inr i)) h') m
            (subst (λ y. In (file_name prefix domain) (y ∷ ns) ⊎ Serves m) e h))

-- A listing of the directory: the files that the pattern of the prefix matches.
abbrev pub IsListing : {D : Type 0} → Reader D → Bytes → D → List Bytes → Type 0
IsListing reader prefix d names =
    (reader.glob prefix d ≡ some names)
    × ((n : Bytes)
        → In n names
          ↔ (IsFileName prefix n × (content : Bytes) × (reader.read_file d n ≡ some content)))

module _ {A P D : Type 0} (json : Codecs A P) (reader : Reader D) where
  -- `loadFromDisk` serves, for a legal domain whose file can be read and parsed, the collection that
  -- the file holds.
  load_from_disk-domain :
      (domain raw : Bytes) (items : Option (List A)) (s : Store A P) (d : D) (names : List Bytes)
      → is_valid_domain domain ≡ true
      → reader.read_file d (file_name policies_prefix domain) ≡ some raw
      → json.decode_policies raw ≡ some items
      → IsListing reader policies_prefix d names
      → domain_policies json domain (load_from_disk reader json s d) ≡ normalize items
  unfolding load_from_disk domain_policies index rehash glob_domain_files normalize
  load_from_disk-domain domain raw items s d names valid reads decodes (globs, listed) =
      let found =
        load_files-find reader json.decode_policies d policies_prefix domain raw items valid reads
          decodes (sort names) s.policies (λ n i. ((listed n).0 ((In-sort n names).0 i)).0)
          (inl (
            (In-sort (file_name policies_prefix domain) names).1
              ((listed (file_name policies_prefix domain)).1 ((domain, refl), raw, reads)))) in
      subst
        (λ o.
          normalize (
            find domain (
              load_files reader json.decode_policies d
                (legal_files policies_prefix (sort (matches_of o))) s.policies))
          ≡ normalize items)
        (sym globs) (ap normalize found)

  -- After an upload of policies that passed, a restart serves the domain as uploaded, whatever else
  -- the directory holds: the directory is a file system as documented, neither file is named like a
  -- temp file, the domain is legal and the bytes are those of the collection.
  pub restart-serves :
      (os : Os D) (IsTemp : Bytes → Type 0)
      → IsFileSystem os reader.read_file IsTemp
      → ¬ IsTemp (codes "state.json")
      → (domain : Bytes) → is_valid_domain domain ≡ true
      → ¬ IsTemp (file_name policies_prefix domain)
      → (items : Option (List A)) (raw now : Bytes) (s : Store A P) (d : D) → s.data_dir ≢ []
      → json.decode_policies raw ≡ some items
      → (fresh : Store A P) (d' : D) (names : List Bytes)
      → (set_domain_policies json os domain items raw now s d).1 ≡ none
      → (set_domain_policies json os domain items raw now s d).0.1 ≡ d'
      → IsListing reader policies_prefix d' names
      → domain_policies json domain (load_from_disk reader json fresh d') ≡ normalize items
  restart-serves os IsTemp fs state_proper domain valid proper items raw now s d h decodes fresh d'
        names passes after listing =
      let upload =
        set_domain_policies-IsCommit json os reader.read_file IsTemp fs state_proper domain raw now
          s d h items proper in
      load_from_disk-domain domain raw items fresh d' names valid
        (subst (λ x. reader.read_file x (file_name policies_prefix domain) ≡ some raw) after
          (upload.1 (inr passes)))
        decodes listing
