-- ===== src/PolicyStore/Load.antt =====
-- Start-up: `newStore`, and the files from which `loadFromDisk` restores each domain. What the code
-- reads of the directory is the record `Reader`; log lines are left out.
use qubership_authz_agent.Base.{
  ℕ, Bytes, Bool, true, List, [], ◌∷◌, Option, none, some, codes, equal, is_empty, starts_with,
  ends_with, length, take, drop, leb, ◌-◌, ◌==◌, not, ◌&&◌, ◌||◌, Result, ok, err, if◌then◌else◌,
}
use qubership_authz_agent.PolicyStore.Files.{Os, Failure}
use qubership_authz_agent.PolicyStore.Maps.{put, sort}
use qubership_authz_agent.PolicyStore.Store.{
  Codecs, Store, normalize, rehash, state_file_name, policies_prefix, pips_prefix,
}

unfoldable pub is_domain_char : ℕ → Bool
is_domain_char c =
    (leb b'A' c && leb c b'Z')
    || (leb b'a' c && leb c b'z')
    || (leb b'0' c && leb c b'9')
    || (c == b'.')
    || (c == b'_')
    || (c == b'-')

unfoldable pub all_domain_chars : Bytes → Bool
unfolding is_domain_char
all_domain_chars [] = true
all_domain_chars (c ∷ s) = is_domain_char c && all_domain_chars s

-- `validDomain`: ^[A-Za-z0-9._-]{1,64}$, but neither `.` nor `..`
unfoldable pub is_valid_domain : Bytes → Bool
unfolding all_domain_chars equal
is_valid_domain s =
    leb 1 (length s)
    && leb (length s) 64
    && all_domain_chars s
    && not (equal s (codes "."))
    && not (equal s (codes ".."))

-- `strings.TrimPrefix` and `strings.TrimSuffix`
unfoldable pub trim_prefix : Bytes → Bytes → Bytes
unfolding starts_with
trim_prefix p s = if starts_with p s then drop (length p) s else s

unfoldable pub trim_suffix : Bytes → Bytes → Bytes
unfolding ends_with
trim_suffix p s = if ends_with p s then take (length s - length p) s else s

unfoldable pub domain_of : Bytes → Bytes → Bytes
unfolding trim_prefix trim_suffix
domain_of prefix name = trim_suffix (codes ".json") (trim_prefix prefix name)

-- `filepath.Glob`, of the names that start with a prefix and end in `.json`, or none for its error,
-- and `os.ReadFile`.
pub record Reader (D : Type 0) : Type 0 where
  pub glob : Bytes → D → Option (List Bytes)
  pub read_file : D → Bytes → Option Bytes

abbrev pub matches_of : Option (List Bytes) → List Bytes
matches_of none = []
matches_of (some names) = names

-- The loop of `globDomainFiles`: the domain and the name of each file of a legal domain.
unfoldable pub legal_files : Bytes → List Bytes → List (Bytes × Bytes)
unfolding domain_of is_valid_domain
legal_files prefix [] = []
legal_files prefix (n ∷ ns) =
    let rest = legal_files prefix ns in
    let domain = domain_of prefix n in if is_valid_domain domain then (domain, n) ∷ rest else rest

module _ {D : Type 0} (reader : Reader D) where
  -- `globDomainFiles`
  unfoldable pub glob_domain_files : Bytes → D → List (Bytes × Bytes)
  unfolding legal_files sort
  glob_domain_files prefix d = legal_files prefix (sort (matches_of (reader.glob prefix d)))

  abbrev pub put_decoded {ℓ} :
      {A : Type ℓ}
      → Bytes
      → Option (Option (List A))
      → List (Bytes × List A)
      → List (Bytes × List A)
  put_decoded domain none m = m
  put_decoded domain (some items) m = put domain (normalize items) m

  -- One round of the loop over the files: an unreadable or malformed file is skipped.
  abbrev pub load_raw {ℓ} :
      {A : Type ℓ}
      → (Bytes → Option (Option (List A)))
      → Bytes
      → Option Bytes
      → List (Bytes × List A)
      → List (Bytes × List A)
  load_raw decode domain none m = m
  load_raw decode domain (some raw) m = put_decoded domain (decode raw) m

  unfoldable pub load_files {ℓ} :
      {A : Type ℓ}
      → (Bytes → Option (Option (List A)))
      → D
      → List (Bytes × Bytes)
      → List (Bytes × List A)
      → List (Bytes × List A)
  unfolding put normalize
  load_files decode d [] m = m
  load_files decode d ((domain, name) ∷ fs) m =
      load_files decode d fs (load_raw decode domain (reader.read_file d name) m)

  module _ {A P : Type 0} (json : Codecs A P) where
    -- The revision of the state file, if it can be read and parsed.
    unfoldable pub loaded_revision : ℕ → Option Bytes → ℕ
    loaded_revision before none = before
    loaded_revision before (some raw) = elim (json.decode_state raw) [
      | none ↦ before
      | some st ↦ st.revision
    ]

    -- `loadFromDisk`
    unfoldable pub load_from_disk : Store A P → D → Store A P
    unfolding load_files glob_domain_files loaded_revision rehash
    load_from_disk s d = rehash json (record s {
      policies = load_files json.decode_policies d (glob_domain_files policies_prefix d) s.policies;
      pips = load_files json.decode_pips d (glob_domain_files pips_prefix d) s.pips;
      revision = loaded_revision s.revision (reader.read_file d state_file_name);
    })

    abbrev pub empty_store : Bytes → Store A P
    empty_store dir = record {
      data_dir = dir;
      policies = [];
      pips = [];
      policies_hash = [];
      pips_hash = [];
      revision = 0;
    }

    module _ (os : Os D) (temp_files : D → List Bytes) where
      -- `sweepTempFiles`, over the names that match the temp pattern
      unfoldable pub sweep : List Bytes → D → D
      sweep [] d = d
      sweep (n ∷ ns) d = sweep ns (os.remove n d).0

      -- `probeWritable`
      unfoldable pub probe_writable : D → D × Failure
      probe_writable d = probed (os.create_temp d)
        where
          probed : D × Result Bytes Bytes → D × Failure
          probed (d₁, err e) = (d₁, some e)
          probed (d₁, ok name) = os.remove name (os.close name d₁).0

      abbrev pub after_probe : Bytes → D × Failure → D × Result Bytes (Store A P)
      after_probe dir (d, some e) = (d, err e)
      after_probe dir (d, none) =
          let swept = sweep (temp_files d) d in (swept, ok (load_from_disk (empty_store dir) swept))

      abbrev pub after_mkdir : Bytes → D × Failure → D × Result Bytes (Store A P)
      after_mkdir dir (d, some e) = (d, err e)
      after_mkdir dir (d, none) = after_probe dir (probe_writable d)

      -- `newStore`
      unfoldable pub new_store : Bytes → D → D × Result Bytes (Store A P)
      unfolding rehash probe_writable sweep load_from_disk
      new_store dir d =
          if is_empty dir
          then (d, ok (rehash json (empty_store dir)))
          else after_mkdir dir (os.mkdir_all d)
