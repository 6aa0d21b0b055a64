-- ===== src/PolicyStore/Examples.antt =====
-- The theorems on the policy store at concrete inputs: a directory whose renames fail as a script says.
use qubership_authz_agent.Base.{
  ℕ, Bytes, Bool, true, false, List, [], ◌∷◌, Option, none, some, codes, equal, equal_iff, equal-ne,
  starts_with, Result, ok, err, In, ◌≡◌, ◌≢◌, ◌↔◌, inl, inr, refl, sym, ap, subst, ◌∙◌, arith,
  Bool-cases, if◌then◌else◌,
}
use qubership_authz_agent.PolicyStore.Disk.{IsCommit, set_domain_policies-IsCommit}
use qubership_authz_agent.PolicyStore.Files.{
  Os, Failure, IsFileSystem, IsAtomic, write_file_atomic, write_file_atomic-IsAtomic,
}
use qubership_authz_agent.PolicyStore.Load.{Reader, load_from_disk, is_valid_domain}
use qubership_authz_agent.PolicyStore.Maps.{
  find, put, remove_key, keys, find-put, find-put_other, keys-find,
}
use qubership_authz_agent.PolicyStore.Restart.{IsListing, restart-serves}
use qubership_authz_agent.PolicyStore.Store.{
  Codecs, Store, Outcome, rehash, file_name, policies_prefix, set_domain_policies, domain_policies,
  merged, index,
}
use qubership_authz_agent.PolicyStore.Upload.{
  IsCoherent, IsPoliciesUpload, set_domain_policies-IsPoliciesUpload, In-merged,
}

-- The files, and for each rename to come whether it fails.
abbrev Directory : Type 0
Directory = List (Bytes × Bytes) × List Bool

abbrev temp : Bytes
temp = codes ".acstub-0.json"

abbrev IsTempName : Bytes → Type 0
IsTempName n = n ≡ temp

unfoldable move : Bytes → Bytes → Option Bytes → Directory → Directory × Failure
unfolding put remove_key
move t p none d = (d, some (codes "no such file"))
move t p (some c) (files, true ∷ faults) = ((files, faults), some (codes "no space"))
move t p (some c) (files, false ∷ faults) = ((put p c (remove_key t files), faults), none)
move t p (some c) (files, []) = ((put p c (remove_key t files), []), none)

abbrev read_in : Directory → Bytes → Option Bytes
read_in d n = find n d.0

unfoldable disk : Os Directory
unfolding move put find remove_key
disk = record {
  mkdir_all = λ d. (d, none);
  create_temp = λ d. (d, ok temp);
  write = λ t c d. ((put t c d.0, d.1), none);
  close = λ t d. (d, none);
  chmod = λ t d. (d, none);
  rename = λ t p d. move t p (find t d.0) d;
  remove = λ t d. ((remove_key t d.0, d.1), none);
}

find-remove_key_other :
    (j k : Bytes) (m : List (Bytes × Bytes)) → j ≢ k → find j (remove_key k m) ≡ find j m
unfolding find remove_key
find-remove_key_other j k [] h = refl
find-remove_key_other j k ((l, b) ∷ m) h = elim (Bool-cases (equal k l)) [
  | inl e ↦
      ground (
        arith,
        equal-ne j l (λ q. h (q ∙ sym ((equal_iff k l).0 e))),
        find-remove_key_other j k m h,
      )
  | inr n ↦ ground (arith, find-remove_key_other j k m h)
]

move-keeps :
    (t p : Bytes) (o : Option Bytes) (d : Directory) (n : Bytes)
    → n ≢ t
    → n ≢ p
    → read_in (move t p o d).0 n ≡ read_in d n
unfolding move
move-keeps t p none d n g h = refl
move-keeps t p (some c) (files, true ∷ faults) n g h = refl
move-keeps t p (some c) (files, false ∷ faults) n g h =
    find-put_other n p c (remove_key t files) h ∙ find-remove_key_other n t files g
move-keeps t p (some c) (files, []) n g h =
    find-put_other n p c (remove_key t files) h ∙ find-remove_key_other n t files g

move-reads :
    (t p : Bytes) (o : Option Bytes) (d d' : Directory)
    → move t p o d ≡ (d', none)
    → read_in d' p ≡ o
unfolding move
move-reads t p none d d' e = cc (ap (λ (x : Directory × Failure). x.1) e)
move-reads t p (some c) (files, true ∷ faults) d' e = cc (ap (λ (x : Directory × Failure). x.1) e)
move-reads t p (some c) (files, false ∷ faults) d' e =
    ap (λ (x : Directory × Failure). read_in x.0 p) (sym e) ∙ find-put p c (remove_key t files)
move-reads t p (some c) (files, []) d' e =
    ap (λ (x : Directory × Failure). read_in x.0 p) (sym e) ∙ find-put p c (remove_key t files)

move-fails :
    (t p : Bytes) (o : Option Bytes) (d d' : Directory) (f n : Bytes)
    → move t p o d ≡ (d', some f)
    → read_in d' n ≡ read_in d n
unfolding move
move-fails t p none d d' f n e = ap (λ (x : Directory × Failure). read_in x.0 n) (sym e)
move-fails t p (some c) (files, true ∷ faults) d' f n e =
    ap (λ (x : Directory × Failure). read_in x.0 n) (sym e)
move-fails t p (some c) (files, false ∷ faults) d' f n e =
    cc (ap (λ (x : Directory × Failure). x.1) e)
move-fails t p (some c) (files, []) d' f n e = cc (ap (λ (x : Directory × Failure). x.1) e)

disk-IsFileSystem : IsFileSystem disk read_in IsTempName
unfolding disk
disk-IsFileSystem = record {
  mkdir_keeps = λ d n. refl;
  create_is_temp = λ d d' t e.
      sym (ap (λ (x : Directory × Result Bytes Bytes). elim x.1 [ ok n ↦ n | err n ↦ n ]) e);
  create_keeps = λ d n h. refl;
  write_keeps = λ t c d n h. find-put_other n t c d.0 h;
  write_reads =
      λ t c d d' e. ap (λ (x : Directory × Failure). read_in x.0 t) (sym e) ∙ find-put t c d.0;
  close_keeps = λ t d n. refl;
  chmod_keeps = λ t d n. refl;
  rename_keeps = λ t p d n h g. move-keeps t p (find t d.0) d n h g;
  rename_reads = λ t p d d' e. move-reads t p (find t d.0) d d' e;
  rename_fails = λ t p d d' f n e h. move-fails t p (find t d.0) d d' f n e;
  remove_keeps = λ t d n h. find-remove_key_other n t d.0 h;
}

-- A policy is its own text, and a document holds one.
abbrev codecs : Codecs Bytes Bytes
codecs = record {
  encode_policies = λ ps. some (elim ps [ [] ↦ [] | p ∷ rest ↦ p ]);
  encode_pips = λ ps. some (elim ps [ [] ↦ [] | p ∷ rest ↦ p ]);
  decode_policies = λ raw. some (some (raw ∷ []));
  decode_pips = λ raw. some (some (raw ∷ []));
  encode_state = λ st. some (st.revision ∷ []);
  decode_state = λ raw. none;
  hex_sha256 = λ b. b;
}

abbrev start : Store Bytes Bytes
start = record {
  data_dir = codes "/data";
  policies = [];
  pips = [];
  policies_hash = [];
  pips_hash = [];
  revision = 0;
}

start-IsCoherent : IsCoherent codecs start
unfolding rehash
start-IsCoherent = record { hashed = refl; word = omega arith }

abbrev bss : Bytes
bss = codes "BSS"

abbrev body : Bytes
body = codes "[1]"

-- The second rename fails: that of the state file.
abbrev faulty : Directory
faulty = ([], false ∷ true ∷ [])

abbrev failed : Outcome codecs disk
failed = set_domain_policies codecs disk bss (some (body ∷ [])) body [] start faulty

IsPoliciesUpload-example : IsPoliciesUpload codecs disk bss (some (body ∷ [])) start failed
IsPoliciesUpload-example =
    set_domain_policies-IsPoliciesUpload codecs disk bss (some (body ∷ [])) body [] start faulty
      start-IsCoherent

not_temp : (n : Bytes) → equal n temp ≡ false → ¬ IsTempName n
not_temp n f e = absurd (ground (arith, (equal_iff n temp).1 e))

policies-IsCommit_example :
    IsCommit codecs disk read_in IsTempName
      (file_name policies_prefix bss)
      body
      faulty
      (write_file_atomic disk (file_name policies_prefix bss) body faulty).1
      failed
unfolding equal
policies-IsCommit_example =
    set_domain_policies-IsCommit codecs disk read_in IsTempName disk-IsFileSystem
      (not_temp (codes "state.json") refl) bss body [] start faulty (λ e. cc) (some (body ∷ []))
      (not_temp (file_name policies_prefix bss) refl)

IsAtomic-example :
    IsAtomic read_in IsTempName
      (codes "a")
      body
      faulty
      (write_file_atomic disk (codes "a") body faulty)
unfolding equal
IsAtomic-example =
    write_file_atomic-IsAtomic disk read_in IsTempName disk-IsFileSystem (codes "a") body
      (not_temp (codes "a") refl) faulty

merged_example :
    In body (merged ((bss, body ∷ []) ∷ []))
    ↔ ((d : Bytes) × In body (index d ((bss, body ∷ []) ∷ [])))
merged_example = In-merged body ((bss, body ∷ []) ∷ [])

unfoldable with_prefix : Bytes → List Bytes → List Bytes
unfolding starts_with
with_prefix p [] = []
with_prefix p (n ∷ ns) = let rest = with_prefix p ns in if starts_with p n then n ∷ rest else rest

abbrev reader : Reader Directory
reader = record { glob = λ p d. some (with_prefix p (keys d.0)); read_file = read_in }

-- The directory after the upload of `body` for BSS to an empty one.
abbrev uploaded : Directory
uploaded = ((file_name policies_prefix bss, body) ∷ (codes "state.json", 1 ∷ []) ∷ [], [])

abbrev head_of : Bytes → ℕ
head_of [] = 0
head_of (c ∷ s) = c

uploaded-IsListing : IsListing reader policies_prefix uploaded (file_name policies_prefix bss ∷ [])
unfolding with_prefix keys find equal
uploaded-IsListing = (
  refl,
  λ n. (
    λ i. elim i [
      | inl e ↦ ((bss, e), body, subst (λ y. find y uploaded.0 ≡ some body) (sym e) refl)
      | inr r ↦ absurd r
    ],
    λ ((x, e), c, r). elim ((keys-find n uploaded.0).1 (c, r)) [
      | inl q ↦ inl q
      | inr s ↦ elim s [
        | inl q ↦ let apart : b'p' ≡ b's' = ap head_of (sym e ∙ q) in absurd (omega arith)
        | inr u ↦ absurd u
      ]
    ],
  ),
)

restart_example :
    domain_policies codecs bss (load_from_disk reader codecs start uploaded) ≡ body ∷ []
unfolding set_domain_policies with_prefix keys find equal disk is_valid_domain
restart_example =
    restart-serves codecs reader disk IsTempName disk-IsFileSystem
      (not_temp (codes "state.json") refl) bss refl (not_temp (file_name policies_prefix bss) refl)
      (some (body ∷ [])) body [] start ([], []) (λ e. cc) refl start uploaded
      (file_name policies_prefix bss ∷ []) refl refl uploaded-IsListing
