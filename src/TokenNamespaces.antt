-- ===== src/TokenNamespaces.antt =====
-- internal/token/namespaces/namespaces.go: the namespaces that the topology file allows, and the check that
-- a verifier runs on its tokens. The file and its decoding are parameters of a read; the locks make
-- a read one step. The warnings are kept, as the namespace that each allows.
pub mod Allowed
mod Examples
use qubership_authz_agent.Base.{
  Bytes, Bool, true, false, List, [], ◌∷◌, Option, none, some, codes, contains, is_empty, not,
  Result, ok, err, if◌then◌else◌,
}
use qubership_authz_agent.PolicyStore.Maps.{find, put}
use qubership_authz_agent.TokenVerify.Claims.{map_of}
use qubership_authz_agent.TokenVerify.{Code, namespace_not_allowed, Raw, RawMap, Token, Outside}

pub record Domain : Type 0 where
  pub origin : Bytes
  pub peer : Bytes

-- A pointer that may be nil is an option.
pub record Composite : Type 0 where
  pub baseline : Option Domain
  pub satellites : List (Option Domain)

pub record Topology : Type 0 where
  pub composite : Option Composite

pub record Allowlist : Type 0 where
  pub topology_file : Bytes
  pub namespace : Bytes
  pub allowed : List (Bytes × Bool)
  pub fallback : Bool
  pub warnings : List Bytes

abbrev pub add_name : Bytes → List (Bytes × Bool) → List (Bytes × Bool)
add_name name m = if not (is_empty name) then put name true m else m

-- The loop over the domains.
unfoldable pub add_domains : List (Option Domain) → List (Bytes × Bool) → List (Bytes × Bool)
unfolding put
add_domains [] m = m
add_domains (none ∷ ds) m = add_domains ds m
add_domains (some d ∷ ds) m = add_domains ds (add_name d.peer (add_name d.origin m))

abbrev pub namespaces_of : Option Composite → List (Bytes × Bool)
namespaces_of none = []
namespaces_of (some c) = add_domains (c.baseline ∷ c.satellites) []

-- `topology.namespaces`
unfoldable pub namespaces : Topology → List (Bytes × Bool)
unfolding add_domains
namespaces t = namespaces_of t.composite

abbrev pub or_false : Option Bool → Bool
or_false none = false
or_false (some b) = b

-- `Allows`
unfoldable pub is_allowed : Allowlist → Bytes → Bool
unfolding find
is_allowed a namespace = or_false (find namespace a.allowed)

-- `Unmarshal` of what a read of the file gives: none for an error of either.
abbrev pub read_topology :
    (Bytes → Option Bytes) → (Bytes → Option Topology) → Bytes → Option Topology
read_topology files parse path = elim (files path) [ none ↦ none | some raw ↦ parse raw ]

abbrev pub own_alone : Bytes → List (Bytes × Bool)
own_alone namespace = if is_empty namespace then [] else (namespace, true) ∷ []

abbrev pub load_from : Option Topology → Allowlist → List (Bytes × Bool) × Allowlist
load_from (some t) a = (namespaces t, record a { fallback = false })
load_from none a = (
  own_alone a.namespace,
  record a {
    fallback = true;
    warnings = if not a.fallback then a.namespace ∷ a.warnings else a.warnings;
  },
)

-- `load`
unfoldable pub load :
    (Bytes → Option Bytes) → (Bytes → Option Topology) → Allowlist → List (Bytes × Bool) × Allowlist
unfolding namespaces
load files parse a = load_from (read_topology files parse a.topology_file) a

-- `reload`
unfoldable pub reload : (Bytes → Option Bytes) → (Bytes → Option Topology) → Allowlist → Allowlist
unfolding load
reload files parse a = let (m, a') = load files parse a in record a' { allowed = m }

module _ {J F : Type 0} (lib : Outside J F) where
  abbrev pub string_of : Raw → Option Bytes
  string_of none = none
  string_of (some raw) = lib.unmarshal_string raw

  abbrev pub not_empty : Option Bytes → Option Bytes
  not_empty none = none
  not_empty (some s) = if is_empty s then none else some s

  abbrev pub member_of : Option (Option RawMap) → Bytes → Raw
  member_of (some (some m)) name = find name m
  member_of v name = none

  -- `namespaceOf`
  unfoldable pub namespace_of : Token J → Option Bytes
  unfolding find
  namespace_of tok = not_empty (
      string_of
        (member_of (map_of lib (find (codes "kubernetes.io") tok.claims)) (codes "namespace")))

  abbrev pub refuse_unless : Allowlist → Option Bytes → Option Code
  refuse_unless a none = some namespace_not_allowed
  refuse_unless a (some namespace) =
      if not (is_allowed a namespace) then some namespace_not_allowed else none

  -- `Admit`
  unfoldable pub admit : Allowlist → List Bytes → Token J → Option Code
  unfolding namespace_of is_allowed
  admit a providers tok =
      if not (contains providers tok.provider_id) then none else refuse_unless a (namespace_of tok)
