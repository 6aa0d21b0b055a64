-- ===== src/TokenNamespaces/Examples.antt =====
-- The theorems on namespaces at concrete inputs: a composite of one baseline, and a token of namespace "b".
use qubership_authz_agent.Base.Int.{pos, ◌+ℤ◌, scale}
use qubership_authz_agent.Base.{
  ℕ, contains, equal, Bytes, true, false, [], ◌∷◌, Option, none, some, codes, ◌≡◌, inl, refl,
}
use qubership_authz_agent.TokenNamespaces.Allowed.{AllowedBy, reload_iff, verify-AllowedBy}
use qubership_authz_agent.TokenNamespaces.{
  Topology, Allowlist, is_allowed, read_topology, reload, namespace_of, admit,
}
use qubership_authz_agent.TokenVerify.Verifier.Examples.{
  outside, keys, bits, trusted, finder, slot, compact, published_key,
}
use qubership_authz_agent.TokenVerify.Verifier.{token_of, verify}
use qubership_authz_agent.TokenVerify.{RawMap, Token, Outside}

abbrev topology : Topology
topology = record {
  composite = some (record {
    baseline = some (record { origin = codes "a"; peer = codes "b" });
    satellites = none ∷ [];
  });
}

abbrev allowlist : Allowlist
allowlist = record {
  topology_file = codes "data";
  namespace = codes "own";
  allowed = [];
  fallback = false;
  warnings = [];
}

abbrev file : Bytes → Option Bytes
file path = some []

abbrev parsed : Bytes → Option Topology
parsed raw = some topology

AllowedBy-example : AllowedBy (codes "own") (some topology) (codes "b")
unfolding reload is_allowed equal
AllowedBy-example = (reload_iff file parsed allowlist (codes "b")).0 refl

abbrev claims : RawMap
claims =
    (codes "exp", codes "9") ∷ (codes "iat", codes "1") ∷ (codes "kubernetes.io", codes "{}") ∷ []

abbrev namespaced : Outside Bytes ℕ
namespaced = record outside {
  unmarshal_map = λ s. some (
      some (
        (codes "alg", codes "RS256")
        ∷ (codes "kid", codes "k1")
        ∷ (codes "namespace", codes "b")
        ∷ []));
  decode_stream = λ s. (some (some claims), true);
}

abbrev token : Token Bytes
token =
    token_of namespaced keys bits trusted compact (codes "k1") (published_key (codes "k1"))
      (codes "p") claims (pos 9000000000)

verify-example :
    (n : Bytes) × (namespace_of namespaced token ≡ some n)
    × AllowedBy (codes "own") (read_topology file parsed (codes "data")) n
unfolding verify equal ◌+ℤ◌ scale admit contains reload
verify-example =
    verify-AllowedBy namespaced keys bits trusted finder (pos 0) slot file parsed allowlist
      (codes "a" ∷ []) compact (pos 2000000000) none token (inl refl) refl
