-- ===== src/AgentAuthn/Realm.antt =====
-- components/authz-agent/internal/authn/realm.go: the realm name behind a tenant's display name. The resolver
-- is its base address, none for a nil resolver; the names that it keeps are in the session.
use qubership_authz_agent.Base.{
  ℕ, zero, suc, Bytes, List, [], ◌∷◌, ◌++◌, Option, none, some, codes, equal, is_empty,
  trim_slashes, not, ◌||◌, ◌==◌, Result, ok, err, if◌then◌else◌,
}
use qubership_authz_agent.PolicyStore.Maps.{find, put}
use qubership_authz_agent.Regex.{Regex, one, eps, seq, opt, matches_whole}
use qubership_authz_agent.TokenKeys.Config.{id_char}
use qubership_authz_agent.AgentAuthn.Client.{ClientError, fetch_with_retry}
use qubership_authz_agent.AgentAuthn.{Outside, Session}

abbrev pub tenant_lookup_path : Bytes
tenant_lookup_path = codes "/api/v4/tenant-manager/registration/tenants"

-- `r{0,n}`
unfoldable pub up_to : ℕ → Regex → Regex
up_to zero r = eps
up_to (suc n) r = opt (seq r (up_to n r))

-- `realmSegment`
unfoldable pub realm_segment : Regex
unfolding up_to
realm_segment = seq (one id_char) (up_to 127 (one id_char))

abbrev pub cut : ℕ → Bytes → Option (Bytes × Bytes) → Option (Bytes × Bytes)
cut c s (some (prefix, segment)) = some (c ∷ prefix, segment)
cut c s none = if c == b'/' then some ([], s) else none

-- The text before its last slash, and the text behind it
unfoldable pub split_last : Bytes → Option (Bytes × Bytes)
split_last [] = none
split_last (c ∷ s) = cut c s (split_last s)

module _ {W S : Type 0} (lib : Outside W S) where
  -- `newRealmResolver`
  unfoldable pub new_realm_resolver : Bytes → Option Bytes
  unfolding trim_slashes
  new_realm_resolver base_url =
      let trimmed = trim_slashes (lib.trim_space base_url) in
      if is_empty trimmed then none else some trimmed

  abbrev pub realm_of : Bytes → Bytes → Option Bytes
  realm_of name resolved =
      if is_empty resolved || not (matches_whole realm_segment resolved) || equal resolved name
      then none
      else some resolved

  abbrev pub answered : Bytes → Result ClientError Bytes × W → Option Bytes × W
  answered name (err e, w) = (none, w)
  answered name (ok body, w) = (realm_of name (lib.trim_space body), w)

  -- `realmResolver.lookup`
  unfoldable pub lookup : Bytes → Bytes → W → Option Bytes × W
  unfolding fetch_with_retry matches_whole realm_segment equal
  lookup base name w = answered name (
      fetch_with_retry lib
        (base ++ (tenant_lookup_path ++ (codes "?dns=" ++ lib.query_escape name))) 1 w)

  -- The answer, and the names with it: an unknown name is kept as the empty text.
  abbrev pub remember : Bytes → List (Bytes × Bytes) → Option Bytes × W → Option Bytes × Session W
  remember name names (none, w) = (none, record { world = w; names = put name [] names })
  remember name names (some r, w) = (some r, record { world = w; names = put name r names })

  abbrev pub unless_empty : Bytes → Option Bytes
  unless_empty r = if is_empty r then none else some r

  abbrev pub known_or_asked : Bytes → Bytes → Option Bytes → Session W → Option Bytes × Session W
  known_or_asked base name (some kept) s = (unless_empty kept, s)
  known_or_asked base name none s = remember name s.names (lookup base name s.world)

  -- `realmResolver.resolve`
  unfoldable pub resolve : Bytes → Bytes → Session W → Option Bytes × Session W
  unfolding lookup find put
  resolve base name s =
      if is_empty name then (none, s) else known_or_asked base name (find name s.names) s

  abbrev pub rewritten : Bytes → Option Bytes × Session W → Option Bytes × Session W
  rewritten prefix (none, s) = (none, s)
  rewritten prefix (some r, s) = (some (prefix ++ (b'/' ∷ r)), s)

  abbrev pub resolve_parts : Bytes → Option (Bytes × Bytes) → Session W → Option Bytes × Session W
  resolve_parts base none s = (none, s)
  resolve_parts base (some (prefix, segment)) s =
      if is_empty segment || not (matches_whole realm_segment segment)
      then (none, s)
      else rewritten prefix (resolve base segment s)

  -- `realmResolver.resolveIssuer`: the address that is rewritten, none where nothing was.
  unfoldable pub resolve_issuer : Option Bytes → Bytes → Session W → Option Bytes × Session W
  unfolding resolve trim_slashes split_last matches_whole realm_segment
  resolve_issuer none issuer s = (none, s)
  resolve_issuer (some base) issuer s = resolve_parts base (split_last (trim_slashes issuer)) s
