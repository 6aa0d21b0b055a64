-- ===== src/AgentAuthn/Fetch.antt =====
-- `validate`, `fetchProvider`, `indexKeys` and `fetch` of components/authz-agent/internal/authn/authn.go: the
-- keys of each provider, in the order of the file.
use qubership_authz_agent.Base.Int.{ℤ, pos, negsuc}
use qubership_authz_agent.Base.{
  ℕ, suc, ◌+◌, Bytes, Bool, true, false, List, [], ◌∷◌, ◌++◌, Option, none, some, codes, equal,
  is_empty, trim_slashes, not, ◌&&◌, Result, ok, err, Check, fail_if, wrap, if◌then◌else◌,
}
use qubership_authz_agent.Json.{Json, string, object, array, item, end, Members, member, close}
use qubership_authz_agent.JsonPath.Walk.{get}
use qubership_authz_agent.PolicyStore.Maps.{put}
use qubership_authz_agent.PolicyStore.Store.{index}
use qubership_authz_agent.Regex.{matches_whole}
use qubership_authz_agent.TokenKeys.Config.{valid_provider_id}
use qubership_authz_agent.AgentAuthn.Action.{Action, lift, done, ◌>>=◌, ◌>>◌, or_fail}
use qubership_authz_agent.AgentAuthn.Client.{ClientError, fetch_with_retry}
use qubership_authz_agent.AgentAuthn.Realm.{new_realm_resolver, resolve_issuer}
use qubership_authz_agent.AgentAuthn.{
  Config, Provider, Failure, id_missing, id_unsupported, neither_address, both_addresses,
  discovery_unfetched, discovery_invalid, no_jwks_uri, jwks_unfetched, jwks_invalid, jwks_null,
  no_signing_key, success, failure, ProviderResult, IndexedKey, Candidate, Artifacts, Outside,
  Session,
}

abbrev pub first_failure : Check Failure → Check Failure → Check Failure
first_failure (ok _) next = next
first_failure (err e) next = err e

-- `Provider.validate`
unfoldable pub validate : ℕ → Provider → Check Failure
unfolding matches_whole valid_provider_id
validate idx p = first_failure (fail_if (is_empty p.id) (id_missing idx)) (
    first_failure (fail_if (not (matches_whole valid_provider_id p.id)) (id_unsupported idx p.id)) (
      first_failure (fail_if (is_empty p.issuer && is_empty p.jwks_uri) (neither_address p.id))
        (fail_if (not (is_empty p.issuer) && not (is_empty p.jwks_uri)) (both_addresses p.id))))

-- `s, _ := key[name].(string)`
abbrev pub or_no_text : Option Json → Bytes
or_no_text (some (string s)) = s
or_no_text o = []

abbrev pub text_at : Bytes → Members → Bytes
text_at name key = or_no_text (get name key)

-- How often an address is asked for: the loop runs from 1 to `retries`.
abbrev pub times : ℤ → ℕ
times (pos n) = n
times (negsuc n) = 0

abbrev pub add_keys :
    List IndexedKey → List (Bytes × List Candidate) → List (Bytes × List Candidate)
add_keys [] m = m
add_keys (k ∷ ks) m = add_keys ks (put k.kid (index k.kid m ++ (k.candidate ∷ [])) m)

abbrev pub is_success : ProviderResult → Bool
is_success r = elim r.result [ success ↦ true | failure ↦ false ]

abbrev pub no_artifacts : Artifacts
no_artifacts = record { results = []; jwks_by_kid = []; success_count = 0; failure_count = 0 }

-- What one round of the loop of `fetch` adds
abbrev pub add_result : ProviderResult → List IndexedKey → Artifacts → Artifacts
add_result r keys out =
    if not (is_success r)
    then (record out { results = out.results ++ (r ∷ []); failure_count = out.failure_count + 1 })
    else (record out {
      results = out.results ++ (r ∷ []);
      success_count = out.success_count + 1;
      jwks_by_kid = add_keys keys out.jwks_by_kid;
    })

abbrev pub counted : Option IndexedKey → List IndexedKey × ℕ → List IndexedKey × ℕ
counted none (out, skipped) = (out, skipped + 1)
counted (some k) (out, skipped) = (k ∷ out, skipped)

abbrev pub usable : Bytes → List IndexedKey × ℕ → Result Failure (List IndexedKey)
usable id ([], skipped) = err (no_signing_key id skipped)
usable id (k ∷ ks, skipped) = ok (k ∷ ks)

abbrev pub kept_world :
    {W : Type 0}
    → List (Bytes × Bytes)
    → Result ClientError Bytes × W
    → Result ClientError Bytes × Session W
kept_world names (r, w) = (r, record { world = w; names = names })

abbrev pub discovery_url : Bytes → Bytes
discovery_url issuer = trim_slashes issuer ++ codes "/.well-known/openid-configuration"

abbrev pub is_other_use : Bytes → Bool
is_other_use usage = not (is_empty usage) && not (equal usage (codes "sig"))

-- A document with the one key
abbrev pub single_key : Members → Json
single_key key = object (member (codes "keys") (array (item (object key) end)) close)

module _ {W S : Type 0} (lib : Outside W S) where
  abbrev pub serialized : Bytes → Bytes → Members → Result Bytes Bytes → Option IndexedKey
  serialized id kid key (err e) = none
  serialized id kid key (ok single) = some (record {
    kid = kid;
    candidate = record {
      provider_id = id;
      alg = text_at (codes "alg") key;
      kty = text_at (codes "kty") key;
      jwks_json = single;
    };
  })

  -- The loop body of `indexKeys`: the candidate of a key, none where the key is skipped.
  unfoldable pub indexed : Bytes → Members → Option IndexedKey
  unfolding equal
  indexed id key =
      if is_empty (text_at (codes "kid") key)
      then none
      else if is_other_use (text_at (codes "use") key)
      then none
      else serialized id (text_at (codes "kid") key) key (lib.marshal (single_key key))

  -- `indexKeys`: the candidates, and how many keys were skipped.
  unfoldable pub index_keys : Bytes → List Members → List IndexedKey × ℕ
  unfolding indexed
  index_keys id [] = ([], 0)
  index_keys id (key ∷ keys) = counted (indexed id key) (index_keys id keys)

  abbrev pub keys_in : Bytes → Option (List Members) → Result Failure (List IndexedKey)
  keys_in id none = err (jwks_null id)
  keys_in id (some keys) = usable id (index_keys id keys)

  abbrev pub keys_of_body :
      Bytes → Result Bytes (Option (List Members)) → Result Failure (List IndexedKey)
  keys_of_body id (err e) = err (jwks_invalid id)
  keys_of_body id (ok keys) = keys_in id keys

  module _ (cfg : Config) where
    unfoldable pub get_body : Bytes → Action (Session W) ClientError Bytes
    unfolding fetch_with_retry
    get_body url s = kept_world s.names (fetch_with_retry lib url (times cfg.http_retries) s.world)

    abbrev pub by_resolved : Provider → Option Bytes × Session W → Result Failure Bytes × Session W
    by_resolved p (none, s) = (err (discovery_unfetched p.id (discovery_url p.issuer)), s)
    by_resolved p (some resolved, s) =
        or_fail (λ e. discovery_unfetched p.id (discovery_url p.issuer))
          (get_body (discovery_url resolved)) s

    -- The resolver is asked only once discovery under the written name failed.
    abbrev pub or_resolved :
        Provider → Result ClientError Bytes × Session W → Result Failure Bytes × Session W
    or_resolved p (ok body, s) = (ok body, s)
    or_resolved p (err e, s) =
        by_resolved p
          (resolve_issuer lib (new_realm_resolver lib cfg.tenant_manager_url) p.issuer s)

    unfoldable pub discover : Provider → Action (Session W) Failure Bytes
    unfolding get_body resolve_issuer new_realm_resolver trim_slashes
    discover p = do
      body ← λ s. or_resolved p (get_body (discovery_url p.issuer) s)
      uri ← lift (wrap (λ e. discovery_invalid p.id) (lib.decode_discovery body))
      lift (fail_if (is_empty uri) (no_jwks_uri p.id))
      done uri

    abbrev pub jwks_address : Provider → Action (Session W) Failure Bytes
    jwks_address p = if is_empty p.jwks_uri then discover p else done p.jwks_uri

    -- The keys of a provider, or why it has none
    unfoldable pub fetch_keys : ℕ → Provider → Action (Session W) Failure (List IndexedKey)
    unfolding validate discover get_body index_keys
    fetch_keys idx p = do
      lift (validate idx p)
      uri ← jwks_address p
      body ← or_fail (λ e. jwks_unfetched p.id uri) (get_body uri)
      lift (keys_of_body p.id (lib.decode_jwks body))

    abbrev pub name_of : ℕ → Provider → Bytes
    name_of idx p = if is_empty p.id then codes "provider-" ++ lib.decimal idx else p.id

    abbrev pub result_of :
        ℕ → Provider → Result Failure (List IndexedKey) → ProviderResult × List IndexedKey
    result_of idx p (ok keys) =
        (record { id = p.id; result = success; required = p.required; failure_reason = none }, keys)
    result_of idx p (err e) = (
      record {
        id = name_of idx p;
        result = failure;
        required = p.required;
        failure_reason = some e;
      },
      [],
    )

    -- `fetchProvider`
    unfoldable pub fetch_provider :
        ℕ → Provider → Session W → (ProviderResult × List IndexedKey) × Session W
    unfolding fetch_keys
    fetch_provider idx p s = let (r, s₁) = fetch_keys idx p s in (result_of idx p r, s₁)

    -- The loop of `fetch`
    unfoldable pub fetch_from : ℕ → List Provider → Artifacts → Session W → Artifacts × Session W
    unfolding fetch_provider put index
    fetch_from i [] out s = (out, s)
    fetch_from i (p ∷ ps) out s =
        let ((r, keys), s₁) = fetch_provider i p s in
        fetch_from (suc i) ps (add_result r keys out) s₁

    -- `fetch`
    unfoldable pub fetch : List Provider → Session W → Artifacts × Session W
    unfolding fetch_from
    fetch providers s = fetch_from 0 providers no_artifacts s
