-- ===== src/TokenKeys/Document.antt =====
-- The download of a JWKS: readToken, get, parseJWKS and fetch of internal/token/keys/fetch.go. What one fetch
-- finds outside, and what the packages os, net/http, encoding/json and jwk do, is the record `Remote`.
pub mod Collected
pub mod Parsed
use qubership_authz_agent.Http.{Response}
use qubership_authz_agent.Base.{
  ℕ, ◌+◌, Bytes, Bool, List, [], ◌∷◌, ◌++◌, Option, none, some, codes, equal, is_empty, length,
  take, trim_slashes, not, ◌||◌, ltb, Result, ok, err, Check, fail_if, wrap, ◌>>◌, ◌>>=◌,
  if◌then◌else◌,
}
use qubership_authz_agent.PolicyStore.Maps.{find, put}
use qubership_authz_agent.TokenKeys.Config.{Provider}
use qubership_authz_agent.TokenKeys.Signing.{Jwk, Skipped, signing_key}
use qubership_authz_agent.TokenKeys.{Key, FetchError, no_usable_key, failed}

-- `keys_member` is the text of the member keys of a document, none where it is missing, and `elements` the
-- texts of the elements of an array; null is an empty array.
pub record Remote (J : Type 0) : Type 0 where
  pub read_file : Bytes → Result Bytes Bytes
  pub trim_space : Bytes → Bytes
  pub new_request : Bytes → Check Bytes
  pub send : Bytes → List (Bytes × Bytes) → Result Bytes Response
  pub jwks_uri : Bytes → Result Bytes Bytes
  pub keys_member : Bytes → Result Bytes (Option Bytes)
  pub elements : Bytes → Result Bytes (List Bytes)
  pub thumbprint : J → Result Bytes Bytes

pub data JwksError : Type 0 where
  no_json : Bytes → JwksError
  no_keys : JwksError
  no_array : Bytes → JwksError
  two_keys : Bytes → JwksError
  none_usable : ℕ → JwksError

pub data Failure : Type 0 where
  io_failed : Bytes → Failure
  token_unread : Bytes → Bytes → Failure
  token_empty : Bytes → Bytes → Failure
  body_unread : Bytes → Bytes → Failure
  http_status : Bytes → ℕ → Failure
  too_long : Bytes → Failure
  no_discovery : Bytes → Bytes → Failure
  no_jwks_uri : Bytes → Failure
  jwks_wrong : Bytes → JwksError → Failure

-- `maxResponseBytes`
abbrev pub max_response_bytes : ℕ
max_response_bytes = 1048576

-- `errors.Is(err, errNoUsableKey)`, with the text of the error
abbrev pub fetch_error : (Failure → Bytes) → Failure → FetchError
fetch_error text (jwks_wrong uri (none_usable n)) =
    no_usable_key (text (jwks_wrong uri (none_usable n)))
fetch_error text e = failed (text e)

module _ {J : Type 0} (jwk : Jwk J) (bit_len : ℕ → ℕ) (remote : Remote J) where
  -- The keys so far, the thumbprint of each kid, and how many entries were skipped
  abbrev pub Collect : Type 0
  Collect = List (Bytes × Bytes) → List (Key J) → ℕ → Result JwksError (List (Key J) × ℕ)

  abbrev pub unless_seen : Bytes → Key J → Bytes → Option Bytes → Collect → Collect
  unless_seen provider key t none next prints out n =
      next (put key.id t prints) (out ++ (record key { provider = provider } ∷ [])) n
  unless_seen provider key t (some earlier) next prints out n =
      let rest = next prints out n in if equal earlier t then rest else err (two_keys key.id)

  abbrev pub with_thumbprint : Bytes → Key J → Result Bytes Bytes → Collect → Collect
  with_thumbprint provider key (err e) next prints out n = next prints out (n + 1)
  with_thumbprint provider key (ok t) next prints out n =
      unless_seen provider key t (find key.id prints) next prints out n

  abbrev pub with_signing_key : Bytes → Result Skipped (Key J) → Collect → Collect
  with_signing_key provider (err reason) next prints out n = next prints out (n + 1)
  with_signing_key provider (ok key) next prints out n =
      with_thumbprint provider key (remote.thumbprint key.jwk) next prints out n

  -- The loop of `parseJWKS` over the entries
  unfoldable pub parse_entries : Bytes → List Bytes → Collect
  unfolding signing_key find put equal
  parse_entries provider [] prints out n = ok (out, n)
  parse_entries provider (raw ∷ raws) prints out n =
      with_signing_key provider (signing_key jwk bit_len raw) (parse_entries provider raws) prints
        out n

  abbrev pub or_none_usable : List (Key J) × ℕ → Result JwksError (List (Key J))
  or_none_usable ([], n) = err (none_usable n)
  or_none_usable (k ∷ ks, n) = ok (k ∷ ks)

  abbrev pub keys_text : Option Bytes → Result JwksError Bytes
  keys_text none = err no_keys
  keys_text (some raw) = ok raw

  abbrev pub of_entries : Bytes → List Bytes → Result JwksError (List (Key J))
  of_entries provider entries = parse_entries provider entries [] [] 0 >>= or_none_usable

  abbrev pub of_text : Bytes → Bytes → Result JwksError (List (Key J))
  of_text provider raw = wrap no_array (remote.elements raw) >>= of_entries provider

  abbrev pub of_member : Bytes → Option Bytes → Result JwksError (List (Key J))
  of_member provider member = keys_text member >>= of_text provider

  -- `parseJWKS`
  unfoldable pub parse_jwks : Bytes → Bytes → Result JwksError (List (Key J))
  unfolding parse_entries
  parse_jwks provider body = wrap no_json (remote.keys_member body) >>= of_member provider

  -- `readToken`
  abbrev pub read_token : Bytes → Bytes → Result Failure Bytes
  read_token provider path = do
    raw ← wrap (token_unread provider) (remote.read_file path)
    fail_if (is_empty (remote.trim_space raw)) (token_empty provider path)
    ok (remote.trim_space raw)

  abbrev pub accept : Bytes × Bytes
  accept = (codes "Accept", codes "application/json")

  abbrev pub headers : Provider → Result Failure (List (Bytes × Bytes))
  headers p =
      if is_empty p.token_file
      then ok (accept ∷ [])
      else (read_token p.id p.token_file >>= λ token.
          ok (accept ∷ (codes "Authorization", codes "Bearer " ++ token) ∷ []))

  abbrev pub read_body : Bytes → Response → Result Failure Bytes
  read_body url r = do
    raw ← wrap (body_unread url) r.body
    let body = take (max_response_bytes + 1) raw
    fail_if (ltb r.status_code 200 || ltb 299 r.status_code) (http_status url r.status_code)
    fail_if (ltb max_response_bytes (length body)) (too_long url)
    ok body

  -- `get`
  unfoldable pub get : Provider → Bytes → Result Failure Bytes
  get p url = do
    wrap io_failed (remote.new_request url)
    hs ← headers p
    r ← wrap io_failed (remote.send url hs)
    read_body url r

  abbrev pub discovery : Provider → Bytes
  discovery p = trim_slashes p.issuer ++ codes "/.well-known/openid-configuration"

  abbrev pub jwks_address : Provider → Result Failure Bytes
  jwks_address p =
      if is_empty p.jwks_uri
      then (get p (discovery p) >>= λ body.
          wrap (no_discovery (discovery p)) (remote.jwks_uri body) >>= λ uri.
          fail_if (is_empty uri) (no_jwks_uri (discovery p)) >> ok uri)
      else ok p.jwks_uri

  abbrev pub jwks_at : Provider → Bytes → Result Failure (List (Key J))
  jwks_at p uri = get p uri >>= λ body. wrap (jwks_wrong uri) (parse_jwks p.id body)

  -- `fetch`
  unfoldable pub fetch : Provider → Result Failure (List (Key J))
  unfolding get parse_jwks trim_slashes
  fetch p = jwks_address p >>= jwks_at p
