-- ===== src/TokenKeys/Config.antt =====
-- internal/token/keys/config.go: the check of the trusted providers. `url.Parse` is an argument: the scheme
-- and the host of an address, or its error.
pub mod Valid
mod Examples
use qubership_authz_agent.Base.{
  ℕ, ◌+◌, Bytes, Bool, true, false, List, [], ◌∷◌, codes, equal, contains, is_empty, not, ◌&&◌,
  ◌||◌, leb, ◌==◌, Result, ok, err, Check, fail_if, wrap, check_all, ◌>>◌, ◌>>=◌, if◌then◌else◌,
}
use qubership_authz_agent.Regex.{Regex, one, plus, matches_whole}

pub record Provider : Type 0 where
  pub id : Bytes
  pub issuer : Bytes
  pub jwks_uri : Bytes
  pub audiences : List Bytes
  pub allow_missing_aud : Bool
  pub ca_file : Bytes
  pub token_file : Bytes

pub record Config : Type 0 where
  pub providers : List Provider

pub record Url : Type 0 where
  pub scheme : Bytes
  pub host : Bytes

pub data AddressError : Type 0 where
  unparsed : Bytes → AddressError
  no_http : AddressError
  no_host : AddressError

pub data ProviderError : Type 0 where
  id_empty : ProviderError
  id_character : Bytes → ProviderError
  no_address : Bytes → ProviderError
  two_addresses : Bytes → ProviderError
  token_without_jwks : Bytes → ProviderError
  missing_aud_alone : Bytes → ProviderError
  audience_empty : Bytes → ProviderError
  address_wrong : Bytes → AddressError → ProviderError

pub data ConfigError : Type 0 where
  no_providers : ConfigError
  provider_wrong : ℕ → ProviderError → ConfigError
  id_used : ℕ → Bytes → ConfigError

-- `[A-Za-z0-9._-]`
abbrev pub id_char : ℕ → Bool
id_char c =
    (leb b'A' c && leb c b'Z')
    || (leb b'a' c && leb c b'z')
    || (leb b'0' c && leb c b'9')
    || (c == b'.')
    || (c == b'_')
    || (c == b'-')

-- `validProviderID`
unfoldable pub valid_provider_id : Regex
valid_provider_id = plus (one id_char)

abbrev pub none_listed : List Bytes → Bool
none_listed [] = true
none_listed (a ∷ as₁) = false

module _ (parse_url : Bytes → Result Bytes Url) where
  abbrev pub check_url : Url → Check AddressError
  check_url u = do
    fail_if (not (equal u.scheme (codes "http")) && not (equal u.scheme (codes "https"))) no_http
    fail_if (is_empty u.host) no_host

  -- `checkHTTPURL`
  unfoldable pub check_http_url : Bytes → Check AddressError
  unfolding equal
  check_http_url raw = wrap unparsed (parse_url raw) >>= check_url

  -- The address that is checked: the issuer, unless the keys have their own.
  abbrev pub address_of : Provider → Bytes
  address_of p = if not (is_empty p.jwks_uri) then p.jwks_uri else p.issuer

  -- `Provider.validate`
  unfoldable pub validate_provider : Provider → Check ProviderError
  unfolding check_http_url valid_provider_id matches_whole
  validate_provider p = do
    fail_if (is_empty p.id) id_empty
    fail_if (not (matches_whole valid_provider_id p.id)) (id_character p.id)
    fail_if (is_empty p.issuer && is_empty p.jwks_uri) (no_address p.id)
    fail_if (not (is_empty p.issuer) && not (is_empty p.jwks_uri)) (two_addresses p.id)
    fail_if (not (is_empty p.token_file) && is_empty p.jwks_uri) (token_without_jwks p.id)
    fail_if (p.allow_missing_aud && none_listed p.audiences) (missing_aud_alone p.id)
    check_all (λ aud. fail_if (is_empty aud) (audience_empty p.id)) p.audiences
    wrap (address_wrong p.id) (check_http_url (address_of p))

  unfoldable pub validate_from : ℕ → List Bytes → List Provider → Check ConfigError
  unfolding validate_provider contains
  validate_from i seen [] = ok tt
  validate_from i seen (p ∷ ps) =
      wrap (provider_wrong i) (validate_provider p)
      >> (fail_if (contains seen p.id) (id_used i p.id) >> validate_from (i + 1) (p.id ∷ seen) ps)

  abbrev pub validate_providers : List Provider → Check ConfigError
  validate_providers [] = err no_providers
  validate_providers (p ∷ ps) = validate_from 0 [] (p ∷ ps)

  -- `Config.Validate`
  unfoldable pub validate_config : Config → Check ConfigError
  unfolding validate_from
  validate_config c = validate_providers c.providers
