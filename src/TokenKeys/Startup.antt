-- ===== src/TokenKeys/Startup.antt =====
-- Load, fetchWithRetry, withDefaults and Run of internal/token/keys/keys.go with newFetcher of fetch.go, and
-- ReadConfig and ParseConfig of config.go. The fetches of a provider until its context ends are an `Attempts`;
-- the context of `Load` ends, so there are finitely many.
use qubership_authz_agent.Base.Int.{ℤ, pos, ltb_ℤ}
use qubership_authz_agent.Base.{
  ℕ, Bytes, Bool, List, [], ◌∷◌, Option, none, some, equal, is_empty, not, Result, ok, err, Check,
  fail_if, wrap, check_all, ◌>>◌, ◌>>=◌, if◌then◌else◌,
}
use qubership_authz_agent.PolicyStore.Maps.{put}
use qubership_authz_agent.TokenKeys.Config.{Provider, Config, Url, ConfigError, validate_config}
use qubership_authz_agent.TokenKeys.Document.{Remote, Failure, fetch_error, fetch}
use qubership_authz_agent.TokenKeys.Signing.{Jwk}
use qubership_authz_agent.TokenKeys.{
  Key, FetchError, failed, KeyError, KeySet, new_snapshot, refresh,
}

pub record Options : Type 0 where
  pub http_timeout : ℤ
  pub startup_timeout : ℤ
  pub refresh_interval : ℤ
  pub first_retry_delay : ℤ

abbrev pub or_default : ℤ → ℤ → ℤ
or_default default d = if not (ltb_ℤ (pos 0) d) then default else d

-- `withDefaults`
unfoldable pub with_defaults : Options → Options
with_defaults o = record {
  http_timeout = or_default (pos 5000000000) o.http_timeout;
  startup_timeout = or_default (pos 60000000000) o.startup_timeout;
  refresh_interval = or_default (pos 86400000000000) o.refresh_interval;
  first_retry_delay = or_default (pos 1000000000) o.first_retry_delay;
}

pub data ParseError : Type 0 where
  unread : Bytes → ParseError
  undecodable : Bytes → ParseError
  data_behind : ParseError
  invalid : ConfigError → ParseError

-- `decode` gives the configuration that stands first in a text, and whether the text ends there.
module _ (parse_url : Bytes → Result Bytes Url)
    (decode : Bytes → Result Bytes (Config × Bool)) where
  -- `ParseConfig`
  unfoldable pub parse_config : Bytes → Result ParseError Config
  unfolding validate_config
  parse_config raw = do
    (cfg, at_end) ← wrap undecodable (decode raw)
    fail_if (not at_end) data_behind
    wrap invalid (validate_config parse_url cfg)
    ok cfg

  -- `ReadConfig`, by what reading the file gives
  abbrev pub read_config : Result Bytes Bytes → Result ParseError Config
  read_config file = wrap unread file >>= parse_config

-- What the fetches of a provider find outside: the context ends in the last fetch, or in the pause behind it.
pub data Attempts (R : Type 0) : Type 0 where
  cut_short : R → Attempts R
  cut_waiting : R → Attempts R
  again : R → Attempts R → Attempts R

abbrev pub or_last : {A : Type 0} → Option Failure → Result Failure A → Result Failure A
or_last none r = r
or_last (some last) (ok a) = ok a
or_last (some last) (err e) = err last

abbrev pub or_again :
    {A : Type 0} → (Failure → Result Failure A) → Result Failure A → Result Failure A
or_again next (ok a) = ok a
or_again next (err e) = next e

-- `fetchWithRetry`, with the error of the last attempt that ended on its own
unfoldable pub fetch_with_retry :
    {J : Type 0}
    → Jwk J
    → (ℕ → ℕ)
    → Provider
    → Option Failure
    → Attempts (Remote J)
    → Result Failure (List (Key J))
unfolding fetch
fetch_with_retry jwk bit_len p last (cut_short r) = or_last last (fetch jwk bit_len r p)
fetch_with_retry jwk bit_len p last (cut_waiting r) = fetch jwk bit_len r p
fetch_with_retry jwk bit_len p last (again r rest) =
    or_again (λ e. fetch_with_retry jwk bit_len p (some e) rest) (fetch jwk bit_len r p)

pub data LoadError : Type 0 where
  config_invalid : ConfigError → LoadError
  ca_unread : Bytes → Bytes → LoadError
  ca_empty : Bytes → Bytes → LoadError
  unfetched : List (Bytes × Failure) → LoadError
  clash : KeyError → LoadError

abbrev pub provider_ids : List Provider → List Bytes
provider_ids [] = []
provider_ids (p ∷ ps) = p.id ∷ provider_ids ps

abbrev pub Fetched : Type 0 → Type 0
Fetched J = List (Bytes × Result Failure (List (Key J)))

abbrev pub unless_unfetched : List (Bytes × Failure) → Check LoadError
unless_unfetched [] = ok tt
unless_unfetched (f ∷ fs) = err (unfetched (f ∷ fs))

-- `newFetcher`
abbrev pub new_fetcher : (Bytes → Result Bytes Bytes) → (Bytes → Bool) → Provider → Check LoadError
new_fetcher read_file has_certs p =
    if is_empty p.ca_file
    then ok tt
    else (wrap (ca_unread p.id) (read_file p.ca_file) >>= λ pem.
        fail_if (not (has_certs pem)) (ca_empty p.id p.ca_file))

module _ {J : Type 0} where
  abbrev pub unfetched_of : Fetched J → List (Bytes × Failure)
  unfetched_of [] = []
  unfetched_of ((id, ok keys) ∷ rs) = unfetched_of rs
  unfetched_of ((id, err e) ∷ rs) = (id, e) ∷ unfetched_of rs

  abbrev pub by_provider : Fetched J → List (Bytes × List (Key J)) → List (Bytes × List (Key J))
  by_provider [] m = m
  by_provider ((id, ok keys) ∷ rs) m = by_provider rs (put id keys m)
  by_provider ((id, err e) ∷ rs) m = by_provider rs m

  -- The part of `Load` behind the fetches
  unfoldable pub load_fetched : List Bytes → Fetched J → Result LoadError (KeySet J)
  unfolding new_snapshot put
  load_fetched ids rs = do
    unless_unfetched (unfetched_of rs)
    snap ← wrap clash (new_snapshot ids (by_provider rs []))
    ok (record { fetchers = ids; current = snap })

module _ {J : Type 0} (jwk : Jwk J) (bit_len : ℕ → ℕ) where
  abbrev pub fetched_all : (Bytes → Attempts (Remote J)) → List Provider → Fetched J
  fetched_all attempts [] = []
  fetched_all attempts (p ∷ ps) =
      (p.id, fetch_with_retry jwk bit_len p none (attempts p.id)) ∷ fetched_all attempts ps

  -- `Load`, by what the fetches of each provider find
  unfoldable pub load :
      (Bytes → Result Bytes Url)
      → (Bytes → Result Bytes Bytes)
      → (Bytes → Bool)
      → Config
      → (Bytes → Attempts (Remote J))
      → Result LoadError (KeySet J)
  unfolding validate_config fetch_with_retry load_fetched
  load parse_url read_file has_certs cfg attempts = do
    wrap config_invalid (validate_config parse_url cfg)
    check_all (new_fetcher read_file has_certs) cfg.providers
    load_fetched (provider_ids cfg.providers) (fetched_all attempts cfg.providers)

abbrev pub provider_named : Bytes → List Provider → Option Provider
provider_named id [] = none
provider_named id (p ∷ ps) =
    let rest = provider_named id ps in if equal id p.id then some p else rest

module _ {J : Type 0} (jwk : Jwk J) (bit_len : ℕ → ℕ) (text : Failure → Bytes) where
  abbrev pub fetch_of : Remote J → Option Provider → Result FetchError (List (Key J))
  fetch_of remote none = err (failed [])
  fetch_of remote (some p) = wrap (fetch_error text) (fetch jwk bit_len remote p)

  -- `Run`, over what each reload finds outside, by the id of the provider
  unfoldable pub run : List Provider → List (Bytes → Remote J) → KeySet J → KeySet J
  unfolding refresh fetch equal
  run providers [] s = s
  run providers (remote ∷ remotes) s =
      run providers remotes (refresh (λ id. fetch_of (remote id) (provider_named id providers)) s).0
