-- ===== src/TokenKeys/Served/Examples.antt =====
-- The theorems on documents and on the served keys at a concrete input: one provider, whose document lists one
-- key twice.
use qubership_authz_agent.Http.{Response}
use qubership_authz_agent.Base.{
  Bytes, true, false, [], ◌∷◌, none, some, codes, equal, contains, Result, ok, err, ◌≡◌, refl,
}
use qubership_authz_agent.TokenKeys.Config.{Provider, Config, Url, validate_config}
use qubership_authz_agent.TokenKeys.Document.Parsed.{Gives, parse_jwks-Gives}
use qubership_authz_agent.TokenKeys.Document.{Remote, Failure, parse_jwks, fetch}
use qubership_authz_agent.TokenKeys.Served.{IsVouched, lookup-IsVouched}
use qubership_authz_agent.TokenKeys.Signing.{Jwk}
use qubership_authz_agent.TokenKeys.Startup.{again, cut_waiting, load, run}
use qubership_authz_agent.TokenKeys.{Key, KeySet, lookup}

abbrev curve_keys : Jwk Bytes
curve_keys = record {
  parse = λ raw. some raw;
  key_id = λ k. codes "k1";
  usage = λ k. none;
  key_type = λ k. codes "EC";
  algorithm = λ k. none;
  public_of = λ k. some k;
  rsa = λ k. none;
  crv = λ k. some (codes "P-384");
}

abbrev answer : Response
answer = record { status_code = 200; body = ok (codes "{}") }

abbrev source : Remote Bytes
source = record {
  read_file = λ path. err [];
  trim_space = λ s. s;
  new_request = λ url. ok tt;
  send = λ url headers. ok answer;
  jwks_uri = λ raw. err [];
  keys_member = λ raw. ok (some (codes "[]"));
  elements = λ raw. ok (codes "e" ∷ codes "e" ∷ []);
  thumbprint = λ k. ok k;
}

abbrev refused : Remote Bytes
refused = record source { send = λ url headers. err (codes "refused") }

Gives-example :
    Gives curve_keys
      (λ n. n)
      source
      (codes "idp")
      (codes "e" ∷ codes "e" ∷ [])
      (parse_jwks curve_keys (λ n. n) source (codes "idp") (codes "{}"))
Gives-example =
    parse_jwks-Gives curve_keys (λ n. n) source (codes "idp") (codes "{}") (codes "[]")
      (codes "e" ∷ codes "e" ∷ []) refl refl

abbrev provider : Provider
provider = record {
  id = codes "idp";
  issuer = [];
  jwks_uri = codes "https://idp";
  audiences = [];
  allow_missing_aud = false;
  ca_file = [];
  token_file = [];
}

abbrev config : Config
config = record { providers = provider ∷ [] }

abbrev parsed_url : Bytes → Result Bytes Url
parsed_url raw = ok (record { scheme = codes "https"; host = codes "idp" })

abbrev vouched : Key Bytes
vouched = record { provider = codes "idp"; id = codes "k1"; jwk = codes "e"; alg = [] }

abbrev loaded : KeySet Bytes
loaded = record {
  fetchers = codes "idp" ∷ [];
  current = record {
    by_kid = (codes "k1", vouched) ∷ [];
    by_provider = (codes "idp", vouched ∷ []) ∷ [];
  };
}

abbrev no_text : Failure → Bytes
no_text e = []

IsVouched-lookup_example :
    (vouched.id ≡ codes "k1") × IsVouched curve_keys (λ n. n) config.providers vouched
unfolding load run validate_config equal contains fetch lookup
IsVouched-lookup_example =
    lookup-IsVouched curve_keys (λ n. n) (λ k p e. refl) parsed_url (λ path. err []) (λ pem. true)
      no_text config (λ id. again refused (cut_waiting source)) ((λ id. refused) ∷ []) loaded
      (codes "k1") vouched refl refl
