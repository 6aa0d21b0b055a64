-- ===== src/TokenKeys/Config/Examples.antt =====
-- The theorem on configurations at a concrete one, of one provider.
use qubership_authz_agent.Base.{
  Bytes, true, [], ◌∷◌, codes, equal, Result, ok, All, IsDistinct, map, ◌≢◌, refl,
}
use qubership_authz_agent.TokenKeys.Config.Valid.{IsProvider, validate_config_iff}
use qubership_authz_agent.TokenKeys.Config.{Provider, Config, Url, validate_config}

abbrev parsed : Bytes → Result Bytes Url
parsed raw = ok (record { scheme = codes "https"; host = codes "idp" })

abbrev provider : Provider
provider = record {
  id = codes "idp-1";
  issuer = codes "https://idp";
  jwks_uri = [];
  audiences = codes "authz" ∷ [];
  allow_missing_aud = true;
  ca_file = [];
  token_file = [];
}

abbrev config : Config
config = record { providers = provider ∷ [] }

config-example :
    (config.providers ≢ [])
    × All (IsProvider parsed) config.providers
    × IsDistinct (map (λ p. p.id) config.providers)
unfolding validate_config equal
config-example = (validate_config_iff parsed config).0 refl
