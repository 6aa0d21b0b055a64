-- ===== src/TokenKeys/Examples.antt =====
-- The theorems on reloads and signing keys at concrete inputs: two providers, one of which cannot be
-- reached, and a key on a NIST curve.
use qubership_authz_agent.Base.{
  some, none, contains, ℕ, Bytes, List, [], ◌∷◌, Result, ok, err, codes, equal, refl, if◌then◌else◌,
}
use qubership_authz_agent.TokenKeys.Allowed.{IsSigningKey, signing_key-IsSigningKey}
use qubership_authz_agent.TokenKeys.Signing.{Jwk, signing_key}
use qubership_authz_agent.TokenKeys.Reload.{IsReload, refresh-IsReload}
use qubership_authz_agent.TokenKeys.{Key, FetchError, failed, KeySet, refresh}

abbrev key : Bytes → Bytes → Key ℕ
key provider kid = record { provider = provider; id = kid; jwk = 7; alg = codes "RS256" }

abbrev old_keys : List (Bytes × List (Key ℕ))
old_keys =
    (codes "a", key (codes "a") (codes "k1") ∷ [])
    ∷ (codes "b", key (codes "b") (codes "k2") ∷ [])
    ∷ []

abbrev loaded : KeySet ℕ
loaded = record {
  fetchers = codes "a" ∷ codes "b" ∷ [];
  current = record {
    by_kid =
        (codes "k1", key (codes "a") (codes "k1"))
        ∷ (codes "k2", key (codes "b") (codes "k2"))
        ∷ [];
    by_provider = old_keys;
  };
}

unfoldable fetch_one : Bytes → Result FetchError (List (Key ℕ))
unfolding equal
fetch_one id =
    if equal id (codes "a")
    then ok (key (codes "a") (codes "k3") ∷ [])
    else err (failed (codes "timeout"))

IsReload-example : IsReload fetch_one loaded (refresh fetch_one loaded)
IsReload-example = refresh-IsReload fetch_one loaded

-- The documents "rsa", "ec" and others, as keys: a name is a key.
abbrev named_keys : Jwk Bytes
named_keys = record {
  parse = λ raw. some raw;
  key_id = λ k. codes "k1";
  usage = λ k. some (codes "sig");
  key_type = λ k. codes "EC";
  algorithm = λ k. none;
  public_of = λ k. some k;
  rsa = λ k. none;
  crv = λ k. some (codes "P-384");
}

abbrev ec_key : Key Bytes
ec_key = record { provider = []; id = codes "k1"; jwk = codes "ec"; alg = [] }

IsSigningKey-example : IsSigningKey named_keys (λ n. n) ec_key
unfolding signing_key contains equal
IsSigningKey-example =
    signing_key-IsSigningKey named_keys (λ n. n) (λ k p e. refl) (codes "ec") ec_key refl
