-- ===== src/TokenKeys/Signing.antt =====
-- Which keys of a JWKS are signing keys, and the algorithms a key allows: signingKey, unusableKey and
-- weakRSA of internal/token/keys/fetch.go, Key.Allows and AcceptsAlgorithm of keys.go. A key of package
-- jwk is a value of any type `J`, read by the record `Jwk`; a big integer is a natural number.
use qubership_authz_agent.Base.{
  ℕ, Bytes, Bool, true, false, List, [], ◌∷◌, Option, none, some, codes, equal, contains, is_empty,
  not, ◌&&◌, ◌||◌, ltb, Result, ok, err, Check, fail_if, ◌>>◌, ◌>>=◌, if◌then◌else◌,
}
use qubership_authz_agent.PolicyStore.Maps.{find}
use qubership_authz_agent.TokenKeys.{Key}

-- `rsa` is the modulus and the exponent of an RSA public key, `crv` the curve of an EC or OKP one.
pub record Jwk (J : Type 0) : Type 0 where
  pub parse : Bytes → Option J
  pub key_id : J → Bytes
  pub usage : J → Option Bytes
  pub key_type : J → Bytes
  pub algorithm : J → Option Bytes
  pub public_of : J → Option J
  pub rsa : J → Option (ℕ × ℕ)
  pub crv : J → Option Bytes

pub algorithm_key_type : List (Bytes × Bytes)
algorithm_key_type =
    (codes "RS256", codes "RSA")
    ∷ (codes "RS384", codes "RSA")
    ∷ (codes "RS512", codes "RSA")
    ∷ (codes "PS256", codes "RSA")
    ∷ (codes "PS384", codes "RSA")
    ∷ (codes "PS512", codes "RSA")
    ∷ (codes "ES256", codes "EC")
    ∷ (codes "ES384", codes "EC")
    ∷ (codes "ES512", codes "EC")
    ∷ (codes "EdDSA", codes "OKP")
    ∷ []

pub algorithm_curve : List (Bytes × Bytes)
algorithm_curve =
    (codes "ES256", codes "P-256")
    ∷ (codes "ES384", codes "P-384")
    ∷ (codes "ES512", codes "P-521")
    ∷ (codes "EdDSA", codes "Ed25519")
    ∷ []

-- An index of a map of strings: the empty string for a missing key.
abbrev pub or_empty : Option Bytes → Bytes
or_empty none = []
or_empty (some v) = v

unfoldable pub has_curve : Bytes → List (Bytes × Bytes) → Bool
has_curve c [] = false
has_curve c ((a, d) ∷ m) = equal d c || has_curve c m

unfoldable pub accepted_curve : Bytes → Bool
unfolding has_curve algorithm_curve
accepted_curve c = has_curve c algorithm_curve

pub data Skipped : Type 0 where
  unparsable no_kid no_public_key : Skipped
  other_use other_type other_algorithm other_curve wrong_curve : Bytes → Skipped
  short_modulus small_exponent : ℕ → Skipped

abbrev pub curve_test : Option Bytes → Bytes → Bool
curve_test none curve = true
curve_test (some want) curve = equal want curve

unfoldable pub accepts_algorithm : Bytes → Bool
unfolding find algorithm_key_type
accepts_algorithm alg = elim (find alg algorithm_key_type) [ none ↦ false | some t ↦ true ]

module _ {J : Type 0} (jwk : Jwk J) (bit_len : ℕ → ℕ) where
  unfoldable pub curve_of : J → Bytes
  curve_of k = or_empty (jwk.crv k)

  -- `weakRSA`
  unfoldable pub weak_rsa : ℕ × ℕ → Check Skipped
  weak_rsa (n, e) = do
    fail_if (ltb (bit_len n) 2048) (short_modulus (bit_len n))
    fail_if (ltb e 3) (small_exponent e)

  abbrev pub curve_check : J → Bytes → Check Skipped
  curve_check k alg =
      fail_if (not (accepted_curve (curve_of k))) (other_curve (curve_of k))
      >> fail_if (not (curve_test (find alg algorithm_curve) (curve_of k))) (wrong_curve alg)

  abbrev pub usable_by : J → Bytes → Option (ℕ × ℕ) → Check Skipped
  usable_by k alg (some r) = weak_rsa r
  usable_by k alg none = curve_check k alg

  -- `unusableKey`
  unfoldable pub unusable_key : J → Bytes → Check Skipped
  unfolding weak_rsa curve_of accepted_curve find
  unusable_key k alg = usable_by k alg (jwk.rsa k)

  -- The algorithm that a key declares, checked against its type.
  abbrev pub declared : Bytes → Option Bytes → Result Skipped Bytes
  declared kty none = ok []
  declared kty (some alg) =
      fail_if (not (equal (or_empty (find alg algorithm_key_type)) kty)) (other_algorithm alg)
      >> ok alg

  abbrev pub use_check : Option Bytes → Check Skipped
  use_check none = ok tt
  use_check (some u) = fail_if (not (equal u (codes "sig"))) (other_use u)

  abbrev pub or_skip : Option J → Skipped → Result Skipped J
  or_skip none e = err e
  or_skip (some k) e = ok k

  abbrev pub key_types : List Bytes
  key_types = codes "RSA" ∷ codes "EC" ∷ codes "OKP" ∷ []

  abbrev pub finish : J → Bytes → J → Result Skipped (Key J)
  finish k alg public =
      unusable_key public alg
      >> ok (record { provider = []; id = jwk.key_id k; jwk = public; alg = alg })

  abbrev pub with_algorithm : J → Bytes → Result Skipped (Key J)
  with_algorithm k alg = or_skip (jwk.public_of k) no_public_key >>= λ public. finish k alg public

  abbrev pub with_key : J → Result Skipped (Key J)
  with_key k =
      fail_if (is_empty (jwk.key_id k)) no_kid
      >> (use_check (jwk.usage k)
          >> (fail_if (not (contains key_types (jwk.key_type k))) (other_type (jwk.key_type k))
              >> (declared (jwk.key_type k) (jwk.algorithm k) >>= λ alg. with_algorithm k alg)))

  -- `signingKey`
  unfoldable pub signing_key : Bytes → Result Skipped (Key J)
  unfolding unusable_key find algorithm_key_type
  signing_key raw = or_skip (jwk.parse raw) unparsable >>= λ k. with_key k

  -- `Key.Allows`
  unfoldable pub allows : Key J → Bytes → Bool
  unfolding find algorithm_key_type algorithm_curve curve_of
  allows k alg =
      if not (is_empty k.alg)
      then equal alg k.alg
      else (equal (or_empty (find alg algorithm_key_type)) (jwk.key_type k.jwk)
          && curve_test (find alg algorithm_curve) (curve_of k.jwk))
