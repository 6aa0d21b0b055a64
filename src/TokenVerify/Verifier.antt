-- ===== src/TokenVerify/Verifier.antt =====
-- `Verifier.Verify` of internal/token/verify/verify.go, and cache.go. The LRU cache of golang-lru is the
-- record `Cache`, over any state `C`; a finder of keys is its `Lookup`, and `provider` gives the
-- provider to which a key points.
pub mod Spec
pub mod Sound
pub mod Earned
pub mod Cached
pub mod Examples
use qubership_authz_agent.Base.Int.{ℤ, ◌+ℤ◌, ltb_ℤ}
use qubership_authz_agent.Base.{
  ℕ, Bytes, Bool, true, false, Option, none, some, codes, not, Result, ok, err, Check, fail_if,
  ◌>>◌, ◌>>=◌, if◌then◌else◌,
}
use qubership_authz_agent.TokenKeys.Signing.{Jwk, allows}
use qubership_authz_agent.TokenKeys.{Key}
use qubership_authz_agent.TokenVerify.Claims.{
  check_times, check_audience, decode_claims, standard_of, string_claim,
}
use qubership_authz_agent.TokenVerify.Header.{read_header}
use qubership_authz_agent.TokenVerify.{
  Code, alg_not_allowed, kid_unknown, signature_invalid, RawMap, Provider, Token, Outside,
}

pub record Cache (C T : Type 0) : Type 0 where
  pub get : Bytes → C → Option T × C
  pub remove : Bytes → C → C
  pub add : Bytes → T → C → C

abbrev pub or_fail {ℓ} : {A : Type ℓ} → Code → Option A → Result Code A
or_fail code none = err code
or_fail code (some a) = ok a

module _ {J F : Type 0} (lib : Outside J F) (jwk : Jwk J) (bit_len : ℕ → ℕ)
    (provider : Bytes → Provider) where
  -- The token that `check` builds.
  abbrev pub token_of : Bytes → Bytes → Key J → Bytes → RawMap → ℤ → Token J
  token_of raw kid key payload claims expiry = record {
    raw = raw;
    payload = payload;
    claims = claims;
    standard = standard_of lib claims;
    provider_id = key.provider;
    key_id = kid;
    issuer = string_claim lib claims (codes "iss");
    expiry = expiry;
    key = key.jwk;
  }

  -- What follows the lookup of the key.
  unfoldable pub check_with : Bytes → Bytes → Bytes → Key J → ℤ → ℤ → Result Code (Token J)
  unfolding allows check_times check_audience decode_claims
  check_with raw alg kid key now leeway = do
    fail_if (not (allows jwk bit_len key alg)) alg_not_allowed
    payload ← or_fail signature_invalid (lib.verify_signature raw alg key.jwk)
    claims ← decode_claims lib payload
    check_audience lib claims (provider key.provider)
    expiry ← check_times lib claims now leeway
    ok (token_of raw kid key payload claims expiry)

  module _ (lookup : Bytes → Option (Key J)) (leeway : ℤ) where
    -- `check`, but for the cache
    unfoldable pub check_token : Bytes → ℤ → Result Code (Token J)
    unfolding check_with read_header
    check_token raw now = do
      (alg, kid) ← read_header lib raw
      key ← or_fail kid_unknown (lookup kid)
      check_with raw alg kid key now leeway

    -- `Options.Admit`, where it is set
    abbrev pub admitted : Option (Token J → Option Code) → Token J → Result Code (Token J)
    admitted none tok = ok tok
    admitted (some admit) tok = elim (admit tok) [ none ↦ ok tok | some code ↦ err code ]

    -- A verifier without a cache.
    unfoldable pub verify_uncached :
        Option (Token J → Option Code) → Bytes → ℤ → Result Code (Token J)
    unfolding check_token
    verify_uncached admit raw now = check_token raw now >>= λ tok. admitted admit tok

    module _ {C : Type 0} (cache : Cache C (Token J)) where
      -- `cache.get`, of what the LRU cache gives: an expired token leaves the cache.
      abbrev pub unexpired : Bytes → ℤ → Option (Token J) × C → Option (Token J) × C
      unexpired d now (none, c) = (none, c)
      unexpired d now (some tok, c) =
          if not (ltb_ℤ now (tok.expiry +ℤ leeway)) then (none, cache.remove d c) else (some tok, c)

      abbrev pub current : Token J → Option (Key J) → Option (Token J)
      current tok none = none
      current tok (some key) = if not (lib.same_key key.jwk tok.key) then none else some tok

      abbrev pub published : Option (Token J) → Option (Token J)
      published none = none
      published (some tok) = current tok (lookup tok.key_id)

      -- `cached`, with a cache
      unfoldable pub cached : Bytes → ℤ → C → Option (Token J) × C
      cached d now c = let (tok, c') = unexpired d now (cache.get d c) in (published tok, c')

      abbrev pub kept : Bytes → C → Result Code (Token J) → Result Code (Token J) × C
      kept d c (err e) = (err e, c)
      kept d c (ok tok) = (ok tok, cache.add d tok c)

      abbrev pub found_or_checked : Bytes → ℤ → Option (Token J) × C → Result Code (Token J) × C
      found_or_checked raw now (some tok, c) = (ok tok, c)
      found_or_checked raw now (none, c) = kept (lib.digest raw) c (check_token raw now)

      -- `Verify`, with a cache
      unfoldable pub verify :
          Option (Token J → Option Code) → Bytes → ℤ → C → Result Code (Token J) × C
      unfolding cached check_token
      verify admit raw now c =
          let (r, c') = found_or_checked raw now (cached (lib.digest raw) now c) in
          (r >>= (λ tok. admitted admit tok), c')
