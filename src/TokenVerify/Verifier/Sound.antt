-- ===== src/TokenVerify/Verifier/Sound.antt =====
-- What a verified token is: the algorithm, the key, the signature and the payload.
use qubership_authz_agent.Base.Int.{ℤ, ◌+ℤ◌, ◌≤ℤ◌, ◌<ℤ◌}
use qubership_authz_agent.Base.{
  ℕ, Bytes, Bool, true, false, Option, none, some, codes, not-eq-false_iff, ok, ok_inj, fail_if_iff,
  >>=-eq-ok, some_inj, ◌≡◌, ◌↔◌, sym, ap, subst, arith,
}
use qubership_authz_agent.TokenKeys.Signing.{Jwk, allows}
use qubership_authz_agent.TokenKeys.{Key}
use qubership_authz_agent.TokenVerify.Claims.{
  numeric_date, check_times, check_audience, decode_claims, whole_object,
}
use qubership_authz_agent.TokenVerify.Header.{read_header}
use qubership_authz_agent.TokenVerify.Verifier.{or_fail, token_of, check_with, check_token}
use qubership_authz_agent.TokenVerify.{Code, RawMap, Provider, Token, Outside}
use qubership_authz_agent.TokenVerify.Verifier.Spec.{
  IsTimely, IsTimely-later, times_iff, IsFor, audience_for_iff,
}
use qubership_authz_agent.TokenVerify.Claims.{whole_object}

module _ {J F : Type 0} (lib : Outside J F) where
  whole_object_iff :
      (o : Option (Option RawMap) × Bool) (claims : RawMap)
      → (whole_object lib o ≡ ok claims) ↔ (o ≡ (some (some claims), true))
  whole_object_iff (none, b) claims = (λ h. cc, λ h. cc (ap (λ x. x.0) h))
  whole_object_iff (some none, b) claims = (λ h. cc, λ h. cc (ap (λ x. x.0) h))
  whole_object_iff (some (some m), true) claims = (
    λ h. ap (λ x. (some (some x), true)) (ground (arith, h)),
    λ h. ap ok (some_inj (some_inj (ap (λ x. x.0) h))),
  )
  whole_object_iff (some (some m), false) claims = (λ h. cc, λ h. cc (ap (λ x. x.1) h))

  or_fail_iff {ℓ} :
      {A : Type ℓ} (code : Code) (o : Option A) (a : A) → (or_fail code o ≡ ok a) ↔ (o ≡ some a)
  or_fail_iff code none a = (λ h. cc, λ h. cc)
  or_fail_iff code (some b) a = (λ h. cc, λ h. cc)

  module _ (jwk : Jwk J) (bit_len : ℕ → ℕ) (provider : Bytes → Provider) where
    -- A token that the key verifies: the algorithm is allowed, the signature is the key's, the payload is
    -- an object whose audience and dates are good, and the token is built from these.
    pub record IsVerified (raw alg kid : Bytes) (key : Key J) (now leeway : ℤ) (tok : Token J)
        : Type 0 where
      pub payload : Bytes
      pub claims : RawMap
      pub expiry : ℤ
      pub allowed : allows jwk bit_len key alg ≡ true
      pub signed : lib.verify_signature raw alg key.jwk ≡ some payload
      pub decoded : lib.decode_stream payload ≡ (some (some claims), true)
      pub addressed : IsFor lib claims (provider key.provider)
      pub timely :
          IsTimely
            (numeric_date lib claims (codes "exp"))
            (numeric_date lib claims (codes "nbf"))
            (numeric_date lib claims (codes "iat"))
            now
            leeway
            expiry
      pub built : tok ≡ token_of lib jwk bit_len provider raw kid key payload claims expiry

    pub check_with_iff :
        (raw alg kid : Bytes) (key : Key J) (now leeway : ℤ) (tok : Token J)
        → (check_with lib jwk bit_len provider raw alg kid key now leeway ≡ ok tok)
          ↔ IsVerified raw alg kid key now leeway tok
    unfolding check_with decode_claims check_audience check_times
    check_with_iff raw alg kid key now leeway tok = (sound, complete)
      where
        sound :
            check_with lib jwk bit_len provider raw alg kid key now leeway ≡ ok tok
            → IsVerified raw alg kid key now leeway tok
        sound h =
            let (_, pass, h₁) = >>=-eq-ok _ _ h in
            let (payload, sig, h₂) = >>=-eq-ok _ _ h₁ in
            let (claims, dec, h₃) = >>=-eq-ok _ _ h₂ in
            let (_, aud, h₄) = >>=-eq-ok _ _ h₃ in
            let (expiry, dates, h₅) = >>=-eq-ok _ _ h₄ in
            record {
              payload = payload;
              claims = claims;
              expiry = expiry;
              allowed = (not-eq-false_iff _).0 ((fail_if_iff _ _).0 pass);
              signed = (or_fail_iff _ _ _).0 sig;
              decoded = (whole_object_iff _ _).0 dec;
              addressed = (audience_for_iff lib _ _ _).0 aud;
              timely = (times_iff _ _ _ _ _ _).0 dates;
              built = sym (ok_inj h₅);
            }

        complete :
            IsVerified raw alg kid key now leeway tok
            → check_with lib jwk bit_len provider raw alg kid key now leeway ≡ ok tok
        complete v = rw (
          v.allowed,
          v.signed,
          (whole_object_iff _ _).1 v.decoded,
          (audience_for_iff lib _ _ _).1 v.addressed,
          (times_iff _ _ _ _ _ _).1 v.timely,
          v.built,
        )

    -- A token that was verified stays so until it expires.
    pub IsVerified-later :
        (raw alg kid : Bytes) (key : Key J) (t now leeway : ℤ) (tok : Token J)
        → t ≤ℤ now
        → now <ℤ tok.expiry +ℤ leeway
        → IsVerified raw alg kid key t leeway tok
        → IsVerified raw alg kid key now leeway tok
    IsVerified-later raw alg kid key t now leeway tok l u v = record {
      payload = v.payload;
      claims = v.claims;
      expiry = v.expiry;
      allowed = v.allowed;
      signed = v.signed;
      decoded = v.decoded;
      addressed = v.addressed;
      timely =
          IsTimely-later t now leeway v.expiry l
            (subst (λ e. now <ℤ e +ℤ leeway) (ap (λ x. x.expiry) v.built) u) v.timely;
      built = v.built;
    }

    module _ (lookup : Bytes → Option (Key J)) where
      -- The header can be read, and the key which it names is known and verifies the token.
      abbrev pub IsAccepted : ℤ → Bytes → ℤ → Token J → Type 0
      IsAccepted leeway raw now tok =
          (alg : Bytes) × (kid : Bytes) × (key : Key J) × (read_header lib raw ≡ ok (alg, kid))
          × (lookup kid ≡ some key)
          × IsVerified raw alg kid key now leeway tok

      -- `check` gives a token exactly when its header can be read, the key that the header names is known and
      -- allows the algorithm, the signature is that key's, the payload is one JSON object whose audience
      -- the provider accepts, and the dates are good: not expired, begun and issued in the past, up to
      -- the leeway; the token is then built from these parts.
      pub check_token_iff :
          (leeway : ℤ) (raw : Bytes) (now : ℤ) (tok : Token J)
          → (check_token lib jwk bit_len provider lookup leeway raw now ≡ ok tok)
            ↔ IsAccepted leeway raw now tok
      unfolding check_token
      check_token_iff leeway raw now tok = (
        λ h.
            let ((alg, kid), head, h₁) = >>=-eq-ok {A = Bytes × Bytes} _ _ h in
            let (key, found, h₂) = >>=-eq-ok _ _ h₁ in
            (alg, kid, key, head, (or_fail_iff _ _ _).0 found, (check_with_iff _ _ _ _ _ _ _).0 h₂),
        λ (alg, kid, key, head, found, v).
            rw (head, found, (check_with_iff raw alg kid key now leeway tok).1 v),
      )
