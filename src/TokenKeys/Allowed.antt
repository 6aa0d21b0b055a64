-- ===== src/TokenKeys/Allowed.antt =====
-- What a signing key vouches for: the algorithms it allows, their key type and curve, its strength.
use qubership_authz_agent.Base.{
  ℕ, ◌≤◌, Bytes, Bool, true, false, [], Option, none, some, equal, equal_iff, contains,
  contains_iff, is_empty, is_empty-false_iff, not, ◌&&◌, ltb, ok, Passes, fail_if, ◌>>◌, ◌>>=◌,
  >>=-eq-ok, >>_iff, fail_if_iff, some_inj, In, ◌≡◌, ◌≢◌, inl, inr, refl, sym, ap, subst, ◌∙◌,
  arith, Bool-cases, if◌then◌else◌,
}
use qubership_authz_agent.PolicyStore.Maps.{find}
use qubership_authz_agent.TokenKeys.Signing.{
  Jwk, unparsable, no_kid, no_public_key, other_type, algorithm_key_type, algorithm_curve, or_empty,
  curve_test, curve_of, weak_rsa, unusable_key, declared, use_check, or_skip, usable_by,
  other_algorithm, accepted_curve, short_modulus, small_exponent, other_curve, wrong_curve,
  key_types, finish, with_algorithm, with_key, signing_key, allows, accepts_algorithm,
}
use qubership_authz_agent.TokenKeys.{Key}

module _ {J : Type 0} (jwk : Jwk J) (bit_len : ℕ → ℕ) where
  -- The algorithm is listed for the type of the key, and for the curve of a key that is not RSA.
  abbrev pub Fits : J → Bytes → Type 0
  Fits k alg =
      (find alg algorithm_key_type ≡ some (jwk.key_type k))
      × (jwk.rsa k ≡ none
          → (c : Bytes) → find alg algorithm_curve ≡ some c
          → c ≡ curve_of jwk bit_len k)

  -- A key with a kid, strong where it is RSA, that allows only algorithms that fit it.
  pub record IsSigningKey (k : Key J) : Type 0 where
    pub named : k.id ≢ []
    pub strong : (n e : ℕ) → jwk.rsa k.jwk ≡ some (n, e) → (2048 ≤ bit_len n) × (3 ≤ e)
    pub fitting : (alg : Bytes) → allows jwk bit_len k alg ≡ true → Fits k.jwk alg
    pub accepted : (alg : Bytes) → allows jwk bit_len k alg ≡ true → accepts_algorithm alg ≡ true

  listed-accepts :
      (alg t : Bytes) → find alg algorithm_key_type ≡ some t → accepts_algorithm alg ≡ true
  unfolding accepts_algorithm
  listed-accepts alg t e = subst (λ o. elim o [ none ↦ false | some x ↦ true ] ≡ true) (sym e) refl

  or_empty-some : (o : Option Bytes) (t : Bytes) → t ≢ [] → or_empty o ≡ t → o ≡ some t
  or_empty-some none t h e = absurd (h (sym e))
  or_empty-some (some v) t h e = ap some e

  curve_test-some :
      (o : Option Bytes) (curve c : Bytes) → curve_test o curve ≡ true → o ≡ some c → c ≡ curve
  curve_test-some none curve c h e = cc
  curve_test-some (some want) curve c h e = sym (some_inj e) ∙ (equal_iff want curve).0 h

  usable-strong :
      (p : J) (alg : Bytes)
      → Passes (unusable_key jwk bit_len p alg)
      → (n e : ℕ) → jwk.rsa p ≡ some (n, e)
      → (2048 ≤ bit_len n) × (3 ≤ e)
  unfolding unusable_key weak_rsa
  usable-strong p alg h n e r =
      let h' = subst (λ o. Passes (usable_by jwk bit_len p alg o)) r h in
      let (a, b) =
        (>>_iff (fail_if (ltb (bit_len n) 2048) (short_modulus (bit_len n)))
            (fail_if (ltb e 3) (small_exponent e))).0
          h' in
      (ground arith, ground arith)

  usable-curve :
      (p : J) (alg : Bytes)
      → Passes (unusable_key jwk bit_len p alg)
      → jwk.rsa p ≡ none
      → curve_test (find alg algorithm_curve) (curve_of jwk bit_len p) ≡ true
  unfolding unusable_key
  usable-curve p alg h r =
      let h' = subst (λ o. Passes (usable_by jwk bit_len p alg o)) r h in
      let (_, b) =
        (>>_iff
            (fail_if (not (accepted_curve (curve_of jwk bit_len p)))
              (other_curve (curve_of jwk bit_len p)))
            (fail_if (not (curve_test (find alg algorithm_curve) (curve_of jwk bit_len p)))
              (wrong_curve alg))).0
          h' in
      ground arith

  type-nonempty : (t : Bytes) → In t (key_types jwk bit_len) → t ≢ []
  type-nonempty t i e = elim i [
    | inl q ↦ subst (λ x. x ≢ []) (sym q) (λ z. cc) e
    | inr j ↦ elim j [
      | inl q ↦ subst (λ x. x ≢ []) (sym q) (λ z. cc) e
      | inr l ↦ elim l [ inl q ↦ subst (λ x. x ≢ []) (sym q) (λ z. cc) e | inr u ↦ absurd u ]
    ]
  ]

  -- Where the steps of `signingKey` for a key that is parsed lead.
  steps :
      (k : J) {key : Key J}
      → with_key jwk bit_len k ≡ ok key
      → (alg : Bytes) × (p : J) × (jwk.key_id k ≢ [])
        × In (jwk.key_type k) (key_types jwk bit_len)
        × (declared jwk bit_len (jwk.key_type k) (jwk.algorithm k) ≡ ok alg)
        × (jwk.public_of k ≡ some p)
        × Passes (unusable_key jwk bit_len p alg)
        × (key ≡ record { provider = []; id = jwk.key_id k; jwk = p; alg = alg })
  steps k h =
      let kty = jwk.key_type k in
      let types = fail_if (not (contains (key_types jwk bit_len) kty)) (other_type kty) in
      let rest =
        declared jwk bit_len kty (jwk.algorithm k) >>= λ alg. with_algorithm jwk bit_len k alg in
      let (_, a, h₁) =
        >>=-eq-ok (fail_if (is_empty (jwk.key_id k)) no_kid)
          (λ _. use_check jwk bit_len (jwk.usage k) >> (types >> rest)) h in
      let (_, _, h₂) = >>=-eq-ok (use_check jwk bit_len (jwk.usage k)) (λ _. types >> rest) h₁ in
      let (_, b, h₃) = >>=-eq-ok types (λ _. rest) h₂ in
      let (alg, c, h₄) =
        >>=-eq-ok (declared jwk bit_len kty (jwk.algorithm k)) (λ x. with_algorithm jwk bit_len k x)
          h₃ in
      let (p, d, h₅) =
        >>=-eq-ok (or_skip jwk bit_len (jwk.public_of k) no_public_key)
          (λ x. finish jwk bit_len k alg x) h₄ in
      let (_, u, e) =
        >>=-eq-ok (unusable_key jwk bit_len p alg)
          (λ _. ok (record { provider = []; id = jwk.key_id k; jwk = p; alg = alg })) h₅ in
      (
        alg,
        p,
        (is_empty-false_iff (jwk.key_id k)).0 ((fail_if_iff (is_empty (jwk.key_id k)) no_kid).0 a),
        (contains_iff (key_types jwk bit_len) kty).0 (ground arith),
        c,
        skipped (jwk.public_of k) p d,
        u,
        ground arith,
      )
    where
      skipped : (o : Option J) (p : J) → or_skip jwk bit_len o no_public_key ≡ ok p → o ≡ some p
      skipped none p d = cc
      skipped (some q) p d = ground arith

  -- The algorithm that a key declares fits its type.
  declared-type :
      (kty alg : Bytes) (o : Option Bytes)
      → declared jwk bit_len kty o ≡ ok alg
      → alg ≢ []
      → or_empty (find alg algorithm_key_type) ≡ kty
  declared-type kty alg none h n = absurd (n (ground arith))
  declared-type kty alg (some a) h n =
      let (_, t, e) =
        >>=-eq-ok
          (fail_if (not (equal (or_empty (find a algorithm_key_type)) kty)) (other_algorithm a))
          (λ _. ok a) h in
      let same : a ≡ alg = ground arith in
      subst (λ x. or_empty (find x algorithm_key_type) ≡ kty) same
        ((equal_iff (or_empty (find a algorithm_key_type)) kty).0 (
          not_false (equal (or_empty (find a algorithm_key_type)) kty) (
            (fail_if_iff (not (equal (or_empty (find a algorithm_key_type)) kty))
                (other_algorithm a)).0
              t)))
    where
      not_false : (b : Bool) → not b ≡ false → b ≡ true
      not_false true q = refl
      not_false false q = cc

  -- What `Allows` tests, for a key that declares an algorithm and for one that does not.
  allows-tests :
      (k : Key J) (a : Bytes)
      → allows jwk bit_len k a ≡ true
      → (is_empty k.alg ≡ false → a ≡ k.alg)
        × (is_empty k.alg ≡ true
            → (or_empty (find a algorithm_key_type) ≡ jwk.key_type k.jwk)
              × (curve_test (find a algorithm_curve) (curve_of jwk bit_len k.jwk) ≡ true))
  unfolding allows
  allows-tests k a h = (
    λ n. (equal_iff a k.alg).0 (
        (branches (is_empty k.alg) (equal a k.alg)
            (equal (or_empty (find a algorithm_key_type)) (jwk.key_type k.jwk))
            (curve_test (find a algorithm_curve) (curve_of jwk bit_len k.jwk)) h).0
          n),
    λ e.
        let (t, c) =
          (branches (is_empty k.alg) (equal a k.alg)
              (equal (or_empty (find a algorithm_key_type)) (jwk.key_type k.jwk))
              (curve_test (find a algorithm_curve) (curve_of jwk bit_len k.jwk)) h).1
            e in
        ((equal_iff (or_empty (find a algorithm_key_type)) (jwk.key_type k.jwk)).0 t, c),
  )
    where
      branches :
          (b x y z : Bool)
          → (if not b then x else (y && z)) ≡ true
          → (b ≡ false → x ≡ true) × (b ≡ true → (y ≡ true) × (z ≡ true))
      branches true x true true q = (λ n. cc, λ e. (refl, refl))
      branches true x false z q = cc
      branches true x true false q = cc
      branches false x y z q = (λ n. q, λ e. cc)

  fits :
      (k p : J) (alg a : Bytes) (id : Bytes)
      → In (jwk.key_type k) (key_types jwk bit_len)
      → jwk.key_type p ≡ jwk.key_type k
      → declared jwk bit_len (jwk.key_type k) (jwk.algorithm k) ≡ ok alg
      → Passes (unusable_key jwk bit_len p alg)
      → allows jwk bit_len (record { provider = []; id = id; jwk = p; alg = alg }) a ≡ true
      → Fits p a
  fits k p alg a id i same c u h =
      let (own, listed) =
        allows-tests (record { provider = []; id = id; jwk = p; alg = alg }) a h in
      let known = λ (e : or_empty (find a algorithm_key_type) ≡ jwk.key_type p).
        or_empty-some (find a algorithm_key_type) (jwk.key_type p)
          (subst (λ x. x ≢ []) (sym same) (type-nonempty (jwk.key_type k) i)) e in
      elim (Bool-cases (is_empty alg)) [
        | inl e ↦ (
          known (listed e).0,
          λ _ x q.
              curve_test-some (find a algorithm_curve) (curve_of jwk bit_len p) x (listed e).1 q,
        )
        | inr n ↦
            let chosen = own n in
            (
              known (
                  ap (λ x. or_empty (find x algorithm_key_type)) chosen
                  ∙ declared-type (jwk.key_type k) alg (jwk.algorithm k) c
                      ((is_empty-false_iff alg).0 n)
                  ∙ sym same),
              λ r x q.
                  curve_test-some (find alg algorithm_curve) (curve_of jwk bit_len p) x
                    (usable-curve p alg u r) (ap (λ y. find y algorithm_curve) (sym chosen) ∙ q),
            )
      ]

  -- A key that `signingKey` returns has a kid, is strong where it is RSA, and allows only algorithms
  -- that are accepted for its type and, where it is not RSA, for its curve; package jwk is to keep the
  -- type of a key in its public key.
  pub signing_key-IsSigningKey :
      ((k p : J) → jwk.public_of k ≡ some p → jwk.key_type p ≡ jwk.key_type k)
      → (raw : Bytes) (key : Key J) → signing_key jwk bit_len raw ≡ ok key
      → IsSigningKey key
  unfolding signing_key
  signing_key-IsSigningKey keeps raw key h =
      let (k, _, h') =
        >>=-eq-ok (or_skip jwk bit_len (jwk.parse raw) unparsable) (with_key jwk bit_len) h in
      let (alg, p, n, i, c, d, u, e) = steps k h' in
      subst IsSigningKey (sym e) (record {
        named = n;
        strong = usable-strong p alg u;
        fitting = λ a q. fits k p alg a (jwk.key_id k) i (keeps k p d) c u q;
        accepted = λ a q.
            listed-accepts a (jwk.key_type p)
              (fits k p alg a (jwk.key_id k) i (keeps k p d) c u q).0;
      })
