-- ===== src/TokenVerify/Verifier/Earned.antt =====
-- The tokens of the cache: each was verified by an earlier check, and is what a check of now would give.
use qubership_authz_agent.Base.Int.{ℤ, ◌+ℤ◌, ◌≤ℤ◌, ltb_ℤ}
use qubership_authz_agent.Base.{
  ℕ, Bytes, true, Option, none, some, ok, some_inj, Bool-cases, ◌≡◌, ◌⊎◌, inl, inr, refl, sym, ap,
  subst, ◌∙◌, arith,
}
use qubership_authz_agent.TokenKeys.Signing.{Jwk}
use qubership_authz_agent.TokenKeys.{Key}
use qubership_authz_agent.TokenVerify.Header.{read_header}
use qubership_authz_agent.TokenVerify.Verifier.Sound.{IsVerified, IsVerified-later, check_token_iff}
use qubership_authz_agent.TokenVerify.Verifier.{Cache, check_token, current, published}
use qubership_authz_agent.TokenVerify.{Code, Provider, Token, Outside}

-- A cache of golang-lru, by what a reader would find: a call adds no entry but the one it names, and
-- may drop any.
pub record IsCache {C T : Type 0} (cache : Cache C T) (peek : C → Bytes → Option T) : Type 0 where
  pub get_peeks : (d : Bytes) (c : C) → (cache.get d c).0 ≡ peek c d
  pub get_keeps :
      (d : Bytes) (c : C) (e : Bytes) (t : T)
      → peek (cache.get d c).1 e ≡ some t
      → peek c e ≡ some t
  pub remove_keeps :
      (d : Bytes) (c : C) (e : Bytes) (t : T)
      → peek (cache.remove d c) e ≡ some t
      → peek c e ≡ some t
  pub add_keeps :
      (d : Bytes) (t : T) (c : C) (e : Bytes) (u : T)
      → peek (cache.add d t c) e ≡ some u
      → ((e ≡ d) × (u ≡ t)) ⊎ (peek c e ≡ some u)

-- A call of `Verify`: the token, the time, and what the finder of keys and `Options.Admit` give at that
-- time.
pub record Request (J : Type 0) : Type 0 where
  pub raw : Bytes
  pub now : ℤ
  pub lookup : Bytes → Option (Key J)
  pub admit : Option (Token J → Option Code)

module _ {J F : Type 0} (lib : Outside J F) (jwk : Jwk J) (bit_len : ℕ → ℕ)
    (provider : Bytes → Provider) (leeway : ℤ) {C : Type 0} (cache : Cache C (Token J))
    (peek : C → Bytes → Option (Token J)) (Published : Bytes → Key J → Type 0) where
  -- Only published keys are found.
  abbrev pub IsFinder : (Bytes → Option (Key J)) → Type 0
  IsFinder lookup = (kid : Bytes) (k : Key J) → lookup kid ≡ some k → Published kid k

  -- A token of the cache, which an earlier check against a published key gave.
  pub record Earned (now : ℤ) (d : Bytes) (tok : Token J) : Type 0 where
    pub earlier : ℤ
    pub raw : Bytes
    pub alg : Bytes
    pub kid : Bytes
    pub key : Key J
    pub past : earlier ≤ℤ now
    pub digested : lib.digest raw ≡ d
    pub header : read_header lib raw ≡ ok (alg, kid)
    pub found : Published kid key
    pub verified : IsVerified lib jwk bit_len provider raw alg kid key earlier leeway tok

  abbrev pub IsSound : C → ℤ → Type 0
  IsSound c now = (d : Bytes) (tok : Token J) → peek c d ≡ some tok → Earned now d tok

  pub Earned-later :
      (t now : ℤ) (d : Bytes) (tok : Token J) → t ≤ℤ now → Earned t d tok → Earned now d tok
  Earned-later t now d tok l v = record {
    earlier = v.earlier;
    raw = v.raw;
    alg = v.alg;
    kid = v.kid;
    key = v.key;
    past = omega (arith, l, v.past);
    digested = v.digested;
    header = v.header;
    found = v.found;
    verified = v.verified;
  }

  module _ (law : IsCache cache peek)
      (injective : (a b : Bytes) → lib.digest a ≡ lib.digest b → a ≡ b)
      (stable : (kid : Bytes) (k k' : Key J)
        → Published kid k
        → Published kid k'
        → lib.same_key k'.jwk k.jwk ≡ true
        → k ≡ k') where
    current-eq-some :
        (lookup : Bytes → Option (Key J)) (tok tok' : Token J) (o : Option (Key J))
        → current lib jwk bit_len provider lookup leeway cache tok o ≡ some tok'
        → (k : Key J) × (o ≡ some k) × (lib.same_key k.jwk tok.key ≡ true) × (tok ≡ tok')
    current-eq-some lookup tok tok' none h = cc
    current-eq-some lookup tok tok' (some k) h = elim (Bool-cases (lib.same_key k.jwk tok.key)) [
      | inl e ↦ (k, refl, e, some_inj (rw e at h))
      | inr n ↦ absurd (ground (arith, n, h))
    ]

    -- What the cache of tokens answers is what a check at this time would.
    pub current-checked :
        (lookup : Bytes → Option (Key J)) (raw : Bytes) (now : ℤ) (tok tok' : Token J)
        → IsFinder lookup
        → Earned now (lib.digest raw) tok
        → ltb_ℤ now (tok.expiry +ℤ leeway) ≡ true
        → published lib jwk bit_len provider lookup leeway cache (some tok) ≡ some tok'
        → check_token lib jwk bit_len provider lookup leeway raw now ≡ ok tok'
    current-checked lookup raw now tok tok' finder v unexp h =
        let (k, found, same, eq) = current-eq-some lookup tok tok' (lookup tok.key_id) h in
        let v' = v.verified in
        let key_id : tok.key_id ≡ v.kid = ap (λ x. x.key_id) v'.built in
        let public : tok.key ≡ v.key.jwk = ap (λ x. x.key) v'.built in
        let at_kid : lookup v.kid ≡ some k = subst (λ i. lookup i ≡ some k) key_id found in
        let one : v.key ≡ k =
          stable v.kid v.key k v.found (finder v.kid k at_kid)
            (subst (λ j. lib.same_key k.jwk j ≡ true) public same) in
        let later =
          IsVerified-later lib jwk bit_len provider v.raw v.alg v.kid v.key v.earlier now leeway tok
            v.past (ground (arith, unexp)) v' in
        subst (λ r. check_token lib jwk bit_len provider lookup leeway r now ≡ ok tok')
          (injective v.raw raw v.digested)
          ((check_token_iff lib jwk bit_len provider lookup leeway v.raw now tok').1 (
            v.alg,
            v.kid,
            v.key,
            v.header,
            at_kid ∙ ap some (sym one),
            subst (IsVerified lib jwk bit_len provider v.raw v.alg v.kid v.key now leeway) eq later,
          ))
