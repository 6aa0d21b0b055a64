-- ===== src/TokenKeys/Config/Valid.antt =====
-- Which configurations of trusted providers internal/token/keys/config.go accepts.
use qubership_authz_agent.Base.{
  ℕ, ◌+◌, Bytes, Bool, true, false, List, [], ◌∷◌, codes, equal, equal_iff, contains, contains_iff,
  is_empty, is_empty-false_iff, not, not-eq-false_iff, ◌&&◌, Result, ok, err, Check, Passes,
  fail_if, fail_if_iff, wrap, wrap_iff, check_all, check_all-All, All, In, IsDistinct, IsFresh,
  IsFresh-iff, ◌>>◌, >>_iff, >>=-eq-ok, map, Bool-cases, ◌≡◌, ◌≢◌, ◌↔◌, ◌⊎◌, inl, inr, refl, subst,
  arith,
}
use qubership_authz_agent.Regex.Complete.{matches_whole_iff}
use qubership_authz_agent.Regex.Sound.{Matches}
use qubership_authz_agent.Regex.{matches_whole}
use qubership_authz_agent.TokenKeys.Config.{
  Provider, Config, Url, unparsed, ProviderError, id_empty, id_character, no_address, two_addresses,
  token_without_jwks, missing_aud_alone, audience_empty, address_wrong, provider_wrong, id_used,
  valid_provider_id, none_listed, check_http_url, address_of, validate_provider, validate_from,
  validate_providers, validate_config,
}

-- Exactly one of the two addresses is set.
abbrev pub OneAddress : Bytes → Bytes → Type 0
OneAddress issuer jwks_uri = ((issuer ≢ []) × (jwks_uri ≡ [])) ⊎ ((issuer ≡ []) × (jwks_uri ≢ []))

OneAddress-iff :
    (a b : Bytes)
    → (((is_empty a && is_empty b) ≡ false) × ((not (is_empty a) && not (is_empty b)) ≡ false))
      ↔ OneAddress a b
OneAddress-iff [] [] =
    (λ (h, k). cc, λ h. elim h [ inl (n, e) ↦ absurd (n refl) | inr (e, n) ↦ absurd (n refl) ])
OneAddress-iff [] (d ∷ ds) = (λ h. inr (refl, λ e. cc), λ h. (refl, refl))
OneAddress-iff (c ∷ cs) [] = (λ h. inl ((λ e. cc), refl), λ h. (refl, refl))
OneAddress-iff (c ∷ cs) (d ∷ ds) = (λ (h, k). cc, λ h. elim h [ inl (n, e) ↦ cc | inr (e, n) ↦ cc ])

needs_iff : (a b : Bytes) → ((not (is_empty a) && is_empty b) ≡ false) ↔ (a ≢ [] → b ≢ [])
needs_iff [] b = (λ h n. absurd (n refl), λ h. refl)
needs_iff (c ∷ cs) [] = (λ h. cc, λ h. absurd (h (λ e. cc) refl))
needs_iff (c ∷ cs) (d ∷ ds) = (λ h n e. cc, λ h. refl)

listed_iff : (x : Bool) (xs : List Bytes) → ((x && none_listed xs) ≡ false) ↔ (x ≡ true → xs ≢ [])
listed_iff false xs = (λ h e. cc, λ h. refl)
listed_iff true [] = (λ h. cc, λ h. absurd (h refl refl))
listed_iff true (a ∷ as₁) = (λ h n e. cc, λ h. refl)

module _ (parse_url : Bytes → Result Bytes Url) where
  -- The address parses as an http or https URL with a host.
  pub record IsHttp (raw : Bytes) : Type 0 where
    pub url : Url
    pub parsed : parse_url raw ≡ ok url
    pub scheme : (url.scheme ≡ codes "http") ⊎ (url.scheme ≡ codes "https")
    pub host : url.host ≢ []

  scheme_iff :
      (s : Bytes)
      → ((not (equal s (codes "http")) && not (equal s (codes "https"))) ≡ false)
        ↔ ((s ≡ codes "http") ⊎ (s ≡ codes "https"))
  scheme_iff s =
      let (f, g) = equal_iff s (codes "http") in
      let (f', g') = equal_iff s (codes "https") in
      (
        λ h. elim (Bool-cases (equal s (codes "http"))) [
          | inl e ↦ inl (f e)
          | inr n ↦ inr (f' (ground (arith, n, h)))
        ],
        λ h. elim h [ inl e ↦ ground (arith, g e) | inr e ↦ ground (arith, g' e) ],
      )

  wrapped-ok : (r : Result Bytes Url) (u : Url) → (wrap unparsed r ≡ ok u) ↔ (r ≡ ok u)
  wrapped-ok (ok v) u = (λ h. cc, λ h. cc)
  wrapped-ok (err e) u = (λ h. cc, λ h. cc)

  check_http_url_iff : (raw : Bytes) → Passes (check_http_url parse_url raw) ↔ IsHttp raw
  unfolding check_http_url
  check_http_url_iff raw = (sound, complete)
    where
      sound : check_http_url parse_url raw ≡ ok tt → IsHttp raw
      sound h =
          let (u, parsed, h₁) = >>=-eq-ok _ _ h in
          let (_, a, b) = >>=-eq-ok _ _ h₁ in
          record {
            url = u;
            parsed = (wrapped-ok (parse_url raw) u).0 parsed;
            scheme = (scheme_iff u.scheme).0 ((fail_if_iff _ _).0 a);
            host = (is_empty-false_iff u.host).0 ((fail_if_iff _ _).0 b);
          }

      complete : IsHttp raw → check_http_url parse_url raw ≡ ok tt
      complete v =
          rw
            (
              v.parsed,
              (scheme_iff v.url.scheme).1 v.scheme,
              (is_empty-false_iff v.url.host).1 v.host,
            )
            refl

  -- What is asked of a provider.
  pub record IsProvider (p : Provider) : Type 0 where
    pub named : Matches valid_provider_id p.id
    pub one_address : OneAddress p.issuer p.jwks_uri
    pub token_file : p.token_file ≢ [] → p.jwks_uri ≢ []
    pub audience : p.allow_missing_aud ≡ true → p.audiences ≢ []
    pub audiences : All (λ a. a ≢ []) p.audiences
    pub address : IsHttp (address_of parse_url p)

  named-ne : (s : Bytes) → Matches valid_provider_id s → s ≢ []
  unfolding matches_whole valid_provider_id
  named-ne s h e =
      let m : matches_whole valid_provider_id [] ≡ true =
        (matches_whole_iff valid_provider_id []).1 (subst (Matches valid_provider_id) e h) in
      cc m

  audience_iff : (id a : Bytes) → Passes (fail_if (is_empty a) (audience_empty id)) ↔ (a ≢ [])
  audience_iff id a =
      let (f, g) = is_empty-false_iff a in
      let (f', g') = fail_if_iff (is_empty a) (audience_empty id) in (λ h. f (f' h), λ n. g' (g n))

  -- Tests that all pass, over any conditions and errors
  tests-pass :
      (b₁ b₂ b₃ b₄ b₅ b₆ : Bool) (e₁ e₂ e₃ e₄ e₅ e₆ : ProviderError) (k l : Check ProviderError)
      → Passes (
          fail_if b₁ e₁
          >> (fail_if b₂ e₂
              >> (fail_if b₃ e₃
                  >> (fail_if b₄ e₄ >> (fail_if b₅ e₅ >> (fail_if b₆ e₆ >> (k >> l)))))))
      → (b₂ ≡ false)
        × (b₃ ≡ false)
        × (b₄ ≡ false)
        × (b₅ ≡ false)
        × (b₆ ≡ false)
        × Passes k
        × Passes l
  tests-pass true b₂ b₃ b₄ b₅ b₆ e₁ e₂ e₃ e₄ e₅ e₆ k l h = cc
  tests-pass false true b₃ b₄ b₅ b₆ e₁ e₂ e₃ e₄ e₅ e₆ k l h = cc
  tests-pass false false true b₄ b₅ b₆ e₁ e₂ e₃ e₄ e₅ e₆ k l h = cc
  tests-pass false false false true b₅ b₆ e₁ e₂ e₃ e₄ e₅ e₆ k l h = cc
  tests-pass false false false false true b₆ e₁ e₂ e₃ e₄ e₅ e₆ k l h = cc
  tests-pass false false false false false true e₁ e₂ e₃ e₄ e₅ e₆ k l h = cc
  tests-pass false false false false false false e₁ e₂ e₃ e₄ e₅ e₆ k l h =
      let (a, b) = (>>_iff k l).0 h in (refl, refl, refl, refl, refl, a, b)

  validate_provider-IsProvider :
      (p : Provider) → validate_provider parse_url p ≡ ok tt → IsProvider p
  unfolding validate_provider
  validate_provider-IsProvider p h =
      let (id, some_, two, file, aud, auds, url) =
        tests-pass (is_empty p.id) (not (matches_whole valid_provider_id p.id))
          (is_empty p.issuer && is_empty p.jwks_uri)
          (not (is_empty p.issuer) && not (is_empty p.jwks_uri))
          (not (is_empty p.token_file) && is_empty p.jwks_uri)
          (p.allow_missing_aud && none_listed p.audiences) id_empty (id_character p.id)
          (no_address p.id) (two_addresses p.id) (token_without_jwks p.id) (missing_aud_alone p.id)
          (check_all (λ a. fail_if (is_empty a) (audience_empty p.id)) p.audiences)
          (wrap (address_wrong p.id) (check_http_url parse_url (address_of parse_url p))) h in
      record {
        named =
            (matches_whole_iff valid_provider_id p.id).0
              ((not-eq-false_iff (matches_whole valid_provider_id p.id)).0 id);
        one_address = (OneAddress-iff p.issuer p.jwks_uri).0 (some_, two);
        token_file = (needs_iff p.token_file p.jwks_uri).0 file;
        audience = (listed_iff p.allow_missing_aud p.audiences).0 aud;
        audiences =
            (check_all-All (λ a. fail_if (is_empty a) (audience_empty p.id)) (λ a. a ≢ [])
                p.audiences (audience_iff p.id)).0
              auds;
        address = (check_http_url_iff (address_of parse_url p)).0 (
            (wrap_iff (address_wrong p.id) (check_http_url parse_url (address_of parse_url p))).0
              url);
      }

  IsProvider-passes : (p : Provider) → IsProvider p → validate_provider parse_url p ≡ ok tt
  unfolding validate_provider
  IsProvider-passes p v =
      let (some_, two) = (OneAddress-iff p.issuer p.jwks_uri).1 v.one_address in
      rw
        (
          (is_empty-false_iff p.id).1 (named-ne p.id v.named),
          (matches_whole_iff valid_provider_id p.id).1 v.named,
          some_,
          two,
          (needs_iff p.token_file p.jwks_uri).1 v.token_file,
          (listed_iff p.allow_missing_aud p.audiences).1 v.audience,
          (check_all-All (λ aud. fail_if (is_empty aud) (audience_empty p.id)) (λ a. a ≢ [])
                p.audiences (audience_iff p.id)).1
              v.audiences,
        )
        ((wrap_iff (address_wrong p.id) (check_http_url parse_url (address_of parse_url p))).1
          ((check_http_url_iff (address_of parse_url p)).1 v.address))

  validate_provider_iff : (p : Provider) → Passes (validate_provider parse_url p) ↔ IsProvider p
  validate_provider_iff p = (validate_provider-IsProvider p, IsProvider-passes p)

  -- What is asked of the providers from one on, behind those of the ids `seen`.
  validate_from_iff :
      (i : ℕ) (seen : List Bytes) (ps : List Provider)
      → Passes (validate_from parse_url i seen ps)
        ↔ (All IsProvider ps × IsFresh (map (λ p. p.id) ps) seen)
  unfolding validate_from
  validate_from_iff i seen [] = (λ h. (tt, tt), λ h. refl)
  validate_from_iff i seen (p ∷ ps) =
      let (f, g) = validate_provider_iff p in
      let (w, w') = wrap_iff (provider_wrong i) (validate_provider parse_url p) in
      let (c, c') = contains_iff seen p.id in
      let (r, r') = validate_from_iff (i + 1) (p.id ∷ seen) ps in
      let rest =
        fail_if (contains seen p.id) (id_used i p.id)
        >> validate_from parse_url (i + 1) (p.id ∷ seen) ps in
      let (s, s') = >>_iff (wrap (provider_wrong i) (validate_provider parse_url p)) rest in
      let (t, t') =
        >>_iff (fail_if (contains seen p.id) (id_used i p.id))
          (validate_from parse_url (i + 1) (p.id ∷ seen) ps) in
      let (u, u') = fail_if_iff (contains seen p.id) (id_used i p.id) in
      (
        λ h.
            let (own, others) = s h in
            let (new, later) = t others in
            let (good, fresh) = r later in
            ((f (w own), good), ((λ m. absurd (ground (arith, u new, c' m))), fresh)),
        λ ((own, good), (new, fresh)).
            s' (w' (g own), t' (u' (unseen (contains seen p.id) refl new), r' (good, fresh))),
      )
    where
      unseen : (b : Bool) → contains seen p.id ≡ b → ¬ In p.id seen → contains seen p.id ≡ false
      unseen true e n = absurd (n ((contains_iff seen p.id).0 e))
      unseen false e n = e

  -- A configuration is accepted exactly when it has a provider, no id stands twice, and each provider has an id of
  -- the accepted characters, exactly one of the two addresses, which is an http or https URL with a
  -- host, a token file only with an address of the keys, no empty audience, and where a token may
  -- lack its audience at least one audience.
  pub validate_config_iff :
      (c : Config)
      → Passes (validate_config parse_url c) ↔ (
          (c.providers ≢ [])
          × All IsProvider c.providers
          × IsDistinct (map (λ p. p.id) c.providers))
  unfolding validate_config
  validate_config_iff c = of_list c.providers
    where
      of_list :
          (ps : List Provider)
          → Passes (validate_providers parse_url ps)
            ↔ ((ps ≢ []) × All IsProvider ps × IsDistinct (map (λ p. p.id) ps))
      of_list [] = (λ h. cc, λ (n, _, _). absurd (n refl))
      of_list (p ∷ ps) =
          let (f, g) = validate_from_iff 0 [] (p ∷ ps) in
          let (h, k) = IsFresh-iff (map (λ q. q.id) (p ∷ ps)) in
          (λ x. let (a, b) = f x in ((λ e. cc), a, h b), λ (_, a, b). g (a, k b))
