-- ===== src/TokenVerify/Verifier/Cached.antt =====
-- The cache of verified tokens against a verifier without one, over any sequence of calls.
use qubership_authz_agent.Base.Int.{ℤ, ◌+ℤ◌, ◌≤ℤ◌, ltb_ℤ}
use qubership_authz_agent.Base.{
  ℕ, Bytes, Bool, true, false, List, [], ◌∷◌, Option, none, some, not, Result, ok, err, some_inj,
  map, ◌>>=◌, ◌≡◌, inl, inr, refl, sym, ap, subst, ◌∙◌, arith, if◌then◌else◌,
}
use qubership_authz_agent.TokenKeys.Signing.{Jwk}
use qubership_authz_agent.TokenKeys.{Key}
use qubership_authz_agent.TokenVerify.Verifier.Sound.{check_token_iff}
use qubership_authz_agent.TokenVerify.Verifier.{
  Cache, check_token, verify_uncached, unexpired, published, cached, kept, found_or_checked, verify,
  admitted,
}
use qubership_authz_agent.TokenVerify.{Code, Provider, Token, Outside}
use qubership_authz_agent.TokenVerify.Verifier.Earned.{
  IsCache, Request, IsFinder, Earned, IsSound, Earned-later, current-checked,
}

module _ {J F : Type 0} (lib : Outside J F) (jwk : Jwk J) (bit_len : ℕ → ℕ)
    (provider : Bytes → Provider) (leeway : ℤ) {C : Type 0} (cache : Cache C (Token J))
    (peek : C → Bytes → Option (Token J)) (Published : Bytes → Key J → Type 0) where
  -- A verifier over a sequence of calls.
  abbrev pub answers : List (Request J) → C → List (Result Code (Token J))
  answers [] c = []
  answers (q ∷ qs) c =
      let (r, c') = verify lib jwk bit_len provider q.lookup leeway cache q.admit q.raw q.now c in
      r ∷ answers qs c'

  -- The calls come in the order of the clock, from `t` on, and find only published keys.
  abbrev pub IsTimed : ℤ → List (Request J) → Type 0
  IsTimed t [] = Unit
  IsTimed t (q ∷ qs) =
      (t ≤ℤ q.now)
      × IsFinder lib jwk bit_len provider leeway cache peek Published q.lookup
      × IsTimed q.now qs

  module _ (law : IsCache cache peek)
      (injective : (a b : Bytes) → lib.digest a ≡ lib.digest b → a ≡ b)
      (stable : (kid : Bytes) (k k' : Key J)
        → Published kid k
        → Published kid k'
        → lib.same_key k'.jwk k.jwk ≡ true
        → k ≡ k') where
    -- An entry that is read, before its date is tested.
    abbrev Read : Bytes → ℤ → Option (Token J) × C → Type 0
    Read d now (o, c) =
        ((tok : Token J)
          → o ≡ some tok
          → Earned lib jwk bit_len provider leeway cache peek Published now d tok)
        × IsSound lib jwk bit_len provider leeway cache peek Published c now

    -- An entry that is read and has not expired.
    abbrev Live : Bytes → ℤ → Option (Token J) × C → Type 0
    Live d now (o, c) =
        ((tok : Token J)
          → o ≡ some tok
          → Earned lib jwk bit_len provider leeway cache peek Published now d tok
            × (ltb_ℤ now (tok.expiry +ℤ leeway) ≡ true))
        × IsSound lib jwk bit_len provider leeway cache peek Published c now

    unexpired-Live :
        (lookup : Bytes → Option (Key J)) (d : Bytes) (now : ℤ) (g : Option (Token J) × C)
        → Read d now g
        → Live d now (unexpired lib jwk bit_len provider lookup leeway cache d now g)
    unexpired-Live lookup d now (none, c) (earned, sound) = (λ tok e. cc, sound)
    unexpired-Live lookup d now (some tok, c) (earned, sound) =
        go (ltb_ℤ now (tok.expiry +ℤ leeway)) refl
      where
        go :
            (b : Bool)
            → ltb_ℤ now (tok.expiry +ℤ leeway) ≡ b
            → Live d now (if not b then (none, cache.remove d c) else (some tok, c))
        go true e = (
          λ tok' h.
              subst
                (λ x.
                  Earned lib jwk bit_len provider leeway cache peek Published now d x
                  × (ltb_ℤ now (x.expiry +ℤ leeway) ≡ true))
                (some_inj h) (earned tok refl, e),
          sound,
        )
        go false n = (λ tok' h. cc, λ e tok' h. sound e tok' (law.remove_keeps d c e tok' h))

    get-Read :
        (d : Bytes) (t now : ℤ) (c : C)
        → t ≤ℤ now
        → IsSound lib jwk bit_len provider leeway cache peek Published c t
        → Read d now (cache.get d c)
    get-Read d t now c l sound = (
      λ tok e.
          Earned-later lib jwk bit_len provider leeway cache peek Published t now d tok l
            (sound d tok (sym (law.get_peeks d c) ∙ e)),
      λ e tok h.
          Earned-later lib jwk bit_len provider leeway cache peek Published t now e tok l
            (sound e tok (law.get_keeps d c e tok h)),
    )

    kept-IsSound :
        (lookup : Bytes → Option (Key J)) (raw : Bytes) (now : ℤ) (c : C)
        (r : Result Code (Token J))
        → IsFinder lib jwk bit_len provider leeway cache peek Published lookup
        → IsSound lib jwk bit_len provider leeway cache peek Published c now
        → check_token lib jwk bit_len provider lookup leeway raw now ≡ r
        → IsSound lib jwk bit_len provider leeway cache peek Published
            (kept lib jwk bit_len provider lookup leeway cache (lib.digest raw) c r).1
            now
    kept-IsSound lookup raw now c (err e) finder sound h = sound
    kept-IsSound lookup raw now c (ok tok) finder sound h =
        let (alg, kid, key, head, found, v) =
          (check_token_iff lib jwk bit_len provider lookup leeway raw now tok).0 h in
        let earned : Earned lib jwk bit_len provider leeway cache peek Published now
            (lib.digest raw) tok =
          record {
            earlier = now;
            raw = raw;
            alg = alg;
            kid = kid;
            key = key;
            past = omega arith;
            digested = refl;
            header = head;
            found = finder kid key found;
            verified = v;
          } in
        λ d u p. elim (law.add_keeps (lib.digest raw) tok c d u p) [
          | inl (ed, eu) ↦
              subst (λ x. Earned lib jwk bit_len provider leeway cache peek Published now x u)
                (sym ed)
                (subst
                  (Earned lib jwk bit_len provider leeway cache peek Published now (lib.digest raw))
                  (sym eu) earned)
          | inr old ↦ sound d u old
        ]

    kept-answer :
        (lookup : Bytes → Option (Key J)) (d : Bytes) (c : C) (r : Result Code (Token J))
        → (kept lib jwk bit_len provider lookup leeway cache d c r).0 ≡ r
    kept-answer lookup d c (err e) = refl
    kept-answer lookup d c (ok tok) = refl

    found_or_checked-IsSound :
        (lookup : Bytes → Option (Key J)) (raw : Bytes) (now : ℤ) (o : Option (Token J)) (c : C)
        → IsFinder lib jwk bit_len provider leeway cache peek Published lookup
        → ((tok : Token J)
            → o ≡ some tok
            → check_token lib jwk bit_len provider lookup leeway raw now ≡ ok tok)
        → IsSound lib jwk bit_len provider leeway cache peek Published c now
        → let r = found_or_checked lib jwk bit_len provider lookup leeway cache raw now (o, c) in
          (r.0 ≡ check_token lib jwk bit_len provider lookup leeway raw now)
          × IsSound lib jwk bit_len provider leeway cache peek Published r.1 now
    found_or_checked-IsSound lookup raw now none c finder right sound =
        (kept-answer lookup (lib.digest raw) c _, kept-IsSound lookup raw now c _ finder sound refl)
    found_or_checked-IsSound lookup raw now (some tok) c finder right sound =
        (sym (right tok refl), sound)

    published-right :
        (lookup : Bytes → Option (Key J)) (raw : Bytes) (now : ℤ) (g : Option (Token J) × C)
        → IsFinder lib jwk bit_len provider leeway cache peek Published lookup
        → Live (lib.digest raw) now g
        → (tok : Token J) → published lib jwk bit_len provider lookup leeway cache g.0 ≡ some tok
        → check_token lib jwk bit_len provider lookup leeway raw now ≡ ok tok
    published-right lookup raw now (none, c) finder live tok h = cc
    published-right lookup raw now (some tok', c) finder live tok h =
        let (earned, unexp) = live.0 tok' refl in
        current-checked lib jwk bit_len provider leeway cache peek Published law injective stable
          lookup raw now tok' tok finder earned unexp h

    -- One call: the answer is that of a verifier without a cache, and the cache stays sound.
    verify-step :
        (q : Request J) (t : ℤ) (c : C)
        → IsFinder lib jwk bit_len provider leeway cache peek Published q.lookup
        → t ≤ℤ q.now
        → IsSound lib jwk bit_len provider leeway cache peek Published c t
        → let v = verify lib jwk bit_len provider q.lookup leeway cache q.admit q.raw q.now c in
          (v.0 ≡ verify_uncached lib jwk bit_len provider q.lookup leeway q.admit q.raw q.now)
          × IsSound lib jwk bit_len provider leeway cache peek Published v.1 q.now
    unfolding verify verify_uncached cached
    verify-step q t c finder l sound =
        let d = lib.digest q.raw in
        let g = unexpired lib jwk bit_len provider q.lookup leeway cache d q.now (cache.get d c) in
        let live : Live d q.now g =
          unexpired-Live q.lookup d q.now (cache.get d c) (get-Read d t q.now c l sound) in
        let (answer, kept_sound) =
          found_or_checked-IsSound q.lookup q.raw q.now
            (published lib jwk bit_len provider q.lookup leeway cache g.0) g.1 finder
            (published-right q.lookup q.raw q.now g finder live) live.1 in
        (
          ap (λ r. r >>= λ tok. admitted lib jwk bit_len provider q.lookup leeway q.admit tok)
              answer,
          kept_sound,
        )

    answers-IsSound :
        (qs : List (Request J)) (t : ℤ) (c : C)
        → IsSound lib jwk bit_len provider leeway cache peek Published c t
        → IsTimed t qs
        → answers qs c
          ≡ map
              (λ q. verify_uncached lib jwk bit_len provider q.lookup leeway q.admit q.raw q.now)
              qs
    answers-IsSound [] t c sound timed = refl
    answers-IsSound (q ∷ qs) t c sound (l, finder, timed) =
        let v = verify lib jwk bit_len provider q.lookup leeway cache q.admit q.raw q.now c in
        let (same, sound') = verify-step q t c finder l sound in
        ap (λ r. r ∷ answers qs v.1) same
        ∙ ap
            (λ rs.
              verify_uncached lib jwk bit_len provider q.lookup leeway q.admit q.raw q.now ∷ rs)
            (answers-IsSound qs q.now v.1 sound' timed)

    -- From an empty cache, in any sequence of calls in the order of the clock, a verifier with a cache
    -- answers each as one without, where digests do not collide, the cache gives back only what was
    -- added to it, only published keys are found, and two keys that are ever published under a kid and
    -- are the same public key are one key, of one provider.
    pub answers-verify_uncached :
        (qs : List (Request J)) (t : ℤ) (c : C)
        → ((d : Bytes) → peek c d ≡ none)
        → IsTimed t qs
        → answers qs c
          ≡ map
              (λ q. verify_uncached lib jwk bit_len provider q.lookup leeway q.admit q.raw q.now)
              qs
    answers-verify_uncached qs t c empty timed =
        answers-IsSound qs t c (λ d tok e. absurd (ground (arith, empty d, e))) timed
