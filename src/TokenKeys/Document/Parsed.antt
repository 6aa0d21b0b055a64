-- ===== src/TokenKeys/Document/Parsed.antt =====
-- `parseJWKS` of internal/token/keys/fetch.go: which keys a document gives, and when it is refused.
use qubership_authz_agent.Base.{
  ℕ, ◌+◌, Bytes, List, [], ◌∷◌, ◌++◌, Option, none, some, equal, equal_iff, In, IsDistinct, Result,
  ok, err, Bool-cases, ◌↔◌, ◌>>=◌, ◌≡◌, ◌≢◌, ◌⊎◌, inl, inr, refl, sym, ap, subst, ◌∙◌, arith,
  ok_inj,
}
use qubership_authz_agent.PolicyStore.Maps.{find, put}
use qubership_authz_agent.TokenKeys.Signing.{Jwk, Skipped, signing_key}
use qubership_authz_agent.TokenKeys.Document.{
  Remote, Collect, JwksError, two_keys, none_usable, or_none_usable, parse_jwks, unless_seen,
  with_thumbprint, with_signing_key, parse_entries,
}
use qubership_authz_agent.TokenKeys.Document.Collected.{
  Signs, Comes, ids, IsCollected, Also, Signs-same, read_again, read_new,
}
use qubership_authz_agent.TokenKeys.{Key}

module _ {J : Type 0} (jwk : Jwk J) (bit_len : ℕ → ℕ) (remote : Remote J) (provider : Bytes) where
  -- Two entries that were read are different keys under one kid.
  abbrev pub Clash : (Bytes → Type 0) → Bytes → Type 0
  Clash Read kid =
      (t : Bytes) × (u : Bytes) × (t ≢ u)
      × ((raw : Bytes) × Read raw × Signs jwk bit_len remote provider raw kid t)
      × ((raw : Bytes) × Read raw × Signs jwk bit_len remote provider raw kid u)

  abbrev pub Leaves : (Bytes → Type 0) → Result JwksError (List (Key J) × ℕ) → Type 0
  Leaves Read (ok (out, n)) =
      (prints : List (Bytes × Bytes)) × IsCollected jwk bit_len remote provider Read prints out
  Leaves Read (err e) = (kid : Bytes) × (e ≡ two_keys kid) × Clash Read kid

  step-Leaves :
      (Read Target : Bytes → Type 0) (raw : Bytes) (next : Collect jwk bit_len remote)
      (prints : List (Bytes × Bytes)) (out : List (Key J)) (n : ℕ)
      → ((r : Bytes) → Also jwk bit_len remote provider raw Read r → Target r)
      → ((prints : List (Bytes × Bytes)) (out : List (Key J)) (n : ℕ)
          → IsCollected jwk bit_len remote provider
              (Also jwk bit_len remote provider raw Read)
              prints
              out
          → Leaves Target (next prints out n))
      → IsCollected jwk bit_len remote provider Read prints out
      → Leaves Target (
          with_signing_key jwk bit_len remote provider
            (signing_key jwk bit_len raw)
            next
            prints
            out
            n)
  step-Leaves Read Target raw next prints out n into ih c =
      by_key (signing_key jwk bit_len raw) refl
    where
      by_seen :
          (key : Key J) (t : Bytes)
          → signing_key jwk bit_len raw ≡ ok key
          → remote.thumbprint key.jwk ≡ ok t
          → (o : Option Bytes) → find key.id prints ≡ o
          → Leaves Target (unless_seen jwk bit_len remote provider key t o next prints out n)
      by_seen key t h p none q =
          ih (put key.id t prints) (out ++ (record key { provider = provider } ∷ [])) n
            (read_new jwk bit_len remote provider Read raw key t prints out h p q c)
      by_seen key t h p (some earlier) q = elim (Bool-cases (equal earlier t)) [
        | inl e ↦ rw (e) (
            ih prints out n (
              read_again jwk bit_len remote provider Read raw prints out
                (λ kid u s.
                  let (same, print) =
                    Signs-same jwk bit_len remote provider raw key.id t kid u (key, h, refl, p) s in
                  subst (λ x. find x prints ≡ some u) same
                    (q ∙ ap some ((equal_iff earlier t).0 e ∙ print)))
                c))
        | inr d ↦ rw (d) (
            let (r, read, s) = c.prints_read key.id earlier q in
            (
              key.id,
              refl,
              (
                earlier,
                t,
                λ same. absurd (ground (arith, (equal_iff earlier t).1 same)),
                (r, into r (inr read), s),
                (raw, into raw (inl refl), (key, h, refl, p)),
              ),
            ))
      ]

      by_print :
          (key : Key J)
          → signing_key jwk bit_len raw ≡ ok key
          → (o : Result Bytes Bytes) → remote.thumbprint key.jwk ≡ o
          → Leaves Target (with_thumbprint jwk bit_len remote provider key o next prints out n)
      by_print key h (err e) p = ih prints out (n + 1) (
          read_again jwk bit_len remote provider Read raw prints out
            (λ kid u (l, h', i, p'). absurd (
              ground (
                arith,
                sym p ∙ (ap (λ (k : Key J). remote.thumbprint k.jwk) (ok_inj (sym h ∙ h')) ∙ p'),
              )))
            c)
      by_print key h (ok t) p = by_seen key t h p (find key.id prints) refl

      by_key :
          (o : Result Skipped (Key J))
          → signing_key jwk bit_len raw ≡ o
          → Leaves Target (with_signing_key jwk bit_len remote provider o next prints out n)
      by_key (err e) h = ih prints out (n + 1) (
          read_again jwk bit_len remote provider Read raw prints out
            (λ kid u (l, h', i, p'). absurd (ground (arith, sym h ∙ h'))) c)
      by_key (ok key) h = by_print key h (remote.thumbprint key.jwk) refl

  -- The entries, or what was read before
  abbrev AllOf : List Bytes → (Bytes → Type 0) → Bytes → Type 0
  AllOf [] Read r = Read r
  AllOf (raw ∷ raws) Read r = AllOf raws (Also jwk bit_len remote provider raw Read) r

  AllOf-read : (raws : List Bytes) (Read : Bytes → Type 0) (r : Bytes) → Read r → AllOf raws Read r
  AllOf-read [] Read r h = h
  AllOf-read (raw ∷ raws) Read r h =
      AllOf-read raws (Also jwk bit_len remote provider raw Read) r (inr h)

  parse_entries-Leaves :
      (raws : List Bytes) (Read : Bytes → Type 0) (prints : List (Bytes × Bytes))
      (out : List (Key J)) (n : ℕ)
      → IsCollected jwk bit_len remote provider Read prints out
      → Leaves (AllOf raws Read) (parse_entries jwk bit_len remote provider raws prints out n)
  unfolding parse_entries
  parse_entries-Leaves [] Read prints out n c = (prints, c)
  parse_entries-Leaves (raw ∷ raws) Read prints out n c =
      step-Leaves Read (AllOf raws (Also jwk bit_len remote provider raw Read)) raw
        (parse_entries jwk bit_len remote provider raws) prints out n
        (λ r h. AllOf-read raws (Also jwk bit_len remote provider raw Read) r h)
        (parse_entries-Leaves raws (Also jwk bit_len remote provider raw Read)) c

  AllOf-iff :
      (raws : List Bytes) (Read : Bytes → Type 0) (r : Bytes)
      → AllOf raws Read r ↔ (In r raws ⊎ Read r)
  AllOf-iff [] Read r = (λ h. inr h, λ h. elim h [ inl i ↦ absurd i | inr o ↦ o ])
  AllOf-iff (raw ∷ raws) Read r =
      let (f, g) = AllOf-iff raws (Also jwk bit_len remote provider raw Read) r in
      (
        λ h. elim (f h) [
          | inl i ↦ inl (inr i)
          | inr a ↦ elim a [ inl e ↦ inl (inl e) | inr o ↦ inr o ]
        ],
        λ h. elim h [
          | inl i ↦ elim i [ inl e ↦ g (inr (inl e)) | inr j ↦ g (inl j) ]
          | inr o ↦ g (inr (inr o))
        ],
      )

  abbrev None : Bytes → Type 0
  None r = ⊥

  abbrev pub Listed : List Bytes → Bytes → Type 0
  Listed raws r = In r raws

  listed : (raws : List Bytes) (r : Bytes) → AllOf raws None r → In r raws
  listed raws r h = elim ((AllOf-iff raws None r).0 h) [ inl i ↦ i | inr o ↦ absurd o ]

  -- The keys of a document: signing keys of its entries under distinct kids, one for each signing key with
  -- a thumbprint.
  pub record IsDocument (raws : List Bytes) (keys : List (Key J)) : Type 0 where
    pub from_entries : (k : Key J) → In k keys → Comes jwk bit_len remote provider (Listed raws) k
    pub distinct : IsDistinct (ids jwk bit_len remote provider keys)
    pub complete :
        (raw kid t : Bytes)
        → In raw raws
        → Signs jwk bit_len remote provider raw kid t
        → (k : Key J) × In k keys × (k.id ≡ kid) × (remote.thumbprint k.jwk ≡ ok t)

  -- What `parseJWKS` returns for the entries of a document.
  abbrev pub Gives : List Bytes → Result JwksError (List (Key J)) → Type 0
  Gives raws (ok keys) = IsDocument raws keys × (keys ≢ [])
  Gives raws (err (two_keys kid)) = Clash (Listed raws) kid
  Gives raws (err (none_usable n)) =
      (raw kid t : Bytes) → In raw raws → ¬ Signs jwk bit_len remote provider raw kid t
  Gives raws (err e) = ⊥

  collected-IsDocument :
      (raws : List Bytes) (prints : List (Bytes × Bytes)) (keys : List (Key J))
      → IsCollected jwk bit_len remote provider (AllOf raws None) prints keys
      → IsDocument raws keys
  collected-IsDocument raws prints keys c = record {
    from_entries =
        λ k i. let (r, key, read, h, e) = c.from_entries k i in (r, key, listed raws r read, h, e);
    distinct = c.distinct;
    complete = λ raw kid t i s.
        c.prints_kept kid t (c.read_prints raw kid t ((AllOf-iff raws None raw).1 (inl i)) s);
  }

  Gives-of_Leaves :
      (raws : List Bytes) (o : Result JwksError (List (Key J) × ℕ))
      → Leaves (AllOf raws None) o
      → Gives raws (o >>= or_none_usable jwk bit_len remote)
  Gives-of_Leaves raws (ok ([], n)) (prints, c) =
      λ raw kid t i s. let d = collected-IsDocument raws prints [] c in (d.complete raw kid t i s).1
  Gives-of_Leaves raws (ok (k ∷ ks, n)) (prints, c) =
      (collected-IsDocument raws prints (k ∷ ks) c, λ e. cc)
  Gives-of_Leaves raws (err e) (kid, same, (t, u, ne, (r, read, s), (r', read', s'))) =
      subst (λ x. Gives raws (err x)) (sym same)
        (t, u, ne, (r, listed raws r read, s), (r', listed raws r' read', s'))

  -- For a document whose member keys is the array of the entries: the keys are not empty, have distinct kids
  -- and are the public signing keys of entries, and each entry that is a signing key with a thumbprint is
  -- there under its kid, with that thumbprint; or two such entries have one kid and different thumbprints,
  -- and the error names the kid; or no entry is such a key, and the error says so. No other error is returned.
  pub parse_jwks-Gives :
      (body text : Bytes) (raws : List Bytes)
      → remote.keys_member body ≡ ok (some text)
      → remote.elements text ≡ ok raws
      → Gives raws (parse_jwks jwk bit_len remote provider body)
  unfolding parse_jwks
  parse_jwks-Gives body text raws h k =
      rw (h, k) (Gives-of_Leaves raws _ (parse_entries-Leaves raws None [] [] 0 none_read))
    where
      none_read : IsCollected jwk bit_len remote provider None [] []
      none_read = record {
        from_entries = λ k i. absurd i;
        distinct = tt;
        prints_read = λ kid t e. cc;
        read_prints = λ r kid t o s. absurd o;
        prints_kept = λ kid t e. cc;
        kept_printed = λ k i. absurd i;
      }
