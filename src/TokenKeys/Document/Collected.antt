-- ===== src/TokenKeys/Document/Collected.antt =====
-- `parseJWKS` of internal/token/keys/fetch.go: the keys that its loop collects.
use qubership_authz_agent.Base.{
  ℕ, Bytes, List, [], ◌∷◌, ◌++◌, none, some, In, In-append, IsDistinct, ok, ◌≡◌, ◌⊎◌, inl, inr,
  refl, sym, ap, subst, ◌∙◌, arith, ok_inj, IsDistinct-append_one,
}
use qubership_authz_agent.PolicyStore.Maps.{find, put, find-put, find-put_other, find-put_cases}
use qubership_authz_agent.TokenKeys.Signing.{Jwk, signing_key}
use qubership_authz_agent.TokenKeys.Document.{Remote}
use qubership_authz_agent.TokenKeys.{Key}

module _ {J : Type 0} (jwk : Jwk J) (bit_len : ℕ → ℕ) (remote : Remote J) (provider : Bytes) where
  -- An entry is a signing key under the kid, with the thumbprint.
  abbrev pub Signs : Bytes → Bytes → Bytes → Type 0
  Signs raw kid t =
      (key : Key J) × (signing_key jwk bit_len raw ≡ ok key)
      × (key.id ≡ kid)
      × (remote.thumbprint key.jwk ≡ ok t)

  -- A key of the result is one of the entries, with the provider.
  abbrev pub Comes : (Bytes → Type 0) → Key J → Type 0
  Comes Read k =
      (raw : Bytes) × (key : Key J) × Read raw
      × (signing_key jwk bit_len raw ≡ ok key)
      × (k ≡ record key { provider = provider })

  abbrev pub ids : List (Key J) → List Bytes
  ids [] = []
  ids (k ∷ ks) = k.id ∷ ids ks

  ids-append : (ks ls : List (Key J)) → ids (ks ++ ls) ≡ ids ks ++ ids ls
  ids-append [] ls = refl
  ids-append (k ∷ ks) ls = ap (λ l. k.id ∷ l) (ids-append ks ls)

  In-ids : (x : Bytes) (ks : List (Key J)) → In x (ids ks) → (k : Key J) × In k ks × (k.id ≡ x)
  In-ids x [] i = absurd i
  In-ids x (k ∷ ks) i = elim i [
    | inl e ↦ (k, inl refl, sym e)
    | inr j ↦ let (l, m, e) = In-ids x ks j in (l, inr m, e)
  ]

  -- What the loop holds of the entries that are read.
  pub record IsCollected (Read : Bytes → Type 0) (prints : List (Bytes × Bytes))
      (out : List (Key J)) : Type 0 where
    pub from_entries : (k : Key J) → In k out → Comes Read k
    pub distinct : IsDistinct (ids out)
    pub prints_read :
        (kid t : Bytes) → find kid prints ≡ some t → (raw : Bytes) × Read raw × Signs raw kid t
    pub read_prints : (raw kid t : Bytes) → Read raw → Signs raw kid t → find kid prints ≡ some t
    pub prints_kept :
        (kid t : Bytes)
        → find kid prints ≡ some t
        → (k : Key J) × In k out × (k.id ≡ kid) × (remote.thumbprint k.jwk ≡ ok t)
    pub kept_printed : (k : Key J) → In k out → (t : Bytes) × (find k.id prints ≡ some t)

  abbrev pub Also : Bytes → (Bytes → Type 0) → Bytes → Type 0
  Also raw Read r = (r ≡ raw) ⊎ Read r

  pub Signs-same :
      (raw kid t kid' t' : Bytes) → Signs raw kid t → Signs raw kid' t' → (kid ≡ kid') × (t ≡ t')
  Signs-same raw kid t kid' t' (key, h, i, p) (key', h', i', p') =
      let e : key ≡ key' = ok_inj (sym h ∙ h') in
      (
        sym i ∙ (ap (λ (k : Key J). k.id) e ∙ i'),
        ok_inj (sym p ∙ (ap (λ (k : Key J). remote.thumbprint k.jwk) e ∙ p')),
      )

  -- An entry that signs nothing, or what is known already, changes nothing.
  pub read_again :
      (Read : Bytes → Type 0) (raw : Bytes) (prints : List (Bytes × Bytes)) (out : List (Key J))
      → ((kid t : Bytes) → Signs raw kid t → find kid prints ≡ some t)
      → IsCollected Read prints out
      → IsCollected (Also raw Read) prints out
  read_again Read raw prints out known c = record {
    from_entries = λ k i. let (r, key, read, h, e) = c.from_entries k i in (r, key, inr read, h, e);
    distinct = c.distinct;
    prints_read = λ kid t h. let (r, read, s) = c.prints_read kid t h in (r, inr read, s);
    read_prints = λ r kid t read s. elim read [
      | inl e ↦ known kid t (subst (λ x. Signs x kid t) e s)
      | inr o ↦ c.read_prints r kid t o s
    ];
    prints_kept = c.prints_kept;
    kept_printed = c.kept_printed;
  }

  -- A new signing key is kept with its thumbprint.
  pub read_new :
      (Read : Bytes → Type 0) (raw : Bytes) (key : Key J) (t : Bytes)
      (prints : List (Bytes × Bytes)) (out : List (Key J))
      → signing_key jwk bit_len raw ≡ ok key
      → remote.thumbprint key.jwk ≡ ok t
      → find key.id prints ≡ none
      → IsCollected Read prints out
      → IsCollected
          (Also raw Read)
          (put key.id t prints)
          (out ++ (record key { provider = provider } ∷ []))
  read_new Read raw key t prints out signs printed new c = record {
    from_entries = λ k i. elim ((In-append k out (kept ∷ [])).0 i) [
      | inl j ↦ let (r, l, read, h, e) = c.from_entries k j in (r, l, inr read, h, e)
      | inr j ↦ elim j [ inl e ↦ (raw, key, inl refl, signs, e) | inr o ↦ absurd o ]
    ];
    distinct = subst IsDistinct (sym (ids-append out (kept ∷ []))) (
        IsDistinct-append_one (ids out) key.id c.distinct λ i.
          let (k, j, e) = In-ids key.id out i in
          let (u, h) = c.kept_printed k j in
          absurd (ground (arith, new, subst (λ x. find x prints ≡ some u) e h)));
    prints_read = λ kid u h. elim (find-put_cases kid key.id t u prints h) [
      | inl (same, e) ↦ (raw, inl refl, (key, signs, sym same, printed ∙ ap ok (sym e)))
      | inr (other, o) ↦ let (r, read, s) = c.prints_read kid u o in (r, inr read, s)
    ];
    read_prints = λ r kid u read s. elim read [
      | inl e ↦
          let (same, print) =
            Signs-same raw key.id t kid u (key, signs, refl, printed)
              (subst (λ x. Signs x kid u) e s) in
          subst (λ x. find x (put key.id t prints) ≡ some u) same
            (find-put key.id t prints ∙ ap some print)
      | inr o ↦
          let h = c.read_prints r kid u o s in
          find-put_other kid key.id t prints
            (λ q. absurd (ground (arith, new, subst (λ x. find x prints ≡ some u) q h)))
          ∙ h
    ];
    prints_kept = λ kid u h. elim (find-put_cases kid key.id t u prints h) [
      | inl (same, e) ↦ (
        kept,
        (In-append kept out (kept ∷ [])).1 (inr (inl refl)),
        sym same,
        printed ∙ ap ok (sym e),
      )
      | inr (other, o) ↦
          let (k, i, same, print) = c.prints_kept kid u o in
          (k, (In-append k out (kept ∷ [])).1 (inl i), same, print)
    ];
    kept_printed = λ k i. elim ((In-append k out (kept ∷ [])).0 i) [
      | inl j ↦
          let (u, h) = c.kept_printed k j in
          (
            u,
            find-put_other k.id key.id t prints
                  (λ q. absurd (ground (arith, new, subst (λ x. find x prints ≡ some u) q h)))
                ∙ h,
          )
      | inr j ↦ elim j [
        | inl e ↦ (
          t,
          subst (λ (x : Key J). find x.id (put key.id t prints) ≡ some t) (sym e)
              (find-put key.id t prints),
        )
        | inr o ↦ absurd o
      ]
    ];
  }
    where
      kept : Key J
      kept = record key { provider = provider }
