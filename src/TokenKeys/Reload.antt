-- ===== src/TokenKeys/Reload.antt =====
-- Reloads: when the keys are replaced, and which key a kid then names.
use qubership_authz_agent.Base.{
  Bytes, List, [], ◌∷◌, ◌++◌, some, Result, ok, err, equal, equal_iff, In, IsDistinct, ◌≡◌, ◌≢◌,
  ◌↔◌, ◌⊎◌, inl, inr, refl, ap, subst, ◌∙◌, arith, Bool-cases,
}
use qubership_authz_agent.PolicyStore.Maps.{find, put, find-put, find-put_other}
use qubership_authz_agent.PolicyStore.Store.{index, normalize}
use qubership_authz_agent.TokenKeys.Entries.{
  kids, all_keys, add_providers-New, New-IsDistinct, Named, find-entries,
}
use qubership_authz_agent.TokenKeys.{
  Key, FetchError, no_usable_key, failed, KeyError, keeps_previous, published_twice, KeySet,
  new_snapshot, lookup, kept, collect_results, failures, reported, refresh,
}

module _ {J : Type 0} where
  -- After the loop over the fetchers, each of them has the keys of its fetch, none where it found no
  -- usable key, and its previous keys where the fetch failed otherwise.
  pub index-collect_results :
      (fetch : Bytes → Result FetchError (List (Key J))) (old m : List (Bytes × List (Key J)))
      (ids : List Bytes) (id : Bytes)
      → In id ids
      → index id (collect_results fetch old ids m) ≡ kept fetch old id (fetch id)
  unfolding collect_results index normalize
  index-collect_results fetch old m ids id i = ap normalize (found ids m (inl i))
    where
      found :
          (xs : List Bytes) (n : List (Bytes × List (Key J)))
          → In id xs ⊎ (find id n ≡ some (kept fetch old id (fetch id)))
          → find id (collect_results fetch old xs n) ≡ some (kept fetch old id (fetch id))
      found [] n (inl j) = absurd j
      found [] n (inr e) = e
      found (x ∷ xs) n h = elim (Bool-cases (equal id x)) [
        | inl q ↦
            let same = (equal_iff id x).0 q in
            found xs (put x (kept fetch old x (fetch x)) n) (
              inr (
                subst
                  (λ y.
                    find id (put y (kept fetch old y (fetch y)) n)
                    ≡ some (kept fetch old id (fetch id)))
                  same (find-put id (kept fetch old id (fetch id)) n)))
        | inr d ↦
            let other : id ≢ x = λ q. absurd (ground (arith, (equal_iff id x).1 q)) in
            found xs (put x (kept fetch old x (fetch x)) n) (elim h [
              | inl j ↦ elim j [ inl q ↦ absurd (other q) | inr k ↦ inl k ]
              | inr e ↦ inr (find-put_other id x (kept fetch old x (fetch x)) n other ∙ e)
            ])
      ]

  -- The keys after the fetches and their errors, provider after provider: the keys that a fetch gave, none where
  -- it found no usable key, and where it failed the previous keys and an error.
  pub data Collected (fetch : Bytes → Result FetchError (List (Key J)))
      (old : List (Bytes × List (Key J))) : List Bytes → List (Key J) → List KeyError → Type 0 where
    none_left : Collected fetch old [] [] []
    fetched :
        {id : Bytes} {ids : List Bytes} {ks ls : List (Key J)} {errors : List KeyError}
        → fetch id ≡ ok ls
        → Collected fetch old ids ks errors
        → Collected fetch old (id ∷ ids) (ls ++ ks) errors
    without_keys :
        {id : Bytes} {ids : List Bytes} {ks : List (Key J)} {errors : List KeyError} {e : Bytes}
        → fetch id ≡ err (no_usable_key e)
        → Collected fetch old ids ks errors
        → Collected fetch old (id ∷ ids) ks errors
    not_fetched :
        {id : Bytes} {ids : List Bytes} {ks : List (Key J)} {errors : List KeyError} {e : Bytes}
        → fetch id ≡ err (failed e)
        → Collected fetch old ids ks errors
        → Collected fetch old (id ∷ ids) (index id old ++ ks) (keeps_previous id e ∷ errors)

  -- The keys that a map gives to providers are collected where it has what the fetches left for each of them.
  failures-Collected :
      (fetch : Bytes → Result FetchError (List (Key J))) (old b : List (Bytes × List (Key J)))
      (ids : List Bytes)
      → ((id : Bytes) → In id ids → index id b ≡ kept fetch old id (fetch id))
      → Collected fetch old ids (all_keys ids b) (failures fetch old ids)
  unfolding failures
  failures-Collected fetch old b [] h = none_left
  failures-Collected fetch old b (id ∷ ids) h =
      rw (h id (inl refl))
        (go (fetch id) refl (failures-Collected fetch old b ids (λ x i. h x (inr i))))
    where
      go :
          (r : Result FetchError (List (Key J)))
          → fetch id ≡ r
          → {ks : List (Key J)} {errors : List KeyError} → Collected fetch old ids ks errors
          → Collected fetch old
              (id ∷ ids)
              (kept fetch old id r ++ ks)
              (reported fetch old id r errors)
      go (ok ls) e rest = fetched e rest
      go (err (no_usable_key m)) e rest = without_keys e rest
      go (err (failed m)) e rest = not_fetched e rest

  -- What a reload leaves, by the keys that the fetches, and the old keys for the failed ones, give.
  abbrev pub IsReload :
      (Bytes → Result FetchError (List (Key J))) → KeySet J → KeySet J × List KeyError → Type 0
  IsReload fetch s (t, errors) =
      (ks : List (Key J)) × (fs : List KeyError) × Collected fetch s.current.by_provider s.fetchers
        ks fs
      × ((IsDistinct (kids ks)
            × (errors ≡ fs)
            × ((kid : Bytes) (k : Key J) → (lookup kid t ≡ some k) ↔ Named kid k ks))
          ⊎ ((¬ IsDistinct (kids ks))
              × (t ≡ s)
              × ((kid one_ other : Bytes) × (errors
                    ≡ fs ++ (published_twice kid one_ other ∷ [])))))

  -- `Refresh` takes, for each provider in turn, the keys that its fetch gave, none where the fetch found no usable
  -- key, and the previous keys where it failed otherwise, which is the only case that adds an error. It replaces
  -- the keys exactly when no kid stands twice among those, and a kid then names the one of them that has it; else
  -- nothing is replaced, and the clash is the last error.
  pub refresh-IsReload :
      (fetch : Bytes → Result FetchError (List (Key J))) (s : KeySet J)
      → IsReload fetch s (refresh fetch s)
  unfolding refresh new_snapshot lookup find
  refresh-IsReload fetch s =
      let b = collect_results fetch s.current.by_provider s.fetchers [] in
      let ks = all_keys s.fetchers b in
      let (f, g) = New-IsDistinct ks in
      let collected =
        failures-Collected fetch s.current.by_provider b s.fetchers
          (index-collect_results fetch s.current.by_provider [] s.fetchers) in
      (
        ks,
        failures fetch s.current.by_provider s.fetchers,
        collected,
        elim (add_providers-New s.fetchers b []) [
          | inl (n, r) ↦ rw (r) (
              inl (
                f n,
                refl,
                λ kid k.
                    let (p, q) = find-entries kid k ks [] n in
                    (
                      λ h. elim (p h) [ inl x ↦ x | inr u ↦ absurd (ground (arith, u)) ],
                      λ h. q (inl h),
                    ),
              ))
          | inr (n, kid, one_, other, r) ↦
              rw (r) (inr (λ h. n (g h), refl, (kid, one_, other, refl)))
        ],
      )
