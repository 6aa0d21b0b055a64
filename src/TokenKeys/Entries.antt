-- ===== src/TokenKeys/Entries.antt =====
-- The maps of a snapshot of internal/token/keys/keys.go: what `newSnapshot` makes of the keys of the providers.
use qubership_authz_agent.Base.{
  Bytes, List, [], ◌∷◌, ◌++◌, none, some, some-or-none, ok, err, equal, equal_iff, In, IsDistinct,
  IsFresh, IsFresh-iff, ◌≡◌, ◌≢◌, ◌↔◌, ◌⊎◌, inl, inr, refl, sym, ap, subst, ◌∙◌, arith, Bool-cases,
  some_inj, ok_inj,
}
use qubership_authz_agent.PolicyStore.Maps.{find, put, find-put, find-put_other}
use qubership_authz_agent.PolicyStore.Store.{index}
use qubership_authz_agent.TokenKeys.{
  Key, published_twice, Snapshot, add_keys, add_providers, new_snapshot,
}

module _ {J : Type 0} where
  abbrev pub kids : List (Key J) → List Bytes
  kids [] = []
  kids (k ∷ ks) = k.id ∷ kids ks

  abbrev pub entries : List (Key J) → List (Bytes × Key J) → List (Bytes × Key J)
  entries [] m = m
  entries (k ∷ ks) m = entries ks (put k.id k m)

  -- The keys of the providers, one provider after another.
  abbrev pub all_keys : List Bytes → List (Bytes × List (Key J)) → List (Key J)
  all_keys [] m = []
  all_keys (p ∷ ps) m = index p m ++ all_keys ps m

  -- The kids are new to the map, one after another.
  abbrev pub New : List (Key J) → List (Bytes × Key J) → Type 0
  New [] m = Unit
  New (k ∷ ks) m = (find k.id m ≡ none) × New ks (put k.id k m)

  add_keys-New :
      (p : Bytes) (ks : List (Key J)) (m : List (Bytes × Key J))
      → ((New ks m) × (add_keys p ks m ≡ ok (entries ks m)))
        ⊎ ((¬ New ks m)
            × (kid one_ other : Bytes) × (add_keys p ks m ≡ err (published_twice kid one_ other)))
  unfolding add_keys
  add_keys-New p [] m = inl (tt, refl)
  add_keys-New p (k ∷ ks) m = elim (some-or-none (find k.id m)) [
    | inl e ↦ elim (add_keys-New p ks (put k.id k m)) [
      | inl (n, r) ↦ inl ((e, n), rw (e) r)
      | inr (n, kid, one_, other, r) ↦ inr (λ h. n h.1, kid, one_, other, rw (e) r)
    ]
    | inr (earlier, e) ↦
        inr (λ h. absurd (ground (arith, e, h.0)), k.id, earlier.provider, p, rw (e) refl)
  ]

  New-append :
      (ks ls : List (Key J)) (m : List (Bytes × Key J))
      → New (ks ++ ls) m ↔ (New ks m × New ls (entries ks m))
  New-append [] ls m = (λ h. (tt, h), λ h. h.1)
  New-append (k ∷ ks) ls m =
      let (f, g) = New-append ks ls (put k.id k m) in
      (λ h. let (a, b) = f h.1 in ((h.0, a), b), λ h. (h.0.0, g (h.0.1, h.1)))

  entries-append :
      (ks ls : List (Key J)) (m : List (Bytes × Key J))
      → entries (ks ++ ls) m ≡ entries ls (entries ks m)
  entries-append [] ls m = refl
  entries-append (k ∷ ks) ls m = entries-append ks ls (put k.id k m)

  pub add_providers-New :
      (ps : List Bytes) (b : List (Bytes × List (Key J))) (m : List (Bytes × Key J))
      → (New (all_keys ps b) m × (add_providers ps b m ≡ ok (entries (all_keys ps b) m)))
        ⊎ ((¬ New (all_keys ps b) m)
            × (kid one_ other : Bytes) × (add_providers ps b m
                ≡ err (published_twice kid one_ other)))
  unfolding add_providers
  add_providers-New [] b m = inl (tt, refl)
  add_providers-New (p ∷ ps) b m =
      let (f, g) = New-append (index p b) (all_keys ps b) m in
      elim (add_keys-New p (index p b) m) [
        | inl (n, r) ↦ elim (add_providers-New ps b (entries (index p b) m)) [
          | inl (n', r') ↦
              inl (
                g (n, n'),
                rw (r) (r' ∙ ap ok (sym (entries-append (index p b) (all_keys ps b) m))),
              )
          | inr (n', kid, one_, other, r') ↦ inr (λ h. n' (f h).1, kid, one_, other, rw (r) r')
        ]
        | inr (n, kid, one_, other, r) ↦ inr (λ h. n (f h).0, kid, one_, other, rw (r) refl)
      ]

  Records : List (Bytes × Key J) → List Bytes → Type 0
  Records m seen = (x : Bytes) → (find x m ≡ none) ↔ (¬ In x seen)

  put-Records :
      (k : Key J) (m : List (Bytes × Key J)) (seen : List Bytes)
      → Records m seen
      → Records (put k.id k m) (k.id ∷ seen)
  unfolding Records
  put-Records k m seen r x = elim (Bool-cases (equal x k.id)) [
    | inl e ↦
        let same = (equal_iff x k.id).0 e in
        (
          λ h. absurd (
              ground (
                arith,
                subst (λ y. find y (put k.id k m) ≡ some k) (sym same) (find-put k.id k m),
              )),
          λ h. absurd (h (inl same)),
        )
    | inr n ↦
        let other : x ≢ k.id = λ q. absurd (ground (arith, (equal_iff x k.id).1 q)) in
        let step = find-put_other x k.id k m other in
        (
          λ h i. elim i [ inl q ↦ other q | inr j ↦ (r x).0 (sym step ∙ h) j ],
          λ h. step ∙ (r x).1 (λ j. h (inr j)),
        )
  ]

  New-IsFresh :
      (ks : List (Key J)) (m : List (Bytes × Key J)) (seen : List Bytes)
      → Records m seen
      → New ks m ↔ IsFresh (kids ks) seen
  unfolding Records
  New-IsFresh [] m seen r = (λ h. h, λ h. h)
  New-IsFresh (k ∷ ks) m seen r =
      let (f, g) = New-IsFresh ks (put k.id k m) (k.id ∷ seen) (put-Records k m seen r) in
      (λ h. ((r k.id).0 h.0, f h.1), λ h. ((r k.id).1 h.0, g h.1))

  pub New-IsDistinct : (ks : List (Key J)) → New ks [] ↔ IsDistinct (kids ks)
  unfolding Records find
  New-IsDistinct ks =
      let (f, g) = New-IsFresh ks [] [] (λ x. (λ _ m. m, λ _. refl)) in
      let (f', g') = IsFresh-iff (kids ks) in (λ h. f' (f h), λ h. g (g' h))

  -- A key stands in the map under a kid.
  abbrev pub Named : Bytes → Key J → List (Key J) → Type 0
  Named kid k ks = In k ks × (k.id ≡ kid)

  find-entry :
      (kid : Bytes) (k l : Key J) (m : List (Bytes × Key J))
      → find l.id m ≡ none
      → (find kid (put l.id l m) ≡ some k) ↔ (((k ≡ l) × (k.id ≡ kid)) ⊎ (find kid m ≡ some k))
  find-entry kid k l m e = elim (Bool-cases (equal kid l.id)) [
    | inl q ↦
        let same = (equal_iff kid l.id).0 q in
        let here = subst (λ y. find y (put l.id l m) ≡ some l) (sym same) (find-put l.id l m) in
        let absent = subst (λ y. find y m ≡ none) (sym same) e in
        (
          λ h. let eq = some_inj (sym h ∙ here) in inl (eq, ap (λ (x : Key J). x.id) eq ∙ sym same),
          λ h. elim h [
            | inl p ↦ here ∙ ap some (sym p.0)
            | inr u ↦ absurd (ground (arith, absent, u))
          ],
        )
    | inr n ↦
        let other : kid ≢ l.id = λ q. absurd (ground (arith, (equal_iff kid l.id).1 q)) in
        let step = find-put_other kid l.id l m other in
        (
          λ h. inr (sym step ∙ h),
          λ h. elim h [
            | inl p ↦ absurd (other (sym p.1 ∙ ap (λ (x : Key J). x.id) p.0))
            | inr u ↦ step ∙ u
          ],
        )
  ]

  pub find-entries :
      (kid : Bytes) (k : Key J) (ks : List (Key J)) (m : List (Bytes × Key J))
      → New ks m
      → (find kid (entries ks m) ≡ some k) ↔ (Named kid k ks ⊎ (find kid m ≡ some k))
  find-entries kid k [] m h = (λ e. inr e, λ e. elim e [ inl n ↦ absurd n.0 | inr u ↦ u ])
  find-entries kid k (l ∷ ks) m (e, h) =
      let (f, g) = find-entries kid k ks (put l.id l m) h in
      let (f', g') = find-entry kid k l m e in
      (
        λ q. elim (f q) [
          | inl n ↦ inl (inr n.0, n.1)
          | inr u ↦ elim (f' u) [ inl n ↦ inl (inl n.0, n.1) | inr v ↦ inr v ]
        ],
        λ q. elim q [
          | inl n ↦ elim n.0 [ inl p ↦ g (inr (g' (inl (p, n.1)))) | inr i ↦ g (inl (i, n.1)) ]
          | inr v ↦ g (inr (g' (inr v)))
        ],
      )

  -- A snapshot has the maps that it is made of: a kid names the one key that has it.
  pub new_snapshot-Named :
      (ps : List Bytes) (b : List (Bytes × List (Key J))) (snap : Snapshot J)
      → new_snapshot ps b ≡ ok snap
      → (snap.by_provider ≡ b)
        × ((kid : Bytes) (k : Key J) → find kid snap.by_kid ≡ some k → Named kid k (all_keys ps b))
  unfolding new_snapshot find
  new_snapshot-Named ps b snap h = elim (add_providers-New ps b []) [
    | inl (n, r) ↦
        let e = sym (ok_inj (rw (r) at h)) in
        (
          ap (λ (x : Snapshot J). x.by_provider) e,
          λ kid k f.
              elim ((find-entries kid k (all_keys ps b) [] n).0
                (subst (λ (x : Snapshot J). find kid x.by_kid ≡ some k) e f)) [
                  | inl x ↦ x
                  | inr u ↦ absurd (ground (arith, u))
                ],
        )
    | inr (n, kid, one_, other, r) ↦ absurd (ground (arith, rw (r) at h))
  ]
