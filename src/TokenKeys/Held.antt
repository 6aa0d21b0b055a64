-- ===== src/TokenKeys/Held.antt =====
-- The snapshots of internal/token/keys/keys.go: what holds of every key that is fetched holds of every key
-- that a set serves.
use qubership_authz_agent.Base.{
  Bytes, List, [], ◌∷◌, some, equal, Result, ok, err, In, In-append, Bool-cases, ◌≡◌, inl, inr,
  refl, sym, subst,
}
use qubership_authz_agent.PolicyStore.Maps.{put}
use qubership_authz_agent.PolicyStore.Store.{index, index-put}
use qubership_authz_agent.TokenKeys.Entries.{all_keys, new_snapshot-Named}
use qubership_authz_agent.TokenKeys.{
  KeyError, failures, replace, Key, FetchError, no_usable_key, failed, KeySet, Snapshot,
  new_snapshot, lookup, kept, collect_results, refresh,
}

module _ {J : Type 0} (Good : Key J → Type 0) where
  abbrev pub AllGood : List (Key J) → Type 0
  AllGood ks = (k : Key J) → In k ks → Good k

  abbrev pub Indexes : List (Bytes × List (Key J)) → Type 0
  Indexes m = (id : Bytes) → AllGood (index id m)

  pub put-Indexes :
      (id : Bytes) (ks : List (Key J)) (m : List (Bytes × List (Key J)))
      → AllGood ks
      → Indexes m
      → Indexes (put id ks m)
  put-Indexes id ks m good all j k i = elim (Bool-cases (equal j id)) [
    | inl e ↦ good k (subst (λ l. In k l) (rw (e) at (index-put j id ks m)) i)
    | inr n ↦ all j k (subst (λ l. In k l) (rw (n) at (index-put j id ks m)) i)
  ]

  all_keys-Good :
      (ids : List Bytes) (m : List (Bytes × List (Key J))) → Indexes m → AllGood (all_keys ids m)
  all_keys-Good [] m all k i = absurd i
  all_keys-Good (id ∷ ids) m all k i = elim ((In-append k (index id m) (all_keys ids m)).0 i) [
    | inl j ↦ all id k j
    | inr j ↦ all_keys-Good ids m all k j
  ]

  -- Every key that a set holds is good, and is found under its own kid.
  pub record Holds (s : KeySet J) : Type 0 where
    pub found : (kid : Bytes) (k : Key J) → lookup kid s ≡ some k → (k.id ≡ kid) × Good k
    pub indexed : Indexes s.current.by_provider

  pub snapshot-Holds :
      (ids : List Bytes) (b : List (Bytes × List (Key J))) (snap : Snapshot J)
      → Indexes b
      → new_snapshot ids b ≡ ok snap
      → Holds (record { fetchers = ids; current = snap })
  unfolding lookup
  snapshot-Holds ids b snap all h =
      let (same, named) = new_snapshot-Named ids b snap h in
      record {
        found = λ kid k f. let (i, e) = named kid k f in (e, all_keys-Good ids b all k i);
        indexed = subst Indexes (sym same) all;
      }

  module _ (fetch_one : Bytes → Result FetchError (List (Key J)))
      (fetched : (id : Bytes) (ks : List (Key J)) → fetch_one id ≡ ok ks → AllGood ks) where
    collect_results-Indexes :
        (old : List (Bytes × List (Key J))) (ids : List Bytes) (m : List (Bytes × List (Key J)))
        → Indexes old
        → Indexes m
        → Indexes (collect_results fetch_one old ids m)
    unfolding collect_results
    collect_results-Indexes old [] m before all = all
    collect_results-Indexes old (id ∷ ids) m before all =
        collect_results-Indexes old ids _ before
          (put-Indexes id _ m (kept-Good (fetch_one id) refl) all)
      where
        kept-Good :
            (r : Result FetchError (List (Key J)))
            → fetch_one id ≡ r
            → AllGood (kept fetch_one old id r)
        kept-Good (ok ks) h = fetched id ks h
        kept-Good (err (no_usable_key e)) h = λ k i. absurd i
        kept-Good (err (failed e)) h = before id

    pub refresh-Holds : (s : KeySet J) → Holds s → Holds (refresh fetch_one s).0
    unfolding refresh
    refresh-Holds s h = by_snapshot (new_snapshot s.fetchers b) refl
      where
        b : List (Bytes × List (Key J))
        b = collect_results fetch_one s.current.by_provider s.fetchers []

        by_snapshot :
            (r : Result KeyError (Snapshot J))
            → new_snapshot s.fetchers
                (collect_results fetch_one s.current.by_provider s.fetchers [])
              ≡ r
            → Holds (replace s (failures fetch_one s.current.by_provider s.fetchers) r).0
        by_snapshot (err e) q = h
        by_snapshot (ok snap) q =
            snapshot-Holds s.fetchers _ snap
              (collect_results-Indexes s.current.by_provider s.fetchers [] h.indexed
                (λ id k i. absurd i))
              q
