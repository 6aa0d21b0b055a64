-- ===== src/Pull/Load.antt =====
-- `PullOnce` of components/authz-agent/internal/pull/pull.go: which documents the store holds after a load,
-- on every outcome. `view` reads a document of the store.
use qubership_authz_agent.Base.{
  Bytes, Option, some, codes, Result, ok, err, Check, wrap, ◌≡◌, ◌≢◌, ◌⊎◌, inl, inr, refl, ◌∙◌,
}
use qubership_authz_agent.Pull.{
  Config, Conversion, Puller, Tick, PullError, store_pips, Outside, converted, documents, put_pips,
  put_both, load, finish, load_converted, pull_once,
}

-- A `Put` of the store sets one document, or fails and changes nothing.
pub record IsStore {D S : Type 0} (put : Bytes → D → S → Check Bytes × S)
    (view : S → Bytes → Option D) : Type 0 where
  pub sets : (k : Bytes) (d : D) (s : S) → (put k d s).0 ≡ ok tt → view (put k d s).1 k ≡ some d
  pub keeps : (k : Bytes) (d : D) (s : S) (j : Bytes) → j ≢ k → view (put k d s).1 j ≡ view s j
  pub fails :
      (k : Bytes) (d : D) (s : S) (e : Bytes)
      → (put k d s).0 ≡ err e
      → (j : Bytes) → view (put k d s).1 j ≡ view s j

module _ {N L I P Q D S : Type 0} (lib : Outside N L I P Q D S) (view : S → Bytes → Option D) where
  -- The documents of the stores are the same, but for those of the two paths.
  abbrev pub SameOthers : S → S → Type 0
  SameOthers s s' = (j : Bytes) → j ≢ codes "policies" → j ≢ codes "pips" → view s' j ≡ view s j

  -- Both documents are those of what one tick fetched.
  pub record IsStored (cfg : Config N) (t : Tick) (s s' : S) (stats : Conversion) : Type 0 where
    pub policies : P
    pub pip_doc : Q
    pub docs : D × D
    pub fetched : converted lib cfg t ≡ ok (policies, pip_doc, stats)
    pub encoded : documents lib cfg policies pip_doc ≡ ok docs
    pub policies_stored : view s' (codes "policies") ≡ some docs.0
    pub pips_stored : view s' (codes "pips") ≡ some docs.1
    pub others : SameOthers s s'

  -- What a load leaves, by its result. A load that fails leaves the documents as they were, unless it is
  -- the store that refuses the PIPs: then the policies are the new ones already.
  pub record IsRefused (cfg : Config N) (t : Tick) (e : PullError) (s s' : S) : Type 0 where
    pub policies : P
    pub pip_doc : Q
    pub stats : Conversion
    pub docs : D × D
    pub reason : Bytes
    pub is_store_pips : e ≡ store_pips reason
    pub fetched : converted lib cfg t ≡ ok (policies, pip_doc, stats)
    pub encoded : documents lib cfg policies pip_doc ≡ ok docs
    pub policies_stored : view s' (codes "policies") ≡ some docs.0
    pub others : (j : Bytes) → j ≢ codes "policies" → view s' j ≡ view s j

  abbrev pub LoadLeaves : Config N → Tick → Puller S → Check PullError → Puller S → Type 0
  LoadLeaves cfg t p (ok _) q =
      (stats : Conversion) × IsStored cfg t p.store q.store stats
      × (q.status ≡ p.status)
      × (q.first_success ≡ p.first_success)
      × (q.last_conversion ≡ some stats)
  LoadLeaves cfg t p (err e) q =
      ((((j : Bytes) → view q.store j ≡ view p.store j) ⊎ IsRefused cfg t e p.store q.store)
        × (q.status ≡ p.status)
        × (q.first_success ≡ p.first_success)
        × (q.last_conversion ≡ p.last_conversion))

  module _ (law : IsStore lib.put view) where
    abbrev Pair : S → D × D → Check PullError × S → Type 0
    Pair s docs (ok _, s') =
        (view s' (codes "policies") ≡ some docs.0)
        × (view s' (codes "pips") ≡ some docs.1)
        × SameOthers s s'
    Pair s docs (err e, s') =
        ((j : Bytes) → view s' j ≡ view s j)
        ⊎ ((reason : Bytes) × (e ≡ store_pips reason)
            × (view s' (codes "policies") ≡ some docs.0)
            × ((j : Bytes) → j ≢ codes "policies" → view s' j ≡ view s j))

    policies-ne : codes "policies" ≢ codes "pips"
    policies-ne e = cc

    -- The second `Put`, from a store that holds the policies.
    put_pips-Pair :
        (docs : D × D) (s s₁ : S) (r : Check Bytes)
        → view s₁ (codes "policies") ≡ some docs.0
        → ((j : Bytes) → j ≢ codes "policies" → view s₁ j ≡ view s j)
        → (lib.put (codes "pips") docs.1 s₁).0 ≡ r
        → Pair s docs (wrap store_pips r, (lib.put (codes "pips") docs.1 s₁).1)
    put_pips-Pair docs s s₁ (ok u) held same h = (
      law.keeps (codes "pips") docs.1 s₁ (codes "policies") policies-ne ∙ held,
      law.sets (codes "pips") docs.1 s₁ h,
      λ j n m. law.keeps (codes "pips") docs.1 s₁ j m ∙ same j n,
    )
    put_pips-Pair docs s s₁ (err e) held same h =
        let kept = law.fails (codes "pips") docs.1 s₁ e h in
        inr (e, refl, kept (codes "policies") ∙ held, λ j n. kept j ∙ same j n)

    put_both-Pair : (docs : D × D) (s : S) → Pair s docs (put_both lib (ok docs) s)
    put_both-Pair (policies, pips) s = first (lib.put (codes "policies") policies s).0 refl
      where
        first :
            (r : Check Bytes)
            → (lib.put (codes "policies") policies s).0 ≡ r
            → Pair s
                (policies, pips)
                (put_pips lib pips (r, (lib.put (codes "policies") policies s).1))
        first (err e) h = inl (law.fails (codes "policies") policies s e h)
        first (ok u) h =
            put_pips-Pair (policies, pips) s (lib.put (codes "policies") policies s).1 _
              (law.sets (codes "policies") policies s h) (law.keeps (codes "policies") policies s)
              refl

    finish-LoadLeaves :
        (cfg : Config N) (t : Tick) (p : Puller S) (policies : P) (pip_doc : Q) (stats : Conversion)
        (docs : D × D) (o : Check PullError × S)
        → converted lib cfg t ≡ ok (policies, pip_doc, stats)
        → documents lib cfg policies pip_doc ≡ ok docs
        → Pair p.store docs o
        → LoadLeaves cfg t p (finish lib stats p o).0 (finish lib stats p o).1
    finish-LoadLeaves cfg t p policies pip_doc stats docs (err e, s) fetched encoded (inl same) =
        (inl same, refl, refl, refl)
    finish-LoadLeaves cfg t p policies pip_doc stats docs (err e, s) fetched encoded
          (inr (reason, is, held, same)) =
        (
          inr (record {
            policies = policies;
            pip_doc = pip_doc;
            stats = stats;
            docs = docs;
            reason = reason;
            is_store_pips = is;
            fetched = fetched;
            encoded = encoded;
            policies_stored = held;
            others = same;
          }),
          refl,
          refl,
          refl,
        )
    finish-LoadLeaves cfg t p policies pip_doc stats docs (ok u, s) fetched encoded
          (held, pips, same) =
        (
          stats,
          record {
            policies = policies;
            pip_doc = pip_doc;
            docs = docs;
            fetched = fetched;
            encoded = encoded;
            policies_stored = held;
            pips_stored = pips;
            others = same;
          },
          refl,
          refl,
          refl,
        )

    -- A load either stores both documents of what it fetched, under the policies and the PIPs of the
    -- store; or it fails and leaves every document as it was; or the store refuses the PIPs, and then the
    -- policies are those of the failed load and every other document is as it was. The status and the
    -- first success are as before, where the `Put` of the store sets one document or fails and
    -- changes nothing.
    pub pull_once-LoadLeaves :
        (cfg : Config N) (t : Tick) (p : Puller S)
        → LoadLeaves cfg t p (pull_once lib cfg t p).0 (pull_once lib cfg t p).1
    unfolding pull_once load
    pull_once-LoadLeaves cfg t p = by_fetch (converted lib cfg t) refl
      where
        by_docs :
            (policies : P) (pip_doc : Q) (stats : Conversion)
            → converted lib cfg t ≡ ok (policies, pip_doc, stats)
            → (r : Result PullError (D × D)) → documents lib cfg policies pip_doc ≡ r
            → let o = finish lib stats p (put_both lib r p.store) in LoadLeaves cfg t p o.0 o.1
        by_docs policies pip_doc stats fetched (err e) h = (inl (λ j. refl), refl, refl, refl)
        by_docs policies pip_doc stats fetched (ok docs) h =
            finish-LoadLeaves cfg t p policies pip_doc stats docs _ fetched h
              (put_both-Pair docs p.store)

        by_fetch :
            (r : Result PullError (P × Q × Conversion))
            → converted lib cfg t ≡ r
            → let o = load_converted lib cfg r p in LoadLeaves cfg t p o.0 o.1
        by_fetch (err e) h = (inl (λ j. refl), refl, refl, refl)
        by_fetch (ok (policies, pip_doc, stats)) h =
            by_docs policies pip_doc stats h (documents lib cfg policies pip_doc) refl
