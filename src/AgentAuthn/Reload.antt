-- ===== src/AgentAuthn/Reload.antt =====
-- `Reload` of components/authz-agent/internal/authn/authn.go: when it publishes, and what it leaves behind on
-- every outcome. `view` reads a document of the store.
use qubership_authz_agent.Base.{
  Bytes, Bool, true, false, codes, equal, equal_iff, equal-ne, List, [], ◌∷◌, Result, ok, err,
  Check, Bool-cases, ◌≡◌, ◌≢◌, ◌↔◌, ◌⊎◌, inl, inr, refl, arith,
}
use qubership_authz_agent.AgentAuthn.Action.{continue, lift, wrapped, or_fail, ◌>>=◌, ◌>>◌}
use qubership_authz_agent.AgentAuthn.Fetch.{fetch}
use qubership_authz_agent.AgentAuthn.Health.{missing_required, healthy, evaluate, by_counts}
use qubership_authz_agent.AgentAuthn.Load.{authn_document, load, hash_file}
use qubership_authz_agent.AgentAuthn.Lifecycle.{
  ReloadError, hash_failed, load_failed, put_failed, record_status, with_session, with_world,
  stored, put_back, publish, outcome, check_count, check_required, recorded, fetched_all,
  apply_fetched, apply_changed, unless_applied, reload,
}
use qubership_authz_agent.AgentAuthn.{
  Config, Document, LoadError, Artifacts, AuthnDocument, Outside, Session, Manager,
}

-- The two tests of `Reload` are the rules by which `Evaluate` calls the status healthy.
pub evaluate-outcome_iff :
    (cfg : Config) (doc : Document) (a : Artifacts)
    → (evaluate (outcome cfg doc a) ≡ healthy)
      ↔ ((check_count cfg doc a ≡ ok tt) × (check_required (missing_required a.results) ≡ ok tt))
unfolding evaluate
evaluate-outcome_iff cfg doc a = by_missing (missing_required a.results)
  where
    by_missing :
        (ids : List Bytes)
        → (by_counts (outcome cfg doc a) ids ≡ healthy)
          ↔ ((check_count cfg doc a ≡ ok tt) × (check_required ids ≡ ok tt))
    by_missing [] = ground arith
    by_missing (id ∷ ids) = (λ h. cc, λ (h, k). cc)

module _ {W S : Type 0} (lib : Outside W S) (cfg : Config) where
  -- A reload finds a file that was not applied yet, and fetches its providers.
  pub record IsFetched (m : Manager W S) : Type 0 where
    pub hash : Bytes
    pub doc : Document
    pub artifacts : Artifacts
    pub after_hash : W
    pub after_load : W
    pub session : Session W
    pub hashed : hash_file lib cfg.file m.session.world ≡ (ok hash, after_hash)
    pub changed : hash ≢ m.applied_hash
    pub loaded : load lib cfg.file after_hash ≡ (ok doc, after_load)
    pub fetched :
        fetch lib cfg doc.providers (record { world = after_load; names = m.session.names })
        ≡ (artifacts, session)

  -- What a reload that publishes leaves: the document and the status of what it fetched.
  pub record IsApplied (m m' : Manager W S) : Type 0 where
    pub found : IsFetched m
    pub is_healthy : evaluate m'.status ≡ healthy
    pub is_put :
        lib.put (codes "authn") (authn_document found.doc found.artifacts) m.store
        ≡ (ok tt, m'.store)
    pub hash_recorded : m'.applied_hash ≡ found.hash
    pub status_recorded : m'.status ≡ record (outcome cfg found.doc found.artifacts) {
      completed_at = lib.clock m'.session.world;
    }

  -- The store is as it was, or the one that refused a document.
  abbrev pub IsRefused : S → S → Type 0
  IsRefused s s' =
      (s' ≡ s) ⊎ ((d : AuthnDocument) × (e : Bytes) × (lib.put (codes "authn") d s ≡ (err e, s')))

  abbrev pub Ends : Manager W S → Result ReloadError Bool × Manager W S → Type 0
  Ends m (ok true, m') = IsApplied m m'
  Ends m (ok false, m') =
      ((w : W) × (hash_file lib cfg.file m.session.world ≡ (ok m.applied_hash, w)))
      × (m'.store ≡ m.store)
      × (m'.status ≡ m.status)
      × (m'.applied_hash ≡ m.applied_hash)
  Ends m (err e, m') =
      IsRefused m.store m'.store × (m'.status ≡ m.status) × (m'.applied_hash ≡ m.applied_hash)

  module _ (m : Manager W S) where
    apply_fetched-Ends :
        (f : IsFetched m)
        → Ends m (apply_fetched lib cfg f.hash f.doc f.artifacts (with_session f.session m))
    unfolding publish record_status evaluate
    apply_fetched-Ends f = by_count (check_count cfg f.doc f.artifacts) refl
      where
        by_put :
            (o : Check Bytes × S)
            → lib.put (codes "authn") (authn_document f.doc f.artifacts) m.store ≡ o
            → check_count cfg f.doc f.artifacts ≡ ok tt
            → check_required (missing_required f.artifacts.results) ≡ ok tt
            → Ends m (
                continue
                  (λ _. recorded lib cfg f.hash f.doc f.artifacts)
                  (wrapped put_failed (put_back (with_session f.session m) o)))
        by_put (err e, s) h enough present =
            (inr (authn_document f.doc f.artifacts, e, h), refl, refl)
        by_put (ok u, s) h enough present = record {
          found = f;
          is_healthy = (evaluate-outcome_iff cfg f.doc f.artifacts).1 (enough, present);
          is_put = h;
          hash_recorded = refl;
          status_recorded = refl;
        }

        by_required :
            (r : Check ReloadError)
            → check_required (missing_required f.artifacts.results) ≡ r
            → check_count cfg f.doc f.artifacts ≡ ok tt
            → Ends m (
                (lift r
                    >> (or_fail put_failed (publish lib f.doc f.artifacts)
                        >> recorded lib cfg f.hash f.doc f.artifacts))
                  (with_session f.session m))
        by_required (err e) h enough = (inl refl, refl, refl)
        by_required (ok u) h enough = by_put _ refl enough h

        by_count :
            (r : Check ReloadError)
            → check_count cfg f.doc f.artifacts ≡ r
            → Ends m (
                (lift r
                    >> (lift (check_required (missing_required f.artifacts.results))
                        >> (or_fail put_failed (publish lib f.doc f.artifacts)
                            >> recorded lib cfg f.hash f.doc f.artifacts)))
                  (with_session f.session m))
        by_count (err e) h = (inl refl, refl, refl)
        by_count (ok u) h = by_required _ refl h

    apply_changed-Ends :
        (hash : Bytes) (w₁ : W)
        → hash_file lib cfg.file m.session.world ≡ (ok hash, w₁)
        → hash ≢ m.applied_hash
        → Ends m (apply_changed lib cfg hash (with_world w₁ m))
    apply_changed-Ends hash w₁ hashed changed = by_load (load lib cfg.file w₁) refl
      where
        by_fetch :
            (doc : Document) (w₂ : W)
            → load lib cfg.file w₁ ≡ (ok doc, w₂)
            → (o : Artifacts × Session W)
            → fetch lib cfg doc.providers (record { world = w₂; names = m.session.names }) ≡ o
            → Ends m (apply_fetched lib cfg hash doc o.0 (with_session o.1 m))
        by_fetch doc w₂ loaded (a, s) fetched = apply_fetched-Ends (record {
          hash = hash;
          doc = doc;
          artifacts = a;
          after_hash = w₁;
          after_load = w₂;
          session = s;
          hashed = hashed;
          changed = changed;
          loaded = loaded;
          fetched = fetched;
        })

        by_load :
            (o : Result LoadError Document × W)
            → load lib cfg.file w₁ ≡ o
            → Ends m (
                continue
                  (λ doc. fetched_all lib cfg doc >>= apply_fetched lib cfg hash doc)
                  (wrapped load_failed (stored (with_world w₁ m) o)))
        by_load (err e, w₂) h = (inl refl, refl, refl)
        by_load (ok doc, w₂) h = by_fetch doc w₂ h _ refl

    unless_applied-Ends :
        (hash : Bytes) (w₁ : W)
        → hash_file lib cfg.file m.session.world ≡ (ok hash, w₁)
        → Ends m (unless_applied lib cfg hash (with_world w₁ m))
    unless_applied-Ends hash w₁ hashed = elim (Bool-cases (equal hash m.applied_hash)) [
      | inl e ↦ rw (e) ((w₁, rw ((equal_iff hash m.applied_hash).0 e) at hashed), refl, refl, refl)
      | inr n ↦ rw (n) (
          apply_changed-Ends hash w₁ hashed
            λ q. ground (arith, (equal_iff hash m.applied_hash).1 q))
    ]

    pub reload-Ends : Ends m (reload lib cfg m)
    unfolding reload
    reload-Ends = by_hash (hash_file lib cfg.file m.session.world) refl
      where
        by_hash :
            (o : Result Bytes Bytes × W)
            → hash_file lib cfg.file m.session.world ≡ o
            → Ends m (continue (unless_applied lib cfg) (wrapped hash_failed (stored m o)))
        by_hash (err e, w₁) h = (inl refl, refl, refl)
        by_hash (ok hash, w₁) h = unless_applied-Ends hash w₁ h

    -- What makes a reload publish: a changed file whose providers bootstrap well enough for `Evaluate`, and a
    -- store that accepts the document.
    pub record IsReady : Type 0 where
      pub found : IsFetched m
      pub is_healthy : evaluate (outcome cfg found.doc found.artifacts) ≡ healthy
      pub accepted :
          (lib.put (codes "authn") (authn_document found.doc found.artifacts) m.store).0 ≡ ok tt

    pub reload-of_ready : IsReady → (reload lib cfg m).0 ≡ ok true
    unfolding reload publish
    reload-of_ready r =
        let (enough, present) =
          (evaluate-outcome_iff cfg r.found.doc r.found.artifacts).0 r.is_healthy in
        rw
          (
            r.found.hashed,
            equal-ne r.found.hash m.applied_hash r.found.changed,
            r.found.loaded,
            r.found.fetched,
            enough,
            present,
            r.accepted,
          )
          refl
