-- ===== src/AgentAuthn/Applied.antt =====
-- `Reload` and `Run` of components/authz-agent/internal/authn/authn.go: the documents of the store. `view` reads
-- one.
use qubership_authz_agent.Base.{
  Bytes, Bool, true, false, Option, some, codes, Result, ok, err, ◌≡◌, ◌≢◌, ◌↔◌, inl, inr, ap,
}
use qubership_authz_agent.Pull.Load.{IsStore}
use qubership_authz_agent.AgentAuthn.Fetch.{fetch}
use qubership_authz_agent.AgentAuthn.Health.{healthy, evaluate}
use qubership_authz_agent.AgentAuthn.Load.{authn_document, hash_file}
use qubership_authz_agent.AgentAuthn.Lifecycle.{ReloadError, outcome, reload}
use qubership_authz_agent.AgentAuthn.Reload.{
  IsApplied, IsRefused, Ends, IsReady, reload-Ends, reload-of_ready,
}
use qubership_authz_agent.AgentAuthn.{
  Config, Document, Artifacts, AuthnDocument, Outside, Session, Manager,
}

module _ {W S : Type 0} (lib : Outside W S) (cfg : Config) where
  IsReady-of_Ends :
      (m : Manager W S) (o : Result ReloadError Bool × Manager W S)
      → Ends lib cfg m o
      → o.0 ≡ ok true
      → IsReady lib cfg m
  unfolding evaluate
  IsReady-of_Ends m (ok true, m') a h = record {
    found = a.found;
    is_healthy = rw a.status_recorded at a.is_healthy;
    accepted = ap (λ o. o.0) a.is_put;
  }
  IsReady-of_Ends m (ok false, m') a h = cc
  IsReady-of_Ends m (err e, m') a h = cc

  -- A reload publishes exactly when the hash of the file is not the applied one, the file loads, what is fetched
  -- for its providers has a status that `Evaluate` calls healthy, and the store accepts the document.
  pub reload-publishes_iff :
      (m : Manager W S) → ((reload lib cfg m).0 ≡ ok true) ↔ IsReady lib cfg m
  reload-publishes_iff m =
      (IsReady-of_Ends m (reload lib cfg m) (reload-Ends lib cfg m), reload-of_ready lib cfg m)

  module _ (view : S → Bytes → Option AuthnDocument) where
    abbrev pub SameOthers : S → S → Type 0
    SameOthers s s' = (k : Bytes) → k ≢ codes "authn" → view s' k ≡ view s k

    abbrev pub SameDocuments : S → S → Type 0
    SameDocuments s s' = (k : Bytes) → view s' k ≡ view s k

    abbrev pub Leaves : Manager W S → Result ReloadError Bool → Manager W S → Type 0
    Leaves m (ok true) m' =
        (a : IsApplied lib cfg m m') × (view m'.store (codes "authn")
          ≡ some (authn_document a.found.doc a.found.artifacts))
        × SameOthers m.store m'.store
    Leaves m (ok false) m' =
        ((w : W) × (hash_file lib cfg.file m.session.world ≡ (ok m.applied_hash, w)))
        × SameDocuments m.store m'.store
        × (m'.status ≡ m.status)
        × (m'.applied_hash ≡ m.applied_hash)
    Leaves m (err e) m' =
        SameDocuments m.store m'.store × (m'.status ≡ m.status) × (m'.applied_hash ≡ m.applied_hash)

    -- What a healthy fetch for the providers of a document gave is in the store, its keys included, and the
    -- status is that of the fetch.
    pub record IsServing (m : Manager W S) : Type 0 where
      pub doc : Document
      pub artifacts : Artifacts
      pub from : Session W
      pub to : Session W
      pub fetched : fetch lib cfg doc.providers from ≡ (artifacts, to)
      pub held : view m.store (codes "authn") ≡ some (authn_document doc artifacts)
      pub is_healthy : evaluate m.status ≡ healthy
      pub completed_at : Bytes
      pub status_recorded :
          m.status ≡ record (outcome cfg doc artifacts) { completed_at = completed_at }

    module _ (law : IsStore lib.put view) where
      put-sets :
          (d : AuthnDocument) (s s' : S)
          → lib.put (codes "authn") d s ≡ (ok tt, s')
          → (view s' (codes "authn") ≡ some d) × SameOthers s s'
      put-sets d s s' h =
          let passed : (lib.put (codes "authn") d s).0 ≡ ok tt = ap (λ o. o.0) h in
          (
            rw (ap (λ o. o.1) h) at (law.sets (codes "authn") d s passed),
            λ k n. rw (ap (λ o. o.1) h) at (law.keeps (codes "authn") d s k n),
          )

      refused-SameDocuments : (s s' : S) → IsRefused lib cfg s s' → SameDocuments s s'
      refused-SameDocuments s s' (inl e) k = ap (λ t. view t k) e
      refused-SameDocuments s s' (inr (d, e, h)) k =
          rw (ap (λ o. o.1) h) at (law.fails (codes "authn") d s e (ap (λ o. o.0) h) k)

      Leaves-of_Ends :
          (m : Manager W S) (r : Result ReloadError Bool) (m' : Manager W S)
          → Ends lib cfg m (r, m')
          → Leaves m r m'
      Leaves-of_Ends m (ok true) m' a =
          let (held, others) =
            put-sets (authn_document a.found.doc a.found.artifacts) m.store m'.store a.is_put in
          (a, held, others)
      Leaves-of_Ends m (ok false) m' (read, same, status, hash) =
          (read, λ k. ap (λ t. view t k) same, status, hash)
      Leaves-of_Ends m (err e) m' (refused, status, hash) =
          (refused-SameDocuments m.store m'.store refused, status, hash)

      -- A reload that publishes read a changed file, and leaves in the store the document of what it
      -- fetched, with every other document as it was, the hash that it read and the status of what it
      -- fetched, which `Evaluate` calls healthy. A reload that finds the file unchanged read the hash that
      -- was applied, and leaves documents, status and hash as they were; so does a reload that fails, on every
      -- error, where the `Put` of the store sets one document or fails and changes nothing.
      pub reload-Leaves : (m : Manager W S) → Leaves m (reload lib cfg m).0 (reload lib cfg m).1
      reload-Leaves m = Leaves-of_Ends m _ _ (reload-Ends lib cfg m)

      -- What a tick keeps: the documents of other paths, and keys that serve.
      abbrev Keeps : Manager W S → Manager W S → Type 0
      Keeps m m' = SameOthers m.store m'.store × (IsServing m → IsServing m')
