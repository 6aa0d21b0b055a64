-- ===== src/AgentAuthn/Boot.antt =====
-- `Bootstrap` of components/authz-agent/internal/authn/authn.go, and the first reload behind it
use qubership_authz_agent.Base.{Bytes, false, List, [], ◌∷◌, equal_refl, Result, ok, err, ◌≡◌, refl}
use qubership_authz_agent.AgentAuthn.Load.{load, hash_file}
use qubership_authz_agent.AgentAuthn.Lifecycle.{
  or_no_hash, boot_providers, boot_loaded, bootstrap, reload, record_status, with_world,
}
use qubership_authz_agent.AgentAuthn.{Config, Provider, Document, LoadError, Outside, Manager}

module _ {W S : Type 0} (lib : Outside W S) (cfg : Config) where
  providers-applied_hash :
      (hash : Bytes) (doc : Document) (ps : List Provider) (m : Manager W S)
      → (boot_providers lib cfg hash doc ps m).applied_hash ≡ hash
  unfolding record_status
  providers-applied_hash hash doc [] m = refl
  providers-applied_hash hash doc (p ∷ ps) m = refl

  loaded-applied_hash :
      (hash : Bytes) (o : Result LoadError Document × W) (m : Manager W S)
      → (boot_loaded lib cfg hash o m).applied_hash ≡ hash
  unfolding record_status
  loaded-applied_hash hash (err e, w) m = refl
  loaded-applied_hash hash (ok doc, w) m =
      providers-applied_hash hash doc doc.providers (with_world w m)

  bootstrap-applied_hash :
      (m : Manager W S)
      → (bootstrap lib cfg m).applied_hash ≡ or_no_hash (hash_file lib cfg.file m.session.world).0
  unfolding bootstrap
  bootstrap-applied_hash m =
      loaded-applied_hash (or_no_hash (hash_file lib cfg.file m.session.world).0)
        (load lib cfg.file (hash_file lib cfg.file m.session.world).1) m

  reload_of_applied :
      (m : Manager W S) (w : W)
      → hash_file lib cfg.file m.session.world ≡ (ok m.applied_hash, w)
      → reload lib cfg m ≡ (ok false, with_world w m)
  unfolding reload
  reload_of_applied m w h = rw (h, equal_refl m.applied_hash) refl

  -- A file whose hash a bootstrap read is not applied again: whatever the bootstrap met with, a file that does
  -- not load, providers without keys or a store that refuses the document, a reload that reads the same hash
  -- publishes nothing, reports no error and leaves the manager as the bootstrap left it.
  pub reload-bootstrap :
      (m : Manager W S) (hash : Bytes) (w w' : W)
      → hash_file lib cfg.file m.session.world ≡ (ok hash, w)
      → hash_file lib cfg.file (bootstrap lib cfg m).session.world ≡ (ok hash, w')
      → reload lib cfg (bootstrap lib cfg m) ≡ (ok false, with_world w' (bootstrap lib cfg m))
  reload-bootstrap m hash w w' h h' =
      reload_of_applied (bootstrap lib cfg m) w' (rw (bootstrap-applied_hash m, h) h')
