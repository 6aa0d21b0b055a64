-- ===== src/AgentAuthn/Lifecycle.antt =====
-- `New`, `Bootstrap`, `Reload` and `Run` of components/authz-agent/internal/authn/authn.go. `Run` takes what
-- happens to the world before each tick.
use qubership_authz_agent.Base.Int.{pos, ltb_ℤ}
use qubership_authz_agent.Base.{
  ℕ, Bytes, Bool, true, false, List, [], ◌∷◌, none, some, codes, equal, length, not, ltb, Result,
  ok, err, Check, fail_if, if◌then◌else◌,
}
use qubership_authz_agent.AgentAuthn.Action.{Action, lift, ◌>>=◌, ◌>>◌, or_fail}
use qubership_authz_agent.AgentAuthn.Fetch.{no_artifacts, fetch}
use qubership_authz_agent.AgentAuthn.Health.{threshold, missing_required}
use qubership_authz_agent.AgentAuthn.Load.{authn_document, load, hash_file}
use qubership_authz_agent.AgentAuthn.{
  Config, Provider, Document, LoadError, Status, Artifacts, Outside, Session, Manager,
}

-- Why a changed file could not be applied, by the texts
pub data ReloadError : Type 0 where
  hash_failed : Bytes → ReloadError
  load_failed : LoadError → ReloadError
  too_few : ℕ → ℕ → Bytes → ℕ → ReloadError
  required_absent : List Bytes → ReloadError
  put_failed : Bytes → ReloadError

-- The configuration that `New` keeps
unfoldable pub with_defaults : Config → Config
with_defaults cfg = record cfg {
  http_timeout = if not (ltb_ℤ (pos 0) cfg.http_timeout) then pos 5000000000 else cfg.http_timeout;
  http_retries = if not (ltb_ℤ (pos 0) cfg.http_retries) then pos 3 else cfg.http_retries;
}

-- `Mode`
abbrev pub mode_of : Config → Bytes
mode_of cfg = if cfg.required then codes "strict" else codes "permissive"

abbrev pub empty_status : Bytes → Status
empty_status mode = record {
  mode = mode;
  configured_count = 0;
  success_count = 0;
  failure_count = 0;
  config_error = none;
  providers = [];
  completed_at = [];
}

-- `artifacts.status`
abbrev pub status_of : Artifacts → Bytes → ℕ → Status
status_of a mode configured = record {
  mode = mode;
  configured_count = configured;
  success_count = a.success_count;
  failure_count = a.failure_count;
  config_error = none;
  providers = a.results;
  completed_at = [];
}

abbrev pub check_required : List Bytes → Check ReloadError
check_required [] = ok tt
check_required (id ∷ ids) = err (required_absent (id ∷ ids))

abbrev pub or_no_hash : Result Bytes Bytes → Bytes
or_no_hash (ok hash) = hash
or_no_hash (err e) = []

-- The status that is recorded for what was fetched
abbrev pub outcome : Config → Document → Artifacts → Status
outcome cfg doc a = status_of a (mode_of cfg) (length doc.providers)

abbrev pub check_count : Config → Document → Artifacts → Check ReloadError
check_count cfg doc a =
    let required = threshold (mode_of cfg) (length doc.providers) in
    fail_if (ltb a.success_count required)
      (too_few a.success_count (length doc.providers) (mode_of cfg) required)

module _ {W S : Type 0} where
  -- `New`
  unfoldable pub new_manager : S → W → Manager W S
  new_manager store w = record {
    status = empty_status [];
    applied_hash = [];
    store = store;
    session = record { world = w; names = [] };
  }

  abbrev pub with_world : W → Manager W S → Manager W S
  with_world w m = record m { session = record { world = w; names = m.session.names } }

  abbrev pub later : (W → W) → Manager W S → Manager W S
  later change m = with_world (change m.session.world) m

  abbrev pub with_session : Session W → Manager W S → Manager W S
  with_session s m = record m { session = s }

  abbrev pub stored : {A : Type 0} → Manager W S → A × W → A × Manager W S
  stored m (a, w) = (a, with_world w m)

  abbrev pub put_back : Manager W S → Check Bytes × S → Check Bytes × Manager W S
  put_back m (r, store) = (r, record m { store = store })

module _ {W S : Type 0} (lib : Outside W S) where
  -- `record`, where the status has a list of providers
  unfoldable pub record_status : Bytes → Status → Manager W S → Manager W S
  record_status hash status m = record m {
    status = record status { completed_at = lib.clock m.session.world };
    applied_hash = hash;
  }

  -- `publish`
  unfoldable pub publish : Document → Artifacts → Action (Manager W S) Bytes (Unit {0})
  unfolding authn_document
  publish doc fetched m = put_back m (lib.put (codes "authn") (authn_document doc fetched) m.store)

  module _ (cfg : Config) where
    abbrev pub fetched_all : Document → Action (Manager W S) ReloadError Artifacts
    fetched_all doc m =
        let (a, s) = fetch lib cfg doc.providers m.session in (ok a, with_session s m)

    abbrev pub recorded : Bytes → Document → Artifacts → Action (Manager W S) ReloadError Bool
    recorded hash doc a m = (ok true, record_status hash (outcome cfg doc a) m)

    abbrev pub apply_fetched : Bytes → Document → Artifacts → Action (Manager W S) ReloadError Bool
    apply_fetched hash doc a = do
      lift (check_count cfg doc a)
      lift (check_required (missing_required a.results))
      or_fail put_failed (publish doc a)
      recorded hash doc a

    abbrev pub apply_changed : Bytes → Action (Manager W S) ReloadError Bool
    apply_changed hash = do
      doc ← or_fail load_failed (λ m. stored m (load lib cfg.file m.session.world))
      a ← fetched_all doc
      apply_fetched hash doc a

    abbrev pub unless_applied : Bytes → Action (Manager W S) ReloadError Bool
    unless_applied hash m =
        if equal hash m.applied_hash then (ok false, m) else apply_changed hash m

    -- `Reload`
    unfoldable pub reload : Action (Manager W S) ReloadError Bool
    unfolding hash_file load fetch threshold missing_required publish record_status equal
    reload = do
      hash ← or_fail hash_failed (λ m. stored m (hash_file lib cfg.file m.session.world))
      unless_applied hash

    abbrev pub boot_providers : Bytes → Document → List Provider → Manager W S → Manager W S
    boot_providers hash doc [] m =
        record_status hash (empty_status (mode_of cfg)) (publish doc no_artifacts m).1
    boot_providers hash doc (p ∷ ps) m =
        let (a, s) = fetch lib cfg doc.providers m.session in
        record_status hash (outcome cfg doc a) (publish doc a (with_session s m)).1

    abbrev pub boot_loaded : Bytes → Result LoadError Document × W → Manager W S → Manager W S
    boot_loaded hash (err e, w) m =
        record_status hash (record (empty_status (mode_of cfg)) { config_error = some e })
          (with_world w m)
    boot_loaded hash (ok doc, w) m = boot_providers hash doc doc.providers (with_world w m)

    abbrev pub boot_hashed : Result Bytes Bytes × W → Manager W S → Manager W S
    boot_hashed (r, w) m = boot_loaded (or_no_hash r) (load lib cfg.file w) m

    -- `Bootstrap`: the manager, with the status that is returned.
    unfoldable pub bootstrap : Manager W S → Manager W S
    unfolding hash_file load fetch publish record_status
    bootstrap m = boot_hashed (hash_file lib cfg.file m.session.world) m

    unfoldable pub ticks : List (W → W) → Manager W S → Manager W S
    unfolding reload
    ticks [] m = m
    ticks (change ∷ changes) m = ticks changes (reload (later change m)).1

    -- `Run`
    unfoldable pub run : List (W → W) → Manager W S → Manager W S
    unfolding ticks
    run changes m = if not (ltb_ℤ (pos 0) cfg.reload_interval) then m else ticks changes m
