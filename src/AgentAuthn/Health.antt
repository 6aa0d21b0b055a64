-- ===== src/AgentAuthn/Health.antt =====
-- `threshold`, `missingRequired` and `Evaluate` of components/authz-agent/internal/authn/authn.go
use qubership_authz_agent.Base.{
  ℕ, Bytes, List, [], ◌∷◌, Option, none, some, codes, equal, not, ◌&&◌, ltb, ◌==◌, if◌then◌else◌,
}
use qubership_authz_agent.AgentAuthn.{ProviderResult, LoadError, Status}
use qubership_authz_agent.AgentAuthn.Fetch.{is_success}

pub record Details : Type 0 where
  pub mode : Bytes
  pub success_count : ℕ
  pub required_count : ℕ
  pub missing_required : List Bytes

-- What `Evaluate` returns, by its message
pub data Health : Type 0 where
  healthy : Health
  config_invalid : LoadError → Health
  required_missing : Details → Health
  below_threshold : Details → Health

-- `threshold`
unfoldable pub threshold : Bytes → ℕ → ℕ
unfolding equal
threshold mode configured =
    if configured == 0 then 0 else if equal mode (codes "strict") then configured else 1

-- `missingRequired`
unfoldable pub missing_required : List ProviderResult → List Bytes
missing_required [] = []
missing_required (r ∷ rs) =
    let rest = missing_required rs in if r.required && not (is_success r) then r.id ∷ rest else rest

abbrev pub details : Status → List Bytes → Details
details s missing = record {
  mode = s.mode;
  success_count = s.success_count;
  required_count = threshold s.mode s.configured_count;
  missing_required = missing;
}

abbrev pub by_counts : Status → List Bytes → Health
by_counts s (id ∷ ids) = required_missing (details s (id ∷ ids))
by_counts s [] =
    if ltb s.success_count (threshold s.mode s.configured_count)
    then below_threshold (details s [])
    else healthy

abbrev pub by_config : Status → Option LoadError → Health
by_config s (some e) = config_invalid e
by_config s none = by_counts s (missing_required s.providers)

-- `Evaluate`
unfoldable pub evaluate : Status → Health
unfolding threshold missing_required
evaluate s = by_config s s.config_error
