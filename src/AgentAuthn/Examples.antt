-- ===== src/AgentAuthn/Examples.antt =====
-- The theorems on the trusted providers at a concrete input: a file with two providers, of which one answers.
-- The world is the version of the file.
use qubership_authz_agent.Http.{Response}
use qubership_authz_agent.Base.Int.{pos}
use qubership_authz_agent.Base.{
  ℕ, Bytes, true, false, List, [], ◌∷◌, Option, none, some, codes, equal, ok, err, map,
  if◌then◌else◌, ◌≡◌, ◌↔◌, refl,
}
use qubership_authz_agent.Json.{string, close, member, Members}
use qubership_authz_agent.PolicyStore.Maps.{find, put, find-put, find-put_other}
use qubership_authz_agent.Pull.Load.{IsStore}
use qubership_authz_agent.Regex.{matches_whole}
use qubership_authz_agent.TokenKeys.Config.{valid_provider_id}
use qubership_authz_agent.AgentAuthn.Applied.{Leaves, reload-publishes_iff, reload-Leaves}
use qubership_authz_agent.AgentAuthn.Boot.{reload-bootstrap}
use qubership_authz_agent.AgentAuthn.Client.{attempts, fetch_with_retry}
use qubership_authz_agent.AgentAuthn.Fetch.{fetch}
use qubership_authz_agent.AgentAuthn.Lifecycle.{new_manager, bootstrap, reload, with_world}
use qubership_authz_agent.AgentAuthn.Lifecycle
use qubership_authz_agent.AgentAuthn.Load.{hash_file}
use qubership_authz_agent.AgentAuthn.Reload.{IsReady}
use qubership_authz_agent.AgentAuthn.Tally.{IsTally, fetch-IsTally}
use qubership_authz_agent.AgentAuthn.{
  Config, Provider, Document, AuthnDocument, Outside, Session, Manager, success, failure,
}

abbrev Docs : Type 0
Docs = List (Bytes × AuthnDocument)

abbrev answering : Provider
answering = record {
  id = codes "a";
  issuer = [];
  jwks_uri = codes "u";
  audiences = none;
  required = true;
  allow_missing_aud = false;
}

abbrev silent : Provider
silent = record answering { id = codes "b"; issuer = codes "i/"; jwks_uri = []; required = false }

abbrev both : Document
both = record { providers = answering ∷ silent ∷ [] }

abbrev signing : Members
signing =
    member (codes "kid") (string (codes "k")) (member (codes "use") (string (codes "sig")) close)

abbrev unnamed : Members
unnamed = member (codes "use") (string (codes "sig")) close

abbrev answer : Response
answer = record { status_code = 200; body = ok [] }

abbrev outside : Outside ℕ Docs
outside = record {
  read_file = λ path w. (ok (w ∷ []), w);
  new_request = λ url. ok tt;
  send = λ url w. (if equal url (codes "u") then ok answer else err (codes "refused"), w);
  clock = λ w. [];
  decode_document = λ raw. ok both;
  decode_discovery = λ raw. err [];
  decode_jwks = λ raw. ok (some (unnamed ∷ signing ∷ []));
  marshal = λ v. ok (codes "{}");
  query_escape = λ s. s;
  trim_space = λ s. s;
  decimal = λ n. [];
  digest = λ raw. raw;
  put = λ k d s. (ok tt, put k d s);
}

abbrev cfg : Config
cfg = record {
  file = codes "f";
  required = false;
  http_timeout = pos 1;
  http_retries = pos 2;
  tenant_manager_url = [];
  reload_interval = pos 1;
}

abbrev view : Docs → Bytes → Option AuthnDocument
view s k = find k s

view-IsStore : IsStore outside.put view
view-IsStore = record {
  sets = λ k d s h. find-put k d s;
  keeps = λ k d s j n. find-put_other j k d s n;
  fails = λ k d s e h. cc;
}

abbrev idle : Session ℕ
idle = record { world = 0; names = [] }

fetch_results :
    map (λ r. r.result) (fetch outside cfg both.providers idle).0.results ≡ success ∷ failure ∷ []
unfolding fetch matches_whole valid_provider_id attempts fetch_with_retry
fetch_results = refl

IsTally-example :
    IsTally outside cfg both.providers idle
      (fetch outside cfg both.providers idle).0
      (fetch outside cfg both.providers idle).1
IsTally-example = fetch-IsTally outside cfg both.providers idle

abbrev fresh : Manager ℕ Docs
fresh = new_manager [] 0

abbrev booted : Manager ℕ Docs
booted = bootstrap outside cfg fresh

reload_example : ((reload outside cfg fresh).0 ≡ ok true) ↔ IsReady outside cfg fresh
reload_example = reload-publishes_iff outside cfg fresh

fresh_reloads : (reload outside cfg fresh).0 ≡ ok true
unfolding new_manager reload fetch matches_whole valid_provider_id attempts fetch_with_retry
fresh_reloads = refl

Leaves-reload_example :
    Leaves outside cfg view fresh (reload outside cfg fresh).0 (reload outside cfg fresh).1
Leaves-reload_example = reload-Leaves outside cfg view view-IsStore fresh

abbrev served : Manager ℕ Docs
served = (reload outside cfg fresh).1

fresh_hash : hash_file outside cfg.file fresh.session.world ≡ (ok (0 ∷ []), 0)
unfolding new_manager hash_file
fresh_hash = refl

booted_hash : hash_file outside cfg.file booted.session.world ≡ (ok (0 ∷ []), 0)
unfolding new_manager bootstrap fetch hash_file
booted_hash = refl

bootstrap_example : reload outside cfg booted ≡ (ok false, with_world 0 booted)
bootstrap_example = reload-bootstrap outside cfg fresh (0 ∷ []) 0 0 fresh_hash booted_hash
