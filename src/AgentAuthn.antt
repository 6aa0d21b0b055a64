-- ===== src/AgentAuthn.antt =====
-- components/authz-agent/internal/authn/authn.go: the trusted providers of the agent and the document that
-- identity.rego verifies tokens against. Files, the network and the clock are a state `W` that each call
-- changes; what the packages os, net/http, encoding/json, net/url and sha256 do, and the store of OPA, is the
-- record `Outside`. The lock makes a reload one step; the log is left out.
pub mod Action
pub mod Client
pub mod Realm
pub mod Fetch
pub mod Health
pub mod Load
pub mod Lifecycle
pub mod Passes
pub mod Tally
pub mod Reload
pub mod Applied
pub mod Boot
mod Examples
use qubership_authz_agent.Http.{Response}
use qubership_authz_agent.Base.Int.{ℤ}
use qubership_authz_agent.Base.{ℕ, Bytes, Bool, List, Option, Result, Check}
use qubership_authz_agent.Json.{Json, Members}

pub record Config : Type 0 where
  pub file : Bytes
  pub required : Bool
  pub http_timeout : ℤ
  pub http_retries : ℤ
  pub tenant_manager_url : Bytes
  pub reload_interval : ℤ

-- One entry of the file; a nil list of audiences is none.
pub record Provider : Type 0 where
  pub id : Bytes
  pub issuer : Bytes
  pub jwks_uri : Bytes
  pub audiences : Option (List Bytes)
  pub required : Bool
  pub allow_missing_aud : Bool

pub record Document : Type 0 where
  pub providers : List Provider

-- The reasons for which a provider contributes nothing, by their texts
pub data Failure : Type 0 where
  id_missing : ℕ → Failure
  id_unsupported : ℕ → Bytes → Failure
  neither_address : Bytes → Failure
  both_addresses : Bytes → Failure
  discovery_unfetched : Bytes → Bytes → Failure
  discovery_invalid : Bytes → Failure
  no_jwks_uri : Bytes → Failure
  jwks_unfetched : Bytes → Bytes → Failure
  jwks_invalid : Bytes → Failure
  jwks_null : Bytes → Failure
  no_signing_key : Bytes → ℕ → Failure

pub data Verdict : Type 0 where
  success failure : Verdict

pub record ProviderResult : Type 0 where
  pub id : Bytes
  pub result : Verdict
  pub required : Bool
  pub failure_reason : Option Failure

pub data LoadError : Type 0 where
  missing_file : Bytes → LoadError
  parse_failed : Bytes → Bytes → LoadError
  declared_twice : Bytes → Bytes → LoadError

pub record Status : Type 0 where
  pub mode : Bytes
  pub configured_count : ℕ
  pub success_count : ℕ
  pub failure_count : ℕ
  pub config_error : Option LoadError
  pub providers : List ProviderResult
  pub completed_at : Bytes

pub record Candidate : Type 0 where
  pub provider_id : Bytes
  pub alg : Bytes
  pub kty : Bytes
  pub jwks_json : Bytes

pub record IndexedKey : Type 0 where
  pub kid : Bytes
  pub candidate : Candidate

pub record Artifacts : Type 0 where
  pub results : List ProviderResult
  pub jwks_by_kid : List (Bytes × List Candidate)
  pub success_count : ℕ
  pub failure_count : ℕ

-- The entry of a provider in the published index; a test that is false is a member that is absent.
pub record Entry : Type 0 where
  pub id : Bytes
  pub audiences : Option (List Bytes)
  pub required : Bool
  pub allow_missing_aud : Bool

-- The value of data.authn
pub record AuthnDocument : Type 0 where
  pub by_id : List (Bytes × Entry)
  pub jwks_by_kid : List (Bytes × List Candidate)

-- `decode_jwks` gives the keys of a document, none where the member is missing or null.
pub record Outside (W S : Type 0) : Type 0 where
  pub read_file : Bytes → W → Result Bytes Bytes × W
  pub new_request : Bytes → Check Bytes
  pub send : Bytes → W → Result Bytes Response × W
  pub clock : W → Bytes
  pub decode_document : Bytes → Result Bytes Document
  pub decode_discovery : Bytes → Result Bytes Bytes
  pub decode_jwks : Bytes → Result Bytes (Option (List Members))
  pub marshal : Json → Result Bytes Bytes
  pub query_escape : Bytes → Bytes
  pub trim_space : Bytes → Bytes
  pub decimal : ℕ → Bytes
  pub digest : Bytes → Bytes
  pub put : Bytes → AuthnDocument → S → Check Bytes × S

-- The world, and the names that the resolver of realms keeps
pub record Session (W : Type 0) : Type 0 where
  pub world : W
  pub names : List (Bytes × Bytes)

pub record Manager (W S : Type 0) : Type 0 where
  pub status : Status
  pub applied_hash : Bytes
  pub store : S
  pub session : Session W
