-- ===== src/TokenVerify.antt =====
-- internal/token/verify: the check of a token against the keys of the trusted providers, and the cache
-- of verified tokens. An error is its code: the detail is text for a log line. An instant is a number
-- of nanoseconds since the epoch.
pub mod Claims
pub mod Header
pub mod Verifier
use qubership_authz_agent.Base.Int.{ℤ}
use qubership_authz_agent.Base.{ℕ, Bytes, Bool, List, Option, none, some}
use qubership_authz_agent.Json.{Json}

pub data Code : Type 0 where
  format_invalid alg_not_allowed kid_missing kid_unknown signature_invalid : Code
  exp_missing expired not_yet_valid iat_missing iat_invalid : Code
  audience_missing audience_invalid namespace_not_allowed : Code

-- A `map[string]json.RawMessage`, and a `json.RawMessage` that may be nil
abbrev pub RawMap : Type 0
RawMap = List (Bytes × Bytes)

abbrev pub Raw : Type 0
Raw = Option Bytes

-- The fields of a `keys.Provider` that a token is checked against.
pub record Provider : Type 0 where
  pub id : Bytes
  pub audiences : List Bytes
  pub allow_missing_aud : Bool

pub record Standard : Type 0 where
  pub subject : Raw
  pub preferred_username : Raw
  pub roles : Raw
  pub scope : Raw
  pub level : Raw
  pub tenant_id : Raw

-- `J` is the type of the keys of package jwk.
pub record Token (J : Type 0) : Type 0 where
  pub raw : Bytes
  pub payload : Bytes
  pub claims : RawMap
  pub standard : Standard
  pub provider_id : Bytes
  pub key_id : Bytes
  pub issuer : Bytes
  pub expiry : ℤ
  pub key : J

-- What the code calls in packages json, base64, sha256 and jws, and the floating-point numbers of the
-- dates. `unmarshal_map` is json.Unmarshal into a `map[string]json.RawMessage`: none for an error, and
-- `some none` for a map that stays nil; `unmarshal_string` that into a string. `decode_stream` is one
-- Decode of a Decoder, and whether the next token is the end of the text; `decode_value` is Decode
-- into `any` with UseNumber.
pub record Outside (J F : Type 0) : Type 0 where
  pub base64 : Bytes → Option Bytes
  pub unmarshal_map : Bytes → Option (Option RawMap)
  pub unmarshal_string : Bytes → Option Bytes
  pub decode_stream : Bytes → Option (Option RawMap) × Bool
  pub decode_value : Bytes → Json
  pub parse_float : Bytes → Option F
  pub abs : F → F
  pub exceeds : F → ℕ → Bool
  pub modf : F → F × F
  pub whole : F → ℤ
  pub nanos : F → ℤ
  pub verify_signature : Bytes → Bytes → J → Option Bytes
  pub digest : Bytes → Bytes
  pub same_key : J → J → Bool
