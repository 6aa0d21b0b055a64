-- ===== src/TokenVerify/Claims.antt =====
-- internal/token/verify/claims.go: the dates and the audience of a token; and the claims that verify.go
-- reads out of the payload.
use qubership_authz_agent.Base.Int.{ℤ, ◌+ℤ◌, ◌-ℤ◌, scale, ltb_ℤ}
use qubership_authz_agent.Base.{
  ℕ, Bytes, Bool, false, List, [], ◌∷◌, Option, none, some, codes, contains, not, ◌||◌, Result, ok,
  err, Check, fail_if, ◌>>◌, ◌>>=◌,
}
use qubership_authz_agent.Json.{Json, number, string, array, Items, end, item}
use qubership_authz_agent.PolicyStore.Maps.{find}
use qubership_authz_agent.TokenVerify.{
  Code, format_invalid, exp_missing, expired, not_yet_valid, iat_missing, iat_invalid,
  audience_missing, audience_invalid, RawMap, Raw, Provider, Standard, Outside,
}

-- `maxNumericDate`, 2^53 - 1
abbrev pub max_numeric_date : ℕ
max_numeric_date = 9007199254740991

-- `time.Unix(whole, fraction)`
unfoldable pub unix_time : ℤ → ℤ → ℤ
unix_time seconds nanos = scale 1000000000 seconds +ℤ nanos

-- A required date, or the error of one that is missing.
abbrev pub require : Code → Result Code (Option ℤ) → Result Code ℤ
require missing (err e) = err e
require missing (ok none) = err missing
require missing (ok (some t)) = ok t

-- `present && now.Before(nbf.Add(-leeway))`
abbrev pub is_early : ℤ → ℤ → Option ℤ → Bool
is_early now leeway none = false
is_early now leeway (some nbf) = ltb_ℤ now (nbf -ℤ leeway)

-- `aud`, a value that was decoded, as a list of audiences
unfoldable pub all_strings : Items → Result Code (List Bytes)
all_strings end = ok []
all_strings (item (string s) rest) = all_strings rest >>= λ xs. ok (s ∷ xs)
all_strings (item v rest) = err audience_invalid

unfoldable pub audiences_of : Json → Result Code (List Bytes)
unfolding all_strings
audiences_of (string s) = ok (s ∷ [])
audiences_of (array items) = all_strings items
audiences_of v = err audience_invalid

-- The loop that looks for an audience of the provider.
unfoldable pub names_one : List Bytes → List Bytes → Bool
names_one accepted [] = false
names_one accepted (a ∷ as₁) = contains accepted a || names_one accepted as₁

module _ {J F : Type 0} (lib : Outside J F) where
  -- The magnitude of a date, tested once its number is parsed.
  abbrev pub in_range : Option F → Result Code (Option ℤ)
  in_range none = err format_invalid
  in_range (some x) =
      fail_if (lib.exceeds (lib.abs x) max_numeric_date) format_invalid
      >> (let (w, f) = lib.modf x in ok (some (unix_time (lib.whole w) (lib.nanos f))))

  abbrev pub date_of : Json → Result Code (Option ℤ)
  date_of (number text) = in_range (lib.parse_float text)
  date_of v = err format_invalid

  abbrev pub date_claim : Raw → Result Code (Option ℤ)
  date_claim none = ok none
  date_claim (some raw) = date_of (lib.decode_value raw)

  -- `numericDate`
  unfoldable pub numeric_date : RawMap → Bytes → Result Code (Option ℤ)
  unfolding find unix_time
  numeric_date claims name = date_claim (find name claims)

  -- `checkTimes`
  unfoldable pub check_times : RawMap → ℤ → ℤ → Result Code ℤ
  unfolding numeric_date
  check_times claims now leeway = do
    exp ← require exp_missing (numeric_date claims (codes "exp"))
    fail_if (not (ltb_ℤ now (exp +ℤ leeway))) expired
    nbf ← numeric_date claims (codes "nbf")
    fail_if (is_early now leeway nbf) not_yet_valid
    iat ← require iat_missing (numeric_date claims (codes "iat"))
    fail_if (ltb_ℤ (now +ℤ leeway) iat) iat_invalid
    ok exp

  -- The audience of a token that has one.
  abbrev pub match_audience : List Bytes → Raw → Bool → Check Code
  match_audience accepted none allow_missing = fail_if (not allow_missing) audience_missing
  match_audience accepted (some raw) allow_missing = audiences_of (lib.decode_value raw) >>= λ auds.
      fail_if (not (names_one accepted auds)) audience_invalid

  abbrev pub audience_for : List Bytes → Raw → Bool → Check Code
  audience_for [] raw allow_missing = ok tt
  audience_for (a ∷ as₁) raw allow_missing = match_audience (a ∷ as₁) raw allow_missing

  -- `checkAudience`
  unfoldable pub check_audience : RawMap → Provider → Check Code
  unfolding find audiences_of names_one
  check_audience claims p = audience_for p.audiences (find (codes "aud") claims) p.allow_missing_aud

  abbrev pub whole_object : Option (Option RawMap) × Bool → Result Code RawMap
  whole_object (none, at_end) = err format_invalid
  whole_object (some none, at_end) = err format_invalid
  whole_object (some (some claims), at_end) = fail_if (not at_end) format_invalid >> ok claims

  -- `decodeClaims`
  unfoldable pub decode_claims : Bytes → Result Code RawMap
  decode_claims payload = whole_object (lib.decode_stream payload)

  abbrev pub map_of : Raw → Option (Option RawMap)
  map_of none = none
  map_of (some raw) = lib.unmarshal_map raw

  abbrev pub roles_in : Option (Option RawMap) → Raw
  roles_in (some (some realm)) = find (codes "roles") realm
  roles_in v = none

  -- `standardOf`
  unfoldable pub standard_of : RawMap → Standard
  unfolding find
  standard_of claims = record {
    subject = find (codes "sub") claims;
    preferred_username = find (codes "preferred_username") claims;
    roles = roles_in (map_of (find (codes "realm_access") claims));
    scope = find (codes "scope") claims;
    level = find (codes "level") claims;
    tenant_id = find (codes "tenant-id") claims;
  }

  abbrev pub string_or_empty : Option Bytes → Bytes
  string_or_empty none = []
  string_or_empty (some s) = s

  abbrev pub string_in : Raw → Bytes
  string_in none = []
  string_in (some raw) = string_or_empty (lib.unmarshal_string raw)

  -- `stringClaim`
  unfoldable pub string_claim : RawMap → Bytes → Bytes
  unfolding find
  string_claim claims name = string_in (find name claims)
