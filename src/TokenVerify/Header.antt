-- ===== src/TokenVerify/Header.antt =====
-- `readHeader` of internal/token/verify/verify.go: what is checked before a key is looked up.
use qubership_authz_agent.Base.{
  ℕ, Bytes, List, [], ◌∷◌, Option, none, some, codes, is_empty, not, ◌==◌, Result, ok, err, fail_if,
  ◌>>◌, ◌>>=◌, if◌then◌else◌,
}
use qubership_authz_agent.PolicyStore.Maps.{find}
use qubership_authz_agent.Regex.{is_some}
use qubership_authz_agent.TokenKeys.Signing.{accepts_algorithm}
use qubership_authz_agent.TokenVerify.{
  Code, format_invalid, alg_not_allowed, kid_missing, RawMap, Raw, Outside,
}

abbrev pub cons_head : ℕ → List Bytes → List Bytes
cons_head c [] = (c ∷ []) ∷ []
cons_head c (part ∷ parts) = (c ∷ part) ∷ parts

-- `strings.Split` at one byte
unfoldable pub split : ℕ → Bytes → List Bytes
split sep [] = [] ∷ []
split sep (c ∷ s) = let parts = split sep s in if c == sep then [] ∷ parts else cons_head c parts

module _ {J F : Type 0} (lib : Outside J F) where
  abbrev pub or_format {ℓ} : {A : Type ℓ} → Option A → Result Code A
  or_format none = err format_invalid
  or_format (some a) = ok a

  abbrev pub not_nil : Option RawMap → Result Code RawMap
  not_nil none = err format_invalid
  not_nil (some m) = ok m

  abbrev pub string_or_absent : Raw → Result Code Bytes
  string_or_absent none = ok []
  string_or_absent (some raw) = or_format (lib.unmarshal_string raw)

  -- `headerString`
  unfoldable pub header_string : RawMap → Bytes → Result Code Bytes
  unfolding find
  header_string header name = string_or_absent (find name header)

  -- The parameters of the header, once it is decoded.
  unfoldable pub read_parameters : RawMap → Result Code (Bytes × Bytes)
  unfolding header_string accepts_algorithm find
  read_parameters header = do
    alg ← header_string header (codes "alg")
    kid ← header_string header (codes "kid")
    fail_if (is_some (find (codes "crit") header)) format_invalid
    fail_if (is_some (find (codes "b64") header)) format_invalid
    fail_if (not (accepts_algorithm alg)) alg_not_allowed
    fail_if (is_empty kid) kid_missing
    ok (alg, kid)

  abbrev pub read_parts : List Bytes → Result Code (Bytes × Bytes)
  read_parts (h ∷ p ∷ s ∷ []) = do
    header ← or_format (lib.base64 h)
    payload ← or_format (lib.base64 p)
    signature ← or_format (lib.base64 s)
    decoded ← or_format (lib.unmarshal_map header)
    members ← not_nil decoded
    read_parameters members
  read_parts parts = err format_invalid

  -- `readHeader`
  unfoldable pub read_header : Bytes → Result Code (Bytes × Bytes)
  unfolding split read_parameters
  read_header raw = read_parts (split b'.' raw)
