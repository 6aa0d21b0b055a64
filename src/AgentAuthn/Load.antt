-- ===== src/AgentAuthn/Load.antt =====
-- `hashFile`, `Load` and the value that `publish` writes, of components/authz-agent/internal/authn/authn.go
use qubership_authz_agent.Base.{
  Bytes, List, [], ◌∷◌, contains, Result, ok, err, Check, fail_if, wrap, ◌>>=◌, ◌>>◌,
}
use qubership_authz_agent.PolicyStore.Maps.{put}
use qubership_authz_agent.AgentAuthn.{
  Provider, Document, LoadError, missing_file, parse_failed, declared_twice, Artifacts, Entry,
  AuthnDocument, Outside,
}

-- The loop of `Load` over the providers
unfoldable pub check_distinct : Bytes → List Bytes → List Provider → Check LoadError
unfolding contains
check_distinct path seen [] = ok tt
check_distinct path seen (p ∷ ps) =
    fail_if (contains seen p.id) (declared_twice path p.id) >> check_distinct path (p.id ∷ seen) ps

abbrev pub entry_of : Provider → Entry
entry_of p = record {
  id = p.id;
  audiences = p.audiences;
  required = p.required;
  allow_missing_aud = p.allow_missing_aud;
}

abbrev pub entries : List Provider → List (Bytes × Entry) → List (Bytes × Entry)
entries [] m = m
entries (p ∷ ps) m = entries ps (put p.id (entry_of p) m)

-- The value that `publish` puts into the store
unfoldable pub authn_document : Document → Artifacts → AuthnDocument
unfolding put
authn_document doc fetched = record {
  by_id = entries doc.providers [];
  jwks_by_kid = fetched.jwks_by_kid;
}

module _ {W S : Type 0} (lib : Outside W S) where
  unfoldable pub parse_document : Bytes → Bytes → Result LoadError Document
  unfolding check_distinct
  parse_document path raw = do
    doc ← wrap (parse_failed path) (lib.decode_document raw)
    check_distinct path [] doc.providers
    ok doc

  abbrev pub parsed : Bytes → Result Bytes Bytes × W → Result LoadError Document × W
  parsed path (err e, w) = (err (missing_file path), w)
  parsed path (ok raw, w) = (parse_document path raw, w)

  -- `Load`
  unfoldable pub load : Bytes → W → Result LoadError Document × W
  unfolding parse_document
  load path w = parsed path (lib.read_file path w)

  abbrev pub digested : Result Bytes Bytes × W → Result Bytes Bytes × W
  digested (err e, w) = (err e, w)
  digested (ok raw, w) = (ok (lib.digest raw), w)

  -- `hashFile`
  unfoldable pub hash_file : Bytes → W → Result Bytes Bytes × W
  hash_file path w = digested (lib.read_file path w)
