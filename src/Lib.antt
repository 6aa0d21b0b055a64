-- ===== src/Lib.antt =====
-- authz-agent: parts of the Go code of the policy agent and of its policy stub, translated into
-- definitions that compute, with the properties that make them correct.
--
-- The program. Access-control exports the policies and PIP declarations of a tenant. The policy
-- puller of the agent (components/authz-agent/internal/pull) fetches them, directly or from the stub
-- components/authz-policy-admin, which holds what was uploaded for each domain. The text is read into
-- an intermediate representation (internal/policyir), from which the agent generates its rules: the
-- generator relies on what NewTree promises. A request carries a token, which is verified with the
-- keys of the trusted providers (internal/token/keys, and for the
-- agent itself components/authz-agent/internal/authn).
--
-- The parts modelled, and their files.
--
-- PolicyIr: internal/policyir.
--   PolicyIr.Unsupported is unsupported.go (Form, Unsupported, validateUnsupported). PolicyIr.Operand
--   is operand.go: each operand type is a constructor of `Operand`, nil is `none`; `validate_operand`,
--   `validate_list` and `validate_subject` are validateOperand, validateList and validateSubject.
--   PolicyIr.Token is token.go: the tables runEnd and openEnd, tokenLen (`token_len`, its loop `scan`)
--   and wildcardLen; Token.Reads says without the tables how far a token goes. PolicyIr.Pattern is the
--   part of parse.go that reads a MATCH pattern
--   (patternToken, isSubjectToken, isScopeToken). PolicyIr.Cond is cond.go (`validate_compare` is
--   validateCompare, `validate_condition` is validateCondition). PolicyIr.Tree is tree.go: the nodes
--   stand in Tree.antt, the labels and paths in Tree/Path.antt, the checks of NewTree in
--   Tree/Check.antt (`validate`, `check_set`, `check_policy`, `check_condition` and so on), what a
--   valid tree is in Tree/Valid.antt. The checker's maps vars and bound are lists passed on from set
--   to set. Tree/Lookup.antt is Tree.PIP, Tree/Findings.antt is Tree.Unsupported of unsupported.go,
--   Tree/Executable.antt describes the trees without such forms. jsonpath.Compile,
--   json.Compact and %q are the record `Callees`.
-- Regex: the regular expressions that policyir compiles, as data with a matcher, and a relation that
--   describes what they match.
-- PolicyStore: components/authz-policy-admin/store.go. `Store` is the struct, `set_domain_policies`
--   and `set_domain_pips` are SetDomainPolicies and SetDomainPIPs, `commit` is commitLocked,
--   `write_file_atomic` is writeFileAtomic, `new_store` and `load_from_disk` are newStore and
--   loadFromDisk. The lock makes each operation one step from a state of memory and disk to another.
--   Packages os, filepath, json and sha256 are the records `Os`, `Reader` and `Codecs`; what package
--   os documents is `IsFileSystem`, which a directory with failing renames meets in
--   PolicyStore/Examples.antt. Package time is an argument. A revision is a 64-bit word.
-- TokenKeys: internal/token/keys/keys.go. `new_snapshot` is newSnapshot, `refresh` is Refresh,
--   `lookup` is Lookup; what each fetch returns is an argument. TokenKeys.Signing is signingKey,
--   unusableKey and weakRSA of fetch.go, and Key.Allows and AcceptsAlgorithm of keys.go; what package
--   jwk tells of a key is the record `Jwk`, and BitLen of math/big an argument.
--   TokenKeys.Config is Config.Validate of config.go; url.Parse is an argument. TokenKeys.Document is
--   fetch, get, readToken and parseJWKS of fetch.go, and `Remote` what one fetch finds outside;
--   TokenKeys.Startup is Load, fetchWithRetry, Options and Run, with newFetcher, ReadConfig and
--   ParseConfig. Entries is about the maps of a snapshot and Reload about
--   Refresh; Document.Collected and Document.Parsed are about one document, Held and Served about
--   the keys that a set serves.
-- TokenVerify: internal/token/verify. TokenVerify.Claims is claims.go (checkTimes, numericDate,
--   checkAudience) with decodeClaims, standardOf and stringClaim of verify.go; TokenVerify.Header is
--   readHeader; TokenVerify.Verifier is Verify, check and cached, with the cache of cache.go. The LRU
--   cache of golang-lru is the record `Cache`, and what a reader of it may find `IsCache`; jws, json,
--   base64 and sha256 are the record `Outside`. The finder of keys answers one call of Verify from one
--   set of keys. Spec and Sound describe a verified token; Earned and Cached follow the cache.
-- TokenNamespaces: internal/token/namespaces: the allowlist, its reload, and the check that a verifier
--   runs as Options.Admit. The file and its decoding are arguments of `reload`.
-- Pull: components/authz-agent/internal/pull/pull.go. `pull_once`, `pull_now`, `load`, `fetch` and `run` are
--   the methods of Puller; a `Tick` is what one load finds outside. The conversions, the JSON encoding
--   and the store of OPA are the record `Outside`, and `IsStore` what a Put of the store does.
-- AgentAuthn: components/authz-agent/internal/authn. The types stand in AgentAuthn.antt. Client is
--   fetchWithRetry; Realm is realm.go; Fetch is validate, indexKeys, fetchProvider and fetch; Health is
--   threshold, missingRequired and Evaluate; Load is hashFile, Load and the value of publish; Lifecycle
--   is New, Bootstrap, Reload, record, publish and Run. `Manager` holds the fields of the manager that
--   change, with its store, and `Session` the world behind files, network and clock with the cache of
--   the resolver; a call that may fail is an `Action`. The packages that are called are the record
--   `Outside`, and the store does what `IsStore` of Pull.Load says. Passes and Tally are about a fetch,
--   Reload, Applied and Boot about what is published.
-- M2m: components/authz-agent/internal/m2m/m2m.go. `iterate` is one round of runClientCredentials and
--   `check_file` is checkFile; a `World` is what one round finds outside. M2m.Renewal is about the
--   waits, M2m.State about the token and its document, M2m.File about the file.
-- JsonPath: internal/jsonpath. JsonPath.Weight and Budget are budget.go, Walk, Steps, Function and Select are
--   Path.Select of jsonpath.go with walk, slice, function and apply; a compiled path is a list of
--   `Step`, where a filter holds its predicate, and the floating-point numbers are `Doubles`. Weigh is
--   about the budget; Parts, StepParts, Sound and Document are about what is selected.
-- Http: the answer of an HTTP client, which Pull, M2m, AgentAuthn and TokenKeys share.
-- Json: JSON values as they are decoded, which TokenVerify, M2m and JsonPath share.
-- Base: the names that the others share: lists, Go strings as lists of bytes, errors as results, and
--   lists of new elements. Base.Int has the signed integers of durations, instants and indexes.
--
-- Fuel. The loop of tokenLen gets the length of the text plus one: each round moves forward in the
-- text. The matcher of a regular expression gets the length of the text: each round of a star takes a
-- byte. Decimal digits get one more than the number: each digit divides it by ten.
-- The loop of budget.admits gets three rounds: a document that is weighed past what the work needs
-- settles it. The loop of budget.chargeWeight gets the weight of the document plus one: each round
-- raises the weight that is known. What these two loops give is taken by the proofs that they end.
-- The loop of fetchWithRetry takes the number of its attempts.
--
-- Not modelled: the parser of conditions and the reader of export documents (parse.go, export.go), the
-- compilation of JSON paths and filters, the legacy requests, the HTTP
-- servers and clients, the configuration converter and the generator of
-- rules: they are further parts of the program. Log lines are left out, but for the warnings of the
-- allowlist.
pub mod AgentAuthn
pub mod Base
pub mod Http
pub mod Json
pub mod JsonPath
pub mod M2m
pub mod PolicyIr
pub mod PolicyStore
pub mod Pull
pub mod Regex
pub mod TokenKeys
pub mod TokenNamespaces
pub mod TokenVerify
