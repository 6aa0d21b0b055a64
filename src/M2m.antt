-- ===== src/M2m.antt =====
-- components/authz-agent/internal/m2m/m2m.go: the token of the agent, from client credentials or from a file.
-- A duration is a number of nanoseconds. The files, the client, the clock, the decoding and the
-- store of OPA are parameters; one iteration of a loop is one step, and the log is left out.
pub mod Renewal
pub mod State
pub mod File
mod Examples
use qubership_authz_agent.Base.Int.{ℤ, pos, negsuc, ◌-ℤ◌, ltb_ℤ, scale}
use qubership_authz_agent.Base.{
  ℕ, take, suc, ◌/◌, ◌*◌, Bytes, Bool, true, false, List, [], ◌∷◌, Option, none, some, codes, equal,
  is_empty, not, ltb, leb, ◌==◌, ◌||◌, ◌&&◌, Result, ok, err, Check, fail_if, wrap, ◌>>◌, ◌>>=◌,
  if◌then◌else◌,
}
use qubership_authz_agent.Json.{Json, string, object, close, member}
use qubership_authz_agent.Http.{Response}
use qubership_authz_agent.TokenVerify.Claims.{unix_time}
use qubership_authz_agent.TokenVerify.Header.{split}

pub record Config : Type 0 where
  pub token_url : Bytes
  pub client_id_file : Bytes
  pub client_secret_file : Bytes
  pub renew_before : ℤ
  pub token_file : Bytes
  pub watch_interval : ℤ

-- What a source changes, with the store behind `Putter`; `ready` is whether its channel is closed.
pub record Source (S : Type 0) : Type 0 where
  pub token : Bytes
  pub hash : Bytes
  pub ready : Bool
  pub store : S

pub data JwtError : Type 0 where
  too_few_parts : JwtError
  decode_payload : JwtError
  parse_claims : JwtError
  exp_absent : JwtError

pub data M2mError : Type 0 where
  read_client_id : Bytes → M2mError
  read_client_secret : Bytes → M2mError
  post_failed : Bytes → M2mError
  read_response : Bytes → M2mError
  http_status : ℕ → M2mError
  parse_response : M2mError
  empty_token : M2mError
  no_expiry : JwtError → M2mError
  past_expiry : ℤ → M2mError
  publish_failed : Bytes → M2mError
  read_file : Bytes → M2mError

-- A file that does not exist is `missing`.
pub data FileError : Type 0 where
  missing : FileError
  unreadable : Bytes → FileError

-- What one step finds outside: the files, the answer to a form, the time, and whether the context ended.
pub record World : Type 0 where
  pub files : Bytes → Result FileError Bytes
  pub post : Bytes → List (Bytes × Bytes) → Result Bytes Response
  pub now : ℤ
  pub ended : Bool

-- `F` is a floating-point number.
pub record Outside (F S : Type 0) : Type 0 where
  pub put : Bytes → Json → S → Check Bytes × S
  pub digest : Bytes → Bytes
  pub trim_space : Bytes → Bytes
  pub base64 : Bytes → Option Bytes
  pub token_response : Bytes → Option (Bytes × F)
  pub exp_claim : Bytes → Option F
  pub is_positive : F → Bool
  pub is_zero : F → Bool
  pub seconds : F → ℤ
  pub whole : F → ℤ

abbrev pub second : ℕ
second = 1000000000

abbrev pub initial_backoff : ℤ
initial_backoff = pos 2000000000

abbrev pub max_backoff : ℤ
max_backoff = pos 300000000000

abbrev pub or_default : Bytes → Bytes → Bytes
or_default fallback s = if is_empty s then fallback else s

-- The configuration that `New` keeps
unfoldable pub with_defaults : Config → Config
with_defaults cfg = record cfg {
  client_id_file = or_default (codes "/etc/secret/username") cfg.client_id_file;
  client_secret_file = or_default (codes "/etc/secret/password") cfg.client_secret_file;
  renew_before = if ltb_ℤ cfg.renew_before (pos 0) then pos 60000000000 else cfg.renew_before;
  token_file = or_default (codes "/var/run/secrets/tokens/netcracker/token") cfg.token_file;
  watch_interval =
      if not (ltb_ℤ (pos 0) cfg.watch_interval) then pos 15000000000 else cfg.watch_interval;
}

-- `New`
unfoldable pub new_source : {S : Type 0} → S → Source S
new_source s = record { token = []; hash = []; ready = false; store = s }

-- Division by two of a signed integer, towards zero
unfoldable pub half : ℤ → ℤ
half (pos n) = pos (n / 2)
half (negsuc n) = pos 0 -ℤ pos (suc n / 2)

abbrev pub at_least : ℤ → ℤ → ℤ
at_least low x = if ltb_ℤ x low then low else x

-- `renewal`
unfoldable pub renewal : ℤ → ℤ → ℤ
unfolding half ◌-ℤ◌
renewal lifetime renew_before =
    at_least (pos second) (at_least (half lifetime) (lifetime -ℤ renew_before))

-- `min(backoff*2, maxBackoff)`
unfoldable pub next_backoff : ℤ → ℤ
unfolding scale
next_backoff backoff =
    let doubled = scale 2 backoff in if ltb_ℤ max_backoff doubled then max_backoff else doubled

-- `strings.TrimRight` of "="
unfoldable pub drop_equals : Bytes → Bytes
drop_equals [] = []
drop_equals (c ∷ s) =
    let rest = drop_equals s in if (c == b'=') && is_empty rest then [] else c ∷ rest

abbrev pub or_error {ℓ κ} : {E : Type ℓ} {A : Type κ} → E → Option A → Result E A
or_error e none = err e
or_error e (some a) = ok a

abbrev pub token_form : Bytes → Bytes → List (Bytes × Bytes)
token_form id secret =
    (codes "grant_type", codes "client_credentials")
    ∷ (codes "client_id", id)
    ∷ (codes "client_secret", secret)
    ∷ []

abbrev pub file_text : FileError → Bytes
file_text missing = codes "file does not exist"
file_text (unreadable e) = e

abbrev pub bearer_doc : Bytes → Json
bearer_doc token = object (member (codes "bearerToken") (string token) close)

module _ {F S : Type 0} (lib : Outside F S) where
  abbrev pub exp_time : F → Result JwtError ℤ
  exp_time exp = fail_if (lib.is_zero exp) exp_absent >> ok (unix_time (lib.whole exp) (pos 0))

  abbrev pub expiry_of : List Bytes → Result JwtError ℤ
  expiry_of (header ∷ payload ∷ parts) = do
    raw ← or_error decode_payload (lib.base64 (drop_equals payload))
    exp ← or_error parse_claims (lib.exp_claim raw)
    exp_time exp
  expiry_of parts = err too_few_parts

  -- `jwtExpiry`
  unfoldable pub jwt_expiry : Bytes → Result JwtError ℤ
  unfolding split drop_equals unix_time
  jwt_expiry token = expiry_of (split b'.' token)

  -- The lifetime of a token: that of the response, or the time left until the token expires.
  abbrev pub lifetime_of : ℤ → Bytes → F → Result M2mError ℤ
  lifetime_of now token expires_in =
      if lib.is_positive expires_in
      then ok (lib.seconds expires_in)
      else (wrap no_expiry (jwt_expiry token) >>= λ exp.
          fail_if (ltb_ℤ (exp -ℤ now) (pos 0)) (past_expiry exp) >> ok (exp -ℤ now))

  abbrev pub body_of : Response → Result M2mError Bytes
  body_of r = do
    body ← wrap read_response r.body
    fail_if (ltb r.status_code 200 || leb 300 r.status_code) (http_status r.status_code)
    ok (take 1048576 body)

  -- `fetchToken`
  unfoldable pub fetch_token : World → Bytes → Bytes → Bytes → Result M2mError (Bytes × ℤ)
  unfolding jwt_expiry ◌-ℤ◌
  fetch_token w token_url id secret = do
    resp ← wrap post_failed (w.post token_url (token_form id secret))
    body ← body_of resp
    (token, expires_in) ← or_error parse_response (lib.token_response body)
    fail_if (is_empty token) empty_token
    lifetime ← lifetime_of w.now token expires_in
    ok (token, lifetime)

  abbrev pub publish_result : Bytes → Source S → Check Bytes × S → Check M2mError × Source S
  publish_result token s (err e, store) = (err (publish_failed e), record s { store = store })
  publish_result token s (ok _, store) =
      (ok tt, record s { store = store; token = token; ready = true })

  -- `publish`
  unfoldable pub publish : Bytes → Source S → Check M2mError × Source S
  publish token s = publish_result token s (lib.put (codes "m2m") (bearer_doc token) s.store)

  -- `readFile`
  unfoldable pub read_text : World → Bytes → Result FileError Bytes
  read_text w path = w.files path >>= λ raw. ok (lib.trim_space raw)

  -- What `fetchAndPublish` publishes.
  unfoldable pub fetched : Config → World → Result M2mError (Bytes × ℤ)
  unfolding fetch_token read_text
  fetched cfg w = do
    id ← wrap (λ e. read_client_id (file_text e)) (read_text w cfg.client_id_file)
    secret ← wrap (λ e. read_client_secret (file_text e)) (read_text w cfg.client_secret_file)
    fetch_token w cfg.token_url id secret

  abbrev pub with_lifetime : ℤ → Check M2mError × Source S → Result M2mError ℤ × Source S
  with_lifetime lifetime (err e, s) = (err e, s)
  with_lifetime lifetime (ok _, s) = (ok lifetime, s)

  abbrev pub publish_fetched : Result M2mError (Bytes × ℤ) → Source S → Result M2mError ℤ × Source S
  publish_fetched (err e) s = (err e, s)
  publish_fetched (ok (token, lifetime)) s = with_lifetime lifetime (publish token s)

  -- `fetchAndPublish`
  unfoldable pub fetch_and_publish : Config → World → Source S → Result M2mError ℤ × Source S
  unfolding fetched publish
  fetch_and_publish cfg w s = publish_fetched (fetched cfg w) s

  -- One iteration of `runClientCredentials`: the wait that follows, the next backoff and the source; none when
  -- the context ended.
  abbrev pub after_fetch :
      Config → World → ℤ → Result M2mError ℤ × Source S → Option (ℤ × ℤ) × Source S
  after_fetch cfg w backoff (err e, s) =
      (if w.ended then none else some (backoff, next_backoff backoff), s)
  after_fetch cfg w backoff (ok lifetime, s) =
      (some (renewal lifetime cfg.renew_before, initial_backoff), s)

  unfoldable pub iterate : Config → World → ℤ → Source S → Option (ℤ × ℤ) × Source S
  unfolding fetch_and_publish renewal next_backoff
  iterate cfg w backoff s = after_fetch cfg w backoff (fetch_and_publish cfg w s)

  abbrev pub after_wait :
      Option (ℤ × ℤ) × Source S → (ℤ → Source S → List ℤ × Source S) → List ℤ × Source S
  after_wait (none, s) next = ([], s)
  after_wait (some (wait, backoff), s) next = let (waits, s') = next backoff s in (wait ∷ waits, s')

  -- `runClientCredentials`, over what its iterations find: the waits, and the source at the end.
  unfoldable pub run_client_credentials : Config → List World → ℤ → Source S → List ℤ × Source S
  unfolding iterate
  run_client_credentials cfg [] backoff s = ([], s)
  run_client_credentials cfg (w ∷ ws) backoff s =
      after_wait (iterate cfg w backoff s) (run_client_credentials cfg ws)

  abbrev pub with_hash : Bytes → Check M2mError × Source S → Check M2mError × Source S
  with_hash hash (err e, s) = (err e, s)
  with_hash hash (ok _, s) = (ok tt, record s { hash = hash })

  abbrev pub check_content : Bytes → Source S → Check M2mError × Source S
  check_content token s =
      if is_empty token
      then (ok tt, s)
      else (let hash = lib.digest token in
          if equal hash s.hash then (ok tt, s) else with_hash hash (publish token s))

  abbrev pub check_read : Result FileError Bytes → Source S → Check M2mError × Source S
  check_read (err missing) s = (ok tt, s)
  check_read (err (unreadable e)) s = (err (read_file e), s)
  check_read (ok raw) s = check_content (lib.trim_space raw) s

  -- `checkFile`
  unfoldable pub check_file : Config → World → Source S → Check M2mError × Source S
  unfolding publish
  check_file cfg w s = check_read (w.files cfg.token_file) s

  -- `runFile`, over what its checks find
  unfoldable pub run_file : Config → List World → Source S → Source S
  unfolding check_file
  run_file cfg [] s = s
  run_file cfg (w ∷ ws) s = run_file cfg ws (check_file cfg w s).1
