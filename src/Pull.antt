-- ===== src/Pull.antt =====
-- components/authz-agent/internal/pull/pull.go: the documents that the agent loads from the policy source
-- and the status that it reports. The conversions of acconfig, simplifiedpolicies and pips, the JSON
-- encoding and the store of OPA are the record `Outside`; what one load finds outside, the clock
-- included, is a `Tick`. The locks make a load one step; the log is left out.
pub mod Load
pub mod Run
mod Examples
use qubership_authz_agent.Http.{Response}
use qubership_authz_agent.Base.Int.{ℤ, pos, ltb_ℤ, ◌≤ℤ◌}
use qubership_authz_agent.Base.{
  ℕ, take, zero, suc, ◌<◌, Bytes, Bool, true, false, List, [], ◌∷◌, ◌++◌, Option, none, some, codes,
  is_empty, not, ltb, leb, ◌==◌, ◌||◌, Result, ok, err, Check, fail_if, wrap, ◌>>◌, ◌>>=◌,
  if◌then◌else◌,
}

pub record Config (N : Type 0) : Type 0 where
  pub source_url : Bytes
  pub interval : ℤ
  pub http_timeout : ℤ
  pub entitlements : Option N

pub record Conversion : Type 0 where
  pub policy_sets : ℕ
  pub policy_sets_skipped : ℕ
  pub rules : ℕ
  pub rules_skipped : ℕ
  pub rules_deny_skipped : ℕ
  pub policies : ℕ

pub record Status : Type 0 where
  pub policies_loaded : Bool
  pub first_success_at : Bytes
  pub last_success_at : Bytes
  pub reason : Bytes
  pub conversion : Option Conversion

-- What the puller changes: its own fields, and the store behind `Putter`. A time that is zero is none.
pub record Puller (S : Type 0) : Type 0 where
  pub status : Status
  pub first_success : Option ℕ
  pub last_conversion : Option Conversion
  pub store : S

-- The client of a fetch, with its headers, the token of `Tokens`, where there is one, and the time at
-- which a load ends.
pub record Tick : Type 0 where
  pub send : Bytes → List (Bytes × Bytes) → Result Bytes Response
  pub token : Option Bytes
  pub now : ℕ

-- An error by its prefix, with the text of what it wraps.
pub data PullError : Type 0 where
  source_empty : PullError
  send_failed : Bytes → PullError
  read_failed : Bytes → PullError
  bad_status : ℕ → PullError
  fetch_policy_sets : PullError → PullError
  fetch_pips : PullError → PullError
  convert_policy_sets : Bytes → PullError
  convert_pips : Bytes → PullError
  normalize_policies : Bytes → PullError
  normalize_pips : Bytes → PullError
  encode_policies : Bytes → PullError
  encode_pips : Bytes → PullError
  store_policies : Bytes → PullError
  store_pips : Bytes → PullError

-- `L`, `I`, `P`, `Q`: the policies and the PIPs, converted and normalized; `D`: a document of the store.
pub record Outside (N L I P Q D S : Type 0) : Type 0 where
  pub sets_of : Bytes → Result Bytes (L × Conversion)
  pub pips_of : Bytes → Result Bytes I
  pub normal_policies : L → Result Bytes P
  pub normal_items : I → Result Bytes Q
  pub override : Option N → Q → Q
  pub with_activation : P → Q → Q
  pub policies_doc : P → Result Bytes D
  pub pips_doc : Q → Result Bytes D
  pub put : Bytes → D → S → Check Bytes × S
  pub blank : Bytes → Bool
  pub format : ℕ → Bytes

abbrev pub default_interval : ℤ
default_interval = pos 30000000000

abbrev pub default_http_timeout : ℤ
default_http_timeout = pos 30000000000

-- The configuration that `New` keeps
unfoldable pub with_defaults : {N : Type 0} → Config N → Config N
with_defaults cfg = record cfg {
  interval = if ltb_ℤ cfg.interval (pos 0) then default_interval else cfg.interval;
  http_timeout =
      if not (ltb_ℤ (pos 0) cfg.http_timeout) then default_http_timeout else cfg.http_timeout;
}

-- `32<<20`, the largest body that is read
abbrev pub body_limit : ℕ
body_limit = 33554432

abbrev pub headers : Bytes → List (Bytes × Bytes)
headers token =
    let accept = (codes "Accept", codes "application/json") ∷ [] in
    if not (is_empty token)
    then (codes "Authorization", codes "Bearer " ++ token) ∷ accept
    else accept

abbrev pub read_response : Response → Result PullError Bytes
read_response r = do
  raw ← wrap read_failed r.body
  fail_if (ltb r.status_code 200 || leb 300 r.status_code) (bad_status r.status_code)
  ok (take body_limit raw)

-- `fetch`
unfoldable pub fetch : Tick → Bytes → Bytes → Result PullError Bytes
fetch t url token = wrap send_failed (t.send url (headers token)) >>= read_response

abbrev pub or_no_token : Option Bytes → Bytes
or_no_token none = []
or_no_token (some token) = token

abbrev pub is_zero : ℤ → Bool
is_zero (pos n) = n == 0
is_zero v = false

abbrev pub first_or : ℕ → Option ℕ → ℕ
first_or now none = now
first_or now (some first) = first

module _ {N L I P Q D S : Type 0} (lib : Outside N L I P Q D S) where
  -- `PullOnce`, up to the load of what it converted.
  unfoldable pub converted : Config N → Tick → Result PullError (P × Q × Conversion)
  unfolding fetch
  converted cfg t = do
    let token = or_no_token t.token
    policy_sets ←
        wrap fetch_policy_sets
          (fetch t (cfg.source_url ++ codes "/access/v3/config/policySets") token)
    pips_raw ← wrap fetch_pips (fetch t (cfg.source_url ++ codes "/access/v3/config/pips") token)
    (policy_list, stats) ← wrap convert_policy_sets (lib.sets_of policy_sets)
    pip_list ← wrap convert_pips (lib.pips_of pips_raw)
    policies ← wrap normalize_policies (lib.normal_policies policy_list)
    pip_doc ← wrap normalize_pips (lib.normal_items pip_list)
    ok (policies, pip_doc, stats)

  -- The two documents of `load`.
  unfoldable pub documents : Config N → P → Q → Result PullError (D × D)
  documents cfg policies pip_doc = do
    policies_doc ← wrap encode_policies (lib.policies_doc policies)
    pips_doc ←
        wrap encode_pips
          (lib.pips_doc (lib.with_activation policies (lib.override cfg.entitlements pip_doc)))
    ok (policies_doc, pips_doc)

  abbrev pub put_pips : D → Check Bytes × S → Check PullError × S
  put_pips d (err e, s) = (err (store_policies e), s)
  put_pips d (ok _, s) = let (r, s') = lib.put (codes "pips") d s in (wrap store_pips r, s')

  abbrev pub put_both : Result PullError (D × D) → S → Check PullError × S
  put_both (err e) s = (err e, s)
  put_both (ok (policies, pips)) s = put_pips pips (lib.put (codes "policies") policies s)

  -- `load`
  unfoldable pub load : Config N → P → Q → S → Check PullError × S
  unfolding documents
  load cfg policies pip_doc s = put_both (documents cfg policies pip_doc) s

  abbrev pub finish : Conversion → Puller S → Check PullError × S → Check PullError × Puller S
  finish c p (err e, s) = (err e, record p { store = s })
  finish c p (ok _, s) = (ok tt, record p { store = s; last_conversion = some c })

  abbrev pub load_converted :
      Config N → Result PullError (P × Q × Conversion) → Puller S → Check PullError × Puller S
  load_converted cfg (err e) p = (err e, p)
  load_converted cfg (ok (policies, pip_doc, c)) p = finish c p (load cfg policies pip_doc p.store)

  -- `PullOnce`
  unfoldable pub pull_once : Config N → Tick → Puller S → Check PullError × Puller S
  unfolding converted load
  pull_once cfg t p = load_converted cfg (converted cfg t) p

  -- `loaded`
  unfoldable pub loaded : ℕ → Puller S → Puller S
  loaded now p =
      let first = first_or now p.first_success in
      record p {
        first_success = some first;
        status = record {
          policies_loaded = true;
          first_success_at = lib.format first;
          last_success_at = lib.format now;
          reason = [];
          conversion = p.last_conversion;
        };
      }

  -- `disabled`
  unfoldable pub disabled : Bytes → Puller S → Puller S
  disabled reason p = record p {
    status = record {
      policies_loaded = true;
      first_success_at = [];
      last_success_at = [];
      reason = reason;
      conversion = none;
    };
  }

  abbrev pub record_success : ℕ → Check PullError × Puller S → Check PullError × Puller S
  record_success now (err e, p) = (err e, p)
  record_success now (ok _, p) = (ok tt, loaded now p)

  -- `PullNow`
  unfoldable pub pull_now : Config N → Tick → Puller S → Check PullError × Puller S
  unfolding pull_once loaded
  pull_now cfg t p =
      if lib.blank cfg.source_url
      then (err source_empty, p)
      else record_success t.now (pull_once cfg t p)

  -- The loop of `Run`, over the loads it makes until its context ends.
  unfoldable pub pulls : Config N → List Tick → Puller S → Puller S
  unfolding pull_now
  pulls cfg [] p = p
  pulls cfg (t ∷ ts) p = pulls cfg ts (pull_now cfg t p).1

  -- `Run`
  unfoldable pub run : Config N → List Tick → Puller S → Puller S
  unfolding pulls disabled
  run cfg ts p =
      if lib.blank cfg.source_url
      then disabled (codes "pull disabled: source URL empty") p
      else if is_zero cfg.interval
      then disabled (codes "pull disabled: interval is 0") p
      else pulls cfg ts p
