-- ===== src/AgentAuthn/Client.antt =====
-- `fetchWithRetry` of components/authz-agent/internal/authn/authn.go
use qubership_authz_agent.Base.{
  ℕ, zero, suc, Bytes, Option, none, some, codes, starts_with, take, drop, length, ltb, leb, [],
  ◌&&◌, Result, ok, err, Check, if◌then◌else◌,
}
use qubership_authz_agent.Http.{Response}
use qubership_authz_agent.AgentAuthn.{Outside}

pub data ClientError : Type 0 where
  io_failed : Bytes → ClientError
  http_status : ℕ → ClientError

-- `10<<20`, the largest body that is read
abbrev pub body_limit : ℕ
body_limit = 10485760

abbrev pub file_prefix : Bytes
file_prefix = codes "file://"

module _ {W S : Type 0} (lib : Outside W S) where
  abbrev pub body_of : ℕ → Result Bytes Bytes → Result ClientError Bytes
  body_of status (err e) = err (io_failed e)
  body_of status (ok body) =
      if leb 200 status && ltb status 300
      then ok (take body_limit body)
      else err (http_status status)

  abbrev pub received : Result Bytes Response × W → Result ClientError Bytes × W
  received (err e, w) = (err (io_failed e), w)
  received (ok r, w) = (body_of r.status_code r.body, w)

  abbrev pub or_again :
      (ClientError → W → Result ClientError Bytes × W)
      → Result ClientError Bytes × W
      → Result ClientError Bytes × W
  or_again next (ok body, w) = (ok body, w)
  or_again next (err e, w) = next e w

  abbrev pub requested :
      Check Bytes → W → (W → Result ClientError Bytes × W) → Result ClientError Bytes × W
  requested (err e) w send = (err (io_failed e), w)
  requested (ok _) w send = send w

  -- What follows the last attempt: the last error, or no body and no error where there was no attempt.
  abbrev pub given_up : Option ClientError → Result ClientError Bytes
  given_up none = ok []
  given_up (some e) = err e

  -- The loop over the attempts
  unfoldable pub attempts : ℕ → Bytes → Option ClientError → W → Result ClientError Bytes × W
  attempts zero url last w = (given_up last, w)
  attempts (suc n) url last w =
      requested (lib.new_request url) w
        λ w₁. or_again (λ e w₂. attempts n url (some e) w₂) (received (lib.send url w₁))

  abbrev pub read_result : Result Bytes Bytes × W → Result ClientError Bytes × W
  read_result (err e, w) = (err (io_failed e), w)
  read_result (ok body, w) = (ok body, w)

  -- `fetchWithRetry`
  unfoldable pub fetch_with_retry : Bytes → ℕ → W → Result ClientError Bytes × W
  unfolding attempts starts_with
  fetch_with_retry url retries w =
      if starts_with file_prefix url
      then read_result (lib.read_file (drop (length file_prefix) url) w)
      else attempts retries url none w
