-- ===== src/Http.antt =====
-- The answer of an HTTP client: the status code, with what reading the body gives. The clients of the agent and
-- of internal/token share it.
use qubership_authz_agent.Base.{ℕ, Bytes, Result}

pub record Response : Type 0 where
  pub status_code : ℕ
  pub body : Result Bytes Bytes
