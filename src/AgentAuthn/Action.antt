-- ===== src/AgentAuthn/Action.antt =====
-- Calls that change a state and may fail: the shape of the methods of the manager of authn.go and of the
-- client that they use.
use qubership_authz_agent.Base.{Result, ok, err}

abbrev pub Action : Type 0 → Type 0 → Type 0 → Type 0
Action S E A = S → Result E A × S

module _ {S E : Type 0} where
  abbrev pub lift : {A : Type 0} → Result E A → Action S E A
  lift r s = (r, s)

  abbrev pub done : {A : Type 0} → A → Action S E A
  done a s = (ok a, s)

  abbrev pub continue : {A B : Type 0} → (A → Action S E B) → Result E A × S → Result E B × S
  continue f (ok a, s) = f a s
  continue f (err e, s) = (err e, s)

  infixl 5 ◌>>=◌ ◌>>◌
  abbrev pub ◌>>=◌ : {A B : Type 0} → Action S E A → (A → Action S E B) → Action S E B
  (m >>= f) s = continue f (m s)

  abbrev pub ◌>>◌ : {B : Type 0} → Action S E (Unit {0}) → Action S E B → Action S E B
  m >> k = m >>= λ _. k

-- `if err != nil { return …, failure(err) }`
abbrev pub wrapped : {S E F A : Type 0} → (E → F) → Result E A × S → Result F A × S
wrapped f (ok a, s) = (ok a, s)
wrapped f (err e, s) = (err (f e), s)

abbrev pub or_fail : {S E F A : Type 0} → (E → F) → Action S E A → Action S F A
or_fail f m s = wrapped f (m s)

-- What holds of every error, and of all that the next call returns, holds of both in a row.
pub continue-result :
    {S E A B : Type 0} (P : Result E B → Type 0) (f : A → Action S E B) (o : Result E A × S)
    → ((e : E) → P (err e))
    → ((a : A) (s : S) → P (f a s).0)
    → P (continue f o).0
continue-result P f (ok a, s) h k = k a s
continue-result P f (err e, s) h k = h e
