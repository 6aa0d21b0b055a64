-- ===== src/JsonPath.antt =====
-- internal/jsonpath: the selection of values from a document by a compiled path. A document is a `Json`
-- whose objects repeat no key; the numbers of Go are natural numbers where they count and signed
-- integers where they index, without a bound.
pub mod Weight
pub mod Budget
pub mod Walk
pub mod Steps
pub mod Function
pub mod Select
pub mod Weigh
pub mod Parts
pub mod StepParts
pub mod Sound
pub mod Document
mod Examples
use qubership_authz_agent.Base.Int.{ℤ}
use qubership_authz_agent.Base.{Bytes, Bool, List, Option}
use qubership_authz_agent.Json.{Json}

-- A step of a path, with what each kind of step holds; the predicate of a filter is a function here as in
-- the code.
pub data Step : Type 0 where
  key : Bytes → Step
  deep : Bytes → Step
  star : Step
  filter : (Json → Bool) → List Bytes → Step
  index : ℤ → Step
  index_list : List ℤ → Step
  slice : Option ℤ → Option ℤ → Step
  root_bracket : Step
  function : Bytes → Step

-- A `Result`: its kind, with the value of the kinds that have one. `panicked` stands for an index
-- or a bound of a slice that is out of range.
pub data Selected : Type 0 where
  one : Json → Selected
  many : List Json → Selected
  missing : Selected
  null_parent : Selected
  out_of_bounds : Selected
  bracket : Selected
  too_large : Selected
  panicked : Selected
