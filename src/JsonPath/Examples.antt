-- ===== src/JsonPath/Examples.antt =====
-- The theorems on selections at concrete inputs: the members "id" of the elements of a list.
use qubership_authz_agent.Base.{
  ℕ, suc, ◌+◌, Bytes, List, [], ◌∷◌, codes, some, ltb, ◌≡◌, ◌≢◌, arith,
}
use qubership_authz_agent.Json.{Json, null, string, array, object, end, item, close, member}
use qubership_authz_agent.JsonPath.Budget.{
  admits_loop, admits, Budget, charge, charge_weight_loop, charge_weight, new_budget,
}
use qubership_authz_agent.JsonPath.Document.{IsPart, select-IsPart, select-ne-panicked}
use qubership_authz_agent.JsonPath.Function.{Doubles}
use qubership_authz_agent.JsonPath.Parts.{Fine}
use qubership_authz_agent.JsonPath.Select.{select}
use qubership_authz_agent.JsonPath.Weigh.{
  IsWeighed, IsCharged, charge-IsCharged, charge_weight-IsCharged,
}
use qubership_authz_agent.JsonPath.Weight.{weight}
use qubership_authz_agent.JsonPath.{Step, key, star, function, panicked}

abbrev naturals : Doubles ℕ
naturals = record {
  nothing = 0;
  parse = λ s. 1;
  plus = λ m n. m + n;
  divide = λ m n. m;
  less = ltb;
  text = λ n. n ∷ [];
  digits = λ n. n ∷ [];
}

abbrev person : Bytes → Json
person id = object (member (codes "id") (string id) close)

abbrev doc : Json
doc = object (
    member (codes "items")
      (array (item (person (codes "a")) (item null (item (person (codes "b")) end)))) close)

abbrev path : List Step
path = key (codes "items") ∷ star ∷ key (codes "id") ∷ []

IsPart-example : Fine (IsPart doc) (select naturals path doc)
IsPart-example = select-IsPart naturals path doc (tt, (tt, (tt, tt)))

panicked-example : select naturals (star ∷ function (codes "max") ∷ []) doc ≢ panicked
panicked-example = select-ne-panicked naturals (star ∷ function (codes "max") ∷ []) doc

new-IsWeighed : (v : Json) → IsWeighed (new_budget v)
new-IsWeighed v = record { below = omega arith; exact = λ e. cc }

IsCharged-example :
    (admits_loop 3 (record (new_budget doc) { spent = 5000 }) 5000
      ≡ some (charge (new_budget doc) 5000))
    × IsCharged (new_budget doc) 5000 (charge (new_budget doc) 5000)
IsCharged-example = charge-IsCharged (new_budget doc) 5000 (new-IsWeighed doc)

charge_weight-example :
    (charge_weight_loop (suc (weight doc)) (new_budget doc) doc
      ≡ some (charge_weight (new_budget doc) doc))
    × ((c : Budget) (work : ℕ) → admits_loop 3 c work ≡ some (admits c work))
    × IsCharged (new_budget doc) (weight doc) (charge_weight (new_budget doc) doc)
charge_weight-example = charge_weight-IsCharged (new_budget doc) doc (new-IsWeighed doc)
