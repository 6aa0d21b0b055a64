-- ===== src/JsonPath/Function.antt =====
-- The functions that end a path, of internal/jsonpath/jsonpath.go. The floating-point numbers of Go and their
-- text are the record `Doubles`.
use qubership_authz_agent.Base.{
  ℕ, ◌+◌, ◌-◌, ◌==◌, drop, get_elem?, Bytes, Bool, true, false, List, [], ◌∷◌, ◌++◌, length, Option,
  none, some, codes, equal, Result, ok, err, if◌then◌else◌,
}
use qubership_authz_agent.Json.{Json, null, number, string, array, object, Items, end, item}
use qubership_authz_agent.JsonPath.Steps.{list_of}
use qubership_authz_agent.JsonPath.Walk.{elements, keys_of}
use qubership_authz_agent.JsonPath.{Selected, one, many, missing, panicked}

-- `parse` is ParseFloat and adds 0; `divide` is by a count; `digits` is Itoa and `text` is DoubleText.
pub record Doubles (F : Type 0) : Type 0 where
  pub nothing : F
  pub parse : Bytes → F
  pub plus : F → F → F
  pub divide : F → ℕ → F
  pub less : F → F → Bool
  pub text : F → Bytes
  pub digits : ℕ → Bytes

-- An `outcome`, with the value of the kind that has one. `panics` stands for an index out of range.
pub data Outcome : Type 0 where
  computed : Json → Outcome
  empty : Outcome
  thrown : Outcome
  panics : Outcome

-- `functionInput`
abbrev pub input_items : Items → ℕ
input_items end = 0
input_items (item (number n) items) = 1 + length n + input_items items
input_items (item e items) = 1 + input_items items

abbrev pub input_keys : List Bytes → ℕ
input_keys [] = 0
input_keys (k ∷ ks) = 1 + length k + input_keys ks

unfoldable pub function_input : Json → ℕ
function_input (array items) = 1 + input_items items
function_input (object members) = 1 + input_keys (keys_of members)
function_input v = 1

-- `strings.Join` with ", "
abbrev pub join_comma : List Bytes → Bytes
join_comma [] = []
join_comma (k ∷ []) = k
join_comma (k ∷ l ∷ ks) = k ++ codes ", " ++ join_comma (l ∷ ks)

-- An element that the code reads by its index: a panic where the list has none.
abbrev pub value_at : Option Json → Outcome
value_at none = panics
value_at (some v) = computed v

module _ {F : Type 0} (num : Doubles F) where
  abbrev pub length_of : Json → Outcome
  length_of (array items) = computed (number (num.digits (length (elements items))))
  length_of (object members) = computed (number (num.digits (length (keys_of members))))
  length_of v = computed null

  abbrev pub keys_text : Json → Outcome
  keys_text (object members) =
      computed (string (codes "[" ++ join_comma (keys_of members) ++ codes "]"))
  keys_text v = computed null

  abbrev pub first_of : Option (List Json) → Outcome
  first_of none = thrown
  first_of (some list) = if length list == 0 then empty else value_at (get_elem? list 0)

  abbrev pub final_of : Option (List Json) → Outcome
  final_of none = thrown
  final_of (some list) =
      if length list == 0 then empty else value_at (get_elem? list (length list - 1))

  abbrev pub numbers : List Json → List F
  numbers [] = []
  numbers (number n ∷ vs) = num.parse n ∷ numbers vs
  numbers (v ∷ vs) = numbers vs

  abbrev pub total : F → List F → F
  total acc [] = acc
  total acc (f ∷ fs) = total (num.plus acc f) fs

  abbrev pub greatest : F → List F → F
  greatest acc [] = acc
  greatest acc (f ∷ fs) = greatest (if num.less acc f then f else acc) fs

  abbrev pub least : F → List F → F
  least acc [] = acc
  least acc (f ∷ fs) = least (if num.less f acc then f else acc) fs

  abbrev pub reduce : Bytes → F → List F → F
  reduce name acc nums =
      if equal name (codes "sum")
      then total num.nothing nums
      else if equal name (codes "avg")
      then num.divide (total num.nothing nums) (length nums)
      else if equal name (codes "max")
      then greatest acc (drop 1 nums)
      else least acc (drop 1 nums)

  abbrev pub reduce_from : Bytes → Option F → List F → Outcome
  reduce_from name none nums = panics
  reduce_from name (some acc) nums = computed (number (num.text (reduce name acc nums)))

  abbrev pub reduced : Bytes → List F → Outcome
  reduced name nums = if length nums == 0 then thrown else reduce_from name (get_elem? nums 0) nums

  abbrev pub reduce_list : Bytes → Option (List Json) → Outcome
  reduce_list name none = thrown
  reduce_list name (some list) = reduced name (numbers list)

  -- `apply`
  unfoldable pub apply : Bytes → Json → Outcome
  unfolding equal
  apply name x =
      if equal name (codes "length")
      then length_of x
      else if equal name (codes "keys")
      then keys_text x
      else if equal name (codes "first")
      then first_of (list_of x)
      else if equal name (codes "last")
      then final_of (list_of x)
      else reduce_list name (list_of x)

  abbrev pub one_outcome : Outcome → Selected
  one_outcome (computed v) = one v
  one_outcome panics = panicked
  one_outcome o = missing

  abbrev pub add_outcome : Outcome → Result Selected (List Json) → Result Selected (List Json)
  add_outcome (computed v) (ok vs) = ok (v ∷ vs)
  add_outcome (computed v) (err e) = err e
  add_outcome empty rest = rest
  add_outcome thrown rest = err missing
  add_outcome panics rest = err panicked

  abbrev pub apply_all : Bytes → List Json → Result Selected (List Json)
  apply_all name [] = ok []
  apply_all name (v ∷ vs) = add_outcome (apply name v) (apply_all name vs)

  abbrev pub many_or : Result Selected (List Json) → Selected
  many_or (ok vs) = many vs
  many_or (err r) = r

  -- `function`
  unfoldable pub function_of : Bytes → List Json → Bool → Selected
  unfolding apply
  function_of name cur true = many_or (apply_all name cur)
  function_of name [] false = panicked
  function_of name (v ∷ vs) false = one_outcome (apply name v)
