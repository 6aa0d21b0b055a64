-- ===== src/JsonPath/Document.antt =====
-- What `Path.Select` of internal/jsonpath/jsonpath.go gives for a document.
use qubership_authz_agent.Base.{
  ℕ, zero, suc, ◌<◌, ◌-◌, ◌==◌, length, get_elem?, Bytes, Bool, true, false, List, [], ◌∷◌, Option,
  none, some, Result, ok, err, All, In, All-of_In, Bool-cases, ◌≡◌, ◌≢◌, inl, inr, refl, subst,
  codes, equal, arith,
}
use qubership_authz_agent.Json.{Json, null, boolean, number, string, array, object}
use qubership_authz_agent.JsonPath.Function.{
  Doubles, Outcome, computed, empty, thrown, panics, length_of, keys_text, first_of, final_of,
  numbers, reduce_list, apply, one_outcome, add_outcome, apply_all, function_of,
}
use qubership_authz_agent.JsonPath.Parts.{IsClosed, Fine, Res}
use qubership_authz_agent.JsonPath.Select.{select}
use qubership_authz_agent.JsonPath.Sound.{HasOne, StepOk, many_or-Fine, select-Fine}
use qubership_authz_agent.JsonPath.Steps.{parts_of, list_of}
use qubership_authz_agent.JsonPath.{
  Step, key, deep, star, filter, index, index_list, slice, root_bracket, function, Selected,
  panicked,
}

-- The document, or an element or a member of a part of it.
pub data IsPart (doc : Json) : Json → Type 0 where
  whole : IsPart doc doc
  inside : {v w : Json} → IsPart doc v → In w (parts_of v) → IsPart doc w

-- The step selects parts of values, and computes nothing.
abbrev pub Selects : Step → Type 0
Selects (function name) = ⊥
Selects s = Unit

IsPart-IsClosed : (doc : Json) → IsClosed (IsPart doc)
IsPart-IsClosed doc v h = All-of_In (IsPart doc) (parts_of v) (λ w m. inside h m)

get_elem?-some :
    {A : Type 0} (xs : List A) (i : ℕ) → i < length xs → (v : A) × (get_elem? xs i ≡ some v)
get_elem?-some [] i h = absurd (omega (arith, h))
get_elem?-some (x ∷ xs) zero h = (x, refl)
get_elem?-some (x ∷ xs) (suc i) h = get_elem?-some xs i (omega (arith, h))

module _ {F : Type 0} (num : Doubles F) where
  Selects-StepOk : (P : Json → Type 0) (ss : List Step) → All Selects ss → All (StepOk num P) ss
  Selects-StepOk P [] h = tt
  Selects-StepOk P (key x ∷ ss) h = (tt, Selects-StepOk P ss h.1)
  Selects-StepOk P (deep x ∷ ss) h = (tt, Selects-StepOk P ss h.1)
  Selects-StepOk P (star ∷ ss) h = (tt, Selects-StepOk P ss h.1)
  Selects-StepOk P (filter p x ∷ ss) h = (tt, Selects-StepOk P ss h.1)
  Selects-StepOk P (index x ∷ ss) h = (tt, Selects-StepOk P ss h.1)
  Selects-StepOk P (index_list x ∷ ss) h = (tt, Selects-StepOk P ss h.1)
  Selects-StepOk P (slice x y ∷ ss) h = (tt, Selects-StepOk P ss h.1)
  Selects-StepOk P (root_bracket ∷ ss) h = (tt, Selects-StepOk P ss h.1)
  Selects-StepOk P (function x ∷ ss) h = absurd h.0

  -- Every value that a path without a function selects is the document or a part of it, at any depth.
  pub select-IsPart :
      (ss : List Step) (doc : Json) → All Selects ss → Fine (IsPart doc) (select num ss doc)
  select-IsPart ss doc h =
      select-Fine num (IsPart doc) (IsPart-IsClosed doc) ss doc (Selects-StepOk (IsPart doc) ss h)
        whole

  abbrev Anything : Json → Type 0
  Anything v = Unit

  All-Anything : (vs : List Json) → All Anything vs
  All-Anything [] = tt
  All-Anything (v ∷ vs) = (tt, All-Anything vs)

  -- The outcome of a function that reads no index out of range
  abbrev Ends : Outcome → Type 0
  Ends panics = ⊥
  Ends o = Unit

  first_of-Ends : (o : Option (List Json)) → Ends (first_of num o)
  first_of-Ends none = tt
  first_of-Ends (some list) = elim (Bool-cases (length list == 0)) [
    | inl e ↦ rw e tt
    | inr n ↦ let (v, e) = get_elem?-some list 0 (ground (arith, n)) in rw (n, e) tt
  ]

  final_of-Ends : (o : Option (List Json)) → Ends (final_of num o)
  final_of-Ends none = tt
  final_of-Ends (some list) = elim (Bool-cases (length list == 0)) [
    | inl e ↦ rw e tt
    | inr n ↦ let (v, e) = get_elem?-some list (length list - 1) (ground (arith, n)) in rw (n, e) tt
  ]

  reduce_list-Ends : (name : Bytes) (o : Option (List Json)) → Ends (reduce_list num name o)
  reduce_list-Ends name none = tt
  reduce_list-Ends name (some list) =
      let nums = numbers num list in
      elim (Bool-cases (length nums == 0)) [
        | inl e ↦ rw e tt
        | inr n ↦ let (v, e) = get_elem?-some nums 0 (ground (arith, n)) in rw (n, e) tt
      ]

  length_of-Ends : (v : Json) → Ends (length_of num v)
  length_of-Ends (array items) = tt
  length_of-Ends (object members) = tt
  length_of-Ends null = tt
  length_of-Ends (boolean x) = tt
  length_of-Ends (number x) = tt
  length_of-Ends (string x) = tt

  keys_text-Ends : (v : Json) → Ends (keys_text num v)
  keys_text-Ends (object members) = tt
  keys_text-Ends (array items) = tt
  keys_text-Ends null = tt
  keys_text-Ends (boolean x) = tt
  keys_text-Ends (number x) = tt
  keys_text-Ends (string x) = tt

  apply-Ends : (name : Bytes) (v : Json) → Ends (apply num name v)
  unfolding apply
  apply-Ends name v = elim (Bool-cases (equal name (codes "length"))) [
    | inl e ↦ rw e (length_of-Ends v)
    | inr a ↦ elim (Bool-cases (equal name (codes "keys"))) [
      | inl e ↦ rw (a, e) (keys_text-Ends v)
      | inr b ↦ elim (Bool-cases (equal name (codes "first"))) [
        | inl e ↦ rw (a, b, e) (first_of-Ends (list_of v))
        | inr c ↦ elim (Bool-cases (equal name (codes "last"))) [
          | inl e ↦ rw (a, b, c, e) (final_of-Ends (list_of v))
          | inr l ↦ rw (a, b, c, l) (reduce_list-Ends name (list_of v))
        ]
      ]
    ]
  ]

  add_outcome-Res :
      (o : Outcome) (r : Result Selected (List Json))
      → Ends o
      → Res Anything r
      → Res Anything (add_outcome num o r)
  add_outcome-Res (computed v) (ok vs) ends h = (tt, h)
  add_outcome-Res (computed v) (err e) ends h = h
  add_outcome-Res empty r ends h = h
  add_outcome-Res thrown r ends h = tt
  add_outcome-Res panics r ends h = absurd ends

  apply_all-Res : (name : Bytes) (cur : List Json) → Res Anything (apply_all num name cur)
  apply_all-Res name [] = tt
  apply_all-Res name (v ∷ vs) =
      add_outcome-Res (apply num name v) _ (apply-Ends name v) (apply_all-Res name vs)

  one_outcome-Fine : (o : Outcome) → Ends o → Fine Anything (one_outcome num o)
  one_outcome-Fine (computed v) ends = tt
  one_outcome-Fine empty ends = tt
  one_outcome-Fine thrown ends = tt
  one_outcome-Fine panics ends = absurd ends

  function_of-Fine :
      (name : Bytes) (cur : List Json) (m : Bool)
      → HasOne m cur
      → Fine Anything (function_of num name cur m)
  unfolding function_of
  function_of-Fine name cur true h =
      many_or-Fine num Anything (apply_all num name cur) (apply_all-Res name cur)
  function_of-Fine name [] false h = absurd (h refl refl)
  function_of-Fine name (v ∷ vs) false h = one_outcome-Fine (apply num name v) (apply-Ends name v)

  any-StepOk : (s : Step) → StepOk num Anything s
  any-StepOk (function name) = λ cur m h one_. function_of-Fine name cur m one_
  any-StepOk (key x) = tt
  any-StepOk (deep x) = tt
  any-StepOk star = tt
  any-StepOk (filter p x) = tt
  any-StepOk (index x) = tt
  any-StepOk (index_list x) = tt
  any-StepOk (slice x y) = tt
  any-StepOk root_bracket = tt

  -- No path panics over any document: where the code reads `cur[0]` a value is selected, where it indexes a list
  -- or the numbers of one the index is within it, and where it slices a list both bounds are.
  pub select-ne-panicked : (ss : List Step) (doc : Json) → select num ss doc ≢ panicked
  select-ne-panicked ss doc e = subst (Fine Anything) e (
      select-Fine num Anything (λ v h. All-Anything (parts_of v)) ss doc
        (All-of_In (StepOk num Anything) ss (λ s m. any-StepOk s)) tt)
