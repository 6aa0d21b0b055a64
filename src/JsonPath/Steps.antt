-- ===== src/JsonPath/Steps.antt =====
-- The steps of `Path.Select` of internal/jsonpath/jsonpath.go that select parts of values.
use qubership_authz_agent.Base.Int.{ℤ, pos, negsuc}
use qubership_authz_agent.Base.{
  ℕ, suc, ◌+◌, ◌-◌, ◌%◌, Bytes, Bool, true, false, List, [], ◌∷◌, ◌++◌, length, take, drop,
  get_elem?, Option, none, some, ltb, leb, Check, Result, ok, err, ◌>>=◌, ◌&&◌, if◌then◌else◌,
}
use qubership_authz_agent.Json.{Json, null, array, object, close}
use qubership_authz_agent.JsonPath.Budget.{Budget, charge, charge_weight}
use qubership_authz_agent.JsonPath.Walk.{
  elements, values, get_in, member_of, Progress, within, walk,
}
use qubership_authz_agent.JsonPath.{Selected, missing, null_parent, out_of_bounds, panicked}

abbrev pub deep_all : Bytes → List Json → List Json → Budget → Progress
deep_all name [] out b = ok (out, b)
deep_all name (v ∷ vs) out b = walk v name out b >>= λ r. deep_all name vs r.0 r.1

-- The kind of a key that one value lacks; `at_doc` is whether the value is the document.
abbrev pub key_missing : Bool → Json → Selected
key_missing true v = missing
key_missing false null = null_parent
key_missing false (object close) = null_parent
key_missing false v = missing

abbrev pub key_all : Bytes → Bool → Bool → List Json → Result Selected (List Json)
key_all name many_ at_doc [] = ok []
key_all name many_ at_doc (v ∷ vs) =
    let rest = key_all name many_ at_doc vs in
    elim (get_in name v) [
      | none ↦ if many_ then rest else err (key_missing at_doc v)
      | some m ↦ rest >>= λ ms. ok (m ∷ ms)
    ]

abbrev pub parts_of : Json → List Json
parts_of (array items) = elements items
parts_of (object members) = values members
parts_of v = []

-- A value that is neither a list nor an object is charged nothing.
abbrev pub has_parts : Json → Bool
has_parts (array items) = true
has_parts (object members) = true
has_parts v = false

unfoldable pub star_all : List Json → List Json → Budget → Progress
unfolding charge
star_all [] out b = ok (out, b)
star_all (v ∷ vs) out b =
    if has_parts v
    then within (charge b (length (parts_of v))) (star_all vs (out ++ parts_of v))
    else star_all vs out b

-- The members that a filter reads are charged by their weight.
abbrev pub charge_reads : Json → List Bytes → Budget → Bool × Budget
charge_reads e [] b = (true, b)
charge_reads e (name ∷ names) b =
    let (passed, b') = charge_weight b (member_of e name) in
    let rest = charge_reads e names b' in if passed then rest else (false, b')

unfoldable pub test_all : (Json → Bool) → List Bytes → List Json → List Json → Budget → Progress
unfolding charge_weight
test_all p reads [] out b = ok (out, b)
test_all p reads (e ∷ es) out b =
    within (charge_reads e reads b) (test_all p reads es (if p e then out ++ e ∷ [] else out))

abbrev pub tested : Bool → Json → Result Selected (List Json)
tested many_ (array items) = ok (elements items)
tested many_ (object members) = ok (object members ∷ [])
tested true v = ok []
tested false v = err missing

unfoldable pub filter_all :
    (Json → Bool) → List Bytes → Bool → List Json → List Json → Budget → Progress
unfolding test_all
filter_all p reads many_ [] out b = ok (out, b)
filter_all p reads many_ (v ∷ vs) out b =
    tested many_ v >>= λ es. test_all p reads es out b >>= λ r. filter_all p reads many_ vs r.0 r.1

-- `i >= -len(list) && i < len(list)`
abbrev pub in_range : ℕ → ℤ → Bool
in_range n (pos i) = ltb i n
in_range n (negsuc i) = leb (suc i) n

-- `(i+len(list))%len(list)`, of an index in range
abbrev pub place : ℕ → ℤ → ℕ
place n (pos i) = (i + n) % n
place n (negsuc i) = (n - suc i) % n

abbrev pub at_place : Option Json → Result Selected Json
at_place none = err panicked
at_place (some v) = ok v

-- `list[(i+len(list))%len(list)]`
abbrev pub element : List Json → ℤ → Result Selected Json
element list i = at_place (get_elem? list (place (length list) i))

abbrev pub pick_all : List Json → List ℤ → Result Selected (List Json)
pick_all list [] = ok []
pick_all list (i ∷ is) =
    let rest = pick_all list is in
    if in_range (length list) i then (element list i >>= λ v. rest >>= λ vs. ok (v ∷ vs)) else rest

-- `clamp`, of a bound of `slice`
unfoldable pub clamp : ℕ → ℕ → Option ℤ → ℕ
clamp n fallback none = fallback
clamp n fallback (some (pos i)) = if ltb i n then i else n
clamp n fallback (some (negsuc i)) = n - suc i

-- `list[a:b]`, which panics where the bounds do not stand in the list, in their order. The code could read on
-- to the capacity of the slice: a bound beyond the length counts as out of range here.
abbrev pub range_of : List Json → ℕ → ℕ → Result Selected (List Json)
range_of list a b =
    if leb a b && leb b (length list) then ok (take (b - a) (drop a list)) else err panicked

-- `slice`
unfoldable pub slice_of : List Json → Option ℤ → Option ℤ → Result Selected (List Json)
unfolding clamp
slice_of list lo hi =
    let n = length list in
    let a = clamp n 0 lo in let b = clamp n n hi in if leb b a then ok [] else range_of list a b

abbrev pub list_of : Json → Option (List Json)
list_of (array items) = some (elements items)
list_of v = none

-- The check before an index list or a slice of one value: `cur[0]` has to be a list.
abbrev pub needs_list : Bool → List Json → Check Selected
needs_list true cur = ok tt
needs_list false [] = err panicked
needs_list false (v ∷ vs) = elim (list_of v) [ none ↦ err missing | some list ↦ ok tt ]

-- The loop of an index list, with `units` to charge for a list, and of a slice.
unfoldable pub lists_all :
    (List Json → ℕ)
    → (List Json → Result Selected (List Json))
    → List Json
    → List Json
    → Budget
    → Progress
unfolding charge
lists_all units pick [] out b = ok (out, b)
lists_all units pick (v ∷ vs) out b = elim (list_of v) [
  | none ↦ lists_all units pick vs out b
  | some list ↦
      within (charge b (units list))
        (λ b'. pick list >>= λ picked. lists_all units pick vs (out ++ picked) b')
]

abbrev pub index_all : ℤ → Bool → List Json → Result Selected (List Json)
index_all i many_ [] = ok []
index_all i many_ (v ∷ vs) =
    let rest = index_all i many_ vs in
    elim (list_of v) [
      | none ↦ if many_ then rest else err missing
      | some list ↦
          if in_range (length list) i
          then (element list i >>= λ e. rest >>= λ es. ok (e ∷ es))
          else (if many_ then rest else err out_of_bounds)
    ]
