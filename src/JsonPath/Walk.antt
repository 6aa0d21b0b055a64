-- ===== src/JsonPath/Walk.antt =====
-- What the steps of internal/jsonpath/jsonpath.go read of a value: elements, members, and `walk`.
use qubership_authz_agent.Base.{
  Bytes, Bool, true, false, List, [], ◌∷◌, ◌++◌, Option, none, some, equal, is_empty, Result, ok,
  err, ◌>>=◌, if◌then◌else◌,
}
use qubership_authz_agent.Json.{Json, null, array, object, Items, end, item, Members, close, member}
use qubership_authz_agent.JsonPath.Budget.{Budget, charge}
use qubership_authz_agent.JsonPath.{Selected, too_large}

abbrev pub elements : Items → List Json
elements end = []
elements (item e items) = e ∷ elements items

-- `appendMembers` to an empty slice
abbrev pub values : Members → List Json
values close = []
values (member k v members) = v ∷ values members

abbrev pub keys_of : Members → List Bytes
keys_of close = []
keys_of (member k v members) = k ∷ keys_of members

-- `Object.Get`
abbrev pub get : Bytes → Members → Option Json
get name close = none
get name (member k v members) = let rest = get name members in if equal name k then some v else rest

abbrev pub get_in : Bytes → Json → Option Json
get_in name (object members) = get name members
get_in name v = none

-- `member` of filter.go: a member that is missing weighs as much as null.
abbrev pub or_null : Option Json → Json
or_null none = null
or_null (some v) = v

abbrev pub member_of : Json → Bytes → Json
member_of e name = if is_empty name then e else or_null (get_in name e)

-- What is selected so far with the budget, or the result that ends the selection.
abbrev pub Progress : Type 0
Progress = Result Selected (List Json × Budget)

abbrev pub within : Bool × Budget → (Budget → Progress) → Progress
within (true, b) next = next b
within (false, b) next = err too_large

abbrev pub found : Option Json → List Json → List Json
found none out = out
found (some m) out = out ++ m ∷ []

unfoldable mutual
  unfolding charge

  -- `walk`
  pub walk : Json → Bytes → List Json → Budget → Progress
  walk (object members) name out b =
      within (charge b 1) (walk_members members name (found (get name members) out))
  walk (array items) name out b = within (charge b 1) (walk_items items name out)
  walk v name out b = within (charge b 1) (λ b'. ok (out, b'))

  pub walk_items : Items → Bytes → List Json → Budget → Progress
  walk_items end name out b = ok (out, b)
  walk_items (item e items) name out b = walk e name out b >>= λ r. walk_items items name r.0 r.1

  pub walk_members : Members → Bytes → List Json → Budget → Progress
  walk_members close name out b = ok (out, b)
  walk_members (member k v members) name out b =
      walk v name out b >>= λ r. walk_members members name r.0 r.1
