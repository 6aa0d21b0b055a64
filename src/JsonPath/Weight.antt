-- ===== src/JsonPath/Weight.antt =====
-- internal/jsonpath/budget.go: the weight of a value, and the weight as far as a limit.
use qubership_authz_agent.Base.{
  ℕ, ◌+◌, ◌-◌, ◌≤◌, length, ltb, if◌then◌else◌, Bool-cases, ◌≡◌, inl, inr, refl, arith,
}
use qubership_authz_agent.Json.{
  Json, null, boolean, number, string, array, object, Items, end, item, Members, close, member,
}

unfoldable mutual
  -- `weight`, up to a limit. A negative limit is 0: every weight is above either.
  pub weight_upto : Json → ℕ → ℕ
  weight_upto null limit = 1
  weight_upto (boolean b) limit = 1
  weight_upto (number n) limit = 1 + length n
  weight_upto (string s) limit = 1 + length s
  weight_upto (array items) limit = items_upto items 1 limit
  weight_upto (object members) limit = members_upto members 1 limit

  pub items_upto : Items → ℕ → ℕ → ℕ
  items_upto end w limit = w
  items_upto (item e items) w limit =
      let rest = items_upto items (w + weight_upto e (limit - w)) limit in
      if ltb limit w then w else rest

  pub members_upto : Members → ℕ → ℕ → ℕ
  members_upto close w limit = w
  members_upto (member k v members) w limit =
      let rest = members_upto members (w + (length k + weight_upto v (limit - w))) limit in
      if ltb limit w then w else rest

unfoldable mutual
  -- The weight of a value: `weight` without a limit
  pub weight : Json → ℕ
  weight null = 1
  weight (boolean b) = 1
  weight (number n) = 1 + length n
  weight (string s) = 1 + length s
  weight (array items) = 1 + items_weight items
  weight (object members) = 1 + members_weight members

  pub items_weight : Items → ℕ
  items_weight end = 0
  items_weight (item e items) = weight e + items_weight items

  pub members_weight : Members → ℕ
  members_weight close = 0
  members_weight (member k v members) = length k + weight v + members_weight members

mutual
  unfolding weight_upto weight

  -- A weight up to a limit is no more than the weight.
  pub weight_upto-le : (v : Json) (limit : ℕ) → weight_upto v limit ≤ weight v
  weight_upto-le null limit = omega arith
  weight_upto-le (boolean b) limit = omega arith
  weight_upto-le (number n) limit = omega arith
  weight_upto-le (string s) limit = omega arith
  weight_upto-le (array items) limit = items_upto-le items 1 limit
  weight_upto-le (object members) limit = members_upto-le members 1 limit

  items_upto-le : (items : Items) (w limit : ℕ) → items_upto items w limit ≤ w + items_weight items
  items_upto-le end w limit = omega arith
  items_upto-le (item e items) w limit = ground (
    arith,
    weight_upto-le e (limit - w),
    items_upto-le items (w + weight_upto e (limit - w)) limit,
  )

  members_upto-le :
      (members : Members) (w limit : ℕ) → members_upto members w limit ≤ w + members_weight members
  members_upto-le close w limit = omega arith
  members_upto-le (member k v members) w limit = ground (
    arith,
    weight_upto-le v (limit - w),
    members_upto-le members (w + (length k + weight_upto v (limit - w))) limit,
  )

-- A weight up to a limit: no more than the whole weight, and the whole weight unless it is above the limit.
abbrev pub IsUpto : ℕ → ℕ → ℕ → ℕ → Type 0
IsUpto low w limit whole = (low ≤ w) × (w ≤ whole) × (w ≤ limit → w ≡ whole)

mutual
  unfolding weight_upto weight

  pub weight_upto-IsUpto : (v : Json) (limit : ℕ) → IsUpto 1 (weight_upto v limit) limit (weight v)
  weight_upto-IsUpto null limit = (omega arith, omega arith, λ h. refl)
  weight_upto-IsUpto (boolean b) limit = (omega arith, omega arith, λ h. refl)
  weight_upto-IsUpto (number n) limit = (omega arith, omega arith, λ h. refl)
  weight_upto-IsUpto (string s) limit = (omega arith, omega arith, λ h. refl)
  weight_upto-IsUpto (array items) limit = items_upto-IsUpto items 1 limit
  weight_upto-IsUpto (object members) limit = members_upto-IsUpto members 1 limit

  items_upto-IsUpto :
      (items : Items) (w limit : ℕ)
      → IsUpto w (items_upto items w limit) limit (w + items_weight items)
  items_upto-IsUpto end w limit = (omega arith, omega arith, λ h. omega arith)
  items_upto-IsUpto (item e items) w limit =
      let (low, high, whole) = weight_upto-IsUpto e (limit - w) in
      let (low', high', whole') = items_upto-IsUpto items (w + weight_upto e (limit - w)) limit in
      elim (Bool-cases (ltb limit w)) [
        | inl over ↦ rw over (omega arith, omega arith, λ h. absurd (ground (arith, over, h)))
        | inr under ↦
            rw under (omega arith, omega arith, λ h. ground (arith, whole, whole', h, under))
      ]

  members_upto-IsUpto :
      (members : Members) (w limit : ℕ)
      → IsUpto w (members_upto members w limit) limit (w + members_weight members)
  members_upto-IsUpto close w limit = (omega arith, omega arith, λ h. omega arith)
  members_upto-IsUpto (member k v members) w limit =
      let (low, high, whole) = weight_upto-IsUpto v (limit - w) in
      let (low', high', whole') =
        members_upto-IsUpto members (w + (length k + weight_upto v (limit - w))) limit in
      elim (Bool-cases (ltb limit w)) [
        | inl over ↦ rw over (omega arith, omega arith, λ h. absurd (ground (arith, over, h)))
        | inr under ↦
            rw under (omega arith, omega arith, λ h. ground (arith, whole, whole', h, under))
      ]
