-- ===== src/JsonPath/Parts.antt =====
-- What the steps of `Path.Select` of internal/jsonpath/jsonpath.go select: values with any property that
-- passes from a value to its elements and members.
use qubership_authz_agent.Base.{
  Bytes, Bool, true, false, List, [], ◌∷◌, ◌++◌, equal, Result, ok, err, All, Bool-cases, ◌>>=◌,
  inl, inr,
}
use qubership_authz_agent.Json.{
  Json, null, boolean, number, string, array, object, Items, end, item, Members, close, member,
}
use qubership_authz_agent.JsonPath.Budget.{Budget, charge}
use qubership_authz_agent.JsonPath.Steps.{parts_of}
use qubership_authz_agent.JsonPath.Walk.{
  elements, values, get, Progress, within, found, walk, walk_items, walk_members,
}
use qubership_authz_agent.JsonPath.{Selected, one, many, panicked}

module _ (P : Json → Type 0) where
  -- The property passes to elements and members.
  abbrev pub IsClosed : Type 0
  IsClosed = (v : Json) → P v → All P (parts_of v)

  -- A result whose values have the property, and that is not `panicked`.
  abbrev pub Fine : Selected → Type 0
  Fine (one v) = P v
  Fine (many vs) = All P vs
  Fine panicked = ⊥
  Fine r = Unit

  abbrev pub Out : Progress → Type 0
  Out (ok (out, b)) = All P out
  Out (err r) = Fine r

  abbrev pub Res : Result Selected (List Json) → Type 0
  Res (ok vs) = All P vs
  Res (err r) = Fine r

  pub append-All : (xs ys : List Json) → All P xs → All P ys → All P (xs ++ ys)
  append-All [] ys h k = k
  append-All (x ∷ xs) ys h k = (h.0, append-All xs ys h.1 k)

  pub within-Out :
      (r : Bool × Budget) (next : Budget → Progress)
      → ((b : Budget) → Out (next b))
      → Out (within r next)
  within-Out (true, b) next h = h b
  within-Out (false, b) next h = tt

  pub bind-Out :
      (r : Progress) (next : List Json × Budget → Progress)
      → Out r
      → ((out : List Json) (b : Budget) → All P out → Out (next (out, b)))
      → Out (r >>= next)
  bind-Out (ok (out, b)) next h k = k out b h
  bind-Out (err e) next h k = h

  get-All :
      (name : Bytes) (members : Members) (out : List Json)
      → All P (values members)
      → All P out
      → All P (found (get name members) out)
  get-All name close out h k = k
  get-All name (member l v members) out h k = elim (Bool-cases (equal name l)) [
    | inl e ↦ rw e (append-All out (v ∷ []) k (h.0, tt))
    | inr n ↦ rw n (get-All name members out h.1 k)
  ]

  module _ (closed : IsClosed) where
    mutual
      unfolding walk

      pub walk-Out :
          (v : Json) (name : Bytes) (out : List Json) (b : Budget)
          → P v
          → All P out
          → Out (walk v name out b)
      walk-Out (object members) name out b p k =
          let ms = closed (object members) p in
          within-Out (charge b 1) _ (λ b'.
            walk_members-Out members name (found (get name members) out) b' ms
              (get-All name members out ms k))
      walk-Out (array items) name out b p k =
          within-Out (charge b 1) _
            (λ b'. walk_items-Out items name out b' (closed (array items) p) k)
      walk-Out null name out b p k = within-Out (charge b 1) _ (λ b'. k)
      walk-Out (boolean x) name out b p k = within-Out (charge b 1) _ (λ b'. k)
      walk-Out (number x) name out b p k = within-Out (charge b 1) _ (λ b'. k)
      walk-Out (string x) name out b p k = within-Out (charge b 1) _ (λ b'. k)

      walk_items-Out :
          (items : Items) (name : Bytes) (out : List Json) (b : Budget)
          → All P (elements items)
          → All P out
          → Out (walk_items items name out b)
      walk_items-Out end name out b h k = k
      walk_items-Out (item e items) name out b h k =
          bind-Out (walk e name out b) _ (walk-Out e name out b h.0 k)
            (λ out' b' k'. walk_items-Out items name out' b' h.1 k')

      walk_members-Out :
          (members : Members) (name : Bytes) (out : List Json) (b : Budget)
          → All P (values members)
          → All P out
          → Out (walk_members members name out b)
      walk_members-Out close name out b h k = k
      walk_members-Out (member l v members) name out b h k =
          bind-Out (walk v name out b) _ (walk-Out v name out b h.0 k)
            (λ out' b' k'. walk_members-Out members name out' b' h.1 k')
