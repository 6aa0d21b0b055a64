-- ===== src/PolicyStore/Maps.antt =====
-- A Go map from strings, as the list of its entries; the iteration order is that of the list.
use qubership_authz_agent.Base.{
  Bytes, Bool, true, false, List, [], ◌∷◌, Option, none, some, equal, equal_iff, equal_refl,
  equal-ne, ltb, ◌==◌, ◌||◌, ◌&&◌, if◌then◌else◌, In, Bool-cases, ◌≡◌, ◌≢◌, ◌↔◌, ◌⊎◌, inl, inr,
  refl, sym, subst, some_inj, ◌∙◌, arith,
}

unfoldable pub find {ℓ} : {A : Type ℓ} → Bytes → List (Bytes × A) → Option A
find k [] = none
find k ((l, a) ∷ m) = let rest = find k m in if equal k l then some a else rest

-- `m[k] = a`: the entry of the key is replaced, or a new entry is added.
unfoldable pub put {ℓ} : {A : Type ℓ} → Bytes → A → List (Bytes × A) → List (Bytes × A)
put k a [] = (k, a) ∷ []
put k a ((l, b) ∷ m) = let rest = put k a m in if equal k l then (l, a) ∷ m else (l, b) ∷ rest

-- `delete(m, k)`
unfoldable pub remove_key {ℓ} : {A : Type ℓ} → Bytes → List (Bytes × A) → List (Bytes × A)
remove_key k [] = []
remove_key k ((l, b) ∷ m) = let rest = remove_key k m in if equal k l then rest else (l, b) ∷ rest

unfoldable pub keys {ℓ} : {A : Type ℓ} → List (Bytes × A) → List Bytes
keys [] = []
keys ((l, a) ∷ m) = l ∷ keys m

-- The order of Go strings, byte by byte.
unfoldable pub at_most : Bytes → Bytes → Bool
at_most [] t = true
at_most (c ∷ s) [] = false
at_most (c ∷ s) (d ∷ t) = let rest = at_most s t in ltb c d || ((c == d) && rest)

unfoldable pub insert : Bytes → List Bytes → List Bytes
unfolding at_most
insert s [] = s ∷ []
insert s (t ∷ ts) = let rest = insert s ts in if at_most s t then s ∷ t ∷ ts else t ∷ rest

-- `sort.Strings`
unfoldable pub sort : List Bytes → List Bytes
unfolding insert
sort [] = []
sort (s ∷ ss) = insert s (sort ss)

module _ {ℓ} {A : Type ℓ} where
  pub find-put : (k : Bytes) (a : A) (m : List (Bytes × A)) → find k (put k a m) ≡ some a
  unfolding find put
  find-put k a [] = rw (equal_refl k) refl
  find-put k a ((l, b) ∷ m) = elim (Bool-cases (equal k l)) [
    | inl e ↦ rw (e, e) refl
    | inr n ↦ rw (n, n) (find-put k a m)
  ]

  pub find-put_other :
      (j k : Bytes) (a : A) (m : List (Bytes × A)) → j ≢ k → find j (put k a m) ≡ find j m
  unfolding find put
  find-put_other j k a [] h = rw (equal-ne j k h) refl
  find-put_other j k a ((l, b) ∷ m) h = elim (Bool-cases (equal k l)) [
    | inl e ↦ ground (arith, equal-ne j l (λ q. h (q ∙ sym ((equal_iff k l).0 e))))
    | inr n ↦ ground (arith, find-put_other j k a m h)
  ]

  pub find-put_cases :
      (j k : Bytes) (a b : A) (m : List (Bytes × A))
      → find j (put k a m) ≡ some b
      → ((j ≡ k) × (b ≡ a)) ⊎ ((j ≢ k) × (find j m ≡ some b))
  find-put_cases j k a b m h = elim (Bool-cases (equal j k)) [
    | inl e ↦
        let same = (equal_iff j k).0 e in
        inl (
          same,
          some_inj (sym h ∙ (subst (λ x. find x (put k a m) ≡ some a) (sym same) (find-put k a m))),
        )
    | inr n ↦
        let other : j ≢ k = λ q. absurd (ground (arith, (equal_iff j k).1 q)) in
        inr (other, sym (find-put_other j k a m other) ∙ h)
  ]

  -- A replaced entry that is put back leaves the map as it was.
  pub put-put_back :
      (k : Bytes) (a b : A) (m : List (Bytes × A)) → find k m ≡ some b → put k b (put k a m) ≡ m
  unfolding find put
  put-put_back k a b [] h = cc
  put-put_back k a b ((l, c) ∷ m) h = elim (Bool-cases (equal k l)) [
    | inl e ↦ ground (arith)
    | inr n ↦ ground (arith, put-put_back k a b m)
  ]

  remove_key_absent : (k : Bytes) (m : List (Bytes × A)) → find k m ≡ none → remove_key k m ≡ m
  unfolding find remove_key
  remove_key_absent k [] h = refl
  remove_key_absent k ((l, c) ∷ m) h = elim (Bool-cases (equal k l)) [
    | inl e ↦ ground arith
    | inr n ↦ ground (arith, remove_key_absent k m)
  ]

  -- A new entry that is deleted leaves the map as it was.
  pub remove_key-put :
      (k : Bytes) (a : A) (m : List (Bytes × A)) → find k m ≡ none → remove_key k (put k a m) ≡ m
  unfolding find put remove_key
  remove_key-put k a [] h = rw (equal_refl k) refl
  remove_key-put k a ((l, c) ∷ m) h = elim (Bool-cases (equal k l)) [
    | inl e ↦ ground arith
    | inr n ↦ ground (arith, remove_key-put k a m)
  ]

  pub keys-find :
      (k : Bytes) (m : List (Bytes × A)) → In k (keys m) ↔ ((a : A) × (find k m ≡ some a))
  unfolding find keys
  keys-find k [] = (λ h. absurd h, λ (a, e). cc)
  keys-find k ((l, b) ∷ m) = elim (Bool-cases (equal k l)) [
    | inl e ↦ (λ h. (b, ground arith), λ h. inl ((equal_iff k l).0 e))
    | inr n ↦
        let (f, g) = keys-find k m in
        (
          λ h. elim h [
            | inl q ↦ absurd (ground (arith, (equal_iff k l).1 q))
            | inr r ↦ rw (n) (f r)
          ],
          λ (a, q). inr (g (a, ground arith)),
        )
  ]

In-insert : (x s : Bytes) (ts : List Bytes) → In x (insert s ts) ↔ (x ≡ s) ⊎ In x ts
unfolding insert
In-insert x s [] = (λ h. h, λ h. h)
In-insert x s (t ∷ ts) =
    let (f, g) = In-insert x s ts in
    elim (Bool-cases (at_most s t)) [
      | inl e ↦ rw (e) (λ h. h, λ h. h)
      | inr n ↦ rw (n) (
        λ h. elim h [
          | inl q ↦ inr (inl q)
          | inr r ↦ elim (f r) [ inl q ↦ inl q | inr u ↦ inr (inr u) ]
        ],
        λ h. elim h [
          | inl q ↦ inr (g (inl q))
          | inr r ↦ elim r [ inl q ↦ inl q | inr u ↦ inr (g (inr u)) ]
        ],
      )
    ]

pub In-sort : (x : Bytes) (ss : List Bytes) → In x (sort ss) ↔ In x ss
unfolding sort
In-sort x [] = (λ h. h, λ h. h)
In-sort x (s ∷ ss) =
    let (f, g) = In-sort x ss in
    let (i, j) = In-insert x s (sort ss) in
    (
      λ h. elim (i h) [ inl q ↦ inl q | inr r ↦ inr (f r) ],
      λ h. j (elim h [ inl q ↦ inl q | inr r ↦ inr (g r) ]),
    )
