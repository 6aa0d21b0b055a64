-- ===== src/JsonPath/StepParts.antt =====
-- The steps of `Path.Select` of internal/jsonpath/jsonpath.go that do not scan: what they select keeps a
-- property that passes to elements and members, and they do not panic.
use qubership_authz_agent.Base.Int.{ℤ, pos, negsuc}
use qubership_authz_agent.Base.{
  ℕ, zero, suc, ◌+◌, ◌-◌, ◌<◌, ◌≤◌, Bytes, Bool, true, false, List, [], ◌∷◌, ◌++◌, length, take,
  drop, get_elem?, Option, none, some, equal, leb, Result, ok, err, All, Bool-cases, ◌>>=◌, ◌≡◌,
  inl, inr, refl, ap, arith, if◌then◌else◌,
}
use qubership_authz_agent.Json.{
  Json, null, boolean, number, string, array, object, Members, close, member,
}
use qubership_authz_agent.JsonPath.Budget.{Budget, charge}
use qubership_authz_agent.JsonPath.Steps.{
  deep_all, key_missing, key_all, parts_of, has_parts, star_all, charge_reads, test_all, tested,
  filter_all, in_range, place, at_place, element, pick_all, clamp, slice_of, list_of, lists_all,
  index_all,
}
use qubership_authz_agent.JsonPath.Walk.{values, get, get_in, Progress, within, walk}
use qubership_authz_agent.JsonPath.{Selected, missing, out_of_bounds}
use native.Mathlib.Nat.{mod-lt}
use qubership_authz_agent.JsonPath.Parts.{
  IsClosed, Fine, Out, Res, append-All, within-Out, bind-Out, walk-Out,
}

place-less : (n : ℕ) (i : ℤ) → in_range n i ≡ true → place n i < n
place-less n (pos i) h = let some_ : 0 < n = ground (arith, h) in mod-lt (i + n) some_
place-less n (negsuc i) h = let some_ : 0 < n = ground (arith, h) in mod-lt (n - suc i) some_

module _ (P : Json → Type 0) (closed : IsClosed P) where
  pub deep_all-Out :
      (name : Bytes) (cur out : List Json) (b : Budget)
      → All P cur
      → All P out
      → Out P (deep_all name cur out b)
  deep_all-Out name [] out b h k = k
  deep_all-Out name (v ∷ vs) out b h k =
      bind-Out P (walk v name out b) _ (walk-Out P closed v name out b h.0 k)
        (λ out' b' k'. deep_all-Out name vs out' b' h.1 k')

  pub star_all-Out :
      (cur out : List Json) (b : Budget) → All P cur → All P out → Out P (star_all cur out b)
  unfolding star_all
  star_all-Out [] out b h k = k
  star_all-Out (v ∷ vs) out b h k = elim (Bool-cases (has_parts v)) [
    | inl e ↦ rw e (
        within-Out P (charge b (length (parts_of v))) _ (λ b'.
          star_all-Out vs (out ++ parts_of v) b' h.1
            (append-All P out (parts_of v) k (closed v h.0))))
    | inr n ↦ rw n (star_all-Out vs out b h.1 k)
  ]

  test_all-Out :
      (p : Json → Bool) (reads : List Bytes) (es out : List Json) (b : Budget)
      → All P es
      → All P out
      → Out P (test_all p reads es out b)
  unfolding test_all
  test_all-Out p reads [] out b h k = k
  test_all-Out p reads (e ∷ es) out b h k =
      within-Out P (charge_reads e reads b) _ (λ b'. test_all-Out p reads es _ b' h.1 (kept (p e)))
    where
      kept : (x : Bool) → All P (if x then out ++ e ∷ [] else out)
      kept true = append-All P out (e ∷ []) k (h.0, tt)
      kept false = k

  tested-Res : (m : Bool) (v : Json) → P v → Res P (tested m v)
  tested-Res m (array items) p = closed (array items) p
  tested-Res m (object members) p = (p, tt)
  tested-Res true null p = tt
  tested-Res true (boolean x) p = tt
  tested-Res true (number x) p = tt
  tested-Res true (string x) p = tt
  tested-Res false null p = tt
  tested-Res false (boolean x) p = tt
  tested-Res false (number x) p = tt
  tested-Res false (string x) p = tt

  bind-Res :
      (r : Result Selected (List Json)) (next : List Json → Progress)
      → Res P r
      → ((vs : List Json) → All P vs → Out P (next vs))
      → Out P (r >>= next)
  bind-Res (ok vs) next h k = k vs h
  bind-Res (err e) next h k = h

  pub filter_all-Out :
      (p : Json → Bool) (reads : List Bytes) (m : Bool) (cur out : List Json) (b : Budget)
      → All P cur
      → All P out
      → Out P (filter_all p reads m cur out b)
  unfolding filter_all
  filter_all-Out p reads m [] out b h k = k
  filter_all-Out p reads m (v ∷ vs) out b h k =
      bind-Res (tested m v) _ (tested-Res m v h.0) (λ es hes.
        bind-Out P (test_all p reads es out b) _ (test_all-Out p reads es out b hes k)
          (λ out' b' k'. filter_all-Out p reads m vs out' b' h.1 k'))

  -- An element that is in range
  at_index :
      (list : List Json) (k : ℕ)
      → k < length list
      → All P list
      → (v : Json) × (get_elem? list k ≡ some v) × P v
  at_index [] k l h = absurd (omega (arith, l))
  at_index (v ∷ vs) zero l h = (v, refl, h.0)
  at_index (v ∷ vs) (suc k) l h = at_index vs k (omega (arith, l)) h.1

  element-eq :
      (list : List Json) (i : ℤ)
      → in_range (length list) i ≡ true
      → All P list
      → (v : Json) × (element list i ≡ ok v) × P v
  element-eq list i e h =
      let (v, at, p) = at_index list (place (length list) i) (place-less (length list) i e) h in
      (v, ap at_place at, p)

  consed-Res :
      (v : Json) (r : Result Selected (List Json)) → P v → Res P r → Res P (r >>= λ vs. ok (v ∷ vs))
  consed-Res v (ok vs) p q = (p, q)
  consed-Res v (err e) p q = q

  pub pick_all-Res : (list : List Json) (is : List ℤ) → All P list → Res P (pick_all list is)
  pick_all-Res list [] h = tt
  pick_all-Res list (i ∷ is) h = elim (Bool-cases (in_range (length list) i)) [
    | inl e ↦
        let (v, at, p) = element-eq list i e h in
        rw (e, at) (consed-Res v (pick_all list is) p (pick_all-Res list is h))
    | inr n ↦ rw n (pick_all-Res list is h)
  ]

  take-All : (n : ℕ) (xs : List Json) → All P xs → All P (take n xs)
  take-All zero xs h = tt
  take-All (suc n) [] h = tt
  take-All (suc n) (x ∷ xs) h = (h.0, take-All n xs h.1)

  drop-All : (n : ℕ) (xs : List Json) → All P xs → All P (drop n xs)
  drop-All zero xs h = h
  drop-All (suc n) [] h = tt
  drop-All (suc n) (x ∷ xs) h = drop-All n xs h.1

  clamp-le : (n fallback : ℕ) (o : Option ℤ) → fallback ≤ n → clamp n fallback o ≤ n
  unfolding clamp
  clamp-le n fallback none h = h
  clamp-le n fallback (some (pos i)) h = ground arith
  clamp-le n fallback (some (negsuc i)) h = omega arith

  -- A slice stands in its list, and has elements of it.
  pub slice_of-Res :
      (list : List Json) (lo hi : Option ℤ) → All P list → Res P (slice_of list lo hi)
  unfolding slice_of
  slice_of-Res list lo hi h =
      let n = length list in
      let a = clamp n 0 lo in
      let b = clamp n n hi in
      elim (Bool-cases (leb b a)) [
        | inl e ↦ rw e tt
        | inr d ↦
            let ordered : leb a b ≡ true = ground (arith, d) in
            let inside : leb b n ≡ true = ground (arith, clamp-le n n hi (omega arith)) in
            rw (d, ordered, inside) (take-All (b - a) (drop a list) (drop-All a list h))
      ]

  abbrev MaybeAll : Option (List Json) → Type 0
  MaybeAll none = Unit
  MaybeAll (some list) = All P list

  list_of-MaybeAll : (v : Json) → P v → MaybeAll (list_of v)
  list_of-MaybeAll (array items) p = closed (array items) p
  list_of-MaybeAll null p = tt
  list_of-MaybeAll (boolean x) p = tt
  list_of-MaybeAll (number x) p = tt
  list_of-MaybeAll (string x) p = tt
  list_of-MaybeAll (object x) p = tt

  pub lists_all-Out :
      (units : List Json → ℕ) (pick : List Json → Result Selected (List Json)) (cur out : List Json)
      (b : Budget)
      → ((list : List Json) → All P list → Res P (pick list))
      → All P cur
      → All P out
      → Out P (lists_all units pick cur out b)
  unfolding lists_all
  lists_all-Out units pick [] out b f h k = k
  lists_all-Out units pick (v ∷ vs) out b f h k =
      go (λ out' b' k'. lists_all-Out units pick vs out' b' f h.1 k') (list_of v)
        (list_of-MaybeAll v h.0)
    where
      go :
          ((out' : List Json) (b' : Budget) → All P out' → Out P (lists_all units pick vs out' b'))
          → (o : Option (List Json)) → MaybeAll o
          → Out P (elim o as (λ x. Progress) [
            | none ↦ lists_all units pick vs out b
            | some list ↦
                within
                  (charge b (units list))
                  (λ b'. pick list >>= λ picked. lists_all units pick vs (out ++ picked) b')
          ])
      go rest none q = rest out b k
      go rest (some list) q = within-Out P (charge b (units list)) _ (λ b'.
          bind-Res (pick list) _ (f list q)
            (λ picked hp. rest (out ++ picked) b' (append-All P out picked k hp)))

  abbrev MaybeP : Option Json → Type 0
  MaybeP none = Unit
  MaybeP (some v) = P v

  get-MaybeP :
      (name : Bytes) (members : Members) → All P (values members) → MaybeP (get name members)
  get-MaybeP name close h = tt
  get-MaybeP name (member l v members) h = elim (Bool-cases (equal name l)) [
    | inl e ↦ rw e (h.0)
    | inr n ↦ rw n (get-MaybeP name members h.1)
  ]

  get_in-MaybeP : (name : Bytes) (v : Json) → P v → MaybeP (get_in name v)
  get_in-MaybeP name (object members) p = get-MaybeP name members (closed (object members) p)
  get_in-MaybeP name null p = tt
  get_in-MaybeP name (boolean x) p = tt
  get_in-MaybeP name (number x) p = tt
  get_in-MaybeP name (string x) p = tt
  get_in-MaybeP name (array x) p = tt

  key_missing-Fine : (at_doc : Bool) (v : Json) → Fine P (key_missing at_doc v)
  key_missing-Fine true v = tt
  key_missing-Fine false null = tt
  key_missing-Fine false (object close) = tt
  key_missing-Fine false (object (member k v m)) = tt
  key_missing-Fine false (boolean x) = tt
  key_missing-Fine false (number x) = tt
  key_missing-Fine false (string x) = tt
  key_missing-Fine false (array x) = tt

  pub key_all-Res :
      (name : Bytes) (m at_doc : Bool) (cur : List Json)
      → All P cur
      → Res P (key_all name m at_doc cur)
  key_all-Res name m at_doc [] h = tt
  key_all-Res name m at_doc (v ∷ vs) h =
      go m (get_in name v) (get_in-MaybeP name v h.0) (key_all-Res name m at_doc vs h.1)
    where
      go :
          (x : Bool) (o : Option Json)
          → MaybeP o
          → Res P (key_all name m at_doc vs)
          → Res P (elim o as (λ y. Result Selected (List Json)) [
            | none ↦ if x then key_all name m at_doc vs else err (key_missing at_doc v)
            | some w ↦ key_all name m at_doc vs >>= λ ms. ok (w ∷ ms)
          ])
      go true none p r = r
      go false none p r = key_missing-Fine at_doc v
      go x (some w) p r = consed-Res w (key_all name m at_doc vs) p r

  unless-Res :
      (x : Bool) (r : Result Selected (List Json))
      → Res P r
      → Res P (if x then r else err out_of_bounds)
  unless-Res true r h = h
  unless-Res false r h = tt

  pub index_all-Res : (i : ℤ) (m : Bool) (cur : List Json) → All P cur → Res P (index_all i m cur)
  index_all-Res i m [] h = tt
  index_all-Res i m (v ∷ vs) h =
      go m (list_of v) (list_of-MaybeAll v h.0) (index_all-Res i m vs h.1)
    where
      go :
          (x : Bool) (o : Option (List Json))
          → MaybeAll o
          → Res P (index_all i m vs)
          → Res P (elim o as (λ y. Result Selected (List Json)) [
            | none ↦ if x then index_all i m vs else err missing
            | some list ↦
                if in_range (length list) i
                then (element list i >>= λ e. index_all i m vs >>= λ es. ok (e ∷ es))
                else (if x then index_all i m vs else err out_of_bounds)
          ])
      go true none p r = r
      go false none p r = tt
      go x (some list) p r = elim (Bool-cases (in_range (length list) i)) [
        | inl e ↦
            let (w, at, q) = element-eq list i e p in
            rw (e, at) (consed-Res w (index_all i m vs) q r)
        | inr n ↦ rw n (unless-Res x (index_all i m vs) r)
      ]
