-- ===== src/JsonPath/Sound.antt =====
-- The selection of internal/jsonpath/jsonpath.go, step by step: it keeps a property that passes to elements
-- and members, and where it reads `cur[0]` there is one.
use qubership_authz_agent.Base.Int.{ℤ}
use qubership_authz_agent.Base.{
  Bytes, Bool, true, false, List, [], ◌∷◌, length, Option, none, some, Check, Result, ok, err, All,
  Bool-cases, ◌>>=◌, ◌≡◌, ◌≢◌, inl, inr, refl, if◌then◌else◌,
}
use qubership_authz_agent.Json.{Json, null, boolean, number, string, array, object}
use qubership_authz_agent.JsonPath.Budget.{Budget, charge, new_budget}
use qubership_authz_agent.JsonPath.Function.{Doubles, function_input, many_or, function_of}
use qubership_authz_agent.JsonPath.Parts.{IsClosed, Fine, Out, Res}
use qubership_authz_agent.JsonPath.Select.{
  with_budget, charge_inputs, charge_weights, many_after, apply_step, many_within, finish,
  after_step, select_from, starts_bracket, select,
}
use qubership_authz_agent.JsonPath.StepParts.{
  deep_all-Out, star_all-Out, filter_all-Out, pick_all-Res, slice_of-Res, lists_all-Out,
  key_all-Res, index_all-Res,
}
use qubership_authz_agent.JsonPath.Steps.{
  key_missing, key_all, in_range, element, slice_of, list_of, needs_list, index_all,
}
use qubership_authz_agent.JsonPath.Walk.{get_in, Progress}
use qubership_authz_agent.JsonPath.{
  Step, key, deep, star, filter, index, index_list, slice, root_bracket, function, Selected,
  missing, out_of_bounds,
}

-- Where a path selects one value, it has one.
abbrev pub HasOne : Bool → List Json → Type 0
HasOne m cur = m ≡ false → cur ≢ []

abbrev HasOneIn : Bool → Result Selected (List Json) → Type 0
HasOneIn m (ok next) = HasOne m next
HasOneIn m (err r) = Unit

abbrev HasOneOut : Bool → Progress → Type 0
HasOneOut m (ok (next, b)) = HasOne m next
HasOneOut m (err r) = Unit

consed-HasOneIn :
    (m : Bool) (v : Json) (r : Result Selected (List Json)) → HasOneIn m (r >>= λ vs. ok (v ∷ vs))
consed-HasOneIn m v (ok vs) = λ e x. cc
consed-HasOneIn m v (err e) = tt

many-HasOneOut : (r : Progress) → HasOneOut true r
many-HasOneOut (ok (next, b)) = λ e. cc
many-HasOneOut (err r) = tt

many-HasOneIn : (r : Result Selected (List Json)) → HasOneIn true r
many-HasOneIn (ok next) = λ e. cc
many-HasOneIn (err r) = tt

key_all-HasOneIn :
    (name : Bytes) (m at_doc : Bool) (cur : List Json)
    → HasOne m cur
    → HasOneIn m (key_all name m at_doc cur)
key_all-HasOneIn name true at_doc cur h = many-HasOneIn (key_all name true at_doc cur)
key_all-HasOneIn name false at_doc [] h = absurd (h refl refl)
key_all-HasOneIn name false at_doc (v ∷ vs) h = go (get_in name v)
  where
    go :
        (o : Option Json)
        → HasOneIn false (elim o as (λ y. Result Selected (List Json)) [
          | none ↦ err (key_missing at_doc v)
          | some w ↦ key_all name false at_doc vs >>= λ ms. ok (w ∷ ms)
        ])
    go none = tt
    go (some w) = consed-HasOneIn false w (key_all name false at_doc vs)

picked-HasOneIn :
    (b : Bool) (e : Result Selected Json) (r : Result Selected (List Json))
    → HasOneIn false (if b then (e >>= λ v. r >>= λ vs. ok (v ∷ vs)) else err out_of_bounds)
picked-HasOneIn true (ok v) r = consed-HasOneIn false v r
picked-HasOneIn true (err e) r = tt
picked-HasOneIn false e r = tt

index_all-HasOneIn :
    (i : ℤ) (m : Bool) (cur : List Json) → HasOne m cur → HasOneIn m (index_all i m cur)
index_all-HasOneIn i true cur h = many-HasOneIn (index_all i true cur)
index_all-HasOneIn i false [] h = absurd (h refl refl)
index_all-HasOneIn i false (v ∷ vs) h = go (list_of v)
  where
    go :
        (o : Option (List Json))
        → HasOneIn false (elim o as (λ y. Result Selected (List Json)) [
          | none ↦ err missing
          | some list ↦
              if in_range (length list) i
              then (element list i >>= λ e. index_all i false vs >>= λ es. ok (e ∷ es))
              else err out_of_bounds
        ])
    go none = tt
    go (some list) =
        picked-HasOneIn (in_range (length list) i) (element list i) (index_all i false vs)

module _ {F : Type 0} (num : Doubles F) (P : Json → Type 0) where
  -- What is asked of a function: over values with the property, its results have it.
  abbrev pub StepOk : Step → Type 0
  StepOk (function name) =
      (cur : List Json) (m : Bool) → All P cur → HasOne m cur → Fine P (function_of num name cur m)
  StepOk s = Unit

  with_budget-Out :
      (b : Budget) (r : Result Selected (List Json)) → Res P r → Out P (with_budget b r)
  with_budget-Out b (ok next) h = h
  with_budget-Out b (err r) h = h

  with_budget-HasOneOut :
      (m : Bool) (b : Budget) (r : Result Selected (List Json))
      → HasOneIn m r
      → HasOneOut m (with_budget b r)
  with_budget-HasOneOut m b (ok next) h = h
  with_budget-HasOneOut m b (err r) h = tt

  charge_inputs-Fine :
      (cur : List Json) (b : Budget) (next : Budget → Selected)
      → ((b' : Budget) → Fine P (next b'))
      → Fine P (charge_inputs cur b next)
  unfolding charge_inputs
  charge_inputs-Fine [] b next h = h b
  charge_inputs-Fine (v ∷ vs) b next h = elim (Bool-cases (charge b (function_input v)).0) [
    | inl e ↦ rw e (charge_inputs-Fine vs _ next h)
    | inr n ↦ rw n tt
  ]

  needs_list-Out :
      (m : Bool) (cur : List Json) (next : Progress)
      → HasOne m cur
      → Out P next
      → Out P (needs_list m cur >>= λ _. next)
  needs_list-Out true cur next h k = k
  needs_list-Out false [] next h k = absurd (h refl refl)
  needs_list-Out false (v ∷ vs) next h k = go (list_of v)
    where
      go :
          (o : Option (List Json))
          → Out P (
              (elim o as (λ y. Check Selected) [ none ↦ err missing | some list ↦ ok tt ]) >>= λ _.
              next)
      go none = tt
      go (some list) = k

  pub many_or-Fine : (r : Result Selected (List Json)) → Res P r → Fine P (many_or num r)
  many_or-Fine (ok vs) h = h
  many_or-Fine (err r) h = h

  module _ (closed : IsClosed P) where
    apply_step-Out :
        (s : Step) (m at_doc : Bool) (cur : List Json) (b : Budget)
        → StepOk s
        → All P cur
        → HasOne m cur
        → Out P (apply_step num s m at_doc cur b)
          × HasOneOut (many_after s m) (apply_step num s m at_doc cur b)
    unfolding apply_step
    apply_step-Out (function name) m at_doc cur b k h one_ =
        (charge_inputs-Fine cur b _ (λ b'. k cur m h one_), tt)
    apply_step-Out root_bracket m at_doc cur b k h one_ = (tt, tt)
    apply_step-Out (deep name) m at_doc cur b k h one_ =
        (deep_all-Out P closed name cur [] b h tt, many-HasOneOut _)
    apply_step-Out (key name) m at_doc cur b k h one_ = (
      with_budget-Out b _ (key_all-Res P closed name m at_doc cur h),
      with_budget-HasOneOut m b _ (key_all-HasOneIn name m at_doc cur one_),
    )
    apply_step-Out star m at_doc cur b k h one_ =
        (star_all-Out P closed cur [] b h tt, many-HasOneOut _)
    apply_step-Out (filter p reads) m at_doc cur b k h one_ =
        (filter_all-Out P closed p reads m cur [] b h tt, many-HasOneOut _)
    apply_step-Out (index_list is) m at_doc cur b k h one_ = (
      needs_list-Out m cur _ one_
          (lists_all-Out P closed _ _ cur [] b (λ list q. pick_all-Res P closed list is q) h tt),
      many-HasOneOut _,
    )
    apply_step-Out (slice lo hi) m at_doc cur b k h one_ = (
      needs_list-Out m cur _ one_ (
          lists_all-Out P closed _ (λ l. slice_of l lo hi) cur [] b
            (λ list q. slice_of-Res P closed list lo hi q) h tt),
      many-HasOneOut _,
    )
    apply_step-Out (index i) m at_doc cur b k h one_ = (
      with_budget-Out b _ (index_all-Res P closed i m cur h),
      with_budget-HasOneOut m b _ (index_all-HasOneIn i m cur one_),
    )

    many_within-Fine :
        (cur : List Json) (r : Bool × Budget) → All P cur → Fine P (many_within num cur r)
    many_within-Fine cur (true, b) h = h
    many_within-Fine cur (false, b) h = tt

    finish-Fine :
        (m : Bool) (cur : List Json) (b : Budget)
        → All P cur
        → HasOne m cur
        → Fine P (finish num m cur b)
    finish-Fine true cur b h one_ = many_within-Fine cur (charge_weights cur b) h
    finish-Fine false [] b h one_ = absurd (one_ refl refl)
    finish-Fine false (v ∷ vs) b h one_ = h.0

    after_step-Fine :
        (m : Bool) (r : Progress) (next : List Json → Budget → Selected)
        → Out P r × HasOneOut m r
        → ((cur : List Json) (b : Budget) → All P cur → HasOne m cur → Fine P (next cur b))
        → Fine P (after_step num r next)
    after_step-Fine m (ok (cur, b)) next (h, one_) k = k cur b h one_
    after_step-Fine m (err e) next (h, one_) k = h

    select_from-Fine :
        (ss : List Step) (m at_doc : Bool) (cur : List Json) (b : Budget)
        → All StepOk ss
        → All P cur
        → HasOne m cur
        → Fine P (select_from num ss m at_doc cur b)
    unfolding select_from
    select_from-Fine [] m at_doc cur b ks h one_ = finish-Fine m cur b h one_
    select_from-Fine (s ∷ ss) m at_doc cur b (k, ks) h one_ =
        after_step-Fine (many_after s m) (apply_step num s m at_doc cur b) _
          (apply_step-Out s m at_doc cur b k h one_)
          (λ cur' b' h' one'. select_from-Fine ss (many_after s m) false cur' b' ks h' one')

    pub select-Fine :
        (ss : List Step) (doc : Json) → All StepOk ss → P doc → Fine P (select num ss doc)
    unfolding select
    select-Fine ss null ks h = elim (Bool-cases (starts_bracket num ss)) [
      | inl e ↦
          rw e (select_from-Fine ss false true (null ∷ []) (new_budget null) ks (h, tt) (λ _ x. cc))
      | inr n ↦ rw n tt
    ]
    select-Fine ss (boolean x) ks h =
        select_from-Fine ss false true (boolean x ∷ []) (new_budget (boolean x)) ks (h, tt)
          (λ _ z. cc)
    select-Fine ss (number x) ks h =
        select_from-Fine ss false true (number x ∷ []) (new_budget (number x)) ks (h, tt)
          (λ _ z. cc)
    select-Fine ss (string x) ks h =
        select_from-Fine ss false true (string x ∷ []) (new_budget (string x)) ks (h, tt)
          (λ _ z. cc)
    select-Fine ss (array x) ks h =
        select_from-Fine ss false true (array x ∷ []) (new_budget (array x)) ks (h, tt) (λ _ z. cc)
    select-Fine ss (object x) ks h =
        select_from-Fine ss false true (object x ∷ []) (new_budget (object x)) ks (h, tt)
          (λ _ z. cc)
