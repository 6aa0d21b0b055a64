-- ===== src/JsonPath/Budget.antt =====
-- internal/jsonpath/budget.go: the work of one selection, counted against the weight of the document, which
-- is weighed only as far as the work requires. A loop is on fuel, with none where the fuel runs out, and what
-- it gives is taken out by the proof that it ends.
use qubership_authz_agent.Base.{
  ℕ, zero, suc, ◌+◌, ◌-◌, ◌*◌, ◌/◌, ◌≤◌, ◌<◌, Bool, true, false, Option, none, some, ltb, leb, not,
  if◌then◌else◌, Bool-cases, ◌≡◌, ◌⊎◌, inl, inr, refl, sym, ap, subst, some_inj, ◌∙◌, arith,
}
use qubership_authz_agent.Json.{Json}
use qubership_authz_agent.JsonPath.Weight.{weight_upto, weight, weight_upto-le}

pub record Budget : Type 0 where
  pub doc : Json
  pub doc_weight : ℕ
  pub weighed : Bool
  pub spent : ℕ

-- `allowed`
abbrev pub allowed : ℕ → ℕ
allowed w = 4 * w + 4096

abbrev pub larger : ℕ → ℕ → ℕ
larger a b = if ltb a b then b else a

-- How far the document is weighed next.
abbrev pub next_bound : Budget → ℕ → ℕ
next_bound b work = larger ((work - 4096 + 4 - 1) / 4) (2 * b.doc_weight)

abbrev pub weigh : ℕ → Budget → Budget
weigh bound b =
    let w = weight_upto b.doc bound in record b { doc_weight = w; weighed = leb w bound }

-- `admits`: the loop on fuel, none when it runs out
unfoldable pub admits_loop : ℕ → Budget → ℕ → Option (Bool × Budget)
unfolding weight_upto
admits_loop zero b work = none
admits_loop (suc fuel) b work =
    let rest = admits_loop fuel (weigh (next_bound b work) b) work in
    if not (ltb (allowed b.doc_weight) work)
    then some (true, b)
    else (if b.weighed then some (false, b) else rest)

-- What a loop gives that ends.
abbrev pub ended :
    (o : Option (Bool × Budget)) → ((r : Bool × Budget) × (o ≡ some r)) → Bool × Budget
ended none h = h.0
ended (some r) h = r

pub ended-eq :
    (o : Option (Bool × Budget)) (h : (r : Bool × Budget) × (o ≡ some r)) → o ≡ some (ended o h)
ended-eq none h = h.1
ended-eq (some r) h = refl

-- The loop ends at once.
abbrev pub IsSettled : Budget → ℕ → Type 0
IsSettled b work = (work ≤ allowed b.doc_weight) ⊎ (b.weighed ≡ true)

admits_loop-ends_settled :
    (n : ℕ) (b : Budget) (work : ℕ)
    → IsSettled b work
    → (r : Bool × Budget) × (admits_loop (suc n) b work ≡ some r)
unfolding admits_loop
admits_loop-ends_settled n b work h = elim (Bool-cases (ltb (allowed b.doc_weight) work)) [
  | inr under ↦ ((true, b), rw under refl)
  | inl over ↦ elim h [
    | inl fits ↦ absurd (ground (arith, over, fits))
    | inr e ↦ ((false, b), rw (over, e) refl)
  ]
]

-- Where the loop goes on, the next weighing settles it.
pub weigh-IsSettled : (b : Budget) (work : ℕ) → IsSettled (weigh (next_bound b work) b) work
weigh-IsSettled b work =
    elim (Bool-cases (leb (weight_upto b.doc (next_bound b work)) (next_bound b work))) [
      | inl e ↦ inr e
      | inr e ↦ inl (ground (arith, e))
    ]

-- Where neither the weight known so far nor the whole weight decides, the document is weighed further.
pub admits_loop-on :
    (n : ℕ) (b : Budget) (work : ℕ)
    → ltb (allowed b.doc_weight) work ≡ true
    → b.weighed ≡ false
    → admits_loop (suc n) b work ≡ admits_loop n (weigh (next_bound b work) b) work
unfolding admits_loop
admits_loop-on n b work over not_yet = rw (over, not_yet)

-- Three rounds are enough: what the second one weighs settles the question.
pub admits_loop-ends :
    (b : Budget) (work : ℕ) → (r : Bool × Budget) × (admits_loop 3 b work ≡ some r)
admits_loop-ends b work = elim (Bool-cases (ltb (allowed b.doc_weight) work)) [
  | inr under ↦ admits_loop-ends_settled 2 b work (inl (ground (arith, under)))
  | inl over ↦ elim (Bool-cases b.weighed) [
    | inl e ↦ admits_loop-ends_settled 2 b work (inr e)
    | inr not_yet ↦
        let (r, e) =
          admits_loop-ends_settled 1 (weigh (next_bound b work) b) work (weigh-IsSettled b work) in
        (r, admits_loop-on 2 b work over not_yet ∙ e)
  ]
]

-- `admits`
unfoldable pub admits : Budget → ℕ → Bool × Budget
unfolding admits_loop
admits b work = ended (admits_loop 3 b work) (admits_loop-ends b work)

-- `charge`
unfoldable pub charge : Budget → ℕ → Bool × Budget
unfolding admits
charge b n = let b' = record b { spent = b.spent + n } in admits b' b'.spent

abbrev pub after_admits : ℕ → Bool × Budget → Option (Bool × Budget) → Option (Bool × Budget)
after_admits w (true, b) again = again
after_admits w (false, b) again = some (false, record b { spent = b.spent + w })

-- `chargeWeight`: the loop on fuel, none when it runs out
unfoldable pub charge_weight_loop : ℕ → Budget → Json → Option (Bool × Budget)
unfolding admits weight_upto
charge_weight_loop zero b v = none
charge_weight_loop (suc fuel) b v =
    let left = allowed b.doc_weight - b.spent in
    let w = weight_upto v left in
    let r = admits b (b.spent + w) in
    let again = charge_weight_loop fuel r.1 v in
    if leb w left then some (true, record b { spent = b.spent + w }) else after_admits w r again

pub after_admits-eq-stop :
    (w : ℕ) (r : Bool × Budget) (again : Option (Bool × Budget))
    → r.0 ≡ false
    → after_admits w r again ≡ some (false, record r.1 { spent = r.1.spent + w })
after_admits-eq-stop w (true, b) again e = cc
after_admits-eq-stop w (false, b) again e = refl

pub after_admits-eq-again :
    (w : ℕ) (r : Bool × Budget) (again : Option (Bool × Budget))
    → r.0 ≡ true
    → after_admits w r again ≡ again
after_admits-eq-again w (true, b) again e = refl
after_admits-eq-again w (false, b) again e = cc

-- What is known of the document when the loop of `admits` passes the work.
admits_loop-known :
    (n : ℕ) (b : Budget) (work : ℕ) (r : Bool × Budget)
    → admits_loop n b work ≡ some r
    → r.0 ≡ true
    → (work ≤ allowed r.1.doc_weight)
      × (r.1.doc ≡ b.doc)
      × ((r.1.doc_weight ≤ b.doc_weight) ⊎ (r.1.doc_weight ≤ weight b.doc))
unfolding admits_loop
admits_loop-known zero b work r e passed = absurd (ground (arith, e))
admits_loop-known (suc n) b work r e passed = elim (Bool-cases (ltb (allowed b.doc_weight) work)) [
  | inr under ↦
      let eq : (true, b) ≡ r = some_inj (rw (under) at e) in
      subst
        (λ (s : Bool × Budget).
          (work ≤ allowed s.1.doc_weight)
          × (s.1.doc ≡ b.doc)
          × ((s.1.doc_weight ≤ b.doc_weight) ⊎ (s.1.doc_weight ≤ weight b.doc)))
        eq (ground (arith, under), refl, inl (omega arith))
  | inl over ↦ elim (Bool-cases b.weighed) [
    | inl e' ↦
        let eq = some_inj (rw (over, e') at e) in
        absurd (ground (arith, ap (λ (s : Bool × Budget). s.0) eq, passed))
    | inr not_yet ↦
        let c = weigh (next_bound b work) b in
        let (fits, doc, known) =
          admits_loop-known n c work r (sym (admits_loop-on n b work over not_yet) ∙ e) passed in
        let high = weight_upto-le b.doc (next_bound b work) in
        (fits, doc, inr (elim known [ inl h ↦ omega (arith, h, high) | inr h ↦ h ]))
  ]
]

-- Where the loop of `chargeWeight` goes on, it knows more of the weight of the document than before, so that
-- as many rounds as that weight are enough.
charge_weight_loop-ends_round :
    (n : ℕ) (b : Budget) (v : Json)
    → ((c : Budget)
        → b.doc_weight < c.doc_weight
        → c.doc_weight ≤ weight b.doc
        → weight c.doc ≡ weight b.doc
        → (r : Bool × Budget) × (charge_weight_loop n c v ≡ some r))
    → (r : Bool × Budget) × (charge_weight_loop (suc n) b v ≡ some r)
unfolding charge_weight_loop admits
charge_weight_loop-ends_round n b v again =
    let left = allowed b.doc_weight - b.spent in
    let w = weight_upto v left in
    let r = admits b (b.spent + w) in
    elim (Bool-cases (leb w left)) [
      | inl fits ↦ ((true, record b { spent = b.spent + w }), rw fits refl)
      | inr over ↦ elim (Bool-cases r.0) [
        | inr stop ↦ (
          (false, record r.1 { spent = r.1.spent + w }),
          rw over (after_admits-eq-stop w r (charge_weight_loop n r.1 v) stop),
        )
        | inl passed ↦
            let (fits, doc, known) =
              admits_loop-known 3 b (b.spent + w) r
                (ended-eq (admits_loop 3 b (b.spent + w)) (admits_loop-ends b (b.spent + w)))
                passed in
            let same : weight r.1.doc ≡ weight b.doc = ap weight doc in
            let more : b.doc_weight < r.1.doc_weight = ground (arith, over, fits) in
            let below : r.1.doc_weight ≤ weight b.doc = elim known [
              | inl h ↦ absurd (omega (arith, h, more))
              | inr h ↦ h
            ] in
            let (s, e) = again r.1 more below same in
            (s, rw over (after_admits-eq-again w r (charge_weight_loop n r.1 v) passed ∙ e))
      ]
    ]

pub charge_weight_loop-ends :
    (n : ℕ) (b : Budget) (v : Json)
    → weight b.doc ≤ n + b.doc_weight
    → (r : Bool × Budget) × (charge_weight_loop (suc n) b v ≡ some r)
charge_weight_loop-ends zero b v enough =
    charge_weight_loop-ends_round zero b v
      (λ c more below same. absurd (omega (arith, more, below, enough)))
charge_weight_loop-ends (suc n) b v enough =
    charge_weight_loop-ends_round (suc n) b v (λ c more below same.
      charge_weight_loop-ends n c v (omega (arith, more, below, enough, same)))

-- `chargeWeight`
unfoldable pub charge_weight : Budget → Json → Bool × Budget
unfolding charge_weight_loop weight
charge_weight b v =
    ended (charge_weight_loop (suc (weight b.doc)) b v)
      (charge_weight_loop-ends (weight b.doc) b v (omega arith))

abbrev pub new_budget : Json → Budget
new_budget doc = record { doc = doc; doc_weight = 0; weighed = false; spent = 0 }
