-- ===== src/JsonPath/Weigh.antt =====
-- internal/jsonpath/budget.go against a budget that weighs the whole document first.
use qubership_authz_agent.Base.{
  ℕ, zero, suc, ◌+◌, ◌-◌, ◌≤◌, ◌<◌, Bool, true, false, some, ltb, leb, Bool-cases, ◌≡◌, inl, inr,
  refl, sym, ap, some_inj, subst, ◌∙◌, arith,
}
use qubership_authz_agent.Json.{Json}
use qubership_authz_agent.JsonPath.Budget.{
  Budget, allowed, next_bound, weigh, admits_loop, ended-eq, IsSettled, weigh-IsSettled,
  admits_loop-on, admits_loop-ends, admits, charge, after_admits-eq-stop, after_admits-eq-again,
  charge_weight_loop, charge_weight_loop-ends, charge_weight,
}
use qubership_authz_agent.JsonPath.Weight.{weight_upto, weight, weight_upto-IsUpto}

-- What is known of the weight of the document: a lower bound, and once it is weighed the weight.
pub record IsWeighed (b : Budget) : Type 0 where
  pub below : b.doc_weight ≤ weight b.doc
  pub exact : b.weighed ≡ true → b.doc_weight ≡ weight b.doc

weigh-IsWeighed : (bound : ℕ) (b : Budget) → IsWeighed (weigh bound b)
weigh-IsWeighed bound b =
    let (low, high, whole) = weight_upto-IsUpto b.doc bound in
    record { below = high; exact = λ e. whole (ground (arith, e)) }

admits_loop-IsSettled :
    (n : ℕ) (b : Budget) (work : ℕ)
    → IsWeighed b
    → IsSettled b work
    → admits_loop (suc n) b work ≡ some (leb work (allowed (weight b.doc)), b)
unfolding admits_loop
admits_loop-IsSettled n b work v (inl h) =
    let fits : leb work (allowed (weight b.doc)) ≡ true = ground (arith, h, v.below) in
    let under : ltb (allowed b.doc_weight) work ≡ false = ground (arith, h) in rw (fits, under)
admits_loop-IsSettled n b work v (inr e) =
    let is = v.exact e in
    elim (Bool-cases (ltb (allowed b.doc_weight) work)) [
      | inl over ↦
          let large : leb work (allowed (weight b.doc)) ≡ false = ground (arith, over, is) in
          rw (large, over, e)
      | inr under ↦
          let fits : leb work (allowed (weight b.doc)) ≡ true = ground (arith, under, is) in
          rw (fits, under)
    ]

-- What a test of the budget gives: the answer of the whole weight, with the same document and work.
pub record IsAdmitted (b : Budget) (work : ℕ) (r : Bool × Budget) : Type 0 where
  pub answer : r.0 ≡ leb work (allowed (weight b.doc))
  pub weighed : IsWeighed r.1
  pub same_doc : r.1.doc ≡ b.doc
  pub same_spent : r.1.spent ≡ b.spent
  pub settled : IsSettled r.1 work

settled-IsAdmitted :
    (n : ℕ) (b c : Budget) (work : ℕ) (r : Bool × Budget)
    → admits_loop (suc n) c work ≡ some r
    → IsWeighed c
    → IsSettled c work
    → c.doc ≡ b.doc
    → c.spent ≡ b.spent
    → IsAdmitted b work r
settled-IsAdmitted n b c work r e v settled doc spent =
    subst (IsAdmitted b work) (some_inj (sym (admits_loop-IsSettled n c work v settled) ∙ e))
      (record {
        answer = ap (λ d. leb work (allowed (weight d))) doc;
        weighed = v;
        same_doc = doc;
        same_spent = spent;
        settled = settled;
      })

admits_loop-IsAdmitted :
    (b : Budget) (work : ℕ) (r : Bool × Budget)
    → admits_loop 3 b work ≡ some r
    → IsWeighed b
    → IsAdmitted b work r
admits_loop-IsAdmitted b work r e v = elim (Bool-cases (ltb (allowed b.doc_weight) work)) [
  | inl over ↦ elim (Bool-cases b.weighed) [
    | inl is ↦ settled-IsAdmitted 2 b b work r e v (inr is) refl refl
    | inr not_yet ↦
        settled-IsAdmitted 1 b (weigh (next_bound b work) b) work r
          (sym (admits_loop-on 2 b work over not_yet) ∙ e) (weigh-IsWeighed (next_bound b work) b)
          (weigh-IsSettled b work) refl refl
  ]
  | inr under ↦ settled-IsAdmitted 2 b b work r e v (inl (ground (arith, under))) refl refl
]

-- The loop of `admits` ends on its fuel with what `admits` gives.
admits-eq : (b : Budget) (work : ℕ) → admits_loop 3 b work ≡ some (admits b work)
unfolding admits
admits-eq b work = ended-eq (admits_loop 3 b work) (admits_loop-ends b work)

admits-IsAdmitted : (b : Budget) (work : ℕ) → IsWeighed b → IsAdmitted b work (admits b work)
admits-IsAdmitted b work v = admits_loop-IsAdmitted b work (admits b work) (admits-eq b work) v

-- What a charge leaves, where it counts `n` units: it passes exactly when the work fits four times the weight
-- of the document and 4096, and then the work is counted.
pub record IsCharged (b : Budget) (n : ℕ) (r : Bool × Budget) : Type 0 where
  pub answer : r.0 ≡ leb (b.spent + n) (allowed (weight b.doc))
  pub weighed : IsWeighed r.1
  pub same_doc : r.1.doc ≡ b.doc
  pub counted : r.0 ≡ true → r.1.spent ≡ b.spent + n

-- `charge`, which weighs the document only as far as it must, ends within three rounds of its loop and answers
-- as a budget that knows the whole weight would, from any state in which what is known of the weight is true.
pub charge-IsCharged :
    (b : Budget) (n : ℕ)
    → IsWeighed b
    → (admits_loop 3 (record b { spent = b.spent + n }) (b.spent + n) ≡ some (charge b n))
      × IsCharged b n (charge b n)
unfolding charge
charge-IsCharged b n v =
    let b' = record b { spent = b.spent + n } in
    let a = admits-IsAdmitted b' (b.spent + n) (record { below = v.below; exact = v.exact }) in
    (
      admits-eq b' (b.spent + n),
      record {
        answer = a.answer;
        weighed = a.weighed;
        same_doc = a.same_doc;
        counted = λ e. a.same_spent;
      },
    )

-- The charge that a loop gives after another weighing is one of the budget before.
IsCharged-from :
    (b c : Budget) (n : ℕ) (r : Bool × Budget)
    → c.doc ≡ b.doc
    → c.spent ≡ b.spent
    → IsCharged c n r
    → IsCharged b n r
IsCharged-from b c n r doc spent h = record {
  answer =
      h.answer
      ∙ ap (λ d. leb (c.spent + n) (allowed (weight d))) doc
      ∙ ap (λ k. leb (k + n) (allowed (weight b.doc))) spent;
  weighed = h.weighed;
  same_doc = h.same_doc ∙ doc;
  counted = λ e. h.counted e ∙ ap (λ k. k + n) spent;
}

-- Another weighing brings the loop of `chargeWeight` nearer to its end.
weighed-nearer :
    (fuel w : ℕ) (b c : Budget)
    → IsSettled c (b.spent + w)
    → IsWeighed c
    → c.doc ≡ b.doc
    → leb (b.spent + w) (allowed (weight b.doc)) ≡ true
    → leb w (allowed b.doc_weight - b.spent) ≡ false
    → weight b.doc < suc fuel + b.doc_weight
    → weight c.doc < fuel + c.doc_weight
weighed-nearer fuel w b c (inl h) v doc fits over enough =
    let same : weight c.doc ≡ weight b.doc = ap weight doc in ground (arith, h, same, over, enough)
weighed-nearer fuel w b c (inr e) v doc fits over enough =
    let same : weight c.doc ≡ weight b.doc = ap weight doc in
    let is = v.exact e in ground (arith, is, same, over, fits, enough)

charge_weight_loop-IsCharged :
    (fuel : ℕ) (b : Budget) (v : Json)
    → IsWeighed b
    → weight b.doc < fuel + b.doc_weight
    → (r : Bool × Budget) × (charge_weight_loop fuel b v ≡ some r) × IsCharged b (weight v) r
unfolding charge_weight_loop
charge_weight_loop-IsCharged zero b v known enough = absurd (omega (arith, known.below, enough))
charge_weight_loop-IsCharged (suc fuel) b v known enough =
    let left = allowed b.doc_weight - b.spent in
    let w = weight_upto v left in
    let (low, high, whole) = weight_upto-IsUpto v left in
    let a = admits-IsAdmitted b (b.spent + w) known in
    let r = admits b (b.spent + w) in
    elim (Bool-cases (leb w left)) [
      | inl fits ↦
          let is : w ≡ weight v = whole (ground (arith, fits)) in
          let within : true ≡ leb (b.spent + weight v) (allowed (weight b.doc)) =
            sym (ground (arith, fits, low, known.below, is)) in
          (
            (true, record b { spent = b.spent + w }),
            rw fits,
            record {
              answer = within;
              weighed = record { below = known.below; exact = known.exact };
              same_doc = refl;
              counted = λ e. ap (λ k. b.spent + k) is;
            },
          )
      | inr over ↦ elim (Bool-cases r.0) [
        | inl go_on ↦
            let again = charge_weight_loop-IsCharged fuel r.1 v a.weighed (
              weighed-nearer fuel w b r.1 a.settled a.weighed a.same_doc (sym a.answer ∙ go_on) over
                enough) in
            (
              again.0,
              rw over (after_admits-eq-again w r (charge_weight_loop fuel r.1 v) go_on ∙ again.1),
              IsCharged-from b r.1 (weight v) again.0 a.same_doc a.same_spent again.2,
            )
        | inr stop ↦
            let past : false ≡ leb (b.spent + weight v) (allowed (weight b.doc)) =
              sym (ground (arith, high, sym a.answer ∙ stop)) in
            (
              (false, record r.1 { spent = r.1.spent + w }),
              rw over (after_admits-eq-stop w r (charge_weight_loop fuel r.1 v) stop),
              record {
                answer = past;
                weighed = record { below = a.weighed.below; exact = a.weighed.exact };
                same_doc = a.same_doc;
                counted = λ e. cc;
              },
            )
      ]
    ]

-- `chargeWeight` ends within one round more than the document weighs, each of which ends in turn, and answers
-- as a budget that knows the whole weight of the document and of the value would, from any state in which what
-- is known of the weight is true.
pub charge_weight-IsCharged :
    (b : Budget) (v : Json)
    → IsWeighed b
    → (charge_weight_loop (suc (weight b.doc)) b v ≡ some (charge_weight b v))
      × ((c : Budget) (work : ℕ) → admits_loop 3 c work ≡ some (admits c work))
      × IsCharged b (weight v) (charge_weight b v)
unfolding charge_weight
charge_weight-IsCharged b v known =
    let (r, e, h) = charge_weight_loop-IsCharged (suc (weight b.doc)) b v known (omega arith) in
    let ends =
      ended-eq (charge_weight_loop (suc (weight b.doc)) b v)
        (charge_weight_loop-ends (weight b.doc) b v (omega arith)) in
    (ends, admits-eq, subst (IsCharged b (weight v)) (some_inj (sym e ∙ ends)) h)
