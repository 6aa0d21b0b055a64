-- ===== src/PolicyIr/Token/Reads.antt =====
-- The attribute token of internal/policyir/token.go by what its comments say of it, without the tables: how a
-- token goes on, and where it ends.
use qubership_authz_agent.Base.{
  ℕ, ◌+◌, ◌<◌, Bytes, some, ◌==◌, ltb, get_elem?, drop, some_inj, some-or-none, Bool-cases, true,
  ◌≡◌, inl, inr, sym, subst, ◌∙◌, ◌↔◌, arith,
}
use qubership_authz_agent.PolicyIr.Token.Tables.{
  Closes, get_elem?-length, run_end-span, open_end_iff,
}
use qubership_authz_agent.PolicyIr.Token.{
  in_run, is_attr_char, span, new_attr_scanner, next_segment,
}

-- From the byte at `j`, which is no attribute character, a segment that starts at `seg` goes on to `n`: by a
-- space whose run a `]` ends, by a bracketed part that closes, or by a `]` behind the start of the segment.
pub data GoesOn (s : Bytes) (j seg n : ℕ) : Type 0 where
  spaced :
      get_elem? s j ≡ some b' '
      → get_elem? s (j + span in_run (drop j s)) ≡ some b']'
      → n ≡ j + span in_run (drop j s) + 1
      → GoesOn s j seg n
  bracketed :
      {m : ℕ}
      → get_elem? s j ≡ some b'['
      → Closes (drop (j + 1) s) m
      → n ≡ j + 1 + m
      → GoesOn s j seg n
  closed : get_elem? s j ≡ some b']' → seg < j → n ≡ j + 1 → GoesOn s j seg n

-- The end of a token, from `j` on in a segment that starts at `seg`: behind the attribute characters, the token
-- goes on as long as it can.
pub data Reads (s : Bytes) : (j seg e : ℕ) → Type 0 where
  ends :
      {j seg e : ℕ}
      → e ≡ j + span is_attr_char (drop j s)
      → ((n : ℕ) → ¬ GoesOn s e seg n)
      → Reads s j seg e
  goes :
      {j seg n e : ℕ}
      → GoesOn s (j + span is_attr_char (drop j s)) seg n
      → Reads s n n e
      → Reads s j seg e

next_segment-GoesOn :
    (s : Bytes) (j seg c n : ℕ)
    → get_elem? s j ≡ some c
    → next_segment (new_attr_scanner s) j seg c ≡ some n
    → GoesOn s j seg n
unfolding next_segment new_attr_scanner
next_segment-GoesOn s j seg c n here h =
    let a = new_attr_scanner s in
    let l = get_elem?-length s j here in
    elim (Bool-cases (c == b' ')) [
      | inl space ↦ elim (some-or-none (get_elem? a.run_end j)) [
        | inl e ↦ absurd (ground arith)
        | inr (k, e) ↦ elim (some-or-none (get_elem? s k)) [
          | inl e' ↦ absurd (ground arith)
          | inr (d, e') ↦
              let at : j + span in_run (drop j s) ≡ k =
                some_inj (sym (run_end-span s j (omega (arith, l))) ∙ e) in
              let eq : n ≡ k + 1 = ground arith in
              let last : get_elem? s k ≡ some b']' = ground arith in
              spaced (ground arith) (rw at last) (omega (arith, at, eq))
        ]
      ]
      | inr other ↦ elim (Bool-cases (c == b'[')) [
        | inl bracket ↦
            let set : get_elem? a.open_end (j + 1) ≡ some (some n) = ground arith in
            let (m, w, eq) = (open_end_iff s (j + 1) n (omega (arith, l))).0 set in
            bracketed (ground arith) w eq
        | inr last ↦ closed (ground arith) (ground arith) (ground arith)
      ]
    ]

next_segment-of_GoesOn :
    (s : Bytes) (j seg c n : ℕ)
    → get_elem? s j ≡ some c
    → GoesOn s j seg n
    → next_segment (new_attr_scanner s) j seg c ≡ some n
unfolding next_segment new_attr_scanner
next_segment-of_GoesOn s j seg c n here (spaced g q eq) =
    let is : c ≡ b' ' = some_inj (sym here ∙ g) in
    let l = get_elem?-length s j here in
    rw is (rw (run_end-span s j (omega (arith, l))) (rw q (ground (arith, eq))))
next_segment-of_GoesOn s j seg c n here (bracketed {m} g w eq) =
    let is : c ≡ b'[' = some_inj (sym here ∙ g) in
    let l = get_elem?-length s j here in
    let set = (open_end_iff s (j + 1) n (omega (arith, l))).1 (m, w, eq) in rw is (rw set)
next_segment-of_GoesOn s j seg c n here (closed g behind eq) =
    let is : c ≡ b']' = some_inj (sym here ∙ g) in
    let test : ltb seg j ≡ true = ground (arith, behind) in rw is (rw test (ground (arith, eq)))

-- The `switch` of `tokenLen` reads from the tables where a token goes on.
pub next_segment_iff :
    (s : Bytes) (j seg c n : ℕ)
    → get_elem? s j ≡ some c
    → (next_segment (new_attr_scanner s) j seg c ≡ some n) ↔ GoesOn s j seg n
next_segment_iff s j seg c n here =
    (next_segment-GoesOn s j seg c n here, next_segment-of_GoesOn s j seg c n here)

-- A token goes on only from a byte of the text.
pub GoesOn-inside :
    {s : Bytes} {j seg n : ℕ} → GoesOn s j seg n → (c : ℕ) × (get_elem? s j ≡ some c)
GoesOn-inside (spaced g q eq) = (b' ', g)
GoesOn-inside (bracketed g w eq) = (b'[', g)
GoesOn-inside (closed g behind eq) = (b']', g)

GoesOn-unique : (s : Bytes) (j seg n m : ℕ) → GoesOn s j seg n → GoesOn s j seg m → n ≡ m
GoesOn-unique s j seg n m g g' =
    let (c, here) = GoesOn-inside g in
    some_inj
      (sym ((next_segment_iff s j seg c n here).1 g) ∙ (next_segment_iff s j seg c m here).1 g')

-- A token has one end.
pub Reads-unique : {s : Bytes} {j seg e e' : ℕ} → Reads s j seg e → Reads s j seg e' → e ≡ e'
Reads-unique (ends at stop) (ends at' stop') = at ∙ sym at'
Reads-unique (ends at stop) (goes {n} g r) = absurd (stop n (rw (sym at) at g))
Reads-unique (goes {n} g r) (ends at stop) = absurd (stop n (rw (sym at) at g))
Reads-unique {s} {j} {seg} {e} {e'} (goes {n} g r) (goes {n = m} g' r') =
    let same : m ≡ n = GoesOn-unique s (j + span is_attr_char (drop j s)) seg m n g' g in
    Reads-unique r (subst (λ k. Reads s k k e') same r')
