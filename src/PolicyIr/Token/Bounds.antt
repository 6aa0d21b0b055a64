-- ===== src/PolicyIr/Token/Bounds.antt =====
-- `tokenLen` ends on its fuel, and the token that it finds lies in the text.
use qubership_authz_agent.Base.{
  ℕ, zero, suc, ◌+◌, ◌-◌, ◌<◌, ◌≤◌, Bytes, true, [], ◌∷◌, none, some, ◌==◌, length, get_elem?, drop,
  some_inj, some-or-none, Bool-cases, ◌≡◌, ◌⊎◌, inl, inr, sym, subst, ◌∙◌, ◌↔◌, arith,
}
use qubership_authz_agent.PolicyIr.Token.Reads.{Reads, ends, goes, next_segment_iff, GoesOn-inside}
use qubership_authz_agent.PolicyIr.Token.Tables.{
  Closes, close, nest, get_elem?-length, run_end-span, open_end_iff, span-le,
}
use qubership_authz_agent.PolicyIr.Token.{
  in_run, is_attr_char, is_name_start, span, AttrScanner, new_attr_scanner, next_segment, scan,
  token_len,
}

length-drop : (n : ℕ) (s : Bytes) → length (drop n s) ≡ length s - n
length-drop zero s = omega arith
length-drop (suc n) [] = omega arith
length-drop (suc n) (c ∷ cs) = omega (arith, length-drop n cs)

-- The part closes inside the text.
Closes-le : {s : Bytes} {m : ℕ} → Closes s m → (0 < m) × (m ≤ length s)
Closes-le (close {s} g l e) = let h = get_elem?-length s (span in_run s) g in omega arith
Closes-le (nest {s} {m} g w e) =
    let h = get_elem?-length s (span in_run s) g in
    let (p, q) = Closes-le w in omega (arith, length-drop (span in_run s + 1) s)

-- The ways a segment goes on: a run that a `]` closes, a bracketed part, or a `]`.
next_segment_cases :
    (a : AttrScanner) (j seg c n : ℕ)
    → next_segment a j seg c ≡ some n
    → ((k : ℕ) × (get_elem? a.run_end j ≡ some k) × (get_elem? a.s k ≡ some b']') × (n ≡ k + 1))
      ⊎ ((get_elem? a.open_end (j + 1) ≡ some (some n)) ⊎ (n ≡ j + 1))
unfolding next_segment
next_segment_cases a j seg c n h = elim (Bool-cases (c == b' ')) [
  | inl space ↦ elim (some-or-none (get_elem? a.run_end j)) [
    | inl e ↦ absurd (ground arith)
    | inr (k, e) ↦ elim (some-or-none (get_elem? a.s k)) [
      | inl e' ↦ absurd (ground arith)
      | inr (d, e') ↦ inl (k, e, ground arith, ground arith)
    ]
  ]
  | inr other ↦ elim (Bool-cases (c == b'[')) [
    | inl bracket ↦ inr (inl (ground arith))
    | inr last ↦ inr (inr (ground arith))
  ]
]

-- Where a segment goes on, it goes on behind its byte and inside the text.
next_segment-bounds :
    (s : Bytes) (j seg c n : ℕ)
    → j < length s
    → next_segment (new_attr_scanner s) j seg c ≡ some n
    → (j < n) × (n ≤ length s)
unfolding new_attr_scanner
next_segment-bounds s j seg c n l h = elim (next_segment_cases (new_attr_scanner s) j seg c n h) [
  | inl (k, e, closed, eq) ↦
      let at : j + span in_run (drop j s) ≡ k =
        some_inj (sym (run_end-span s j (omega arith)) ∙ e) in
      omega (arith, get_elem?-length s k closed)
  | inr (inl e) ↦
      let (m, w, eq) = (open_end_iff s (j + 1) n (omega arith)).0 e in
      let (p, q) = Closes-le w in omega (arith, length-drop (j + 1) s)
  | inr (inr e) ↦ omega arith
]

-- The three ways one round of the loop goes.
module _ (f : ℕ) (a : AttrScanner) (j seg : ℕ) where
  scan-none :
      get_elem? a.s (j + span is_attr_char (drop j a.s)) ≡ none
      → scan (suc f) a j seg ≡ some (j + span is_attr_char (drop j a.s))
  unfolding scan
  scan-none e = rw (e, scan)

  module _ (c : ℕ) (here : get_elem? a.s (j + span is_attr_char (drop j a.s)) ≡ some c) where
    scan-stop :
        next_segment a (j + span is_attr_char (drop j a.s)) seg c ≡ none
        → scan (suc f) a j seg ≡ some (j + span is_attr_char (drop j a.s))
    unfolding scan
    scan-stop e = rw (here, scan) (rw e)

    scan-on :
        (n : ℕ)
        → next_segment a (j + span is_attr_char (drop j a.s)) seg c ≡ some n
        → scan (suc f) a j seg ≡ scan f a n n
    unfolding scan
    scan-on n e = rw (here, scan) (rw e)

-- The loop from index `j` ends when the fuel exceeds the rest of the text, at an index of the text
-- that is not before `j`.
pub scan-ends :
    (f : ℕ) (s : Bytes) (j seg : ℕ)
    → j ≤ length s
    → length s < f + j
    → (e : ℕ) × (scan f (new_attr_scanner s) j seg ≡ some e) × (j ≤ e) × (e ≤ length s)
unfolding new_attr_scanner
scan-ends zero s j seg l h = absurd (omega arith)
scan-ends (suc f) s j seg l h =
    let a = new_attr_scanner s in
    let j' = j + span is_attr_char (drop j s) in
    let inside : j' ≤ length s = omega (arith, span-le is_attr_char (drop j s), length-drop j s) in
    elim (some-or-none (get_elem? s j')) [
      | inl e ↦ (j', scan-none f a j seg e, omega arith, inside)
      | inr (c, e) ↦ elim (some-or-none (next_segment a j' seg c)) [
        | inl stop ↦ (j', scan-stop f a j seg c e stop, omega arith, inside)
        | inr (n, on) ↦
            let (p, q) = next_segment-bounds s j' seg c n (get_elem?-length s j' e) on in
            let (end, r, p', q') = scan-ends f s n n q (omega arith) in
            (end, scan-on f a j seg c e n on ∙ r, omega arith, q')
      ]
    ]

-- Where the loop ends, a token ends.
scan-Reads :
    (f : ℕ) (s : Bytes) (j seg e : ℕ) → scan f (new_attr_scanner s) j seg ≡ some e → Reads s j seg e
unfolding new_attr_scanner
scan-Reads zero s j seg e h = unfold scan in absurd (ground (arith, h))
scan-Reads (suc f) s j seg e h =
    let a = new_attr_scanner s in
    let j' = j + span is_attr_char (drop j s) in
    elim (some-or-none (get_elem? s j')) [
      | inl none_here ↦
          let at : j' ≡ e = some_inj (sym (scan-none f a j seg none_here) ∙ h) in
          ends (sym at) (λ n g.
            let (c, here) = GoesOn-inside g in absurd (ground (arith, rw at at none_here, here)))
      | inr (c, here) ↦ elim (some-or-none (next_segment a j' seg c)) [
        | inl stop ↦
            let at : j' ≡ e = some_inj (sym (scan-stop f a j seg c here stop) ∙ h) in
            ends (sym at) (λ n g.
              let on = (next_segment_iff s j' seg c n here).1 (rw (sym at) at g) in
              absurd (ground (arith, stop, on)))
        | inr (n, on) ↦
            goes ((next_segment_iff s j' seg c n here).0 on)
              (scan-Reads f s n n e (sym (scan-on f a j seg c here n on) ∙ h))
      ]
    ]

-- The byte at `i` starts a name.
abbrev pub StartsName : Bytes → ℕ → Type 0
StartsName s i = (c : ℕ) × (get_elem? s i ≡ some c) × (is_name_start c ≡ true)

token_len-start :
    (s : Bytes) (i c e : ℕ)
    → get_elem? s i ≡ some c
    → is_name_start c ≡ true
    → scan (length s + 1) (new_attr_scanner s) (i + 1) (i + 1) ≡ some e
    → token_len (new_attr_scanner s) i ≡ e - i
unfolding token_len new_attr_scanner
token_len-start s i c e g n r = rw g (rw n (rw r))

token_len-zero : (s : Bytes) (i : ℕ) → ¬ StartsName s i → token_len (new_attr_scanner s) i ≡ 0
unfolding token_len new_attr_scanner
token_len-zero s i h = elim (some-or-none (get_elem? s i)) [
  | inl e ↦ rw e
  | inr (c, e) ↦ elim (Bool-cases (is_name_start c)) [
    | inl n ↦ absurd (h (c, e, n))
    | inr n ↦ rw e (rw n)
  ]
]

-- `tokenLen(i)` is the length of the token that starts at `i`, which lies in the text, and is positive exactly where
-- the byte at `i` starts a name; from there the token is the one that is read as far as it goes on. The loop always
-- ends on its fuel.
pub token_len-bounds :
    (s : Bytes) (i : ℕ)
    → i ≤ length s
    → (i + token_len (new_attr_scanner s) i ≤ length s)
      × ((0 < token_len (new_attr_scanner s) i) ↔ StartsName s i)
      × ((¬ StartsName s i) ⊎ Reads s (i + 1) (i + 1) (i + token_len (new_attr_scanner s) i))
token_len-bounds s i h = elim (some-or-none (get_elem? s i)) [
  | inl e ↦ no_token (λ (c, g, n). cc)
  | inr (c, e) ↦ elim (Bool-cases (is_name_start c)) [
    | inl n ↦
        let l = get_elem?-length s i e in
        let (end, r, p, q) =
          scan-ends (length s + 1) s (i + 1) (i + 1) (omega arith) (omega arith) in
        let eq = token_len-start s i c end e n r in
        let at : end ≡ i + token_len (new_attr_scanner s) i = omega (arith, eq, p) in
        (
          omega arith,
          (λ _. (c, e, n), λ _. omega arith),
          inr (
              subst (Reads s (i + 1) (i + 1)) at
                (scan-Reads (length s + 1) s (i + 1) (i + 1) end r)),
        )
    | inr n ↦ no_token (λ (d, g, m). cc)
  ]
]
  where
    no_token :
        ¬ StartsName s i
        → (i + token_len (new_attr_scanner s) i ≤ length s)
          × ((0 < token_len (new_attr_scanner s) i) ↔ StartsName s i)
          × ((¬ StartsName s i) ⊎ Reads s (i + 1) (i + 1) (i + token_len (new_attr_scanner s) i))
    no_token none_here =
        let z = token_len-zero s i none_here in
        (omega arith, (λ p. absurd (omega arith), λ n. absurd (none_here n)), inl none_here)
