-- ===== src/PolicyIr/Token/Tables.antt =====
-- The tables of the scanner against what they stand for.
use native.Mathlib.Numerals.{add-one}
use qubership_authz_agent.Base.{
  ℕ, zero, suc, ◌+◌, ◌-◌, ◌<◌, ◌≤◌, Bytes, Bool, List, [], ◌∷◌, Option, none, some, ◌==◌, length,
  get_elem?, drop, some_inj, Bool-cases, ◌≡◌, ◌⊎◌, inl, inr, refl, sym, ap, ◌∙◌, ◌↔◌, arith,
}
use qubership_authz_agent.PolicyIr.Token.{
  in_run, run_ends, open_entry, open_ends, span, new_attr_scanner,
}

pub span-le : (p : ℕ → Bool) (s : Bytes) → span p s ≤ length s
unfolding span
span-le p [] = omega arith
span-le p (c ∷ cs) = ground (arith, span-le p cs)

-- The entry of `runEnd` at the start of a text is behind its run.
run_ends-head : (j : ℕ) (s : Bytes) → (ks : List ℕ) × (run_ends j s ≡ (j + span in_run s) ∷ ks)
unfolding run_ends span
run_ends-head j [] = ([], ground arith)
run_ends-head j (c ∷ cs) = (run_ends (j + 1) cs, ground (arith, (run_ends-head (j + 1) cs).1))

run_ends-at :
    (j i : ℕ) (s : Bytes)
    → i ≤ length s
    → get_elem? (run_ends j s) i ≡ some (j + i + span in_run (drop i s))
unfolding run_ends
run_ends-at j zero s h = ground (arith, (run_ends-head j s).1)
run_ends-at j (suc i) [] h = absurd (omega arith)
run_ends-at j (suc i) (c ∷ cs) h = run_ends-at (j + 1) i cs (omega arith) ∙ ap some (omega arith)

drop-le : (n : ℕ) (s : Bytes) → length (drop n s) ≤ length s
drop-le zero s = omega arith
drop-le (suc n) [] = omega arith
drop-le (suc n) (c ∷ cs) = omega (arith, drop-le n cs)

-- `runEnd[i]` is the first index at or after `i` whose byte is neither an attribute character nor a
-- space, for every index up to the length.
pub run_end-span :
    (s : Bytes) (i : ℕ)
    → i ≤ length s
    → get_elem? (new_attr_scanner s).run_end i ≡ some (i + span in_run (drop i s))
unfolding new_attr_scanner
run_end-span s i h = run_ends-at 0 i s h ∙ ap some (omega arith)

-- The text behind a `[` closes its bracketed part with the byte before index `n`: a run, then a `]`
-- that closes a nonempty run, or a `[` whose own part closes.
pub data Closes : Bytes → ℕ → Type 0 where
  close :
      {s : Bytes} {n : ℕ}
      → get_elem? s (span in_run s) ≡ some b']'
      → 0 < span in_run s
      → n ≡ span in_run s + 1
      → Closes s n
  nest :
      {s : Bytes} {m n : ℕ}
      → get_elem? s (span in_run s) ≡ some b'['
      → Closes (drop (span in_run s + 1) s) m
      → n ≡ span in_run s + 1 + m
      → Closes s n

-- The table for the text from index `j` on.
abbrev table : ℕ → Bytes → List (Option ℕ)
table j s = open_ends j s (run_ends j s)

table-at :
    (j i : ℕ) (s : Bytes)
    → i ≤ length s
    → get_elem? (table j s) i ≡ get_elem? (table (j + i) (drop i s)) 0
unfolding run_ends open_ends
table-at j zero s h = ap (λ (x : ℕ). get_elem? (table x s) 0) (omega arith)
table-at j (suc i) [] h = absurd (omega arith)
table-at j (suc i) (c ∷ cs) h =
    table-at (j + 1) i cs (omega arith)
    ∙ ap (λ (x : ℕ). get_elem? (table x (drop i cs)) 0) (omega arith)

run_ends-cons :
    (j c : ℕ) (cs : Bytes) → run_ends j (c ∷ cs) ≡ (j + span in_run (c ∷ cs)) ∷ run_ends (j + 1) cs
unfolding run_ends span
run_ends-cons j c cs = ground (arith, (run_ends-head (j + 1) cs).1)

drop-lt : (n c : ℕ) (cs : Bytes) → length (drop (n + 1) (c ∷ cs)) ≤ length cs
drop-lt n c cs = rw add-one (drop-le n cs)

table-head :
    (j c : ℕ) (cs : Bytes)
    → get_elem? (table j (c ∷ cs)) 0
      ≡ some (
          open_entry j
            (j + span in_run (c ∷ cs))
            (get_elem? (c ∷ cs) (span in_run (c ∷ cs)))
            (table (j + 1) cs))
unfolding open_ends
table-head j c cs =
    let e : j + span in_run (c ∷ cs) - j ≡ span in_run (c ∷ cs) = omega arith in
    rw (run_ends-cons j c cs) (rw e)

pub get_elem?-length : (s : Bytes) (i : ℕ) {d : ℕ} → get_elem? s i ≡ some d → i < length s
get_elem?-length [] i h = cc
get_elem?-length (c ∷ cs) zero h = omega arith
get_elem?-length (c ∷ cs) (suc i) h = omega (arith, get_elem?-length cs i h)

-- The entry behind the run is the table's entry for the text behind the byte that ends it.
table-behind :
    (j c d : ℕ) (cs : Bytes)
    → get_elem? (c ∷ cs) (span in_run (c ∷ cs)) ≡ some d
    → get_elem? (table (j + 1) cs) (span in_run (c ∷ cs))
      ≡ get_elem?
          (table (j + span in_run (c ∷ cs) + 1) (drop (span in_run (c ∷ cs) + 1) (c ∷ cs)))
          0
table-behind j c d cs h =
    let n = span in_run (c ∷ cs) in
    let l = get_elem?-length (c ∷ cs) n h in
    table-at (j + 1) n cs (omega arith)
    ∙ ap (λ (x : ℕ). get_elem? (table x (drop n cs)) 0) (omega arith)
    ∙ ap (λ (x : ℕ). get_elem? (table (j + n + 1) (drop x (c ∷ cs))) 0) {x = suc n} (omega arith)

open_entry-bracket :
    (j n : ℕ) (rest : List (Option ℕ)) {e : Option ℕ}
    → get_elem? rest n ≡ some e
    → open_entry j (j + n) (some b'[') rest ≡ e
unfolding open_entry
open_entry-bracket j n rest h = let same : j + n - j ≡ n = omega arith in rw same (rw h)

open_entry_cases :
    (j n : ℕ) (o : Option ℕ) (rest : List (Option ℕ)) {end : ℕ}
    → open_entry j (j + n) o rest ≡ some end
    → ((o ≡ some b'[') × (get_elem? rest n ≡ some (some end)))
      ⊎ ((o ≡ some b']') × (0 < n) × (end ≡ j + n + 1))
unfolding open_entry
open_entry_cases j n none rest h = cc
open_entry_cases j n (some d) rest {end} h =
    let same : j + n - j ≡ n = omega arith in
    elim (Bool-cases (d == b'[')) [
      | inl e ↦
          let r : get_elem? rest (j + n - j) ≡ some (some end) = ground arith in
          inl (ground arith, rw same at r)
      | inr f ↦ inr (ground arith, ground arith, ground arith)
    ]

table_complete :
    {s : Bytes} {m : ℕ} → Closes s m → (j : ℕ) → get_elem? (table j s) 0 ≡ some (some (j + m))
table_complete (close {s = []} g l e) j = cc
table_complete (close {s = c ∷ cs} g l e) j =
    table-head j c cs ∙ ap some (unfold open_entry in rw g (ground arith))
table_complete (nest {s = []} g w e) j = cc
table_complete (nest {s = c ∷ cs} {m} {n} g w e) j =
    let ih = table_complete w (j + span in_run (c ∷ cs) + 1) in
    table-head j c cs
    ∙ ap some (
        rw g (
          open_entry-bracket j (span in_run (c ∷ cs)) (table (j + 1) cs)
            (table-behind j c b'[' cs g ∙ ih)
          ∙ ap some (omega arith)))

table_sound :
    (f j : ℕ) (s : Bytes) {e : ℕ}
    → length s < f
    → get_elem? (table j s) 0 ≡ some (some e)
    → (m : ℕ) × Closes s m × (e ≡ j + m)
table_sound zero j s l h = elim l [ ]
table_sound (suc f) j [] l h = unfold open_ends in cc
table_sound (suc f) j (c ∷ cs) l h =
    let n = span in_run (c ∷ cs) in
    elim (open_entry_cases j n (get_elem? (c ∷ cs) n) (table (j + 1) cs)
      (some_inj (sym (table-head j c cs) ∙ h))) [
        | inl (g, r) ↦
            let (m, w, e) =
              table_sound f (j + n + 1) (drop (n + 1) (c ∷ cs)) (omega (arith, drop-lt n c cs))
                (sym (table-behind j c b'[' cs g) ∙ r) in
            (n + 1 + m, nest g w refl, omega arith)
        | inr (g, pos, e) ↦ (n + 1, close g pos refl, omega arith)
      ]

table-from_zero :
    (i : ℕ) (s : Bytes) → i ≤ length s → get_elem? (table 0 s) i ≡ get_elem? (table i (drop i s)) 0
table-from_zero i s h =
    table-at 0 i s h ∙ ap (λ (x : ℕ). get_elem? (table x (drop i s)) 0) (omega arith)

-- `openEnd[i]` is the index after the `]` that closes the bracketed part whose `[` stands at `i - 1`,
-- and is set exactly where there is one.
pub open_end_iff :
    (s : Bytes) (i e : ℕ)
    → i ≤ length s
    → (get_elem? (new_attr_scanner s).open_end i ≡ some (some e))
      ↔ ((m : ℕ) × Closes (drop i s) m × (e ≡ i + m))
unfolding new_attr_scanner
open_end_iff s i e h = (
  λ g.
      table_sound (length (drop i s) + 1) i (drop i s) (omega arith)
        (sym (table-from_zero i s h) ∙ g),
  λ (m, w, eq). table-from_zero i s h ∙ table_complete w i ∙ ap some (ap some (sym eq)),
)
