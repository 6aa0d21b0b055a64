-- ===== src/Regex/Complete.antt =====
-- The matcher finds every whole match: its fuel is enough.
use mathlib.Core.List.{append_assoc, append-nil}
use qubership_authz_agent.Base.{
  ℕ, zero, suc, ◌≤◌, ◌<◌, ◌+◌, true, false, [], ◌∷◌, ◌++◌, Option, none, ◌≡◌, refl, ap, ◌↔◌, arith,
  Bytes, length, length-append, ltb,
}
use qubership_authz_agent.Regex.Sound.{
  Matches, byte, empty, both, left, right, stop, again, matches_whole-Matches,
}
use qubership_authz_agent.Regex.{Regex, star, run, matches_whole, at_end, is_some}

run-star_here :
    (f : ℕ) (r : Regex) (t : Bytes) (k : Bytes → Option Bytes)
    → is_some (k t) ≡ true
    → is_some (run f (star r) t k) ≡ true
unfolding run
run-star_here zero r t k h = h
run-star_here (suc f) r t k h = ground arith

-- One round of a repetition, which takes at least one byte.
round : ℕ → Regex → Bytes → (Bytes → Option Bytes) → Bytes → Option Bytes
round f r s k t = elim (ltb (length t) (length s)) [ true ↦ run f (star r) t k | false ↦ none ]

run-star_round :
    (f : ℕ) (r : Regex) (s : Bytes) (k : Bytes → Option Bytes)
    → is_some (run (suc f) r s (round f r s k)) ≡ true
    → is_some (run (suc f) (star r) s k) ≡ true
unfolding run round
run-star_round f r s k h = ground arith

round-is_some :
    (f : ℕ) (r : Regex) (s : Bytes) (k : Bytes → Option Bytes) (t : Bytes)
    → length t < length s
    → is_some (run f (star r) t k) ≡ true
    → is_some (round f r s k t) ≡ true
unfolding round
round-is_some f r s k t l h = ground arith

-- A match in the language, with a success behind it, makes the run succeed.
run-is_some :
    {r : Regex} {w : Bytes}
    → Matches r w
    → (f : ℕ) (t : Bytes) (k : Bytes → Option Bytes) → length (w ++ t) ≤ f
    → is_some (k t) ≡ true
    → is_some (run f r (w ++ t) k) ≡ true
unfolding run
run-is_some (byte c e) f t k l h = rw e h
run-is_some empty f t k l h = h
run-is_some (both {r} {q} {v} {w} m n) f t k l h = rw (append_assoc v w t) (
    run-is_some m f (w ++ t) (λ u. run f q u k) (rw (append_assoc v w t) at l)
      (run-is_some n f t k
        (omega (arith, length-append {0} v (w ++ t), ap length (append_assoc v w t))) h))
run-is_some (left m) f t k l h = ground (arith, run-is_some m f t k l h)
run-is_some (right m) f t k l h = ground (arith, run-is_some m f t k l h)
run-is_some (stop {r}) f t k l h = run-star_here f r t k h
run-is_some (again {v = []} m n) f t k l h = run-is_some n f t k l h
run-is_some (again {v = c ∷ v} {w} m n) zero t k l h = absurd (omega arith)
run-is_some (again {r} {v = c ∷ v} {w} m n) (suc f) t k l h =
    let e : length ((c ∷ v ++ w) ++ t) ≡ length (c ∷ v) + (length w + length t) =
      omega (arith, length-append {0} (c ∷ v ++ w) t, length-append {0} v w) in
    run-star_round f r ((c ∷ v ++ w) ++ t) k (
      rw (append_assoc (c ∷ v) w t) (
        run-is_some m (suc f) (w ++ t) (round f r (c ∷ v ++ (w ++ t)) k)
          (omega (arith, e, length-append {0} v (w ++ t), length-append {0} w t))
          (round-is_some f r (c ∷ v ++ (w ++ t)) k (w ++ t)
            (omega (arith, length-append {0} v (w ++ t)))
            (run-is_some n f t k (omega (arith, e, length-append {0} w t)) h))))

-- `^r$` matches exactly the texts of the language.
pub matches_whole_iff : (r : Regex) (s : Bytes) → (matches_whole r s ≡ true) ↔ Matches r s
unfolding matches_whole
matches_whole_iff r s = (
  matches_whole-Matches r s,
  λ m. rw (append-nil s) at (run-is_some m (length (s ++ [])) [] at_end (omega arith) refl),
)
