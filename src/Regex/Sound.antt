-- ===== src/Regex/Sound.antt =====
-- The matches of an expression as a relation, and that the matcher finds only those.
use mathlib.Core.List.{append_assoc, append-nil}
use qubership_authz_agent.Base.{
  ℕ, zero, suc, Bool, true, false, [], ◌∷◌, ◌++◌, Option, none, some, ◌≡◌, refl, ap, sym, ◌∙◌,
  arith, ◌⊎◌, inl, inr, Bytes, length, ltb,
}
use qubership_authz_agent.Regex.{
  Regex, one, eps, seq, alt, star, run, match_rest, matches_whole, at_end,
}

-- The text `w` is in the language of the expression.
pub data Matches : Regex → Bytes → Type 0 where
  byte : {p : ℕ → Bool} (c : ℕ) → p c ≡ true → Matches (one p) (c ∷ [])
  empty : Matches eps []
  both : {r q : Regex} {v w : Bytes} → Matches r v → Matches q w → Matches (seq r q) (v ++ w)
  left : {r q : Regex} {w : Bytes} → Matches r w → Matches (alt r q) w
  right : {r q : Regex} {w : Bytes} → Matches q w → Matches (alt r q) w
  stop : {r : Regex} → Matches (star r) []
  again : {r : Regex} {v w : Bytes} → Matches r v → Matches (star r) w → Matches (star r) (v ++ w)

-- What a successful run gives: the matched text, and the run behind it.
abbrev Found : Regex → Bytes → (Bytes → Option Bytes) → Bytes → Type 0
Found r s k out = (w t : Bytes) × Matches r w × (s ≡ w ++ t) × (k t ≡ some out)

Option-cases : (o : Option Bytes) → (o ≡ none) ⊎ ((t : Bytes) × (o ≡ some t))
Option-cases none = inl refl
Option-cases (some t) = inr (t, refl)

progress :
    (f : ℕ) (r : Regex) (s t : Bytes) (k : Bytes → Option Bytes) {out : Bytes}
    → elim (ltb (length t) (length s)) [ true ↦ run f (star r) t k | false ↦ none ] ≡ some out
    → run f (star r) t k ≡ some out
progress f r s t k h = ground arith

run-Found :
    (f : ℕ) (r : Regex) (s : Bytes) (k : Bytes → Option Bytes) {out : Bytes}
    → run f r s k ≡ some out
    → Found r s k out
unfolding run
run-Found f (one p) [] k h = cc
run-Found f (one p) (c ∷ cs) k h = (c ∷ [], cs, byte c (ground arith), refl, ground arith)
run-Found f eps s k h = ([], s, empty, refl, h)
run-Found f (seq r q) s k h =
    let (v, t, m, e, rest) = run-Found f r s (λ t. run f q t k) h in
    let (w, u, n, e', last) = run-Found f q t k rest in
    (v ++ w, u, both m n, e ∙ ap (λ (x : Bytes). v ++ x) e' ∙ sym (append_assoc v w u), last)
run-Found f (alt r q) s k h = elim (Option-cases (run f r s k)) [
  | inl n ↦ let (w, t, m, e, l) = run-Found f q s k (rw n at h) in (w, t, right m, e, l)
  | inr (t', g) ↦ let (w, t, m, e, l) = run-Found f r s k (g ∙ rw g at h) in (w, t, left m, e, l)
]
run-Found zero (star r) s k h = ([], s, stop, refl, h)
run-Found (suc f) (star r) s k h =
    let inner : Bytes → Option Bytes =
      λ t. elim (ltb (length t) (length s)) [ true ↦ run f (star r) t k | false ↦ none ] in
    elim (Option-cases (run (suc f) r s inner)) [
      | inl n ↦ ([], s, stop, refl, rw n at h)
      | inr (t', g) ↦
          let (v, t, m, e, l) = run-Found (suc f) r s inner (g ∙ rw g at h) in
          let (w, u, n, e', last) = run-Found f (star r) t k (progress f r s t k l) in
          (v ++ w, u, again m n, e ∙ ap (λ (x : Bytes). v ++ x) e' ∙ sym (append_assoc v w u), last)
    ]

at_end-nil : (t : Bytes) {out : Bytes} → at_end t ≡ some out → t ≡ []
at_end-nil [] h = refl
at_end-nil (c ∷ cs) h = cc

-- A text that `^r$` matches is in the language.
pub matches_whole-Matches : (r : Regex) (s : Bytes) → matches_whole r s ≡ true → Matches r s
unfolding matches_whole
matches_whole-Matches r s h = elim (Option-cases (run (length s) r s at_end)) [
  | inl n ↦ absurd (ground arith)
  | inr (out, g) ↦
      let (w, t, m, e, l) = run-Found (length s) r s at_end g in
      rw (e ∙ ap (λ (x : Bytes). w ++ x) (at_end-nil t l) ∙ append-nil w) m
]

-- What `^r` matches is in the language, and the rest stands behind it.
pub match_rest-Matches :
    (r : Regex) (s : Bytes) {t : Bytes}
    → match_rest r s ≡ some t
    → (w : Bytes) × Matches r w × (s ≡ w ++ t)
unfolding match_rest
match_rest-Matches r s h =
    let (w, t, m, e, l) = run-Found (length s) r s (λ t. some t) h in
    (w, m, e ∙ ap (λ (x : Bytes). w ++ x) (ground arith))
