-- ===== src/Regex.antt =====
-- The regular expressions of Go's package regexp, as far as the sources use them: matching from the
-- start of the text, with the leftmost alternative and the longest repetition tried first.
pub mod Sound
pub mod Complete
use qubership_authz_agent.Base.{
  ℕ, zero, suc, ◌-◌, Bool, true, false, not, ◌&&◌, ◌||◌, List, [], ◌∷◌, Option, none, some, Bytes,
  length, ltb, leb, ◌==◌, if◌then◌else◌, is_empty,
}

pub data Regex : Type 0 where
  one : (ℕ → Bool) → Regex
  eps : Regex
  seq : Regex → Regex → Regex
  alt : Regex → Regex → Regex
  star : Regex → Regex

-- Matches `r` at the start of `s`, and goes on with `k` behind it. A repetition takes at least one
-- byte in each round, so the length of `s` is fuel enough.
pub run : ℕ → Regex → Bytes → (Bytes → Option Bytes) → Option Bytes
run f (one p) [] k = none
run f (one p) (c ∷ cs) k = if p c then k cs else none
run f eps s k = k s
run f (seq r q) s k = run f r s (λ t. run f q t k)
run f (alt r q) s k = elim (run f r s k) [ some t ↦ some t | none ↦ run f q s k ]
run zero (star r) s k = k s
run (suc f) (star r) s k =
    elim (run (suc f) r s
      (λ t. elim (ltb (length t) (length s)) [ true ↦ run f (star r) t k | false ↦ none ])) [
        | some t ↦ some t
        | none ↦ k s
      ]

-- The text behind the match of `^r`.
unfoldable pub match_rest : Regex → Bytes → Option Bytes
unfolding run
match_rest r s = run (length s) r s (λ t. some t)

abbrev pub at_end : Bytes → Option Bytes
at_end [] = some []
at_end (c ∷ cs) = none

abbrev pub is_some {ℓ} : {A : Type ℓ} → Option A → Bool
is_some none = false
is_some (some a) = true

-- `^r$` matches the text.
unfoldable pub matches_whole : Regex → Bytes → Bool
unfolding run
matches_whole r s = is_some (run (length s) r s at_end)

-- The length of the match of `^r`, 0 where there is none.
unfoldable pub match_len : Regex → Bytes → ℕ
unfolding match_rest
match_len r s = elim (match_rest r s) [ none ↦ 0 | some t ↦ length s - length t ]

-- `r+`, `r?`, a literal text and the class `[lo-hi]`
abbrev pub plus : Regex → Regex
plus r = seq r (star r)

abbrev pub opt : Regex → Regex
opt r = alt r eps

abbrev pub text : Bytes → Regex
text [] = eps
text (c ∷ cs) = seq (one (λ x. x == c)) (text cs)

abbrev pub between : ℕ → ℕ → ℕ → Bool
between lo hi c = leb lo c && leb c hi

abbrev pub digit : Regex
digit = one (between b'0' b'9')

-- `[^c]`
abbrev pub except : ℕ → Regex
except c = one (λ x. not (x == c))
