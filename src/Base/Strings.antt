-- ===== src/Base/Strings.antt =====
-- Go strings: sequences of bytes, with the string functions of the standard library in use.
use Prim.Native.Nat.{ℕ}
use Prim.Native.Char.{code}
use Prim.Native.String.{String}
use mathlib.Core.Path.{◌≡◌, refl, ap}
use mathlib.Core.Logic.{◌↔◌, ◌⊎◌, inl, inr, ◌≢◌}
use mathlib.Core.Bool.{Bool, true, false, ◌&&◌, ◌||◌}
use mathlib.Core.List.{List, [], ◌∷◌, ◌++◌}
use native.Mathlib.Omega.{arith}
use qubership_authz_agent.Base.Tests.{◌==◌, Bool-cases, if◌then◌else◌}
use qubership_authz_agent.Base.Lists.{In}

abbrev pub Bytes : Type 0
Bytes = List ℕ

-- The code points of a literal: its bytes, since every literal of the sources is ASCII.
abbrev pub codes : String → Bytes
codes String.[] = []
codes (String.◌∷◌ c s) = code c ∷ codes s

-- `a == b` on strings
unfoldable pub equal : Bytes → Bytes → Bool
equal [] [] = true
equal (x ∷ xs) (y ∷ ys) = x == y && equal xs ys
equal _ _ = false

pub equal_iff : (s t : Bytes) → (equal s t ≡ true) ↔ (s ≡ t)
unfolding equal
equal_iff [] t = ground arith
equal_iff (c ∷ s) [] = ground arith
equal_iff (c ∷ s) (d ∷ t) = ground (arith, equal_iff s t)

pub equal_refl : (a : Bytes) → equal a a ≡ true
equal_refl a = (equal_iff a a).1 refl

pub equal-ne : (a b : Bytes) → a ≢ b → equal a b ≡ false
equal-ne a b h = elim (Bool-cases (equal a b)) [
  | inl e ↦ absurd (h ((equal_iff a b).0 e))
  | inr e ↦ e
]

-- `slices.Contains`, and membership in a map used as a set
unfoldable pub contains : List Bytes → Bytes → Bool
contains [] a = false
contains (x ∷ xs) a = equal a x || contains xs a

pub contains_iff : (xs : List Bytes) (a : Bytes) → (contains xs a ≡ true) ↔ In a xs
unfolding contains
contains_iff [] a = (λ h. cc, λ h. absurd h)
contains_iff (x ∷ xs) a = (
  λ h. elim (Bool-cases (equal a x)) [
    | inl e ↦ inl ((equal_iff a x).0 e)
    | inr n ↦ inr ((contains_iff xs a).0 (rw n at h))
  ],
  λ h. elim h [
    | inl e ↦ rw ((equal_iff a x).1 e)
    | inr m ↦ ground (arith, (contains_iff xs a).1 m)
  ],
)

-- `s == ""`
abbrev pub is_empty : Bytes → Bool
is_empty [] = true
is_empty (c ∷ cs) = false

pub is_empty_iff : (s : Bytes) → (is_empty s ≡ true) ↔ (s ≡ [])
is_empty_iff [] = (λ _. refl, λ _. refl)
is_empty_iff (c ∷ cs) = ground arith

pub is_empty-false_iff : (s : Bytes) → (is_empty s ≡ false) ↔ (s ≢ [])
is_empty-false_iff [] = ground arith
is_empty-false_iff (c ∷ cs) = ground arith

-- `strings.HasPrefix`, the prefix first
unfoldable pub starts_with : Bytes → Bytes → Bool
starts_with [] s = true
starts_with (p ∷ ps) [] = false
starts_with (p ∷ ps) (c ∷ cs) = p == c && starts_with ps cs

-- `strings.HasSuffix`, the suffix first
unfoldable pub ends_with : Bytes → Bytes → Bool
ends_with suffix [] = is_empty suffix
ends_with suffix (c ∷ cs) = equal suffix (c ∷ cs) || ends_with suffix cs

pub starts_with_iff : (p s : Bytes) → (starts_with p s ≡ true) ↔ ((rest : Bytes) × (s ≡ p ++ rest))
unfolding starts_with
starts_with_iff [] s = (λ _. (s, refl), λ _. refl)
starts_with_iff (p ∷ ps) [] = (λ h. cc, λ h. cc (h.1))
starts_with_iff (p ∷ ps) (c ∷ cs) = (
  λ h. elim (Bool-cases (p == c)) [
    | inl e ↦
        let (rest, eq) = (starts_with_iff ps cs).0 (ground arith) in (rest, ground (arith, eq))
    | inr n ↦ absurd (ground arith)
  ],
  λ h. ground (arith, h.1, (starts_with_iff ps cs).1 (h.0, ground (arith, h.1))),
)

append-of-nil : (p front : Bytes) → [] ≡ front ++ p → p ≡ []
append-of-nil p [] e = ground arith
append-of-nil p (x ∷ front) e = cc

append-of-cons :
    (p : Bytes) (c : ℕ) (cs front : Bytes)
    → c ∷ cs ≡ front ++ p
    → (p ≡ c ∷ cs) ⊎ ((rest : Bytes) × (cs ≡ rest ++ p))
append-of-cons p c cs [] e = inl (ground arith)
append-of-cons p c cs (x ∷ front) e = inr (front, ground arith)

pub ends_with_iff : (p s : Bytes) → (ends_with p s ≡ true) ↔ ((front : Bytes) × (s ≡ front ++ p))
unfolding ends_with
ends_with_iff p [] =
    (λ h. ([], ground (arith, is_empty_iff p)), λ h. (is_empty_iff p).1 (append-of-nil p h.0 h.1))
ends_with_iff p (c ∷ cs) = (
  λ h. elim (Bool-cases (equal p (c ∷ cs))) [
    | inl e ↦ ([], ground (arith, (equal_iff p (c ∷ cs)).0 e))
    | inr n ↦ let (front, eq) = (ends_with_iff p cs).0 (rw n at h) in (c ∷ front, ap (◌∷◌ c) eq)
  ],
  λ h. elim (append-of-cons p c cs h.0 h.1) [
    | inl e ↦ rw ((equal_iff p (c ∷ cs)).1 e)
    | inr m ↦ ground (arith, (ends_with_iff p cs).1 m)
  ],
)

-- `strings.TrimRight` of "/"
unfoldable pub trim_slashes : Bytes → Bytes
trim_slashes [] = []
trim_slashes (c ∷ s) =
    let rest = trim_slashes s in if (c == b'/') && is_empty rest then [] else c ∷ rest
