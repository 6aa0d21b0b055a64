-- ===== src/Base/Errors.antt =====
-- Go functions that return an error: a result is a value or the error.
use mathlib.Core.Path.{◌≡◌, refl}
use mathlib.Core.Logic.{◌↔◌}
use mathlib.Core.Bool.{Bool, true, false}
use mathlib.Core.List.{List, [], ◌∷◌}
use qubership_authz_agent.Base.Lists.{All, All-iff}

pub data Result {ℓ κ} (E : Type ℓ) (A : Type κ) : Type (ℓ ⊔ κ) where
  ok : A → Result E A
  err : E → Result E A

infixl 5 ◌>>=◌ ◌>>◌
abbrev pub ◌>>=◌ {ℓ κ μ} :
    {E : Type ℓ} {A : Type κ} {B : Type μ} → Result E A → (A → Result E B) → Result E B
ok a >>= f = f a
err e >>= f = err e

-- A function that returns only an error.
abbrev pub Check {ℓ} : Type ℓ → Type ℓ
Check E = Result E (Unit {0})

abbrev pub ◌>>◌ {ℓ κ} : {E : Type ℓ} {B : Type κ} → Check E → Result E B → Result E B
m >> k = m >>= λ _. k

-- `if test { return e }`
abbrev pub fail_if {ℓ} : {E : Type ℓ} → Bool → E → Check E
fail_if true e = err e
fail_if false e = ok tt

-- `fmt.Errorf("…: %w", err)`
abbrev pub wrap {ℓ κ μ} : {E : Type ℓ} {F : Type κ} {A : Type μ} → (E → F) → Result E A → Result F A
wrap f (ok a) = ok a
wrap f (err e) = err (f e)

-- `for _, x := range xs { if err := check(x); err != nil { return err } }`
abbrev pub check_all {ℓ κ} : {E : Type ℓ} {A : Type κ} → (A → Check E) → List A → Check E
check_all f [] = ok tt
check_all f (x ∷ xs) = f x >> check_all f xs

-- The check passes.
abbrev pub Passes {ℓ} : {E : Type ℓ} → Check E → Type ℓ
Passes m = m ≡ ok tt

pub >>=-eq-ok {ℓ κ μ} :
    {E : Type ℓ} {A : Type κ} {B : Type μ} (r : Result E A) (next : A → Result E B) {y : B}
    → (r >>= next) ≡ ok y
    → (x : A) × (r ≡ ok x) × (next x ≡ ok y)
>>=-eq-ok (ok x) next e = (x, refl, e)
>>=-eq-ok (err failure) next e = cc

pub ok_inj {ℓ κ} : {E : Type ℓ} {A : Type κ} {a b : A} → ◌≡◌ {A = Result E A} (ok a) (ok b) → a ≡ b
ok_inj e = cc

module _ {ℓ} {E : Type ℓ} where
  pub fail_if_iff : (b : Bool) (e : E) → Passes (fail_if b e) ↔ (b ≡ false)
  fail_if_iff true e = (λ h. cc, λ h. cc)
  fail_if_iff false e = (λ _. refl, λ _. refl)

  pub >>_iff : (m k : Check E) → Passes (m >> k) ↔ (Passes m × Passes k)
  >>_iff (ok tt) k = (λ h. (refl, h), λ h. h.1)
  >>_iff (err e) k = (λ h. cc, λ h. cc (h.0))

  pub wrap_iff {κ} : {F : Type κ} (f : F → E) (m : Check F) → Passes (wrap f m) ↔ Passes m
  wrap_iff f (ok tt) = (λ _. refl, λ _. refl)
  wrap_iff f (err e) = (λ h. cc, λ h. cc)

  pub check_all_iff {κ} :
      {A : Type κ} (f : A → Check E) (xs : List A)
      → Passes (check_all f xs) ↔ All (λ x. Passes (f x)) xs
  check_all_iff f [] = (λ _. tt, λ _. refl)
  check_all_iff f (x ∷ xs) = (
    λ h. let (a, b) = (>>_iff (f x) (check_all f xs)).0 h in (a, (check_all_iff f xs).0 b),
    λ h. (>>_iff (f x) (check_all f xs)).1 (h.0, (check_all_iff f xs).1 h.1),
  )

  -- A loop passes exactly when every element has what its check decides.
  pub check_all-All {κ} :
      {A : Type κ} (f : A → Check E) (P : A → Type 0) (xs : List A)
      → ((a : A) → Passes (f a) ↔ P a)
      → Passes (check_all f xs) ↔ All P xs
  check_all-All f P xs e =
      let (g, h) = check_all_iff f xs in
      let (g', h') = All-iff (λ x. Passes (f x)) P xs e in (λ p. g' (g p), λ p. h (h' p))
