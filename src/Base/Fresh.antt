-- ===== src/Base/Fresh.antt =====
-- Lists whose elements are new, one after another, to a growing record of what was seen.
use mathlib.Core.Path.{◌≡◌, refl, subst}
use mathlib.Core.Logic.{◌↔◌, inl, inr}
use mathlib.Core.List.{List, [], ◌∷◌, ◌++◌}
use qubership_authz_agent.Base.Lists.{In, IsDistinct}

module _ {A : Type 0} where
  -- No element of the list is in `seen`, nor stands twice.
  abbrev pub IsFresh : List A → List A → Type 0
  IsFresh [] seen = Unit
  IsFresh (x ∷ xs) seen = (¬ In x seen) × IsFresh xs (x ∷ seen)

  -- What was seen after the list.
  abbrev pub record_all : List A → List A → List A
  record_all [] seen = seen
  record_all (x ∷ xs) seen = record_all xs (x ∷ seen)

  pub IsFresh-append :
      (xs ys seen : List A)
      → IsFresh (xs ++ ys) seen ↔ (IsFresh xs seen × IsFresh ys (record_all xs seen))
  IsFresh-append [] ys seen = (λ h. (tt, h), λ h. h.1)
  IsFresh-append (x ∷ xs) ys seen = (
    λ h. let (a, b) = (IsFresh-append xs ys (x ∷ seen)).0 h.1 in ((h.0, a), b),
    λ h. (h.0.0, (IsFresh-append xs ys (x ∷ seen)).1 (h.0.1, h.1)),
  )

  pub record_all-append :
      (xs ys seen : List A) → record_all (xs ++ ys) seen ≡ record_all ys (record_all xs seen)
  record_all-append [] ys seen = refl
  record_all-append (x ∷ xs) ys seen = record_all-append xs ys (x ∷ seen)

  pub In-record_all : (a : A) (xs seen : List A) → In a seen → In a (record_all xs seen)
  In-record_all a [] seen h = h
  In-record_all a (x ∷ xs) seen h = In-record_all a xs (x ∷ seen) (inr h)

  IsFresh-not-In : (xs seen : List A) → IsFresh xs seen → (a : A) → In a xs → ¬ In a seen
  IsFresh-not-In [] seen h a m s = m
  IsFresh-not-In (x ∷ xs) seen h a m s = elim m [
    | inl e ↦ h.0 (subst (λ y. In y seen) e s)
    | inr r ↦ IsFresh-not-In xs (x ∷ seen) h.1 a r (inr s)
  ]

  IsFresh-IsDistinct : (xs seen : List A) → IsFresh xs seen → IsDistinct xs
  IsFresh-IsDistinct [] seen h = tt
  IsFresh-IsDistinct (x ∷ xs) seen h =
      (λ m. IsFresh-not-In xs (x ∷ seen) h.1 x m (inl refl), IsFresh-IsDistinct xs (x ∷ seen) h.1)

  IsDistinct-IsFresh :
      (xs seen : List A) → IsDistinct xs → ((a : A) → In a xs → ¬ In a seen) → IsFresh xs seen
  IsDistinct-IsFresh [] seen d h = tt
  IsDistinct-IsFresh (x ∷ xs) seen d h = (
    h x (inl refl),
    IsDistinct-IsFresh xs (x ∷ seen) d.1
        (λ a m s. elim s [ inl e ↦ d.0 (subst (λ y. In y xs) e m) | inr r ↦ h a (inr m) r ]),
  )

  -- With nothing seen, to be fresh is to be distinct.
  pub IsFresh-iff : (xs : List A) → IsFresh xs [] ↔ IsDistinct xs
  IsFresh-iff xs = (IsFresh-IsDistinct xs [], λ d. IsDistinct-IsFresh xs [] d (λ a m s. s))
