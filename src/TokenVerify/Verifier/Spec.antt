-- ===== src/TokenVerify/Verifier/Spec.antt =====
-- The dates and the audience of a verified token.
use qubership_authz_agent.Base.Int.{ℤ, ◌+ℤ◌, ◌-ℤ◌, ◌≤ℤ◌, ◌<ℤ◌, ltb_ℤ, +ℤ_parts}
use qubership_authz_agent.Base.{
  Bytes, Bool, true, false, List, [], ◌∷◌, Option, none, some, codes, contains, contains_iff, not,
  not-eq-false_iff, Result, ok, err, Passes, fail_if, fail_if_iff, ◌>>◌, ◌>>=◌, >>=-eq-ok, some_inj,
  Bool-cases, In, ◌≡◌, ◌⊎◌, ◌↔◌, inl, inr, refl, ap, subst, arith,
}
use qubership_authz_agent.PolicyStore.Maps.{find}
use qubership_authz_agent.TokenVerify.Claims.{
  require, is_early, audiences_of, names_one, match_audience, audience_for,
}
use qubership_authz_agent.TokenVerify.{
  Code, expired, not_yet_valid, exp_missing, iat_missing, iat_invalid, RawMap, Raw, Provider,
  Outside,
}

-- The start of validity, where the token has one, has come, as far as the clocks may differ.
abbrev pub HasBegun : ℤ → ℤ → Option ℤ → Type 0
HasBegun now leeway none = Unit
HasBegun now leeway (some nbf) = nbf -ℤ leeway ≤ℤ now

-- The dates of a token at `now`: it has not expired, has begun, and was not issued in the future.
pub record IsTimely (e n i : Result Code (Option ℤ)) (now leeway exp : ℤ) : Type 0 where
  pub nbf : Option ℤ
  pub iat : ℤ
  pub exp_read : e ≡ ok (some exp)
  pub nbf_read : n ≡ ok nbf
  pub iat_read : i ≡ ok (some iat)
  pub unexpired : now <ℤ exp +ℤ leeway
  pub begun : HasBegun now leeway nbf
  pub issued : iat ≤ℤ now +ℤ leeway

early_iff :
    (now leeway : ℤ) (nbf : Option ℤ) → (is_early now leeway nbf ≡ false) ↔ HasBegun now leeway nbf
early_iff now leeway none = (λ _. tt, λ _. refl)
early_iff now leeway (some nbf) = (λ h. ground arith, λ h. ground arith)

-- The tests of `checkTimes`, over any dates.
abbrev pub times :
    Result Code (Option ℤ) → Result Code (Option ℤ) → Result Code (Option ℤ) → ℤ → ℤ → Result Code ℤ
times e n i now leeway = do
  exp ← require exp_missing e
  fail_if (not (ltb_ℤ now (exp +ℤ leeway))) expired
  nbf ← n
  fail_if (is_early now leeway nbf) not_yet_valid
  iat ← require iat_missing i
  fail_if (ltb_ℤ (now +ℤ leeway) iat) iat_invalid
  ok exp

pub times_iff :
    (e n i : Result Code (Option ℤ)) (now leeway exp : ℤ)
    → (times e n i now leeway ≡ ok exp) ↔ IsTimely e n i now leeway exp
times_iff e n i now leeway exp = (sound e n i, complete)
  where
    sound :
        (e' n' i' : Result Code (Option ℤ))
        → times e' n' i' now leeway ≡ ok exp
        → IsTimely e' n' i' now leeway exp
    sound (err c) n' i' h = cc
    sound (ok none) n' i' h = cc
    sound (ok (some x)) (err c) i' h = absurd (ground (arith, h))
    sound (ok (some x)) (ok b) (err c) h = absurd (ground (arith, h))
    sound (ok (some x)) (ok b) (ok none) h = absurd (ground (arith, h))
    sound (ok (some x)) (ok b) (ok (some t)) h =
        let same : x ≡ exp = ground arith in
        record {
          nbf = b;
          iat = t;
          exp_read = ap (λ y. ok (some y)) same;
          nbf_read = refl;
          iat_read = refl;
          unexpired = ground arith;
          begun = (early_iff now leeway b).0 (ground arith);
          issued = ground arith;
        }

    complete : IsTimely e n i now leeway exp → times e n i now leeway ≡ ok exp
    complete v =
        rw (v.exp_read, v.nbf_read, v.iat_read)
          (ground (arith, v.unexpired, (early_iff now leeway v.nbf).1 v.begun, v.issued))

begun-later :
    (t now leeway : ℤ) (nbf : Option ℤ) → t ≤ℤ now → HasBegun t leeway nbf → HasBegun now leeway nbf
begun-later t now leeway none l h = tt
begun-later t now leeway (some nbf) l h = omega arith

-- A token whose dates were good stays so until it expires.
pub IsTimely-later :
    {e n i : Result Code (Option ℤ)} (t now leeway exp : ℤ)
    → t ≤ℤ now
    → now <ℤ exp +ℤ leeway
    → IsTimely e n i t leeway exp
    → IsTimely e n i now leeway exp
IsTimely-later t now leeway exp l u v = record {
  nbf = v.nbf;
  iat = v.iat;
  exp_read = v.exp_read;
  nbf_read = v.nbf_read;
  iat_read = v.iat_read;
  unexpired = u;
  begun = begun-later t now leeway v.nbf l v.begun;
  issued = omega (arith, l, v.issued, +ℤ_parts t leeway, +ℤ_parts now leeway);
}

names_one_iff :
    (accepted auds : List Bytes)
    → (names_one accepted auds ≡ true) ↔ ((a : Bytes) × In a auds × In a accepted)
unfolding names_one
names_one_iff accepted [] = (λ h. cc, λ (a, m, k). absurd m)
names_one_iff accepted (a ∷ as₁) = (
  λ h. elim (Bool-cases (contains accepted a)) [
    | inl e ↦ (a, inl refl, (contains_iff accepted a).0 e)
    | inr n ↦ let (b, m, k) = (names_one_iff accepted as₁).0 (rw n at h) in (b, inr m, k)
  ],
  λ (b, m, k). elim m [
    | inl e ↦ rw ((contains_iff accepted a).1 (subst (λ x. In x accepted) e k))
    | inr r ↦ ground (arith, (names_one_iff accepted as₁).1 (b, r, k))
  ],
)

module _ {J F : Type 0} (lib : Outside J F) where
  -- The audience of a token that carries `aud`.
  pub record Names (accepted : List Bytes) (aud : Raw) : Type 0 where
    pub text : Bytes
    pub auds : List Bytes
    pub name : Bytes
    pub carried : aud ≡ some text
    pub read : audiences_of (lib.decode_value text) ≡ ok auds
    pub named : In name auds
    pub accepts : In name accepted

  -- The provider accepts the audience of the token: it restricts none, or the token names none and it
  -- allows that, or the token names one of its own.
  abbrev pub IsFor : RawMap → Provider → Type 0
  IsFor claims p =
      (p.audiences ≡ [])
      ⊎ (((find (codes "aud") claims ≡ none) × (p.allow_missing_aud ≡ true))
          ⊎ Names p.audiences (find (codes "aud") claims))

  match_audience_iff :
      (accepted : List Bytes) (text : Bytes) (allow : Bool)
      → Passes (match_audience lib accepted (some text) allow) ↔ Names accepted (some text)
  match_audience_iff accepted text allow = (
    λ h.
        let (auds, read, ok_) = >>=-eq-ok (audiences_of (lib.decode_value text)) _ h in
        let one = (not-eq-false_iff (names_one accepted auds)).0 ((fail_if_iff _ _).0 ok_) in
        let (a, m, k) = (names_one_iff accepted auds).0 one in
        record {
          text = text;
          auds = auds;
          name = a;
          carried = refl;
          read = read;
          named = m;
          accepts = k;
        },
    λ v.
        let one = (names_one_iff accepted v.auds).1 (v.name, v.named, v.accepts) in
        rw (some_inj (v.carried), v.read, one),
  )

  pub audience_for_iff :
      (accepted : List Bytes) (aud : Raw) (allow : Bool)
      → Passes (audience_for lib accepted aud allow)
        ↔ ((accepted ≡ []) ⊎ (((aud ≡ none) × (allow ≡ true)) ⊎ Names accepted aud))
  audience_for_iff [] aud allow = (λ _. inl refl, λ _. refl)
  audience_for_iff (x ∷ xs) none allow = (
    λ h. inr (inl (refl, (not-eq-false_iff allow).0 ((fail_if_iff _ _).0 h))),
    λ h. elim h [ inl e ↦ cc | inr (inl (_, a)) ↦ rw a | inr (inr v) ↦ cc (v.carried) ],
  )
  audience_for_iff (x ∷ xs) (some text) allow =
      let (f, g) = match_audience_iff (x ∷ xs) text allow in
      (λ h. inr (inr (f h)), λ h. elim h [ inl e ↦ cc | inr (inl (e, _)) ↦ cc | inr (inr v) ↦ g v ])
