-- ===== src/PolicyIr/Pattern/Valid.antt =====
-- Which texts are patterns: `patternText` of internal/policyir/cond.go against what it documents.
use Prim.Native.Nat.{max}
use qubership_authz_agent.Base.{
  ℕ, ◌+◌, ◌<◌, Bytes, Bool, true, false, [], ◌∷◌, none, some, codes, contains, contains_iff,
  starts_with, ◌&&◌, ◌||◌, ◌==◌, leb, length, take, drop, All, In, some_inj, Bool-cases,
  if◌then◌else◌, ◌≡◌, ◌⊎◌, ◌↔◌, inl, inr, refl, ap, subst, ◌∙◌, arith,
}
use qubership_authz_agent.PolicyIr.Operand.{number_syntax}
use qubership_authz_agent.PolicyIr.Pattern.{
  pattern_reserved, entitled_re, scope_token_re, pip_token_re, is_scope_token, is_subject_token,
  quoted_pattern, no_pattern, placeholder, a_number, not_pattern_nor_attribute, pattern_token,
  whole_token, pattern_text_reason,
}
use qubership_authz_agent.PolicyIr.Token.Bounds.{StartsName, token_len-bounds}
use qubership_authz_agent.PolicyIr.Token.Reads.{Reads, Reads-unique}
use qubership_authz_agent.PolicyIr.Token.Tables.{span-le}
use qubership_authz_agent.PolicyIr.Token.{
  is_name_start, is_wildcard_char, span, new_attr_scanner, token_len, wildcard_len,
}
use qubership_authz_agent.Regex.{match_rest, matches_whole, is_some, match_len}

-- The whole text is one attribute token.
abbrev pub IsAttrToken : Bytes → Type 0
IsAttrToken t = StartsName t 0 × Reads t 1 1 (length t)

-- The whole text is one wildcard token.
abbrev pub IsWildcardToken : Bytes → Type 0
IsWildcardToken t = (0 < length t) × All (λ c. is_wildcard_char c ≡ true) t

-- The text reads as one key of subject.permissionScope: a name starts behind that prefix, and the token that starts
-- there ends with the text.
abbrev pub IsScopeToken : Bytes → Type 0
IsScopeToken t =
    let n = length (codes "subject.permissionScope.") in
    (is_some (match_rest scope_token_re t) ≡ true)
    × (n + token_len (new_attr_scanner t) n ≡ length t)

-- One attribute token or one wildcard token, which is no number, no keyword and no attribute of the subject.
pub record IsPatternText (t : Bytes) : Type 0 where
  pub one_token : IsAttrToken t ⊎ IsWildcardToken t
  pub no_number : match_len number_syntax t < length t
  pub no_entitled : match_len entitled_re t < length t
  pub no_keyword : ¬ In t pattern_reserved
  pub no_subject : (¬ IsAttrToken t) ⊎ ((¬ IsScopeToken t) × (matches_whole pip_token_re t ≡ false))

attr_iff :
    (t : Bytes) → ((token_len (new_attr_scanner t) 0 ≡ length t) × (0 < length t)) ↔ IsAttrToken t
attr_iff t =
    let (inside, (starts, positive), reads) = token_len-bounds t 0 (omega arith) in
    (
      λ (e, p).
          let s = starts (omega (arith, e, p)) in
          elim reads [
            | inl nothing ↦ absurd (nothing s)
            | inr r ↦ (s, subst (Reads t 1 1) (omega (arith, e)) r)
          ],
      λ (s, r). elim reads [
        | inl nothing ↦ absurd (nothing s)
        | inr r' ↦
            let same : 0 + token_len (new_attr_scanner t) 0 ≡ length t = Reads-unique r' r in
            (omega (arith, same), omega (arith, same, positive s))
      ],
    )

span-All : (p : ℕ → Bool) (t : Bytes) → (span p t ≡ length t) ↔ All (λ c. p c ≡ true) t
unfolding span
span-All p [] = (λ _. tt, λ _. refl)
span-All p (c ∷ cs) =
    let (f, g) = span-All p cs in
    (
      λ h. elim (Bool-cases (p c)) [
        | inl e ↦ (e, f (omega (arith, rw e at h)))
        | inr n ↦ absurd (omega (arith, rw n at h))
      ],
      λ (e, h). rw e (omega (arith, g h)),
    )

wildcard_iff : (t : Bytes) → ((wildcard_len t ≡ length t) × (0 < length t)) ↔ IsWildcardToken t
unfolding wildcard_len
wildcard_iff t =
    let (f, g) = span-All is_wildcard_char t in (λ (e, p). (p, f e), λ (p, h). (g h, p))

-- The chain of tests of `patternToken`, with the test that one token is the whole text.
whole_token_iff :
    (quoted_ none_ placed number_ entitled_ reserved_ : Bool) (n m len : ℕ) (tok tok' : Bytes)
    → (whole_token
          (if quoted_
            then (0, some quoted_pattern)
            else if none_
            then (0, some no_pattern)
            else if placed
            then (n, some placeholder)
            else if number_
            then (n, some a_number)
            else if entitled_
            then (m, some (not_pattern_nor_attribute tok))
            else if reserved_
            then (n, some (not_pattern_nor_attribute tok'))
            else (n, none))
          len
        ≡ none)
      ↔ ((quoted_ ≡ false)
          × (none_ ≡ false)
          × (placed ≡ false)
          × (number_ ≡ false)
          × (entitled_ ≡ false)
          × (reserved_ ≡ false)
          × (n ≡ len))
whole_token_iff true z p d e r n m len tok tok' = (λ h. cc, λ h. cc)
whole_token_iff false true p d e r n m len tok tok' = (λ h. cc, λ h. cc)
whole_token_iff false false true d e r n m len tok tok' = (λ h. cc, λ h. cc)
whole_token_iff false false false true e r n m len tok tok' = (λ h. cc, λ h. cc)
whole_token_iff false false false false true r n m len tok tok' = (λ h. cc, λ h. cc)
whole_token_iff false false false false false true n m len tok tok' = (λ h. cc, λ h. cc)
whole_token_iff false false false false false false n m len tok tok' = (
  λ h. (refl, refl, refl, refl, refl, refl, ground (arith, h)),
  λ (a, b, c, d, e, f, g). ground (arith, g),
)

take-length : (t : Bytes) → take (length t) t ≡ t
take-length [] = refl
take-length (c ∷ cs) = ap (λ x. c ∷ x) (take-length cs)

drop-length : (t : Bytes) → drop (length t) t ≡ []
drop-length [] = refl
drop-length (c ∷ cs) = drop-length cs

-- A token that may stand as a pattern starts with no quote.
no_quote :
    (t : Bytes)
    → IsAttrToken t ⊎ IsWildcardToken t
    → (starts_with (codes "'") t || starts_with (b'"' ∷ []) t) ≡ false
unfolding is_name_start is_wildcard_char starts_with
no_quote [] h = refl
no_quote (c ∷ cs) (inl ((d, here, starts), r)) =
    let same : c ≡ d = some_inj here in ground (arith, same, starts)
no_quote (c ∷ cs) (inr (p, (wild, h))) = ground (arith, wild)

both_iff : (x : Bool) (m k : ℕ) → ((x && m == k) ≡ true) ↔ ((x ≡ true) × (m ≡ k))
both_iff true m k = (λ h. (refl, ground (arith, h)), λ (e, h). ground (arith, h))
both_iff false m k = (λ h. cc, λ (e, h). cc)

neither_iff : (a b : Bool) → ((a || b) ≡ false) ↔ ((a ≡ false) × (b ≡ false))
neither_iff true b = (λ h. cc, λ (e, h). cc)
neither_iff false b = (λ h. (refl, h), λ (e, h). h)

scope_iff : (t : Bytes) → (is_scope_token t ≡ true) ↔ IsScopeToken t
unfolding is_scope_token
scope_iff t =
    let n = length (codes "subject.permissionScope.") in
    both_iff (is_some (match_rest scope_token_re t)) (n + token_len (new_attr_scanner t) n)
      (length t)

subject_iff :
    (t : Bytes)
    → (is_subject_token t ≡ false) ↔ ((¬ IsScopeToken t) × (matches_whole pip_token_re t ≡ false))
unfolding is_subject_token
subject_iff t =
    let (f, g) = neither_iff (is_scope_token t) (matches_whole pip_token_re t) in
    let (scope, token) = scope_iff t in
    (
      λ h. let (a, b) = f h in (λ s. let e = token s in cc, b),
      λ (n, p).
          g (elim (Bool-cases (is_scope_token t)) [ inl e ↦ absurd (n (scope e)) | inr e ↦ e ], p),
    )

-- The length of the attribute token at the start, and of the longer one of the two tokens there.
abbrev attr_len : Bytes → ℕ
attr_len t = token_len (new_attr_scanner t) 0

abbrev longest : Bytes → ℕ
longest t = max (attr_len t) (wildcard_len t)

abbrev Tests : Bytes → Type 0
Tests t =
    ((starts_with (codes "'") t || starts_with (b'"' ∷ []) t) ≡ false)
    × ((longest t == 0) ≡ false)
    × (starts_with (codes "{") (drop (longest t) t) ≡ false)
    × (leb (longest t) (match_len number_syntax t) ≡ false)
    × (leb (longest t) (match_len entitled_re t) ≡ false)
    × ((contains pattern_reserved (take (longest t) t)
          || longest t == attr_len t && is_subject_token (take (longest t) t))
        ≡ false)
    × (longest t ≡ length t)

IsPatternText-of_Tests : (t : Bytes) → Tests t → IsPatternText t
IsPatternText-of_Tests t (q, z, p, d, e, r, all) =
    let tok : take (longest t) t ≡ t = ap (λ k. take k t) all ∙ take-length t in
    let r' = rw tok at r in
    let some_byte : 0 < length t = ground (arith, z, all) in
    record {
      one_token = elim (Bool-cases (leb (wildcard_len t) (attr_len t))) [
        | inl le ↦
            let is : attr_len t ≡ length t = ground (arith, le, all) in
            inl ((attr_iff t).0 (is, some_byte))
        | inr gt ↦
            let is : wildcard_len t ≡ length t = ground (arith, gt, all) in
            inr ((wildcard_iff t).0 (is, some_byte))
      ];
      no_number = ground (arith, d, all);
      no_entitled = ground (arith, e, all);
      no_keyword =
          λ i. let is = (contains_iff pattern_reserved t).1 i in absurd (ground (arith, is, r'));
      no_subject = elim (Bool-cases (longest t == attr_len t)) [
        | inl same ↦ inr ((subject_iff t).0 (ground (arith, same, r')))
        | inr other ↦
            inl (λ a. let (is, p) = (attr_iff t).1 a in absurd (ground (arith, is, all, other)))
      ];
    }

longest-one_token :
    (t : Bytes) → IsAttrToken t ⊎ IsWildcardToken t → (longest t ≡ length t) × (0 < length t)
unfolding wildcard_len
longest-one_token t h =
    let below = (token_len-bounds t 0 (omega arith)).0 in
    let below' = span-le is_wildcard_char t in
    elim h [
      | inl a ↦ let (is, p) = (attr_iff t).1 a in (omega (arith, is, below'), p)
      | inr w ↦ let (is, p) = (wildcard_iff t).1 w in (omega (arith, is, below), p)
    ]

Tests-of_IsPatternText : (t : Bytes) → IsPatternText t → Tests t
unfolding starts_with
Tests-of_IsPatternText t v =
    let (all, some_byte) = longest-one_token t v.one_token in
    let tok : take (longest t) t ≡ t = ap (λ k. take k t) all ∙ take-length t in
    let rest : drop (longest t) t ≡ [] = ap (λ k. drop k t) all ∙ drop-length t in
    let keyword : contains pattern_reserved t ≡ false =
      elim (Bool-cases (contains pattern_reserved t)) [
        | inl e ↦ absurd (v.no_keyword ((contains_iff pattern_reserved t).0 e))
        | inr n ↦ n
      ] in
    let subject : (longest t == attr_len t && is_subject_token t) ≡ false = elim v.no_subject [
      | inr n ↦ let is = (subject_iff t).1 n in ground (arith, is)
      | inl other ↦ elim (Bool-cases (longest t == attr_len t)) [
        | inl same ↦
            let is : attr_len t ≡ length t = ground (arith, same, all) in
            absurd (other ((attr_iff t).0 (is, some_byte)))
        | inr n ↦ ground (arith, n)
      ]
    ] in
    (
      no_quote t v.one_token,
      ground (arith, all, some_byte),
      rw rest refl,
      ground (arith, v.no_number, all),
      ground (arith, v.no_entitled, all),
      rw tok (ground (arith, keyword, subject)),
      all,
    )

-- `patternText` gives no reason exactly for one attribute token or one wildcard token that is no number, no keyword
-- and no attribute of the subject.
pub pattern_text_reason_iff : (t : Bytes) → (pattern_text_reason t ≡ none) ↔ IsPatternText t
unfolding pattern_text_reason pattern_token
pattern_text_reason_iff t =
    let (f, g) =
      whole_token_iff (starts_with (codes "'") t || starts_with (b'"' ∷ []) t) (longest t == 0)
        (starts_with (codes "{") (drop (longest t) t)) (leb (longest t) (match_len number_syntax t))
        (leb (longest t) (match_len entitled_re t))
        (contains pattern_reserved (take (longest t) t)
          || longest t == attr_len t && is_subject_token (take (longest t) t))
        (longest t) (match_len entitled_re t) (length t) (take (match_len entitled_re t) t)
        (take (longest t) t) in
    (λ h. IsPatternText-of_Tests t (f h), λ v. g (Tests-of_IsPatternText t v))
