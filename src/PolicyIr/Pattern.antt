-- ===== src/PolicyIr/Pattern.antt =====
-- internal/policyir/parse.go, `patternToken`: the token of the legacy lexer where a MATCH pattern
-- stands.
pub mod Valid
use Prim.Native.Nat.{max}
use qubership_authz_agent.Base.{
  ℕ, ◌+◌, Bytes, Bool, List, [], ◌∷◌, Option, none, some, codes, contains, equal, starts_with, ◌&&◌,
  ◌||◌, ◌==◌, leb, length, take, drop, if◌then◌else◌,
}
use qubership_authz_agent.PolicyIr.Operand.{number_syntax}
use qubership_authz_agent.PolicyIr.Token.{new_attr_scanner, token_len, wildcard_len, is_name_start}
use qubership_authz_agent.Regex.{
  Regex, one, seq, star, plus, text, between, except, matches_whole, match_len, match_rest, is_some,
}

-- The words the legacy lexer reads as a token of their own where a MATCH pattern may stand.
pub pattern_reserved : List Bytes
pattern_reserved =
    codes "OR"
    ∷ codes "AND"
    ∷ codes "IS"
    ∷ codes "NOT"
    ∷ codes "NULL"
    ∷ codes "IN"
    ∷ codes "CONTAINS"
    ∷ codes "SUBSET"
    ∷ codes "EMPTY"
    ∷ codes "MATCH"
    ∷ codes "EQUALS"
    ∷ codes "FILTERED"
    ∷ codes "on"
    ∷ codes "allowed"
    ∷ codes "denied"
    ∷ codes "resource"
    ∷ codes "subject"
    ∷ codes "resourceType"
    ∷ codes "operation"
    ∷ codes "true"
    ∷ codes "TRUE"
    ∷ codes "false"
    ∷ codes "FALSE"
    ∷ []

abbrev name_start : Regex
name_start = one is_name_start

-- '[^']*'
abbrev quoted : Regex
quoted = seq (one (λ c. c == b'\'')) (seq (star (except b'\'')) (one (λ c. c == b'\'')))

abbrev spaces : Regex
spaces = star (one (λ c. c == b' '))

-- ^subject\.entitledResources\.of\('([^']*)'\)\.as\(('[^']*'(?: *, *'[^']*')*)\)
pub entitled_re : Regex
entitled_re = seq (text (codes "subject.entitledResources.of(")) (
    seq quoted (
      seq (text (codes ").as(")) (
        seq quoted (
          seq (star (seq spaces (seq (text (codes ",")) (seq spaces quoted))))
            (text (codes ")"))))))

-- ^subject\.permissionScope\.[A-Za-z_]
pub scope_token_re : Regex
scope_token_re = seq (text (codes "subject.permissionScope.")) name_start

-- ^subject(?:\.[A-Za-z_][A-Za-z0-9_]*)+$
pub pip_token_re : Regex
pip_token_re =
    let word = one (λ c. is_name_start c || between b'0' b'9' c) in
    seq (text (codes "subject")) (plus (seq (text (codes ".")) (seq name_start (star word))))

unfoldable pub is_scope_token : Bytes → Bool
unfolding scope_token_re is_name_start match_rest new_attr_scanner token_len
is_scope_token tok =
    let n = length (codes "subject.permissionScope.") in
    is_some (match_rest scope_token_re tok)
    && (n + token_len (new_attr_scanner tok) n) == length tok

unfoldable pub is_subject_token : Bytes → Bool
unfolding is_scope_token pip_token_re matches_whole
is_subject_token tok = is_scope_token tok || matches_whole pip_token_re tok

-- Why a token is not a pattern.
pub data Reason : Type 0 where
  quoted_pattern : Reason
  no_pattern : Reason
  placeholder : Reason
  a_number : Reason
  not_pattern_nor_attribute : Bytes → Reason
  more_than_one_token : Reason

unfoldable pub pattern_token : Bytes → ℕ → ℕ × Option Reason
unfolding starts_with wildcard_len match_len number_syntax entitled_re pattern_reserved contains
    equal is_subject_token
pattern_token rest attr =
    let n = max attr (wildcard_len rest) in
    if starts_with (codes "'") rest || starts_with (b'"' ∷ []) rest
    then (0, some quoted_pattern)
    else if n == 0
    then (0, some no_pattern)
    else if starts_with (codes "{") (drop n rest)
    then (n, some placeholder)
    else if leb n (match_len number_syntax rest)
    then (n, some a_number)
    else let e = match_len entitled_re rest in
      if leb n e
      then (e, some (not_pattern_nor_attribute (take e rest)))
      else let tok = take n rest in
        if contains pattern_reserved tok || n == attr && is_subject_token tok
        then (n, some (not_pattern_nor_attribute tok))
        else (n, none)

-- `patternText`: none where `text` is one attribute token or one wildcard token.
abbrev whole_token : ℕ × Option Reason → ℕ → Option Reason
whole_token (n, some reason) len = some reason
whole_token (n, none) len = if n == len then none else some more_than_one_token

unfoldable pub pattern_text_reason : Bytes → Option Reason
unfolding pattern_token new_attr_scanner token_len
pattern_text_reason t = whole_token (pattern_token t (token_len (new_attr_scanner t) 0)) (length t)
