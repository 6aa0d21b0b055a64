-- ===== src/PolicyIr/Token.antt =====
-- internal/policyir/token.go: the attribute token and the wildcard token of the legacy lexer. The
-- tables are lists with one entry for each index, built from the end as the source builds them; an
-- index of -1 is `none`.
pub mod Tables
pub mod Reads
pub mod Bounds
use qubership_authz_agent.Base.{
  ℕ, zero, suc, ◌+◌, ◌-◌, Bytes, Bool, true, false, List, [], ◌∷◌, Option, none, some, codes, not,
  ◌&&◌, ◌||◌, ◌==◌, ltb, leb, length, get_elem?, drop, if◌then◌else◌,
}
use qubership_authz_agent.Regex.{between}

unfoldable pub is_name_start : ℕ → Bool
is_name_start c = between b'A' b'Z' c || between b'a' b'z' c || c == b'_'

-- `switch c { case …: return true }` over the bytes of a literal
unfoldable pub one_of : Bytes → ℕ → Bool
one_of [] c = false
one_of (x ∷ xs) c = c == x || one_of xs c

unfoldable pub is_attr_char : ℕ → Bool
unfolding is_name_start one_of
is_attr_char c = is_name_start c || between b'0' b'9' c || one_of (codes "$@,:?*(=)-.~></&|!'") c

unfoldable pub is_wildcard_char : ℕ → Bool
unfolding is_name_start one_of
is_wildcard_char c = is_name_start c || between b'0' b'9' c || one_of (codes "./%?()=#*:-") c

-- The bytes that a run holds: attribute characters and spaces.
unfoldable pub in_run : ℕ → Bool
unfolding is_attr_char
in_run c = is_attr_char c || c == b' '

abbrev pub head_or : ℕ → List ℕ → ℕ
head_or d [] = d
head_or d (x ∷ xs) = x

-- `runEnd` from index `j` on, for the text from `j` on
unfoldable pub run_ends : ℕ → Bytes → List ℕ
unfolding in_run
run_ends j [] = j ∷ []
run_ends j (c ∷ cs) =
    let rest = run_ends (j + 1) cs in (if in_run c then head_or j rest else j) ∷ rest

-- The entry of `openEnd` at `j`, given `runEnd[j]`, the byte there (none at the end of the text) and
-- the entries behind `j`.
unfoldable pub open_entry : ℕ → ℕ → Option ℕ → List (Option ℕ) → Option ℕ
open_entry j k none rest = none
open_entry j k (some c) rest =
    if c == b'['
    then elim (get_elem? rest (k - j)) [ none ↦ none | some e ↦ e ]
    else if c == b']' && ltb j k
    then some (k + 1)
    else none

-- `openEnd` from index `j` on, given `runEnd` from there on
unfoldable pub open_ends : ℕ → Bytes → List ℕ → List (Option ℕ)
unfolding open_entry
open_ends j [] ks = none ∷ []
open_ends j (c ∷ cs) [] = none ∷ []
open_ends j (c ∷ cs) (k ∷ ks) =
    let rest = open_ends (j + 1) cs ks in open_entry j k (get_elem? (c ∷ cs) (k - j)) rest ∷ rest

pub record AttrScanner : Type 0 where
  pub s : Bytes
  pub run_end : List ℕ
  pub open_end : List (Option ℕ)

unfoldable pub new_attr_scanner : Bytes → AttrScanner
unfolding run_ends open_ends
new_attr_scanner s =
    let ends = run_ends 0 s in record { s = s; run_end = ends; open_end = open_ends 0 s ends }

-- The number of bytes at the start of `s` that satisfy `p`.
unfoldable pub span : (ℕ → Bool) → Bytes → ℕ
span p [] = 0
span p (c ∷ cs) = let n = span p cs in if p c then n + 1 else 0

-- The `switch s[j]` of `tokenLen`: where the token goes on, or none.
unfoldable pub next_segment : AttrScanner → ℕ → ℕ → ℕ → Option ℕ
next_segment a j seg c =
    if c == b' '
    then elim (get_elem? a.run_end j) [
      | none ↦ none
      | some k ↦ elim (get_elem? a.s k) [
        | none ↦ none
        | some d ↦ if d == b']' then some (k + 1) else none
      ]
    ]
    else if c == b'['
    then elim (get_elem? a.open_end (j + 1)) [ none ↦ none | some e ↦ e ]
    else if c == b']'
    then (if ltb seg j then some (j + 1) else none)
    else none

-- The loop of `tokenLen`: the end of the token, none where the fuel runs out.
unfoldable pub scan : ℕ → AttrScanner → ℕ → ℕ → Option ℕ
scan zero a j seg = none
scan (suc f) a j seg =
    let j' = j + span is_attr_char (drop j a.s) in
    elim (get_elem? a.s j') [
      | none ↦ some j'
      | some c ↦ elim (next_segment a j' seg c) [ none ↦ some j' | some n ↦ scan f a n n ]
    ]

-- Each round of the loop goes on behind `j`, so the length of the text is fuel enough.
unfoldable pub token_len : AttrScanner → ℕ → ℕ
unfolding scan span is_attr_char next_segment is_name_start
token_len a i = elim (get_elem? a.s i) [
  | none ↦ 0
  | some c ↦
      if is_name_start c
      then elim (scan (length a.s + 1) a (i + 1) (i + 1)) [ none ↦ 0 | some e ↦ e - i ]
      else 0
]

unfoldable pub wildcard_len : Bytes → ℕ
unfolding span is_wildcard_char
wildcard_len s = span is_wildcard_char s
