-- ===== src/PolicyIr/Tree/Path.antt =====
-- The paths of nodes (`node` of tree.go) and the labels of siblings (`labels` of unsupported.go).
-- `%q` is the parameter `quote`.
use qubership_authz_agent.Base.{
  ℕ, zero, suc, ◌+◌, ◌/◌, ◌%◌, Bytes, List, [], ◌∷◌, ◌++◌, Option, none, some, codes, equal, ltb,
  if◌then◌else◌,
}
use qubership_authz_agent.PolicyIr.Tree.{
  SimplifiedGroup, SimplifiedPolicy, Policy, Rule, SetHead, policy_set, PolicySets, end, null, set,
}

-- A path from the root, the label of the node itself first.
abbrev pub Node : Type 0
Node = List Bytes

unfoldable pub join : Bytes → List Bytes → Bytes
join sep [] = []
join sep (x ∷ []) = x
join sep (x ∷ y ∷ xs) = x ++ (sep ++ join sep (y ∷ xs))

unfoldable pub reverse_onto {ℓ} : {A : Type ℓ} → List A → List A → List A
reverse_onto [] out = out
reverse_onto (x ∷ xs) out = reverse_onto xs (x ∷ out)

-- `node.String`
unfoldable pub node_text : Node → Bytes
unfolding join reverse_onto
node_text n = join (codes " > ") (reverse_onto n [])

-- The decimal digits of a number, with fuel for each digit.
unfoldable pub digits : ℕ → ℕ → Bytes
digits zero n = []
digits (suc f) n =
    let rest = digits f (n / 10) in
    if ltb n 10 then (b'0' + n) ∷ [] else rest ++ ((b'0' + n % 10) ∷ [])

-- `%d`: a number has at most as many digits as its value, plus one.
unfoldable pub decimal : ℕ → Bytes
unfolding digits
decimal n = digits (n + 1) n

-- `seen[l]`: how many siblings have the label
unfoldable pub occurrences : Bytes → List Bytes → ℕ
occurrences l [] = 0
occurrences l (x ∷ xs) = let n = occurrences l xs in if equal l x then n + 1 else n

-- The second loop of `labels`, from index `i` on.
unfoldable pub number_shared : List Bytes → ℕ → List Bytes → List Bytes
unfolding occurrences decimal
number_shared all i [] = []
number_shared all i (l ∷ ls) =
    (if ltb 1 (occurrences l all) then l ++ (codes " #" ++ decimal i) else l)
    ∷ number_shared all (i + 1) ls

-- `labels`, of the labels of the nodes
unfoldable pub labels : List Bytes → List Bytes
unfolding number_shared
labels ls = number_shared ls 0 ls

abbrev pub head_label : List Bytes → Bytes
head_label [] = []
head_label (l ∷ ls) = l

abbrev pub tail_labels : List Bytes → List Bytes
tail_labels [] = []
tail_labels (l ∷ ls) = ls

module _ (quote : Bytes → Bytes) where
  unfoldable pub group_label : SimplifiedGroup → Bytes
  group_label g =
      codes "simplified "
      ++ (quote g.domain
          ++ (codes "/" ++ (quote g.component ++ (codes "/" ++ quote g.resource_type))))

  unfoldable pub simplified_policy_label : SimplifiedPolicy → Bytes
  simplified_policy_label p = codes "policy " ++ quote p.id

  unfoldable pub head_set_label : SetHead → Bytes
  head_set_label h = codes "set " ++ quote h.id

  unfoldable pub policy_label : Policy → Bytes
  policy_label p = codes "policy " ++ quote p.id

  unfoldable pub rule_label : Rule → Bytes
  rule_label r = codes "rule " ++ quote r.id

  -- The labels of a list of sets that holds no nil.
  unfoldable pub set_labels : PolicySets → List Bytes
  unfolding head_set_label
  set_labels end = []
  set_labels (null ss) = set_labels ss
  set_labels (set (policy_set h children) ss) = head_set_label h ∷ set_labels ss

-- The labels of a list of pointers that holds no nil.
unfoldable pub labels_of {ℓ} : {A : Type ℓ} → (A → Bytes) → List (Option A) → List Bytes
labels_of f [] = []
labels_of f (none ∷ xs) = labels_of f xs
labels_of f (some x ∷ xs) = f x ∷ labels_of f xs

-- `slices.Index(xs, nil)`: the index of the first nil, from `i` on
unfoldable pub nil_index {ℓ} : {A : Type ℓ} → ℕ → List (Option A) → Option ℕ
nil_index i [] = none
nil_index i (none ∷ xs) = some i
nil_index i (some x ∷ xs) = nil_index (i + 1) xs

unfoldable pub nil_set_index : ℕ → PolicySets → Option ℕ
nil_set_index i end = none
nil_set_index i (null ss) = some i
nil_set_index i (set s ss) = nil_set_index (i + 1) ss
