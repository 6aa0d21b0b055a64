-- ===== src/PolicyIr/Tree/Iterates.antt =====
-- What the checker of internal/policyir/tree.go holds while it goes into an iterate and out of it again (the
-- parts of `checker.set` around the children of a set).
use qubership_authz_agent.Base.{
  ℕ, Bytes, List, [], ◌∷◌, Option, none, some, contains, contains_iff, equal_refl, equal-ne,
  is_empty-false_iff, Result, ok, err, Check, Passes, ◌>>◌, ◌>>=◌, >>=-eq-ok, In, IsFresh,
  record_all, ◌≡◌, inl, inr, refl, ap, arith, Bool-cases,
}
use qubership_authz_agent.PolicyIr.Tree.Check.{TreeError, fail_at, Checker, delete, enter, leave}
use qubership_authz_agent.PolicyIr.Tree.Path.{Node, nil_set_index}
use qubership_authz_agent.PolicyIr.Tree.Valid.{IsIterate, inside, own_vars}
use qubership_authz_agent.PolicyIr.Tree.{algorithms, Iterate, PolicySets}

-- Every var that is bound was seen.
abbrev pub IsTracked : Checker → Type 0
IsTracked c = (v : Bytes) → In v c.bound → In v c.vars

-- The state inside a set that binds the vars.
abbrev pub entered : Option Iterate → Checker → Checker
entered it c = record { vars = record_all (own_vars it) c.vars; bound = inside it c.bound }

delete_absent : (k : Bytes) (xs : List Bytes) → ¬ In k xs → delete k xs ≡ xs
unfolding delete
delete_absent k [] h = refl
delete_absent k (x ∷ xs) h =
    rw (equal-ne k x (λ e. h (inl e))) (ap (◌∷◌ x) (delete_absent k xs (λ m. h (inr m))))

-- Leaving a set whose var was new restores what was bound around it.
pub leave_entered :
    (it : Option Iterate) (c d : Checker)
    → IsTracked c
    → IsFresh (own_vars it) c.vars
    → d.bound ≡ inside it c.bound
    → (leave it d).bound ≡ c.bound
unfolding leave
leave_entered none c d t f e = e
leave_entered (some it) c d t f e =
    rw e (
      unfold delete in
      rw (equal_refl it.var) (delete_absent it.var c.bound (λ m. f.0 (t it.var m))))

pub vars-leave : (it : Option Iterate) (d : Checker) → (leave it d).vars ≡ d.vars
unfolding leave
vars-leave none d = refl
vars-leave (some it) d = refl

pub enter_sound :
    (here : Node) (it : Option Iterate) (c : Checker) {d : Checker}
    → enter here it c ≡ ok d
    → IsIterate it × IsFresh (own_vars it) c.vars × (d ≡ entered it c)
unfolding enter
enter_sound here none c h = (tt, tt, ground arith)
enter_sound here (some it) c h = (
  (
    (is_empty-false_iff it.var).0 (ground arith),
    (is_empty-false_iff it.algorithm).0 (ground arith),
    (contains_iff algorithms it.algorithm).0 (ground arith),
  ),
  (λ m. ground (arith, (contains_iff c.vars it.var).1 m), tt),
  ground arith,
)

pub enter_complete :
    (here : Node) (it : Option Iterate) (c : Checker)
    → IsIterate it
    → IsFresh (own_vars it) c.vars
    → enter here it c ≡ ok (entered it c)
unfolding enter
enter_complete here none c v f = refl
enter_complete here (some it) c v f = elim (Bool-cases (contains c.vars it.var)) [
  | inl seen ↦ absurd (f.0 ((contains_iff c.vars it.var).0 seen))
  | inr new ↦ ground (
    arith,
    (is_empty-false_iff it.var).1 v.0,
    (is_empty-false_iff it.algorithm).1 v.1,
    (contains_iff algorithms it.algorithm).1 v.2,
  )
]

pub IsTracked-entered : (it : Option Iterate) (c : Checker) → IsTracked c → IsTracked (entered it c)
IsTracked-entered none c t v m = t v m
IsTracked-entered (some it) c t v m = elim m [ inl e ↦ inl e | inr r ↦ inr (t v r) ]

-- The steps of a successful check of a set, over any parts.
pub set_chain :
    (m : Check TreeError) (e : Result TreeError Checker) (p : Checker → Check TreeError)
    (n : Check TreeError) (w : Checker → Result TreeError Checker) (l : Checker → Checker)
    {d : Checker}
    → (m >> (e >>= λ c₁. p c₁ >> (n >> (w c₁ >>= λ c₂. ok (l c₂))))) ≡ ok d
    → Passes m
      × (c₁ : Checker) × (e ≡ ok c₁)
      × Passes (p c₁)
      × Passes n
      × (c₂ : Checker) × (w c₁ ≡ ok c₂)
      × (d ≡ l c₂)
set_chain (ok tt) (ok c₁) p n w l h =
    let (_, a, h₁) = >>=-eq-ok (p c₁) (λ _. n >> (w c₁ >>= λ c₂. ok (l c₂))) h in
    let (_, b, h₂) = >>=-eq-ok n (λ _. w c₁ >>= λ c₂. ok (l c₂)) h₁ in
    let (c₂, r, h₃) = >>=-eq-ok (w c₁) (λ c₂. ok (l c₂)) h₂ in
    (refl, c₁, refl, a, b, c₂, r, ground arith)
set_chain (ok tt) (err f) p n w l h = cc
set_chain (err f) e p n w l h = cc

pub no_nil :
    (e : ℕ → TreeError) (i : ℕ) (ss : PolicySets)
    → Passes (fail_at e (nil_set_index i ss))
    → nil_set_index i ss ≡ none
no_nil e i ss h = ground arith
