-- ===== src/AgentAuthn/Passes.antt =====
-- `fetch` of components/authz-agent/internal/authn/authn.go: the passes over the providers, and what each contributes.
use qubership_authz_agent.Base.{
  ℕ, suc, Bytes, Bool, true, false, List, [], ◌∷◌, Option, none, some, length, All, is_empty,
  Result, ok, err, if◌then◌else◌, some_inj, Check, codes, is_empty-false_iff, ◌≡◌, ◌≢◌, ◌⊎◌, inl,
  inr, refl, sym, ap,
}
use qubership_authz_agent.Json.{Members}
use qubership_authz_agent.AgentAuthn.Action.{lift, or_fail, ◌>>=◌, ◌>>◌, continue-result}
use qubership_authz_agent.AgentAuthn.Fetch.{
  validate, get_body, jwks_address, serialized, indexed, counted, text_at, is_other_use, single_key,
  index_keys, usable, keys_of_body, fetch_keys, result_of, fetch_provider,
}
use qubership_authz_agent.AgentAuthn.{
  Config, Provider, success, failure, Failure, jwks_unfetched, ProviderResult, IndexedKey, Outside,
  Session,
}

abbrev pub Pass : Type 0
Pass = ProviderResult × List IndexedKey

-- The passes of `fetchProvider` over the providers from the index `i`, one behind the other.
pub data Passes {W S : Type 0} (lib : Outside W S) (cfg : Config)
    : ℕ → List Provider → Session W → List Pass → Session W → Type 0 where
  finished : {i : ℕ} {s : Session W} → Passes lib cfg i [] s [] s
  passed :
      {i : ℕ} {p : Provider} {ps : List Provider} {s t u : Session W} {pass : Pass}
      {rest : List Pass}
      → fetch_provider lib cfg i p s ≡ (pass, t)
      → Passes lib cfg (suc i) ps t rest u
      → Passes lib cfg i (p ∷ ps) s (pass ∷ rest) u

-- A key that can be looked up, with the provider that it came from
abbrev pub IsKeyOf : Provider → IndexedKey → Type 0
IsKeyOf p k = (k.kid ≢ []) × (k.candidate.provider_id ≡ p.id)

-- A provider contributes its keys, of which there is one, or none and the reason.
abbrev pub IsPass : ℕ → Provider → Pass → Type 0
IsPass i p (r, keys) =
    (r.required ≡ p.required)
    × (((r.result ≡ success)
          × (r.id ≡ p.id)
          × (validate i p ≡ ok tt)
          × (keys ≢ [])
          × All (IsKeyOf p) keys)
        ⊎ ((r.result ≡ failure) × (keys ≡ []) × ((e : Failure) × (r.failure_reason ≡ some e))))

abbrev pub ArePasses : ℕ → List Provider → List Pass → Type 0
ArePasses i [] [] = Unit
ArePasses i [] (pass ∷ passes) = ⊥
ArePasses i (p ∷ ps) [] = ⊥
ArePasses i (p ∷ ps) (pass ∷ passes) = IsPass i p pass × ArePasses (suc i) ps passes

abbrev HasKeys : Provider → Result Failure (List IndexedKey) → Type 0
HasKeys p (err e) = Unit
HasKeys p (ok keys) = (keys ≢ []) × All (IsKeyOf p) keys

usable-HasKeys :
    (p : Provider) (keys : List IndexedKey) (n : ℕ)
    → All (IsKeyOf p) keys
    → HasKeys p (usable p.id (keys, n))
usable-HasKeys p [] n h = tt
usable-HasKeys p (k ∷ ks) n h = (λ e. cc, h)

tests-some :
    {A G : Type 0} {a : A} (b c : Bool) (o : Option A)
    → (b ≡ false → o ≡ some a → G)
    → (if b then none else if c then none else o) ≡ some a
    → G
tests-some true c o f h = cc
tests-some false true o f h = cc
tests-some false false o f h = f refl h

module _ {W S : Type 0} (lib : Outside W S) where
  serialized-IsKeyOf :
      (p : Provider) (kid : Bytes) (key : Members) (r : Result Bytes Bytes)
      → kid ≢ []
      → (k : IndexedKey) → serialized lib p.id kid key r ≡ some k
      → IsKeyOf p k
  serialized-IsKeyOf p kid key (err e) h k q = cc
  serialized-IsKeyOf p kid key (ok single) h k q = rw (sym (some_inj q)) (h, refl)

  indexed-IsKeyOf :
      (p : Provider) (key : Members) (k : IndexedKey) → indexed lib p.id key ≡ some k → IsKeyOf p k
  unfolding indexed
  indexed-IsKeyOf p key k h =
      let kid = text_at (codes "kid") key in
      tests-some (is_empty kid) (is_other_use (text_at (codes "use") key))
        (serialized lib p.id kid key (lib.marshal (single_key key)))
        (λ b q.
          serialized-IsKeyOf p kid key (lib.marshal (single_key key)) ((is_empty-false_iff kid).0 b)
            k q)
        h

  index_keys-IsKeyOf :
      (p : Provider) (keys : List Members) → All (IsKeyOf p) (index_keys lib p.id keys).0
  unfolding index_keys
  index_keys-IsKeyOf p [] = tt
  index_keys-IsKeyOf p (key ∷ keys) =
      go (indexed lib p.id key) refl (index_keys lib p.id keys) (index_keys-IsKeyOf p keys)
    where
      go :
          (o : Option IndexedKey)
          → indexed lib p.id key ≡ o
          → (l : List IndexedKey × ℕ) → All (IsKeyOf p) l.0
          → All (IsKeyOf p) (counted o l).0
      go none h (out, n) all = all
      go (some k) h (out, n) all = (indexed-IsKeyOf p key k h, all)

  keys_of_body-HasKeys :
      (p : Provider) (r : Result Bytes (Option (List Members)))
      → HasKeys p (keys_of_body lib p.id r)
  keys_of_body-HasKeys p (err e) = tt
  keys_of_body-HasKeys p (ok none) = tt
  keys_of_body-HasKeys p (ok (some keys)) =
      usable-HasKeys p (index_keys lib p.id keys).0 (index_keys lib p.id keys).1
        (index_keys-IsKeyOf p keys)

  module _ (cfg : Config) (i : ℕ) (p : Provider) where
    abbrev IsFetched : Result Failure (List IndexedKey) → Type 0
    IsFetched (err e) = Unit
    IsFetched (ok keys) = (validate i p ≡ ok tt) × HasKeys p (ok keys)

    with_validate :
        (r : Result Failure (List IndexedKey)) → validate i p ≡ ok tt → HasKeys p r → IsFetched r
    with_validate (err e) v h = tt
    with_validate (ok keys) v h = (v, h)

    fetch_keys-IsFetched : (s : Session W) → IsFetched (fetch_keys lib cfg i p s).0
    unfolding fetch_keys
    fetch_keys-IsFetched s = by_validate (validate i p) refl
      where
        by_validate :
            (r : Check Failure)
            → validate i p ≡ r
            → IsFetched
                ((lift r
                    >> (jwks_address lib cfg p >>= λ uri.
                        or_fail (λ e. jwks_unfetched p.id uri) (get_body lib cfg uri) >>= λ body.
                        lift (keys_of_body lib p.id (lib.decode_jwks body))))
                  s).0
        by_validate (err e) v = tt
        by_validate (ok u) v =
            continue-result IsFetched _ (jwks_address lib cfg p s) (λ e. tt)
              λ uri t.
                continue-result IsFetched _
                  (or_fail (λ e. jwks_unfetched p.id uri) (get_body lib cfg uri) t) (λ e. tt)
                  λ body u₁. with_validate _ v (keys_of_body-HasKeys p (lib.decode_jwks body))

    result_of-IsPass :
        (r : Result Failure (List IndexedKey)) → IsFetched r → IsPass i p (result_of lib cfg i p r)
    result_of-IsPass (err e) h = (refl, inr (refl, refl, (e, refl)))
    result_of-IsPass (ok keys) (v, (some_key, all)) = (refl, inl (refl, refl, v, some_key, all))

    pub fetch_provider-IsPass : (s : Session W) → IsPass i p (fetch_provider lib cfg i p s).0
    unfolding fetch_provider
    fetch_provider-IsPass s = result_of-IsPass _ (fetch_keys-IsFetched s)

pub length-ArePasses :
    (i : ℕ) (ps : List Provider) (passes : List Pass)
    → ArePasses i ps passes
    → length passes ≡ length ps
length-ArePasses i [] [] h = refl
length-ArePasses i [] (pass ∷ passes) h = absurd h
length-ArePasses i (p ∷ ps) [] h = absurd h
length-ArePasses i (p ∷ ps) (pass ∷ passes) (h, hs) =
    ap (λ n. suc n) (length-ArePasses (suc i) ps passes hs)
