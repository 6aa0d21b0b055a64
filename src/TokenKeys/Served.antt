-- ===== src/TokenKeys/Served.antt =====
-- The keys that a set serves after `Load` and any reloads of internal/token/keys: the fetches, the documents,
-- the snapshots and the checks of a key together.
mod Examples
use qubership_authz_agent.Base.{
  ℕ, Bytes, Bool, true, false, List, [], ◌∷◌, ◌++◌, Option, none, some, equal, Result, ok, err,
  wrap, ◌>>=◌, ◌>>◌, >>=-eq-ok, ok_inj, some_inj, check_all, In, In-append, Bool-cases,
  if◌then◌else◌, ◌≡◌, ◌⊎◌, inl, inr, refl, sym, ap, subst, ◌∙◌, arith,
}
use qubership_authz_agent.PolicyStore.Maps.{find, put}
use qubership_authz_agent.PolicyStore.Store.{index, normalize, index-put}
use qubership_authz_agent.TokenKeys.Allowed.{IsSigningKey, signing_key-IsSigningKey}
use qubership_authz_agent.TokenKeys.Config.{Provider, Config, Url, validate_config}
use qubership_authz_agent.TokenKeys.Document.Collected.{Comes}
use qubership_authz_agent.TokenKeys.Document.Parsed.{Listed, Gives, parse_jwks-Gives}
use qubership_authz_agent.TokenKeys.Document.{
  Remote, Failure, JwksError, no_json, no_array, jwks_wrong, fetch_error, keys_text, or_none_usable,
  parse_entries, parse_jwks, jwks_address, jwks_at, of_entries, of_text, of_member, get, fetch,
}
use qubership_authz_agent.TokenKeys.Held.{
  AllGood, Indexes, put-Indexes, Holds, snapshot-Holds, refresh-Holds,
}
use qubership_authz_agent.TokenKeys.Entries.{all_keys, Named, new_snapshot-Named}
use qubership_authz_agent.TokenKeys.Signing.{Jwk, signing_key, allows}
use qubership_authz_agent.TokenKeys.Startup.{
  Attempts, cut_short, cut_waiting, again, or_last, or_again, fetch_with_retry, LoadError,
  config_invalid, clash, Fetched, unfetched_of, by_provider, unless_unfetched, load_fetched,
  new_fetcher, provider_ids, fetched_all, load, provider_named, fetch_of, run,
}
use qubership_authz_agent.TokenKeys.{
  KeyError, failures, replace, Key, FetchError, no_usable_key, failed, KeySet, Snapshot,
  new_snapshot, lookup, kept, collect_results, refresh,
}

wrap-eq-ok : {E F A : Type 0} (f : E → F) (r : Result E A) {a : A} → wrap f r ≡ ok a → r ≡ ok a
wrap-eq-ok f (ok b) h = ap ok (ok_inj h)
wrap-eq-ok f (err e) h = cc

In-provider_named :
    (id : Bytes) (ps : List Provider) (p : Provider) → provider_named id ps ≡ some p → In p ps
In-provider_named id [] p h = cc
In-provider_named id (q ∷ ps) p h = elim (Bool-cases (equal id q.id)) [
  | inl e ↦ inl (sym (some_inj (rw (e) at h)))
  | inr n ↦ inr (In-provider_named id ps p (rw (n) at h))
]

module _ {J : Type 0} (jwk : Jwk J) (bit_len : ℕ → ℕ) where
  -- A signing key with the id of one of the providers
  abbrev pub IsVouched : List Provider → Key J → Type 0
  IsVouched ps k = IsSigningKey jwk bit_len k × ((p : Provider) × In p ps × (k.provider ≡ p.id))

module _ {J : Type 0} (jwk : Jwk J) (bit_len : ℕ → ℕ)
    (keeps : (k p : J) → jwk.public_of k ≡ some p → jwk.key_type p ≡ jwk.key_type k) where
  Comes-IsSigningKey :
      (remote : Remote J) (id : Bytes) (raws : List Bytes) (k : Key J)
      → Comes jwk bit_len remote id (Listed jwk bit_len remote id raws) k
      → IsSigningKey jwk bit_len k × (k.provider ≡ id)
  unfolding allows
  Comes-IsSigningKey remote id raws k (raw, key, i, h, e) =
      let s = signing_key-IsSigningKey jwk bit_len keeps raw key h in
      subst (λ (x : Key J). IsSigningKey jwk bit_len x × (x.provider ≡ id)) (sym e)
        (
          record { named = s.named; strong = s.strong; fitting = s.fitting; accepted = s.accepted },
          refl,
        )

  parse_jwks-IsSigningKey :
      (remote : Remote J) (id body : Bytes) (ks : List (Key J))
      → parse_jwks jwk bit_len remote id body ≡ ok ks
      → (k : Key J) → In k ks
      → IsSigningKey jwk bit_len k × (k.provider ≡ id)
  unfolding parse_jwks
  parse_jwks-IsSigningKey remote id body ks h k i =
      let (member, e, h₁) =
        >>=-eq-ok (wrap no_json (remote.keys_member body)) (of_member jwk bit_len remote id) h in
      by_member member (wrap-eq-ok no_json (remote.keys_member body) e) h₁
    where
      by_member :
          (member : Option Bytes)
          → remote.keys_member body ≡ ok member
          → of_member jwk bit_len remote id member ≡ ok ks
          → IsSigningKey jwk bit_len k × (k.provider ≡ id)
      by_member none e h₁ = cc
      by_member (some text) e h₁ =
          let (raws, e₂, h₂) =
            >>=-eq-ok (wrap no_array (remote.elements text)) (of_entries jwk bit_len remote id)
              h₁ in
          let gives : Gives jwk bit_len remote id raws (ok ks) =
            subst (Gives jwk bit_len remote id raws) h (
              parse_jwks-Gives jwk bit_len remote id body text raws e
                (wrap-eq-ok no_array (remote.elements text) e₂)) in
          Comes-IsSigningKey remote id raws k (gives.0.from_entries k i)

  fetch-IsVouched :
      (remote : Remote J) (ps : List Provider) (p : Provider) (ks : List (Key J))
      → In p ps
      → fetch jwk bit_len remote p ≡ ok ks
      → AllGood (IsVouched jwk bit_len ps) ks
  unfolding fetch
  fetch-IsVouched remote ps p ks m h k i =
      let (uri, _, h₁) =
        >>=-eq-ok (jwks_address jwk bit_len remote p) (jwks_at jwk bit_len remote p) h in
      let (body, _, h₂) =
        >>=-eq-ok (get jwk bit_len remote p uri)
          (λ body. wrap (jwks_wrong uri) (parse_jwks jwk bit_len remote p.id body)) h₁ in
      let (s, e) =
        parse_jwks-IsSigningKey remote p.id body ks
          (wrap-eq-ok (jwks_wrong uri) (parse_jwks jwk bit_len remote p.id body) h₂) k i in
      (s, (p, m, e))

  retry-IsVouched :
      (ps : List Provider) (p : Provider) (last : Option Failure) (a : Attempts (Remote J))
      (ks : List (Key J))
      → In p ps
      → fetch_with_retry jwk bit_len p last a ≡ ok ks
      → AllGood (IsVouched jwk bit_len ps) ks
  unfolding fetch_with_retry
  retry-IsVouched ps p last (cut_waiting r) ks m h = fetch-IsVouched r ps p ks m h
  retry-IsVouched ps p last (cut_short r) ks m h =
      fetch-IsVouched r ps p ks m (own last (fetch jwk bit_len r p) h)
    where
      own :
          (last : Option Failure) (o : Result Failure (List (Key J)))
          → or_last last o ≡ ok ks
          → o ≡ ok ks
      own none o q = q
      own (some e) (ok l) q = q
      own (some e) (err f) q = cc
  retry-IsVouched ps p last (again r rest) ks m h =
      by_first (fetch jwk bit_len r p) refl h (λ e. retry-IsVouched ps p (some e) rest ks m)
    where
      by_first :
          (o : Result Failure (List (Key J)))
          → fetch jwk bit_len r p ≡ o
          → or_again (λ e. fetch_with_retry jwk bit_len p (some e) rest) o ≡ ok ks
          → ((e : Failure)
              → fetch_with_retry jwk bit_len p (some e) rest ≡ ok ks
              → AllGood (IsVouched jwk bit_len ps) ks)
          → AllGood (IsVouched jwk bit_len ps) ks
      by_first (ok l) e q ih = fetch-IsVouched r ps p ks m (e ∙ q)
      by_first (err f) e q ih = ih f q

  by_provider-IsVouched :
      (ps qs : List Provider) (attempts : Bytes → Attempts (Remote J))
      (m : List (Bytes × List (Key J)))
      → ((q : Provider) → In q qs → In q ps)
      → Indexes (IsVouched jwk bit_len ps) m
      → Indexes (IsVouched jwk bit_len ps) (by_provider (fetched_all jwk bit_len attempts qs) m)
  by_provider-IsVouched ps [] attempts m sub all = all
  by_provider-IsVouched ps (q ∷ qs) attempts m sub all =
      by_result (fetch_with_retry jwk bit_len q none (attempts q.id)) refl
        (λ m' all'. by_provider-IsVouched ps qs attempts m' (λ p i. sub p (inr i)) all')
    where
      by_result :
          (r : Result Failure (List (Key J)))
          → fetch_with_retry jwk bit_len q none (attempts q.id) ≡ r
          → ((m' : List (Bytes × List (Key J)))
              → Indexes (IsVouched jwk bit_len ps) m'
              → Indexes
                  (IsVouched jwk bit_len ps)
                  (by_provider (fetched_all jwk bit_len attempts qs) m'))
          → Indexes
              (IsVouched jwk bit_len ps)
              (by_provider ((q.id, r) ∷ fetched_all jwk bit_len attempts qs) m)
      by_result (ok ks) h ih = ih (put q.id ks m) (
          put-Indexes (IsVouched jwk bit_len ps) q.id ks m
            (retry-IsVouched ps q none (attempts q.id) ks (sub q (inl refl)) h) all)
      by_result (err e) h ih = ih m all

  load-Holds :
      (parse_url : Bytes → Result Bytes Url) (read_file : Bytes → Result Bytes Bytes)
      (has_certs : Bytes → Bool) (cfg : Config) (attempts : Bytes → Attempts (Remote J))
      (s : KeySet J)
      → load jwk bit_len parse_url read_file has_certs cfg attempts ≡ ok s
      → Holds (IsVouched jwk bit_len cfg.providers) s
  unfolding load load_fetched index find normalize
  load-Holds parse_url read_file has_certs cfg attempts s h =
      let ids = provider_ids cfg.providers in
      let rs = fetched_all jwk bit_len attempts cfg.providers in
      let (_, _, h₁) =
        >>=-eq-ok (wrap config_invalid (validate_config parse_url cfg))
          (λ _. check_all (new_fetcher read_file has_certs) cfg.providers >> load_fetched ids rs)
          h in
      let (_, _, h₂) =
        >>=-eq-ok (check_all (new_fetcher read_file has_certs) cfg.providers)
          (λ _. load_fetched ids rs) h₁ in
      let (_, _, h₃) =
        >>=-eq-ok (unless_unfetched (unfetched_of rs))
          (λ _. wrap clash (new_snapshot ids (by_provider rs [])) >>= λ snap.
            ok (record { fetchers = ids; current = snap }))
          h₂ in
      let (snap, e, h₄) =
        >>=-eq-ok (wrap clash (new_snapshot ids (by_provider rs [])))
          (λ snap. ok (record { fetchers = ids; current = snap })) h₃ in
      subst (Holds (IsVouched jwk bit_len cfg.providers)) (ok_inj h₄) (
        snapshot-Holds (IsVouched jwk bit_len cfg.providers) ids (by_provider rs []) snap
          (by_provider-IsVouched cfg.providers cfg.providers attempts [] (λ q i. i)
            (λ id k i. absurd i))
          (wrap-eq-ok clash (new_snapshot ids (by_provider rs [])) e))

  module _ (text : Failure → Bytes) (ps : List Provider) where
    fetch_of-IsVouched :
        (remote : Remote J) (id : Bytes) (o : Option Provider) (ks : List (Key J))
        → provider_named id ps ≡ o
        → fetch_of jwk bit_len text remote o ≡ ok ks
        → AllGood (IsVouched jwk bit_len ps) ks
    fetch_of-IsVouched remote id none ks e h = cc
    fetch_of-IsVouched remote id (some p) ks e h =
        fetch-IsVouched remote ps p ks (In-provider_named id ps p e)
          (wrap-eq-ok (fetch_error text) (fetch jwk bit_len remote p) h)

    run-Holds :
        (remotes : List (Bytes → Remote J)) (s : KeySet J)
        → Holds (IsVouched jwk bit_len ps) s
        → Holds (IsVouched jwk bit_len ps) (run jwk bit_len text ps remotes s)
    unfolding run
    run-Holds [] s h = h
    run-Holds (remote ∷ remotes) s h = run-Holds remotes _ (
        refresh-Holds (IsVouched jwk bit_len ps)
          (λ id. fetch_of jwk bit_len text (remote id) (provider_named id ps))
          (λ id ks q. fetch_of-IsVouched (remote id) id (provider_named id ps) ks refl q) s h)

  -- After `Load` and any reloads, whatever the fetches find: a key that `Lookup` returns for a kid has that
  -- kid and the id of one of the configured providers, is strong where it is RSA, and allows only accepted
  -- algorithms for its type and curve. Package jwk is to keep the type of a key in its public key.
  pub lookup-IsVouched :
      (parse_url : Bytes → Result Bytes Url) (read_file : Bytes → Result Bytes Bytes)
      (has_certs : Bytes → Bool) (text : Failure → Bytes) (cfg : Config)
      (attempts : Bytes → Attempts (Remote J)) (remotes : List (Bytes → Remote J)) (s : KeySet J)
      (kid : Bytes) (k : Key J)
      → load jwk bit_len parse_url read_file has_certs cfg attempts ≡ ok s
      → lookup kid (run jwk bit_len text cfg.providers remotes s) ≡ some k
      → (k.id ≡ kid) × IsVouched jwk bit_len cfg.providers k
  lookup-IsVouched parse_url read_file has_certs text cfg attempts remotes s kid k h f =
      (run-Holds text cfg.providers remotes s
          (load-Holds parse_url read_file has_certs cfg attempts s h)).found
        kid k f
