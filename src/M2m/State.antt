-- ===== src/M2m/State.antt =====
-- The token that a source of components/authz-agent/internal/m2m/m2m.go holds and the document it publishes,
-- over any steps of its two loops. `view` reads a document of the store.
use qubership_authz_agent.Base.{
  Bytes, Bool, true, false, [], Option, some, codes, equal, is_empty, Result, ok, err, Check, ◌≡◌,
  refl, sym, ap, ◌∙◌, arith, if◌then◌else◌,
}
use qubership_authz_agent.Base.Int.{ℤ}
use qubership_authz_agent.Json.{Json}
use qubership_authz_agent.M2m.{
  Config, Source, M2mError, World, FileError, missing, unreadable, Outside, bearer_doc,
  publish_result, publish, fetched, with_lifetime, publish_fetched, fetch_and_publish, with_hash,
  check_content, check_read, check_file, new_source,
}
use qubership_authz_agent.Pull.Load.{IsStore}

module _ {F S : Type 0} (lib : Outside F S) (view : S → Bytes → Option Json) where
  -- The document of the store is that of the current token, from the first token on; before, there is no
  -- token.
  pub record IsServed (s : Source S) : Type 0 where
    pub served : s.ready ≡ true → view s.store (codes "m2m") ≡ some (bearer_doc s.token)
    pub waiting : s.ready ≡ false → s.token ≡ []

  -- What a publication leaves, by its result.
  abbrev pub PublishLeaves : Bytes → Source S → Check M2mError × Source S → Type 0
  PublishLeaves token s (err e, s') =
      (view s'.store (codes "m2m") ≡ view s.store (codes "m2m"))
      × (s'.token ≡ s.token)
      × (s'.hash ≡ s.hash)
      × (s'.ready ≡ s.ready)
  PublishLeaves token s (ok _, s') =
      (view s'.store (codes "m2m") ≡ some (bearer_doc token))
      × (s'.token ≡ token)
      × (s'.hash ≡ s.hash)
      × (s'.ready ≡ true)

  module _ (law : IsStore lib.put view) where
    pub publish-PublishLeaves :
        (token : Bytes) (s : Source S) → PublishLeaves token s (publish lib token s)
    unfolding publish
    publish-PublishLeaves token s = go (lib.put (codes "m2m") (bearer_doc token) s.store).0 refl
      where
        go :
            (r : Check Bytes)
            → (lib.put (codes "m2m") (bearer_doc token) s.store).0 ≡ r
            → PublishLeaves token s (
                publish_result lib token s
                  (r, (lib.put (codes "m2m") (bearer_doc token) s.store).1))
        go (err e) h =
            (law.fails (codes "m2m") (bearer_doc token) s.store e h (codes "m2m"), refl, refl, refl)
        go (ok u) h = (law.sets (codes "m2m") (bearer_doc token) s.store h, refl, refl, refl)

    -- A step keeps a source that is served, and one that is ready.
    abbrev pub Kept : Source S → Source S → Type 0
    Kept s s' = IsServed s' × (s.ready ≡ true → s'.ready ≡ true)

    PublishLeaves-Kept :
        (token : Bytes) (s : Source S) (o : Check M2mError × Source S)
        → IsServed s
        → PublishLeaves token s o
        → Kept s o.1
    PublishLeaves-Kept token s (err e, s') v (doc, tok, h, ready) = (
      record {
        served = λ r. doc ∙ v.served (sym ready ∙ r) ∙ ap (λ t. some (bearer_doc t)) (sym tok);
        waiting = λ r. tok ∙ v.waiting (sym ready ∙ r);
      },
      λ r. ready ∙ r,
    )
    PublishLeaves-Kept token s (ok u, s') v (doc, tok, h, ready) = (
      record {
        served = λ r. doc ∙ ap (λ t. some (bearer_doc t)) (sym tok);
        waiting = λ r. absurd (ground (arith, ready, r));
      },
      λ r. ready,
    )

    with_lifetime-Kept :
        (s : Source S) (l : ℤ) (o : Check M2mError × Source S)
        → Kept s o.1
        → Kept s (with_lifetime lib l o).1
    with_lifetime-Kept s l (err e, s') k = k
    with_lifetime-Kept s l (ok u, s') k = k

    publish_fetched-Kept :
        (r : Result M2mError (Bytes × ℤ)) (s : Source S)
        → IsServed s
        → Kept s (publish_fetched lib r s).1
    publish_fetched-Kept (err e) s v = (v, λ r. r)
    publish_fetched-Kept (ok (token, l)) s v =
        with_lifetime-Kept s l (publish lib token s)
          (PublishLeaves-Kept token s (publish lib token s) v (publish-PublishLeaves token s))

    fetch-Kept :
        (cfg : Config) (w : World) (s : Source S)
        → IsServed s
        → Kept s (fetch_and_publish lib cfg w s).1
    unfolding fetch_and_publish
    fetch-Kept cfg w s v = publish_fetched-Kept (fetched lib cfg w) s v

    with_hash-Kept :
        (s : Source S) (hash : Bytes) (o : Check M2mError × Source S)
        → Kept s o.1
        → Kept s (with_hash lib hash o).1
    with_hash-Kept s hash (err e, s') k = k
    with_hash-Kept s hash (ok u, s') (v, k) = (record { served = v.served; waiting = v.waiting }, k)

    check_content-Kept :
        (token : Bytes) (s : Source S) → IsServed s → Kept s (check_content lib token s).1
    check_content-Kept token s v = go (is_empty token) (equal (lib.digest token) s.hash)
      where
        go :
            (a b : Bool)
            → Kept s
                (if a
                  then (ok tt, s)
                  else (if b
                      then (ok tt, s)
                      else with_hash lib (lib.digest token) (publish lib token s))).1
        go true b = (v, λ r. r)
        go false true = (v, λ r. r)
        go false false =
            with_hash-Kept s (lib.digest token) (publish lib token s)
              (PublishLeaves-Kept token s (publish lib token s) v (publish-PublishLeaves token s))

    check_read-Kept :
        (r : Result FileError Bytes) (s : Source S) → IsServed s → Kept s (check_read lib r s).1
    check_read-Kept (err missing) s v = (v, λ r. r)
    check_read-Kept (err (unreadable e)) s v = (v, λ r. r)
    check_read-Kept (ok raw) s v = check_content-Kept (lib.trim_space raw) s v

    pub check_file-Kept :
        (cfg : Config) (w : World) (s : Source S) → IsServed s → Kept s (check_file lib cfg w s).1
    unfolding check_file
    check_file-Kept cfg w s v = check_read-Kept (w.files cfg.token_file) s v

    -- A step of either loop.
    pub data Step (cfg : Config) : Source S → Source S → Type 0 where
      fetch : (w : World) (s : Source S) → Step cfg s (fetch_and_publish lib cfg w s).1
      check : (w : World) (s : Source S) → Step cfg s (check_file lib cfg w s).1

    pub data Reach (cfg : Config) (s : Source S) : Source S → Type 0 where
      here : Reach cfg s s
      next : {t u : Source S} → Reach cfg s t → Step cfg t u → Reach cfg s u

    Step-Kept : {cfg : Config} {s t : Source S} → Step cfg s t → IsServed s → Kept s t
    Step-Kept {cfg = cfg} (fetch w s) v = fetch-Kept cfg w s v
    Step-Kept {cfg = cfg} (check w s) v = check_file-Kept cfg w s v

    Reach-Kept : {cfg : Config} {s t : Source S} → IsServed s → Reach cfg s t → Kept s t
    Reach-Kept v here = (v, λ r. r)
    Reach-Kept v (next reach step) =
        let (v', k) = Reach-Kept v reach in
        let (v'', k') = Step-Kept step v' in (v'', λ r. k' (k r))

    -- From a new source on, over any fetches and reads of the file, those that fail included, the document of
    -- the store is that of the current token once the source is ready, and before that there is no token; where a
    -- `Put` of the store sets one document or fails and changes nothing.
    pub Reach-IsServed :
        (cfg : Config) (store : S) (s : Source S) → Reach cfg (new_source store) s → IsServed s
    unfolding new_source
    Reach-IsServed cfg store s reach =
        (Reach-Kept (record { served = λ r. cc; waiting = λ r. refl }) reach).0
