-- ===== src/M2m/File.antt =====
-- The token that `checkFile` of components/authz-agent/internal/m2m/m2m.go reads from its file.
use qubership_authz_agent.Base.{
  Bytes, Bool, true, false, List, [], ◌∷◌, Option, some, codes, equal, equal_iff, is_empty,
  is_empty-false_iff, Result, ok, err, Check, Bool-cases, ◌≡◌, ◌≢◌, ◌⊎◌, inl, inr, refl, sym, ap,
  subst, ◌∙◌, if◌then◌else◌,
}
use qubership_authz_agent.Json.{Json}
use qubership_authz_agent.M2m.State.{
  IsServed, PublishLeaves, publish-PublishLeaves, check_file-Kept,
}
use qubership_authz_agent.M2m.{
  Config, Source, M2mError, World, FileError, missing, unreadable, Outside, bearer_doc, publish,
  with_hash, check_content, check_read, check_file, run_file, new_source,
}
use qubership_authz_agent.Pull.Load.{IsStore}

module _ {F S : Type 0} (lib : Outside F S) (view : S → Bytes → Option Json) where
  -- What `hash` says of the token.
  abbrev HashSays : Source S → Type 0
  HashSays s = (s.hash ≡ []) ⊎ ((s.hash ≡ lib.digest s.token) × (s.ready ≡ true))

  -- The source is served, and a hash that is set is that of its token, which was published.
  abbrev IsHashed : Source S → Type 0
  IsHashed s = IsServed lib view s × HashSays s

  -- The content of the file is the token, the document is that of the token, and another check of the same
  -- file does nothing.
  pub record IsCurrent (cfg : Config) (w : World) (content : Bytes) (s : Source S) : Type 0 where
    pub token_is : s.token ≡ content
    pub doc_is : view s.store (codes "m2m") ≡ some (bearer_doc content)
    pub is_ready : s.ready ≡ true
    pub settled : check_file lib cfg w s ≡ (ok tt, s)

  module _ (law : IsStore lib.put view)
      (injective : (a b : Bytes) → lib.digest a ≡ lib.digest b → a ≡ b)
      (not_empty : (a : Bytes) → lib.digest a ≢ []) where
    check_content-unchanged :
        (token : Bytes) (s : Source S)
        → token ≢ []
        → lib.digest token ≡ s.hash
        → check_content lib token s ≡ (ok tt, s)
    check_content-unchanged token s n e =
        rw ((is_empty-false_iff token).1 n, (equal_iff (lib.digest token) s.hash).1 e)

    check_content-changed :
        (token : Bytes) (s : Source S)
        → token ≢ []
        → equal (lib.digest token) s.hash ≡ false
        → check_content lib token s ≡ with_hash lib (lib.digest token) (publish lib token s)
    check_content-changed token s n e = rw ((is_empty-false_iff token).1 n, e)

    with_hash-leaves :
        (token : Bytes) (s : Source S) (o : Check M2mError × Source S)
        → PublishLeaves lib view token s o
        → (with_hash lib (lib.digest token) o).0 ≡ ok tt
        → let s' = (with_hash lib (lib.digest token) o).1 in
          (s'.token ≡ token)
          × (view s'.store (codes "m2m") ≡ some (bearer_doc token))
          × (s'.ready ≡ true)
          × (s'.hash ≡ lib.digest token)
    with_hash-leaves token s (err e, s') h p = cc
    with_hash-leaves token s (ok u, s') (doc, tok, h, ready) p = (tok, doc, ready, refl)

    check_file-read :
        (cfg : Config) (w : World) (s : Source S) (raw : Bytes)
        → w.files cfg.token_file ≡ ok raw
        → check_file lib cfg w s ≡ check_content lib (lib.trim_space raw) s
    unfolding check_file
    check_file-read cfg w s raw h = rw h

    unchanged-IsCurrent :
        (cfg : Config) (w : World) (s : Source S) (token : Bytes)
        → IsServed lib view s
        → lib.digest token ≡ s.hash
        → (s.hash ≡ []) ⊎ ((s.hash ≡ lib.digest s.token) × (s.ready ≡ true))
        → check_file lib cfg w s ≡ (ok tt, s)
        → IsCurrent cfg w token s
    unchanged-IsCurrent cfg w s token v same (inl h) eq = absurd (not_empty token (same ∙ h))
    unchanged-IsCurrent cfg w s token v same (inr (h, ready)) eq =
        let tok : s.token ≡ token = sym (injective token s.token (same ∙ h)) in
        record {
          token_is = tok;
          doc_is = v.served ready ∙ ap (λ t. some (bearer_doc t)) tok;
          is_ready = ready;
          settled = eq;
        }

    check_file-IsCurrent :
        (cfg : Config) (w : World) (s : Source S) (raw : Bytes)
        → IsHashed s
        → (check_file lib cfg w s).0 ≡ ok tt
        → w.files cfg.token_file ≡ ok raw
        → lib.trim_space raw ≢ []
        → IsCurrent cfg w (lib.trim_space raw) (check_file lib cfg w s).1
    check_file-IsCurrent cfg w s raw (v, hashed) passed file n =
        let token = lib.trim_space raw in
        let read = check_file-read cfg w s raw file in
        elim (Bool-cases (equal (lib.digest token) s.hash)) [
          | inl e ↦
              let same = (equal_iff (lib.digest token) s.hash).0 e in
              let eq = read ∙ check_content-unchanged token s n same in
              subst (IsCurrent cfg w token) (ap (λ o. o.1) (sym eq))
                (unchanged-IsCurrent cfg w s token v same hashed eq)
          | inr d ↦
              let o = with_hash lib (lib.digest token) (publish lib token s) in
              let eq = read ∙ check_content-changed token s n d in
              let (tok, doc, ready, hash) =
                with_hash-leaves token s (publish lib token s)
                  (publish-PublishLeaves lib view law token s) (ap (λ x. x.0) (sym eq) ∙ passed) in
              subst (IsCurrent cfg w token) (ap (λ x. x.1) (sym eq)) (record {
                token_is = tok;
                doc_is = doc;
                is_ready = ready;
                settled =
                    check_file-read cfg w o.1 raw file
                    ∙ check_content-unchanged token o.1 n (sym hash);
              })
        ]

    with_hash-HashSays :
        (token : Bytes) (s : Source S) (o : Check M2mError × Source S)
        → HashSays s
        → PublishLeaves lib view token s o
        → HashSays (with_hash lib (lib.digest token) o).1
    with_hash-HashSays token s (err e, s') (inl h) (doc, tok, hash, ready) = inl (hash ∙ h)
    with_hash-HashSays token s (err e, s') (inr (h, r)) (doc, tok, hash, ready) =
        inr (hash ∙ h ∙ ap lib.digest (sym tok), ready ∙ r)
    with_hash-HashSays token s (ok u, s') v (doc, tok, hash, ready) =
        inr (ap lib.digest (sym tok), ready)

    check_content-HashSays :
        (token : Bytes) (s : Source S) → HashSays s → HashSays (check_content lib token s).1
    check_content-HashSays token s v = go (is_empty token) (equal (lib.digest token) s.hash)
      where
        go :
            (a b : Bool)
            → HashSays
                (if a
                  then (ok tt, s)
                  else (if b
                      then (ok tt, s)
                      else with_hash lib (lib.digest token) (publish lib token s))).1
        go true b = v
        go false true = v
        go false false =
            with_hash-HashSays token s (publish lib token s) v
              (publish-PublishLeaves lib view law token s)

    check_read-HashSays :
        (r : Result FileError Bytes) (s : Source S) → HashSays s → HashSays (check_read lib r s).1
    check_read-HashSays (err missing) s v = v
    check_read-HashSays (err (unreadable e)) s v = v
    check_read-HashSays (ok raw) s v = check_content-HashSays (lib.trim_space raw) s v

    run_file-IsHashed :
        (cfg : Config) (ws : List World) (s : Source S)
        → IsHashed s
        → IsHashed (run_file lib cfg ws s)
    unfolding run_file check_file
    run_file-IsHashed cfg [] s v = v
    run_file-IsHashed cfg (w ∷ ws) s (v, h) = run_file-IsHashed cfg ws (check_file lib cfg w s).1 (
      (check_file-Kept lib view law cfg w s v).0,
      check_read-HashSays (w.files cfg.token_file) s h,
    )

    -- After any checks of the file, however they ended, a check that passes and finds a file that is not blank
    -- leaves the content of the file, less the space around it, as the token and as the document of the store, with the
    -- source ready, and a second check of the same file changes nothing; where digests do not collide
    -- and are not empty, and a `Put` of the store sets one document or fails and changes nothing.
    pub run_file-IsCurrent :
        (cfg : Config) (ws : List World) (w : World) (store : S) (raw : Bytes)
        → (check_file lib cfg w (run_file lib cfg ws (new_source store))).0 ≡ ok tt
        → w.files cfg.token_file ≡ ok raw
        → lib.trim_space raw ≢ []
        → IsCurrent cfg w
            (lib.trim_space raw)
            (check_file lib cfg w (run_file lib cfg ws (new_source store))).1
    unfolding new_source
    run_file-IsCurrent cfg ws w store raw =
        check_file-IsCurrent cfg w (run_file lib cfg ws (new_source store)) raw (
          run_file-IsHashed cfg ws (new_source store)
            (record { served = λ r. cc; waiting = λ r. refl }, inl refl))
