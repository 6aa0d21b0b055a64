-- ===== src/M2m/Renewal.antt =====
-- When the next fetch of components/authz-agent/internal/m2m/m2m.go is due: `renewal`, and the waits of
-- `runClientCredentials`.
use qubership_authz_agent.Base.Int.{ℤ, pos, negsuc, pos_part, ◌-ℤ◌, scale}
use qubership_authz_agent.Base.{
  ℕ, Bool-cases, ltb, suc, ◌+◌, ◌-◌, ◌*◌, ◌/◌, ◌^◌, ◌≤◌, false, List, [], ◌∷◌, ◌++◌, some, ok, err,
  All, leb, ◌≡◌, ◌⊎◌, inl, inr, refl, ap, ◌∙◌, arith, if◌then◌else◌,
}
use native.Mathlib.Nat.{pow-succ'}
use qubership_authz_agent.M2m.{
  Config, Source, M2mError, World, Outside, second, initial_backoff, at_least, half, renewal,
  next_backoff, fetched, fetch_and_publish, iterate, after_wait, run_client_credentials,
}

-- The wait is at least a second and at least half the lifetime; it ends before the token expires, but for
-- that second; and it leaves the time before the expiry that was asked for, where that is at most half
-- the lifetime and more than a second is left.
pub record IsRenewal (lifetime renew_before : ℕ) (wait : ℤ) : Type 0 where
  pub time : ℕ
  pub is_time : wait ≡ pos time
  pub at_least_second : second ≤ time
  pub at_least_half : lifetime ≤ 2 * time + 1
  pub in_time : (time ≤ lifetime) ⊎ (time ≡ second)
  pub as_asked :
      2 * renew_before ≤ lifetime
      → second + renew_before ≤ lifetime
      → time + renew_before ≡ lifetime

abbrev larger : ℕ → ℕ → ℕ
larger a b = if ltb b a then a else b

at_least-pos : (a : ℕ) (x : ℤ) → at_least (pos a) x ≡ pos (larger a (pos_part x))
at_least-pos a (pos n) = ground arith
at_least-pos a (negsuc n) = ground arith

renewal-larger : (l b : ℕ) → renewal (pos l) (pos b) ≡ pos (larger second (larger (l / 2) (l - b)))
unfolding renewal half ◌-ℤ◌
renewal-larger l b =
    let left : pos_part (pos l -ℤ pos b) ≡ l - b = ground arith in
    let inner : at_least (pos (l / 2)) (pos l -ℤ pos b) ≡ pos (larger (l / 2) (l - b)) =
      at_least-pos (l / 2) (pos l -ℤ pos b) ∙ ap (λ n. pos (larger (l / 2) n)) left in
    ap (at_least (pos second)) inner ∙ at_least-pos second (pos (larger (l / 2) (l - b)))

-- The wait before a token of a lifetime is renewed, where neither it nor the time asked for is negative: at
-- least a second and at least half the lifetime, so that no token is renewed in the first half, no longer than the lifetime but for that second, and
-- exactly the time asked for before the expiry, where that is at most half the lifetime and leaves
-- a second.
pub renewal-IsRenewal :
    (lifetime renew_before : ℕ)
    → IsRenewal lifetime renew_before (renewal (pos lifetime) (pos renew_before))
renewal-IsRenewal l b = record {
  time = larger second (larger (l / 2) (l - b));
  is_time = renewal-larger l b;
  at_least_second = ground arith;
  at_least_half = ground arith;
  in_time = in_time_of l b;
  as_asked = λ h k. ground arith;
}
  where
    in_time_of :
        (m c : ℕ)
        → (larger second (larger (m / 2) (m - c)) ≤ m)
          ⊎ (larger second (larger (m / 2) (m - c)) ≡ second)
    in_time_of m c = elim (Bool-cases (leb m second)) [
      | inl e ↦ inr (ground arith)
      | inr e ↦ inl (ground arith)
    ]

-- The wait after a number of failures in a row
abbrev pub wait_after : ℕ → ℕ
wait_after n = let w = second * 2 ^ suc n in if leb w 300000000000 then w else 300000000000

next_backoff-pos :
    (w : ℕ) → next_backoff (pos w) ≡ pos (if ltb 300000000000 (2 * w) then 300000000000 else 2 * w)
unfolding next_backoff scale
next_backoff-pos w = ground arith

next_backoff-wait_after : (n : ℕ) → next_backoff (pos (wait_after n)) ≡ pos (wait_after (suc n))
next_backoff-wait_after n = next_backoff-pos (wait_after n) ∙ ground (arith, pow-succ' 2 (suc n))

abbrev pub waits_after : ℕ → List World → List ℤ
waits_after n [] = []
waits_after n (w ∷ ws) = pos (wait_after n) ∷ waits_after (suc n) ws

module _ {F S : Type 0} (lib : Outside F S) where
  -- The fetch fails, and the context goes on.
  abbrev pub Fails : Config → World → Type 0
  Fails cfg w = ((e : M2mError) × (fetched lib cfg w ≡ err e)) × (w.ended ≡ false)

  iterate-Fails :
      (cfg : Config) (w : World) (backoff : ℤ) (s : Source S)
      → Fails cfg w
      → iterate lib cfg w backoff s ≡ (some (backoff, next_backoff backoff), s)
  unfolding iterate fetch_and_publish
  iterate-Fails cfg w backoff s ((e, h), go_on) = rw (h, go_on)

  abbrev prepend : List ℤ → List ℤ × Source S → List ℤ × Source S
  prepend ts (us, s) = (ts ++ us, s)

  run-Fails :
      (cfg : Config) (ws rest : List World) (n : ℕ) (s : Source S)
      → All (Fails cfg) ws
      → (k : ℕ) × (run_client_credentials lib cfg (ws ++ rest) (pos (wait_after n)) s
          ≡ prepend (waits_after n ws) (run_client_credentials lib cfg rest (pos (wait_after k)) s))
  unfolding run_client_credentials
  run-Fails cfg [] rest n s h = (n, refl)
  run-Fails cfg (w ∷ ws) rest n s (h, hs) =
      let (k, e) = run-Fails cfg ws rest (suc n) s hs in
      let one =
        iterate-Fails cfg w (pos (wait_after n)) s h
        ∙ ap (λ b. (some (pos (wait_after n), b), s)) (next_backoff-wait_after n) in
      (
        k,
        ap (λ o. after_wait lib o (run_client_credentials lib cfg (ws ++ rest))) one
            ∙ ap (λ r. (pos (wait_after n) ∷ r.0, r.1)) e,
      )

  iterate-ok :
      (cfg : Config) (w : World) (backoff lifetime : ℤ) (s s' : Source S)
      → fetch_and_publish lib cfg w s ≡ (ok lifetime, s')
      → iterate lib cfg w backoff s
        ≡ (some (renewal lifetime cfg.renew_before, initial_backoff), s')
  unfolding iterate
  iterate-ok cfg w backoff lifetime s s' h = rw h

  -- After any number of fetches that fail, the waits of the loop are two seconds and their doubles, up to five
  -- minutes, and the source is as it was; the fetch that then succeeds is followed by the wait for its
  -- renewal, and the loop goes on with the first backoff.
  pub run-recovers :
      (cfg : Config) (ws rest : List World) (w : World) (lifetime : ℤ) (s s' : Source S)
      → All (Fails cfg) ws
      → fetch_and_publish lib cfg w s ≡ (ok lifetime, s')
      → let r = run_client_credentials lib cfg rest initial_backoff s' in
        run_client_credentials lib cfg (ws ++ w ∷ rest) initial_backoff s
        ≡ (waits_after 0 ws ++ renewal lifetime cfg.renew_before ∷ r.0, r.1)
  unfolding run_client_credentials
  run-recovers cfg ws rest w lifetime s s' h got =
      let (k, e) = run-Fails cfg ws (w ∷ rest) 0 s h in
      e
      ∙ ap
          (λ o. prepend (waits_after 0 ws) (after_wait lib o (run_client_credentials lib cfg rest)))
          (iterate-ok cfg w (pos (wait_after k)) lifetime s s' got)
