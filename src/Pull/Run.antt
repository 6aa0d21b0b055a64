-- ===== src/Pull/Run.antt =====
-- `Run`, `PullNow` and the status of components/authz-agent/internal/pull/pull.go: what holds in every
-- state that loads and a disabled pull reach.
use qubership_authz_agent.Base.{
  ℕ, Bytes, Bool, true, false, List, [], ◌∷◌, ◌++◌, Option, none, some, Result, ok, err, Check, All,
  ◌≡◌, ◌⊎◌, inl, inr, refl, sym, ap, ◌∙◌, if◌then◌else◌,
}
use qubership_authz_agent.Pull.{
  Config, Conversion, Status, Puller, Tick, PullError, source_empty, Outside, converted, load,
  finish, load_converted, pull_once, loaded, disabled, record_success, pull_now, pulls, run,
  is_zero, first_or,
}

module _ {N L I P Q D S : Type 0} (lib : Outside N L I P Q D S) where
  -- The puller has a source and an interval.
  abbrev pub IsEnabled : Config N → Type 0
  IsEnabled cfg = (lib.blank cfg.source_url ≡ false) × (is_zero cfg.interval ≡ false)

  -- The tick fetches or converts nothing.
  abbrev pub Fetchless : Config N → Tick → Type 0
  Fetchless cfg t = (e : PullError) × (converted lib cfg t ≡ err e)

  pull_once-Fetchless :
      (cfg : Config N) (t : Tick) (p : Puller S) (e : PullError)
      → converted lib cfg t ≡ err e
      → pull_once lib cfg t p ≡ (err e, p)
  unfolding pull_once
  pull_once-Fetchless cfg t p e h = rw h

  pull_now-enabled :
      (cfg : Config N) (t : Tick) (p : Puller S)
      → lib.blank cfg.source_url ≡ false
      → pull_now lib cfg t p ≡ record_success lib t.now (pull_once lib cfg t p)
  unfolding pull_now
  pull_now-enabled cfg t p h = rw h

  pulls-Fetchless :
      (cfg : Config N) (ts : List Tick) (p : Puller S)
      → lib.blank cfg.source_url ≡ false
      → All (Fetchless cfg) ts
      → pulls lib cfg ts p ≡ p
  unfolding pulls
  pulls-Fetchless cfg [] p b h = refl
  pulls-Fetchless cfg (t ∷ ts) p b ((e, h), hs) =
      let one : (pull_now lib cfg t p).1 ≡ p =
        ap (λ x. x.1)
          (pull_now-enabled cfg t p b
            ∙ ap (record_success lib t.now) (pull_once-Fetchless cfg t p e h)) in
      ap (pulls lib cfg ts) one ∙ pulls-Fetchless cfg ts p b hs

  pulls-append :
      (cfg : Config N) (ts us : List Tick) (p : Puller S)
      → pulls lib cfg (ts ++ us) p ≡ pulls lib cfg us (pulls lib cfg ts p)
  unfolding pulls
  pulls-append cfg [] us p = refl
  pulls-append cfg (t ∷ ts) us p = pulls-append cfg ts us (pull_now lib cfg t p).1

  run-enabled :
      (cfg : Config N) (ts : List Tick) (p : Puller S)
      → IsEnabled cfg
      → run lib cfg ts p ≡ pulls lib cfg ts p
  unfolding run
  run-enabled cfg ts p (b, z) = rw (b, z)

  record_success-ok :
      (now : ℕ) (r : Check PullError) (p : Puller S)
      → r ≡ ok tt
      → record_success lib now (r, p) ≡ (ok tt, loaded lib now p)
  record_success-ok now (ok u) p h = refl
  record_success-ok now (err e) p h = cc

  pulls-one :
      (cfg : Config N) (t : Tick) (ts : List Tick) (p : Puller S)
      → pulls lib cfg (t ∷ ts) p ≡ pulls lib cfg ts (pull_now lib cfg t p).1
  unfolding pulls
  pulls-one cfg t ts p = refl

  -- However many loads came before and however they ended, once a load of an enabled puller succeeds, the
  -- puller is in the state that this load leaves, its policies reported as loaded, and stays in
  -- exactly that state over any later loads whose fetch or conversion fails.
  pub run-serves :
      (cfg : Config N) (before : List Tick) (t : Tick) (after : List Tick) (p : Puller S)
      → IsEnabled cfg
      → (pull_once lib cfg t (run lib cfg before p)).0 ≡ ok tt
      → All (Fetchless cfg) after
      → let q = run lib cfg (before ++ t ∷ after) p in
        (q ≡ loaded lib t.now (pull_once lib cfg t (run lib cfg before p)).1)
        × (q.status.policies_loaded ≡ true)
  unfolding loaded
  run-serves cfg before t after p (b, z) h hs =
      let q = run lib cfg before p in
      let at_t = run-enabled cfg before p (b, z) in
      let one : (pull_now lib cfg t q).1 ≡ loaded lib t.now (pull_once lib cfg t q).1 =
        ap (λ x. x.1)
          (pull_now-enabled cfg t q b ∙ record_success-ok t.now (pull_once lib cfg t q).0 _ h) in
      let all =
        run-enabled cfg (before ++ t ∷ after) p (b, z)
        ∙ pulls-append cfg before (t ∷ after) p
        ∙ ap (λ r. pulls lib cfg (t ∷ after) r) (sym at_t)
        ∙ pulls-one cfg t after q
        ∙ pulls-Fetchless cfg after (pull_now lib cfg t q).1 b hs
        ∙ one in
      (all, ap (λ r. r.status.policies_loaded) all)

  -- What happens to a puller: a load that is recorded, a load that is not, and a pull that is disabled.
  pub data Step (cfg : Config N) : Puller S → Puller S → Type 0 where
    pulled : (t : Tick) (p : Puller S) → Step cfg p (pull_now lib cfg t p).1
    pulled_once : (t : Tick) (p : Puller S) → Step cfg p (pull_once lib cfg t p).1
    turned_off : (reason : Bytes) (p : Puller S) → Step cfg p (disabled lib reason p)

  pub data Reach (cfg : Config N) (p : Puller S) : Puller S → Type 0 where
    here : Reach cfg p p
    next : {q r : Puller S} → Reach cfg p q → Step cfg q r → Reach cfg p r

  -- The status agrees with the first success: before it, no time and no conversion; from then on, the
  -- policies as loaded, and the time of the first success unless the pull was disabled since.
  abbrev pub Reported : Option ℕ → Status → Type 0
  Reported none st = (st.first_success_at ≡ []) × (st.last_success_at ≡ []) × (st.conversion ≡ none)
  Reported (some f) st =
      (st.policies_loaded ≡ true)
      × ((st.first_success_at ≡ lib.format f)
          ⊎ ((st.first_success_at ≡ []) × (st.last_success_at ≡ []) × (st.conversion ≡ none)))

  -- What was loaded stays loaded, and the first success stays the first.
  abbrev pub Kept : Puller S → Puller S → Type 0
  Kept p q =
      (p.status.policies_loaded ≡ true → q.status.policies_loaded ≡ true)
      × ((f : ℕ) → p.first_success ≡ some f → q.first_success ≡ some f)

  abbrev Good : Puller S → Puller S → Type 0
  Good p q = Reported q.first_success q.status × Kept p q

  loaded-Good :
      (now : ℕ) (p : Puller S) → Reported p.first_success p.status → Good p (loaded lib now p)
  unfolding loaded
  loaded-Good now p h = ((refl, inl refl), (λ _. refl, λ f e. ap (λ o. some (first_or now o)) e))

  off-Reported :
      (reason : Bytes) (o : Option ℕ) (p : Puller S)
      → Reported o p.status
      → Reported o (disabled lib reason p).status
  unfolding disabled
  off-Reported reason none p h = (refl, refl, refl)
  off-Reported reason (some f) p h = (refl, inr (refl, refl, refl))

  disabled-Good :
      (reason : Bytes) (p : Puller S)
      → Reported p.first_success p.status
      → Good p (disabled lib reason p)
  unfolding disabled
  disabled-Good reason p h = (off-Reported reason p.first_success p h, (λ _. refl, λ f e. e))

  finish-Good :
      (c : Conversion) (p : Puller S) (o : Check PullError × S)
      → Reported p.first_success p.status
      → Good p (finish lib c p o).1
  finish-Good c p (err e, s) h = (h, (λ x. x, λ f x. x))
  finish-Good c p (ok u, s) h = (h, (λ x. x, λ f x. x))

  load_converted-Good :
      (cfg : Config N) (r : Result PullError (P × Q × Conversion)) (p : Puller S)
      → Reported p.first_success p.status
      → Good p (load_converted lib cfg r p).1
  load_converted-Good cfg (err e) p h = (h, (λ x. x, λ f x. x))
  load_converted-Good cfg (ok (policies, pip_doc, c)) p h =
      finish-Good c p (load lib cfg policies pip_doc p.store) h

  pull_once-Good :
      (cfg : Config N) (t : Tick) (p : Puller S)
      → Reported p.first_success p.status
      → Good p (pull_once lib cfg t p).1
  unfolding pull_once
  pull_once-Good cfg t p h = load_converted-Good cfg (converted lib cfg t) p h

  Good-trans : (p q r : Puller S) → Good p q → Good q r → Good p r
  Good-trans p q r (h, (k, f)) (h', (k', f')) = (h', (λ x. k' (k x), λ t e. f' t (f t e)))

  record_success-Good :
      (now : ℕ) (p : Puller S) (o : Check PullError × Puller S)
      → Good p o.1
      → Good p (record_success lib now o).1
  record_success-Good now p (err e, q) h = h
  record_success-Good now p (ok u, q) h =
      Good-trans p q (loaded lib now q) h (loaded-Good now q h.0)

  pull_now-Good :
      (cfg : Config N) (t : Tick) (p : Puller S)
      → Reported p.first_success p.status
      → Good p (pull_now lib cfg t p).1
  unfolding pull_now
  pull_now-Good cfg t p h = go (lib.blank cfg.source_url)
    where
      go :
          (b : Bool)
          → Good p
              (if b
                then (err source_empty, p)
                else record_success lib t.now (pull_once lib cfg t p)).1
      go true = (h, (λ x. x, λ f x. x))
      go false = record_success-Good t.now p (pull_once lib cfg t p) (pull_once-Good cfg t p h)

  Step-Good :
      {cfg : Config N} {p q : Puller S}
      → Step cfg p q
      → Reported p.first_success p.status
      → Good p q
  Step-Good {cfg = cfg} (pulled t p) h = pull_now-Good cfg t p h
  Step-Good {cfg = cfg} (pulled_once t p) h = pull_once-Good cfg t p h
  Step-Good (turned_off reason p) h = disabled-Good reason p h

  -- In every state that a puller reaches, by loads that succeed or fail and by disabled pulls in any order,
  -- policies that were reported as loaded still are, the time of the first success is the one it
  -- was, and the status agrees with it, as it did at the start.
  pub Reach-Reported :
      {cfg : Config N} {p q : Puller S}
      → Reported p.first_success p.status
      → Reach cfg p q
      → Reported q.first_success q.status × Kept p q
  Reach-Reported h here = (h, (λ x. x, λ f x. x))
  Reach-Reported {p = p} h (next {q} {r} reach step) =
      let good = Reach-Reported h reach in Good-trans p q r good (Step-Good step good.0)
