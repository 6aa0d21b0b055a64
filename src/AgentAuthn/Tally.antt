-- ===== src/AgentAuthn/Tally.antt =====
-- `fetch` of components/authz-agent/internal/authn/authn.go: the artifacts of a pass over the providers, against
-- the passes over each of them.
use mathlib.Core.List.{append_assoc, append-nil}
use qubership_authz_agent.Base.{
  ℕ, suc, ◌+◌, Bytes, List, [], ◌∷◌, ◌++◌, equal, equal_iff, length, Bool-cases, if◌then◌else◌, ◌≡◌,
  inl, inr, refl, sym, ap, ◌∙◌, arith,
}
use qubership_authz_agent.PolicyStore.Maps.{find, put}
use qubership_authz_agent.PolicyStore.Store.{index, normalize, index-put}
use qubership_authz_agent.AgentAuthn.Fetch.{
  add_keys, is_success, add_result, no_artifacts, fetch_provider, fetch_from, fetch,
}
use qubership_authz_agent.AgentAuthn.Passes.{
  Pass, Passes, finished, passed, ArePasses, fetch_provider-IsPass, length-ArePasses,
}
use qubership_authz_agent.AgentAuthn.{
  Config, Provider, ProviderResult, IndexedKey, Candidate, Artifacts, Outside, Session,
}

-- The candidates of a kid, in the order of the keys
pub candidates_in : Bytes → List IndexedKey → List Candidate
candidates_in kid [] = []
candidates_in kid (k ∷ ks) =
    let rest = candidates_in kid ks in if equal kid k.kid then k.candidate ∷ rest else rest

-- The candidates of a kid in the passes that succeeded
pub candidates : Bytes → List Pass → List Candidate
candidates kid [] = []
candidates kid ((r, keys) ∷ passes) =
    let rest = candidates kid passes in
    if is_success r then candidates_in kid keys ++ rest else rest

pub results_of : List Pass → List ProviderResult
results_of [] = []
results_of ((r, keys) ∷ passes) = r ∷ results_of passes

pub successes : List Pass → ℕ
successes [] = 0
successes ((r, keys) ∷ passes) = let n = successes passes in if is_success r then suc n else n

-- The artifacts `b` are `a` with the passes added.
pub record IsAdded (a b : Artifacts) (passes : List Pass) : Type 0 where
  pub results : b.results ≡ a.results ++ results_of passes
  pub succeeded : b.success_count ≡ a.success_count + successes passes
  pub all_counted :
      b.success_count + b.failure_count ≡ (a.success_count + a.failure_count) + length passes
  pub by_kid :
      (kid : Bytes) → index kid b.jwks_by_kid ≡ index kid a.jwks_by_kid ++ candidates kid passes

index-add_keys :
    (kid : Bytes) (ks : List IndexedKey) (m : List (Bytes × List Candidate))
    → index kid (add_keys ks m) ≡ index kid m ++ candidates_in kid ks
unfolding candidates_in
index-add_keys kid [] m = sym (append-nil (index kid m))
index-add_keys kid (k ∷ ks) m =
    index-add_keys kid ks (put k.kid (index k.kid m ++ (k.candidate ∷ [])) m)
    ∙ (ap (λ l. l ++ candidates_in kid ks)
          (index-put kid k.kid (index k.kid m ++ (k.candidate ∷ [])) m)
        ∙ elim (Bool-cases (equal kid k.kid)) [
          | inl e ↦
              rw (e, sym ((equal_iff kid k.kid).0 e))
                (append_assoc (index kid m) (k.candidate ∷ []) (candidates_in kid ks))
          | inr n ↦ rw (n) refl
        ])

add_result-IsAdded :
    (a b : Artifacts) (r : ProviderResult) (keys : List IndexedKey) (passes : List Pass)
    → IsAdded (add_result r keys a) b passes
    → IsAdded a b ((r, keys) ∷ passes)
unfolding results_of successes candidates
add_result-IsAdded a b r keys passes h = elim (Bool-cases (is_success r)) [
  | inl e ↦ record {
    results = rw (e) at h.results ∙ append_assoc a.results (r ∷ []) (results_of passes);
    succeeded = let s = rw (e) at h.succeeded in rw (e) (omega (arith, s));
    all_counted = let c = rw (e) at h.all_counted in omega (arith, c);
    by_kid = λ kid. rw (e) (
        (rw (e) at (h.by_kid kid))
        ∙ (ap (λ l. l ++ candidates kid passes) (index-add_keys kid keys a.jwks_by_kid)
            ∙ append_assoc (index kid a.jwks_by_kid) (candidates_in kid keys)
                (candidates kid passes)));
  }
  | inr n ↦ record {
    results = rw (n) at h.results ∙ append_assoc a.results (r ∷ []) (results_of passes);
    succeeded = rw (n) (rw (n) at h.succeeded);
    all_counted = let c = rw (n) at h.all_counted in omega (arith, c);
    by_kid = λ kid. rw (n) (rw (n) at (h.by_kid kid));
  }
]

module _ {W S : Type 0} (lib : Outside W S) (cfg : Config) where
  -- The loop of `fetch` is the passes over the providers, in their order.
  record IsRun (i : ℕ) (ps : List Provider) (out : Artifacts) (s : Session W)
      (o : Artifacts × Session W) : Type 0 where
    passes : List Pass
    in_order : Passes lib cfg i ps s passes o.1
    each : ArePasses i ps passes
    added : IsAdded out o.0 passes

  fetch_from-IsRun :
      (i : ℕ) (ps : List Provider) (out : Artifacts) (s : Session W)
      → IsRun i ps out s (fetch_from lib cfg i ps out s)
  unfolding fetch_from results_of successes candidates
  fetch_from-IsRun i [] out s = record {
    passes = [];
    in_order = finished;
    each = tt;
    added = record {
      results = sym (append-nil out.results);
      succeeded = omega arith;
      all_counted = omega arith;
      by_kid = λ kid. sym (append-nil (index kid out.jwks_by_kid));
    };
  }
  fetch_from-IsRun i (p ∷ ps) out s =
      let ((r, keys), t) = fetch_provider lib cfg i p s in
      let run = fetch_from-IsRun (suc i) ps (add_result r keys out) t in
      record {
        passes = (r, keys) ∷ run.passes;
        in_order = passed refl run.in_order;
        each = (fetch_provider-IsPass lib cfg i p s, run.each);
        added = add_result-IsAdded out _ r keys run.passes run.added;
      }

  -- What `fetch` returns for its providers, against the passes that it makes.
  pub record IsTally (ps : List Provider) (s : Session W) (a : Artifacts) (t : Session W)
      : Type 0 where
    pub passes : List Pass
    pub in_order : Passes lib cfg 0 ps s passes t
    pub each : ArePasses 0 ps passes
    pub results : a.results ≡ results_of passes
    pub succeeded : a.success_count ≡ successes passes
    pub all_counted : a.success_count + a.failure_count ≡ length ps
    pub by_kid : (kid : Bytes) → index kid a.jwks_by_kid ≡ candidates kid passes

  -- A fetch makes one pass over each provider, in their order, one behind the other. A pass that succeeds is
  -- over a valid provider and has a key, and each of its keys has a kid and the id of the provider; any other
  -- pass has no key and a reason. The results are those of the passes, the successes are counted, the two
  -- counts make up the providers, and the candidates of a kid are those of its keys in the passes that
  -- succeeded, in the order of the providers and their keys.
  pub fetch-IsTally :
      (ps : List Provider) (s : Session W)
      → IsTally ps s (fetch lib cfg ps s).0 (fetch lib cfg ps s).1
  unfolding fetch index find normalize
  fetch-IsTally ps s =
      let run = fetch_from-IsRun 0 ps no_artifacts s in
      record {
        passes = run.passes;
        in_order = run.in_order;
        each = run.each;
        results = run.added.results;
        succeeded = omega (arith, run.added.succeeded);
        all_counted =
            omega (arith, run.added.all_counted, length-ArePasses 0 ps run.passes run.each);
        by_kid = run.added.by_kid;
      }
