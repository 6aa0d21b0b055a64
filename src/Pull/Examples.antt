-- ===== src/Pull/Examples.antt =====
-- The theorems on the puller at concrete inputs: a source that answers, then one that does not.
use qubership_authz_agent.Http.{Response}
use qubership_authz_agent.Base.Int.{pos}
use qubership_authz_agent.Base.{
  ℕ, Bytes, true, false, List, [], ◌∷◌, Option, none, some, codes, is_empty, ok, err, ◌≡◌, refl,
}
use qubership_authz_agent.PolicyStore.Maps.{find, put, find-put, find-put_other}
use qubership_authz_agent.Pull.Load.{IsStore, LoadLeaves, pull_once-LoadLeaves}
use qubership_authz_agent.Pull.Run.{
  here, next, pulled, turned_off, Reported, Kept, Reach-Reported, run-serves,
}
use qubership_authz_agent.Pull.{
  Config, Conversion, Puller, Tick, Outside, pull_once, pull_now, loaded, disabled, run,
  fetch_policy_sets, send_failed,
}

abbrev Docs : Type 0
Docs = List (Bytes × Bytes)

abbrev counted : Conversion
counted = record {
  policy_sets = 1;
  policy_sets_skipped = 0;
  rules = 2;
  rules_skipped = 0;
  rules_deny_skipped = 0;
  policies = 2;
}

abbrev outside : Outside ℕ Bytes Bytes Bytes Bytes Bytes Docs
outside = record {
  sets_of = λ raw. ok (raw, counted);
  pips_of = λ raw. ok raw;
  normal_policies = λ l. ok l;
  normal_items = λ l. ok l;
  override = λ n q. q;
  with_activation = λ p q. q;
  policies_doc = λ p. ok p;
  pips_doc = λ q. ok q;
  put = λ k d s. (ok tt, put k d s);
  blank = is_empty;
  format = λ n. n ∷ [];
}

abbrev view : Docs → Bytes → Option Bytes
view s k = find k s

view-IsStore : IsStore outside.put view
view-IsStore = record {
  sets = λ k d s h. find-put k d s;
  keeps = λ k d s j n. find-put_other j k d s n;
  fails = λ k d s e h. cc;
}

abbrev cfg : Config ℕ
cfg = record {
  source_url = codes "http://source";
  interval = pos 1;
  http_timeout = pos 1;
  entitlements = none;
}

abbrev answer : Response
answer = record { status_code = 200; body = ok (codes "{}") }

abbrev good : Tick
good = record { send = λ url headers. ok answer; token = some (codes "t"); now = 5 }

abbrev bad : Tick
bad = record { send = λ url headers. err (codes "refused"); token = none; now = 6 }

abbrev fresh : Puller Docs
fresh = record {
  status = record {
    policies_loaded = false;
    first_success_at = [];
    last_success_at = [];
    reason = [];
    conversion = none;
  };
  first_success = none;
  last_conversion = none;
  store = [];
}

LoadLeaves-example :
    LoadLeaves outside view cfg good fresh
      (pull_once outside cfg good fresh).0
      (pull_once outside cfg good fresh).1
LoadLeaves-example = pull_once-LoadLeaves outside view view-IsStore cfg good fresh

run-example :
    let q = run outside cfg (bad ∷ good ∷ bad ∷ []) fresh in
    (q ≡ loaded outside 5 (pull_once outside cfg good (run outside cfg (bad ∷ []) fresh)).1)
    × (q.status.policies_loaded ≡ true)
unfolding run
run-example =
    run-serves outside cfg (bad ∷ []) good (bad ∷ []) fresh (refl, refl) refl
      ((fetch_policy_sets (send_failed (codes "refused")), refl), tt)

Reported-example :
    let q = disabled outside (codes "off") (pull_now outside cfg good fresh).1 in
    Reported outside q.first_success q.status × Kept outside fresh q
Reported-example =
    Reach-Reported outside {cfg = cfg} (refl, refl, refl)
      (next (next here (pulled good fresh))
        (turned_off (codes "off") (pull_now outside cfg good fresh).1))
