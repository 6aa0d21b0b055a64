-- ===== src/M2m/Examples.antt =====
-- The theorems on the agent's token at concrete inputs: a token of five minutes, and a file.
use qubership_authz_agent.Base.Int.{pos}
use qubership_authz_agent.Base.{
  ℕ, Bytes, true, false, List, [], ◌∷◌, ◌++◌, Option, none, some, codes, equal, ok, err, ◌≡◌, refl,
}
use qubership_authz_agent.Json.{Json}
use qubership_authz_agent.M2m.File.{IsCurrent, run_file-IsCurrent}
use qubership_authz_agent.M2m.Renewal.{IsRenewal, renewal-IsRenewal, waits_after, run-recovers}
use qubership_authz_agent.M2m.State.{IsServed, here, next, fetch, check, Reach-IsServed}
use qubership_authz_agent.M2m.{
  Config, Source, missing, World, Outside, read_client_id, bearer_doc, initial_backoff, renewal,
  fetch_and_publish, check_file, run_file, run_client_credentials, new_source,
}
use qubership_authz_agent.PolicyStore.Maps.{find, put, find-put, find-put_other}
use qubership_authz_agent.Pull.Load.{IsStore}
use qubership_authz_agent.Http.{Response}

IsRenewal-example :
    IsRenewal 300000000000 60000000000 (renewal (pos 300000000000) (pos 60000000000))
IsRenewal-example = renewal-IsRenewal 300000000000 60000000000

abbrev Docs : Type 0
Docs = List (Bytes × Json)

abbrev view : Docs → Bytes → Option Json
view s k = find k s

abbrev outside : Outside ℕ Docs
outside = record {
  put = λ k d s. (ok tt, put k d s);
  digest = λ s. 1 ∷ s;
  trim_space = λ s. s;
  base64 = λ s. some s;
  token_response = λ s. some (codes "t1", 300);
  exp_claim = λ s. none;
  is_positive = λ n. true;
  is_zero = λ n. false;
  seconds = λ n. pos 300000000000;
  whole = pos;
}

view-IsStore : IsStore outside.put view
view-IsStore = record {
  sets = λ k d s h. find-put k d s;
  keeps = λ k d s j n. find-put_other j k d s n;
  fails = λ k d s e h. cc;
}

abbrev cfg : Config
cfg = record {
  token_url = codes "http://idp";
  client_id_file = codes "id";
  client_secret_file = codes "secret";
  renew_before = pos 60000000000;
  token_file = codes "token";
  watch_interval = pos 1;
}

abbrev response : Response
response = record { status_code = 200; body = ok (codes "{}") }

abbrev up : World
up = record {
  files = λ path. ok (codes "content");
  post = λ url form. ok response;
  now = pos 0;
  ended = false;
}

abbrev down : World
down = record {
  files = λ path. err missing;
  post = λ url form. err (codes "refused");
  now = pos 0;
  ended = false;
}

abbrev fresh : Source Docs
fresh = new_source []

abbrev fetched_source : Source Docs
fetched_source = record {
  token = codes "t1";
  hash = [];
  ready = true;
  store = put (codes "m2m") (bearer_doc (codes "t1")) [];
}

recovers-example :
    let r = run_client_credentials outside cfg [] initial_backoff fetched_source in
    run_client_credentials outside cfg (down ∷ down ∷ up ∷ []) initial_backoff fresh
    ≡ (waits_after 0 (down ∷ down ∷ []) ++ renewal (pos 300000000000) (pos 60000000000) ∷ r.0, r.1)
unfolding fetch_and_publish new_source
recovers-example =
    run-recovers outside cfg (down ∷ down ∷ []) [] up (pos 300000000000) fresh fetched_source
      (
        ((read_client_id (codes "file does not exist"), refl), refl),
        (((read_client_id (codes "file does not exist"), refl), refl), tt),
      )
      refl

IsServed-example :
    IsServed outside view (check_file outside cfg up (fetch_and_publish outside cfg down fresh).1).1
IsServed-example =
    Reach-IsServed outside view view-IsStore cfg []
      (check_file outside cfg up (fetch_and_publish outside cfg down fresh).1).1
      (next (next here (fetch down fresh)) (check up (fetch_and_publish outside cfg down fresh).1))

IsCurrent-example :
    IsCurrent outside view cfg up
      (codes "content")
      (check_file outside cfg up (run_file outside cfg (down ∷ []) fresh)).1
unfolding check_file new_source run_file equal
IsCurrent-example =
    run_file-IsCurrent outside view view-IsStore (λ a b e. cc) (λ a e. cc) cfg (down ∷ []) up []
      (codes "content") refl refl (λ e. cc)
