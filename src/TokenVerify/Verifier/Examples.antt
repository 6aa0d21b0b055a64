-- ===== src/TokenVerify/Verifier/Examples.antt =====
-- The theorems on the verifier at concrete inputs: a token of provider "a", presented three times to a
-- verifier whose cache has one entry.
use qubership_authz_agent.Base.Int.{pos, ◌+ℤ◌, scale}
use qubership_authz_agent.Base.{
  ℕ, ◌-◌, Bytes, true, false, List, [], ◌∷◌, Option, none, some, codes, equal, equal_iff, ltb,
  some_inj, Bool-cases, ◌≡◌, inl, inr, refl, sym, ◌∙◌, map, arith, if◌then◌else◌,
}
use qubership_authz_agent.Json.{number}
use qubership_authz_agent.TokenKeys.Signing.{Jwk}
use qubership_authz_agent.TokenKeys.{Key}
use qubership_authz_agent.TokenVerify.Verifier.Sound.{IsAccepted, check_token_iff}
use qubership_authz_agent.TokenVerify.Verifier.Earned.{IsCache, Request, IsFinder}
use qubership_authz_agent.TokenVerify.Verifier.Cached.{answers, answers-verify_uncached}
use qubership_authz_agent.TokenVerify.Verifier.{Cache, token_of, check_token, verify_uncached}
use qubership_authz_agent.TokenVerify.{RawMap, Provider, Token, Outside}

abbrev pub compact : Bytes
compact = codes "h.p.s"

abbrev header_members : RawMap
header_members = (codes "alg", codes "RS256") ∷ (codes "kid", codes "k1") ∷ []

abbrev claims : RawMap
claims = (codes "exp", codes "9") ∷ (codes "iat", codes "1") ∷ []

abbrev digit : Bytes → Option ℕ
digit [] = none
digit (c ∷ s) = some (c - 48)

abbrev pub outside : Outside Bytes ℕ
outside = record {
  base64 = λ s. some s;
  unmarshal_map = λ s. some (some header_members);
  unmarshal_string = λ s. some s;
  decode_stream = λ s. (some (some claims), true);
  decode_value = number;
  parse_float = digit;
  abs = λ x. x;
  exceeds = λ x n. ltb n x;
  modf = λ x. (x, 0);
  whole = pos;
  nanos = pos;
  verify_signature = λ raw alg key. some (codes "p");
  digest = λ s. s;
  same_key = equal;
}

abbrev pub keys : Jwk Bytes
keys = record {
  parse = λ raw. some raw;
  key_id = λ k. codes "k1";
  usage = λ k. none;
  key_type = λ k. codes "RSA";
  algorithm = λ k. none;
  public_of = λ k. some k;
  rsa = λ k. none;
  crv = λ k. none;
}

abbrev pub bits : ℕ → ℕ
bits n = n

abbrev pub trusted : Bytes → Provider
trusted id = record { id = id; audiences = []; allow_missing_aud = false }

abbrev pub published_key : Bytes → Key Bytes
published_key kid = record {
  provider = codes "a";
  id = kid;
  jwk = codes "public";
  alg = codes "RS256";
}

abbrev pub finder : Bytes → Option (Key Bytes)
finder kid = some (published_key kid)

abbrev IsPublished : Bytes → Key Bytes → Type 0
IsPublished kid k = k ≡ published_key kid

abbrev token : Token Bytes
token =
    token_of outside keys bits trusted compact (codes "k1") (published_key (codes "k1")) (codes "p")
      claims (pos 9000000000)

IsAccepted-example :
    IsAccepted outside keys bits trusted finder (pos 0) compact (pos 2000000000) token
unfolding check_token equal ◌+ℤ◌ scale
IsAccepted-example =
    (check_token_iff outside keys bits trusted finder (pos 0) compact (pos 2000000000) token).0 refl

-- A cache of one entry.
abbrev pub Slot : Type 0
Slot = Option (Bytes × Token Bytes)

abbrev look : Slot → Bytes → Option (Token Bytes)
look none d = none
look (some (e, t)) d = if equal d e then some t else none

abbrev pub slot : Cache Slot (Token Bytes)
slot = record { get = λ d c. (look c d, c); remove = λ d c. none; add = λ d t c. some (d, t) }

slot-IsCache : IsCache slot look
slot-IsCache = record {
  get_peeks = λ d c. refl;
  get_keeps = λ d c e t h. h;
  remove_keeps = λ d c e t h. cc;
  add_keeps = λ d t c e u h. elim (Bool-cases (equal e d)) [
    | inl y ↦ inl ((equal_iff e d).0 y, sym (some_inj (rw y at h)))
    | inr n ↦ absurd (ground (arith, n, h))
  ];
}

abbrev requests : List (Request Bytes)
requests =
    record { raw = compact; now = pos 2000000000; lookup = finder; admit = none }
    ∷ record { raw = compact; now = pos 3000000000; lookup = finder; admit = none }
    ∷ record { raw = compact; now = pos 9000000000; lookup = finder; admit = none }
    ∷ []

published : IsFinder outside keys bits trusted (pos 0) slot look IsPublished finder
published kid k e = sym (some_inj e)

answers-example :
    answers outside keys bits trusted (pos 0) slot look IsPublished requests none
    ≡ map
        (λ q. verify_uncached outside keys bits trusted q.lookup (pos 0) q.admit q.raw q.now)
        requests
answers-example =
    answers-verify_uncached outside keys bits trusted (pos 0) slot look IsPublished slot-IsCache
      (λ a b e. e) (λ kid k k' p q e. p ∙ sym q) requests (pos 0) none (λ d. refl)
      (omega arith, published, (omega arith, published, (omega arith, published, tt)))
