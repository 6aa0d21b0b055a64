-- ===== src/TokenKeys.antt =====
-- internal/token/keys/keys.go: the signing keys of the trusted providers and their reload. A fetch is
-- what it returns, by the id of the provider; the ids of a valid configuration differ. The public key
-- itself is a value of any type `J`. The lock makes a reload one step; the log is left out.
pub mod Entries
pub mod Reload
pub mod Signing
pub mod Config
pub mod Document
pub mod Startup
pub mod Held
pub mod Served
pub mod Allowed
mod Examples
use qubership_authz_agent.Base.{
  Bytes, Bool, List, [], ◌∷◌, ◌++◌, Option, none, some, Result, ok, err, ◌>>=◌,
}
use qubership_authz_agent.PolicyStore.Maps.{find, put}
use qubership_authz_agent.PolicyStore.Store.{index}

pub record Key (J : Type 0) : Type 0 where
  pub provider : Bytes
  pub id : Bytes
  pub jwk : J
  pub alg : Bytes

pub data FetchError : Type 0 where
  no_usable_key : Bytes → FetchError
  failed : Bytes → FetchError

pub data KeyError : Type 0 where
  keeps_previous : Bytes → Bytes → KeyError
  published_twice : Bytes → Bytes → Bytes → KeyError

pub record Snapshot (J : Type 0) : Type 0 where
  pub by_kid : List (Bytes × Key J)
  pub by_provider : List (Bytes × List (Key J))

pub record KeySet (J : Type 0) : Type 0 where
  pub fetchers : List Bytes
  pub current : Snapshot J

module _ {J : Type 0} where
  abbrev pub add_unless :
      Bytes → Key J → Option (Key J) → List (Bytes × Key J) → Result KeyError (List (Bytes × Key J))
  add_unless provider k none m = ok (put k.id k m)
  add_unless provider k (some earlier) m = err (published_twice k.id earlier.provider provider)

  -- The inner loop of `newSnapshot`: the keys of one provider.
  unfoldable pub add_keys :
      Bytes → List (Key J) → List (Bytes × Key J) → Result KeyError (List (Bytes × Key J))
  unfolding find put
  add_keys provider [] m = ok m
  add_keys provider (k ∷ ks) m =
      add_unless provider k (find k.id m) m >>= λ m₁. add_keys provider ks m₁

  unfoldable pub add_providers :
      List Bytes
      → List (Bytes × List (Key J))
      → List (Bytes × Key J)
      → Result KeyError (List (Bytes × Key J))
  unfolding add_keys index
  add_providers [] published m = ok m
  add_providers (p ∷ ps) published m =
      add_keys p (index p published) m >>= λ m₁. add_providers ps published m₁

  -- `newSnapshot`
  unfoldable pub new_snapshot :
      List Bytes → List (Bytes × List (Key J)) → Result KeyError (Snapshot J)
  unfolding add_providers
  new_snapshot fetchers published = add_providers fetchers published [] >>= λ m.
      ok (record { by_kid = m; by_provider = published })

  -- `Lookup`
  unfoldable pub lookup : Bytes → KeySet J → Option (Key J)
  unfolding find
  lookup kid s = find kid s.current.by_kid

  module _ (fetch : Bytes → Result FetchError (List (Key J)))
      (old : List (Bytes × List (Key J))) where
    -- The keys of a provider after its fetch, and the failure that is returned.
    abbrev pub kept : Bytes → Result FetchError (List (Key J)) → List (Key J)
    kept id (ok ks) = ks
    kept id (err (no_usable_key e)) = []
    kept id (err (failed e)) = index id old

    abbrev pub reported : Bytes → Result FetchError (List (Key J)) → List KeyError → List KeyError
    reported id (err (failed e)) rest = keeps_previous id e ∷ rest
    reported id r rest = rest

    -- The loop of `Refresh` over the fetchers: the new map, and the failures.
    unfoldable pub collect_results :
        List Bytes → List (Bytes × List (Key J)) → List (Bytes × List (Key J))
    unfolding put index
    collect_results [] m = m
    collect_results (id ∷ ids) m = collect_results ids (put id (kept id (fetch id)) m)

    unfoldable pub failures : List Bytes → List KeyError
    failures [] = []
    failures (id ∷ ids) = reported id (fetch id) (failures ids)

  abbrev pub replace :
      KeySet J → List KeyError → Result KeyError (Snapshot J) → KeySet J × List KeyError
  replace s fs (err e) = (s, fs ++ (e ∷ []))
  replace s fs (ok snap) = (record s { current = snap }, fs)

  -- `Refresh`
  unfoldable pub refresh :
      (Bytes → Result FetchError (List (Key J))) → KeySet J → KeySet J × List KeyError
  unfolding new_snapshot collect_results failures
  refresh fetch s =
      replace s (failures fetch s.current.by_provider s.fetchers)
        (new_snapshot s.fetchers (collect_results fetch s.current.by_provider s.fetchers []))
