-- ===== src/Storage/Composite.antt =====
-- pkg/storage/composite.go. The five interfaces are type parameters; a store is what it has of each,
-- as the type assertions of Use find it.
pub mod Laws
use opni_monitoring.Prelude.{Option, none, some, Bool, true, false, ◌&&◌, List, [], ◌∷◌}

pub record CompositeBackend (T C R K V : Type 0) : Type 0 where
  pub token_store : Option T
  pub cluster_store : Option C
  pub rbac_store : Option R
  pub keyring_store_broker : Option K
  pub key_value_store_broker : Option V

-- if s, ok := store.(I); ok { cb.I = s }
unfoldable pub take_over : {A : Type 0} → Option A → Option A → Option A
take_over none old = old
take_over (some s) old = some s

-- != nil
abbrev pub is_set : {A : Type 0} → Option A → Bool
is_set none = false
is_set (some s) = true

module _ {T C R K V : Type 0} where
  abbrev pub empty_backend : CompositeBackend T C R K V
  empty_backend = record {
    token_store = none;
    cluster_store = none;
    rbac_store = none;
    keyring_store_broker = none;
    key_value_store_broker = none;
  }

  unfoldable pub use_store :
      CompositeBackend T C R K V → CompositeBackend T C R K V → CompositeBackend T C R K V
  unfolding take_over
  use_store store cb = record {
    token_store = take_over store.token_store cb.token_store;
    cluster_store = take_over store.cluster_store cb.cluster_store;
    rbac_store = take_over store.rbac_store cb.rbac_store;
    keyring_store_broker = take_over store.keyring_store_broker cb.keyring_store_broker;
    key_value_store_broker = take_over store.key_value_store_broker cb.key_value_store_broker;
  }

  unfoldable pub is_valid : CompositeBackend T C R K V → Bool
  is_valid cb =
      is_set cb.token_store
      && is_set cb.cluster_store
      && is_set cb.rbac_store
      && is_set cb.keyring_store_broker
      && is_set cb.key_value_store_broker

  -- Calls of Use, the first at the end.
  unfoldable pub use_stores : List (CompositeBackend T C R K V) → CompositeBackend T C R K V
  unfolding use_store
  use_stores [] = empty_backend
  use_stores (store ∷ earlier) = use_store store (use_stores earlier)
