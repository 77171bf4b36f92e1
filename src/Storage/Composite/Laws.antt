-- ===== src/Storage/Composite/Laws.antt =====
-- A composite backend is valid exactly when the stores it was given have every interface.
use opni_monitoring.Prelude.{
  Option, none, some, Bool, ◌&&◌, ◌||◌, List, [], ◌∷◌, any, ◌≡◌, refl, arith, ap, ◌∙◌,
}
use opni_monitoring.Storage.Composite.{
  CompositeBackend, take_over, is_set, use_store, use_stores, is_valid,
}

is_set-take_over :
    {A : Type 0} (s old : Option A) → is_set (take_over s old) ≡ (is_set s || is_set old)
unfolding take_over
is_set-take_over none old = refl
is_set-take_over (some s) old = refl

-- Whether some store has an interface.
has_some :
    {S A : Type 0} (f : S → Option A) (g : List S → Option A)
    → g [] ≡ none
    → ((s : S) (ss : List S) → g (s ∷ ss) ≡ take_over (f s) (g ss))
    → (ss : List S) → is_set (g ss) ≡ any (λ s. is_set (f s)) ss
has_some {S} {A} f g e k [] = ap (λ (o : Option A). is_set o) e
has_some {S} {A} f g e k (s ∷ ss) =
    ap (λ (o : Option A). is_set o) (k s ss)
    ∙ is_set-take_over (f s) (g ss)
    ∙ ap (λ (b : Bool). is_set (f s) || b) (has_some f g e k ss)

module _ {T C R K V : Type 0} where
  -- After any calls of Use the backend is valid exactly when each of the five interfaces is one
  -- that some store had; in particular no later store takes an interface away.
  pub is_valid-use_stores :
      (stores : List (CompositeBackend T C R K V))
      → is_valid (use_stores stores) ≡ (
          any (λ s. is_set s.token_store) stores
          && any (λ s. is_set s.cluster_store) stores
          && any (λ s. is_set s.rbac_store) stores
          && any (λ s. is_set s.keyring_store_broker) stores
          && any (λ s. is_set s.key_value_store_broker) stores)
  unfolding is_valid use_stores use_store
  is_valid-use_stores stores = ground (
    arith,
    has_some (λ s. s.token_store) (λ ss. (use_stores ss).token_store) refl (λ s ss. refl) stores,
    has_some (λ s. s.cluster_store) (λ ss. (use_stores ss).cluster_store) refl (λ s ss. refl)
        stores,
    has_some (λ s. s.rbac_store) (λ ss. (use_stores ss).rbac_store) refl (λ s ss. refl) stores,
    has_some (λ s. s.keyring_store_broker) (λ ss. (use_stores ss).keyring_store_broker) refl
        (λ s ss. refl) stores,
    has_some (λ s. s.key_value_store_broker) (λ ss. (use_stores ss).key_value_store_broker) refl
        (λ s ss. refl) stores,
  )
