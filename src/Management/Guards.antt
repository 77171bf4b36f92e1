-- ===== src/Management/Guards.antt =====
-- What the handlers let through to the storage backend.
use opni_monitoring.Prelude.{
  Bool, true, false, List, [], ◌∷◌, is_empty, Result, ok, err, Error, guard, read_only_field,
  invalid_value, ◌≡◌, ◌≢◌, refl, ◌∙◌, >>=-ok, unit_ok,
}
use opni_monitoring.Exec.{Exec, lift, ◌>>◌}
use opni_monitoring.Core.Types.{RoleBinding}
use opni_monitoring.Core.Validate.{validate_role_binding, validate_token_capability, each}
use opni_monitoring.Validation.{validate_labels}
use opni_monitoring.Storage.Stores.{RbacStore, TokenStore}
use opni_monitoring.Management.Requests.{
  CreateBootstrapTokenRequest, Durations, validate_create_token, is_positive,
}
use opni_monitoring.Management.Tokens.{create_bootstrap_token, internal}
use opni_monitoring.Management.Roles.{create_role_binding}

-- A check that fails leaves the state alone.
passed :
    {S A : Type 0} (r : Result (Unit {0})) (rest : Exec S A) (s : S)
    → ((lift r >> rest) s).1 ≢ s
    → (r ≡ ok tt) × ((lift r >> rest) s ≡ rest s)
passed (ok tt) rest s h = (refl, refl)
passed (err e) rest s h = absurd (h refl)

guarded : (b : Bool) (e : Error) → guard b e ≡ ok tt → b ≡ true
guarded true e h = refl
guarded false e h = cc

empty_of : {A : Type 0} (xs : List A) → is_empty xs ≡ true → xs ≡ []
empty_of [] h = refl
empty_of (x ∷ xs) h = cc

module _ {State : Type 0} (store : RbacStore State) where
  -- A CreateRoleBinding request that changes the backend is of a valid binding without taints, and
  -- does what the backend's CreateRoleBinding does.
  pub create_role_binding-guarded :
      (rb : RoleBinding) (s : State)
      → (create_role_binding store rb s).1 ≢ s
      → (validate_role_binding rb ≡ ok tt)
        × (rb.taints ≡ [])
        × (create_role_binding store rb s ≡ store.create_role_binding rb s)
  unfolding create_role_binding
  create_role_binding-guarded rb s h =
      let rest : Exec State (Unit {0}) =
        lift (guard (is_empty rb.taints) read_only_field) >> store.create_role_binding rb in
      let (valid, e) = passed (validate_role_binding rb) rest s h in
      let (free, e') =
        passed (guard (is_empty rb.taints) read_only_field) (store.create_role_binding rb) s
          (rw e at h) in
      (valid, empty_of rb.taints (guarded (is_empty rb.taints) read_only_field free), e ∙ e')

module _ {State D : Type 0} (tokens : TokenStore State) (durations : Durations D) where
  -- A CreateBootstrapToken request that changes the backend has a valid and positive duration,
  -- valid labels and valid capabilities, and does what the backend's CreateToken does with them,
  -- an error aside.
  pub create_bootstrap_token-guarded :
      (req : CreateBootstrapTokenRequest D) (s : State)
      → (create_bootstrap_token tokens durations req s).1 ≢ s
      → (durations.is_valid req.ttl ≡ true)
        × (is_positive (durations.as_duration req.ttl) ≡ true)
        × (validate_labels req.labels ≡ ok tt)
        × (each validate_token_capability req.capabilities ≡ ok tt)
        × (create_bootstrap_token tokens durations req s
            ≡ internal
                (tokens.create_token (durations.as_duration req.ttl) req.labels req.capabilities s))
  unfolding create_bootstrap_token validate_create_token
  create_bootstrap_token-guarded req s h =
      let (valid, e) =
        passed (validate_create_token durations req)
          (λ t.
            internal
              (tokens.create_token (durations.as_duration req.ttl) req.labels req.capabilities t))
          s h in
      let (a, first, rest) = >>=-ok (guard (durations.is_valid req.ttl) invalid_value) _ valid in
      let (b, second, rest') =
        >>=-ok (guard (is_positive (durations.as_duration req.ttl)) invalid_value) _ rest in
      let (c, third, last) = >>=-ok (validate_labels req.labels) _ rest' in
      (
        guarded (durations.is_valid req.ttl) invalid_value (unit_ok a first),
        guarded (is_positive (durations.as_duration req.ttl)) invalid_value (unit_ok b second),
        unit_ok c third,
        last,
        e,
      )
