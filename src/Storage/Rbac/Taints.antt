-- ===== src/Storage/Rbac/Taints.antt =====
-- What ApplyRoleBindingTaints marks.
use opni_monitoring.Prelude.{
  false, not, ◌&&◌, List, [], ◌∷◌, ◌++◌, is_empty, ok, is_ok, ◌≡◌, refl, arith,
}
use opni_monitoring.Core.Types.{RoleBinding}
use opni_monitoring.Storage.Rbac.{
  SubjectAccessStore, taint_subjects, taint_found, apply_role_binding_taints,
}

is_empty-append {ℓ} : {A : Type ℓ} (xs : List A) (y : A) → is_empty (xs ++ (y ∷ [])) ≡ false
is_empty-append [] y = refl
is_empty-append (x ∷ xs) y = refl

module _ (store : SubjectAccessStore) where
  open store use {get_role}

  -- If the taints can be applied, the binding keeps its id, role and subjects, and it is free of
  -- taints exactly when it was before, its role is found and it has a subject.
  pub apply_role_binding_taints_lem :
      (rb rb' : RoleBinding)
      → apply_role_binding_taints store rb ≡ ok rb'
      → (rb'.id ≡ rb.id)
        × (rb'.role_id ≡ rb.role_id)
        × (rb'.subjects ≡ rb.subjects)
        × (is_empty rb'.taints
            ≡ (is_empty rb.taints && is_ok (get_role rb.role_id) && not (is_empty rb.subjects)))
  unfolding apply_role_binding_taints taint_found taint_subjects
  apply_role_binding_taints_lem rb rb' h = grind (arith, is_empty-append)
