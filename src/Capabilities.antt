-- ===== src/Capabilities.antt =====
-- pkg/capabilities/store.go: the backends that install capabilities, by name.
pub mod Laws
pub mod Template
use opni_monitoring.Prelude.{
  ℕ, Str, str_eq, Assoc, lookup, insert, keys, Option, none, some, Bool, true, false, List, [], ◌∷◌,
  if◌then◌else◌, Result, ok, err, Error, backend_not_found, backend_already_exists,
  unknown_capability, panicked,
}
use opni_monitoring.Exec.{Exec, pure, fail, lift, ◌>>=◌, ◌>>◌}
use opni_monitoring.Core.Types.{Reference}

-- capability.Backend: a plugin's answers. Its calls act on a world of their own.
pub record Backend (W : Type 0) : Type 0 where
  pub can_install : Exec W (Unit {0})
  pub install : Reference → Exec W (Unit {0})
  pub installer_template : Str

pub record BackendStore (W S : Type 0) : Type 0 where
  pub server_spec : S
  pub backends : Assoc (Backend W)

-- RenderInstallerCommand of pkg/capabilities/template.go, over text/template
abbrev pub Renderer : Type 0 → Type 0 → Type 0
Renderer S U = Str → U → S → Result Str

-- The test of one capability in CanInstall.
unfoldable pub check_backend : {W : Type 0} → Option (Backend W) → Exec W (Unit {0})
check_backend none = fail unknown_capability
check_backend (some b) = b.can_install

-- A name without a backend is a nil dereference, and a failed installation is fatal.
unfoldable pub install_backend : {W : Type 0} → Option (Backend W) → Reference → Exec W (Unit {0})
install_backend none cluster w = (err panicked, w)
install_backend (some b) cluster w =
    let (r, w') = b.install cluster w in (elim r [ ok _ ↦ ok tt | err e ↦ err panicked ], w')

module _ {W S : Type 0} where
  unfoldable pub new_backend_store : S → BackendStore W S
  new_backend_store spec = record { server_spec = spec; backends = [] }

  unfoldable pub get : Str → BackendStore W S → Result (Backend W)
  get name s = elim (lookup name s.backends) [
    | none ↦ err backend_not_found
    | some backend ↦ ok backend
  ]

  unfoldable pub add : Str → Backend W → BackendStore W S → Result (BackendStore W S)
  add name backend s = elim (lookup name s.backends) [
    | none ↦ ok (record s { backends = insert name backend s.backends })
    | some old ↦ err backend_already_exists
  ]

  -- The names, in the order of the entries; Go gives them in no order.
  unfoldable pub list : BackendStore W S → List Str
  list s = keys s.backends

  unfoldable pub render_installer :
      {U : Type 0} → Renderer S U → Str → U → BackendStore W S → Result Str
  unfolding get
  render_installer render name spec s = elim (get name s) [
    | err e ↦ err e
    | ok backend ↦ render backend.installer_template spec s.server_spec
  ]

  unfoldable pub can_install : List Str → BackendStore W S → Exec W (Unit {0})
  unfolding check_backend
  can_install [] s = pure tt
  can_install (c ∷ cs) s = do check_backend (lookup c s.backends); can_install cs s

  unfoldable pub install_capabilities : Reference → List Str → BackendStore W S → Exec W (Unit {0})
  unfolding install_backend
  install_capabilities cluster [] s = pure tt
  install_capabilities cluster (c ∷ cs) s = do
    install_backend (lookup c s.backends) cluster
    install_capabilities cluster cs s
