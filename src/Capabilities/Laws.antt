-- ===== src/Capabilities/Laws.antt =====
-- The backend store is a map that never overwrites, and CanInstall guards InstallCapabilities.
use opni_monitoring.Prelude.{
  Str, str_eq, lookup, insert, has_key, lookup-insert, Option, none, some, Bool, true, false, List,
  [], ◌∷◌, if◌then◌else◌, all, ok, err, backend_not_found, backend_already_exists, ◌≡◌, ◌⊎◌, inl,
  inr, Option-cases, refl, arith,
}
use opni_monitoring.Exec.{bind_ok}
use opni_monitoring.Capabilities.{Backend, BackendStore, get, add, check_backend, can_install}

-- Adding under a name that is taken fails; otherwise it succeeds, and afterwards the name has
-- the new backend and every other name what it had.
pub get-add :
    {W S : Type 0} (s : BackendStore W S) (name : Str) (b : Backend W)
    → (add name b s ≡ err backend_already_exists)
      ⊎ ((s' : BackendStore W S) × (add name b s ≡ ok s')
          × (get name s ≡ err backend_not_found)
          × ((asked : Str) → get asked s' ≡ (if str_eq name asked then ok b else get asked s)))
unfolding add get
get-add s name b = elim (Option-cases (lookup name s.backends)) [
  | inl free ↦ inr (
    record s { backends = insert name b s.backends },
    rw (add, free),
    rw (get, free),
    λ asked. ground (arith, lookup-insert name asked b s.backends),
  )
  | inr (old, taken) ↦ inl (rw (add, taken))
]

-- Every capability asked for has a backend.
abbrev pub all_known : {W S : Type 0} → BackendStore W S → List Str → Bool
all_known s cs = all (λ c. has_key c s.backends) cs

check_known :
    {W : Type 0} (o : Option (Backend W)) (w : W)
    → (check_backend o w).0 ≡ ok tt
    → elim o [ none ↦ false | some b ↦ true ] ≡ true
unfolding check_backend
check_known none w h = cc
check_known (some b) w h = refl

-- If CanInstall succeeds then every capability asked for has a backend, so that InstallCapabilities
-- for them looks up no missing one.
pub can_install_known :
    {W S : Type 0} (s : BackendStore W S) (cs : List Str) (w : W)
    → (can_install cs s w).0 ≡ ok tt
    → all_known s cs ≡ true
unfolding can_install
can_install_known s [] w h = refl
can_install_known s (c ∷ cs) w h =
    let (_, first, _, rest) =
      bind_ok (check_backend (lookup c s.backends)) (λ _. can_install cs s) w h in
    ground (
      arith,
      check_known (lookup c s.backends) w first,
      can_install_known s cs (check_backend (lookup c s.backends) w).1 rest,
    )
