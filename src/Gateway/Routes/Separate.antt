-- ===== src/Gateway/Routes/Separate.antt =====
-- No forwarded route begins with a route that was reserved before it.
use opni_monitoring.Prelude.{
  Str, Bool, true, not, ◌&&◌, List, [], ◌∷◌, ◌++◌, all, ◌≡◌, refl, arith, Bool-cases, inl, inr,
  all-append, append_assoc, ◌∙◌, ap,
}
use opni_monitoring.GoLib.Text.{has_prefix}
use opni_monitoring.Gateway.Routes.{
  Routes, reserved_prefix_routes, new_routes, conflicts, setup_prefix, setup_plugin_routes,
  setup_plugins,
}

-- No route begins with one that was reserved before it.
abbrev pub is_separate : List Str → Bool
is_separate [] = true
is_separate (r ∷ rs) = all (λ p. not (has_prefix p r)) rs && is_separate rs

separate-append :
    (rs : List Str) (p : Str)
    → is_separate (rs ++ (p ∷ [])) ≡ (is_separate rs && not (conflicts p rs))
unfolding conflicts
separate-append [] p = refl
separate-append (r ∷ rs) p =
    ground (arith, separate-append rs p, all-append (λ q. not (has_prefix q r)) rs (p ∷ []))

pub record IsSetUp (s : Routes) : Type 0 where
  pub separate : is_separate s.reserved ≡ true
  pub known : s.reserved ≡ reserved_prefix_routes ++ s.forwarded

setup_prefix-IsSetUp : (p : Str) (s : Routes) → IsSetUp s → IsSetUp (setup_prefix p s)
unfolding setup_prefix
setup_prefix-IsSetUp p s i = elim (Bool-cases (conflicts p s.reserved)) [
  | inl taken ↦ rw taken i
  | inr free ↦ rw free (record {
    separate = ground (arith, separate-append s.reserved p, i.separate);
    known =
        ap (λ (rs : List Str). rs ++ (p ∷ [])) i.known
        ∙ append_assoc reserved_prefix_routes s.forwarded (p ∷ []);
  })
]

setup_plugin_routes-IsSetUp :
    (ps : List Str) (s : Routes) → IsSetUp s → IsSetUp (setup_plugin_routes ps s)
unfolding setup_plugin_routes
setup_plugin_routes-IsSetUp [] s i = i
setup_plugin_routes-IsSetUp (p ∷ ps) s i =
    setup_plugin_routes-IsSetUp ps (setup_prefix p s) (setup_prefix-IsSetUp p s i)

setup_plugins-IsSetUp :
    (pss : List (List Str)) (s : Routes) → IsSetUp s → IsSetUp (setup_plugins pss s)
unfolding setup_plugins
setup_plugins-IsSetUp [] s i = i
setup_plugins-IsSetUp (ps ∷ pss) s i =
    setup_plugins-IsSetUp pss (setup_plugin_routes ps s) (setup_plugin_routes-IsSetUp ps s i)

-- However many plugins are configured, and whatever path prefixes they ask for, the reserved routes
-- of the server are the gateway's own and then the forwarded ones, and none of them begins with
-- one that was reserved before it.
pub setup_plugins-separate :
    (plugins : List (List Str))
    → (is_separate (setup_plugins plugins new_routes).reserved ≡ true)
      × ((setup_plugins plugins new_routes).reserved
          ≡ reserved_prefix_routes ++ (setup_plugins plugins new_routes).forwarded)
unfolding has_prefix
setup_plugins-separate plugins =
    let i = setup_plugins-IsSetUp plugins new_routes (record { separate = refl; known = refl }) in
    (i.separate, i.known)
