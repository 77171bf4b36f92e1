-- ===== src/Examples/Routes.antt =====
-- Plugins and subscribers.
use opni_monitoring.Prelude.{ℕ, Str, codes, Bool, true, List, [], ◌∷◌, ◌++◌, ◌==◌, ok, ◌≡◌, arith}
use opni_monitoring.Gateway.Routes.{reserved_prefix_routes, new_routes, setup_plugins}
use opni_monitoring.Gateway.Routes.Separate.{is_separate, setup_plugins-separate}
use opni_monitoring.Rules.Notifier.{UpdateNotifier, new_update_notifier, notify_c, publish}
use opni_monitoring.Rules.Notifier.Latest.{publish-notify_c}

abbrev plugins : List (List Str)
plugins =
    (codes "/api/prom" ∷ codes "/metrics/x" ∷ [])
    ∷ (codes "/api/prom/v2" ∷ codes "/logging" ∷ [])
    ∷ []

setup_plugins-separate_example :
    (is_separate (setup_plugins plugins new_routes).reserved ≡ true)
    × ((setup_plugins plugins new_routes).reserved
        ≡ reserved_prefix_routes ++ (codes "/api/prom" ∷ codes "/logging" ∷ []))
unfolding setup_plugins
setup_plugins-separate_example = setup_plugins-separate plugins

abbrev equal : ℕ → ℕ → Bool
equal a b = a == b

equal_refl : (g : ℕ) → equal g g ≡ true
equal_refl g = ground arith

abbrev followed : UpdateNotifier ℕ
followed = publish equal (ok (7 ∷ [])) (notify_c new_update_notifier)

publish-notify_c_example :
    (publish equal (ok (7 ∷ [])) (notify_c followed)).update_channels
    ≡ followed.update_channels ++ (record { number = followed.opened; buffer = [] } ∷ [])
publish-notify_c_example = publish-notify_c equal equal_refl (7 ∷ []) (notify_c new_update_notifier)
