-- ===== src/Gateway/Routes.antt =====
-- setupPluginRoutes of pkg/gateway/api.go, and the loop of NewAPIServer that calls it.
pub mod Separate
use opni_monitoring.Prelude.{Str, codes, Bool, true, false, List, [], ◌∷◌, ◌++◌, any, if◌then◌else◌}
use opni_monitoring.GoLib.Text.{has_prefix}

-- reservedPrefixRoutes of a new server
abbrev pub reserved_prefix_routes : List Str
reserved_prefix_routes =
    codes "/monitor" ∷ codes "/healthz" ∷ codes "/bootstrap" ∷ codes "/metrics" ∷ []

-- The routes of a server: the reserved prefixes, and those that go to a plugin.
pub record Routes : Type 0 where
  pub reserved : List Str
  pub forwarded : List Str

abbrev pub new_routes : Routes
new_routes = record { reserved = reserved_prefix_routes; forwarded = [] }

-- strings.HasPrefix(prefix, reserved) for some reserved route
unfoldable pub conflicts : Str → List Str → Bool
unfolding has_prefix
conflicts prefix reserved = any (λ r. has_prefix prefix r) reserved

unfoldable pub setup_prefix : Str → Routes → Routes
unfolding conflicts
setup_prefix prefix s =
    if conflicts prefix s.reserved
    then s
    else record { reserved = s.reserved ++ (prefix ∷ []); forwarded = s.forwarded ++ (prefix ∷ []) }

-- setupPluginRoutes, for the path prefixes of one plugin
unfoldable pub setup_plugin_routes : List Str → Routes → Routes
unfolding setup_prefix
setup_plugin_routes [] s = s
setup_plugin_routes (prefix ∷ prefixes) s = setup_plugin_routes prefixes (setup_prefix prefix s)

-- The plugins are configured one after the other.
unfoldable pub setup_plugins : List (List Str) → Routes → Routes
unfolding setup_plugin_routes
setup_plugins [] s = s
setup_plugins (plugin ∷ plugins) s = setup_plugins plugins (setup_plugin_routes plugin s)
