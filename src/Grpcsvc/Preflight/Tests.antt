-- ===== src/Grpcsvc/Preflight/Tests.antt =====
-- Startup on a host whose network has a gateway address.
use openshell_driver_appleco.Prelude.{[], ◌∷◌, some, ◌≡◌, ◌⊎◌, ◌↔◌, refl}
use openshell_driver_appleco.Result.{ok, err}
use openshell_driver_appleco.Text.{text, ◌==◌, has_prefix, contains_code}
use openshell_driver_appleco.Backend.{Runtime}
use openshell_driver_appleco.Config.{Config}
use openshell_driver_appleco.Grpcsvc.Fixtures.{World, runtime, cfg, server}
use openshell_driver_appleco.Grpcsvc.Preflight.{
  Net, routable, ensure_network, preflight, bad_scheme,
}
use openshell_driver_appleco.Grpcsvc.Preflight.Endpoint.{Completed, IsReachable, preflight_iff}

abbrev net : Net
net = record { hostname = λ url. some (text "192.168.65.1"); parse_ip = λ h. some routable }

abbrev ready : Runtime World
ready = record runtime {
  networks = λ w. (
    ok (
        record { name = text "openshell"; ipv4_gateway = text "192.168.65.1"; ipv4_subnet = [] }
        ∷ []),
    w,
  );
}

abbrev unset : Config
unset = record cfg { grpc_endpoint = [] }

derived_test :
    (preflight ready net unset server.world).1.grpc_endpoint ≡ text "https://192.168.65.1:17670"
unfolding preflight ◌==◌ contains_code
derived_test = refl

upper_case_test :
    (preflight ready net (record cfg { grpc_endpoint = text "HTTPS://g" }) server.world).0
    ≡ err (bad_scheme (text "HTTPS://g"))
unfolding preflight ◌==◌ contains_code has_prefix
upper_case_test = refl

preflight_iff_example :
    let r = preflight ready net unset server.world in
    Completed (ensure_network ready (text "openshell") server.world).0 unset r.1
    × ((r.0 ≡ ok tt) ↔ ((r.1.grpc_endpoint ≡ []) ⊎ IsReachable net r.1.grpc_endpoint))
preflight_iff_example = preflight_iff ready net unset server.world
