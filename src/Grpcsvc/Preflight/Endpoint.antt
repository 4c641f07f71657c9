-- ===== src/Grpcsvc/Preflight/Endpoint.antt =====
-- internal/grpcsvc/preflight.go: the endpoint that the driver starts with.
use openshell_driver_appleco.Prelude.{
  true, false, [], ◌++◌, Option, none, some, ◌≡◌, ◌≢◌, ◌⊎◌, ◌↔◌, inl, inr, refl, arith, Bool-cases,
  Option-cases,
}
use openshell_driver_appleco.Result.{ok}
use openshell_driver_appleco.Text.{Text, text, ◌==◌, has_prefix}
use openshell_driver_appleco.Text.Laws.{eq_iff}
use openshell_driver_appleco.Config.{Config}
use openshell_driver_appleco.Backend.{Runtime}
use openshell_driver_appleco.Grpcsvc.Preflight.{
  Net, Address, loopback, unspecified, routable, folds_to, never_reached, join_host_port,
  is_loopback_host, check_host, check_endpoint, check_set, ensure_network, with_endpoint, preflight,
}

-- A guest can reach that endpoint, as far as its text tells: it has one of the two schemes in lower
-- case and names a host other than this one.
pub record IsReachable (net : Net) (endpoint : Text) : Type 0 where
  pub scheme :
      (has_prefix endpoint (text "http://") ≡ true) ⊎ (has_prefix endpoint (text "https://") ≡ true)
  pub host :
      (h : Text) × (net.hostname endpoint ≡ some h)
      × (h ≢ [])
      × (folds_to h (text "localhost") ≡ false)
      × ((net.parse_ip h ≡ none) ⊎ (net.parse_ip h ≡ some routable))

never_reached_iff :
    (o : Option Address) → (never_reached o ≡ false) ↔ ((o ≡ none) ⊎ (o ≡ some routable))
unfolding never_reached
never_reached_iff none = (λ h. inl refl, λ h. refl)
never_reached_iff (some loopback) = ground arith
never_reached_iff (some unspecified) = ground arith
never_reached_iff (some routable) = (λ h. inr refl, λ h. refl)

module _ (net : Net) where
  check_endpoint_ok :
      (endpoint : Text) → check_endpoint net endpoint ≡ ok tt → IsReachable net endpoint
  unfolding check_endpoint check_host is_loopback_host
  check_endpoint_ok endpoint e = elim (Option-cases (net.hostname endpoint)) [
    | inl none_named ↦ absurd (ground (arith, e, none_named))
    | inr (h, named) ↦ record {
      scheme = ground (arith, e);
      host = (
        h,
        named,
        λ z. ground (arith, e, named, z, eq_iff h []),
        ground (arith, e, named),
        (never_reached_iff (net.parse_ip h)).0 (ground (arith, e, named)),
      );
    }
  ]

  check_endpoint_reached :
      (endpoint : Text) → IsReachable net endpoint → check_endpoint net endpoint ≡ ok tt
  unfolding check_endpoint check_host is_loopback_host
  check_endpoint_reached endpoint r =
      let (h, named, nonempty, foreign, kind) = r.host in
      ground
        (arith, r.scheme, named, foreign, eq_iff h [], (never_reached_iff (net.parse_ip h)).1 kind)

-- How the configuration is completed: an endpoint that is set stays, and one that is not is derived
-- from the network's gateway address, if there is one. Nothing else changes.
abbrev pub Completed : Text → Config → Config → Type 0
Completed ip cfg completed =
    ((cfg.grpc_endpoint ≢ []) × (completed ≡ cfg))
    ⊎ (((cfg.grpc_endpoint ≡ []) × (ip ≡ []) × (completed ≡ cfg))
        ⊎ ((cfg.grpc_endpoint ≡ [])
            × (ip ≢ [])
            × (completed ≡ record cfg {
              grpc_endpoint = text "https://" ++ join_host_port ip (text "17670");
            })))

with_endpoint-Completed : (ip : Text) (cfg : Config) → Completed ip cfg (with_endpoint ip cfg)
unfolding with_endpoint
with_endpoint-Completed ip cfg = elim (Bool-cases (cfg.grpc_endpoint == [])) [
  | inr b ↦ inl (λ e. ground (arith, b, e, eq_iff cfg.grpc_endpoint []), rw b refl)
  | inl b ↦ elim (Bool-cases (ip == [])) [
    | inl c ↦ inr (inl ((eq_iff cfg.grpc_endpoint []).0 b, (eq_iff ip []).0 c, rw (b, c) refl))
    | inr c ↦ inr (
        inr (
          (eq_iff cfg.grpc_endpoint []).0 b,
          λ e. ground (arith, c, e, eq_iff ip []),
          rw (b, c) refl,
        ))
  ]
]

module _ {W : Type 0} (runtime : Runtime W) (net : Net) where
  -- Startup completes the configuration from the network's gateway address, where no endpoint is set,
  -- and succeeds exactly if the endpoint is then still unset, or is one that a guest can reach: it has
  -- the scheme http or https in lower case and names a host that is neither "localhost" in any case of
  -- letters nor an address that is loopback or unspecified.
  pub preflight_iff :
      (cfg : Config) (w : W)
      → let r = preflight runtime net cfg w in
        Completed (ensure_network runtime cfg.network w).0 cfg r.1
        × ((r.0 ≡ ok tt) ↔ ((r.1.grpc_endpoint ≡ []) ⊎ IsReachable net r.1.grpc_endpoint))
  unfolding preflight check_set
  preflight_iff cfg w =
      let ip = (ensure_network runtime cfg.network w).0 in
      let endpoint = (with_endpoint ip cfg).grpc_endpoint in
      (
        with_endpoint-Completed ip cfg,
        elim (Bool-cases (endpoint == [])) [
          | inl b ↦ (λ h. inl ((eq_iff endpoint []).0 b), λ h. rw b refl)
          | inr b ↦ (
            λ h. inr (check_endpoint_ok net endpoint (rw b at h)),
            λ h. rw b (elim h [
              | inl e ↦ absurd (ground (arith, b, e, eq_iff endpoint []))
              | inr r ↦ check_endpoint_reached net endpoint r
            ]),
          )
        ],
      )
