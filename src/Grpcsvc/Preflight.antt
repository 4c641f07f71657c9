-- ===== src/Grpcsvc/Preflight.antt =====
-- internal/grpcsvc/preflight.go: what the driver checks and completes of its configuration at startup.
-- The log is left out, and with it what is only logged: the verdict on the runtime's version, for which
-- the runtime is asked all the same, and guest TLS files that cannot be read. `url.Parse` and
-- `net.ParseIP` are parameters.
pub mod Endpoint
mod Tests
use openshell_driver_appleco.Prelude.{
  ℕ, Bool, true, false, not, ◌&&◌, ◌||◌, List, [], ◌∷◌, ◌++◌, Option, none, some, leb, eqb, ◌+◌,
  map, if◌then◌else◌,
}
use openshell_driver_appleco.Result.{Result, ok, err}
use openshell_driver_appleco.Text.{Text, text, ◌==◌, has_prefix, contains_code}
use openshell_driver_appleco.Config.{Config}
use openshell_driver_appleco.Backend.{Network, Runtime, Outcome, RuntimeError}

pub data Address : Type 0 where
  loopback unspecified routable : Address

-- `hostname` is `url.Parse` and then `Hostname`, none if the URL is malformed; `parse_ip` is `ParseIP`
-- with the kind of the address.
pub record Net : Type 0 where
  pub hostname : Text → Option Text
  pub parse_ip : Text → Option Address

pub data PreflightError : Type 0 where
  bad_scheme bad_url unreachable : Text → PreflightError

-- `strings.EqualFold(s, t)` for a lower-case ASCII `t`: the long s and the Kelvin sign fold to letters.
fold_code : ℕ → ℕ
fold_code c =
    if leb b'A' c && leb c b'Z'
    then c + 32
    else if eqb c 0x17f
    then b's'
    else if eqb c 0x212a
    then b'k'
    else c

unfoldable pub folds_to : Text → Text → Bool
unfolding fold_code
folds_to s t = map fold_code s == t

unfoldable pub never_reached : Option Address → Bool
never_reached none = false
never_reached (some loopback) = true
never_reached (some unspecified) = true
never_reached (some routable) = false

-- `net.JoinHostPort`
unfoldable pub join_host_port : Text → Text → Text
join_host_port host port =
    if contains_code host b':' then b'[' ∷ (host ++ (b']' ∷ b':' ∷ port)) else host ++ b':' ∷ port

-- The gateway address of the first network with that name; empty if there is none.
unfoldable pub gateway_of : Text → List Network → Option Text
gateway_of name [] = none
gateway_of name (n ∷ ns) =
    let later = gateway_of name ns in if n.name == name then some n.ipv4_gateway else later

unfoldable pub or_empty : Option Text → Text
or_empty none = []
or_empty (some ip) = ip

module _ (net : Net) where
  unfoldable pub is_loopback_host : Text → Bool
  unfolding folds_to never_reached
  is_loopback_host h = folds_to h (text "localhost") || never_reached (net.parse_ip h)

  unfoldable pub check_host : Text → Option Text → Result PreflightError (Unit {0})
  unfolding is_loopback_host
  check_host endpoint none = err (bad_url endpoint)
  check_host endpoint (some h) =
      if h == []
      then err (bad_url endpoint)
      else if is_loopback_host h
      then err (unreachable endpoint)
      else ok tt

  -- The checks of an endpoint that is set.
  unfoldable pub check_endpoint : Text → Result PreflightError (Unit {0})
  unfolding check_host
  check_endpoint endpoint =
      if not (has_prefix endpoint (text "http://")) && not (has_prefix endpoint (text "https://"))
      then err (bad_scheme endpoint)
      else check_host endpoint (net.hostname endpoint)

  unfoldable pub check_set : Text → Result PreflightError (Unit {0})
  unfolding check_endpoint
  check_set endpoint = if endpoint == [] then ok tt else check_endpoint endpoint

unfoldable pub with_endpoint : Text → Config → Config
unfolding join_host_port
with_endpoint ip cfg =
    if not (cfg.grpc_endpoint == []) || ip == []
    then cfg
    else record cfg { grpc_endpoint = text "https://" ++ join_host_port ip (text "17670") }

module _ {W : Type 0} (runtime : Runtime W) where
  -- The networks, with one attempt to start the runtime if it does not answer.
  unfoldable pub list_or_start : Outcome W (List Network) → Outcome W (List Network)
  list_or_start (ok ns, w) = (ok ns, w)
  list_or_start (err x, w) =
      let (started, w') = runtime.system_start w in
      elim started [ ok _ ↦ runtime.networks w' | err y ↦ (err y, w') ]

  unfoldable pub found_again : Text → Outcome W (List Network) → Text × W
  unfolding gateway_of or_empty
  found_again name (err x, w) = ([], w)
  found_again name (ok ns, w) = (or_empty (gateway_of name ns), w)

  -- The network is made if it is not there, and looked up again.
  unfoldable pub or_created : Text → Option Text → W → Text × W
  unfolding found_again
  or_created name (some ip) w = (ip, w)
  or_created name none w =
      let (created, w') = runtime.network_create name w in
      elim created [ ok _ ↦ found_again name (runtime.networks w') | err y ↦ ([], w') ]

  unfoldable pub from_listing : Text → Outcome W (List Network) → Text × W
  unfolding or_created gateway_of
  from_listing name (err x, w) = ([], w)
  from_listing name (ok ns, w) = or_created name (gateway_of name ns) w

  unfoldable pub ensure_network : Text → W → Text × W
  unfolding list_or_start from_listing
  ensure_network name w = from_listing name (list_or_start (runtime.networks w))

  -- The configuration is changed in place, also where the call fails.
  unfoldable pub preflight : Net → Config → W → Result PreflightError (Unit {0}) × Config × W
  unfolding ensure_network with_endpoint check_set
  preflight net cfg w =
      let (ip, w') = ensure_network cfg.network w in
      let (_, w'') = runtime.version w' in
      let completed = with_endpoint ip cfg in
      (check_set net completed.grpc_endpoint, completed, w'')
