-- ===== src/Hostsetup/Status/Tests.antt =====
-- The report on a host where everything is in place but the driver's process.
use openshell_driver_appleco.Prelude.{true, false, [], ◌∷◌, none, some, ◌≡◌, ◌↔◌, refl}
use openshell_driver_appleco.Result.{ok}
use openshell_driver_appleco.Text.{
  Text, text, ◌==◌, has_prefix, join, split, trim_space, trim_left, trim_right,
}
use openshell_driver_appleco.Text.Decimal.{decimal}
use openshell_driver_appleco.Hostsetup.Block.{upsert_managed_block, gateway_env_lines}
use openshell_driver_appleco.Hostsetup.Status.{
  Seen, HostView, healthy, wired, wiring_check, launchctl_pid, one, agent_check, fail, not_running,
}
use openshell_driver_appleco.Hostsetup.Status.Report.{summarize_sandboxes}
use openshell_driver_appleco.Config.Parse.{Surroundings, parse_config}
use openshell_driver_appleco.Hostsetup.Status.Exit.{run_status, Reports, run_status_iff}
use openshell_driver_appleco.Hostsetup.Status.Wiring.{upsert-wired}

abbrev printed : Text
printed = text "gui/501/local = {\n\tstate = running\n\tpid = 812\n}"

pid_test : launchctl_pid printed ≡ text "812"
unfolding launchctl_pid split trim_space trim_left trim_right has_prefix
pid_test = refl

waiting_test :
    agent_check true (some (text "state = waiting")) ≡ one (text "driver service") fail not_running
unfolding agent_check split trim_space trim_left trim_right has_prefix ◌==◌
waiting_test = refl

abbrev ready : Seen
ready = record { deleting = false; conditions = (text "True", text "BackendReady") ∷ [] }

abbrev crashed : Seen
crashed = record { deleting = false; conditions = (text "False", text "ContainerExited") ∷ [] }

abbrev leaving : Seen
leaving = record { deleting = true; conditions = (text "True", text "BackendReady") ∷ [] }

summary_test :
    summarize_sandboxes (ready ∷ leaving ∷ crashed ∷ ready ∷ [])
    ≡ text "2 running, 1 failed, 1 deleting"
unfolding summarize_sandboxes decimal ◌==◌ join
summary_test = refl

abbrev host : HostView
host = record {
  container_output = some (text "container CLI version 1.4.0");
  first_networks = ok [];
  networks =
      ok (record { name = text "oshl"; ipv4_gateway = text "192.168.65.1"; ipv4_subnet = [] } ∷ []);
  has_kernel = true;
  gateway_output = some (text "openshell-gateway 0.0.116");
  is_listening = true;
  has_open_shell = true;
  config_dir = text "/c";
  default_tls_dir = text "/t";
  read_file =
      λ path. some (upsert_managed_block [] (gateway_env_lines (text "/s/d.sock") (text "/t")));
  cert_has_ip_san = λ cert ip. some true;
  has_agent = true;
  agent_output = some printed;
  driver = some (text "v0.2.4", ready ∷ []);
}

-- An environment with nothing set.
abbrev sources : Surroundings
sources = record {
  env = [];
  home = some (text "/Users/u");
  exists = λ path. false;
  parse_flags = λ args.
      some (record { text_flag = λ name. none; int_flag = λ name. none; bool_flag = λ name. none });
  gateway_output = some (text "openshell-gateway 0.0.116");
}

run_status_iff_example :
    (run_status sources (text "v0.2.4") true (some host) ≡ 0)
    ↔ ((true ≡ true) × Reports sources (text "v0.2.4") (parse_config sources []) (some host))
run_status_iff_example = run_status_iff sources (text "v0.2.4") true (some host)

upsert-wired_example :
    wiring_check
      (text "/c/gateway.env")
      (text "/s/d.sock")
      (some (upsert_managed_block (text "A=1") (gateway_env_lines (text "/s/d.sock") (text "/t"))))
    ≡ record {
      name = text "gateway wiring";
      level = healthy;
      detail = wired (text "/c/gateway.env") (text "/s/d.sock");
    }
      ∷ []
upsert-wired_example =
    upsert-wired (text "A=1") (text "/s/d.sock") (text "/t") (text "/c/gateway.env")
