-- ===== src/Hostsetup/Status/Report.antt =====
-- internal/hostsetup/status.go: the whole report, its worst level and the exit status of the command
-- (cmd/openshell-driver-applecontainer/status.go).
use openshell_driver_appleco.Prelude.{
  ℕ, suc, Bool, true, false, not, ◌&&◌, ◌||◌, List, [], ◌∷◌, ◌++◌, Option, none, some, eqb,
  if◌then◌else◌,
}
use openshell_driver_appleco.Text.{Text, text, ◌==◌, split, join}
use openshell_driver_appleco.Text.Path.{clean}
use openshell_driver_appleco.Text.Decimal.{decimal}
use openshell_driver_appleco.Compat.{check_apple_container, check_open_shell}
use openshell_driver_appleco.Hostsetup.Status.{
  Level, healthy, warn, fail, Check, Seen, StatusOptions, HostView, one, probe_version,
  finding_checks, runtime_check, kernel_check, gateway_ip, network_check, wiring_check, san_check,
  agent_check, no_cli, no_gateway, listening, silent, unmanaged, unreadable_cert, unverified,
  no_answer, summary, answers, mismatch, matches, old_build,
}

pub data Phase : Type 0 where
  running stopped provisioning failed deleting : Phase

-- From the first condition.
unfoldable pub of_conditions : List (Text × Text) → Phase
of_conditions [] = provisioning
of_conditions ((status, reason) ∷ _) =
    if status == text "True"
    then running
    else if reason == text "ContainerStopped"
    then stopped
    else if reason == text "Starting"
    then provisioning
    else failed

unfoldable pub phase_of : Seen → Phase
unfolding of_conditions
phase_of sb = if sb.deleting then deleting else of_conditions sb.conditions

unfoldable pub same_phase : Phase → Phase → Bool
same_phase running running = true
same_phase stopped stopped = true
same_phase provisioning provisioning = true
same_phase failed failed = true
same_phase deleting deleting = true
same_phase _ _ = false

unfoldable pub count_of : Phase → List Seen → ℕ
unfolding phase_of same_phase
count_of k [] = 0
count_of k (sb ∷ sbs) = let n = count_of k sbs in if same_phase k (phase_of sb) then suc n else n

unfoldable pub part : ℕ → Text → List Text → List Text
part n label rest = if eqb n 0 then rest else (decimal n ++ b' ' ∷ label) ∷ rest

unfoldable pub summarize_sandboxes : List Seen → Text
unfolding part count_of
summarize_sandboxes [] = text "none"
summarize_sandboxes (sb ∷ sbs) =
    let seen = sb ∷ sbs in
    join
      (part (count_of running seen) (text "running") (
        part (count_of stopped seen) (text "stopped") (
          part (count_of provisioning seen) (text "provisioning") (
            part (count_of failed seen) (text "failed")
              (part (count_of deleting seen) (text "deleting") [])))))
      (text ", ")

-- What follows the last colon.
last_part : Text → List Text → Text
last_part w [] = w
last_part w (x ∷ ws) = last_part x ws

unfoldable pub tag_of : Text → Text
unfolding last_part
tag_of image = last_part [] (split image b':')

unfoldable pub driver_check : Text → Text → Option (Text × List Seen) → List Check
unfolding summarize_sandboxes
driver_check socket own none = one (text "driver socket") fail (no_answer socket)
driver_check socket own (some (version, seen)) =
    (if not (own == []) && not (version == own)
      then one (text "driver socket") warn (old_build socket version own)
      else one (text "driver socket") healthy (answers socket version))
    ++ one (text "sandboxes") healthy (summary (summarize_sandboxes seen))

unfoldable pub image_check : Text → Text → List Check
unfolding tag_of
image_check version image =
    if version == [] || image == []
    then []
    else if tag_of image == version
    then one (text "supervisor image") healthy (matches image version)
    else one (text "supervisor image") warn (mismatch image version)

module _ (host : HostView) where
  unfoldable pub container_checks : List Check
  unfolding probe_version runtime_check finding_checks kernel_check
  container_checks =
      let version = probe_version host.container_output in
      if version == []
      then one (text "apple/container") fail no_cli
      else runtime_check version host.first_networks
        ++ (finding_checks (text "apple/container") (check_apple_container version)
            ++ kernel_check host.has_kernel)

  unfoldable pub listener_check : Text → List Check
  listener_check version =
      if host.is_listening
      then one (text "OpenShell gateway") healthy (listening version)
      else if host.has_open_shell
      then one (text "OpenShell gateway") fail (silent version)
      else one (text "OpenShell gateway") warn (unmanaged version)

  unfoldable pub gateway_checks : List Check
  unfolding probe_version finding_checks listener_check
  gateway_checks =
      let version = probe_version host.gateway_output in
      if version == []
      then one (text "OpenShell gateway") fail no_gateway
      else finding_checks (text "OpenShell gateway") (check_open_shell version)
        ++ listener_check version

  unfoldable pub cert_check : Text → Text → Text → Option Text → List Check
  unfolding san_check
  cert_check path ip dir none = one (text "gateway certificate") fail (unreadable_cert path)
  cert_check path ip dir (some cert) =
      if ip == []
      then one (text "gateway certificate") warn (unverified path)
      else san_check path ip dir (host.cert_has_ip_san cert ip)

  unfoldable pub env_path : Text
  env_path = clean (host.config_dir ++ text "/gateway.env")

  unfoldable pub cert_path : Text → Text
  cert_path dir = clean (dir ++ text "/server/tls.crt")

  unfoldable pub tls_dir_of : Text → Text
  tls_dir_of dir = if dir == [] then host.default_tls_dir else dir

  unfoldable pub status : StatusOptions → List Check
  unfolding container_checks network_check gateway_checks wiring_check cert_check agent_check
      driver_check image_check gateway_ip env_path cert_path tls_dir_of
  status opts =
      let dir = tls_dir_of opts.tls_dir in
      let ip = gateway_ip opts.network host.networks in
      container_checks
      ++ (network_check opts.network host.networks
          ++ (gateway_checks
              ++ (wiring_check env_path opts.socket (host.read_file env_path)
                  ++ (cert_check (cert_path dir) ip dir (host.read_file (cert_path dir))
                      ++ (agent_check host.has_agent host.agent_output
                          ++ (driver_check opts.socket opts.driver_version host.driver
                              ++ image_check (probe_version host.gateway_output)
                                  opts.supervisor_image))))))

-- The worst level of the checks from one on, from its level and those behind it.
unfoldable pub step_worst : Level → Level → Level → Level
step_worst fail onward same = fail
step_worst warn onward same = onward
step_worst healthy onward same = same

unfoldable pub worst_from : Level → List Check → Level
unfolding step_worst
worst_from worst [] = worst
worst_from worst (c ∷ cs) = step_worst c.level (worst_from warn cs) (worst_from worst cs)

unfoldable pub worst : List Check → Level
unfolding worst_from
worst checks = worst_from healthy checks

-- The exit status of `runStatus`, behind the flags and the defaults.
unfoldable pub exit_of : Level → ℕ
exit_of fail = 1
exit_of warn = 0
exit_of healthy = 0

unfoldable pub status_exit : List Check → ℕ
unfolding worst exit_of
status_exit checks = exit_of (worst checks)
