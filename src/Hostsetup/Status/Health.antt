-- ===== src/Hostsetup/Status/Health.antt =====
-- internal/hostsetup/status.go: what the exit status of the report says of the host.
use openshell_driver_appleco.Prelude.{
  true, false, List, [], ◌++◌, some, ◌≡◌, ◌≢◌, ◌↔◌, ◌⊎◌, inl, inr, arith, Bool-cases,
}
use openshell_driver_appleco.Result.{ok, err}
use openshell_driver_appleco.Text.{Text, text, ◌==◌}
use openshell_driver_appleco.Text.Laws.{eq_iff}
use openshell_driver_appleco.Compat.{
  apple_container_min, open_shell_min, check_apple_container, check_open_shell,
}
use openshell_driver_appleco.Backend.{Network, RuntimeError}
use openshell_driver_appleco.Hostsetup.Status.{
  is_fail, Check, StatusOptions, HostView, Seen, probe_version, finding_checks, runtime_check,
  kernel_check, gateway_ip, network_check, wiring_check, agent_check, launchctl_pid,
}
use openshell_driver_appleco.Hostsetup.Status.Report.{
  container_checks, listener_check, gateway_checks, cert_check, env_path, cert_path, tls_dir_of,
  driver_check, image_check, status, status_exit,
}
use openshell_driver_appleco.Hostsetup.Status.Findings.{
  no_fail, no_fail-append, status_exit_iff, IsSupported, apple_findings_iff,
  open_shell_findings_iff,
}
use openshell_driver_appleco.Hostsetup.Status.Blocks.{
  and_iff, IsWiredBy, wiring_check_iff, runtime_check_iff, kernel_check_iff, network_check_iff,
  listener_check_iff, cert_check_iff, agent_check_iff, driver_check_iff, image_check-no_fail,
}

append_iff :
    {P Q : Type 0} (xs ys : List Check)
    → (no_fail xs ≡ true) ↔ P
    → (no_fail ys ≡ true) ↔ Q
    → (no_fail (xs ++ ys) ≡ true) ↔ (P × Q)
append_iff xs ys p q = rw (no_fail-append xs ys) (
  λ h. let (a, b) = (and_iff (no_fail xs) (no_fail ys)).0 h in (p.0 a, q.0 b),
  λ (a, b). (and_iff (no_fail xs) (no_fail ys)).1 (p.1 a, q.1 b),
)

always_iff : (xs : List Check) → no_fail xs ≡ true → (no_fail xs ≡ true) ↔ Unit {0}
always_iff xs h = (λ _. tt, λ _. h)

module _ (host : HostView) (opts : StatusOptions) where
  abbrev container_version : Text
  container_version = probe_version host.container_output

  abbrev gateway_version : Text
  gateway_version = probe_version host.gateway_output

  abbrev address : Text
  address = gateway_ip opts.network host.networks

  abbrev certificate_path : Text
  certificate_path = cert_path host (tls_dir_of host opts.tls_dir)

  -- The container runtime is installed, runs, is not too old and has a kernel for its guests.
  pub record HasRuntime : Type 0 where
    pub installed : container_version ≢ []
    pub runs : (ns : List Network) × (host.first_networks ≡ ok ns)
    pub supported : IsSupported apple_container_min container_version
    pub kernel : host.has_kernel ≡ true

  -- The gateway is installed, is not too old, and listens, unless it is not Homebrew's to start.
  pub record HasGateway : Type 0 where
    pub installed : gateway_version ≢ []
    pub supported : IsSupported open_shell_min gateway_version
    pub listens : (host.is_listening ≡ true) ⊎ (host.has_open_shell ≡ false)

  -- The gateway's environment file is wired to the driver.
  abbrev pub IsWired : Type 0
  IsWired = (content : Text) × (host.read_file (env_path host) ≡ some content) × IsWiredBy content

  -- The gateway's certificate can be read, and names the network's address, if that is known.
  abbrev pub IsCertified : Type 0
  IsCertified =
      (cert : Text) × (host.read_file certificate_path ≡ some cert)
      × ((address ≡ []) ⊎ (host.cert_has_ip_san cert address ≡ some true))

  -- The driver's service is installed, loaded and has a process.
  abbrev pub IsService : Type 0
  IsService =
      (host.has_agent ≡ true)
      × ((out : Text) × (host.agent_output ≡ some out) × (launchctl_pid out ≢ []))

  pub record IsHealthy : Type 0 where
    pub runtime : HasRuntime
    pub network : ((x : RuntimeError) × (host.networks ≡ err x)) ⊎ (address ≢ [])
    pub gateway : HasGateway
    pub wiring : IsWired
    pub certificate : IsCertified
    pub service : IsService
    pub answers : (d : Text × List Seen) × (host.driver ≡ some d)

  container_iff : (no_fail (container_checks host) ≡ true) ↔ HasRuntime
  unfolding container_checks no_fail is_fail
  container_iff = elim (Bool-cases (container_version == [])) [
    | inl b ↦ rw b (
      λ h. absurd (ground (arith, h)),
      λ (r : HasRuntime). absurd (r.installed ((eq_iff container_version []).0 b)),
    )
    | inr b ↦
        let runs = runtime_check_iff container_version host.first_networks in
        let supported = apple_findings_iff (text "apple/container") container_version in
        let kernel = kernel_check_iff host.has_kernel in
        let found =
          finding_checks (text "apple/container") (check_apple_container container_version) in
        rw
          (
            b,
            no_fail-append (runtime_check container_version host.first_networks)
                (found ++ kernel_check host.has_kernel),
            no_fail-append found (kernel_check host.has_kernel),
          )
          (
            λ h. record {
              installed = λ e. ground (arith, b, e, eq_iff container_version []);
              runs = runs.0 ((and_iff _ _).0 h).0;
              supported = supported.0 ((and_iff _ _).0 ((and_iff _ _).0 h).1).0;
              kernel = kernel.0 ((and_iff _ _).0 ((and_iff _ _).0 h).1).1;
            },
            λ (r : HasRuntime).
                (and_iff _ _).1
                  (runs.1 r.runs, (and_iff _ _).1 (supported.1 r.supported, kernel.1 r.kernel)),
          )
  ]

  gateway_iff : (no_fail (gateway_checks host) ≡ true) ↔ HasGateway
  unfolding gateway_checks no_fail is_fail
  gateway_iff = elim (Bool-cases (gateway_version == [])) [
    | inl b ↦ rw b (
      λ h. absurd (ground (arith, h)),
      λ (r : HasGateway). absurd (r.installed ((eq_iff gateway_version []).0 b)),
    )
    | inr b ↦
        let supported = open_shell_findings_iff (text "OpenShell gateway") gateway_version in
        let listens = listener_check_iff host gateway_version in
        rw
          (
            b,
            no_fail-append
                (finding_checks (text "OpenShell gateway") (check_open_shell gateway_version))
                (listener_check host gateway_version),
          )
          (
            λ h. record {
              installed = λ e. ground (arith, b, e, eq_iff gateway_version []);
              supported = supported.0 ((and_iff _ _).0 h).0;
              listens = listens.0 ((and_iff _ _).0 h).1;
            },
            λ (r : HasGateway). (and_iff _ _).1 (supported.1 r.supported, listens.1 r.listens),
          )
  ]

  parts_iff : (no_fail (status host opts) ≡ true) ↔ (
      HasRuntime
      × ((((x : RuntimeError) × (host.networks ≡ err x)) ⊎ (address ≢ []))
          × (HasGateway
              × (IsWired
                  × (IsCertified
                      × (IsService
                          × (((d : Text × List Seen) × (host.driver ≡ some d)) × Unit {0})))))))
  unfolding status
  parts_iff =
      let dir = tls_dir_of host opts.tls_dir in
      append_iff (container_checks host) _ container_iff (
        append_iff (network_check opts.network host.networks) _
          (network_check_iff opts.network host.networks)
          (append_iff (gateway_checks host) _ gateway_iff (
            append_iff (wiring_check (env_path host) opts.socket (host.read_file (env_path host))) _
              (wiring_check_iff (env_path host) opts.socket (host.read_file (env_path host)))
              (append_iff
                (cert_check host certificate_path address dir (host.read_file certificate_path)) _
                (cert_check_iff host certificate_path address dir (host.read_file certificate_path))
                (append_iff (agent_check host.has_agent host.agent_output) _
                  (agent_check_iff host.has_agent host.agent_output)
                  (append_iff (driver_check opts.socket opts.driver_version host.driver)
                    (image_check gateway_version opts.supervisor_image)
                    (driver_check_iff opts.socket opts.driver_version host.driver)
                    (always_iff (image_check gateway_version opts.supervisor_image)
                      (image_check-no_fail gateway_version opts.supervisor_image))))))))

  -- The worst level of the report is not a failure exactly if everything that a sandbox needs is in
  -- place.
  pub status_iff : (status_exit (status host opts) ≡ 0) ↔ IsHealthy
  status_iff = (
    λ h.
        let (runtime, (network, (gateway, (wiring, (certificate, (service, (answers, _))))))) =
          parts_iff.0 ((status_exit_iff (status host opts)).0 h) in
        record {
          runtime = runtime;
          network = network;
          gateway = gateway;
          wiring = wiring;
          certificate = certificate;
          service = service;
          answers = answers;
        },
    λ (p : IsHealthy). (status_exit_iff (status host opts)).1 (
        parts_iff.1 (
          p.runtime,
          (p.network, (p.gateway, (p.wiring, (p.certificate, (p.service, (p.answers, tt)))))),
        )),
  )
