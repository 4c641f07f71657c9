-- ===== src/Config/Precedence.antt =====
-- internal/config/config.go: flags come before the environment, and the environment before the defaults.
use openshell_driver_appleco.Prelude.{
  Bool, true, false, ◌||◌, Option, none, some, ◌≡◌, ◌≢◌, ◌⊎◌, ◌↔◌, inl, inr, refl, arith, subst,
  sym, ap, ◌∙◌, List, [], ◌++◌,
}
use openshell_driver_appleco.Int.{pos}
use openshell_driver_appleco.Result.{ok}
use openshell_driver_appleco.Text.{Text, text}
use openshell_driver_appleco.Text.Path.{clean}
use openshell_driver_appleco.Config.{Config, pinned_supervisor_image}
use openshell_driver_appleco.Config.Values.{value_or, parse_bool, parse_int, split_list}
use openshell_driver_appleco.Config.Parse.{
  Flags, Surroundings, env_var, env_or, env_or_int, env_or_bool, default_state_dir,
  default_guest_tls_dir, is_given, resolved, parse_config,
}
use openshell_driver_appleco.Config.Usable.{IsUsable, parse_config_iff}

-- The value of a setting: the flag's if it is given, otherwise what the environment says if it says
-- something, otherwise the default.
pub data Chosen {A : Type 0} (flag variable : Option A) (default value : A) : Type 0 where
  by_flag : flag ≡ some value → Chosen flag variable default value
  by_variable : flag ≡ none → variable ≡ some value → Chosen flag variable default value
  by_default : flag ≡ none → variable ≡ none → value ≡ default → Chosen flag variable default value

Chosen-value_or : {A : Type 0} (a b : Option A) (x : A) → Chosen a b x (value_or a (value_or b x))
unfolding value_or
Chosen-value_or (some v) b x = by_flag refl
Chosen-value_or none (some v) x = by_variable refl refl
Chosen-value_or none none x = by_default refl refl refl

some_inj : {A : Type 0} {x y : A} → ◌≡◌ {A = Option A} (some x) (some y) → x ≡ y
some_inj {A} {x} e = ap value_of e
  where
    value_of : Option A → A
    value_of none = x
    value_of (some v) = v

Chosen-unique : {A : Type 0} {a b : Option A} {x v w : A} → Chosen a b x v → Chosen a b x w → v ≡ w
Chosen-unique (by_flag e) (by_flag f) = some_inj (sym e ∙ f)
Chosen-unique (by_flag e) (by_variable f g) = absurd (ground (arith, e, f))
Chosen-unique (by_flag e) (by_default f g h) = absurd (ground (arith, e, f))
Chosen-unique (by_variable e u) (by_flag f) = absurd (ground (arith, e, f))
Chosen-unique (by_variable e u) (by_variable f g) = some_inj (sym u ∙ g)
Chosen-unique (by_variable e u) (by_default f g h) = absurd (ground (arith, u, g))
Chosen-unique (by_default e u d) (by_flag f) = absurd (ground (arith, e, f))
Chosen-unique (by_default e u d) (by_variable f g) = absurd (ground (arith, u, g))
Chosen-unique (by_default e u d) (by_default f g h) = d ∙ sym h

iff_unique : {P : Type 0} {a b : Bool} → (a ≡ true) ↔ P → (b ≡ true) ↔ P → a ≡ b
iff_unique {a = true} f g = sym (g.1 (f.0 refl))
iff_unique {a = false} {b = true} f g = f.1 (g.0 refl)
iff_unique {a = false} {b = false} f g = refl

-- What a variable says when it is read: nothing if it does not parse.
abbrev pub said : {A : Type 0} → (Text → Option A) → Option Text → Option A
said parse none = none
said parse (some v) = parse v

module _ (host : Surroundings) (flags : Flags) where
  abbrev pub IsSetting : Text → Text → Text → Text → Type 0
  IsSetting name variable default value =
      Chosen (flags.text_flag name) (env_var host variable) default value

  -- The configuration that the flags and the environment ask for.
  pub record IsResolved (cfg : Config) : Type 0 where
    pub socket :
        IsSetting (text "socket") (text "SOCKET") (text "/tmp/oshl-ac/driver.sock") cfg.socket
    pub state_dir :
        IsSetting (text "state-dir") (text "STATE_DIR") (default_state_dir host) cfg.state_dir
    pub network : IsSetting (text "network") (text "NETWORK") (text "oshl") cfg.network
    pub default_image :
        IsSetting
          (text "default-image")
          (text "DEFAULT_IMAGE")
          (text "ghcr.io/nvidia/openshell-community/sandboxes/base:latest")
          cfg.default_image
    pub supervisor_image :
        IsSetting
          (text "supervisor-image")
          (text "SUPERVISOR_IMAGE")
          pinned_supervisor_image
          cfg.supervisor_image
    pub grpc_endpoint : IsSetting (text "grpc-endpoint") (text "GRPC_ENDPOINT") [] cfg.grpc_endpoint
    pub guest_tls_ca :
        IsSetting
          (text "guest-tls-ca")
          (text "GUEST_TLS_CA")
          (clean (default_guest_tls_dir host ++ text "/ca.crt"))
          cfg.guest_tls_ca
    pub guest_tls_cert :
        IsSetting
          (text "guest-tls-cert")
          (text "GUEST_TLS_CERT")
          (clean (default_guest_tls_dir host ++ text "/client/tls.crt"))
          cfg.guest_tls_cert
    pub guest_tls_key :
        IsSetting
          (text "guest-tls-key")
          (text "GUEST_TLS_KEY")
          (clean (default_guest_tls_dir host ++ text "/client/tls.key"))
          cfg.guest_tls_key
    pub namespace : IsSetting (text "namespace") (text "NAMESPACE") (text "default") cfg.namespace
    pub kernel : IsSetting (text "kernel") (text "KERNEL") [] cfg.kernel
    pub host_mount_root :
        IsSetting (text "host-mount-root") (text "HOST_MOUNT_ROOT") [] cfg.host_mount_root
    pub network_policy_file :
        IsSetting
          (text "network-policy-file")
          (text "NETWORK_POLICY_FILE")
          []
          cfg.network_policy_file
    pub log_level : IsSetting (text "log-level") (text "LOG_LEVEL") (text "info") cfg.log_level
    pub cpus :
        Chosen
          (flags.int_flag (text "cpus"))
          (said parse_int (env_var host (text "CPUS")))
          (pos 2)
          cfg.cpus
    pub memory_mb :
        Chosen
          (flags.int_flag (text "memory"))
          (said parse_int (env_var host (text "MEMORY_MB")))
          (pos 2048)
          cfg.memory_mb
    pub allow_host_mounts :
        Chosen
          (flags.bool_flag (text "allow-host-mounts"))
          (said parse_bool (env_var host (text "ALLOW_HOST_MOUNTS")))
          false
          cfg.allow_host_mounts
    pub networks : Text
    pub networks_listed : IsSetting (text "allowed-networks") (text "ALLOWED_NETWORKS") [] networks
    pub allowed_networks : cfg.allowed_networks ≡ split_list networks
    pub supervisor_image_explicit : (cfg.supervisor_image_explicit ≡ true) ↔ (
        (env_var host (text "SUPERVISOR_IMAGE") ≢ none)
        ⊎ (flags.text_flag (text "supervisor-image") ≢ none))

  said_or :
      {A : Type 0} (parse : Text → Option A) (o : Option Text) (x : A)
      → (elim o [ none ↦ x | some v ↦ value_or (parse v) x ]) ≡ value_or (said parse o) x
  unfolding value_or
  said_or parse none x = refl
  said_or parse (some v) x = refl

  Chosen-said :
      {A : Type 0} (parse : Text → Option A) (a : Option A) (o : Option Text) (x : A)
      → Chosen a (said parse o) x (value_or a (elim o [ none ↦ x | some v ↦ value_or (parse v) x ]))
  Chosen-said parse a o x =
      subst (λ v. Chosen a (said parse o) x (value_or a v)) (sym (said_or parse o x))
        (Chosen-value_or a (said parse o) x)

  explicit_iff :
      {A B : Type 0} (a : Option A) (b : Option B)
      → ((is_given a || is_given b) ≡ true) ↔ ((a ≢ none) ⊎ (b ≢ none))
  unfolding is_given
  explicit_iff none none = (
    λ h. absurd (ground (arith, h)),
    λ h. elim h [ inl f ↦ absurd (f refl) | inr g ↦ absurd (g refl) ],
  )
  explicit_iff (some x) b = (λ h. inl (λ e. absurd (ground (arith, e))), λ h. refl)
  explicit_iff none (some y) = (λ h. inr (λ e. absurd (ground (arith, e))), λ h. refl)

  resolved-IsResolved : IsResolved (resolved host flags)
  unfolding resolved env_or env_or_int env_or_bool
  resolved-IsResolved = record {
    socket = Chosen-value_or _ _ _;
    state_dir = Chosen-value_or _ _ _;
    network = Chosen-value_or _ _ _;
    default_image = Chosen-value_or _ _ _;
    supervisor_image = Chosen-value_or _ _ _;
    grpc_endpoint = Chosen-value_or _ _ _;
    guest_tls_ca = Chosen-value_or _ _ _;
    guest_tls_cert = Chosen-value_or _ _ _;
    guest_tls_key = Chosen-value_or _ _ _;
    namespace = Chosen-value_or _ _ _;
    kernel = Chosen-value_or _ _ _;
    host_mount_root = Chosen-value_or _ _ _;
    network_policy_file = Chosen-value_or _ _ _;
    log_level = Chosen-value_or _ _ _;
    cpus = Chosen-said parse_int _ (env_var host (text "CPUS")) _;
    memory_mb = Chosen-said parse_int _ (env_var host (text "MEMORY_MB")) _;
    allow_host_mounts = Chosen-said parse_bool _ (env_var host (text "ALLOW_HOST_MOUNTS")) _;
    networks = _;
    networks_listed = Chosen-value_or _ _ _;
    allowed_networks = refl;
    supervisor_image_explicit = explicit_iff _ _;
  }

  -- There is one configuration at most that they ask for.
  IsResolved-unique : {c d : Config} → IsResolved c → IsResolved d → c ≡ d
  IsResolved-unique a b = λ i. record {
    socket = Chosen-unique a.socket b.socket i;
    state_dir = Chosen-unique a.state_dir b.state_dir i;
    network = Chosen-unique a.network b.network i;
    default_image = Chosen-unique a.default_image b.default_image i;
    supervisor_image = Chosen-unique a.supervisor_image b.supervisor_image i;
    grpc_endpoint = Chosen-unique a.grpc_endpoint b.grpc_endpoint i;
    guest_tls_ca = Chosen-unique a.guest_tls_ca b.guest_tls_ca i;
    guest_tls_cert = Chosen-unique a.guest_tls_cert b.guest_tls_cert i;
    guest_tls_key = Chosen-unique a.guest_tls_key b.guest_tls_key i;
    namespace = Chosen-unique a.namespace b.namespace i;
    kernel = Chosen-unique a.kernel b.kernel i;
    host_mount_root = Chosen-unique a.host_mount_root b.host_mount_root i;
    network_policy_file = Chosen-unique a.network_policy_file b.network_policy_file i;
    log_level = Chosen-unique a.log_level b.log_level i;
    cpus = Chosen-unique a.cpus b.cpus i;
    memory_mb = Chosen-unique a.memory_mb b.memory_mb i;
    allow_host_mounts = Chosen-unique a.allow_host_mounts b.allow_host_mounts i;
    supervisor_image_explicit =
        iff_unique a.supervisor_image_explicit b.supervisor_image_explicit i;
    allowed_networks =
        (a.allowed_networks
            ∙ ap split_list (Chosen-unique a.networks_listed b.networks_listed)
            ∙ sym b.allowed_networks)
          i;
  }

module _ (host : Surroundings) where
  -- The configuration that the driver starts with is found exactly if the flags parse and what each
  -- setting has from its flag, or from its variable where the flag is not given, or from its default
  -- where neither says anything, is usable: socket and state directory are not empty, and the root of
  -- host mounts and the policy file are not set or absolute paths. A number or a truth value that does
  -- not parse in the environment says nothing there.
  pub parse_config-IsResolved :
      (args : List Text) (cfg : Config)
      → (parse_config host args ≡ ok cfg) ↔ (
          (flags : Flags) × (host.parse_flags args ≡ some flags)
          × IsResolved host flags cfg
          × IsUsable cfg)
  parse_config-IsResolved args cfg = (
    λ h.
        let (flags, parsed, is, usable) = (parse_config_iff host args cfg).0 h in
        (
          flags,
          parsed,
          subst (IsResolved host flags) (sym is) (resolved-IsResolved host flags),
          usable,
        ),
    λ (flags, parsed, chosen, usable). (parse_config_iff host args cfg).1 (
      flags,
      parsed,
      IsResolved-unique host flags chosen (resolved-IsResolved host flags),
      usable,
    ),
  )
