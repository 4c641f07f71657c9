-- ===== src/Hostsetup/Status/Blocks.antt =====
-- internal/hostsetup/status.go: when each part of the report has no failure.
use openshell_driver_appleco.Prelude.{
  Bool, true, false, not, ◌&&◌, ◌||◌, List, [], ◌++◌, Option, none, some, ◌≡◌, ◌≢◌, ◌↔◌, ◌⊎◌, inl,
  inr, refl, arith, Bool-cases, if◌then◌else◌, sym, subst, ap,
}
use openshell_driver_appleco.Result.{Result, ok, err}
use openshell_driver_appleco.Text.{Text, text, ◌==◌}
use openshell_driver_appleco.Text.Laws.{eq_iff}
use openshell_driver_appleco.Text.Search.{contains_text}
use openshell_driver_appleco.Backend.{Network, RuntimeError}
use openshell_driver_appleco.Hostsetup.Block.{block_begin, shell_quote}
use openshell_driver_appleco.Hostsetup.Status.{
  healthy, warn, fail, is_fail, Detail, no_block, other_socket, wired, HostView, Seen, one,
  runtime_check, kernel_check, address_of, gateway_ip, network_check, wiring_check, san_check,
  agent_check, launchctl_pid,
}
use openshell_driver_appleco.Hostsetup.Status.Report.{
  listener_check, cert_check, driver_check, image_check, tag_of,
}
use openshell_driver_appleco.Hostsetup.Status.Findings.{no_fail}

iff_trans {ℓ κ μ} : {A : Type ℓ} {B : Type κ} {C : Type μ} → A ↔ B → B ↔ C → A ↔ C
iff_trans f g = (λ a. g.0 (f.0 a), λ c. f.1 (g.1 c))

pub and_iff : (a b : Bool) → ((a && b) ≡ true) ↔ ((a ≡ true) × (b ≡ true))
and_iff a b = (λ h. (ground (arith, h), ground (arith, h)), λ (p, q). ground (arith, p, q))

some_inj : {A : Type 0} {a b : A} → ◌≡◌ {A = Option A} (some a) (some b) → a ≡ b
some_inj {A} {a} e = ap content e
  where
    content : Option A → A
    content none = a
    content (some x) = x

pub some_iff : {A : Type 0} (P : A → Type 0) (a : A) → P a ↔ ((x : A) × (some a ≡ some x) × P x)
some_iff P a = (λ p. (a, refl, p), λ (x, e, p). subst P (sym (some_inj e)) p)

pub none_iff :
    {A : Type 0} (P : A → Type 0)
    → (false ≡ true) ↔ ((x : A) × (◌≡◌ {A = Option A} none (some x)) × P x)
none_iff P = (λ h. absurd (ground (arith, h)), λ (x, e, p). absurd (ground (arith, e)))

pub nonempty_iff : (t : Text) → (not (t == []) ≡ true) ↔ (t ≢ [])
nonempty_iff t = (
  λ h e. ground (arith, h, e, eq_iff t []),
  λ h. elim (Bool-cases (t == [])) [ inl b ↦ absurd (h ((eq_iff t []).0 b)) | inr b ↦ rw b refl ],
)

wired_bits :
    (a b c : Bool) (name : Text) (x y z : Detail)
    → no_fail (
        if not a || not b
        then one name fail x
        else if not c
        then one name warn y
        else one name healthy z)
      ≡ (a && b)
unfolding no_fail is_fail
wired_bits true true true name x y z = refl
wired_bits true true false name x y z = refl
wired_bits true false c name x y z = refl
wired_bits false b c name x y z = refl

-- The file has the managed block and selects the driver.
abbrev pub IsWiredBy : Text → Type 0
IsWiredBy content =
    (contains_text content block_begin ≡ true)
    × (contains_text content (text "OPENSHELL_DRIVERS=applecontainer") ≡ true)

pub wiring_check_iff :
    (path socket : Text) (o : Option Text)
    → (no_fail (wiring_check path socket o) ≡ true)
      ↔ ((content : Text) × (o ≡ some content) × IsWiredBy content)
unfolding wiring_check no_fail is_fail
wiring_check_iff path socket none = none_iff IsWiredBy
wiring_check_iff path socket (some content) =
    iff_trans
      (rw
        (wired_bits (contains_text content block_begin)
          (contains_text content (text "OPENSHELL_DRIVERS=applecontainer"))
          (contains_text content (text "OPENSHELL_COMPUTE_DRIVER_SOCKET=" ++ shell_quote socket))
          (text "gateway wiring") (no_block path) (other_socket path socket) (wired path socket))
        (and_iff _ _))
      (some_iff IsWiredBy content)

pub runtime_check_iff :
    (version : Text) (r : Result RuntimeError (List Network))
    → (no_fail (runtime_check version r) ≡ true) ↔ ((ns : List Network) × (r ≡ ok ns))
unfolding runtime_check no_fail is_fail
runtime_check_iff version (ok ns) = (λ h. (ns, refl), λ h. refl)
runtime_check_iff version (err x) =
    (λ h. absurd (ground (arith, h)), λ (ns, e). absurd (ground (arith, e)))

pub kernel_check_iff : (b : Bool) → (no_fail (kernel_check b) ≡ true) ↔ (b ≡ true)
unfolding kernel_check no_fail is_fail
kernel_check_iff true = (λ h. refl, λ h. refl)
kernel_check_iff false = (λ h. h, λ h. h)

pub network_check_iff :
    (name : Text) (r : Result RuntimeError (List Network))
    → (no_fail (network_check name r) ≡ true)
      ↔ (((x : RuntimeError) × (r ≡ err x)) ⊎ (gateway_ip name r ≢ []))
unfolding network_check gateway_ip no_fail is_fail
network_check_iff name (err x) = (λ h. inl (x, refl), λ h. refl)
network_check_iff name (ok ns) = elim (Bool-cases (address_of name [] ns == [])) [
  | inl b ↦ rw b (
    λ h. absurd (ground (arith, h)),
    λ h. elim h [
      | inl (x, e) ↦ absurd (ground (arith, e))
      | inr full ↦ absurd (full ((eq_iff (address_of name [] ns) []).0 b))
    ],
  )
  | inr b ↦
      rw b (λ h. inr (λ e. ground (arith, b, e, eq_iff (address_of name [] ns) [])), λ h. refl)
]

pub listener_check_iff :
    (host : HostView) (version : Text)
    → (no_fail (listener_check host version) ≡ true)
      ↔ ((host.is_listening ≡ true) ⊎ (host.has_open_shell ≡ false))
unfolding listener_check no_fail is_fail
listener_check_iff host version = elim (Bool-cases host.is_listening) [
  | inl b ↦ rw b (λ h. inl refl, λ h. refl)
  | inr b ↦ elim (Bool-cases host.has_open_shell) [
    | inl c ↦ (λ h. absurd (ground (arith, h, b, c)), λ h. absurd (ground (arith, h, b, c)))
    | inr c ↦ (λ h. inr c, λ h. ground (arith, b, c))
  ]
]

pub san_check_iff :
    (path ip dir : Text) (o : Option Bool)
    → (no_fail (san_check path ip dir o) ≡ true) ↔ (o ≡ some true)
unfolding san_check no_fail is_fail
san_check_iff path ip dir none = (λ h. absurd (ground (arith, h)), λ h. absurd (ground (arith, h)))
san_check_iff path ip dir (some false) =
    (λ h. absurd (ground (arith, h)), λ h. absurd (ground (arith, h)))
san_check_iff path ip dir (some true) = (λ h. refl, λ h. refl)

pub cert_check_iff :
    (host : HostView) (path ip dir : Text) (o : Option Text)
    → (no_fail (cert_check host path ip dir o) ≡ true)
      ↔ ((cert : Text) × (o ≡ some cert) × ((ip ≡ []) ⊎ (host.cert_has_ip_san cert ip ≡ some true)))
unfolding cert_check no_fail is_fail
cert_check_iff host path ip dir none =
    none_iff (λ (cert : Text). (ip ≡ []) ⊎ (host.cert_has_ip_san cert ip ≡ some true))
cert_check_iff host path ip dir (some cert) =
    iff_trans (bits (Bool-cases (ip == [])))
      (some_iff (λ (c : Text). (ip ≡ []) ⊎ (host.cert_has_ip_san c ip ≡ some true)) cert)
  where
    bits :
        ((ip == []) ≡ true) ⊎ ((ip == []) ≡ false)
        → (no_fail (cert_check host path ip dir (some cert)) ≡ true)
          ↔ ((ip ≡ []) ⊎ (host.cert_has_ip_san cert ip ≡ some true))
    bits (inl b) = rw b (λ h. inl ((eq_iff ip []).0 b), λ h. refl)
    bits (inr b) = rw b (
      λ h. inr ((san_check_iff path ip dir (host.cert_has_ip_san cert ip)).0 h),
      λ h. elim h [
        | inl e ↦ absurd (ground (arith, b, e, eq_iff ip []))
        | inr e ↦ (san_check_iff path ip dir (host.cert_has_ip_san cert ip)).1 e
      ],
    )

pub agent_check_iff :
    (b : Bool) (o : Option Text)
    → (no_fail (agent_check b o) ≡ true)
      ↔ ((b ≡ true) × ((out : Text) × (o ≡ some out) × (launchctl_pid out ≢ [])))
unfolding agent_check no_fail is_fail
agent_check_iff false o = (λ h. absurd (ground (arith, h)), λ (e, _). absurd (ground (arith, e)))
agent_check_iff true none =
    (λ h. absurd (ground (arith, h)), λ (_, (x, e, _)). absurd (ground (arith, e)))
agent_check_iff true (some out) = elim (Bool-cases (launchctl_pid out == [])) [
  | inl b ↦ rw b (
    λ h. absurd (ground (arith, h)),
    λ (_, p). absurd (
        (some_iff (λ (t : Text). launchctl_pid t ≢ []) out).1 p
          ((eq_iff (launchctl_pid out) []).0 b)),
  )
  | inr b ↦ rw b (
    λ h. (refl, (out, refl, λ e. ground (arith, b, e, eq_iff (launchctl_pid out) []))),
    λ h. refl,
  )
]

pub driver_check_iff :
    (socket own : Text) (o : Option (Text × List Seen))
    → (no_fail (driver_check socket own o) ≡ true) ↔ ((d : Text × List Seen) × (o ≡ some d))
unfolding driver_check no_fail is_fail
driver_check_iff socket own none =
    (λ h. absurd (ground (arith, h)), λ (d, e). absurd (ground (arith, e)))
driver_check_iff socket own (some (version, seen)) = (
  λ h. ((version, seen), refl),
  λ h. elim (Bool-cases (not (own == []) && not (version == own))) [
    | inl b ↦ rw b refl
    | inr b ↦ rw b refl
  ],
)

pub image_check-no_fail : (version image : Text) → no_fail (image_check version image) ≡ true
unfolding image_check no_fail is_fail
image_check-no_fail version image = elim (Bool-cases (version == [] || image == [])) [
  | inl b ↦ rw b refl
  | inr b ↦ elim (Bool-cases (tag_of image == version)) [
    | inl c ↦ rw (b, c) refl
    | inr c ↦ rw (b, c) refl
  ]
]
