-- ===== src/Hostsetup/Status/Findings.antt =====
-- internal/hostsetup/status.go: which findings fail the report.
use openshell_driver_appleco.Prelude.{
  Bool, true, false, not, ◌&&◌, List, [], ◌∷◌, ◌++◌, Option, none, some, ◌≡◌, ◌↔◌, inl, inr, refl,
  arith, Bool-cases, if◌then◌else◌, ap,
}
use openshell_driver_appleco.Text.{Text}
use openshell_driver_appleco.Compat.{
  Version, Finding, undetermined, has_advisories, too_old, too_new, verified, parse, less,
  apple_container_min, apple_container_max, apple_container_min_safe, open_shell_min,
  open_shell_max, advisories, apple_range, or_verified, check_apple_container, check_open_shell,
}
use openshell_driver_appleco.Hostsetup.Status.{
  Level, healthy, warn, fail, is_fail, Check, map_level, finding_checks,
}
use openshell_driver_appleco.Hostsetup.Status.Report.{
  step_worst, worst_from, worst, exit_of, status_exit,
}

unfoldable pub no_fail : List Check → Bool
no_fail [] = true
no_fail (c ∷ cs) = not (is_fail c.level) && no_fail cs

pub no_fail-append : (xs ys : List Check) → no_fail (xs ++ ys) ≡ (no_fail xs && no_fail ys)
unfolding no_fail
no_fail-append [] ys = refl
no_fail-append (c ∷ xs) ys = ground (arith, no_fail-append xs ys)

step_worst-fail :
    (l onward same : Level) (b : Bool)
    → is_fail onward ≡ not b
    → is_fail same ≡ not b
    → is_fail (step_worst l onward same) ≡ not (not (is_fail l) && b)
unfolding step_worst is_fail
step_worst-fail fail onward same b h k = refl
step_worst-fail warn onward same b h k = h
step_worst-fail healthy onward same b h k = k

worst_from-no_fail :
    (w : Level) (cs : List Check) → is_fail w ≡ false → is_fail (worst_from w cs) ≡ not (no_fail cs)
unfolding worst_from no_fail is_fail
worst_from-no_fail w [] h = h
worst_from-no_fail w (c ∷ cs) h =
    step_worst-fail c.level (worst_from warn cs) (worst_from w cs) (no_fail cs)
      (worst_from-no_fail warn cs refl) (worst_from-no_fail w cs h)

exit_of_iff : (l : Level) (b : Bool) → is_fail l ≡ not b → (exit_of l ≡ 0) ↔ (b ≡ true)
unfolding exit_of is_fail
exit_of_iff fail b h = (λ e. absurd (omega arith), λ e. absurd (ground (arith, h, e)))
exit_of_iff warn b h = (λ e. ground (arith, h), λ e. refl)
exit_of_iff healthy b h = (λ e. ground (arith, h), λ e. refl)

pub status_exit_iff : (cs : List Check) → (status_exit cs ≡ 0) ↔ (no_fail cs ≡ true)
unfolding status_exit worst is_fail
status_exit_iff cs =
    exit_of_iff (worst_from healthy cs) (no_fail cs) (worst_from-no_fail healthy cs refl)

-- The version that is read, if one is, is not below the oldest supported one.
abbrev pub IsSupported : Version → Text → Type 0
IsSupported oldest output = (v : Version) → parse output ≡ some v → less v oldest ≡ false

supported_of : Version → Option Version → Bool
supported_of oldest none = true
supported_of oldest (some v) = not (less v oldest)

supported_iff :
    (oldest : Version) (o : Option Version)
    → (supported_of oldest o ≡ true) ↔ ((v : Version) → o ≡ some v → less v oldest ≡ false)
unfolding supported_of
supported_iff oldest none = (λ h v k. absurd (ground (arith, k)), λ h. refl)
supported_iff oldest (some u) = (
  λ h v k.
      let e : not (less u oldest) ≡ not (less v oldest) =
        ap (λ (o : Option Version). supported_of oldest o) k in
      ground (arith, h, e),
  λ h. ground (arith, h u refl),
)

no_fail_of : List Finding → Bool
no_fail_of [] = true
no_fail_of (f ∷ fs) = not (is_fail (map_level f)) && no_fail_of fs

finding_checks-no_fail :
    (name : Text) (fs : List Finding) → no_fail (finding_checks name fs) ≡ no_fail_of fs
unfolding no_fail finding_checks no_fail_of map_level is_fail
finding_checks-no_fail name [] = refl
finding_checks-no_fail name (undetermined ∷ fs) = finding_checks-no_fail name fs
finding_checks-no_fail name (has_advisories v ∷ fs) = finding_checks-no_fail name fs
finding_checks-no_fail name (too_old v ∷ fs) = refl
finding_checks-no_fail name (too_new v ∷ fs) = finding_checks-no_fail name fs
finding_checks-no_fail name (verified v ∷ fs) = finding_checks-no_fail name fs

abbrev apple_of : Option Version → List Finding
apple_of o = elim o [
  | none ↦ undetermined ∷ []
  | some v ↦ or_verified v (advisories v ++ apple_range v)
]

apple_of-no_fail :
    (o : Option Version) → no_fail_of (apple_of o) ≡ supported_of apple_container_min o
unfolding no_fail_of map_level is_fail supported_of or_verified advisories apple_range
apple_of-no_fail none = refl
apple_of-no_fail (some v) = elim (Bool-cases (less v apple_container_min)) [
  | inl old ↦ elim (Bool-cases (less v apple_container_min_safe)) [
    | inl a ↦ rw (old, a) refl
    | inr a ↦ rw (old, a) refl
  ]
  | inr old ↦ elim (Bool-cases (less v apple_container_min_safe)) [
    | inl a ↦ elim (Bool-cases (less apple_container_max v)) [
      | inl b ↦ rw (old, a, b) refl
      | inr b ↦ rw (old, a, b) refl
    ]
    | inr a ↦ elim (Bool-cases (less apple_container_max v)) [
      | inl b ↦ rw (old, a, b) refl
      | inr b ↦ rw (old, a, b) refl
    ]
  ]
]

abbrev open_shell_of : Option Version → List Finding
open_shell_of o = elim o [
  | none ↦ undetermined ∷ []
  | some v ↦
      if less v open_shell_min
      then too_old v ∷ []
      else if less open_shell_max v
      then too_new v ∷ []
      else verified v ∷ []
]

open_shell_of-no_fail :
    (o : Option Version) → no_fail_of (open_shell_of o) ≡ supported_of open_shell_min o
unfolding no_fail_of map_level is_fail supported_of
open_shell_of-no_fail none = refl
open_shell_of-no_fail (some v) = elim (Bool-cases (less v open_shell_min)) [
  | inl old ↦ rw old refl
  | inr old ↦ elim (Bool-cases (less open_shell_max v)) [
    | inl b ↦ rw (old, b) refl
    | inr b ↦ rw (old, b) refl
  ]
]

pub apple_findings_iff :
    (name t : Text)
    → (no_fail (finding_checks name (check_apple_container t)) ≡ true)
      ↔ IsSupported apple_container_min t
unfolding check_apple_container
apple_findings_iff name t =
    rw (finding_checks-no_fail name (check_apple_container t))
      (rw (apple_of-no_fail (parse t)) (supported_iff apple_container_min (parse t)))

pub open_shell_findings_iff :
    (name t : Text)
    → (no_fail (finding_checks name (check_open_shell t)) ≡ true) ↔ IsSupported open_shell_min t
unfolding check_open_shell
open_shell_findings_iff name t =
    rw (finding_checks-no_fail name (check_open_shell t))
      (rw (open_shell_of-no_fail (parse t)) (supported_iff open_shell_min (parse t)))
