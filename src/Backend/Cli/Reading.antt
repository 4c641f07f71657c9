-- ===== src/Backend/Cli/Reading.antt =====
-- internal/backend/cli.go: what a command line that reads flags and their values makes of the
-- arguments of `container run`.
use openshell_driver_appleco.Prelude.{
  true, false, List, [], ◌∷◌, ◌++◌, none, some, map, if◌then◌else◌, All, ◌≡◌, refl, arith,
  append-nil, subst, sym, Bool-cases, inl, inr,
}
use openshell_driver_appleco.Text.{Text, text, ◌==◌, has_prefix}
use openshell_driver_appleco.Text.Laws.{eq_iff}
use openshell_driver_appleco.Assoc.{lookup}
use openshell_driver_appleco.Backend.{RunSpec}
use openshell_driver_appleco.Text.Decimal.{format_int}
use openshell_driver_appleco.Backend.Cli.Args.{
  keys, each, filled, counted, given, volume_arg, settings, run_args,
}
use openshell_driver_appleco.Backend.Cli.Reader.{
  Reading, prepend, read_from, read_run, values, read_settings, read_volume, EqualsFree, ColonFree,
  read_volumes, lookup-settings,
}

abbrev IsFlag : Text → Type 0
IsFlag flag = ((flag == text "--detach") ≡ false) × (has_prefix flag (text "-") ≡ true)

abbrev pairs : Text → List Text → List (Text × Text)
pairs flag [] = []
pairs flag (v ∷ vs) = (flag, v) ∷ pairs flag vs

read_from-each :
    (flag : Text)
    → IsFlag flag
    → (vs ws : List Text)
    → read_from none (each flag vs ++ ws) ≡ prepend (pairs flag vs) (read_from none ws)
unfolding read_from each
read_from-each flag h [] ws = refl
read_from-each flag h (v ∷ vs) ws = rw (h.0, h.1, read_from-each flag h vs ws) refl

values-pairs :
    (flag g : Text) (vs : List Text) (fs : List (Text × Text))
    → values flag (pairs g vs ++ fs) ≡ (if g == flag then vs ++ values flag fs else values flag fs)
unfolding values
values-pairs flag g [] fs = ground arith
values-pairs flag g (v ∷ vs) fs = ground (arith, values-pairs flag g vs fs)

values-pairs_last :
    (flag g : Text) (vs : List Text) → values flag (pairs g vs) ≡ (if g == flag then vs else [])
unfolding values
values-pairs_last flag g [] = ground arith
values-pairs_last flag g (v ∷ vs) = ground (arith, values-pairs_last flag g vs)

ruleset reading = (values-pairs, values-pairs_last, append-nil)

read_from-argument :
    (w : Text) (ws : List Text)
    → has_prefix w (text "-") ≡ false
    → read_from none (w ∷ ws) ≡ record { flags = []; arguments = w ∷ ws }
unfolding read_from has_prefix
read_from-argument w ws h = elim (Bool-cases (w == text "--detach")) [
  | inl b ↦ absurd (ground (arith, eq_iff w (text "--detach")))
  | inr b ↦ rw (b, h) refl
]

flags_of : RunSpec → List (Text × Text)
flags_of spec =
    pairs (text "--name") (spec.name ∷ [])
    ++ (pairs (text "--network") (filled spec.network)
        ++ (pairs (text "--volume") (map volume_arg spec.volumes)
            ++ (pairs (text "--tmpfs") spec.tmpfs
                ++ (pairs (text "--env") (settings spec.env)
                    ++ (pairs (text "--label") (settings spec.labels)
                        ++ (pairs (text "--cpus") (counted format_int spec.cpus)
                            ++ (pairs (text "--memory")
                                  (counted (λ n. format_int n ++ text "M") spec.memory_mb)
                                ++ (pairs (text "--uid") (given spec.uid)
                                    ++ (pairs (text "--gid") (given spec.gid)
                                        ++ (pairs (text "--cap-add") spec.cap_add
                                            ++ (pairs (text "--kernel") (filled spec.kernel)
                                                ++ (pairs (text "--entrypoint")
                                                      (filled spec.entrypoint)
                                                    ++ []))))))))))))

read_run-run_args :
    (spec : RunSpec)
    → has_prefix spec.image (text "-") ≡ false
    → read_run (run_args spec)
      ≡ record { flags = flags_of spec; arguments = spec.image ∷ spec.args }
unfolding read_run read_from run_args flags_of ◌==◌ has_prefix
read_run-run_args spec h = simp (
  read_from-each (text "--network") (refl, refl),
  read_from-each (text "--volume") (refl, refl),
  read_from-each (text "--tmpfs") (refl, refl),
  read_from-each (text "--env") (refl, refl),
  read_from-each (text "--label") (refl, refl),
  read_from-each (text "--cpus") (refl, refl),
  read_from-each (text "--memory") (refl, refl),
  read_from-each (text "--uid") (refl, refl),
  read_from-each (text "--gid") (refl, refl),
  read_from-each (text "--cap-add") (refl, refl),
  read_from-each (text "--kernel") (refl, refl),
  read_from-each (text "--entrypoint") (refl, refl),
  read_from-argument spec.image spec.args h,
)

-- What the command line is told of a specification.
pub record IsReadBack (spec : RunSpec) (r : Reading) : Type 0 where
  pub name : values (text "--name") r.flags ≡ spec.name ∷ []
  pub network : values (text "--network") r.flags ≡ filled spec.network
  pub volumes : map read_volume (values (text "--volume") r.flags) ≡ map some spec.volumes
  pub tmpfs : values (text "--tmpfs") r.flags ≡ spec.tmpfs
  pub env :
      (k : Text) → lookup k (read_settings [] (values (text "--env") r.flags)) ≡ lookup k spec.env
  pub labels :
      (k : Text)
      → lookup k (read_settings [] (values (text "--label") r.flags)) ≡ lookup k spec.labels
  pub cpus : values (text "--cpus") r.flags ≡ counted format_int spec.cpus
  pub memory :
      values (text "--memory") r.flags ≡ counted (λ n. format_int n ++ text "M") spec.memory_mb
  pub uid : values (text "--uid") r.flags ≡ given spec.uid
  pub gid : values (text "--gid") r.flags ≡ given spec.gid
  pub cap_add : values (text "--cap-add") r.flags ≡ spec.cap_add
  pub kernel : values (text "--kernel") r.flags ≡ filled spec.kernel
  pub entrypoint : values (text "--entrypoint") r.flags ≡ filled spec.entrypoint
  pub arguments : r.arguments ≡ spec.image ∷ spec.args

flags_of-IsReadBack :
    (spec : RunSpec)
    → All EqualsFree (keys spec.env)
    → All EqualsFree (keys spec.labels)
    → All ColonFree spec.volumes
    → IsReadBack spec (record { flags = flags_of spec; arguments = spec.image ∷ spec.args })
unfolding flags_of ◌==◌ values
flags_of-IsReadBack spec h g v = record {
  name = simp reading;
  network = simp reading;
  volumes = simp reading (read_volumes spec.volumes v);
  tmpfs = simp reading;
  env = λ k. simp reading (lookup-settings k spec.env h);
  labels = λ k. simp reading (lookup-settings k spec.labels g);
  cpus = simp reading;
  memory = simp reading;
  uid = simp reading;
  gid = simp reading;
  cap_add = simp reading;
  kernel = simp reading;
  entrypoint = simp reading;
  arguments = refl;
}

-- A command line that reads flags and their values gets back from the arguments of a run what the
-- specification says, if the image does not start with a dash, no name of a variable or label holds
-- "=" and no path of a volume holds ":": its one value for the name, the network, kernel and
-- entrypoint exactly if they are set, the same volumes, tmpfs targets and capabilities in order, the
-- user and group if they are given, the CPU count and the memory if they are positive, every variable and every label with its value and no others,
-- and the image with the arguments behind the flags. No value is read as a flag, whatever it is.
pub run_args-IsReadBack :
    (spec : RunSpec)
    → has_prefix spec.image (text "-") ≡ false
    → All EqualsFree (keys spec.env)
    → All EqualsFree (keys spec.labels)
    → All ColonFree spec.volumes
    → IsReadBack spec (read_run (run_args spec))
run_args-IsReadBack spec h e l v =
    subst (IsReadBack spec) (sym (read_run-run_args spec h)) (flags_of-IsReadBack spec e l v)

-- The variables alone, whatever the labels and the volumes are.
pub run_args-env :
    (spec : RunSpec) (k : Text)
    → has_prefix spec.image (text "-") ≡ false
    → All EqualsFree (keys spec.env)
    → lookup k (read_settings [] (values (text "--env") (read_run (run_args spec)).flags))
      ≡ lookup k spec.env
unfolding flags_of ◌==◌ values
run_args-env spec k h e =
    rw (read_run-run_args spec h) (simp reading (lookup-settings k spec.env e))
