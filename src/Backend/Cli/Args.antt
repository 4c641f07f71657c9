-- ===== src/Backend/Cli/Args.antt =====
-- internal/backend/cli.go, `RunArgs`: the arguments of `container run`.
use openshell_driver_appleco.Prelude.{List, [], ◌∷◌, ◌++◌, Option, none, some, map, if◌then◌else◌}
use openshell_driver_appleco.Int.{ℤ, is_positive}
use openshell_driver_appleco.Text.{Text, text, ◌==◌}
use openshell_driver_appleco.Text.Decimal.{format_int}
use openshell_driver_appleco.Text.Search.{text_le}
use openshell_driver_appleco.Backend.{Labels, VolumeMount, RunSpec, label}

-- `sort.Strings`, as insertion sort.
unfoldable pub insert_sorted : Text → List Text → List Text
unfolding text_le
insert_sorted k [] = k ∷ []
insert_sorted k (j ∷ ks) =
    let later = insert_sorted k ks in if text_le k j then k ∷ j ∷ ks else j ∷ later

unfoldable pub sort : List Text → List Text
unfolding insert_sorted
sort [] = []
sort (k ∷ ks) = insert_sorted k (sort ks)

unfoldable pub keys : Labels → List Text
keys [] = []
keys ((k, _) ∷ m) = k ∷ keys m

unfoldable pub sorted_keys : Labels → List Text
unfolding sort keys
sorted_keys m = sort (keys m)

-- The flag before each value, and the flag and its value if there is one.
unfoldable pub each : Text → List Text → List Text
each flag [] = []
each flag (v ∷ vs) = flag ∷ v ∷ each flag vs

abbrev pub filled : Text → List Text
filled v = if v == [] then [] else v ∷ []

abbrev pub counted : (ℤ → Text) → ℤ → List Text
counted show n = if is_positive n then show n ∷ [] else []

abbrev pub given : Option ℤ → List Text
given none = []
given (some n) = format_int n ∷ []

unfoldable pub volume_arg : VolumeMount → Text
volume_arg v = v.host_path ++ (b':' ∷ (v.guest_path ++ (if v.read_only then text ":ro" else [])))

unfoldable pub setting : Labels → Text → Text
setting m k = k ++ b'=' ∷ label k m

unfoldable pub settings : Labels → List Text
unfolding sorted_keys setting
settings m = map (setting m) (sorted_keys m)

unfoldable pub run_args : RunSpec → List Text
unfolding each volume_arg settings format_int
run_args spec =
    text "run"
    ∷ text "--detach"
    ∷ (each (text "--name") (spec.name ∷ [])
        ++ (each (text "--network") (filled spec.network)
            ++ (each (text "--volume") (map volume_arg spec.volumes)
                ++ (each (text "--tmpfs") spec.tmpfs
                    ++ (each (text "--env") (settings spec.env)
                        ++ (each (text "--label") (settings spec.labels)
                            ++ (each (text "--cpus") (counted format_int spec.cpus)
                                ++ (each (text "--memory")
                                      (counted (λ n. format_int n ++ text "M") spec.memory_mb)
                                    ++ (each (text "--uid") (given spec.uid)
                                        ++ (each (text "--gid") (given spec.gid)
                                            ++ (each (text "--cap-add") spec.cap_add
                                                ++ (each (text "--kernel") (filled spec.kernel)
                                                    ++ (each (text "--entrypoint")
                                                          (filled spec.entrypoint)
                                                        ++ spec.image ∷ spec.args)))))))))))))
