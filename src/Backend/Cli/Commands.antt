-- ===== src/Backend/Cli/Commands.antt =====
-- internal/backend/cli.go: the operations of the runtime, each one command. Running a command is a
-- parameter, and so is the JSON decoder.
use openshell_driver_appleco.Prelude.{
  ℕ, zero, suc, Bool, true, List, [], ◌∷◌, ◌++◌, map, if◌then◌else◌,
}
use openshell_driver_appleco.Result.{Result, ok, err}
use openshell_driver_appleco.Text.{Text, text, ◌==◌, join, trim_space}
use openshell_driver_appleco.Text.Decimal.{decimal}
use openshell_driver_appleco.Backend.{
  RuntimeError, not_found, canceled, failed, Container, Image, Network, Outcome, Runtime,
}
use openshell_driver_appleco.Backend.Cli.Args.{run_args}
use openshell_driver_appleco.Backend.Cli.Decode.{
  LsEntry, ImageEntry, NetworkEntry, to_container, to_image, to_network, says_not_found,
  parse_version_output,
}

-- How a command ended: well, with its context canceled, or with another error and its message.
pub data Ending : Type 0 where
  succeeded interrupted : Ending
  broke : Text → Ending

pub record Ran : Type 0 where
  pub stdout : Text
  pub stderr : Text
  pub ending : Ending

-- The struct `CLI`: the binary and the runner of commands; and the decoders of the three listings.
pub record Cli (W : Type 0) : Type 0 where
  pub bin : Text
  pub runner : Text → List Text → W → Ran × W
  pub decode_containers : Text → Result Text (List LsEntry)
  pub decode_images : Text → Result Text (List ImageEntry)
  pub decode_networks : Text → Result Text (List NetworkEntry)

-- What the command said: to stderr, or to stdout if that is blank.
unfoldable pub complaint : Ran → Text
complaint r = let msg = trim_space r.stderr in if msg == [] then trim_space r.stdout else msg

-- `{cmd}: {error}: {message}`
unfoldable pub failure : Text → Text → Text → RuntimeError
failure command error message = failed (command ++ (text ": " ++ (error ++ (text ": " ++ message))))

unfoldable pub classify : Text → Ran → Ending → Result RuntimeError Text
unfolding complaint failure
classify command r succeeded = ok r.stdout
classify command r interrupted =
    if says_not_found (complaint r) then err not_found else err canceled
classify command r (broke error) =
    if says_not_found (complaint r)
    then err not_found
    else err (failure command error (complaint r))

-- The result of an operation, from the output of its command.
abbrev pub reading : {W A : Type 0} → (Text → Result RuntimeError A) → Outcome W Text → Outcome W A
reading f (ok out, w) = (f out, w)
reading f (err x, w) = (err x, w)

abbrev pub ignored : Text → Result RuntimeError (Unit {0})
ignored out = ok tt

abbrev pub trimmed : Text → Result RuntimeError Text
trimmed out = ok (trim_space out)

unfoldable pub parse_list :
    {A B : Type 0} → Text → (A → B) → Result Text (List A) → Result RuntimeError (List B)
parse_list what f (ok entries) = ok (map f entries)
parse_list what f (err x) = err (failed (what ++ x))

-- The loop of `Get`.
unfoldable pub with_id : Text → List Container → Result RuntimeError Container
with_id name [] = err not_found
with_id name (c ∷ cs) = let later = with_id name cs in if c.id == name then ok c else later

unfoldable pub with_ids :
    Text → Result RuntimeError (List Container) → Result RuntimeError Container
unfolding with_id
with_ids name (ok cs) = with_id name cs
with_ids name (err x) = err x

-- `-n` with the number of lines, if there is one.
unfoldable pub tail_args : ℕ → List Text
tail_args zero = []
tail_args (suc n) = text "-n" ∷ decimal (suc n) ∷ []

module _ {W : Type 0} (cli : Cli W) where
  unfoldable pub run : List Text → W → Outcome W Text
  unfolding classify
  run args w =
      let (r, w') = cli.runner cli.bin args w in
      (classify (cli.bin ++ b' ' ∷ join args (text " ")) r r.ending, w')

  unfoldable pub parse_container_list : Text → Result RuntimeError (List Container)
  unfolding parse_list
  parse_container_list out =
      parse_list (text "parse container list: ") to_container (cli.decode_containers out)

  unfoldable pub list : Bool → W → Outcome W (List Container)
  list everything w =
      let args =
        if everything
        then text "ls" ∷ text "--all" ∷ text "--format" ∷ text "json" ∷ []
        else text "ls" ∷ text "--format" ∷ text "json" ∷ [] in
      reading parse_container_list (run args w)

  unfoldable pub get : Text → W → Outcome W Container
  unfolding list with_ids
  get name w = let (r, w') = list true w in (with_ids name r, w')

  unfoldable pub image_list : W → Outcome W (List Image)
  image_list w =
      reading (λ out. parse_list (text "parse image list: ") to_image (cli.decode_images out))
        (run (text "image" ∷ text "ls" ∷ text "--format" ∷ text "json" ∷ []) w)

  unfoldable pub image_pull : Text → Text → W → Outcome W (Unit {0})
  image_pull ref platform w =
      let extra = if platform == [] then [] else text "--platform" ∷ platform ∷ [] in
      reading ignored (run (text "image" ∷ text "pull" ∷ ref ∷ extra) w)

  unfoldable pub networks : W → Outcome W (List Network)
  networks w =
      reading (λ out. parse_list (text "parse network list: ") to_network (cli.decode_networks out))
        (run (text "network" ∷ text "ls" ∷ text "--format" ∷ text "json" ∷ []) w)

  unfoldable pub logs : Text → ℕ → W → Outcome W Text
  unfolding tail_args
  logs name tail w = reading (λ out. ok out) (run (text "logs" ∷ (tail_args tail ++ name ∷ [])) w)

  unfoldable pub version : W → Outcome W Text
  version w = reading (λ out. ok (parse_version_output out)) (run (text "--version" ∷ []) w)

  -- The command line as the service's runtime.
  unfoldable pub cli_runtime : Runtime W
  unfolding get image_list image_pull networks logs version
  cli_runtime = record {
    run = λ spec w. reading trimmed (run (run_args spec) w);
    delete = λ name w. reading ignored (run (text "delete" ∷ text "--force" ∷ name ∷ []) w);
    stop = λ name w. reading ignored (run (text "stop" ∷ text "--time" ∷ text "10" ∷ name ∷ []) w);
    start = λ name w. reading ignored (run (text "start" ∷ name ∷ []) w);
    list = list;
    get = get;
    image_list = image_list;
    image_pull = image_pull;
    create =
        λ name image w. reading trimmed (run (text "create" ∷ text "--name" ∷ name ∷ image ∷ []) w);
    copy_from = λ name guest_path host_path w.
        reading ignored (run (text "cp" ∷ (name ++ b':' ∷ guest_path) ∷ host_path ∷ []) w);
    networks = networks;
    network_create = λ name w. reading ignored (run (text "network" ∷ text "create" ∷ name ∷ []) w);
    logs = logs;
    system_start = λ w. reading ignored (run (text "system" ∷ text "start" ∷ []) w);
    version = version;
  }
