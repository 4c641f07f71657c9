-- ===== src/Backend/Cli/Reader.antt =====
-- internal/backend/cli.go: a command line that reads the arguments of `container run`: its flags
-- and their values, its settings and its volumes.
use openshell_driver_appleco.Prelude.{
  ℕ, Bool, true, false, List, [], ◌∷◌, ◌++◌, Option, none, some, map, if◌then◌else◌, any, All, eqb,
  ◌||◌, ◌≡◌, refl, arith, append_assoc, append-nil, subst, sym, Bool-cases, inl, inr,
}
use openshell_driver_appleco.Text.{Text, text, ◌==◌, has_prefix, split, split_from, contains_code}
use openshell_driver_appleco.Text.Laws.{eq_iff}
use openshell_driver_appleco.Assoc.{lookup, insert, lookup-insert}
use openshell_driver_appleco.Backend.{Labels, VolumeMount, label}
use openshell_driver_appleco.Text.Search.{text_le}
use openshell_driver_appleco.Backend.Cli.Args.{
  insert_sorted, sort, keys, sorted_keys, volume_arg, setting, settings,
}

-- A command line: flags with their values, in order, and what follows them.
pub record Reading : Type 0 where
  pub flags : List (Text × Text)
  pub arguments : List Text

abbrev pub prepend : List (Text × Text) → Reading → Reading
prepend fs r = record r { flags = fs ++ r.flags }

-- `--detach` stands alone, every other word that starts with a dash is a flag with a value, and the
-- first other word ends the flags. `flag` is the flag whose value is next.
unfoldable pub read_from : Option Text → List Text → Reading
read_from (some flag) [] = record { flags = []; arguments = [] }
read_from (some flag) (v ∷ ws) = prepend ((flag, v) ∷ []) (read_from none ws)
read_from none [] = record { flags = []; arguments = [] }
read_from none (w ∷ ws) =
    let skipped = read_from none ws in
    let taken = read_from (some w) ws in
    if w == text "--detach"
    then skipped
    else if has_prefix w (text "-")
    then taken
    else record { flags = []; arguments = w ∷ ws }

-- Behind the name of the subcommand.
unfoldable pub read_run : List Text → Reading
unfolding read_from
read_run [] = record { flags = []; arguments = [] }
read_run (command ∷ ws) = read_from none ws

-- The values of a flag.
unfoldable pub values : Text → List (Text × Text) → List Text
values flag [] = []
values flag ((f, v) ∷ fs) = let later = values flag fs in if f == flag then v ∷ later else later

-- `k=v` at its first "=", and the settings of a command line: the last one of a key counts.
pub split_setting : Text → Text × Text
split_setting [] = ([], [])
split_setting (c ∷ s) = let (k, v) = split_setting s in if eqb c b'=' then ([], s) else (c ∷ k, v)

store_setting : Text × Text → Labels → Labels
store_setting (k, v) m = insert k v m

pub read_settings : Labels → List Text → Labels
unfolding store_setting
read_settings m [] = m
read_settings m (w ∷ ws) = read_settings (store_setting (split_setting w) m) ws

-- `host:guest`, with `:ro` behind it or not.
pub volume_of : List Text → Option VolumeMount
volume_of (host ∷ guest ∷ []) =
    some (record { host_path = host; guest_path = guest; read_only = false })
volume_of (host ∷ guest ∷ mode ∷ []) =
    if mode == text "ro"
    then some (record { host_path = host; guest_path = guest; read_only = true })
    else none
volume_of _ = none

pub read_volume : Text → Option VolumeMount
unfolding volume_of
read_volume w = volume_of (split w b':')

-- A text without the code.
abbrev pub Lacks : ℕ → Text → Type 0
Lacks c s = contains_code s c ≡ false

split_setting-setting : (k v : Text) → Lacks b'=' k → split_setting (k ++ b'=' ∷ v) ≡ (k, v)
unfolding split_setting contains_code
split_setting-setting [] v h = refl
split_setting-setting (c ∷ k) v h = ground (arith, split_setting-setting k v)

split_from-part :
    (c : ℕ) (cur a s : Text)
    → Lacks c a
    → split_from c cur (a ++ c ∷ s) ≡ (cur ++ a) ∷ split_from c [] s
unfolding split_from contains_code
split_from-part c cur [] s h = rw append-nil (ground arith)
split_from-part c cur (x ∷ a) s h =
    ground (arith, split_from-part c (cur ++ x ∷ []) a s, append_assoc cur (x ∷ []) a)

split_from-rest : (c : ℕ) (cur a : Text) → Lacks c a → split_from c cur a ≡ (cur ++ a) ∷ []
unfolding split_from contains_code
split_from-rest c cur [] h = rw append-nil refl
split_from-rest c cur (x ∷ a) h =
    ground (arith, split_from-rest c (cur ++ x ∷ []) a, append_assoc cur (x ∷ []) a)

pub read_volume-volume_arg :
    (v : VolumeMount)
    → Lacks b':' v.host_path × Lacks b':' v.guest_path
    → read_volume (volume_arg v) ≡ some v
unfolding read_volume volume_of volume_arg split ◌==◌
read_volume-volume_arg v (h, g) = elim (Bool-cases v.read_only) [
  | inl b ↦
      rw
        (
          b,
          split_from-part b':' [] v.host_path (v.guest_path ++ text ":ro") h,
          split_from-part b':' [] v.guest_path (text "ro") g,
        )
        refl
  | inr b ↦
      rw
        (
          b,
          append-nil,
          split_from-part b':' [] v.host_path v.guest_path h,
          split_from-rest b':' [] v.guest_path g,
        )
        refl
]

abbrev pub ColonFree : VolumeMount → Type 0
ColonFree v = Lacks b':' v.host_path × Lacks b':' v.guest_path

pub read_volumes :
    (vs : List VolumeMount) → All ColonFree vs → map read_volume (map volume_arg vs) ≡ map some vs
read_volumes [] h = refl
read_volumes (v ∷ vs) (h, hs) = rw (read_volume-volume_arg v h, read_volumes vs hs) refl

is_member : Text → List Text → Bool
is_member k ks = any (λ (j : Text). j == k) ks

is_member-insert_sorted :
    (k j : Text) (ks : List Text) → is_member k (insert_sorted j ks) ≡ ((j == k) || is_member k ks)
unfolding insert_sorted is_member
is_member-insert_sorted k j [] = refl
is_member-insert_sorted k j (i ∷ ks) = ground (arith, is_member-insert_sorted k j ks)

is_member-sort : (k : Text) (ks : List Text) → is_member k (sort ks) ≡ is_member k ks
unfolding sort is_member
is_member-sort k [] = refl
is_member-sort k (j ∷ ks) = rw (is_member-insert_sorted k j (sort ks), is_member-sort k ks) refl

-- The lookup in a map, by its keys.
lookup-keys :
    (k : Text) (m : Labels) → lookup k m ≡ (if is_member k (keys m) then some (label k m) else none)
unfolding lookup keys label is_member
lookup-keys k [] = refl
lookup-keys k ((j, v) ∷ m) = ground (arith, lookup-keys k m)

abbrev pub EqualsFree : Text → Type 0
EqualsFree k = Lacks b'=' k

All-insert_sorted :
    (k : Text) (ks : List Text)
    → EqualsFree k
    → All EqualsFree ks
    → All EqualsFree (insert_sorted k ks)
unfolding insert_sorted
All-insert_sorted k [] h hs = (h, tt)
All-insert_sorted k (j ∷ ks) h hs = elim (Bool-cases (text_le k j)) [
  | inl b ↦ rw b (h, hs)
  | inr b ↦ rw b (hs.0, All-insert_sorted k ks h hs.1)
]

All-sort : (ks : List Text) → All EqualsFree ks → All EqualsFree (sort ks)
unfolding sort
All-sort [] h = tt
All-sort (k ∷ ks) (h, hs) = All-insert_sorted k (sort ks) h (All-sort ks hs)

lookup-read_settings :
    (k : Text) (m n : Labels) (ks : List Text)
    → All EqualsFree ks
    → lookup k (read_settings n (map (setting m) ks))
      ≡ (if is_member k ks then some (label k m) else lookup k n)
unfolding read_settings setting is_member store_setting
lookup-read_settings k m n [] h = refl
lookup-read_settings k m n (j ∷ ks) (h, hs) =
    subst
      (λ (kv : Text × Text).
        lookup k (read_settings (store_setting kv n) (map (setting m) ks))
        ≡ (if is_member k (j ∷ ks) then some (label k m) else lookup k n))
      (sym (split_setting-setting j (label j m) h))
      (rw (lookup-read_settings k m (insert j (label j m) n) ks hs, lookup-insert j k (label j m) n)
        (ground (arith, eq_iff j k)))

pub lookup-settings :
    (k : Text) (m : Labels)
    → All EqualsFree (keys m)
    → lookup k (read_settings [] (settings m)) ≡ lookup k m
unfolding settings sorted_keys lookup
lookup-settings k m h =
    rw
      (
        lookup-read_settings k m [] (sort (keys m)) (All-sort (keys m) h),
        is_member-sort k (keys m),
        lookup-keys k m,
      )
      refl
