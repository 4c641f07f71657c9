-- ===== src/Seed/Tests.antt =====
-- Runs of the extractor, and the examples at which its theorem applies.
use openshell_driver_appleco.Prelude.{some, Bool, true, [], ◌∷◌, ◌≡◌, ◌≢◌, refl, arith, All}
use openshell_driver_appleco.Result.{ok, err}
use openshell_driver_appleco.Text.{Text, text, ◌==◌, has_prefix, join, split}
use openshell_driver_appleco.Assoc.{lookup, erase, insert}
use openshell_driver_appleco.Text.Path.{clean}
use openshell_driver_appleco.Text.Decimal.{decimal}
use openshell_driver_appleco.Files.{File, Files, complete}
use openshell_driver_appleco.Backend.{Runtime, not_found}
use openshell_driver_appleco.Seed.{FileCalls, partial_path, not_elf}
use openshell_driver_appleco.Seed.{Materials}
use openshell_driver_appleco.Seed.Layout.{write_layout}
use openshell_driver_appleco.Seed.Slots.{Slot, slot_path}
use openshell_driver_appleco.Seed.Complete.{Apart, Holds, write_layout-Holds}
use openshell_driver_appleco.Text.Path.Rooted.{IsPlain, IsPlain-by_test, is_plain}
use openshell_driver_appleco.Seed.Total.{Works, sources_of, write_layout-ok}
use openshell_driver_appleco.Seed.Step.{Ends, ◌>>=◌, ◌>>◌}
use openshell_driver_appleco.Seed.Extract.{World, Attempt, ensure}

abbrev supervisor : Text
supervisor = text "ghcr.io/supervisor:1"

abbrev elf : File
elf = record { content = 0x7f ∷ text "ELF..."; mode = 0o644 }

-- A runtime that has the image, and that copies `file` out of it.
abbrev runtime_with : File → Runtime (World Bool)
runtime_with file = record {
  run = λ spec w. (ok spec.name, w);
  delete = λ name w. (ok tt, w);
  stop = λ name w. (ok tt, w);
  start = λ name w. (ok tt, w);
  list = λ all w. (ok [], w);
  get = λ name w. (err not_found, w);
  image_list = λ w. (
    ok (record { reference = supervisor; digest = text "sha256:0123456789abcdef"; user = [] } ∷ []),
    w,
  );
  image_pull = λ image platform w. (ok tt, w);
  create = λ name image w. (ok name, w);
  copy_from = λ name source target w. (ok tt, (w.0, insert target file w.1));
  networks = λ w. (ok [], w);
  network_create = λ name w. (ok tt, w);
  logs = λ name lines w. (ok [], w);
  system_start = λ w. (ok tt, w);
  version = λ w. (ok [], w);
}

abbrev disk : FileCalls
disk = record {
  makes_dir = λ path. true;
  readable = λ path. true;
  writing = λ path content. complete;
  changes_mode = λ path. true;
  renames = λ old new. true;
  removes = λ path. true;
  closes = λ path. true;
}

abbrev attempt : File → Attempt Bool
attempt file = record {
  runtime = runtime_with file;
  disk = disk;
  others = λ w. w;
  extractor = record { cache_dir = text "/cache"; labels = [] };
  pid = 7;
  seq = 1;
}

abbrev cold : World Bool
cold = (true, [])

abbrev bin : Text
bin = text "/cache/ghcr.io-supervisor-1-0123456789ab/openshell-sandbox"

cold_run :
    ensure (attempt elf) supervisor cold ≡ (ok bin, (true, (bin, record elf { mode = 0o600 }) ∷ []))
unfolding ensure ◌>>=◌ ◌==◌ lookup ◌>>◌ insert erase partial_path clean has_prefix join split
    decimal
cold_run = refl

-- A registry's error page in place of a program leaves nothing behind.
abbrev page : File
page = record { content = text "<html>"; mode = 0o644 }

page_run : ensure (attempt page) supervisor cold ≡ (err not_elf, cold)
unfolding ensure ◌>>=◌ ◌==◌ lookup ◌>>◌ insert erase partial_path clean has_prefix join split
    decimal
page_run = refl

abbrev materials : Materials
materials = record {
  supervisor_path = text "/cache/bin";
  ca_path = text "/ca";
  cert_path = text "/crt";
  key_path = text "/ckey";
  token = text "t0k";
  policy_overlay_path = [];
}

abbrev host_files : Files
host_files =
    (text "/cache/bin", elf)
    ∷ (text "/ca", record { content = text "CA"; mode = 0o644 })
    ∷ (text "/crt", record { content = text "CRT"; mode = 0o644 })
    ∷ (text "/ckey", record { content = text "KEY"; mode = 0o600 })
    ∷ []

layout_run : (write_layout disk (text "/s") materials host_files).0 ≡ ok tt
unfolding write_layout lookup ◌>>◌ ◌==◌ insert clean has_prefix join split
layout_run = refl

mode_run :
    lookup (text "/s/tls/ca.crt") (write_layout disk (text "/s") materials host_files).1
    ≡ some (record { content = text "CA"; mode = 0o600 })
unfolding write_layout lookup ◌>>◌ ◌==◌ insert clean has_prefix join split
mode_run = refl

seed_name : All IsPlain (text "s" ∷ [])
unfolding is_plain
seed_name = IsPlain-by_test (text "s" ∷ []) refl

-- Another directory's paths are no seed files.
elsewhere : (rest : Text) (i : Slot) → slot_path (text "/s") i ≢ b'/' ∷ b'c' ∷ rest
elsewhere rest i e = absurd (ground (arith, e))

nowhere : (i : Slot) → slot_path (text "/s") i ≢ []
nowhere i e = absurd (ground (arith, e))

write_layout-Holds_example :
    Ends
      (Apart disk materials (text "s") [] host_files)
      (λ _ s.
        ((i : Slot)
          → Holds disk materials (text "s") [] host_files i (lookup (slot_path (text "/s") i) s))
        × Apart disk materials (text "s") [] host_files s)
      (write_layout disk (text "/s") materials host_files)
write_layout-Holds_example =
    write_layout-Holds disk materials (text "s") [] host_files seed_name (elsewhere _) (elsewhere _)
      (elsewhere _) (elsewhere _) nowhere

sound_disk : Works disk
sound_disk = record {
  makes_dir = λ path. refl;
  readable = λ path. refl;
  writing = λ path content. refl;
  changes_mode = λ path. refl;
  closes = λ path. refl;
}

write_layout-ok_example : (write_layout disk (text "/s") materials host_files).0 ≡ ok tt
unfolding sources_of lookup ◌==◌
write_layout-ok_example =
    write_layout-ok disk sound_disk materials (text "s") [] seed_name
      (elsewhere _, (elsewhere _, (elsewhere _, (elsewhere _, tt)))) host_files
      ((_, refl), ((_, refl), ((_, refl), ((_, refl), tt))))
