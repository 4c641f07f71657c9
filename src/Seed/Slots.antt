-- ===== src/Seed/Slots.antt =====
-- internal/seed/seed.go: the files of a seed directory, by name.
use openshell_driver_appleco.Prelude.{
  List, [], ◌∷◌, ◌++◌, ◌≡◌, ◌≢◌, refl, sym, ap, ◌∙◌, arith, All, All-append,
}
use openshell_driver_appleco.Text.{Text, text, ◌==◌}
use openshell_driver_appleco.Text.Path.{clean}
use openshell_driver_appleco.Text.Path.Rooted.{
  IsPlain, rooted, rooted-append, clean_of_IsPlain, is_plain, IsPlain-by_test,
}
use openshell_driver_appleco.Seed.{under_dir}
use openshell_driver_appleco.Seed.Layout.{at_dir}

-- The files of a seed directory.
pub data Slot : Type 0 where
  supervisor boot ca cert key token policy : Slot

unfoldable pub parts_of : Slot → List Text
parts_of supervisor = text "openshell-sandbox" ∷ []
parts_of boot = text "boot.sh" ∷ []
parts_of ca = text "tls" ∷ text "ca.crt" ∷ []
parts_of cert = text "tls" ∷ text "tls.crt" ∷ []
parts_of key = text "tls" ∷ text "tls.key" ∷ []
parts_of token = text "auth" ∷ text "sandbox.jwt" ∷ []
parts_of policy = text "policy.yaml" ∷ []

-- Where it lies in the directory.
abbrev pub slot_path : Text → Slot → Text
slot_path dir i = dir ++ rooted (parts_of i)

pub slot-IsPlain : (i : Slot) → All IsPlain (parts_of i)
unfolding parts_of is_plain
slot-IsPlain supervisor = IsPlain-by_test (parts_of supervisor) refl
slot-IsPlain boot = IsPlain-by_test (parts_of boot) refl
slot-IsPlain ca = IsPlain-by_test (parts_of ca) refl
slot-IsPlain cert = IsPlain-by_test (parts_of cert) refl
slot-IsPlain key = IsPlain-by_test (parts_of key) refl
slot-IsPlain token = IsPlain-by_test (parts_of token) refl
slot-IsPlain policy = IsPlain-by_test (parts_of policy) refl

pub cancel : (s : Text) {t u : Text} → s ++ t ≡ s ++ u → t ≡ u
cancel [] e = e
cancel (c ∷ s) e = cancel s (ground (arith, e))

-- The path of no file of a seed directory.
abbrev pub Outside : Text → Text → Type 0
Outside dir path = (i : Slot) → slot_path dir i ≢ path

module _ (p : Text) (ps : List Text) (plain : All IsPlain (p ∷ ps)) where
  abbrev dir : Text
  dir = rooted (p ∷ ps)

  pub at_slot :
      (i : Slot) (name : Text)
      → b'/' ∷ name ≡ rooted (parts_of i)
      → All IsPlain (parts_of i)
      → at_dir dir name ≡ slot_path dir i
  unfolding at_dir under_dir ◌==◌
  at_slot i name e h =
      let whole = rooted-append (p ∷ ps) (parts_of i) in
      ap (λ t. clean (dir ++ t)) e
      ∙ (ap clean (sym whole)
          ∙ (clean_of_IsPlain p (ps ++ parts_of i)
                (All-append IsPlain (p ∷ ps) (parts_of i) plain h)
              ∙ whole))
