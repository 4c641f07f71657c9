-- ===== src/Command/Update/Listing.antt =====
-- cmd/openshell-driver-applecontainer/update.go: the list of checksums.
use openshell_driver_appleco.Prelude.{
  List, [], ◌∷◌, ◌++◌, some, ◌≡◌, ◌≢◌, inl, inr, refl, arith, Option-cases, ap,
}
use openshell_driver_appleco.Text.{Text, split}
use openshell_driver_appleco.Text.Laws.{eq_iff}
use openshell_driver_appleco.Text.Search.{to_lower, fields}
use openshell_driver_appleco.Command.Update.{listed_digest, wanted}

-- One of the lines of the checksums names the archive with that digest.
abbrev pub IsListed : Text → Text → Text → Type 0
IsListed sums name digest =
    (before after : List Text) × (line hex : Text) × (split sums 10 ≡ before ++ line ∷ after)
    × (fields line ≡ hex ∷ name ∷ [])
    × (digest ≡ to_lower hex)

listed_digest-eq_some :
    (name : Text) (words : List Text) (digest : Text)
    → listed_digest name words ≡ some digest
    → (hex : Text) × (words ≡ hex ∷ name ∷ []) × (digest ≡ to_lower hex)
unfolding listed_digest
listed_digest-eq_some name [] digest e = absurd (ground (arith, e))
listed_digest-eq_some name (h ∷ []) digest e = absurd (ground (arith, e))
listed_digest-eq_some name (h ∷ f ∷ []) digest e =
    (h, ground (arith, e, eq_iff f name), ground (arith, e))
listed_digest-eq_some name (h ∷ f ∷ g ∷ r) digest e = absurd (ground (arith, e))

pub wanted-IsListed :
    (name : Text) (lines : List Text)
    → wanted name lines ≢ []
    → (before after : List Text) × (line hex : Text) × (lines ≡ before ++ line ∷ after)
      × (fields line ≡ hex ∷ name ∷ [])
      × (wanted name lines ≡ to_lower hex)
unfolding wanted
wanted-IsListed name [] h = absurd (h refl)
wanted-IsListed name (line ∷ lines) h = elim (Option-cases (listed_digest name (fields line))) [
  | inl e ↦
      let (before, after, l, hex, f, g, k) = wanted-IsListed name lines (rw (e, wanted) at h) in
      (line ∷ before, after, l, hex, ap (λ (z : List Text). line ∷ z) f, g, rw (e, wanted) k)
  | inr (digest, e) ↦
      let (hex, g, k) = listed_digest-eq_some name (fields line) digest e in
      ([], lines, line, hex, refl, g, rw (e, wanted) k)
]
