-- ===== src/Seed/Paths.antt =====
-- internal/seed/seed.go: the name of a partial file is never that of a cached one.
use openshell_driver_appleco.Prelude.{
  Bool, true, false, if◌then◌else◌, ◌+◌, ℕ, ◌/◌, ◌%◌, ltb, [], ◌∷◌, ◌++◌, ◌≡◌, ◌≢◌, refl, sym, ap,
  ◌∙◌, arith, append_assoc, ◌<◌,
}
use openshell_driver_appleco.Text.{Text, text}
use openshell_driver_appleco.Text.Decimal.{decimal, digits}
use openshell_driver_appleco.Text.Path.Rooted.{is_plain, is_plain_sound}
use openshell_driver_appleco.Text.Path.Last.{final, final-append, clean-last}
use openshell_driver_appleco.Seed.{
  bin_path, under_dir, cache_key, uniq_of, partial_path, short_digest,
}

mod_digit : (n : ℕ) → n % 10 < 10
mod_digit n = omega arith

final-chosen :
    (small : Bool) (n m : ℕ) (higher : Text)
    → (small ≡ true → n < 10)
    → m < 10
    → final (b'-' ∷ (if small then (b'0' + n) ∷ [] else higher ++ (b'0' + m) ∷ [])) < 60
unfolding final
final-chosen true n m higher h k = let small = h refl in omega arith
final-chosen false n m higher h k =
    let e = final-append (b'-' ∷ higher) (b'0' + m) [] in rw e (omega arith)

final-decimal : (n : ℕ) → final (b'-' ∷ decimal n) < 60
unfolding decimal digits
final-decimal n =
    final-chosen (ltb n 10) n (n % 10) (digits n (n / 10)) (λ h. ground (arith, h)) (mod_digit n)

final-bin_path : (dir image digest : Text) → final (bin_path dir image digest) ≡ b'x'
unfolding bin_path final is_plain
final-bin_path dir image digest =
    let (t, e) =
      clean-last (text "openshell-sandbox") (is_plain_sound (text "openshell-sandbox") refl)
        (under_dir dir (cache_key image digest)) in
    ap final e ∙ final-append t b'o' (text "penshell-sandbox")

pub partial_path-apart :
    (dir image digest : Text) (pid seq : ℕ) (image' digest' : Text)
    → partial_path dir image digest pid seq ≢ bin_path dir image' digest'
unfolding partial_path uniq_of
partial_path-apart dir image digest pid seq image' digest' e =
    let bin = bin_path dir image digest in
    let dot = text ".partial-" in
    let short = short_digest digest in
    let mark = short ++ b'-' ∷ decimal pid in
    let count = b'-' ∷ decimal seq in
    let whole : bin ++ (dot ++ (short ++ b'-' ∷ (decimal pid ++ count)))
        ≡ (bin ++ (dot ++ mark)) ++ count =
      sym (
        append_assoc bin (dot ++ mark) count
        ∙ ap (λ t. bin ++ t)
            (append_assoc dot mark count
              ∙ ap (λ t. dot ++ t) (append_assoc short (b'-' ∷ decimal pid) count))) in
    let ends = ap final whole ∙ final-append (bin ++ (dot ++ mark)) b'-' (decimal seq) in
    let small = final-decimal seq in
    let last = final-bin_path dir image' digest' in
    let same = ap final e in absurd (omega (arith, ends, small, last, same))
