-- ===== src/Text/Path/Rooted.antt =====
-- Cleaned rooted paths: what `path.Clean(p) == p` says of the elements of a rooted `p`.
use mathlib.Core.List.{reverse, reverse-cons}
use openshell_driver_appleco.Prelude.{
  ℕ, Bool, true, false, List, [], ◌∷◌, ◌++◌, ◌≡◌, ◌≢◌, refl, sym, ap, ◌∙◌, arith, All, All-append,
  append_assoc, append-nil, not, ◌||◌, all,
}
use openshell_driver_appleco.Text.{
  Text, text, ◌==◌, has_prefix, split, split_from, join, contains_code,
}
use openshell_driver_appleco.Text.Laws.{eq_iff}
use openshell_driver_appleco.Text.Path.{slash, clean_part, clean_parts, clean}

abbrev pub NoSlash : Text → Type 0
NoSlash [] = Unit
NoSlash (c ∷ s) = (c ≢ b'/') × NoSlash s

-- An element that names something below the directory it is joined to.
abbrev pub IsPlain : Text → Type 0
IsPlain p = (p ≢ []) × (p ≢ text ".") × (p ≢ text "..") × NoSlash p

-- The rooted path with these elements.
abbrev pub rooted : List Text → Text
rooted [] = []
rooted (p ∷ ps) = slash ++ (p ++ rooted ps)

pub rooted-append : (ps qs : List Text) → rooted (ps ++ qs) ≡ rooted ps ++ rooted qs
rooted-append [] qs = refl
rooted-append (p ∷ ps) qs = rw (rooted-append ps qs, append_assoc p (rooted ps) (rooted qs))

join-rooted : (p : Text) (ps : List Text) → join (p ∷ ps) slash ≡ p ++ rooted ps
unfolding join
join-rooted p [] = sym (append-nil p)
join-rooted p (q ∷ ps) = ap (λ t. p ++ (slash ++ t)) (join-rooted q ps)

NoSlash-concat : (s : Text) (c : ℕ) → NoSlash s → c ≢ b'/' → NoSlash (s ++ c ∷ [])
NoSlash-concat [] c h p = (p, tt)
NoSlash-concat (x ∷ s) c (q, h) p = (q, NoSlash-concat s c h p)

split_from-NoSlash : (cur s : Text) → NoSlash cur → All NoSlash (split_from b'/' cur s)
unfolding split_from
split_from-NoSlash cur [] h = (h, tt)
split_from-NoSlash cur (x ∷ s) h = ground (
  arith,
  split_from-NoSlash [] s tt,
  split_from-NoSlash (cur ++ x ∷ []) s,
  NoSlash-concat cur x h,
)

clean_part-IsPlain :
    (stack : List Text) (part : Text)
    → All IsPlain stack
    → NoSlash part
    → All IsPlain (clean_part true stack part)
unfolding clean_part
clean_part-IsPlain [] part h k =
    ground (arith, eq_iff part [], eq_iff part (text "."), eq_iff part (text ".."))
clean_part-IsPlain (p ∷ stack) part h k =
    ground
      (arith, eq_iff part [], eq_iff part (text "."), eq_iff part (text ".."), eq_iff p (text ".."))

All-reverse {ℓ κ} : {A : Type ℓ} (P : A → Type κ) (xs : List A) → All P xs → All P (reverse xs)
All-reverse P [] h = tt
All-reverse P (x ∷ xs) h =
    rw (reverse-cons x xs) (All-append P (reverse xs) (x ∷ []) (All-reverse P xs h.1) (h.0, tt))

clean_parts-IsPlain :
    (stack parts : List Text)
    → All IsPlain stack
    → All NoSlash parts
    → All IsPlain (clean_parts true stack parts)
unfolding clean_parts
clean_parts-IsPlain stack [] h k = All-reverse IsPlain stack h
clean_parts-IsPlain stack (part ∷ parts) h k =
    clean_parts-IsPlain (clean_part true stack part) parts (clean_part-IsPlain stack part h k.0) k.1

pub join-rooted_lem : (p : Text) (ps : List Text) → slash ++ join (p ∷ ps) slash ≡ rooted (p ∷ ps)
join-rooted_lem p ps = ap (λ (t : Text). slash ++ t) (join-rooted p ps)

-- What `path.Clean` returns for a rooted path is the root or a chain of plain elements.
pub clean-rooted :
    (p : Text)
    → has_prefix p slash ≡ true
    → (ps : List Text) × (clean p ≡ slash ++ join ps slash) × All IsPlain ps
unfolding clean split
clean-rooted p h = (
  clean_parts true [] (split p b'/'),
  rw (h, clean),
  clean_parts-IsPlain [] (split p b'/') tt (split_from-NoSlash [] p tt),
)

-- On the other side, a chain of plain elements is left as it is.
pub split_from-plain :
    (cur p s : Text)
    → NoSlash p
    → split_from b'/' cur (p ++ (slash ++ s)) ≡ (cur ++ p) ∷ split_from b'/' [] s
unfolding split_from
split_from-plain cur [] s h = rw append-nil
split_from-plain cur (c ∷ p) s (n, h) =
    ground (arith, split_from-plain (cur ++ c ∷ []) p s h, append_assoc cur (c ∷ []) p)

pub split_from-last : (cur p : Text) → NoSlash p → split_from b'/' cur p ≡ (cur ++ p) ∷ []
unfolding split_from
split_from-last cur [] h = rw append-nil
split_from-last cur (c ∷ p) (n, h) =
    ground (arith, split_from-last (cur ++ c ∷ []) p h, append_assoc cur (c ∷ []) p)

split_from-rooted :
    (p : Text) (ps : List Text)
    → NoSlash p
    → All IsPlain ps
    → split_from b'/' [] (p ++ rooted ps) ≡ p ∷ ps
split_from-rooted p [] h k = rw append-nil (split_from-last [] p h)
split_from-rooted p (q ∷ ps) h (k, ks) =
    split_from-plain [] p (q ++ rooted ps) h ∙ ap (◌∷◌ p) (split_from-rooted q ps k.3 ks)

clean_parts_plain :
    (stack parts : List Text)
    → All IsPlain parts
    → clean_parts true stack parts ≡ reverse stack ++ parts
unfolding clean_parts clean_part
clean_parts_plain stack [] h = sym (append-nil _)
clean_parts_plain stack (part ∷ parts) ((a, b, c, d), h) =
    let step : clean_part true stack part ≡ part ∷ stack =
      ground (arith, eq_iff part [], eq_iff part (text "."), eq_iff part (text "..")) in
    ap (λ s. clean_parts true s parts) step
    ∙ clean_parts_plain (part ∷ stack) parts h
    ∙ ap (λ t. t ++ parts) (reverse-cons part stack)
    ∙ append_assoc (reverse stack) (part ∷ []) parts

pub split-rooted :
    (p : Text) (ps : List Text) → All IsPlain (p ∷ ps) → split (rooted (p ∷ ps)) b'/' ≡ [] ∷ p ∷ ps
unfolding split split_from
split-rooted p ps (k, ks) = ap (◌∷◌ []) (split_from-rooted p ps k.3 ks)

clean_parts-rooted :
    (p : Text) (ps : List Text)
    → All IsPlain (p ∷ ps)
    → clean_parts true [] (split (rooted (p ∷ ps)) b'/') ≡ p ∷ ps
unfolding ◌==◌
clean_parts-rooted p ps h =
    ap (clean_parts true []) (split-rooted p ps h)
    ∙ (unfold clean_parts clean_part in clean_parts_plain [] (p ∷ ps) h)

pub clean_of_IsPlain :
    (p : Text) (ps : List Text) → All IsPlain (p ∷ ps) → clean (rooted (p ∷ ps)) ≡ rooted (p ∷ ps)
unfolding clean has_prefix
clean_of_IsPlain p ps h =
    ap (λ (qs : List Text). slash ++ join qs slash) (clean_parts-rooted p ps h)
    ∙ ap (λ (t : Text). slash ++ t) (join-rooted p ps)

-- A test for the elements of a concrete path.
unfoldable pub is_plain : Text → Bool
unfolding contains_code ◌==◌
is_plain p = not (p == [] || p == text "." || p == text ".." || contains_code p b'/')

NoSlash-of_contains : (p : Text) → contains_code p b'/' ≡ false → NoSlash p
unfolding contains_code
NoSlash-of_contains [] h = tt
NoSlash-of_contains (c ∷ p) h = ground (arith, NoSlash-of_contains p)

pub is_plain_sound : (p : Text) → is_plain p ≡ true → IsPlain p
unfolding is_plain
is_plain_sound p h =
    ground (arith, eq_iff p [], eq_iff p (text "."), eq_iff p (text ".."), NoSlash-of_contains p)

pub IsPlain-by_test : (ps : List Text) → all is_plain ps ≡ true → All IsPlain ps
IsPlain-by_test [] h = tt
IsPlain-by_test (p ∷ ps) h = ground (arith, is_plain_sound p, IsPlain-by_test ps)
