-- ===== src/Text/Path.antt =====
-- `path.Clean`, component by component: the standard library's lexical processing of ".", ".." and
-- empty elements, which `path/filepath` shares on the systems that the driver runs on.
pub mod Rooted
pub mod Last
pub mod Under
use openshell_driver_appleco.Prelude.{
  Bool, true, false, List, [], ◌∷◌, ◌++◌, if◌then◌else◌, ◌||◌, not,
}
use openshell_driver_appleco.Text.{Text, text, ◌==◌, has_prefix, split, join}
use mathlib.Core.List.{reverse}

abbrev pub slash : Text
slash = text "/"

-- A ".." with nothing to take back is dropped in a rooted path and kept in another.
backtrack : Bool → List Text → List Text
backtrack rooted [] = if rooted then [] else text ".." ∷ []
backtrack rooted (p ∷ stack) = if p == text ".." then text ".." ∷ p ∷ stack else stack

-- One element; the stack has the last kept element at its head.
clean_part : Bool → List Text → Text → List Text
unfolding backtrack
clean_part rooted stack part =
    if part == [] || part == text "."
    then stack
    else if part == text ".."
    then backtrack rooted stack
    else part ∷ stack

clean_parts : Bool → List Text → List Text → List Text
unfolding clean_part
clean_parts rooted stack [] = reverse stack
clean_parts rooted stack (part ∷ parts) = clean_parts rooted (clean_part rooted stack part) parts

-- `path.Clean(p)`
unfoldable pub clean : Text → Text
unfolding clean_parts
clean p =
    let rooted = has_prefix p slash in
    let body = join (clean_parts rooted [] (split p b'/')) slash in
    if rooted then slash ++ body else if body == [] then text "." else body
