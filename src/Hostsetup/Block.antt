-- ===== src/Hostsetup/Block.antt =====
-- internal/hostsetup/hostsetup.go: the managed block in the gateway's environment file.
mod Clean
mod Quote
mod Rewrite
mod Tests
use openshell_driver_appleco.Prelude.{
  ℕ, zero, suc, Bool, List, [], ◌∷◌, ◌++◌, Option, none, some, eqb, length, ◌||◌, if◌then◌else◌,
}
use openshell_driver_appleco.Text.{
  Text, text, ◌==◌, has_suffix, trim_right, trim_space, join, contains_code,
}
use openshell_driver_appleco.Text.Cut.{cut}

unfoldable pub block_begin : Text
block_begin = text "# >>> openshell-driver-applecontainer setup >>>"

unfoldable pub block_end : Text
block_end = text "# <<< openshell-driver-applecontainer setup <<<"

-- `strings.TrimPrefix(s, c)` for one code point.
unfoldable pub trim_code : ℕ → Text → Text
trim_code c [] = []
trim_code c (x ∷ s) = if eqb x c then s else x ∷ s

-- The characters of "\r\n".
unfoldable pub is_line_end : ℕ → Bool
is_line_end c = eqb c 13 || eqb c 10

unfoldable pub is_blank : Text → Bool
is_blank s = trim_space s == []

-- One round of the loop, behind the first marker: the result, or the text of the next round.
pub data Round : Type 0 where
  finished again : Text → Round

unfoldable pub after_begin : Text → Option (Text × Text) → Round
unfolding is_line_end trim_code is_blank
after_begin head none = finished (trim_right is_line_end head ++ 10 ∷ [])
after_begin head (some (_, rest)) =
    let rest' = trim_code 10 (trim_code 13 rest) in
    again (if is_blank head then rest' else head ++ rest')

unfoldable pub round : Text → Option (Text × Text) → Round
unfolding after_begin
round s none = finished s
round s (some (head, rest)) = after_begin head (cut (block_begin ++ rest) block_end)

-- The loop, each round of which is on a shorter text: its length bounds the number of rounds.
unfoldable pub rounds : ℕ → Text → Text
unfolding round
rounds zero s = s
rounds (suc bound) s = elim (round s (cut s block_begin)) [
  | finished t ↦ t
  | again t ↦ rounds bound t
]

unfoldable pub remove_managed_block : Text → Text
unfolding rounds
remove_managed_block existing = rounds (suc (length existing)) existing

unfoldable pub block_body : List Text → Text
block_body lines = block_begin ++ 10 ∷ (join lines (10 ∷ []) ++ 10 ∷ (block_end ++ 10 ∷ []))

unfoldable pub ended : Text → Text
ended s = if has_suffix s (10 ∷ []) then s else s ++ 10 ∷ []

unfoldable pub upsert_managed_block : Text → List Text → Text
unfolding remove_managed_block block_body ended is_blank
upsert_managed_block existing lines =
    let stripped = remove_managed_block existing in
    if is_blank stripped then block_body lines else ended stripped ++ block_body lines

-- `strings.ReplaceAll(s, "'", `'\''`)` between single quotes.
unfoldable pub quoted : Text → Text
quoted [] = []
quoted (x ∷ s) = if eqb x b'\'' then text "'\\''" ++ quoted s else x ∷ quoted s

unfoldable pub shell_quote : Text → Text
unfolding quoted
shell_quote s = b'\'' ∷ (quoted s ++ b'\'' ∷ [])

unfoldable pub gateway_env_lines : Text → Text → List Text
unfolding shell_quote
gateway_env_lines socket tls_dir =
    text "OPENSHELL_DRIVERS=applecontainer"
    ∷ (text "OPENSHELL_COMPUTE_DRIVER_SOCKET=" ++ shell_quote socket)
    ∷ text "OPENSHELL_BIND_ADDRESS=0.0.0.0"
    ∷ text "OPENSHELL_ENABLE_MTLS_AUTH=true"
    ∷ (text "OPENSHELL_LOCAL_TLS_DIR=" ++ shell_quote tls_dir)
    ∷ []
