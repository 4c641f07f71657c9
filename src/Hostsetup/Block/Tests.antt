-- ===== src/Hostsetup/Block/Tests.antt =====
-- The managed block in a file with another setting, with and without an end marker.
use openshell_driver_appleco.Prelude.{List, [], ◌∷◌, ◌++◌, none, some, ◌≡◌, refl, if◌then◌else◌}
use openshell_driver_appleco.Text.{
  Text, text, ◌==◌, has_prefix, has_suffix, trim_left, trim_right, trim_space, join,
}
use openshell_driver_appleco.Text.Cut.{cut}
use openshell_driver_appleco.Hostsetup.Block.{
  block_begin, block_end, is_blank, remove_managed_block, block_body, ended, upsert_managed_block,
  gateway_env_lines, shell_quote,
}
use openshell_driver_appleco.Hostsetup.Block.Clean.{remove_managed_block-clean}
use openshell_driver_appleco.Hostsetup.Block.Quote.{word, outside, shell_quote-word}
use openshell_driver_appleco.Hostsetup.Block.Rewrite.{remove-upsert}

abbrev lines : List Text
lines = text "OPENSHELL_DRIVERS=applecontainer" ∷ text "K='v'" ∷ []

abbrev other : Text
other = text "A=1"

abbrev damaged : Text
damaged = text "A=1\r\n# >>> openshell-driver-applecontainer setup >>>\nB=2"

upsert_test : upsert_managed_block other lines ≡ text "A=1\n" ++ block_body lines
unfolding upsert_managed_block cut has_prefix has_suffix trim_left trim_right trim_space ◌==◌
    block_begin
upsert_test = refl

damaged_test : remove_managed_block damaged ≡ text "A=1\n"
unfolding remove_managed_block cut has_prefix trim_right block_begin block_end
damaged_test = refl

crlf_test :
    remove_managed_block (block_begin ++ text "\r\nA\r\n" ++ block_end ++ text "\r\nB") ≡ text "B"
unfolding remove_managed_block cut has_prefix trim_left trim_right trim_space ◌==◌ block_begin
    block_end
crlf_test = refl

quote_test :
    gateway_env_lines (text "/o'b/d.sock") []
    ≡ text "OPENSHELL_DRIVERS=applecontainer"
      ∷ text "OPENSHELL_COMPUTE_DRIVER_SOCKET='/o'\\''b/d.sock'"
      ∷ text "OPENSHELL_BIND_ADDRESS=0.0.0.0"
      ∷ text "OPENSHELL_ENABLE_MTLS_AUTH=true"
      ∷ text "OPENSHELL_LOCAL_TLS_DIR=''"
      ∷ []
unfolding gateway_env_lines
quote_test = refl

intact : cut (join lines (10 ∷ [])) block_end ≡ none
unfolding cut has_prefix join block_end
intact = refl

remove_managed_block-clean_example : cut (remove_managed_block damaged) block_begin ≡ none
remove_managed_block-clean_example = remove_managed_block-clean damaged

remove-upsert_example :
    remove_managed_block (upsert_managed_block other lines)
    ≡ (if is_blank (remove_managed_block other) then [] else ended (remove_managed_block other))
remove-upsert_example = remove-upsert lines intact other

shell_quote-word_example :
    word outside (shell_quote (text "/o'b/d.sock")) ≡ some (text "/o'b/d.sock")
shell_quote-word_example = shell_quote-word (text "/o'b/d.sock")
