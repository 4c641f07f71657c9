-- ===== src/Hostsetup/Status/Wiring.antt =====
-- internal/hostsetup: what `setup` writes for the gateway is what `status` looks for.
use openshell_driver_appleco.Prelude.{
  true, List, [], ◌∷◌, ◌++◌, some, ◌≡◌, refl, arith, Bool-cases, inl, inr,
}
use openshell_driver_appleco.Text.{Text, text, has_prefix, join}
use openshell_driver_appleco.Text.Laws.{has_prefix_append}
use openshell_driver_appleco.Text.Cut.{has_prefix_longer}
use openshell_driver_appleco.Text.Search.{contains_text}
use openshell_driver_appleco.Hostsetup.Block.{
  block_begin, block_body, ended, is_blank, remove_managed_block, upsert_managed_block,
  gateway_env_lines, shell_quote,
}
use openshell_driver_appleco.Hostsetup.Status.{healthy, wired, wiring_check}

contains_front : (m t : Text) → contains_text (m ++ t) m ≡ true
unfolding contains_text
contains_front [] [] = has_prefix_append [] []
contains_front [] (x ∷ t) = ground (arith, has_prefix_append [] (x ∷ t))
contains_front (y ∷ m) t = ground (arith, has_prefix_append (y ∷ m) t)

contains_behind : (a t m : Text) → contains_text t m ≡ true → contains_text (a ++ t) m ≡ true
unfolding contains_text
contains_behind [] t m h = h
contains_behind (x ∷ a) t m h = ground (arith, contains_behind a t m h)

contains_wider : (t b m : Text) → contains_text t m ≡ true → contains_text (t ++ b) m ≡ true
unfolding contains_text
contains_wider [] [] m h = h
contains_wider [] (y ∷ b) m h = ground (arith, has_prefix_longer [] m (y ∷ b) h)
contains_wider (x ∷ t) b m h = elim (Bool-cases (has_prefix (x ∷ t) m)) [
  | inl p ↦ ground (arith, has_prefix_longer (x ∷ t) m b p)
  | inr p ↦ ground (arith, contains_wider t b m (ground (arith, h, p)))
]

module _ (existing socket tls_dir : Text) where
  abbrev lines : List Text
  lines = gateway_env_lines socket tls_dir

  abbrev file_after : Text
  file_after = upsert_managed_block existing lines

  body_contains :
      (m : Text) → contains_text (block_body lines) m ≡ true → contains_text file_after m ≡ true
  unfolding upsert_managed_block
  body_contains m h = elim (Bool-cases (is_blank (remove_managed_block existing))) [
    | inl b ↦ rw b h
    | inr b ↦ rw b (contains_behind (ended (remove_managed_block existing)) (block_body lines) m h)
  ]

  body_begin : contains_text (block_body lines) block_begin ≡ true
  unfolding block_body
  body_begin = contains_front block_begin _

  lines_contain :
      (m : Text)
      → contains_text (join lines (10 ∷ [])) m ≡ true
      → contains_text (block_body lines) m ≡ true
  unfolding block_body
  lines_contain m h =
      contains_behind block_begin _ m
        (contains_behind (10 ∷ []) _ m (contains_wider (join lines (10 ∷ [])) _ m h))

  lines_select :
      contains_text (join lines (10 ∷ [])) (text "OPENSHELL_DRIVERS=applecontainer") ≡ true
  unfolding gateway_env_lines join
  lines_select = contains_front (text "OPENSHELL_DRIVERS=applecontainer") _

  lines_socket :
      contains_text
        (join lines (10 ∷ []))
        (text "OPENSHELL_COMPUTE_DRIVER_SOCKET=" ++ shell_quote socket)
      ≡ true
  unfolding gateway_env_lines join
  lines_socket =
      let m = text "OPENSHELL_COMPUTE_DRIVER_SOCKET=" ++ shell_quote socket in
      contains_behind (text "OPENSHELL_DRIVERS=applecontainer") _ m
        (contains_behind (10 ∷ []) _ m (contains_front m _))

  -- After setup has written the gateway's settings to its environment file, whatever was in it, and
  -- whatever characters the paths have, the report finds the gateway wired to that socket.
  pub upsert-wired :
      (path : Text)
      → wiring_check path socket
          (some (upsert_managed_block existing (gateway_env_lines socket tls_dir)))
        ≡ record { name = text "gateway wiring"; level = healthy; detail = wired path socket } ∷ []
  unfolding wiring_check
  upsert-wired path =
      rw
        (
          body_contains block_begin body_begin,
          body_contains (text "OPENSHELL_DRIVERS=applecontainer") (lines_contain _ lines_select),
          body_contains (text "OPENSHELL_COMPUTE_DRIVER_SOCKET=" ++ shell_quote socket)
              (lines_contain _ lines_socket),
        )
        refl
