-- ===== src/Probe/Generic.antt =====
-- The help of a server of no known game.
use rcon_ui.Base.{
  ◌≤◌, ◌≡◌, refl, ap, ◌∙◌, ◌⊎◌, inl, inr, true, List, [], ◌∷◌, map, arith, ltb, Bool-cases, length,
  length-map,
}
use rcon_ui.Text.{Text}
use rcon_ui.Text.ObjectKeys.{contains}
use rcon_ui.Text.TextSet.{of_list, unique, unique-of_list, contains-of_list}
use rcon_ui.Discovery.{DiscoveredCommand}
use rcon_ui.Probe.Pattern.{gather, lines}
use rcon_ui.Probe.Minecraft.{slash_name, name_only, parse_generic_help, min_generic_commands}

abbrev pub names : List DiscoveredCommand → List Text
names cs = map (λ (c : DiscoveredCommand). c.name) cs

abbrev pub slash_names : Text → List Text
slash_names reply = gather slash_name (lines reply)

names_only : (xs : List Text) → names (map name_only xs) ≡ xs
names_only [] = refl
names_only (x ∷ xs) = ap (x ∷◌) (names_only xs)

-- The commands of a help text of no known game have different names. Either there are none, or there
-- are three at least and they are the names after a slash at the start of a line.
pub parse_generic_help_lem :
    (reply : Text)
    → let cs = parse_generic_help reply in
      (unique (names cs) ≡ true)
      × ((cs ≡ [])
          ⊎ ((min_generic_commands ≤ length cs)
              × ((x : Text) → contains x (names cs) ≡ contains x (slash_names reply))))
unfolding parse_generic_help
parse_generic_help_lem reply =
    let out = of_list (slash_names reply) in
    elim (Bool-cases (ltb (length out) min_generic_commands)) [
      | inl e ↦ rw e (refl, inl refl)
      | inr e ↦ rw e (
        ap unique (names_only out) ∙ unique-of_list (slash_names reply),
        inr (
          ground (arith, length-map name_only out),
          λ x. ap (contains x) (names_only out) ∙ contains-of_list x (slash_names reply),
        ),
      )
    ]
