-- ===== src/Tests/Probe.antt =====
-- Discovery of small servers.
use rcon_ui.Probe.Pattern.{is_letter}
use rcon_ui.Probe.White.{is_white, drop_last_white}
use rcon_ui.Base.{
  ℕ, ◌+◌, ◌≡◌, refl, Bool, true, Option, none, some, [], ◌∷◌, map, ◌==◌, if◌then◌else◌, length, any,
  all,
}
use rcon_ui.Text.{Text, codes, ◌===◌}
use rcon_ui.Discovery.{boolean, integer}
use rcon_ui.Probe.Zomboid.{parse_zomboid_options, parse_zomboid_help}
use rcon_ui.Probe.Minecraft.{gamerule_value, parse_generic_help, min_generic_commands, gamerules}
use rcon_ui.Probe.Discover.{discover}
use rcon_ui.Probe.Consistent.{IsConsistent, discover-IsConsistent}
use rcon_ui.Probe.Sent.{record_sent, IsRun, sent_lem}
use rcon_ui.Probe.Dump.{setting_option, dump_text, parse_zomboid_options-dump_text}

abbrev is_float : Text → Bool
is_float v = any (λ c. c == b'.') v

-- It answers `showoptions`, and counts what it is asked.
abbrev zomboid_server : Text → ℕ → Option Text × ℕ
unfolding ◌===◌
zomboid_server cmd n =
    if cmd === codes "showoptions"
    then (some (codes "* PVP=true\n* Password=hunter2"), n + 1)
    else (none, n + 1)

discover-IsConsistent_example : IsConsistent (discover is_float (codes "12:00") zomboid_server 0).0
discover-IsConsistent_example = discover-IsConsistent is_float (codes "12:00") zomboid_server 0

sent_lem_example :
    IsRun (discover is_float (codes "12:00") (record_sent zomboid_server) (0, []))
    × (all (all is_letter) gamerules ≡ true)
sent_lem_example = sent_lem is_float (codes "12:00") zomboid_server 0

abbrev help_text : Text
help_text = codes "/ban <name>\n/kick <name>\n/ban again\n/list"

parse_zomboid_options-dump_text_example :
    parse_zomboid_options is_float
      (dump_text (codes "PVP", codes "true") ((codes "Map", codes "Go, KY") ∷ []))
    ≡ map
        (setting_option is_float)
        ((codes "PVP", codes "true") ∷ (codes "Map", codes "Go, KY") ∷ [])
unfolding is_white drop_last_white
parse_zomboid_options-dump_text_example =
    parse_zomboid_options-dump_text is_float (codes "PVP", codes "true")
      ((codes "Map", codes "Go, KY") ∷ [])
      (
        ((refl, (refl, (refl, tt))), (refl, refl, (refl, (refl, (refl, (refl, tt)))))),
        (
          (
            (refl, (refl, (refl, tt))),
            (refl, refl, (refl, (refl, (refl, (refl, (refl, (refl, tt))))))),
          ),
          tt,
        ),
      )

-- The sweep asks for fifty rules.
gamerules_test : length gamerules ≡ 50
gamerules_test = refl

options_test :
    parse_zomboid_options is_float
      (codes "List of Server Options:\r\n  MaxPlayers = 32\nbad line\n\n* PVP=True ")
    ≡ (record { key = codes "MaxPlayers"; value = codes "32"; type = integer }
        ∷ record { key = codes "PVP"; value = codes "True"; type = boolean }
        ∷ [])
unfolding parse_zomboid_options rcon_ui.Probe.Pattern.lines rcon_ui.Probe.Zomboid.read_option
    rcon_ui.Probe.Zomboid.key_value rcon_ui.Probe.White.drop_white
    rcon_ui.Probe.Zomboid.option_value
options_test = refl

help_test :
    parse_zomboid_help
      (codes "List:\n* additem : Give an item. Use: /additem \"u\" 5  Example: /additem\n* a:b: c ")
    ≡ (record {
      name = codes "additem";
      description = codes "Give an item.";
      usage = codes "/additem \"u\" 5";
    }
        ∷ record { name = codes "a:b"; description = codes "c"; usage = [] }
        ∷ [])
unfolding parse_zomboid_help rcon_ui.Probe.Pattern.lines rcon_ui.Probe.Zomboid.read_command
    rcon_ui.Probe.White.drop_white rcon_ui.Probe.Zomboid.help_name rcon_ui.Probe.Zomboid.named
    rcon_ui.Probe.Zomboid.move_usage rcon_ui.Probe.Zomboid.name_in rcon_ui.Probe.Zomboid.cut_use
    rcon_ui.Probe.Zomboid.starts_example rcon_ui.Probe.Pattern.some_blanks
    rcon_ui.Probe.Zomboid.help_line
help_test = refl

rule_test :
    gamerule_value (codes "Gamerule randomTickSpeed is currently set to: 3") ≡ some (codes "3")
unfolding gamerule_value rcon_ui.Probe.Minecraft.rule_answer rcon_ui.Probe.Pattern.some_blanks
    rcon_ui.Probe.Minecraft.skip_currently rcon_ui.Probe.Minecraft.rule_value
rule_test = refl

no_rule_test : gamerule_value (codes "gamerule x is on") ≡ none
unfolding gamerule_value rcon_ui.Probe.Minecraft.rule_answer rcon_ui.Probe.Pattern.some_blanks
    rcon_ui.Probe.Minecraft.skip_currently
no_rule_test = refl
