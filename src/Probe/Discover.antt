-- ===== src/Probe/Discover.antt =====
-- internal/discovery/discovery.go and report.go: a discovery run.
use rcon_ui.Base.{Bool, true, false, not, Option, none, some, List, [], if◌then◌else◌}
use rcon_ui.Text.{Text, codes}
use rcon_ui.Discovery.{DiscoveredOption, DiscoveredCommand, DiscoveryReport}
use rcon_ui.Probe.Filter.{filter_credentials}
use rcon_ui.Probe.Zomboid.{
  zomboid_write_template, parse_zomboid_options, looks_like_zomboid_options, parse_zomboid_help,
  is_nil,
}
use rcon_ui.Probe.Minecraft.{
  minecraft_write_template, query, looks_like_minecraft_gamerule, discover_gamerules,
  parse_generic_help,
}

-- The values of a fingerprint.
pub data Fingerprint : Type 0 where
  zomboid minecraft unknown : Fingerprint

abbrev pub fingerprint_name : Fingerprint → Text
fingerprint_name zomboid = codes "zomboid"
fingerprint_name minecraft = codes "minecraft"
fingerprint_name unknown = codes "unknown"

abbrev pub label_for : Fingerprint → Text
label_for zomboid = codes "Project Zomboid"
label_for minecraft = codes "Minecraft"
label_for unknown = codes "Unidentified"

abbrev pub template_for : Fingerprint → Text
template_for zomboid = zomboid_write_template
template_for minecraft = minecraft_write_template
template_for unknown = []

abbrev pub is_known : Fingerprint → Bool
is_known unknown = false
is_known _ = true

-- The commands of the answer to `help`, when there is one.
unfoldable pub read_help : Fingerprint → Option Text → List DiscoveredCommand
unfolding parse_zomboid_help parse_generic_help
read_help f none = []
read_help zomboid (some reply) = parse_zomboid_help reply
read_help minecraft (some reply) = parse_generic_help reply
read_help unknown (some reply) = parse_generic_help reply

unfoldable pub make_report :
    Text → Fingerprint → List DiscoveredOption → List DiscoveredCommand → DiscoveryReport
unfolding filter_credentials
make_report at f options commands = record {
  fingerprint = fingerprint_name f;
  label = label_for f;
  at = at;
  capabilities = record {
    options = is_known f;
    option_write = is_known f;
    commands = not (is_nil commands);
  };
  write_template = template_for f;
  commands = commands;
  options = filter_credentials options;
}

-- An answer that a dialect recognises; an error is none.
abbrev pub recognised : (Text → Bool) → Option Text → Bool
recognised looks none = false
recognised looks (some reply) = looks reply

unfoldable pub options_of : (Text → Bool) → Option Text → List DiscoveredOption
unfolding parse_zomboid_options
options_of is_float none = []
options_of is_float (some reply) = parse_zomboid_options is_float reply

-- `exec` runs a command on the connection as it stands, within the run's budget; `at` is the time.
module _ {W : Type 0} (is_float : Text → Bool) (at : Text) (exec : Text → W → Option Text × W) where
  -- The end of a run: the commands, and the report.
  abbrev pub finish : Fingerprint → List DiscoveredOption → W → DiscoveryReport × W
  finish f options w =
      let (help, w1) = exec (codes "help") w in (make_report at f options (read_help f help), w1)

  -- The second and the third branch.
  unfoldable pub probe_gamerule : W → DiscoveryReport × W
  unfolding looks_like_minecraft_gamerule discover_gamerules
  probe_gamerule w =
      let (answer, w1) = exec (query (codes "randomTickSpeed")) w in
      let (options, w2) = discover_gamerules is_float exec w1 in
      if recognised looks_like_minecraft_gamerule answer
      then finish minecraft options w2
      else finish unknown [] w1

  unfoldable pub discover : W → DiscoveryReport × W
  unfolding looks_like_zomboid_options
  discover w =
      let (dump, w1) = exec (codes "showoptions") w in
      if recognised (looks_like_zomboid_options is_float) dump
      then finish zomboid (options_of is_float dump) w1
      else probe_gamerule w1
