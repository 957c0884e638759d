-- ===== src/Probe/Minecraft.antt =====
-- internal/discovery/minecraft.go: the answers of a Minecraft server, and the help of an unknown one.
use rcon_ui.Base.{
  ℕ, Bool, ◌||◌, Option, none, some, List, [], ◌∷◌, ◌++◌, map, ltb, ◌==◌, if◌then◌else◌, coalesce,
  is_some, length, ◌>>=◌, any,
}
use rcon_ui.Text.{Text, codes}
use rcon_ui.Text.TextSet.{of_list}
use rcon_ui.Text.Decimal.{is_digit}
use rcon_ui.Discovery.{DiscoveredOption, DiscoveredCommand}
use rcon_ui.Probe.White.{trim_space}
use rcon_ui.Probe.Pattern.{
  skip_blanks, some_blanks, solid_run, take_run, after_fold, is_letter, lines, gather, push,
}
use rcon_ui.Probe.Zomboid.{typed_option}

-- `minecraftWriteTemplate`
abbrev pub minecraft_write_template : Text
minecraft_write_template = codes "gamerule {key} {value}"

abbrev pub gamerules : List Text
gamerules =
    codes "announceAdvancements"
    ∷ codes "commandBlockOutput"
    ∷ codes "commandModificationBlockLimit"
    ∷ codes "disableElytraMovementCheck"
    ∷ codes "disableRaids"
    ∷ codes "doDaylightCycle"
    ∷ codes "doEntityDrops"
    ∷ codes "doFireTick"
    ∷ codes "doImmediateRespawn"
    ∷ codes "doInsomnia"
    ∷ codes "doLimitedCrafting"
    ∷ codes "doMobLoot"
    ∷ codes "doMobSpawning"
    ∷ codes "doPatrolSpawning"
    ∷ codes "doTileDrops"
    ∷ codes "doTraderSpawning"
    ∷ codes "doVinesSpread"
    ∷ codes "doWardenSpawning"
    ∷ codes "doWeatherCycle"
    ∷ codes "drowningDamage"
    ∷ codes "enderPearlsVanishOnDeath"
    ∷ codes "fallDamage"
    ∷ codes "fireDamage"
    ∷ codes "forgiveDeadPlayers"
    ∷ codes "freezeDamage"
    ∷ codes "globalSoundEvents"
    ∷ codes "keepInventory"
    ∷ codes "lavaSourceConversion"
    ∷ codes "logAdminCommands"
    ∷ codes "maxCommandChainLength"
    ∷ codes "maxCommandForkCount"
    ∷ codes "maxEntityCramming"
    ∷ codes "mobExplosionDropDecay"
    ∷ codes "mobGriefing"
    ∷ codes "naturalRegeneration"
    ∷ codes "playersNetherPortalCreativeDelay"
    ∷ codes "playersNetherPortalDefaultDelay"
    ∷ codes "playersSleepingPercentage"
    ∷ codes "projectilesCanBreakBlocks"
    ∷ codes "randomTickSpeed"
    ∷ codes "reducedDebugInfo"
    ∷ codes "sendCommandFeedback"
    ∷ codes "showDeathMessages"
    ∷ codes "snowAccumulationHeight"
    ∷ codes "spawnChunkRadius"
    ∷ codes "spawnRadius"
    ∷ codes "spectatorsGenerateChunks"
    ∷ codes "tntExplosionDropDecay"
    ∷ codes "universalAnger"
    ∷ codes "waterSourceConversion"
    ∷ []

-- The rest of the text, when it is not empty and one line.
abbrev pub one_line : Text → Option Text
one_line [] = none
one_line (c ∷ s) = if any (λ d. d == b'\n') (c ∷ s) then none else some (c ∷ s)

-- `:?\s*(.+)$` where no blank ends the text: a last colon is the value itself.
abbrev pub after_colon : Text → Option Text
after_colon [] = some (codes ":")
after_colon (c ∷ s) = one_line (c ∷ s)

unfoldable pub rule_value : Text → Option Text
unfolding skip_blanks
rule_value [] = none
rule_value (c ∷ s) =
    if c == b':' then after_colon (skip_blanks s) else one_line (skip_blanks (c ∷ s))

-- `(?:currently\s+)?`
unfoldable pub skip_currently : Text → Text
unfolding after_fold
skip_currently s = elim (after_fold (codes "currently") s) [
  | none ↦ s
  | some rest ↦ coalesce (some_blanks rest) s
]

-- What stands after `gamerule`.
unfoldable pub rule_answer : Text → Option Text
unfolding after_fold solid_run
rule_answer s = do
  name ← some_blanks s
  verb ← some_blanks (solid_run name).1
  after ← after_fold (codes "is") verb
  state ← some_blanks after
  value ← after_fold (codes "set to") (skip_currently state)
  rule_value value

-- `minecraftGamerule` at the first place where it matches a trimmed text: the value.
unfoldable pub gamerule_value : Text → Option Text
unfolding after_fold
gamerule_value [] = none
gamerule_value (c ∷ s) =
    let later = gamerule_value s in
    elim (after_fold (codes "gamerule") (c ∷ s)) [
      | none ↦ later
      | some rest ↦ elim (rule_answer rest) [ none ↦ later | some value ↦ some value ]
    ]

unfoldable pub looks_like_minecraft_gamerule : Text → Bool
unfolding gamerule_value trim_space
looks_like_minecraft_gamerule reply = is_some (gamerule_value (trim_space reply))

abbrev pub query : Text → Text
query rule = codes "gamerule " ++ rule

abbrev pub typed_rule : (Text → Bool) → Text → Option Text → Option DiscoveredOption
typed_rule is_float rule none = none
typed_rule is_float rule (some value) = some (typed_option is_float rule value)

-- A rule that the server does not know, or whose answer says nothing, is left out.
unfoldable pub read_rule : (Text → Bool) → Text → Option Text → Option DiscoveredOption
unfolding gamerule_value trim_space typed_option
read_rule is_float rule none = none
read_rule is_float rule (some reply) = typed_rule is_float rule (gamerule_value (trim_space reply))

-- The sweep over the rules, each asked with the connection as the one before left it.
unfoldable pub sweep :
    {W : Type 0}
    → (Text → Bool)
    → (Text → W → Option Text × W)
    → List Text
    → W
    → List DiscoveredOption × W
sweep is_float exec [] w = ([], w)
sweep is_float exec (rule ∷ rules) w =
    let (reply, w1) = exec (query rule) w in
    let (os, w2) = sweep is_float exec rules w1 in (push (read_rule is_float rule reply) os, w2)

unfoldable pub discover_gamerules :
    {W : Type 0} → (Text → Bool) → (Text → W → Option Text × W) → W → List DiscoveredOption × W
unfolding sweep
discover_gamerules is_float exec w = sweep is_float exec gamerules w

abbrev pub is_name_code : ℕ → Bool
is_name_code c = is_letter c || (is_digit c || ((c == b'_') || (c == b'-')))

-- `minecraftHelpCommand` at the start of a line.
unfoldable pub slash_letter : Text → Option Text
unfolding take_run
slash_letter [] = none
slash_letter (c ∷ s) = if is_letter c then some (c ∷ (take_run is_name_code s).0) else none

abbrev pub slash_name : Text → Option Text
slash_name [] = none
slash_name (c ∷ s) = if c == b'/' then slash_letter s else none

-- `minGenericCommands`
abbrev pub min_generic_commands : ℕ
min_generic_commands = 3

abbrev pub name_only : Text → DiscoveredCommand
name_only name = record { name = name; description = []; usage = [] }

-- `seen` and `out` go together: each name once, in the order of its first place.
unfoldable pub parse_generic_help : Text → List DiscoveredCommand
unfolding gather of_list
parse_generic_help reply =
    let out = of_list (gather slash_name (lines reply)) in
    if ltb (length out) min_generic_commands then [] else map name_only out
