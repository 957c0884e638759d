-- ===== src/Tests.antt =====
-- Concrete inputs of the development: a report, events, servers, and the functions that stand for
-- code of the engine and of the daemon.
pub mod Settings
pub mod Stream
pub mod Catalog
pub mod Panels
pub mod Input
pub mod App
pub mod Rcon
pub mod Hub
pub mod Api
pub mod Rows
pub mod Session
pub mod Probe
pub mod Served
pub mod Store
use rcon_ui.Base.{
  ℕ, ◌+◌, ◌≡◌, ◌≢◌, Bool, true, false, not, ◌&&◌, List, [], ◌∷◌, arith, leb, ◌==◌, if◌then◌else◌,
}
use rcon_ui.Text.{===_iff, ◌===◌, Without, Text, codes}
use rcon_ui.Discovery.{boolean, integer, DiscoveredCommand, DiscoveredOption, DiscoveryReport}
use rcon_ui.Events.{RconEvent, response}

-- The lower case of the ASCII letters.
abbrev pub ascii_lower : Text → Text
ascii_lower [] = []
ascii_lower (c ∷ s) =
    let rest = ascii_lower s in (if leb b'A' c && leb c b'Z' then c + 32 else c) ∷ rest

-- An encoding that writes every code unit as a percent sign and the unit.
abbrev pub encode : Text → Text
encode [] = []
encode (c ∷ s) =
    let rest = encode s in if leb b'a' c && leb c b'z' then c ∷ rest else b'%' ∷ ((64 + c) ∷ rest)

abbrev pub pvp : DiscoveredOption
pvp = record { key = codes "PVP"; value = codes "true"; type = boolean }

abbrev pub max_players : DiscoveredOption
max_players = record { key = codes "MaxPlayers"; value = codes "16"; type = integer }

abbrev pub players : DiscoveredCommand
players = record { name = codes "players"; description = codes "List the players"; usage = [] }

abbrev pub kick : DiscoveredCommand
kick = record { name = codes "kick"; description = codes "Kick a player"; usage = codes "<name>" }

abbrev pub report : DiscoveryReport
report = record {
  fingerprint = codes "zomboid";
  label = codes "Project Zomboid";
  at = codes "2024-01-01";
  capabilities = record { options = true; option_write = true; commands = true };
  write_template = codes "changeoption {key} \"{value}\"";
  commands = players ∷ kick ∷ [];
  options = pvp ∷ max_players ∷ [];
}

-- An event of a number, with a line of the server's.
abbrev pub event : ℕ → RconEvent
event n = record {
  seq = n;
  profile_id = codes "p1";
  source = codes "rcon";
  stream = response;
  line = codes "ok";
  at = [];
}

abbrev pub lacks : ℕ → Text → Bool
lacks c [] = true
lacks c (d ∷ s) = not (d == c) && lacks c s

-- A code unit that a test does not find in a text is not in it.
pub Without-of_lacks : (c : ℕ) (s : Text) → lacks c s ≡ true → Without c s
Without-of_lacks c [] h = tt
Without-of_lacks c (d ∷ s) h = (ground arith, Without-of_lacks c s (ground arith))

-- Texts that the test tells apart are different.
pub differ : (s t : Text) → (s === t) ≡ false → s ≢ t
differ s t h e = let same = (===_iff s t).1 e in cc
