-- ===== src/Config.antt =====
-- internal/config/config.go: the settings by their sources, and whether an address is the machine's own.
pub mod Loopback
use rcon_ui.Base.{Bool, false, ◌||◌, Option, none, some, [], if◌then◌else◌}
use rcon_ui.Text.{Text, codes, is_empty, ◌===◌}
use rcon_ui.Probe.Zomboid.{last_colon}
use rcon_ui.Probe.Filter.{is_int}

pub record Config : Type 0 where
  pub addr : Text
  pub data_dir : Text
  pub token : Text
  pub log_level : Text

-- `dir` is what `defaultDataDir` finds.
abbrev pub default_config : Text → Config
default_config dir = record {
  addr = codes "127.0.0.1:8477";
  data_dir = dir;
  token = [];
  log_level = codes "info";
}

-- The file: not there; read, with what its JSON makes of the defaults; or an error.
pub data ConfigFile : Type 0 where
  no_file : ConfigFile
  parsed : (Config → Config) → ConfigFile
  unusable : Text → ConfigFile

-- The variables of the environment, empty where they are not set.
pub record Environment : Type 0 where
  pub addr : Text
  pub data_dir : Text
  pub token : Text
  pub log_level : Text

abbrev pub override : Text → Text → Text
override v old = if is_empty v then old else v

abbrev pub with_environment : Environment → Config → Config
with_environment env c = record {
  addr = override env.addr c.addr;
  data_dir = override env.data_dir c.data_dir;
  token = override env.token c.token;
  log_level = override env.log_level c.log_level;
}

-- None where the daemon refuses to start.
unfoldable pub load : Text → ConfigFile → Environment → Option Config
load dir no_file env = some (with_environment env (default_config dir))
load dir (parsed overlay) env = some (with_environment env (overlay (default_config dir)))
load dir (unusable message) env = none

abbrev pub with_port : Option (Text × Text) → Option (Text × Text)
with_port none = none
with_port (some (host, port)) = if is_int port then some (host, port) else none

-- The host and the port, at the last colon.
abbrev pub split_host_port : Text → Option (Text × Text)
split_host_port addr = with_port (last_colon addr)

unfoldable pub is_own_host : Text → Bool
unfolding ◌===◌
is_own_host host =
    (host === codes "127.0.0.1")
    || ((host === codes "localhost") || ((host === codes "::1") || (host === codes "[::1]")))

abbrev pub own : Option (Text × Text) → Bool
own none = false
own (some (host, port)) = is_own_host host

unfoldable pub is_loopback : Text → Bool
unfolding is_own_host
is_loopback addr = own (split_host_port addr)
