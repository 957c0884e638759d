-- ===== src/Discovery.antt =====
-- The discovery report of web/src/api.ts: what the daemon found out about a server.
use rcon_ui.Base.{List}
use rcon_ui.Text.{Text}
use rcon_ui.Catalog.Types.{Capabilities}

pub record DiscoveredCommand : Type 0 where
  pub name : Text
  pub description : Text
  pub usage : Text

pub data OptionType : Type 0 where
  boolean integer number string : OptionType

pub record DiscoveredOption : Type 0 where
  pub key : Text
  pub value : Text
  pub type : OptionType

-- The fingerprint is a string of the daemon's, whatever the declared union of three says.
pub record DiscoveryReport : Type 0 where
  pub fingerprint : Text
  pub label : Text
  pub at : Text
  pub capabilities : Capabilities
  pub write_template : Text
  pub commands : List DiscoveredCommand
  pub options : List DiscoveredOption
