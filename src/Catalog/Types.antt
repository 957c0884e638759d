-- ===== src/Catalog/Types.antt =====
-- web/src/catalog/types.ts and web/src/enrich/types.ts: the shape of a curated game.
-- Bounds are natural numbers: the catalog has no other.
use Prim.Native.String.{String}
use rcon_ui.Base.{ℕ, Bool, true, List, Option, none, some}
use rcon_ui.Text.{Text, codes}

pub record OptionMeta : Type 0 where
  pub label : Option Text
  pub description : Option Text
  pub section : Option Text
  pub min : Option ℕ
  pub max : Option ℕ
  pub requires_restart : Option Bool
  pub options : Option (List Text)

-- `interface CatalogOption extends OptionMeta`
pub record CatalogOption : Type 0 where
  pub meta : OptionMeta
  pub open meta use *
  pub key : Text
  pub example : Text

pub record CatalogCommand : Type 0 where
  pub name : Text
  pub description : Text
  pub usage : Option Text

pub record Capabilities : Type 0 where
  pub options : Bool
  pub option_write : Bool
  pub commands : Bool

pub record GameTemplate : Type 0 where
  pub id : Text
  pub name : Text
  pub default_port : Option ℕ
  pub caveats : List Text
  pub capabilities : Capabilities
  pub write_template : Option Text
  pub options : List CatalogOption
  pub commands : List CatalogCommand

-- Literals of the catalog.
abbrev pub entry : String → String → String → String → CatalogOption
entry key example section description = record {
  meta = record {
    label = none;
    description = some (codes description);
    section = some (codes section);
    min = none;
    max = none;
    requires_restart = none;
    options = none;
  };
  key = codes key;
  example = codes example;
}

abbrev pub with_min : ℕ → CatalogOption → CatalogOption
with_min n o = record o { meta = record (o.meta) { min = some n } }

abbrev pub with_max : ℕ → CatalogOption → CatalogOption
with_max n o = record o { meta = record (o.meta) { max = some n } }

abbrev pub requiring_restart : CatalogOption → CatalogOption
requiring_restart o = record o { meta = record (o.meta) { requires_restart = some true } }

abbrev pub command : String → String → CatalogCommand
command name description = record {
  name = codes name;
  description = codes description;
  usage = none;
}

abbrev pub command_with : String → String → String → CatalogCommand
command_with name description usage = record {
  name = codes name;
  description = codes description;
  usage = some (codes usage);
}

abbrev pub game_capabilities : Bool → Bool → Bool → Capabilities
game_capabilities options option_write commands = record {
  options = options;
  option_write = option_write;
  commands = commands;
}
