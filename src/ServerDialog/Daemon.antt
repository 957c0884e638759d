-- ===== src/ServerDialog/Daemon.antt =====
-- The daemon's side of a save: `serverRequest` of internal/api/api.go, whose missing fields are the
-- zero values of Go, and `UpdateServer` of internal/store/store.go on the row of the profile. The
-- password stands in plain (Store and Api/Saved have it sealed); the clock is the argument `now`.
use rcon_ui.Base.{ℕ, Bool, true, Option, none, some, [], if◌then◌else◌, coalesce}
use rcon_ui.Text.{Text, is_empty}
use rcon_ui.Sidebar.{Server, Status}
use rcon_ui.ServerDialog.{Input}

pub record ServerRequest : Type 0 where
  pub name : Text
  pub protocol : Text
  pub addr : Text
  pub group : Text
  pub game : Text
  pub tls : Bool
  pub server_name : Text
  pub password : Option Text

-- Decoding the dialog's body, which has no field `game`.
unfoldable pub decode : Input → ServerRequest
decode i = record {
  name = i.name;
  protocol = i.protocol;
  addr = i.addr;
  group = i.group;
  game = [];
  tls = i.tls;
  server_name = i.server_name;
  password = i.password;
}

pub record Stored : Type 0 where
  pub id : Text
  pub name : Text
  pub protocol : Text
  pub addr : Text
  pub group : Text
  pub game : Text
  pub tls : Bool
  pub server_name : Text
  pub password : Text
  pub updated_at : ℕ

abbrev replace : Text → Text → Text
replace new old = if is_empty new then old else new

unfoldable pub update_server : ℕ → ServerRequest → Stored → Stored
update_server now srv existing = record existing {
  name = replace srv.name existing.name;
  addr = replace srv.addr existing.addr;
  protocol = replace srv.protocol existing.protocol;
  group = srv.group;
  game = srv.game;
  tls = srv.tls;
  server_name = srv.server_name;
  updated_at = now;
  password = coalesce srv.password existing.password;
}

-- The JSON of a profile, as the front end reads it: empty optional fields are left out.
abbrev omit_empty : Text → Option Text
omit_empty s = if is_empty s then none else some s

unfoldable pub to_server : Text → Text → Status → Stored → Server
to_server created_at updated_at status s = record {
  id = s.id;
  name = s.name;
  protocol = s.protocol;
  addr = s.addr;
  group = omit_empty s.group;
  created_at = created_at;
  updated_at = updated_at;
  status = status;
  game = omit_empty s.game;
  tls = if s.tls then some true else none;
  server_name = omit_empty s.server_name;
}
