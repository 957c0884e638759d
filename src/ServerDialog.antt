-- ===== src/ServerDialog.antt =====
-- web/src/components/ServerDialog.tsx: the form that adds or edits a server, and what it sends.
pub mod Daemon
pub mod Save
pub mod View
pub mod Edits
use rcon_ui.Base.{
  Bool, true, false, not, ◌&&◌, ◌||◌, Option, none, some, List, [], ◌∷◌, if◌then◌else◌, coalesce,
  is_some,
}
use rcon_ui.Text.{Text, codes, is_empty}
use rcon_ui.Text.Trim.{trim}
use rcon_ui.Sidebar.{Server}

pub record Form : Type 0 where
  pub name : Text
  pub addr : Text
  pub password : Text
  pub group : Text
  pub protocol : Text
  pub tls : Bool
  pub server_name : Text
  pub advanced : Bool
  pub busy : Bool
  pub error : Option Text

-- The initial state; `Boolean(server?.tls || server?.group)` opens the advanced part.
unfoldable pub open_form : Option Server → Form
open_form none = record {
  name = [];
  addr = [];
  password = [];
  group = [];
  protocol = codes "source";
  tls = false;
  server_name = [];
  advanced = false;
  busy = false;
  error = none;
}
open_form (some s) = record {
  name = s.name;
  addr = s.addr;
  password = [];
  group = coalesce s.group [];
  protocol = s.protocol;
  tls = coalesce s.tls false;
  server_name = coalesce s.server_name [];
  advanced = coalesce s.tls false || not (is_empty (coalesce s.group []));
  busy = false;
  error = none;
}

-- The body of the request; a field that is none is not in it.
pub record Input : Type 0 where
  pub name : Text
  pub addr : Text
  pub password : Option Text
  pub group : Text
  pub protocol : Text
  pub tls : Bool
  pub server_name : Text

pub data Request : Type 0 where
  update : Text → Input → Request
  create : Input → Request

abbrev pub input : Form → Option Text → Input
input f password = record {
  name = f.name;
  addr = f.addr;
  password = password;
  group = f.group;
  protocol = f.protocol;
  tls = f.tls;
  server_name = if f.tls then f.server_name else [];
}

-- An edit sends the password only if one was typed.
unfoldable pub request : Option Server → Form → Request
request none f = create (input f (some f.password))
request (some s) f = update s.id (input f (if is_empty f.password then none else some f.password))

unfoldable pub valid : Option Server → Form → Bool
unfolding trim
valid server f =
    not (is_empty (trim f.name))
    && (not (is_empty (trim f.addr)) && (is_some server || not (is_empty f.password)))

unfoldable pub can_save : Option Server → Form → Bool
unfolding valid
can_save server f = valid server f && not f.busy

-- The callbacks of the parent that a save calls.
pub data Callback : Type 0 where
  on_saved on_close : Callback

unfoldable pub begin_save : Form → Form
begin_save f = record f { busy = true; error = none }

-- After the request: none is success, a message a failure.
unfoldable pub end_save : Option Text → Form → Form × List Callback
end_save none f = (record f { busy = false }, on_saved ∷ on_close ∷ [])
end_save (some message) f = (record f { busy = false; error = some message }, [])
