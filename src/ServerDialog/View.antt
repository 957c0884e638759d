-- ===== src/ServerDialog/View.antt =====
-- web/src/components/ServerDialog.tsx: the fields of the dialog, what it shows but for their hints, and
-- how it is left.
use rcon_ui.Base.{Bool, not, Option, none, some, List, [], ◌∷◌, ◌++◌, if◌then◌else◌, is_some}
use rcon_ui.Text.{◌===◌, Text, codes, is_empty}
use rcon_ui.Sidebar.{Server}
use rcon_ui.ServerDialog.{Form, can_save, Callback, on_close}

pub data FieldEvent : Type 0 where
  type_name type_addr type_password type_group type_server_name choose_protocol : Text → FieldEvent
  check_tls : Bool → FieldEvent
  toggle_advanced : FieldEvent

unfoldable pub on_field : FieldEvent → Form → Form
on_field (type_name t) f = record f { name = t }
on_field (type_addr t) f = record f { addr = t }
on_field (type_password t) f = record f { password = t }
on_field (type_group t) f = record f { group = t }
on_field (type_server_name t) f = record f { server_name = t }
on_field (choose_protocol t) f = record f { protocol = t }
on_field (check_tls b) f = record f { tls = b }
on_field toggle_advanced f = record f { advanced = not f.advanced }

-- The part behind "Advanced"; the TLS name is a field only with TLS.
pub record AdvancedView : Type 0 where
  pub group : Text
  pub protocol : Text
  pub protocols : List Text
  pub tls : Bool
  pub server_name : Option Text

pub record DialogView : Type 0 where
  pub title : Text
  pub name : Text
  pub addr : Text
  pub password_label : Text
  pub password : Text
  pub toggle_label : Text
  pub advanced : Option AdvancedView
  pub error : Option Text
  pub save_label : Text
  pub save_enabled : Bool

-- `error && …`
abbrev pub shown_failure : Option Text → Option Text
shown_failure none = none
shown_failure (some message) = if is_empty message then none else some message

abbrev pub advanced_view : List Text → Form → AdvancedView
advanced_view protocols f = record {
  group = f.group;
  protocol = f.protocol;
  protocols = protocols;
  tls = f.tls;
  server_name = if f.tls then some f.server_name else none;
}

unfoldable pub dialog_view : Option Server → List Text → Form → DialogView
unfolding can_save
dialog_view server protocols f = record {
  title = if is_some server then codes "Edit server" else codes "Add server";
  name = f.name;
  addr = f.addr;
  password_label =
      if is_some server then codes "Password (leave blank to keep)" else codes "RCON password";
  password = f.password;
  toggle_label = (if f.advanced then codes "Hide" else codes "Show") ++ codes " advanced";
  advanced = if f.advanced then some (advanced_view protocols f) else none;
  error = shown_failure f.error;
  save_label = if f.busy then codes "Saving…" else codes "Save";
  save_enabled = can_save server f;
}

-- The ways to leave without saving; all other keys and clicks inside do nothing.
pub data Leave : Type 0 where
  presses_key : Text → Leave
  clicks_cancel clicks_beside clicks_inside : Leave

unfoldable pub leave : Leave → List Callback
unfolding ◌===◌
leave (presses_key key) = if key === codes "Escape" then on_close ∷ [] else []
leave clicks_cancel = on_close ∷ []
leave clicks_beside = on_close ∷ []
leave clicks_inside = []
