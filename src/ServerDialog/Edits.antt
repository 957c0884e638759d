-- ===== src/ServerDialog/Edits.antt =====
-- What is left of a series of edits of the form.
use rcon_ui.Base.{
  ◌≡◌, refl, ap, Bool, false, not, Option, none, some, List, [], ◌∷◌, if◌then◌else◌, coalesce,
}
use rcon_ui.Text.{Text, is_empty}
use rcon_ui.Sidebar.{Server}
use rcon_ui.ServerDialog.{Form, open_form, update, request}
use rcon_ui.ServerDialog.View.{
  FieldEvent, type_name, type_addr, type_password, type_group, type_server_name, choose_protocol,
  check_tls, toggle_advanced, on_field,
}

unfoldable pub edit_all : List FieldEvent → Form → Form
unfolding on_field
edit_all [] f = f
edit_all (e ∷ es) f = edit_all es (on_field e f)

-- The last value that the events give, or the first one.
abbrev pub last_of {ℓ} : {A : Type ℓ} → (FieldEvent → Option A) → List FieldEvent → A → A
last_of value [] a = a
last_of value (e ∷ es) a = last_of value es (coalesce (value e) a)

abbrev pub typed_name : FieldEvent → Option Text
typed_name (type_name t) = some t
typed_name _ = none

abbrev pub typed_addr : FieldEvent → Option Text
typed_addr (type_addr t) = some t
typed_addr _ = none

abbrev pub typed_password : FieldEvent → Option Text
typed_password (type_password t) = some t
typed_password _ = none

abbrev pub typed_group : FieldEvent → Option Text
typed_group (type_group t) = some t
typed_group _ = none

abbrev pub typed_server_name : FieldEvent → Option Text
typed_server_name (type_server_name t) = some t
typed_server_name _ = none

abbrev pub chosen_protocol : FieldEvent → Option Text
chosen_protocol (choose_protocol t) = some t
chosen_protocol _ = none

abbrev pub checked_tls : FieldEvent → Option Bool
checked_tls (check_tls b) = some b
checked_tls _ = none

abbrev pub flips : List FieldEvent → Bool → Bool
flips [] b = b
flips (toggle_advanced ∷ es) b = flips es (not b)
flips (_ ∷ es) b = flips es b

-- The form with the last value of each field.
abbrev pub edited : List FieldEvent → Form → Form
edited es f = record f {
  name = last_of typed_name es f.name;
  addr = last_of typed_addr es f.addr;
  password = last_of typed_password es f.password;
  group = last_of typed_group es f.group;
  server_name = last_of typed_server_name es f.server_name;
  protocol = last_of chosen_protocol es f.protocol;
  tls = last_of checked_tls es f.tls;
  advanced = flips es f.advanced;
}

edit_all_lem : (es : List FieldEvent) (f : Form) → edit_all es f ≡ edited es f
unfolding edit_all on_field
edit_all_lem [] f = refl
edit_all_lem (type_name t ∷ es) f = edit_all_lem es (record f { name = t })
edit_all_lem (type_addr t ∷ es) f = edit_all_lem es (record f { addr = t })
edit_all_lem (type_password t ∷ es) f = edit_all_lem es (record f { password = t })
edit_all_lem (type_group t ∷ es) f = edit_all_lem es (record f { group = t })
edit_all_lem (type_server_name t ∷ es) f = edit_all_lem es (record f { server_name = t })
edit_all_lem (choose_protocol t ∷ es) f = edit_all_lem es (record f { protocol = t })
edit_all_lem (check_tls b ∷ es) f = edit_all_lem es (record f { tls = b })
edit_all_lem (toggle_advanced ∷ es) f = edit_all_lem es (record f { advanced = not f.advanced })

-- The body that a save sends for a profile after a series of edits of the dialog opened for it: each
-- field as last typed, or as the profile has it; the password only if one stands there; and the TLS
-- name only with TLS, whether the advanced part is shown or not.
pub request-edit_all :
    (s : Server) (es : List FieldEvent)
    → request (some s) (edit_all es (open_form (some s)))
      ≡ update s.id record {
        name = last_of typed_name es s.name;
        addr = last_of typed_addr es s.addr;
        password =
            if is_empty (last_of typed_password es [])
            then none
            else some (last_of typed_password es []);
        group = last_of typed_group es (coalesce s.group []);
        protocol = last_of chosen_protocol es s.protocol;
        tls = last_of checked_tls es (coalesce s.tls false);
        server_name =
            if last_of checked_tls es (coalesce s.tls false)
            then last_of typed_server_name es (coalesce s.server_name [])
            else [];
      }
unfolding request open_form
request-edit_all s es = ap (request (some s)) (edit_all_lem es (open_form (some s)))
