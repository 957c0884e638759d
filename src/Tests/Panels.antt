-- ===== src/Tests/Panels.antt =====
-- The command list, the console's filters, the server rail and the dialog.
use rcon_ui.Base.{
  ◌≡◌, refl, true, false, none, some, List, [], ◌∷◌, arith, ltb, if◌then◌else◌, coalesce,
}
use rcon_ui.Text.{Text, codes, ◌===◌, is_empty}
use rcon_ui.Grouping.{Sign, negative, zero, positive, is_negative}
use rcon_ui.Grouping.Sorted.{IsOrder}
use rcon_ui.Events.{RconEvent}
use rcon_ui.Commands.{Storage, command_rows}
use rcon_ui.Sidebar.{Server, connected}
use rcon_ui.ServerDialog.Edits.{
  edit_all, last_of, typed_name, typed_addr, typed_password, typed_group, typed_server_name,
  chosen_protocol, checked_tls, request-edit_all,
}
use rcon_ui.ServerDialog.View.{FieldEvent, type_name, check_tls}
use rcon_ui.Console.View.{Viewer, new_viewer}
use rcon_ui.ServerDialog.{update, open_form, request}
use rcon_ui.ServerDialog.Daemon.{Stored, to_server}
use rcon_ui.ServerDialog.Save.{stored_after, save_untouched}
use rcon_ui.Tests.{ascii_lower, report, players, kick, event}

abbrev storage : Storage
storage = (codes "rcon-ui:pins:p2", some (codes "help" ∷ [])) ∷ []

-- A pinned command comes first.
command_rows_test :
    command_rows ascii_lower (some report) (codes " P") (codes "kick" ∷ []) ≡ kick ∷ players ∷ []
unfolding command_rows rcon_ui.Text.Trim.trim rcon_ui.Text.includes rcon_ui.Text.starts_with ◌===◌
command_rows_test = refl

abbrev pins : List Text
pins = codes "kick" ∷ []

abbrev two_sources : List RconEvent
two_sources = event 1 ∷ record (event 2) { source = codes "ui" } ∷ event 3 ∷ []

-- The order of the code units.
abbrev by_units : Text → Text → Sign
by_units [] [] = zero
by_units [] (d ∷ t) = negative
by_units (c ∷ s) [] = positive
by_units (c ∷ s) (d ∷ t) =
    let rest = by_units s t in if ltb c d then negative else if ltb d c then positive else rest

by_units_asym :
    (a b : Text) → is_negative (by_units a b) ≡ true → is_negative (by_units b a) ≡ false
by_units_asym [] [] h = refl
by_units_asym [] (d ∷ t) h = refl
by_units_asym (c ∷ s) [] h = cc
by_units_asym (c ∷ s) (d ∷ t) h = ground (arith, by_units_asym s t)

by_units_trans :
    (a b c : Text)
    → is_negative (by_units b a) ≡ false
    → is_negative (by_units c b) ≡ false
    → is_negative (by_units c a) ≡ false
by_units_trans [] [] [] h k = refl
by_units_trans [] [] (e ∷ u) h k = refl
by_units_trans [] (d ∷ t) [] h k = cc
by_units_trans [] (d ∷ t) (e ∷ u) h k = refl
by_units_trans (c ∷ s) [] [] h k = cc
by_units_trans (c ∷ s) [] (e ∷ u) h k = cc
by_units_trans (c ∷ s) (d ∷ t) [] h k = cc
by_units_trans (c ∷ s) (d ∷ t) (e ∷ u) h k = ground (arith, by_units_trans s t u)

by_units-IsOrder : IsOrder by_units
by_units-IsOrder = record { asym = by_units_asym; trans = by_units_trans }

abbrev stored : Stored
stored = record {
  id = codes "p1";
  name = codes "Main";
  protocol = codes "source";
  addr = codes "localhost:27015";
  group = codes "eu";
  game = codes "zomboid";
  tls = false;
  server_name = [];
  password = codes "secret";
  updated_at = 1;
}

abbrev main_server : Server
main_server = to_server (codes "t0") (codes "t1") connected stored

abbrev other_server : Server
other_server = record main_server { id = codes "p2"; group = none }

save_untouched_example :
    stored_after 2
      (request
        (some (to_server (codes "t0") (codes "t1") connected stored))
        (open_form (some (to_server (codes "t0") (codes "t1") connected stored))))
      stored
    ≡ record stored { game = []; updated_at = 2 }
save_untouched_example = save_untouched 2 (codes "t0") (codes "t1") connected stored

-- The source of all events is hidden.
abbrev viewer : Viewer
viewer = record new_viewer { hidden = codes "rcon" ∷ [] }

abbrev typing : List FieldEvent
typing = type_name (codes "b") ∷ check_tls true ∷ type_name (codes "c") ∷ []

request-edit_all_example :
    request (some main_server) (edit_all typing (open_form (some main_server)))
    ≡ update main_server.id record {
      name = last_of typed_name typing main_server.name;
      addr = last_of typed_addr typing main_server.addr;
      password =
          if is_empty (last_of typed_password typing [])
          then none
          else some (last_of typed_password typing []);
      group = last_of typed_group typing (coalesce main_server.group []);
      protocol = last_of chosen_protocol typing main_server.protocol;
      tls = last_of checked_tls typing (coalesce main_server.tls false);
      server_name =
          if last_of checked_tls typing (coalesce main_server.tls false)
          then last_of typed_server_name typing (coalesce main_server.server_name [])
          else [];
    }
request-edit_all_example = request-edit_all main_server typing
