-- ===== src/ServerDialog/Save.antt =====
-- What a save of the dialog changes in the stored profile.
use rcon_ui.Base.{
  ℕ, ◌≡◌, refl, Bool, true, false, none, some, [], ◌∷◌, arith, if◌then◌else◌, coalesce,
}
use rcon_ui.Text.{Text, is_empty}
use rcon_ui.Sidebar.{Server, Status}
use rcon_ui.ServerDialog.{Form, open_form, Request, update, create, request}
use rcon_ui.ServerDialog.Daemon.{decode, Stored, update_server, to_server}

-- What the daemon stores after a request of the dialog for the profile.
abbrev pub stored_after : ℕ → Request → Stored → Stored
stored_after now (update id i) s = update_server now (decode i) s
stored_after now (create i) s = s

replace_self : (s : Text) → (if is_empty s then s else s) ≡ s
replace_self s = ground arith

omit_empty_back : (s : Text) → coalesce (if is_empty s then none else some s) [] ≡ s
omit_empty_back [] = refl
omit_empty_back (c ∷ s) = refl

tls_back : (b : Bool) → coalesce (if b then some true else none) false ≡ b
tls_back true = refl
tls_back false = refl

-- Opening the dialog for a stored profile and saving it untouched keeps the name, the address, the
-- protocol, the group, the TLS switch and the password, clears the TLS name of a profile that does
-- not use TLS, and clears the game that discovery had found.
pub save_untouched :
    (now : ℕ) (created_at updated_at : Text) (status : Status) (s : Stored)
    → stored_after now
        (request
          (some (to_server created_at updated_at status s))
          (open_form (some (to_server created_at updated_at status s))))
        s
      ≡ record s { game = []; server_name = if s.tls then s.server_name else []; updated_at = now }
unfolding request open_form to_server update_server decode
save_untouched now created_at updated_at status s = λ i. record s {
  name = replace_self s.name i;
  addr = replace_self s.addr i;
  protocol = replace_self s.protocol i;
  group = omit_empty_back s.group i;
  game = [];
  tls = tls_back s.tls i;
  server_name = if tls_back s.tls i then omit_empty_back s.server_name i else [];
  updated_at = now;
}

-- An edit replaces the stored password exactly if one was typed, whatever else it changes.
pub save_password :
    (now : ℕ) (server : Server) (f : Form) (s : Stored)
    → (stored_after now (request (some server) f) s).password
      ≡ (if is_empty f.password then s.password else f.password)
unfolding request update_server decode
save_password now server f s = ground arith
