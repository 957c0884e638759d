-- ===== src/Tests/Store.antt =====
-- A store with two servers under a toy cipher, whose tag is the length of the key.
use mathlib.Core.List.{Memᴰ}
use rcon_ui.ServerDialog.Daemon.{decode}
use rcon_ui.ServerDialog.{input, Form, request}
use rcon_ui.Api.Unseen.{ProfileCall, reads, patches, removes, replies, replies_lem}
use rcon_ui.Api.Saved.{save_dials}
use rcon_ui.Text.Dict.{lookup}
use rcon_ui.Secret.{
  env_key, Bytes, Aead, IsAead, Sealer, IsSealer, seal_with, unseal_with, new_from_key, KeyDir,
  absent, load_or_create_key, start_sealer,
}
use rcon_ui.Session.{new_session}
use rcon_ui.Session.Manager.{status}
use rcon_ui.Api.Profiles.{Service, handle_save, dial_target}
use rcon_ui.Sidebar.{Server, disconnected, auth_failed}
use rcon_ui.Base.{
  ℕ, ◌<◌, ◌≡◌, refl, ◌≢◌, ◌⊎◌, true, false, Option, none, some, List, [], ◌∷◌, arith, ◌==◌,
  if◌then◌else◌, ==_iff, length, All,
}
use rcon_ui.Base.Int.{pos}
use rcon_ui.Text.{Text, codes, ◌===◌}
use rcon_ui.Secret.Restart.{start_again}
use rcon_ui.Store.{
  Profile, Database, Draw, done, failed, no_row, get_server, password, delete_server,
}
use rcon_ui.Store.Records.{Macro, add_history, list_history, list_macros}
use rcon_ui.Store.Runs.{
  StoreOp, creates, updates, deletes, records, saves_macro, new_database, run_store,
}
use rcon_ui.Store.Intact.{IsIntact}
use rcon_ui.Store.Integrity.{run_store_lem}
use rcon_ui.Store.Plain.{run_accounts, get_account, open_account}
use rcon_ui.Store.Refines.{run_store-accounts}
use rcon_ui.Store.Deleted.{delete_server_lem}
use rcon_ui.Store.Newest.{list_history-add_history}

abbrev read_tag : Bytes → Bytes → Option Bytes
read_tag key [] = none
read_tag key (t ∷ plain) = if t == length key then some plain else none

abbrev toy : Aead
toy = record {
  nonce_size = 2;
  encrypt = λ key nonce plain. length key ∷ plain;
  decrypt = λ key nonce sealed. read_tag key sealed;
}

toy-IsAead : IsAead toy
toy-IsAead = record {
  decrypt-encrypt = λ key nonce plain e. ground (arith, ==_iff (length key) (length key));
}

abbrev the_key : Bytes
the_key = 1 ∷ 2 ∷ 3 ∷ []

abbrev sealer : Sealer
sealer = record { seal = seal_with toy the_key; unseal = unseal_with toy the_key }

abbrev no_key : KeyDir
no_key = record { file = absent; is_writable = true }

sealer-IsSealer : IsSealer sealer 2
unfolding start_sealer load_or_create_key new_from_key env_key
sealer-IsSealer =
    (start_again toy (λ k. k) (λ _. none) the_key none none no_key sealer toy-IsAead refl).1

start_again_example :
    ((start_sealer toy
        (λ k. k)
        (λ _. none)
        []
        (some (9 ∷ []))
        (start_sealer toy (λ k. k) (λ _. none) [] (some the_key) no_key).1).0
      ≡ some sealer)
    × IsSealer sealer 2
unfolding start_sealer load_or_create_key new_from_key
start_again_example =
    start_again toy (λ k. k) (λ _. none) [] (some the_key) (some (9 ∷ [])) no_key sealer toy-IsAead
      refl

abbrev draw : ℕ → Text → Draw
draw now id = record { now = now; new_id = id; nonce = some (5 ∷ 6 ∷ []) }

abbrev zomboid_server : Profile
zomboid_server = record {
  id = [];
  name = codes "Knox";
  protocol = [];
  addr = codes "10.0.0.1:27015";
  group = [];
  game = [];
  tls = false;
  server_name = [];
  created_at = 0;
  updated_at = 0;
}

abbrev greeting : Macro
greeting = record {
  id = [];
  server_id = codes "a";
  name = codes "hi";
  command = codes "say hi";
  position = pos 0;
}

abbrev ops : List StoreOp
ops =
    creates (draw 10 (codes "a")) zomboid_server (codes "first")
    ∷ creates (draw 11 (codes "b")) zomboid_server (codes "second")
    ∷ records 12 (codes "a") (codes "players")
    ∷ saves_macro (codes "m") greeting
    ∷ updates (draw 13 (codes "c")) (codes "a") zomboid_server (some (codes "third"))
    ∷ deletes (codes "b")
    ∷ []

-- The server with an entry in its history goes, with the entry, and another server gets one.
abbrev later_ops : List StoreOp
later_ops =
    deletes (codes "a")
    ∷ creates (draw 61 (codes "c")) zomboid_server (codes "fourth")
    ∷ records 62 (codes "c") (codes "help")
    ∷ []

run_store_lem_example :
    IsIntact (run_store sealer later_ops (run_store sealer ops new_database))
    × All
        (λ h.
          Memᴰ h (run_store sealer ops new_database).history
          ⊎ All (λ old. old.id < h.id) (run_store sealer ops new_database).history)
        (run_store sealer later_ops (run_store sealer ops new_database)).history
run_store_lem_example = run_store_lem sealer ops later_ops

run_store-accounts_example :
    let a = run_accounts ops (λ _. none) (codes "a") in
    (get_server (codes "a") (run_store sealer ops new_database) ≡ get_account a)
    × (password sealer (codes "a") (run_store sealer ops new_database) ≡ open_account a)
run_store-accounts_example = run_store-accounts sealer 2 sealer-IsSealer ops (codes "a") refl

-- The password that the update stored.
password_test :
    password sealer (codes "a") (run_store sealer ops new_database) ≡ done (codes "third")
unfolding ◌===◌
password_test = (run_store-accounts sealer 2 sealer-IsSealer ops (codes "a") refl).1

-- The tables after the first four operations.
abbrev two_servers : Database
two_servers = record {
  servers =
      (record {
        profile = record zomboid_server { id = codes "a" };
        password = 5 ∷ 6 ∷ 3 ∷ codes "first";
      })
      ∷ (record {
        profile = record zomboid_server { id = codes "b" };
        password = 5 ∷ 6 ∷ 3 ∷ codes "second";
      })
      ∷ [];
  macros =
      (record {
        id = codes "m";
        server_id = some (codes "a");
        name = codes "hi";
        command = codes "say hi";
        position = pos 0;
      })
      ∷ [];
  history = (record { id = 1; server_id = codes "a"; command = codes "players"; at = 12 }) ∷ [];
  last_id = 1;
}

abbrev without_a : Database
without_a = (delete_server (codes "a") two_servers).1

delete_server_lem_example :
    (get_server (codes "a") without_a ≡ failed no_row)
    × (password sealer (codes "a") without_a ≡ failed no_row)
    × (list_history (codes "a") (pos 10) without_a ≡ [])
    × All (λ m. m.server_id ≡ []) (list_macros (codes "a") without_a)
    × (get_server (codes "b") without_a ≡ get_server (codes "b") two_servers)
    × (password sealer (codes "b") without_a ≡ password sealer (codes "b") two_servers)
    × (list_history (codes "b") (pos 10) without_a ≡ list_history (codes "b") (pos 10) two_servers)
    × (list_macros (codes "b") without_a ≡ list_macros (codes "b") two_servers)
unfolding ◌===◌
delete_server_lem_example =
    delete_server_lem sealer (codes "a") (codes "b") (pos 10) two_servers refl refl

two_servers-IsIntact : IsIntact two_servers
unfolding ◌===◌
two_servers-IsIntact = record {
  servers = refl;
  macros = refl;
  owned = (refl, tt);
  logged = (refl, tt);
  counted = (omega arith, tt);
  rising = (tt, tt);
}

list_history-add_history_example :
    (list_history (codes "a") (pos 1) (add_history 20 (codes "a") (codes "save") two_servers).1
      ≡ (record { id = 2; server_id = codes "a"; command = codes "save"; at = 20 }) ∷ [])
    × ((codes "a" === codes "b") ≡ false
        → list_history (codes "b") (pos 1) (add_history 20 (codes "a") (codes "save") two_servers).1
          ≡ list_history (codes "b") (pos 1) two_servers)
unfolding ◌===◌
list_history-add_history_example =
    list_history-add_history 20 (codes "a") (codes "b") (codes "save") (pos 1) two_servers
      two_servers-IsIntact (omega arith, tt) refl

-- The rail's profile of the first server, whose password was refused, with a new one typed.
abbrev stored_server : Server
stored_server = record {
  id = codes "a";
  name = codes "Knox";
  protocol = [];
  addr = codes "10.0.0.1:27015";
  group = none;
  created_at = [];
  updated_at = [];
  status = auth_failed;
  game = none;
  tls = none;
  server_name = none;
}

abbrev form : Form
form = record {
  name = codes "Knox";
  addr = codes "10.0.0.1:27015";
  password = codes "right";
  group = [];
  protocol = [];
  tls = false;
  server_name = [];
  advanced = false;
  busy = false;
  error = none;
}

abbrev service : Service
service = record {
  manager = record {
    sessions = (codes "a", record new_session { status = auth_failed }) ∷ [];
    retired = [];
  };
  database = two_servers;
}

save_dials_example :
    (dial_target sealer
        (codes "a")
        (handle_save sealer (draw 30 []) (request (some stored_server) form) service).1.database
      ≡ done (record zomboid_server { id = codes "a"; updated_at = 30 }, codes "right"))
    × (status (codes "a") service.manager ≢ disconnected
        → lookup
            (codes "a")
            (handle_save sealer
              (draw 30 [])
              (request (some stored_server) form)
              service).1.manager.sessions
          ≡ some new_session)
unfolding dial_target ◌===◌ unseal_with decode
save_dials_example =
    save_dials sealer 2 (draw 30 []) stored_server form service
      (record zomboid_server { id = codes "a" }) (codes "first") sealer-IsSealer refl refl refl

-- The same service with other passwords.
abbrev other_service : Service
other_service = record service {
  database = record two_servers {
    servers =
        (record { profile = record zomboid_server { id = codes "a" }; password = 1 ∷ [] })
        ∷ (record { profile = record zomboid_server { id = codes "b" }; password = [] })
        ∷ [];
  };
}

abbrev calls : List ProfileCall
calls =
    reads (codes "a")
    ∷ patches (draw 30 []) (codes "a") (some (decode (input form (some (codes "right")))))
    ∷ reads (codes "a")
    ∷ removes (codes "b")
    ∷ []

replies_lem_example : replies sealer calls service ≡ replies sealer calls other_service
replies_lem_example = replies_lem sealer calls service other_service refl refl
