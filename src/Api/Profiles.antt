-- ===== src/Api/Profiles.antt =====
-- The handlers of internal/api/api.go that create, read, change, delete and connect a profile, on the
-- store and the manager, and what `dial` of internal/session/session.go reads from the store. The text of
-- an error is left out.
use rcon_ui.Base.{ℕ, Option, none, some, []}
use rcon_ui.Text.{Text}
use rcon_ui.Secret.{Sealer}
use rcon_ui.Sidebar.{Status, disconnected, connecting, connected, auth_failed}
use rcon_ui.Session.Manager.{Manager, status, connect, disconnect}
use rcon_ui.ServerDialog.{Request, update, create}
use rcon_ui.ServerDialog.Daemon.{ServerRequest, decode}
use rcon_ui.Store.{
  Profile, Database, Draw, StoreError, no_row, StoreResult, done, failed, get_server, password,
  create_server, update_server, delete_server,
}

pub record Service : Type 0 where
  pub manager : Manager
  pub database : Database

-- The status of the reply and `serverResponse`, none for an error and where there is no content.
pub record ProfileReply : Type 0 where
  pub code : ℕ
  pub server : Option (Profile × Status)

abbrev pub error : ℕ → ProfileReply
error code = record { code = code; server = none }

-- `writeStoreError`
abbrev pub store_code : StoreError → ℕ
store_code e = elim e [ no_row ↦ 404 | _ ↦ 500 ]

-- The `store.Server` of a request; the store reads neither its id nor its times.
abbrev pub of_request : ServerRequest → Profile
of_request r = record {
  id = [];
  name = r.name;
  protocol = r.protocol;
  addr = r.addr;
  group = r.group;
  game = r.game;
  tls = r.tls;
  server_name = r.server_name;
  created_at = 0;
  updated_at = 0;
}

abbrev pub created : Manager → StoreResult Profile × Database → ProfileReply × Service
created m (failed e, db) = (error 400, record { manager = m; database = db })
created m (done p, db) =
    (record { code = 201; server = some (p, status p.id m) }, record { manager = m; database = db })

abbrev pub create_from :
    Sealer → Draw → ServerRequest → Option Text → Service → ProfileReply × Service
create_from s draw req none v = (error 400, v)
create_from s draw req (some w) v =
    created v.manager (create_server s draw (of_request req) w v.database)

-- None for a body that cannot be read.
unfoldable pub handle_create_server :
    Sealer → Draw → Option ServerRequest → Service → ProfileReply × Service
unfolding create_server status
handle_create_server s draw none v = (error 400, v)
handle_create_server s draw (some req) v = create_from s draw req req.password v

abbrev pub connect_unless : Status → Text → Manager → Manager
connect_unless disconnected id m = m
connect_unless connecting id m = connect id m
connect_unless connected id m = connect id m
connect_unless auth_failed id m = connect id m

-- A session that is not disconnected starts again.
abbrev pub restarted : Text → Manager → Manager
restarted id m = connect_unless (status id m) id m

abbrev pub saved : Text → Manager → StoreResult Profile × Database → ProfileReply × Service
saved id m (failed e, db) = (error (store_code e), record { manager = m; database = db })
saved id m (done p, db) = (
  record { code = 200; server = some (p, status id (restarted id m)) },
  record { manager = restarted id m; database = db },
)

unfoldable pub handle_update_server :
    Sealer → Draw → Text → Option ServerRequest → Service → ProfileReply × Service
unfolding update_server status connect
handle_update_server s draw id none v = (error 400, v)
handle_update_server s draw id (some req) v =
    saved id v.manager (update_server s draw id (of_request req) req.password v.database)

-- The body of the dialog's save, at the handler that it goes to.
unfoldable pub handle_save : Sealer → Draw → Request → Service → ProfileReply × Service
unfolding handle_create_server handle_update_server decode
handle_save s draw (create i) v = handle_create_server s draw (some (decode i)) v
handle_save s draw (update id i) v = handle_update_server s draw id (some (decode i)) v

abbrev pub shown_profile : Manager → StoreResult Profile → ProfileReply
shown_profile m (failed e) = error (store_code e)
shown_profile m (done p) = record { code = 200; server = some (p, status p.id m) }

unfoldable pub handle_get_server : Text → Service → ProfileReply
unfolding get_server status
handle_get_server id v = shown_profile v.manager (get_server id v.database)

abbrev pub deleted : Manager → StoreResult Unit × Database → ProfileReply × Service
deleted m (failed e, db) = (error (store_code e), record { manager = m; database = db })
deleted m (done _, db) =
    (record { code = 204; server = none }, record { manager = m; database = db })

unfoldable pub handle_delete_server : Text → Service → ProfileReply × Service
unfolding delete_server disconnect
handle_delete_server id v = deleted (disconnect id v.manager) (delete_server id v.database)

abbrev pub with_password : StoreResult Profile → StoreResult Text → StoreResult (Profile × Text)
with_password (failed e) a = failed e
with_password (done p) (failed e) = failed e
with_password (done p) (done w) = done (p, w)

-- What a dial takes from the store.
unfoldable pub dial_target : Sealer → Text → Database → StoreResult (Profile × Text)
unfolding get_server password
dial_target s id db = with_password (get_server id db) (password s id db)
