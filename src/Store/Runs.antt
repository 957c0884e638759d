-- ===== src/Store/Runs.antt =====
-- internal/store/store.go: any series of the operations that write.
use rcon_ui.Base.{ℕ, Option, List, [], ◌∷◌}
use rcon_ui.Text.{Text}
use rcon_ui.Secret.{Sealer}
use rcon_ui.Store.{Profile, Database, Draw, create_server, update_server, set_game, delete_server}
use rcon_ui.Store.Records.{Macro, add_history, create_macro, delete_macro}

pub data StoreOp : Type 0 where
  creates : Draw → Profile → Text → StoreOp
  updates : Draw → Text → Profile → Option Text → StoreOp
  names_game : ℕ → Text → Text → StoreOp
  deletes : Text → StoreOp
  records : ℕ → Text → Text → StoreOp
  saves_macro : Text → Macro → StoreOp
  drops_macro : Text → StoreOp

-- What the migrations leave.
abbrev pub new_database : Database
new_database = record { servers = []; macros = []; history = []; last_id = 0 }

unfoldable pub store_step : Sealer → StoreOp → Database → Database
unfolding create_server update_server set_game delete_server add_history create_macro delete_macro
store_step s (creates draw srv w) db = (create_server s draw srv w db).1
store_step s (updates draw id srv w) db = (update_server s draw id srv w db).1
store_step s (names_game now id game) db = (set_game now id game db).1
store_step s (deletes id) db = (delete_server id db).1
store_step s (records now id command) db = (add_history now id command db).1
store_step s (saves_macro new_id m) db = (create_macro new_id m db).1
store_step s (drops_macro id) db = (delete_macro id db).1

unfoldable pub run_store : Sealer → List StoreOp → Database → Database
unfolding store_step
run_store s [] db = db
run_store s (op ∷ ops) db = run_store s ops (store_step s op db)
