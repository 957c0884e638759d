-- ===== src/Store/Integrity.antt =====
-- The constraints of the tables after any operations of internal/store/store.go.
use rcon_ui.Store.Intact.{
  IsIntact, new_database-IsIntact, delete_server-IsIntact, set_game-IsIntact,
  update_server-IsIntact, create_server-IsIntact,
}
use rcon_ui.Text.{is_empty, ◌===◌, Text}
use mathlib.Core.List.{Memᴰ}
use rcon_ui.Store.Fresh.{All_members, run_store-fresh}
use rcon_ui.Base.{
  ℕ, ◌<◌, ◌⊎◌, inl, inr, not, ◌||◌, List, [], ◌∷◌, arith, Bool-cases, All, All-append,
}
use rcon_ui.Text.Keyed.{has_key}
use rcon_ui.Text.Table.{distinct-append, distinct-filter}
use rcon_ui.Secret.{Sealer}
use rcon_ui.Store.{Database, row_id}
use rcon_ui.Store.Records.{
  Macro, macro_id, has_server, add_history, create_macro, delete_macro, to_null,
}
use rcon_ui.Store.Sorting.{Pairwise-append, All_kept, All_weaken}
use rcon_ui.Store.Runs.{
  StoreOp, creates, updates, names_game, deletes, records, saves_macro, drops_macro, new_database,
  store_step, run_store,
}

add_history-IsIntact :
    (now : ℕ) (id command : Text) (db : Database)
    → IsIntact db
    → IsIntact (add_history now id command db).1
unfolding add_history
add_history-IsIntact now id command db h = elim (Bool-cases (has_key row_id id db.servers)) [
  | inr e ↦ rw e h
  | inl e ↦ rw e (record {
    servers = h.servers;
    macros = h.macros;
    owned = h.owned;
    logged = All-append _ db.history _ h.logged (e, tt);
    counted =
        All-append _ db.history _ (All_weaken db.history (λ x q. omega arith) h.counted)
          (omega arith, tt);
    rising =
        Pairwise-append _ db.history _ h.rising
          (All_weaken db.history (λ x q. omega arith) h.counted);
  })
]

create_macro-IsIntact :
    (new_id : Text) (m : Macro) (db : Database)
    → IsIntact db
    → IsIntact (create_macro new_id m db).1
unfolding create_macro
create_macro-IsIntact new_id m db h = elim (Bool-cases (is_empty m.name || is_empty m.command)) [
  | inl e ↦ rw e h
  | inr e ↦
      elim (Bool-cases
        (has_key macro_id new_id db.macros || not (has_server db.servers (to_null m.server_id)))) [
          | inl q ↦ rw e (rw q h)
          | inr q ↦ rw e (
              rw q (record {
                servers = h.servers;
                macros = distinct-append macro_id db.macros _ h.macros (ground arith);
                owned = All-append _ db.macros _ h.owned (ground arith, tt);
                logged = h.logged;
                counted = h.counted;
                rising = h.rising;
              }))
        ]
]

delete_macro-IsIntact : (id : Text) (db : Database) → IsIntact db → IsIntact (delete_macro id db).1
unfolding delete_macro
delete_macro-IsIntact id db h = elim (Bool-cases (has_key macro_id id db.macros)) [
  | inr e ↦ rw e h
  | inl e ↦ rw e (record {
    servers = h.servers;
    macros = distinct-filter macro_id (λ m. not (macro_id m === id)) db.macros h.macros;
    owned = All_kept (λ m. not (macro_id m === id)) db.macros (λ m _ q. q) h.owned;
    logged = h.logged;
    counted = h.counted;
    rising = h.rising;
  })
]

pub store_step-IsIntact :
    (s : Sealer) (op : StoreOp) (db : Database) → IsIntact db → IsIntact (store_step s op db)
unfolding store_step
store_step-IsIntact s (creates draw srv w) db h = create_server-IsIntact s draw srv w db h
store_step-IsIntact s (updates draw id srv w) db h = update_server-IsIntact s draw id srv w db h
store_step-IsIntact s (names_game now id game) db h = set_game-IsIntact now id game db h
store_step-IsIntact s (deletes id) db h = delete_server-IsIntact id db h
store_step-IsIntact s (records now id command) db h = add_history-IsIntact now id command db h
store_step-IsIntact s (saves_macro new_id m) db h = create_macro-IsIntact new_id m db h
store_step-IsIntact s (drops_macro id) db h = delete_macro-IsIntact id db h

run_store-IsIntact :
    (s : Sealer) (ops : List StoreOp) (db : Database) → IsIntact db → IsIntact (run_store s ops db)
unfolding run_store
run_store-IsIntact s [] db h = h
run_store-IsIntact s (op ∷ ops) db h =
    run_store-IsIntact s ops (store_step s op db) (store_step-IsIntact s op db h)

-- Whatever is stored, changed and deleted in a new database, in any order and with any errors, ids
-- stay distinct, each macro and each entry of the history belongs to a server that is there, or
-- the macro to every server, and the ids of the history rise; and of two times, each entry of the
-- later history stands in the earlier one or has an id above all that stood there, also when those
-- were deleted meanwhile.
pub run_store_lem :
    (s : Sealer) (before later : List StoreOp)
    → let db = run_store s before new_database in
      IsIntact (run_store s later db)
      × All
          (λ h. Memᴰ h db.history ⊎ All (λ old. old.id < h.id) db.history)
          (run_store s later db).history
run_store_lem s before later =
    let db = run_store s before new_database in
    let intact = run_store-IsIntact s before new_database new_database-IsIntact in
    (
      run_store-IsIntact s later db intact,
      (run_store-fresh (λ h. Memᴰ h db.history ⊎ All (λ old. old.id < h.id) db.history) db.last_id
          (λ h l. inr (All_weaken db.history (λ old q. omega arith) intact.counted)) s later db
          (omega arith) (All_weaken db.history (λ h m. inl m) (All_members db.history))).0,
    )
