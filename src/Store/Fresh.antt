-- ===== src/Store/Fresh.antt =====
-- internal/store/store.go: the entries of the history that an operation leaves or adds, by their ids.
use mathlib.Core.List.{Memᴰ}
use rcon_ui.Text.{Text, ◌===◌, is_empty}
use rcon_ui.Base.{
  ℕ, ◌≤◌, ◌<◌, ◌≡◌, refl, inl, inr, not, ◌||◌, Option, none, some, List, [], ◌∷◌, arith, Bool-cases,
  Option-cases, All, All-append,
}
use rcon_ui.Text.Keyed.{has_key}
use rcon_ui.Secret.{Sealer}
use rcon_ui.Store.{
  Profile, HistoryEntry, ServerRow, Database, Draw, StoreResult, done, failed, row_id, get_server,
  insert_server, write_update, updated, new_profile, create_server, update_server, set_game,
  delete_server,
}
use rcon_ui.Store.Records.{
  Macro, macro_id, has_server, add_history, create_macro, delete_macro, to_null,
}
use rcon_ui.Store.Sorting.{All_kept, All_weaken}
use rcon_ui.Store.Runs.{
  StoreOp, creates, updates, names_game, deletes, records, saves_macro, drops_macro, store_step,
  run_store,
}

pub All_members {ℓ} : {A : Type ℓ} (xs : List A) → All (λ x. Memᴰ x xs) xs
All_members [] = tt
All_members (x ∷ xs) = (Memᴰ.head refl, All_weaken xs (λ y m. Memᴰ.tail m) (All_members xs))

-- The history and the counter are left alone.
abbrev IsLeft : Database → Database → Type 0
IsLeft db db' = (db'.history ≡ db.history) × (db'.last_id ≡ db.last_id)

insert_server-IsLeft : (r : ServerRow) (db : Database) → IsLeft db (insert_server r db).1
unfolding insert_server
insert_server-IsLeft r db = elim (Bool-cases (has_key row_id (row_id r) db.servers)) [
  | inl e ↦ rw e (refl, refl)
  | inr e ↦ rw e (refl, refl)
]

create_server-IsLeft :
    (s : Sealer) (draw : Draw) (srv : Profile) (w : Text) (db : Database)
    → IsLeft db (create_server s draw srv w db).1
unfolding create_server
create_server-IsLeft s draw srv w db = elim (Bool-cases (is_empty srv.name || is_empty srv.addr)) [
  | inl e ↦ rw e (refl, refl)
  | inr e ↦ elim (Option-cases (s.seal draw.nonce w)) [
    | inl q ↦ rw e (rw q (refl, refl))
    | inr (sealed, q) ↦ rw e (
        rw q
          (insert_server-IsLeft (record { profile = new_profile draw srv; password = sealed }) db))
  ]
]

write_update-IsLeft :
    (s : Sealer) (draw : Draw) (id : Text) (p : Profile) (w : Option Text) (db : Database)
    → IsLeft db (write_update s draw id p w db).1
unfolding write_update
write_update-IsLeft s draw id p none db = (refl, refl)
write_update-IsLeft s draw id p (some w) db = elim (Option-cases (s.seal draw.nonce w)) [
  | inl q ↦ rw (q, write_update) (refl, refl)
  | inr (sealed, q) ↦ rw (q, write_update) (refl, refl)
]

after_get :
    (s : Sealer) (draw : Draw) (id : Text) (srv : Profile) (w : Option Text) (db : Database)
    (r : StoreResult Profile)
    → get_server id db ≡ r
    → IsLeft db (update_server s draw id srv w db).1
unfolding update_server
after_get s draw id srv w db (failed e) q = rw (q, update_server) (refl, refl)
after_get s draw id srv w db (done p) q =
    rw (q, update_server) (write_update-IsLeft s draw id (updated draw.now srv p) w db)

set_game-IsLeft : (now : ℕ) (id game : Text) (db : Database) → IsLeft db (set_game now id game db).1
unfolding set_game
set_game-IsLeft now id game db = elim (Bool-cases (has_key row_id id db.servers)) [
  | inl e ↦ rw e (refl, refl)
  | inr e ↦ rw e (refl, refl)
]

create_macro-IsLeft :
    (new_id : Text) (m : Macro) (db : Database) → IsLeft db (create_macro new_id m db).1
unfolding create_macro
create_macro-IsLeft new_id m db = elim (Bool-cases (is_empty m.name || is_empty m.command)) [
  | inl e ↦ rw e (refl, refl)
  | inr e ↦
      elim (Bool-cases
        (has_key macro_id new_id db.macros || not (has_server db.servers (to_null m.server_id)))) [
          | inl q ↦ rw e (rw q (refl, refl))
          | inr q ↦ rw e (rw q (refl, refl))
        ]
]

delete_macro-IsLeft : (id : Text) (db : Database) → IsLeft db (delete_macro id db).1
unfolding delete_macro
delete_macro-IsLeft id db = elim (Bool-cases (has_key macro_id id db.macros)) [
  | inl e ↦ rw e (refl, refl)
  | inr e ↦ rw e (refl, refl)
]

module _ (P : HistoryEntry → Type 0) (n : ℕ) (fresh : (h : HistoryEntry) → n < h.id → P h) where
  abbrev Holds : Database → Type 0
  Holds db = All P db.history × (n ≤ db.last_id)

  left-Holds : (db db' : Database) → IsLeft db db' → Holds db → Holds db'
  left-Holds db db' (e, q) h = rw (e, q) h

  add_history-Holds :
      (now : ℕ) (id command : Text) (db : Database)
      → Holds db
      → Holds (add_history now id command db).1
  unfolding add_history
  add_history-Holds now id command db (a, l) = elim (Bool-cases (has_key row_id id db.servers)) [
    | inr e ↦ rw e (a, l)
    | inl e ↦ rw e (All-append P db.history _ a (fresh _ (omega arith), tt), omega arith)
  ]

  delete_server-Holds : (id : Text) (db : Database) → Holds db → Holds (delete_server id db).1
  unfolding delete_server
  delete_server-Holds id db (a, l) = elim (Bool-cases (has_key row_id id db.servers)) [
    | inr e ↦ rw e (a, l)
    | inl e ↦ rw e (All_kept (λ x. not (x.server_id === id)) db.history (λ x _ q. q) a, l)
  ]

  store_step-Holds :
      (s : Sealer) (op : StoreOp) (db : Database) → Holds db → Holds (store_step s op db)
  unfolding store_step
  store_step-Holds s (creates draw srv w) db =
      left-Holds db (create_server s draw srv w db).1 (create_server-IsLeft s draw srv w db)
  store_step-Holds s (updates draw id srv w) db =
      left-Holds db (update_server s draw id srv w db).1
        (after_get s draw id srv w db (get_server id db) refl)
  store_step-Holds s (names_game now id game) db =
      left-Holds db (set_game now id game db).1 (set_game-IsLeft now id game db)
  store_step-Holds s (deletes id) db = delete_server-Holds id db
  store_step-Holds s (records now id command) db = add_history-Holds now id command db
  store_step-Holds s (saves_macro new_id m) db =
      left-Holds db (create_macro new_id m db).1 (create_macro-IsLeft new_id m db)
  store_step-Holds s (drops_macro id) db =
      left-Holds db (delete_macro id db).1 (delete_macro-IsLeft id db)

  pub run_store-fresh :
      (s : Sealer) (ops : List StoreOp) (db : Database)
      → n ≤ db.last_id
      → All P db.history
      → All P (run_store s ops db).history × (n ≤ (run_store s ops db).last_id)
  unfolding run_store
  run_store-fresh s [] db l a = (a, l)
  run_store-fresh s (op ∷ ops) db l a =
      let (a', l') = store_step-Holds s op db (a, l) in
      run_store-fresh s ops (store_step s op db) l' a'
