-- ===== src/Store/Intact.antt =====
-- The constraints of the tables of internal/store/store.go, and the operations on servers.
use rcon_ui.Text.Keyed.{find_key, has_key, distinct}
use rcon_ui.Store.{
  write_update, set_columns, set_password, updated, is_server, Profile, ServerRow, Database, Draw,
  row_id, is_of, get_server, insert_server, create_server, update_server, modify_server, set_game,
  delete_server,
}
use rcon_ui.Text.{is_empty, ◌===◌, Text}
use rcon_ui.Base.{
  ℕ, ◌≤◌, ◌<◌, ◌≡◌, refl, ◌∙◌, inl, inr, true, not, ◌||◌, Option, none, some, List, [], ◌∷◌, ◌++◌,
  arith, Bool-cases, Option-cases, All,
}
use rcon_ui.Text.Table.{
  modify_key, remove_key, has_key-append, distinct-append, has_key-remove, distinct-filter,
  has_key-modify, distinct-modify,
}
use rcon_ui.Secret.{Sealer}
use rcon_ui.Store.Records.{macro_id, has_server}
use rcon_ui.Store.Sorting.{Pairwise, Pairwise-filter, All_kept, All_weaken}
use rcon_ui.Store.Runs.{new_database}

-- Ids are distinct, what macros and history refer to is there, and ids of the history only rise.
pub record IsIntact (db : Database) : Type 0 where
  pub servers : distinct row_id db.servers ≡ true
  pub macros : distinct macro_id db.macros ≡ true
  pub owned : All (λ m. has_server db.servers m.server_id ≡ true) db.macros
  pub logged : All (λ h. has_key row_id h.server_id db.servers ≡ true) db.history
  pub counted : All (λ h. h.id ≤ db.last_id) db.history
  pub rising : Pairwise (λ h k. h.id < k.id) db.history

pub new_database-IsIntact : IsIntact new_database
new_database-IsIntact = record {
  servers = refl;
  macros = refl;
  owned = tt;
  logged = tt;
  counted = tt;
  rising = tt;
}

has_server_on :
    (old rows : List ServerRow)
    → ((id : Text) → has_key row_id id old ≡ true → has_key row_id id rows ≡ true)
    → (o : Option Text) → has_server old o ≡ true
    → has_server rows o ≡ true
has_server_on old rows f none q = refl
has_server_on old rows f (some id) q = f id q

has_server-remove :
    (id : Text) (rows : List ServerRow) (o : Option Text)
    → not (is_server id o) ≡ true
    → has_server rows o ≡ true
    → has_server (remove_key row_id id rows) o ≡ true
has_server-remove id rows none p q = refl
has_server-remove id rows (some k) p q = ground (arith, has_key-remove row_id k id rows)

-- What refers to a server of one table refers to one of a table that has its keys.
refers_on :
    (db : Database) (rows : List ServerRow)
    → ((id : Text) → has_key row_id id db.servers ≡ true → has_key row_id id rows ≡ true)
    → distinct row_id rows ≡ true
    → IsIntact db
    → IsIntact (record db { servers = rows })
refers_on db rows f d h = record {
  servers = d;
  macros = h.macros;
  counted = h.counted;
  rising = h.rising;
  owned = All_weaken db.macros (λ m. has_server_on db.servers rows f m.server_id) h.owned;
  logged = All_weaken db.history (λ e. f e.server_id) h.logged;
}

modify_server-IsIntact :
    (id : Text) (f : ServerRow → ServerRow) (db : Database)
    → ((r : ServerRow) → row_id (f r) ≡ row_id r)
    → IsIntact db
    → IsIntact (modify_server id f db)
modify_server-IsIntact id f db keeps h =
    refers_on db (modify_key row_id id f db.servers)
      (λ k q. has_key-modify row_id f keeps k id db.servers ∙ q)
      (distinct-modify row_id f keeps id db.servers ∙ h.servers) h

insert_server-IsIntact :
    (r : ServerRow) (db : Database) → IsIntact db → IsIntact (insert_server r db).1
unfolding insert_server
insert_server-IsIntact r db h = elim (Bool-cases (has_key row_id (row_id r) db.servers)) [
  | inl e ↦ rw e h
  | inr e ↦ rw e (
      refers_on db (db.servers ++ r ∷ [])
        (λ k q. ground (arith, has_key-append row_id k db.servers r))
        (distinct-append row_id db.servers r h.servers e) h)
]

pub delete_server-IsIntact :
    (id : Text) (db : Database) → IsIntact db → IsIntact (delete_server id db).1
unfolding delete_server
delete_server-IsIntact id db h = elim (Bool-cases (has_key row_id id db.servers)) [
  | inr e ↦ rw e h
  | inl e ↦ rw e (record {
    servers = distinct-filter row_id (λ r. not (row_id r === id)) db.servers h.servers;
    macros = distinct-filter macro_id (λ m. not (is_of id m)) db.macros h.macros;
    owned =
        All_kept (λ m. not (is_of id m)) db.macros
          (λ m. has_server-remove id db.servers m.server_id) h.owned;
    logged =
        All_kept (λ x. not (x.server_id === id)) db.history
          (λ x p q. ground (arith, has_key-remove row_id x.server_id id db.servers)) h.logged;
    counted = All_kept (λ x. not (x.server_id === id)) db.history (λ x _ q. q) h.counted;
    rising =
        Pairwise-filter (λ x y. x.id < y.id) (λ x. not (x.server_id === id)) db.history h.rising;
  })
]

pub set_game-IsIntact :
    (now : ℕ) (id game : Text) (db : Database) → IsIntact db → IsIntact (set_game now id game db).1
unfolding set_game
set_game-IsIntact now id game db h = elim (Bool-cases (has_key row_id id db.servers)) [
  | inl e ↦ rw e (modify_server-IsIntact id _ db (λ r. refl) h)
  | inr e ↦ rw e h
]

write_update-IsIntact :
    (s : Sealer) (draw : Draw) (id : Text) (p : Profile) (w : Option Text) (db : Database)
    → IsIntact db
    → IsIntact (write_update s draw id p w db).1
unfolding write_update
write_update-IsIntact s draw id p none db h =
    modify_server-IsIntact id (set_columns p) db (λ r. refl) h
write_update-IsIntact s draw id p (some w) db h = elim (Option-cases (s.seal draw.nonce w)) [
  | inl e ↦ rw (e, write_update) h
  | inr (sealed, e) ↦
      rw (e, write_update)
        (modify_server-IsIntact id (set_columns p) (set_password id sealed db) (λ r. refl)
          (modify_server-IsIntact id _ db (λ r. refl) h))
]

pub update_server-IsIntact :
    (s : Sealer) (draw : Draw) (id : Text) (srv : Profile) (w : Option Text) (db : Database)
    → IsIntact db
    → IsIntact (update_server s draw id srv w db).1
unfolding update_server get_server
update_server-IsIntact s draw id srv w db h = elim (Option-cases (find_key row_id id db.servers)) [
  | inl e ↦ rw (e, update_server, get_server) h
  | inr (r, e) ↦
      rw (e, update_server, get_server)
        (write_update-IsIntact s draw id (updated draw.now srv r.profile) w db h)
]

pub create_server-IsIntact :
    (s : Sealer) (draw : Draw) (srv : Profile) (w : Text) (db : Database)
    → IsIntact db
    → IsIntact (create_server s draw srv w db).1
unfolding create_server
create_server-IsIntact s draw srv w db h =
    elim (Bool-cases (is_empty srv.name || is_empty srv.addr)) [
      | inl e ↦ rw e h
      | inr e ↦ elim (Option-cases (s.seal draw.nonce w)) [
        | inl q ↦ rw e (rw q h)
        | inr (sealed, q) ↦ rw e (rw q (insert_server-IsIntact _ db h))
      ]
    ]
