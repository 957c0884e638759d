-- ===== src/Store/Hidden.antt =====
-- The store of internal/store/store.go without its passwords: what its answers are made of.
use rcon_ui.Store.{
  refused, is_required, cannot_seal, no_row, Profile, ServerRow, Database, Draw, done, failed,
  row_id, is_of, get_server, insert_server, create_server, updated, set_columns, modify_server,
  set_password, write_update, update_server, delete_server,
}
use rcon_ui.Base.{
  ◌≡◌, refl, sym, ap, ◌∙◌, inl, inr, not, ◌||◌, Option, none, some, List, [], ◌∷◌, ◌++◌, map, arith,
  Bool-cases, Option-cases, filter,
}
use rcon_ui.Text.{Text, is_empty, ◌===◌}
use rcon_ui.Text.Keyed.{has_key, find_key}
use rcon_ui.Text.Table.{modify_key, remove_key}
use rcon_ui.Secret.{Sealer}
use mathlib.Core.Option

abbrev pub hide : ServerRow → ServerRow
hide r = record r { password = [] }

abbrev pub hidden : Database → Database
hidden db = record db { servers = map hide db.servers }

-- What is seen of an operation: its answer, and the tables without the passwords.
abbrev pub seen {ℓ} : {A : Type ℓ} → A × Database → A × Database
seen (a, db) = (a, hidden db)

find-hide :
    (id : Text) (xs : List ServerRow)
    → find_key row_id id (map hide xs) ≡ Option.map hide (find_key row_id id xs)
find-hide id [] = refl
find-hide id (x ∷ xs) = ground (arith, find-hide id xs)

has_key-hide :
    (id : Text) (xs : List ServerRow) → has_key row_id id (map hide xs) ≡ has_key row_id id xs
has_key-hide id [] = refl
has_key-hide id (x ∷ xs) = ap (λ b. (row_id x === id) || b) (has_key-hide id xs)

hide_again : (xs : List ServerRow) → map hide (map hide xs) ≡ map hide xs
hide_again [] = refl
hide_again (x ∷ xs) = ap (λ ys. hide x ∷ ys) (hide_again xs)

pub hidden_again : (db : Database) → hidden (hidden db) ≡ hidden db
hidden_again db = ap (λ xs. record db { servers = xs }) (hide_again db.servers)

append-hide :
    (xs : List ServerRow) (r : ServerRow)
    → map hide (map hide xs ++ r ∷ []) ≡ map hide (xs ++ r ∷ [])
append-hide [] r = refl
append-hide (x ∷ xs) r = ap (λ ys. hide x ∷ ys) (append-hide xs r)

remove-hide :
    (id : Text) (xs : List ServerRow)
    → map hide (remove_key row_id id (map hide xs)) ≡ map hide (remove_key row_id id xs)
remove-hide id [] = refl
remove-hide id (x ∷ xs) = ground (arith, remove-hide id xs)

-- A change whose visible part does not read the password.
modify-hide :
    (id : Text) (f : ServerRow → ServerRow) (xs : List ServerRow)
    → ((r : ServerRow) → hide (f (hide r)) ≡ hide (f r))
    → map hide (modify_key row_id id f (map hide xs)) ≡ map hide (modify_key row_id id f xs)
modify-hide id f [] h = refl
modify-hide id f (x ∷ xs) h = ground (arith, modify-hide id f xs h, h x)

hidden-modify :
    (id : Text) (f : ServerRow → ServerRow) (db : Database)
    → ((r : ServerRow) → hide (f (hide r)) ≡ hide (f r))
    → hidden (modify_server id f (hidden db)) ≡ hidden (modify_server id f db)
hidden-modify id f db h = ap (λ xs. record db { servers = xs }) (modify-hide id f db.servers h)

pub get_server-hidden : (id : Text) (db : Database) → get_server id (hidden db) ≡ get_server id db
unfolding get_server
get_server-hidden id db = elim (Option-cases (find_key row_id id db.servers)) [
  | inl e ↦ rw (get_server, find-hide id db.servers, e) refl
  | inr (r, e) ↦ rw (get_server, find-hide id db.servers, e) refl
]

insert_server-hidden :
    (r : ServerRow) (db : Database) → seen (insert_server r (hidden db)) ≡ seen (insert_server r db)
unfolding insert_server
insert_server-hidden r db = elim (Bool-cases (has_key row_id (row_id r) db.servers)) [
  | inl e ↦
      rw (has_key-hide (row_id r) db.servers)
        (rw e (ap (λ xs. (failed refused, record db { servers = xs })) (hide_again db.servers)))
  | inr e ↦
      rw (has_key-hide (row_id r) db.servers)
        (rw e (ap (λ xs. (done r.profile, record db { servers = xs })) (append-hide db.servers r)))
]

pub create_server-hidden :
    (s : Sealer) (draw : Draw) (srv : Profile) (w : Text) (db : Database)
    → seen (create_server s draw srv w (hidden db)) ≡ seen (create_server s draw srv w db)
unfolding create_server
create_server-hidden s draw srv w db = elim (Bool-cases (is_empty srv.name || is_empty srv.addr)) [
  | inl e ↦
      rw e (ap (λ xs. (failed is_required, record db { servers = xs })) (hide_again db.servers))
  | inr e ↦ elim (Option-cases (s.seal draw.nonce w)) [
    | inl q ↦
        rw e (
          rw q
            (ap (λ xs. (failed cannot_seal, record db { servers = xs })) (hide_again db.servers)))
    | inr (sealed, q) ↦ rw e (rw q (insert_server-hidden _ db))
  ]
]

write_update-hidden :
    (s : Sealer) (draw : Draw) (id : Text) (p : Profile) (w : Option Text) (db : Database)
    → seen (write_update s draw id p w (hidden db)) ≡ seen (write_update s draw id p w db)
unfolding write_update
write_update-hidden s draw id p none db =
    ap (λ d. (done p, d)) (hidden-modify id (set_columns p) db (λ r. refl))
write_update-hidden s draw id p (some w) db = elim (Option-cases (s.seal draw.nonce w)) [
  | inl e ↦
      rw (e, write_update)
        (ap (λ xs. (failed cannot_seal, record db { servers = xs })) (hide_again db.servers))
  | inr (sealed, e) ↦
      rw (e, write_update)
        (ap (λ d. (done p, d))
          (sym (hidden-modify id (set_columns p) (set_password id sealed (hidden db)) (λ r. refl))
            ∙ ap (λ d. hidden (modify_server id (set_columns p) d))
                (hidden-modify id _ db (λ r. refl))
            ∙ hidden-modify id (set_columns p) (set_password id sealed db) (λ r. refl)))
]

pub update_server-hidden :
    (s : Sealer) (draw : Draw) (id : Text) (srv : Profile) (w : Option Text) (db : Database)
    → seen (update_server s draw id srv w (hidden db)) ≡ seen (update_server s draw id srv w db)
unfolding update_server
update_server-hidden s draw id srv w db = elim (Option-cases (find_key row_id id db.servers)) [
  | inl e ↦
      rw (update_server, get_server, find-hide id db.servers, e)
        (ap (λ xs. (failed no_row, record db { servers = xs })) (hide_again db.servers))
  | inr (r, e) ↦
      rw (update_server, get_server, find-hide id db.servers, e)
        (write_update-hidden s draw id (updated draw.now srv r.profile) w db)
]

pub delete_server-hidden :
    (id : Text) (db : Database) → seen (delete_server id (hidden db)) ≡ seen (delete_server id db)
unfolding delete_server
delete_server-hidden id db = elim (Bool-cases (has_key row_id id db.servers)) [
  | inl e ↦ rw (has_key-hide id db.servers) (
      rw e (
        ap
          (λ xs. (
            done tt,
            record db {
              servers = xs;
              macros = filter (λ m. not (is_of id m)) db.macros;
              history = filter (λ h. not (h.server_id === id)) db.history;
            },
          ))
          (remove-hide id db.servers)))
  | inr e ↦
      rw (has_key-hide id db.servers)
        (rw e (ap (λ xs. (failed no_row, record db { servers = xs })) (hide_again db.servers)))
]
