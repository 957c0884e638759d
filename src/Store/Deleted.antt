-- ===== src/Store/Deleted.antt =====
-- `DeleteServer` of internal/store/store.go: what is left of a server and of the others.
use rcon_ui.Store.Plain.{accounts, put, get_account, open_account}
use rcon_ui.Store.Reads.{accounts-delete, get_server-accounts, password-accounts}
use rcon_ui.Base.{
  ℕ, zero, suc, ◌≡◌, refl, sym, ap, ◌∙◌, fun_ext, inl, inr, Bool, true, false, not, ◌&&◌, ◌||◌,
  Option, none, some, List, [], ◌∷◌, map, arith, if◌then◌else◌, Bool-cases, coalesce, is_some, take,
  All, filter, filter-filter, All-filter,
}
use rcon_ui.Base.Int.{ℤ}
use rcon_ui.Text.{Text, ◌===◌, ===_iff, ===_refl}
use rcon_ui.Text.Keyed.{has_key}
use rcon_ui.Text.Table.{remove_key}
use rcon_ui.Secret.{Sealer}
use rcon_ui.Store.{
  Database, row_id, is_of, is_server, done, failed, no_row, get_server, password, delete_server,
}
use rcon_ui.Store.Records.{
  list_history, order_by, is_newer, page_size, list_macros, is_earlier, read_macro,
}
use rcon_ui.Store.Sorting.{All_kept, All-order_by}

-- A filter of a smaller table, by what both tests together say.
filter_twice {ℓ} :
    {A : Type ℓ} (p q r : A → Bool) (xs : List A)
    → ((x : A) → (q x && p x) ≡ r x)
    → filter p (filter q xs) ≡ filter r xs
filter_twice p q r xs h = filter-filter p q xs ∙ ap (λ f. filter f xs) (fun_ext h)

filter_nothing {ℓ} : {A : Type ℓ} (xs : List A) → filter (λ _. false) xs ≡ []
filter_nothing [] = refl
filter_nothing (x ∷ xs) = filter_nothing xs

take-nil {ℓ} : {A : Type ℓ} (n : ℕ) → take {A = A} n [] ≡ []
take-nil zero = refl
take-nil (suc n) = refl

-- What `DELETE` leaves of the tables.
abbrev left : Text → Database → Database
left id db = record db {
  servers = remove_key row_id id db.servers;
  macros = filter (λ m. not (is_of id m)) db.macros;
  history = filter (λ h. not (h.server_id === id)) db.history;
}

delete_server-left :
    (id : Text) (db : Database)
    → has_key row_id id db.servers ≡ true
    → delete_server id db ≡ (done tt, left id db)
unfolding delete_server
delete_server-left id db there = rw there refl

by_key {ℓ κ} :
    {A : Type ℓ} {B : Type κ} (f : A → B) (b : Bool) (x y : A)
    → f (if b then x else y) ≡ (if b then f x else f y)
by_key f true x y = refl
by_key f false x y = refl

read_left :
    (s : Sealer) (id k : Text) (db : Database)
    → has_key row_id id db.servers ≡ true
    → (get_server k (left id db) ≡ (if k === id then failed no_row else get_server k db))
      × (password s k (left id db) ≡ (if k === id then failed no_row else password s k db))
read_left s id k db there =
    let now : accounts s (left id db) k ≡ put id none (accounts s db) k =
      ap (λ m. m k)
        (sym (ap (λ r. accounts s r.1) (delete_server-left id db there))
          ∙ accounts-delete s id db) in
    (
      get_server-accounts s k (left id db)
          ∙ ap get_account now
          ∙ by_key get_account (k === id) none (accounts s db k)
          ∙ ap (λ a. if k === id then failed no_row else a) (sym (get_server-accounts s k db)),
      password-accounts s k (left id db)
          ∙ ap open_account now
          ∙ by_key open_account (k === id) none (accounts s db k)
          ∙ ap (λ a. if k === id then failed no_row else a) (sym (password-accounts s k db)),
    )

history_left :
    (id k : Text) (limit : ℤ) (db : Database)
    → list_history k limit (left id db) ≡ (if k === id then [] else list_history k limit db)
unfolding list_history order_by
history_left id k limit db = elim (Bool-cases (k === id)) [
  | inl e ↦
      let none_left : filter (λ h. h.server_id === k) (left id db).history ≡ [] =
        filter_twice (λ h. h.server_id === k) (λ h. not (h.server_id === id)) (λ _. false)
          db.history
          (λ h. ground (arith, ===_iff h.server_id k, ===_iff h.server_id id, ===_iff k id))
        ∙ filter_nothing db.history in
      rw e (
        ap (λ xs. take (page_size limit) (order_by is_newer xs)) none_left
        ∙ take-nil (page_size limit))
  | inr e ↦ rw e (
      ap (λ xs. take (page_size limit) (order_by is_newer xs))
        (filter_twice (λ h. h.server_id === k) (λ h. not (h.server_id === id))
          (λ h. h.server_id === k) db.history
          (λ h. ground (arith, ===_iff h.server_id k, ===_iff h.server_id id, ===_iff k id))))
]

abbrev for_server : Text → Option Text → Bool
for_server k o = not (is_some o) || is_server k o

not_owned :
    (id k : Text) (o : Option Text)
    → (k === id) ≡ false
    → (not (is_server id o) && for_server k o) ≡ for_server k o
not_owned id k none n = refl
not_owned id k (some j) n = ground (arith, ===_iff j k, ===_iff j id, ===_iff k id)

macros_left :
    (id k : Text) (db : Database)
    → (k === id) ≡ false
    → list_macros k (left id db) ≡ list_macros k db
unfolding list_macros
macros_left id k db n =
    ap (λ xs. map read_macro (order_by is_earlier xs))
      (filter_twice (λ m. for_server k m.server_id) (λ m. not (is_of id m))
        (λ m. for_server k m.server_id) db.macros (λ m. not_owned id k m.server_id n))

for_all :
    (id : Text) (o : Option Text)
    → (not (is_server id o) && for_server id o) ≡ true
    → coalesce o [] ≡ []
for_all id none h = refl
for_all id (some j) h = ground arith

All-map {ℓ κ μ} :
    {A : Type ℓ} {B : Type κ} (P : B → Type μ) (f : A → B) (xs : List A)
    → All (λ x. P (f x)) xs
    → All P (map f xs)
All-map P f [] h = tt
All-map P f (x ∷ xs) (p, h) = (p, All-map P f xs h)

macros_gone :
    (id : Text) (db : Database) → All (λ m. m.server_id ≡ []) (list_macros id (left id db))
unfolding list_macros
macros_gone id db =
    All-map (λ m. m.server_id ≡ []) read_macro _
      (All-order_by is_earlier (λ m. coalesce m.server_id [] ≡ []) _
        (All_kept (λ m. for_server id m.server_id) (left id db).macros
          (λ m p q. for_all id m.server_id (ground arith))
          (All-filter (λ m. not (is_of id m)) db.macros)))

-- Deleting a server that is there leaves nothing of it: no profile, no password, no history, and of the
-- macros only those of every server; and of every other server all of that reads as before.
pub delete_server_lem :
    (s : Sealer) (id other : Text) (limit : ℤ) (db : Database)
    → has_key row_id id db.servers ≡ true
    → (other === id) ≡ false
    → let db' = (delete_server id db).1 in
      (get_server id db' ≡ failed no_row)
      × (password s id db' ≡ failed no_row)
      × (list_history id limit db' ≡ [])
      × All (λ m. m.server_id ≡ []) (list_macros id db')
      × (get_server other db' ≡ get_server other db)
      × (password s other db' ≡ password s other db)
      × (list_history other limit db' ≡ list_history other limit db)
      × (list_macros other db' ≡ list_macros other db)
delete_server_lem s id other limit db there apart =
    let (own_profile, own_password) = read_left s id id db there in
    let (its_profile, its_password) = read_left s id other db there in
    rw (delete_server-left id db there) (
      own_profile ∙ rw (===_refl id) refl,
      own_password ∙ rw (===_refl id) refl,
      history_left id id limit db ∙ rw (===_refl id) refl,
      macros_gone id db,
      its_profile ∙ rw apart refl,
      its_password ∙ rw apart refl,
      history_left id other limit db ∙ rw apart refl,
      macros_left id other db apart,
    )
