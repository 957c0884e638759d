-- ===== src/Store/Refines.antt =====
-- The store of internal/store/store.go with its sealed passwords against the accounts in plain.
use rcon_ui.Store.{
  done, Profile, ServerRow, Database, Draw, row_id, new_profile, updated, set_columns,
  modify_server, set_password, get_server, insert_server, create_server, write_update,
  update_server, set_game, password,
}
use rcon_ui.Store.Plain.{
  Account, Accounts, account, accounts, put, create_account, update_account, game_account,
  account_step, run_accounts, fits_nonce, fits, get_account, open_account,
}
use mathlib.Core.Option.{some_inj, some, Option, none}
use rcon_ui.Base.{
  ℕ, ◌≡◌, refl, sym, ap, ◌∙◌, fun_ext, ◌⊎◌, inl, inr, true, false, ◌||◌, List, [], ◌∷◌, arith,
  if◌then◌else◌, Bool-cases, Option-cases, is_some, all,
}
use rcon_ui.Text.{Text, is_empty, ◌===◌, ===_iff, ===_refl}
use rcon_ui.Text.DictKeys.{===_comm}
use rcon_ui.Text.Keyed.{find_key}
use rcon_ui.Text.Table.{has_key_iff_find, find_key-append, find_key-modify}
use rcon_ui.Secret.{Bytes, Sealer, IsSealer}
use rcon_ui.Store.Records.{add_history, create_macro, delete_macro}
use rcon_ui.Store.Runs.{
  StoreOp, creates, updates, names_game, deletes, records, saves_macro, drops_macro, store_step,
  run_store, new_database,
}
use mathlib.Core.Option
use rcon_ui.Store.Reads.{accounts-delete, get_server-accounts, password-accounts}

module _ (s : Sealer) (size : ℕ) (h : IsSealer s size) where
  -- What a seal gives: nothing without a nonce, and otherwise what is opened again.
  seal-cases :
      (o : Option Bytes) (w : Text)
      → fits_nonce size o ≡ true
      → ((is_some o ≡ false) × (s.seal o w ≡ none))
        ⊎ ((is_some o ≡ true)
            × ((sealed : Bytes) × (s.seal o w ≡ some sealed) × (s.unseal sealed ≡ some w)))
  seal-cases none w f = inl (refl, h.seal-none w)
  seal-cases (some nonce) w f = elim (Option-cases (s.seal (some nonce) w)) [
    | inl e ↦ ground (arith, h.unseal-seal nonce w)
    | inr (sealed, e) ↦ inr (refl, (sealed, e, ground (arith, h.unseal-seal nonce w)))
  ]

  -- A row that is there is found changed, and its account is.
  accounts-modify :
      (id : Text) (f : ServerRow → ServerRow) (db : Database) (r : ServerRow)
      → ((x : ServerRow) → row_id (f x) ≡ row_id x)
      → find_key row_id id db.servers ≡ some r
      → (accounts s (modify_server id f db) ≡ put id (some (account s (f r))) (accounts s db))
        × (find_key row_id id (modify_server id f db).servers ≡ some (f r))
  accounts-modify id f db r keeps e = (
    fun_ext λ k. elim (Bool-cases (k === id)) [
      | inl q ↦ rw (find_key-modify row_id f keeps k id db.servers) (
          rw q (
            ap (λ o. Option.map (account s) (Option.map f o))
              (ap (λ j. find_key row_id j db.servers) ((===_iff k id).0 q) ∙ e)))
      | inr q ↦ rw (find_key-modify row_id f keeps k id db.servers) (rw q refl)
    ],
    find_key-modify row_id f keeps id id db.servers ∙ rw (===_refl id) (ap (Option.map f) e),
  )

  put-put : (id : Text) (a b : Option Account) (m : Accounts) → put id a (put id b m) ≡ put id a m
  put-put id a b m = fun_ext λ k. ground arith

  accounts-write :
      (draw : Draw) (id : Text) (srv : Profile) (w : Option Text) (db : Database) (r : ServerRow)
      → fits_nonce size draw.nonce ≡ true
      → find_key row_id id db.servers ≡ some r
      → accounts s (write_update s draw id (updated draw.now srv r.profile) w db).1
        ≡ update_account draw id srv w (some (account s r)) (accounts s db)
  unfolding write_update
  accounts-write draw id srv none db r f e =
      (accounts-modify id (set_columns (updated draw.now srv r.profile)) db r (λ x. refl) e).0
  accounts-write draw id srv (some w) db r f e = elim (seal-cases draw.nonce w f) [
    | inl (n, q) ↦ rw (q, write_update) (rw n refl)
    | inr (n, (sealed, q, o)) ↦
        let (first, found) =
          accounts-modify id (λ x. record x { password = sealed }) db r (λ x. refl) e in
        let (second, _) =
          accounts-modify id (set_columns (updated draw.now srv r.profile))
            (set_password id sealed db) (record r { password = sealed }) (λ x. refl) found in
        rw (q, write_update)
          (rw n (
            second
            ∙ ap (put id _) first
            ∙ put-put id _ _ (accounts s db)
            ∙ ap
                (λ v.
                  put id (some (record { profile = updated draw.now srv r.profile; password = v }))
                    (accounts s db))
                o))
  ]

  write_update-done :
      (draw : Draw) (id : Text) (p : Profile) (w : Option Text) (db : Database)
      → is_some draw.nonce ≡ true
      → fits_nonce size draw.nonce ≡ true
      → (write_update s draw id p w db).0 ≡ done p
  unfolding write_update
  write_update-done draw id p none db n f = refl
  write_update-done draw id p (some w) db n f = elim (seal-cases draw.nonce w f) [
    | inl (m, q) ↦ ground arith
    | inr (m, (sealed, q, o)) ↦ rw (q, write_update) refl
  ]

  pub accounts-update :
      (draw : Draw) (id : Text) (srv : Profile) (w : Option Text) (db : Database)
      → fits_nonce size draw.nonce ≡ true
      → accounts s (update_server s draw id srv w db).1
        ≡ update_account draw id srv w (accounts s db id) (accounts s db)
  unfolding update_server get_server
  accounts-update draw id srv w db f = elim (Option-cases (find_key row_id id db.servers)) [
    | inl e ↦ rw (e, update_server, get_server) refl
    | inr (r, e) ↦ rw (e, update_server, get_server) (accounts-write draw id srv w db r f e)
  ]

  -- An update of a profile that is there is made, where a nonce is drawn.
  pub update_server-done :
      (draw : Draw) (id : Text) (srv : Profile) (w : Option Text) (db : Database) (a : Account)
      → is_some draw.nonce ≡ true
      → fits_nonce size draw.nonce ≡ true
      → accounts s db id ≡ some a
      → (update_server s draw id srv w db).0 ≡ done (updated draw.now srv a.profile)
  unfolding update_server get_server
  update_server-done draw id srv w db a n f there =
      elim (Option-cases (find_key row_id id db.servers)) [
        | inl e ↦ ground arith
        | inr (r, e) ↦
            let same : r.profile ≡ a.profile =
              ap (λ x. x.profile) (some_inj.0 (sym (ap (Option.map (account s)) e) ∙ there)) in
            rw (e, update_server, get_server)
              (write_update-done draw id (updated draw.now srv r.profile) w db n f
                ∙ ap (λ p. done (updated draw.now srv p)) same)
      ]

  accounts-game :
      (now : ℕ) (id game : Text) (db : Database)
      → accounts s (set_game now id game db).1
        ≡ game_account now id game (accounts s db id) (accounts s db)
  unfolding set_game
  accounts-game now id game db = elim (Option-cases (find_key row_id id db.servers)) [
    | inl e ↦ rw (has_key_iff_find row_id id db.servers) (rw e refl)
    | inr (r, e) ↦
        rw (has_key_iff_find row_id id db.servers)
          (rw e ((accounts-modify id _ db r (λ x. refl) e).0))
  ]

  accounts-insert :
      (r : ServerRow) (db : Database)
      → accounts s (insert_server r db).1 ≡ (
          if is_some (accounts s db (row_id r))
          then accounts s db
          else put (row_id r) (some (account s r)) (accounts s db))
  unfolding insert_server
  accounts-insert r db = fun_ext λ k. ground (
    arith,
    find_key-append row_id k db.servers r,
    has_key_iff_find row_id (row_id r) db.servers,
    has_key_iff_find row_id k db.servers,
    ===_comm k (row_id r),
    ===_iff k (row_id r),
  )

  accounts-create :
      (draw : Draw) (srv : Profile) (w : Text) (db : Database)
      → fits_nonce size draw.nonce ≡ true
      → accounts s (create_server s draw srv w db).1 ≡ create_account draw srv w (accounts s db)
  unfolding create_server
  accounts-create draw srv w db f = elim (Bool-cases (is_empty srv.name || is_empty srv.addr)) [
    | inl e ↦ rw e refl
    | inr e ↦ elim (seal-cases draw.nonce w f) [
      | inl (n, q) ↦ rw e (rw (q, n) refl)
      | inr (n, (sealed, q, o)) ↦ rw e (
          rw (q, n)
            (accounts-insert (record { profile = new_profile draw srv; password = sealed }) db
              ∙ ap
                  (λ v.
                    if is_some (accounts s db draw.new_id)
                    then accounts s db
                    else put draw.new_id
                        (some (record { profile = new_profile draw srv; password = v }))
                        (accounts s db))
                  o))
    ]
  ]

  -- Each operation does to the accounts what it says, where it draws nonces of the cipher's size.
  accounts-step :
      (op : StoreOp) (db : Database)
      → fits size op ≡ true
      → accounts s (store_step s op db) ≡ account_step op (accounts s db)
  unfolding store_step add_history create_macro delete_macro
  accounts-step (creates draw srv w) db f = accounts-create draw srv w db f
  accounts-step (updates draw id srv w) db f = accounts-update draw id srv w db f
  accounts-step (names_game now id game) db f = accounts-game now id game db
  accounts-step (deletes id) db f = accounts-delete s id db
  accounts-step (records now id command) db f = fun_ext λ k. ground arith
  accounts-step (saves_macro new_id macro) db f = fun_ext λ k. ground arith
  accounts-step (drops_macro id) db f = fun_ext λ k. ground arith

  pub accounts-run_store :
      (ops : List StoreOp) (db : Database)
      → all (fits size) ops ≡ true
      → accounts s (run_store s ops db) ≡ run_accounts ops (accounts s db)
  unfolding run_store
  accounts-run_store [] db f = refl
  accounts-run_store (op ∷ ops) db f =
      accounts-run_store ops (store_step s op db) (ground arith)
      ∙ ap (run_accounts ops) (accounts-step op db (ground arith))

  -- With a sealer that opens what it seals, and nonces of the cipher's size drawn: after any run
  -- of the store's operations on a new database, errors among them, a profile and its password
  -- read as those of the map from ids to accounts in plain on which the operations act one by one.
  pub run_store-accounts :
      (ops : List StoreOp) (id : Text)
      → all (fits size) ops ≡ true
      → let a = run_accounts ops (λ _. none) id in
        (get_server id (run_store s ops new_database) ≡ get_account a)
        × (password s id (run_store s ops new_database) ≡ open_account a)
  run_store-accounts ops id f =
      let same : accounts s (run_store s ops new_database) id ≡ run_accounts ops (λ _. none) id =
        ap (λ m. m id) (accounts-run_store ops new_database f) in
      (
        get_server-accounts s id (run_store s ops new_database) ∙ ap get_account same,
        password-accounts s id (run_store s ops new_database) ∙ ap open_account same,
      )
