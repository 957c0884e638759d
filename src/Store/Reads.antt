-- ===== src/Store/Reads.antt =====
-- The reads of internal/store/store.go, and its deletion, as those of the accounts in plain.
use rcon_ui.Base.{◌≡◌, refl, fun_ext, inl, inr, arith, Option-cases}
use rcon_ui.Text.{Text, ===_iff}
use rcon_ui.Text.Keyed.{find_key}
use rcon_ui.Text.Table.{has_key_iff_find, find_key-remove}
use rcon_ui.Secret.{Sealer}
use rcon_ui.Store.{Database, row_id, get_server, delete_server, password}
use mathlib.Core.Option.{none}
use rcon_ui.Store.Plain.{accounts, put, get_account, open_account}

module _ (s : Sealer) where
  pub accounts-delete :
      (id : Text) (db : Database) → accounts s (delete_server id db).1 ≡ put id none (accounts s db)
  unfolding delete_server
  accounts-delete id db = fun_ext λ k. ground (
    arith,
    find_key-remove row_id k id db.servers,
    has_key_iff_find row_id id db.servers,
    ===_iff k id,
  )

  pub get_server-accounts :
      (id : Text) (db : Database) → get_server id db ≡ get_account (accounts s db id)
  unfolding get_server
  get_server-accounts id db = elim (Option-cases (find_key row_id id db.servers)) [
    | inl e ↦ rw (e, get_server) refl
    | inr (r, e) ↦ rw (e, get_server) refl
  ]

  pub password-accounts :
      (id : Text) (db : Database) → password s id db ≡ open_account (accounts s db id)
  unfolding password
  password-accounts id db = elim (Option-cases (find_key row_id id db.servers)) [
    | inl e ↦ rw (e, password) refl
    | inr (r, e) ↦ elim (Option-cases (s.unseal r.password)) [
      | inl q ↦ rw (e, q, password) refl
      | inr (w, q) ↦ rw (e, q, password) refl
    ]
  ]
