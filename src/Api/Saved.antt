-- ===== src/Api/Saved.antt =====
-- A save of the dialog, from the form to what the profile's next dial reads from the store.
use rcon_ui.Text.Dict.{erase, lookup, lookup-insert}
use rcon_ui.Sidebar.{Status, connecting, connected, auth_failed, Server, disconnected}
use rcon_ui.Api.Profiles.{
  with_password, connect_unless, Service, of_request, handle_update_server, handle_save,
  dial_target, saved, restarted,
}
use rcon_ui.Store.Plain.{
  revealed, Account, accounts, update_account, fits_nonce, get_account, open_account,
}
use rcon_ui.Store.Refines.{accounts-update, update_server-done}
use rcon_ui.Store.Reads.{get_server-accounts, password-accounts}
use rcon_ui.Base.{
  ℕ, ◌≡◌, refl, sym, ap, ap₂, ◌∙◌, ◌≢◌, true, Option, none, some, [], ◌∷◌, if◌then◌else◌, coalesce,
  is_some,
}
use rcon_ui.Text.{Text, is_empty, ===_refl}
use rcon_ui.Secret.{Sealer, IsSealer}
use rcon_ui.Session.{new_session}
use rcon_ui.Session.Manager.{Manager, status, connect}
use rcon_ui.ServerDialog.{Form, request, input}
use rcon_ui.ServerDialog.Daemon.{decode}
use rcon_ui.Store.{Profile, Database, Draw, StoreResult, done, failed, updated, update_server}

dial_target-accounts :
    (s : Sealer) (id : Text) (db : Database)
    → dial_target s id db
      ≡ with_password (get_account (accounts s db id)) (open_account (accounts s db id))
unfolding dial_target
dial_target-accounts s id db =
    ap₂ with_password (get_server-accounts s id db) (password-accounts s id db)

of_revealed :
    (q p : Profile) (o : Option Text) (w : Text)
    → with_password (done q) (revealed o) ≡ done (p, w)
    → (q ≡ p) × (o ≡ some w)
of_revealed q p none w h = cc
of_revealed q p (some v) w h = (cc, cc)

-- Only an account whose password opens can be dialled.
of_account :
    (o : Option Account) (p : Profile) (w : Text)
    → with_password (get_account o) (open_account o) ≡ done (p, w)
    → o ≡ some (record { profile = p; password = some w })
of_account none p w h = cc
of_account (some a) p w h =
    let (e, q) = of_revealed a.profile p a.password w h in
    λ i. some (record { profile = e i; password = q i })

saved_done :
    (id : Text) (m : Manager) (r : StoreResult Profile × Database) (p : Profile)
    → r.0 ≡ done p
    → (saved id m r).1 ≡ record { manager = restarted id m; database = r.1 }
saved_done id m (failed e, db) p h = cc
saved_done id m (done q, db) p h = refl

connect_unless_lem :
    (st : Status) (id : Text) (m : Manager)
    → st ≢ disconnected
    → lookup id (connect_unless st id m).sessions ≡ some new_session
unfolding connect
connect_unless_lem disconnected id m h = elim (h refl) [ ]
connect_unless_lem connecting id m h =
    lookup-insert id id new_session (erase id m.sessions) ∙ rw (===_refl id) refl
connect_unless_lem connected id m h =
    lookup-insert id id new_session (erase id m.sessions) ∙ rw (===_refl id) refl
connect_unless_lem auth_failed id m h =
    lookup-insert id id new_session (erase id m.sessions) ∙ rw (===_refl id) refl

-- The account that an update leaves for the profile.
update_account_self :
    (draw : Draw) (id : Text) (srv : Profile) (o : Option Text) (p : Profile) (w : Text)
    (m : Text → Option Account)
    → is_some draw.nonce ≡ true
    → update_account draw id srv o (some (record { profile = p; password = some w })) m id
      ≡ some (record { profile = updated draw.now srv p; password = some (coalesce o w) })
update_account_self draw id srv none p w m n = rw (===_refl id) refl
update_account_self draw id srv (some v) p w m n = rw n (rw (===_refl id) refl)

coalesce_typed :
    (t w : Text) → coalesce (if is_empty t then none else some t) w ≡ (if is_empty t then w else t)
coalesce_typed [] w = refl
coalesce_typed (c ∷ t) w = refl

-- A save of the dialog for a profile that can be dialled, with a sealer that opens what it seals
-- and a nonce of the cipher's size drawn: the next dial of the profile takes the name, the address
-- and the protocol of the form, or the old ones where the form has none, its group and TLS switch,
-- its TLS name if the switch is on, and no game, at the id and times that the profile has, and the
-- password that was typed, or the old one if none was; and a session that was not disconnected, one
-- whose password was refused among them, is a new one.
pub save_dials :
    (s : Sealer) (size : ℕ) (draw : Draw) (server : Server) (f : Form) (v : Service) (old : Profile)
    (w : Text)
    → IsSealer s size
    → is_some draw.nonce ≡ true
    → fits_nonce size draw.nonce ≡ true
    → dial_target s server.id v.database ≡ done (old, w)
    → let v' = (handle_save s draw (request (some server) f) v).1 in
      (dial_target s server.id v'.database
        ≡ done (
          record old {
            name = if is_empty f.name then old.name else f.name;
            addr = if is_empty f.addr then old.addr else f.addr;
            protocol = if is_empty f.protocol then old.protocol else f.protocol;
            group = f.group;
            game = [];
            tls = f.tls;
            server_name = if f.tls then f.server_name else [];
            updated_at = draw.now;
          },
          if is_empty f.password then w else f.password,
        ))
      × (status server.id v.manager ≢ disconnected
          → lookup server.id v'.manager.sessions ≡ some new_session)
unfolding handle_save request handle_update_server decode
save_dials s size draw server f v old w h drawn fits before =
    let typed : Option Text = if is_empty f.password then none else some f.password in
    let srv = of_request (decode (input f none)) in
    let there : accounts s v.database server.id
        ≡ some (record { profile = old; password = some w }) =
      of_account _ old w (sym (dial_target-accounts s server.id v.database) ∙ before) in
    let result = update_server s draw server.id srv typed v.database in
    let after : accounts s result.1 server.id
        ≡ some (record { profile = updated draw.now srv old; password = some (coalesce typed w) }) =
      ap (λ m. m server.id) (accounts-update s size h draw server.id srv typed v.database fits)
      ∙ ap (λ a. update_account draw server.id srv typed a (accounts s v.database) server.id) there
      ∙ update_account_self draw server.id srv typed old w (accounts s v.database) drawn in
    let made =
      saved_done server.id v.manager result (updated draw.now srv old)
        (update_server-done s size h draw server.id srv typed v.database _ drawn fits there) in
    (
      ap (λ x. dial_target s server.id x.database) made
          ∙ dial_target-accounts s server.id result.1
          ∙ ap (λ o. with_password (get_account o) (open_account o)) after
          ∙ ap (λ x. done (updated draw.now srv old, x)) (coalesce_typed f.password w),
      λ n.
          ap (λ x. lookup server.id x.manager.sessions) made
          ∙ connect_unless_lem (status server.id v.manager) server.id v.manager n,
    )
