-- ===== src/Store/Plain.antt =====
-- What the operations of internal/store/store.go do to the profiles and their passwords in plain: the
-- table of sealed rows as a function of the ids.
use rcon_ui.Store.{
  StoreResult, done, failed, no_row, cannot_seal, Profile, ServerRow, Database, Draw, row_id,
  new_profile, updated,
}
use rcon_ui.Base.{ℕ, Bool, true, not, ◌||◌, List, [], ◌∷◌, ◌==◌, if◌then◌else◌, is_some, length}
use rcon_ui.Text.{Text, is_empty, ◌===◌}
use rcon_ui.Text.Keyed.{find_key}
use rcon_ui.Secret.{Bytes, Sealer}
use rcon_ui.Store.Runs.{
  StoreOp, creates, updates, names_game, deletes, records, saves_macro, drops_macro,
}
use mathlib.Core.Option.{some, Option, none}
use mathlib.Core.Option

-- A profile with its password, none where that cannot be opened.
pub record Account : Type 0 where
  pub profile : Profile
  pub password : Option Text

abbrev pub Accounts : Type 0
Accounts = Text → Option Account

abbrev pub account : Sealer → ServerRow → Account
account s r = record { profile = r.profile; password = s.unseal r.password }

abbrev pub accounts : Sealer → Database → Accounts
accounts s db = λ id. Option.map (account s) (find_key row_id id db.servers)

abbrev pub put : Text → Option Account → Accounts → Accounts
put id a m = λ k. if k === id then a else m k

abbrev pub create_account : Draw → Profile → Text → Accounts → Accounts
create_account draw srv w m =
    if is_empty srv.name || is_empty srv.addr
    then m
    else if not (is_some draw.nonce) || is_some (m draw.new_id)
    then m
    else put draw.new_id (some (record { profile = new_profile draw srv; password = some w })) m

abbrev pub update_account :
    Draw → Text → Profile → Option Text → Option Account → Accounts → Accounts
update_account draw id srv w none m = m
update_account draw id srv none (some a) m =
    put id (some (record a { profile = updated draw.now srv a.profile })) m
update_account draw id srv (some w) (some a) m =
    if is_some draw.nonce
    then put id (some (record { profile = updated draw.now srv a.profile; password = some w })) m
    else m

abbrev pub game_account : ℕ → Text → Text → Option Account → Accounts → Accounts
game_account now id game none m = m
game_account now id game (some a) m =
    put id (some (record a { profile = record a.profile { game = game; updated_at = now } })) m

-- What an operation does to the accounts.
abbrev pub account_step : StoreOp → Accounts → Accounts
account_step (creates draw srv w) m = create_account draw srv w m
account_step (updates draw id srv w) m = update_account draw id srv w (m id) m
account_step (names_game now id game) m = game_account now id game (m id) m
account_step (deletes id) m = put id none m
account_step (records now id command) m = m
account_step (saves_macro new_id macro) m = m
account_step (drops_macro id) m = m

abbrev pub run_accounts : List StoreOp → Accounts → Accounts
run_accounts [] m = m
run_accounts (op ∷ ops) m = run_accounts ops (account_step op m)

-- The nonces that an operation draws have the size of the cipher's.
abbrev pub fits_nonce : ℕ → Option Bytes → Bool
fits_nonce size none = true
fits_nonce size (some nonce) = length nonce == size

abbrev pub fits : ℕ → StoreOp → Bool
fits size (creates draw srv w) = fits_nonce size draw.nonce
fits size (updates draw id srv w) = fits_nonce size draw.nonce
fits size (names_game now id game) = true
fits size (deletes id) = true
fits size (records now id command) = true
fits size (saves_macro new_id macro) = true
fits size (drops_macro id) = true

-- What the reads answer for an account.
abbrev pub get_account : Option Account → StoreResult Profile
get_account none = failed no_row
get_account (some a) = done a.profile

abbrev pub revealed : Option Text → StoreResult Text
revealed none = failed cannot_seal
revealed (some w) = done w

abbrev pub open_account : Option Account → StoreResult Text
open_account none = failed no_row
open_account (some a) = revealed a.password
