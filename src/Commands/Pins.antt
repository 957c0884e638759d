-- ===== src/Commands/Pins.antt =====
-- Pins survive a reload, and toggling one touches no other.
use rcon_ui.Base.{
  ◌≡◌, ap, ◌∙◌, ◌≢◌, inl, inr, true, false, some, List, [], ◌∷◌, ◌++◌, arith, if◌then◌else◌,
  Bool-cases,
}
use rcon_ui.Text.{codes, Text, ◌===◌, ===_refl, ===_iff}
use rcon_ui.Text.Dict.{lookup, insert, lookup-insert}
use rcon_ui.Text.TextSet.{of_list, toggle, unique, unique-toggle, unique-of_list, of_list-unique}
use rcon_ui.Commands.{Storage, stored_pins, pins_key, load_pins, toggle_pin}

-- Loading gives a set.
pub unique-load_pins :
    (server_id : Text) (storage : Storage) → unique (load_pins server_id storage) ≡ true
unfolding load_pins
unique-load_pins server_id storage =
    unique-of_list (stored_pins (lookup (pins_key server_id) storage))

-- The pins read from a key just written.
stored_pins-insert :
    (j k : Text) (names : List Text) (storage : Storage)
    → stored_pins (lookup k (insert j (some names) storage))
      ≡ (if j === k then names else stored_pins (lookup k storage))
stored_pins-insert j k names storage =
    ap stored_pins (lookup-insert j k (some names) storage) ∙ ground arith

-- What a toggle writes is what a reload reads, for the pins of a loaded set.
pub load-toggle_pin :
    (server_id name : Text) (pins : List Text) (storage : Storage)
    → unique pins ≡ true
    → load_pins server_id (toggle_pin server_id name pins storage).1
      ≡ (toggle_pin server_id name pins storage).0
unfolding load_pins toggle_pin
load-toggle_pin server_id name pins storage u =
    ap of_list {y = toggle name pins} (
      stored_pins-insert (pins_key server_id) (pins_key server_id) (toggle name pins) storage
      ∙ rw (===_refl (pins_key server_id)))
    ∙ of_list-unique (toggle name pins) (unique-toggle name pins u)

codes_inj : (xs s t : Text) → xs ++ s ≡ xs ++ t → s ≡ t
codes_inj [] s t h = h
codes_inj (x ∷ xs) s t h = codes_inj xs s t (cc)

pins_key_apart : (s t : Text) → s ≢ t → (pins_key s === pins_key t) ≡ false
unfolding pins_key
pins_key_apart s t ne = elim (Bool-cases (pins_key s === pins_key t)) [
  | inl e ↦
      absurd (ne (codes_inj (codes "rcon-ui:pins:") s t ((===_iff (pins_key s) (pins_key t)).0 e)))
  | inr e ↦ e
]

-- Pins of one server are not touched by toggles for another.
pub load-toggle_pin_other :
    (server_id other name : Text) (pins : List Text) (storage : Storage)
    → server_id ≢ other
    → load_pins other (toggle_pin server_id name pins storage).1 ≡ load_pins other storage
unfolding load_pins toggle_pin
load-toggle_pin_other server_id other name pins storage ne =
    ap of_list {y = stored_pins (lookup (pins_key other) storage)} (
      stored_pins-insert (pins_key server_id) (pins_key other) (toggle name pins) storage
      ∙ rw (pins_key_apart server_id other ne))
