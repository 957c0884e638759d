-- ===== src/App/History.antt =====
-- The local history of commands.
use rcon_ui.Base.{
  ◌≡◌, refl, true, not, ◌||◌, some, List, arith, get_elem?, filter, All-filter, filter-All,
}
use rcon_ui.Text.{Text, ◌===◌, ===_refl}
use rcon_ui.Text.DictKeys.{===_comm}
use rcon_ui.Text.ObjectKeys.{contains, contains-filter}
use rcon_ui.Text.TextSet.{unique, unique-filter}
use rcon_ui.App.{remember}

contains-remember :
    (command k : Text) (history : List Text)
    → contains k (remember command history) ≡ ((command === k) || contains k history)
unfolding remember
contains-remember command k history =
    ground (arith, contains-filter (λ c. not (c === command)) k history, ===_comm command k)

unique-remember :
    (command : Text) (history : List Text)
    → unique history ≡ true
    → unique (remember command history) ≡ true
unfolding remember
unique-remember command history h = ground (
  arith,
  contains-filter (λ c. not (c === command)) command history,
  ===_refl command,
  unique-filter (λ c. not (c === command)) history h,
)

filter-remember :
    (command : Text) (history : List Text)
    → filter (λ c. not (c === command)) (remember command history)
      ≡ filter (λ c. not (c === command)) history
unfolding remember
filter-remember command history = ground (
  arith,
  ===_refl command,
  filter-All (λ c. not (c === command)) (filter (λ c. not (c === command)) history)
      (All-filter (λ c. not (c === command)) history),
)

-- A command that is run becomes the newest of the history, stands in it once, and leaves the other
-- commands in their order.
pub remember_lem :
    (command : Text) (history : List Text)
    → unique history ≡ true
    → (get_elem? (remember command history) 0 ≡ some command)
      × (unique (remember command history) ≡ true)
      × (filter (λ c. not (c === command)) (remember command history)
          ≡ filter (λ c. not (c === command)) history)
unfolding remember
remember_lem command history h =
    (refl, unique-remember command history h, filter-remember command history)
