-- ===== src/Session/Manager.antt =====
-- The manager: its sessions by their profiles, and those that it has taken off its map, whose
-- supervisors may still run. An operation under the manager's mutex is one step.
use rcon_ui.Base.{◌≡◌, refl, ap, ◌∙◌, true, false, Option, none, some, List, [], ◌∷◌, All}
use rcon_ui.Text.{Text, ◌===◌, ===_refl}
use rcon_ui.Text.Dict.{lookup, insert, erase, lookup-insert, lookup-erase}
use rcon_ui.Sidebar.{Status, disconnected}
use rcon_ui.Session.{Session, new_session, stop, set_status}
use rcon_ui.Session.Fields.{set_status-IsKept}

pub record Manager : Type 0 where
  pub sessions : List (Text × Session)
  pub retired : List Session

abbrev pub new_manager : Manager
new_manager = record { sessions = []; retired = [] }

abbrev pub retire_on_connect : Option Session → List Session → List Session
retire_on_connect none others = others
retire_on_connect (some s) others = stop s ∷ others

unfoldable pub connect : Text → Manager → Manager
unfolding stop insert erase
connect id m = record {
  sessions = insert id new_session (erase id m.sessions);
  retired = retire_on_connect (lookup id m.sessions) m.retired;
}

abbrev pub retire_on_disconnect : Option Session → List Session → List Session
retire_on_disconnect none others = others
retire_on_disconnect (some s) others = set_status disconnected [] (stop s) ∷ others

unfoldable pub disconnect : Text → Manager → Manager
unfolding set_status stop erase
disconnect id m = record {
  sessions = erase id m.sessions;
  retired = retire_on_disconnect (lookup id m.sessions) m.retired;
}

-- A profile without a session reads as disconnected.
abbrev pub status_of : Option Session → Status
status_of none = disconnected
status_of (some s) = s.status

unfoldable pub status : Text → Manager → Status
status id m = status_of (lookup id m.sessions)

abbrev pub stopped : List (Text × Session) → List Session → List Session
stopped [] others = others
stopped ((id, s) ∷ rest) others = stop s ∷ stopped rest others

-- `Close`, before it waits for the supervisors.
unfoldable pub close_all : Manager → Manager
unfolding stop
close_all m = record { sessions = []; retired = stopped m.sessions m.retired }

abbrev IsCancelled : Session → Type 0
IsCancelled s = s.cancelled ≡ true

-- Who is off the map is told to end.
abbrev pub IsRetired : Manager → Type 0
IsRetired m = All IsCancelled m.retired

IsCancelled-stop : (s : Session) → IsCancelled (stop s)
unfolding stop
IsCancelled-stop s = refl

retire_on_connect_lem :
    (o : Option Session) (l : List Session)
    → All IsCancelled l
    → All IsCancelled (retire_on_connect o l)
retire_on_connect_lem none l h = h
retire_on_connect_lem (some s) l h = (IsCancelled-stop s, h)

retire_on_disconnect_lem :
    (o : Option Session) (l : List Session)
    → All IsCancelled l
    → All IsCancelled (retire_on_disconnect o l)
retire_on_disconnect_lem none l h = h
retire_on_disconnect_lem (some s) l h =
    ((set_status-IsKept disconnected [] (stop s)).cancelled ∙ IsCancelled-stop s, h)

stopped_lem :
    (ss : List (Text × Session)) (l : List Session)
    → All IsCancelled l
    → All IsCancelled (stopped ss l)
stopped_lem [] l h = h
stopped_lem ((id, s) ∷ ss) l h = (IsCancelled-stop s, stopped_lem ss l h)

-- Connecting, disconnecting and closing: the supervisor of a session that is taken off the map is told
-- to end; a profile then reads as disconnected, and no other profile's status changes but by `close_all`.
pub manager_lem :
    (id other : Text) (m : Manager)
    → IsRetired m
    → IsRetired (connect id m)
      × IsRetired (disconnect id m)
      × IsRetired (close_all m)
      × (status id (connect id m) ≡ disconnected)
      × (status id (disconnect id m) ≡ disconnected)
      × ((id === other) ≡ false
          → (status other (connect id m) ≡ status other m)
            × (status other (disconnect id m) ≡ status other m))
unfolding connect disconnect close_all status
manager_lem id other m h =
    let fresh : lookup id (insert id new_session (erase id m.sessions)) ≡ some new_session =
      lookup-insert id id new_session (erase id m.sessions) ∙ rw (===_refl id) refl in
    let gone : lookup id (erase id m.sessions) ≡ none =
      lookup-erase id id m.sessions ∙ rw (===_refl id) refl in
    (
      retire_on_connect_lem (lookup id m.sessions) m.retired h,
      retire_on_disconnect_lem (lookup id m.sessions) m.retired h,
      stopped_lem m.sessions m.retired h,
      ap status_of fresh,
      ap status_of gone,
      λ e.
          let kept : lookup other (erase id m.sessions) ≡ lookup other m.sessions =
            lookup-erase id other m.sessions ∙ rw e refl in
          let beside : lookup other (insert id new_session (erase id m.sessions))
              ≡ lookup other m.sessions =
            lookup-insert id other new_session (erase id m.sessions) ∙ rw e kept in
          (ap status_of beside, ap status_of kept),
    )
