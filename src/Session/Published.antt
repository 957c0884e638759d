-- ===== src/Session/Published.antt =====
-- The log of the hub after a command.
use rcon_ui.Text.{◌===◌}
use rcon_ui.Events.{response, status, error}
use rcon_ui.Sidebar.{disconnected}
use rcon_ui.Session.{Session, drop_client, set_status, same_status}
use rcon_ui.Session.Commands.{Turns, answered, failed, status_line, status_event, status_events}
use rcon_ui.Base.{
  ℕ, ◌+◌, ◌^◌, ◌<◌, ◌≡◌, refl, sym, ap, ap₂, ◌∙◌, subst, inl, inr, Bool, ◌&&◌, none, List, [], ◌∷◌,
  ◌++◌, map, append-nil, append_assoc, arith, if◌then◌else◌, Bool-cases, length, drop,
  length-append,
}
use rcon_ui.Text.{Text, codes, ===_refl}
use rcon_ui.Text.Dict.{lookup, erase, lookup-erase}
use rcon_ui.Events.{RconEvent, command}
use rcon_ui.Hub.{Hub, publish, stamp, next_seq}
use rcon_ui.Hub.Log.{HasLog, HasLog-publish}
use rcon_ui.Session.Manager.{Manager, disconnect}
use rcon_ui.Session.Commands.{
  unsent, publish_all, World, Answer, answer_events, run_command, first_read, second_read,
}

-- The events with the numbers after `n`.
abbrev pub stamp_all : Text → ℕ → List RconEvent → List RconEvent
stamp_all now n [] = []
stamp_all now n (e ∷ es) = stamp now (n + 1) e ∷ stamp_all now (n + 1) es

HasLog-publish_all :
    (now : Text) (es : List RconEvent) (log : List RconEvent) (h : Hub)
    → HasLog log h
    → length log + length es < 2 ^ 64
    → HasLog (log ++ stamp_all now (length log) es) (publish_all now es h)
unfolding publish_all
HasLog-publish_all now [] log h v b =
    subst (λ (l : List RconEvent). HasLog l h) (sym (append-nil log)) v
HasLog-publish_all now (e ∷ es) log h v b =
    let next : next_seq h ≡ length log + 1 = omega (arith, v.count, b) in
    let log1 : List RconEvent = log ++ stamp now (next_seq h) e ∷ [] in
    let long : length log1 ≡ length log + 1 =
      omega (arith, length-append log (stamp now (next_seq h) e ∷ [])) in
    let same : log1 ++ stamp_all now (length log1) es
        ≡ log ++ stamp now (length log + 1) e ∷ stamp_all now (length log + 1) es =
      append_assoc log (stamp now (next_seq h) e ∷ []) (stamp_all now (length log1) es)
      ∙ ap₂ (λ n k. log ++ stamp now n e ∷ stamp_all now k es) next long in
    let first = HasLog-publish log h now e v (omega (arith, v.count, b)) in
    subst (λ (l : List RconEvent). HasLog l (publish_all now es (publish now e h))) same
      (HasLog-publish_all now es log1 (publish now e h) first (omega (arith, long, b)))

publish_all-append :
    (now : Text) (es fs : List RconEvent) (h : Hub)
    → publish_all now (es ++ fs) h ≡ publish_all now fs (publish_all now es h)
unfolding publish_all
publish_all-append now [] fs h = refl
publish_all-append now (e ∷ es) fs h = publish_all-append now es fs (publish now e h)

-- The line of a status of a failure, as it stands in the console.
abbrev pub failure_line : Text → Text
failure_line [] = codes "disconnected"
failure_line (c ∷ err) = codes "disconnected: " ++ c ∷ err

-- What a command leaves in the log once it is answered, by the session that `set_status` finds.
abbrev pub expected : Text → Session → Turns → Answer → List RconEvent
expected profile s ts (answered line) = unsent profile (codes "rcon") response line ∷ []
expected profile s ts (failed err) =
    ts.first
    ++ (if same_status (ts.turn (drop_client s)).status disconnected
          && ((ts.turn (drop_client s)).last_err === err)
        then []
        else unsent profile (codes "system") status (failure_line err) ∷ [])
    ++ ts.later
    ++ unsent profile (codes "rcon") error err ∷ []

drop-append_one {ℓ} : {A : Type ℓ} (xs : List A) (y : A) → drop (length xs) (xs ++ y ∷ []) ≡ y ∷ []
drop-append_one [] y = refl
drop-append_one (x ∷ xs) y = drop-append_one xs y

drop_all {ℓ} : {A : Type ℓ} (xs : List A) → drop (length xs) xs ≡ []
drop_all [] = refl
drop_all (x ∷ xs) = drop_all xs

status_line_lem : (err : Text) → status_line (disconnected, err) ≡ failure_line err
status_line_lem [] = refl
status_line_lem (c ∷ err) = refl

status_events_lem :
    (profile err : Text) (s : Session)
    → status_events profile s (set_status disconnected err s) ≡ (
        if same_status s.status disconnected && (s.last_err === err)
        then []
        else unsent profile (codes "system") status (failure_line err) ∷ [])
unfolding set_status
status_events_lem profile err s =
    elim (Bool-cases (same_status s.status disconnected && (s.last_err === err))) [
      | inl e ↦ rw e (ap (map (status_event profile)) (drop_all s.log))
      | inr e ↦ rw e (
          ap (map (status_event profile)) (drop-append_one s.log (disconnected, err))
          ∙ ap (λ l. unsent profile (codes "system") status l ∷ []) (status_line_lem err))
    ]

answer_events_lem :
    (profile : Text) (s : Session) (ts : Turns) (answer : Answer)
    → answer_events profile s ts answer ≡ expected profile s ts answer
unfolding answer_events
answer_events_lem profile s ts (answered line) = refl
answer_events_lem profile s ts (failed err) =
    ap (λ es. ts.first ++ es ++ ts.later ++ unsent profile (codes "rcon") error err ∷ [])
      (status_events_lem profile err (ts.turn (drop_client s)))

-- After a command the hub's log goes on with the command, what others published meanwhile, and then the
-- answer: the response; or, with what others publish in between, the status `disconnected` with the
-- failure, unless the session has it already, and the error. They are numbered without a gap, where
-- the numbers do not wrap.
pub run_command_lem :
    (now : Text) (stores : Bool) (profile cmd : Text) (others : List RconEvent) (ts : Turns)
    (answer : Answer) (w : World) (log : List RconEvent)
    → HasLog log w.hub
    → let sent =
        unsent profile (codes "rcon") command cmd ∷ others
        ++ expected profile w.session ts answer in
      length log + length sent < 2 ^ 64
      → HasLog
          (log ++ stamp_all now (length log) sent)
          (run_command now stores profile cmd others ts answer w).hub
unfolding run_command
run_command_lem now stores profile cmd others ts answer w log v b =
    let first = unsent profile (codes "rcon") command cmd in
    let rest = expected profile w.session ts answer in
    subst (HasLog (log ++ stamp_all now (length log) (first ∷ others ++ rest)))
      (publish_all-append now others rest (publish now first w.hub)
        ∙ ap (λ es. publish_all now es (publish_all now others (publish now first w.hub)))
            (sym (answer_events_lem profile w.session ts answer)))
      (HasLog-publish_all now (first ∷ others ++ rest) log w.hub v b)

-- Between the two critical sections in which `Execute` looks for the session, a `Disconnect` of the
-- same profile leaves none to be found.
pub session_lost :
    (id : Text) (m : Manager) → second_read id (disconnect id (first_read id m)) ≡ none
unfolding second_read disconnect
session_lost id m =
    let rest = (first_read id m).sessions in
    let gone : lookup id (erase id rest) ≡ none = lookup-erase id id rest ∙ rw (===_refl id) refl in
    gone
