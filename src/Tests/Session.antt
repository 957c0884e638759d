-- ===== src/Tests/Session.antt =====
-- Sessions that connect, break and are refused, and the manager that keeps them.
use rcon_ui.Base.{ℕ, ◌≤◌, ◌≡◌, refl, ◌≢◌, ◌⊎◌, some, List, [], ◌∷◌, ◌++◌, All}
use rcon_ui.Text.{Text, codes}
use rcon_ui.Sidebar.{disconnected, auth_failed}
use rcon_ui.Session.{
  begin_failure, end_failure, Session, new_session, top, finished, serving, set_status, stop,
  drop_client, mark_broken, wait_ready, check_context, start_dial, dial_refused, install, serve,
  go_to, refused, not_yet,
}
use rcon_ui.Session.Steps.{
  reports, Step, Reach, here, next, checks, dials_on, is_dialed, serves, takes, fails, stops,
}
use rcon_ui.Session.Channels.{HasChannels, Reach-HasChannels}
use rcon_ui.Session.Refused.{dial_refused_lem, refusal_lost}
use rcon_ui.Session.Wakes.{supervisor_goes_on}
use rcon_ui.Session.Backoff.{lost, retries, backoff_lem}

abbrev timeout : Text
timeout = codes "timeout"

-- The session in `dial`, for the first time.
abbrev first_dial : Session
first_dial = start_dial (check_context new_session)

-- It serves client 7.
abbrev on_seven : Session
on_seven = serve 2 (install 7 first_dial)

-- Two commands have it.
abbrev two_run : Session
two_run = record on_seven { held = 7 ∷ 7 ∷ [] }

-- One of them fails, and the supervisor dials again.
abbrev one_failed : Session
one_failed = end_failure timeout [] (begin_failure timeout (record two_run { held = 7 ∷ [] }))

abbrev second_dial : Session
second_dial = start_dial (check_context (go_to top one_failed))

Reach-first_dial : Reach new_session first_dial
unfolding check_context
Reach-first_dial = next (next here (checks refl)) (dials_on refl)

Reach-on_seven : Reach new_session on_seven
unfolding check_context start_dial set_status install
Reach-on_seven = next (next Reach-first_dial (is_dialed refl 7)) (serves 2 refl)

Reach-one_failed : Reach new_session one_failed
unfolding check_context start_dial set_status install serve wait_ready begin_failure
Reach-one_failed =
    next
      (next (next (next Reach-on_seven (takes 7 refl)) (takes 7 refl))
        (fails [] (7 ∷ []) 7 timeout refl))
      (reports [] [] timeout refl)

Reach-HasChannels_example : HasChannels one_failed
Reach-HasChannels_example = Reach-HasChannels one_failed Reach-one_failed

supervisor_goes_on_example :
    (on_seven.phase ≡ finished)
    ⊎ ((b c : ℕ) × (on_seven.phase ≡ serving b) × (on_seven.client ≡ some c))
    ⊎ ((t : Session) × Step on_seven t × (t.phase ≢ on_seven.phase))
supervisor_goes_on_example = supervisor_goes_on on_seven Reach-on_seven

abbrev six : List Text
six = timeout ∷ timeout ∷ timeout ∷ timeout ∷ timeout ∷ timeout ∷ []

-- Six failures at first, and six when the connection of client 7 is lost.
backoff_lem_example :
    All (λ n. (1 ≤ n) × (n ≤ 30)) on_seven.sleeps
    × ((retries six new_session).sleeps ≡ 1 ∷ 2 ∷ 4 ∷ 8 ∷ 16 ∷ 30 ∷ [])
    × ((retries six (lost 2 7 on_seven)).sleeps ≡ on_seven.sleeps ++ 1 ∷ 2 ∷ 4 ∷ 8 ∷ 16 ∷ 30 ∷ [])
backoff_lem_example = backoff_lem on_seven six 2 7 Reach-on_seven

abbrev rejected : Text
rejected = codes "authentication failed"

dial_refused_lem_example :
    ((dial_refused rejected second_dial).status ≡ auth_failed)
    × (wait_ready (dial_refused rejected second_dial) ≡ refused rejected)
    × ((stop (dial_refused rejected second_dial)).phase ≡ finished)
    × ((stop (dial_refused rejected second_dial)).dials ≡ second_dial.dials)
dial_refused_lem_example =
    dial_refused_lem rejected second_dial (stop (dial_refused rejected second_dial))
      (next here stops)

-- The second command fails after the password was refused.
abbrev refused_then_failed : Session
refused_then_failed = mark_broken timeout (record (dial_refused rejected second_dial) { held = [] })

refusal_lost_example :
    (refused_then_failed.status ≡ disconnected)
    × (wait_ready refused_then_failed ≡ not_yet)
    × (refused_then_failed.phase ≡ finished)
unfolding check_context start_dial set_status install serve mark_broken drop_client dial_refused
    end_failure begin_failure
refusal_lost_example =
    refusal_lost (dial_refused rejected second_dial) refused_then_failed [] [] 7 timeout refl refl
      here

-- The second command fails when the session serves client 8.
abbrev on_eight : Session
on_eight = serve 6 (install 8 second_dial)
