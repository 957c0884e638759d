-- ===== src/Session/Steps.antt =====
-- How a session goes on: steps of its supervisor, of commands on it, and of the manager, in any order.
use rcon_ui.Base.{ℕ, ◌≡◌, true, List, [], ◌∷◌, ◌++◌}
use rcon_ui.Text.{Text}
use rcon_ui.Sidebar.{disconnected}
use rcon_ui.Session.{
  Session, top, checked, dialing, sleeping, finished, installed, serving, is_closed, set_status,
  stop, begin_failure, end_failure, client_ready, wait_ready, check_context, start_dial,
  dial_refused, dial_failed, wake, install, serve, go_to,
}

pub data Step (s : Session) : Session → Type 0 where
  checks : s.phase ≡ top → Step s (check_context s)
  dials_on : s.phase ≡ checked → Step s (start_dial s)
  is_refused : s.phase ≡ dialing → (err : Text) → Step s (dial_refused err s)
  is_failed : s.phase ≡ dialing → (err : Text) → Step s (dial_failed err s)
  is_dialed : s.phase ≡ dialing → (c : ℕ) → Step s (install c s)
  wakes : s.phase ≡ sleeping → Step s (wake s)
  leaves_sleep : s.phase ≡ sleeping → s.cancelled ≡ true → Step s (go_to finished s)
  serves : (b : ℕ) → s.phase ≡ installed b → Step s (serve b s)
  notices : (b : ℕ) → s.phase ≡ serving b → is_closed b s.closed ≡ true → Step s (go_to top s)
  leaves : (b : ℕ) → s.phase ≡ serving b → s.cancelled ≡ true → Step s (go_to finished s)
  -- A command gets the client; it is answered; or it fails, and takes the lock again for the status.
  takes : (c : ℕ) → wait_ready s ≡ client_ready c → Step s (record s { held = c ∷ s.held })
  answers :
      (before after : List ℕ) (c : ℕ)
      → s.held ≡ before ++ c ∷ after
      → Step s (record s { held = before ++ after })
  fails :
      (before after : List ℕ) (c : ℕ) (err : Text)
      → s.held ≡ before ++ c ∷ after
      → Step s (begin_failure err (record s { held = before ++ after }))
  reports :
      (before after : List Text) (err : Text)
      → s.failing ≡ before ++ err ∷ after
      → Step s (end_failure err (before ++ after) s)
  -- `stop`, and what `Disconnect` does after it.
  stops : Step s (stop s)
  is_cleared : s.cancelled ≡ true → Step s (set_status disconnected [] s)

pub data Reach (s : Session) : Session → Type 0 where
  here : Reach s s
  next : {t u : Session} → Reach s t → Step t u → Reach s u
