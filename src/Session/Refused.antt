-- ===== src/Session/Refused.antt =====
-- A refused password ends the supervisor for good.
use rcon_ui.Session.Fields.{
  begin_failure-IsKept, end_failure-IsKept, status-begin_failure, status-end_failure,
}
use rcon_ui.Session.Steps.{reports}
use rcon_ui.Base.{ℕ, ◌≡◌, refl, ◌∙◌, none, List, [], ◌∷◌, ◌++◌}
use rcon_ui.Text.{Text}
use rcon_ui.Sidebar.{disconnected, auth_failed}
use rcon_ui.Session.{
  Session, finished, not_yet, refused, wait_ready, mark_broken, stop, dial_refused,
}
use rcon_ui.Session.Steps.{
  Step, checks, dials_on, is_refused, is_failed, is_dialed, wakes, leaves_sleep, serves, notices,
  leaves, takes, answers, fails, stops, is_cleared, Reach, here, next,
}
use rcon_ui.Session.Fields.{
  set_status-IsKept, status-set_status, mark_broken-IsKept, status-mark_broken,
}

-- What a supervisor that has returned leaves as it is.
pub record IsOver (dials : ℕ) (s : Session) : Type 0 where
  pub over : s.phase ≡ finished
  pub no_more : s.dials ≡ dials

Step-IsOver : (dials : ℕ) (s t : Session) → Step s t → IsOver dials s → IsOver dials t
unfolding stop
Step-IsOver dials s t (checks p) v = let q = v.over in cc
Step-IsOver dials s t (dials_on p) v = let q = v.over in cc
Step-IsOver dials s t (is_refused p err) v = let q = v.over in cc
Step-IsOver dials s t (is_failed p err) v = let q = v.over in cc
Step-IsOver dials s t (is_dialed p c) v = let q = v.over in cc
Step-IsOver dials s t (wakes p) v = let q = v.over in cc
Step-IsOver dials s t (leaves_sleep p c) v = let q = v.over in cc
Step-IsOver dials s t (serves b p) v = let q = v.over in cc
Step-IsOver dials s t (notices b p c) v = let q = v.over in cc
Step-IsOver dials s t (leaves b p c) v = let q = v.over in cc
Step-IsOver dials s t (takes c p) v = record { over = v.over; no_more = v.no_more }
Step-IsOver dials s t (answers before after c p) v = record { over = v.over; no_more = v.no_more }
Step-IsOver dials s t (fails before after c err p) v =
    let k = begin_failure-IsKept err (record s { held = before ++ after }) in
    record { over = k.phase ∙ v.over; no_more = k.dials ∙ v.no_more }
Step-IsOver dials s t (reports before after err p) v =
    let k = end_failure-IsKept err (before ++ after) s in
    record { over = k.phase ∙ v.over; no_more = k.dials ∙ v.no_more }
Step-IsOver dials s t stops v = record { over = v.over; no_more = v.no_more }
Step-IsOver dials s t (is_cleared p) v =
    let k = set_status-IsKept disconnected [] s in
    record { over = k.phase ∙ v.over; no_more = k.dials ∙ v.no_more }

Reach-IsOver : (dials : ℕ) (s t : Session) → Reach s t → IsOver dials s → IsOver dials t
Reach-IsOver dials s t here v = v
Reach-IsOver dials s t (next {t = u} r st) v = Step-IsOver dials u t st (Reach-IsOver dials s u r v)

-- Once a server has refused the password the session reads as refused with its message, and whatever
-- then happens to it, it never dials again.
pub dial_refused_lem :
    (err : Text) (s t : Session)
    → Reach (dial_refused err s) t
    → ((dial_refused err s).status ≡ auth_failed)
      × (wait_ready (dial_refused err s) ≡ refused err)
      × (t.phase ≡ finished)
      × (t.dials ≡ s.dials)
unfolding dial_refused wait_ready
dial_refused_lem err s t r =
    let (st, e) = status-set_status auth_failed err s in
    let k = set_status-IsKept auth_failed err s in
    let v =
      Reach-IsOver s.dials (dial_refused err s) t r (record { over = refl; no_more = k.dials }) in
    (st, rw (st, e) refl, v.over, v.no_more)

-- A session that nothing will connect.
record IsHopeless (s : Session) : Type 0 where
  over : s.phase ≡ finished
  gone : s.client ≡ none
  down : s.status ≡ disconnected

hopeless_waits : (s : Session) → IsHopeless s → wait_ready s ≡ not_yet
unfolding wait_ready
hopeless_waits s v = rw v.down refl

Step-IsHopeless : (s t : Session) → Step s t → IsHopeless s → IsHopeless t
unfolding stop
Step-IsHopeless s t (checks p) v = let q = v.over in cc
Step-IsHopeless s t (dials_on p) v = let q = v.over in cc
Step-IsHopeless s t (is_refused p err) v = let q = v.over in cc
Step-IsHopeless s t (is_failed p err) v = let q = v.over in cc
Step-IsHopeless s t (is_dialed p c) v = let q = v.over in cc
Step-IsHopeless s t (wakes p) v = let q = v.over in cc
Step-IsHopeless s t (leaves_sleep p c) v = let q = v.over in cc
Step-IsHopeless s t (serves b p) v = let q = v.over in cc
Step-IsHopeless s t (notices b p c) v = let q = v.over in cc
Step-IsHopeless s t (leaves b p c) v = let q = v.over in cc
Step-IsHopeless s t (takes c p) v = record { over = v.over; gone = v.gone; down = v.down }
Step-IsHopeless s t (answers before after c p) v = record {
  over = v.over;
  gone = v.gone;
  down = v.down;
}
Step-IsHopeless s t (fails before after c err p) v =
    let k = begin_failure-IsKept err (record s { held = before ++ after }) in
    record {
      over = k.phase ∙ v.over;
      gone = k.client;
      down = status-begin_failure err (record s { held = before ++ after }) ∙ v.down;
    }
Step-IsHopeless s t (reports before after err p) v =
    let k = end_failure-IsKept err (before ++ after) s in
    record {
      over = k.phase ∙ v.over;
      gone = k.client ∙ v.gone;
      down = status-end_failure err (before ++ after) s;
    }
Step-IsHopeless s t stops v = record { over = v.over; gone = refl; down = v.down }
Step-IsHopeless s t (is_cleared p) v =
    let k = set_status-IsKept disconnected [] s in
    record {
      over = k.phase ∙ v.over;
      gone = k.client ∙ v.gone;
      down = (status-set_status disconnected [] s).0;
    }

Reach-IsHopeless : (s t : Session) → Reach s t → IsHopeless s → IsHopeless t
Reach-IsHopeless s t here v = v
Reach-IsHopeless s t (next {t = u} r st) v = Step-IsHopeless u t st (Reach-IsHopeless s u r v)

-- A command on an earlier connection that fails after the password was refused takes the refusal off
-- the session: it reads as disconnected, and a command that waits for it finds neither a client nor
-- the refusal, whatever happens.
pub refusal_lost :
    (s t : Session) (before after : List ℕ) (c : ℕ) (err : Text)
    → s.phase ≡ finished
    → s.held ≡ before ++ c ∷ after
    → Reach (mark_broken err (record s { held = before ++ after })) t
    → (t.status ≡ disconnected) × (wait_ready t ≡ not_yet) × (t.phase ≡ finished)
refusal_lost s t before after c err over held r =
    let s' : Session = record s { held = before ++ after } in
    let k = mark_broken-IsKept err s' in
    let v =
      Reach-IsHopeless (mark_broken err s') t r
        (record { over = k.phase ∙ over; gone = k.client; down = status-mark_broken err s' }) in
    (v.down, hopeless_waits t v, v.over)
