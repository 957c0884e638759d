-- ===== src/Session/Backoff.antt =====
-- How long the supervisor sleeps between dials.
use rcon_ui.Session.{set_status, go_to, top}
use rcon_ui.Session.Fields.{IsKept}
use rcon_ui.Session.Steps.{reports}
use rcon_ui.Session.Fields.{begin_failure-IsKept, end_failure-IsKept}
use native.Mathlib.Nat.{pow-suc}
use rcon_ui.Base.{
  ℕ, min, suc, ◌*◌, ◌^◌, ◌≤◌, ◌≡◌, refl, sym, ap, ap₂, ◌∙◌, subst, List, [], ◌∷◌, ◌++◌, append-nil,
  append_assoc, arith, All, All-append,
}
use rcon_ui.Text.{Text}
use rcon_ui.Sidebar.{disconnected, connecting, connected, auth_failed}
use rcon_ui.Session.{
  Session, new_session, initial_backoff, max_backoff, stop, check_context, start_dial, dial_refused,
  dial_failed, wake, install, serve,
}
use rcon_ui.Session.Steps.{
  Step, checks, dials_on, is_refused, is_failed, is_dialed, wakes, leaves_sleep, serves, notices,
  leaves, takes, answers, fails, stops, is_cleared, Reach, here, next,
}
use rcon_ui.Session.Fields.{set_status-IsKept}

abbrev IsBounded : ℕ → Type 0
IsBounded n = (initial_backoff ≤ n) × (n ≤ max_backoff)

-- The next sleep, and those that there were.
abbrev IsTimed : Session → Type 0
IsTimed s = IsBounded s.backoff × All IsBounded s.sleeps

kept-IsTimed : (s t : Session) → IsKept s t → IsTimed s → IsTimed t
kept-IsTimed s t k (b, l) =
    (subst IsBounded (sym k.backoff) b, subst (All IsBounded) (sym k.sleeps) l)

Step-IsTimed : (s t : Session) → Step s t → IsTimed s → IsTimed t
unfolding check_context start_dial dial_refused dial_failed wake install serve stop
Step-IsTimed s t (checks p) v = v
Step-IsTimed s t (dials_on p) v = kept-IsTimed s _ (set_status-IsKept connecting [] s) v
Step-IsTimed s t (is_refused p err) v = kept-IsTimed s _ (set_status-IsKept auth_failed err s) v
Step-IsTimed s t (is_failed p err) v =
    let k = set_status-IsKept disconnected err s in
    let (b, _) = kept-IsTimed s (set_status disconnected err s) k v in
    (b, All-append IsBounded s.sleeps (s.backoff ∷ []) v.1 (v.0, tt))
Step-IsTimed s t (is_dialed p c) (b, l) = (omega arith, l)
Step-IsTimed s t (wakes p) (b, l) = (omega (arith, b), l)
Step-IsTimed s t (leaves_sleep p c) v = v
Step-IsTimed s t (serves b p) v = kept-IsTimed s _ (set_status-IsKept connected [] s) v
Step-IsTimed s t (notices b p c) v = v
Step-IsTimed s t (leaves b p c) v = v
Step-IsTimed s t (takes c p) v = v
Step-IsTimed s t (answers before after c p) v = v
Step-IsTimed s t (fails before after c err p) v =
    let k = begin_failure-IsKept err (record s { held = before ++ after }) in
    (subst IsBounded (sym k.backoff) v.0, subst (All IsBounded) (sym k.sleeps) v.1)
Step-IsTimed s t (reports before after err p) v =
    kept-IsTimed s t (end_failure-IsKept err (before ++ after) s) v
Step-IsTimed s t stops v = v
Step-IsTimed s t (is_cleared p) v = kept-IsTimed s t (set_status-IsKept disconnected [] s) v

Reach-IsTimed : (s : Session) → Reach new_session s → IsTimed s
Reach-IsTimed s here = (omega arith, tt)
Reach-IsTimed s (next {t = t} r st) = Step-IsTimed t s st (Reach-IsTimed t r)

-- A dial that fails, with the sleep after it; and such dials one after the other.
abbrev pub retry : Text → Session → Session
retry err s = wake (dial_failed err (start_dial (check_context s)))

abbrev pub retries : List Text → Session → Session
retries [] s = s
retries (err ∷ errs) s = retries errs (retry err s)

retry_lem :
    (err : Text) (s : Session)
    → ((retry err s).backoff ≡ min (s.backoff * 2) max_backoff)
      × ((retry err s).sleeps ≡ s.sleeps ++ s.backoff ∷ [])
unfolding check_context start_dial dial_failed wake
retry_lem err s =
    let first = set_status-IsKept connecting [] (check_context s) in
    let second = set_status-IsKept disconnected err (start_dial (check_context s)) in
    let same = second.backoff ∙ first.backoff in
    (ap (λ n. min (n * 2) max_backoff) same, ap₂ (λ l n. l ++ n ∷ []) first.sleeps first.backoff)

-- 2 ^ k seconds, then twice as many each time, but never more than 30.
abbrev pub waits : ℕ → List Text → List ℕ
waits k [] = []
waits k (err ∷ errs) = min (2 ^ k) 30 ∷ waits (suc k) errs

min_twice : (n : ℕ) → min (min n 30 * 2) 30 ≡ min (n * 2) 30
min_twice n = omega arith

sleeps-retries :
    (k : ℕ) (errs : List Text) (s : Session)
    → s.backoff ≡ min (2 ^ k) 30
    → (retries errs s).sleeps ≡ s.sleeps ++ waits k errs
sleeps-retries k [] s h = sym (append-nil s.sleeps)
sleeps-retries k (err ∷ errs) s h =
    let (b, l) = retry_lem err s in
    let doubled : (retry err s).backoff ≡ min (2 ^ suc k) 30 =
      b ∙ ap (λ n. min (n * 2) 30) h ∙ min_twice (2 ^ k) ∙ ap (λ n. min n 30) (sym (pow-suc 2 k)) in
    sleeps-retries (suc k) errs (retry err s) doubled
    ∙ ap (λ m. m ++ waits (suc k) errs) (l ∙ ap (λ n. s.sleeps ++ n ∷ []) h)
    ∙ append_assoc s.sleeps (min (2 ^ k) 30 ∷ []) (waits (suc k) errs)

-- The session at the top of its loop again after a connection.
abbrev pub lost : ℕ → ℕ → Session → Session
lost b c s = go_to top (serve b (install c s))

-- Whatever happens to a session, each of its sleeps is between 1 and 30 seconds; and when dials fail in
-- a row, from a new session or after a connection that was lost, the sleeps are 1, 2, 4 seconds and so
-- on, twice as long each time, but never more than 30.
pub backoff_lem :
    (s : Session) (errs : List Text) (b c : ℕ)
    → Reach new_session s
    → All (λ n. (1 ≤ n) × (n ≤ 30)) s.sleeps
      × ((retries errs new_session).sleeps ≡ waits 0 errs)
      × ((retries errs (lost b c s)).sleeps ≡ s.sleeps ++ waits 0 errs)
unfolding serve install
backoff_lem s errs b c r =
    let k = set_status-IsKept connected [] (install c s) in
    (
      (Reach-IsTimed s r).1,
      sleeps-retries 0 errs new_session refl,
      sleeps-retries 0 errs (lost b c s) k.backoff ∙ ap (λ l. l ++ waits 0 errs) k.sleeps,
    )
