-- ===== src/Session/Channels.antt =====
-- No channel is closed twice.
use rcon_ui.Session.{begin_failure, end_failure}
use rcon_ui.Session.Steps.{reports}
use rcon_ui.Base.{
  ℕ, ◌+◌, ◌≤◌, ◌<◌, ◌≡◌, refl, ◌≢◌, inl, inr, Bool, true, false, ◌&&◌, Option, none, some, List, [],
  ◌∷◌, ◌++◌, arith, Bool-cases, All,
}
use rcon_ui.Text.{Text, ◌===◌}
use rcon_ui.Sidebar.{Status, disconnected, connecting, connected, auth_failed}
use rcon_ui.Session.{
  Session, Phase, new_session, is_closed, close_broken, same_status, change_status, set_status,
  stop, drop_client, check_context, start_dial, dial_refused, dial_failed, wake, install, serve,
}
use rcon_ui.Session.Steps.{
  Step, checks, dials_on, is_refused, is_failed, is_dialed, wakes, leaves_sleep, serves, notices,
  leaves, takes, answers, fails, stops, is_cleared, Reach, here, next,
}

abbrev Below : ℕ → List ℕ → Type 0
Below n cs = All (λ c. c < n) cs

-- The open channels are new to the closed ones.
abbrev IsOpen : Option ℕ → Bool → Session → Type 0
IsOpen (some b) false s = (is_closed b s.closed ≡ false) × (b ≢ s.changed) × (b < s.next_channel)
IsOpen _ _ s = Unit

pub record HasChannels (s : Session) : Type 0 where
  pub below : Below s.next_channel s.closed
  pub changed_below : s.changed < s.next_channel
  pub changed_open : is_closed s.changed s.closed ≡ false
  pub broken_open : IsOpen s.broken s.broken_closed s
  pub calm : s.panicked ≡ false

is_closed-Below : (n : ℕ) (cs : List ℕ) → Below n cs → is_closed n cs ≡ false
is_closed-Below n [] h = refl
is_closed-Below n (c ∷ cs) (p, h) = ground (arith, is_closed-Below n cs h)

Below-mono : (n m : ℕ) (cs : List ℕ) → n ≤ m → Below n cs → Below m cs
Below-mono n m [] l h = tt
Below-mono n m (c ∷ cs) l (p, h) = (omega arith, Below-mono n m cs l h)

change_status-IsOpen :
    (b : Option ℕ) (shut : Bool) (st : Status) (err : Text) (s : Session)
    → s.changed < s.next_channel
    → IsOpen b shut s
    → IsOpen b shut (change_status st err s)
change_status-IsOpen none shut st err s l h = tt
change_status-IsOpen (some b) true st err s l h = tt
change_status-IsOpen (some b) false st err s l (o, n, m) =
    (ground (arith, o, n), λ e. absurd (omega arith), omega arith)

change_status-HasChannels :
    (st : Status) (err : Text) (s : Session) → HasChannels s → HasChannels (change_status st err s)
change_status-HasChannels st err s v = record {
  below = (
    omega (arith, v.changed_below),
    Below-mono s.next_channel (s.next_channel + 1) s.closed (omega arith) v.below,
  );
  changed_below = omega arith;
  changed_open = ground (arith, v.changed_below, is_closed-Below s.next_channel s.closed v.below);
  broken_open =
      change_status-IsOpen s.broken s.broken_closed st err s v.changed_below v.broken_open;
  calm = rw (v.calm, v.changed_open) refl;
}

set_status-HasChannels :
    (st : Status) (err : Text) (s : Session) → HasChannels s → HasChannels (set_status st err s)
unfolding set_status
set_status-HasChannels st err s v =
    elim (Bool-cases (same_status s.status st && (s.last_err === err))) [
      | inl e ↦ rw e v
      | inr e ↦ rw e (change_status-HasChannels st err s v)
    ]

-- The other fields do not matter.
other-HasChannels :
    (s : Session) (client : Option ℕ) (cancelled : Bool) (phase : Phase) (backoff dials : ℕ)
    (sleeps held : List ℕ) (failing : List Text)
    → HasChannels s
    → HasChannels (record s {
      client = client;
      cancelled = cancelled;
      phase = phase;
      backoff = backoff;
      dials = dials;
      sleeps = sleeps;
      held = held;
      failing = failing;
    })
other-HasChannels s client cancelled phase backoff dials sleeps held failing v = record {
  below = v.below;
  changed_below = v.changed_below;
  changed_open = v.changed_open;
  broken_open = other-IsOpen s.broken s.broken_closed v.broken_open;
  calm = v.calm;
}
  where
    other-IsOpen :
        (b : Option ℕ) (shut : Bool)
        → IsOpen b shut s
        → IsOpen b shut (record s {
          client = client;
          cancelled = cancelled;
          phase = phase;
          backoff = backoff;
          dials = dials;
          sleeps = sleeps;
          held = held;
          failing = failing;
        })
    other-IsOpen none shut h = tt
    other-IsOpen (some b) true h = tt
    other-IsOpen (some b) false h = h

close_broken-HasChannels :
    (b : Option ℕ) (shut : Bool) (s : Session)
    → s.broken ≡ b
    → s.broken_closed ≡ shut
    → IsOpen b shut s
    → HasChannels s
    → HasChannels (close_broken b shut s)
close_broken-HasChannels none shut s p q o v = v
close_broken-HasChannels (some b) true s p q o v = v
close_broken-HasChannels (some b) false s p q (fresh, other, new) v = record {
  below = (new, v.below);
  changed_below = v.changed_below;
  changed_open = ground (arith, v.changed_open, other);
  broken_open = rw p tt;
  calm = rw (v.calm, fresh) refl;
}

drop_client-HasChannels : (s : Session) → HasChannels s → HasChannels (drop_client s)
unfolding drop_client
drop_client-HasChannels s v =
    let s' : Session = record s { client = none } in
    let v' =
      other-HasChannels s none s.cancelled s.phase s.backoff s.dials s.sleeps s.held s.failing v in
    close_broken-HasChannels s.broken s.broken_closed s' refl refl v'.broken_open v'

install-HasChannels : (c : ℕ) (s : Session) → HasChannels s → HasChannels (install c s)
unfolding install
install-HasChannels c s v = record {
  below = Below-mono s.next_channel (s.next_channel + 1) s.closed (omega arith) v.below;
  changed_below = omega (arith, v.changed_below);
  changed_open = v.changed_open;
  broken_open = (
    is_closed-Below s.next_channel s.closed v.below,
    λ e. absurd (omega (arith, v.changed_below)),
    omega arith,
  );
  calm = v.calm;
}

Step-HasChannels : (s t : Session) → Step s t → HasChannels s → HasChannels t
unfolding check_context start_dial dial_refused dial_failed wake serve stop begin_failure
    end_failure
Step-HasChannels s t (checks p) v =
    other-HasChannels s s.client s.cancelled _ s.backoff s.dials s.sleeps s.held s.failing v
Step-HasChannels s t (dials_on p) v =
    let s' = set_status connecting [] s in
    other-HasChannels s' s'.client s'.cancelled _ s'.backoff _ s'.sleeps s'.held s'.failing
      (set_status-HasChannels connecting [] s v)
Step-HasChannels s t (is_refused p err) v =
    let s' = set_status auth_failed err s in
    other-HasChannels s' s'.client s'.cancelled _ s'.backoff s'.dials s'.sleeps s'.held s'.failing
      (set_status-HasChannels auth_failed err s v)
Step-HasChannels s t (is_failed p err) v =
    let s' = set_status disconnected err s in
    other-HasChannels s' s'.client s'.cancelled _ s'.backoff s'.dials _ s'.held s'.failing
      (set_status-HasChannels disconnected err s v)
Step-HasChannels s t (is_dialed p c) v = install-HasChannels c s v
Step-HasChannels s t (wakes p) v =
    other-HasChannels s s.client s.cancelled _ _ s.dials s.sleeps s.held s.failing v
Step-HasChannels s t (leaves_sleep p c) v =
    other-HasChannels s s.client s.cancelled _ s.backoff s.dials s.sleeps s.held s.failing v
Step-HasChannels s t (serves b p) v =
    let s' = set_status connected [] s in
    other-HasChannels s' s'.client s'.cancelled _ s'.backoff s'.dials s'.sleeps s'.held s'.failing
      (set_status-HasChannels connected [] s v)
Step-HasChannels s t (notices b p c) v =
    other-HasChannels s s.client s.cancelled _ s.backoff s.dials s.sleeps s.held s.failing v
Step-HasChannels s t (leaves b p c) v =
    other-HasChannels s s.client s.cancelled _ s.backoff s.dials s.sleeps s.held s.failing v
Step-HasChannels s t (takes c p) v =
    other-HasChannels s s.client s.cancelled s.phase s.backoff s.dials s.sleeps _ s.failing v
Step-HasChannels s t (answers before after c p) v =
    other-HasChannels s s.client s.cancelled s.phase s.backoff s.dials s.sleeps _ s.failing v
Step-HasChannels s t (fails before after c err p) v =
    let s' : Session = record s { held = before ++ after } in
    let d = drop_client s' in
    other-HasChannels d d.client d.cancelled d.phase d.backoff d.dials d.sleeps d.held _ (
      drop_client-HasChannels s' (
        other-HasChannels s s.client s.cancelled s.phase s.backoff s.dials s.sleeps
          (before ++ after) s.failing v))
Step-HasChannels s t (reports before after err p) v =
    set_status-HasChannels disconnected err (record s { failing = before ++ after })
      (other-HasChannels s s.client s.cancelled s.phase s.backoff s.dials s.sleeps s.held
        (before ++ after) v)
Step-HasChannels s t stops v =
    other-HasChannels s none true s.phase s.backoff s.dials s.sleeps s.held s.failing v
Step-HasChannels s t (is_cleared p) v = set_status-HasChannels disconnected [] s v

new_session-HasChannels : HasChannels new_session
new_session-HasChannels = record {
  below = tt;
  changed_below = omega arith;
  changed_open = refl;
  broken_open = tt;
  calm = refl;
}

-- However the supervisor, the commands and the manager take turns, no channel of a session is closed
-- twice, and what is open is not closed and newer than every channel that was.
pub Reach-HasChannels : (s : Session) → Reach new_session s → HasChannels s
Reach-HasChannels s here = new_session-HasChannels
Reach-HasChannels s (next {t = t} r st) = Step-HasChannels t s st (Reach-HasChannels t r)
