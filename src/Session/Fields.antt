-- ===== src/Session/Fields.antt =====
-- What the updates of a session leave alone.
use rcon_ui.Session.{begin_failure, end_failure}
use rcon_ui.Base.{
  ℕ, ◌≡◌, refl, ◌∙◌, inl, inr, Bool, true, false, ◌&&◌, Option, none, some, List, arith, Bool-cases,
}
use rcon_ui.Text.{Text, ◌===◌, ===_iff}
use rcon_ui.Sidebar.{Status, disconnected, connecting, connected, auth_failed}
use rcon_ui.Session.{Session, same_status, set_status, close_broken, drop_client, mark_broken}

-- All but the status and the channels are the same.
pub record IsKept (s t : Session) : Type 0 where
  pub phase : t.phase ≡ s.phase
  pub dials : t.dials ≡ s.dials
  pub client : t.client ≡ s.client
  pub held : t.held ≡ s.held
  pub cancelled : t.cancelled ≡ s.cancelled
  pub backoff : t.backoff ≡ s.backoff
  pub sleeps : t.sleeps ≡ s.sleeps

same_status_lem : (a b : Status) → same_status a b ≡ true → a ≡ b
same_status_lem disconnected disconnected h = refl
same_status_lem connecting connecting h = refl
same_status_lem connected connected h = refl
same_status_lem auth_failed auth_failed h = refl
same_status_lem disconnected connecting h = cc
same_status_lem disconnected connected h = cc
same_status_lem disconnected auth_failed h = cc
same_status_lem connecting disconnected h = cc
same_status_lem connecting connected h = cc
same_status_lem connecting auth_failed h = cc
same_status_lem connected disconnected h = cc
same_status_lem connected connecting h = cc
same_status_lem connected auth_failed h = cc
same_status_lem auth_failed disconnected h = cc
same_status_lem auth_failed connecting h = cc
same_status_lem auth_failed connected h = cc

kept : (s : Session) → IsKept s s
kept s = record {
  phase = refl;
  dials = refl;
  client = refl;
  held = refl;
  cancelled = refl;
  backoff = refl;
  sleeps = refl;
}

pub set_status-IsKept : (st : Status) (err : Text) (s : Session) → IsKept s (set_status st err s)
unfolding set_status
set_status-IsKept st err s = elim (Bool-cases (same_status s.status st && (s.last_err === err))) [
  | inl e ↦ rw e (kept s)
  | inr e ↦ rw e (record {
    phase = refl;
    dials = refl;
    client = refl;
    held = refl;
    cancelled = refl;
    backoff = refl;
    sleeps = refl;
  })
]

pub status-set_status :
    (st : Status) (err : Text) (s : Session)
    → ((set_status st err s).status ≡ st) × ((set_status st err s).last_err ≡ err)
unfolding set_status
status-set_status st err s = elim (Bool-cases (same_status s.status st && (s.last_err === err))) [
  | inl e ↦
      rw e (same_status_lem s.status st (ground arith), (===_iff s.last_err err).0 (ground arith))
  | inr e ↦ rw e (refl, refl)
]

close_broken-IsKept : (b : Option ℕ) (shut : Bool) (s : Session) → IsKept s (close_broken b shut s)
close_broken-IsKept none shut s = kept s
close_broken-IsKept (some b) true s = kept s
close_broken-IsKept (some b) false s = record {
  phase = refl;
  dials = refl;
  client = refl;
  held = refl;
  cancelled = refl;
  backoff = refl;
  sleeps = refl;
}

close_broken_status :
    (b : Option ℕ) (shut : Bool) (s : Session) → (close_broken b shut s).status ≡ s.status
close_broken_status none shut s = refl
close_broken_status (some b) true s = refl
close_broken_status (some b) false s = refl

pub IsKept-trans : (s t u : Session) → IsKept s t → IsKept t u → IsKept s u
IsKept-trans s t u v w = record {
  phase = w.phase ∙ v.phase;
  dials = w.dials ∙ v.dials;
  client = w.client ∙ v.client;
  held = w.held ∙ v.held;
  cancelled = w.cancelled ∙ v.cancelled;
  backoff = w.backoff ∙ v.backoff;
  sleeps = w.sleeps ∙ v.sleeps;
}

-- A failure of a command leaves all but the client, the status and the channels.
pub mark_broken-IsKept :
    (err : Text) (s : Session) → IsKept (record s { client = none }) (mark_broken err s)
unfolding mark_broken drop_client
mark_broken-IsKept err s =
    let s' : Session = record s { client = none } in
    let s'' = close_broken s.broken s.broken_closed s' in
    IsKept-trans s' s'' (set_status disconnected err s'')
      (close_broken-IsKept s.broken s.broken_closed s') (set_status-IsKept disconnected err s'')

pub begin_failure-IsKept :
    (err : Text) (s : Session) → IsKept (record s { client = none }) (begin_failure err s)
unfolding begin_failure drop_client
begin_failure-IsKept err s =
    let k = close_broken-IsKept s.broken s.broken_closed (record s { client = none }) in
    record {
      phase = k.phase;
      dials = k.dials;
      client = k.client;
      held = k.held;
      cancelled = k.cancelled;
      backoff = k.backoff;
      sleeps = k.sleeps;
    }

pub end_failure-IsKept :
    (err : Text) (rest : List Text) (s : Session) → IsKept s (end_failure err rest s)
unfolding end_failure
end_failure-IsKept err rest s =
    let k = set_status-IsKept disconnected err (record s { failing = rest }) in
    record {
      phase = k.phase;
      dials = k.dials;
      client = k.client;
      held = k.held;
      cancelled = k.cancelled;
      backoff = k.backoff;
      sleeps = k.sleeps;
    }

pub status-end_failure :
    (err : Text) (rest : List Text) (s : Session) → (end_failure err rest s).status ≡ disconnected
unfolding end_failure
status-end_failure err rest s = (status-set_status disconnected err (record s { failing = rest })).0

pub status-begin_failure : (err : Text) (s : Session) → (begin_failure err s).status ≡ s.status
unfolding begin_failure drop_client
status-begin_failure err s =
    close_broken_status s.broken s.broken_closed (record s { client = none })

pub status-mark_broken : (err : Text) (s : Session) → (mark_broken err s).status ≡ disconnected
unfolding mark_broken
status-mark_broken err s = (status-set_status disconnected err (drop_client s)).0
