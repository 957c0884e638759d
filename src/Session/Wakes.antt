-- ===== src/Session/Wakes.antt =====
-- The supervisor goes on: it never sleeps through the loss of its client.
use rcon_ui.Session.Fields.{begin_failure-IsKept, end_failure-IsKept}
use rcon_ui.Session.{begin_failure, end_failure}
use rcon_ui.Session.Steps.{reports}
use rcon_ui.Base.{
  ℕ, ◌≡◌, refl, sym, ◌∙◌, subst, ◌≢◌, ◌⊎◌, inl, inr, Bool, true, false, ◌&&◌, Option, none, some,
  List, [], ◌∷◌, ◌++◌, arith, if◌then◌else◌, Bool-cases, Option-cases,
}
use rcon_ui.Text.{Text, ◌===◌}
use rcon_ui.Sidebar.{Status, disconnected, connected}
use rcon_ui.Session.{
  Session, Phase, top, checked, dialing, sleeping, finished, installed, serving, new_session,
  is_closed, same_status, set_status, close_broken, drop_client, stop, check_context, start_dial,
  dial_refused, dial_failed, wake, install, serve, go_to,
}
use rcon_ui.Session.Steps.{
  Step, checks, dials_on, is_refused, is_failed, is_dialed, wakes, leaves_sleep, serves, notices,
  leaves, takes, answers, fails, stops, is_cleared, Reach, here, next,
}
use rcon_ui.Session.Fields.{set_status-IsKept}

-- The supervisor of a client watches the channel that a failure closes.
record IsWatched (b : ℕ) (s : Session) : Type 0 where
  mine : s.broken ≡ some b
  shut : s.broken_closed ≡ true → is_closed b s.closed ≡ true
  woken : s.client ≡ none → (is_closed b s.closed ≡ true) ⊎ (s.cancelled ≡ true)

abbrev Watch : Phase → Session → Type 0
Watch (installed b) s = IsWatched b s
Watch (serving b) s = IsWatched b s
Watch _ s = Unit

set_status-IsWatched :
    (b : ℕ) (st : Status) (err : Text) (s : Session)
    → IsWatched b s
    → IsWatched b (set_status st err s)
unfolding set_status
set_status-IsWatched b st err s v =
    elim (Bool-cases (same_status s.status st && (s.last_err === err))) [
      | inl e ↦ rw e v
      | inr e ↦ rw e (record {
        mine = v.mine;
        shut = λ h. let q = v.shut h in ground arith;
        woken = λ h. elim (v.woken h) [ inl q ↦ inl (ground arith) | inr q ↦ inr q ];
      })
    ]

close_broken-IsWatched :
    (b : ℕ) (o : Option ℕ) (shut : Bool) (s : Session)
    → s.broken ≡ o
    → s.broken_closed ≡ shut
    → o ≡ some b
    → (shut ≡ true → is_closed b s.closed ≡ true)
    → IsWatched b (close_broken o shut (record s { client = none }))
close_broken-IsWatched b none shut s p q e h = cc
close_broken-IsWatched b (some a) true s p q e h = record {
  mine = p ∙ e;
  shut = λ _. h refl;
  woken = λ _. inl (h refl);
}
close_broken-IsWatched b (some a) false s p q e h =
    let same : a ≡ b = ground arith in
    let hit : is_closed b (a ∷ s.closed) ≡ true = ground arith in
    record { mine = p ∙ e; shut = λ _. hit; woken = λ _. inl hit }

begin_failure-IsWatched :
    (b : ℕ) (err : Text) (s : Session) → IsWatched b s → IsWatched b (begin_failure err s)
unfolding begin_failure drop_client
begin_failure-IsWatched b err s v =
    let d = close_broken-IsWatched b s.broken s.broken_closed s refl refl v.mine v.shut in
    record { mine = d.mine; shut = d.shut; woken = d.woken }

end_failure-IsWatched :
    (b : ℕ) (err : Text) (rest : List Text) (s : Session)
    → IsWatched b s
    → IsWatched b (end_failure err rest s)
unfolding end_failure
end_failure-IsWatched b err rest s v =
    set_status-IsWatched b disconnected err (record s { failing = rest })
      (record { mine = v.mine; shut = v.shut; woken = v.woken })

stop-IsWatched : (b : ℕ) (s : Session) → IsWatched b s → IsWatched b (stop s)
unfolding stop
stop-IsWatched b s v = record { mine = v.mine; shut = v.shut; woken = λ _. inr refl }

Watch-keep :
    (p : Phase) (s t : Session) → ((b : ℕ) → IsWatched b s → IsWatched b t) → Watch p s → Watch p t
Watch-keep (installed b) s t f v = f b v
Watch-keep (serving b) s t f v = f b v
Watch-keep top s t f v = tt
Watch-keep checked s t f v = tt
Watch-keep dialing s t f v = tt
Watch-keep sleeping s t f v = tt
Watch-keep finished s t f v = tt

Watch-check : (c : Bool) (s : Session) → Watch (if c then finished else checked) s
Watch-check true s = tt
Watch-check false s = tt

held-IsWatched :
    (held : List ℕ) (b : ℕ) (s : Session) → IsWatched b s → IsWatched b (record s { held = held })
held-IsWatched held b s v = record { mine = v.mine; shut = v.shut; woken = v.woken }

Step-Watch : (s t : Session) → Step s t → Watch s.phase s → Watch t.phase t
unfolding check_context start_dial dial_refused dial_failed wake install serve stop
Step-Watch s t (checks p) v = Watch-check s.cancelled (check_context s)
Step-Watch s t (dials_on p) v = tt
Step-Watch s t (is_refused p err) v = tt
Step-Watch s t (is_failed p err) v = tt
Step-Watch s t (is_dialed p c) v = record { mine = refl; shut = λ h. cc; woken = λ h. cc }
Step-Watch s t (wakes p) v = tt
Step-Watch s t (leaves_sleep p c) v = tt
Step-Watch s t (serves b p) v =
    let w : IsWatched b s = subst (λ q. Watch q s) p v in
    let u = set_status-IsWatched b connected [] s w in
    record { mine = u.mine; shut = u.shut; woken = u.woken }
Step-Watch s t (notices b p c) v = tt
Step-Watch s t (leaves b p c) v = tt
Step-Watch s t (takes c p) v =
    Watch-keep s.phase s (record s { held = c ∷ s.held }) (λ b. held-IsWatched (c ∷ s.held) b s) v
Step-Watch s t (answers before after c p) v =
    Watch-keep s.phase s (record s { held = before ++ after })
      (λ b. held-IsWatched (before ++ after) b s) v
Step-Watch s t (fails before after c err p) v =
    let s' : Session = record s { held = before ++ after } in
    subst (λ q. Watch q (begin_failure err s')) (sym (begin_failure-IsKept err s').phase)
      (Watch-keep s.phase s (begin_failure err s')
        (λ b w. begin_failure-IsWatched b err s' (held-IsWatched (before ++ after) b s w)) v)
Step-Watch s t (reports before after err p) v =
    let t' = end_failure err (before ++ after) s in
    subst (λ q. Watch q t') (sym (end_failure-IsKept err (before ++ after) s).phase)
      (Watch-keep s.phase s t' (λ b. end_failure-IsWatched b err (before ++ after) s) v)
Step-Watch s t stops v = Watch-keep s.phase s (stop s) (λ b. stop-IsWatched b s) v
Step-Watch s t (is_cleared p) v =
    subst (λ q. Watch q (set_status disconnected [] s))
      (sym (set_status-IsKept disconnected [] s).phase)
      (Watch-keep s.phase s (set_status disconnected [] s)
        (λ b. set_status-IsWatched b disconnected [] s) v)

Reach-Watch : (s : Session) → Reach new_session s → Watch s.phase s
Reach-Watch s here = tt
Reach-Watch s (next {t = t} r st) = Step-Watch t s st (Reach-Watch t r)

-- What a supervisor can do in each phase.
goes_on :
    (s : Session) (p : Phase)
    → s.phase ≡ p
    → Watch p s
    → (s.phase ≡ finished)
      ⊎ ((b c : ℕ) × (s.phase ≡ serving b) × (s.client ≡ some c))
      ⊎ ((t : Session) × Step s t × (t.phase ≢ s.phase))
unfolding check_context start_dial dial_failed wake serve
goes_on s finished q v = inl q
goes_on s top q v = inr (inr (check_context s, checks q, λ e. moves s.cancelled (e ∙ q)))
  where
    moves : (c : Bool) → (if c then finished else checked) ≢ top
    moves true e = cc
    moves false e = cc
goes_on s checked q v = inr (inr (start_dial s, dials_on q, λ e. cc))
goes_on s dialing q v = inr (inr (dial_failed [] s, is_failed q [], λ e. cc))
goes_on s sleeping q v = inr (inr (wake s, wakes q, λ e. cc))
goes_on s (installed b) q v = inr (inr (serve b s, serves b q, λ e. cc))
goes_on s (serving b) q v = elim (Option-cases s.client) [
  | inr (c, e) ↦ inr (inl (b, c, q, e))
  | inl e ↦ elim (v.woken e) [
    | inl shut ↦ inr (inr (go_to top s, notices b q shut, λ e. cc))
    | inr cancelled ↦ inr (inr (go_to finished s, leaves b q cancelled, λ e. cc))
  ]
]

-- However the steps of a session interleave, its supervisor has returned, or it serves a live client,
-- or it can go on: it never waits for a client that is gone.
pub supervisor_goes_on :
    (s : Session)
    → Reach new_session s
    → (s.phase ≡ finished)
      ⊎ ((b c : ℕ) × (s.phase ≡ serving b) × (s.client ≡ some c))
      ⊎ ((t : Session) × Step s t × (t.phase ≢ s.phase))
supervisor_goes_on s r = goes_on s s.phase refl (Reach-Watch s r)
