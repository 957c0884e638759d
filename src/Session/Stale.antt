-- ===== src/Session/Stale.antt =====
-- A command is not tied to the connection that it ran on.
use rcon_ui.Base.{
  ℕ, ◌≡◌, ap, ◌∙◌, ◌≢◌, inl, inr, true, false, ◌&&◌, none, some, List, ◌∷◌, ◌++◌, arith, Bool-cases,
}
use rcon_ui.Text.{Text, ◌===◌}
use rcon_ui.Sidebar.{Status, disconnected}
use rcon_ui.Session.{
  Session, is_closed, same_status, set_status, close_broken, drop_client, mark_broken,
}
use rcon_ui.Session.Fields.{status-set_status, mark_broken-IsKept}

closed-set_status :
    (b : ℕ) (st : Status) (err : Text) (s : Session)
    → is_closed b s.closed ≡ true
    → is_closed b (set_status st err s).closed ≡ true
unfolding set_status
closed-set_status b st err s h =
    elim (Bool-cases (same_status s.status st && (s.last_err === err))) [
      | inl e ↦ rw e h
      | inr e ↦ rw e (ground arith)
    ]

closed-drop_client :
    (b : ℕ) (s : Session)
    → s.broken ≡ some b
    → s.broken_closed ≡ false
    → is_closed b (drop_client s).closed ≡ true
unfolding drop_client
closed-drop_client b s p q =
    ap (λ o. is_closed b (close_broken o s.broken_closed (record s { client = none })).closed) p
    ∙ ap (λ t. is_closed b (close_broken (some b) t (record s { client = none })).closed) q
    ∙ ground arith

-- A command that fails on an earlier connection takes the current one down: its client is dropped, its
-- channel closed, and the session reads as disconnected with the failure of the earlier one.
pub stale_failure :
    (s : Session) (before after : List ℕ) (old current b : ℕ) (err : Text)
    → s.held ≡ before ++ old ∷ after
    → s.client ≡ some current
    → old ≢ current
    → s.broken ≡ some b
    → s.broken_closed ≡ false
    → let t = mark_broken err (record s { held = before ++ after }) in
      (t.client ≡ none)
      × (t.status ≡ disconnected)
      × (t.last_err ≡ err)
      × (is_closed b t.closed ≡ true)
unfolding mark_broken
stale_failure s before after old current b err held here other p q =
    let s' : Session = record s { held = before ++ after } in
    let (st, e) = status-set_status disconnected err (drop_client s') in
    (
      (mark_broken-IsKept err s').client,
      st,
      e,
      closed-set_status b disconnected err (drop_client s') (closed-drop_client b s' p q),
    )
