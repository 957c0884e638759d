-- ===== src/App/Served.antt =====
-- The daemon's replies on a server's discovery, on the page of web/src/App.tsx. `read_report` is the
-- report that a body is taken for.
use rcon_ui.Base.{ℕ, ◌≡◌, refl, ap}
use rcon_ui.Text.{Text, codes}
use rcon_ui.Discovery.{DiscoveryReport}
use rcon_ui.Api.Request.{replied, Outcome, value, api_error, other_error, settle}
use rcon_ui.Api.Handlers.{handle_get_discovery, handle_discover}
use rcon_ui.Api.Served.{message-write_error}
use rcon_ui.App.{none, false, some, Option, State, set_report, discovery_settled, rescan_settled}

module _ {B : Type 0} where
  -- `as Promise<T>`
  abbrev pub taken_for : (B → DiscoveryReport) → Outcome B → Outcome DiscoveryReport
  taken_for read_report (value none) = value none
  taken_for read_report (value (some b)) = value (some (read_report b))
  taken_for read_report (api_error status message) = api_error status message
  taken_for read_report (other_error message) = other_error message

-- What a re-scan leaves on the page.
unfoldable pub rescanned : Option DiscoveryReport → State → State
unfolding set_report
rescanned none s = record s { report_error = some (codes "not connected"); rescanning = false }
rescanned (some r) s = record (set_report (some r) s) { report_error = none; rescanning = false }

module _ {B : Type 0} (status_text : ℕ → Text) (error_body : Text → B) (error_of : B → Option Text)
    (read_back : (m : Text) → error_of (error_body m) ≡ some m) (syntax_error : Text)
    (report_body : DiscoveryReport → B) (read_report : B → DiscoveryReport)
    (report_back : (r : DiscoveryReport) → read_report (report_body r) ≡ r) where
  -- A page that asks for a server's report shows the one that the daemon holds, or none where it holds
  -- none, and no error; a re-scan shows the fresh one, or keeps the page's with the error that the
  -- server is not connected.
  pub report_served :
      (report : Option DiscoveryReport) (s : State)
      → (discovery_settled
            (taken_for read_report (
              settle error_of syntax_error
                (replied (handle_get_discovery status_text error_body report_body report))))
            s
          ≡ record (set_report report s) { report_error = none })
        × (rescan_settled
              (taken_for read_report (
                settle error_of syntax_error
                  (replied (handle_discover status_text error_body report_body report))))
              s
            ≡ rescanned report s)
  unfolding discovery_settled rescan_settled settle handle_get_discovery handle_discover rescanned
  report_served none s = (
    refl,
    ap (λ m. record s { report_error = some m; rescanning = false })
        (message-write_error status_text error_body error_of read_back syntax_error 409
          (codes "not connected")),
  )
  report_served (some r) s = (
    ap (λ q. record (set_report (some q) s) { report_error = none }) (report_back r),
    ap (λ q. record (set_report (some q) s) { report_error = none; rescanning = false })
        (report_back r),
  )
