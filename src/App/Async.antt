-- ===== src/App/Async.antt =====
-- The requests that a selection starts, and the order in which their replies come in. The code does
-- not tie a reply to the server that it was asked for. Reloads of the server list and the events of
-- the stream are not among the steps.
use rcon_ui.Base.{◌≡◌, ◌≢◌, false, Option, some, List, [], ◌∷◌, ◌++◌}
use rcon_ui.Text.{Text}
use rcon_ui.Discovery.{DiscoveryReport}
use rcon_ui.Api.Request.{Outcome, value}
use rcon_ui.App.{
  State, Macro, select, discovery_settled, rescan_started, rescan_settled, macros_settled,
  history_settled, choose_tab, execute, Tab, same_id,
}

-- A request of which the reply is still to come, with the server that it is about.
pub data Pending : Type 0 where
  macros_of history_of report_of rescan_of : Text → Pending

abbrev pub about : Pending → Text
about (macros_of id) = id
about (history_of id) = id
about (report_of id) = id
about (rescan_of id) = id

pub record World : Type 0 where
  pub app : State
  pub pending : List Pending

-- The requests of the effect on a new selection.
abbrev pub asked : Text → List Pending
asked id = macros_of id ∷ history_of id ∷ report_of id ∷ []

-- What the daemon answers about a server; `owner` tells whose report a report is.
module _ (owner : DiscoveryReport → Text) where
  -- The reply to a request about `id` brings a report of `id`, or none.
  abbrev pub IsAbout : Text → Outcome DiscoveryReport → Type 0
  IsAbout id o = (r : DiscoveryReport) → o ≡ value (some r) → owner r ≡ id

  -- One step: a click on another server, a click on re-scan, a reply, or a local action.
  pub data Step : World → World → Type 0 where
    selects :
        (w : World) (id : Text)
        → id ≢ []
        → same_id w.app.selected_id id ≡ false
        → Step w (record { app = select id w.app; pending = w.pending ++ asked id })
    rescans :
        (w : World) (id : Text)
        → w.app.selected_id ≡ some id
        → Step w (record { app = rescan_started w.app; pending = w.pending ++ rescan_of id ∷ [] })
    reports :
        (w : World) (before after : List Pending) (id : Text) (o : Outcome DiscoveryReport)
        → w.pending ≡ before ++ report_of id ∷ after
        → IsAbout id o
        → Step w (record { app = discovery_settled o w.app; pending = before ++ after })
    rescanned :
        (w : World) (before after : List Pending) (id : Text) (o : Outcome DiscoveryReport)
        → w.pending ≡ before ++ rescan_of id ∷ after
        → IsAbout id o
        → Step w (record { app = rescan_settled o w.app; pending = before ++ after })
    macros_come :
        (w : World) (before after : List Pending) (id : Text) (ms : Option (List Macro))
        → w.pending ≡ before ++ macros_of id ∷ after
        → Step w (record { app = macros_settled ms w.app; pending = before ++ after })
    history_comes :
        (w : World) (before after : List Pending) (id : Text) (h : Option (List Text))
        → w.pending ≡ before ++ history_of id ∷ after
        → Step w (record { app = history_settled h w.app; pending = before ++ after })
    chooses : (w : World) (t : Tab) → Step w (record w { app = choose_tab t w.app })
    executes : (w : World) (c : Text) → Step w (record w { app = execute c w.app })

  pub data Reach (w : World) : World → Type 0 where
    here : Reach w w
    next : {u v : World} → Reach w u → Step u v → Reach w v
