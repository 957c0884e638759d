-- ===== src/Api/Handlers.antt =====
-- handleExecute, handleGetDiscovery and handleDiscover of internal/api/api.go: the replies of the
-- daemon by what the manager answers. `error_body`, `response_body` and `report_body` write a reply's
-- body; `status_text` is the text of a status in the reply's first line.
use rcon_ui.Base.{ℕ, ◌&&◌, Option, none, some, ltb, leb, if◌then◌else◌}
use rcon_ui.Text.{Text, codes, is_empty}
use rcon_ui.Discovery.{DiscoveryReport}
use rcon_ui.Probe.White.{trim_space}
use rcon_ui.Api.Request.{Reply}

-- What `Manager.Execute` returns: the response; a refused password; or another error.
pub data Executed : Type 0 where
  response refusal failure : Text → Executed

-- The body of a request: the command, or why it cannot be read.
pub data Decoded : Type 0 where
  decoded invalid : Text → Decoded

module _ {ℓ} {B : Type ℓ} (status_text : ℕ → Text) where
  -- `writeJSON`
  abbrev pub write_json : ℕ → B → Reply B
  write_json status body = record {
    ok = leb 200 status && ltb status 300;
    status = status;
    status_text = status_text status;
    json = some body;
  }

  module _ (error_body : Text → B) where
    abbrev pub write_error : ℕ → Text → Reply B
    write_error status message = write_json status (error_body message)

    abbrev pub executed_reply : (Text → B) → Executed → Reply B
    executed_reply response_body (response line) = write_json 200 (response_body line)
    executed_reply response_body (refusal message) = write_error 401 message
    executed_reply response_body (failure message) = write_error 502 message

    -- `execute` is the call of the manager.
    unfoldable pub handle_execute : (Text → B) → (Text → Executed) → Decoded → Reply B
    unfolding trim_space
    handle_execute response_body execute (invalid message) = write_error 400 message
    handle_execute response_body execute (decoded command) =
        if is_empty (trim_space command)
        then write_error 400 (codes "command is required")
        else executed_reply response_body (execute command)

    -- The report of the last run, if one has completed.
    unfoldable pub handle_get_discovery : (DiscoveryReport → B) → Option DiscoveryReport → Reply B
    handle_get_discovery report_body none = write_error 404 (codes "no discovery yet")
    handle_get_discovery report_body (some r) = write_json 200 (report_body r)

    -- The fresh report, if the session is connected.
    unfoldable pub handle_discover : (DiscoveryReport → B) → Option DiscoveryReport → Reply B
    handle_discover report_body none = write_error 409 (codes "not connected")
    handle_discover report_body (some r) = write_json 200 (report_body r)
