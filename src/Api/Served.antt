-- ===== src/Api/Served.antt =====
-- What the front end makes of the daemon's replies. `error_of` reads the field that `error_body`
-- writes.
use rcon_ui.Base.{ℕ, ◌≡◌, refl, ap, inl, inr, Option, some, [], ◌∷◌, if◌then◌else◌, Bool-cases}
use rcon_ui.Text.{Text, codes, is_empty}
use rcon_ui.Probe.White.{trim_space}
use rcon_ui.Api.Request.{replied, Outcome, value, api_error, settle, error_message}
use rcon_ui.Api.Handlers.{
  Executed, response, refusal, failure, Decoded, decoded, invalid, executed_reply, write_error,
  handle_execute,
}

module _ {ℓ} {B : Type ℓ} (status_text : ℕ → Text) (error_body : Text → B)
    (error_of : B → Option Text) (read_back : (m : Text) → error_of (error_body m) ≡ some m)
    (syntax_error : Text) where
  -- What the front end shows of an error's text: an empty one is not shown.
  abbrev pub shown : ℕ → Text → Text
  shown status [] = status_text status
  shown status (c ∷ s) = c ∷ s

  pub message-write_error :
      (status : ℕ) (m : Text)
      → error_message error_of syntax_error (write_error status_text error_body status m)
        ≡ shown status m
  unfolding error_message
  message-write_error status [] = rw (read_back [], error_message) refl
  message-write_error status (c ∷ s) = rw (read_back (c ∷ s), error_message) refl

  abbrev pub expected : (Text → B) → Executed → Outcome B
  expected response_body (response line) = value (some (response_body line))
  expected response_body (refusal m) = api_error 401 (shown 401 m)
  expected response_body (failure m) = api_error 502 (shown 502 m)

  settle-executed :
      (response_body : Text → B) (e : Executed)
      → settle error_of syntax_error
          (replied (executed_reply status_text error_body response_body e))
        ≡ expected response_body e
  unfolding settle
  settle-executed response_body (response line) = refl
  settle-executed response_body (refusal m) = ap (api_error 401) (message-write_error 401 m)
  settle-executed response_body (failure m) = ap (api_error 502) (message-write_error 502 m)

  unfoldable pub expected_for : (Text → B) → (Text → Executed) → Decoded → Outcome B
  unfolding trim_space
  expected_for response_body execute (invalid m) = api_error 400 (shown 400 m)
  expected_for response_body execute (decoded command) =
      if is_empty (trim_space command)
      then api_error 400 (codes "command is required")
      else expected response_body (execute command)

  -- The call `execute` of the front end settles to the response that the manager returned, or to an
  -- error of the status 401 for a refused password, 502 for another failure and 400 for a request
  -- without a command, with the daemon's message.
  pub settle-handle_execute :
      (response_body : Text → B) (execute : Text → Executed) (d : Decoded)
      → settle error_of syntax_error
          (replied (handle_execute status_text error_body response_body execute d))
        ≡ expected_for response_body execute d
  unfolding settle handle_execute expected_for
  settle-handle_execute response_body execute (invalid m) =
      ap (api_error 400) (message-write_error 400 m)
  settle-handle_execute response_body execute (decoded command) =
      elim (Bool-cases (is_empty (trim_space command))) [
        | inl e ↦ rw e (ap (api_error 400) (message-write_error 400 (codes "command is required")))
        | inr e ↦ rw e (settle-executed response_body (execute command))
      ]
