-- ===== src/Api/Request.antt =====
-- `request`: what is sent, and how a reply becomes a value or an error. The bodies are of a type
-- `B` of JSON values; `error_of` reads the field `error` of one.
use rcon_ui.Base.{ℕ, Bool, List, [], ◌∷◌, ◌++◌, Option, none, some, ◌==◌, if◌then◌else◌}
use rcon_ui.Text.{Text, codes}
use rcon_ui.Api.{Page, token, truthy}

pub record Sent {ℓ} (B : Type ℓ) : Type ℓ where
  pub method : Text
  pub path : Text
  pub headers : List (Text × Text)
  pub body : Option B

-- The reply of `fetch`; `json` is none where the body does not parse.
pub record Reply {ℓ} (B : Type ℓ) : Type ℓ where
  pub ok : Bool
  pub status : ℕ
  pub status_text : Text
  pub json : Option B

pub data Fetched {ℓ} (B : Type ℓ) : Type ℓ where
  replied : Reply B → Fetched B
  unreachable : Text → Fetched B

-- What the promise settles to: a value, none for 204; an `ApiError`; or another error's message.
pub data Outcome {ℓ} (B : Type ℓ) : Type ℓ where
  value : Option B → Outcome B
  api_error : ℕ → Text → Outcome B
  other_error : Text → Outcome B

module _ {ℓ} {B : Type ℓ} where
  unfoldable pub send : Page → Text → Text → Option B → Sent B × Page
  unfolding token
  send page method path body =
      let (t, page') = token page in
      (
        record {
          method = method;
          path = path;
          headers =
              elim body [
                | none ↦ []
                | some b ↦ (codes "Content-Type", codes "application/json") ∷ []
              ]
              ++ elim (truthy t) [
                | none ↦ []
                | some s ↦ (codes "Authorization", codes "Bearer " ++ s) ∷ []
              ];
          body = body;
        },
        page',
      )

  module _ (error_of : B → Option Text) (syntax_error : Text) where
    -- `let message = res.statusText; … if (data?.error) message = data.error;`
    unfoldable pub error_message : Reply B → Text
    error_message r = elim r.json [
      | none ↦ r.status_text
      | some data' ↦ elim (truthy (error_of data')) [ none ↦ r.status_text | some e ↦ e ]
    ]

    unfoldable pub settle : Fetched B → Outcome B
    unfolding error_message
    settle (unreachable message) = other_error message
    settle (replied r) =
        if r.ok
        then (if r.status == 204
            then value none
            else elim r.json [ none ↦ other_error syntax_error | some b ↦ value (some b) ])
        else api_error r.status (error_message r)
