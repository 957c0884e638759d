-- ===== src/Api/Endpoints.antt =====
-- web/src/api.ts: the calls of `api`, by what they give to `request`. `I` and `M` are the inputs of a
-- profile and of a macro; `encode` is `encodeURIComponent`.
use rcon_ui.Base.{ℕ, Option, none, some, [], ◌++◌}
use rcon_ui.Text.{Text, codes}
use rcon_ui.Text.Decimal.{show_nat}

pub data ApiCall {ℓ} (I M : Type ℓ) : Type ℓ where
  list_servers protocols : ApiCall I M
  create_server : I → ApiCall I M
  change_server : Text → I → ApiCall I M
  delete_server connect disconnect discovery discover : Text → ApiCall I M
  execute : Text → Text → ApiCall I M
  history : Text → ℕ → ApiCall I M
  list_macros delete_macro : Text → ApiCall I M
  create_macro : M → ApiCall I M

-- What `JSON.stringify` is given.
pub data Body {ℓ} (I M : Type ℓ) : Type ℓ where
  profile : I → Body I M
  command : Text → Body I M
  macro : M → Body I M

pub record Call {ℓ} (I M : Type ℓ) : Type ℓ where
  pub method : Text
  pub path : Text
  pub body : Option (Body I M)

-- `/api/servers/${id}`, with what follows.
abbrev pub at_server : Text → Text → Text
at_server id tail = codes "/api/servers/" ++ (id ++ tail)

module _ {ℓ} {I M : Type ℓ} where
  abbrev pub plain : Text → Text → Call I M
  plain method path = record { method = method; path = path; body = none }

  unfoldable pub call : (Text → Text) → ApiCall I M → Call I M
  call encode list_servers = plain (codes "GET") (codes "/api/servers")
  call encode (create_server i) = record {
    method = codes "POST";
    path = codes "/api/servers";
    body = some (profile i);
  }
  call encode (change_server id i) = record {
    method = codes "PATCH";
    path = at_server id [];
    body = some (profile i);
  }
  call encode (delete_server id) = plain (codes "DELETE") (at_server id [])
  call encode (connect id) = plain (codes "POST") (at_server id (codes "/connect"))
  call encode (disconnect id) = plain (codes "POST") (at_server id (codes "/disconnect"))
  call encode (execute id c) = record {
    method = codes "POST";
    path = at_server id (codes "/execute");
    body = some (command c);
  }
  call encode (discovery id) = plain (codes "GET") (at_server id (codes "/discovery"))
  call encode (discover id) = plain (codes "POST") (at_server id (codes "/discover"))
  call encode (history id limit) =
      plain (codes "GET") (at_server id (codes "/history?limit=" ++ show_nat limit))
  call encode (list_macros id) = plain (codes "GET") (codes "/api/macros?serverId=" ++ encode id)
  call encode (create_macro m) = record {
    method = codes "POST";
    path = codes "/api/macros";
    body = some (macro m);
  }
  call encode (delete_macro id) = plain (codes "DELETE") (codes "/api/macros/" ++ id)
  call encode protocols = plain (codes "GET") (codes "/api/protocols")
