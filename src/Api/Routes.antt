-- ===== src/Api/Routes.antt =====
-- The routes of the daemon (Handler of internal/api/api.go), and where the front end's calls arrive.
-- A pattern of `http.ServeMux` matches a path without its query, segment by segment; no two of these
-- match the same request, so their order does not matter.
use rcon_ui.Base.{Option, none, some, List, [], ◌∷◌, ◌++◌, ◌==◌, if◌then◌else◌}
use rcon_ui.Text.{Text, codes, ◌===◌, is_empty}
use rcon_ui.Text.Split.{split}

pub data Handler : Type 0 where
  handle_health handle_protocols handle_list_servers handle_create_server handle_get_server
        handle_update_server handle_delete_server handle_connect handle_disconnect handle_execute
        handle_history handle_get_discovery handle_discover handle_list_macros handle_create_macro
        handle_delete_macro handle_events :
      Handler

-- A segment of a pattern: a text, or `{id}`.
pub data Segment : Type 0 where
  word : Text → Segment
  id_hole : Segment

pub record Route : Type 0 where
  pub method : Text
  pub pattern : List Segment
  pub handler : Handler

abbrev pub at : Text → List Segment → Handler → Route
at method pattern handler = record {
  method = method;
  pattern = word (codes "api") ∷ pattern;
  handler = handler;
}

abbrev pub server_routes : List Route
server_routes =
    at (codes "GET") (word (codes "servers") ∷ []) handle_list_servers
    ∷ at (codes "POST") (word (codes "servers") ∷ []) handle_create_server
    ∷ at (codes "GET") (word (codes "servers") ∷ id_hole ∷ []) handle_get_server
    ∷ at (codes "PATCH") (word (codes "servers") ∷ id_hole ∷ []) handle_update_server
    ∷ at (codes "DELETE") (word (codes "servers") ∷ id_hole ∷ []) handle_delete_server
    ∷ at (codes "POST") (word (codes "servers") ∷ id_hole ∷ word (codes "connect") ∷ [])
        handle_connect
    ∷ at (codes "POST") (word (codes "servers") ∷ id_hole ∷ word (codes "disconnect") ∷ [])
        handle_disconnect
    ∷ at (codes "POST") (word (codes "servers") ∷ id_hole ∷ word (codes "execute") ∷ [])
        handle_execute
    ∷ at (codes "GET") (word (codes "servers") ∷ id_hole ∷ word (codes "history") ∷ [])
        handle_history
    ∷ at (codes "GET") (word (codes "servers") ∷ id_hole ∷ word (codes "discovery") ∷ [])
        handle_get_discovery
    ∷ at (codes "POST") (word (codes "servers") ∷ id_hole ∷ word (codes "discover") ∷ [])
        handle_discover
    ∷ []

abbrev pub routes : List Route
routes =
    at (codes "GET") (word (codes "health") ∷ []) handle_health
    ∷ at (codes "GET") (word (codes "protocols") ∷ []) handle_protocols
    ∷ (server_routes
        ++ at (codes "GET") (word (codes "macros") ∷ []) handle_list_macros
          ∷ at (codes "POST") (word (codes "macros") ∷ []) handle_create_macro
          ∷ at (codes "DELETE") (word (codes "macros") ∷ id_hole ∷ []) handle_delete_macro
          ∷ at (codes "GET") (word (codes "events") ∷ []) handle_events
          ∷ [])

abbrev pub without_query : Text → Text
without_query [] = []
without_query (c ∷ s) = let rest = without_query s in if c == b'?' then [] else c ∷ rest

-- The ids that a pattern binds, none if it does not match.
abbrev pub bind : Text → Option (List Text) → Option (List Text)
bind s none = none
bind s (some ids) = some (s ∷ ids)

abbrev pub match_segments : List Segment → List Text → Option (List Text)
match_segments [] [] = some []
match_segments (word w ∷ ps) (s ∷ ss) =
    let rest = match_segments ps ss in if w === s then rest else none
match_segments (id_hole ∷ ps) (s ∷ ss) =
    let rest = match_segments ps ss in if is_empty s then none else bind s rest
match_segments _ _ = none

abbrev pub found :
    Handler → Option (List Text) → Option (Handler × List Text) → Option (Handler × List Text)
found h none rest = rest
found h (some ids) rest = some (h, ids)

abbrev pub first_route : Text → List Text → List Route → Option (Handler × List Text)
first_route method segments [] = none
first_route method segments (r ∷ rs) =
    let rest = first_route method segments rs in
    if r.method === method then found r.handler (match_segments r.pattern segments) rest else rest

-- The path begins with a slash: the first part of it is empty.
abbrev pub segments : Text → List Text
segments path = (split b'/' (without_query path)).1

unfoldable pub dispatch : Text → Text → Option (Handler × List Text)
unfolding split ◌===◌
dispatch method path = first_route method (segments path) routes
