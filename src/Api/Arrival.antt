-- ===== src/Api/Arrival.antt =====
-- Each call of the front end arrives at the handler that it is meant for.
use rcon_ui.Base.{
  ℕ, ◌≡◌, refl, sym, ap, ◌∙◌, Bool, true, false, ◌&&◌, ◌||◌, some, List, [], ◌∷◌, ◌++◌, append-nil,
  arith, leb, ◌==◌, All,
}
use rcon_ui.Text.{Text, codes, ◌===◌, is_empty}
use rcon_ui.Text.Split.{split}
use rcon_ui.Text.Decimal.{show_nat}
use rcon_ui.Api.Endpoints.{
  ApiCall, list_servers, protocols, create_server, change_server, delete_server, connect,
  disconnect, discovery, discover, execute, history, list_macros, delete_macro, create_macro, call,
  at_server,
}
use rcon_ui.Api.Routes.{
  Handler, handle_protocols, handle_list_servers, handle_create_server, handle_update_server,
  handle_delete_server, handle_connect, handle_disconnect, handle_execute, handle_history,
  handle_get_discovery, handle_discover, handle_list_macros, handle_create_macro,
  handle_delete_macro, without_query, segments, dispatch, first_route, routes,
}

abbrev pub is_hex : ℕ → Bool
is_hex c = (leb b'0' c && leb c b'9') || (leb b'a' c && leb c b'f')

-- An id as the daemon makes them: `hex.EncodeToString` of some bytes.
abbrev pub IsId : Text → Type 0
IsId id = (is_empty id ≡ false) × All (λ c. is_hex c ≡ true) id

without_query-append :
    (id s : Text) → All (λ c. is_hex c ≡ true) id → without_query (id ++ s) ≡ id ++ without_query s
without_query-append [] s h = refl
without_query-append (c ∷ id) s (p, h) =
    let no : (c == b'?') ≡ false = ground arith in
    rw no (ap (λ t. c ∷ t) (without_query-append id s h))

split_id : (id : Text) → All (λ c. is_hex c ≡ true) id → split b'/' id ≡ (id, [])
unfolding split
split_id [] h = refl
split_id (c ∷ id) (p, h) =
    let no : (c == b'/') ≡ false = ground arith in rw no (rw (split_id id h) refl)

split-append :
    (id s : Text)
    → All (λ c. is_hex c ≡ true) id
    → split b'/' (id ++ b'/' ∷ s) ≡ (id, (split b'/' s).0 ∷ (split b'/' s).1)
unfolding split
split-append [] s h = refl
split-append (c ∷ id) s (p, h) =
    let no : (c == b'/') ≡ false = ground arith in rw no (rw (split-append id s h) refl)

-- The segments of a path of a server.
segments_alone :
    (id : Text) → IsId id → segments (at_server id []) ≡ codes "api" ∷ codes "servers" ∷ id ∷ []
unfolding split
segments_alone id (n, h) =
    let q : without_query (id ++ []) ≡ id = without_query-append id [] h ∙ append-nil id in
    rw q (rw (split_id id h) refl)

segments_under :
    (id tail rest : Text)
    → IsId id
    → without_query tail ≡ b'/' ∷ rest
    → segments (at_server id tail)
      ≡ codes "api" ∷ codes "servers" ∷ id ∷ (split b'/' rest).0 ∷ (split b'/' rest).1
unfolding split
segments_under id tail rest (n, h) t =
    let q : without_query (id ++ tail) ≡ id ++ b'/' ∷ rest =
      without_query-append id tail h ∙ ap (λ s. id ++ s) t in
    rw q (rw (split-append id rest h) refl)

segments_macro :
    (id : Text)
    → IsId id
    → segments (codes "/api/macros/" ++ id) ≡ codes "api" ∷ codes "macros" ∷ id ∷ []
unfolding split
segments_macro id (n, h) =
    let q : without_query id ≡ id =
      ap without_query (sym (append-nil id)) ∙ without_query-append id [] h ∙ append-nil id in
    rw q (rw (split_id id h) refl)

-- The handler that a call is meant for, and the id that it names in its path.
abbrev pub meant_for {ℓ} : {I M : Type ℓ} → ApiCall I M → Handler × List Text
meant_for list_servers = (handle_list_servers, [])
meant_for (create_server i) = (handle_create_server, [])
meant_for (change_server id i) = (handle_update_server, id ∷ [])
meant_for (delete_server id) = (handle_delete_server, id ∷ [])
meant_for (connect id) = (handle_connect, id ∷ [])
meant_for (disconnect id) = (handle_disconnect, id ∷ [])
meant_for (execute id c) = (handle_execute, id ∷ [])
meant_for (discovery id) = (handle_get_discovery, id ∷ [])
meant_for (discover id) = (handle_discover, id ∷ [])
meant_for (history id limit) = (handle_history, id ∷ [])
meant_for (list_macros id) = (handle_list_macros, [])
meant_for (create_macro m) = (handle_create_macro, [])
meant_for (delete_macro id) = (handle_delete_macro, id ∷ [])
meant_for protocols = (handle_protocols, [])

-- Each call of the front end, whose path names ids of the daemon's, is dispatched to the handler that
-- it is meant for, with the same id.
pub dispatch-call {ℓ} :
    {I M : Type ℓ} (encode : Text → Text) (c : ApiCall I M)
    → All IsId (meant_for c).1
    → dispatch (call encode c).method (call encode c).path ≡ some (meant_for c)
unfolding dispatch call split ◌===◌
dispatch-call encode list_servers h = refl
dispatch-call encode protocols h = refl
dispatch-call encode (create_server i) h = refl
dispatch-call encode (create_macro m) h = refl
dispatch-call encode (list_macros id) h = refl
dispatch-call encode (change_server id i) (v, h) =
    ap (λ ss. first_route (codes "PATCH") ss routes) (segments_alone id v) ∙ rw v.0 refl
dispatch-call encode (delete_server id) (v, h) =
    ap (λ ss. first_route (codes "DELETE") ss routes) (segments_alone id v) ∙ rw v.0 refl
dispatch-call encode (connect id) (v, h) =
    ap (λ ss. first_route (codes "POST") ss routes)
      (segments_under id (codes "/connect") (codes "connect") v refl)
    ∙ rw v.0 refl
dispatch-call encode (disconnect id) (v, h) =
    ap (λ ss. first_route (codes "POST") ss routes)
      (segments_under id (codes "/disconnect") (codes "disconnect") v refl)
    ∙ rw v.0 refl
dispatch-call encode (execute id c) (v, h) =
    ap (λ ss. first_route (codes "POST") ss routes)
      (segments_under id (codes "/execute") (codes "execute") v refl)
    ∙ rw v.0 refl
dispatch-call encode (discovery id) (v, h) =
    ap (λ ss. first_route (codes "GET") ss routes)
      (segments_under id (codes "/discovery") (codes "discovery") v refl)
    ∙ rw v.0 refl
dispatch-call encode (discover id) (v, h) =
    ap (λ ss. first_route (codes "POST") ss routes)
      (segments_under id (codes "/discover") (codes "discover") v refl)
    ∙ rw v.0 refl
dispatch-call encode (history id limit) (v, h) =
    ap (λ ss. first_route (codes "GET") ss routes)
      (segments_under id (codes "/history?limit=" ++ show_nat limit) (codes "history") v refl)
    ∙ rw v.0 refl
dispatch-call encode (delete_macro id) (v, h) =
    ap (λ ss. first_route (codes "DELETE") ss routes) (segments_macro id v) ∙ rw v.0 refl
