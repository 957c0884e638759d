-- ===== src/Api/Unseen.antt =====
-- The passwords and the replies of the handlers of profiles in internal/api/api.go.
use rcon_ui.Store.Hidden.{
  hidden_again, hidden, seen, get_server-hidden, create_server-hidden, update_server-hidden,
  delete_server-hidden,
}
use rcon_ui.Api.Profiles.{
  error, shown_profile, Service, ProfileReply, created, create_from, saved, deleted, of_request,
  handle_create_server, handle_update_server, handle_get_server, handle_delete_server,
}
use rcon_ui.Session.Manager.{disconnect, Manager}
use rcon_ui.Base.{◌≡◌, refl, sym, ap, ap₂, ◌∙◌, Option, none, some, List, [], ◌∷◌}
use rcon_ui.Text.{Text}
use rcon_ui.Secret.{Sealer}
use rcon_ui.ServerDialog.Daemon.{ServerRequest}
use rcon_ui.Store.{
  Profile, Database, Draw, StoreResult, done, failed, create_server, update_server, delete_server,
}

-- A request for a handler of profiles, with its body, none for one that cannot be read.
pub data ProfileCall : Type 0 where
  posts : Draw → Option ServerRequest → ProfileCall
  patches : Draw → Text → Option ServerRequest → ProfileCall
  removes : Text → ProfileCall
  reads : Text → ProfileCall

unfoldable pub handle_call : Sealer → ProfileCall → Service → ProfileReply × Service
unfolding handle_create_server handle_update_server handle_get_server handle_delete_server
handle_call s (posts draw req) v = handle_create_server s draw req v
handle_call s (patches draw id req) v = handle_update_server s draw id req v
handle_call s (removes id) v = handle_delete_server id v
handle_call s (reads id) v = (handle_get_server id v, v)

unfoldable pub replies : Sealer → List ProfileCall → Service → List ProfileReply
unfolding handle_call
replies s [] v = []
replies s (c ∷ cs) v = (handle_call s c v).0 ∷ replies s cs (handle_call s c v).1

abbrev hidden_service : Service → Service
hidden_service v = record v { database = hidden v.database }

abbrev seen_service : ProfileReply × Service → ProfileReply × Service
seen_service (r, v) = (r, hidden_service v)

created-seen :
    (m : Manager) (x : StoreResult Profile × Database)
    → seen_service (created m x) ≡ created m (seen x)
created-seen m (failed e, db) = refl
created-seen m (done p, db) = refl

saved-seen :
    (id : Text) (m : Manager) (x : StoreResult Profile × Database)
    → seen_service (saved id m x) ≡ saved id m (seen x)
saved-seen id m (failed e, db) = refl
saved-seen id m (done p, db) = refl

deleted-seen :
    (m : Manager) (x : StoreResult Unit × Database)
    → seen_service (deleted m x) ≡ deleted m (seen x)
deleted-seen m (failed e, db) = refl
deleted-seen m (done p, db) = refl

refused_unread :
    (v : Service) → seen_service (error 400, hidden_service v) ≡ seen_service (error 400, v)
refused_unread v = ap (λ d. (error 400, record v { database = d })) (hidden_again v.database)

create_from-hidden :
    (s : Sealer) (draw : Draw) (req : ServerRequest) (w : Option Text) (v : Service)
    → seen_service (create_from s draw req w (hidden_service v))
      ≡ seen_service (create_from s draw req w v)
create_from-hidden s draw req none v = refused_unread v
create_from-hidden s draw req (some w) v =
    created-seen v.manager (create_server s draw (of_request req) w (hidden v.database))
    ∙ ap (created v.manager) (create_server-hidden s draw (of_request req) w v.database)
    ∙ sym (created-seen v.manager (create_server s draw (of_request req) w v.database))

handle_call-hidden :
    (s : Sealer) (c : ProfileCall) (v : Service)
    → seen_service (handle_call s c (hidden_service v)) ≡ seen_service (handle_call s c v)
unfolding handle_call handle_create_server handle_update_server handle_get_server
    handle_delete_server
handle_call-hidden s (posts draw none) v = refused_unread v
handle_call-hidden s (posts draw (some req)) v = create_from-hidden s draw req req.password v
handle_call-hidden s (patches draw id none) v = refused_unread v
handle_call-hidden s (patches draw id (some req)) v =
    let srv = of_request req in
    saved-seen id v.manager (update_server s draw id srv req.password (hidden v.database))
    ∙ ap (saved id v.manager) (update_server-hidden s draw id srv req.password v.database)
    ∙ sym (saved-seen id v.manager (update_server s draw id srv req.password v.database))
handle_call-hidden s (removes id) v =
    let m = disconnect id v.manager in
    deleted-seen m (delete_server id (hidden v.database))
    ∙ ap (deleted m) (delete_server-hidden id v.database)
    ∙ sym (deleted-seen m (delete_server id v.database))
handle_call-hidden s (reads id) v =
    ap₂ (λ a d. (shown_profile v.manager a, record v { database = d }))
      (get_server-hidden id v.database) (hidden_again v.database)

replies-hidden :
    (s : Sealer) (cs : List ProfileCall) (v : Service)
    → replies s cs (hidden_service v) ≡ replies s cs v
unfolding replies
replies-hidden s [] v = refl
replies-hidden s (c ∷ cs) v =
    let same = handle_call-hidden s c v in
    ap₂ (λ r rs. r ∷ rs) (ap (λ x. x.0) same)
      (sym (replies-hidden s cs (handle_call s c (hidden_service v)).1)
        ∙ ap (λ x. replies s cs x.1) same
        ∙ replies-hidden s cs (handle_call s c v).1)

-- No reply tells anything of a stored password: two services whose profiles, sessions, macros and
-- histories are the same, whatever passwords they store, answer any series of creations, reads, changes
-- and deletions of profiles with the same replies.
pub replies_lem :
    (s : Sealer) (cs : List ProfileCall) (v w : Service)
    → v.manager ≡ w.manager
    → hidden v.database ≡ hidden w.database
    → replies s cs v ≡ replies s cs w
replies_lem s cs v w m d =
    sym (replies-hidden s cs v)
    ∙ ap₂ (λ x y. replies s cs (record { manager = x; database = y })) m d
    ∙ replies-hidden s cs w
