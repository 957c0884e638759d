-- ===== src/Hub/Console.antt =====
-- The daemon's hub and the browser's console together: what a tab shows of what was published.
use rcon_ui.Hub.Delivery.{replay_point}
use rcon_ui.Base.{
  ℕ, max, suc, ◌-◌, ◌≤◌, ◌<◌, ◌≡◌, refl, ap, ◌∙◌, inl, inr, Bool, true, Option, none, some, List,
  [], ◌∷◌, ◌++◌, map, arith, lt→ltb, Bool-cases, All, filter,
}
use rcon_ui.Text.{Text}
use rcon_ui.Events.{RconEvent, Stream, command, response, status, error, discovery}
use rcon_ui.Text.ObjectKeys.{contains}
use rcon_ui.Events.Order.{IsRising}
use rcon_ui.Events.Window.{accepted, newest}
use rcon_ui.Api.{Page}
use rcon_ui.Subscription.{Hook, subscribe, listened}
use rcon_ui.Subscription.Frames.{events_of, deliver_all, deliver_all-subscribe}
use rcon_ui.Hub.{Hub, Connection, is_after, open_stream, waiting, Run, sse_frame, stream_name}
use rcon_ui.Hub.Log.{Numbered, HasLog}
use rcon_ui.Hub.Delivery.{IsLossless}
use rcon_ui.Hub.Lossless.{delivered, stream_log}

accepted-IsRising :
    (e : RconEvent) (es : List RconEvent) → IsRising (e ∷ es) → accepted (some e) es ≡ es
unfolding accepted
accepted-IsRising e [] h = refl
accepted-IsRising e (f ∷ es) ((p, a), h) =
    rw (lt→ltb e.seq f.seq p) (ap (λ l. f ∷ l) (accepted-IsRising f es h))

accepted_rising : (es : List RconEvent) → IsRising es → accepted none es ≡ es
unfolding accepted
accepted_rising [] h = refl
accepted_rising (e ∷ es) h = ap (λ l. e ∷ l) (accepted-IsRising e es h)

filter-above :
    (p : RconEvent → Bool) (n k : ℕ) (es : List RconEvent)
    → Numbered k es
    → n ≤ k
    → All (λ (f : RconEvent). n < f.seq) (filter p es)
filter-above p n k [] h l = tt
filter-above p n k (e ∷ es) (q, h) l = elim (Bool-cases (p e)) [
  | inl b ↦ rw b (omega arith, filter-above p n (suc k) es h (omega arith))
  | inr b ↦ rw b (filter-above p n (suc k) es h (omega arith))
]

filter-IsRising :
    (p : RconEvent → Bool) (k : ℕ) (es : List RconEvent) → Numbered k es → IsRising (filter p es)
filter-IsRising p k [] h = tt
filter-IsRising p k (e ∷ es) (q, h) = elim (Bool-cases (p e)) [
  | inl b ↦ rw b (filter-above p e.seq (suc k) es h (omega arith), filter-IsRising p (suc k) es h)
  | inr b ↦ rw b (filter-IsRising p (suc k) es h)
]

All-filtered :
    (P : RconEvent → Type 0) (p : RconEvent → Bool) (es : List RconEvent)
    → All P es
    → All P (filter p es)
All-filtered P p [] h = tt
All-filtered P p (e ∷ es) (q, h) = elim (Bool-cases (p e)) [
  | inl b ↦ rw b (q, All-filtered P p es h)
  | inr b ↦ rw b (All-filtered P p es h)
]

is_listened : (s : Stream) → contains (stream_name s) listened ≡ true
unfolding rcon_ui.Text.◌===◌
is_listened command = refl
is_listened response = refl
is_listened status = refl
is_listened error = refl
is_listened discovery = refl

events_of-map :
    (parse : Text → Option RconEvent) (json : RconEvent → Text) (es : List RconEvent)
    → All (λ e. parse (json e) ≡ some e) es
    → events_of parse (map (sse_frame json) es) ≡ es
events_of-map parse json [] h = refl
events_of-map parse json (e ∷ es) (p, h) =
    rw (is_listened e.stream) (rw p (ap (λ l. e ∷ l) (events_of-map parse json es h)))

-- A tab that subscribes to a server shows, once it has received what the daemon wrote for it, the
-- newest `MAX_EVENTS` of the events of that server, but for those that the hub had dropped when it
-- wrote the history, by its number at that time, in order, each once, whatever the tab showed before;
-- none of those dropped was published after the opening. It holds where the daemon's run loses
-- nothing and each event's JSON is read back as the event.
pub console_shows :
    (encode : Text → Text) (parse : Text → Option RconEvent) (json : RconEvent → Text) (c : ℕ)
    (cs : Text) (page : Page) (h : Hook) (h0 : Hub) (before log : List RconEvent) (w : Connection)
    → HasLog before h0
    → (run : Run (open_stream (c ∷ cs) 0 h0) log w) → IsLossless run
    → w.streaming ≡ true
    → waiting w ≡ []
    → All (λ e. parse (json e) ≡ some e) (before ++ log)
    → let dropped = replay_point run - h0.history_limit in
      (dropped ≤ h0.seq)
      × ((deliver_all parse
            (map (sse_frame json) w.written)
            (subscribe encode (some (c ∷ cs)) page h).0).events
          ≡ newest (filter (is_after dropped (c ∷ cs)) (before ++ log)))
console_shows encode parse json c cs page h h0 before log w l run k t q good =
    let (low, eq) = delivered (c ∷ cs) 0 h0 before log w l run k t q in
    let dropped = replay_point run - h0.history_limit in
    let plain : max 0 dropped ≡ dropped = omega arith in
    let shown = filter (is_after dropped (c ∷ cs)) (before ++ log) in
    let rising =
      filter-IsRising (is_after dropped (c ∷ cs)) 0 (before ++ log)
        (stream_log (c ∷ cs) 0 h0 before log w l run k).numbered in
    (
      low,
      deliver_all-subscribe encode parse c cs page h (map (sse_frame json) w.written)
          ∙ ap (λ es. newest (accepted none (events_of parse (map (sse_frame json) es))))
              (eq ∙ ap (λ m. filter (is_after m (c ∷ cs)) (before ++ log)) plain)
          ∙ ap (λ es. newest (accepted none es))
              (events_of-map parse json shown (
                All-filtered (λ e. parse (json e) ≡ some e) (is_after dropped (c ∷ cs))
                  (before ++ log) good))
          ∙ ap newest (accepted_rising shown rising),
    )
