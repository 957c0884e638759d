-- ===== src/Hub/Lossless.antt =====
-- What a browser gets that subscribes, over any run of the daemon that loses nothing.
use rcon_ui.Hub.Delivery.{replay_point}
use rcon_ui.Hub.Log.{Numbered, HasLog, HasLog-publish}
use rcon_ui.Base.{
  ℕ, max, suc, ◌+◌, ◌-◌, ◌%◌, ◌^◌, ◌≤◌, ◌<◌, ◌≡◌, refl, sym, ap, ◌∙◌, subst, inl, inr, true, false,
  not, List, [], ◌∷◌, ◌++◌, map, append-nil, append_assoc, arith, leb, ◌==◌, lt→ltb, Bool-cases,
  length, drop, All, filter, all, filter_none,
}
use rcon_ui.Text.{Text}
use rcon_ui.Events.{RconEvent}
use rcon_ui.Hub.{
  Hub, Subscriber, Connection, subscriber_buffer, is_after, wants, stamp, offer, next_seq, publish,
  history_since, open_stream, replay, receive, receive_from, waiting, waiting_in, Run, fresh,
  published, beside_others, others_change, beside, replayed_past, received,
}
use rcon_ui.Hub.Delivery.{
  IsLossless, Delivers, waits, streams, sent, Delivers-publish, Delivers-replay, Delivers-receive,
}

module _ (profile : Text) (after : ℕ) (h0 : Hub) where
  -- A connection in the middle of a run, with all that was published.
  record Holds (m : ℕ) (all : List RconEvent) (w : Connection) : Type 0 where
    id : ℕ
    others : List (ℕ × Subscriber)
    subs : w.hub.subs ≡ (id, record { queue = waiting w; profile = profile }) ∷ others
    asked : w.profile ≡ profile
    limit : w.hub.history_limit ≡ h0.history_limit
    log : HasLog all w.hub
    delivers :
        Delivers profile after h0.seq h0.history_limit m w.hub.seq all
          (waiting w)
          w.written
          w.replayed
          w.streaming

  offer-sent :
      (id : ℕ) (queue : List RconEvent) (e : RconEvent)
      → length queue < subscriber_buffer
      → offer e (id, record { queue = queue; profile = profile })
        ≡ (id, record { queue = sent profile e queue; profile = profile })
  offer-sent id queue e h = elim (Bool-cases (wants profile e)) [
    | inl b ↦ rw b (rw (lt→ltb (length queue) subscriber_buffer h) refl)
    | inr b ↦ rw b refl
  ]

  Holds-publish :
      (m : ℕ) (log : List RconEvent) (w : Connection) (now : Text) (e : RconEvent)
      → w.hub.seq + 1 < 2 ^ 64
      → length (waiting w) < subscriber_buffer
      → Holds m log w
      → Holds m (log ++ stamp now (next_seq w.hub) e ∷ []) (record w { hub = publish now e w.hub })
  unfolding publish
  Holds-publish m log w now e small room v =
      let new = stamp now (next_seq w.hub) e in
      let next : next_seq w.hub ≡ suc w.hub.seq = omega arith in
      let subs : map (offer new) w.hub.subs
          ≡ (v.id, record { queue = sent profile new (waiting w); profile = profile })
            ∷ map (offer new) v.others =
        ap (map (offer new)) v.subs
        ∙ ap (λ s. s ∷ map (offer new) v.others) (offer-sent v.id (waiting w) new room) in
      let queue : waiting_in (map (offer new) w.hub.subs) ≡ sent profile new (waiting w) =
        ap waiting_in subs in
      record {
        id = v.id;
        others = map (offer new) v.others;
        subs = rw queue subs;
        asked = v.asked;
        limit = v.limit;
        log = HasLog-publish log w.hub now e v.log small;
        delivers = rw queue (
            subst
              (λ n.
                Delivers profile after h0.seq h0.history_limit m n (log ++ new ∷ [])
                  (sent profile new (waiting w)) w.written w.replayed w.streaming)
              (sym next)
              (Delivers-publish profile after h0.seq h0.history_limit m w.hub.seq log (waiting w)
                w.written w.replayed w.streaming new next v.delivers));
      }

  Holds-replay :
      (m : ℕ) (all : List RconEvent) (w : Connection)
      → w.hub.seq ≤ h0.seq + h0.history_limit
      → w.streaming ≡ false
      → Holds m all w
      → Holds w.hub.seq all (replay w)
  unfolding replay history_since
  Holds-replay m all w room f v = record {
    id = v.id;
    others = v.others;
    subs = v.subs;
    asked = v.asked;
    limit = v.limit;
    log = v.log;
    delivers = rw v.asked (
        Delivers-replay profile after h0.seq h0.history_limit m w.hub.seq all (waiting w) w.written
          w.replayed w.streaming w.hub.history v.log.numbered v.log.count
          (v.log.retained ∙ ap (λ l. drop (w.hub.seq - l) all) v.limit) room f v.delivers);
  }

  Holds-others_change :
      (m : ℕ) (all : List RconEvent) (w : Connection) (others : List (ℕ × Subscriber)) (id : ℕ)
      → Holds m all w
      → Holds m all (others_change others id w)
  Holds-others_change m all w others id v =
      let subs : beside others w.hub.subs
          ≡ (v.id, record { queue = waiting w; profile = profile }) ∷ others =
        ap (beside others) v.subs in
      let queue : waiting_in (beside others w.hub.subs) ≡ waiting w = ap waiting_in subs in
      record {
        id = v.id;
        others = others;
        subs = rw queue subs;
        asked = v.asked;
        limit = v.limit;
        log = record { numbered = v.log.numbered; count = v.log.count; retained = v.log.retained };
        delivers = rw queue v.delivers;
      }

  Holds-receive_from :
      (m : ℕ) (all : List RconEvent) (w : Connection) (id : ℕ) (others : List (ℕ × Subscriber))
      (queue : List RconEvent)
      → w.streaming ≡ true
      → waiting w ≡ queue
      → Holds m all w
      → Holds m all (receive_from ((id, record { queue = queue; profile = profile }) ∷ others) w)
  Holds-receive_from m all w id others [] t q v = v
  Holds-receive_from m all w id others (e ∷ queue) t q v = record {
    id = id;
    others = others;
    subs = refl;
    asked = v.asked;
    limit = v.limit;
    log = record { numbered = v.log.numbered; count = v.log.count; retained = v.log.retained };
    delivers = rw t (
        Delivers-receive profile after h0.seq h0.history_limit m w.hub.seq all queue w.written
          w.replayed e (rw t at (rw q at v.delivers)));
  }

  Holds-receive :
      (m : ℕ) (all : List RconEvent) (w : Connection)
      → w.streaming ≡ true
      → Holds m all w
      → Holds m all (receive w)
  unfolding receive
  Holds-receive m all w t v =
      subst (λ s. Holds m all (receive_from s w)) (sym v.subs)
        (Holds-receive_from m all w v.id v.others (waiting w) t refl v)

  not_newer :
      (k : ℕ) (es : List RconEvent)
      → Numbered k es
      → k + length es ≤ h0.seq
      → All (λ (x : RconEvent). is_after h0.seq profile x ≡ false) es
  not_newer k [] n l = tt
  not_newer k (e ∷ es) (q, n) l =
      let b : leb e.seq h0.seq ≡ true = ground arith in
      (rw b refl, not_newer (suc k) es n (omega arith))

  Holds-open :
      (log : List RconEvent) → HasLog log h0 → Holds 0 (log ++ []) (open_stream profile after h0)
  unfolding open_stream
  Holds-open log l = record {
    id = (h0.next_sub_id + 1) % 2 ^ 64;
    others = filter (λ (s : ℕ × Subscriber). not (s.0 == ((h0.next_sub_id + 1) % 2 ^ 64))) h0.subs;
    subs = refl;
    asked = refl;
    limit = refl;
    log =
        rw (append-nil log)
          (record { numbered = l.numbered; count = l.count; retained = l.retained });
    delivers = rw (append-nil log) (
        waits (omega arith) refl refl refl (
          sym (
            filter_none (is_after h0.seq profile) log
              (not_newer 0 log l.numbered (omega (arith, l.count))))));
  }

  Holds-run :
      (before log : List RconEvent) (w : Connection)
      → HasLog before h0
      → (run : Run (open_stream profile after h0) log w) → IsLossless run
      → Holds (replay_point run) (before ++ log) w
  unfolding IsLossless open_stream replay_point
  Holds-run before log w l fresh k = Holds-open before l
  Holds-run before log w l (published {log = past} {w = u} run now e) (k, small, room) =
      subst (λ es. Holds (replay_point run) es (record u { hub = publish now e u.hub }))
        (append_assoc before past (stamp now (next_seq u.hub) e ∷ []))
        (Holds-publish (replay_point run) (before ++ past) u now e small room
          (Holds-run before past u l run k))
  Holds-run before log w l (replayed_past {w = u} run f) (k, room) =
      let v = Holds-run before log u l run k in
      Holds-replay (replay_point run) (before ++ log) u (omega (arith, room, v.limit)) f v
  Holds-run before log w l (beside_others {w = u} run others id) k =
      Holds-others_change (replay_point run) (before ++ log) u others id
        (Holds-run before log u l run k)
  Holds-run before log w l (received {w = u} run t) k =
      Holds-receive (replay_point run) (before ++ log) u t (Holds-run before log u l run k)

  -- The log of what was published goes on.
  pub stream_log :
      (before log : List RconEvent) (w : Connection)
      → HasLog before h0
      → (run : Run (open_stream profile after h0) log w) → IsLossless run
      → HasLog (before ++ log) w.hub
  stream_log before log w l run k = (Holds-run before log w l run k).log

  all_written :
      {m seq : ℕ} {all written : List RconEvent} {r : ℕ}
      → Delivers profile after h0.seq h0.history_limit m seq all [] written r true
      → (h0.seq ≤ m)
        × (m ≤ h0.seq + h0.history_limit)
        × (written ≡ filter (is_after (max after (m - h0.history_limit)) profile) all)
  all_written (waits b st w same queued) = cc
  all_written {written = written} (streams st b u l c eq) = (b, l, sym (append-nil written) ∙ eq)

  -- Whatever is published, by anyone and in any order with the replay and the receiving, a stream that
  -- has written all that waits for it has written exactly the events of its profile that are newer
  -- than the last one the browser had seen and than what the hub had dropped when the history was
  -- written, by its number at that time, in order and each once; what it had dropped was published
  -- before the stream was opened. It holds where the numbers do not wrap, the channel has room for
  -- each event when it is published, and the history holds at the replay what was published since the
  -- opening.
  pub delivered :
      (before log : List RconEvent) (w : Connection)
      → HasLog before h0
      → (run : Run (open_stream profile after h0) log w) → IsLossless run
      → w.streaming ≡ true
      → waiting w ≡ []
      → let dropped = replay_point run - h0.history_limit in
        (dropped ≤ h0.seq)
        × (w.written ≡ filter (is_after (max after dropped) profile) (before ++ log))
  delivered before log w l run k t q =
      let (low, high, eq) =
        all_written (rw (t, q) at ((Holds-run before log w l run k).delivers)) in
      (omega arith, eq)
