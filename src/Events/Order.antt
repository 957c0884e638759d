-- ===== src/Events/Order.antt =====
-- The event list stays ordered and bounded, and a replay of what it holds changes nothing.
use rcon_ui.Base.{
  ap, ◌∙◌, ℕ, zero, suc, ◌+◌, ◌-◌, ◌≤◌, ◌<◌, ◌≡◌, refl, false, List, [], ◌∷◌, ◌++◌, some, arith,
  leb, length, drop, get_last?, All, All-drop, map, length-append, length-drop, Bool-cases, inl,
  inr,
}
use rcon_ui.Events.{
  RconEvent, max_events, Action, append, reset, is_replay, make_room, reducer, run,
}

-- Strictly rising sequence numbers.
abbrev pub IsRising : List RconEvent → Type 0
IsRising [] = Unit
IsRising (e ∷ es) = All (λ f. e.seq < f.seq) es × IsRising es

abbrev Newer : ℕ → RconEvent → Type 0
Newer n e = n < e.seq

-- The list of a console: ordered, with no duplicate, and within its cap.
pub record IsValid (state : List RconEvent) : Type 0 where
  pub rising : IsRising state
  pub capped : length state ≤ max_events

IsRising-drop : (n : ℕ) (es : List RconEvent) → IsRising es → IsRising (drop n es)
IsRising-drop zero es h = h
IsRising-drop (suc n) [] h = h
IsRising-drop (suc n) (e ∷ es) h = IsRising-drop n es h.1

-- Every event lies below `e`.
abbrev Below : RconEvent → List RconEvent → Type 0
Below e es = All (λ f. f.seq < e.seq) es

All-snoc :
    (n : ℕ) (es : List RconEvent) (e : RconEvent)
    → All (Newer n) es
    → n < e.seq
    → All (Newer n) (es ++ e ∷ [])
All-snoc n [] e h p = (p, tt)
All-snoc n (f ∷ es) e (q, h) p = (q, All-snoc n es e h p)

IsRising-snoc :
    (es : List RconEvent) (e : RconEvent) → IsRising es → Below e es → IsRising (es ++ e ∷ [])
IsRising-snoc [] e h b = (tt, tt)
IsRising-snoc (f ∷ es) e (a, h) (p, b) = (All-snoc f.seq es e a p, IsRising-snoc es e h b)

-- In a rising list the last event is the newest.
Below-of_last :
    (es : List RconEvent) (e : RconEvent) → IsRising es → is_replay es e ≡ false → Below e es
unfolding is_replay
Below-of_last [] e h n = tt
Below-of_last (f ∷ []) e h n = (ground arith, tt)
Below-of_last (f ∷ (g ∷ es)) e ((p, a), h) n =
    let b = Below-of_last (g ∷ es) e h n in (omega arith, b)

make_room-IsRising : (es : List RconEvent) → IsRising es → IsRising (make_room es)
unfolding make_room
make_room-IsRising es h = elim (Bool-cases (leb max_events (length es))) [
  | inl e ↦ rw e (IsRising-drop (length es - max_events + 1) es h)
  | inr e ↦ rw e h
]

make_room-Below : (es : List RconEvent) (e : RconEvent) → Below e es → Below e (make_room es)
unfolding make_room
make_room-Below es e h = elim (Bool-cases (leb max_events (length es))) [
  | inl t ↦ rw t (All-drop (λ f. f.seq < e.seq) (length es - max_events + 1) es h)
  | inr t ↦ rw t h
]

pub length-make_room : (es : List RconEvent) → length (make_room es) < max_events
unfolding make_room
length-make_room es = ground (arith, length-drop (length es - max_events + 1) es)

reducer-IsValid : (state : List RconEvent) (a : Action) → IsValid state → IsValid (reducer state a)
unfolding reducer
reducer-IsValid state reset v = record { rising = tt; capped = omega arith }
reducer-IsValid state (append e) v = elim (Bool-cases (is_replay state e)) [
  | inl old ↦ rw old v
  | inr new ↦ rw new (record {
    rising =
        IsRising-snoc (make_room state) e (make_room-IsRising state v.rising)
          (make_room-Below state e (Below-of_last state e v.rising new));
    capped = omega (arith, length-append {0} (make_room state) (e ∷ []), length-make_room state);
  })
]

-- Whatever the stream delivers and however often the view is reset, the list that a valid one turns
-- into has strictly rising sequence numbers, so no duplicate, and at most `MAX_EVENTS` events.
pub run-IsValid :
    (actions : List Action) (state : List RconEvent) → IsValid state → IsValid (run state actions)
run-IsValid [] state v = v
run-IsValid (a ∷ actions) state v =
    run-IsValid actions (reducer state a) (reducer-IsValid state a v)

reducer_replay :
    (state : List RconEvent) (last e : RconEvent)
    → get_last? state ≡ some last
    → e.seq ≤ last.seq
    → reducer state (append e) ≡ state
unfolding reducer
reducer_replay state last e h p = ground arith

-- A reconnect that replays events at or below the newest one held leaves the list as it is.
pub run_replay :
    (replayed : List RconEvent) (state : List RconEvent) (last : RconEvent)
    → get_last? state ≡ some last
    → All (λ e. e.seq ≤ last.seq) replayed
    → run state (map append replayed) ≡ state
run_replay [] state last h k = refl
run_replay (e ∷ replayed) state last h (p, k) =
    ap (λ s. run s (map append replayed)) (reducer_replay state last e h p)
    ∙ run_replay replayed state last h k
