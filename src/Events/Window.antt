-- ===== src/Events/Window.antt =====
-- The event list is a window: the newest `MAX_EVENTS` of the events that the stream brought anew.
use rcon_ui.Base.{
  ℕ, zero, suc, ◌+◌, ◌-◌, ◌≤◌, ◌≡◌, refl, sym, ◌∙◌, ap, true, false, List, [], ◌∷◌, ◌++◌, Option,
  none, some, arith, leb, ltb, length, drop, get_last?, length-append, length-drop, Bool-cases, inl,
  inr, if◌then◌else◌, get_last?-append, map, append_assoc, append-nil,
}
use rcon_ui.Events.Order.{length-make_room}
use rcon_ui.Events.{RconEvent, max_events, append, is_replay, make_room, reducer, run}

-- The events that are newer than all before them, given the newest that is held.
unfoldable pub accepted : Option RconEvent → List RconEvent → List RconEvent
accepted held [] = []
accepted none (e ∷ es) = e ∷ accepted (some e) es
accepted (some last) (e ∷ es) =
    let skip = accepted (some last) es in
    let keep = accepted (some e) es in if ltb last.seq e.seq then e ∷ keep else skip

-- The last `MAX_EVENTS` of a list.
abbrev pub newest : List RconEvent → List RconEvent
newest es = drop (length es - max_events) es

drop_all_but : (n : ℕ) (es : List RconEvent) → n ≡ 0 → drop n es ≡ es
drop_all_but zero es h = refl
drop_all_but (suc n) es h = absurd (omega arith)

drop-append : (k : ℕ) (s t : List RconEvent) → k ≤ length s → drop k (s ++ t) ≡ drop k s ++ t
drop-append zero s t h = refl
drop-append (suc k) [] t h = absurd (omega arith)
drop-append (suc k) (e ∷ s) t h = drop-append k s t (omega arith)

drop_nil : (m : ℕ) → drop {A = RconEvent} m [] ≡ []
drop_nil zero = refl
drop_nil (suc m) = refl

drop-drop : (k n : ℕ) (es : List RconEvent) → drop n (drop k es) ≡ drop (k + n) es
drop-drop zero n es = let p : n ≡ zero + n = omega arith in ap (λ m. drop m es) p
drop-drop (suc k) n [] = drop_nil n ∙ sym (drop_nil (suc k + n))
drop-drop (suc k) n (e ∷ es) =
    let p : suc (k + n) ≡ suc k + n = omega arith in drop-drop k n es ∙ ap (λ m. drop m (e ∷ es)) p

-- Making room early does not change the window, as one more event follows.
newest-make_room :
    (s t : List RconEvent) (e : RconEvent) → newest (make_room s ++ e ∷ t) ≡ newest (s ++ e ∷ t)
unfolding make_room
newest-make_room s t e = elim (Bool-cases (leb max_events (length s))) [
  | inr small ↦ rw small
  | inl full ↦ rw full (cut (length s - max_events + 1) (ground arith) (ground arith))
]
  where
    cut :
        (k : ℕ)
        → k ≤ length s
        → k + max_events ≤ length s + 1
        → newest (drop k s ++ e ∷ t) ≡ newest (s ++ e ∷ t)
    cut k h p =
        ap (λ m. drop (length m - max_events) m) (sym (drop-append k s (e ∷ t) h))
        ∙ drop-drop k (length (drop k (s ++ e ∷ t)) - max_events) (s ++ e ∷ t)
        ∙ ap (λ m. drop m (s ++ e ∷ t))
            (omega (arith, length-drop {0} k (s ++ e ∷ t), length-append {0} s (e ∷ t)))

reducer_new :
    (s : List RconEvent) (e : RconEvent)
    → is_replay s e ≡ false
    → reducer s (append e) ≡ make_room s ++ e ∷ []
unfolding reducer
reducer_new s e h = rw h

reducer_old : (s : List RconEvent) (e : RconEvent) → is_replay s e ≡ true → reducer s (append e) ≡ s
unfolding reducer
reducer_old s e h = rw h

accepted_old :
    (s es : List RconEvent) (e : RconEvent)
    → is_replay s e ≡ true
    → accepted (get_last? s) (e ∷ es) ≡ accepted (get_last? s) es
unfolding is_replay accepted
accepted_old s es e h = ground arith

accepted_new :
    (s es : List RconEvent) (e : RconEvent)
    → is_replay s e ≡ false
    → accepted (get_last? s) (e ∷ es) ≡ e ∷ accepted (some e) es
unfolding is_replay accepted
accepted_new s es e h = ground arith

accepted_nil : (held : Option RconEvent) → accepted held [] ≡ []
unfolding accepted
accepted_nil held = refl

-- Appending a run of events from a list within its cap gives the newest `MAX_EVENTS` of what was
-- held followed by the events that were newer than all before them.
pub run-newest :
    (es state : List RconEvent)
    → length state ≤ max_events
    → run state (map append es) ≡ newest (state ++ accepted (get_last? state) es)
run-newest [] state h =
    sym (drop_all_but (length state - max_events) state (omega arith))
    ∙ ap newest
        (sym (append-nil state) ∙ ap (λ t. state ++ t) (sym (accepted_nil (get_last? state))))
run-newest (e ∷ es) state h = elim (Bool-cases (is_replay state e)) [
  | inl old ↦
      ap (λ s. run s (map append es)) (reducer_old state e old)
      ∙ run-newest es state h
      ∙ ap (λ t. newest (state ++ t)) (sym (accepted_old state es e old))
  | inr new ↦
      ap (λ s. run s (map append es)) (reducer_new state e new)
      ∙ run-newest es (make_room state ++ e ∷ [])
          (omega (arith, length-append {0} (make_room state) (e ∷ []), length-make_room state))
      ∙ ap (λ o. newest ((make_room state ++ e ∷ []) ++ accepted o es))
          (get_last?-append (make_room state) e)
      ∙ ap newest (append_assoc (make_room state) (e ∷ []) (accepted (some e) es))
      ∙ newest-make_room state (accepted (some e) es) e
      ∙ ap (λ t. newest (state ++ t)) (sym (accepted_new state es e new))
]
