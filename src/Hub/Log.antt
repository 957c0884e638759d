-- ===== src/Hub/Log.antt =====
-- What the hub retains of all that was published.
use rcon_ui.Base.{
  ℕ, zero, suc, ◌+◌, ◌-◌, ◌^◌, ◌≤◌, ◌<◌, ◌≡◌, refl, sym, ap, ◌∙◌, inl, inr, List, [], ◌∷◌, ◌++◌,
  arith, ltb, ltb→lt, Bool-cases, length, drop, length-append, length-drop,
}
use rcon_ui.Text.{Text}
use rcon_ui.Events.{RconEvent}
use rcon_ui.Hub.{Hub, stamp, next_seq, trim, publish}

-- Numbered one after the other, from the number after `k` on.
abbrev pub Numbered : ℕ → List RconEvent → Type 0
Numbered k [] = Unit
Numbered k (e ∷ es) = (e.seq ≡ suc k) × Numbered (suc k) es

-- The hub holds the newest of a log of everything published since the daemon started.
pub record HasLog (log : List RconEvent) (h : Hub) : Type 0 where
  pub numbered : Numbered 0 log
  pub count : length log ≡ h.seq
  pub retained : h.history ≡ drop (h.seq - h.history_limit) log

pub Numbered-snoc :
    (k : ℕ) (es : List RconEvent) (e : RconEvent)
    → Numbered k es
    → e.seq ≡ suc (k + length es)
    → Numbered k (es ++ e ∷ [])
Numbered-snoc k [] e h p = (omega arith, tt)
Numbered-snoc k (f ∷ es) e (q, h) p = (q, Numbered-snoc (suc k) es e h (omega arith))

drop_append {ℓ} :
    {A : Type ℓ} (m : ℕ) (xs ys : List A) → m ≤ length xs → drop m (xs ++ ys) ≡ drop m xs ++ ys
drop_append zero xs ys h = refl
drop_append (suc m) [] ys h = absurd (omega arith)
drop_append (suc m) (x ∷ xs) ys h = drop_append m xs ys (omega arith)

pub drop-drop {ℓ} :
    {A : Type ℓ} (m n k : ℕ) (xs : List A) → m + n ≡ k → drop n (drop m xs) ≡ drop k xs
drop-drop zero n k xs h = ap (λ j. drop j xs) (omega arith)
drop-drop (suc m) n zero xs h = absurd (omega arith)
drop-drop (suc m) zero (suc k) [] h = refl
drop-drop (suc m) (suc n) (suc k) [] h = refl
drop-drop (suc m) n (suc k) (x ∷ xs) h = drop-drop m n k xs (omega arith)

-- Trimming after an event is added keeps the newest.
trim-drop :
    (limit : ℕ) (log : List RconEvent) (e : RconEvent)
    → trim limit (drop (length log - limit) log ++ e ∷ [])
      ≡ drop (suc (length log) - limit) (log ++ e ∷ [])
unfolding trim
trim-drop limit log e =
    let m = length log - limit in
    let all = log ++ e ∷ [] in
    let held = drop m log ++ e ∷ [] in
    let joined : drop m all ≡ held = drop_append m log (e ∷ []) (omega arith) in
    let long : length held ≡ suc (length log - m) =
      omega (arith, length-append (drop m log) (e ∷ []), length-drop m log) in
    elim (Bool-cases (ltb limit (length held))) [
      | inl b ↦
          let over : limit < length held = ltb→lt limit (length held) b in
          let surplus : m + (length held - limit) ≡ suc (length log) - limit =
            omega (arith, long, over) in
          rw b (
            ap (drop (length held - limit)) (sym joined)
            ∙ drop-drop m (length held - limit) (suc (length log) - limit) all surplus)
      | inr b ↦
          let none_over : m ≡ suc (length log) - limit = ground (arith, long) in
          rw b (sym joined ∙ ap (λ k. drop k all) none_over)
    ]

-- Where the numbers do not wrap, what the hub keeps after an event is published are the newest events
-- of the log with that event at its end, as many as its limit, and the log is numbered without a gap.
pub HasLog-publish :
    (log : List RconEvent) (h : Hub) (now : Text) (e : RconEvent)
    → HasLog log h
    → h.seq + 1 < 2 ^ 64
    → HasLog (log ++ stamp now (next_seq h) e ∷ []) (publish now e h)
unfolding publish
HasLog-publish log h now e v small =
    let next : next_seq h ≡ suc h.seq = omega arith in
    record {
      numbered = Numbered-snoc 0 log (stamp now (next_seq h) e) v.numbered (omega (arith, v.count));
      count = omega (arith, v.count, length-append log (stamp now (next_seq h) e ∷ []));
      retained =
          ap (λ k. trim h.history_limit (k ++ stamp now (next_seq h) e ∷ []))
            (v.retained ∙ ap (λ k. drop (k - h.history_limit) log) (sym v.count))
          ∙ trim-drop h.history_limit log (stamp now (next_seq h) e)
          ∙ ap (λ k. drop (k - h.history_limit) (log ++ stamp now (next_seq h) e ∷ []))
              (ap suc v.count ∙ sym next);
    }
