-- ===== src/Hub/Delivery.antt =====
-- What a stream delivers, in any order of publishing, of the replay and of receiving.
use rcon_ui.Base.{
  ℕ, max, suc, ◌+◌, ◌-◌, ◌^◌, ◌≤◌, ◌<◌, ◌≡◌, refl, sym, ap, ◌∙◌, ◌⊎◌, inl, inr, Bool, true, false,
  not, List, [], ◌∷◌, ◌++◌, append-nil, append_assoc, arith, leb, if◌then◌else◌, Bool-cases, length,
  drop, All, filter, all, filter-append,
}
use rcon_ui.Text.{Text}
use rcon_ui.Events.{RconEvent}
use rcon_ui.Hub.{
  Connection, subscriber_buffer, replay_to, is_after, wants, waiting, Run, fresh, published,
  beside_others, replayed_past, received,
}
use rcon_ui.Hub.Log.{Numbered}
use rcon_ui.Hub.Numbers.{filter-drop, replay_to_cases, replay_to_above}

-- The numbers do not wrap, the channel has room for what is published, and no event since the opening
-- has left the history before it is written.
unfoldable pub IsLossless : {w0 w : Connection} {log : List RconEvent} → Run w0 log w → Type 0
IsLossless fresh = Unit
IsLossless {w0} (published {w = w} run now e) =
    IsLossless run × (w.hub.seq + 1 < 2 ^ 64) × (length (waiting w) < subscriber_buffer)
IsLossless {w0} (replayed_past {w = w} run s) =
    IsLossless run × (w.hub.seq ≤ w0.hub.seq + w.hub.history_limit)
IsLossless (beside_others run others id) = IsLossless run
IsLossless (received run s) = IsLossless run

-- The hub's number when the history was written; 0 where it is not written yet.
unfoldable pub replay_point : {w0 w : Connection} {log : List RconEvent} → Run w0 log w → ℕ
replay_point fresh = 0
replay_point (published run now e) = replay_point run
replay_point (replayed_past {w = w} run s) = w.hub.seq
replay_point (beside_others run others id) = replay_point run
replay_point (received run s) = replay_point run

abbrev pub newer : ℕ → RconEvent → Bool
newer r e = not (leb e.seq r)

-- The state of the delivery: of all events, `all`, those asked for that are newer than `floor`, once
-- the history was written, when the hub's number was `m`.
pub data Delivers (profile : Text) (after base limit m seq : ℕ) (all queue written : List RconEvent)
    (r : ℕ) (streaming : Bool) : Type 0 where
  waits :
      base ≤ seq
      → streaming ≡ false
      → written ≡ []
      → r ≡ after
      → queue ≡ filter (is_after base profile) all
      → Delivers profile after base limit m seq all queue written r streaming
  streams :
      streaming ≡ true
      → base ≤ m
      → m ≤ seq
      → m ≤ base + limit
      → ((r ≤ seq) × (max after (m - limit) ≤ seq)) ⊎ (r ≡ max after (m - limit))
      → written ++ filter (newer r) queue ≡ filter (is_after (max after (m - limit)) profile) all
      → Delivers profile after base limit m seq all queue written r streaming

filter-snoc {ℓ} :
    {A : Type ℓ} (p : A → Bool) (xs : List A) (x : A)
    → filter p (xs ++ x ∷ []) ≡ (if p x then filter p xs ++ x ∷ [] else filter p xs)
filter-snoc p xs x = elim (Bool-cases (p x)) [
  | inl b ↦ rw b (filter-append p xs (x ∷ []) ∙ ap (λ l. filter p xs ++ l) (rw b refl))
  | inr b ↦ rw b (
      filter-append p xs (x ∷ [])
      ∙ ap (λ l. filter p xs ++ l) (rw b refl)
      ∙ append-nil (filter p xs))
]

abbrev pub sent : Text → RconEvent → List RconEvent → List RconEvent
sent profile e queue = if wants profile e then queue ++ e ∷ [] else queue

filter-sent :
    (r : ℕ) (profile : Text) (e : RconEvent) (queue : List RconEvent)
    → filter (newer r) (sent profile e queue)
      ≡ (if is_after r profile e then filter (newer r) queue ++ e ∷ [] else filter (newer r) queue)
filter-sent r profile e queue = elim (Bool-cases (wants profile e)) [
  | inl b ↦ rw b (filter-snoc (newer r) queue e ∙ ground arith)
  | inr b ↦ rw b (ground arith)
]

same_bound :
    (r floor seq : ℕ) (profile : Text) (e : RconEvent)
    → e.seq ≡ suc seq
    → ((r ≤ seq) × (floor ≤ seq)) ⊎ (r ≡ floor)
    → is_after r profile e ≡ is_after floor profile e
same_bound r floor seq profile e q (inl (l, m)) =
    let t : leb e.seq r ≡ leb e.seq floor = ground arith in rw t refl
same_bound r floor seq profile e q (inr p) = ap (λ k. is_after k profile e) p

append-if {ℓ} :
    {A : Type ℓ} (t : Bool) (xs ys zs : List A)
    → xs ++ (if t then ys ++ zs else ys) ≡ (if t then (xs ++ ys) ++ zs else xs ++ ys)
append-if true xs ys zs = sym (append_assoc xs ys zs)
append-if false xs ys zs = refl

-- What waits is newer than what the replay ended with only if the replay did not deliver it.
filter-covered :
    (after base floor m r : ℕ) (profile : Text) (es : List RconEvent)
    → floor ≡ max after m
    → m ≤ base
    → after ≤ r
    → All (λ (x : RconEvent). is_after floor profile x ≡ true → x.seq ≤ r) es
    → filter (newer r) (filter (is_after base profile) es) ≡ []
filter-covered after base floor m r profile [] q l u h = refl
filter-covered after base floor m r profile (e ∷ es) q l u (p, h) =
    let rest = filter-covered after base floor m r profile es q l u h in ground (arith, rest, p)

module _ (profile : Text) (after base limit m seq : ℕ) (all queue written : List RconEvent) (r : ℕ)
    (streaming : Bool) where
  queued-sent :
      (e : RconEvent)
      → e.seq ≡ suc seq
      → base ≤ seq
      → queue ≡ filter (is_after base profile) all
      → sent profile e queue ≡ filter (is_after base profile) (all ++ e ∷ [])
  queued-sent e q b queued =
      let wanted : wants profile e ≡ is_after base profile e = ground arith in
      ap (sent profile e) queued
      ∙ ap
          (λ t.
            if t
            then filter (is_after base profile) all ++ e ∷ []
            else filter (is_after base profile) all)
          wanted
      ∙ sym (filter-snoc (is_after base profile) all e)

  written-sent :
      (e : RconEvent) (floor : ℕ)
      → is_after r profile e ≡ is_after floor profile e
      → written ++ filter (newer r) queue ≡ filter (is_after floor profile) all
      → written ++ filter (newer r) (sent profile e queue)
        ≡ filter (is_after floor profile) (all ++ e ∷ [])
  written-sent e floor same eq =
      ap (λ l. written ++ l) (filter-sent r profile e queue)
      ∙ ap
          (λ t. written ++ (if t then filter (newer r) queue ++ e ∷ [] else filter (newer r) queue))
          same
      ∙ append-if (is_after floor profile e) written (filter (newer r) queue) (e ∷ [])
      ∙ ap (λ l. if is_after floor profile e then l ++ e ∷ [] else l) eq
      ∙ sym (filter-snoc (is_after floor profile) all e)

  later :
      {floor : ℕ}
      → ((r ≤ seq) × (floor ≤ seq)) ⊎ (r ≡ floor)
      → ((r ≤ suc seq) × (floor ≤ suc seq)) ⊎ (r ≡ floor)
  later (inl (l, m)) = inl (omega arith, omega arith)
  later (inr p) = inr p

  pub Delivers-publish :
      (e : RconEvent)
      → e.seq ≡ suc seq
      → Delivers profile after base limit m seq all queue written r streaming
      → Delivers profile after base limit m
          (suc seq)
          (all ++ e ∷ [])
          (if wants profile e then queue ++ e ∷ [] else queue)
          written
          r
          streaming
  Delivers-publish e q (waits b st w same queued) =
      waits (omega arith) st w same (queued-sent e q b queued)
  Delivers-publish e q (streams st b u l c eq) = streams st b (omega arith) l (later c) (
      written-sent e (max after (m - limit))
        (same_bound r (max after (m - limit)) seq profile e q c) eq)

  -- What is known of the number that the replay ends with.
  replay_range :
      {end floor : ℕ}
      → r ≡ after
      → floor ≡ max after (seq - limit)
      → (end ≡ r) ⊎ ((floor < end) × (end ≤ 0 + seq))
      → (after ≤ end) × (((end ≤ seq) × (floor ≤ seq)) ⊎ (end ≡ floor))
  replay_range same f (inl q) = (
    omega arith,
    elim (Bool-cases (leb after seq)) [
      | inl b ↦ inl (ground arith, ground arith)
      | inr b ↦ inr (ground arith)
    ],
  )
  replay_range same f (inr (l, u)) = (omega arith, inl (omega arith, omega arith))

  pub Delivers-replay :
      (history : List RconEvent)
      → Numbered 0 all
      → length all ≡ seq
      → history ≡ drop (seq - limit) all
      → seq ≤ base + limit
      → streaming ≡ false
      → Delivers profile after base limit m seq all queue written r streaming
      → Delivers profile after base limit seq seq all queue
          (written ++ filter (is_after r profile) history)
          (replay_to r (filter (is_after r profile) history))
          true
  Delivers-replay history n len h room f (streams st b u l c eq) = cc
  Delivers-replay history n len h room f (waits b st w same queued) =
      let floor = max after (seq - limit) in
      let past = filter (is_after r profile) history in
      let same_past : past ≡ filter (is_after floor profile) all =
        ap (filter (is_after r profile)) h
        ∙ filter-drop 0 (seq - limit) r floor profile all n (omega arith) in
      let r' = replay_to r past in
      let end : r' ≡ replay_to r (filter (is_after floor profile) all) =
        ap (replay_to r) same_past in
      let (grown, c) =
        replay_range same refl (rw len at (replay_to_cases floor profile 0 r all n)) in
      streams refl b (omega arith) room (rw end c) (
        ap (λ l. (l ++ past) ++ filter (newer r') queue) w
        ∙ ap (λ l. l ++ filter (newer r') queue) same_past
        ∙ ap (λ l. filter (is_after floor profile) all ++ filter (newer r') l) queued
        ∙ ap (λ l. filter (is_after floor profile) all ++ l)
            (filter-covered after base floor (seq - limit) r' profile all refl (omega arith)
              (rw end grown) (replay_to_above floor profile 0 r r' all n (rw end (omega arith))))
        ∙ append-nil (filter (is_after floor profile) all))

receive_written :
    (e : RconEvent) (queue written : List RconEvent) (r : ℕ) {delivered : List RconEvent}
    → written ++ filter (newer r) (e ∷ queue) ≡ delivered
    → (if leb e.seq r then written else written ++ e ∷ []) ++ filter (newer r) queue ≡ delivered
receive_written e queue written r eq = elim (Bool-cases (leb e.seq r)) [
  | inl b ↦ rw b (rw b at eq)
  | inr b ↦ rw b (append_assoc written (e ∷ []) (filter (newer r) queue) ∙ (rw b at eq))
]

pub Delivers-receive :
    (profile : Text) (after base limit m seq : ℕ) (all queue written : List RconEvent) (r : ℕ)
    (e : RconEvent)
    → Delivers profile after base limit m seq all (e ∷ queue) written r true
    → Delivers profile after base limit m seq all queue
        (if leb e.seq r then written else written ++ e ∷ [])
        r
        true
Delivers-receive profile after base limit m seq all queue written r e (waits b st w same queued) =
    cc
Delivers-receive profile after base limit m seq all queue written r e (streams st b u l c eq) =
    streams st b u l c (receive_written e queue written r eq)
