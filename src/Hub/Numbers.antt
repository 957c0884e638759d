-- ===== src/Hub/Numbers.antt =====
-- Numbered events, filtered as a stream asks for them.
use rcon_ui.Base.{
  ℕ, max, zero, suc, ◌+◌, ◌≤◌, ◌<◌, ◌≡◌, refl, ◌⊎◌, inl, inr, true, List, [], ◌∷◌, arith, leb,
  Bool-cases, length, drop, All, filter,
}
use rcon_ui.Text.{Text}
use rcon_ui.Events.{RconEvent}
use rcon_ui.Hub.{replay_to, is_after}
use rcon_ui.Hub.Log.{Numbered}

-- Below the numbers that there are the bound does not matter.
filter-is_after :
    (j k after floor : ℕ) (profile : Text) (es : List RconEvent)
    → Numbered j es
    → k ≤ j
    → floor ≡ max after k
    → filter (is_after after profile) es ≡ filter (is_after floor profile) es
filter-is_after j k after floor profile [] h l q = refl
filter-is_after j k after floor profile (e ∷ es) (p, h) l q =
    let same : leb e.seq after ≡ leb e.seq floor = ground arith in
    rw same (rw (filter-is_after (suc j) k after floor profile es h (omega arith) q) refl)

-- What is newer than `after` in the events without the first `m`.
pub filter-drop :
    (k m after floor : ℕ) (profile : Text) (es : List RconEvent)
    → Numbered k es
    → floor ≡ max after (k + m)
    → filter (is_after after profile) (drop m es) ≡ filter (is_after floor profile) es
filter-drop k zero after floor profile es h q =
    filter-is_after k k after floor profile es h (omega arith) (omega arith)
filter-drop k (suc m) after floor profile [] h q = refl
filter-drop k (suc m) after floor profile (e ∷ es) (p, h) q =
    let old : leb e.seq floor ≡ true = ground arith in
    rw old (filter-drop (suc k) m after floor profile es h (omega arith))

module _ (floor : ℕ) (profile : Text) where
  -- The number that a replay ends with: the one it began with, or one of those replayed.
  pub replay_to_cases :
      (k r : ℕ) (es : List RconEvent)
      → Numbered k es
      → (replay_to r (filter (is_after floor profile) es) ≡ r)
        ⊎ ((floor < replay_to r (filter (is_after floor profile) es))
            × (replay_to r (filter (is_after floor profile) es) ≤ k + length es))
  replay_to_cases k r [] h = inl refl
  replay_to_cases k r (e ∷ es) (p, h) = elim (Bool-cases (is_after floor profile e)) [
    | inl b ↦ rw b (elim (replay_to_cases (suc k) e.seq es h) [
      | inl q ↦ inr (rw q (ground arith), rw q (omega arith))
      | inr (l, u) ↦ inr (l, omega (arith, u))
    ])
    | inr b ↦ rw b (elim (replay_to_cases (suc k) r es h) [
      | inl q ↦ inl q
      | inr (l, u) ↦ inr (l, omega (arith, u))
    ])
  ]

  replay_to_grows :
      (k r : ℕ) (es : List RconEvent)
      → Numbered k es
      → r ≤ k
      → r ≤ replay_to r (filter (is_after floor profile) es)
  replay_to_grows k r [] h l = omega arith
  replay_to_grows k r (e ∷ es) (p, h) l = elim (Bool-cases (is_after floor profile e)) [
    | inl b ↦ rw b (omega (arith, replay_to_grows (suc k) e.seq es h (omega arith)))
    | inr b ↦ rw b (replay_to_grows (suc k) r es h (omega arith))
  ]

  -- Every event that was replayed is at or below it.
  pub replay_to_above :
      (k r m : ℕ) (es : List RconEvent)
      → Numbered k es
      → replay_to r (filter (is_after floor profile) es) ≤ m
      → All (λ (x : RconEvent). is_after floor profile x ≡ true → x.seq ≤ m) es
  replay_to_above k r m [] h u = tt
  replay_to_above k r m (e ∷ es) (p, h) u = elim (Bool-cases (is_after floor profile e)) [
    | inl b ↦
        let v = rw b at u in
        (
          λ _. omega (arith, v, replay_to_grows (suc k) e.seq es h (omega arith)),
          replay_to_above (suc k) e.seq m es h v,
        )
    | inr b ↦ (λ n. absurd (ground arith), replay_to_above (suc k) r m es h (rw b at u))
  ]
