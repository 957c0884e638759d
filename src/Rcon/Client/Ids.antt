-- ===== src/Rcon/Client/Ids.antt =====
-- The correlation ids.
use rcon_ui.Base.{ℕ, ◌+◌, ◌≤◌, ◌≡◌, ◌≢◌, arith, ltb, if◌then◌else◌}
use rcon_ui.Rcon.Client.{next_request_id, max_int32}

-- From a counter within int32 every id lies between 1 and 2 ^ 31 - 1, so it is neither 0 nor the id
-- of a refused password, the counter stays within int32, and two ids in a row differ, also where the
-- counter starts anew.
pub next_request_id_bounds :
    (n : ℕ)
    → n ≤ max_int32
    → (1 ≤ next_request_id n)
      × (next_request_id n ≤ max_int32)
      × (next_request_id (next_request_id n) ≢ next_request_id n)
      × (next_request_id n ≡ (if ltb n max_int32 then n + 1 else 1))
unfolding next_request_id
next_request_id_bounds n h = (ground arith, ground arith, λ e. ground arith, ground arith)
