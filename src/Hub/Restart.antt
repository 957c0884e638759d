-- ===== src/Hub/Restart.antt =====
-- A daemon that starts again numbers its events from 1, while a tab still asks for what follows the
-- number that it last saw.
use rcon_ui.Base.{
  ℕ, max, suc, ◌+◌, ◌-◌, ◌≤◌, ◌≡◌, refl, ◌∙◌, true, false, List, [], ◌∷◌, arith, leb, length, All,
  filter_none,
}
use rcon_ui.Text.{Text}
use rcon_ui.Events.{RconEvent}
use rcon_ui.Hub.{new_hub, Connection, is_after, open_stream, waiting, Run}
use rcon_ui.Hub.Log.{Numbered, HasLog}
use rcon_ui.Hub.Delivery.{replay_point, IsLossless}
use rcon_ui.Hub.Lossless.{delivered, stream_log}

pub HasLog-new_hub : HasLog [] new_hub
HasLog-new_hub = record { numbered = tt; count = refl; retained = refl }

All-is_after :
    (profile : Text) (k floor : ℕ) (es : List RconEvent)
    → Numbered k es
    → k + length es ≤ floor
    → All (λ (x : RconEvent). is_after floor profile x ≡ false) es
All-is_after profile k floor [] n l = tt
All-is_after profile k floor (e ∷ es) (q, n) l =
    let b : leb e.seq floor ≡ true = ground arith in
    (rw b refl, All-is_after profile (suc k) floor es n (omega arith))

-- After a restart of the daemon a stream that is resumed at a number which the hub has not passed
-- again writes none of the events that are published, whoever they are for.
pub restart_silent :
    (profile : Text) (after : ℕ) (log : List RconEvent) (w : Connection)
    → (run : Run (open_stream profile after new_hub) log w) → IsLossless run
    → w.streaming ≡ true
    → waiting w ≡ []
    → length log ≤ after
    → w.written ≡ []
restart_silent profile after log w run k t q old =
    let (low, eq) = delivered profile after new_hub [] log w HasLog-new_hub run k t q in
    let floor = max after (replay_point run - 500) in
    let n = (stream_log profile after new_hub [] log w HasLog-new_hub run k).numbered in
    eq ∙ filter_none (is_after floor profile) log (All-is_after profile 0 floor log n (omega arith))
