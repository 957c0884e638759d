-- ===== src/Config/Loopback.antt =====
-- The addresses that count as the machine's own.
use rcon_ui.Base.{◌≡◌, refl, ◌&&◌, none, some, [], ◌∷◌, ◌++◌, arith}
use rcon_ui.Text.{Text, Without}
use rcon_ui.Probe.Zomboid.{last_colon}
use rcon_ui.Probe.Filter.{is_int}
use rcon_ui.Config.{with_port, is_own_host, own, is_loopback}

last_colon_absent : (s : Text) → Without b':' s → last_colon s ≡ none
last_colon_absent [] h = refl
last_colon_absent (c ∷ s) (e, h) = rw (last_colon_absent s h, e) refl

last_colon-append : (s t : Text) → Without b':' t → last_colon (s ++ b':' ∷ t) ≡ some (s, t)
last_colon-append [] t h = rw (last_colon_absent t h) refl
last_colon-append (c ∷ s) t h = rw (last_colon-append s t h) refl

own_lem :
    (host port : Text) → own (with_port (some (host, port))) ≡ (is_int port && is_own_host host)
own_lem host port = ground arith

-- An address of a host and a port counts as the machine's own exactly if the port is a number and the
-- host one of the machine's names for itself.
pub is_loopback-own :
    (host port : Text)
    → Without b':' port
    → is_loopback (host ++ b':' ∷ port) ≡ (is_int port && is_own_host host)
unfolding is_loopback
is_loopback-own host port h = rw (last_colon-append host port h) (own_lem host port)
