-- ===== src/Field/Tests.antt =====
-- Runs of the field tools, and the theorems about them at concrete inputs.
use infracheck_appliance.Base.{ℕ, Bool, ltb, some, [], ◌∷◌, ◌≡◌, refl}
use infracheck_appliance.Base.Int.{pos, negsuc}
use infracheck_appliance.Base.Result.{ok, err}
use infracheck_appliance.Field.{
  EchoManager, EchoWorld, new_udp_echo_manager, echo_start, requested_bytes, sanitize_ports,
  ports_loop,
}

ports :
    sanitize_ports (pos 22 ∷ pos 0 ∷ pos 22 ∷ negsuc 4 ∷ pos 70000 ∷ pos 443 ∷ [])
    ≡ pos 22 ∷ pos 443 ∷ []
unfolding sanitize_ports ports_loop
ports = refl

small_request : requested_bytes (pos 5) ≡ 8_388_608
unfolding requested_bytes
small_request = refl

-- The client closes the connection after two blocks.
abbrev two_writes : ℕ → Bool
two_writes n = ltb n 2

abbrev idle : EchoManager
idle = new_udp_echo_manager 5202

abbrev open_world : EchoWorld
open_world = record { random = ok "token"; listen = ok 1; now = 0 }

abbrev taken_world : EchoWorld
taken_world = record { random = ok "other"; listen = err "address already in use"; now = 5 }

abbrev serving : EchoManager
serving = (echo_start (pos 0) open_world idle).0

opened : (echo_start (pos 0) open_world idle).1 ≡ ok ("token", pos 120_000_000_000)
unfolding echo_start
opened = refl

taken : (echo_start (pos 0) taken_world serving).1 ≡ err "address already in use"
unfolding echo_start
taken = refl

serving_conn : serving.conn ≡ some 1
unfolding echo_start
serving_conn = refl
