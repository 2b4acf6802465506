-- ===== src/Iperf/Outcomes.antt =====
-- What Start and Stop answer on every branch (agent/internal/iperf/manager.go).
use infracheck_appliance.Base.{String, true, false, Option, none, some, ◌≡◌, ◌≢◌, ◌⊎◌, arith}
use infracheck_appliance.Iperf.{Cmd, Manager, launched, StartWorld, StopWorld, start, stop, reaped}

-- If Start answers without an error, a command is tracked and the answered status says running,
-- with the executable's availability and the manager's port.
pub start_ok :
    (w : StartWorld) (m : Manager)
    → (start w m).2 ≡ none
    → ((start w m).0.cmd ≢ none)
      × ((start w m).1.running ≡ true)
      × ((start w m).1.available ≡ w.found_after)
      × ((start w m).1.port ≡ m.port)
unfolding start
start_ok w m h = ground arith

-- If Start answers an error, the tracked command, its start time and the port are what they were,
-- and the error's text is the manager's last error and the one in the answered status.
pub start_error :
    (w : StartWorld) (m : Manager) (e : String)
    → (start w m).2 ≡ some e
    → ((start w m).0.cmd ≡ m.cmd)
      × ((start w m).0.started_at ≡ m.started_at)
      × ((start w m).0.port ≡ m.port)
      × ((start w m).0.last_error ≡ e)
      × ((start w m).1.error ≡ e)
unfolding start
start_error w m e h = ground arith

-- Once Start has answered without an error, every further Start that finds the executable answers
-- without an error and changes nothing.
pub start_again :
    (w w' : StartWorld) (m : Manager)
    → (start w m).2 ≡ none
    → w'.found ≡ true
    → ((start w' (start w m).0).2 ≡ none) × ((start w' (start w m).0).0 ≡ (start w m).0)
unfolding start
start_again w w' m h found = ground arith

-- If Stop answers without an error, no command is tracked afterwards; if it answers an error, the
-- same command is still tracked.
pub stop_outcome :
    (w : StopWorld) (m : Manager)
    → (((stop w m).2 ≡ none) × ((stop w m).0.cmd ≡ none) × ((stop w m).1.running ≡ false))
      ⊎ ((stop w m).2 ≢ none) × ((stop w m).0.cmd ≡ m.cmd) × ((stop w m).1.running ≡ true)
unfolding stop
stop_outcome w m = ground arith

-- After a stop that succeeded and a start that launched another command, the end of the stopped
-- process changes nothing: the new command stays tracked, with its start time and no error.
pub reaped-start-stop :
    (w : StartWorld) (sw : StopWorld) (m : Manager) (c d : Cmd) (err : Option String)
    → m.cmd ≡ some c
    → (stop sw m).2 ≡ none
    → w.launch ≡ launched d
    → d.ident ≢ c.ident
    → reaped c err (start w (stop sw m).0).0 ≡ (start w (stop sw m).0).0
unfolding start stop reaped
reaped-start-stop w sw m c d err tracked stopped fresh other = ground arith
