-- ===== src/Iperf/Restart.antt =====
-- The server can always be started again (agent/internal/iperf/manager.go).
use infracheck_appliance.Base.{ℕ, ◌<◌, true, none, some, ◌≡◌, refl, arith}
use infracheck_appliance.Iperf.{launched, StartWorld, StopWorld, start, stop}
use infracheck_appliance.Iperf.Lifecycle.{System, do_start, do_stop, Reach, here, next}

-- From every state, a stop that meets no error and then a start that finds the program, is not
-- cancelled and launches a command at a time after the zero time lead to a state in which that command
-- is tracked since that time, and the start answers no error and leaves none.
pub restart :
    (s : System) (pid : ℕ) (stopping : StopWorld) (starting : StartWorld)
    → stopping.cancelled ≡ none
    → stopping.kill_error ≡ none
    → starting.found ≡ true
    → starting.cancelled ≡ none
    → starting.launch ≡ launched (record { ident = s.next; pid = pid })
    → 0 < starting.now
    → (u : System) × Reach s u
      × (u.manager ≡ (start starting (stop stopping s.manager).0).0)
      × (u.manager.cmd ≡ some (record { ident = s.next; pid = pid }))
      × (u.manager.started_at ≡ starting.now)
      × (u.manager.last_error ≡ "")
      × ((start starting (stop stopping s.manager).0).2 ≡ none)
unfolding start stop
restart s pid stopping starting running kills found active launches later =
    let stopped : System = record s { manager = (stop stopping s.manager).0 } in
    (
      _,
      next (next here (do_stop s stopping)) (do_start stopped starting (rw launches refl) later),
      refl,
      ground (arith, running, kills, found, active, launches),
      ground (arith, running, kills, found, active, launches),
      ground (arith, running, kills, found, active, launches),
      ground (arith, running, kills, found, active, launches),
    )
