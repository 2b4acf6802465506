-- ===== src/Iperf/Tests.antt =====
-- Runs of the iperf3 manager, and its theorems at concrete inputs.
use infracheck_appliance.Base.{true, false, none, some, ◌≡◌, refl, arith, []}
use infracheck_appliance.Base.Int.{pos, negsuc}
use infracheck_appliance.Iperf.{
  Cmd, Manager, launched, failed, StartWorld, StopWorld, new_manager, start, stop, reaped,
}
use infracheck_appliance.Iperf.Outcomes.{start_error, reaped-start-stop}
use infracheck_appliance.Iperf.Restart.{restart}
use infracheck_appliance.Iperf.Lifecycle.{
  System, Reach, IsSound, here, next, do_start, do_stop, Reach-IsSound, launches,
}

abbrev fresh_manager : Manager
fresh_manager = record { port = pos 5201; cmd = none; started_at = 0; last_error = "" }

abbrev first_cmd : Cmd
first_cmd = record { ident = 0; pid = 41 }

abbrev second_cmd : Cmd
second_cmd = record { ident = 1; pid = 42 }

abbrev starting : Cmd → StartWorld
starting c = record {
  found = true;
  found_after = true;
  cancelled = none;
  launch = launched c;
  now = 7;
}

abbrev missing : StartWorld
missing = record {
  found = false;
  found_after = false;
  cancelled = none;
  launch = failed "no such file";
  now = 7;
}

abbrev stopping : StopWorld
stopping = record { found = true; cancelled = none; kill_error = none }

abbrev running_manager : Manager
running_manager = record { port = pos 5201; cmd = some first_cmd; started_at = 7; last_error = "" }

new_manager_default : new_manager (negsuc 0) ≡ fresh_manager
unfolding new_manager
new_manager_default = refl

start_runs : (start (starting first_cmd) fresh_manager).0 ≡ running_manager
unfolding start
start_runs = refl

start_error_example :
    ((start missing running_manager).0.cmd ≡ some first_cmd)
    × ((start missing running_manager).0.started_at ≡ 7)
    × ((start missing running_manager).0.port ≡ pos 5201)
    × ((start missing running_manager).0.last_error ≡ "iperf3 executable not found")
    × ((start missing running_manager).1.error ≡ "iperf3 executable not found")
unfolding start
start_error_example = start_error missing running_manager "iperf3 executable not found" refl

reaped-start-stop_example :
    reaped first_cmd
      (some "killed")
      (start (starting second_cmd) (stop stopping running_manager).0).0
    ≡ (start (starting second_cmd) (stop stopping running_manager).0).0
unfolding stop
reaped-start-stop_example =
    reaped-start-stop (starting second_cmd) stopping running_manager first_cmd second_cmd
      (some "killed") refl refl refl (omega arith)

abbrev initial : System
initial = record { manager = fresh_manager; waiting = []; next = 0 }

abbrev after_start : System
after_start = record {
  manager = (start (starting first_cmd) fresh_manager).0;
  waiting = launches (starting first_cmd) fresh_manager [];
  next = 1;
}

initial-IsSound : IsSound initial
initial-IsSound = record { tracked = tt; idle = λ e. refl; busy = λ h. absurd (h refl); fresh = tt }

Reach-IsSound_example :
    IsSound (record after_start { manager = (stop stopping after_start.manager).0 })
Reach-IsSound_example = Reach-IsSound initial-IsSound (
    next (next here (do_start initial (starting first_cmd) refl (omega arith)))
      (do_stop after_start stopping))

abbrev starting_later : StartWorld
starting_later = record (starting (record { ident = 1; pid = 44 })) { now = 9 }

restart_example :
    (u : System) × Reach after_start u
    × (u.manager ≡ (start starting_later (stop stopping after_start.manager).0).0)
    × (u.manager.cmd ≡ some (record { ident = after_start.next; pid = 44 }))
    × (u.manager.started_at ≡ 9)
    × (u.manager.last_error ≡ "")
    × ((start starting_later (stop stopping after_start.manager).0).2 ≡ none)
restart_example =
    restart after_start 44 stopping starting_later refl refl refl refl refl (omega arith)
