-- ===== src/Iperf.antt =====
-- The iperf3 server manager (agent/internal/iperf/manager.go).
-- A method that holds the lock is one step on the record. What the method asks of the operating
-- system (LookPath, Start, Kill, the clock, the context) is an argument.
pub mod Lifecycle
pub mod Outcomes
pub mod Restart
mod Tests
use infracheck_appliance.Base.{
  ℕ, String, Bool, true, false, Option, none, some, if◌then◌else◌, ◌==◌, is_some,
}
use infracheck_appliance.Base.Int.{ℤ, pos, leb_ℤ}

abbrev pub default_port : ℤ
default_port = pos 5201

-- A started command: its identity as a pointer, and the pid of its process.
pub record Cmd : Type 0 where
  pub ident : ℕ
  pub pid : ℕ

pub record Status : Type 0 where
  pub available : Bool
  pub running : Bool
  pub port : ℤ
  pub pid : ℕ
  pub started_at : ℕ
  pub error : String

-- `cmd` is `nil` or a command whose `Start` succeeded, so that its `Process` is set.
-- A time is a count of nanoseconds, and the zero time is 0.
pub record Manager : Type 0 where
  pub port : ℤ
  pub cmd : Option Cmd
  pub started_at : ℕ
  pub last_error : String

unfoldable pub new_manager : ℤ → Manager
new_manager port = record {
  port = if leb_ℤ port (pos 0) then default_port else port;
  cmd = none;
  started_at = 0;
  last_error = "";
}

unfoldable pub refresh_locked : Manager → Manager
refresh_locked m = m

abbrev with_process : Option Cmd → ℕ → Status → Status
with_process none started s = s
with_process (some c) started s = record s { running = true; pid = c.pid; started_at = started }

-- `statusLocked`; the argument is the answer of `Available`.
unfoldable pub status_locked : Bool → Manager → Status
status_locked available m = with_process m.cmd m.started_at (record {
  available = available;
  running = false;
  port = m.port;
  pid = 0;
  started_at = 0;
  error = m.last_error;
})

-- `Status` builds its result as `statusLocked` does, after a refresh.
unfoldable pub status : Bool → Manager → Manager × Status
unfolding refresh_locked status_locked
status available m = let m' = refresh_locked m in (m', status_locked available m')

-- The outcome of `cmd.Start()`.
pub data Launch : Type 0 where
  launched : Cmd → Launch
  failed : String → Launch

-- What `Start` meets: the two answers of LookPath, the context's error, the launch, the clock.
pub record StartWorld : Type 0 where
  pub found : Bool
  pub found_after : Bool
  pub cancelled : Option String
  pub launch : Launch
  pub now : ℕ

abbrev pub Reply : Type 0
Reply = Manager × Status × Option String

abbrev reply : Bool → Manager → Option String → Reply
reply available m err = (m, status_locked available m, err)

unfoldable pub not_found_text : String
not_found_text = "iperf3 executable not found"

launch_cmd : StartWorld → Launch → Manager → Reply
unfolding status_locked
launch_cmd w (failed e) m = reply w.found_after (record m { last_error = e }) (some e)
launch_cmd w (launched c) m =
    reply w.found_after (record m { cmd = some c; started_at = w.now; last_error = "" }) none

start_unless_done : StartWorld → Option String → Manager → Reply
unfolding status_locked launch_cmd
start_unless_done w (some e) m = reply w.found_after (record m { last_error = e }) (some e)
start_unless_done w none m = launch_cmd w w.launch m

start_idle : StartWorld → Option Cmd → Manager → Reply
unfolding status_locked start_unless_done
start_idle w (some c) m = reply w.found_after m none
start_idle w none m = start_unless_done w w.cancelled m

unfoldable pub start : StartWorld → Manager → Reply
unfolding status_locked refresh_locked start_idle not_found_text
start w m0 =
    let m = refresh_locked m0 in
    if w.found
    then start_idle w m.cmd m
    else reply w.found_after (record m { last_error = not_found_text }) (some not_found_text)

-- What `Stop` meets: LookPath, the context's error, the error of `Kill`.
pub record StopWorld : Type 0 where
  pub found : Bool
  pub cancelled : Option String
  pub kill_error : Option String

stop_kill : StopWorld → Option String → Manager → Reply
unfolding status_locked refresh_locked
stop_kill w (some e) m = reply w.found (record m { last_error = e }) (some e)
stop_kill w none m = reply w.found (refresh_locked (record m { cmd = none; started_at = 0 })) none

stop_running : StopWorld → Option String → Manager → Reply
unfolding status_locked stop_kill
stop_running w (some e) m = reply w.found (record m { last_error = e }) (some e)
stop_running w none m = stop_kill w w.kill_error m

stop_cmd : StopWorld → Option Cmd → Manager → Reply
unfolding status_locked stop_running
stop_cmd w none m = reply w.found m none
stop_cmd w (some c) m = stop_running w w.cancelled m

unfoldable pub stop : StopWorld → Manager → Reply
unfolding refresh_locked stop_cmd
stop w m0 = let m = refresh_locked m0 in stop_cmd w m.cmd m

same_cmd : Option Cmd → Cmd → Bool
same_cmd none c = false
same_cmd (some d) c = d.ident == c.ident

note_error : Option String → Manager → Manager
note_error none m = m
note_error (some e) m = record m { last_error = e }

-- The goroutine of `Start`, once `cmd.Wait()` has returned the given error.
unfoldable pub reaped : Cmd → Option String → Manager → Manager
unfolding same_cmd note_error
reaped c err m =
    if same_cmd m.cmd c then record (note_error err m) { cmd = none; started_at = 0 } else m
