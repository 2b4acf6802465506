-- ===== src/Field/Echo.antt =====
-- The UDP echo's manager (agent/internal/agent/field_api.go).
use infracheck_appliance.Base.{ℕ, ◌+◌, ◌*◌, String, none, some, ◌≡◌, ◌≢◌, arith}
use infracheck_appliance.Base.Int.{ℤ, pos, ◌≤ℤ◌}
use infracheck_appliance.Base.Result.{ok, err}
use infracheck_appliance.Field.{EchoManager, EchoWorld, echo_start, echo_ended}

-- A start that succeeds answers the manager's token and time of expiry, which lies between 30
-- seconds and 10 minutes ahead, whatever duration was asked for.
pub echo_start-ok :
    (duration : ℤ) (w : EchoWorld) (m : EchoManager) (token : String) (expires : ℤ)
    → (echo_start duration w m).1 ≡ ok (token, expires)
    → ((echo_start duration w m).0.conn ≢ none)
      × ((echo_start duration w m).0.token ≡ token)
      × ((echo_start duration w m).0.expires ≡ expires)
      × (pos (w.now + 30 * 1_000_000_000) ≤ℤ expires)
      × (expires ≤ℤ pos (w.now + 600 * 1_000_000_000))
unfolding echo_start
echo_start-ok duration w m token expires done = ground arith

-- A start that fails leaves the manager without a connection, even if it had one.
pub echo_start-error :
    (duration : ℤ) (w : EchoWorld) (m : EchoManager) (e : String)
    → (echo_start duration w m).1 ≡ err e
    → (echo_start duration w m).0 ≡ record m { conn = none }
unfolding echo_start
echo_start-error duration w m e failed = ground arith

-- The end of the service of an earlier connection changes nothing after a start that opened
-- another one.
pub echo_ended-echo_start :
    (duration : ℤ) (w : EchoWorld) (m : EchoManager) (c d : ℕ)
    → w.listen ≡ ok d
    → d ≢ c
    → m.conn ≡ some c
    → echo_ended c (echo_start duration w m).0 ≡ (echo_start duration w m).0
unfolding echo_ended echo_start
echo_ended-echo_start duration w m c d fresh other before = ground arith
