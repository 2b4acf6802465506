-- ===== src/Field.antt =====
-- The field tools: the UDP echo and the throughput download (agent/internal/agent/field_api.go), and
-- the ports that a scan asks for (agent/internal/agent/tools_api.go).
pub mod Echo
pub mod Throughput
mod Tests
use infracheck_appliance.Base.{
  ℕ, zero, suc, ◌+◌, ◌-◌, ◌*◌, ◌^◌, String, Bool, true, false, ◌&&◌, ◌||◌, not, Option, none, some,
  List, [], ◌∷◌, ◌++◌, if◌then◌else◌, ltb, leb, ◌==◌, length, any,
}
use infracheck_appliance.Base.Int.{ℤ, pos, negsuc, pos_part, ltb_ℤ, leb_ℤ, eq_ℤ}
use infracheck_appliance.Base.Text.{◌<>◌, has_prefix}
use infracheck_appliance.Base.Result.{Result, ok, err}

-- A connection is named by a number, as each call of `net.ListenUDP` makes a new one. Times are
-- numbers of nanoseconds.
pub record EchoManager : Type 0 where
  pub port : ℕ
  pub conn : Option ℕ
  pub token : String
  pub expires : ℤ

abbrev pub new_udp_echo_manager : ℕ → EchoManager
new_udp_echo_manager port = record { port = port; conn = none; token = ""; expires = pos 0 }

-- What Start meets: random bytes in base64, the connection, and the clock.
pub record EchoWorld : Type 0 where
  pub random : Result String
  pub listen : Result ℕ
  pub now : ℕ

abbrev second : ℕ
second = 1_000_000_000

abbrev pub lease : ℤ → ℕ
lease duration =
    if ltb_ℤ duration (pos (30 * second)) || ltb_ℤ (pos (600 * second)) duration
    then 120 * second
    else pos_part duration

abbrev echo_listening :
    ℤ → EchoWorld → EchoManager → String → Result ℕ → EchoManager × Result (String × ℤ)
echo_listening duration w m token (err e) = (m, err e)
echo_listening duration w m token (ok c) =
    let expires = pos (w.now + lease duration) in
    (record m { conn = some c; token = token; expires = expires }, ok (token, expires))

abbrev echo_random : ℤ → EchoWorld → EchoManager → Result String → EchoManager × Result (String × ℤ)
echo_random duration w m (err e) = (m, err e)
echo_random duration w m (ok token) = echo_listening duration w m token w.listen

-- An open connection is closed before anything can fail.
unfoldable pub echo_start : ℤ → EchoWorld → EchoManager → EchoManager × Result (String × ℤ)
echo_start duration w m = echo_random duration w (record m { conn = none }) w.random

unfoldable pub echo_stop : EchoManager → EchoManager
echo_stop m = record m { conn = none; token = ""; expires = pos 0 }

abbrev is_conn : ℕ → Option ℕ → Bool
is_conn c none = false
is_conn c (some d) = d == c

-- The end of `serve` on the connection `c`.
unfoldable pub echo_ended : ℕ → EchoManager → EchoManager
echo_ended c m = if is_conn c m.conn then record m { conn = none; token = "" } else m

-- Whether `serve` sends a packet back.
unfoldable pub echoes : String → String → Bool
echoes token packet = has_prefix packet (token <> "|")

-- What a read that failed means for the loop of `serve`.
unfoldable pub serve_ends : Bool → Bool → ℤ → ℤ → Bool
serve_ends closed cancelled now expires = closed || cancelled || ltb_ℤ expires now

abbrev pub max_throughput_bytes : ℕ
max_throughput_bytes = 64 * 2 ^ 20

abbrev pub block_bytes : ℕ
block_bytes = 64 * 2 ^ 10

-- The argument is what `strconv.ParseInt` answers, which is 0 where the text is no number, and the
-- int64 nearest to the number where it is too large.
unfoldable pub requested_bytes : ℤ → ℕ
requested_bytes value =
    let asked = if ltb_ℤ value (pos (256 * 2 ^ 10)) then 8 * 2 ^ 20 else pos_part value in
    if ltb max_throughput_bytes asked then max_throughput_bytes else asked

-- The sizes that the download writes, with the writes that are done counted; `written` says which of
-- them succeed, and the first that fails ends the loop. The fuel bounds the number of blocks; `remaining`
-- itself is enough, since a block has at least one byte.
unfoldable pub chunks : (ℕ → Bool) → ℕ → ℕ → ℕ → List ℕ
chunks written zero done remaining = []
chunks written (suc fuel) done remaining =
    let chunk = if ltb remaining block_bytes then remaining else block_bytes in
    let rest = chunks written fuel (suc done) (remaining - chunk) in
    if remaining == 0 then [] else (if written done then chunk ∷ rest else [])

-- The length that is announced, and the blocks that are written
unfoldable pub download : (ℕ → Bool) → ℤ → ℕ × List ℕ
download written value = let size = requested_bytes value in (size, chunks written size 0 size)

abbrev pub has_port : ℤ → List ℤ → Bool
has_port p ports = any (λ q. eq_ℤ q p) ports

-- The loop of `sanitizePorts`; `seen` holds exactly what was put out.
unfoldable pub ports_loop : List ℤ → List ℤ → List ℤ
ports_loop out [] = out
ports_loop out (port ∷ input) =
    let skip = ports_loop out input in
    let put = ports_loop (out ++ port ∷ []) input in
    if leb_ℤ port (pos 0) || ltb_ℤ (pos 65535) port
    then skip
    else (if has_port port out
        then skip
        else (if leb 32 (length (out ++ port ∷ [])) then out ++ port ∷ [] else put))

unfoldable pub sanitize_ports : List ℤ → List ℤ
sanitize_ports input = ports_loop [] input
