-- ===== src/Internet/Update.antt =====
-- `internet_update` of arduino_client/src/internet.cpp.
use blueberry_irrigation_sys.Base.{ℕ, set_at, u8, sub32, ltb, leb, if◌then◌else◌, is_true}
use blueberry_irrigation_sys.World.{now, write}
use blueberry_irrigation_sys.Internet.{
  Internet, InternetStatus, uninitialized, restarting, initializing, parse_packet, ask, ticked,
  restart_soft, troubleshoot, send,
}
use blueberry_irrigation_sys.Internet.Receive.{receive, set_size}
use blueberry_irrigation_sys.Pins

abbrev pub time_restart_wait : ℕ
time_restart_wait = 3000

abbrev pub time_receive_last_max : ℕ
time_receive_last_max = 17000

abbrev pub time_ping_send_interval : ℕ
time_ping_send_interval = 5000

abbrev pub command_ping : ℕ
command_ping = 211

abbrev pub command_ping_value_request : ℕ
command_ping_value_request = 10

-- The reset line is released.
unfoldable pub release : Internet → Internet
release s =
    let t = record s { world = write Pins.internet_pin_reset 1 s.world; status = initializing } in
    record (ticked t) { time_restart_last = now t.world }

-- `if(millis() - time_restart_last < INTERNET_TIME_RESTART_WAIT) return;` and what follows it.
abbrev pub after_restart : (Internet → Internet) → Internet → Internet
after_restart next s =
    if ltb (sub32 (now s.world) s.time_restart_last) time_restart_wait
    then ticked s
    else next (ticked s)

-- The ping for the server.
unfoldable pub ping : Internet → Internet
ping s =
    let bytes = set_at (set_at s.packet.data_bytes 0 command_ping) 1 command_ping_value_request in
    let t = send (record s { packet = record s.packet { data_bytes = bytes; size = 2 } }) in
    record (ticked t) { time_ping_send_last = now t.world }

-- The ping, when it is time for one.
unfoldable pub ping_if_due : Internet → Internet
ping_if_due s =
    if leb time_ping_send_interval (sub32 (now s.world) s.time_ping_send_last)
    then ping (ticked s)
    else ticked s

-- `if((size = udp.parsePacket())) internet_receive();`
unfoldable pub poll : Internet → Internet
poll s =
    let (parsed, t) = ask parse_packet s in
    let u = set_size (u8 parsed) t in if is_true u.packet.size then receive u else u

-- What follows the test for silence.
unfoldable pub serve : Internet → Internet
serve s = elim s.status [
  | uninitialized ↦ s
  | _ ↦ if is_true s.is_receive_wait then s else poll (ping_if_due s)
]

-- The statuses in which the connection is up or failed to come up.
unfoldable pub watch : Internet → Internet
watch s =
    if leb time_receive_last_max (sub32 (now s.world) s.time_receive_last)
    then troubleshoot (ticked s)
    else serve (ticked s)

-- The ladder over the statuses.
unfoldable pub update_status : InternetStatus → Internet → Internet
update_status restarting s = after_restart release s
update_status initializing s = after_restart restart_soft s
update_status _ s = watch s

-- `internet_update()`
unfoldable pub update : Internet → Internet
update s = update_status s.status s
