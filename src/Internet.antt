-- ===== src/Internet.antt =====
-- arduino_client/src/internet.cpp and arduino_client/include/internet.h: the connection to the
-- server. The state, the restarts and the sending stand here, the parser of datagrams in
-- Internet/Receive and the step of the main loop in Internet/Update. The Ethernet library is a
-- parameter: what its calls return is given by the number of the call, and the calls are recorded.
-- Names lose the prefix `internet_`.
pub mod Receive
pub mod Update
pub mod Frames
pub mod Bounds
pub mod Transitions
pub mod Quiet
use blueberry_irrigation_sys.Base.{
  ℕ, zero, suc, ◌+◌, Bool, true, false, not, List, [], ◌∷◌, Array, u8, u16, u32, if◌then◌else◌,
  is_true, ◌==◌,
}
use blueberry_irrigation_sys.World.{
  World, now, called, perform, write, pin_mode, input_pullup, output,
}
use blueberry_irrigation_sys.Pins

abbrev pub retransmission_count : ℕ
retransmission_count = 1

abbrev pub time_connection_max : ℕ
time_connection_max = 4000

abbrev pub remote_port_number : ℕ
remote_port_number = 5432

abbrev pub local_port : ℕ
local_port = 8765

abbrev pub local_id : ℕ
local_id = 160

abbrev pub packet_header_size : ℕ
packet_header_size = 1

abbrev pub packet_body_data_size : ℕ
packet_body_data_size = 64

abbrev pub packet_wrapper_byte_start : ℕ
packet_wrapper_byte_start = 2

abbrev pub packet_wrapper_byte_end : ℕ
packet_wrapper_byte_end = 4

pub data InternetStatus : Type 0 where
  uninitialized restarting initializing ready : InternetStatus

pub record Packet : Type 0 where
  pub ip : ℕ
  pub port : ℕ
  pub id : ℕ
  pub data_bytes : Array ℕ
  pub size : ℕ

-- The calls of the Ethernet library.
pub data Request : Type 0 where
  ethernet_init : ℕ → Request
  ethernet_begin : ℕ → ℕ → Request
  hardware_status link_status dns_server_ip udp_stop : Request
  set_retransmission_count set_retransmission_timeout : ℕ → Request
  dns_begin udp_begin : ℕ → Request
  get_host_by_name : ℕ → Request
  begin_packet : ℕ → ℕ → Request
  write_byte : ℕ → Request
  write_bytes : List ℕ → Request
  end_packet remote_ip remote_port parse_packet read flush : Request

pub record Library : Type 0 where
  -- What a call returns, a negative value by its bits.
  pub result : ℕ → ℕ
  -- The address that `getHostByName` leaves in `internet_ip_remote`.
  pub host_ip : ℕ → ℕ
  pub ethernet_no_hardware : ℕ

-- The globals of internet.cpp, with the world and the library.
pub record Internet : Type 0 where
  pub world : World
  pub open world use *
  pub library : Library
  pub requests : ℕ
  -- The calls of the library, the last one first.
  pub log : List Request
  pub status : InternetStatus
  pub time_restart_last : ℕ
  pub time_receive_last : ℕ
  pub time_ping_send_last : ℕ
  pub ip_remote : ℕ
  pub packet : Packet
  pub is_receive_wait : ℕ

-- A call of the library whose result is not used.
abbrev pub tell : Request → Internet → Internet
tell r s = record s { requests = suc s.requests; log = r ∷ s.log }

-- A call of the library, and its result.
abbrev pub ask : Request → Internet → ℕ × Internet
ask r s = (s.library.result s.requests, tell r s)

abbrev pub ticked : Internet → Internet
ticked s = record s { world = called s.world }

-- `time_receive_last = millis();`
abbrev pub stamp_receive : Internet → Internet
stamp_receive s = record (ticked s) { time_receive_last = now s.world }

abbrev pub is_ready : InternetStatus → Bool
is_ready ready = true
is_ready _ = false

-- `internet_restart_hard()`
unfoldable pub restart_hard : Internet → Internet
restart_hard s =
    let w = write Pins.internet_pin_reset 0 s.world in
    record s { world = called w; time_restart_last = now w; status = restarting }

-- `internet_ip_remote_update()`
unfoldable pub ip_remote_update : Internet → Bool × Internet
ip_remote_update s =
    let (code, t) = ask (get_host_by_name time_connection_max) s in
    let u = record t { ip_remote = s.library.host_ip s.requests } in
    if not (is_ready s.status)
    then (false, s)
    else if not (code == 1)
    then (false, u)
    else (true, record u { packet = record u.packet { ip = u.ip_remote } })

-- The two questions after a failed start, whose answers are only printed.
unfoldable pub diagnose : Internet → Internet
diagnose s =
    let (hardware, t) = ask hardware_status s in
    if hardware == s.library.ethernet_no_hardware then t else tell link_status t

-- What follows the start of the socket.
unfoldable pub open_connection : Internet → Internet
open_connection s =
    let (found, t) = ip_remote_update (record s { status = ready }) in
    if found then stamp_receive t else t

-- What follows the start of the hardware.
unfoldable pub connect : Internet → Internet
connect s =
    let s1 =
      tell (set_retransmission_timeout time_connection_max)
        (tell (set_retransmission_count retransmission_count) s) in
    let (dns_ip, s2) = ask dns_server_ip s1 in
    let (began, s3) = ask (udp_begin local_port) (tell udp_stop (tell (dns_begin dns_ip) s2)) in
    if not (is_true began) then s3 else open_connection s3

-- `internet_restart_soft()`
unfoldable pub restart_soft : Internet → Internet
restart_soft s =
    let s1 = record (stamp_receive s) { status = uninitialized } in
    let (began, s2) = ask (ethernet_begin time_connection_max time_connection_max) s1 in
    if not (is_true began) then diagnose s2 else connect s2

-- `internet_init()`
unfoldable pub init : Internet → Internet
init s =
    let pin = Pins.internet_pin_reset in
    let w =
      write pin 1 (perform (pin_mode pin output) (perform (pin_mode pin input_pullup) s.world)) in
    let p = record s.packet { port = remote_port_number; id = local_id } in
    restart_soft (tell (ethernet_init Pins.internet_pin_ss) (record s { world = w; packet = p }))

-- The first bytes of an array.
abbrev pub bytes_from : ℕ → ℕ → Array ℕ → List ℕ
bytes_from zero i array = []
bytes_from (suc n) i array = array i ∷ bytes_from n (suc i) array

-- The five writes of a frame.
unfoldable pub write_frame : Internet → Internet
write_frame s =
    let p = s.packet in
    tell (write_byte packet_wrapper_byte_end) (
      tell (write_bytes (bytes_from p.size 0 p.data_bytes)) (
        tell (write_byte p.id) (
          tell (write_byte (u8 (p.size + packet_header_size)))
            (tell (write_byte packet_wrapper_byte_start) s))))

-- `internet_send()`
unfoldable pub send : Internet → Internet
send s =
    let (began, t) = ask (begin_packet s.packet.ip s.packet.port) s in
    if not (is_ready s.status)
    then s
    else if not (is_true began)
    then t
    else tell end_packet (write_frame t)

-- `internet_troubleshoot()`
unfoldable pub troubleshoot : Internet → Internet
troubleshoot s = restart_hard s
