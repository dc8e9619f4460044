-- ===== src/Server.antt =====
-- linux_server/src/server_udp.c, irrigation_data.c and main.c: the server, which shows what the
-- firmware reports and sends the commands that a user types. The state and the datagrams stand here,
-- the reports in Server/Process, and the user's input in Server/Input. The system calls are a
-- parameter: what they return, by the number of the call.
pub mod Receive
pub mod Frames
pub mod Process
pub mod Input
use blueberry_irrigation_sys.Base.{
  ℕ, suc, ◌+◌, ◌-◌, ◌*◌, ◌/◌, Bool, true, false, List, ◌∷◌, Array, set_at, u8, u16, u32, ltb,
  if◌then◌else◌,
}
use blueberry_irrigation_sys.Internet.{Packet, bytes_from}

-- What a call of `recvfrom` does: it fails, it has nothing to read, or it stores a datagram from an
-- address: that, the port, the size that the call returns, and the bytes.
pub data Reception : Type 0 where
  failure nothing : Reception
  datagram : ℕ → ℕ → ℕ → Array ℕ → Reception

pub record Kernel : Type 0 where
  -- Does the call fail?
  pub socket : ℕ → Bool
  pub bind : ℕ → Bool
  pub sendto : ℕ → Bool
  pub recvfrom : ℕ → Reception
  -- The seconds and the microseconds.
  pub gettimeofday : ℕ → ℕ × ℕ
  -- Is there input?
  pub select : ℕ → Bool
  -- What `read` returns, by the bits of an int, and the character that it stores.
  pub read : ℕ → ℕ × ℕ

pub record ServerSensorFlow : Type 0 where
  pub pulses_per_liter : ℕ
  pub pulses_total : ℕ

-- The globals of irrigation_data.c. The structures for a device and for a pressure sensor have one
-- field each, `is_active` and `pressure`.
pub record IrrigationData : Type 0 where
  pub device_array : Array ℕ
  pub sensor_flow_array : Array ServerSensorFlow
  pub sensor_pressure_array : Array ℕ
  pub program_current : ℕ
  pub program : ℕ
  pub status : ℕ
  pub is_cleaning : ℕ
  pub is_stopped : ℕ
  pub deliver_volume : ℕ
  pub deliver_time : ℕ
  pub time_generator_wait : ℕ
  pub time_program_duration : ℕ
  pub time_cleaning_group3_duration : ℕ
  pub time_cleaning_group12_duration : ℕ
  pub time_program_start : ℕ
  pub time_program_stop : ℕ
  pub time_generator_start : ℕ
  pub time_current : ℕ
  pub is_faulty_detection_active : ℕ

-- The globals of server_udp.c and main.c.
pub record Server : Type 0 where
  pub kernel : Kernel
  pub calls : ℕ
  -- The datagrams that were sent, the last one first: address, port and bytes.
  pub sent : List (ℕ × ℕ × List ℕ)
  pub packet : Packet
  pub buffer : Array ℕ
  pub client_ip : ℕ
  pub client_port : ℕ
  pub time_received_last : ℕ
  pub irrigation_data : IrrigationData
  pub is_print : ℕ
  pub time_print_last : ℕ
  pub received_time_ago : ℕ
  -- The program has ended with `exit(1)`.
  pub is_dead : ℕ
  -- Something was stored past the end of the array `c` or of the buffer.
  pub is_overrun : ℕ

abbrev pub asked : Server → Server
asked s = record s { calls = suc s.calls }

abbrev pub internet_local_id : ℕ
internet_local_id = 170

abbrev pub internet_arduino_id : ℕ
internet_arduino_id = 160

-- `die(s)`
unfoldable pub die : Server → Server
die s = record s { is_dead = 1 }

-- `server_udp_init()`
unfoldable pub init : Server → Server
init s =
    let t = asked s in
    if s.kernel.socket s.calls
    then die t
    else if s.kernel.bind t.calls
    then die (asked t)
    else asked (asked t)

-- `get_time()`: the time, and the server after the call.
abbrev pub get_time : Server → ℕ × Server
get_time s =
    let (seconds, microseconds) = s.kernel.gettimeofday s.calls in
    (u32 (seconds * 1000 + microseconds / 1000), asked s)

-- The frame in the buffer.
unfoldable pub fill_buffer : Packet → Array ℕ → Array ℕ
fill_buffer p buffer =
    let header = set_at (set_at (set_at buffer 0 2) 1 (u8 (p.size + 1))) 2 p.id in
    let copied = λ (j : ℕ).
      if ltb j 3 then header j else if ltb j (3 + p.size) then p.data_bytes (j - 3) else buffer j in
    set_at copied (p.size + 3) 4

-- `server_udp_send()`
unfoldable pub send : Server → Server
send s =
    let p = record s.packet { id = internet_local_id } in
    let buffer = fill_buffer p s.buffer in
    let t = asked (record s {
      packet = p;
      buffer = buffer;
      client_ip = p.ip;
      client_port = p.port;
      sent = (p.ip, p.port, bytes_from (p.size + 4) 0 buffer) ∷ s.sent;
    }) in
    if s.kernel.sendto s.calls then die (record t { sent = s.sent }) else t
