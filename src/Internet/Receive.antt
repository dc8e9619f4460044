-- ===== src/Internet/Receive.antt =====
-- `internet_receive` of arduino_client/src/internet.cpp.
use blueberry_irrigation_sys.Base.{ℕ, ◌+◌, set_at, for_up, not, u8, sub8, ltb, if◌then◌else◌, ◌==◌}
use blueberry_irrigation_sys.Internet.{
  Internet, read, flush, remote_ip, remote_port, tell, ask, stamp_receive, remote_port_number,
  packet_header_size, packet_body_data_size, packet_wrapper_byte_start, packet_wrapper_byte_end,
}

abbrev pub remote_id : ℕ
remote_id = 170

abbrev pub packet_wrapper_size : ℕ
packet_wrapper_size = 3

abbrev pub packet_size_max : ℕ
packet_size_max = packet_wrapper_size + (packet_header_size + packet_body_data_size)

-- `if(udp.read() != value) { udp.flush(); return; }` and what follows it.
abbrev pub expect : ℕ → (Internet → Internet) → Internet → Internet
expect value next s =
    let (byte, t) = ask read s in if not (byte == value) then tell flush t else next t

abbrev pub set_size : ℕ → Internet → Internet
set_size n s = record s { packet = record s.packet { size = n } }

-- `data[counter] = udp.read();`
unfoldable pub store_byte : ℕ → Internet → Internet
store_byte i s =
    let (byte, t) = ask read s in
    record t { packet = record t.packet { data_bytes = set_at t.packet.data_bytes i (u8 byte) } }

-- The frame is complete: it waits for the interface.
unfoldable pub accept : Internet → Internet
accept s = record (tell flush s) { is_receive_wait = 1 }

-- The loop over the data, and the end byte.
unfoldable pub receive_data : Internet → Internet
receive_data s = expect packet_wrapper_byte_end accept (for_up s.packet.size 0 store_byte s)

-- From the second change of the size to the id.
unfoldable pub receive_id : Internet → Internet
receive_id s =
    let t = set_size (sub8 s.packet.size packet_header_size) s in
    if t.packet.size == 0 then tell flush t else expect remote_id receive_data t

-- From the first change of the size to the size byte.
unfoldable pub receive_size : Internet → Internet
receive_size s =
    let t = set_size (sub8 s.packet.size packet_wrapper_size) s in expect t.packet.size receive_id t

-- From the comparisons of the size to the start byte.
unfoldable pub receive_frame : Internet → Internet
receive_frame s =
    if ltb packet_size_max s.packet.size
    then tell flush s
    else if ltb s.packet.size packet_wrapper_size
    then tell flush s
    else expect packet_wrapper_byte_start receive_size s

-- `internet_receive()`
unfoldable pub receive : Internet → Internet
receive s =
    let (ip, t) = ask remote_ip s in
    let (port, u) = ask remote_port t in
    if not (ip == s.ip_remote)
    then tell flush t
    else if not (port == remote_port_number)
    then tell flush u
    else receive_frame (stamp_receive u)
