-- ===== src/Server/Receive.antt =====
-- `server_udp_receive` of linux_server/src/server_udp.c.
use blueberry_irrigation_sys.Base.{
  ℕ, ◌+◌, Bool, true, false, Array, set_at, for_up, not, u8, sub8, ltb, ◌==◌, if◌then◌else◌,
}
use blueberry_irrigation_sys.Server.{
  Server, failure, nothing, datagram, asked, die, internet_arduino_id,
}

abbrev pub set_size : ℕ → Server → Server
set_size n s = record s { packet = record s.packet { size = n } }

-- `if(buffer[i] != value) return FALSE;` and what follows it.
abbrev pub expect : ℕ → ℕ → (Server → Bool × Server) → Server → Bool × Server
expect i value next s = if not (s.buffer i == value) then (false, s) else next s

-- `data[i] = buffer[counter++];`, where `counter` was 3 before the loop.
unfoldable pub copy_byte : ℕ → Server → Server
copy_byte i s = record s {
  packet = record s.packet { data_bytes = set_at s.packet.data_bytes i (s.buffer (u8 (3 + i))) };
}

-- The loop over the data, and the end byte.
unfoldable pub receive_data : Server → Bool × Server
receive_data s =
    let t = for_up s.packet.size 0 copy_byte s in
    expect (u8 (3 + s.packet.size)) 4 (λ u. (true, u)) t

-- From the second change of the size to the id.
unfoldable pub receive_id : Server → Bool × Server
receive_id s =
    let t = set_size (sub8 s.packet.size 1) s in
    let u = record t { packet = record t.packet { id = t.buffer 2 } } in
    if t.packet.size == 0 then (false, t) else expect 2 internet_arduino_id receive_data u

-- From the first change of the size to the size byte.
unfoldable pub receive_size : Server → Bool × Server
receive_size s = let t = set_size (sub8 s.packet.size 3) s in expect 1 t.packet.size receive_id t

-- What follows the call of `recvfrom`.
unfoldable pub receive_frame : Server → Bool × Server
receive_frame s =
    if ltb 68 s.packet.size
    then (false, s)
    else if ltb s.packet.size 3
    then (false, s)
    else expect 0 2 receive_size s

-- The length of `buffer`, which is less than the 68 bytes that `recvfrom` is asked for.
abbrev pub buffer_size : ℕ
buffer_size = 65

-- A datagram is stored. The bytes of a longer one are written past the end of the buffer: the model
-- keeps them in cells of their own, and marks the overrun.
unfoldable pub store : ℕ → ℕ → ℕ → Array ℕ → Server → Server
store ip port size bytes s = record s {
  buffer = λ j. if ltb j size then bytes j else s.buffer j;
  client_ip = ip;
  client_port = port;
  packet = record s.packet { ip = ip; port = port; size = u8 size };
  is_overrun = if ltb buffer_size size then 1 else s.is_overrun;
}

-- `server_udp_receive()`
unfoldable pub receive : Server → Bool × Server
receive s = elim (s.kernel.recvfrom s.calls) [
  | failure ↦ (false, die (asked s))
  | nothing ↦ (false, asked s)
  | datagram ip port size bytes ↦ receive_frame (store ip port size bytes (asked s))
]
