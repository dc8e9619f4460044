-- ===== src/Internet/Bounds.antt =====
-- Which bytes of memory `internet_receive` writes.
use blueberry_irrigation_sys.Base.{ℕ, ◌+◌, ◌≤◌, ◌<◌, ◌≡◌, ◌≢◌, u8, sub8, arith}
use blueberry_irrigation_sys.Internet.{Internet, tell, read, remote_ip, remote_port, stamp_receive}
use blueberry_irrigation_sys.Internet.Receive.{
  receive, receive_frame, receive_size, receive_id, receive_data, accept, set_size,
}
use blueberry_irrigation_sys.Internet.Frames.{stored}

receive_data_bytes :
    (s : Internet) (j : ℕ)
    → s.packet.size ≤ j
    → (receive_data s).packet.data_bytes j ≡ s.packet.data_bytes j
unfolding receive_data accept
receive_data_bytes s j h = ground (arith, (stored s.packet.size 0 s).1 j)

receive_frame_bytes :
    (s : Internet) (j : ℕ)
    → s.packet.size < 256
    → s.packet.size ≢ 3
    → 64 ≤ j
    → (receive_frame s).packet.data_bytes j ≡ s.packet.data_bytes j
unfolding receive_frame receive_size receive_id
receive_frame_bytes s j small ne h =
    let t = tell read (set_size (sub8 s.packet.size 3) (tell read s)) in
    let d = tell read (set_size (sub8 t.packet.size 1) t) in
    ground (arith, receive_data_bytes d j, small, ne, h)

-- Unless the datagram has three bytes, `internet_receive` writes no byte of the body outside the 64
-- that it has.
pub receive-inside :
    (s : Internet) (j : ℕ)
    → s.packet.size < 256
    → s.packet.size ≢ 3
    → 64 ≤ j
    → (receive s).packet.data_bytes j ≡ s.packet.data_bytes j
unfolding receive
receive-inside s j small ne h =
    ground (
      arith,
      receive_frame_bytes (stamp_receive (tell remote_port (tell remote_ip s))) j small ne h,
    )

receive_frame_overflow :
    (s : Internet) (j : ℕ)
    → s.packet.size ≡ 3
    → s.library.result s.requests ≡ 2
    → s.library.result (s.requests + 1) ≡ 0
    → s.library.result (s.requests + 2) ≡ 170
    → j < 255
    → (receive_frame s).packet.data_bytes j ≡ u8 (s.library.result (s.requests + 3 + j))
unfolding receive_frame receive_size receive_id receive_data accept
receive_frame_overflow s j e a b c h =
    let t = tell read (set_size (sub8 s.packet.size 3) (tell read s)) in
    let d = tell read (set_size (sub8 t.packet.size 1) t) in
    let size : sub8 (sub8 s.packet.size 3) 1 ≡ 255 = omega (arith, e) in
    ground (arith, (stored d.packet.size 0 d).0 j, size, e, a, b, c)

-- A datagram of three bytes from the server's address and port, a start byte, a 0 and the server's
-- id, makes `internet_receive` write 255 bytes from the start of a body of 64: its size wraps.
pub receive_overflow :
    (s : Internet) (j : ℕ)
    → s.packet.size ≡ 3
    → s.library.result s.requests ≡ s.ip_remote
    → s.library.result (s.requests + 1) ≡ 5432
    → s.library.result (s.requests + 2) ≡ 2
    → s.library.result (s.requests + 3) ≡ 0
    → s.library.result (s.requests + 4) ≡ 170
    → j < 255
    → (receive s).packet.data_bytes j ≡ u8 (s.library.result (s.requests + 5 + j))
unfolding receive
receive_overflow s j e ip port a b c h = ground (
  arith,
  receive_frame_overflow (stamp_receive (tell remote_port (tell remote_ip s))) j e
      (ground (arith, a)) (ground (arith, b)) (ground (arith, c)) h,
)
