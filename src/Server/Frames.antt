-- ===== src/Server/Frames.antt =====
-- Which datagrams `server_udp_receive` accepts, and what it keeps of them.
use blueberry_irrigation_sys.Base.{
  ℕ, zero, suc, ◌+◌, ◌≤◌, ◌<◌, ◌≡◌, refl, ap, ◌∙◌, ◌↔◌, ◌⊎◌, ◌&&◌, true, Array, u8, sub8, for_up,
  ◌==◌, arith,
}
use blueberry_irrigation_sys.Server.{Server, datagram}
use blueberry_irrigation_sys.Server.Receive.{
  receive, receive_frame, receive_size, receive_id, receive_data, copy_byte, store, set_size,
}

-- What `count` rounds of the loop leave: the bytes of the buffer, and nothing else has changed.
copied :
    (count first : ℕ) (s : Server)
    → first + count ≤ 252
    → let t = for_up count first copy_byte s in
      ((j : ℕ) → first ≤ j → j < first + count → t.packet.data_bytes j ≡ s.buffer (3 + j))
      × ((j : ℕ)
          → (j < first) ⊎ (first + count ≤ j)
          → t.packet.data_bytes j ≡ s.packet.data_bytes j)
      × (t.packet.size ≡ s.packet.size)
      × (t.buffer ≡ s.buffer)
      × (t.irrigation_data ≡ s.irrigation_data)
      × (t.is_overrun ≡ s.is_overrun)
unfolding copy_byte
copied zero first s low = (λ j a b. absurd (omega arith), λ j o. refl, refl, refl, refl, refl)
copied (suc count) first s low =
    let t = copy_byte first s in
    let (inside, outside, size, buffer, info, room) = copied count (first + 1) t (omega arith) in
    (
      λ j a b. ground (arith, inside j, outside j),
      λ j o. ground (arith, outside j),
      size,
      buffer,
      info,
      room,
    )

-- The bytes are a frame with `n` bytes of data: the start byte, the size, the firmware's id, and the
-- end byte are in their places.
pub record IsFrame (n : ℕ) (bytes : Array ℕ) : Type 0 where
  pub start_byte : bytes 0 ≡ 2
  pub size_byte : bytes 1 ≡ n + 1
  pub id_byte : bytes 2 ≡ 160
  pub end_byte : bytes (3 + n) ≡ 4

-- The data that are kept, and the values that are left alone.
pub Kept : Server → ℕ → Server → Type 0
Kept s n t =
    (t.packet.size ≡ n)
    × ((j : ℕ) → j < n → t.packet.data_bytes j ≡ s.buffer (3 + j))
    × (t.irrigation_data ≡ s.irrigation_data)
    × (t.is_overrun ≡ s.is_overrun)

receive_data_lem :
    (s : Server) (n : ℕ)
    → s.packet.size ≡ n
    → n ≤ 64
    → ((receive_data s).0 ≡ (s.buffer (3 + n) == 4)) × Kept s n (receive_data s).1
unfolding receive_data Kept
receive_data_lem s n e low =
    let (inside, outside, size, buffer, info, room) = copied s.packet.size 0 s (omega (arith, e)) in
    let place : u8 (3 + s.packet.size) ≡ 3 + n = omega (arith, e) in
    let end_byte = ap (λ (b : Array ℕ). b (3 + n)) buffer in
    (
      ground (arith, place, end_byte),
      (
        ground (arith, size, e),
        λ j h. ground (arith, inside j (omega arith) (omega (arith, e))),
        ground (arith, info),
        ground (arith, room),
      ),
    )

receive_id_lem :
    (s : Server) (n : ℕ)
    → 1 ≤ n
    → n ≤ 64
    → s.packet.size ≡ n + 1
    → ((receive_id s).0 ≡ (s.buffer 2 == 160 && s.buffer (3 + n) == 4))
      × (s.buffer 2 ≡ 160 → Kept s n (receive_id s).1)
unfolding receive_id Kept
receive_id_lem s n low high e =
    let size : sub8 s.packet.size 1 ≡ n = omega (arith, e) in
    let t = set_size (sub8 s.packet.size 1) s in
    let d =
      receive_data_lem (record t { packet = record t.packet { id = t.buffer 2 } }) n size high in
    (
      ground (arith, d.0, size, e),
      λ id. (
        ground (arith, d.1.0, size, e, id),
        λ j h. ground (arith, d.1.1 j h, size, e, id),
        ground (arith, d.1.2, size, e, id),
        ground (arith, d.1.3, size, e, id),
      ),
    )

receive_frame_lem :
    (s : Server) (n : ℕ)
    → 1 ≤ n
    → n ≤ 64
    → s.packet.size ≡ n + 4
    → let b = s.buffer in
      ((receive_frame s).0 ≡ (b 0 == 2 && (b 1 == n + 1 && (b 2 == 160 && b (3 + n) == 4))))
      × (IsFrame n b → Kept s n (receive_frame s).1)
unfolding receive_frame receive_size Kept
receive_frame_lem s n low high e =
    let size : sub8 s.packet.size 3 ≡ n + 1 = omega (arith, e) in
    let d = receive_id_lem (set_size (sub8 s.packet.size 3) s) n low high size in
    (
      ground (arith, d.0, size, e),
      λ f.
          let k = d.1 f.id_byte in
          (
            ground (arith, k.0, size, e, f.start_byte, f.size_byte),
            λ j h. ground (arith, k.1 j h, size, e, f.start_byte, f.size_byte),
            ground (arith, k.2, size, e, f.start_byte, f.size_byte),
            ground (arith, k.3, size, e, f.start_byte, f.size_byte),
          ),
    )

-- A datagram with `n` bytes of data, from 1 to 61, so that it fits into the buffer's 65 bytes, is
-- accepted exactly if it is a frame of the firmware. Then its data and their number are kept, no write past
-- the buffer's end is recorded, and what the server shows has not changed yet.
pub receive-accepts :
    (s : Server) (ip port n : ℕ) (bytes : Array ℕ)
    → 1 ≤ n
    → n ≤ 61
    → s.kernel.recvfrom s.calls ≡ datagram ip port (n + 4) bytes
    → let (is_received, t) = receive s in
      ((is_received ≡ true) ↔ IsFrame n bytes)
      × (IsFrame n bytes
          → (t.packet.size ≡ n)
            × ((j : ℕ) → j < n → t.packet.data_bytes j ≡ bytes (3 + j))
            × (t.irrigation_data ≡ s.irrigation_data)
            × (t.is_overrun ≡ s.is_overrun))
unfolding receive store Kept
receive-accepts s ip port n bytes low high e =
    let u = store ip port (n + 4) bytes (record s { calls = suc s.calls }) in
    let d = receive_frame_lem u n low (omega (arith, high)) (omega arith) in
    let framed : IsFrame n bytes → IsFrame n u.buffer = λ f. record {
      start_byte = ground (arith, f.start_byte);
      size_byte = ground (arith, f.size_byte);
      id_byte = ground (arith, f.id_byte);
      end_byte = ground (arith, f.end_byte);
    } in
    rw (e, receive)
      (
        (
          λ a. record {
            start_byte = ground (arith, d.0, a);
            size_byte = ground (arith, d.0, a);
            id_byte = ground (arith, d.0, a);
            end_byte = ground (arith, d.0, a);
          },
          λ f. ground (arith, d.0, f.start_byte, f.size_byte, f.id_byte, f.end_byte),
        ),
        λ f.
            let k = d.1 (framed f) in (k.0, λ j h. k.1 j h ∙ ground arith, k.2, k.3 ∙ ground arith),
      )
