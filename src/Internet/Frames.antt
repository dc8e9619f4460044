-- ===== src/Internet/Frames.antt =====
-- Which datagrams `internet_receive` accepts, and what it keeps of them.
use blueberry_irrigation_sys.Base.{
  ℕ, zero, ◌&&◌, suc, ◌+◌, ◌-◌, ◌≤◌, ◌<◌, ◌≡◌, refl, ◌↔◌, ◌⊎◌, u8, sub8, for_up, if◌then◌else◌,
  ◌==◌, arith,
}
use blueberry_irrigation_sys.Internet.{Internet, tell, read, remote_ip, remote_port, stamp_receive}
use blueberry_irrigation_sys.Internet.Receive.{
  receive, receive_frame, receive_size, receive_id, receive_data, accept, store_byte, set_size,
}

-- What `count` rounds of the loop leave: the bytes of as many calls, and nothing else has changed.
pub stored :
    (count first : ℕ) (s : Internet)
    → let t = for_up count first store_byte s in
      ((j : ℕ)
        → first ≤ j
        → j < first + count
        → t.packet.data_bytes j ≡ u8 (s.library.result (s.requests + (j - first))))
      × ((j : ℕ)
          → (j < first) ⊎ (first + count ≤ j)
          → t.packet.data_bytes j ≡ s.packet.data_bytes j)
      × (t.requests ≡ s.requests + count)
      × (t.packet.size ≡ s.packet.size)
      × (t.library ≡ s.library)
      × (t.is_receive_wait ≡ s.is_receive_wait)
unfolding store_byte
stored zero first s = (λ j a b. absurd (omega arith), λ j o. refl, omega arith, refl, refl, refl)
stored (suc count) first s =
    let t = store_byte first s in
    let (inside, outside, n, size, lib, wait) = stored count (first + 1) t in
    (
      λ j a b. ground (arith, inside j, outside j),
      λ j o. ground (arith, outside j),
      ground (arith, n),
      size,
      lib,
      wait,
    )

-- The datagram of the last calls is a frame with `n` bytes of data: it comes from the server, and
-- has the start byte, its size, the server's id, and the end byte in their places.
pub record IsFrame (s : Internet) (n : ℕ) : Type 0 where
  pub from : s.library.result s.requests ≡ s.ip_remote
  pub port : s.library.result (s.requests + 1) ≡ 5432
  pub start_byte : s.library.result (s.requests + 2) ≡ 2
  pub size_byte : s.library.result (s.requests + 3) ≡ n + 1
  pub id_byte : s.library.result (s.requests + 4) ≡ 170
  pub end_byte : s.library.result (s.requests + 5 + n) ≡ 4

receive_data_lem :
    (s : Internet)
    → s.is_receive_wait ≡ 0
    → let t = receive_data s in
      let end_byte = s.library.result (s.requests + s.packet.size) in
      (t.is_receive_wait ≡ (if end_byte == 4 then 1 else 0))
      × (t.packet.size ≡ s.packet.size)
      × ((j : ℕ)
          → j < s.packet.size
          → t.packet.data_bytes j ≡ u8 (s.library.result (s.requests + j)))
unfolding receive_data accept
receive_data_lem s w =
    let (inside, outside, n, size, lib, wait) = stored s.packet.size 0 s in
    (ground (arith, n, lib, wait, w), ground (arith, size), λ j h. ground (arith, inside j))

-- From a byte of the datagram on, the rest is as it should be, and what is kept of it.
abbrev Kept : Internet → ℕ → ℕ → Internet → Type 0
Kept s n base t =
    (t.packet.size ≡ n)
    × ((j : ℕ) → j < n → t.packet.data_bytes j ≡ u8 (s.library.result (base + j)))

receive_id_lem :
    (s : Internet) (n : ℕ)
    → 1 ≤ n
    → n ≤ 64
    → s.packet.size ≡ n + 1
    → s.is_receive_wait ≡ 0
    → let good = s.library.result s.requests == 170 && s.library.result (s.requests + 1 + n) == 4 in
      ((receive_id s).is_receive_wait ≡ (if good then 1 else 0))
      × (s.library.result s.requests ≡ 170 → Kept s n (s.requests + 1) (receive_id s))
unfolding receive_id
receive_id_lem s n low high e w =
    let t = tell read (set_size (sub8 s.packet.size 1) s) in
    let size : sub8 s.packet.size 1 ≡ n = omega (arith, e) in
    let d = receive_data_lem t w in
    (
      ground (arith, d.0, size, e),
      λ id. (ground (arith, d.1, size, e, id), λ j h. ground (arith, d.2 j, size, e, id)),
    )

receive_frame_lem :
    (s : Internet) (n : ℕ)
    → 1 ≤ n
    → n ≤ 64
    → s.packet.size ≡ n + 4
    → s.is_receive_wait ≡ 0
    → let r = s.library.result in
      let good =
        r s.requests == 2
        && (r (s.requests + 1) == n + 1
            && (r (s.requests + 2) == 170 && r (s.requests + 3 + n) == 4)) in
      ((receive_frame s).is_receive_wait ≡ (if good then 1 else 0))
      × (r s.requests ≡ 2
          → r (s.requests + 1) ≡ n + 1
          → r (s.requests + 2) ≡ 170
          → Kept s n (s.requests + 3) (receive_frame s))
unfolding receive_frame receive_size
receive_frame_lem s n low high e w =
    let t = tell read (set_size (sub8 s.packet.size 3) (tell read s)) in
    let size : sub8 s.packet.size 3 ≡ n + 1 = omega (arith, e) in
    let d = receive_id_lem t n low high size w in
    (
      ground (arith, d.0, size, e),
      λ a b c. (
        ground (arith, (d.1 (ground (arith, c))).0, size, e, a, b),
        λ j h. ground (arith, (d.1 (ground (arith, c))).1 j h, size, e, a, b),
      ),
    )

receive_lem :
    (s : Internet) (n : ℕ)
    → 1 ≤ n
    → n ≤ 64
    → s.packet.size ≡ n + 4
    → s.is_receive_wait ≡ 0
    → (((receive s).is_receive_wait ≡ 1) ⊎ ((receive s).is_receive_wait ≡ 0))
      × (((receive s).is_receive_wait ≡ 1) ↔ IsFrame s n)
      × (IsFrame s n → Kept s n (s.requests + 5) (receive s))
unfolding receive
receive_lem s n low high e w =
    let u = stamp_receive (tell remote_port (tell remote_ip s)) in
    let d = receive_frame_lem u n low high e w in
    (
      ground (arith, d.0, w),
      (
        λ a. record {
          from = ground (arith, d.0, a, w);
          port = ground (arith, d.0, a, w);
          start_byte = ground (arith, d.0, a, w);
          size_byte = ground (arith, d.0, a, w);
          id_byte = ground (arith, d.0, a, w);
          end_byte = ground (arith, d.0, a, w);
        },
        λ f. ground (arith, d.0, f.from, f.port, f.start_byte, f.size_byte, f.id_byte, f.end_byte),
      ),
      λ f.
          let k =
            d.1 (ground (arith, f.start_byte)) (ground (arith, f.size_byte))
              (ground (arith, f.id_byte)) in
          (ground (arith, k.0, f.from, f.port), λ j h. ground (arith, k.1 j h, f.from, f.port)),
    )

-- A datagram of the right size is accepted exactly if it is a frame, and then its data and their
-- number are kept. Its size is that of the `n` bytes of data, from 1 to 64, and of the four other
-- bytes, and nothing was waiting before.
pub receive-IsFrame :
    (s : Internet) (n : ℕ)
    → 1 ≤ n
    → n ≤ 64
    → s.packet.size ≡ n + 4
    → s.is_receive_wait ≡ 0
    → (((receive s).is_receive_wait ≡ 1) ↔ IsFrame s n)
      × (IsFrame s n
          → ((receive s).packet.size ≡ n)
            × ((j : ℕ)
                → j < n
                → (receive s).packet.data_bytes j ≡ u8 (s.library.result (s.requests + 5 + j))))
receive-IsFrame s n low high e w = let l = receive_lem s n low high e w in (l.1, l.2)
