-- ===== src/Link.antt =====
-- The two ends together: what arduino_client/src/internet.cpp puts into a datagram, taken by
-- linux_server/src/server_udp.c. That the network delivers a datagram is a hypothesis of each
-- theorem.
pub mod Shown
pub mod Report
pub mod Command
pub mod Order
pub mod Typing
pub mod Datagrams
pub mod Whole
pub mod Regular
pub mod Round
pub mod Stop
use blueberry_irrigation_sys.Base.{
  ℕ, zero, suc, ◌+◌, ◌-◌, ◌≤◌, ◌<◌, ◌≡◌, ◌∙◌, refl, ap, Bool, true, false, List, [], ◌∷◌, Array, u8,
  ltb, if◌then◌else◌, ◌==◌, is_true, arith,
}
use mathlib.Core.List.{◌++◌}
use blueberry_irrigation_sys.Internet
use blueberry_irrigation_sys.Internet.{
  Internet, ready, Request, begin_packet, write_byte, write_bytes, end_packet, bytes_from, send,
  write_frame,
}
use blueberry_irrigation_sys.Server.{Server, Reception, datagram}
use blueberry_irrigation_sys.Server.Receive.{receive}
use blueberry_irrigation_sys.Server.Frames.{IsFrame, receive-accepts}

-- What the library sends at `endPacket`: the bytes that were written since `beginPacket`.
abbrev pub written : List Request → List ℕ
written [] = []
written (end_packet ∷ log) = written log
written (write_byte b ∷ log) = written log ++ (b ∷ [])
written (write_bytes bs ∷ log) = written log ++ bs
written (_ ∷ log) = []

abbrev pub byte_at : ℕ → List ℕ → ℕ
byte_at i [] = 0
byte_at zero (b ∷ bs) = b
byte_at (suc i) (b ∷ bs) = byte_at i bs

byte_at-bytes_from :
    (n i j : ℕ) (a : Array ℕ) (bs : List ℕ)
    → byte_at j (bytes_from n i a ++ bs) ≡ (if ltb j n then a (i + j) else byte_at (j - n) bs)
byte_at-bytes_from zero i j a bs = ground arith
byte_at-bytes_from (suc n) i zero a bs = ground arith
byte_at-bytes_from (suc n) i (suc j) a bs = ground (arith, byte_at-bytes_from n (suc i) j a bs)

-- The connection is up, the library begins a packet, and the id is the firmware's.
pub record IsUp (s : Internet) : Type 0 where
  pub status : s.status ≡ ready
  pub begun : is_true (s.library.result s.requests) ≡ true
  pub id : s.packet.id ≡ 160

-- The datagram that a call of `internet_send` puts together.
unfoldable pub sent : Internet → Array ℕ
unfolding send
sent s j = byte_at j (written (send s).log)

pub written-send :
    (s : Internet)
    → IsUp s
    → written (send s).log
      ≡ 2
        ∷ u8 (s.packet.size + 1)
        ∷ s.packet.id
        ∷ (bytes_from s.packet.size 0 s.packet.data_bytes ++ (4 ∷ []))
unfolding send write_frame
written-send s up = rw (up.status, up.begun) refl

-- What the firmware sends is a frame for the server, with the body of the packet as its data.
pub send-IsFrame :
    (s : Internet)
    → IsUp s
    → s.packet.size ≤ 64
    → IsFrame s.packet.size (sent s)
      × ((j : ℕ) → j < s.packet.size → sent s (3 + j) ≡ s.packet.data_bytes j)
unfolding sent
send-IsFrame s up high =
    let at = λ (j : ℕ). ap (byte_at j) (written-send s up) in
    let body = λ (j : ℕ). byte_at-bytes_from s.packet.size 0 j s.packet.data_bytes (4 ∷ []) in
    (
      record {
        start_byte = at 0;
        size_byte = at 1 ∙ omega arith;
        id_byte = at 2 ∙ up.id;
        end_byte = ground (arith, at (3 + s.packet.size), body s.packet.size);
      },
      λ j h. ground (arith, at (3 + j), body j),
    )
