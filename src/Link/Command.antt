-- ===== src/Link/Command.antt =====
-- A packet of the server (`server_udp_send` of linux_server/src/server_udp.c), taken by the firmware
-- (`internet_receive` of arduino_client/src/internet.cpp).
use blueberry_irrigation_sys.Base.{
  ℕ, zero, suc, ◌+◌, ◌≤◌, ◌<◌, ◌≡◌, ◌∙◌, false, List, [], ◌∷◌, Array, u8, arith,
}
use blueberry_irrigation_sys.Internet.{Internet, bytes_from}
use blueberry_irrigation_sys.Internet.Receive.{receive}
use blueberry_irrigation_sys.Internet.Frames.{IsFrame, receive-IsFrame}
use blueberry_irrigation_sys.Server.{Server, send, fill_buffer}
use blueberry_irrigation_sys.Link.{byte_at}

-- The bytes of the last datagram.
abbrev pub last_bytes : List (ℕ × ℕ × List ℕ) → List ℕ
last_bytes [] = []
last_bytes (d ∷ ds) = d.2

-- The library has a datagram for the firmware: it comes from the server, and has these bytes.
pub record Delivers (i : Internet) (total : ℕ) (bytes : List ℕ) : Type 0 where
  pub from : i.library.result i.requests ≡ i.ip_remote
  pub port : i.library.result (i.requests + 1) ≡ 5432
  pub size : i.packet.size ≡ total
  pub byte : (j : ℕ) → j < total → i.library.result (i.requests + 2 + j) ≡ byte_at j bytes
  pub idle : i.is_receive_wait ≡ 0

byte_at-buffer : (n i j : ℕ) (a : Array ℕ) → j < n → byte_at j (bytes_from n i a) ≡ a (i + j)
byte_at-buffer zero i j a h = absurd (omega arith)
byte_at-buffer (suc n) i zero a h = ground arith
byte_at-buffer (suc n) i (suc j) a h = ground (arith, byte_at-buffer n (suc i) j a (omega arith))

send-bytes :
    (s : Server) (j : ℕ)
    → s.packet.size ≤ 64
    → s.kernel.sendto s.calls ≡ false
    → j < s.packet.size + 4
    → byte_at j (last_bytes (send s).sent) ≡ fill_buffer (record s.packet { id = 170 }) s.buffer j
unfolding send
send-bytes s j high ok h = rw ok (
    byte_at-buffer (s.packet.size + 4) 0 j (fill_buffer (record s.packet { id = 170 }) s.buffer) h
    ∙ ground arith)

-- The firmware accepts what the server sends, and its packet has the server's data.
pub receive-send :
    (s : Server) (i : Internet)
    → 1 ≤ s.packet.size
    → s.packet.size ≤ 64
    → s.kernel.sendto s.calls ≡ false
    → Delivers i (s.packet.size + 4) (last_bytes (send s).sent)
    → ((receive i).is_receive_wait ≡ 1)
      × ((receive i).packet.size ≡ s.packet.size)
      × ((j : ℕ) → j < s.packet.size → (receive i).packet.data_bytes j ≡ u8 (s.packet.data_bytes j))
unfolding fill_buffer
receive-send s i low high ok d =
    let n = s.packet.size in
    let at = λ (j : ℕ) (h : j < n + 4). d.byte j h ∙ send-bytes s j high ok h in
    let f : IsFrame i n = record {
      from = d.from;
      port = d.port;
      start_byte = ground (arith, at 0 (omega arith));
      size_byte = ground (arith, at 1 (omega arith));
      id_byte = ground (arith, at 2 (omega arith));
      end_byte = ground (arith, at (3 + n) (omega arith));
    } in
    let (iff, kept) = receive-IsFrame i n low high d.size d.idle in
    let k = kept f in (iff.1 f, k.0, λ j h. ground (arith, k.1 j h, at (3 + j) (omega arith)))
