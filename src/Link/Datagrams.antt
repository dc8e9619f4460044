-- ===== src/Link/Datagrams.antt =====
-- The datagrams that `internet_send` of arduino_client/src/internet.cpp puts together, one after the other.
use blueberry_irrigation_sys.Base.{
  ℕ, zero, suc, ◌+◌, ◌≡◌, ◌∙◌, refl, ap, true, List, [], ◌∷◌, Array, length, is_true, arith,
}
use blueberry_irrigation_sys.Internet.{
  Internet, ready, Request, end_packet, bytes_from, write_frame,
}
use blueberry_irrigation_sys.Internet as Net
use blueberry_irrigation_sys.Internet.Quiet.{send_world}
use blueberry_irrigation_sys.Firmware.{Firmware, set_body}
use blueberry_irrigation_sys.Interface.Info.{Cursor, send}
use mathlib.Core.List.{◌++◌}
use blueberry_irrigation_sys.Link.{IsUp, written, written-send}

-- The datagrams that the library has sent, the last one first.
abbrev pub datagrams : List Request → List (List ℕ)
datagrams [] = []
datagrams (end_packet ∷ log) = written log ∷ datagrams log
datagrams (_ ∷ log) = datagrams log

-- The connection is up, the library begins every packet, and the id is the firmware's.
pub record IsConnected (s : Internet) : Type 0 where
  pub status : s.status ≡ ready
  pub begins : (n : ℕ) → is_true (s.library.result n) ≡ true
  pub id : s.packet.id ≡ 160

pub IsConnected-IsUp : (s : Internet) → IsConnected s → IsUp s
IsConnected-IsUp s c = record { status = c.status; begun = c.begins s.requests; id = c.id }

send-IsConnected : (s : Internet) → IsConnected s → IsConnected (Net.send s)
unfolding Net.send write_frame
send-IsConnected s c =
    simp (c.status, c.begins s.requests) (record { status = refl; begins = c.begins; id = c.id })

-- One more datagram is sent, with the body between the marks of a frame.
send-datagrams :
    (s : Internet)
    → IsUp s
    → datagrams (Net.send s).log ≡ written (Net.send s).log ∷ datagrams s.log
unfolding Net.send write_frame
send-datagrams s up = rw (up.status, up.begun) refl

length-bytes_from :
    (n i : ℕ) (a : Array ℕ) (bs : List ℕ) → length (bytes_from n i a ++ bs) ≡ n + length bs
length-bytes_from zero i a bs = omega arith
length-bytes_from (suc n) i a bs = omega (arith, length-bytes_from n (suc i) a bs)

pub length-written : (s : Internet) → IsUp s → length (written (Net.send s).log) ≡ s.packet.size + 4
length-written s up =
    ap length (written-send s up)
    ∙ omega (arith, length-bytes_from s.packet.size 0 s.packet.data_bytes (4 ∷ []))

-- The connection at the sending of a frame.
abbrev pub sending : Cursor → Firmware → Internet
sending (bytes, counter) m = record (set_body bytes counter m).internet { world = m.world }

pub sending-IsConnected :
    (c : Cursor) (m : Firmware) → IsConnected m.internet → IsConnected (sending c m)
sending-IsConnected c m k = record { status = k.status; begins = k.begins; id = k.id }

pub after_send-IsConnected :
    (c : Cursor) (m : Firmware) → IsConnected m.internet → IsConnected (send c m).internet
after_send-IsConnected c m k = send-IsConnected (sending c m) (sending-IsConnected c m k)

pub after_send-datagrams :
    (c : Cursor) (m : Firmware)
    → IsConnected m.internet
    → datagrams (send c m).internet.log
      ≡ written (Net.send (sending c m)).log ∷ datagrams m.internet.log
after_send-datagrams c m k =
    send-datagrams (sending c m) (IsConnected-IsUp (sending c m) (sending-IsConnected c m k))

pub after_send_world : (c : Cursor) (m : Firmware) → (send c m).world ≡ m.world
after_send_world c m = send_world (sending c m)
