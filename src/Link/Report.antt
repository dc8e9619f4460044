-- ===== src/Link/Report.antt =====
-- A report of the firmware (`interface_process_data` of arduino_client/src/interface.cpp), taken by
-- the server (`server_process_received_data` of linux_server/src/server_udp.c).
use blueberry_irrigation_sys.Base.{arith, ℕ, ◌+◌, ◌≤◌, ◌<◌, ◌≡◌, ◌∙◌, refl, sym, subst}
use blueberry_irrigation_sys.Internet.{Internet}
use blueberry_irrigation_sys.Firmware.{Firmware}
use blueberry_irrigation_sys.Server.{Server, datagram}
use blueberry_irrigation_sys.Server.Receive.{receive}
use blueberry_irrigation_sys.Server.Frames.{receive-accepts}
use blueberry_irrigation_sys.Server.Process.{update, process_received_data, stamp_received}
use blueberry_irrigation_sys.Link.{IsUp, sent, send-IsFrame}
use blueberry_irrigation_sys.Link.Shown.{Report, frame, reporting, Shows, Holds-Shows, frame-size}

-- A frame of the firmware arrives, and the server takes it.
pub update-sent :
    (i : Internet) (s : Server) (ip port : ℕ)
    → IsUp i
    → 1 ≤ i.packet.size
    → i.packet.size ≤ 61
    → s.kernel.recvfrom s.calls ≡ datagram ip port (i.packet.size + 4) (sent i)
    → let t = stamp_received (receive s).1 in
      (update s ≡ process_received_data t)
      × (t.packet.size ≡ i.packet.size)
      × ((j : ℕ) → j < i.packet.size → t.packet.data_bytes j ≡ i.packet.data_bytes j)
      × (t.irrigation_data ≡ s.irrigation_data)
unfolding update
update-sent i s ip port up low high e =
    let (frame, body) = send-IsFrame i up (omega (arith, high)) in
    let d = receive-accepts s ip port i.packet.size (sent i) low high e in
    let k = d.1 frame in (rw (d.0.1 frame) refl, k.0, λ j h. k.1 j h ∙ body j h, k.2)

-- After an update in which a frame of a report arrives, the server shows the values of the firmware
-- at its sending, each by the bits of the type in which it is sent. The firmware's connection is up.
pub update-Shows :
    (r : Report) (m : Firmware) (s : Server) (ip port : ℕ)
    → IsUp m.internet
    → s.kernel.recvfrom s.calls ≡ datagram ip port ((frame r m).1 + 4) (sent (reporting r m))
    → Shows r m (update s).irrigation_data
update-Shows r m s ip port up e =
    let (low, high) = frame-size r m in
    let i = reporting r m in
    let (step, size, body, info) =
      update-sent i s ip port (record { status = up.status; begun = up.begun; id = up.id }) low high
        e in
    let shown = Holds-Shows r m (stamp_received (receive s).1) (size, body) in
    subst (λ t. Shows r m t.irrigation_data) (sym step) shown
