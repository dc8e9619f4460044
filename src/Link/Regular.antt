-- ===== src/Link/Regular.antt =====
-- When the firmware reports (`interface_process_data` of arduino_client/src/interface.cpp): on a request for
-- all values, and regularly.
use blueberry_irrigation_sys.Base.{
  ℕ, ◌+◌, ◌≤◌, ◌≡◌, refl, subst, ap, ◌∙◌, true, false, is_true, sub32, ltb, take, length, arith,
}
use mathlib.Core.List.{reverse}
use blueberry_irrigation_sys.World.{now}
use blueberry_irrigation_sys.Firmware.{Firmware, ticked, body}
use blueberry_irrigation_sys.Interface.{time_interval_send_info}
use blueberry_irrigation_sys.Interface.Info.{info_all}
use blueberry_irrigation_sys.Interface.Process.{process_data, process_command, request_info, done}
use blueberry_irrigation_sys.Server.{Server}
use blueberry_irrigation_sys.Link.Datagrams.{datagrams, IsConnected}
use blueberry_irrigation_sys.Link.Shown.{Report, Shows}
use blueberry_irrigation_sys.Link.Whole.{Arrives, updates, info_all-Shows}

-- The firmware reports, and what it has become when it does: a request for all values waits, or none
-- waits, the regular report is switched on and the last one was longer than its interval ago.
pub data Reports (m : Firmware) : Firmware → Type 0 where
  requested :
      is_true m.internet.is_receive_wait ≡ true
      → body m 0 ≡ 82
      → m.internet.packet.size ≡ 1
      → Reports m m
  due :
      is_true m.internet.is_receive_wait ≡ false
      → is_true m.is_send_info ≡ true
      → time_interval_send_info ≤ sub32 (now m.world) m.time_start_info
      → Reports m (request_info (ticked m))

process_data-Reports : (m n : Firmware) → Reports m n → process_data m ≡ done (info_all n)
unfolding process_data process_command
process_data-Reports m _ (requested wait command size) = simp (wait, command, size) refl
process_data-Reports m _ (due free on late) =
    let later : ltb (sub32 (now m.world) m.time_start_info) time_interval_send_info ≡ false =
      ground (arith, late) in
    simp (free, on, later) (unfold request_info in refl)

reporter-IsConnected :
    (m n : Firmware) → Reports m n → IsConnected m.internet → IsConnected n.internet
unfolding request_info
reporter-IsConnected m _ (requested _ _ _) k = k
reporter-IsConnected m _ (due _ _ _) k = record { status = k.status; begins = k.begins; id = k.id }

reporter-datagrams :
    (m n : Firmware) → Reports m n → datagrams n.internet.log ≡ datagrams m.internet.log
unfolding request_info
reporter-datagrams m _ (requested _ _ _) = refl
reporter-datagrams m _ (due _ _ _) = refl

-- A whole report: asked for all values, or when the regular report is due, the firmware sends four
-- datagrams, and once the server has taken them in their order, each in an update of its own, it shows
-- every value of the firmware at one moment: the devices, the flow and pressure sensors, the irrigation
-- and the time. The firmware's connection is up, and the library begins every packet.
pub process_data-Shows :
    (m n : Firmware) (s : Server) (ip port : ℕ)
    → Reports m n
    → IsConnected m.internet
    → Arrives ip port (reverse (take 4 (datagrams (process_data m).internet.log))) s
    → (length (datagrams (process_data m).internet.log) ≡ length (datagrams m.internet.log) + 4)
      × ((r : Report) → Shows r n (updates 4 s).irrigation_data)
process_data-Shows m n s ip port reports k arrives =
    let same = ap (λ (t : Firmware). datagrams t.internet.log) (process_data-Reports m n reports) in
    let (count, shown) =
      info_all-Shows n s ip port (reporter-IsConnected m n reports k)
        (subst (λ l. Arrives ip port (reverse (take 4 l)) s) same arrives) in
    (ap length same ∙ count ∙ ap (λ l. length l + 4) (reporter-datagrams m n reports), shown)
