-- ===== src/Tests/Report.antt =====
-- The theorem on a whole report at a concrete input.
use blueberry_irrigation_sys.Base.{
  ℕ, ◌+◌, ◌≡◌, refl, false, true, length, take, List, [], ◌∷◌, zero, suc,
}
use mathlib.Core.List.{reverse}
use blueberry_irrigation_sys.Internet.{write_frame}
use blueberry_irrigation_sys.Internet as Net
use blueberry_irrigation_sys.Interface.Info.{
  info_all, device_frame, sensor_flow_frame, sensor_pressure_frame,
}
use blueberry_irrigation_sys.Server.{Server, Reception, datagram, nothing}
use blueberry_irrigation_sys.Server.Receive.{
  receive, receive_frame, store, receive_size, receive_id, receive_data, copy_byte,
}
use blueberry_irrigation_sys.Server.Process.{
  update, process_received_data, device_info, sensor_flow_info, sensor_pressure_info,
}
use blueberry_irrigation_sys.Link.{byte_at}
use blueberry_irrigation_sys.Link.Datagrams.{datagrams}
use blueberry_irrigation_sys.Link.Shown.{Report, Shows}
use blueberry_irrigation_sys.Link.Whole.{Arrives, updates}
use blueberry_irrigation_sys.Link.Regular.{requested, process_data-Shows}
use blueberry_irrigation_sys.Firmware.{Firmware}
use blueberry_irrigation_sys.Interface.Process.{process_data, process_command}
use blueberry_irrigation_sys.Tests.Link.{started, reporter}
use blueberry_irrigation_sys.Internet.{Internet, ready}

-- A request for all values waits.
abbrev asked : Firmware
asked = record reporter {
  internet = record reporter.internet {
    is_receive_wait = 1;
    packet = record reporter.internet.packet { data_bytes = λ j. 82; size = 1 };
  };
}

abbrev report : List (List ℕ)
report = reverse (take 4 (datagrams (process_data asked).internet.log))

-- A kernel that delivers these datagrams, one with each call of `recvfrom` by an update.
abbrev deliveries : List (List ℕ) → ℕ → Reception
deliveries [] k = nothing
deliveries (bytes ∷ rest) zero = datagram 7 8765 (length bytes) (λ j. byte_at j bytes)
deliveries (bytes ∷ rest) (suc zero) = nothing
deliveries (bytes ∷ rest) (suc (suc k)) = deliveries rest k

abbrev reader : Server
reader = started (record {
  socket = λ k. false;
  bind = λ k. false;
  sendto = λ k. false;
  recvfrom = deliveries report;
  gettimeofday = λ k. (k, 0);
  select = λ k. true;
  read = λ k. (1, 0);
})

reader-Arrives : Arrives 7 8765 report reader
unfolding process_data process_command info_all Net.send write_frame update receive receive_frame
    store device_frame receive_size receive_id receive_data copy_byte process_received_data
    device_info sensor_flow_frame sensor_flow_info sensor_pressure_frame sensor_pressure_info
reader-Arrives = (refl, (refl, (refl, (refl, tt))))

process_data-Shows_example :
    (length (datagrams (process_data asked).internet.log)
      ≡ length (datagrams asked.internet.log) + 4)
    × ((r : Report) → Shows r asked (updates 4 reader).irrigation_data)
process_data-Shows_example =
    process_data-Shows asked asked reader 7 8765 (requested refl refl refl)
      (record { status = refl; begins = λ n. refl; id = refl }) reader-Arrives
