-- ===== src/Tests/Link.antt =====
-- The theorems on the server, and on the two ends together, at concrete inputs.
use blueberry_irrigation_sys.Base.{
  ℕ, ◌+◌, ◌-◌, ◌<◌, ◌≡◌, ◌↔◌, true, false, refl, [], Array, arith, ◌==◌, if◌then◌else◌,
}
use blueberry_irrigation_sys.Internet.Receive.{receive}
use blueberry_irrigation_sys.Firmware.{Firmware, on_internet}
use blueberry_irrigation_sys.Interface.Process.{process_data, done}
use blueberry_irrigation_sys.Server.{Server, Kernel, Reception, nothing, datagram}
use blueberry_irrigation_sys.Server.Receive as ServerReceive
use blueberry_irrigation_sys.Server.Frames.{IsFrame, receive-accepts}
use blueberry_irrigation_sys.Server.Process.{update}
use blueberry_irrigation_sys.Server.Input.{
  user_input_process_data, user_input_get, serial_number_read, add_digits_16, read_digits,
}
use blueberry_irrigation_sys.Link.{byte_at, sent}
use blueberry_irrigation_sys.Link.Shown.{devices, frame, reporting, Shows}
use blueberry_irrigation_sys.Link.Report.{update-Shows}
use blueberry_irrigation_sys.Link.Command.{last_bytes}
use blueberry_irrigation_sys.Link.Order.{toggle_device, meaning}
use blueberry_irrigation_sys.Link.Typing.{typed_toggle, process_data-Typed}
use blueberry_irrigation_sys.Tests.Network.{connected}
use blueberry_irrigation_sys.Tests.Whole.{station, silent_port}

-- A server that has just started.
abbrev pub started : Kernel → Server
started kernel = record {
  kernel = kernel;
  calls = 0;
  sent = [];
  packet = record { ip = 9000; port = 8765; id = 0; data_bytes = λ j. 0; size = 0 };
  buffer = λ j. 0;
  client_ip = 0;
  client_port = 0;
  time_received_last = 0;
  irrigation_data = record {
    device_array = λ i. 0;
    sensor_flow_array = λ i. record { pulses_per_liter = 0; pulses_total = 0 };
    sensor_pressure_array = λ i. 0;
    program_current = 0;
    program = 0;
    status = 0;
    is_cleaning = 0;
    is_stopped = 0;
    deliver_volume = 0;
    deliver_time = 0;
    time_generator_wait = 0;
    time_program_duration = 0;
    time_cleaning_group3_duration = 0;
    time_cleaning_group12_duration = 0;
    time_program_start = 0;
    time_program_stop = 0;
    time_generator_start = 0;
    time_current = 0;
    is_faulty_detection_active = 0;
  };
  is_print = 0;
  time_print_last = 0;
  received_time_ago = 0;
  is_dead = 0;
  is_overrun = 0;
}

-- A kernel that has a datagram, and then characters.
abbrev pub kernel_with : Reception → (ℕ → ℕ) → Kernel
kernel_with reception characters = record {
  socket = λ k. false;
  bind = λ k. false;
  sendto = λ k. false;
  recvfrom = λ k. reception;
  gettimeofday = λ k. (k, 0);
  select = λ k. true;
  read = λ k. (1, characters k);
}

-- A ping of the firmware.
abbrev ping_bytes : Array ℕ
ping_bytes j =
    if j == 0
    then 2
    else if j == 1
    then 3
    else if j == 2
    then 160
    else if j == 3
    then 211
    else if j == 4
    then 10
    else 4

abbrev pinged : Server
pinged = started (kernel_with (datagram 7 8765 6 ping_bytes) (λ k. 0))

receive-accepts_example :
    (((ServerReceive.receive pinged).0 ≡ true) ↔ IsFrame 2 ping_bytes)
    × (IsFrame 2 ping_bytes
        → ((ServerReceive.receive pinged).1.packet.size ≡ 2)
          × ((j : ℕ)
              → j < 2
              → (ServerReceive.receive pinged).1.packet.data_bytes j ≡ ping_bytes (3 + j))
          × ((ServerReceive.receive pinged).1.irrigation_data ≡ pinged.irrigation_data)
          × ((ServerReceive.receive pinged).1.is_overrun ≡ pinged.is_overrun))
receive-accepts_example =
    receive-accepts pinged 7 8765 2 ping_bytes (omega arith) (omega arith) refl

-- The firmware reports its devices.
abbrev pub reporter : Firmware
reporter =
    let i = connected 3 6 0 in
    station (record i { library = record i.library { result = λ k. 1 } }) silent_port

abbrev told : Server
told = started (
    kernel_with
      (datagram 7 8765 ((frame devices reporter).1 + 4) (sent (reporting devices reporter)))
      (λ k. 0))

update-Shows_example : Shows devices reporter (update told).irrigation_data
update-Shows_example =
    update-Shows devices reporter told 7 8765 (record { status = refl; begun = refl; id = refl })
      refl

-- `d3 1`: the fourth device is switched on.
abbrev characters : ℕ → ℕ
characters k = if k == 1 then b'd' else if k == 2 then b'3' else if k == 3 then b' ' else b'1'

abbrev pub typist : Server
typist = started (kernel_with nothing characters)

abbrev pub replies_with : ℕ → ℕ
replies_with k =
    if k == 0
    then 9000
    else if k == 1
    then 5432
    else byte_at (k - 2) (last_bytes (user_input_process_data typist).sent)

abbrev listener : Firmware
listener =
    let i = connected 3 7 0 in
    station (record i { library = record i.library { result = replies_with } }) silent_port

process_data-Typed_example :
    process_data (on_internet receive listener)
    ≡ done (meaning (toggle_device 3 1) (on_internet receive listener))
unfolding user_input_get serial_number_read add_digits_16 read_digits
process_data-Typed_example =
    process_data-Typed typist _ (toggle_device 3 1) listener
      (typed_toggle typist _ _ _ 3 b'1' (refl, refl) refl refl) refl
      (record { from = refl; port = refl; size = refl; byte = λ j h. ground arith; idle = refl })
