-- ===== src/Main/Stuck.antt =====
-- A request for all values with a wrong size, in the main loop.
use blueberry_irrigation_sys.Base.{
  ℕ, ◌≡◌, ◌≢◌, List, [], ◌∷◌, refl, sym, subst, ap, ◌∙◌, true, if_intro, is_true, Array, arith,
}
use blueberry_irrigation_sys.Internet.{
  Internet, InternetStatus, uninitialized, restarting, initializing, ready, restart_hard,
  restart_soft, troubleshoot, connect, open_connection, ip_remote_update, diagnose, ticked,
}
use blueberry_irrigation_sys.Internet.Update.{release, serve, watch, update_status, update}
use blueberry_irrigation_sys.Firmware.{Firmware, Serial, Port}
use blueberry_irrigation_sys.Interface.Process.{process_data, process_command}
use blueberry_irrigation_sys.InterfaceSerial.{user_input, flow_print}
use blueberry_irrigation_sys.InterfaceSerial
use blueberry_irrigation_sys.SensorFlow.{Pulses}
use blueberry_irrigation_sys.Main.{
  led_switch, interface_update, before_internet, before_interface, loop, loops,
}

-- The request waits.
pub record IsStuck (i : Internet) : Type 0 where
  pub waits : is_true i.is_receive_wait ≡ true
  pub command : i.packet.data_bytes 0 ≡ 82
  pub size : i.packet.size ≢ 1

-- The waiting packet is that of `i`, but for its address.
pub record Holds (i j : Internet) : Type 0 where
  pub waits : j.is_receive_wait ≡ i.is_receive_wait
  pub bytes : j.packet.data_bytes ≡ i.packet.data_bytes
  pub size : j.packet.size ≡ i.packet.size

Holds-IsStuck : (i j : Internet) → Holds i j → IsStuck i → IsStuck j
Holds-IsStuck i j h s = record {
  waits = ap is_true h.waits ∙ s.waits;
  command = ap (λ (b : Array ℕ). b 0) h.bytes ∙ s.command;
  size = λ e. s.size (sym h.size ∙ e);
}

restart_soft-Holds : (i : Internet) → Holds i (restart_soft i)
unfolding restart_soft connect open_connection ip_remote_update diagnose
restart_soft-Holds i = record { waits = ground arith; bytes = ground arith; size = ground arith }

watch-Holds : (i : Internet) → is_true i.is_receive_wait ≡ true → Holds i (watch i)
unfolding watch troubleshoot restart_hard serve
watch-Holds i w = record { waits = ground arith; bytes = ground arith; size = ground arith }

update_status-Holds :
    (st : InternetStatus) (i : Internet)
    → is_true i.is_receive_wait ≡ true
    → Holds i (update_status st i)
unfolding update_status
update_status-Holds restarting i w =
    if_intro (Holds i) _ {x = ticked i} {y = release (ticked i)}
      (record { waits = refl; bytes = refl; size = refl })
      (unfold release in record { waits = refl; bytes = refl; size = refl })
update_status-Holds initializing i w =
    if_intro (Holds i) _ {x = ticked i} {y = restart_soft (ticked i)}
      (record { waits = refl; bytes = refl; size = refl })
      (let h = restart_soft-Holds (ticked i) in
        record { waits = h.waits; bytes = h.bytes; size = h.size })
update_status-Holds uninitialized i w = watch-Holds i w
update_status-Holds ready i w = watch-Holds i w

-- The step of the connection leaves a waiting packet as it is, a restart included.
update-Holds : (i : Internet) → is_true i.is_receive_wait ≡ true → Holds i (update i)
unfolding update
update-Holds i w = update_status-Holds i.status i w

-- The serial port has no input.
abbrev pub IsSilent : Firmware → Type 0
IsSilent m = (k : ℕ) → m.serial.port.available k ≡ 0

process_data_held : (m : Firmware) → IsStuck m.internet → process_data m ≡ m
unfolding process_data process_command
process_data_held m s = ground (arith, s.waits, s.command, s.size)

serial_update-silent :
    (m : Firmware)
    → IsSilent m
    → ((InterfaceSerial.update m).internet ≡ m.internet)
      × ((InterfaceSerial.update m).serial.port ≡ m.serial.port)
unfolding InterfaceSerial.update user_input flow_print
serial_update-silent m silent = ground (arith, silent m.serial.asked)

before_interface-Holds :
    (pulses : Pulses) (m : Firmware)
    → is_true m.internet.is_receive_wait ≡ true
    → Holds m.internet (before_interface pulses m).internet
unfolding before_interface before_internet led_switch
before_interface-Holds pulses m w =
    let h = update-Holds _ w in record { waits = h.waits; bytes = h.bytes; size = h.size }

before_interface_port :
    (pulses : Pulses) (m : Firmware) → (before_interface pulses m).serial ≡ m.serial
unfolding before_interface before_internet led_switch
before_interface_port pulses m = refl

interface_update_held :
    (m : Firmware)
    → IsSilent m
    → IsStuck m.internet
    → ((interface_update m).internet ≡ m.internet)
      × ((interface_update m).serial.port ≡ m.serial.port)
unfolding interface_update
interface_update_held m silent s = rw (process_data_held m s) (serial_update-silent m silent)

loop-IsStuck :
    (pulses : Pulses) (m : Firmware)
    → IsSilent m
    → IsStuck m.internet
    → IsStuck (loop pulses m).internet × ((loop pulses m).serial.port ≡ m.serial.port)
unfolding loop led_switch
loop-IsStuck pulses m silent s =
    let b = before_interface pulses m in
    let held : IsStuck b.internet =
      Holds-IsStuck m.internet b.internet (before_interface-Holds pulses m s.waits) s in
    let port : b.serial ≡ m.serial = before_interface_port pulses m in
    let quiet : IsSilent b = λ k. ap (λ (x : Serial). x.port.available k) port ∙ silent k in
    let e = interface_update_held b quiet held in
    (subst IsStuck (sym e.0) held, e.1 ∙ ap (λ (x : Serial). x.port) port)

-- A request for all values with a wrong size is never dropped: after any number of rounds of the main
-- loop, restarts of the connection included, `internet_is_receive_wait` is still set, the command is
-- still that request, and the size is still not 1. The serial port is silent meanwhile, and interrupts
-- of the flow sensors may come before each step of a round.
pub loops-IsStuck :
    (rounds : List Pulses) (m : Firmware)
    → IsSilent m
    → IsStuck m.internet
    → IsStuck (loops rounds m).internet
unfolding loops
loops-IsStuck [] m silent s = s
loops-IsStuck (pulses ∷ rest) m silent s =
    let l = loop-IsStuck pulses m silent s in
    loops-IsStuck rest (loop pulses m) (λ k. ap (λ (x : Port). x.available k) l.1 ∙ silent k) l.0
