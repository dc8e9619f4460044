-- ===== src/Link/Stop.antt =====
-- The order to stop, from the keyboard of the server to the relays.
use blueberry_irrigation_sys.Base.{List, ℕ, ◌+◌, ◌<◌, ◌≡◌, inl, inr, sym, subst, some, false}
use blueberry_irrigation_sys.World.{level}
use blueberry_irrigation_sys.Device.{relay_off}
use blueberry_irrigation_sys.Device.Relays.{pin_of}
use blueberry_irrigation_sys.SensorFlow.{Pulses}
use blueberry_irrigation_sys.ControlFlow.{Plant}
use blueberry_irrigation_sys.Irrigation.{force_stop}
use blueberry_irrigation_sys.Irrigation.Evolution.{force_stop-Moves}
use blueberry_irrigation_sys.Irrigation.Stop.{AllOff, force_stop-AllOff, AllOff-level}
use blueberry_irrigation_sys.Firmware.{Firmware, on_irrigation}
use blueberry_irrigation_sys.Interface.Process.{done}
use blueberry_irrigation_sys.Interface.Steady.{IsSteady, evolves}
use blueberry_irrigation_sys.InterfaceSerial
use blueberry_irrigation_sys.Main.{
  before_internet, before_interface, interface_update, led_switch, pulsed, loop,
}
use blueberry_irrigation_sys.Main.Safety.Round.{
  HasNoInput, before_interface-IsSteady, led_switch-IsSteady, pulsed-IsSteady, no_input-IsSteady,
  serial_update-quiet,
}
use blueberry_irrigation_sys.Server.{Server}
use blueberry_irrigation_sys.Server.Input.{user_input_process_data}
use blueberry_irrigation_sys.Link.Command.{Delivers, last_bytes}
use blueberry_irrigation_sys.Link.Order.{stop_program, size}
use blueberry_irrigation_sys.Link.Typing.{Typed, connection}
use blueberry_irrigation_sys.Link.Round.{polled, IsListening, interface_update-Typed}

-- The firmware is steady and no device is on.
record IsStopped (m : Firmware) : Type 0 where
  steady : IsSteady m
  off : AllOff m.board

force_stop-IsStopped : (m : Firmware) → IsSteady m → IsStopped (done (on_irrigation force_stop m))
force_stop-IsStopped m s = record {
  steady =
      evolves m (done (on_irrigation force_stop m)) (force_stop-Moves m.irrigation s.safe.planned)
        s;
  off = force_stop-AllOff m.irrigation;
}

serial_update-IsStopped :
    (m : Firmware) → HasNoInput m → IsStopped m → IsStopped (InterfaceSerial.update m)
serial_update-IsStopped m n s = record {
  steady = no_input-IsSteady m n s.steady;
  off = elim (serial_update-quiet m n) [
    | inl e ↦ subst (λ (p : Plant). AllOff p.board) (sym e) s.off
    | inr (inl e) ↦ subst (λ (p : Plant). AllOff p.board) (sym e) s.off
    | inr (inr e) ↦ subst (λ (p : Plant). AllOff p.board) (sym e) s.off
  ];
}

led_switch-IsStopped : (m : Firmware) → IsStopped m → IsStopped (led_switch m)
led_switch-IsStopped m s = record {
  steady = led_switch-IsSteady m s.steady;
  off = unfold led_switch in s.off;
}

pulsed-IsStopped : (pulses : List ℕ) (m : Firmware) → IsStopped m → IsStopped (pulsed pulses m)
pulsed-IsStopped pulses m s = record { steady = pulsed-IsSteady pulses m s.steady; off = s.off }

loop-IsStopped :
    (pulses : Pulses) (m : Firmware)
    → IsStopped (interface_update (before_interface pulses m))
    → IsStopped (loop pulses m)
unfolding loop
loop-IsStopped pulses m s =
    led_switch-IsStopped _ (pulsed-IsStopped (pulses 8) _ (led_switch-IsStopped _ s))

before_interface-HasNoInput :
    (pulses : Pulses) (m : Firmware) → HasNoInput m → HasNoInput (before_interface pulses m)
unfolding before_interface before_internet led_switch
before_interface-HasNoInput pulses m n = n

-- A stop that the user types at the server switches everything off: at the end of the round of the main
-- loop in which the server's datagram for it is taken, each of the fifteen devices is recorded as off and
-- its relay is driven to off, of the click pump the on coil. The sending has succeeded, the connection is
-- up, was heard from within 17 seconds and holds no request, nothing is typed at the serial port, and before
-- the round the flow control is wired as by its initialisation and the relays follow the devices.
pub loop-stops :
    (s u : Server) (pulses : Pulses) (m : Firmware) (i : ℕ)
    → Typed s stop_program u
    → u.kernel.sendto u.calls ≡ false
    → IsListening (connection (before_internet pulses m))
    → Delivers
        (polled (connection (before_internet pulses m)))
        (size stop_program + 4)
        (last_bytes (user_input_process_data s).sent)
    → HasNoInput m
    → IsSteady m
    → i < 15
    → (((loop pulses m).devices i).is_active ≡ 0)
      × (level (pin_of i) (loop pulses m).trace ≡ some relay_off)
loop-stops s u pulses m i typed ok listening d quiet steady below =
    let b = before_interface pulses m in
    let t = done (on_irrigation force_stop b) in
    let stopped : IsStopped t =
      force_stop-IsStopped b (before_interface-IsSteady pulses m steady) in
    let step : interface_update b ≡ InterfaceSerial.update t =
      interface_update-Typed s u stop_program pulses m typed ok listening d in
    let end : IsStopped (loop pulses m) = loop-IsStopped pulses m (
      subst IsStopped (sym step)
        (serial_update-IsStopped t (before_interface-HasNoInput pulses m quiet) stopped)) in
    (
      end.off i below,
      AllOff-level (loop pulses m).board i end.off end.steady.safe.sound.match below,
    )
