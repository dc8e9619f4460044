-- ===== src/Main/Safety/Round.antt =====
-- The relays through a round of the main loop (arduino_client/src/main.cpp).
use blueberry_irrigation_sys.Base.{
  ℕ, ◌≡◌, ◌≢◌, false, is_true, u8, ◌⊎◌, inl, inr, refl, sym, subst, List, [], ◌∷◌, arith,
}
use blueberry_irrigation_sys.World.{digital_write}
use blueberry_irrigation_sys.Device.{Board, on_world, relay}
use blueberry_irrigation_sys.Device
use blueberry_irrigation_sys.Device.Steps.{here, updated, performed}
use blueberry_irrigation_sys.ControlFlow.{Plant, sensor_flow_update, sensor_pressure_update}
use blueberry_irrigation_sys.ControlFlow
use blueberry_irrigation_sys.ControlFlow.Evolution.{update-Evolves}
use blueberry_irrigation_sys.ControlFlow.Wiring.{Evolves, IsSafe}
use blueberry_irrigation_sys.Irrigation
use blueberry_irrigation_sys.Internet
use blueberry_irrigation_sys.Irrigation.{
  Irrigation, start, force_stop, resume, faulty_detection_toggle,
}
use blueberry_irrigation_sys.Irrigation.Evolution.Phases.{update-Moves}
use blueberry_irrigation_sys.Irrigation.Run.{
  sensor_flow_update-Evolves, sensor_pressure_update-Evolves,
}
use blueberry_irrigation_sys.Internet.{Internet, ask, parse_packet}
use blueberry_irrigation_sys.Internet.Update.{ping_if_due}
use blueberry_irrigation_sys.Internet.Quiet.{update-Quietly}
use blueberry_irrigation_sys.Firmware.{Firmware, on_irrigation, on_the_plant, on_the_board, ticked}
use blueberry_irrigation_sys.Interface.Process.{process_data}
use blueberry_irrigation_sys.InterfaceSerial.{user_input, flow_print}
use blueberry_irrigation_sys.InterfaceSerial
use blueberry_irrigation_sys.SensorFlow.{Pulses}
use blueberry_irrigation_sys.Main.{
  led_switch, interface_update, before_internet, before_interface, loop, loops, pulsed,
}
use blueberry_irrigation_sys.Interface.Steady.{
  IsSteady, Keeps, evolves, stepped, on_internet-IsSteady,
}
use blueberry_irrigation_sys.InterfaceSerial.Safety.{TypedInRange, update-IsSteady}
use blueberry_irrigation_sys.Interface.Safety.{InRange, ticked-IsSteady, process_data-IsSteady}

pub led_switch-IsSteady : Keeps led_switch
unfolding led_switch
led_switch-IsSteady m s =
    let t = led_switch m in
    evolves m t
      (record {
        steps = performed here (digital_write 13 _) (inl (omega arith));
        device = λ i. refl;
        sensor = λ i. refl;
      })
      s

plant-IsSteady :
    (f : Plant → Plant) (m : Firmware)
    → Evolves m.plant (f m.plant)
    → IsSteady m
    → IsSteady (on_the_plant f m)
plant-IsSteady f m e s = evolves m (on_the_plant f m) e s

pub pulsed-IsSteady : (pulses : List ℕ) → Keeps (pulsed pulses)
pulsed-IsSteady pulses m s =
    evolves m (pulsed pulses m) (record { steps = here; device = λ i. refl; sensor = λ i. refl }) s

pub before_interface-IsSteady : (pulses : Pulses) → Keeps (before_interface pulses)
unfolding before_interface before_internet
before_interface-IsSteady pulses m0 s0 =
    let n0 = pulsed (pulses 0) m0 in
    let m1 = led_switch (on_the_board Device.update n0) in
    let n1 = pulsed (pulses 1) m1 in
    let m2 = led_switch (on_the_plant sensor_flow_update n1) in
    let n2 = pulsed (pulses 2) m2 in
    let m3 = led_switch (on_the_plant sensor_pressure_update n2) in
    let n3 = pulsed (pulses 3) m3 in
    let m4 = led_switch (on_the_plant ControlFlow.Update.update n3) in
    let m5 = led_switch (pulsed (pulses 4) m4) in
    let n5 = pulsed (pulses 5) m5 in
    let m6 = led_switch (on_irrigation Irrigation.Update.update n5) in
    let t0 : IsSteady n0 = pulsed-IsSteady (pulses 0) m0 s0 in
    let t1 : IsSteady n1 =
      pulsed-IsSteady (pulses 1) m1
        (led_switch-IsSteady _ (stepped n0 (Device.update n0.board) (updated here) t0)) in
    let t2 : IsSteady n2 = pulsed-IsSteady (pulses 2) m2 (
      led_switch-IsSteady _
        (plant-IsSteady sensor_flow_update n1 (sensor_flow_update-Evolves n1.plant) t1)) in
    let t3 : IsSteady n3 = pulsed-IsSteady (pulses 3) m3 (
      led_switch-IsSteady _
        (plant-IsSteady sensor_pressure_update n2 (sensor_pressure_update-Evolves n2.plant) t2)) in
    let s4 : IsSteady m4 =
      led_switch-IsSteady _ (
        plant-IsSteady ControlFlow.Update.update n3 (update-Evolves n3.plant t3.safe.planned) t3) in
    let t5 : IsSteady n5 =
      pulsed-IsSteady (pulses 5) m5 (led_switch-IsSteady _ (pulsed-IsSteady (pulses 4) m4 s4)) in
    let t6 : IsSteady (pulsed (pulses 6) m6) = pulsed-IsSteady (pulses 6) m6 (
      led_switch-IsSteady _ (
        evolves n5 (on_irrigation Irrigation.Update.update n5)
          (update-Moves n5.irrigation t5.safe.planned) t5)) in
    pulsed-IsSteady (pulses 7) _
      (led_switch-IsSteady _ (on_internet-IsSteady Internet.Update.update update-Quietly _ t6))

-- No input waits at the serial port.
abbrev pub HasNoInput : Firmware → Type 0
HasNoInput m = m.serial.port.available m.serial.asked ≡ 0

pub serial_update-quiet :
    (m : Firmware)
    → HasNoInput m
    → ((InterfaceSerial.update m).plant ≡ m.plant)
      ⊎ (((InterfaceSerial.update m).plant ≡ (ticked m).plant)
          ⊎ ((InterfaceSerial.update m).plant ≡ (ticked (ticked m)).plant))
unfolding InterfaceSerial.update user_input flow_print
serial_update-quiet m none_there = ground (arith, none_there)

pub no_input-IsSteady :
    (m : Firmware) → HasNoInput m → IsSteady m → IsSteady (InterfaceSerial.update m)
no_input-IsSteady m n s = elim (serial_update-quiet m n) [
  | inl e ↦ record { safe = subst IsSafe (sym e) s.safe }
  | inr (inl e) ↦ record { safe = subst IsSafe (sym e) (ticked-IsSteady m s).safe }
  | inr (inr e) ↦ record {
    safe = subst IsSafe (sym e) (ticked-IsSteady (ticked m) (ticked-IsSteady m s)).safe;
  }
]

serial_update-IsSteady :
    (m : Firmware)
    → HasNoInput m ⊎ TypedInRange m
    → IsSteady m
    → IsSteady (InterfaceSerial.update m)
serial_update-IsSteady m (inl n) s = no_input-IsSteady m n s
serial_update-IsSteady m (inr r) s = update-IsSteady m r s

-- The size of the datagram that the connection asks for, on 8 bits.
abbrev pub datagram_size : Internet → ℕ
datagram_size i = u8 (ask parse_packet (ping_if_due (Internet.ticked i))).0

-- What a round of the main loop is given leads to no write outside an array: no datagram that is taken
-- has three bytes (counted on 8 bits), and the indices and numbers of a request and of what is typed in are in range.
pub record IsHarmless (pulses : Pulses) (m : Firmware) : Type 0 where
  pub framed :
      (before_internet pulses m).internet.status ≢ Internet.uninitialized
      → is_true (before_internet pulses m).internet.is_receive_wait ≡ false
      → datagram_size (before_internet pulses m).internet ≢ 3
  pub range : InRange (before_interface pulses m)
  pub typed :
      HasNoInput (process_data (before_interface pulses m))
      ⊎ TypedInRange (process_data (before_interface pulses m))

loop-IsSteady :
    (pulses : Pulses) (m : Firmware) → IsHarmless pulses m → IsSteady m → IsSteady (loop pulses m)
unfolding loop interface_update
loop-IsSteady pulses m h s =
    let b = before_interface pulses m in
    led_switch-IsSteady _ (
      pulsed-IsSteady (pulses 8) _ (
        led_switch-IsSteady _ (
          serial_update-IsSteady (process_data b) h.typed
            (process_data-IsSteady b h.range (before_interface-IsSteady pulses m s)))))

-- Each of the rounds is given that.
abbrev pub AllHarmless : List Pulses → Firmware → Type 0
AllHarmless [] m = Unit
AllHarmless (pulses ∷ rest) m = IsHarmless pulses m × AllHarmless rest (loop pulses m)

pub loops-IsSteady :
    (rounds : List Pulses) (m : Firmware)
    → AllHarmless rounds m
    → IsSteady m
    → IsSteady (loops rounds m)
unfolding loops
loops-IsSteady [] m h s = s
loops-IsSteady (pulses ∷ rest) m (h, later) s =
    loops-IsSteady rest (loop pulses m) later (loop-IsSteady pulses m h s)
