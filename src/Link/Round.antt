-- ===== src/Link/Round.antt =====
-- An order of the user in a round of the main loop (arduino_client/src/main.cpp).
use blueberry_irrigation_sys.Base.{
  ◌+◌, ◌<◌, ◌≤◌, ◌≡◌, refl, false, u8, sub32, leb, true, is_true, ap, ◌∙◌, arith,
}
use blueberry_irrigation_sys.World.{now}
use blueberry_irrigation_sys.SensorFlow.{Pulses}
use blueberry_irrigation_sys.Internet.{Internet, ready, ask, parse_packet, ticked}
use blueberry_irrigation_sys.Internet.Receive.{receive, set_size}
use blueberry_irrigation_sys.Internet.Update.{
  update, update_status, watch, serve, poll, ping_if_due,
}
use blueberry_irrigation_sys.Firmware.{Firmware}
use blueberry_irrigation_sys.Interface.Process.{done}
use blueberry_irrigation_sys.InterfaceSerial
use blueberry_irrigation_sys.Main.{before_internet, before_interface, interface_update, led_switch}
use blueberry_irrigation_sys.Server.{Server}
use blueberry_irrigation_sys.Server.Input.{user_input_process_data}
use blueberry_irrigation_sys.Link.Command.{Delivers, last_bytes}
use blueberry_irrigation_sys.Link.Order.{Order, meaning, size}
use blueberry_irrigation_sys.Link.Typing.{Typed, connection, receive-Typed, process_data-order}

-- The connection when it has asked for a datagram: the ping, if one was due, has been sent.
abbrev pub polled : Internet → Internet
polled i = let (parsed, t) = ask parse_packet (ping_if_due (ticked i)) in set_size (u8 parsed) t

-- The connection is up, was heard from within 17 seconds, and holds no request.
pub record IsListening (i : Internet) : Type 0 where
  pub status : i.status ≡ ready
  pub heard : sub32 (now i.world) i.time_receive_last < 17000
  pub free : i.is_receive_wait ≡ 0

serve-ready :
    (i : Internet)
    → i.status ≡ ready
    → is_true i.is_receive_wait ≡ false
    → serve i ≡ poll (ping_if_due i)
unfolding serve
serve-ready i up free = ground (arith, up, free)

poll-receive :
    (i : Internet)
    → let (parsed, t) = ask parse_packet i in
      is_true (u8 parsed) ≡ true → poll i ≡ receive (set_size (u8 parsed) t)
unfolding poll
poll-receive i there = simp there refl

watch-heard :
    (i : Internet)
    → leb 17000 (sub32 (now i.world) i.time_receive_last) ≡ false
    → watch i ≡ serve (ticked i)
unfolding watch
watch-heard i heard = simp heard refl

-- The step of the connection takes a datagram that is there.
update-polled :
    (i : Internet) → IsListening i → 1 ≤ (polled i).packet.size → update i ≡ receive (polled i)
unfolding update update_status
update-polled i l there =
    ap (λ x. update_status x i) l.status
    ∙ watch-heard i (ground (arith, l.heard))
    ∙ serve-ready (ticked i) l.status (ap is_true l.free)
    ∙ poll-receive (ping_if_due (ticked i)) (ground (arith, there))

-- A round of the main loop carries out what the user typed: where the server's datagram for the order is
-- there when the step of the connection asks for one, the step of the interfaces in the same round begins
-- with the operation that the order means, whatever the steps before it have done, and goes on with that
-- of the serial port. The sending has succeeded, and the connection is up, was heard from within 17
-- seconds and holds no request.
pub interface_update-Typed :
    (s u : Server) (o : Order) (pulses : Pulses) (m : Firmware)
    → Typed s o u
    → u.kernel.sendto u.calls ≡ false
    → IsListening (connection (before_internet pulses m))
    → Delivers
        (polled (connection (before_internet pulses m)))
        (size o + 4)
        (last_bytes (user_input_process_data s).sent)
    → let t = before_interface pulses m in
      interface_update t ≡ InterfaceSerial.update (done (meaning o t))
unfolding before_interface interface_update led_switch
interface_update-Typed s u o pulses m typed ok listening d =
    let i = connection (before_internet pulses m) in
    let step : update i ≡ receive (polled i) = update-polled i listening (omega (arith, d.size)) in
    let t = before_interface pulses m in
    let (wait, n, at) = receive-Typed s u o (polled i) typed ok d in
    ap InterfaceSerial.update (
      process_data-order o u t (ap (λ (j : Internet). j.is_receive_wait) step ∙ wait) (
        ap (λ (j : Internet). j.packet.size) step ∙ n,
        λ j h. ap (λ (x : Internet). x.packet.data_bytes j) step ∙ at j h,
      ))
