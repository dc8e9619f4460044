-- ===== src/Internet/Quiet.antt =====
-- What internet.cpp does to the pins: it writes to the reset line of the network chip only.
use blueberry_irrigation_sys.Base.{
  ℕ, zero, suc, ◌+◌, ◌≡◌, ◌⊎◌, inl, inr, refl, sym, subst, for_up, if_intro, arith, is_true, sub8,
  u8, if◌then◌else◌,
}
use blueberry_irrigation_sys.World.{
  World, called, perform, Effect, digital_write, pin_mode, input_pullup, output,
}
use blueberry_irrigation_sys.Device.{Board}
use blueberry_irrigation_sys.Device.Steps.{IsQuiet, Steps, here, read, performed}
use blueberry_irrigation_sys.Internet.{
  Internet, InternetStatus, uninitialized, restarting, initializing, ready, restart_hard,
  restart_soft, troubleshoot, connect, open_connection, ip_remote_update, diagnose, ticked, init,
  send, write_frame, tell, remote_ip, remote_port, parse_packet, stamp_receive, ask,
}
use blueberry_irrigation_sys.Internet as Net
use blueberry_irrigation_sys.Internet.Receive.{
  receive, receive_frame, receive_size, receive_id, receive_data, accept, store_byte, set_size,
}
use blueberry_irrigation_sys.Internet.Update.{
  release, ping, ping_if_due, poll, serve, watch, update_status, update,
}

-- The clock is read, or a call is made that writes to no relay's pin, any number of times.
pub data Quietly (v : World) : World → Type 0 where
  nothing : Quietly v v
  looked : {w : World} → Quietly v w → Quietly v (called w)
  called_on : {w : World} → Quietly v w → (e : Effect) → IsQuiet e → Quietly v (perform e w)

pub Quietly-trans : {u v w : World} → Quietly u v → Quietly v w → Quietly u w
Quietly-trans q nothing = q
Quietly-trans q (looked r) = looked (Quietly-trans q r)
Quietly-trans q (called_on r e h) = called_on (Quietly-trans q r) e h

-- The board has come to another world quietly.
pub Quietly-Steps : (b : Board) {w : World} → Quietly b.world w → Steps b (record b { world = w })
Quietly-Steps b nothing = here
Quietly-Steps b (looked q) = read (Quietly-Steps b q)
Quietly-Steps b (called_on q e h) = performed (Quietly-Steps b q) e h

abbrev pub IsQuietStep : (Internet → Internet) → Type 0
IsQuietStep f = (s : Internet) → Quietly s.world (f s).world

abbrev Q : Internet → Internet → Type 0
Q s t = Quietly s.world t.world

for_up_world : (count first : ℕ) (s : Internet) → (for_up count first store_byte s).world ≡ s.world
unfolding store_byte
for_up_world zero first s = refl
for_up_world (suc count) first s = for_up_world count (first + 1) (store_byte first s)

receive_data_world : (s : Internet) → (receive_data s).world ≡ s.world
unfolding receive_data accept
receive_data_world s = ground (arith, for_up_world s.packet.size 0 s)

receive_frame_world : (s : Internet) → (receive_frame s).world ≡ s.world
unfolding receive_frame receive_size receive_id
receive_frame_world s =
    let t = tell Net.read (set_size (sub8 s.packet.size 3) (tell Net.read s)) in
    let d = tell Net.read (set_size (sub8 t.packet.size 1) t) in
    ground (arith, receive_data_world d)

receive_world :
    (s : Internet) → ((receive s).world ≡ s.world) ⊎ ((receive s).world ≡ called s.world)
unfolding receive
receive_world s =
    ground (arith, receive_frame_world (stamp_receive (tell remote_port (tell remote_ip s))))

poll_world : (s : Internet) → ((poll s).world ≡ s.world) ⊎ ((poll s).world ≡ called s.world)
unfolding poll
poll_world s =
    ground (arith, receive_world (set_size (u8 (ask parse_packet s).0) (tell parse_packet s)))

pub send_world : (s : Internet) → (send s).world ≡ s.world
unfolding send write_frame
send_world s = ground arith

pub ip_remote_update_world : (s : Internet) → (ip_remote_update s).1.world ≡ s.world
unfolding ip_remote_update
ip_remote_update_world s = ground arith

restart_soft_world :
    (s : Internet)
    → ((restart_soft s).world ≡ called s.world) ⊎ ((restart_soft s).world ≡ called (called s.world))
unfolding restart_soft connect open_connection diagnose ip_remote_update
restart_soft_world s = ground arith

pub restart_soft-Quietly : IsQuietStep restart_soft
restart_soft-Quietly s = elim (restart_soft_world s) [
  | inl e ↦ subst (Quietly s.world) (sym e) (looked nothing)
  | inr e ↦ subst (Quietly s.world) (sym e) (looked (looked nothing))
]

pub init-Quietly : IsQuietStep init
unfolding init
init-Quietly s =
    Quietly-trans
      (called_on
        (called_on (called_on nothing (pin_mode 49 input_pullup) tt) (pin_mode 49 output) tt)
        (digital_write 49 1) (inr (omega arith)))
      (restart_soft-Quietly _)

pub restart_hard-Quietly : IsQuietStep restart_hard
unfolding restart_hard
restart_hard-Quietly s = looked (called_on nothing (digital_write 49 0) (inr (omega arith)))

ping_if_due_world :
    (s : Internet)
    → ((ping_if_due s).world ≡ called s.world) ⊎ ((ping_if_due s).world ≡ called (called s.world))
unfolding ping_if_due ping send write_frame
ping_if_due_world s = ground arith

ping_if_due-Quietly : IsQuietStep ping_if_due
ping_if_due-Quietly s = elim (ping_if_due_world s) [
  | inl e ↦ subst (Quietly s.world) (sym e) (looked nothing)
  | inr e ↦ subst (Quietly s.world) (sym e) (looked (looked nothing))
]

poll-Quietly : IsQuietStep poll
poll-Quietly s = elim (poll_world s) [
  | inl e ↦ subst (Quietly s.world) (sym e) nothing
  | inr e ↦ subst (Quietly s.world) (sym e) (looked nothing)
]

serve-Quietly : IsQuietStep serve
unfolding serve
serve-Quietly s =
    let busy : Q s (poll (ping_if_due s)) =
      Quietly-trans (ping_if_due-Quietly s) (poll-Quietly (ping_if_due s)) in
    let waits : Q s (if is_true s.is_receive_wait then s else poll (ping_if_due s)) =
      if_intro (Q s) (is_true s.is_receive_wait) {x = s} {y = poll (ping_if_due s)} nothing busy in
    elim s.status
      as (λ st. Q s (elim st [
        | uninitialized ↦ s
        | _ ↦ if is_true s.is_receive_wait then s else poll (ping_if_due s)
      ])) [ uninitialized ↦ nothing | restarting ↦ waits | initializing ↦ waits | ready ↦ waits ]

watch-Quietly : IsQuietStep watch
unfolding watch troubleshoot
watch-Quietly s =
    if_intro (Q s) _ {x = restart_hard (ticked s)} {y = serve (ticked s)}
      (Quietly-trans (looked nothing) (restart_hard-Quietly (ticked s)))
      (Quietly-trans (looked nothing) (serve-Quietly (ticked s)))

update_status-Quietly : (st : InternetStatus) → IsQuietStep (update_status st)
unfolding update_status
update_status-Quietly restarting s =
    if_intro (Q s) _ {x = ticked s} {y = release (ticked s)} (looked nothing) (
      unfold release in
      looked (called_on (looked nothing) (digital_write 49 1) (inr (omega arith))))
update_status-Quietly initializing s =
    if_intro (Q s) _ {x = ticked s} {y = restart_soft (ticked s)} (looked nothing)
      (Quietly-trans (looked nothing) (restart_soft-Quietly (ticked s)))
update_status-Quietly uninitialized s = watch-Quietly s
update_status-Quietly ready s = watch-Quietly s

pub update-Quietly : IsQuietStep update
unfolding update
update-Quietly s = update_status-Quietly s.status s
