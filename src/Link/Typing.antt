-- ===== src/Link/Typing.antt =====
-- From the keyboard to the plant: what a user types into linux_server/src/main.c, and what the
-- firmware does when the packet arrives.
use blueberry_irrigation_sys.Base.{
  ℕ, ◌+◌, ◌-◌, ◌^◌, ◌≤◌, ◌<◌, ◌≡◌, ◌∙◌, refl, true, false, u8, subst, set_at, arith,
}
use blueberry_irrigation_sys.Internet.{Internet}
use blueberry_irrigation_sys.Internet.Receive.{receive}
use blueberry_irrigation_sys.Firmware.{Firmware, on_internet}
use blueberry_irrigation_sys.Interface.Process.{process_data, process_command, done}
use blueberry_irrigation_sys.Server.{Server, asked}
use blueberry_irrigation_sys.Server.Input.{
  send_command, user_input_get, serial_number_read, serial_number_read_32, user_input_process_data,
  send_toggle, send_start, send_half, send_word, send_flag, control,
}
use blueberry_irrigation_sys.Link.Command.{Delivers, last_bytes, receive-send}
use blueberry_irrigation_sys.Link.Order.{
  Order, toggle_device, start_program, stop_program, resume_program, reset_board, set_volume,
  set_time, set_duration, set_report, set_detection, command, rest, size, meaning,
  process_command-order, Holds,
}

-- `user_input_get() - 48` on a uint8_t.
abbrev pub digit_of : ℕ → ℕ
digit_of x = u8 (x + 2 ^ 32 - 48)

-- Input is there, and its first character is this one.
abbrev pub Chooses : Server → ℕ → Server → Type 0
Chooses s c t = (s.kernel.select s.calls ≡ true) × (user_input_get (asked s) ≡ (c, t))

-- The same for the two characters of the control menu.
abbrev pub Controls : Server → ℕ → Server → Type 0
Controls s c u = (t : Server) × Chooses s b'c' t × (user_input_get t ≡ (c, u))

-- The user types an order, and the server goes on from the second state to send it.
pub data Typed : Server → Order → Server → Type 0 where
  typed_reset : (s t : Server) → Chooses s b'r' t → Typed s reset_board t
  typed_toggle :
      (s t u v : Server) (index x : ℕ)
      → Chooses s b'd' t
      → serial_number_read t ≡ (index, u)
      → user_input_get u ≡ (x, v)
      → Typed s (toggle_device (u8 index) (digit_of x)) v
  typed_start :
      (s t u v : Server) (x y : ℕ)
      → Controls s b'a' t
      → user_input_get t ≡ (x, u)
      → user_input_get u ≡ (y, v)
      → Typed s (start_program (digit_of x) (digit_of y)) v
  typed_stop : (s t : Server) → Controls s b's' t → Typed s stop_program t
  typed_resume : (s t : Server) → Controls s b'r' t → Typed s resume_program t
  typed_volume :
      (s t u : Server) (value : ℕ)
      → Controls s b'v' t
      → serial_number_read t ≡ (value, u)
      → Typed s (set_volume value) u
  typed_time :
      (s t u : Server) (value : ℕ)
      → Controls s b't' t
      → serial_number_read t ≡ (value, u)
      → Typed s (set_time value) u
  typed_duration :
      (s t u : Server) (value : ℕ)
      → Controls s b'd' t
      → serial_number_read_32 t ≡ (value, u)
      → Typed s (set_duration value) u
  typed_report :
      (s t u : Server) (x : ℕ)
      → Controls s b'p' t
      → user_input_get t ≡ (x, u)
      → Typed s (set_report (digit_of x)) u
  typed_detection :
      (s t u : Server) (x : ℕ)
      → Controls s b'f' t
      → user_input_get t ≡ (x, u)
      → Typed s (set_detection (digit_of x)) u

-- The packet for the order is sent.
abbrev pub send_order : Order → Server → Server
send_order o = send_command (command o) (rest o) (size o)

user_input-order :
    (s : Server) (o : Order) (u : Server) → Typed s o u → user_input_process_data s ≡ send_order o u
unfolding user_input_process_data control send_toggle send_start send_half send_word send_flag
user_input-order _ _ _ (typed_reset s t (a, c)) = simp (a, c) refl
user_input-order _ _ _ (typed_toggle s t u v index x (a, c) n d) = simp (a, c, n, d) refl
user_input-order _ _ _ (typed_start s t u v x y (t', (a, c), e) n d) = simp (a, c, e, n, d) refl
user_input-order _ _ _ (typed_stop s t (t', (a, c), e)) = simp (a, c, e) refl
user_input-order _ _ _ (typed_resume s t (t', (a, c), e)) = simp (a, c, e) refl
user_input-order _ _ _ (typed_volume s t u value (t', (a, c), e) n) = simp (a, c, e, n) refl
user_input-order _ _ _ (typed_time s t u value (t', (a, c), e) n) = simp (a, c, e, n) refl
user_input-order _ _ _ (typed_duration s t u value (t', (a, c), e) n) = simp (a, c, e, n) refl
user_input-order _ _ _ (typed_report s t u x (t', (a, c), e) n) = simp (a, c, e, n) refl
user_input-order _ _ _ (typed_detection s t u x (t', (a, c), e) n) = simp (a, c, e, n) refl

size-bounds : (o : Order) → (1 ≤ size o) × (size o ≤ 64)
size-bounds (toggle_device i a) = (omega arith, omega arith)
size-bounds (start_program p c) = (omega arith, omega arith)
size-bounds stop_program = (omega arith, omega arith)
size-bounds resume_program = (omega arith, omega arith)
size-bounds reset_board = (omega arith, omega arith)
size-bounds (set_volume v) = (omega arith, omega arith)
size-bounds (set_time v) = (omega arith, omega arith)
size-bounds (set_duration v) = (omega arith, omega arith)
size-bounds (set_report v) = (omega arith, omega arith)
size-bounds (set_detection v) = (omega arith, omega arith)

-- The connection as the functions of internet.cpp get it.
abbrev pub connection : Firmware → Internet
connection m = record m.internet { world = m.world }

-- The firmware receives the order that the user typed.
pub receive-Typed :
    (s u : Server) (o : Order) (i : Internet)
    → Typed s o u
    → u.kernel.sendto u.calls ≡ false
    → Delivers i (size o + 4) (last_bytes (user_input_process_data s).sent)
    → ((receive i).is_receive_wait ≡ 1)
      × ((receive i).packet.size ≡ size o)
      × ((j : ℕ)
          → j < size o
          → (receive i).packet.data_bytes j
            ≡ u8 (rest o (set_at u.packet.data_bytes 0 (command o)) j))
receive-Typed s u o i typed ok d =
    let p : Server = record u {
      packet = record u.packet {
        data_bytes = rest o (set_at u.packet.data_bytes 0 (command o));
        size = size o;
      };
    } in
    let delivered =
      subst (λ v. Delivers i (size o + 4) (last_bytes v.sent)) (user_input-order s o u typed) d in
    let (low, high) = size-bounds o in receive-send p i low high ok delivered

-- A waiting order is carried out.
pub process_data-order :
    (o : Order) (u : Server) (t : Firmware)
    → t.internet.is_receive_wait ≡ 1
    → Holds o u t
    → process_data t ≡ done (meaning o t)
unfolding process_data
process_data-order o u t wait h =
    let run : process_data t ≡ process_command t = simp wait refl in
    run ∙ process_command-order o u t h

-- The firmware carries out what the user typed: once it has taken the datagram that the server sent
-- for the order, its next processing is the operation that the order means, with the numbers that
-- were typed by the bits of the types in which they are sent, and it waits for the next datagram. The
-- sending succeeds, the datagram arrives, and nothing was waiting before.
pub process_data-Typed :
    (s u : Server) (o : Order) (m : Firmware)
    → Typed s o u
    → u.kernel.sendto u.calls ≡ false
    → Delivers (connection m) (size o + 4) (last_bytes (user_input_process_data s).sent)
    → let t = on_internet receive m in process_data t ≡ done (meaning o t)
process_data-Typed s u o m typed ok d =
    let (wait, n, at) = receive-Typed s u o (connection m) typed ok d in
    process_data-order o u (on_internet receive m) wait (n, at)
