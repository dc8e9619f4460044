-- ===== src/Link/Order.antt =====
-- A command that the user of linux_server/src/main.c has sent, executed by the firmware
-- (`interface_process_data` of arduino_client/src/interface.cpp).
use blueberry_irrigation_sys.Base.{
  ℕ, set_at, ◌<◌, ◌≡◌, refl, Array, u8, u16, u32, half_same, word_same, arith,
}
use blueberry_irrigation_sys.Device.{toggle}
use blueberry_irrigation_sys.ControlSafety
use blueberry_irrigation_sys.Irrigation.{start, force_stop, resume, faulty_detection_toggle}
use blueberry_irrigation_sys.Firmware.{Firmware, on_irrigation, on_the_board, on_the_world, body}
use blueberry_irrigation_sys.Interface.{
  program_of, command_start, command_stop, command_resume, command_deliver_volume,
  command_deliver_time, command_program_duration, command_is_send_info,
  command_is_faulty_detection_active, command_control_safety_reset, command_device_toggle,
  device_toggle, irrigation_start, deliver_volume_set, deliver_time_set, program_duration_set,
  is_send_info_set, is_faulty_detection_active_set, reset, half_at, word_at,
}
use blueberry_irrigation_sys.Interface.Process.{process_command, execute, execute_setting, done}
use blueberry_irrigation_sys.Server.{Server}
use blueberry_irrigation_sys.Server.Input.{put, put_half, put_word}

-- What a user can tell the firmware to do.
pub data Order : Type 0 where
  toggle_device start_program : ℕ → ℕ → Order
  stop_program resume_program reset_board : Order
  set_volume set_time set_duration set_report set_detection : ℕ → Order

-- The packet for the order, as the cases of `user_input_process_data` fill it.
abbrev pub command : Order → ℕ
command (toggle_device i a) = command_device_toggle
command (start_program p c) = command_start
command stop_program = command_stop
command resume_program = command_resume
command reset_board = command_control_safety_reset
command (set_volume v) = command_deliver_volume
command (set_time v) = command_deliver_time
command (set_duration v) = command_program_duration
command (set_report v) = command_is_send_info
command (set_detection v) = command_is_faulty_detection_active

abbrev pub rest : Order → Array ℕ → Array ℕ
rest (toggle_device i a) b = put 2 a (put 1 i b)
rest (start_program p c) b = put 2 c (put 1 p b)
rest (set_volume v) b = put_half 1 v b
rest (set_time v) b = put_half 1 v b
rest (set_duration v) b = put_word 1 v b
rest (set_report v) b = put 1 v b
rest (set_detection v) b = put 1 v b
rest _ b = b

abbrev pub size : Order → ℕ
size (toggle_device i a) = 3
size (start_program p c) = 3
size (set_volume v) = 3
size (set_time v) = 3
size (set_duration v) = 5
size (set_report v) = 2
size (set_detection v) = 2
size _ = 1

-- What the order means for the plant: the operation that its part of the firmware has for it.
abbrev pub meaning : Order → Firmware → Firmware
meaning (toggle_device i a) = on_the_board (λ b. toggle b (u8 i) (u8 a))
meaning (start_program p c) = on_irrigation (start (program_of (u8 p)) (u8 c))
meaning stop_program = on_irrigation force_stop
meaning resume_program = on_irrigation resume
meaning reset_board = on_the_world ControlSafety.reset
meaning (set_volume v) = on_irrigation (λ s. record s { deliver_volume = u16 v })
meaning (set_time v) = on_irrigation (λ s. record s { deliver_time = u16 v })
meaning (set_duration v) = on_irrigation (λ s. record s { time_program_duration = u32 v })
meaning (set_report v) = λ m. record m { is_send_info = u8 v }
meaning (set_detection v) = on_irrigation (faulty_detection_toggle (u8 v))

-- The firmware's packet holds the order.
abbrev pub Holds : Order → Server → Firmware → Type 0
Holds o s m =
    (m.internet.packet.size ≡ size o)
    × ((j : ℕ) → j < size o → body m j ≡ u8 (rest o (set_at s.packet.data_bytes 0 (command o)) j))

pub process_command-order :
    (o : Order) (s : Server) (m : Firmware) → Holds o s m → process_command m ≡ done (meaning o m)
unfolding process_command execute execute_setting device_toggle irrigation_start reset
    deliver_volume_set deliver_time_set program_duration_set is_send_info_set
    is_faulty_detection_active_set
process_command-order (toggle_device i a) s m (n, at) =
    let c : body m 0 ≡ 42 = at 0 (omega arith) in
    simp (c, n, at 1 (omega arith), at 2 (omega arith)) refl
process_command-order (start_program p b) s m (n, at) =
    let c : body m 0 ≡ 83 = at 0 (omega arith) in
    simp (c, n, at 1 (omega arith), at 2 (omega arith)) refl
process_command-order stop_program s m (n, at) =
    let c : body m 0 ≡ 84 = at 0 (omega arith) in simp (c, n) refl
process_command-order resume_program s m (n, at) =
    let c : body m 0 ≡ 92 = at 0 (omega arith) in simp (c, n) refl
process_command-order reset_board s m (n, at) =
    let c : body m 0 ≡ 101 = at 0 (omega arith) in simp (c, n) refl
process_command-order (set_report v) s m (n, at) =
    let c : body m 0 ≡ 91 = at 0 (omega arith) in simp (c, n, at 1 (omega arith)) refl
process_command-order (set_detection v) s m (n, at) =
    let c : body m 0 ≡ 93 = at 0 (omega arith) in simp (c, n, at 1 (omega arith)) refl
process_command-order (set_volume v) s m (n, at) =
    let c : body m 0 ≡ 85 = at 0 (omega arith) in
    let value : half_at (body m) 1 ≡ u16 v =
      half_same v (at 1 (omega arith)) (at 2 (omega arith)) in
    simp (c, n, value) refl
process_command-order (set_time v) s m (n, at) =
    let c : body m 0 ≡ 86 = at 0 (omega arith) in
    let value : half_at (body m) 1 ≡ u16 v =
      half_same v (at 1 (omega arith)) (at 2 (omega arith)) in
    simp (c, n, value) refl
process_command-order (set_duration v) s m (n, at) =
    let c : body m 0 ≡ 88 = at 0 (omega arith) in
    let value : word_at (body m) 1 ≡ u32 v =
      word_same v (at 1 (omega arith)) (at 2 (omega arith)) (at 3 (omega arith))
        (at 4 (omega arith)) in
    simp (c, n, value) refl
