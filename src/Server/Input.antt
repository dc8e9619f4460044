-- ===== src/Server/Input.antt =====
-- The user's commands and the main loop of linux_server/src/main.c. What is printed is not modelled.
use blueberry_irrigation_sys.Base.{
  ℕ, zero, suc, ◌+◌, ◌-◌, ◌*◌, ◌/◌, ◌^◌, Bool, Array, set_at, for_up, not, u8, u16, u32, sub32, ltb,
  ◌==◌, byte_of, if◌then◌else◌, is_true,
}
use blueberry_irrigation_sys.Interface.{
  command_device_toggle, command_start, command_stop, command_deliver_volume, command_deliver_time,
  command_program_duration, command_info_all, command_is_send_info, command_resume,
  command_is_faulty_detection_active, command_control_safety_reset, command_ping,
  command_ping_value_request,
}
use blueberry_irrigation_sys.InterfaceSerial.Number.{is_digit, digits_size}
use blueberry_irrigation_sys.Server.{Server, asked, get_time, send}
use blueberry_irrigation_sys.Server.Process.{update}

-- `user_input_available()`
abbrev pub user_input_available : Server → Bool × Server
user_input_available s = (s.kernel.select s.calls, asked s)

-- `user_input_get()`, an int by its bits: what `read` returned if that is negative, else the
-- character.
unfoldable pub user_input_get : Server → ℕ × Server
user_input_get s =
    let (r, ch) = s.kernel.read s.calls in (if ltb r (2 ^ 31) then ch else r, asked s)

-- `user_input_get() - 48` as a uint8_t.
abbrev pub get_digit : Server → ℕ × Server
get_digit s = let (x, t) = user_input_get s in (u8 (x + 2 ^ 32 - 48), t)

-- The loop that fills `c`, an array of 10 int16_t, up to the first character that is no digit. Where
-- the array is used up, the next character is stored past its end, and the model stops with that on
-- record.
unfoldable pub read_digits : ℕ → Array ℕ → ℕ → Server → Array ℕ × ℕ × Server
read_digits zero c counter s = (c, counter, record s { is_overrun = 1 })
read_digits (suc room) c counter s =
    let (x, t) = user_input_get s in
    let more = read_digits room (set_at c counter (u16 x - 48)) (suc counter) t in
    if is_digit (u16 x) then more else (c, counter, t)

-- `math_power(base, exponential)`
unfoldable pub math_power : ℕ → ℕ → ℕ
math_power base exponential =
    if exponential == 0 then 1 else for_up (exponential - 1) 0 (λ i n. u32 (n * base)) base

-- The second loops, on a uint16_t and on a uint32_t.
unfoldable pub add_digits_16 : Array ℕ → ℕ → ℕ
unfolding math_power
add_digits_16 c counter =
    for_up counter 0 (λ i number. u16 (number + u32 (c (counter - i - 1) * math_power 10 i))) 0

unfoldable pub add_digits_32 : Array ℕ → ℕ → ℕ
unfolding math_power
add_digits_32 c counter =
    for_up counter 0 (λ i number. u32 (number + u32 (c (counter - i - 1) * math_power 10 i))) 0

-- `serial_number_read()` and `serial_number_read_32()`
unfoldable pub serial_number_read : Server → ℕ × Server
serial_number_read s =
    let (c, counter, t) = read_digits digits_size (λ i. 0) 0 s in (add_digits_16 c counter, t)

unfoldable pub serial_number_read_32 : Server → ℕ × Server
serial_number_read_32 s =
    let (c, counter, t) = read_digits digits_size (λ i. 0) 0 s in (add_digits_32 c counter, t)

-- A packet is filled and sent: `data[0] = command;`, the bytes that follow, and the size.
abbrev pub send_command : ℕ → (Array ℕ → Array ℕ) → ℕ → Server → Server
send_command command rest size s =
    let bytes = rest (set_at s.packet.data_bytes 0 command) in
    send (record s { packet = record s.packet { data_bytes = bytes; size = size } })

abbrev pub put : ℕ → ℕ → Array ℕ → Array ℕ
put i value bytes = set_at bytes i value

abbrev pub put_half : ℕ → ℕ → Array ℕ → Array ℕ
put_half i value bytes = set_at (set_at bytes i (byte_of value 0)) (i + 1) (byte_of value 1)

abbrev pub put_word : ℕ → ℕ → Array ℕ → Array ℕ
put_word i value bytes =
    set_at (set_at (put_half i value bytes) (i + 2) (byte_of value 2)) (i + 3) (byte_of value 3)

abbrev pub same : Array ℕ → Array ℕ
same bytes = bytes

-- `case 'd'`
unfoldable pub send_toggle : Server → Server
send_toggle s =
    let (index, t) = serial_number_read s in
    let (is_active, u) = get_digit t in
    send_command command_device_toggle (λ b. put 2 is_active (put 1 (u8 index) b)) 3 u

-- `case 'p'`
unfoldable pub set_print : Server → Server
set_print s = let (x, t) = get_digit s in record t { is_print = x }

unfoldable pub send_start : Server → Server
send_start s =
    let (program, t) = get_digit s in
    let (is_cleaning, u) = get_digit t in
    send_command command_start (λ b. put 2 is_cleaning (put 1 program b)) 3 u

-- The commands with a number of 16 or 32 bits, and those with one digit.
unfoldable pub send_half : ℕ → Server → Server
send_half command s =
    let (value, t) = serial_number_read s in send_command command (put_half 1 value) 3 t

unfoldable pub send_word : ℕ → Server → Server
send_word command s =
    let (value, t) = serial_number_read_32 s in send_command command (put_word 1 value) 5 t

unfoldable pub send_flag : ℕ → Server → Server
send_flag command s = let (value, t) = get_digit s in send_command command (put 1 value) 2 t

-- `case 'c'`
unfoldable pub control : Server → Server
control s =
    let (choice, t) = user_input_get s in
    if choice == b'a'
    then send_start t
    else if choice == b's'
    then send_command command_stop same 1 t
    else if choice == b'r'
    then send_command command_resume same 1 t
    else if choice == b'v'
    then send_half command_deliver_volume t
    else if choice == b't'
    then send_half command_deliver_time t
    else if choice == b'd'
    then send_word command_program_duration t
    else if choice == b'i'
    then send_command command_info_all same 1 t
    else if choice == b'p'
    then send_flag command_is_send_info t
    else if choice == b'f'
    then send_flag command_is_faulty_detection_active t
    else t

-- `user_input_process_data()`
unfoldable pub user_input_process_data : Server → Server
user_input_process_data s =
    let (available, t) = user_input_available s in
    let (choice, u) = user_input_get t in
    if not available
    then t
    else if choice == b'r'
    then send_command command_control_safety_reset same 1 u
    else if choice == b'd'
    then send_toggle u
    else if choice == b'p'
    then set_print u
    else if choice == b'i'
    then send_command command_ping (put 1 command_ping_value_request) 2 u
    else if choice == b'c'
    then control u
    else u

-- The last line of `flow_print()`.
unfoldable pub stamp_print : Server → Server
stamp_print s = let (time, t) = get_time s in record t { time_print_last = time }

-- The times of `flow_print()`, without what it prints.
unfoldable pub flow_print : Server → Server
flow_print s =
    let (time, t) = get_time s in
    let (time_2, u) = get_time t in
    let ago = sub32 time_2 s.time_received_last / 1000 in
    if ltb (sub32 time s.time_print_last) 500
    then t
    else stamp_print (record u { received_time_ago = ago })

-- The program goes on unless it has ended.
abbrev pub alive : (Server → Server) → Server → Server
alive next s = if is_true s.is_dead then s else next s

-- A round of the loop of `main()`.
unfoldable pub round : Server → Server
round s =
    let t = alive user_input_process_data (alive update s) in
    alive (λ u. if is_true u.is_print then flow_print u else u) t
