-- ===== src/Interface/Refusal.antt =====
-- Requests with a wrong size or an unknown command.
use blueberry_irrigation_sys.Base.{
  ℕ, ◌≡◌, ◌≢◌, true, Option, none, some, ◌==◌, if◌then◌else◌, is_true, arith,
}
use blueberry_irrigation_sys.Firmware.{Firmware, body}
use blueberry_irrigation_sys.Interface.Process.{
  execute, execute_setting, process_command, process_data, done,
}

-- The size of a request with each command, the command's own byte included.
abbrev pub size_of : ℕ → Option ℕ
size_of c =
    if c == 82
    then some 1
    else if c == 84
    then some 1
    else if c == 92
    then some 1
    else if c == 101
    then some 1
    else if c == 91
    then some 2
    else if c == 93
    then some 2
    else if c == 211
    then some 2
    else if c == 42
    then some 3
    else if c == 43
    then some 3
    else if c == 83
    then some 3
    else if c == 85
    then some 3
    else if c == 86
    then some 3
    else if c == 62
    then some 4
    else if c == 87
    then some 5
    else if c == 88
    then some 5
    else if c == 89
    then some 5
    else if c == 90
    then some 5
    else none

execute_setting-refuses :
    (c : ℕ) (m : Firmware)
    → c ≢ 42
    → c ≢ 43
    → c ≢ 62
    → c ≢ 83
    → c ≢ 84
    → c ≢ 91
    → c ≢ 92
    → c ≢ 93
    → c ≢ 101
    → c ≢ 82
    → size_of c ≢ some m.internet.packet.size
    → execute_setting c m ≡ m
unfolding execute_setting
execute_setting-refuses c m n1 n2 n3 n4 n5 n6 n7 n8 n9 n10 wrong = ground (arith, wrong)

execute-refuses :
    (c : ℕ) (m : Firmware) → c ≢ 82 → size_of c ≢ some m.internet.packet.size → execute c m ≡ m
unfolding execute
execute-refuses c m other wrong = ground (arith, wrong, execute_setting-refuses c m)

-- A request that waits, whose command is unknown or whose size is not the command's, is dropped: all
-- that `interface_process_data` changes is that it no longer waits. Only a request for all values, of
-- another size than 1, is not dropped: nothing changes, so it goes on waiting.
pub process_data-refuses :
    (m : Firmware)
    → is_true m.internet.is_receive_wait ≡ true
    → size_of (body m 0) ≢ some m.internet.packet.size
    → process_data m ≡ (if body m 0 == 82 then m else done m)
unfolding process_data process_command
process_data-refuses m waits wrong = ground (arith, waits, wrong, execute-refuses (body m 0) m)
