-- ===== src/Tests/Network.antt =====
-- The theorems on the connection at concrete inputs.
use blueberry_irrigation_sys.Base.{
  ℕ, ◌+◌, ◌≤◌, ◌<◌, ◌≡◌, ◌↔◌, inl, [], some, u8, u32, ◌==◌, if◌then◌else◌, arith, refl,
}
use blueberry_irrigation_sys.World.{level}
use blueberry_irrigation_sys.Internet.{Internet, ready, restarting}
use blueberry_irrigation_sys.Internet.Receive.{receive}
use blueberry_irrigation_sys.Internet.Update.{update}
use blueberry_irrigation_sys.Internet.Frames.{IsFrame, receive-IsFrame}
use blueberry_irrigation_sys.Internet.Bounds.{receive-inside, receive_overflow}
use blueberry_irrigation_sys.Internet.Transitions.{◌⇢◌, update-⇢, update-restarts}
use blueberry_irrigation_sys.Tests.{field}

-- A datagram from 9000 at the server's port, whose size byte is `size` and whose other data are 7.
abbrev pub replies : ℕ → ℕ → ℕ
replies size k =
    if k == 0
    then 9000
    else if k == 1
    then 5432
    else if k == 2
    then 2
    else if k == 3
    then size
    else if k == 4
    then 170
    else if k == 7
    then 4
    else 7

-- A connection that is up, with a datagram of `total` bytes, after `calls` readings of the clock.
abbrev pub connected : ℕ → ℕ → ℕ → Internet
connected size total calls = record {
  world = record { env = field; calls = calls; trace = [] };
  library = record { result = replies size; host_ip = λ k. 9000; ethernet_no_hardware = 0 };
  requests = 0;
  log = [];
  status = ready;
  time_restart_last = 0;
  time_receive_last = 0;
  time_ping_send_last = 0;
  ip_remote = 9000;
  packet = record { ip = 9000; port = 5432; id = 160; data_bytes = λ j. 0; size = total };
  is_receive_wait = 0;
}

receive-IsFrame_example :
    (((receive (connected 3 6 0)).is_receive_wait ≡ 1) ↔ IsFrame (connected 3 6 0) 2)
    × (IsFrame (connected 3 6 0) 2
        → ((receive (connected 3 6 0)).packet.size ≡ 2)
          × ((j : ℕ)
              → j < 2
              → (receive (connected 3 6 0)).packet.data_bytes j ≡ u8 (replies 3 (5 + j))))
receive-IsFrame_example = receive-IsFrame (connected 3 6 0) 2 (omega arith) (omega arith) refl refl

update-⇢_example : ready ⇢ (update (connected 3 6 180)).status
update-⇢_example = update-⇢ (connected 3 6 180)

receive-inside_example : (receive (connected 3 6 0)).packet.data_bytes 64 ≡ 0
receive-inside_example =
    receive-inside (connected 3 6 0) 64 (omega arith) (omega arith) (omega arith)

receive_overflow_example : (receive (connected 0 3 0)).packet.data_bytes 64 ≡ u8 (replies 0 69)
receive_overflow_example =
    receive_overflow (connected 0 3 0) 64 refl refl refl refl refl refl (omega arith)

update-restarts_example :
    (17000 ≤ 18000
      → ((update (connected 3 6 180)).status ≡ restarting)
        × (level 49 (update (connected 3 6 180)).trace ≡ some 0)
        × ((update (connected 3 6 180)).time_restart_last ≡ u32 18100))
    × (18000 < 17000 → (update (connected 3 6 180)).status ≡ ready)
update-restarts_example =
    update-restarts (connected 3 6 180) 0 18000 (inl refl) refl refl (omega arith)
