-- ===== src/Internet/Transitions.antt =====
-- The state machine of the connection: the edges of `internet_update`, and its times.
use blueberry_irrigation_sys.Base.{
  ℕ, zero, suc, ◌+◌, ◌^◌, ◌≤◌, ◌<◌, ◌≡◌, ◌⊎◌, inl, inr, ◌∙◌, refl, sym, subst, u8, sub8, u32,
  sub32_elapsed, if_intro, some, for_up, arith,
}
use blueberry_irrigation_sys.World.{level}
use blueberry_irrigation_sys.Internet.{
  Internet, InternetStatus, uninitialized, restarting, initializing, ready, ticked, restart_hard,
  restart_soft, troubleshoot, connect, open_connection, ip_remote_update, diagnose, send,
  write_frame, tell, read, remote_ip, remote_port, parse_packet, stamp_receive,
}
use blueberry_irrigation_sys.Internet.Receive.{
  receive, receive_frame, receive_size, receive_id, receive_data, accept, store_byte, set_size,
}
use blueberry_irrigation_sys.Internet.Update.{
  after_restart, release, ping, ping_if_due, poll, serve, watch, update_status, update,
}

-- The edges that one call of `internet_update` may follow: a restart takes the reset line low,
-- releases it, and then starts the connection, which comes up or fails.
infix 40 ◌⇢◌
pub data ◌⇢◌ : InternetStatus → InternetStatus → Type 0 where
  hold : restarting ⇢ restarting
  release_reset : restarting ⇢ initializing
  settle : initializing ⇢ initializing
  come_up : initializing ⇢ ready
  fail : initializing ⇢ uninitialized
  serve_on : ready ⇢ ready
  wait_failed : uninitialized ⇢ uninitialized
  give_up : ready ⇢ restarting
  try_again : uninitialized ⇢ restarting

restart_soft_status :
    (s : Internet) → ((restart_soft s).status ≡ ready) ⊎ ((restart_soft s).status ≡ uninitialized)
unfolding restart_soft connect open_connection ip_remote_update diagnose
restart_soft_status s = ground arith

for_up_status :
    (count first : ℕ) (s : Internet) → (for_up count first store_byte s).status ≡ s.status
unfolding store_byte
for_up_status zero first s = refl
for_up_status (suc count) first s = for_up_status count (first + 1) (store_byte first s)

receive_data_status : (s : Internet) → (receive_data s).status ≡ s.status
unfolding receive_data accept
receive_data_status s = ground (arith, for_up_status s.packet.size 0 s)

receive_frame_status : (s : Internet) → (receive_frame s).status ≡ s.status
unfolding receive_frame receive_size receive_id
receive_frame_status s =
    let t = tell read (set_size (sub8 s.packet.size 3) (tell read s)) in
    let d = tell read (set_size (sub8 t.packet.size 1) t) in ground (arith, receive_data_status d)

receive_status : (s : Internet) → (receive s).status ≡ s.status
unfolding receive
receive_status s =
    ground (arith, receive_frame_status (stamp_receive (tell remote_port (tell remote_ip s))))

poll_status : (s : Internet) → (poll s).status ≡ s.status
unfolding poll
poll_status s =
    ground
      (arith, receive_status (set_size (u8 (s.library.result s.requests)) (tell parse_packet s)))

ping_if_due_status : (s : Internet) → (ping_if_due s).status ≡ s.status
unfolding ping_if_due ping send write_frame
ping_if_due_status s = ground arith

serve_status : (s : Internet) → (serve s).status ≡ s.status
unfolding serve
serve_status s = ground (arith, poll_status (ping_if_due s), ping_if_due_status s)

after_restart_status :
    (P : InternetStatus → Type 0) (next : Internet → Internet) (s : Internet)
    → P s.status
    → P (next (ticked s)).status
    → P (after_restart next s).status
after_restart_status P next s early late =
    if_intro (λ (t : Internet). P t.status) _ {x = ticked s} {y = next (ticked s)} early late

watch_status : (s : Internet) → ((watch s).status ≡ restarting) ⊎ ((watch s).status ≡ s.status)
unfolding watch troubleshoot restart_hard
watch_status s = ground (arith, serve_status (ticked s))

update_status-⇢ :
    (st : InternetStatus) (s : Internet) → s.status ≡ st → st ⇢ (update_status st s).status
unfolding update_status
update_status-⇢ restarting s e =
    after_restart_status (λ x. restarting ⇢ x) release s (subst (λ x. restarting ⇢ x) (sym e) hold)
      (unfold release in release_reset)
update_status-⇢ initializing s e =
    after_restart_status (λ x. initializing ⇢ x) restart_soft s
      (subst (λ x. initializing ⇢ x) (sym e) settle)
      (elim (restart_soft_status (ticked s)) [
        | inl up ↦ subst (λ x. initializing ⇢ x) (sym up) come_up
        | inr down ↦ subst (λ x. initializing ⇢ x) (sym down) fail
      ])
update_status-⇢ ready s e = elim (watch_status s) [
  | inl r ↦ subst (λ x. ready ⇢ x) (sym r) give_up
  | inr r ↦ subst (λ x. ready ⇢ x) (sym (r ∙ e)) serve_on
]
update_status-⇢ uninitialized s e = elim (watch_status s) [
  | inl r ↦ subst (λ x. uninitialized ⇢ x) (sym r) try_again
  | inr r ↦ subst (λ x. uninitialized ⇢ x) (sym (r ∙ e)) wait_failed
]

-- One call of `internet_update` keeps the status or follows an edge: READY and UNINITIALIZED are
-- left for RESTARTING alone, RESTARTING for INITIALIZING alone, and INITIALIZING for READY or
-- UNINITIALIZED.
pub update-⇢ : (s : Internet) → s.status ⇢ (update s).status
unfolding update
update-⇢ s = update_status-⇢ s.status s refl

-- A connection, up or failed, in which no datagram of the server has come for 17 seconds of the true
-- clock is restarted by the next call: the reset line is low, and the time of the restart is taken.
-- Before that a call never restarts it.
pub update-restarts :
    (s : Internet) (start elapsed : ℕ)
    → (s.status ≡ ready) ⊎ (s.status ≡ uninitialized)
    → s.time_receive_last ≡ u32 start
    → s.env.millis s.calls ≡ start + elapsed
    → elapsed < 2 ^ 32
    → (17000 ≤ elapsed
        → ((update s).status ≡ restarting)
          × (level 49 (update s).trace ≡ some 0)
          × ((update s).time_restart_last ≡ u32 (s.env.millis (suc s.calls))))
      × (elapsed < 17000 → (update s).status ≡ s.status)
unfolding update update_status watch troubleshoot restart_hard
update-restarts s start elapsed up e1 e2 fits =
    ground (arith, sub32_elapsed start elapsed, serve_status (ticked s))
