-- ===== src/Irrigation/Generator.antt =====
-- The two waits for the generator (`control_irrigation_temp_update`).
use blueberry_irrigation_sys.Base.{
  ℕ, ◌≤◌, ◌<◌, ◌≡◌, refl, sym, subst, ◌∙◌, ap, if_intro, false, is_true, arith,
}
use blueberry_irrigation_sys.Device.{toggle}
use blueberry_irrigation_sys.ControlFlow.Wiring.{Evolves-refl}
use blueberry_irrigation_sys.ControlFlow
use blueberry_irrigation_sys.Irrigation.{
  Irrigation, Program, group_1, group_2, both, cleaning, garden, other, ready, finished, preparing,
  finishing, ticked, toggle_device, choose, start, start_fuel, start_program, start_group,
  start_supplements, resume, resume_group, resume_program,
}
use blueberry_irrigation_sys.Irrigation.Update.{update, leave_preparing, leave_finishing}
use blueberry_irrigation_sys.Irrigation.Evolution.{Moves, toggle-Moves}
use blueberry_irrigation_sys.Irrigation.Stamps.{
  IsFresh, IsFresh-Moves, IsFresh-ticked, start-IsFresh, start_ready,
}
use blueberry_irrigation_sys.Irrigation.Timing.{
  IsCalm, IsSince, IsKnown, after_waits, after_over, preparing_lem, finishing_lem,
}
use blueberry_irrigation_sys.Irrigation.Transitions.{leave_preparing_status}

-- In READY, neither the start nor the resumption of a program switches the well pump.
start_well :
    (p : Program) (c : ℕ) (s : Irrigation)
    → s.status ≡ ready
    → ((start p c s).devices 1).is_active ≡ (s.devices 1).is_active
unfolding start start_fuel start_program start_group start_supplements ControlFlow.start choose
    toggle
start_well p c s r = ground (arith, r)

resume_well :
    (s : Irrigation) → s.status ≡ ready → ((resume s).devices 1).is_active ≡ (s.devices 1).is_active
unfolding resume resume_program resume_group toggle
resume_well s r = ground (arith, r)

leave_preparing_well : (s : Irrigation) → ((leave_preparing s).devices 1).is_active ≡ 1
unfolding leave_preparing
leave_preparing_well s =
    let t = record (toggle_device 1 1 s) { status = ready } in
    let on : (t.devices 1).is_active ≡ 1 = unfold toggle in refl in
    if_intro (λ (u : Irrigation). (u.devices 1).is_active ≡ 1) (is_true s.is_stopped)
      (resume_well t refl ∙ on) (start_well s.program s.is_cleaning t refl ∙ on)

started_program :
    (again : Program → ℕ → Irrigation → Irrigation) (p : Program) (c : ℕ) (s : Irrigation)
    → (start_program again p (choose p c s)).program ≡ p
unfolding start_program start_group start_supplements ControlFlow.start choose
started_program again group_1 c s = ground arith
started_program again group_2 c s = ground arith
started_program again both c s = refl
started_program again cleaning c s = refl
started_program again garden c s = refl
started_program again (other n) c s = refl

-- A program that is not the continuation of a stopped one has just been started.
abbrev pub IsBegun : Irrigation → Irrigation → Type 0
IsBegun s t = (t.program ≡ s.program) × IsFresh s t.time_program_start t

leave_preparing-IsBegun :
    (s : Irrigation)
    → IsKnown s.program
    → is_true s.is_stopped ≡ false
    → IsBegun s (leave_preparing s)
unfolding leave_preparing start
leave_preparing-IsBegun s known new =
    let t = record (toggle_device 1 1 s) { status = ready } in
    let moves : Moves s (toggle_device 1 1 s) =
      toggle-Moves s s 1 1 (omega arith) (Evolves-refl s.plant) in
    simp new (
      ap (λ (u : Irrigation). u.program) (start_ready 1 s.program s.is_cleaning t refl)
          ∙ started_program (start_fuel 1) s.program s.is_cleaning t,
      IsFresh-Moves s t (start s.program s.is_cleaning t) _
          (record { steps = moves.steps; device = moves.device; sensor = moves.sensor })
          (start-IsFresh s.program s.is_cleaning t known refl),
    )

-- The generator gets its time: while no fault is to be acted on, PREPARING and FINISHING do
-- nothing but read the clock until the time for the generator has passed on the true clock. The
-- first call after that in PREPARING turns the well pump on and is in READY, with the same program,
-- whose time starts with that call's last clock reading, if it is one of the five and not the
-- continuation of a stopped one. In FINISHING it turns the generator off and is in FINISHED. The
-- time since the start of the wait fits into 32 bits.
pub update_generator :
    (s : Irrigation) (elapsed : ℕ)
    → IsCalm s
    → IsSince s s.time_generator_start elapsed
    → (s.status ≡ preparing
        → (elapsed < s.time_generator_wait → update s ≡ ticked s)
          × (s.time_generator_wait ≤ elapsed
              → ((update s).status ≡ ready)
                × (((update s).devices 1).is_active ≡ 1)
                × (IsKnown s.program → is_true s.is_stopped ≡ false → IsBegun s (update s))))
      × (s.status ≡ finishing
          → (elapsed < s.time_generator_wait → update s ≡ ticked s)
            × (s.time_generator_wait ≤ elapsed
                → ((update s).status ≡ finished) × (((update s).devices 0).is_active ≡ 0)))
update_generator s elapsed calm since =
    let started = s.time_generator_start in
    let wait = s.time_generator_wait in
    (
      λ st. (
        λ early.
            preparing_lem s st calm
            ∙ after_waits started wait elapsed leave_preparing s since early,
        λ late.
            let e : update s ≡ leave_preparing (ticked s) =
              preparing_lem s st calm
              ∙ after_over started wait elapsed leave_preparing s since late in
            (
              ap (λ (t : Irrigation). t.status) e ∙ leave_preparing_status (ticked s),
              ap (λ (t : Irrigation). (t.devices 1).is_active) e ∙ leave_preparing_well (ticked s),
              λ known new. subst (IsBegun s) (sym e) (begun known new),
            ),
      ),
      λ st. (
        λ early.
            finishing_lem s st calm
            ∙ after_waits started wait elapsed leave_finishing s since early,
        λ late.
            let e : update s ≡ leave_finishing (ticked s) =
              finishing_lem s st calm
              ∙ after_over started wait elapsed leave_finishing s since late in
            (
              ap (λ (t : Irrigation). t.status) e ∙ (unfold leave_finishing in refl),
              ap (λ (t : Irrigation). (t.devices 0).is_active) e
                  ∙ (unfold leave_finishing toggle in refl),
            ),
      ),
    )
  where
    begun :
        IsKnown s.program → is_true s.is_stopped ≡ false → IsBegun s (leave_preparing (ticked s))
    begun known new =
        let b = leave_preparing-IsBegun (ticked s) known new in
        (b.0, IsFresh-ticked s (leave_preparing (ticked s)) _ b.1)
