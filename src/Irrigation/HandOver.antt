-- ===== src/Irrigation/HandOver.antt =====
-- The program for both groups: group 1 is watered, then group 2, then comes the cleaning
-- (`control_irrigation_temp_update`).
use blueberry_irrigation_sys.Base.{
  ℕ, ◌≤◌, ◌<◌, ◌≡◌, ap, refl, ◌∙◌, sym, subst, ◌==◌, if◌then◌else◌, is_true, true, false, Bool,
  arith,
}
use blueberry_irrigation_sys.Device.{toggle}
use blueberry_irrigation_sys.ControlFlow
use blueberry_irrigation_sys.Irrigation.{
  Irrigation, Program, group_1, group_2, both, cleaning, ready, finishing, ticked, toggle_device,
  start, start_fuel, start_program, start_group, start_supplements, choose, prepare,
}
use blueberry_irrigation_sys.Irrigation.Update.{update, end_both, finish}
use blueberry_irrigation_sys.ControlFlow.Wiring.{Evolves-refl}
use blueberry_irrigation_sys.Irrigation.Evolution.{Moves, toggle-Moves, toggle2-Moves}
use blueberry_irrigation_sys.Irrigation.Stamps.{
  IsFresh, now-IsFresh, IsFresh-Moves, IsFresh-ticked, start-IsFresh,
}
use blueberry_irrigation_sys.Irrigation.Timing.{
  IsCalm, IsSince, IsKnown, limit, ending, update_ready,
}
use blueberry_irrigation_sys.Irrigation.Cleaning.{third, IsAt}

-- The group that is watered.
pub data Group : Type 0 where
  one two : Group

abbrev pub program_of : Group → Program
program_of one = group_1
program_of two = group_2

-- The valve that is open.
abbrev pub valve : Group → ℕ → ℕ
valve one i = if i == 10 then 1 else 0
valve two i = if i == 11 then 1 else 0

-- One of the two groups is watered: the acid pump runs, and of the valves of the two groups the one of
-- this group alone is open.
pub record IsWatering (g : Group) (s : Irrigation) : Type 0 where
  pub program : s.program ≡ both
  pub current : s.program_current ≡ program_of g
  pub status : s.status ≡ ready
  pub acid : (s.devices 2).is_active ≡ 1
  pub valve_10 : (s.devices 10).is_active ≡ valve g 10
  pub valve_11 : (s.devices 11).is_active ≡ valve g 11

-- The program is over without a cleaning: the well pump and the acid pump are off, and the valves shut.
pub record IsWatered (s : Irrigation) : Type 0 where
  pub status : s.status ≡ finishing
  pub well : (s.devices 1).is_active ≡ 0
  pub acid : (s.devices 2).is_active ≡ 0
  pub valve_10 : (s.devices 10).is_active ≡ 0
  pub valve_11 : (s.devices 11).is_active ≡ 0

-- What follows the last group: the cleaning, or the end of the program. The clock variable that it is
-- timed by holds the last clock reading of the call.
abbrev pub Ends : Irrigation → Irrigation → Type 0
Ends s t =
    (is_true s.is_cleaning ≡ true
      → IsAt third t × ((t.devices 2).is_active ≡ 0) × IsFresh s t.time_program_start t)
    × (is_true s.is_cleaning ≡ false → IsWatered t × IsFresh s t.time_generator_start t)

-- What follows a group in the state `s`. Group 2 gets the time that group 1 had, from that call on.
pub Follows : Group → Irrigation → Irrigation → Type 0
Follows one s t =
    IsWatering two t
    × (t.time_program_duration ≡ s.time_program_duration)
    × IsFresh s t.time_program_start t
Follows two s t = Ends s t

-- The start of a single group in READY.
start_group_2-IsWatering :
    (c : ℕ) (s : Irrigation)
    → s.status ≡ ready
    → (s.devices 10).is_active ≡ 0
    → IsWatering two (record (start group_2 c s) { program = both })
unfolding start start_fuel start_program start_group start_supplements ControlFlow.start choose
    toggle
start_group_2-IsWatering c s r shut = record {
  program = refl;
  current = ground (arith, r);
  status = ground (arith, r);
  acid = ground (arith, r);
  valve_10 = ground (arith, r, shut);
  valve_11 = ground (arith, r);
}

-- So does the program for both begin.
pub start_both-IsWatering :
    (c : ℕ) (s : Irrigation)
    → s.status ≡ ready
    → (s.devices 11).is_active ≡ 0
    → IsWatering one (start both c s)
unfolding start start_fuel start_program start_group start_supplements ControlFlow.start choose
    toggle
start_both-IsWatering c s r shut = record {
  program = ground (arith, r);
  current = ground (arith, r);
  status = ground (arith, r);
  acid = ground (arith, r);
  valve_10 = ground (arith, r);
  valve_11 = ground (arith, r, shut);
}

start_cleaning-IsAt :
    (c : ℕ) (s : Irrigation)
    → s.status ≡ ready
    → (s.devices 10).is_active ≡ 0
    → (s.devices 11).is_active ≡ 0
    → IsAt third (start cleaning c s)
      × (((start cleaning c s).devices 2).is_active ≡ (s.devices 2).is_active)
unfolding start start_fuel start_program choose toggle
start_cleaning-IsAt c s r shut10 shut11 = (
  record {
    program = ground (arith, r);
    status = ground (arith, r);
    time = ground (arith, r);
    valve_10 = ground (arith, r, shut10);
    valve_11 = ground (arith, r, shut11);
    valve_12 = ground (arith, r);
  },
  ground (arith, r),
)

-- The end of the watering in READY, with the acid pump off and the valves shut.
pub ends_lem :
    (again : ℕ) (s t : Irrigation)
    → t.status ≡ ready
    → t.is_cleaning ≡ s.is_cleaning
    → (t.devices 2).is_active ≡ 0
    → (t.devices 10).is_active ≡ 0
    → (t.devices 11).is_active ≡ 0
    → Moves s t
    → Ends s (if is_true t.is_cleaning then start cleaning again t else finish t)
unfolding finish toggle
ends_lem again s t r same acid shut10 shut11 moves = (
  λ c.
      let c' : is_true t.is_cleaning ≡ true = ap is_true same ∙ c in
      let l = start_cleaning-IsAt again t r shut10 shut11 in
      simp c' (
        l.0,
        l.1 ∙ acid,
        IsFresh-Moves s t (start cleaning again t) _ moves
            (start-IsFresh cleaning again t (λ k e. ground arith) r),
      ),
  λ c.
      let c' : is_true t.is_cleaning ≡ false = ap is_true same ∙ c in
      simp c' (
        record { status = refl; well = refl; acid = acid; valve_10 = shut10; valve_11 = shut11 },
        now-IsFresh s (toggle_device 1 0 t) (toggle-Moves s t 1 0 (omega arith) moves),
      ),
)

start_duration :
    (p : Program) (c : ℕ) (s : Irrigation)
    → (start p c s).time_program_duration ≡ s.time_program_duration
unfolding start start_fuel start_program start_group start_supplements ControlFlow.start choose
    prepare
start_duration p c s = ground arith

if_false :
    (P : Irrigation → Type 0) (b : Bool) (s t : Irrigation)
    → b ≡ false
    → P t
    → P (if b then s else t)
if_false P b s t e p = rw e p

end_both-Follows : (g : Group) (s : Irrigation) → IsWatering g s → Follows g s (end_both s)
unfolding end_both Follows
end_both-Follows one s a =
    let open_10 : is_true (s.devices 10).is_active ≡ true = ap is_true a.valve_10 in
    let u = toggle_device 10 0 s in
    let moves : Moves s u = toggle-Moves s s 10 0 (omega arith) (Evolves-refl s.plant) in
    simp open_10 (
      start_group_2-IsWatering s.is_cleaning u a.status (unfold toggle in refl),
      start_duration group_2 s.is_cleaning u,
      IsFresh-Moves s u (record (start group_2 s.is_cleaning u) { program = both }) _ moves
          (start-IsFresh group_2 s.is_cleaning u (λ k e. ground arith) a.status),
    )
end_both-Follows two s a =
    let shut_10 : is_true (s.devices 10).is_active ≡ false = ap is_true a.valve_10 in
    let t = toggle_device 11 0 (toggle_device 2 0 s) in
    if_false (Ends s) (is_true (s.devices 10).is_active) _ _ shut_10 (
      ends_lem s.is_cleaning s t a.status refl (unfold toggle in refl) (unfold toggle in a.valve_10)
        (unfold toggle in refl) (toggle2-Moves s 2 11 0 0 (omega arith) (omega arith)))

ticked-IsWatering : (g : Group) (s : Irrigation) → IsWatering g s → IsWatering g (ticked s)
ticked-IsWatering g s a = record {
  program = a.program;
  current = a.current;
  status = a.status;
  acid = a.acid;
  valve_10 = a.valve_10;
  valve_11 = a.valve_11;
}

pub Ends-ticked : (s t : Irrigation) → Ends (ticked s) t → Ends s t
Ends-ticked s t e = (
  λ c. let (at, acid, fresh) = e.0 c in (at, acid, IsFresh-ticked s t _ fresh),
  λ c. let (done, fresh) = e.1 c in (done, IsFresh-ticked s t _ fresh),
)

Follows-ticked : (g : Group) (s t : Irrigation) → Follows g (ticked s) t → Follows g s t
unfolding Follows
Follows-ticked one s t (watering, same, fresh) = (watering, same, IsFresh-ticked s t _ fresh)
Follows-ticked two s t f = Ends-ticked s t f

-- The program for both groups hands the water over: group 1 is watered for the program's time on the true
-- clock and then group 2, each with its own valve open and the other's shut, and before the time has
-- passed an update only reads the clock. After group 2, a cleaning begins with group 3 if one was asked
-- for, with the acid pump off, and else the status is FINISHING with the well pump and the acid pump off
-- and both valves shut. The time of what comes next starts there: its clock variable holds the last clock
-- reading of that update, and group 2 has the same duration. No fault is to be acted on, and the time
-- since the start of the group fits into 32 bits.
pub update-IsWatering :
    (g : Group) (s : Irrigation) (elapsed : ℕ)
    → IsCalm s
    → IsSince s s.time_program_start elapsed
    → IsWatering g s
    → (elapsed < s.time_program_duration → update s ≡ ticked s)
      × (s.time_program_duration ≤ elapsed → Follows g s (update s))
update-IsWatering g s elapsed calm since a =
    let known : IsKnown s.program = subst IsKnown (sym a.program) (λ k e. ground arith) in
    let r = update_ready s elapsed a.status calm known since in
    let limited : limit s.program s ≡ s.time_program_duration = ap (λ p. limit p s) a.program in
    let ended : ending s.program (ticked s) ≡ end_both (ticked s) =
      ap (λ p. ending p (ticked s)) a.program in
    (
      λ early. r.0 (omega (arith, limited)),
      λ late. subst (Follows g s) (sym (r.1 (omega (arith, limited)) ∙ ended)) (
          Follows-ticked g s (end_both (ticked s))
            (end_both-Follows g (ticked s) (ticked-IsWatering g s a))),
    )
