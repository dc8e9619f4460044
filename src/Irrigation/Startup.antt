-- ===== src/Irrigation/Startup.antt =====
-- The firmware from its reset: the states that `setup` of arduino_client/src/main.cpp reaches with
-- the initialisations of the devices, the sensors and the programs, and every run from them.
use blueberry_irrigation_sys.Base.{List, [], ◌≡◌, subst, sym, refl, is_true, false}
use blueberry_irrigation_sys.Device.Init as DeviceInit
use blueberry_irrigation_sys.Device.Coils.{NeverBoth}
use blueberry_irrigation_sys.Device.Relays.{RelaysMatch}
use blueberry_irrigation_sys.Device.Steps.{
  Steps, here, performed, IsSound, init-IsSound, Steps-IsSound,
}
use blueberry_irrigation_sys.SensorFlow.Init as FlowInit
use blueberry_irrigation_sys.SensorPressure
use blueberry_irrigation_sys.ControlFlow.{Plant}
use blueberry_irrigation_sys.ControlFlow
use blueberry_irrigation_sys.ControlFlow.Wiring.{init-IsPlanned}
use blueberry_irrigation_sys.Irrigation.{Irrigation, boot}
use blueberry_irrigation_sys.Irrigation
use blueberry_irrigation_sys.Irrigation.Idle.{IsIdle}
use blueberry_irrigation_sys.Irrigation.Power.{IsPowered}
use blueberry_irrigation_sys.Irrigation.Run.{Action, run, IsGuarded, run-IsGuarded}

-- `device_init(); sensor_flow_init(); sensor_pressure_init();`
abbrev pub sensed : Plant → Plant
sensed p =
    let b = DeviceInit.init p.board in
    let (w, flow_sensors) = FlowInit.init b.world p.flow_sensors in
    let (w', pressure_sensors) = SensorPressure.init w p.pressure_sensors in
    record p {
      board = record b { world = w' };
      flow_sensors = flow_sensors;
      pressure_sensors = pressure_sensors;
    }

-- The same, `control_flow_init();` and `control_irrigation_temp_init();`
abbrev pub initialised : Plant → Irrigation
initialised p = Irrigation.init (boot (ControlFlow.init (sensed p)))

sensed-IsSound : (p : Plant) → NeverBoth p.trace → IsSound (sensed p).board
unfolding FlowInit.init SensorPressure.init
sensed-IsSound p n = Steps-IsSound steps (init-IsSound p.board n)
  where
    steps : Steps (DeviceInit.init p.board) (sensed p).board
    steps =
        performed
          (performed
            (performed
              (performed
                (performed
                  (performed
                    (performed
                      (performed
                        (performed
                          (performed (performed (performed (performed here _ tt) _ tt) _ tt) _ tt) _
                          tt)
                        _ tt)
                      _ tt)
                    _ tt)
                  _ tt)
                _ tt)
              _ tt)
            _ tt)
          _ tt

sensed-off :
    (p : Plant)
    → (is_true ((sensed p).devices 0).is_active ≡ false)
      × (is_true ((sensed p).devices 1).is_active ≡ false)
unfolding DeviceInit.init FlowInit.init SensorPressure.init
sensed-off p = (refl, refl)

pub initialised-IsGuarded : (p : Plant) → NeverBoth p.trace → IsGuarded (initialised p)
unfolding Irrigation.init boot
initialised-IsGuarded p n = record {
  safe = record {
    planned = init-IsPlanned (sensed p);
    sound = unfold ControlFlow.init in sensed-IsSound p n;
  };
  idle = unfold ControlFlow.init in refl;
  powered = unfold boot Irrigation.init ControlFlow.init in sensed-off p;
}

-- From a reset on, before which no pin was written, the following holds after any commands of
-- control_irrigation_temp.cpp, pulses of the flow sensors and steps of the devices, the sensors,
-- the flow control and the irrigation, in any order and at any times: the two coils of the click
-- pump have at no moment been on together, each relay's pin shows its device's state, the generator is on
-- exactly if the status is not FINISHED and the well pump exactly if it is READY, and the flow control's
-- program 0 does not run.
pub run-initialised :
    (p : Plant) (actions : List Action)
    → p.trace ≡ []
    → let s = run actions (initialised p) in
      NeverBoth s.trace × RelaysMatch s.board × IsPowered s × IsIdle s.plant
run-initialised p actions blank =
    let g : IsGuarded (run actions (initialised p)) =
      run-IsGuarded actions (initialised p)
        (initialised-IsGuarded p (subst NeverBoth (sym blank) tt)) in
    (g.safe.sound.coils, g.safe.sound.match, g.powered, g.idle)
