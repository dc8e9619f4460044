-- ===== src/Main/Safety.antt =====
-- The relays through the whole firmware: the start and the main loop.
pub mod Round
use blueberry_irrigation_sys.Base.{ℕ, ◌⊎◌, inl}
use blueberry_irrigation_sys.Device.{Board, on_world, relay}
use blueberry_irrigation_sys.Device
use blueberry_irrigation_sys.Device.Init as DeviceInit
use blueberry_irrigation_sys.Device.Steps.{updated}
use blueberry_irrigation_sys.SensorFlow.Init as FlowInit
use blueberry_irrigation_sys.SensorPressure
use blueberry_irrigation_sys.ControlFlow.{Plant, sensor_flow_update, sensor_pressure_update}
use blueberry_irrigation_sys.ControlFlow
use blueberry_irrigation_sys.ControlFlow.Evolution.{update-Evolves}
use blueberry_irrigation_sys.ControlFlow.Wiring.{Evolves, IsSafe}
use blueberry_irrigation_sys.ControlSafety
use blueberry_irrigation_sys.Irrigation
use blueberry_irrigation_sys.Internet
use blueberry_irrigation_sys.Irrigation.{
  Irrigation, start, force_stop, resume, faulty_detection_toggle,
}
use blueberry_irrigation_sys.Irrigation.Evolution.Phases.{update-Moves}
use blueberry_irrigation_sys.Irrigation.Run.{
  sensor_flow_update-Evolves, sensor_pressure_update-Evolves,
}
use blueberry_irrigation_sys.Internet.{Internet}
use blueberry_irrigation_sys.Internet.Quiet.{update-Quietly}
use blueberry_irrigation_sys.Firmware.{Firmware, ticked}
use blueberry_irrigation_sys.Interface.Process.{process_data}
use blueberry_irrigation_sys.InterfaceSerial.{user_input, flow_print}
use blueberry_irrigation_sys.InterfaceSerial
use blueberry_irrigation_sys.Main.{
  led_switch, interface_update, before_internet, before_interface, loop, pulsed,
}
use blueberry_irrigation_sys.Interface.Steady.{stepped}
use blueberry_irrigation_sys.InterfaceSerial.Safety.{TypedInRange, update-IsSteady}
use blueberry_irrigation_sys.Interface.Safety.{InRange, ticked-IsSteady, process_data-IsSteady}
