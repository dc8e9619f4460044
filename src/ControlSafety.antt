-- ===== src/ControlSafety.antt =====
-- arduino_client/src/control_safety.cpp
use blueberry_irrigation_sys.Base.{for_down}
use blueberry_irrigation_sys.World.{World, input_pullup, output, pin_mode, perform, write}
use blueberry_irrigation_sys.Device.{Board, device_array_size, toggle}
use blueberry_irrigation_sys.Pins

-- `control_safety_init()`
unfoldable pub init : World → World
init w = write Pins.arduino_pin_reset 1 (
    perform (pin_mode Pins.arduino_pin_reset output)
      (perform (pin_mode Pins.arduino_pin_reset input_pullup) w))

-- `control_safety_devices_stop()`
unfoldable pub devices_stop : Board → Board
devices_stop b = for_down device_array_size (λ i c. toggle c i 0) b

-- `control_safety_reset()`: the pin is wired to the board's own reset line.
unfoldable pub reset : World → World
reset w = write Pins.arduino_pin_reset 0 w
