-- ===== src/Pins.antt =====
-- arduino_client/include/pins.h: where the relays, sensors and reset lines are connected.
use blueberry_irrigation_sys.Base.{ℕ}

abbrev pub device_pin_generator : ℕ
device_pin_generator = 25

abbrev pub device_pin_pump_well : ℕ
device_pin_pump_well = 24

abbrev pub device_pin_pump_acid : ℕ
device_pin_pump_acid = 23

abbrev pub device_pin_pump_supplements : ℕ
device_pin_pump_supplements = 22

abbrev pub device_pin_pump_supplements_micro : ℕ
device_pin_pump_supplements_micro = 29

abbrev pub device_pin_pump_supplements_macro : ℕ
device_pin_pump_supplements_macro = 28

abbrev pub device_pin_pump_click_on : ℕ
device_pin_pump_click_on = 27

abbrev pub device_pin_pump_click_off : ℕ
device_pin_pump_click_off = 26

abbrev pub device_pin_valve_supplements_micro : ℕ
device_pin_valve_supplements_micro = 32

abbrev pub device_pin_valve_supplements_macro : ℕ
device_pin_valve_supplements_macro = 30

abbrev pub device_pin_valve_supplements_water : ℕ
device_pin_valve_supplements_water = 31

abbrev pub device_pin_valve_group_1 : ℕ
device_pin_valve_group_1 = 37

abbrev pub device_pin_valve_group_2 : ℕ
device_pin_valve_group_2 = 36

abbrev pub device_pin_valve_group_3 : ℕ
device_pin_valve_group_3 = 35

abbrev pub device_pin_valve_garden : ℕ
device_pin_valve_garden = 34

abbrev pub device_pin_lamp : ℕ
device_pin_lamp = 33

abbrev pub sensor_flow_pin_pump_well : ℕ
sensor_flow_pin_pump_well = 19

abbrev pub sensor_flow_pin_pump_supplements_micro : ℕ
sensor_flow_pin_pump_supplements_micro = 3

abbrev pub sensor_flow_pin_pump_supplements_macro : ℕ
sensor_flow_pin_pump_supplements_macro = 2

abbrev pub sensor_flow_pin_pump_supplements_water : ℕ
sensor_flow_pin_pump_supplements_water = 18

abbrev pub sensor_flow_pin_pump_click : ℕ
sensor_flow_pin_pump_click = 20

abbrev pub sensor_pressure_pin_1 : ℕ
sensor_pressure_pin_1 = 54

abbrev pub sensor_pressure_pin_2 : ℕ
sensor_pressure_pin_2 = 55

abbrev pub sensor_pressure_pin_3 : ℕ
sensor_pressure_pin_3 = 56

abbrev pub arduino_pin_reset : ℕ
arduino_pin_reset = 48

abbrev pub internet_pin_reset : ℕ
internet_pin_reset = 49

abbrev pub internet_pin_ss : ℕ
internet_pin_ss = 53
