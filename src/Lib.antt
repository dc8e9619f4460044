-- ===== src/Lib.antt =====
-- The firmware of the blueberry irrigation: an Arduino program that switches the generator, the
-- pumps and the valves of a farm by relays, counts the pulses of flow sensors, reads pressures,
-- and runs irrigation programs on the commands of a server.
--
-- The parts and how they interact. The main loop calls one step of each module in turn, and the
-- interrupts of the flow sensors come in between. Every module reads and writes global
-- variables; here they are records that are passed on: Board (the devices and the world), Plant
-- (the board, the sensors and the programs of the flow control) and Irrigation (the plant and
-- the irrigation programs). Pointers into the global arrays are indices. Names lose the prefix
-- of their module.
--   World: the calls of Arduino.h. What they return is a parameter, indexed by the number of the
--     call, so that time passes in any way; what they do to the pins is a trace.
--   Pins: arduino_client/include/pins.h.
--   Device, Device/Init, Device/Save: arduino_client/src/device.cpp, the fifteen devices, their
--     relays and their wire form. Device/Relays and Device/Coils say what the trace shows of the
--     devices, Device/Steps what holds through every use of the module, Device/Timing what holds on
--     the clock.
--   SensorFlow, SensorPressure: arduino_client/src/sensor_flow.cpp and sensor_pressure.cpp.
--     SensorFlow/Counting lets interrupts come between the statements of a collection as well; in a
--     round of the main loop they come between its steps.
--   ControlFlow, ControlFlow/Update: arduino_client/src/control_flow.cpp, the programs that open a
--     device until an amount has flowed, and the faulty flow detection.
--   ControlSafety: arduino_client/src/control_safety.cpp.
--   Irrigation, Irrigation/Update: arduino_client/src/control_irrigation_temp.cpp, the programs,
--     their phases and the commands. Irrigation/Run has the sequences of commands, interrupts and
--     steps, and Irrigation/Startup those from a reset. Irrigation/Cleaning, Irrigation/HandOver and
--     Irrigation/Single follow the groups through a program, Irrigation/Generator the waits for the
--     generator, with the clock readings that are stored in Irrigation/Stamps. Irrigation/Power says
--     when the generator and the well pump run, and Irrigation/Ending follows any program to its
--     end: its rounds are the steps of the devices, the sensors, the flow control and the
--     irrigation, without those of the connection and the interfaces.
--   ControlIrrigation: arduino_client/src/control_irrigation.cpp, a second scheme for the programs
--     that is only begun.
--   Internet, Internet/Receive, Internet/Update: arduino_client/src/internet.cpp, the connection
--     to the server and the datagram parser. The calls of the Ethernet library return what a
--     parameter says.
--   Firmware: the state of the whole program, over which the interfaces and the main loop work.
--     The parts share one world.
--   Interface, Interface/Info, Interface/Process: arduino_client/src/interface.cpp and its header,
--     the requests from the network and the reports. Interface/Refusal is about requests that are
--     refused, Interface/Steady and Interface/Safety about the relays.
--   InterfaceSerial, InterfaceSerial/Number: arduino_client/src/interface_serial.cpp, the menu
--     over the serial port and its numbers. InterfaceSerial/Safety is about the relays.
--   Main: arduino_client/src/main.cpp, the start and the main loop, in which every part has its
--     step. The interrupts that come in a round are given as those before each of its steps.
--     Main/Safety and Main/Stuck are about any number of rounds.
--   Server, Server/Receive, Server/Process, Server/Input: linux_server/src/server_udp.c,
--     irrigation_data.c and main.c, the program at the other end, which shows what the firmware
--     reports and sends what its user types. The system calls return what a parameter says.
--   Link: both ends together, from the reports to what is shown (Link/Shown, Link/Report, and
--     Link/Datagrams, Link/Whole and Link/Regular for all four frames), and from the keyboard to the
--     plant (Link/Command, Link/Order, Link/Typing, Link/Round for a round of the main loop, and
--     Link/Stop for the order to stop).
--   Tests: the theorems at concrete inputs.
--
-- Numbers. Values of the native ℕ stand for the unsigned types, with their wrap-around written
-- out; a clock reading is the true time modulo 2 ^ 32, and elapsed times are compared on the
-- true clock where they are below 2 ^ 32. The arithmetic of double and float is a parameter, as
-- are constrain and map, whose documented behaviour is a hypothesis where it matters.
--
-- Fuel and bounds. The recursion of control_irrigation_temp_start has fuel 2; more changes
-- nothing. The loops run over arrays of a fixed size, and over the data of a datagram, whose
-- number is one byte. The loop that reads a number has as its fuel the room that is left in its
-- array of ten; the code has no such bound, and the model records it where the array is overrun,
-- and stops reading there. Otherwise an array is a function of the index: an index out of its
-- range, which the code takes from the network, the serial port or a datagram without a test,
-- has a cell of its own here, where the program would write over other memory. The theorem on
-- the whole main loop supposes that no such write comes up. The server's buffer is three bytes
-- shorter than what it may receive: the model keeps the rest and marks the overrun.
--
-- Not modelled: the debug output and what the server prints, the watchdog and the delays, the
-- headers with type names only, the copy of the Ethernet library and the web client, which is
-- another program in another language.
pub mod Base
pub mod World
pub mod Pins
pub mod Device
pub mod SensorFlow
pub mod SensorPressure
pub mod ControlFlow
pub mod ControlSafety
pub mod ControlIrrigation
pub mod Irrigation
pub mod Internet
pub mod Firmware
pub mod Interface
pub mod InterfaceSerial
pub mod Main
pub mod Server
pub mod Link
pub mod Tests
