-- ===== src/Lib.antt =====
-- Verification of the Matter to MQTT bridge (mqtt_bridge/), which shows Matter devices as
-- zigbee2mqtt-style mqtt topics.
--
-- The program: mqtt_bridge/devices.py turns a node of python-matter-server into a device with
-- properties, each backed by a capability (`Cap`) that reads, coerces, validates and writes its values.
-- mqtt_bridge/matter.py keeps a connection to the Matter server and tells the bridge when it comes and
-- goes. mqtt_bridge/bridge.py then reads the client's nodes (`rebuild`) and publishes their states, takes
-- mqtt messages (`on_message`), resolves the device they name and carries out `set` and `get` requests
-- on it, through the Matter client, and provisions new devices. scripts/esp_reset.py resets the radio chip.
--
-- Files:
--   Prelude        tests, lists, integers and equality that all modules share.
--   Python         what the code uses of Python: json values (Values), the interpreter's tables and
--                  float operations as the parameter `Runtime` (Interpreter), exceptions (Errors), str
--                  methods (Strings, laws in TextLaws, LineLaws and Printed), int, comparison and round
--                  (Numbers).
--   Devices        mqtt_bridge/devices.py. Ids: the numbers of the generated Matter data model, a
--                  parameter. Checks: as_number, check_number. Caps: Cap and its subclasses as `Kind`.
--                  Changes: coerce, validate and write. Reads: the read methods. Names: valid_name and
--                  the friendly name. Presses: the events of a button (ActionCap.event, Device.action).
--                  Switching, Naming, Bounds, Numerals (as_number), Colors (ColorCap's write and read)
--                  and Gestures (Presses) hold proofs.
--   Nodes          mqtt_bridge/devices.py, from a node to its device. Ids: what else chip.clusters
--                  generates, a parameter. Trees: attr_tree. Endpoints: the constructors of the
--                  capabilities, sensor_caps, endpoint_caps. Types: device_type_name, cluster_name,
--                  attr_name. Properties: the groups of capabilities and the names of the properties.
--                  Exposes: base and expose. Infos: Device.__init__ as `new_device`, with its info.
--                  Dumps: json_safe and dump_node. TreeLaws, Paths and Dumped hold proofs on the dicts
--                  and the dump, Keys, Slots, Renaming, Separation and Complete those on the names,
--                  Entries, Reached and Advertised those on the entries, Octets those on json_safe.
--                  Shapes is the documented form of the information, Forms, Basics (the loop over
--                  BASIC_INFO_FIELDS) and Conforming hold the proofs that it has that form.
--   Bridge         mqtt_bridge/bridge.py. State: devices, messages and effects. Exec: coroutines with
--                  exceptions over the list of effects, and the Matter client as the parameter
--                  `Client`. Writes: order_writes. Requests: resolve and set. Reading: get. Dispatch:
--                  device_request. Topics: on_message. Callbacks: rebuild, the connection's callbacks,
--                  the scheduled publications, node events. Provision: provision. Thread:
--                  thread_dataset and paa_cert_problem of mqtt_bridge/matter.py. Responses: discover
--                  and the requests on bridge/request, proofs in Answering. Scheduling, Lookups and
--                  Announcing (what mqtt retains, Retained) hold the proofs on Callbacks,
--                  Commissioning, Lifecycle (with the order of the steps in Story) and Datasets those
--                  on Provision; WriteOrder, WriteGroups and WriteLoop (order_writes), Planning and
--                  Setting (set), Getting (get), Reporting (device_request), Resolving (resolve),
--                  TopicParts and Routing (on_message) and Nan (a set request with a nan) hold proofs.
--   Link           mqtt_bridge/matter.py, Matter._run (Loop): a turn of the loop for each session with
--                  the server, with what else the event loop runs while it connects, listens and
--                  pauses. Reading: rebuild, from the nodes that the client has. Sessions holds the
--                  proofs on the calls, Offline puts the bridge's callbacks on the loop.
--   System         the process: on_connect, what on_message hands to the event loop (Matter.submit),
--                  and all that runs there, as a step relation over the parts above (Steps). Consistent
--                  holds the proof of its invariant, Brightness follows one message through Bridge and
--                  Devices.
--   Reset          scripts/esp_reset.py (Script), the lines of the port and the exit status (Strap),
--                  the number of attempts (Attempts).
--   Samples, Tests, Runs, NodeRuns, LinkRuns, SystemRuns
--                  concrete data, runs, and the theorems at concrete inputs.
--
-- How the model corresponds: a Python str is the list of its code points, an int an integer, a float
-- the bit pattern of its double, whose arithmetic is a parameter. An error text is its kind with the
-- values that it prints. A coroutine returns its outcome and the list of its effects (publications,
-- device commands, live reads); the client's answers and its cache are functions of all effects so
-- far, so whatever other tasks do between two awaits is covered. Log lines are left out. The recursion
-- in printing a number takes the number as fuel, which is more than its digits. A dict is the list of
-- its items in order of insertion. The connection loop has no end: `run` is what it does in the turns
-- of the sessions that it is given, any number of them, each with what raises in it.
--
-- A callback of the event loop runs without an await, on tables that it is given and returns, and
-- comes back with what it did. A callback that reads the nodes of the client takes the outcome of
-- making their devices, so that it may raise: what it has done by then stays done. The output of
-- ot-ctl and the payload of a message are taken as decoded texts. A provision is cut at its awaits
-- into parts of this kind, and any of the waiting ones is resumed next. The reset script comes back
-- with its calls on the serial port; each call of the port in an attempt, and the wait in its pulse, may
-- raise an exception and cuts the attempt there, with exit status 1. Keyboard interrupts are left out.
--
-- In System the mqtt thread and the event loop take steps in any order; a step of either is one call
-- of a callback, or one part of a coroutine between two awaits. Tasks start in the order in which they
-- were submitted. Requests for a device leave the state of the process alone, so their task is over
-- with its start.
--
-- Not modelled: log lines, the set-up of the mqtt client with its last will, the argument parser of
-- the reset script, the code of python-matter-server, chip.clusters, paho-mqtt and pyserial
-- (parameters), the tests, the firmware, and the container's configuration.
pub mod Prelude
pub mod Python
pub mod Devices
pub mod Bridge
pub mod Nodes
pub mod Link
pub mod System
pub mod Reset
mod Samples
mod Tests
mod Runs
mod NodeRuns
mod LinkRuns
mod SystemRuns
