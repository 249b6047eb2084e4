-- ===== src/Lib.antt =====
-- Models and theorems for the portable Bluetooth LE controller of this repository,
-- crates/ble-controller, and for the link layer of its backend, crates/ch58x-ble.
--
-- The program. crates/ble-controller holds the protocol-defined part of a Bluetooth LE Peripheral
-- (and the packets of an initiator): PHY transforms, advertising packets, the Link Layer state of one
-- connection, control procedures and HCI input checks. crates/ch58x-ble drives the radio with it. Its
-- `Runner` takes the host's commands, advertises, and keeps one connection at a time: for each event
-- it takes a channel from `ChannelSelection1`, opens the receive window early by
-- `window_widening_us`, sends the frame that stands, takes the acknowledgment by
-- `acknowledges_transmit_owner`, and hands what is new to the host or to `handle_ll_control`, which
-- parses a control PDU and gives it an owner in the `ProcedureManager`. That manager is told of every
-- event and of the time. The rest of crates/ble-controller (`DataSequenceState`,
-- `ConnectionEventTxState`, the decisions of an event) is for backends that answer several packets in
-- an event.
--
-- The files, and the code they model.
--   Phy/Crc, Phy/Whitening: crates/ble-controller/src/crc.rs and whitening.rs. The bit loops are
--     counted loops. Phy/Whitening/Core has the register of the Core specification.
--   Radio, Radio/Dma: the error type of lib.rs, channel.rs, and of crates/ch58x-ble/src the files
--     radio_dma_policy.rs, radio_phy.rs and radio_rx_status.rs.
--   LinkLayer: crates/ble-controller/src/link_layer.rs, with one module for each of its objects.
--     Sequence is `DataSequenceState`; EventTx is `ConnectionEventTxState`, its types in EventTx/State
--     and its operations in EventTx/Select, EventTx/Queue says what it keeps; Timing has the clocks,
--     instants and timing fields; ControlPdu the control PDUs; ChannelSelection `ChannelSelection1`;
--     Event the close reasons and the trace record; AccessAddress the test of access addresses.
--     Sequence/Delivery has the link of two ends, EventTx/Order the sequences of calls of the queue.
--   Llcp: crates/ble-controller/src/llcp.rs: its types in Llcp/Procedure, its operations in Llcp/Start,
--     Llcp/Transmit and Llcp/Timers; Llcp/Calls has the sequences of calls.
--   Advertising: crates/ble-controller/src/advertising.rs: Advertising/Address, Advertising/Legacy
--     and Advertising/Connection.
--   Hci: crates/ble-controller/src/hci.rs.
--   Backend: crates/ch58x-ble/src/link_layer.rs, link_layer/hci.rs and controller.rs. Transport has the
--     packets and the host's events, Connection `ActiveConnection`, Schedule its anchors, windows,
--     instants and missed events, Queue the queues, Control the owners of control PDUs, Frame what is
--     sent and what an acknowledgment releases, Received `handle_ll_control`, Event `connection_event`,
--     Emit the events that the runner sends, Commands and Connected the commands of the host, Run
--     `run_connection`, Advertise `advertising_event` and the turns of `run`. Backend/Acl has the
--     packets of the host on their way through a connection, with the sequences of what happens to
--     one in Acl/Session.
--   Hal: src/uart.rs in Hal/Uart, src/dataflash.rs and dataflash_protocol.rs in Hal/DataFlash. What a
--     read of a register that the hardware changes gives is an argument; the polls of the data flash
--     are counted as the source counts them.
--   Base: what the others share. Examples: runs on concrete values.
--
-- The correspondence. A struct is a record and an enum a data type, with the source's names where the
-- module does not say them already. A method on `&mut self` is a function that gives the state
-- afterwards; where it returns a `Result` it gives the state and the result, or, where an error always
-- stands before the first store, a result that holds the state. An octet, a 16-bit or a 32-bit number
-- is a natural number; what the types of the source bound is a hypothesis of a theorem, and a cast or
-- a wrapping operation is written out as a remainder. An array is a list; reading it gives 0 outside,
-- which no theorem rests on, since every use stands behind the length test of the source. `unwrap`
-- and `unreachable!()` give an error or nothing, and `run_connection` has an outcome of its own for a
-- panic. Where a build with overflow checks would panic (`connection_timing_is_valid`), the arithmetic
-- is that of a build without them. Loops are structural: over a list, or over the number of rounds
-- that are left, which the source fixes; the two loops that take fuel are named below.
--
-- In Backend an instant is a number of microseconds, the tick of the clock; the sums of instants stay
-- below 2^64 for half a million years. An array with its length is the list of what is in use. The
-- radio is a function from the arguments of an exchange to what it gives, the readings of the clock,
-- the packets of the host and what ends a wait are arguments of a turn, and the generator of random
-- octets is a parameter: the theorems hold whatever they do. A channel of packets is the list of what
-- went through it, as a full one makes its sender wait. `skip_expired_events` counts in 16 bits and
-- stops where they overflow, so that 2^16 rounds of fuel are enough; the loop of a write to the data
-- flash takes at least one octet a round, so that their number is enough.
--
-- Not modelled: the asynchronous radio interface, and the drivers of crates/ch58x-ble (radio.rs,
-- rf_frontend.rs) and of src, which read and write registers, but for the arithmetic, the checks
-- and the FIFO of the UART and for the data flash; the RF calibration table; the reads and
-- writes of the third-party transport trait in controller.rs; and the records of
-- crates/ble-controller/src/link_layer.rs that have no operation there. A lost PDU and a PDU with a
-- wrong CRC are the same in the model of the link, as the caller of `observe` drops both. Time is a
-- parameter of the operations that take it.
pub mod Base
pub mod Phy
pub mod Radio
pub mod LinkLayer
pub mod Llcp
pub mod Advertising
pub mod Hci
pub mod Backend
pub mod Hal
pub mod Examples
