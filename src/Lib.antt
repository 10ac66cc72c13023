-- ===== src/Lib.antt =====
-- ch32-tapioca: the firmware of a bus sniffer and MDIO adapter on a CH32X035.
--
-- The program's parts. A coprocessor (the PIOC) samples a bus into a small FIFO of registers. In the RLE mode
-- `RleSniffer` (src/sniffer/rle_sniffer.cpp) drains that FIFO in a timer interrupt into a RAM ring, and its
-- `service` filters the ring into the USB stream. In the clocked mode records are built, framed by
-- `RecordFramer` (src/sniffer/record_framer.hpp) over `Cobs` (src/util/cobs.hpp), and staged in a
-- `Ring` (src/util/ring.hpp). The host switches the modes with a `!mode` line (src/sniffer/mode_command.hpp,
-- polled in src/main_sniffer.cpp). The other firmware is an MDIO adapter: `Mdio::UsbBridge`
-- (src/mdio/mdio_bridge.hpp and .cpp) turns command lines into requests of `Mdio::Master`
-- (src/mdio/mdio_master.cpp), which runs them one transaction at a time over the PIOC's registers, and turns
-- finished requests into reply lines. `UsbCdc` (src/usb/usb_cdc.cpp) is the USB serial port under both: the control
-- transfers of endpoint 0, and a byte ring in each direction between the endpoints and its users. `LedBlinker`
-- (src/util/led_blinker.cpp) shows activity.
--
-- Which file models which part.
--   Prelude, Prelude/*     numbers, tests, lists, machine words, masks, do blocks over Option
--   Cobs                   src/util/cobs.hpp; Cobs/Spec is the independent description of an encoding
--   Ring                   src/util/ring.hpp; Ring/Queue and Ring/Contiguous have the FIFO view, Ring/Spsc the
--                          interleavings of a producer and a consumer, Ring/Threads `push` and `pop` as steps of these, Ring/Wrap the wrap of the cursors
--   Framer                 src/sniffer/record_framer.hpp; Framer/Demux has a reader of the stream
--   Text, Mode, Selector   src/sniffer/mode_command.hpp and the command poll of main_sniffer.cpp
--   Firmware               src/main_sniffer.cpp: `unifiedSwitchTo` over both sniffers and the USB device, in Seam and Switch;
--                          Console is `unifiedPollCommand` over the receive ring, and Poll compares it with
--                          Selector
--   Mdio/Slot              src/mdio/mdio_master.hpp and .cpp: the members and the submission of a request
--   Mdio/Master            src/mdio/mdio_master.cpp; Frame is the wire frame, Steps and Life one request, Mailbox the
--                          responses that clients lend, Indirect and Sequence the
--                          transactions of an MMD access, Direct the one of a register
--   Mdio/Bridge            src/mdio/mdio_bridge.hpp and .cpp; Command and Line are the parser and the line
--                          assembly, Session the state and its handlers
--   Usb/Descriptors        src/usb/usb_descriptors.hpp
--   Usb/Device             src/usb/usb_cdc.hpp: the members, the registers and the stream that the users see
--   Usb/Requests           src/usb/usb_cdc.cpp: the requests of `handleSetup`, by their code
--   Usb/Control            src/usb/usb_cdc.cpp: `handleSetup`, `handleEp0In` and `handleEp0Out`; Read is a control read
--                          of a descriptor, Coding the line coding, Frame and Endpoint2 what these leave alone
--   Usb/Bulk               src/usb/usb_cdc.cpp: `onIrq`, `tick` and `pump`; Flow and Throttle are bulk OUT, Packets and Stream are bulk IN
--                          as a step relation, Pump the pumps of a writer, Flush the bound on a residue, Halt a halt that is
--                          cleared under way
--   Rle                    src/sniffer/rle_sniffer.cpp; Drain is `drainPioc`, Squelch the filter of `service`, Service the
--                          rest of `service`, `begin` and `stop`
--   Clocked                src/sniffer/clocked_sniffer.cpp: `emitRecord`, the mode marker, `begin` and `stop`; Service is
--                          `service`, with the drain of the FIFO in Burst, the close of a burst in Idle, the way to
--                          the USB stream in Ship, and what the whole keeps in Sound
--   Time                   src/hal/time.cpp: the millisecond interrupt and `micros`
--   Led                    src/util/led_blinker.cpp
--   Examples               the theorems at concrete inputs
--
-- How the code corresponds. A class is a record of its members and each method a function of the same
-- name in snake case. Output buffers are lists, arrays that are written in place are functions from indices to
-- items, and what a method reads from the hardware or the clock is an argument. Fixed-width arithmetic keeps its
-- wrap (`% 2 ^ w`), written out in Prelude/Words. `printf` appends to a list of replies, and a blink to a list
-- of blinks. The registers of the USB peripheral that the code writes are members of the device, a control
-- register as its four fields; the peripheral may change the interrupt flags and the buffer of endpoint 0 between
-- two calls. What the code takes from the vendor's headers is an argument of type `Sdk`: how a SETUP packet
-- is laid out, and the numbers of the kinds of descriptor and feature. The bytes behind a table in memory are one too.
--
-- Fuel. The decoders of `Cobs` run on the length of their input: each round takes at least the code byte. The
-- reduction of a byte by 30 in Rle/Drain runs on 9 rounds, and 255 needs 8. The count of the valid bits of a byte in Clocked/Service runs on 8, and needs 7.
-- The loop of the seam in Firmware runs on 400003 rounds: each round writes one of the three bytes or is one of at most
-- 100000 attempts in a row. The poll in Firmware/Console runs on the number of bytes that it may read. A decimal in Mdio/Bridge/Numbers has at
-- most 5 digits, those of 16 bits.
--
-- What is not modelled. The main loops, the board set-up, the tick bench, the
-- telemetry under DIAG, and the blobs of the PIOC, whose registers are arguments. Of the USB device, the set-up of
-- clocks, pins and DMA addresses is left out.
pub mod Prelude
pub mod Cobs
pub mod Ring
pub mod Framer
pub mod Text
pub mod Mode
pub mod Selector
pub mod Mdio
pub mod Usb
pub mod Rle
pub mod Time
pub mod Led
pub mod Clocked
pub mod Firmware
pub mod Examples
