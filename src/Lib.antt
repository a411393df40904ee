-- ===== src/Lib.antt =====
-- A verification of the ground segment of a space mission: the packet codec, the bindings to the
-- flight software's messages, and the ground station's receiving, file and command paths.
--
-- The program. Telemetry comes as a stream of AOS transfer frames of 1024 bytes. AosFramer
-- (rust/ground_station/src/ingest/framer.rs) checks each frame, keeps the state of the link and
-- publishes the control field; VcDemultiplexer (demux.rs) hands the frames to one SppDecoder
-- (decoder.rs) for each virtual channel, which parses the data field with the codec
-- (rust/ccsds_wire/src); ApidRouter (router.rs) sends the packets to the sinks and rejects the
-- application identifiers that must not come by radio. Files come in chunks that MFileAssembler
-- (rust/ground_station/src/mfile/mod.rs) puts together, or as CFDP transactions that Class1Receiver
-- (rust/ground_station/src/cfdp/class1.rs) writes to disk. Commands go the other way: TcBuilder
-- (rust/ground_station/src/uplink/builder.rs) makes a packet of an operator's intent, Cop1Engine
-- (cop1.rs) numbers it, keeps it until it is acknowledged and sends it again, hearing of what was
-- received through the control field, and TcFramer (framer.rs) writes the frame. The crate
-- rust/cfs_bindings turns packets into cFE software bus messages and back. The program's entry
-- (rust/ground_station/src/main.rs) joins the stages, and behind them the web interface
-- (rust/ground_station/src/ui/mod.rs, time.rs) holds what the sinks store, tells TAI from UTC and
-- takes the operator's commands. A tool (rust/ground_station/src/bin/demo_injector.rs) sends
-- made-up telemetry to the ground station.
--
-- Which file models what. Each file opens with the source that it is about.
--   Prelude        tests and lists over the native numbers, results, bit operations as arithmetic,
--                  HashMap as Prelude/Table, BTreeMap as Prelude/OrderedTable
--   Wire           rust/ccsds_wire/src: Apid, SequenceCount, DataLength, FuncCode, InstanceId,
--                  PacketType, Cuc, Primary, Secondary, Packet (SpacePacket::parse) and Builder
--                  (PacketBuilder), one module for each type
--   Bindings       rust/cfs_bindings/src/message.rs and convert.rs
--   Ingest         rust/ground_station/src/ingest: Framer (framer.rs; its window of frames in
--                  Framer/Window, the loop over its stream in Framer/Stream), Demux, Decoder,
--                  Router and Sinks, the frames that they pass on in Carrier, and what follows for
--                  the stages together in Pipeline
--   MFile          rust/ground_station/src/mfile/mod.rs: BitSet, the header of a chunk (steps 1 and
--                  2 of on_chunk) in Header, the data in State and every operation in Assembler; that
--                  the completion of a file panics on a size that cannot be reserved is an answer
--   Uplink         rust/ground_station/src/uplink: the data of the COP-1 engine in Fop1, its
--                  operations in Cop1, TcBuilder and TcFramer; what follows for the three together
--                  in Transfer
--   Cfdp           rust/ground_station/src/cfdp: the parsers of a PDU in Pdu, the table of
--                  transactions and its operations in Class1, the way of a whole file in
--                  Class1/Delivery, the epochs in Adapter
--   Injector       rust/ground_station/src/bin/demo_injector.rs: the counters and the frame, the
--                  packets in Payloads, Rovers, Titan and Events, and a tick in Tick
--   Ui             rust/ground_station/src/ui: Time (time.rs), and of mod.rs the State, the readers of
--                  the Links, the Handlers with the queue of uplink/dispatcher.rs, and the Routes
--   Station        rust/ground_station/src/main.rs: the loop behind the router in Dispatch, the tasks
--                  that write to the interface's state in Tasks, what one frame does in all
--                  stages in Pipeline, and the stages as tasks with channels between them, in any
--                  order, in Interleaving
-- The modules below a component hold its proofs, and the modules named Runs its runs at concrete
-- inputs.
--
-- How the code is read. Functions have the names of the source's functions. A method on &mut self
-- takes the state last and answers the new state. A Result is Result of Prelude/Results and ? is
-- the bind of a do block. Bytes and words are natural numbers: a theorem that needs them in range
-- says so, and every wrap-around and saturation of the source is written out. Counters that only
-- grow (u64 or u32) are unbounded. An Instant and a Duration are numbers of nanoseconds, and the
-- present instant is an argument. A field that a constructor seals has a predicate IsValid that
-- says what the constructor establishes. Loops are structural recursions over the lists that they
-- run through. Only the loop of Framer/Stream has fuel: more rounds than there are whole buffers in
-- the bytes are enough, since each round takes 1024 of them.
--
-- What is a parameter. The checksums of the crc crate, the files on disk (whether they can be
-- written, and for CFDP also what the writes leave), the texts of times and of bytes and those that
-- serde makes, the clock, and what try_send on a channel and try_write on a lock answer are
-- arguments; nothing is supposed of them but what a theorem names. The record DateTimes is what is
-- used of the time crate, with its law for the years that it covers. Floating point numbers are the
-- records Floats (their operations, and that they have four bytes or eight) and Seconds (that sums
-- and comparisons of whole seconds that fit 32 bits are exact). Storage of Cfdp/Class1/Delivery is
-- what a file system does with a write at an offset, a rename and a checksum, which fails where no
-- write has made the file. The text of the present time is one for all packets that have no time
-- code and all link states. The watch channel from the receiver to the COP-1 engine is its latest
-- value and whether that was published since the last read.
--
-- What is not modelled. Log lines, except where their rate is limited; the texts of errors; the
-- asynchronous loops around the handlers, which only repeat them; that memory may run out. Of the
-- program's entry the sockets and the start of the tasks, and of the web interface HTTP itself, the
-- static files and the socket that repeats the snapshot. Arithmetic of the tool that overflows a
-- u32 wraps around, as in a release build. The generated bindings, the message identifiers and the
-- examples are left out, and so is all that is not Rust: the flight software, the simulation, the
-- ROS workspace and the front end.
pub mod Prelude
pub mod Wire
pub mod Bindings
pub mod Ingest
pub mod Uplink
pub mod Cfdp
pub mod Injector
pub mod Ui
pub mod Station
pub mod MFile
