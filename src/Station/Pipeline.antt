-- ===== src/Station/Pipeline.antt =====
-- rust/ground_station/src/main.rs, stages 1b to 4 one after the other: what one frame does, if each
-- stage takes at once what the stage before it has sent.
pub mod Arrival
pub mod Demonstration
use build_with_opus.Prelude.{ℕ, Bool, none, some, List, ◌==◌, if◌then◌else◌}
use build_with_opus.Ingest.Carrier.{AosFrame}
use build_with_opus.Ingest.Framer as Framer
use build_with_opus.Ingest.Framer.{AosFramer, process_frame}
use build_with_opus.Ingest.Demux as Demux
use build_with_opus.Ingest.Demux.{VcDemultiplexer, dispatch, with_default_channels}
use build_with_opus.Ingest.Decoder as Decoder
use build_with_opus.Ingest.Decoder.{SppDecoder, process}
use build_with_opus.Station.Dispatch as Dispatch
use build_with_opus.Station.Dispatch.{RouterTask, Item, route_item}

-- There is a decoder for each virtual channel.
pub record Stages : Type 0 where
  pub framer : AosFramer
  pub demux : VcDemultiplexer
  pub decoders : ℕ → SppDecoder
  pub router_task : RouterTask

unfoldable pub initial : Stages
initial = record {
  framer = Framer.new;
  demux = with_default_channels;
  decoders = Decoder.new;
  router_task = Dispatch.new;
}

-- The answers of the channels behind the demultiplexer, the decoder and the router, and of the lock.
pub record Answers : Type 0 where
  pub demux_accepted : Bool
  pub decoder_accepted : Bool
  pub sink_accepted : Bool
  pub lock_free : Bool

-- The relay's send waits until there is room.
unfoldable pub decode_frame : ℕ → Answers → AosFrame → Stages → Stages
decode_frame now a frame s =
    let decoded = process now a.decoder_accepted frame (s.decoders frame.vc_id) in
    let t : Stages = record s {
      decoders = λ vc. if vc == frame.vc_id then decoded.0 else s.decoders vc;
    } in
    elim decoded.1 [
      | none ↦ t
      | some bytes ↦
          let item : Item = record {
            vc_id = frame.vc_id;
            bytes = bytes;
            accepted = a.sink_accepted;
            lock_free = a.lock_free;
          } in
          record t { router_task = route_item item t.router_task }
    ]

unfoldable pub demux_frame : ℕ → Answers → AosFrame → Stages → Stages
demux_frame now a frame s =
    let dispatched = dispatch now a.demux_accepted frame s.demux in
    let t = record s { demux = dispatched.0 } in
    elim dispatched.1 [ none ↦ t | some sent ↦ decode_frame now a sent t ]

unfoldable pub receive : (List ℕ → ℕ) → ℕ → Answers → List ℕ → Stages → Stages
receive crc16 now a buf s =
    let received = process_frame crc16 now buf s.framer in
    let t = record s { framer = received.0 } in
    elim received.1 [ none ↦ t | some frame ↦ demux_frame now a frame t ]
