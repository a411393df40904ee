-- ===== src/Station/Interleaving.antt =====
-- rust/ground_station/src/main.rs, stages 1b to 4, as tasks with channels between them, each of which
-- takes its next item whenever it is its turn.
pub mod Omits
pub mod Packets
pub mod Moves
pub mod Order
use build_with_opus.Prelude.{
  ℕ, ◌+◌, ◌*◌, ◌<◌, ◌≡◌, Bool, Option, none, some, List, [], ◌∷◌, ◌++◌, length, ltb, ◌==◌,
  if◌then◌else◌,
}
use build_with_opus.Ingest.Carrier.{AosFrame}
use build_with_opus.Ingest.Framer.{process_frame}
use build_with_opus.Ingest.Demux.{dispatch}
use build_with_opus.Ingest.Decoder.{process}
use build_with_opus.Station.Dispatch.{Item, route_item}
use build_with_opus.Station.Pipeline as Pipeline
use build_with_opus.Station.Pipeline.{Stages}

abbrev aos_to_demux_cap : ℕ
aos_to_demux_cap = 64

abbrev demux_to_spp_cap : ℕ
demux_to_spp_cap = 128

abbrev spp_to_router_cap : ℕ
spp_to_router_cap = 128

-- A function of the channel with another value at one of them.
abbrev pub update {ℓ} : {A : Type ℓ} → ℕ → A → (ℕ → A) → ℕ → A
update vc x f u = if vc == u then x else f u

-- What waits in the channels, the oldest first, and the packet that the relay of a channel holds
-- while it waits to send it on, or nothing. The last three fields only observe: the frames that
-- the receiver took, the packets that came to the router with their channels, and how many of a
-- channel's frames and packets were not sent on.
pub record Running : Type 0 where
  pub stages : Stages
  pub frames : List AosFrame
  pub channels : ℕ → List AosFrame
  pub packets : ℕ → List (List ℕ)
  pub held : ℕ → List (List ℕ)
  pub tagged : List (ℕ × List ℕ)
  pub arrived : List AosFrame
  pub routed : List (ℕ × List ℕ)
  pub lost : ℕ → ℕ

unfoldable pub start : Running
start = record {
  stages = Pipeline.initial;
  frames = [];
  channels = λ vc. [];
  packets = λ vc. [];
  held = λ vc. [];
  tagged = [];
  arrived = [];
  routed = [];
  lost = λ vc. 0;
}

abbrev pub lose : ℕ → (ℕ → ℕ) → ℕ → ℕ
lose vc lost = update vc (lost vc + 1) lost

-- `AosFramer::run` with one buffer.
unfoldable pub on_buffer : (List ℕ → ℕ) → ℕ → List ℕ → Running → Running
on_buffer crc16 now buf s =
    let received = process_frame crc16 now buf s.stages.framer in
    let stages : Stages = record s.stages { framer = received.0 } in
    elim received.1 [
      | none ↦ record s { stages = stages }
      | some frame ↦
          if ltb (length s.frames) aos_to_demux_cap
          then record s {
            stages = stages;
            frames = s.frames ++ frame ∷ [];
            arrived = s.arrived ++ frame ∷ [];
          }
          else record s {
            stages = stages;
            arrived = s.arrived ++ frame ∷ [];
            lost = lose frame.vc_id s.lost;
          }
    ]

-- `VcDemultiplexer::run` with the frame that waits first.
pub on_frame : ℕ → AosFrame → List AosFrame → Running → Running
on_frame now frame later s =
    let room = ltb (length (s.channels frame.vc_id)) demux_to_spp_cap in
    let dispatched = dispatch now room frame s.stages.demux in
    let stages : Stages = record s.stages { demux = dispatched.0 } in
    elim dispatched.1 [
      | none ↦ record s { stages = stages; frames = later; lost = lose frame.vc_id s.lost }
      | some sent ↦ record s {
        stages = stages;
        frames = later;
        channels = update sent.vc_id (s.channels sent.vc_id ++ sent ∷ []) s.channels;
      }
    ]

-- `SppDecoder::run` of a channel with the frame that waits first in it.
pub on_channel : ℕ → ℕ → AosFrame → List AosFrame → Running → Running
on_channel now vc frame later s =
    let room = ltb (length (s.packets vc)) spp_to_router_cap in
    let decoded = process now room frame (s.stages.decoders vc) in
    let stages : Stages = record s.stages { decoders = update vc decoded.0 s.stages.decoders } in
    let channels = update vc later s.channels in
    elim decoded.1 [
      | none ↦ record s {
        stages = stages;
        channels = channels;
        lost = if room then s.lost else lose vc s.lost;
      }
      | some bytes ↦ record s {
        stages = stages;
        channels = channels;
        packets = update vc (s.packets vc ++ bytes ∷ []) s.packets;
      }
    ]

-- The relay of a channel receives the packet that waits first in it.
pub on_received : ℕ → List ℕ → List (List ℕ) → Running → Running
on_received vc bytes later s = record s {
  packets = update vc later s.packets;
  held = update vc (s.held vc ++ bytes ∷ []) s.held;
}

-- It sends on the packet that it holds.
pub on_packet : ℕ → List ℕ → List (List ℕ) → Running → Running
on_packet vc bytes later s = record s {
  held = update vc later s.held;
  tagged = s.tagged ++ (vc, bytes) ∷ [];
}

-- The router.
pub on_tagged : Item → List (ℕ × List ℕ) → Running → Running
on_tagged item later s = record s {
  stages = record s.stages { router_task = route_item item s.stages.router_task };
  tagged = later;
  routed = s.routed ++ (item.vc_id, item.bytes) ∷ [];
}

-- Any task may be the next to go on. The relay receives a packet when it holds none, and waits
-- with it until there is room.
pub data Step (crc16 : List ℕ → ℕ) (s : Running) : Running → Type 0 where
  buffer : (now : ℕ) (buf : List ℕ) → Step crc16 s (on_buffer crc16 now buf s)
  demux :
      (now : ℕ) (frame : AosFrame) (later : List AosFrame)
      → s.frames ≡ frame ∷ later
      → Step crc16 s (on_frame now frame later s)
  decode :
      (now vc : ℕ) (frame : AosFrame) (later : List AosFrame)
      → s.channels vc ≡ frame ∷ later
      → Step crc16 s (on_channel now vc frame later s)
  receive_packet :
      (vc : ℕ) (bytes : List ℕ) (later : List (List ℕ))
      → s.packets vc ≡ bytes ∷ later
      → s.held vc ≡ []
      → Step crc16 s (on_received vc bytes later s)
  relay :
      (vc : ℕ) (bytes : List ℕ) (later : List (List ℕ))
      → s.held vc ≡ bytes ∷ later
      → length s.tagged < spp_to_router_cap * 4
      → Step crc16 s (on_packet vc bytes later s)
  dispatch_packet :
      (item : Item) (later : List (ℕ × List ℕ))
      → s.tagged ≡ (item.vc_id, item.bytes) ∷ later
      → Step crc16 s (on_tagged item later s)

pub data Reach (crc16 : List ℕ → ℕ) : Running → Type 0 where
  here : Reach crc16 start
  next : {s t : Running} → Reach crc16 s → Step crc16 s t → Reach crc16 t
