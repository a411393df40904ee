-- ===== src/Ingest/Runs.antt =====
-- The theorems on the receiving stages at concrete frames.
use build_with_opus.Prelude.{
  map, ℕ, ◌+◌, ◌%◌, ◌≡◌, refl, true, false, none, some, List, [], ◌∷◌, ◌++◌, replicate, All, ok,
  length, arith, ◌<◌, ◌*◌, concat, take, drop,
}
use build_with_opus.Wire.Packet.{SpacePacket, parse}
use build_with_opus.Wire.PacketType
use build_with_opus.Wire.PacketType.{tm}
use build_with_opus.Wire.Apid
use build_with_opus.Wire.SequenceCount
use build_with_opus.Wire.DataLength
use build_with_opus.Wire.FuncCode
use build_with_opus.Wire.InstanceId
use build_with_opus.Wire.Cuc
use build_with_opus.Wire.Primary
use build_with_opus.Wire.Secondary
use build_with_opus.Ingest.Carrier.{AosFrame}
use build_with_opus.Ingest.Framer.{AosFramer, los, new, process_frame, extract, byte_at}
use build_with_opus.Ingest.Framer.Link.{process_frame_lem}
use build_with_opus.Ingest.Framer.History.{
  Stimulus, received, ticked, run, observe_all, Observer, next, done, run-eq-observe_all,
}
use build_with_opus.Ingest.Framer.Stream as Stream
use build_with_opus.Ingest.Framer.Stream.{Receiver, pipe, end_of_file, HasTaken, run-pipe}
use build_with_opus.Ingest.Demux.Counts.{Arrival}
use build_with_opus.Ingest.Decoder as Decoder
use build_with_opus.Ingest.Decoder.Forwarding.{process_all, Parses, process_all_tally}
use build_with_opus.Ingest.Pipeline.{packet_fills_frame}

-- A checksum that is always 0.
abbrev checksum : List ℕ → ℕ
checksum bytes = 0

abbrev headers : List ℕ
headers =
    0x09 ∷ 0x01 ∷ 0xC0 ∷ 0x00 ∷ 0x03 ∷ 0xF1 ∷ 0x2F ∷ 0x12 ∷ 0x34 ∷ 0x56 ∷ 0x78 ∷ 0xAA ∷ 0xBB ∷ 0x01
    ∷ 0x00 ∷ 0x01 ∷ []

-- A packet of 1016 bytes in a frame of virtual channel 1.
abbrev raw_packet : List ℕ
raw_packet = headers ++ replicate 1000 0

abbrev raw_frame : List ℕ
raw_frame = 0x40 ∷ 0x01 ∷ 0 ∷ 0 ∷ 0 ∷ 0 ∷ raw_packet ++ 0 ∷ 0 ∷ []

abbrev carried : AosFrame
carried = record { vc_id = 1; ocf = none; data_field = raw_packet }

abbrev telemetry : SpacePacket
telemetry = record {
  primary = record {
    apid = record { raw = 0x101 };
    packet_type = tm;
    sequence_count = record { raw = 0 };
    data_length = record { raw = 1009 };
  };
  secondary = record {
    time = record { coarse = 0x1234_5678; fine = 0xAABB };
    func_code = record { raw = 0x0100 };
    instance_id = record { raw = 1 };
  };
  user_data = replicate 1000 0;
}

process_frame-raw_frame : (process_frame checksum 0 raw_frame new).1 ≡ some carried
unfolding process_frame extract
process_frame-raw_frame = refl

parse-raw_packet : parse raw_packet ≡ ok telemetry
unfolding parse Primary.decode Primary.decode_head Primary.top4 PacketType.from_bit Apid.new
    SequenceCount.new DataLength.new Secondary.decode Cuc.decode_be FuncCode.new InstanceId.new
parse-raw_packet = refl

packet_fills_frame_example : telemetry.primary.data_length.raw + 7 ≡ 1016
packet_fills_frame_example =
    packet_fills_frame checksum 0 raw_frame new carried telemetry refl process_frame-raw_frame
      parse-raw_packet

process_frame_lem_example :
    (frame : AosFrame) × ((process_frame checksum 0 raw_frame new).1 ≡ some frame)
    × (frame.vc_id ≡ byte_at raw_frame 1 % 64)
    × (length frame.data_field ≡ elim frame.ocf [ none ↦ 1016 | some o ↦ 1012 ])
    × ((process_frame checksum 0 raw_frame new).0.fecf_errors_total ≡ 0)
unfolding new
process_frame_lem_example = process_frame_lem checksum 0 raw_frame new refl

-- A valid frame came 6 seconds ago and another one now.
abbrev acquiring : AosFramer
acquiring = record {
  fecf_errors_total = 0;
  last_fecf_event = none;
  link_state = los;
  aos_condition_since = some 4000000000;
  frame_window = (4000000000, true) ∷ (10000000000, true) ∷ [];
}

abbrev day : List (ℕ × Stimulus)
day = (1000, received raw_frame) ∷ (2000, received []) ∷ (40000000000, ticked) ∷ []

abbrev start : Observer
start = record { state = los; since = none; history = [] }

run-eq-observe_all_example :
    (run checksum day new).link_state ≡ (observe_all checksum day start).state
run-eq-observe_all_example =
    run-eq-observe_all checksum day
      (next (omega arith) (next (omega arith) (next (omega arith) done)))

abbrev refused : List Arrival
refused =
    record { now = 1000000000; accepted = false; frame = carried }
    ∷ record { now = 1500000000; accepted = false; frame = carried }
    ∷ []

process_all_tally_example :
    let r = process_all refused (Decoder.new 1) in
    (length r.1 + r.0.dropped_total + r.0.decode_fail_total ≡ length refused) × All Parses r.1
process_all_tally_example = process_all_tally 1 refused

-- The frame comes in two datagrams, the second of which has two bytes more.
abbrev datagrams : List (List ℕ)
datagrams = take 500 raw_frame ∷ (drop 500 raw_frame ++ 7 ∷ 7 ∷ []) ∷ []

abbrev listening : Receiver
listening = record { framer = new; sent = [] }

length-datagrams : length (pipe datagrams) < 2 * 1024
unfolding pipe
length-datagrams = omega arith

run-pipe_example :
    (buffers : List (List ℕ)) × (rest : List ℕ) × (r' : Receiver) × (concat
        (map (take 16384) datagrams)
      ≡ concat buffers ++ rest)
    × All (λ buf. length buf ≡ 1024) buffers
    × (length rest < 1024)
    × HasTaken checksum (λ i. i) buffers listening r'
    × (Stream.run checksum (λ i. i) 2 (pipe datagrams) end_of_file listening ≡ some (r', ok tt))
run-pipe_example = run-pipe checksum (λ i. i) 2 datagrams end_of_file listening length-datagrams
