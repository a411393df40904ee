-- ===== src/Station/Runs.antt =====
-- The theorems on the station at concrete inputs.
use build_with_opus.Prelude.{
  ℕ, ◌+◌, ◌≤◌, ◌≡◌, refl, true, none, some, ◌++◌, ◌==◌, if◌then◌else◌, List, [], ◌∷◌, All, ok,
  length, replicate, ltb, arith,
}
use build_with_opus.Prelude.Int.{pos}
use build_with_opus.Ingest.Sinks.{Texts, process_hk_packet}
use build_with_opus.Ingest.Carrier.{AosFrame}
use build_with_opus.Ingest.Framer as Framer
use build_with_opus.Ingest.Framer.{process_frame, extract}
use build_with_opus.Ingest.Demux.{with_default_channels}
use build_with_opus.Injector.{InjectorState, initial, send}
use build_with_opus.Injector.Tick.{inject_tick}
use build_with_opus.Injector.Refused.{IsUnreadable}
use build_with_opus.Injector.Runs.{whole, checksum}
use build_with_opus.Ui.Time.{Seconds}
use build_with_opus.Ui.State.{UiState, new}
use build_with_opus.Ui.Links.{latest_hk_frame}
use build_with_opus.Ui.Handlers.{TcSubmitRequest, queue_entry, post_tc}
use build_with_opus.Station.Dispatch as Dispatch
use build_with_opus.Station.Dispatch.{Item, route_items}
use build_with_opus.Station.Dispatch.Security.{IsClean, route_items-IsClean}
use build_with_opus.Station.Dispatch.Suspect.{any_marks, time_suspect_seen-route_items}
use build_with_opus.Station.Tasks as Tasks
use build_with_opus.Station.Tasks.Window.{Reach-post_tc}
use build_with_opus.Station.Pipeline as Pipeline
use build_with_opus.Station.Interleaving.{on_buffer, on_frame, start, buffer, demux, here, next}
use build_with_opus.Station.Interleaving.Omits.{Omits}
use build_with_opus.Station.Interleaving.Packets.{under_way, packets_of}
use build_with_opus.Station.Interleaving.Order.{Reach-Omits}
use build_with_opus.Station.Pipeline.{receive}
use build_with_opus.Station.Pipeline.Arrival.{all_room, receive-send}
use build_with_opus.Station.Pipeline.Demonstration.{receive_all, receive_all-inject_tick}

-- A packet that fills a frame of channel 0.
abbrev raw_packet : List ℕ
raw_packet =
    0x09
    ∷ 0x01
    ∷ 0xC0
    ∷ 0x00
    ∷ 0x03
    ∷ 0xF1
    ∷ 0x2F
    ∷ 0x12
    ∷ 0x34
    ∷ 0x56
    ∷ 0x78
    ∷ 0xAA
    ∷ 0xBB
    ∷ 0x01
    ∷ 0x00
    ∷ 0x01
    ∷ replicate 1000 0

abbrev raw_frame : List ℕ
raw_frame = replicate 6 0 ++ (raw_packet ++ 0 ∷ 0 ∷ [])

abbrev carried : AosFrame
carried = record { vc_id = 0; ocf = none; data_field = raw_packet }

process_frame-raw_frame : (process_frame checksum 0 raw_frame Framer.new).1 ≡ some carried
unfolding process_frame extract
process_frame-raw_frame = refl

frames-raw_frame : (on_buffer checksum 0 raw_frame start).frames ≡ carried ∷ []
unfolding on_buffer start Pipeline.initial
frames-raw_frame = rw (process_frame-raw_frame, on_buffer) refl

-- The receiver takes the frame, and the demultiplexer hands it on.
Reach-Omits_example :
    let s = on_frame 0 carried [] (on_buffer checksum 0 raw_frame start) in
    (k : ℕ) × (k ≤ s.lost 0)
    × Omits k (under_way 0 s) (packets_of 0 s.arrived)
    × (if s.lost 0 == 0 then (under_way 0 s ≡ packets_of 0 s.arrived) else Unit {0})
Reach-Omits_example =
    Reach-Omits checksum 0 (on_frame 0 carried [] (on_buffer checksum 0 raw_frame start))
      (next (next here (buffer 0 raw_frame)) (demux 0 carried [] frames-raw_frame))

-- The simulator's clock skew by radio, and housekeeping.
abbrev skew : Item
skew = record {
  vc_id = 0;
  bytes = 0x0D ∷ 0x41 ∷ 0xC0 ∷ 0 ∷ 0 ∷ 9 ∷ 0x2F ∷ 0 ∷ 0 ∷ 0 ∷ 9 ∷ 0 ∷ 0 ∷ 0 ∷ 2 ∷ 1 ∷ [];
  accepted = true;
  lock_free = true;
}

abbrev house : Item
house = record {
  vc_id = 0;
  bytes = 0x09 ∷ 0x01 ∷ 0xC0 ∷ 0 ∷ 0 ∷ 9 ∷ 0x2F ∷ 0 ∷ 0 ∷ 0 ∷ 9 ∷ 0 ∷ 0 ∷ 0 ∷ 2 ∷ 1 ∷ [];
  accepted = true;
  lock_free = true;
}

route_items-IsClean_example : IsClean (route_items (skew ∷ house ∷ []) Dispatch.new).outlets
route_items-IsClean_example = route_items-IsClean (skew ∷ house ∷ [])

time_suspect_seen-route_items_example :
    (route_items (house ∷ skew ∷ []) Dispatch.new).outlets.time_suspect_seen
    ≡ any_marks (house ∷ skew ∷ [])
time_suspect_seen-route_items_example = time_suspect_seen-route_items (house ∷ skew ∷ [])

-- Whole seconds.
abbrev exact : Seconds
exact = record {
  F64 = ℕ;
  F32 = ℕ;
  of_u32 = λ n. n;
  tenths = λ n. n;
  of_be_bytes = λ bytes. length bytes;
  add = λ a b. a + b;
  sub = λ a b. a;
  is_above = λ a b. ltb b a;
  exact = λ a b c ha hb hc. refl;
}

-- A deadline that is long past, in the year 2024.
abbrev past : TcSubmitRequest
past = record { valid_until_tai_coarse = 2082758437; apid = some 0x181; func_code = some 0x0100 }

Reach-post_tc_example :
    let s : UiState exact = new exact (pos 37) 64 in
    (post_tc exact past s
      ≡ (record s { tc_queue = queue_entry past ∷ [] }, ok (record { accepted = true })))
    × (0 ≤ 64)
unfolding new
Reach-post_tc_example =
    Reach-post_tc exact (pos 37) 64 (new exact (pos 37) 64) past Tasks.here (omega arith)

abbrev texts : Texts
texts = record { iso8601 = λ t. t.coarse ∷ []; now_utc = 7 ∷ []; lossy = λ bytes. bytes }

receive-send_example :
    (t : InjectorState) × (frame : List ℕ) × (pkt : List ℕ) × (send checksum 0x101 0 1700000037
        (replicate 1000 5)
        initial
      ≡ ok (t, frame))
    × ((receive checksum 0 all_room frame Pipeline.initial).router_task.outlets.hk_sent ≡ pkt ∷ [])
    × (latest_hk_frame (process_hk_packet texts pkt []) 0x101
        ≡ some (record { timestamp_utc = 1700000037 ∷ []; payload = replicate 1000 5 }))
unfolding Pipeline.initial Dispatch.new with_default_channels
receive-send_example =
    receive-send checksum (λ bytes. omega arith) texts 0x101 1700000037 (replicate 1000 5) initial 0
      Pipeline.initial [] refl (omega arith) (omega arith) refl (refl, refl)

receive_all-inject_tick_example :
    (t : InjectorState) × (frames : List (List ℕ)) × (inject_tick whole checksum 1700000037 initial
      ≡ ok (t, frames))
    × (length frames ≡ 30)
    × All (IsUnreadable checksum) frames
    × ((receive_all checksum 0 all_room frames Pipeline.initial).router_task
        ≡ Pipeline.initial.router_task)
receive_all-inject_tick_example =
    receive_all-inject_tick checksum 0 all_room (λ bytes. omega arith) whole 1700000037 initial
      Pipeline.initial (omega arith) (omega arith)
