-- ===== src/Ingest/Demux.antt =====
-- rust/ground_station/src/ingest/demux.rs: frames to the channels of their virtual channel.
pub mod Counts
pub mod Events
use build_with_opus.Prelude.{
  ℕ, ◌+◌, Bool, true, false, ◌||◌, Option, none, some, List, [], ◌∷◌, ◌==◌, if◌then◌else◌,
}
use build_with_opus.Ingest.Carrier.{AosFrame, should_emit, emitted}

abbrev pub vc_idle : ℕ
vc_idle = 63

-- `contains` on the set of channels and on the keys of the senders
abbrev pub contains : ℕ → List ℕ → Bool
contains vc [] = false
contains vc (v ∷ vs) = v == vc || contains vc vs

-- The senders are the virtual channels that have one. `bp_events` are the times at which the event
-- EVENT-INGEST-BACKPRESSURE was logged, the latest first.
pub record VcDemultiplexer : Type 0 where
  pub senders : List ℕ
  pub idle_vcs : List ℕ
  pub dropped_total : ℕ
  pub unknown_vc_total : ℕ
  pub last_bp_event : Option ℕ
  pub bp_events : List ℕ

unfoldable pub new : List ℕ → VcDemultiplexer
new senders = record {
  senders = senders;
  idle_vcs = vc_idle ∷ [];
  dropped_total = 0;
  unknown_vc_total = 0;
  last_bp_event = none;
  bp_events = [];
}

unfoldable pub with_default_channels : VcDemultiplexer
unfolding new
with_default_channels = new (0 ∷ 1 ∷ 2 ∷ 3 ∷ [])

pub add_idle_vc : ℕ → VcDemultiplexer → VcDemultiplexer
add_idle_vc vc s = record s { idle_vcs = vc ∷ s.idle_vcs }

pub emit_bp_event : ℕ → VcDemultiplexer → VcDemultiplexer
emit_bp_event now s = record s {
  last_bp_event = emitted now s.last_bp_event;
  bp_events = if should_emit now s.last_bp_event then now ∷ s.bp_events else s.bp_events;
}

-- `accepted` is what `try_send` on the frame's channel answers. The frame that was sent is the answer.
pub dispatch : ℕ → Bool → AosFrame → VcDemultiplexer → VcDemultiplexer × Option AosFrame
dispatch now accepted frame s =
    if contains frame.vc_id s.idle_vcs
    then (s, none)
    else if contains frame.vc_id s.senders
    then (if accepted
        then (s, some frame)
        else (emit_bp_event now (record s { dropped_total = s.dropped_total + 1 }), none))
    else (record s { unknown_vc_total = s.unknown_vc_total + 1 }, none)
