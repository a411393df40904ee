-- ===== src/Ingest/Demux/Counts.antt =====
-- No frame is lost without being counted, and the event is not logged too often.
use build_with_opus.Prelude.{
  ℕ, ◌+◌, ◌≡◌, refl, ap, Bool, true, false, Option, none, some, List, [], ◌∷◌, ◌++◌, length,
  length-append, if◌then◌else◌, arith,
}
use build_with_opus.Ingest.Carrier.{AosFrame}
use build_with_opus.Ingest.Demux.{VcDemultiplexer, new, contains, emit_bp_event, dispatch}

-- A frame, the time at which it comes, and what its channel answers.
pub record Arrival : Type 0 where
  pub now : ℕ
  pub accepted : Bool
  pub frame : AosFrame

abbrev pub sent_of : Option AosFrame → List AosFrame
sent_of none = []
sent_of (some frame) = frame ∷ []

unfoldable pub dispatch_all : List Arrival → VcDemultiplexer → VcDemultiplexer × List AosFrame
dispatch_all [] s = (s, [])
dispatch_all (a ∷ later) s =
    let (t, sent) = dispatch a.now a.accepted a.frame s in
    let (u, rest) = dispatch_all later t in (u, sent_of sent ++ rest)

-- How many frames belong to a channel that is discarded in silence.
pub idle_among : List ℕ → List Arrival → ℕ
idle_among idle [] = 0
idle_among idle (a ∷ later) = (if contains a.frame.vc_id idle then 1 else 0) + idle_among idle later

abbrev tally : VcDemultiplexer → ℕ
tally s = s.dropped_total + s.unknown_vc_total

tally-emit_bp_event :
    (now : ℕ) (s : VcDemultiplexer)
    → ((emit_bp_event now s).dropped_total ≡ s.dropped_total)
      × ((emit_bp_event now s).unknown_vc_total ≡ s.unknown_vc_total)
      × ((emit_bp_event now s).idle_vcs ≡ s.idle_vcs)
unfolding emit_bp_event
tally-emit_bp_event now s = (refl, refl, refl)

dispatch-tally :
    (a : Arrival) (s : VcDemultiplexer)
    → let r = dispatch a.now a.accepted a.frame s in
      (r.0.idle_vcs ≡ s.idle_vcs)
      × (length (sent_of r.1) + tally r.0 + (if contains a.frame.vc_id s.idle_vcs then 1 else 0)
          ≡ tally s + 1)
unfolding dispatch
dispatch-tally a s =
    ground (arith, tally-emit_bp_event a.now (record s { dropped_total = s.dropped_total + 1 }))

total_from :
    (frames : List Arrival) (s : VcDemultiplexer)
    → let r = dispatch_all frames s in
      length r.1 + tally r.0 + idle_among s.idle_vcs frames ≡ tally s + length frames
unfolding dispatch_all idle_among
total_from [] s = omega arith
total_from (a ∷ later) s =
    let r = dispatch a.now a.accepted a.frame s in
    let one = dispatch-tally a s in
    let rest = total_from later r.0 in
    let same = ap (λ idle. idle_among idle later) one.0 in
    omega (arith, one.1, rest, same, length-append (sent_of r.1) (dispatch_all later r.0).1)

-- Of the frames that come to a new demultiplexer, each is sent on, or counted as dropped, or
-- counted as of an unknown channel, or belongs to the idle channel.
pub dispatch_all_tally :
    (senders : List ℕ) (frames : List Arrival)
    → let r = dispatch_all frames (new senders) in
      length r.1 + r.0.dropped_total + r.0.unknown_vc_total + idle_among (63 ∷ []) frames
      ≡ length frames
unfolding new
dispatch_all_tally senders frames = omega (arith, total_from frames (new senders))

-- The demultiplexer has a sender for the channel, which is not one of those that it discards.
abbrev pub IsServed : ℕ → VcDemultiplexer → Type 0
IsServed vc d = (contains vc d.idle_vcs ≡ false) × (contains vc d.senders ≡ true)

pub dispatch-served :
    (now : ℕ) (frame : AosFrame) (d : VcDemultiplexer)
    → IsServed frame.vc_id d
    → dispatch now true frame d ≡ (d, some frame)
unfolding dispatch
dispatch-served now frame d h = rw (h.0, h.1, dispatch) refl

-- What is sent on is the frame that came.
pub dispatch-sent :
    (now : ℕ) (accepted : Bool) (frame sent : AosFrame) (d : VcDemultiplexer)
    → (dispatch now accepted frame d).1 ≡ some sent
    → frame ≡ sent
unfolding dispatch
dispatch-sent now accepted frame sent d h = ground (arith, h)
