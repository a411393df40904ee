-- ===== src/Station/Pipeline/Demonstration.antt =====
-- What the demonstration tool's frames do to the ground station.
use mathlib.Core.Path.{subst}
use build_with_opus.Prelude.{
  ℕ, ◌≤◌, ◌<◌, ◌≡◌, refl, ◌∙◌, inl, inr, Option-cases, List, [], ◌∷◌, All, ok, err, length,
}
use build_with_opus.Wire.Error.{CcsdsError}
use build_with_opus.Wire.Packet.{parse}
use build_with_opus.Ingest.Carrier.{AosFrame}
use build_with_opus.Ingest.Demux.{dispatch}
use build_with_opus.Ingest.Demux.Counts.{dispatch-sent}
use build_with_opus.Ingest.Decoder.Forwarding.{process-refused}
use build_with_opus.Injector.{InjectorState}
use build_with_opus.Injector.Floats.{Floats}
use build_with_opus.Injector.Tick.{inject_tick}
use build_with_opus.Injector.Refused.{IsUnreadable, inject_tick-IsUnreadable}
use build_with_opus.Station.Pipeline.{Stages, Answers, decode_frame, demux_frame, receive}

-- The frames one after the other, with one set of answers for all.
unfoldable pub receive_all : (List ℕ → ℕ) → ℕ → Answers → List (List ℕ) → Stages → Stages
receive_all crc16 now a [] s = s
receive_all crc16 now a (frame ∷ later) s =
    receive_all crc16 now a later (receive crc16 now a frame s)

decode_frame-refused :
    (now : ℕ) (a : Answers) (frame : AosFrame) (s : Stages) (e : CcsdsError)
    → parse frame.data_field ≡ err e
    → (decode_frame now a frame s).router_task ≡ s.router_task
unfolding decode_frame
decode_frame-refused now a frame s e refused =
    rw
      (
        (process-refused now a.decoder_accepted frame (s.decoders frame.vc_id) e refused).0,
        decode_frame,
      )
      refl

demux_frame-refused :
    (now : ℕ) (a : Answers) (frame : AosFrame) (s : Stages) (e : CcsdsError)
    → parse frame.data_field ≡ err e
    → (demux_frame now a frame s).router_task ≡ s.router_task
unfolding demux_frame
demux_frame-refused now a frame s e refused =
    elim (Option-cases (dispatch now a.demux_accepted frame s.demux).1) [
      | inl dropped ↦ rw (dropped, demux_frame) refl
      | inr (sent, passed) ↦
          rw (passed, demux_frame)
            (decode_frame-refused now a sent
              (record s { demux = (dispatch now a.demux_accepted frame s.demux).0 }) e
              (subst (λ (f : AosFrame). parse f.data_field ≡ err e)
                (dispatch-sent now a.demux_accepted frame sent s.demux passed) refused))
    ]

module _ (crc16 : List ℕ → ℕ) (now : ℕ) (a : Answers) where
  receive-unreadable :
      (frame : List ℕ) (s : Stages)
      → IsUnreadable crc16 frame
      → (receive crc16 now a frame s).router_task ≡ s.router_task
  unfolding receive
  receive-unreadable frame s u =
      rw (u.taken now s.framer, receive) (demux_frame-refused now a u.carried _ u.reason u.refused)

  receive_all-unreadable :
      (frames : List (List ℕ)) (s : Stages)
      → All (IsUnreadable crc16) frames
      → (receive_all crc16 now a frames s).router_task ≡ s.router_task
  unfolding receive_all
  receive_all-unreadable [] s u = refl
  receive_all-unreadable (frame ∷ later) s u =
      receive_all-unreadable later (receive crc16 now a frame s) u.1
      ∙ receive-unreadable frame s u.0

  -- Every second the demonstration tool sends thirty frames, whatever its counters and the floating
  -- point numbers in them. The receiver takes each of them, and the parser refuses what each
  -- carries: in no state of the ground station does anything of them come to the router or to a
  -- sink.
  pub receive_all-inject_tick :
      (word : (bytes : List ℕ) → crc16 bytes < 65536) (floats : Floats) (tai : ℕ)
      (tool : InjectorState) (s : Stages)
      → tai < 4294967296
      → tool.seq ≤ 0x3FFF
      → (t : InjectorState) × (frames : List (List ℕ)) × (inject_tick floats crc16 tai tool
          ≡ ok (t, frames))
        × (length frames ≡ 30)
        × All (IsUnreadable crc16) frames
        × ((receive_all crc16 now a frames s).router_task ≡ s.router_task)
  receive_all-inject_tick word floats tai tool s ht hs =
      let (t, frames, sent, _, count, all) =
        inject_tick-IsUnreadable crc16 floats word tai tool ht hs in
      (t, frames, sent, count, all, receive_all-unreadable frames s all)
