-- ===== src/Station/Interleaving/Order.antt =====
-- The packets of a virtual channel keep their order, whatever order the tasks run in.
use mathlib.Core.Path.{subst}
use build_with_opus.Prelude.{
  ℕ, ◌+◌, ◌≤◌, ◌≡◌, refl, sym, ap, ◌∙◌, Bool-cases, inl, inr, Option-cases, List, ◌++◌, length, ltb,
  ◌==◌, ==_iff, if◌then◌else◌, arith,
}
use build_with_opus.Ingest.Carrier.{AosFrame}
use build_with_opus.Ingest.Framer.{process_frame}
use build_with_opus.Ingest.Demux.{dispatch}
use build_with_opus.Ingest.Decoder.{process}
use build_with_opus.Station.Interleaving.{
  Running, start, on_buffer, on_frame, on_channel, on_packet, on_received, on_tagged, Step, buffer,
  demux, decode, receive_packet, relay, dispatch_packet, Reach, here, next, spp_to_router_cap,
  demux_to_spp_cap, aos_to_demux_cap,
}
use build_with_opus.Station.Interleaving.Omits.{
  Omits, done, Omits-count, Omits-into, Omits-none, Omits-suffix, Omits-trans,
}
use build_with_opus.Station.Interleaving.Packets.{
  if_of, marked, omit_last, packets_in, packets_of, packets_of-append, under_way, under_way-append,
}
use build_with_opus.Station.Interleaving.Moves.{
  Moves, on_tagged-Moves, on_packet-Moves, on_received-Moves, lose-eq, on_frame-Moves,
  on_channel-Moves,
}

abbrev Ordered : ℕ → Running → Type 0
Ordered vc s = (k : ℕ) × (k ≤ s.lost vc) × Omits k (under_way vc s) (packets_of vc s.arrived)

on_buffer-Ordered :
    (vc : ℕ) (crc16 : List ℕ → ℕ) (now : ℕ) (buf : List ℕ) (s : Running)
    → Ordered vc s
    → Ordered vc (on_buffer crc16 now buf s)
unfolding on_buffer under_way
on_buffer-Ordered vc crc16 now buf s (k, few, omits) =
    elim (Option-cases (process_frame crc16 now buf s.stages.framer).1) [
      | inl corrupt ↦ rw (corrupt, on_buffer) (k, few, omits)
      | inr (frame, intact) ↦ elim (Bool-cases (ltb (length s.frames) aos_to_demux_cap)) [
        | inl free ↦
            let last = if_of vc frame in
            let before =
              ap
                (λ l.
                  marked vc s.routed
                  ++ (marked vc s.tagged
                      ++ ((s.held vc ++ s.packets vc) ++ (packets_in (s.channels vc) ++ l))))
                (packets_of-append vc s.frames frame)
              ∙ under_way-append (marked vc s.routed) (marked vc s.tagged)
                  (s.held vc ++ s.packets vc) (packets_in (s.channels vc)) (packets_of vc s.frames)
                  last in
            let longer =
              subst (λ l. Omits k l (packets_of vc s.arrived ++ last)) (sym before)
                (Omits-suffix last omits) in
            rw (intact, on_buffer)
              (rw free (k, few, Omits-into (sym (packets_of-append vc s.arrived frame)) longer))
        | inr full ↦
            let (m, little, left) = omit_last (frame.vc_id == vc) frame (packets_of vc s.arrived) in
            rw (intact, on_buffer)
              (rw full (
                k + m,
                omega (arith, few, little, lose-eq s.lost frame.vc_id vc),
                Omits-into (sym (packets_of-append vc s.arrived frame)) (Omits-trans omits left),
              ))
      ]
    ]

Moves-Ordered :
    (vc : ℕ) (s t : Running) → t.arrived ≡ s.arrived → Moves vc s t → Ordered vc s → Ordered vc t
Moves-Ordered vc s t same (m, grows, moves) (k, few, omits) =
    let left = Omits-trans moves omits in
    (m + k, omega (arith, grows, few), Omits-into (sym (ap (packets_of vc) same)) left)

arrived-on_frame :
    (now : ℕ) (frame : AosFrame) (later : List AosFrame) (s : Running)
    → (on_frame now frame later s).arrived ≡ s.arrived
unfolding on_frame
arrived-on_frame now frame later s =
    let room = ltb (length (s.channels frame.vc_id)) demux_to_spp_cap in
    elim (Option-cases (dispatch now room frame s.stages.demux).1) [
      | inl refused ↦ rw (refused, on_frame) refl
      | inr (sent, passed) ↦ rw (passed, on_frame) refl
    ]

arrived-on_channel :
    (now u : ℕ) (frame : AosFrame) (later : List AosFrame) (s : Running)
    → (on_channel now u frame later s).arrived ≡ s.arrived
unfolding on_channel
arrived-on_channel now u frame later s =
    let room = ltb (length (s.packets u)) spp_to_router_cap in
    elim (Option-cases (process now room frame (s.stages.decoders u)).1) [
      | inl stays ↦ rw (stays, on_channel) refl
      | inr (bytes, goes_on) ↦ rw (goes_on, on_channel) refl
    ]

Step-Ordered :
    (vc : ℕ) (crc16 : List ℕ → ℕ) (s t : Running) → Step crc16 s t → Ordered vc s → Ordered vc t
unfolding on_packet on_received on_tagged
Step-Ordered vc crc16 s t (buffer now buf) o = on_buffer-Ordered vc crc16 now buf s o
Step-Ordered vc crc16 s t (demux now frame later e) o =
    Moves-Ordered vc s t (arrived-on_frame now frame later s)
      (on_frame-Moves vc now frame later s e) o
Step-Ordered vc crc16 s t (decode now u frame later e) o =
    Moves-Ordered vc s t (arrived-on_channel now u frame later s)
      (on_channel-Moves vc now u frame later s e) o
Step-Ordered vc crc16 s t (receive_packet u bytes later e idle) o =
    Moves-Ordered vc s t refl (on_received-Moves vc u bytes later s e) o
Step-Ordered vc crc16 s t (relay u bytes later e room) o =
    Moves-Ordered vc s t refl (on_packet-Moves vc u bytes later s e) o
Step-Ordered vc crc16 s t (dispatch_packet item later e) o =
    Moves-Ordered vc s t refl (on_tagged-Moves vc item later s e) o

Reach-Ordered : (crc16 : List ℕ → ℕ) (vc : ℕ) (s : Running) → Reach crc16 s → Ordered vc s
unfolding start
Reach-Ordered crc16 vc s here =
    (0, omega arith, unfold under_way marked packets_in packets_of in done)
Reach-Ordered crc16 vc s (next {s = before} r step) =
    Step-Ordered vc crc16 before s step (Reach-Ordered crc16 vc before r)

-- In whatever order the tasks run and however full their channels are: what came to the router from
-- a virtual channel, and behind it what is still on the way there, are the packets in the frames of
-- that channel that the receiver took, in the order in which they came, without at most as many of
-- them as there were frames and packets of the channel that some task could not send on. If there
-- were none, nothing is missing.
pub Reach-Omits :
    (crc16 : List ℕ → ℕ) (vc : ℕ) (s : Running)
    → Reach crc16 s
    → (k : ℕ) × (k ≤ s.lost vc)
      × Omits k (under_way vc s) (packets_of vc s.arrived)
      × (if s.lost vc == 0 then (under_way vc s ≡ packets_of vc s.arrived) else Unit {0})
Reach-Omits crc16 vc s r =
    let (k, few, omits) = Reach-Ordered crc16 vc s r in
    (
      k,
      few,
      omits,
      elim (Bool-cases (s.lost vc == 0)) [
        | inl none_lost ↦ rw none_lost (
            Omits-none (Omits-count (omega (arith, few, (==_iff (s.lost vc) 0).0 none_lost)) omits))
        | inr some_lost ↦ rw some_lost tt
      ],
    )
