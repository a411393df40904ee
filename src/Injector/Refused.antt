-- ===== src/Injector/Refused.antt =====
-- What becomes of the tool's frames at the ground station.
use build_with_opus.Prelude.{
  ℕ, ◌+◌, ◌%◌, ◌≤◌, ◌<◌, ◌≡◌, refl, ◌∙◌, ◌==◌, if◌then◌else◌, none, some, List, [], ◌∷◌, All, ok,
  err, length, arith,
}
use build_with_opus.Wire.Error.{CcsdsError, length_mismatch}
use build_with_opus.Wire.Packet.{parse}
use build_with_opus.Ingest.Carrier.{AosFrame}
use build_with_opus.Ingest.Framer.{AosFramer, process_frame}
use build_with_opus.Injector.{InjectorState, send}
use build_with_opus.Injector.Floats.{Floats}
use build_with_opus.Injector.Tick.{Shot, shots, send_all, inject_tick}
use build_with_opus.Injector.Delivery.{send-parse}
use build_with_opus.Injector.Lengths.{IsShort, shots-IsShort}

not_full :
    {A : Type 0} (full short : A) (n : ℕ) → n < 1000 → (if n == 1000 then full else short) ≡ short
not_full full short n h = ground arith

module _ (crc16 : List ℕ → ℕ) where
  -- The receiver takes the frame, whatever its state, and the parser refuses what it carries.
  pub record IsUnreadable (frame : List ℕ) : Type 0 where
    pub carried : AosFrame
    pub reason : CcsdsError
    pub taken :
        (now : ℕ) (receiver : AosFramer) → (process_frame crc16 now frame receiver).1 ≡ some carried
    pub refused : parse carried.data_field ≡ err reason

  module _ (word : (bytes : List ℕ) → crc16 bytes < 65536) (tai : ℕ) (ht : tai < 4294967296) where
    send-IsUnreadable :
        (a : Shot) (s : InjectorState)
        → IsShort a
        → s.seq ≤ 0x3FFF
        → (t : InjectorState) × (frame : List ℕ) × (send crc16 a.apid a.vc_id tai a.user_data s
            ≡ ok (t, frame))
          × (t.seq ≡ (s.seq + 1) % 0x4000)
          × IsUnreadable frame
    send-IsUnreadable a s short hs =
        let (t, frame, d, sent, _, seq, _, taken, parsed) =
          send-parse crc16 word a.apid a.vc_id tai a.user_data s short.0 ht hs
            (omega (arith, short.1)) in
        let e : CcsdsError = length_mismatch (16 + length a.user_data) 1016 in
        (
          t,
          frame,
          sent,
          seq,
          record {
            carried = record { vc_id = a.vc_id % 64; ocf = none; data_field = d };
            reason = e;
            taken = taken;
            refused = parsed ∙ not_full _ (err e) (length a.user_data) short.1;
          },
        )

    send_all-IsUnreadable :
        (later : List Shot) (s : InjectorState)
        → All IsShort later
        → s.seq ≤ 0x3FFF
        → (t : InjectorState) × (frames : List (List ℕ)) × (send_all crc16 tai later s
            ≡ ok (t, frames))
          × (t.seq ≡ (s.seq + length later) % 0x4000)
          × (length frames ≡ length later)
          × All IsUnreadable frames
    unfolding send_all
    send_all-IsUnreadable [] s short hs = (s, [], refl, omega arith, refl, tt)
    send_all-IsUnreadable (a ∷ later) s short hs =
        let (t, frame, sent, seq, refused) = send-IsUnreadable a s short.0 hs in
        let (u, frames, rest, last_seq, count, all) =
          send_all-IsUnreadable later t short.1 (omega (arith, seq)) in
        (
          u,
          frame ∷ frames,
          rw (sent, rest) refl,
          omega (arith, seq, last_seq),
          omega (arith, count),
          (refused, all),
        )

  -- All thirty frames of a tick are so, whatever the tool's counters and the floating point numbers.
  pub inject_tick-IsUnreadable :
      (floats : Floats) (word : (bytes : List ℕ) → crc16 bytes < 65536) (tai : ℕ)
      (s : InjectorState)
      → tai < 4294967296
      → s.seq ≤ 0x3FFF
      → (t : InjectorState) × (frames : List (List ℕ)) × (inject_tick floats crc16 tai s
          ≡ ok (t, frames))
        × (t.seq ≡ (s.seq + 30) % 0x4000)
        × (length frames ≡ 30)
        × All IsUnreadable frames
  unfolding inject_tick
  inject_tick-IsUnreadable floats word tai s ht hs =
      let (short, count) = shots-IsShort floats s.tick in
      let (t, frames, sent, seq, len, all) =
        send_all-IsUnreadable word tai ht (shots floats s.tick) s short hs in
      (t, frames, sent, omega (arith, seq, count), omega (arith, len, count), all)
