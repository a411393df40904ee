-- ===== src/Uplink/Transfer.antt =====
-- rust/ground_station/src/uplink: the builder, the engine and the framer one after the other.
use build_with_opus.Prelude.{
  ℕ, ◌-◌, ◌≤◌, ◌<◌, ◌≡◌, refl, false, true, some, List, [], ◌∷◌, ◌++◌, ok, length, ltb, take, arith,
}
use build_with_opus.Wire.SequenceCount
use build_with_opus.Wire.SequenceCount.{SequenceCount}
use build_with_opus.Wire.Cuc
use build_with_opus.Wire.Cuc.{Cuc}
use build_with_opus.Wire.Packet.{SpacePacket, parse}
use build_with_opus.Uplink.Fop1.{Cop1Engine, TcFrame}
use build_with_opus.Uplink.Cop1.{is_active, ad_frame, submit}
use build_with_opus.Uplink.Cop1.Invariant.{submit-accepted}
use build_with_opus.Uplink.TcBuilder.{TcIntent, build}
use build_with_opus.Uplink.TcBuilder.Catalog.{IsTyped, is_excessive}
use build_with_opus.Uplink.TcBuilder.RoundTrip.{Commands, build_small}
use build_with_opus.Uplink.TcFramer.{TcFramer, frame}
use build_with_opus.Uplink.TcFramer.Deframe.{FrameFields, deframe, fields_of, frame-parts}

-- A telecommand that fits: the frame on the wire reads back as the frame.
frame_small :
    (crc16 : List ℕ → ℕ) (framer : TcFramer) (f : TcFrame)
    → length f.payload ≤ 34
    → (out : List ℕ) × (frame crc16 framer f ≡ ok out)
      × (length out ≤ 512)
      × (deframe out ≡ some (fields_of crc16 framer f (take (length out - 2) out)))
frame_small crc16 framer f h = rw (small (length f.payload) h) at (frame-parts crc16 framer f)
  where
    small : (n : ℕ) → n ≤ 34 → ltb 505 n ≡ false
    small n h = ground (arith, h)

-- An intent whose fields fit their widths and whose drill current is not above 1000, submitted to
-- an active engine with fewer than 15 frames under way: it is built, the engine answers one frame
-- and keeps it for a retransmission under the same number, the framer writes that frame, and what
-- is read from the wire as CCSDS 232.0-B-3 says carries the number of the engine and a payload that
-- parses as a telecommand with exactly the meaning of the intent.
pub frame-submit-build :
    (crc16 : List ℕ → ℕ) (framer : TcFramer) (intent : TcIntent) (seq : SequenceCount) (tai : Cuc)
    (now : ℕ) (s : Cop1Engine)
    → IsTyped intent
    → is_excessive intent ≡ false
    → SequenceCount.IsValid seq
    → Cuc.IsValid tai
    → is_active s.state ≡ true
    → length s.window < 15
    → (bytes : List ℕ) × (f : TcFrame) × (out : List ℕ) × (fields : FrameFields) × (p : SpacePacket)
      × (build intent seq tai ≡ ok bytes)
      × ((submit now bytes s).1 ≡ ok (f ∷ []))
      × ((submit now bytes s).0.window ≡ s.window ++ (f.sequence, f.payload) ∷ [])
      × (frame crc16 framer f ≡ ok out)
      × (deframe out ≡ some fields)
      × (fields.sequence ≡ s.vs)
      × (parse fields.payload ≡ ok p)
      × Commands intent seq tai p
frame-submit-build crc16 framer intent seq tai now s typed safe hs ht running room =
    let (bytes, built, (p, parsed, means), short) = build_small intent seq tai typed safe hs ht in
    let f = ad_frame s.vs bytes in
    let (answered, kept) = submit-accepted now bytes s running room in
    let (out, framed, _, read) = frame_small crc16 framer f short in
    (bytes, f, out, _, p, built, answered, kept, framed, read, refl, parsed, means)
