-- ===== src/Ingest/Decoder/Forwarding.antt =====
-- What the decoder passes on, and that it counts the rest.
use build_with_opus.Prelude.{
  ℕ, ◌+◌, ◌≡◌, refl, Bool, true, false, inl, inr, Bool-cases, Option, none, some, List, [], ◌∷◌,
  ◌++◌, All, All-append, Result-cases, ok, err, length, length-append, arith,
}
use build_with_opus.Prelude.Table.{lookup}
use build_with_opus.Wire.Error.{CcsdsError}
use build_with_opus.Wire.Packet.{SpacePacket, parse}
use build_with_opus.Ingest.Carrier.{AosFrame, should_emit}
use build_with_opus.Ingest.Demux.Counts.{Arrival}
use build_with_opus.Ingest.Decoder.{
  SppDecoder, new, error_label, emit_decode_fail_event, emit_bp_event, process,
}

abbrev pub sent_of : Option (List ℕ) → List (List ℕ)
sent_of none = []
sent_of (some bytes) = bytes ∷ []

pub process_all : List Arrival → SppDecoder → SppDecoder × List (List ℕ)
process_all [] s = (s, [])
process_all (a ∷ later) s =
    let (t, sent) = process a.now a.accepted a.frame s in
    let (u, rest) = process_all later t in (u, sent_of sent ++ rest)

-- The bytes are those of a packet.
pub Parses : List ℕ → Type 0
Parses bytes = (p : SpacePacket) × (parse bytes ≡ ok p)

abbrev tally : SppDecoder → ℕ
tally s = s.dropped_total + s.decode_fail_total

tally-emit_decode_fail_event :
    (now : ℕ) (e : CcsdsError) (s : SppDecoder) → tally (emit_decode_fail_event now e s) ≡ tally s
unfolding emit_decode_fail_event
tally-emit_decode_fail_event now e s =
    elim (Bool-cases (should_emit now (lookup (error_label e) s.last_decode_fail_events))) [
      | inl due ↦ rw (due, emit_decode_fail_event) refl
      | inr early ↦ rw (early, emit_decode_fail_event) refl
    ]

tally-emit_bp_event : (now : ℕ) (s : SppDecoder) → tally (emit_bp_event now s) ≡ tally s
unfolding emit_bp_event
tally-emit_bp_event now s = refl

process-tally :
    (a : Arrival) (s : SppDecoder)
    → let r = process a.now a.accepted a.frame s in
      (length (sent_of r.1) + tally r.0 ≡ tally s + 1) × All Parses (sent_of r.1)
unfolding process Parses
process-tally a s = elim (Result-cases (parse a.frame.data_field)) [
  | inl (e, failed) ↦
      rw (failed, process)
        (
          omega (
            arith,
            tally-emit_decode_fail_event a.now e
                (record s { decode_fail_total = s.decode_fail_total + 1 }),
          ),
          tt,
        )
  | inr (p, parsed) ↦
      rw (parsed, process)
        (elim (Bool-cases a.accepted) [
          | inl taken ↦ rw (taken, process) (omega arith, ((p, parsed), tt))
          | inr full ↦
              rw (full, process)
                (
                  omega (
                    arith,
                    tally-emit_bp_event a.now (record s { dropped_total = s.dropped_total + 1 }),
                  ),
                  tt,
                )
        ])
]

decode_fail_total-emit :
    (now : ℕ) (e : CcsdsError) (s : SppDecoder)
    → (emit_decode_fail_event now e s).decode_fail_total ≡ s.decode_fail_total
unfolding emit_decode_fail_event
decode_fail_total-emit now e s = ground arith

-- A data field that is a packet is sent on where there is room.
pub process-parsed :
    (now : ℕ) (frame : AosFrame) (s : SppDecoder) (p : SpacePacket)
    → parse frame.data_field ≡ ok p
    → process now true frame s ≡ (s, some frame.data_field)
unfolding process
process-parsed now frame s p e = rw (e, process) refl

pub process-full :
    (now : ℕ) (frame : AosFrame) (s : SppDecoder) (p : SpacePacket)
    → parse frame.data_field ≡ ok p
    → (process now false frame s).1 ≡ none
unfolding process
process-full now frame s p e = rw (e, process) refl

-- A data field that is no packet is counted, and nothing is sent on.
pub process-refused :
    (now : ℕ) (accepted : Bool) (frame : AosFrame) (s : SppDecoder) (e : CcsdsError)
    → parse frame.data_field ≡ err e
    → ((process now accepted frame s).1 ≡ none)
      × ((process now accepted frame s).0.decode_fail_total ≡ s.decode_fail_total + 1)
unfolding process emit_decode_fail_event
process-refused now accepted frame s e failed =
    let failed_total = record s { decode_fail_total = s.decode_fail_total + 1 } in
    rw (failed, process) (refl, decode_fail_total-emit now e failed_total)

total_from :
    (frames : List Arrival) (s : SppDecoder)
    → let r = process_all frames s in
      (length r.1 + tally r.0 ≡ tally s + length frames) × All Parses r.1
unfolding process_all
total_from [] s = (omega arith, tt)
total_from (a ∷ later) s =
    let r = process a.now a.accepted a.frame s in
    let one = process-tally a s in
    let rest = total_from later r.0 in
    (
      omega (arith, one.0, rest.0, length-append (sent_of r.1) (process_all later r.0).1),
      All-append Parses (sent_of r.1) (process_all later r.0).1 one.1 rest.1,
    )

-- Of the frames that come to a new decoder, each is passed on, or counted as dropped, or counted as
-- failed, and all that is passed on to the router are packets that the parser accepts.
pub process_all_tally :
    (vc : ℕ) (frames : List Arrival)
    → let r = process_all frames (new vc) in
      (length r.1 + r.0.dropped_total + r.0.decode_fail_total ≡ length frames) × All Parses r.1
unfolding new
process_all_tally vc frames = let all = total_from frames (new vc) in (omega (arith, all.0), all.1)
