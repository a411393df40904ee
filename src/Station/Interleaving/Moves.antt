-- ===== src/Station/Interleaving/Moves.antt =====
-- What a step between the channels does to the packets of a virtual channel.
use mathlib.Core.Path.{subst}
use mathlib.Core.List.{append_assoc}
use build_with_opus.Prelude.{
  ℕ, ◌+◌, ◌≤◌, ◌≡◌, refl, sym, ap, ◌∙◌, Bool, true, false, Bool-cases, inl, inr, Option-cases,
  Result-cases, some, List, [], ◌∷◌, ◌++◌, length, ltb, ◌==◌, ==_iff, if◌then◌else◌, arith,
}
use build_with_opus.Wire.Packet.{parse}
use build_with_opus.Ingest.Carrier.{AosFrame}
use build_with_opus.Ingest.Demux.{dispatch}
use build_with_opus.Ingest.Demux.Counts.{dispatch-sent}
use build_with_opus.Ingest.Decoder.{process}
use build_with_opus.Ingest.Decoder.Forwarding.{process-parsed, process-full, process-refused}
use build_with_opus.Station.Dispatch.{Item}
use build_with_opus.Station.Interleaving.{
  Running, update, lose, on_frame, on_channel, on_packet, on_received, on_tagged, spp_to_router_cap,
  demux_to_spp_cap,
}
use build_with_opus.Station.Interleaving.Omits.{Omits, Omits-eq, Omits-prefix, Omits-suffix}
use build_with_opus.Station.Interleaving.Packets.{
  if_of, marked, marked-append, moved, no_packet, omit_frame, one_at, one_packet, packets_in,
  packets_in-popped, packets_in-pushed, packets_of, packets_of-first, popped, pushed, under_way,
}

-- A step that takes nothing in moves the packets of a channel on, or leaves one out and counts it.
abbrev pub Moves : ℕ → Running → Running → Type 0
Moves vc s t = (m : ℕ) × (s.lost vc + m ≤ t.lost vc) × Omits m (under_way vc t) (under_way vc s)

pub on_tagged-Moves :
    (vc : ℕ) (item : Item) (later : List (ℕ × List ℕ)) (s : Running)
    → s.tagged ≡ (item.vc_id, item.bytes) ∷ later
    → Moves vc s (on_tagged item later s)
unfolding on_tagged under_way marked
on_tagged-Moves vc item later s e =
    let rest =
      (s.held vc ++ s.packets vc) ++ (packets_in (s.channels vc) ++ packets_of vc s.frames) in
    let first = one_at item.vc_id vc item.bytes in
    let split : marked vc s.tagged ≡ first ++ marked vc later = ap (marked vc) e ∙ ground arith in
    let same : under_way vc (on_tagged item later s) ≡ under_way vc s =
      ap (λ l. l ++ (marked vc later ++ rest)) (marked-append vc s.routed item.vc_id item.bytes)
      ∙ moved (marked vc s.routed) first (marked vc later) rest
      ∙ ap (λ l. marked vc s.routed ++ (l ++ rest)) (sym split) in
    (0, omega arith, Omits-eq same)

pub on_packet-Moves :
    (vc u : ℕ) (bytes : List ℕ) (later : List (List ℕ)) (s : Running)
    → s.held u ≡ bytes ∷ later
    → Moves vc s (on_packet u bytes later s)
unfolding on_packet under_way
on_packet-Moves vc u bytes later s e =
    let rest = packets_in (s.channels vc) ++ packets_of vc s.frames in
    let first = one_at u vc bytes in
    let left = update u later s.held vc in
    let same : under_way vc (on_packet u bytes later s) ≡ under_way vc s =
      ap (λ l. marked vc s.routed ++ l)
        (ap (λ l. l ++ ((left ++ s.packets vc) ++ rest)) (marked-append vc s.tagged u bytes)
          ∙ moved (marked vc s.tagged) first (left ++ s.packets vc) rest
          ∙ ap (λ l. marked vc s.tagged ++ (l ++ rest))
              (sym (append_assoc first left (s.packets vc))
                ∙ ap (λ l. l ++ s.packets vc) (sym (popped s.held u vc bytes later e)))) in
    (0, omega arith, Omits-eq same)

pub on_received-Moves :
    (vc u : ℕ) (bytes : List ℕ) (later : List (List ℕ)) (s : Running)
    → s.packets u ≡ bytes ∷ later
    → Moves vc s (on_received u bytes later s)
unfolding on_received under_way
on_received-Moves vc u bytes later s e =
    let rest = packets_in (s.channels vc) ++ packets_of vc s.frames in
    let left = update u later s.packets vc in
    let same : under_way vc (on_received u bytes later s) ≡ under_way vc s =
      ap (λ l. marked vc s.routed ++ (marked vc s.tagged ++ (l ++ rest)))
        (ap (λ l. l ++ left) (pushed s.held u vc bytes)
          ∙ append_assoc (s.held vc) (one_at u vc bytes) left
          ∙ ap (λ l. s.held vc ++ l) (sym (popped s.packets u vc bytes later e))) in
    (0, omega arith, Omits-eq same)

pub lose-eq : (lost : ℕ → ℕ) (u vc : ℕ) → lose u lost vc ≡ lost vc + (if u == vc then 1 else 0)
lose-eq lost u vc = elim (Bool-cases (u == vc)) [
  | inl same ↦ rw same (ap (λ w. lost w + 1) ((==_iff u vc).0 same))
  | inr other ↦ rw other (omega arith)
]

pub on_frame-Moves :
    (vc now : ℕ) (frame : AosFrame) (later : List AosFrame) (s : Running)
    → s.frames ≡ frame ∷ later
    → Moves vc s (on_frame now frame later s)
unfolding on_frame under_way
on_frame-Moves vc now frame later s e =
    let room = ltb (length (s.channels frame.vc_id)) demux_to_spp_cap in
    let waiting = packets_in (s.channels vc) in
    let split : packets_of vc s.frames ≡ if_of vc frame ++ packets_of vc later =
      ap (packets_of vc) e ∙ packets_of-first vc frame later in
    elim (Option-cases (dispatch now room frame s.stages.demux).1) [
      | inl refused ↦
          let (m, few, omits) = omit_frame (frame.vc_id == vc) frame (packets_of vc later) in
          rw (refused, on_frame)
            (
              m,
              omega (arith, few, lose-eq s.lost frame.vc_id vc),
              Omits-prefix (marked vc s.routed) (
                  Omits-prefix (marked vc s.tagged) (
                    Omits-prefix (s.held vc ++ s.packets vc) (
                      Omits-prefix waiting
                        (subst (λ l. Omits m (packets_of vc later) l) (sym split) omits)))),
            )
      | inr (sent, passed) ↦
          let goes_on =
            passed ∙ ap some (sym (dispatch-sent now room frame sent s.stages.demux passed)) in
          let same =
            ap
              (λ l.
                marked vc s.routed ++ (marked vc s.tagged ++ ((s.held vc ++ s.packets vc) ++ l)))
              (ap (λ l. l ++ packets_of vc later) (packets_in-pushed s.channels vc frame)
                ∙ append_assoc waiting (if_of vc frame) (packets_of vc later)
                ∙ ap (λ l. waiting ++ l) (sym split)) in
          rw (goes_on, on_frame) (0, omega arith, Omits-eq same)
    ]

nothing : (b : Bool) (xs : List (List ℕ)) → (if b then [] else []) ++ xs ≡ xs
nothing true xs = refl
nothing false xs = refl

pub lost_grows :
    (room : Bool) (lost : ℕ → ℕ) (u vc : ℕ) → lost vc + 0 ≤ (if room then lost else lose u lost) vc
lost_grows true lost u vc = omega arith
lost_grows false lost u vc = omega (arith, lose-eq lost u vc)

pub lost_counts :
    (room : Bool) (lost : ℕ → ℕ) (u vc m : ℕ)
    → room ≡ false
    → m ≤ (if u == vc then 1 else 0)
    → lost vc + m ≤ (if room then lost else lose u lost) vc
lost_counts room lost u vc m full few = rw full (omega (arith, few, lose-eq lost u vc))

pub on_channel-Moves :
    (vc now u : ℕ) (frame : AosFrame) (later : List AosFrame) (s : Running)
    → s.channels u ≡ frame ∷ later
    → Moves vc s (on_channel now u frame later s)
unfolding on_channel under_way
on_channel-Moves vc now u frame later s e =
    let room = ltb (length (s.packets u)) spp_to_router_cap in
    let left = packets_in (update u later s.channels vc) in
    let split = packets_in-popped s.channels u vc frame later e in
    elim (Result-cases (parse frame.data_field)) [
      | inl (why, refused) ↦
          rw ((process-refused now room frame (s.stages.decoders u) why refused).0, on_channel)
            (
              0,
              lost_grows room s.lost u vc,
              Omits-eq (
                  ap
                    (λ l.
                      marked vc s.routed
                      ++ (marked vc s.tagged
                          ++ ((s.held vc ++ s.packets vc) ++ (l ++ packets_of vc s.frames))))
                    (sym (
                      split
                      ∙ ap (λ l. (if u == vc then l else []) ++ left) (no_packet frame why refused)
                      ∙ nothing (u == vc) left))),
            )
      | inr (p, parsed) ↦ elim (Bool-cases room) [
        | inl free ↦
            let decoder = s.stages.decoders u in
            let goes_on =
              ap (λ b. process now b frame decoder) free
              ∙ process-parsed now frame decoder p parsed in
            let first = one_at u vc frame.data_field in
            let rest = packets_of vc s.frames in
            let taken : packets_in (s.channels vc) ≡ first ++ left =
              split ∙ ap (λ l. (if u == vc then l else []) ++ left) (one_packet frame p parsed) in
            let same =
              ap (λ l. marked vc s.routed ++ (marked vc s.tagged ++ l))
                (ap (λ l. (s.held vc ++ l) ++ (left ++ rest))
                    (pushed s.packets u vc frame.data_field)
                  ∙ ap (λ l. l ++ (left ++ rest))
                      (sym (append_assoc (s.held vc) (s.packets vc) first))
                  ∙ moved (s.held vc ++ s.packets vc) first left rest
                  ∙ ap (λ l. (s.held vc ++ s.packets vc) ++ (l ++ rest)) (sym taken)) in
            rw (goes_on, on_channel) (0, omega arith, Omits-eq same)
        | inr full ↦
            let decoder = s.stages.decoders u in
            let stays =
              ap (λ b. (process now b frame decoder).1) full
              ∙ process-full now frame decoder p parsed in
            let (m, few, omits) = omit_frame (u == vc) frame left in
            rw (stays, on_channel)
              (
                m,
                lost_counts room s.lost u vc m full few,
                Omits-prefix (marked vc s.routed) (
                    Omits-prefix (marked vc s.tagged) (
                      Omits-prefix (s.held vc ++ s.packets vc) (
                        Omits-suffix (packets_of vc s.frames)
                          (subst (λ l. Omits m left l) (sym split) omits)))),
              )
      ]
    ]
