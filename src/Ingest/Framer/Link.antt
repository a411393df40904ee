-- ===== src/Ingest/Framer/Link.antt =====
-- What one update does to the link state, and what a frame must have to be passed on.
use mathlib.Core.Path.{subst}
use build_with_opus.Prelude.{
  ℕ, ◌+◌, ◌-◌, ◌%◌, ◌/◌, bit_and, ◌≤◌, ◌≡◌, ◌⊎◌, refl, ◌∙◌, inl, inr, Bool, true, false, ◌&&◌,
  Bool-cases, Option, none, some, List, leb, ◌==◌, if◌then◌else◌, length, length-take, length-drop,
  take, drop, arith,
}
use build_with_opus.Prelude.Bits.{low_mask}
use build_with_opus.Prelude.Words.{u16_from_be}
use build_with_opus.Ingest.Carrier.{AosFrame}
use build_with_opus.Ingest.Framer.{
  AosFramer, LinkState, aos, los, degraded, degraded_window, los_window, aos_rate_window,
  aos_sustain, fecf_payload_len, since_or, compute_link_state, same_state, settle,
  update_link_state, maybe_emit_fecf_event, extract, byte_at, process_frame,
}
use build_with_opus.Ingest.Framer.Window.{
  FrameWindow, push, prune, valid_count_in, error_rate_above, starved,
}

same_state-eq : (a b : LinkState) → same_state a b ≡ true → a ≡ b
same_state-eq aos aos e = refl
same_state-eq los los e = refl
same_state-eq degraded degraded e = refl
same_state-eq aos los e = cc e
same_state-eq aos degraded e = cc e
same_state-eq los aos e = cc e
same_state-eq los degraded e = cc e
same_state-eq degraded aos e = cc e
same_state-eq degraded los e = cc e

-- Settling keeps the state that was computed.
settle-state : (prev : LinkState) (r : LinkState × Option ℕ) → (settle prev r).0 ≡ r.0
unfolding settle
settle-state prev (state, since) = elim (Bool-cases (same_state state prev)) [
  | inl e ↦ ground (arith, e, same_state-eq state prev e)
  | inr e ↦ ground (arith, e)
]

update-state :
    (now : ℕ) (s : AosFramer)
    → let w = prune now degraded_window s.frame_window in
      (update_link_state now s).link_state
      ≡ (compute_link_state now w s.link_state s.aos_condition_since).0
unfolding update_link_state
update-state now s = settle-state s.link_state _

compute-state :
    (now : ℕ) (w : FrameWindow) (state : LinkState) (since : Option ℕ)
    → (compute_link_state now w state since).0 ≡ (
        if error_rate_above now degraded_window w
        then degraded
        else if starved now los_window w
        then los
        else if leb 1 (valid_count_in now aos_rate_window w)
            && leb aos_sustain (now - since_or now since)
        then aos
        else state)
unfolding compute_link_state
compute-state now w state since = ground arith

-- After every update, at any time and in any state: the link is degraded if more than a tenth of
-- the frames of the last 30 seconds were corrupt; otherwise it is lost if no valid frame is younger
-- than 10 seconds; otherwise it is as before, or acquired, the latter only with a valid frame in
-- the last 2 seconds and with the rate condition held for 5 seconds.
pub update_link_state_lem :
    (now : ℕ) (s : AosFramer)
    → let w = prune now degraded_window s.frame_window in
      let after = (update_link_state now s).link_state in
      if error_rate_above now degraded_window w
      then after ≡ degraded
      else if starved now los_window w
      then after ≡ los
      else ((after ≡ s.link_state)
          ⊎ ((after ≡ aos)
              × (1 ≤ valid_count_in now aos_rate_window w)
              × (aos_sustain ≤ now - since_or now s.aos_condition_since)))
update_link_state_lem now s =
    let w = prune now degraded_window s.frame_window in
    let computed = update-state now s ∙ compute-state now w s.link_state s.aos_condition_since in
    elim (Bool-cases (error_rate_above now degraded_window w)) [
      | inl e ↦ rw e (computed ∙ ground (arith, e))
      | inr e ↦ rw e (elim (Bool-cases (starved now los_window w)) [
        | inl f ↦ rw f (computed ∙ ground (arith, e, f))
        | inr f ↦ rw f (elim (Bool-cases (leb 1 (valid_count_in now aos_rate_window w))) [
          | inl g ↦ elim (Bool-cases (leb aos_sustain (now - since_or now s.aos_condition_since))) [
            | inl k ↦ inr (computed ∙ ground (arith, e, f, g, k), ground arith, ground arith)
            | inr k ↦ inl (computed ∙ ground (arith, e, f, g, k))
          ]
          | inr g ↦ inl (computed ∙ ground (arith, e, f, g))
        ])
      ])
    ]

-- Whether the checksum of a frame is right.
abbrev pub is_intact : (List ℕ → ℕ) → List ℕ → Bool
is_intact crc16 buf =
    crc16 (take fecf_payload_len buf)
    == u16_from_be (byte_at buf fecf_payload_len) (byte_at buf (fecf_payload_len + 1))

extract-vc_id : (buf : List ℕ) → (extract buf).vc_id ≡ byte_at buf 1 % 64
unfolding extract
extract-vc_id buf = ground (arith, low_mask 6 (byte_at buf 1))

length_slice :
    (n : ℕ) (buf : List ℕ) → length buf ≡ 1024 → n ≤ 1018 → length (take n (drop 6 buf)) ≡ n
length_slice n buf h k = omega (arith, h, k, length-drop 6 buf, length-take n (drop 6 buf))

extract-data_field :
    (buf : List ℕ)
    → length buf ≡ 1024
    → length (extract buf).data_field ≡ elim (extract buf).ocf [ none ↦ 1016 | some o ↦ 1012 ]
unfolding extract
extract-data_field buf h = elim (Bool-cases (bit_and (byte_at buf 5 / 8) 1 == 1)) [
  | inl e ↦ rw (e, extract) (length_slice 1012 buf h (omega arith))
  | inr e ↦ rw (e, extract) (length_slice 1016 buf h (omega arith))
]

pub process_frame-intact :
    (crc16 : List ℕ → ℕ) (now : ℕ) (buf : List ℕ) (s : AosFramer)
    → is_intact crc16 buf ≡ true
    → (process_frame crc16 now buf s).0
      ≡ update_link_state now (record s { frame_window = push now true s.frame_window })
unfolding process_frame
process_frame-intact crc16 now buf s e = rw (e, process_frame) refl

pub process_frame-extract :
    (crc16 : List ℕ → ℕ) (now : ℕ) (buf : List ℕ) (s : AosFramer)
    → is_intact crc16 buf ≡ true
    → (process_frame crc16 now buf s).1 ≡ some (extract buf)
unfolding process_frame
process_frame-extract crc16 now buf s e = rw (e, process_frame) refl

pub process_frame-corrupt :
    (crc16 : List ℕ → ℕ) (now : ℕ) (buf : List ℕ) (s : AosFramer)
    → is_intact crc16 buf ≡ false
    → (process_frame crc16 now buf s).0
      ≡ update_link_state now (
          maybe_emit_fecf_event now (record s {
            fecf_errors_total = s.fecf_errors_total + 1;
            frame_window = push now false s.frame_window;
          }))
unfolding process_frame
process_frame-corrupt crc16 now buf s e = rw (e, process_frame) refl

-- Of the buffers of 1024 bytes only one whose checksum is right is passed on, and it is passed on
-- with a channel below 64 and a data field of 1012 bytes with the control field present or of 1016
-- bytes without it; any other is counted as an error.
pub process_frame_lem :
    (crc16 : List ℕ → ℕ) (now : ℕ) (buf : List ℕ) (s : AosFramer)
    → length buf ≡ 1024
    → if is_intact crc16 buf
      then ((frame : AosFrame) × ((process_frame crc16 now buf s).1 ≡ some frame)
          × (frame.vc_id ≡ byte_at buf 1 % 64)
          × (length frame.data_field ≡ elim frame.ocf [ none ↦ 1016 | some o ↦ 1012 ])
          × ((process_frame crc16 now buf s).0.fecf_errors_total ≡ s.fecf_errors_total))
      else ((process_frame crc16 now buf s).1 ≡ none)
        × ((process_frame crc16 now buf s).0.fecf_errors_total ≡ s.fecf_errors_total + 1)
unfolding process_frame update_link_state maybe_emit_fecf_event
process_frame_lem crc16 now buf s h = elim (Bool-cases (is_intact crc16 buf)) [
  | inl e ↦ rw e (extract buf, ground (arith, e), extract-vc_id buf, extract-data_field buf h, refl)
  | inr e ↦ rw e (ground (arith, e), refl)
]

-- What is passed on is what was extracted, with a data field of one of two lengths.
pub length-process_frame :
    (crc16 : List ℕ → ℕ) (now : ℕ) (buf : List ℕ) (s : AosFramer) (frame : AosFrame)
    → length buf ≡ 1024
    → (process_frame crc16 now buf s).1 ≡ some frame
    → length frame.data_field ≡ elim frame.ocf [ none ↦ 1016 | some o ↦ 1012 ]
unfolding process_frame
length-process_frame crc16 now buf s frame h e = elim (Bool-cases (is_intact crc16 buf)) [
  | inl intact ↦
      let same : extract buf ≡ frame = ground (arith, intact, e) in
      subst (λ f. length f.data_field ≡ elim f.ocf [ none ↦ 1016 | some o ↦ 1012 ]) same
        (extract-data_field buf h)
  | inr corrupt ↦ absurd (ground (arith, corrupt, e))
]
