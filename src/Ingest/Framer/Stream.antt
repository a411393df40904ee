-- ===== src/Ingest/Framer/Stream.antt =====
-- rust/ground_station/src/ingest/framer.rs, run, and the datagrams that
-- rust/ground_station/src/main.rs writes to its stream in stage 1a.
use mathlib.Core.List.{append_assoc, append-nil}
use build_with_opus.Prelude.{
  ℕ, zero, suc, map, ◌+◌, ◌*◌, ◌<◌, ◌≡◌, refl, sym, ◌∙◌, ap, Bool-cases, true, false, inl, inr,
  Option, none, some, List, [], ◌∷◌, ◌++◌, All, Result, ok, err, leb, if◌then◌else◌, length,
  length-take, length-drop, take, drop, take-append-drop, concat, leb→le, arith,
}
use build_with_opus.Ingest.Carrier.{AosFrame}
use build_with_opus.Ingest.Framer.{
  AosFramer, aos_frame_len, process_frame, extract, update_link_state, maybe_emit_fecf_event,
}
use build_with_opus.Ingest.Framer.Link.{is_intact}
use build_with_opus.Ingest.Framer.History as History
use build_with_opus.Ingest.Framer.History.{Stimulus, received}

pub data FramerError : Type 0 where
  io : FramerError

-- How the stream goes on once its bytes are used up.
pub data Ending : Type 0 where
  end_of_file fails : Ending

-- The receiver, and what it has passed on, the first frame first.
pub record Receiver : Type 0 where
  pub framer : AosFramer
  pub sent : List AosFrame

-- `recv` into a buffer of 16 frames cuts what is longer off; `write_all` puts the datagrams one
-- behind the other.
unfoldable pub pipe : List (List ℕ) → List ℕ
pipe [] = []
pipe (datagram ∷ later) = take (aos_frame_len * 16) datagram ++ pipe later

pipe-eq : (datagrams : List (List ℕ)) → pipe datagrams ≡ concat (map (take 16384) datagrams)
unfolding pipe
pipe-eq [] = refl
pipe-eq (datagram ∷ later) = ap (λ bytes. take 16384 datagram ++ bytes) (pipe-eq later)

-- A full buffer and the bytes behind it, or nothing where the stream ends before the buffer is full.
pub read_exact : ℕ → List ℕ → Option (List ℕ × List ℕ)
read_exact n bytes = if leb n (length bytes) then some (take n bytes, drop n bytes) else none

-- An end within a buffer is an end as well.
pub finish : Ending → Result FramerError (Unit {0})
finish end_of_file = ok tt
finish fails = err io

finish-eq : (ending : Ending) → finish ending ≡ elim ending [ end_of_file ↦ ok tt | fails ↦ err io ]
unfolding finish
finish-eq end_of_file = refl
finish-eq fails = refl

-- The rounds of the loop over these buffers.
unfoldable pub rounds : (ℕ → ℕ) → List (List ℕ) → List (ℕ × Stimulus)
rounds clock [] = []
rounds clock (buf ∷ later) = (clock 0, received buf) ∷ rounds (λ i. clock (suc i)) later

abbrev passed_on : Option AosFrame → List AosFrame
passed_on none = []
passed_on (some frame) = frame ∷ []

module _ (crc16 : List ℕ → ℕ) where
  pub take_frame : ℕ → List ℕ → Receiver → Receiver
  take_frame now buf r =
      let processed = process_frame crc16 now buf r.framer in
      record { framer = processed.0; sent = r.sent ++ passed_on processed.1 }

  -- The loop, with the instants at which its rounds look at the clock.
  pub run :
      (ℕ → ℕ) → ℕ → List ℕ → Ending → Receiver → Option (Receiver × Result FramerError (Unit {0}))
  run clock zero bytes ending r = none
  run clock (suc fuel) bytes ending r = elim (read_exact aos_frame_len bytes) [
    | none ↦ some (r, finish ending)
    | some (buf, rest) ↦ run (λ i. clock (suc i)) fuel rest ending (take_frame (clock 0) buf r)
  ]

  -- Buffers one after the other.
  pub take_frames : (ℕ → ℕ) → List (List ℕ) → Receiver → Receiver
  take_frames clock [] r = r
  take_frames clock (buf ∷ later) r =
      take_frames (λ i. clock (suc i)) later (take_frame (clock 0) buf r)

  run-full :
      (clock : ℕ → ℕ) (fuel : ℕ) (bytes : List ℕ) (ending : Ending) (r : Receiver)
      → leb 1024 (length bytes) ≡ true
      → run clock (suc fuel) bytes ending r
        ≡ run
            (λ i. clock (suc i))
            fuel
            (drop 1024 bytes)
            ending
            (take_frame (clock 0) (take 1024 bytes) r)
  unfolding run read_exact
  run-full clock fuel bytes ending r full = rw (full, run) refl

  run-short :
      (clock : ℕ → ℕ) (fuel : ℕ) (bytes : List ℕ) (ending : Ending) (r : Receiver)
      → leb 1024 (length bytes) ≡ false
      → run clock (suc fuel) bytes ending r ≡ some (r, finish ending)
  unfolding run read_exact
  run-short clock fuel bytes ending r short = rw (short, run) refl

  run-cut :
      (clock : ℕ → ℕ) (fuel : ℕ) (bytes : List ℕ) (ending : Ending) (r : Receiver)
      → length bytes < fuel * 1024
      → (buffers : List (List ℕ)) × (rest : List ℕ) × (bytes ≡ concat buffers ++ rest)
        × All (λ buf. length buf ≡ 1024) buffers
        × (length rest < 1024)
        × (run clock fuel bytes ending r ≡ some (take_frames clock buffers r, finish ending))
  unfolding run take_frames
  run-cut clock zero bytes ending r h = absurd (omega (arith, h))
  run-cut clock (suc fuel) bytes ending r h = elim (Bool-cases (leb 1024 (length bytes))) [
    | inl full ↦
        let (buffers, rest, cut, whole, few, goes) =
          run-cut (λ i. clock (suc i)) fuel (drop 1024 bytes) ending
            (take_frame (clock 0) (take 1024 bytes) r)
            (omega (arith, h, leb→le 1024 (length bytes) full, length-drop 1024 bytes)) in
        (
          take 1024 bytes ∷ buffers,
          rest,
          sym (take-append-drop 1024 bytes)
              ∙ ap (λ later. take 1024 bytes ++ later) cut
              ∙ sym (append_assoc (take 1024 bytes) (concat buffers) rest),
          (omega (arith, leb→le 1024 (length bytes) full, length-take 1024 bytes), whole),
          few,
          run-full clock fuel bytes ending r full ∙ goes,
        )
    | inr short ↦
        ([], bytes, refl, tt, ground (arith, short), run-short clock fuel bytes ending r short)
  ]

  -- The frames of the buffers whose checksum is right, and the number of the others.
  unfoldable pub intact_frames : List (List ℕ) → List AosFrame
  intact_frames [] = []
  intact_frames (buf ∷ later) =
      if is_intact crc16 buf then extract buf ∷ intact_frames later else intact_frames later

  unfoldable pub count_corrupt : List (List ℕ) → ℕ
  count_corrupt [] = 0
  count_corrupt (buf ∷ later) =
      if is_intact crc16 buf then count_corrupt later else count_corrupt later + 1

  -- The receiver has passed on the intact frames in order, counted the others, and come to the
  -- state that the buffers lead to, each received when its round looks at the clock.
  pub record HasTaken (clock : ℕ → ℕ) (buffers : List (List ℕ)) (r r' : Receiver) : Type 0 where
    pub passed : r'.sent ≡ r.sent ++ intact_frames buffers
    pub counted : r'.framer.fecf_errors_total ≡ r.framer.fecf_errors_total + count_corrupt buffers
    pub followed : r'.framer ≡ History.run crc16 (rounds clock buffers) r.framer

  -- What one round does, and then the later ones.
  sent-take_frame :
      (now : ℕ) (buf : List ℕ) (later : List (List ℕ)) (r : Receiver)
      → (take_frame now buf r).sent ++ intact_frames later ≡ r.sent ++ intact_frames (buf ∷ later)
  unfolding take_frame intact_frames process_frame
  sent-take_frame now buf later r = elim (Bool-cases (is_intact crc16 buf)) [
    | inl e ↦ ground (arith, e, append_assoc r.sent (extract buf ∷ []) (intact_frames later))
    | inr e ↦ ground (arith, e, append-nil r.sent)
  ]

  errors-take_frame :
      (now : ℕ) (buf : List ℕ) (later : List (List ℕ)) (r : Receiver)
      → (take_frame now buf r).framer.fecf_errors_total + count_corrupt later
        ≡ r.framer.fecf_errors_total + count_corrupt (buf ∷ later)
  unfolding take_frame count_corrupt process_frame update_link_state maybe_emit_fecf_event
  errors-take_frame now buf later r = elim (Bool-cases (is_intact crc16 buf)) [
    | inl e ↦ ground (arith, e)
    | inr e ↦ ground (arith, e)
  ]

  take_frames-HasTaken :
      (clock : ℕ → ℕ) (buffers : List (List ℕ)) (r : Receiver)
      → HasTaken clock buffers r (take_frames clock buffers r)
  unfolding take_frames intact_frames count_corrupt History.run rounds
  take_frames-HasTaken clock [] r = record {
    passed = sym (append-nil r.sent);
    counted = omega arith;
    followed = refl;
  }
  take_frames-HasTaken clock (buf ∷ later) r =
      let after = take_frame (clock 0) buf r in
      let rest = take_frames-HasTaken (λ i. clock (suc i)) later after in
      record {
        passed = rest.passed ∙ sent-take_frame (clock 0) buf later r;
        counted = rest.counted ∙ errors-take_frame (clock 0) buf later r;
        followed = rest.followed ∙ unfold take_frame History.step in refl;
      }

  -- Whatever datagrams come, of which no more than 16 KiB each is taken, the loop over their bytes
  -- ends: with fuel for more than the number of whole buffers in them, it has cut the bytes into
  -- buffers of 1024 and a rest of fewer bytes, which is dropped. The receiver has passed on in
  -- order the frames of exactly the buffers whose checksum is right, has counted the others as
  -- errors, and is in the state that the buffers lead to, one after the other, and the answer is an
  -- error exactly where the stream fails.
  pub run-pipe :
      (clock : ℕ → ℕ) (fuel : ℕ) (datagrams : List (List ℕ)) (ending : Ending) (r : Receiver)
      → length (pipe datagrams) < fuel * 1024
      → (buffers : List (List ℕ)) × (rest : List ℕ) × (r' : Receiver) × (concat
            (map (take 16384) datagrams)
          ≡ concat buffers ++ rest)
        × All (λ buf. length buf ≡ 1024) buffers
        × (length rest < 1024)
        × HasTaken clock buffers r r'
        × (run clock fuel (pipe datagrams) ending r
            ≡ some (r', elim ending [ end_of_file ↦ ok tt | fails ↦ err io ]))
  run-pipe clock fuel datagrams ending r h =
      let (buffers, rest, cut, whole, few, goes) = run-cut clock fuel (pipe datagrams) ending r h in
      (
        buffers,
        rest,
        take_frames clock buffers r,
        sym (pipe-eq datagrams) ∙ cut,
        whole,
        few,
        take_frames-HasTaken clock buffers r,
        goes ∙ ap (λ answer. some (take_frames clock buffers r, answer)) (finish-eq ending),
      )
