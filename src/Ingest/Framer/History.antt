-- ===== src/Ingest/Framer/History.antt =====
-- The window forgets frames, and the link state is what it would be if it did not.
use build_with_opus.Prelude.{
  ℕ, ◌≤◌, ◌≡◌, refl, ap, ◌∙◌, inl, inr, true, false, Bool-cases, Option, none, List, [], ◌∷◌, arith,
}
use build_with_opus.Ingest.Framer.Link.{is_intact, process_frame-intact, process_frame-corrupt}
use build_with_opus.Ingest.Framer.{
  new, AosFramer, LinkState, los, degraded_window, los_window, aos_rate_window, compute_link_state,
  settle, update_link_state, tick, process_frame, maybe_emit_fecf_event,
}
use build_with_opus.Ingest.Framer.Window.Pruning.{
  error_rate_above-prune, valid_count_in-prune, starved-prune, prune-push, prune-prune,
}
use build_with_opus.Ingest.Framer.Window.{FrameWindow, push, prune}

-- What reaches the framer at a time.
pub data Stimulus : Type 0 where
  received : (buf : List ℕ) → Stimulus
  ticked : Stimulus

unfoldable pub step : (List ℕ → ℕ) → ℕ → Stimulus → AosFramer → AosFramer
step crc16 now (received buf) s = (process_frame crc16 now buf s).0
step crc16 now ticked s = tick now s

unfoldable pub run : (List ℕ → ℕ) → List (ℕ × Stimulus) → AosFramer → AosFramer
run crc16 [] s = s
run crc16 ((now, e) ∷ later) s = run crc16 later (step crc16 now e s)

-- The times do not go back.
pub data Ascending : ℕ → List (ℕ × Stimulus) → Type 0 where
  done : {now : ℕ} → Ascending now []
  next :
      {now later : ℕ} {e : Stimulus} {es : List (ℕ × Stimulus)}
      → now ≤ later
      → Ascending later es
      → Ascending now ((later, e) ∷ es)

-- The machine of the specification, which keeps every frame.
pub record Observer : Type 0 where
  pub state : LinkState
  pub since : Option ℕ
  pub history : FrameWindow

abbrev pub recorded : (List ℕ → ℕ) → ℕ → Stimulus → FrameWindow → FrameWindow
recorded crc16 now (received buf) h = push now (is_intact crc16 buf) h
recorded crc16 now ticked h = h

pub observe : (List ℕ → ℕ) → ℕ → Stimulus → Observer → Observer
observe crc16 now e o =
    let h = recorded crc16 now e o.history in
    let (state, since) = settle o.state (compute_link_state now h o.state o.since) in
    record { state = state; since = since; history = h }

pub observe_all : (List ℕ → ℕ) → List (ℕ × Stimulus) → Observer → Observer
observe_all crc16 [] o = o
observe_all crc16 ((now, e) ∷ later) o = observe_all crc16 later (observe crc16 now e o)

compute-prune :
    (now : ℕ) (w : FrameWindow) (state : LinkState) (since : Option ℕ)
    → compute_link_state now (prune now degraded_window w) state since
      ≡ compute_link_state now w state since
unfolding compute_link_state
compute-prune now w state since = ground (
  arith,
  error_rate_above-prune now degraded_window w,
  valid_count_in-prune now degraded_window aos_rate_window w (omega arith),
  starved-prune now degraded_window los_window w (omega arith),
)

-- The framer shows what the observer shows, the observer's history pruned.
record Agrees (now : ℕ) (s : AosFramer) (o : Observer) : Type 0 where
  state : s.link_state ≡ o.state
  since : s.aos_condition_since ≡ o.since
  window : s.frame_window ≡ prune now degraded_window o.history

update-Agrees :
    (now : ℕ) (s : AosFramer) (o : Observer) (h : FrameWindow)
    → s.link_state ≡ o.state
    → s.aos_condition_since ≡ o.since
    → prune now degraded_window s.frame_window ≡ prune now degraded_window h
    → let r = settle o.state (compute_link_state now h o.state o.since) in
      Agrees now (update_link_state now s) (record { state = r.0; since = r.1; history = h })
unfolding update_link_state
update-Agrees now s o h e1 e2 e3 =
    rw (e1, e2, e3, compute-prune now h o.state o.since)
      (record { state = refl; since = refl; window = refl })

step-Agrees :
    (crc16 : List ℕ → ℕ) (early now : ℕ) (e : Stimulus) (s : AosFramer) (o : Observer)
    → early ≤ now
    → Agrees early s o
    → Agrees now (step crc16 now e s) (observe crc16 now e o)
unfolding step observe tick maybe_emit_fecf_event
step-Agrees crc16 early now ticked s o h a =
    update-Agrees now s o o.history a.state a.since
      (ap (prune now degraded_window) a.window ∙ prune-prune early now degraded_window o.history h)
step-Agrees crc16 early now (received buf) s o h a = elim (Bool-cases (is_intact crc16 buf)) [
  | inl e ↦
      rw (process_frame-intact crc16 now buf s e, e)
        (update-Agrees now _ o (push now true o.history) a.state a.since (
          ap (λ w. prune now degraded_window (push now true w)) a.window
          ∙ prune-push early now degraded_window true o.history h))
  | inr e ↦
      rw (process_frame-corrupt crc16 now buf s e, e)
        (update-Agrees now _ o (push now false o.history) a.state a.since (
          ap (λ w. prune now degraded_window (push now false w)) a.window
          ∙ prune-push early now degraded_window false o.history h))
]

run-Agrees :
    (crc16 : List ℕ → ℕ) (now : ℕ) (es : List (ℕ × Stimulus)) (s : AosFramer) (o : Observer)
    → Ascending now es
    → Agrees now s o
    → (run crc16 es s).link_state ≡ (observe_all crc16 es o).state
unfolding run observe_all
run-Agrees crc16 now [] s o up a = a.state
run-Agrees crc16 now ((later, e) ∷ es) s o (next h up) a =
    run-Agrees crc16 later es (step crc16 later e s) (observe crc16 later e o) up
      (step-Agrees crc16 now later e s o h a)

-- Whatever frames and ticks reach a new framer, at times that do not go back, its link state is
-- that of an observer who keeps every frame since the start and decides in the same way.
pub run-eq-observe_all :
    (crc16 : List ℕ → ℕ) (es : List (ℕ × Stimulus))
    → Ascending 0 es
    → (run crc16 es new).link_state
      ≡ (observe_all crc16 es (record { state = los; since = none; history = [] })).state
unfolding new prune
run-eq-observe_all crc16 es up =
    run-Agrees crc16 0 es new _ up (record { state = refl; since = refl; window = refl })
