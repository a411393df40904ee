-- ===== src/Uplink/Cop1/Timeouts.antt =====
-- The engine while no CLCW arrives.
use build_with_opus.Prelude.{
  ℕ, ◌+◌, ◌≤◌, ◌≡◌, refl, ◌∙◌, true, false, none, some, List, [], ◌∷◌, length, arith, ◌==◌,
  if◌then◌else◌,
}
use build_with_opus.Uplink.Fop1.{Cop1Engine, initial, retransmit_without_wait, retransmit_with_wait}
use build_with_opus.Uplink.Cop1.{
  abort_to_initial, oldest_frame_as_retransmit, ingest_clcw, t1_expired, check_t1, detect_stale,
  and_then, finish_tick, tick_timers, tick, waits_for_t1,
}
use build_with_opus.Uplink.Cop1.Invariant.{Inv, tick-Inv}

-- The watch channel as `tick` leaves it when nothing was published.
abbrev pub IsSilent : Cop1Engine → Type 0
IsSilent s = s.clcw_rx.changed ≡ false

-- A sequence of ticks with no CLCW between them.
abbrev pub ticks : List ℕ → Cop1Engine → Cop1Engine
ticks [] s = s
ticks (now ∷ rest) s = ticks rest (tick now s).0

-- An expired timer in a state in which it counts.
pub tick_expired :
    (now d : ℕ) (s : Cop1Engine)
    → Inv s
    → IsSilent s
    → s.t1_deadline ≡ some d
    → d ≤ now
    → waits_for_t1 s.state ≡ true
    → tick now s ≡ (
        if s.retransmit_count == 2
        then (
          record s { state = initial; window = []; retransmit_count = 0; t1_deadline = none },
          [],
        )
        else (
          record s {
            state = retransmit_with_wait;
            retransmit_count = s.retransmit_count + 1;
            t1_deadline = some (now + s.t1_duration);
          },
          oldest_frame_as_retransmit s.window,
        ))
unfolding tick ingest_clcw and_then tick_timers check_t1 t1_expired abort_to_initial
tick_expired now d s v q e h w = ground arith

-- Each tick comes when the timer that the one before it started has expired.
abbrev pub Late : ℕ → ℕ → List ℕ → Type 0
Late deadline t1 [] = Unit {0}
Late deadline t1 (now ∷ rest) = (deadline ≤ now) × Late (now + t1) t1 rest

-- An engine that satisfies the invariant, waits for its timer and hears no CLCW is back in the
-- initial state with an empty window after as many expiries of the timer as the retransmission
-- count is short of 3.
pub ticks_abort :
    (times : List ℕ) (d : ℕ) (s : Cop1Engine)
    → Inv s
    → IsSilent s
    → s.t1_deadline ≡ some d
    → waits_for_t1 s.state ≡ true
    → Late d s.t1_duration times
    → length times + s.retransmit_count ≡ 3
    → ((ticks times s).state ≡ initial) × ((ticks times s).window ≡ [])
ticks_abort [] d s v q e w late n = absurd (omega (arith, v.count_small))
ticks_abort (now ∷ []) d s v q e w late n = ground (arith, tick_expired now d s v q e late.0 w)
ticks_abort (now ∷ next ∷ rest) d s v q e w late n =
    let step : (tick now s).0 ≡ record s {
      state = retransmit_with_wait;
      retransmit_count = s.retransmit_count + 1;
      t1_deadline = some (now + s.t1_duration);
    } =
      ground (arith, tick_expired now d s v q e late.0 w) in
    rw (step, ticks)
      (ticks_abort (next ∷ rest) (now + s.t1_duration) _ (rw step at (tick-Inv now s v)) q refl refl
        late.1 (omega arith))

-- A retransmission that the spacecraft asked for and that is lost is never repeated: while no CLCW
-- arrives, the engine stays in that state with its window, at all times, and sends nothing.
pub tick_without_wait :
    (now : ℕ) (s : Cop1Engine)
    → IsSilent s
    → s.state ≡ retransmit_without_wait
    → ((tick now s).0.state ≡ retransmit_without_wait)
      × ((tick now s).0.window ≡ s.window)
      × IsSilent (tick now s).0
      × ((tick now s).1 ≡ [])
unfolding tick ingest_clcw and_then tick_timers finish_tick check_t1 detect_stale
tick_without_wait now s q e = ground arith

-- An engine in RetransmitWithoutWait that hears no CLCW stays in that state with its window
-- unchanged through every sequence of ticks at any times.
pub ticks_without_wait :
    (times : List ℕ) (s : Cop1Engine)
    → IsSilent s
    → s.state ≡ retransmit_without_wait
    → ((ticks times s).state ≡ retransmit_without_wait) × ((ticks times s).window ≡ s.window)
ticks_without_wait [] s q e = (e, refl)
ticks_without_wait (now ∷ rest) s q e =
    let (same, kept, silent, nothing) = tick_without_wait now s q e in
    let (later, window) = ticks_without_wait rest (tick now s).0 silent same in
    (later, window ∙ kept)
