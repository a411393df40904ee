-- ===== src/Uplink/Cop1/Runs.antt =====
-- The engine's theorems at concrete states.
use build_with_opus.Prelude.{◌≡◌, refl, false, none, some, [], ◌∷◌, arith}
use build_with_opus.Uplink.Fop1.{
  Cop1Engine, Fop1State, Clcw, ClcwWatch, active, initial, retransmit_without_wait,
}
use build_with_opus.Uplink.Cop1.{new, initialize, submit, tick, slide}
use build_with_opus.Uplink.Cop1.Invariant.{Inv, Window}
use build_with_opus.Uplink.Cop1.Reach.{
  publish, start, initialized, published, ticked, submitted, Reach-Inv,
}
use build_with_opus.Uplink.Cop1.Acknowledge.{nr_for, window-slide}
use build_with_opus.Uplink.Cop1.Timeouts.{ticks, ticks_abort, ticks_without_wait}

abbrev quiet : ClcwWatch
quiet = record { value = none; changed = false }

abbrev clean : Clcw
clean = record { byte0 = 0; byte1 = 0; byte2 = 0; byte3 = 0 }

-- Three frames that straddle the wrap of the sequence numbers.
abbrev pending : Window
pending = (254, 7 ∷ []) ∷ (255, 8 ∷ []) ∷ (0, 9 ∷ []) ∷ []

abbrev busy : Fop1State → Cop1Engine
busy state = record {
  state = state;
  vs = 1;
  window = pending;
  retransmit_count = 1;
  t1_deadline = some 100;
  t1_duration = 50;
  clcw_rx = quiet;
  last_clcw_at = some 40;
  last_stale_event_at = none;
}

busy-Inv : (state : Fop1State) → Inv (busy state)
busy-Inv state = ground arith

-- A session that is set up, and one frame sent in it.
abbrev session : Cop1Engine
session = (submit 20 (5 ∷ []) (tick 10 (publish clean (initialize (new quiet 50)).0)).0).0

Reach-Inv_example : Inv session
Reach-Inv_example =
    Reach-Inv (submitted 20 (5 ∷ []) (ticked 10 (published clean (initialized (start quiet 50)))))

window-slide_example : (slide (nr_for 1 1) pending (busy active)).window ≡ (0, 9 ∷ []) ∷ []
window-slide_example = window-slide (busy active) 1 (busy-Inv active) (omega arith)

ticks_abort_example :
    ((ticks (120 ∷ 170 ∷ []) (busy active)).state ≡ initial)
    × ((ticks (120 ∷ 170 ∷ []) (busy active)).window ≡ [])
ticks_abort_example =
    ticks_abort (120 ∷ 170 ∷ []) 100 (busy active) (busy-Inv active) refl refl refl (omega arith)
      refl

ticks_without_wait_example :
    ((ticks (120 ∷ 9000 ∷ []) (busy retransmit_without_wait)).state ≡ retransmit_without_wait)
    × ((ticks (120 ∷ 9000 ∷ []) (busy retransmit_without_wait)).window ≡ pending)
ticks_without_wait_example =
    ticks_without_wait (120 ∷ 9000 ∷ []) (busy retransmit_without_wait) refl refl
