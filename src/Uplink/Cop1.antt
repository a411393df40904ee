-- ===== src/Uplink/Cop1.antt =====
-- rust/ground_station/src/uplink/cop1.rs: the operations of the FOP-1 engine.
pub mod Invariant
pub mod Reach
pub mod Acknowledge
pub mod Expiry
pub mod Retransmit
pub mod Timeouts
mod Runs
use build_with_opus.Prelude.{
  ℕ, suc, ◌+◌, ◌-◌, ◌*◌, ◌/◌, ◌%◌, ◌≤◌, bit_and, Bool, true, false, ◌&&◌, not, Option, none, some,
  List, [], ◌∷◌, ◌++◌, Result, ok, err, length, leb, ◌==◌, if◌then◌else◌,
}
use build_with_opus.Prelude.Words.{◌>>>◌}
use build_with_opus.Uplink.Fop1.{
  cop1_window_size, cop1_max_retransmit, cop1_stale_warn_mult, cop1_stale_abort_mult,
  clcw_stale_event_min_interval, Fop1State, initial, initializing, active, retransmit_without_wait,
  retransmit_with_wait, TcFrame, type_ad, type_bd, type_bc, Cop1Error, not_in_active_state,
  window_full, Clcw, ClcwWatch, Cop1Engine,
}

pub new : ClcwWatch → ℕ → Cop1Engine
new clcw_rx t1 = record {
  state = initial;
  vs = 0;
  window = [];
  retransmit_count = 0;
  t1_deadline = none;
  t1_duration = t1;
  clcw_rx = clcw_rx;
  last_clcw_at = none;
  last_stale_event_at = none;
}

pub initialize : Cop1Engine → Cop1Engine × TcFrame
initialize s = (
  record s { state = initializing; vs = 0; window = []; retransmit_count = 0; t1_deadline = none },
  record { vc_id = 0; frame_type = type_bc; sequence = 0; payload = 0 ∷ [] },
)

abbrev pub is_active : Fop1State → Bool
is_active active = true
is_active _ = false

abbrev pub ad_frame : ℕ → List ℕ → TcFrame
ad_frame seq spp = record { vc_id = 0; frame_type = type_ad; sequence = seq; payload = spp }

-- The timer starts when it is not running.
start_t1 : ℕ → Cop1Engine → Option ℕ → Option ℕ
start_t1 now s none = some (now + s.t1_duration)
start_t1 now s (some deadline) = some deadline

-- `now` is what `Instant::now()` answers.
pub submit : ℕ → List ℕ → Cop1Engine → Cop1Engine × Result Cop1Error (List TcFrame)
unfolding start_t1
submit now spp s =
    if not (is_active s.state)
    then (s, err (not_in_active_state s.state))
    else if leb cop1_window_size (length s.window)
    then (s, err window_full)
    else (
      record s {
        vs = (s.vs + 1) % 256;
        window = s.window ++ (s.vs, spp) ∷ [];
        t1_deadline = start_t1 now s s.t1_deadline;
      },
      ok (ad_frame s.vs spp ∷ []),
    )

-- `nr.wrapping_sub(seq)` is between 1 and 128.
pub seq_before : ℕ → ℕ → Bool
seq_before seq nr = let diff = (nr + 256 - seq) % 256 in not (diff == 0) && leb diff 128

-- `pop_front` in the loop below: the timer stops when the window is empty.
pub popped : List (ℕ × List ℕ) → Cop1Engine → Cop1Engine
popped [] s = record s { window = []; retransmit_count = 0; t1_deadline = none }
popped (entry ∷ rest) s = record s { window = entry ∷ rest; retransmit_count = 0 }

-- The loop that drops the acknowledged frames from the front of the window, which is the list.
pub slide : ℕ → List (ℕ × List ℕ) → Cop1Engine → Cop1Engine
slide nr [] s = s
slide nr ((seq, spp) ∷ rest) s =
    let more = slide nr rest (popped rest s) in if seq_before seq nr then more else s

pub abort_to_initial : Cop1Engine → Cop1Engine
abort_to_initial s = record s {
  state = initial;
  window = [];
  retransmit_count = 0;
  t1_deadline = none;
}

pub oldest_frame_as_retransmit : List (ℕ × List ℕ) → List TcFrame
oldest_frame_as_retransmit [] = []
oldest_frame_as_retransmit ((seq, spp) ∷ rest) = ad_frame seq spp ∷ []

-- A step of `tick` either returns frames at once or goes on.
pub data Flow : Type 0 where
  return : Cop1Engine → List TcFrame → Flow
  continue : Cop1Engine → Flow

pub count_up : Cop1Engine → Cop1Engine
count_up s = record s { retransmit_count = (s.retransmit_count + 1) % 256 }

-- The spacecraft asks for a retransmission: the oldest frame, or the end of the session.
pub retransmit_in : Fop1State → Cop1Engine → Flow
unfolding count_up
retransmit_in next s =
    let t = count_up s in
    if leb cop1_max_retransmit t.retransmit_count
    then return (abort_to_initial t) []
    else return (record t { state = next }) (oldest_frame_as_retransmit t.window)

-- The transitions that the lockout and retransmit flags drive.
pub clcw_transition : Fop1State → ℕ → ℕ → Cop1Engine → Flow
clcw_transition initializing lockout retransmit s =
    if lockout == 0 && retransmit == 0 then continue (record s { state = active }) else continue s
clcw_transition active lockout retransmit s =
    if lockout == 0 && retransmit == 1 then retransmit_in retransmit_without_wait s else continue s
clcw_transition retransmit_without_wait lockout retransmit s =
    if lockout == 0 && retransmit == 1
    then retransmit_in retransmit_without_wait s
    else if lockout == 0 && retransmit == 0
    then continue (record s { state = active; retransmit_count = 0 })
    else continue s
clcw_transition retransmit_with_wait lockout retransmit s =
    if lockout == 0 && retransmit == 1
    then retransmit_in retransmit_with_wait s
    else if lockout == 0 && retransmit == 0
    then continue (record s { state = active; retransmit_count = 0 })
    else continue s
clcw_transition initial lockout retransmit s = continue s

abbrev pub lockout_of : Clcw → ℕ
lockout_of clcw = bit_and (clcw.byte2 >>> 7) 1

abbrev pub retransmit_of : Clcw → ℕ
retransmit_of clcw = bit_and (clcw.byte2 >>> 5) 1

-- One CLCW: note the time, slide the window, then the transitions.
pub on_clcw : ℕ → Clcw → Cop1Engine → Flow
on_clcw now clcw s =
    let t = slide clcw.byte3 s.window (record s { last_clcw_at = some now }) in
    clcw_transition t.state (lockout_of clcw) (retransmit_of clcw) t

pub on_new_value : ℕ → Option Clcw → Cop1Engine → Flow
on_new_value now none s = continue s
on_new_value now (some clcw) s = on_clcw now clcw s

-- Part 1 of `tick`: only a value that was published since the last read is looked at.
pub ingest_clcw : ℕ → ClcwWatch → Cop1Engine → Flow
ingest_clcw now rx s =
    let t = record s { clcw_rx = record rx { changed = false } } in
    if rx.changed then on_new_value now rx.value t else continue t

-- The timer has expired in a state in which it counts.
pub t1_expired : ℕ → Cop1Engine → Flow
unfolding count_up
t1_expired now s =
    let t = count_up s in
    if leb cop1_max_retransmit t.retransmit_count
    then return (abort_to_initial t) []
    else return
        (record t { state = retransmit_with_wait; t1_deadline = some (now + t.t1_duration) })
        (oldest_frame_as_retransmit t.window)

abbrev pub waits_for_t1 : Fop1State → Bool
waits_for_t1 active = true
waits_for_t1 retransmit_with_wait = true
waits_for_t1 _ = false

-- Part 2 of `tick`.
pub check_t1 : ℕ → Option ℕ → Cop1Engine → Flow
check_t1 now none s = continue s
check_t1 now (some deadline) s =
    if leb deadline now && waits_for_t1 s.state then t1_expired now s else continue s

abbrev is_due : ℕ → Option ℕ → Bool
is_due now none = true
is_due now (some last) = leb clcw_stale_event_min_interval (now - last)

-- Part 3 of `tick`: the event about a stale CLCW, at most once in a second, and the transition.
pub detect_stale : ℕ → Option ℕ → Cop1Engine → Cop1Engine
detect_stale now none s = s
detect_stale now (some last_clcw) s =
    let stale = now - last_clcw in
    let warned : Cop1Engine =
      if leb (s.t1_duration * cop1_stale_warn_mult) stale && is_due now s.last_stale_event_at
      then record s { last_stale_event_at = some now }
      else s in
    if leb (s.t1_duration * cop1_stale_abort_mult) stale && is_active s.state
    then record warned { state = retransmit_with_wait }
    else warned

-- What a step answers at once is the answer; otherwise the next part runs.
pub and_then : Flow → (Cop1Engine → Cop1Engine × List TcFrame) → Cop1Engine × List TcFrame
and_then (return s frames) next = (s, frames)
and_then (continue s) next = next s

-- Part 3 ends `tick` with no frame to send.
pub finish_tick : ℕ → Cop1Engine → Cop1Engine × List TcFrame
finish_tick now s = (detect_stale now s.last_clcw_at s, [])

-- Parts 2 and 3.
pub tick_timers : ℕ → Cop1Engine → Cop1Engine × List TcFrame
tick_timers now s = and_then (check_t1 now s.t1_deadline s) (finish_tick now)

pub tick : ℕ → Cop1Engine → Cop1Engine × List TcFrame
tick now s = and_then (ingest_clcw now s.clcw_rx s) (tick_timers now)

pub emergency_bd : List ℕ → TcFrame
emergency_bd spp = record { vc_id = 7; frame_type = type_bd; sequence = 0; payload = spp }
