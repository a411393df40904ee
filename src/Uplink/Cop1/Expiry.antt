-- ===== src/Uplink/Cop1/Expiry.antt =====
-- The oldest frame of the window, and that the expiry of the timer sends it.
use build_with_opus.Prelude.{
  ℕ, ◌≡◌, refl, ap, ◌∙◌, Bool, true, false, not, ◌&&◌, leb, ltb, ◌+◌, ◌%◌, Option, some, none, List,
  [], ◌∷◌, arith,
}
use build_with_opus.Uplink.Fop1.{
  Cop1Engine, TcFrame, type_ad, cop1_max_retransmit, Fop1State, initial, initializing, active,
  retransmit_without_wait, retransmit_with_wait,
}
use build_with_opus.Uplink.Cop1.{
  waits_for_t1, count_up, oldest_frame_as_retransmit, ingest_clcw, t1_expired, check_t1, and_then,
  tick_timers, tick, return,
}
use build_with_opus.Uplink.Cop1.Invariant.{Window}

-- The oldest frame of a window, on virtual channel 0 in the sequence-controlled service; an empty
-- window has none.
abbrev pub oldest_of : Window → List TcFrame
oldest_of [] = []
oldest_of ((seq, spp) ∷ rest) =
    record { vc_id = 0; frame_type = type_ad; sequence = seq; payload = spp } ∷ []

pub oldest_frame_as_retransmit-eq : (w : Window) → oldest_frame_as_retransmit w ≡ oldest_of w
unfolding oldest_frame_as_retransmit
oldest_frame_as_retransmit-eq [] = refl
oldest_frame_as_retransmit-eq ((seq, spp) ∷ rest) = refl

-- The timer runs and its deadline has come.
abbrev pub is_past : ℕ → Option ℕ → Bool
is_past now none = false
is_past now (some deadline) = leb deadline now

-- The timer counts while frames are sent or sent again on its expiry.
abbrev pub counts_t1 : Fop1State → Bool
counts_t1 active = true
counts_t1 retransmit_with_wait = true
counts_t1 _ = false

-- No new CLCW has come, the timer has expired in a state in which it counts, and a retransmission
-- is left.
abbrev pub retries : ℕ → Cop1Engine → Bool
retries now s =
    not s.clcw_rx.changed
    && is_past now s.t1_deadline
    && counts_t1 s.state
    && ltb (s.retransmit_count + 1) 3

waits_for_t1-eq : (state : Fop1State) → waits_for_t1 state ≡ counts_t1 state
waits_for_t1-eq initial = refl
waits_for_t1-eq initializing = refl
waits_for_t1-eq active = refl
waits_for_t1-eq retransmit_without_wait = refl
waits_for_t1-eq retransmit_with_wait = refl

check_t1-retries :
    (now : ℕ) (d : Option ℕ) (s : Cop1Engine)
    → is_past now d && counts_t1 s.state && ltb (s.retransmit_count + 1) 3 ≡ true
    → (t : Cop1Engine) × (check_t1 now d s ≡ return t (oldest_of s.window)) × (t.window ≡ s.window)
unfolding check_t1 t1_expired count_up
check_t1-retries now none s h = cc h
check_t1-retries now (some d) s h =
    let due : leb d now ≡ true = ground (arith, h) in
    let counts : waits_for_t1 s.state ≡ true = waits_for_t1-eq s.state ∙ ground (arith, h) in
    let left : leb cop1_max_retransmit ((s.retransmit_count + 1) % 256) ≡ false =
      ground (arith, h) in
    let sent = oldest_frame_as_retransmit-eq s.window in
    let t : Cop1Engine = record s {
      state = retransmit_with_wait;
      retransmit_count = (s.retransmit_count + 1) % 256;
      t1_deadline = some (now + s.t1_duration);
    } in
    rw (due, check_t1) (rw (counts, check_t1) (rw (left, t1_expired) (t, ap (return t) sent, refl)))

pub tick-retries :
    (now : ℕ) (s : Cop1Engine)
    → retries now s ≡ true
    → ((tick now s).1 ≡ oldest_of s.window) × ((tick now s).0.window ≡ s.window)
unfolding tick ingest_clcw tick_timers and_then
tick-retries now s h =
    let quiet : s.clcw_rx.changed ≡ false = ground (arith, h) in
    let u = record s { clcw_rx = record s.clcw_rx { changed = false } } in
    let (t, answer, kept) = check_t1-retries now s.t1_deadline u (ground (arith, h)) in
    rw (quiet, tick, ingest_clcw) (rw (answer, and_then) (refl, kept))
