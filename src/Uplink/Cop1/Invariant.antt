-- ===== src/Uplink/Cop1/Invariant.antt =====
-- What holds of the engine between two operations.
use build_with_opus.Prelude.{
  ℕ, suc, ◌+◌, ◌%◌, ◌≤◌, ◌<◌, ◌≡◌, inl, inr, refl, Bool, true, false, Option, none, some, List, [],
  ◌∷◌, ◌++◌, ok, length, length-append, arith, Bool-cases,
}
use build_with_opus.Uplink.Fop1.{
  Cop1Engine, TcFrame, Fop1State, Clcw, ClcwWatch, initial, retransmit_without_wait,
  retransmit_with_wait, cop1_window_size, cop1_max_retransmit,
}
use build_with_opus.Uplink.Cop1.{
  is_active, ad_frame, new, initialize, submit, popped, slide, seq_before, abort_to_initial,
  retransmit_in, clcw_transition, on_clcw, on_new_value, ingest_clcw, and_then, finish_tick,
  t1_expired, check_t1, detect_stale, tick_timers, tick, Flow, return, continue, lockout_of,
  retransmit_of,
}

abbrev pub Window : Type 0
Window = List (ℕ × List ℕ)

-- The sequence numbers of a window go up by one, modulo 256, and end just below `vs`.
abbrev pub Numbered : ℕ → Window → Type 0
Numbered vs [] = Unit {0}
Numbered vs ((seq, spp) ∷ rest) =
    (seq < 256) × ((seq + suc (length rest)) % 256 ≡ vs) × Numbered vs rest

abbrev pub is_empty : Window → Bool
is_empty [] = true
is_empty (_ ∷ _) = false

abbrev pub is_none {ℓ} : {A : Type ℓ} → Option A → Bool
is_none none = true
is_none (some _) = false

pub record Inv (s : Cop1Engine) : Type 0 where
  pub vs_byte : s.vs < 256
  pub bounded : length s.window ≤ cop1_window_size
  pub numbered : Numbered s.vs s.window
  pub count_small : s.retransmit_count < cop1_max_retransmit
  -- The timer runs exactly while a frame is unacknowledged.
  pub timer : is_none s.t1_deadline ≡ is_empty s.window

pub new-Inv : (rx : ClcwWatch) (t1 : ℕ) → Inv (new rx t1)
unfolding new
new-Inv rx t1 = ground arith

pub initialize-Inv : (s : Cop1Engine) → Inv (initialize s).0
unfolding initialize
initialize-Inv s = ground arith

Numbered-append :
    (vs : ℕ) (w : Window) (spp : List ℕ)
    → vs < 256
    → Numbered vs w
    → Numbered ((vs + 1) % 256) (w ++ (vs, spp) ∷ [])
Numbered-append vs [] spp h n = omega arith
Numbered-append vs ((seq, p) ∷ rest) spp h (small, next, n) =
    (small, omega (arith, length-append rest ((vs, spp) ∷ [])), Numbered-append vs rest spp h n)

not-is_empty-append : (w : Window) (e : ℕ × List ℕ) → is_empty (w ++ e ∷ []) ≡ false
not-is_empty-append [] e = refl
not-is_empty-append (x ∷ w) e = refl

pub submit-Inv : (now : ℕ) (spp : List ℕ) (s : Cop1Engine) → Inv s → Inv (submit now spp s).0
unfolding submit
submit-Inv now spp s v = ground (
  arith,
  Numbered-append s.vs s.window spp v.vs_byte v.numbered,
  not-is_empty-append s.window (s.vs, spp),
  length-append s.window ((s.vs, spp) ∷ []),
)

pub window-popped : (rest : Window) (s : Cop1Engine) → (popped rest s).window ≡ rest
unfolding popped
window-popped [] s = refl
window-popped (x ∷ rest) s = refl

popped-Inv :
    (e : ℕ × List ℕ) (rest : Window) (s : Cop1Engine)
    → s.window ≡ e ∷ rest
    → Inv s
    → Inv (popped rest s)
unfolding popped
popped-Inv e [] s p v = ground arith
popped-Inv e (x ∷ rest) s p v = ground arith

pub slide-Inv : (nr : ℕ) (w : Window) (s : Cop1Engine) → s.window ≡ w → Inv s → Inv (slide nr w s)
unfolding slide
slide-Inv nr [] s p v = v
slide-Inv nr ((seq, spp) ∷ rest) s p v =
    let ih =
      slide-Inv nr rest (popped rest s) (window-popped rest s) (popped-Inv (seq, spp) rest s p v) in
    elim (Bool-cases (seq_before seq nr)) [ inl e ↦ rw e ih | inr e ↦ rw e v ]

-- The engine that a step leaves.
abbrev pub engine_of : Flow → Cop1Engine
engine_of (return s frames) = s
engine_of (continue s) = s

retransmit_in-Inv :
    (next : Fop1State) (s : Cop1Engine) → Inv s → Inv (engine_of (retransmit_in next s))
unfolding retransmit_in abort_to_initial
retransmit_in-Inv next s v = ground arith

clcw_transition-Inv :
    (state : Fop1State) (l r : ℕ) (s : Cop1Engine)
    → Inv s
    → Inv (engine_of (clcw_transition state l r s))
unfolding clcw_transition
clcw_transition-Inv initial l r s v = v
clcw_transition-Inv state l r s v = ground (
  arith,
  retransmit_in-Inv retransmit_without_wait s v,
  retransmit_in-Inv retransmit_with_wait s v,
)

on_clcw-Inv : (now : ℕ) (c : Clcw) (s : Cop1Engine) → Inv s → Inv (engine_of (on_clcw now c s))
unfolding on_clcw
on_clcw-Inv now c s v =
    let t = record s { last_clcw_at = some now } in
    let u = slide c.byte3 s.window t in
    clcw_transition-Inv u.state (lockout_of c) (retransmit_of c) u
      (slide-Inv c.byte3 s.window t refl (ground arith))

on_new_value-Inv :
    (now : ℕ) (o : Option Clcw) (s : Cop1Engine) → Inv s → Inv (engine_of (on_new_value now o s))
unfolding on_new_value
on_new_value-Inv now none s v = v
on_new_value-Inv now (some c) s v = on_clcw-Inv now c s v

ingest_clcw-Inv :
    (now : ℕ) (rx : ClcwWatch) (s : Cop1Engine) → Inv s → Inv (engine_of (ingest_clcw now rx s))
unfolding ingest_clcw
ingest_clcw-Inv now rx s v =
    let t = record s { clcw_rx = record rx { changed = false } } in
    let kept : Inv t = ground arith in
    elim (Bool-cases rx.changed) [
      | inl e ↦ rw e (on_new_value-Inv now rx.value t kept)
      | inr e ↦ rw e kept
    ]

check_t1-Inv :
    (now : ℕ) (d : Option ℕ) (s : Cop1Engine)
    → s.t1_deadline ≡ d
    → Inv s
    → Inv (engine_of (check_t1 now d s))
unfolding check_t1 t1_expired abort_to_initial
check_t1-Inv now none s p v = v
check_t1-Inv now (some d) s p v = ground arith

detect_stale-Inv : (now : ℕ) (o : Option ℕ) (s : Cop1Engine) → Inv s → Inv (detect_stale now o s)
unfolding detect_stale
detect_stale-Inv now none s v = v
detect_stale-Inv now (some l) s v = ground arith

and_then-Inv :
    (f : Flow) (next : Cop1Engine → Cop1Engine × List TcFrame)
    → ((s : Cop1Engine) → Inv s → Inv (next s).0)
    → Inv (engine_of f)
    → Inv (and_then f next).0
unfolding and_then
and_then-Inv (return s frames) next keep v = v
and_then-Inv (continue s) next keep v = keep s v

tick_timers-Inv : (now : ℕ) (s : Cop1Engine) → Inv s → Inv (tick_timers now s).0
unfolding tick_timers finish_tick
tick_timers-Inv now s v =
    and_then-Inv (check_t1 now s.t1_deadline s) (finish_tick now)
      (λ t k. detect_stale-Inv now t.last_clcw_at t k) (check_t1-Inv now s.t1_deadline s refl v)

pub tick-Inv : (now : ℕ) (s : Cop1Engine) → Inv s → Inv (tick now s).0
unfolding tick
tick-Inv now s v =
    and_then-Inv (ingest_clcw now s.clcw_rx s) (tick_timers now) (tick_timers-Inv now)
      (ingest_clcw-Inv now s.clcw_rx s v)

-- An active engine with room answers the frame, and keeps it.
pub submit-accepted :
    (now : ℕ) (spp : List ℕ) (s : Cop1Engine)
    → is_active s.state ≡ true
    → length s.window < 15
    → ((submit now spp s).1 ≡ ok (ad_frame s.vs spp ∷ []))
      × ((submit now spp s).0.window ≡ s.window ++ (s.vs, spp) ∷ [])
unfolding submit
submit-accepted now spp s running room =
    (ground (arith, running, room), ground (arith, running, room))
