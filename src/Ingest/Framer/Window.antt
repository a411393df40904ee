-- ===== src/Ingest/Framer/Window.antt =====
-- rust/ground_station/src/ingest/framer.rs: the window of the frames that came last. An `Instant` and
-- a `Duration` are numbers of nanoseconds, and a difference of instants stops at 0.
pub mod Pruning
use build_with_opus.Prelude.{
  ℕ, ◌+◌, ◌-◌, ◌*◌, Bool, true, false, not, ◌&&◌, Option, none, some, List, [], ◌∷◌, ◌++◌, ltb, leb,
  if◌then◌else◌,
}

-- The time of each frame and whether it was valid, the oldest first.
abbrev pub FrameWindow : Type 0
FrameWindow = List (ℕ × Bool)

pub push : ℕ → Bool → FrameWindow → FrameWindow
push now valid w = w ++ (now, valid) ∷ []

unfoldable pub prune : ℕ → ℕ → FrameWindow → FrameWindow
prune now max_age [] = []
prune now max_age ((t, valid) ∷ w) =
    let rest = prune now max_age w in if ltb max_age (now - t) then rest else (t, valid) ∷ w

unfoldable pub valid_count_in : ℕ → ℕ → FrameWindow → ℕ
valid_count_in now window [] = 0
valid_count_in now window ((t, valid) ∷ w) =
    (if valid && leb (now - t) window then 1 else 0) + valid_count_in now window w

-- `total` and `errors` of `error_rate_over`
unfoldable pub total_in : ℕ → ℕ → FrameWindow → ℕ
total_in now window [] = 0
total_in now window ((t, valid) ∷ w) =
    (if leb (now - t) window then 1 else 0) + total_in now window w

unfoldable pub errors_in : ℕ → ℕ → FrameWindow → ℕ
errors_in now window [] = 0
errors_in now window ((t, valid) ∷ w) =
    (if leb (now - t) window && not valid then 1 else 0) + errors_in now window w

-- Whether `errors as f64 / total as f64` is above 0.10. The division rounds to the nearest f64, which
-- keeps the order with 0.10 for all counts below 2^49.
unfoldable pub error_rate_above : ℕ → ℕ → FrameWindow → Bool
error_rate_above now window w = ltb (total_in now window w) (errors_in now window w * 10)

-- The time of the last valid entry, of which `last_valid_age` answers the age.
unfoldable pub last_valid : FrameWindow → Option ℕ
last_valid [] = none
last_valid ((t, valid) ∷ w) = elim (last_valid w) [
  | some u ↦ some u
  | none ↦ if valid then some t else none
]

-- `last_valid_age(now).is_none_or(|age| age >= limit)`
unfoldable pub starved : ℕ → ℕ → FrameWindow → Bool
starved now limit w = elim (last_valid w) [ none ↦ true | some t ↦ leb limit (now - t) ]
