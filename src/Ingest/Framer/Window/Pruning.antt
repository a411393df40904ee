-- ===== src/Ingest/Framer/Window/Pruning.antt =====
-- What the pruning of the window leaves as it was.
use build_with_opus.Prelude.{ℕ, ◌≤◌, ◌≡◌, refl, Bool, [], ◌∷◌, ◌++◌, arith}
use build_with_opus.Ingest.Framer.Window.{
  FrameWindow, push, prune, valid_count_in, total_in, errors_in, error_rate_above, last_valid,
  starved,
}

module _ (now max_age : ℕ) where
  total_in-prune :
      (w : FrameWindow) → total_in now max_age (prune now max_age w) ≡ total_in now max_age w
  unfolding total_in prune
  total_in-prune [] = refl
  total_in-prune ((t, v) ∷ w) = ground (arith, total_in-prune w)

  errors_in-prune :
      (w : FrameWindow) → errors_in now max_age (prune now max_age w) ≡ errors_in now max_age w
  unfolding errors_in prune
  errors_in-prune [] = refl
  errors_in-prune ((t, v) ∷ w) = ground (arith, errors_in-prune w)

  pub error_rate_above-prune :
      (w : FrameWindow)
      → error_rate_above now max_age (prune now max_age w) ≡ error_rate_above now max_age w
  unfolding error_rate_above
  error_rate_above-prune w = rw (total_in-prune w, errors_in-prune w) refl

  pub valid_count_in-prune :
      (window : ℕ) (w : FrameWindow)
      → window ≤ max_age
      → valid_count_in now window (prune now max_age w) ≡ valid_count_in now window w
  unfolding valid_count_in prune
  valid_count_in-prune window [] h = refl
  valid_count_in-prune window ((t, v) ∷ w) h = ground (arith, valid_count_in-prune window w h)

  pub starved-prune :
      (limit : ℕ) (w : FrameWindow)
      → limit ≤ max_age
      → starved now limit (prune now max_age w) ≡ starved now limit w
  unfolding starved last_valid prune
  starved-prune limit [] h = refl
  starved-prune limit ((t, v) ∷ w) h = ground (arith, starved-prune limit w h)

-- What was dropped at a time would be dropped later.
prune-append :
    (early now max_age : ℕ) (w x : FrameWindow)
    → early ≤ now
    → prune now max_age (prune early max_age w ++ x) ≡ prune now max_age (w ++ x)
unfolding prune
prune-append early now max_age [] x h = refl
prune-append early now max_age ((t, v) ∷ w) x h =
    ground (arith, prune-append early now max_age w x h)

pub prune-push :
    (early now max_age : ℕ) (valid : Bool) (w : FrameWindow)
    → early ≤ now
    → prune now max_age (push now valid (prune early max_age w))
      ≡ prune now max_age (push now valid w)
unfolding push
prune-push early now max_age valid w h = prune-append early now max_age w _ h

pub prune-prune :
    (early now max_age : ℕ) (w : FrameWindow)
    → early ≤ now
    → prune now max_age (prune early max_age w) ≡ prune now max_age w
unfolding prune
prune-prune early now max_age [] h = refl
prune-prune early now max_age ((t, v) ∷ w) h = ground (arith, prune-prune early now max_age w h)
