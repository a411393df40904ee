-- ===== src/Uplink/Cop1/Retransmit.antt =====
-- Which frames `tick` sends, and when it gives up.
use build_with_opus.Prelude.{ℕ, ◌≡◌, ◌⊎◌, List, [], drop}
use build_with_opus.Uplink.Fop1.{Cop1Engine, TcFrame}
use build_with_opus.Uplink.Cop1.{Flow, return, continue}
use build_with_opus.Uplink.Cop1.Expiry.{oldest_of}
use build_with_opus.Uplink.Cop1.Invariant.{Window}

-- `u` is a later end of the window `w`.
abbrev pub IsLaterEnd : Window → Window → Type 0
IsLaterEnd u w = (n : ℕ) × (u ≡ drop n w)

-- The session ends, or the frames before some point are gone, and what is sent is the oldest frame
-- that is left.
data Answers (w : Window) : Flow → Type 0 where
  answers :
      {s : Cop1Engine} {frames : List TcFrame}
      → IsLaterEnd s.window w
      → (frames ≡ []) ⊎ (frames ≡ oldest_of s.window)
      → Answers w (return s frames)
  goes_on : {s : Cop1Engine} → IsLaterEnd s.window w → Answers w (continue s)

-- What a whole `tick` leaves and sends, in terms of the window before.
abbrev Sends : Window → Cop1Engine × List TcFrame → Type 0
Sends w (s, frames) = IsLaterEnd s.window w × ((frames ≡ []) ⊎ (frames ≡ oldest_of s.window))
