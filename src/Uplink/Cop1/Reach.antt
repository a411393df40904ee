-- ===== src/Uplink/Cop1/Reach.antt =====
-- The engine over every sequence of operations and of published CLCWs.
use build_with_opus.Prelude.{ℕ, List, true, some, arith}
use build_with_opus.Uplink.Fop1.{Cop1Engine, Clcw, ClcwWatch}
use build_with_opus.Uplink.Cop1.{new, initialize, submit, tick}
use build_with_opus.Uplink.Cop1.Invariant.{Inv, new-Inv, initialize-Inv, submit-Inv, tick-Inv}

-- The framer publishes a CLCW on the watch channel.
abbrev pub publish : Clcw → Cop1Engine → Cop1Engine
publish c s = record s { clcw_rx = record { value = some c; changed = true } }

-- The engines that a program can have: a new one, and what its methods leave.
pub data Reach : Cop1Engine → Type 0 where
  start : (rx : ClcwWatch) (t1 : ℕ) → Reach (new rx t1)
  initialized : {s : Cop1Engine} → Reach s → Reach (initialize s).0
  submitted : {s : Cop1Engine} (now : ℕ) (spp : List ℕ) → Reach s → Reach (submit now spp s).0
  published : {s : Cop1Engine} (c : Clcw) → Reach s → Reach (publish c s)
  ticked : {s : Cop1Engine} (now : ℕ) → Reach s → Reach (tick now s).0

-- In every engine that new, initialize, submit, tick and the publication of CLCWs can reach, at
-- most 15 frames are unacknowledged, their sequence numbers are consecutive modulo 256 and end just
-- below V(S), fewer than 3 retransmissions are counted, and the timer runs exactly while a frame is
-- unacknowledged.
pub Reach-Inv : {s : Cop1Engine} → Reach s → Inv s
Reach-Inv (start rx t1) = new-Inv rx t1
Reach-Inv (initialized r) = initialize-Inv _
Reach-Inv (submitted {s = s} now spp r) = submit-Inv now spp s (Reach-Inv r)
Reach-Inv (published {s = s} c r) = let v = Reach-Inv r in ground arith
Reach-Inv (ticked {s = s} now r) = tick-Inv now s (Reach-Inv r)
