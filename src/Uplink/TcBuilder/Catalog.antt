-- ===== src/Uplink/TcBuilder/Catalog.antt =====
-- What the command catalogue (docs/interfaces/packet-catalog.md, sections 5 and 6) says that the
-- user data of a telecommand mean.
use build_with_opus.Prelude.{
  ℕ, ◌≤◌, ◌<◌, ◌≡◌, refl, ap, Bool, true, false, ◌&&◌, Option, none, some, List, [], ◌∷◌, ◌++◌, ok,
  err, ◌==◌, if◌then◌else◌, ltb, length, arith, ◌/◌, ◌%◌,
}
use build_with_opus.Prelude.Words.{u16_from_be, u32_from_be, u16_to_be}
use build_with_opus.Uplink.TcBuilder.{
  TcIntent, orbiter_set_mode, orbiter_event_filter, orbiter_adcs_target_q, orbiter_power_arm,
  orbiter_power_switch, cryobot_set_mode, cryobot_bw_collapse, cryobot_arm, cryobot_set_drill_rpm,
  Decomposed, decomposed, forbidden_param, decompose,
}

set_mode_of : List ℕ → Option TcIntent
set_mode_of (m ∷ r ∷ []) = some (orbiter_set_mode m r)
set_mode_of _ = none

event_filter_of : List ℕ → Option TcIntent
event_filter_of (a ∷ t ∷ m0 ∷ m1 ∷ m2 ∷ m3 ∷ []) =
    some (orbiter_event_filter a t (u32_from_be m0 m1 m2 m3))
event_filter_of _ = none

target_q_of : List ℕ → Option TcIntent
target_q_of
      (a0 ∷ a1 ∷ a2 ∷ a3 ∷ b0 ∷ b1 ∷ b2 ∷ b3 ∷ c0 ∷ c1 ∷ c2 ∷ c3 ∷ d0 ∷ d1 ∷ d2 ∷ d3 ∷ s ∷ reserved
        ∷ []) =
    some (
      orbiter_adcs_target_q (u32_from_be a0 a1 a2 a3) (u32_from_be b0 b1 b2 b3)
        (u32_from_be c0 c1 c2 c3) (u32_from_be d0 d1 d2 d3) s)
target_q_of _ = none

power_arm_of : List ℕ → Option TcIntent
power_arm_of (s ∷ m0 ∷ m1 ∷ []) = some (orbiter_power_arm s (u16_from_be m0 m1))
power_arm_of _ = none

power_switch_of : List ℕ → Option TcIntent
power_switch_of (s ∷ n ∷ m0 ∷ m1 ∷ []) = some (orbiter_power_switch s (n == 1) (u16_from_be m0 m1))
power_switch_of _ = none

cryobot_mode_of : List ℕ → Option TcIntent
cryobot_mode_of (m ∷ reserved ∷ m0 ∷ m1 ∷ []) = some (cryobot_set_mode m (u16_from_be m0 m1))
cryobot_mode_of _ = none

bw_collapse_of : List ℕ → Option TcIntent
bw_collapse_of (e ∷ reserved ∷ d0 ∷ d1 ∷ []) =
    some (cryobot_bw_collapse (e == 1) (u16_from_be d0 d1))
bw_collapse_of _ = none

cryobot_arm_of : List ℕ → Option TcIntent
cryobot_arm_of (m0 ∷ m1 ∷ []) = some (cryobot_arm (u16_from_be m0 m1))
cryobot_arm_of _ = none

drill_rpm_of : List ℕ → Option TcIntent
drill_rpm_of (r0 ∷ r1 ∷ c0 ∷ c1 ∷ m0 ∷ m1 ∷ z0 ∷ z1 ∷ []) =
    some (cryobot_set_drill_rpm (u16_from_be r0 r1) (u16_from_be c0 c1) (u16_from_be m0 m1))
drill_rpm_of _ = none

-- The reader of an APID and a function code.
pub meaning : ℕ → ℕ → List ℕ → Option TcIntent
meaning apid func user_data =
    if apid == 0x181 && func == 0x0100
    then set_mode_of user_data
    else if apid == 0x181 && func == 0x0200
    then event_filter_of user_data
    else if apid == 0x182 && func == 0x0100
    then target_q_of user_data
    else if apid == 0x184 && func == 0x8000
    then power_arm_of user_data
    else if apid == 0x184 && func == 0x8100
    then power_switch_of user_data
    else if apid == 0x440 && func == 0x0100
    then cryobot_mode_of user_data
    else if apid == 0x440 && func == 0x0300
    then bw_collapse_of user_data
    else if apid == 0x440 && func == 0x8000
    then cryobot_arm_of user_data
    else if apid == 0x440 && func == 0x8200
    then drill_rpm_of user_data
    else none

-- The fields that are wider than a byte fit their width.
pub data IsTyped : TcIntent → Type 0 where
  set_mode : {a b : ℕ} → IsTyped (orbiter_set_mode a b)
  event_filter : {a b m : ℕ} → m < 4294967296 → IsTyped (orbiter_event_filter a b m)
  target_q :
      {a b c d s : ℕ}
      → a < 4294967296
      → b < 4294967296
      → c < 4294967296
      → d < 4294967296
      → IsTyped (orbiter_adcs_target_q a b c d s)
  power_arm : {a m : ℕ} → m < 65536 → IsTyped (orbiter_power_arm a m)
  power_switch : {a m : ℕ} {on : Bool} → m < 65536 → IsTyped (orbiter_power_switch a on m)
  cryo_mode : {a m : ℕ} → m < 65536 → IsTyped (cryobot_set_mode a m)
  bw_collapse : {d : ℕ} {on : Bool} → d < 65536 → IsTyped (cryobot_bw_collapse on d)
  arm : {m : ℕ} → m < 65536 → IsTyped (cryobot_arm m)
  drill_rpm :
      {r c m : ℕ} → r < 65536 → c < 65536 → m < 65536 → IsTyped (cryobot_set_drill_rpm r c m)

-- A drill current above the limit.
abbrev pub is_excessive : TcIntent → Bool
is_excessive (cryobot_set_drill_rpm target_rpm max_current_10ma confirm_magic) =
    ltb 1000 max_current_10ma
is_excessive intent = false

word_of : (v : ℕ) → v < 65536 → u16_from_be (v / 256 % 256) (v % 256) ≡ v
word_of v h = omega arith

quad_of :
    (v : ℕ)
    → v < 4294967296
    → u32_from_be (v / 16777216 % 256) (v / 65536 % 256) (v / 256 % 256) (v % 256) ≡ v
quad_of v h = omega arith

-- What the catalogue reads, and the addresses and the length that a packet needs.
pub record Describes (intent : TcIntent) (d : Decomposed) : Type 0 where
  pub decomposes : decompose intent ≡ ok d
  pub means : meaning d.apid_raw d.func_raw d.user_data ≡ some intent
  pub addresses :
      ((0 < d.apid_raw) × (d.apid_raw ≤ 2047)) × ((0 < d.func_raw) × (d.func_raw < 65536))
  pub instance_one : d.instance_raw ≡ 1
  pub short : length d.user_data ≤ 18

describe :
    (intent : TcIntent) (d : Decomposed)
    → decompose intent ≡ ok d
    → meaning d.apid_raw d.func_raw d.user_data ≡ some intent
    → ((0 < d.apid_raw) × (d.apid_raw ≤ 2047)) × ((0 < d.func_raw) × (d.func_raw < 65536))
    → d.instance_raw ≡ 1
    → length d.user_data ≤ 18
    → (x : Decomposed) × Describes intent x
describe intent d e m a i l =
    (d, record { decomposes = e; means = m; addresses = a; instance_one = i; short = l })

pub decompose_meaning :
    (intent : TcIntent)
    → IsTyped intent
    → is_excessive intent ≡ false
    → (x : Decomposed) × Describes intent x
unfolding meaning decompose set_mode_of event_filter_of target_q_of power_arm_of power_switch_of
    cryobot_mode_of bw_collapse_of cryobot_arm_of drill_rpm_of
decompose_meaning (orbiter_set_mode a b) t e =
    describe _ _ refl refl (omega arith) refl (omega arith)
decompose_meaning (orbiter_event_filter a b m) (event_filter h) e =
    describe _ _ refl (ap (λ v. some (orbiter_event_filter a b v)) (quad_of m h)) (omega arith) refl
      (omega arith)
decompose_meaning (orbiter_adcs_target_q a b c d s) (target_q ha hb hc hd) e =
    describe _ _ refl (rw (quad_of a ha, quad_of b hb, quad_of c hc, quad_of d hd) refl)
      (omega arith) refl (omega arith)
decompose_meaning (orbiter_power_arm a m) (power_arm h) e =
    describe _ _ refl (rw (word_of m h) refl) (omega arith) refl (omega arith)
decompose_meaning (orbiter_power_switch a true m) (power_switch h) e =
    describe _ _ refl (rw (word_of m h) refl) (omega arith) refl (omega arith)
decompose_meaning (orbiter_power_switch a false m) (power_switch h) e =
    describe _ _ refl (rw (word_of m h) refl) (omega arith) refl (omega arith)
decompose_meaning (cryobot_set_mode a m) (cryo_mode h) e =
    describe _ _ refl (rw (word_of m h) refl) (omega arith) refl (omega arith)
decompose_meaning (cryobot_bw_collapse true d) (bw_collapse h) e =
    describe _ _ refl (rw (word_of d h) refl) (omega arith) refl (omega arith)
decompose_meaning (cryobot_bw_collapse false d) (bw_collapse h) e =
    describe _ _ refl (rw (word_of d h) refl) (omega arith) refl (omega arith)
decompose_meaning (cryobot_arm m) (arm h) e =
    describe _ _ refl (rw (word_of m h) refl) (omega arith) refl (omega arith)
decompose_meaning (cryobot_set_drill_rpm r c m) (drill_rpm hr hc hm) e =
    describe (cryobot_set_drill_rpm r c m)
      (decomposed 0x440 0x8200 1 (u16_to_be r ++ (u16_to_be c ++ (u16_to_be m ++ u16_to_be 0))))
      (rw e refl) (rw (word_of r hr, word_of c hc, word_of m hm) refl) (omega arith) refl
      (omega arith)

-- A drill current above the limit, and nothing else, is refused.
pub decompose_excessive :
    (intent : TcIntent) → is_excessive intent ≡ true → decompose intent ≡ err forbidden_param
unfolding decompose
decompose_excessive (cryobot_set_drill_rpm r c m) e = rw e refl
decompose_excessive (orbiter_set_mode a b) e = cc e
decompose_excessive (orbiter_event_filter a b m) e = cc e
decompose_excessive (orbiter_adcs_target_q a b c d s) e = cc e
decompose_excessive (orbiter_power_arm a m) e = cc e
decompose_excessive (orbiter_power_switch a on m) e = cc e
decompose_excessive (cryobot_set_mode a m) e = cc e
decompose_excessive (cryobot_bw_collapse on d) e = cc e
decompose_excessive (cryobot_arm m) e = cc e
