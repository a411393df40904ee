-- ===== src/Ingest/Sinks.antt =====
-- rust/ground_station/src/ingest/sinks.rs: the stores of housekeeping frames and of events.
pub mod Rings
pub mod Headers
pub mod Runs
use build_with_opus.Prelude.{
  ℕ, ◌+◌, ◌-◌, bit_and, bit_or, Option, none, some, List, [], ◌∷◌, ◌++◌, ok, err, length, drop, ltb,
  leb, ◌==◌, if◌then◌else◌,
}
use build_with_opus.Prelude.Words.{◌<<<◌}
use build_with_opus.Wire.Cuc.{Cuc}
use build_with_opus.Wire.Secondary

abbrev pub hk_frames_per_apid : ℕ
hk_frames_per_apid = 20

abbrev pub event_ring_max : ℕ
event_ring_max = 500

abbrev pub hdr_len : ℕ
hdr_len = 16

-- The texts of the interface are bytes. What is taken from outside: the text of a time, that of the
-- present time, and the text that `from_utf8_lossy` makes of bytes. The text of the present time, for
-- packets without a time code, is one for all of them, while the program reads the clock each time.
pub record Texts : Type 0 where
  pub iso8601 : Cuc → List ℕ
  pub now_utc : List ℕ
  pub lossy : List ℕ → List ℕ

pub record HkFrame : Type 0 where
  pub timestamp_utc : List ℕ
  pub payload : List ℕ  -- the field `data`

-- The names of `apid_to_asset`.
pub data Asset : Type 0 where
  sample_app orbiter_cdh orbiter_adcs orbiter_adcs_wheel orbiter_comm ros2_bridge prx1_link_state :
      Asset
  orbiter_power orbiter_payload fleet_monitor rover_land rover_land_2 rover_land_3 : Asset
  rover_uav rover_uav_2 rover_uav_3 rover_uav_4 rover_uav_5 rover_cryobot : Asset
  apid_hex : ℕ → Asset

pub record HkSnapshot : Type 0 where
  pub asset : Asset
  pub apid : ℕ
  pub frames : List HkFrame

pub record EventEntry : Type 0 where
  pub timestamp_utc : List ℕ
  pub apid : ℕ
  pub severity : ℕ
  pub message : List ℕ

pub apid_to_asset : ℕ → Asset
apid_to_asset apid =
    if apid == 0x100
    then sample_app
    else if apid == 0x101
    then orbiter_cdh
    else if apid == 0x110
    then orbiter_adcs
    else if apid == 0x111
    then orbiter_adcs_wheel
    else if apid == 0x120
    then orbiter_comm
    else if apid == 0x128
    then ros2_bridge
    else if apid == 0x129
    then prx1_link_state
    else if apid == 0x130
    then orbiter_power
    else if apid == 0x140
    then orbiter_payload
    else if apid == 0x160
    then fleet_monitor
    else if apid == 0x300
    then rover_land
    else if apid == 0x301
    then rover_land_2
    else if apid == 0x302
    then rover_land_3
    else if apid == 0x3C0
    then rover_uav
    else if apid == 0x3C1
    then rover_uav_2
    else if apid == 0x3C2
    then rover_uav_3
    else if apid == 0x3C3
    then rover_uav_4
    else if apid == 0x3C4
    then rover_uav_5
    else if apid == 0x400
    then rover_cryobot
    else apid_hex apid

unfoldable pub extract_apid : List ℕ → Option ℕ
extract_apid (b0 ∷ b1 ∷ rest) = some (bit_or (bit_and b0 0x07 <<< 8) b1)
extract_apid _ = none

-- Fewer than six bytes have no secondary header, as no bytes at all have none.
pub extract_utc : Texts → List ℕ → List ℕ
extract_utc texts bytes = elim (Secondary.decode (drop 6 bytes)) [
  | ok hdr ↦ texts.iso8601 hdr.time
  | err e ↦ texts.now_utc
]

-- `push`, and then `drain` of what is too many at the front.
pub push_ring {ℓ} : {A : Type ℓ} → ℕ → A → List A → List A
push_ring cap x xs =
    let pushed = xs ++ x ∷ [] in
    if ltb cap (length pushed) then drop (length pushed - cap) pushed else pushed

pub upsert : ℕ → HkFrame → List HkSnapshot → List HkSnapshot
upsert apid frame [] = record { asset = apid_to_asset apid; apid = apid; frames = frame ∷ [] } ∷ []
upsert apid frame (s ∷ hk) =
    let later = s ∷ upsert apid frame hk in
    if s.apid == apid
    then record s { frames = push_ring hk_frames_per_apid frame s.frames } ∷ hk
    else later

unfoldable pub hk_frame : Texts → List ℕ → HkFrame
hk_frame texts bytes = record {
  timestamp_utc = extract_utc texts bytes;
  payload = drop hdr_len bytes;
}

pub process_hk_packet : Texts → List ℕ → List HkSnapshot → List HkSnapshot
process_hk_packet texts bytes hk = elim (extract_apid bytes) [
  | none ↦ hk
  | some apid ↦ upsert apid (hk_frame texts bytes) hk
]

-- The bytes before the first zero.
pub before_nul : List ℕ → List ℕ
before_nul [] = []
before_nul (b ∷ bytes) = if b == 0 then [] else b ∷ before_nul bytes

-- `(severity, message)`, of a packet that may be shorter than its headers.
pub severity_of : List ℕ → ℕ
severity_of [] = 0
severity_of (severity ∷ text) = severity

pub message_of : Texts → List ℕ → List ℕ
message_of texts [] = []
message_of texts (severity ∷ text) = texts.lossy (before_nul text)

pub event_entry : Texts → ℕ → List ℕ → EventEntry
event_entry texts apid bytes = record {
  timestamp_utc = extract_utc texts bytes;
  apid = apid;
  severity = severity_of (drop hdr_len bytes);
  message = message_of texts (drop hdr_len bytes);
}

pub process_event_packet : Texts → List ℕ → List EventEntry → List EventEntry
process_event_packet texts bytes events = elim (extract_apid bytes) [
  | none ↦ events
  | some apid ↦ push_ring event_ring_max (event_entry texts apid bytes) events
]
