-- ===== src/Ui/Links.antt =====
-- rust/ground_station/src/ui/mod.rs: the health of the links, read out of the latest housekeeping.
pub mod Reports
use build_with_opus.Prelude.{
  ℕ, ◌+◌, Bool, false, not, Option, none, some, List, [], ◌∷◌, take, drop, map, get_elem?, ◌==◌,
  if◌then◌else◌,
}
use build_with_opus.Prelude.Words.{u32_from_be, u32_from_le}
use build_with_opus.Prelude.Texts.{codes}
use build_with_opus.Ingest.Sinks.{HkFrame, HkSnapshot}
use build_with_opus.Ui.Time.{Seconds}

-- `frames.last()`
unfoldable pub last {ℓ} : {A : Type ℓ} → List A → Option A
last [] = none
last (x ∷ []) = some x
last (x ∷ y ∷ xs) = last (y ∷ xs)

unfoldable pub latest_hk_frame : List HkSnapshot → ℕ → Option HkFrame
latest_hk_frame [] apid = none
latest_hk_frame (s ∷ hk) apid = if s.apid == apid then last s.frames else latest_hk_frame hk apid

-- `<[u8; 4]>::try_from` of the bytes that are left after the offset.
unfoldable pub four_le : List ℕ → ℕ
four_le (b0 ∷ b1 ∷ b2 ∷ b3 ∷ rest) = u32_from_le b0 b1 b2 b3
four_le _ = 0

unfoldable pub read_le_u32 : List ℕ → ℕ → ℕ
unfolding four_le
read_le_u32 bytes offset = four_le (drop offset bytes)

unfoldable pub four_be : List ℕ → ℕ
four_be (b0 ∷ b1 ∷ b2 ∷ b3 ∷ rest) = u32_from_be b0 b1 b2 b3
four_be _ = 0

unfoldable pub read_be_u32 : List ℕ → ℕ → ℕ
unfolding four_be
read_be_u32 bytes offset = four_be (drop offset bytes)

-- `.copied().unwrap_or(0)`
abbrev pub byte_or_zero : List ℕ → ℕ → ℕ
byte_or_zero bytes i = elim (get_elem? bytes i) [ none ↦ 0 | some b ↦ b ]

pub record CfsRosLinkDto : Type 0 where
  pub packets_routed : ℕ
  pub apid_rejects : ℕ
  pub tc_forwarded : ℕ
  pub uptime_s : ℕ
  pub cmd_counter : ℕ
  pub err_counter : ℕ
  pub last_hk_utc : Option (List ℕ)

unfoldable pub cfs_ros_of : Option HkFrame → CfsRosLinkDto
unfolding read_le_u32
cfs_ros_of none = record {
  packets_routed = 0;
  apid_rejects = 0;
  tc_forwarded = 0;
  uptime_s = 0;
  cmd_counter = 0;
  err_counter = 0;
  last_hk_utc = none;
}
cfs_ros_of (some frame) = record {
  packets_routed = read_le_u32 frame.payload 0;
  apid_rejects = read_le_u32 frame.payload 4;
  tc_forwarded = read_le_u32 frame.payload 8;
  uptime_s = read_le_u32 frame.payload 12;
  cmd_counter = read_le_u32 frame.payload 16;
  err_counter = read_le_u32 frame.payload 20;
  last_hk_utc = some frame.timestamp_utc;
}

unfoldable pub get_cfs_ros_link : List HkSnapshot → CfsRosLinkDto
get_cfs_ros_link hk = cfs_ros_of (latest_hk_frame hk 0x128)

pub record FleetDdsLinkDto : Type 0 where
  pub health_mask : ℕ
  pub land_age_ms : ℕ
  pub uav_age_ms : ℕ
  pub cryo_age_ms : ℕ
  pub last_hk_utc : Option (List ℕ)

unfoldable pub fleet_dds_of : Option HkFrame → FleetDdsLinkDto
unfolding read_be_u32
fleet_dds_of none = record {
  health_mask = 0;
  land_age_ms = 0;
  uav_age_ms = 0;
  cryo_age_ms = 0;
  last_hk_utc = none;
}
fleet_dds_of (some frame) = record {
  health_mask = byte_or_zero frame.payload 0;
  land_age_ms = read_be_u32 frame.payload 1;
  uav_age_ms = read_be_u32 frame.payload 5;
  cryo_age_ms = read_be_u32 frame.payload 9;
  last_hk_utc = some frame.timestamp_utc;
}

unfoldable pub get_fleet_dds_link : List HkSnapshot → FleetDdsLinkDto
get_fleet_dds_link hk = fleet_dds_of (latest_hk_frame hk 0x160)

module _ (seconds : Seconds) where
  open seconds use {F64, of_u32, of_be_bytes}

  -- Fewer than eight bytes after the offset are read as zero.
  unfoldable pub eight_be : List ℕ → F64
  eight_be (b0 ∷ b1 ∷ b2 ∷ b3 ∷ b4 ∷ b5 ∷ b6 ∷ b7 ∷ rest) =
      of_be_bytes (b0 ∷ b1 ∷ b2 ∷ b3 ∷ b4 ∷ b5 ∷ b6 ∷ b7 ∷ [])
  eight_be _ = of_u32 0

  unfoldable pub read_be_f64 : List ℕ → ℕ → F64
  unfolding eight_be
  read_be_f64 bytes offset = eight_be (drop offset bytes)

  pub record RosGroundLinkDto : Type 0 where
    pub session_active : Bool
    pub signal_strength : ℕ
    pub last_contact_s : F64
    pub last_hk_utc : Option (List ℕ)

  unfoldable pub ros_ground_of : Option HkFrame → RosGroundLinkDto
  unfolding read_be_f64
  ros_ground_of none = record {
    session_active = false;
    signal_strength = 0;
    last_contact_s = of_u32 0;
    last_hk_utc = none;
  }
  ros_ground_of (some frame) = record {
    session_active = not (byte_or_zero frame.payload 0 == 0);
    signal_strength = byte_or_zero frame.payload 1;
    last_contact_s = read_be_f64 frame.payload 2;
    last_hk_utc = some frame.timestamp_utc;
  }

  unfoldable pub get_ros_ground_link : List HkSnapshot → RosGroundLinkDto
  get_ros_ground_link hk = ros_ground_of (latest_hk_frame hk 0x129)

pub record LinkHealthSnapshot : Type 0 where
  pub link : List ℕ
  pub apid : ℕ
  pub last_hk_utc : Option (List ℕ)

-- `.map(|f| f.timestamp_utc.clone())`
unfoldable pub utc_of : Option HkFrame → Option (List ℕ)
utc_of none = none
utc_of (some frame) = some frame.timestamp_utc

unfoldable pub health : List HkSnapshot → ℕ → List ℕ → LinkHealthSnapshot
health hk apid name = record {
  link = name;
  apid = apid;
  last_hk_utc = utc_of (latest_hk_frame hk apid);
}

unfoldable pub build_links_health : List HkSnapshot → List LinkHealthSnapshot
build_links_health hk =
    health hk 0x128 (codes "cfs-ros")
    ∷ health hk 0x129 (codes "ros-ground")
    ∷ health hk 0x160 (codes "fleet-dds")
    ∷ []
