-- ===== src/Uplink/TcBuilder.antt =====
-- rust/ground_station/src/uplink/builder.rs: telecommands from operator intent.
pub mod Catalog
pub mod RoundTrip
use build_with_opus.Prelude.{
  ℕ, Bool, true, false, List, [], ◌∷◌, ◌++◌, Result, ok, err, ◌>>=◌, map_err, ltb, if◌then◌else◌,
}
use build_with_opus.Prelude.Words.{u16_to_be, u32_to_be}
use build_with_opus.Wire.Error.{CcsdsError}
use build_with_opus.Wire.Apid
use build_with_opus.Wire.SequenceCount.{SequenceCount}
use build_with_opus.Wire.FuncCode
use build_with_opus.Wire.InstanceId
use build_with_opus.Wire.Cuc.{Cuc}
use build_with_opus.Wire.Builder
use build_with_opus.Wire.Builder.{
  with_func_code, with_instance_id, with_cuc, with_sequence_count, with_user_data,
}

abbrev pub cryobot_drill_max_current_10ma : ℕ
cryobot_drill_max_current_10ma = 1000

-- A signed field is its two's complement word.
pub data TcIntent : Type 0 where
  orbiter_set_mode : (new_mode reason_code : ℕ) → TcIntent
  orbiter_event_filter : (filter_app_id min_event_type event_mask : ℕ) → TcIntent
  orbiter_adcs_target_q : (q0 q1 q2 q3 slew_mode : ℕ) → TcIntent
  orbiter_power_arm : (switch_index confirm_magic : ℕ) → TcIntent
  orbiter_power_switch : (switch_index : ℕ) (new_state : Bool) (confirm_magic : ℕ) → TcIntent
  cryobot_set_mode : (new_mode confirm_magic : ℕ) → TcIntent
  cryobot_bw_collapse : (enable : Bool) (duration_s : ℕ) → TcIntent
  cryobot_arm : (confirm_magic : ℕ) → TcIntent
  cryobot_set_drill_rpm : (target_rpm max_current_10ma confirm_magic : ℕ) → TcIntent

pub data BuilderError : Type 0 where
  forbidden_param : BuilderError
  serialize : CcsdsError → BuilderError

-- `(apid_raw, func_raw, instance_raw, user_data)`
pub record Decomposed : Type 0 where
  pub apid_raw : ℕ
  pub func_raw : ℕ
  pub instance_raw : ℕ
  pub user_data : List ℕ

abbrev pub decomposed : ℕ → ℕ → ℕ → List ℕ → Decomposed
decomposed apid_raw func_raw instance_raw user_data = record {
  apid_raw = apid_raw;
  func_raw = func_raw;
  instance_raw = instance_raw;
  user_data = user_data;
}

-- `u8::from`
abbrev pub u8_from : Bool → ℕ
u8_from true = 1
u8_from false = 0

pub decompose : TcIntent → Result BuilderError Decomposed
decompose (orbiter_set_mode new_mode reason_code) =
    ok (decomposed 0x181 0x0100 1 (new_mode ∷ reason_code ∷ []))
decompose (orbiter_event_filter filter_app_id min_event_type event_mask) =
    ok (decomposed 0x181 0x0200 1 (filter_app_id ∷ min_event_type ∷ u32_to_be event_mask))
decompose (orbiter_adcs_target_q q0 q1 q2 q3 slew_mode) = ok (
    decomposed 0x182 0x0100 1
      (u32_to_be q0 ++ (u32_to_be q1 ++ (u32_to_be q2 ++ (u32_to_be q3 ++ slew_mode ∷ 0x00 ∷ [])))))
decompose (orbiter_power_arm switch_index confirm_magic) =
    ok (decomposed 0x184 0x8000 1 (switch_index ∷ u16_to_be confirm_magic))
decompose (orbiter_power_switch switch_index new_state confirm_magic) =
    ok (decomposed 0x184 0x8100 1 (switch_index ∷ u8_from new_state ∷ u16_to_be confirm_magic))
decompose (cryobot_set_mode new_mode confirm_magic) =
    ok (decomposed 0x440 0x0100 1 (new_mode ∷ 0x00 ∷ u16_to_be confirm_magic))
decompose (cryobot_bw_collapse enable duration_s) =
    ok (decomposed 0x440 0x0300 1 (u8_from enable ∷ 0x00 ∷ u16_to_be duration_s))
decompose (cryobot_arm confirm_magic) = ok (decomposed 0x440 0x8000 1 (u16_to_be confirm_magic))
decompose (cryobot_set_drill_rpm target_rpm max_current_10ma confirm_magic) =
    if ltb cryobot_drill_max_current_10ma max_current_10ma
    then err forbidden_param
    else ok (
        decomposed 0x440 0x8200 1 (
          u16_to_be target_rpm
          ++ (u16_to_be max_current_10ma ++ (u16_to_be confirm_magic ++ u16_to_be 0))))

pub build : TcIntent → SequenceCount → Cuc → Result BuilderError (List ℕ)
build intent seq now = do
  d ← decompose intent
  apid ← map_err serialize (Apid.new d.apid_raw)
  func_code ← map_err serialize (FuncCode.new d.func_raw)
  instance_id ← map_err serialize (InstanceId.new d.instance_raw)
  map_err serialize (
      Builder.build (
        with_user_data d.user_data (
          with_sequence_count seq (
            with_cuc now
              (with_instance_id instance_id (with_func_code func_code (Builder.new_tc apid)))))))
