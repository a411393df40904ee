-- ===== src/Uplink/Runs.antt =====
-- The theorems on telecommands and frames at concrete inputs.
use build_with_opus.Prelude.{
  ℕ, ◌-◌, ◌≤◌, ◌≡◌, refl, List, [], ◌∷◌, false, none, ok, err, some, length, take, arith,
}
use build_with_opus.Wire.SequenceCount.{SequenceCount}
use build_with_opus.Wire.Cuc.{Cuc}
use build_with_opus.Wire.Packet.{SpacePacket, parse}
use build_with_opus.Uplink.Fop1.{type_bd, TcFrame, Cop1Engine, active}
use build_with_opus.Uplink.Cop1.{submit}
use build_with_opus.Uplink.Transfer.{frame-submit-build}
use build_with_opus.Uplink.TcBuilder.{TcIntent, cryobot_set_drill_rpm, forbidden_param, build}
use build_with_opus.Uplink.TcBuilder.Catalog.{drill_rpm}
use build_with_opus.Uplink.TcBuilder.RoundTrip.{Commands, build-intent, build_forbidden}
use build_with_opus.Uplink.TcFramer.{TcFramer, frame}
use build_with_opus.Uplink.TcFramer.Deframe.{FrameFields, deframe, fields_of, frame-parts}

-- 120 turns backwards, with the highest current that is allowed.
abbrev drill : TcIntent
drill = cryobot_set_drill_rpm 65416 1000 0xCB02

abbrev count : SequenceCount
count = record { raw = 7 }

abbrev now : Cuc
now = record { coarse = 100; fine = 5 }

build-intent_example :
    (bytes : List ℕ) × (build drill count now ≡ ok bytes)
    × ((p : SpacePacket) × (parse bytes ≡ ok p) × Commands drill count now p)
build-intent_example =
    build-intent drill count now (drill_rpm (omega arith) (omega arith) (omega arith)) refl
      (omega arith) (omega arith)

build_forbidden_example :
    build (cryobot_set_drill_rpm 65416 1001 0xCB02) count now ≡ err forbidden_param
build_forbidden_example =
    build_forbidden (cryobot_set_drill_rpm 65416 1001 0xCB02) count now
      (drill_rpm (omega arith) (omega arith) (omega arith)) (omega arith) (omega arith)

abbrev checksum : List ℕ → ℕ
checksum bytes = length bytes

abbrev framer : TcFramer
framer = record { spacecraft_id = 42 }

abbrev emergency : TcFrame
emergency = record { vc_id = 1; frame_type = type_bd; sequence = 0; payload = 1 ∷ 2 ∷ 3 ∷ [] }

frame-parts_example :
    (out : List ℕ) × (frame checksum framer emergency ≡ ok out)
    × (length out ≤ 512)
    × (deframe out ≡ some (fields_of checksum framer emergency (take (length out - 2) out)))
frame-parts_example = frame-parts checksum framer emergency

abbrev running : Cop1Engine
running = record {
  state = active;
  vs = 255;
  window = (254, 7 ∷ []) ∷ [];
  retransmit_count = 0;
  t1_deadline = some 100;
  t1_duration = 50;
  clcw_rx = record { value = none; changed = false };
  last_clcw_at = none;
  last_stale_event_at = none;
}

frame-submit-build_example :
    (bytes : List ℕ) × (f : TcFrame) × (out : List ℕ) × (fields : FrameFields) × (p : SpacePacket)
    × (build drill count now ≡ ok bytes)
    × ((submit 20 bytes running).1 ≡ ok (f ∷ []))
    × ((submit 20 bytes running).0.window ≡ (254, 7 ∷ []) ∷ (f.sequence, f.payload) ∷ [])
    × (frame checksum framer f ≡ ok out)
    × (deframe out ≡ some fields)
    × (fields.sequence ≡ 255)
    × (parse fields.payload ≡ ok p)
    × Commands drill count now p
frame-submit-build_example =
    frame-submit-build checksum framer drill count now 20 running
      (drill_rpm (omega arith) (omega arith) (omega arith)) refl (omega arith) (omega arith) refl
      (omega arith)
