-- ===== src/Ui/Runs.antt =====
-- The theorems on the interface at concrete inputs.
use build_with_opus.Prelude.Texts.{codes}
use build_with_opus.Prelude.{ℕ, ◌+◌, ◌≡◌, refl, none, some, List, [], ◌∷◌, arith}
use build_with_opus.Prelude.Int.{ℤ, pos, ◌+ℤ◌, ◌-ℤ◌}
use build_with_opus.Wire.Cuc.{Cuc}
use build_with_opus.Cfdp.Adapter.{tai_to_unix_secs}
use build_with_opus.Ingest.Sinks.{Texts, extract_apid, extract_utc, process_hk_packet, hk_frame}
use build_with_opus.Injector.{tai_now}
use build_with_opus.Injector.Clock.{unix_timestamp-tai_now}
use build_with_opus.Ui.Time.{DateTimes, TaiUtcConverter, new, tai_to_utc, utc_to_tai}
use build_with_opus.Ui.Time.Epochs.{unix_timestamp-tai_to_unix_secs}
use build_with_opus.Ingest.Sinks.Rings.{process_hk_packets, sent_by}
use build_with_opus.Ui.Links.{utc_of, last, get_cfs_ros_link, build_links_health}
use build_with_opus.Ui.Links.Reports.{
  get_cfs_ros_link-process_hk_packet, build_links_health-process_hk_packets,
}

-- A time is its whole seconds and its nanoseconds.
abbrev clock : DateTimes
clock = record {
  OffsetDateTime = ℤ × ℕ;
  unix_epoch = (pos 0, 0);
  from_unix_timestamp = λ s. some (s, 0);
  unix_timestamp = λ t. t.0;
  saturating_add_nanoseconds = λ t ns. (t.0, t.1 + ns);
  format_rfc3339 = λ t. some [];
  from_unix_timestamp_total = λ s low high. ((s, 0), refl, λ ns h. refl);
}

abbrev converter : TaiUtcConverter
converter = new (pos 37)

-- The first of January 2024.
abbrev new_year : Cuc
new_year = record { coarse = 2082758437; fine = 32768 }

tai_to_utc-new_year : tai_to_utc clock converter new_year ≡ (pos 1704067200, 500000000)
unfolding tai_to_utc ◌+ℤ◌ ◌-ℤ◌
tai_to_utc-new_year = refl

-- A time after the year 2094 does not saturate.
utc_to_tai-late : utc_to_tai clock converter (pos 3916276059, 0) ≡ record { coarse = 0; fine = 0 }
unfolding utc_to_tai ◌+ℤ◌ ◌-ℤ◌
utc_to_tai-late = refl

unix_timestamp-tai_to_unix_secs_example :
    pos (tai_to_unix_secs new_year) ≡ (tai_to_utc clock converter new_year).0 +ℤ pos 37
unix_timestamp-tai_to_unix_secs_example =
    unix_timestamp-tai_to_unix_secs clock converter new_year (omega arith) (omega arith)

unix_timestamp-tai_now_example :
    (tai_to_utc clock (new (pos 37)) (record { coarse = tai_now 1700000000; fine = 0 })).0
    ≡ pos 1700000000 -ℤ pos 378691200
unix_timestamp-tai_now_example = unix_timestamp-tai_now clock 1700000000 (omega arith)

abbrev texts : Texts
texts = record { iso8601 = λ t. t.coarse ∷ []; now_utc = 7 ∷ []; lossy = λ bytes. bytes }

-- A packet of the bridge, with the counters 1 to 6.
abbrev bridge : List ℕ
bridge =
    0x09 ∷ 0x28 ∷ 0xC0 ∷ 0 ∷ 0 ∷ 33 ∷ 0x2F ∷ 0 ∷ 0 ∷ 0 ∷ 9 ∷ 0 ∷ 0 ∷ 0 ∷ 2 ∷ 1 ∷ 1 ∷ 0 ∷ 0 ∷ 0 ∷ 2
    ∷ 0 ∷ 0 ∷ 0 ∷ 3 ∷ 0 ∷ 0 ∷ 0 ∷ 4 ∷ 0 ∷ 0 ∷ 0 ∷ 5 ∷ 0 ∷ 0 ∷ 0 ∷ 6 ∷ 0 ∷ 0 ∷ 0 ∷ []

extract_apid-bridge : extract_apid bridge ≡ some 0x128
unfolding extract_apid
extract_apid-bridge = refl

get_cfs_ros_link-process_hk_packet_example :
    get_cfs_ros_link (process_hk_packet texts bridge []) ≡ record {
      packets_routed = 1;
      apid_rejects = 2;
      tc_forwarded = 3;
      uptime_s = 4;
      cmd_counter = 5;
      err_counter = 6;
      last_hk_utc = some (extract_utc texts bridge);
    }
get_cfs_ros_link-process_hk_packet_example =
    get_cfs_ros_link-process_hk_packet texts bridge [] 1 2 3 4 5 6 [] extract_apid-bridge refl
      (omega arith)

build_links_health-process_hk_packets_example :
    build_links_health (process_hk_packets texts (bridge ∷ []))
    ≡ record { link = codes "cfs-ros"; apid = 0x128; last_hk_utc = some (extract_utc texts bridge) }
      ∷ record { link = codes "ros-ground"; apid = 0x129; last_hk_utc = none }
      ∷ record { link = codes "fleet-dds"; apid = 0x160; last_hk_utc = none }
      ∷ []
unfolding sent_by utc_of last extract_apid hk_frame
build_links_health-process_hk_packets_example =
    build_links_health-process_hk_packets texts (bridge ∷ [])
