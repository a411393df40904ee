-- ===== src/Ui/Links/Reports.antt =====
-- What the interface reports of a link is what the last packet of the link said.
use build_with_opus.Prelude.{
  ℕ, zero, suc, ◌-◌, ◌<◌, ◌≡◌, refl, ◌∙◌, ap, some, List, All, [], ◌∷◌, ◌++◌, length, drop, arith,
}
use build_with_opus.Prelude.Words.{u32_to_le}
use build_with_opus.Prelude.Texts.{codes}
use build_with_opus.Ingest.Sinks.{
  Texts, HkFrame, HkSnapshot, extract_apid, extract_utc, hk_frame, process_hk_packet,
}
use build_with_opus.Ingest.Sinks.Rings.{
  frames_of, sent_by, process_hk_packets, frames_of-process_hk_packet, push_ring-last, last_entries,
  frames_of-process_hk_packets,
}
use build_with_opus.Ui.Links.{
  last, latest_hk_frame, get_cfs_ros_link, cfs_ros_of, health, utc_of, build_links_health,
}

latest_hk_frame-last : (hk : List HkSnapshot) (a : ℕ) → latest_hk_frame hk a ≡ last (frames_of a hk)
unfolding latest_hk_frame frames_of
latest_hk_frame-last [] a = unfold last in refl
latest_hk_frame-last (s ∷ hk) a = ground (arith, latest_hk_frame-last hk a)

module _ {ℓ} {A : Type ℓ} where
  last-drop : (k : ℕ) (xs : List A) → k < length xs → last (drop k xs) ≡ last xs
  unfolding last
  last-drop zero xs h = refl
  last-drop (suc k) [] h = elim h [ ]
  last-drop (suc k) (x ∷ []) h = absurd (omega arith)
  last-drop (suc k) (x ∷ y ∷ xs) h = last-drop k (y ∷ xs) (omega arith)

  last-last_entries : (n : ℕ) (xs : List A) → last (last_entries (suc n) xs) ≡ last xs
  unfolding last_entries
  last-last_entries n [] =
      let none_over : 0 - suc n ≡ 0 = omega arith in ap (λ k. last (drop {A = A} k [])) none_over
  last-last_entries n (x ∷ xs) = last-drop (length (x ∷ xs) - suc n) (x ∷ xs) (omega arith)

  last-snoc : (xs : List A) (x : A) → last (xs ++ x ∷ []) ≡ some x
  unfolding last
  last-snoc [] x = refl
  last-snoc (y ∷ []) x = refl
  last-snoc (y ∷ z ∷ xs) x = last-snoc (z ∷ xs) x

decoded_counters :
    (frame : HkFrame) (a b c d e f : ℕ) (rest : List ℕ)
    → frame.payload
      ≡ u32_to_le a
        ++ (u32_to_le b ++ (u32_to_le c ++ (u32_to_le d ++ (u32_to_le e ++ (u32_to_le f ++ rest)))))
    → All (λ n. n < 4294967296) (a ∷ b ∷ c ∷ d ∷ e ∷ f ∷ [])
    → cfs_ros_of (some frame) ≡ record {
      packets_routed = a;
      apid_rejects = b;
      tc_forwarded = c;
      uptime_s = d;
      cmd_counter = e;
      err_counter = f;
      last_hk_utc = some frame.timestamp_utc;
    }
unfolding cfs_ros_of
decoded_counters frame a b c d e f rest p h = rw p (ground arith)

module _ (texts : Texts) where
  -- Whatever the store holds, the latest frame is that of the packet that has just come.
  pub latest-process_hk_packet :
      (bytes : List ℕ) (hk : List HkSnapshot) (a : ℕ)
      → extract_apid bytes ≡ some a
      → latest_hk_frame (process_hk_packet texts bytes hk) a ≡ some (hk_frame texts bytes)
  latest-process_hk_packet bytes hk a e =
      let x = hk_frame texts bytes in
      let old = frames_of a hk in
      latest_hk_frame-last (process_hk_packet texts bytes hk) a
      ∙ ap last (frames_of-process_hk_packet texts a bytes hk e ∙ push_ring-last 20 x old)
      ∙ last-last_entries 19 (old ++ x ∷ [])
      ∙ last-snoc old x

  latest-process_hk_packets :
      (packets : List (List ℕ)) (a : ℕ)
      → latest_hk_frame (process_hk_packets texts packets) a ≡ last (sent_by texts a packets)
  latest-process_hk_packets packets a =
      latest_hk_frame-last (process_hk_packets texts packets) a
      ∙ ap last (frames_of-process_hk_packets texts a packets)
      ∙ last-last_entries 19 (sent_by texts a packets)

  -- After any packets, the health of the three links names for each the time of the last packet of
  -- its APID, or none where no such packet came.
  pub build_links_health-process_hk_packets :
      (packets : List (List ℕ))
      → let heard = λ (a : ℕ). utc_of (last (sent_by texts a packets)) in
        build_links_health (process_hk_packets texts packets)
        ≡ record { link = codes "cfs-ros"; apid = 0x128; last_hk_utc = heard 0x128 }
          ∷ record { link = codes "ros-ground"; apid = 0x129; last_hk_utc = heard 0x129 }
          ∷ record { link = codes "fleet-dds"; apid = 0x160; last_hk_utc = heard 0x160 }
          ∷ []
  unfolding build_links_health health
  build_links_health-process_hk_packets packets =
      let heard = λ (a : ℕ). ap utc_of (latest-process_hk_packets packets a) in
      rw (heard 0x128, heard 0x129, heard 0x160) refl

  -- When a packet of the APID 0x128 comes whose user data starts with six counters of 32 bits in
  -- little-endian order, the interface answers exactly these counters and the time of that packet,
  -- whatever was stored before.
  pub get_cfs_ros_link-process_hk_packet :
      (bytes : List ℕ) (hk : List HkSnapshot) (routed rejects forwarded uptime commands errors : ℕ)
      (rest : List ℕ)
      → extract_apid bytes ≡ some 0x128
      → drop 16 bytes
        ≡ u32_to_le routed
          ++ (u32_to_le rejects
              ++ (u32_to_le forwarded
                  ++ (u32_to_le uptime ++ (u32_to_le commands ++ (u32_to_le errors ++ rest)))))
      → All (λ n. n < 4294967296) (routed ∷ rejects ∷ forwarded ∷ uptime ∷ commands ∷ errors ∷ [])
      → get_cfs_ros_link (process_hk_packet texts bytes hk) ≡ record {
        packets_routed = routed;
        apid_rejects = rejects;
        tc_forwarded = forwarded;
        uptime_s = uptime;
        cmd_counter = commands;
        err_counter = errors;
        last_hk_utc = some (extract_utc texts bytes);
      }
  unfolding get_cfs_ros_link hk_frame
  get_cfs_ros_link-process_hk_packet bytes hk routed rejects forwarded uptime commands errors rest e
        p h =
      ap cfs_ros_of (latest-process_hk_packet bytes hk 0x128 e)
      ∙ decoded_counters (hk_frame texts bytes) routed rejects forwarded uptime commands errors rest
          p h
