-- ===== src/Ingest/Sinks/Rings.antt =====
-- The stores keep the latest entries, in the order in which they came.
use build_with_opus.Prelude.{
  ℕ, zero, suc, ◌+◌, ◌-◌, ◌≤◌, ◌≡◌, refl, ap, ◌∙◌, inl, inr, Bool, Bool-cases, Option-cases, none,
  some, List, [], ◌∷◌, ◌++◌, length, length-append, length-drop, drop, drop-drop, ltb, ◌==◌, ==_iff,
  if◌then◌else◌, arith,
}
use build_with_opus.Ingest.Sinks.{
  Texts, HkFrame, HkSnapshot, EventEntry, extract_apid, hk_frame, push_ring, upsert,
  process_hk_packet, event_entry, process_event_packet,
}

module _ {ℓ} {A : Type ℓ} where
  -- The last entries of a list, at most so many.
  unfoldable pub last_entries : ℕ → List A → List A
  last_entries n xs = drop (length xs - n) xs

  drop-snoc :
      (k : ℕ) (xs : List A) (x : A) → k ≤ length xs → drop k xs ++ x ∷ [] ≡ drop k (xs ++ x ∷ [])
  drop-snoc zero xs x h = refl
  drop-snoc (suc k) [] x h = absurd (omega arith)
  drop-snoc (suc k) (y ∷ xs) x h = drop-snoc k xs x (omega arith)

  pub push_ring-last :
      (n : ℕ) (x : A) (xs : List A) → push_ring n x xs ≡ last_entries n (xs ++ x ∷ [])
  unfolding push_ring last_entries
  push_ring-last n x xs = elim (Bool-cases (ltb n (length (xs ++ x ∷ [])))) [
    | inl e ↦ rw e refl
    | inr e ↦
        rw e
          (let none_over : length (xs ++ x ∷ []) - n ≡ 0 = ground (arith, e) in rw none_over refl)
  ]

  -- What was dropped before would be dropped now.
  pub push_ring-last_entries :
      (n : ℕ) (x : A) (xs : List A)
      → push_ring n x (last_entries n xs) ≡ last_entries n (xs ++ x ∷ [])
  unfolding last_entries
  push_ring-last_entries n x xs =
      let k = length xs - n in
      let ys = xs ++ x ∷ [] in
      let snoc : drop k xs ++ x ∷ [] ≡ drop k ys = drop-snoc k xs x (omega arith) in
      let over : k + (length (drop k ys) - n) ≡ length ys - n =
        omega (arith, length-drop k ys, length-append xs (x ∷ [])) in
      push_ring-last n x (drop k xs)
      ∙ ap (last_entries n) snoc
      ∙ drop-drop (length (drop k ys) - n) k ys
      ∙ ap (λ m. drop m ys) over

-- The frames of an APID in the store.
unfoldable pub frames_of : ℕ → List HkSnapshot → List HkFrame
frames_of apid [] = []
frames_of apid (s ∷ hk) = if s.apid == apid then s.frames else frames_of apid hk

pub frames_of-upsert :
    (a apid : ℕ) (frame : HkFrame) (hk : List HkSnapshot)
    → frames_of a (upsert apid frame hk)
      ≡ (if apid == a then push_ring 20 frame (frames_of a hk) else frames_of a hk)
unfolding frames_of upsert
frames_of-upsert a apid frame [] = unfold push_ring in ground arith
frames_of-upsert a apid frame (s ∷ hk) = ground (arith, frames_of-upsert a apid frame hk)

pub frames_of-process_hk_packet :
    (texts : Texts) (a : ℕ) (bytes : List ℕ) (hk : List HkSnapshot)
    → extract_apid bytes ≡ some a
    → frames_of a (process_hk_packet texts bytes hk)
      ≡ push_ring 20 (hk_frame texts bytes) (frames_of a hk)
unfolding process_hk_packet
frames_of-process_hk_packet texts a bytes hk e =
    rw (e, process_hk_packet)
      (frames_of-upsert a a (hk_frame texts bytes) hk ∙ rw ((==_iff a a).1 refl) refl)

abbrev appended : {A : Type 0} → Bool → A → List A → List A
appended b x xs = if b then xs ++ x ∷ [] else xs

module _ (texts : Texts) where
  -- The frames of an APID among the packets, in the order of the packets.
  unfoldable pub sent_by : ℕ → List (List ℕ) → List HkFrame
  sent_by a [] = []
  sent_by a (bytes ∷ older) = elim (extract_apid bytes) [
    | none ↦ sent_by a older
    | some apid ↦ appended (apid == a) (hk_frame texts bytes) (sent_by a older)
  ]

  pub sent_by_last :
      (a : ℕ) (bytes : List ℕ) (older : List (List ℕ))
      → extract_apid bytes ≡ some a
      → sent_by a (bytes ∷ older) ≡ sent_by a older ++ hk_frame texts bytes ∷ []
  unfolding sent_by
  sent_by_last a bytes older e = rw (e, sent_by) (rw ((==_iff a a).1 refl) refl)

  -- The store after the packets, the latest of which is the first of the list.
  pub process_hk_packets : List (List ℕ) → List HkSnapshot
  process_hk_packets [] = []
  process_hk_packets (bytes ∷ older) = process_hk_packet texts bytes (process_hk_packets older)

  -- After any packets, the store holds of every APID exactly the last 20 frames, in the order in
  -- which they came.
  pub frames_of-process_hk_packets :
      (a : ℕ) (packets : List (List ℕ))
      → frames_of a (process_hk_packets packets) ≡ last_entries 20 (sent_by a packets)
  unfolding process_hk_packets sent_by process_hk_packet
  frames_of-process_hk_packets a [] = unfold frames_of last_entries in refl
  frames_of-process_hk_packets a (bytes ∷ older) = elim (Option-cases (extract_apid bytes)) [
    | inl e ↦
        rw (e, sent_by, process_hk_packets, process_hk_packet)
          (frames_of-process_hk_packets a older)
    | inr (apid, e) ↦
        rw (e, sent_by, process_hk_packets, process_hk_packet)
          (frames_of-upsert a apid (hk_frame texts bytes) (process_hk_packets older)
            ∙ elim (Bool-cases (apid == a)) [
              | inl f ↦ rw f (
                  ap (push_ring 20 (hk_frame texts bytes)) (frames_of-process_hk_packets a older)
                  ∙ push_ring-last_entries 20 (hk_frame texts bytes) (sent_by a older))
              | inr f ↦ rw f (frames_of-process_hk_packets a older)
            ])
  ]

  -- The entries of the packets that have an APID.
  pub entries_of : List (List ℕ) → List EventEntry
  entries_of [] = []
  entries_of (bytes ∷ older) = elim (extract_apid bytes) [
    | none ↦ entries_of older
    | some apid ↦ entries_of older ++ event_entry texts apid bytes ∷ []
  ]

  pub process_event_packets : List (List ℕ) → List EventEntry
  process_event_packets [] = []
  process_event_packets (bytes ∷ older) =
      process_event_packet texts bytes (process_event_packets older)

  -- After any packets, the event store holds exactly the last 500 entries, in the order in which
  -- they came.
  pub process_event_packets-last_entries :
      (packets : List (List ℕ))
      → process_event_packets packets ≡ last_entries 500 (entries_of packets)
  unfolding process_event_packets entries_of process_event_packet
  process_event_packets-last_entries [] = unfold last_entries in refl
  process_event_packets-last_entries (bytes ∷ older) = elim (Option-cases (extract_apid bytes)) [
    | inl e ↦
        rw (e, entries_of, process_event_packets, process_event_packet)
          (process_event_packets-last_entries older)
    | inr (apid, e) ↦
        rw (e, entries_of, process_event_packets, process_event_packet)
          (ap (push_ring 500 (event_entry texts apid bytes))
              (process_event_packets-last_entries older)
            ∙ push_ring-last_entries 500 (event_entry texts apid bytes) (entries_of older))
  ]
