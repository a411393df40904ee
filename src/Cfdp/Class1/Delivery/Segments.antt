-- ===== src/Cfdp/Class1/Delivery/Segments.antt =====
-- The segments of a file, in whatever order they come.
use mathlib.Core.Path.{subst}
use build_with_opus.Prelude.{
  ℕ, ◌+◌, ◌-◌, ◌≤◌, ◌<◌, ◌≡◌, sym, ap, ◌∙◌, Bool, true, false, ◌&&◌, ◌||◌, Bool-cases, inl, inr,
  some, List, [], ◌∷◌, ◌++◌, All, length, min, leb, ltb, if◌then◌else◌, arith,
}
use build_with_opus.Prelude.Words.{u32_to_be}
use build_with_opus.Prelude.Table.{lookup, lookup-insert}
use build_with_opus.Cfdp.Pdu.{FileMetadata}
use build_with_opus.Cfdp.Class1.{Files, TransactionState, Class1Receiver, put, on_file_data, on_pdu}
use build_with_opus.Cfdp.Class1.Delivery.{
  slice, length-slice, byte_or_zero, byte_or_zero-slice, Storage, Carries, on_pdu-file_data,
  on_file_data-segment,
}

-- Segments are an offset and a length.
abbrev pub holds : ℕ → ℕ × ℕ → Bool
holds i (offset, len) = leb offset i && ltb i (offset + len)

unfoldable pub covers : ℕ → List (ℕ × ℕ) → Bool
covers i [] = false
covers i (segment ∷ older) = holds i segment || covers i older

unfoldable pub total : List (ℕ × ℕ) → ℕ
total [] = 0
total ((offset, len) ∷ older) = total older + len

-- A segment of a file of n bytes.
abbrev pub Fits : ℕ → ℕ × ℕ → Type 0
Fits n (offset, len) = (0 < len) × (offset + len ≤ n)

module _ {D : Type 0} (files : Files D) (id : ℕ) (storage : Storage files id) where
  open storage use {exists, size, byte}

  -- The segments one after the other, the latest first.
  unfoldable pub deliver : (ℕ × ℕ → List ℕ) → List (ℕ × ℕ) → Class1Receiver D → Class1Receiver D
  deliver pdu [] r = r
  deliver pdu (segment ∷ older) r = (on_pdu files (pdu segment) (deliver pdu older r)).0

  module _ (bytes : ℕ → ℕ) (n : ℕ) (meta : FileMetadata) where
    abbrev written : ℕ → ℕ → D → D
    written offset len d = (files.write_at id offset (slice bytes offset len) d).0

    size-written :
        (offset len : ℕ) (d : D)
        → 0 < len
        → size (written offset len d)
          ≡ (if leb (offset + len) (size d) then size d else offset + len)
    size-written offset len d h =
        let k = length-slice bytes offset len in
        storage.size-write_at offset (slice bytes offset len) d (omega (arith, h, k))
        ∙ ap (λ m. if leb (offset + m) (size d) then size d else offset + m) k

    byte-inside :
        (offset len : ℕ) (d : D) (i : ℕ)
        → holds i (offset, len) ≡ true
        → byte i (written offset len d) ≡ bytes i
    byte-inside offset len d i h =
        let chunk = slice bytes offset len in
        storage.byte-write_at offset chunk d i
        ∙ ap
            (λ m.
              if leb offset i && ltb i (offset + m)
              then byte_or_zero chunk (i - offset)
              else byte i d)
            (length-slice bytes offset len)
        ∙ ap (λ b. if b then byte_or_zero chunk (i - offset) else byte i d) h
        ∙ byte_or_zero-slice bytes offset len (i - offset) (ground (arith, h))
        ∙ ap bytes (ground (arith, h))

    byte-outside :
        (offset len : ℕ) (d : D) (i : ℕ)
        → holds i (offset, len) ≡ false
        → byte i (written offset len d) ≡ byte i d
    byte-outside offset len d i h =
        let chunk = slice bytes offset len in
        storage.byte-write_at offset chunk d i
        ∙ ap
            (λ m.
              if leb offset i && ltb i (offset + m)
              then byte_or_zero chunk (i - offset)
              else byte i d)
            (length-slice bytes offset len)
        ∙ ap (λ b. if b then byte_or_zero chunk (i - offset) else byte i d) h

    right-written :
        (offset len : ℕ) (seen : List (ℕ × ℕ)) (d : D)
        → 0 < len
        → ((i : ℕ) → covers i seen ≡ true → (i < size d) × (byte i d ≡ bytes i))
        → (i : ℕ) → covers i ((offset, len) ∷ seen) ≡ true
        → (i < size (written offset len d)) × (byte i (written offset len d) ≡ bytes i)
    unfolding covers
    right-written offset len seen d some_bytes right i c =
        let longer = size-written offset len d some_bytes in
        elim (Bool-cases (holds i (offset, len))) [
          | inl h ↦ (ground (arith, h, longer), byte-inside offset len d i h)
          | inr h ↦
              let (within, same) = right i (ground (arith, h, c)) in
              (ground (arith, within, longer), byte-outside offset len d i h ∙ same)
        ]

    -- The transaction after these segments, with or without a partial file before them.
    pub record Going (before : Bool) (seen : List (ℕ × ℕ)) (r : Class1Receiver D) : Type 0 where
      pub t : TransactionState
      pub there : lookup id r.active ≡ some t
      pub named : t.metadata ≡ some meta
      pub counted : t.bytes_written ≡ total seen
      pub made : exists r.disk ≡ before || ltb 0 (total seen)
      pub short : size r.disk ≤ n
      pub right : (i : ℕ) → covers i seen ≡ true → (i < size r.disk) × (byte i r.disk ≡ bytes i)

    segment-Going :
        (before : Bool) (offset len : ℕ) (seen : List (ℕ × ℕ)) (r : Class1Receiver D)
        → Fits n (offset, len)
        → n ≤ 4294967296
        → total ((offset, len) ∷ seen) < 18446744073709551616
        → Going before seen r
        → Going before
            ((offset, len) ∷ seen)
            (on_file_data files id (u32_to_be offset ++ slice bytes offset len) r).0
    unfolding total put
    segment-Going before offset len seen r fits small few g =
        let chunk = slice bytes offset len in
        let t' = record g.t {
          bytes_written = min (g.t.bytes_written + length chunk) 18446744073709551615;
        } in
        let after = put id t' (record r { disk = written offset len r.disk }) in
        let k = length-slice bytes offset len in
        let goes : Going before ((offset, len) ∷ seen) after = record {
          t = t';
          there = ground (arith, lookup-insert id id t' r.active);
          named = g.named;
          counted = omega (arith, k, g.counted, few);
          made = storage.exists-write_at offset chunk r.disk ∙ ground (arith, fits.0);
          short = ground (arith, size-written offset len r.disk fits.0, fits.1, g.short);
          right = right-written offset len seen r.disk fits.0 g.right;
        } in
        subst (Going before ((offset, len) ∷ seen))
          (sym (
            on_file_data-segment files id storage offset chunk g.t r g.there
              (omega (arith, fits.0, fits.1, small))))
          goes

    module _ (pdu : ℕ × ℕ → List ℕ)
        (pdus : (segment : ℕ × ℕ)
          → Carries id true
              (u32_to_be segment.0 ++ slice bytes segment.0 segment.1)
              (pdu segment)) where
      pub deliver-Going :
          (before : Bool) (segments : List (ℕ × ℕ)) (r : Class1Receiver D)
          → All (Fits n) segments
          → n ≤ 4294967296
          → total segments < 18446744073709551616
          → Going before [] r
          → Going before segments (deliver pdu segments r)
      unfolding deliver total
      deliver-Going before [] r fits small few g = g
      deliver-Going before ((offset, len) ∷ older) r fits small few g =
          let earlier = deliver pdu older r in
          subst (λ (u : Class1Receiver D). Going before ((offset, len) ∷ older) u)
            (sym (
              ap (λ a. a.0)
                (on_pdu-file_data files id _ (pdu (offset, len)) earlier (pdus (offset, len)))))
            (segment-Going before offset len older earlier fits.0 small few
              (deliver-Going before older r fits.1 small (omega (arith, few)) g))
