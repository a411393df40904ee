-- ===== src/Wire/Packet/Errors.antt =====
-- Which error the parser gives for which input.
use build_with_opus.Prelude.{
  ℕ, ◌+◌, ◌<◌, ◌≤◌, ◌≡◌, ◌≢◌, refl, List, [], ◌∷◌, ◌++◌, ok, err, length, length-append, take, drop,
  take-append-drop, ltb, if◌then◌else◌, arith, length-take,
}
use build_with_opus.Prelude.Words.{IsBytes}
use build_with_opus.Wire.Error.{
  buffer_too_short, length_mismatch, apid_out_of_range, sequence_count_out_of_range,
}
use build_with_opus.Wire.Primary
use build_with_opus.Wire.Primary.Fields.{decode_head-fields}
use build_with_opus.Wire.Secondary
use build_with_opus.Wire.Cuc
use build_with_opus.Wire.FuncCode
use build_with_opus.Wire.InstanceId
use build_with_opus.Wire.Packet.{SpacePacket, parse}

-- What is not read does not matter to the headers.
primary-append :
    (buf more : List ℕ) → 6 ≤ length buf → Primary.decode (buf ++ more) ≡ Primary.decode buf
unfolding Primary.decode
primary-append (b0 ∷ b1 ∷ b2 ∷ b3 ∷ b4 ∷ b5 ∷ rest) more h = refl
primary-append _ more h = absurd (omega arith)

secondary-append :
    (buf more : List ℕ)
    → 16 ≤ length buf
    → Secondary.decode (drop 6 (buf ++ more)) ≡ Secondary.decode (drop 6 buf)
unfolding Secondary.decode
secondary-append (_ ∷ _ ∷ _ ∷ _ ∷ _ ∷ _ ∷ b0 ∷ b1 ∷ b2 ∷ b3 ∷ b4 ∷ b5 ∷ b6 ∷ b7 ∷ b8 ∷ b9 ∷ rest)
      more h =
    refl
secondary-append _ more h = absurd (omega arith)

-- An accepted packet with bytes added behind it is refused for its length, with the declared and
-- the actual length.
pub parse-append :
    (buf more : List ℕ) {p : SpacePacket}
    → parse buf ≡ ok p
    → more ≢ []
    → parse (buf ++ more) ≡ err (length_mismatch (length buf) (length buf + length more))
unfolding parse
parse-append buf [] e h = absurd (h refl)
parse-append buf (x ∷ more) e h = ground (
  arith,
  length-append buf (x ∷ more),
  primary-append buf (x ∷ more),
  secondary-append buf (x ∷ more),
)

-- An accepted packet that is cut after n bytes is refused: as too short for the headers where n is
-- below 16, and otherwise for its length, with the declared and the actual length.
pub parse-take :
    (buf : List ℕ) (n : ℕ) {p : SpacePacket}
    → parse buf ≡ ok p
    → n < length buf
    → parse (take n buf)
      ≡ (if ltb n 16 then err (buffer_too_short 16 n) else err (length_mismatch (length buf) n))
unfolding parse
parse-take buf n e h = ground (
  arith,
  length-take n buf,
  rw (take-append-drop n buf) at (primary-append (take n buf) (drop n buf)),
  rw (take-append-drop n buf) at (secondary-append (take n buf) (drop n buf)),
)

-- The arms for an APID or a sequence count out of range are dead: no bytes reach them.
primary_in_range :
    (buf : List ℕ) (v : ℕ)
    → IsBytes buf
    → (Primary.decode buf ≢ err (apid_out_of_range v))
      × (Primary.decode buf ≢ err (sequence_count_out_of_range v))
unfolding Primary.decode
primary_in_range (b0 ∷ b1 ∷ b2 ∷ b3 ∷ b4 ∷ b5 ∷ rest) v b =
    rw (decode_head-fields b0 b1 b2 b3 b4 b5 b.0 b.1.0 b.1.1.0 b.1.1.1.0)
      (λ e. ground arith, λ e. ground arith)
primary_in_range _ v b = (λ e. cc, λ e. cc)

secondary_in_range :
    (buf : List ℕ) (v : ℕ)
    → (Secondary.decode buf ≢ err (apid_out_of_range v))
      × (Secondary.decode buf ≢ err (sequence_count_out_of_range v))
unfolding Secondary.decode Cuc.decode_be FuncCode.new InstanceId.new
secondary_in_range (b0 ∷ b1 ∷ b2 ∷ b3 ∷ b4 ∷ b5 ∷ b6 ∷ b7 ∷ b8 ∷ b9 ∷ rest) v =
    (λ e. ground arith, λ e. ground arith)
secondary_in_range _ v = (λ e. cc, λ e. cc)

-- On no bytes does the parser answer that an APID or a sequence count is out of range.
pub parse_in_range :
    (buf : List ℕ) (v : ℕ)
    → IsBytes buf
    → (parse buf ≢ err (apid_out_of_range v)) × (parse buf ≢ err (sequence_count_out_of_range v))
unfolding parse
parse_in_range buf v b = (
  λ e. ground (arith, (primary_in_range buf v b).0, (secondary_in_range (drop 6 buf) v).0),
  λ e. ground (arith, (primary_in_range buf v b).1, (secondary_in_range (drop 6 buf) v).1),
)
