-- ===== src/Ingest/Sinks/Headers.antt =====
-- The sinks read of a packet what the parser reads.
use build_with_opus.Prelude.{ℕ, ◌≡◌, refl, some, List, ◌∷◌, ok, drop, arith}
use build_with_opus.Wire.Apid
use build_with_opus.Wire.Primary
use build_with_opus.Wire.Primary.{PrimaryHeader}
use build_with_opus.Wire.Secondary
use build_with_opus.Wire.Secondary.{SecondaryHeader}
use build_with_opus.Wire.Packet.{SpacePacket, parse}
use build_with_opus.Wire.Packet.RoundTrip.{parsed_parts}
use build_with_opus.Ingest.Sinks.{Texts, extract_apid, extract_utc, hk_frame}

head-extract_apid :
    (buf : List ℕ) (h : PrimaryHeader)
    → Primary.decode buf ≡ ok h
    → extract_apid buf ≡ some h.apid.raw
unfolding Primary.decode Primary.decode_head Apid.new extract_apid
head-extract_apid (b0 ∷ b1 ∷ b2 ∷ b3 ∷ b4 ∷ b5 ∷ rest) h e = ground (arith, e)
head-extract_apid _ h e = cc

pub parse-extract_apid :
    (buf : List ℕ) (p : SpacePacket) → parse buf ≡ ok p → extract_apid buf ≡ some p.primary.apid.raw
parse-extract_apid buf p e = head-extract_apid buf p.primary (parsed_parts buf p e).0

utc_of_header :
    (texts : Texts) (buf : List ℕ) (h : SecondaryHeader)
    → Secondary.decode (drop 6 buf) ≡ ok h
    → extract_utc texts buf ≡ texts.iso8601 h.time
unfolding extract_utc
utc_of_header texts buf h e = rw (e, extract_utc) refl

pub parse-hk_frame :
    (texts : Texts) (buf : List ℕ) (p : SpacePacket)
    → parse buf ≡ ok p
    → hk_frame texts buf
      ≡ record { timestamp_utc = texts.iso8601 p.secondary.time; payload = p.user_data }
unfolding hk_frame
parse-hk_frame texts buf p e =
    let parts = parsed_parts buf p e in
    rw (utc_of_header texts buf p.secondary parts.1, parts.2) refl
