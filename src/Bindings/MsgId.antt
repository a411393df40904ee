-- ===== src/Bindings/MsgId.antt =====
-- rust/cfs_bindings/src/message.rs: the cFE message identifier.
use build_with_opus.Prelude.{
  ℕ, ◌+◌, ◌≡◌, bit_and, bit_or, Bool, true, false, not, ok, ◌==◌, if◌then◌else◌, arith,
}
use build_with_opus.Prelude.Bits.{low_mask, disjoint_or, single_bit}
use build_with_opus.Wire.Error.{Decoded}
use build_with_opus.Wire.Apid
use build_with_opus.Wire.Apid.{Apid}

pub record MsgId : Type 0 where
  pub raw : ℕ

unfoldable pub from_apid : Apid → Bool → MsgId
from_apid apid is_cmd = record { raw = bit_or (if is_cmd then 0x1800 else 0x0800) apid.raw }

unfoldable pub apid : MsgId → Decoded Apid
apid m = Apid.new (bit_and m.raw Apid.max)

unfoldable pub is_command : MsgId → Bool
is_command m = not (bit_and m.raw 0x1000 == 0)

pub from_apid_sum :
    (a : Apid) (c : Bool)
    → Apid.IsValid a
    → (from_apid a c).raw ≡ (if c then 6144 else 2048) + a.raw
unfolding from_apid
from_apid_sum a true h = disjoint_or 11 3 a.raw (omega arith)
from_apid_sum a false h = disjoint_or 11 1 a.raw (omega arith)

-- An identifier made from an 11-bit APID and a command flag gives both back.
pub from_apid_fields :
    (a : Apid) (c : Bool)
    → Apid.IsValid a
    → (apid (from_apid a c) ≡ ok a) × (is_command (from_apid a c) ≡ c)
unfolding apid is_command Apid.new
from_apid_fields a true h = ground (
  arith,
  from_apid_sum a true h,
  low_mask 11 (from_apid a true).raw,
  single_bit 12 (from_apid a true).raw,
)
from_apid_fields a false h = ground (
  arith,
  from_apid_sum a false h,
  low_mask 11 (from_apid a false).raw,
  single_bit 12 (from_apid a false).raw,
)
