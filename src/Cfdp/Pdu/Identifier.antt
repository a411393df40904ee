-- ===== src/Cfdp/Pdu/Identifier.antt =====
-- Which transactions have different identifiers.
use build_with_opus.Prelude.{ℕ, ◌+◌, ◌*◌, ◌<◌, ◌≡◌, ◌↔◌, arith}
use build_with_opus.Prelude.Bits.{disjoint_or}
use build_with_opus.Cfdp.Pdu.{transaction_id}

transaction_id-sum :
    (s n : ℕ) → s < 4294967296 → n < 4294967296 → transaction_id s n ≡ s * 4294967296 + n
unfolding transaction_id
transaction_id-sum s n hs hn = ground (arith, disjoint_or 32 s n)

-- Two transactions whose source and sequence number are below 2^32 have the same identifier exactly
-- if they have the same source and the same sequence number.
pub transaction_id_eq :
    (s n s' n' : ℕ)
    → s < 4294967296
    → n < 4294967296
    → s' < 4294967296
    → n' < 4294967296
    → (transaction_id s n ≡ transaction_id s' n') ↔ ((s ≡ s') × (n ≡ n'))
transaction_id_eq s n s' n' a b c d = (
  λ e. omega (arith, e, transaction_id-sum s n a b, transaction_id-sum s' n' c d),
  λ e. omega (arith, e, transaction_id-sum s n a b, transaction_id-sum s' n' c d),
)
