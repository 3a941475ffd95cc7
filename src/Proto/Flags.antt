-- ===== src/Proto/Flags.antt =====
-- crates/ahp-proto/src/flags.rs. A set of flags is its bits; the code that the `bitflags!` macro
-- makes is the interface `BitFlags`.
use favonius.Base.{
  every, every_sound, ℕ, ◌^◌, ◌%◌, ◌<◌, ◌≡◌, refl, ap, ◌∙◌, Bool, true, false, not, bit_and, ◌==◌,
  ==_iff, arith,
}
use favonius.Bytes.Buf.{BitFlags}

pub record PacketFlags : Type 0 where
  pub bits : ℕ

abbrev pub ack_eliciting : PacketFlags
ack_eliciting = record { bits = 0x0001 }

abbrev pub encrypted : PacketFlags
encrypted = record { bits = 0x0020 }

abbrev pub empty : PacketFlags
empty = record { bits = 0 }

-- The bits that the ten constants of `PacketFlags` name.
abbrev pub all_flags : ℕ
all_flags = 0x03ff

abbrev pub reserved_mask : ℕ
reserved_mask = 0xfc00

pub has_reserved_bits : PacketFlags → Bool
has_reserved_bits f = not (bit_and f.bits reserved_mask == 0)

abbrev truncates : ℕ → Bool
truncates b = bit_and b all_flags == b % 2 ^ 10

truncates_table : every (2 ^ 16) truncates ≡ true
unfolding every
truncates_table = refl

abbrev clear : ℕ → Bool
clear b = bit_and b reserved_mask == 0

clear_table : every (2 ^ 10) clear ≡ true
unfolding every
clear_table = refl

pub mask_all : (b : ℕ) → b < 2 ^ 16 → bit_and b all_flags ≡ b % 2 ^ 10
mask_all b h = (==_iff _ _).0 (every_sound (2 ^ 16) truncates b truncates_table h)

pub mask_reserved : (b : ℕ) → b < 2 ^ 10 → bit_and b reserved_mask ≡ 0
mask_reserved b h = (==_iff _ _).0 (every_sound (2 ^ 10) clear b clear_table h)

module _ ⦃bf : BitFlags⦄ where
  pub from_bits_truncate : ℕ → PacketFlags
  from_bits_truncate b = record { bits = bf.from_bits_truncate all_flags b }

  pub from_bits_truncate-bits : (b : ℕ) → b < 2 ^ 16 → (from_bits_truncate b).bits ≡ b % 2 ^ 10
  unfolding from_bits_truncate
  from_bits_truncate-bits b h = bf.from_bits_truncate_masks all_flags b ∙ mask_all b h

  -- A set of known flags survives truncation.
  pub from_bits_truncate_known : (f : PacketFlags) → f.bits < 2 ^ 10 → from_bits_truncate f.bits ≡ f
  from_bits_truncate_known f h =
      ap (λ (b : ℕ). let g : PacketFlags = record { bits = b } in g)
        (from_bits_truncate-bits f.bits (omega arith) ∙ (omega arith))

  -- What truncation leaves has no reserved bit.
  pub has_reserved_bits-truncate :
      (b : ℕ) → b < 2 ^ 16 → has_reserved_bits (from_bits_truncate b) ≡ false
  unfolding has_reserved_bits
  has_reserved_bits-truncate b h =
      rw (from_bits_truncate-bits b h, mask_reserved (b % 2 ^ 10) (omega arith))
