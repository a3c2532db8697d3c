-- ===== src/Acpi/Ioapic/Entry.antt =====
-- The union `RedirEntry` of kernel/src/acpi/apic/ioapic.hpp: the bit fields, from the low end of the
-- 64 bits, and the two halves.
use print_os.Base.{ℕ, ◌+◌, ◌*◌, ◌/◌, ◌%◌, ◌^◌, ◌<◌, ◌≡◌, arith}

pub record RedirEntry : Type 0 where
  pub intvec : ℕ  -- 8 bits
  pub delmod : ℕ  -- 3
  pub destmod : ℕ  -- 1
  pub delivs : ℕ  -- 1
  pub intpol : ℕ  -- 1
  pub remote_irr : ℕ  -- 1
  pub trigmod : ℕ  -- 1
  pub int_mask : ℕ  -- 1
  pub reserved : ℕ  -- 39
  pub destination : ℕ  -- 8

-- The vectors of `Interrupt` that the I/O APIC sends.
abbrev pub timer : ℕ
timer = 40

abbrev pub keyboard : ℕ
keyboard = 41

unfoldable pub lower_half : RedirEntry → ℕ
lower_half e =
    e.intvec
    + 2 ^ 8 * e.delmod
    + 2 ^ 11 * e.destmod
    + 2 ^ 12 * e.delivs
    + 2 ^ 13 * e.intpol
    + 2 ^ 14 * e.remote_irr
    + 2 ^ 15 * e.trigmod
    + 2 ^ 16 * e.int_mask
    + 2 ^ 17 * (e.reserved % 2 ^ 15)

unfoldable pub upper_half : RedirEntry → ℕ
upper_half e = e.reserved / 2 ^ 15 + 2 ^ 24 * e.destination

unfoldable pub of_halves : (lower upper : ℕ) → RedirEntry
of_halves lower upper = record {
  intvec = lower % 2 ^ 8;
  delmod = lower / 2 ^ 8 % 2 ^ 3;
  destmod = lower / 2 ^ 11 % 2;
  delivs = lower / 2 ^ 12 % 2;
  intpol = lower / 2 ^ 13 % 2;
  remote_irr = lower / 2 ^ 14 % 2;
  trigmod = lower / 2 ^ 15 % 2;
  int_mask = lower / 2 ^ 16 % 2;
  reserved = lower / 2 ^ 17 + 2 ^ 15 * (upper % 2 ^ 24);
  destination = upper / 2 ^ 24;
}

-- The values that the bit fields can hold.
pub record IsEntry (e : RedirEntry) : Type 0 where
  pub intvec_fits : e.intvec < 2 ^ 8
  pub delmod_fits : e.delmod < 2 ^ 3
  pub destmod_fits : e.destmod < 2
  pub delivs_fits : e.delivs < 2
  pub intpol_fits : e.intpol < 2
  pub remote_irr_fits : e.remote_irr < 2
  pub trigmod_fits : e.trigmod < 2
  pub int_mask_fits : e.int_mask < 2
  pub reserved_fits : e.reserved < 2 ^ 39
  pub destination_fits : e.destination < 2 ^ 8

-- The fields that the kernel can set are the same.
pub record SameSettings (e e' : RedirEntry) : Type 0 where
  pub same_intvec : e.intvec ≡ e'.intvec
  pub same_delmod : e.delmod ≡ e'.delmod
  pub same_destmod : e.destmod ≡ e'.destmod
  pub same_intpol : e.intpol ≡ e'.intpol
  pub same_trigmod : e.trigmod ≡ e'.trigmod
  pub same_int_mask : e.int_mask ≡ e'.int_mask
  pub same_destination : e.destination ≡ e'.destination

-- What a half says of these: all but bits 12 and 14 of the lower one, which the device sets itself,
-- and the reserved bits.
pub record SameLower (v w : ℕ) : Type 0 where
  pub same_low : v % 2 ^ 12 ≡ w % 2 ^ 12
  pub same_bit_13 : v / 2 ^ 13 % 2 ≡ w / 2 ^ 13 % 2
  pub same_high : v / 2 ^ 15 % 4 ≡ w / 2 ^ 15 % 4

abbrev pub SameUpper : (v w : ℕ) → Type 0
SameUpper v w = v / 2 ^ 24 ≡ w / 2 ^ 24

-- The two halves of an entry read back as the same settings, also after the device has replaced the
-- bits that are its own.
pub of_halves-SameSettings :
    (e : RedirEntry) (v w : ℕ)
    → IsEntry e
    → SameLower v (lower_half e)
    → SameUpper w (upper_half e)
    → SameSettings (of_halves v w) e
unfolding lower_half upper_half of_halves
of_halves-SameSettings e v w i lo hi = omega arith
