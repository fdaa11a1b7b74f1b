-- ===== src/Packet/Async.antt =====
-- The header of an asynchronous packet: drivers/firewire/packet-header-definitions.h.
-- `u32 header[4]` is a record of four words; a setter returns the new header. The values are
-- `unsigned int`, so `(u32)v << SHIFT` drops what passes bit 31.
pub mod Laws
pub mod Fields
use linux_firewire_dkms.Prelude.{ℕ, ◌*◌, ◌^◌, ◌<◌, bit_and, bit_or, u32, shr, field_get, field_set}

pub record Header : Type 0 where
  pub q0 : ℕ
  pub q1 : ℕ
  pub q2 : ℕ
  pub q3 : ℕ

-- Each quadlet is a 32-bit word.
pub record IsHeader (h : Header) : Type 0 where
  pub q0_lt : h.q0 < 2 ^ 32
  pub q1_lt : h.q1 < 2 ^ 32
  pub q2_lt : h.q2 < 2 ^ 32
  pub q3_lt : h.q3 < 2 ^ 32

unfoldable pub get_destination : Header → ℕ
get_destination h = field_get 0xffff0000 16 h.q0

unfoldable pub set_destination : Header → ℕ → Header
set_destination h v = record h { q0 = field_set 0xffff0000 16 h.q0 v }

unfoldable pub get_tlabel : Header → ℕ
get_tlabel h = field_get 0x0000fc00 10 h.q0

unfoldable pub set_tlabel : Header → ℕ → Header
set_tlabel h v = record h { q0 = field_set 0x0000fc00 10 h.q0 v }

unfoldable pub get_retry : Header → ℕ
get_retry h = field_get 0x00000300 8 h.q0

unfoldable pub set_retry : Header → ℕ → Header
set_retry h v = record h { q0 = field_set 0x00000300 8 h.q0 v }

unfoldable pub get_tcode : Header → ℕ
get_tcode h = field_get 0x000000f0 4 h.q0

unfoldable pub set_tcode : Header → ℕ → Header
set_tcode h v = record h { q0 = field_set 0x000000f0 4 h.q0 v }

unfoldable pub get_priority : Header → ℕ
get_priority h = field_get 0x0000000f 0 h.q0

unfoldable pub set_priority : Header → ℕ → Header
set_priority h v = record h { q0 = field_set 0x0000000f 0 h.q0 v }

unfoldable pub get_source : Header → ℕ
get_source h = field_get 0xffff0000 16 h.q1

unfoldable pub set_source : Header → ℕ → Header
set_source h v = record h { q1 = field_set 0xffff0000 16 h.q1 v }

unfoldable pub get_rcode : Header → ℕ
get_rcode h = field_get 0x0000f000 12 h.q1

unfoldable pub set_rcode : Header → ℕ → Header
set_rcode h v = record h { q1 = field_set 0x0000f000 12 h.q1 v }

unfoldable pub get_data_length : Header → ℕ
get_data_length h = field_get 0xffff0000 16 h.q3

unfoldable pub set_data_length : Header → ℕ → Header
set_data_length h v = record h { q3 = field_set 0xffff0000 16 h.q3 v }

unfoldable pub get_extended_tcode : Header → ℕ
get_extended_tcode h = field_get 0x0000ffff 0 h.q3

unfoldable pub set_extended_tcode : Header → ℕ → Header
set_extended_tcode h v = record h { q3 = field_set 0x0000ffff 0 h.q3 v }

-- `u64`: 16 bits of the second quadlet over the third.
unfoldable pub get_offset : Header → ℕ
get_offset h = let hi = field_get 0x0000ffff 0 h.q1 in bit_or (hi * 2 ^ 32) h.q2

unfoldable pub set_offset : Header → ℕ → Header
set_offset h offset =
    let hi = u32 (shr offset 32) in
    record h { q1 = field_set 0x0000ffff 0 h.q1 hi; q2 = u32 (bit_and offset 0xffffffff) }

unfoldable pub get_quadlet_data : Header → ℕ
get_quadlet_data h = h.q3

unfoldable pub set_quadlet_data : Header → ℕ → Header
set_quadlet_data h quadlet_data = record h { q3 = quadlet_data }
