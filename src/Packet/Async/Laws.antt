-- ===== src/Packet/Async/Laws.antt =====
-- Each getter and setter of the asynchronous header as arithmetic on its quadlet.
use linux_firewire_dkms.Prelude.{
  ℕ, ◌+◌, ◌*◌, ◌/◌, ◌%◌, ◌^◌, ◌<◌, ◌≡◌, refl, arith, u32, shr, field_get_lem, field_set_lem,
  zero-bit_or, bit_or-zero, bit_or_split, bit_and_ones,
}
use linux_firewire_dkms.Packet.Async.{
  Header, get_destination, set_destination, get_tlabel, set_tlabel, get_retry, set_retry, get_tcode,
  set_tcode, get_priority, set_priority, get_source, set_source, get_rcode, set_rcode,
  get_data_length, set_data_length, get_extended_tcode, set_extended_tcode, get_offset, set_offset,
  get_quadlet_data, set_quadlet_data,
}

pub get_destination_lem : (h : Header) → get_destination h ≡ h.q0 / 65536 % 65536
unfolding get_destination
get_destination_lem h = omega (arith, field_get_lem 16 16 0xffff0000 h.q0 refl)

pub set_destination_lem :
    (h : Header) (v : ℕ)
    → h.q0 < 2 ^ 32
    → set_destination h v
      ≡ record h { q0 = (h.q0 / 65536 / 65536 * 65536 + v % 65536) * 65536 + h.q0 % 65536 }
unfolding set_destination
set_destination_lem h v fits =
    rw (field_set_lem 16 16 0 0xffff0000 h.q0 v refl refl (omega arith) (omega arith))

pub get_tlabel_lem : (h : Header) → get_tlabel h ≡ h.q0 / 1024 % 64
unfolding get_tlabel
get_tlabel_lem h = omega (arith, field_get_lem 10 6 0x0000fc00 h.q0 refl)

pub set_tlabel_lem :
    (h : Header) (v : ℕ)
    → h.q0 < 2 ^ 32
    → set_tlabel h v ≡ record h { q0 = (h.q0 / 1024 / 64 * 64 + v % 64) * 1024 + h.q0 % 1024 }
unfolding set_tlabel
set_tlabel_lem h v fits =
    rw (field_set_lem 10 6 16 0x0000fc00 h.q0 v refl refl (omega arith) (omega arith))

pub get_retry_lem : (h : Header) → get_retry h ≡ h.q0 / 256 % 4
unfolding get_retry
get_retry_lem h = omega (arith, field_get_lem 8 2 0x00000300 h.q0 refl)

pub set_retry_lem :
    (h : Header) (v : ℕ)
    → h.q0 < 2 ^ 32
    → set_retry h v ≡ record h { q0 = (h.q0 / 256 / 4 * 4 + v % 4) * 256 + h.q0 % 256 }
unfolding set_retry
set_retry_lem h v fits =
    rw (field_set_lem 8 2 22 0x00000300 h.q0 v refl refl (omega arith) (omega arith))

pub get_tcode_lem : (h : Header) → get_tcode h ≡ h.q0 / 16 % 16
unfolding get_tcode
get_tcode_lem h = omega (arith, field_get_lem 4 4 0x000000f0 h.q0 refl)

pub set_tcode_lem :
    (h : Header) (v : ℕ)
    → h.q0 < 2 ^ 32
    → set_tcode h v ≡ record h { q0 = (h.q0 / 16 / 16 * 16 + v % 16) * 16 + h.q0 % 16 }
unfolding set_tcode
set_tcode_lem h v fits =
    rw (field_set_lem 4 4 24 0x000000f0 h.q0 v refl refl (omega arith) (omega arith))

pub get_priority_lem : (h : Header) → get_priority h ≡ h.q0 % 16
unfolding get_priority
get_priority_lem h = omega (arith, field_get_lem 0 4 0x0000000f h.q0 refl)

pub set_priority_lem :
    (h : Header) (v : ℕ)
    → h.q0 < 2 ^ 32
    → set_priority h v ≡ record h { q0 = (h.q0 / 1 / 16 * 16 + v % 16) * 1 + h.q0 % 1 }
unfolding set_priority
set_priority_lem h v fits =
    rw (field_set_lem 0 4 28 0x0000000f h.q0 v refl refl (omega arith) (omega arith))

pub get_source_lem : (h : Header) → get_source h ≡ h.q1 / 65536 % 65536
unfolding get_source
get_source_lem h = omega (arith, field_get_lem 16 16 0xffff0000 h.q1 refl)

pub set_source_lem :
    (h : Header) (v : ℕ)
    → h.q1 < 2 ^ 32
    → set_source h v
      ≡ record h { q1 = (h.q1 / 65536 / 65536 * 65536 + v % 65536) * 65536 + h.q1 % 65536 }
unfolding set_source
set_source_lem h v fits =
    rw (field_set_lem 16 16 0 0xffff0000 h.q1 v refl refl (omega arith) (omega arith))

pub get_rcode_lem : (h : Header) → get_rcode h ≡ h.q1 / 4096 % 16
unfolding get_rcode
get_rcode_lem h = omega (arith, field_get_lem 12 4 0x0000f000 h.q1 refl)

pub set_rcode_lem :
    (h : Header) (v : ℕ)
    → h.q1 < 2 ^ 32
    → set_rcode h v ≡ record h { q1 = (h.q1 / 4096 / 16 * 16 + v % 16) * 4096 + h.q1 % 4096 }
unfolding set_rcode
set_rcode_lem h v fits =
    rw (field_set_lem 12 4 16 0x0000f000 h.q1 v refl refl (omega arith) (omega arith))

pub get_data_length_lem : (h : Header) → get_data_length h ≡ h.q3 / 65536 % 65536
unfolding get_data_length
get_data_length_lem h = omega (arith, field_get_lem 16 16 0xffff0000 h.q3 refl)

pub set_data_length_lem :
    (h : Header) (v : ℕ)
    → h.q3 < 2 ^ 32
    → set_data_length h v
      ≡ record h { q3 = (h.q3 / 65536 / 65536 * 65536 + v % 65536) * 65536 + h.q3 % 65536 }
unfolding set_data_length
set_data_length_lem h v fits =
    rw (field_set_lem 16 16 0 0xffff0000 h.q3 v refl refl (omega arith) (omega arith))

pub get_extended_tcode_lem : (h : Header) → get_extended_tcode h ≡ h.q3 % 65536
unfolding get_extended_tcode
get_extended_tcode_lem h = omega (arith, field_get_lem 0 16 0x0000ffff h.q3 refl)

pub set_extended_tcode_lem :
    (h : Header) (v : ℕ)
    → h.q3 < 2 ^ 32
    → set_extended_tcode h v
      ≡ record h { q3 = (h.q3 / 1 / 65536 * 65536 + v % 65536) * 1 + h.q3 % 1 }
unfolding set_extended_tcode
set_extended_tcode_lem h v fits =
    rw (field_set_lem 0 16 16 0x0000ffff h.q3 v refl refl (omega arith) (omega arith))

pub get_offset_lem : (h : Header) → h.q2 < 2 ^ 32 → get_offset h ≡ h.q1 % 65536 * 2 ^ 32 + h.q2
unfolding get_offset
get_offset_lem h fits = ground (
  arith,
  field_get_lem 0 16 0x0000ffff h.q1 refl,
  bit_or_split 32 (h.q1 % 65536) 0 0 h.q2,
  bit_or-zero (h.q1 % 65536),
  zero-bit_or h.q2,
)

pub set_offset_lem :
    (h : Header) (v : ℕ)
    → h.q1 < 2 ^ 32
    → set_offset h v
      ≡ record h { q1 = (h.q1 / 65536 * 65536 + v / 2 ^ 32 % 65536); q2 = v % 2 ^ 32 }
unfolding set_offset
set_offset_lem h v fits = ground (
  arith,
  field_set_lem 0 16 16 0x0000ffff h.q1 (u32 (shr v 32)) refl refl (omega arith) (omega arith),
  bit_and_ones 32 v,
)

pub get_quadlet_data_lem : (h : Header) → get_quadlet_data h ≡ h.q3
unfolding get_quadlet_data
get_quadlet_data_lem h = refl

pub set_quadlet_data_lem : (h : Header) (v : ℕ) → set_quadlet_data h v ≡ record h { q3 = v }
unfolding set_quadlet_data
set_quadlet_data_lem h v = refl
