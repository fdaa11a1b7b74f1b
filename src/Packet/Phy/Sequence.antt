-- ===== src/Packet/Phy/Sequence.antt =====
-- The sequence number of an extended self-ID quadlet.
use linux_firewire_dkms.Prelude.{
  ℕ, ◌+◌, ◌*◌, ◌/◌, ◌%◌, ◌^◌, ◌<◌, ◌≡◌, refl, arith, field_get_lem, field_set, bit_or-zero,
  bit_and_field, bit_and_outside,
}
use linux_firewire_dkms.Packet.Phy.{get_self_id_extended_sequence, set_self_id_extended_sequence}

pub get_sequence_lem : (q : ℕ) → get_self_id_extended_sequence q ≡ q / 2 ^ 20 % 8
unfolding get_self_id_extended_sequence
get_sequence_lem q = omega (arith, field_get_lem 20 3 0x00700000 q refl)

pub set_sequence_lem :
    (q sequence : ℕ)
    → q < 2 ^ 32
    → set_self_id_extended_sequence q sequence ≡ q / 2 ^ 20 / 8 * 8 * 2 ^ 20 + q % 2 ^ 20
unfolding set_self_id_extended_sequence field_set
set_sequence_lem q sequence fits = ground (
  arith,
  bit_and_outside 20 3 9 q (omega arith),
  bit_and_field 20 3 (sequence * 2 ^ 23 % 2 ^ 32),
  bit_or-zero (q / 2 ^ 20 / 8 * 8 * 2 ^ 20 + q % 2 ^ 20),
)

-- The setter of the sequence number stores no value: whatever number is written to whatever
-- quadlet, the field that is read back is 0, and every bit outside it stays.
pub get-set_sequence_zero :
    (q sequence : ℕ)
    → q < 2 ^ 32
    → let q' = set_self_id_extended_sequence q sequence in
      (get_self_id_extended_sequence q' ≡ 0)
      × (q' / 2 ^ 23 ≡ q / 2 ^ 23)
      × (q' % 2 ^ 20 ≡ q % 2 ^ 20)
get-set_sequence_zero q sequence fits =
    rw (set_sequence_lem q sequence fits, get_sequence_lem) (omega arith)
