-- ===== src/Packet/Isoc/Laws.antt =====
-- Each getter and setter of the isochronous header as arithmetic.
use linux_firewire_dkms.Prelude.{
  ℕ, ◌+◌, ◌*◌, ◌/◌, ◌%◌, ◌^◌, ◌<◌, ◌≡◌, refl, arith, field_get_lem, field_set_lem,
}
use linux_firewire_dkms.Packet.Isoc.{
  get_data_length, set_data_length, get_tag, set_tag, get_channel, set_channel, get_tcode,
  set_tcode, get_sy, set_sy,
}

pub get_data_length_lem : (q : ℕ) → get_data_length q ≡ q / 65536 % 65536
unfolding get_data_length
get_data_length_lem q = omega (arith, field_get_lem 16 16 0xffff0000 q refl)

pub set_data_length_lem :
    (q : ℕ) (v : ℕ)
    → q < 2 ^ 32
    → set_data_length q v ≡ (q / 65536 / 65536 * 65536 + v % 65536) * 65536 + q % 65536
unfolding set_data_length
set_data_length_lem q v fits =
    field_set_lem 16 16 0 0xffff0000 q v refl refl (omega arith) (omega arith)

pub get_tag_lem : (q : ℕ) → get_tag q ≡ q / 16384 % 4
unfolding get_tag
get_tag_lem q = omega (arith, field_get_lem 14 2 0x0000c000 q refl)

pub set_tag_lem :
    (q : ℕ) (v : ℕ) → q < 2 ^ 32 → set_tag q v ≡ (q / 16384 / 4 * 4 + v % 4) * 16384 + q % 16384
unfolding set_tag
set_tag_lem q v fits = field_set_lem 14 2 16 0x0000c000 q v refl refl (omega arith) (omega arith)

pub get_channel_lem : (q : ℕ) → get_channel q ≡ q / 256 % 64
unfolding get_channel
get_channel_lem q = omega (arith, field_get_lem 8 6 0x00003f00 q refl)

pub set_channel_lem :
    (q : ℕ) (v : ℕ) → q < 2 ^ 32 → set_channel q v ≡ (q / 256 / 64 * 64 + v % 64) * 256 + q % 256
unfolding set_channel
set_channel_lem q v fits = field_set_lem 8 6 18 0x00003f00 q v refl refl (omega arith) (omega arith)

pub get_tcode_lem : (q : ℕ) → get_tcode q ≡ q / 16 % 16
unfolding get_tcode
get_tcode_lem q = omega (arith, field_get_lem 4 4 0x000000f0 q refl)

pub set_tcode_lem :
    (q : ℕ) (v : ℕ) → q < 2 ^ 32 → set_tcode q v ≡ (q / 16 / 16 * 16 + v % 16) * 16 + q % 16
unfolding set_tcode
set_tcode_lem q v fits = field_set_lem 4 4 24 0x000000f0 q v refl refl (omega arith) (omega arith)

pub get_sy_lem : (q : ℕ) → get_sy q ≡ q % 16
unfolding get_sy
get_sy_lem q = omega (arith, field_get_lem 0 4 0x0000000f q refl)

pub set_sy_lem : (q : ℕ) (v : ℕ) → q < 2 ^ 32 → set_sy q v ≡ (q / 1 / 16 * 16 + v % 16) * 1 + q % 1
unfolding set_sy
set_sy_lem q v fits = field_set_lem 0 4 28 0x0000000f q v refl refl (omega arith) (omega arith)
