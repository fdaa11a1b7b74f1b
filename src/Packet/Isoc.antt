-- ===== src/Packet/Isoc.antt =====
-- The header quadlet of an isochronous packet: drivers/firewire/packet-header-definitions.h.
pub mod Laws
pub mod Fields
use linux_firewire_dkms.Prelude.{ℕ, field_get, field_set}

unfoldable pub get_data_length : ℕ → ℕ
get_data_length quadlet = field_get 0xffff0000 16 quadlet

unfoldable pub set_data_length : ℕ → ℕ → ℕ
set_data_length quadlet v = field_set 0xffff0000 16 quadlet v

unfoldable pub get_tag : ℕ → ℕ
get_tag quadlet = field_get 0x0000c000 14 quadlet

unfoldable pub set_tag : ℕ → ℕ → ℕ
set_tag quadlet v = field_set 0x0000c000 14 quadlet v

unfoldable pub get_channel : ℕ → ℕ
get_channel quadlet = field_get 0x00003f00 8 quadlet

unfoldable pub set_channel : ℕ → ℕ → ℕ
set_channel quadlet v = field_set 0x00003f00 8 quadlet v

unfoldable pub get_tcode : ℕ → ℕ
get_tcode quadlet = field_get 0x000000f0 4 quadlet

unfoldable pub set_tcode : ℕ → ℕ → ℕ
set_tcode quadlet v = field_set 0x000000f0 4 quadlet v

unfoldable pub get_sy : ℕ → ℕ
get_sy quadlet = field_get 0x0000000f 0 quadlet

unfoldable pub set_sy : ℕ → ℕ → ℕ
set_sy quadlet v = field_set 0x0000000f 0 quadlet v
