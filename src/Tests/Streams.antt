-- ===== src/Tests/Streams.antt =====
-- Streams at concrete inputs.
use linux_firewire_dkms.Prelude.{◌-◌, ◌*◌, ◌/◌, ◌<◌, ◌≤◌, ◌≡◌, ◌↔◌, inr, refl, false, some, arith}
use linux_firewire_dkms.Stream.Cycle.{
  cycle_modulus, compare_ohci_cycle_count, before, after, compare_ohci_lem,
}
use linux_firewire_dkms.Stream.Sequence.Rate.{
  Base44100, code, total_from, rounded_up, ideal_data_blocks-rounded_up,
}
use linux_firewire_dkms.Stream.Sequence.Offset.{ticks_from, rounded, ticks_from-rounded}
use linux_firewire_dkms.Stream.Cip.{Stream, ok, check_cip_header, generate_cip_header}
use linux_firewire_dkms.Stream.Cip.Roundtrip.{Fits, check-generate}

ideal_data_blocks-rounded_up_example :
    total_from (code Base44100.sfc_44100) 0 8000 ≡ rounded_up Base44100.sfc_44100 8000
ideal_data_blocks-rounded_up_example = ideal_data_blocks-rounded_up Base44100.sfc_44100 8000

ticks_from-rounded_example : ticks_from 67 300 ≡ rounded 300
ticks_from-rounded_example = ticks_from-rounded 300

compare_ohci_lem_example :
    (compare_ohci_cycle_count 63999 0 ≡ after)
    × ((compare_ohci_cycle_count 0 63999 ≡ before) ↔ (63999 - 0 < cycle_modulus / 2))
    × ((compare_ohci_cycle_count 0 63999 ≡ after) ↔ (cycle_modulus / 2 ≤ 63999 - 0))
compare_ohci_lem_example = compare_ohci_lem 0 63999 (omega arith) (omega arith)

abbrev stream : Stream
stream = record {
  flags = record {
    dbc_is_end_event = false;
    wrong_dbs = false;
    skip_dbc_zero_check = false;
    empty_has_wrong_dbc = false;
    header_without_eoh = false;
    no_header = false;
    unaware_syt = false;
    dbc_is_payload_quadlets = false;
  };
  source_node_id_field = 2 * 0x1000000;
  data_block_quadlets = 6;
  sph = 0;
  fmt = 0x10;
  fdf = 1;
  dbc_interval = 0;
  max_ctx_payload_length = 512;
}

stream-Fits : Fits stream
stream-Fits = record {
  node = 2;
  node_lt = omega arith;
  source = refl;
  dbs_pos = omega arith;
  dbs_lt = omega arith;
  sph_lt = omega arith;
  fmt_lt = omega arith;
  fdf_lt = omega arith;
}

check-generate_example :
    check_cip_header stream (generate_cip_header stream 0x48 0x1234) (8 * 4 * 6) 0 (some 0x48)
    ≡ ok (record { data_blocks = 8; data_block_counter = some 0x48; syt = 0x1234 })
check-generate_example =
    check-generate stream stream stream-Fits 8 0x48 0x1234 0 (some 0x48)
      (record { sph = refl; fmt = refl; plain_dbs = refl; plain_dbc = refl }) (omega arith)
      (omega arith) refl (inr refl)
