-- ===== src/Transaction/Fill.antt =====
-- `fw_fill_request`: the header and the lengths of a request packet.
pub mod Fields
use linux_firewire_dkms.Prelude.{ℕ, Bool, false, bit_and, ltb, ◌==◌, if◌then◌else◌, u32, not32}
use linux_firewire_dkms.Packet.Async.{
  Header, set_retry, set_tlabel, set_tcode, set_destination, set_source, set_offset,
  set_quadlet_data, set_data_length, set_extended_tcode,
}
use linux_firewire_dkms.Packet.Isoc

-- A pointer, with the `u32` that lies there.
pub record Payload : Type 0 where
  pub address : ℕ
  pub quadlet : ℕ

pub record Packet : Type 0 where
  pub header : Header
  pub header_length : ℕ
  pub payload : ℕ
  pub payload_length : ℕ
  pub speed : ℕ
  pub generation : ℕ
  pub ack : ℕ
  pub payload_mapped : Bool

abbrev pub tcode_write_quadlet_request : ℕ
tcode_write_quadlet_request = 0x0

abbrev pub tcode_write_block_request : ℕ
tcode_write_block_request = 0x1

abbrev pub tcode_read_quadlet_request : ℕ
tcode_read_quadlet_request = 0x4

abbrev pub tcode_read_block_request : ℕ
tcode_read_block_request = 0x5

abbrev pub tcode_lock_request : ℕ
tcode_lock_request = 0x9

abbrev pub tcode_stream_data : ℕ
tcode_stream_data = 0xa

abbrev pub retry_x : ℕ
retry_x = 0x01

-- Behind the label `common`.
abbrev common : Packet → ℕ → ℕ → Packet
common p speed generation = record p {
  speed = speed;
  generation = generation;
  ack = 0;
  payload_mapped = false;
}

-- An asynchronous stream packet has the header quadlet of an isochronous one.
unfoldable pub fill_stream : Packet → ℕ → Payload → ℕ → Packet
fill_stream p destination_id payload length =
    let q0 = Isoc.set_tcode (Isoc.set_data_length destination_id (u32 length)) tcode_stream_data in
    record p {
      header = record p.header { q0 = q0 };
      header_length = 4;
      payload = payload.address;
      payload_length = length;
    }

-- The fields that every request has.
unfoldable pub request_header : Header → ℕ → ℕ → ℕ → ℕ → ℕ → Header
request_header h tcode tlabel destination_id source_id offset =
    set_offset
      (set_source
        (set_destination (set_tcode (set_tlabel (set_retry h retry_x) tlabel) tcode) destination_id)
        source_id)
      offset

-- The `switch` over the transaction code.
unfoldable pub fill_by_tcode : Packet → ℕ → ℕ → Payload → ℕ → Packet
fill_by_tcode p tcode ext_tcode payload length =
    if tcode == tcode_write_quadlet_request
    then record p {
      header = set_quadlet_data p.header payload.quadlet;
      header_length = 16;
      payload_length = 0;
    }
    else if tcode == tcode_lock_request
    then record p {
      header = set_extended_tcode (set_data_length p.header (u32 length)) ext_tcode;
      header_length = 16;
      payload = payload.address;
      payload_length = length;
    }
    else if tcode == tcode_write_block_request
    then record p {
      header = set_extended_tcode (set_data_length p.header (u32 length)) ext_tcode;
      header_length = 16;
      payload = payload.address;
      payload_length = length;
    }
    else if tcode == tcode_read_quadlet_request
    then record p { header_length = 12; payload_length = 0 }
    else if tcode == tcode_read_block_request
    then record p {
      header = set_extended_tcode (set_data_length p.header (u32 length)) ext_tcode;
      header_length = 16;
      payload_length = 0;
    }
    else p

-- A lock request is given as 0x10 with its extended code.
abbrev pub split_ext_tcode : ℕ → ℕ
split_ext_tcode tcode = if ltb 0x10 tcode then bit_and tcode (not32 0x10) else 0

abbrev pub split_tcode : ℕ → ℕ
split_tcode tcode = if ltb 0x10 tcode then tcode_lock_request else tcode

unfoldable pub fill_request :
    Packet
    → (tcode tlabel destination_id source_id generation speed offset : ℕ) → Payload
    → ℕ
    → Packet
fill_request p tcode tlabel destination_id source_id generation speed offset payload length =
    if tcode == tcode_stream_data
    then common (fill_stream p destination_id payload length) speed generation
    else let h =
        request_header p.header (split_tcode tcode) tlabel destination_id source_id offset in
      common
        (fill_by_tcode (record p { header = h }) (split_tcode tcode) (split_ext_tcode tcode) payload
          length)
        speed generation
