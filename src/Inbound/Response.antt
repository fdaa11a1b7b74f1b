-- ===== src/Inbound/Response.antt =====
-- Responses to requests of other nodes, in drivers/firewire/core-transaction.c.
pub mod Fields
use linux_firewire_dkms.Prelude.{
  ℕ, ◌+◌, ◌/◌, ◌||◌, Bool, false, Option, none, some, ◌==◌, if◌then◌else◌, u32,
}
use linux_firewire_dkms.Packet.Async.{
  Header, get_tcode, get_tlabel, get_destination, get_source, get_extended_tcode, get_data_length,
  set_retry, set_tlabel, set_destination, set_source, set_rcode, set_tcode, set_quadlet_data,
  set_data_length, set_extended_tcode,
}
use linux_firewire_dkms.Transaction.Fill.{Packet, Payload}

-- 0 also for a transaction code that is wrong.
unfoldable pub get_response_length : Header → ℕ
get_response_length h =
    let tcode = get_tcode h in
    if tcode == 0x0 || tcode == 0x1
    then 0
    else if tcode == 0x4
    then 4
    else if tcode == 0x5
    then get_data_length h
    else if tcode == 0x9
    then if get_extended_tcode h == 0x3 || get_extended_tcode h == 0x4
      then get_data_length h
      else get_data_length h / 2
    else 0

-- The fields that every response has: the nodes are exchanged.
unfoldable pub response_header : Header → Header → (rcode : ℕ) → Header
response_header h request rcode =
    let filled =
      set_rcode
        (set_source
          (set_destination (set_tlabel (set_retry h 0x00) (get_tlabel request))
            (get_source request))
          (get_destination request))
        rcode in
    record filled { q2 = 0 }

abbrev pub address_of : Option Payload → ℕ
address_of none = 0
address_of (some p) = p.address

abbrev pub quadlet_of : Option Payload → ℕ
quadlet_of none = 0
quadlet_of (some p) = p.quadlet

-- The `switch` over the transaction code of the request. NULL is `none`.
unfoldable pub response_by_tcode : Packet → (tcode extended_tcode : ℕ) → Option Payload → ℕ → Packet
response_by_tcode p tcode extended_tcode payload length =
    if tcode == 0x0 || tcode == 0x1
    then record p { header = set_tcode p.header 0x2; header_length = 12; payload_length = 0 }
    else if tcode == 0x4
    then record p {
      header = set_quadlet_data (set_tcode p.header 0x6) (quadlet_of payload);
      header_length = 16;
      payload_length = 0;
    }
    else if tcode == 0x5 || tcode == 0x9
    then record p {
      header =
          set_extended_tcode (set_data_length (set_tcode p.header (tcode + 2)) (u32 length))
            extended_tcode;
      header_length = 16;
      payload = address_of payload;
      payload_length = length;
    }
    else p

unfoldable pub fill_response :
    Packet → (request : Header) → (rcode : ℕ) → Option Payload → ℕ → Packet
fill_response p request rcode payload length =
    let filled =
      response_by_tcode (record p { header = response_header p.header request rcode })
        (get_tcode request) (get_extended_tcode request) payload length in
    record filled { payload_mapped = false }
