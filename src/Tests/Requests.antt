-- ===== src/Tests/Requests.antt =====
-- Requests of other nodes at concrete inputs.
use linux_firewire_dkms.Prelude.{
  ◌+◌, ◌-◌, ◌*◌, ◌/◌, ◌%◌, ◌^◌, ◌<◌, ◌≤◌, ◌≡◌, refl, inl, false, Option, some, [], ◌∷◌, ◌++◌, arith,
}
use linux_firewire_dkms.Packet.Async.{
  Header, IsHeader, get_tlabel, get_source, get_destination, get_tcode, get_extended_tcode,
}
use linux_firewire_dkms.Transaction.Fill.{Packet, Payload}
use linux_firewire_dkms.Inbound.Handlers.{
  Handler, ok, add_address_handler, lookup_enclosing, place_loop, is_in_fcp_region,
  lookup_overlapping,
}
use linux_firewire_dkms.Inbound.Handlers.Registry.{lookup_enclosing-append}
use linux_firewire_dkms.Inbound.Timeout.{
  update_split_timeout, compute_split_timeout_timestamp, compute_split_timeout_timestamp_lem,
}
use linux_firewire_dkms.Inbound.Response.{fill_response}
use linux_firewire_dkms.Inbound.Response.Fields.{IsResponse, IsAnswer, fill_response-IsResponse}

abbrev registers : Handler
registers = record { offset = 0xfffff0000000; length = 0x400 }

abbrev topology_map : Handler
topology_map = record { offset = 0xfffff0001000; length = 0x400 }

-- A length for which the sum with the start is 0xffc in 64 bits: the handler is accepted.
wrapped_length :
    (add_address_handler [] (2 ^ 64 - 4) 0x1000 0x2000).0
    ≡ ok (record { offset = 0x1000; length = 2 ^ 64 - 4 })
unfolding add_address_handler place_loop is_in_fcp_region lookup_overlapping
wrapped_length = refl

lookup_enclosing-append_example :
    lookup_enclosing ((registers ∷ []) ++ (topology_map ∷ [])) 0xfffff0001004 4 ≡ some topology_map
lookup_enclosing-append_example =
    lookup_enclosing-append (registers ∷ []) topology_map 0xfffff0001004 4 (inl (omega arith), tt)
      ((omega arith, omega arith), tt, tt) (omega arith) (omega arith) (omega arith) (omega arith)

compute_split_timeout_timestamp_lem_example :
    let cycles = update_split_timeout 0 0x19000000 in
    let timestamp = compute_split_timeout_timestamp cycles (7 * 2 ^ 13 + 7900) in
    (timestamp / 2 ^ 13 * 8000 + timestamp % 2 ^ 13 ≡ 7 * 8000 + 7900 + cycles)
    × (timestamp % 2 ^ 13 < 8000)
    × (800 ≤ cycles)
    × (cycles ≤ 24000)
compute_split_timeout_timestamp_lem_example =
    compute_split_timeout_timestamp_lem 0 0x19000000 7 7900 (omega arith) (omega arith)

abbrev empty : Packet
empty = record {
  header = record { q0 = 0; q1 = 0; q2 = 0; q3 = 0 };
  header_length = 0;
  payload = 0;
  payload_length = 0;
  speed = 0;
  generation = 0;
  ack = 0;
  payload_mapped = false;
}

-- A read by node 0 of eight bytes at the register 0x220 of node 1, under the label 9.
abbrev read : Header
read = record { q0 = 0xffc12550; q1 = 0xffc0ffff; q2 = 0xf0000220; q3 = 0x80000 }

read-IsHeader : IsHeader read
read-IsHeader = record {
  q0_lt = omega arith;
  q1_lt = omega arith;
  q2_lt = omega arith;
  q3_lt = omega arith;
}

empty-IsHeader : IsHeader empty.header
empty-IsHeader = record {
  q0_lt = omega arith;
  q1_lt = omega arith;
  q2_lt = omega arith;
  q3_lt = omega arith;
}

abbrev answer : Option Payload
answer = some (record { address = 0x1000; quadlet = 4915 })

fill_response-IsResponse_example :
    let q = fill_response empty read 0 answer 8 in
    IsResponse q.header (get_tlabel read) (get_source read) (get_destination read) 0
    × IsAnswer empty q (get_tcode read) (get_extended_tcode read) answer 8
    × (q.header.q2 ≡ 0)
    × (q.payload_mapped ≡ false)
fill_response-IsResponse_example =
    fill_response-IsResponse empty read 0 answer 8 empty-IsHeader read-IsHeader (omega arith)
      (omega arith)
