-- ===== src/Transaction/Fill/Fields.antt =====
-- What a receiver reads from the header of a request.
use linux_firewire_dkms.Prelude.{ℕ, ◌%◌, ◌^◌, ◌<◌, ◌≡◌, ◌==◌, ◌||◌, if◌then◌else◌}
use linux_firewire_dkms.Packet.Async.{
  Header, get_retry, get_tlabel, get_tcode, get_destination, get_source, get_offset,
  get_quadlet_data, get_data_length, get_extended_tcode,
}
use linux_firewire_dkms.Packet.Async.Fields
use linux_firewire_dkms.Transaction.Fill.{Packet, Payload, retry_x}

-- The header holds the request: who asks whom, under which label, what and where.
pub record IsRequest (h : Header) (tcode tlabel destination_id source_id offset : ℕ) : Type 0 where
  pub retry_is : get_retry h ≡ retry_x
  pub tlabel_is : get_tlabel h ≡ tlabel
  pub tcode_is : get_tcode h ≡ tcode
  pub destination_is : get_destination h ≡ destination_id
  pub source_is : get_source h ≡ source_id
  pub offset_is : get_offset h ≡ offset

-- The values fit their fields.
pub record Fits (tcode tlabel destination_id source_id offset : ℕ) : Type 0 where
  pub tcode_lt : tcode < 16
  pub tlabel_lt : tlabel < 64
  pub destination_lt : destination_id < 2 ^ 16
  pub source_lt : source_id < 2 ^ 16
  pub offset_lt : offset < 2 ^ 48

-- A block or lock request carries its length and extended code as well.
pub record IsBlock (h : Header) (length ext_tcode : ℕ) : Type 0 where
  pub length_is : get_data_length h ≡ length
  pub ext_tcode_is : get_extended_tcode h ≡ ext_tcode

-- The packet carries what its transaction code calls for.
abbrev pub IsFilled : Packet → (tcode ext_tcode : ℕ) → Payload → ℕ → Type 0
IsFilled q tcode ext_tcode payload length =
    if tcode == 0x0
    then (get_quadlet_data q.header ≡ payload.quadlet)
      × (q.header_length ≡ 16)
      × (q.payload_length ≡ 0)
    else if tcode == 0x4
    then (q.header_length ≡ 12) × (q.payload_length ≡ 0)
    else if tcode == 0x1 || tcode == 0x9
    then IsBlock q.header (length % 2 ^ 16) ext_tcode
      × (q.header_length ≡ 16)
      × (q.payload ≡ payload.address)
      × (q.payload_length ≡ length)
    else if tcode == 0x5
    then IsBlock q.header (length % 2 ^ 16) ext_tcode
      × (q.header_length ≡ 16)
      × (q.payload_length ≡ 0)
    else Unit {0}
