-- ===== src/Stream/Cip.antt =====
-- The header of common isochronous packets, in sound/firewire/amdtp-stream.c. A quadlet is kept in
-- CPU order.
pub mod Roundtrip
use linux_firewire_dkms.Prelude.{
  ℕ, ◌+◌, ◌-◌, ◌*◌, ◌/◌, ◌^◌, Bool, true, false, ◌&&◌, ◌||◌, not, Option, none, some, bit_and,
  bit_or, ltb, leb, ◌==◌, ◌!=◌, if◌then◌else◌, shl32, shr, u32,
}
use linux_firewire_dkms.Stream.Sequence.{ticks_per_cycle}

-- The `enum cip_flags` that these functions read.
pub record Flags : Type 0 where
  pub dbc_is_end_event : Bool
  pub wrong_dbs : Bool
  pub skip_dbc_zero_check : Bool
  pub empty_has_wrong_dbc : Bool
  pub header_without_eoh : Bool
  pub no_header : Bool
  pub unaware_syt : Bool
  pub dbc_is_payload_quadlets : Bool

-- What these functions read of a `struct amdtp_stream`.
pub record Stream : Type 0 where
  pub flags : Flags
  pub source_node_id_field : ℕ
  pub data_block_quadlets : ℕ
  pub sph : ℕ
  pub fmt : ℕ
  pub fdf : ℕ
  pub dbc_interval : ℕ
  pub max_ctx_payload_length : ℕ

pub data Errno : Type 0 where
  eagain eproto eio : Errno

-- What a header tells of its packet. `data_block_counter` is `none` for UINT_MAX, before the first
-- packet, and `syt` is the caller's where the stream does not heed it.
pub record Description : Type 0 where
  pub data_blocks : ℕ
  pub data_block_counter : Option ℕ
  pub syt : ℕ

pub data Checked : Type 0 where
  ok : Description → Checked
  error : Errno → Checked

abbrev pub cip_eoh : ℕ
cip_eoh = 2 ^ 31

abbrev pub fmt_am : ℕ
fmt_am = 0x10

abbrev pub fdf_no_data : ℕ
fdf_no_data = 0xff

unfoldable pub generate_cip_header : Stream → (data_block_counter syt : ℕ) → ℕ × ℕ
generate_cip_header s data_block_counter syt = (
  bit_or
      (bit_or (bit_or s.source_node_id_field (shl32 s.data_block_quadlets 16))
        (bit_and (shl32 s.sph 10) 0x00000400))
      data_block_counter,
  bit_or
      (bit_or (bit_or cip_eoh (bit_and (shl32 s.fmt 24) 0x3f000000))
        (bit_and (shl32 s.fdf 16) 0x00ff0000))
      (bit_and syt 0x0000ffff),
)

-- `*data_blocks`; `none` is -EPROTO.
unfoldable pub count_data_blocks : Stream → (quadlet fmt fdf payload_length : ℕ) → Option ℕ
count_data_blocks s quadlet fmt fdf payload_length =
    let dbs = shr (bit_and quadlet 0x00ff0000) 16 in
    if payload_length == 0 || (fmt == fmt_am && fdf == fdf_no_data)
    then some 0
    else if dbs == 0
    then none
    else some (payload_length / 4 / (if s.flags.wrong_dbs then s.data_block_quadlets else dbs))

-- The counter that a header is taken to have.
unfoldable pub counter_of : Stream → (quadlet data_blocks : ℕ) → Option ℕ → ℕ
counter_of s quadlet data_blocks none = bit_and quadlet 0x000000ff
counter_of s quadlet data_blocks (some last) =
    if data_blocks == 0 && s.flags.empty_has_wrong_dbc then last else bit_and quadlet 0x000000ff

unfoldable pub interval_of : Stream → (data_blocks payload_length : ℕ) → ℕ
interval_of s data_blocks payload_length =
    if s.flags.dbc_is_payload_quadlets
    then payload_length / 4
    else if ltb 0 data_blocks && ltb 0 s.dbc_interval
    then s.dbc_interval
    else data_blocks

unfoldable pub is_lost : Stream → (data_blocks payload_length dbc : ℕ) → Option ℕ → Bool
is_lost s data_blocks payload_length dbc none = false
is_lost s data_blocks payload_length dbc (some last) =
    if dbc == 0 && s.flags.skip_dbc_zero_check
    then false
    else if s.flags.dbc_is_end_event
    then dbc != bit_and (last + interval_of s data_blocks payload_length) 0xff
    else dbc != last

-- From the continuity of the counter on.
unfoldable pub check_continuity :
    Stream
    → (header : ℕ × ℕ) (payload_length syt : ℕ) → Option ℕ
    → (data_blocks : Option ℕ) → Checked
check_continuity s header payload_length syt last none = error Errno.eproto
check_continuity s header payload_length syt last (some blocks) =
    let dbc = counter_of s header.0 blocks last in
    if is_lost s blocks payload_length dbc last
    then error Errno.eio
    else ok (record {
      data_blocks = blocks;
      data_block_counter = some dbc;
      syt = if s.flags.unaware_syt then syt else bit_and header.1 0x0000ffff;
    })

unfoldable pub check_cip_header :
    Stream → (header : ℕ × ℕ) (payload_length syt : ℕ) → Option ℕ → Checked
check_cip_header s header payload_length syt last =
    let sph = shr (bit_and header.0 0x00000400) 10 in
    let fmt = shr (bit_and header.1 0x3f000000) 24 in
    let fdf = shr (bit_and header.1 0x00ff0000) 16 in
    if (bit_and header.0 0x80000000 == cip_eoh || bit_and header.1 0x80000000 != cip_eoh)
      && not s.flags.header_without_eoh
    then error Errno.eagain
    else if sph != s.sph || fmt != s.fmt
    then error Errno.eagain
    else check_continuity s header payload_length syt last
        (count_data_blocks s header.0 fmt fdf payload_length)

-- The first two quadlets of the context header, and the two of the CIP header behind it.
unfoldable pub parse_ir_ctx_header :
    Stream → (ctx_header : ℕ × ℕ) (cip_header : ℕ × ℕ) (syt : ℕ) → Option ℕ → Checked
parse_ir_ctx_header s ctx_header cip_header syt last =
    let payload_length = shr ctx_header.0 16 in
    let cip_header_size = if s.flags.no_header then 0 else 8 in
    if ltb (cip_header_size + s.max_ctx_payload_length) payload_length
    then error Errno.eio
    else if ltb 0 cip_header_size
    then if leb cip_header_size payload_length
      then check_cip_header s cip_header (payload_length - cip_header_size) syt last
      else ok (record { data_blocks = 0; data_block_counter = last; syt = 0 })
    else ok (record {
      data_blocks = payload_length / 4 / s.data_block_quadlets;
      data_block_counter = elim last [ none ↦ some 0 | some dbc ↦ some dbc ];
      syt = 0;
    })

-- The payload length and the CIP header, if there is one, of a packet to send.
unfoldable pub build_it_pkt_header :
    Stream → (header_length data_blocks data_block_counter syt : ℕ) → ℕ × Option (ℕ × ℕ)
build_it_pkt_header s header_length data_blocks data_block_counter syt = (
  u32 (data_blocks * 4 * s.data_block_quadlets),
  if ltb 0 header_length then some (generate_cip_header s data_block_counter syt) else none,
)
