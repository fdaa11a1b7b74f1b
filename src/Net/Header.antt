-- ===== src/Net/Header.antt =====
-- The encapsulation header of a datagram: `struct rfc2734_header` of drivers/firewire/net.c, and
-- what `fwnet_incoming_packet` reads of a packet.
pub mod Roundtrip
pub mod Packet
use linux_firewire_dkms.Prelude.{
  ℕ, ◌+◌, ◌-◌, ◌*◌, ◌/◌, ◌%◌, ◌^◌, Bool, List, [], ◌∷◌, get_or, take, drop, bit_and, bit_or, ltb,
  leb, ◌==◌, if◌then◌else◌, u32, shl32, field_get,
}
use linux_firewire_dkms.Net.Datagrams.{Incoming, first_fragment}

pub record Header : Type 0 where
  pub w0 : ℕ
  pub w1 : ℕ

unfoldable pub get_hdr_lf : Header → ℕ
get_hdr_lf h = field_get 0xc0000000 30 h.w0

unfoldable pub get_hdr_ether_type : Header → ℕ
get_hdr_ether_type h = bit_and h.w0 0x0000ffff

unfoldable pub get_hdr_dg_size : Header → ℕ
get_hdr_dg_size h = field_get 0x0fff0000 16 h.w0 + 1

unfoldable pub get_hdr_fg_off : Header → ℕ
get_hdr_fg_off h = bit_and h.w0 0x00000fff

unfoldable pub get_hdr_dgl : Header → ℕ
get_hdr_dgl h = field_get 0xffff0000 16 h.w1

abbrev pub unfragmented : ℕ
unfragmented = 0

abbrev dg_size_field : ℕ → ℕ
dg_size_field dg_size = shl32 (u32 (dg_size + (2 ^ 32 - 1))) 16

unfoldable pub make_uf_hdr : Header → ℕ → Header
make_uf_hdr h ether_type = record { w0 = bit_or (shl32 unfragmented 30) ether_type; w1 = h.w1 }

unfoldable pub make_ff_hdr : ℕ → ℕ → ℕ → Header
make_ff_hdr ether_type dg_size dgl = record {
  w0 = bit_or (bit_or (shl32 first_fragment 30) (dg_size_field dg_size)) ether_type;
  w1 = shl32 dgl 16;
}

unfoldable pub make_sf_hdr : ℕ → ℕ → ℕ → ℕ → Header
make_sf_hdr lf dg_size fg_off dgl = record {
  w0 = bit_or (bit_or (shl32 lf 30) (dg_size_field dg_size)) fg_off;
  w1 = shl32 dgl 16;
}

-- The 32-bit word, highest byte first, at the byte `i`.
unfoldable pub be32_at : List ℕ → ℕ → ℕ
be32_at buf i =
    get_or buf i 0 * 2 ^ 24
    + get_or buf (i + 1) 0 * 2 ^ 16
    + get_or buf (i + 2) 0 * 2 ^ 8
    + get_or buf (i + 3) 0

-- put_unaligned_be32
unfoldable pub be32_bytes : ℕ → List ℕ
be32_bytes w = w / 2 ^ 24 % 2 ^ 8 ∷ w / 2 ^ 16 % 2 ^ 8 ∷ w / 2 ^ 8 % 2 ^ 8 ∷ w % 2 ^ 8 ∷ []

-- What a packet is to `fwnet_incoming_packet`: too short or inconsistent, when it returns 0 and
-- does nothing; an unfragmented datagram; or a fragment.
pub data Parsed : Type 0 where
  ignored : Parsed
  whole : (ether_type : ℕ) → (bytes : List ℕ) → Parsed
  fragment : Incoming → Parsed

abbrev pub unfrag_hdr_size : ℕ
unfrag_hdr_size = 4

abbrev pub frag_hdr_size : ℕ
frag_hdr_size = 8

unfoldable pub parse_fragment : Header → List ℕ → ℕ → Parsed
parse_fragment h buf len =
    let lf = get_hdr_lf h in
    let fg_off = if lf == first_fragment then 0 else get_hdr_fg_off h in
    let dg_size = get_hdr_dg_size h in
    if ltb dg_size (fg_off + (len - frag_hdr_size))
    then ignored
    else fragment (record {
      lf = lf;
      datagram_label = get_hdr_dgl h;
      ether_type = if lf == first_fragment then get_hdr_ether_type h else 0;
      dg_size = dg_size;
      fg_off = fg_off;
      bytes = take (len - frag_hdr_size) (drop 8 buf);
    })

unfoldable pub parse : List ℕ → ℕ → Parsed
parse buf len =
    let h : Header = record { w0 = be32_at buf 0; w1 = be32_at buf 4 } in
    if leb len unfrag_hdr_size
    then ignored
    else if get_hdr_lf h == unfragmented
    then whole (get_hdr_ether_type h) (take (len - unfrag_hdr_size) (drop 4 buf))
    else if leb len frag_hdr_size
    then ignored
    else parse_fragment h buf len
