-- ===== src/Net/Transmit.antt =====
-- Sending a datagram to one peer: the header and the number of packets that `fwnet_tx` chooses,
-- `fwnet_send_packet` and `fwnet_transmit_packet_done` of drivers/firewire/net.c.
pub mod Roundtrip
pub mod Whole
use linux_firewire_dkms.Prelude.{
  ℕ, zero, suc, ◌+◌, ◌-◌, ◌/◌, ◌%◌, ◌^◌, Bool, Option, none, some, List, [], ◌∷◌, ◌++◌, length,
  take, drop, ltb, leb, ◌==◌, if◌then◌else◌,
}
use linux_firewire_dkms.Net.Fragments.{u16}
use linux_firewire_dkms.Net.Datagrams.{first_fragment}
use linux_firewire_dkms.Net.Datagrams.Deliver.{interior_fragment, last_fragment}
use linux_firewire_dkms.Net.Header.{
  Header, make_uf_hdr, make_ff_hdr, make_sf_hdr, get_hdr_lf, get_hdr_dg_size, get_hdr_fg_off,
  get_hdr_dgl, unfragmented, unfrag_hdr_size, frag_hdr_size, be32_bytes,
}

-- struct fwnet_packet_task; `skb` holds the bytes from skb->data on.
pub record Task : Type 0 where
  pub hdr : Header
  pub skb : List ℕ
  pub outstanding_pkts : ℕ
  pub max_payload : ℕ

abbrev pub frag_overhead : ℕ
frag_overhead = 4

abbrev pub div_round_up : ℕ → ℕ → ℕ
div_round_up n d = (n + (d - 1)) / d

-- From "Does it all fit in one packet?" on; `payload` is the peer's limit.
unfoldable pub start_task : List ℕ → ℕ → ℕ → ℕ → Task
start_task skb payload ether_type datagram_label =
    let dg_size = u16 (length skb) in
    let part = payload - frag_overhead in
    if leb dg_size payload
    then record {
      hdr = make_uf_hdr (record { w0 = 0; w1 = 0 }) ether_type;
      skb = skb;
      outstanding_pkts = 1;
      max_payload = u16 (dg_size + unfrag_hdr_size);
    }
    else record {
      hdr = make_ff_hdr ether_type dg_size datagram_label;
      skb = skb;
      outstanding_pkts = div_round_up dg_size part;
      max_payload = u16 (part + frag_hdr_size);
    }

-- The bytes from skb->data on once the header is pushed.
unfoldable pub push_header : Task → List ℕ
push_header t =
    if get_hdr_lf t.hdr == unfragmented
    then be32_bytes t.hdr.w0 ++ t.skb
    else be32_bytes t.hdr.w0 ++ (be32_bytes t.hdr.w1 ++ t.skb)

-- The payload of the request.
unfoldable pub sent_payload : Task → List ℕ
sent_payload t = take t.max_payload (push_header t)

-- Where one packet has been sent: the last; one after which there is a next; or BUG().
pub data Done : Type 0 where
  finished : Done
  resend : Task → Done
  bug : Done

unfoldable pub next_task : Task → ℕ → ℕ → Done
next_task t pkts fg_off =
    let rest = drop t.max_payload (push_header t) in
    let dg_size = u16 (get_hdr_dg_size t.hdr) in
    let label = get_hdr_dgl t.hdr in
    if ltb 1 pkts
    then resend (record {
      hdr = make_sf_hdr interior_fragment dg_size fg_off label;
      skb = rest;
      outstanding_pkts = pkts;
      max_payload = t.max_payload;
    })
    else resend (record {
      hdr = make_sf_hdr last_fragment dg_size fg_off label;
      skb = rest;
      outstanding_pkts = pkts;
      max_payload = u16 (length rest + frag_hdr_size);
    })

unfoldable pub transmit_packet_done : Task → Done
transmit_packet_done t =
    let pkts = t.outstanding_pkts - 1 in
    if pkts == 0
    then finished
    else if get_hdr_lf t.hdr == first_fragment
    then next_task t pkts (u16 (t.max_payload - frag_hdr_size))
    else if get_hdr_lf t.hdr == interior_fragment
    then next_task t pkts (u16 (get_hdr_fg_off t.hdr + t.max_payload - frag_hdr_size))
    else bug

-- The payloads of all packets, where each is acknowledged; none for BUG() or too little fuel.
unfoldable pub transmit : ℕ → Task → Option (List (List ℕ))
transmit zero t = none
transmit (suc fuel) t = elim (transmit_packet_done t) [
  | finished ↦ some (sent_payload t ∷ [])
  | resend t' ↦ elim (transmit fuel t') [ none ↦ none | some ps ↦ some (sent_payload t ∷ ps) ]
  | bug ↦ none
]
