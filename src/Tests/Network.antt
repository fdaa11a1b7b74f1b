-- ===== src/Tests/Network.antt =====
-- Datagrams at concrete inputs.
use linux_firewire_dkms.Prelude.{
  ℕ, ◌+◌, ◌≡◌, ◌⊎◌, ◌↔◌, refl, arith, true, false, ◌&&◌, ◌||◌, none, some, List, [], ◌∷◌, map, leb,
  ltb, field_get,
}
use linux_firewire_dkms.Net.Fragments.{Fragment, frag_new, frag_overlap, hits, is_complete}
use linux_firewire_dkms.Net.Fragments.Coverage.{Fits}
use linux_firewire_dkms.Net.Fragments.Apart.{Disjoint}
use linux_firewire_dkms.Net.Fragments.Insert.{covers, IsFragments, frag_new_lem}
use linux_firewire_dkms.Net.Fragments.Order.{
  arrive, consecutive, out_of_order, arrive-is_complete, out_of_order_lem, sum,
}
use linux_firewire_dkms.Net.Datagrams.{
  PartialDatagram, Peer, Incoming, delivered, incoming_fragment, pd_find,
}
use linux_firewire_dkms.Net.Datagrams.Peers.{IsPeer, IsIncoming, Datagrams}
use linux_firewire_dkms.Net.Datagrams.Receive.{IsReceived, incoming_fragment-IsReceived}
use linux_firewire_dkms.Net.Datagrams.Untyped.{incoming_fragment_untyped}
use linux_firewire_dkms.Net.Datagrams.Deliver.{receive_all, ample}
use linux_firewire_dkms.Net.Incoming.{Device, Kernel, incoming_packet}
use linux_firewire_dkms.Net.Incoming.Whole.{Peers, IsFine, incoming_packet-IsFine}
use linux_firewire_dkms.Net.Header.{
  make_ff_hdr, make_sf_hdr, be32_bytes, get_hdr_lf, get_hdr_dg_size, get_hdr_fg_off, get_hdr_dgl,
}
use linux_firewire_dkms.Net.Transmit.{
  start_task, transmit, transmit_packet_done, sent_payload, push_header, next_task,
}
use linux_firewire_dkms.Net.Transmit.Roundtrip.{parse_all}
use linux_firewire_dkms.Net.Transmit.Whole.{transmit-delivered}

-- The first and the third of four parts of ten bytes.
abbrev two_parts : List Fragment
two_parts = record { offset = 0; len = 10 } ∷ record { offset = 20; len = 10 } ∷ []

two_parts-IsFragments : IsFragments 40 two_parts
unfolding IsFragments Fits Disjoint frag_overlap hits
two_parts-IsFragments =
    ((omega arith, omega arith, (omega arith, omega arith, tt)), (refl, (refl, tt)))

second_free : frag_overlap two_parts 10 10 ≡ false
unfolding frag_overlap hits
second_free = refl

frag_new_lem_example :
    ((gs : List Fragment) × (frag_new true two_parts 10 10 ≡ some gs)
      × IsFragments 40 gs
      × (covers gs 15 ≡ covers two_parts 15 || (leb 10 15 && ltb 15 (10 + 10))))
    ⊎ ((frag_new true two_parts 10 10 ≡ none) × (true ≡ false))
frag_new_lem_example =
    frag_new_lem true two_parts 40 10 10 15 (omega arith) two_parts-IsFragments (omega arith)
      (omega arith) second_free (omega arith)

arrive-is_complete_example :
    (gs : List Fragment) × (arrive [] (consecutive 0 (10 ∷ 20 ∷ 30 ∷ [])) ≡ some gs)
    × ((is_complete gs 60 ≡ true) ↔ (10 + sum (20 ∷ 30 ∷ []) ≡ 60))
unfolding sum
arrive-is_complete_example = arrive-is_complete 10 (20 ∷ 30 ∷ []) 60 (omega arith)

out_of_order_lem_example :
    (gs : List Fragment) × (arrive [] (out_of_order 8) ≡ some gs)
    × (covers gs 9 ≡ true)
    × (is_complete gs 32 ≡ false)
out_of_order_lem_example = out_of_order_lem 8 9 (omega arith) (omega arith) (omega arith)

abbrev new_peer : Peer
new_peer = record { pd_list = []; pdg_size = 0; node_id = 0xffc1; generation = 3 }

new_peer-IsPeer : IsPeer new_peer
unfolding IsPeer Datagrams
new_peer-IsPeer = (tt, refl, omega arith)

nothing_found : pd_find [] 9 ≡ none
unfolding pd_find
nothing_found = refl

-- All of a datagram, marked as its last fragment.
abbrev lone_last : Incoming
lone_last = record {
  lf = 2;
  datagram_label = 9;
  ether_type = 0;
  dg_size = 3;
  fg_off = 0;
  bytes = 7 ∷ 8 ∷ 9 ∷ [];
}

lone_last-IsIncoming : IsIncoming lone_last
unfolding IsIncoming
lone_last-IsIncoming = (omega arith, omega arith, omega arith)

incoming_fragment-IsReceived_example : IsReceived ample (incoming_fragment ample new_peer lone_last)
incoming_fragment-IsReceived_example =
    incoming_fragment-IsReceived ample new_peer lone_last new_peer-IsPeer lone_last-IsIncoming

incoming_fragment_untyped_example :
    (pd : PartialDatagram) × (q : Peer) × (incoming_fragment ample new_peer lone_last
      ≡ delivered pd q)
    × (pd.ether_type ≡ none)
incoming_fragment_untyped_example =
    incoming_fragment_untyped new_peer lone_last nothing_found (omega arith) (λ e. omega arith) refl
      refl (omega arith)

abbrev device : Device
device = record {
  peer_list = new_peer ∷ [];
  stats = record { rx_packets = 0; rx_bytes = 0; rx_errors = 0; rx_dropped = 0 };
}

abbrev kernel : Kernel
kernel = record { memory = ample; has_ipv6 = true; drops = false; stale = 0 }

device-Peers : Peers device.peer_list
unfolding Peers
device-Peers = (new_peer-IsPeer, tt)

-- A first fragment of three bytes, of a datagram of ten.
abbrev first_packet : List ℕ
first_packet = 0x40 ∷ 9 ∷ 8 ∷ 0 ∷ 0 ∷ 5 ∷ 0 ∷ 0 ∷ 1 ∷ 2 ∷ 3 ∷ []

incoming_packet-IsFine_example : IsFine (incoming_packet kernel device first_packet 11 0xffc1 3)
incoming_packet-IsFine_example =
    incoming_packet-IsFine kernel device first_packet 11 0xffc1 3 device-Peers (omega arith)

abbrev ten_bytes : List ℕ
ten_bytes = 1 ∷ 2 ∷ 3 ∷ 4 ∷ 5 ∷ 6 ∷ 7 ∷ 8 ∷ 9 ∷ 10 ∷ []

transmit-delivered_example :
    (ps : List (List ℕ)) × (pd : PartialDatagram) × (q : Peer) × (let t =
        start_task ten_bytes 8 0x0800 9 in
      transmit t.outstanding_pkts t ≡ some ps)
    × (receive_all ample new_peer (parse_all ps) ≡ ((pd ∷ []), q))
    × (pd.ether_type ≡ some 0x0800)
    × (pd.pbuf ≡ map some ten_bytes)
transmit-delivered_example =
    transmit-delivered new_peer ten_bytes 8 0x0800 9 new_peer-IsPeer nothing_found (omega arith)
      (omega arith) (omega arith) (omega arith) (omega arith)

-- The three packets of that datagram, each of a header and at most four bytes.
transmit_ten :
    transmit 3 (start_task ten_bytes 8 0x0800 9)
    ≡ some (
        (0x40 ∷ 9 ∷ 8 ∷ 0 ∷ 0 ∷ 9 ∷ 0 ∷ 0 ∷ 1 ∷ 2 ∷ 3 ∷ 4 ∷ [])
        ∷ (0xc0 ∷ 9 ∷ 0 ∷ 4 ∷ 0 ∷ 9 ∷ 0 ∷ 0 ∷ 5 ∷ 6 ∷ 7 ∷ 8 ∷ [])
        ∷ (0x80 ∷ 9 ∷ 0 ∷ 8 ∷ 0 ∷ 9 ∷ 0 ∷ 0 ∷ 9 ∷ 10 ∷ [])
        ∷ [])
unfolding transmit start_task transmit_packet_done sent_payload push_header next_task make_ff_hdr
    make_sf_hdr be32_bytes get_hdr_lf get_hdr_dg_size get_hdr_fg_off get_hdr_dgl field_get
transmit_ten = refl
