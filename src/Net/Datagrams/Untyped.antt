-- ===== src/Net/Datagrams/Untyped.antt =====
-- A datagram that no first fragment is part of.
use linux_firewire_dkms.Prelude.{
  ℕ, ◌+◌, ◌≤◌, ◌<◌, ◌≡◌, ◌≢◌, refl, arith, true, false, none, some, List, [], ◌∷◌, length,
  replicate, ◌==◌, u32,
}
use linux_firewire_dkms.Net.Fragments.{frag_new, frag_walk, placed, new_fragment, is_complete, u16}
use linux_firewire_dkms.Net.Datagrams.{
  PartialDatagram, Peer, Memory, Incoming, delivered, incoming_fragment, new_datagram, pd_find,
  pd_new, make_room, conclude, max_fragments, first_fragment, memcpy, with_ether_type,
  with_datagrams, decrement,
}

abbrev ample : Memory
ample = record { for_datagram = true; for_fragment = true; for_skb = true }

make_room_enough :
    (pds : List PartialDatagram) (n : ℕ) → n < max_fragments → make_room pds n ≡ some (pds, n)
unfolding make_room
make_room_enough [] n few = ground arith
make_room_enough (pd ∷ pds) n few = ground arith

-- A fragment that is not marked as a first one, but begins at byte 0 and is as long as the whole
-- datagram, for a label of which nothing has arrived: the datagram is passed on, and its EtherType
-- has never been written.
pub incoming_fragment_untyped :
    (p : Peer) (f : Incoming)
    → pd_find p.pd_list f.datagram_label ≡ none
    → p.pdg_size < max_fragments
    → f.lf ≢ first_fragment
    → f.fg_off ≡ 0
    → length f.bytes ≡ f.dg_size
    → f.dg_size ≤ 4096
    → (pd : PartialDatagram) × (q : Peer) × (incoming_fragment ample p f ≡ delivered pd q)
      × (pd.ether_type ≡ none)
unfolding incoming_fragment new_datagram pd_new conclude frag_new frag_walk placed new_fragment
    is_complete
incoming_fragment_untyped p f gone few lf off len fits =
    let fi = new_fragment f.fg_off (length f.bytes) in
    let pd : PartialDatagram = record {
      fi_list = fi ∷ [];
      pbuf = memcpy (replicate f.dg_size none) f.fg_off f.bytes;
      datagram_label = f.datagram_label;
      ether_type = none;
      datagram_size = u16 f.dg_size;
    } in
    let whole : u16 (length f.bytes) == u16 f.dg_size ≡ true = ground arith in
    let other : (f.lf == first_fragment) ≡ false = ground arith in
    (
      with_ether_type f pd,
      with_datagrams p p.pd_list (decrement (u32 (p.pdg_size + 1))),
      rw (incoming_fragment, gone, new_datagram, make_room_enough p.pd_list p.pdg_size few, whole)
          refl,
      rw other refl,
    )
