-- ===== src/Net/Datagrams.antt =====
-- The partial datagrams of a peer, and a fragment that comes in: `fwnet_pd_new` to
-- `fwnet_pd_update` and the part of `fwnet_incoming_packet` that holds the device's lock, of
-- drivers/firewire/net.c.
pub mod Buffer
pub mod Peers
pub mod Receive
pub mod Untyped
pub mod Deliver
pub mod Assemble
use linux_firewire_dkms.Prelude.{
  ℕ, zero, suc, ◌+◌, ◌-◌, ◌%◌, ◌^◌, Bool, true, false, ◌&&◌, ◌||◌, Option, none, some, List, [],
  ◌∷◌, ◌++◌, length, replicate, ltb, leb, ◌==◌, ◌!=◌, if◌then◌else◌, u32,
}
use linux_firewire_dkms.Net.Fragments.{Fragment, frag_new, frag_overlap, is_complete, u16}

-- struct fwnet_partial_datagram. A byte of `pbuf`, and `ether_type`, is none until it is written:
-- the memory comes uninitialised.
pub record PartialDatagram : Type 0 where
  pub fi_list : List Fragment
  pub pbuf : List (Option ℕ)
  pub datagram_label : ℕ
  pub ether_type : Option ℕ
  pub datagram_size : ℕ

-- struct fwnet_peer, what receiving uses of it.
pub record Peer : Type 0 where
  pub pd_list : List PartialDatagram
  pub pdg_size : ℕ
  pub node_id : ℕ
  pub generation : ℕ

-- Which allocations of the call succeed.
pub record Memory : Type 0 where
  pub for_datagram : Bool
  pub for_fragment : Bool
  pub for_skb : Bool

-- The fragment at hand: the header's fields as `fwnet_incoming_packet` has read them, and the
-- bytes behind the header.
pub record Incoming : Type 0 where
  pub lf : ℕ
  pub datagram_label : ℕ
  pub ether_type : ℕ
  pub dg_size : ℕ
  pub fg_off : ℕ
  pub bytes : List ℕ

-- memcpy(pbuf + offset, bytes, length of bytes), for a range inside the buffer.
unfoldable pub memcpy : List (Option ℕ) → ℕ → List ℕ → List (Option ℕ)
memcpy [] offset bytes = []
memcpy (b ∷ pbuf) zero [] = b ∷ pbuf
memcpy (b ∷ pbuf) zero (c ∷ bytes) = some c ∷ memcpy pbuf zero bytes
memcpy (b ∷ pbuf) (suc offset) bytes = b ∷ memcpy pbuf offset bytes

unfoldable pub pd_new : Memory → Incoming → Option PartialDatagram
pd_new m f =
    if m.for_datagram
    then elim (frag_new m.for_fragment [] f.fg_off (length f.bytes)) [
      | none ↦ none
      | some fi_list ↦
          if m.for_skb
          then some (record {
            fi_list = fi_list;
            pbuf = memcpy (replicate f.dg_size none) f.fg_off f.bytes;
            datagram_label = f.datagram_label;
            ether_type = none;
            datagram_size = u16 f.dg_size;
          })
          else none
    ]
    else none

unfoldable pub pd_find : List PartialDatagram → ℕ → Option PartialDatagram
pd_find [] label = none
pd_find (pd ∷ rest) label = if pd.datagram_label == label then some pd else pd_find rest label

-- `fwnet_pd_delete`, and the first half of `list_move_tail`, for the entry that `pd_find` finds.
unfoldable pub unlink : List PartialDatagram → ℕ → List PartialDatagram
unlink [] label = []
unlink (pd ∷ rest) label = if pd.datagram_label == label then rest else pd ∷ unlink rest label

-- The entry after the call, or none where it returns false; it moves to the end of the list.
unfoldable pub pd_update : Memory → PartialDatagram → Incoming → Option PartialDatagram
pd_update m pd f = elim (frag_new m.for_fragment pd.fi_list f.fg_off (length f.bytes)) [
  | none ↦ none
  | some fi_list ↦ some (record {
    fi_list = fi_list;
    pbuf = memcpy pd.pbuf f.fg_off f.bytes;
    datagram_label = pd.datagram_label;
    ether_type = pd.ether_type;
    datagram_size = pd.datagram_size;
  })
]

abbrev pub max_fragments : ℕ
max_fragments = 30

abbrev pub first_fragment : ℕ
first_fragment = 1

unfoldable pub decrement : ℕ → ℕ
decrement n = u32 (n + (2 ^ 32 - 1))

-- What `retval` is, or the datagram that is passed on with the lock released; a fault is a first
-- entry taken of an empty list.
pub data Outcome : Type 0 where
  returned : (success : Bool) → Peer → Outcome
  delivered : PartialDatagram → Peer → Outcome
  fault : Outcome

abbrev pub with_datagrams : Peer → List PartialDatagram → ℕ → Peer
with_datagrams p pds n = record {
  pd_list = pds;
  pdg_size = n;
  node_id = p.node_id;
  generation = p.generation;
}

abbrev pub with_ether_type : Incoming → PartialDatagram → PartialDatagram
with_ether_type f pd = record {
  fi_list = pd.fi_list;
  pbuf = pd.pbuf;
  datagram_label = pd.datagram_label;
  ether_type = if f.lf == first_fragment then some f.ether_type else pd.ether_type;
  datagram_size = pd.datagram_size;
}

-- From "if (lf == RFC2374_HDR_FIRSTFRAG)" on, with `pd` at the end of the list behind `others`.
unfoldable pub conclude : Peer → Incoming → List PartialDatagram → ℕ → PartialDatagram → Outcome
conclude p f others n pd =
    if is_complete pd.fi_list pd.datagram_size
    then delivered (with_ether_type f pd) (with_datagrams p others (decrement n))
    else returned true (with_datagrams p (others ++ (with_ether_type f pd ∷ [])) n)

-- The loop that makes room: the list and the count after it, or none for a fault.
unfoldable pub make_room : List PartialDatagram → ℕ → Option (List PartialDatagram × ℕ)
make_room [] n = if leb max_fragments n then none else some ([], n)
make_room (pd ∷ rest) n =
    let rest_done = make_room rest (decrement n) in
    if leb max_fragments n then rest_done else some (pd ∷ rest, n)

unfoldable pub new_datagram : Memory → Peer → Incoming → Outcome
new_datagram m p f = elim (make_room p.pd_list p.pdg_size) [
  | none ↦ fault
  | some (pds, n) ↦ elim (pd_new m f) [
    | none ↦ returned false (with_datagrams p pds n)
    | some pd ↦ conclude p f pds (u32 (n + 1)) pd
  ]
]

unfoldable pub known_datagram : Memory → Peer → Incoming → PartialDatagram → Outcome
known_datagram m p f pd =
    let others = unlink p.pd_list f.datagram_label in
    if frag_overlap pd.fi_list f.fg_off (length f.bytes) || pd.datagram_size != f.dg_size
    then elim (pd_new m f) [
      | none ↦ returned false (with_datagrams p others (decrement p.pdg_size))
      | some new ↦ conclude p f others p.pdg_size new
    ]
    else elim (pd_update m pd f) [
      | none ↦ returned false (with_datagrams p others (decrement p.pdg_size))
      | some new ↦ conclude p f others p.pdg_size new
    ]

-- A fragment for a peer that has been found.
unfoldable pub incoming_fragment : Memory → Peer → Incoming → Outcome
incoming_fragment m p f = elim (pd_find p.pd_list f.datagram_label) [
  | none ↦ new_datagram m p f
  | some pd ↦ known_datagram m p f pd
]
