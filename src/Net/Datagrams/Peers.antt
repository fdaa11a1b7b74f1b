-- ===== src/Net/Datagrams/Peers.antt =====
-- What holds of a peer between two fragments, and of a datagram that is passed on.
use linux_firewire_dkms.Prelude.{
  ℕ, ◌+◌, ◌^◌, ◌≤◌, ◌<◌, ◌≡◌, ◌⊎◌, refl, sym, ◌∙◌, arith, Bool, true, false, ◌&&◌, Option, none,
  some, List, [], ◌∷◌, length, replicate, if◌then◌else◌, inl, inr, Bool-cases, length-replicate,
}
use linux_firewire_dkms.Net.Fragments.{Fragment, frag_new, frag_overlap, u16}
use linux_firewire_dkms.Net.Fragments.Insert.{covers, IsFragments, frag_new_lem, IsFragments-empty}
use linux_firewire_dkms.Net.Datagrams.{
  PartialDatagram, Peer, Memory, Incoming, memcpy, pd_new, pd_find, pd_update, max_fragments,
}
use linux_firewire_dkms.Net.Datagrams.Buffer.{
  Written, Written-memcpy, Written-replicate, length-memcpy, Adds,
}

-- The list of fragments is not empty, it is one of disjoint parts of the datagram, and the bytes
-- that it covers have been written to a buffer of the datagram's size.
unfoldable pub IsDatagram : PartialDatagram → Type 0
IsDatagram pd =
    (0 < length pd.fi_list)
    × IsFragments pd.datagram_size pd.fi_list
    × (pd.datagram_size ≡ length pd.pbuf)
    × (pd.datagram_size ≤ 4096)
    × Written pd.fi_list 0 pd.pbuf

-- Every entry is such a datagram, and no label stands twice.
unfoldable pub Datagrams : List PartialDatagram → Type 0
Datagrams [] = Unit
Datagrams (pd ∷ rest) = IsDatagram pd × (pd_find rest pd.datagram_label ≡ none) × Datagrams rest

unfoldable pub IsPeer : Peer → Type 0
IsPeer p = Datagrams p.pd_list × (p.pdg_size ≡ length p.pd_list) × (p.pdg_size ≤ max_fragments)

-- What `fwnet_incoming_packet` makes sure of before it looks for the peer: there are bytes, and
-- they lie in a datagram of the size that a header can announce.
unfoldable pub IsIncoming : Incoming → Type 0
IsIncoming f = (0 < length f.bytes) × (f.fg_off + length f.bytes ≤ f.dg_size) × (f.dg_size ≤ 4096)

unfoldable pub is_short : Memory → Bool
is_short m = if m.for_datagram && m.for_fragment && m.for_skb then false else true

abbrev NewFragment : Bool → List Fragment → ℕ → ℕ → ℕ → List Fragment → Type 0
NewFragment m fs size o l gs = IsFragments size gs × Adds fs gs o (o + l) size × (0 < length gs)

covers-nonempty : (fs : List Fragment) (i : ℕ) → covers fs i ≡ true → 0 < length fs
unfolding covers
covers-nonempty [] i e = absurd (ground arith)
covers-nonempty (f ∷ fs) i e = omega arith

module _ (m : Bool) (fs : List Fragment) (size o l : ℕ) (small : size < 2 ^ 16)
    (h : IsFragments size fs) (l_pos : 0 < l) (inside : o + l ≤ size)
    (free : frag_overlap fs o l ≡ false) where
  frag_new-Adds : (gs : List Fragment) → frag_new m fs o l ≡ some gs → Adds fs gs o (o + l) size
  frag_new-Adds gs e i i_in = elim (frag_new_lem m fs size o l i small h l_pos inside free i_in) [
    | inl (gs', e', ok, cover) ↦ ground (arith, cover)
    | inr (e', _) ↦ ground arith
  ]

  frag_new-cases :
      ((gs : List Fragment) × (frag_new m fs o l ≡ some gs) × NewFragment m fs size o l gs)
      ⊎ ((frag_new m fs o l ≡ none) × (m ≡ false))
  frag_new-cases = elim (frag_new_lem m fs size o l o small h l_pos inside free (omega arith)) [
    | inl (gs, e, ok, cover) ↦
        inl (gs, e, (ok, frag_new-Adds gs e, covers-nonempty gs o (ground arith)))
    | inr failed ↦ inr failed
  ]

overlap-empty : (o l : ℕ) → frag_overlap [] o l ≡ false
unfolding frag_overlap
overlap-empty o l = refl

-- The datagram that `pd_new` makes, and the one that `pd_update` makes of an old one.
abbrev with_bytes : PartialDatagram → Incoming → List Fragment → PartialDatagram
with_bytes pd f gs = record {
  fi_list = gs;
  pbuf = memcpy pd.pbuf f.fg_off f.bytes;
  datagram_label = pd.datagram_label;
  ether_type = pd.ether_type;
  datagram_size = pd.datagram_size;
}

abbrev empty_datagram : Incoming → PartialDatagram
empty_datagram f = record {
  fi_list = [];
  pbuf = replicate f.dg_size none;
  datagram_label = f.datagram_label;
  ether_type = none;
  datagram_size = u16 f.dg_size;
}

with_bytes-IsDatagram :
    (pd : PartialDatagram) (f : Incoming) (gs : List Fragment)
    → pd.datagram_size ≡ length pd.pbuf
    → pd.datagram_size ≤ 4096
    → Written pd.fi_list 0 pd.pbuf
    → (m : Bool) → NewFragment m pd.fi_list pd.datagram_size f.fg_off (length f.bytes) gs
    → IsDatagram (with_bytes pd f gs)
unfolding IsDatagram
with_bytes-IsDatagram pd f gs size_is small w m (ok, adds, nonempty) = (
  nonempty,
  ok,
  size_is ∙ sym (length-memcpy pd.pbuf f.fg_off f.bytes),
  small,
  Written-memcpy pd.fi_list gs f.fg_off (f.fg_off + length f.bytes) pd.datagram_size 0 pd.pbuf
      f.fg_off f.bytes adds (omega arith) (omega arith) (omega arith) w,
)

abbrev pub Made : Memory → Incoming → Option PartialDatagram → Type 0
Made m f o =
    ((pd : PartialDatagram) × (o ≡ some pd)
      × IsDatagram pd
      × (pd.datagram_label ≡ f.datagram_label))
    ⊎ ((o ≡ none) × (is_short m ≡ true))

pub pd_new-cases : (m : Memory) (f : Incoming) → IsIncoming f → Made m f (pd_new m f)
unfolding pd_new is_short IsIncoming
pd_new-cases m f h =
    let size_is : u16 f.dg_size ≡ f.dg_size = omega arith in
    elim (frag_new-cases m.for_fragment [] (u16 f.dg_size) f.fg_off (length f.bytes) (omega arith)
      (IsFragments-empty (u16 f.dg_size)) h.0 (omega arith)
      (overlap-empty f.fg_off (length f.bytes))) [
        | inl (gs, e, new) ↦
            let made : IsDatagram (with_bytes (empty_datagram f) f gs) =
              with_bytes-IsDatagram (empty_datagram f) f gs
                (size_is ∙ sym (length-replicate f.dg_size none)) (omega arith)
                (Written-replicate f.dg_size 0) m.for_fragment new in
            elim (Bool-cases m.for_datagram) [
              | inl a ↦ elim (Bool-cases m.for_skb) [
                | inl b ↦
                    inl (with_bytes (empty_datagram f) f gs, rw (pd_new, a, e, b) refl, made, refl)
                | inr b ↦ inr (rw (pd_new, a, e, b) refl, ground arith)
              ]
              | inr a ↦ inr (rw (pd_new, a) refl, ground arith)
            ]
        | inr (e, short) ↦ elim (Bool-cases m.for_datagram) [
          | inl a ↦ inr (rw (pd_new, a, e) refl, ground arith)
          | inr a ↦ inr (rw (pd_new, a) refl, ground arith)
        ]
      ]

pub pd_update-cases :
    (m : Memory) (pd : PartialDatagram) (f : Incoming)
    → IsIncoming f
    → IsDatagram pd
    → pd.datagram_label ≡ f.datagram_label
    → pd.datagram_size ≡ f.dg_size
    → frag_overlap pd.fi_list f.fg_off (length f.bytes) ≡ false
    → Made m f (pd_update m pd f)
unfolding pd_update is_short IsIncoming IsDatagram
pd_update-cases m pd f h d label size_is free =
    elim (frag_new-cases m.for_fragment pd.fi_list pd.datagram_size f.fg_off (length f.bytes)
      (omega arith) d.1 h.0 (omega arith) free) [
        | inl (gs, e, new) ↦ inl (
          with_bytes pd f gs,
          rw (pd_update, e) refl,
          with_bytes-IsDatagram pd f gs d.2 d.3 d.4 m.for_fragment new,
          label,
        )
        | inr (e, short) ↦ inr (rw (pd_update, e) refl, ground arith)
      ]
