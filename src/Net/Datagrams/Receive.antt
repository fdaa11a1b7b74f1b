-- ===== src/Net/Datagrams/Receive.antt =====
-- A fragment that comes in keeps the peer's invariant, and a datagram that is passed on is whole.
use linux_firewire_dkms.Prelude.{
  ℕ, suc, ◌+◌, ◌≤◌, ◌<◌, ◌≡◌, ◌≢◌, ◌⊎◌, refl, sym, ◌∙◌, ap, arith, true, ◌||◌, none, some, List, [],
  ◌∷◌, ◌++◌, map, length, leb, ◌==◌, ◌!=◌, inl, inr, Bool-cases, Option-cases, length-append, u32,
}
use mathlib.Core.Path.{subst}
use linux_firewire_dkms.Net.Fragments.{frag_overlap, is_complete}
use linux_firewire_dkms.Net.Fragments.Insert.{is_complete-covers}
use linux_firewire_dkms.Net.Datagrams.{
  PartialDatagram, Peer, Memory, Incoming, Outcome, pd_find, unlink, decrement, make_room, conclude,
  new_datagram, known_datagram, incoming_fragment, returned, delivered, fault, with_ether_type,
  max_fragments,
}
use linux_firewire_dkms.Net.Datagrams.Buffer.{Written-all}
use linux_firewire_dkms.Net.Datagrams.Peers.{
  IsDatagram, Datagrams, IsPeer, IsIncoming, is_short, pd_new-cases, pd_update-cases,
}

-- The outcome is no fault; the call fails only where an allocation does; the peer that it leaves is
-- as it should be, and every byte of a datagram that is passed on has been written.
unfoldable pub IsReceived : Memory → Outcome → Type 0
IsReceived m (returned success q) = IsPeer q × ((success ≡ true) ⊎ (is_short m ≡ true))
IsReceived m (delivered pd q) =
    IsPeer q × ((bytes : List ℕ) × (pd.pbuf ≡ map some bytes)) × (length pd.pbuf ≡ pd.datagram_size)
IsReceived m fault = ⊥

find-Datagrams :
    (pds : List PartialDatagram) (l : ℕ) {pd : PartialDatagram}
    → Datagrams pds
    → pd_find pds l ≡ some pd
    → IsDatagram pd × (pd.datagram_label ≡ l)
unfolding pd_find Datagrams
find-Datagrams [] l h e = absurd (ground arith)
find-Datagrams (p ∷ rest) l {pd} h e = elim (Bool-cases (p.datagram_label == l)) [
  | inl here ↦ subst (λ x. IsDatagram x × (x.datagram_label ≡ l)) (ground arith) (h.0, ground arith)
  | inr there ↦ find-Datagrams rest l h.2 (ground arith)
]

find-unlink :
    (pds : List PartialDatagram) (l k : ℕ) → pd_find pds k ≡ none → pd_find (unlink pds l) k ≡ none
unfolding pd_find unlink
find-unlink [] l k e = refl
find-unlink (p ∷ rest) l k e = ground (arith, find-unlink rest l k)

unlink-Datagrams : (pds : List PartialDatagram) (l : ℕ) → Datagrams pds → Datagrams (unlink pds l)
unfolding unlink Datagrams
unlink-Datagrams [] l h = tt
unlink-Datagrams (p ∷ rest) l h =
    ground (arith, unlink-Datagrams rest l h.2, find-unlink rest l p.datagram_label h.1)

unlink_gone :
    (pds : List PartialDatagram) (l : ℕ) {pd : PartialDatagram}
    → Datagrams pds
    → pd_find pds l ≡ some pd
    → (pd_find (unlink pds l) l ≡ none) × (length pds ≡ suc (length (unlink pds l)))
unfolding unlink Datagrams pd_find
unlink_gone [] l h e = absurd (ground arith)
unlink_gone (p ∷ rest) l {pd} h e = elim (Bool-cases (p.datagram_label == l)) [
  | inl here ↦
      let same : p.datagram_label ≡ l = ground arith in ground (arith, ap (pd_find rest) same)
  | inr there ↦ let (gone, len) = unlink_gone rest l {pd = pd} h.2 (ground arith) in ground arith
]

find-append :
    (pds : List PartialDatagram) (pd : PartialDatagram) (k : ℕ)
    → pd_find pds k ≡ none
    → pd.datagram_label ≢ k
    → pd_find (pds ++ (pd ∷ [])) k ≡ none
unfolding pd_find
find-append [] pd k e ne = ground arith
find-append (p ∷ rest) pd k e ne = ground (arith, find-append rest pd k)

append-Datagrams :
    (pds : List PartialDatagram) (pd : PartialDatagram)
    → Datagrams pds
    → IsDatagram pd
    → pd_find pds pd.datagram_label ≡ none
    → Datagrams (pds ++ (pd ∷ []))
unfolding pd_find Datagrams
append-Datagrams [] pd h d e = (d, refl, tt)
append-Datagrams (p ∷ rest) pd h d e = (
  h.0,
  find-append rest pd p.datagram_label h.1 (λ same. ground arith),
  append-Datagrams rest pd h.2 d (ground arith),
)

-- The loop that makes room ends with room, and with the newest of the datagrams.
pub make_room-Datagrams :
    (pds : List PartialDatagram) (n l : ℕ)
    → Datagrams pds
    → n ≡ length pds
    → n ≤ max_fragments
    → pd_find pds l ≡ none
    → (qs : List PartialDatagram) × (k : ℕ) × (make_room pds n ≡ some (qs, k))
      × Datagrams qs
      × (k ≡ length qs)
      × (k < max_fragments)
      × (pd_find qs l ≡ none)
unfolding make_room decrement Datagrams pd_find
make_room-Datagrams [] n l h count few e = ([], n, ground arith, tt, count, omega arith, refl)
make_room-Datagrams (p ∷ rest) n l h count few e = elim (Bool-cases (leb max_fragments n)) [
  | inr room ↦ (p ∷ rest, n, rw (make_room, room) refl, h, count, ground arith, e)
  | inl full ↦
      let (qs, k, made, h', count', few', e') =
        make_room-Datagrams rest (decrement n) l h.2 (omega arith) (omega arith) (ground arith) in
      (qs, k, rw (make_room, full) made, h', count', few', e')
]

conclude-IsReceived :
    (m : Memory) (p : Peer) (f : Incoming) (others : List PartialDatagram) (n : ℕ)
    (pd : PartialDatagram)
    → Datagrams others
    → n ≡ suc (length others)
    → n ≤ max_fragments
    → IsDatagram pd
    → pd_find others pd.datagram_label ≡ none
    → IsReceived m (conclude p f others n pd)
unfolding conclude IsReceived IsPeer decrement IsDatagram
conclude-IsReceived m p f others n pd h count few d e =
    let new = with_ether_type f pd in
    elim (Bool-cases (is_complete pd.fi_list pd.datagram_size)) [
      | inl whole ↦
          rw (conclude, whole)
            (
              (h, omega arith, omega arith),
              Written-all pd.fi_list pd.datagram_size 0 pd.pbuf
                  (λ i. is_complete-covers pd.fi_list pd.datagram_size i d.1 whole)
                  (omega (arith, d.2)) d.4,
              sym d.2,
            )
      | inr partial ↦
          rw (conclude, partial)
            (
              (
                append-Datagrams others new h d e,
                count ∙ sym (length-append others (new ∷ []) ∙ omega arith),
                few,
              ),
              inl refl,
            )
    ]

new_datagram-IsReceived :
    (m : Memory) (p : Peer) (f : Incoming)
    → IsPeer p
    → IsIncoming f
    → pd_find p.pd_list f.datagram_label ≡ none
    → IsReceived m (new_datagram m p f)
unfolding new_datagram IsReceived IsPeer
new_datagram-IsReceived m p f h i e =
    let (pds, n, made, ok, count, room, gone) =
      make_room-Datagrams p.pd_list p.pdg_size f.datagram_label h.0 h.1 h.2 e in
    elim (pd_new-cases m f i) [
      | inl (pd, built, d, label) ↦
          rw (new_datagram, made, built)
            (conclude-IsReceived m p f pds (u32 (n + 1)) pd ok (omega arith) (omega arith) d
              (ap (pd_find pds) label ∙ gone))
      | inr (failed, short) ↦ rw (new_datagram, made, failed) ((ok, count, omega arith), inr short)
    ]

known_datagram-IsReceived :
    (m : Memory) (p : Peer) (f : Incoming) (pd : PartialDatagram)
    → IsPeer p
    → IsIncoming f
    → pd_find p.pd_list f.datagram_label ≡ some pd
    → IsReceived m (known_datagram m p f pd)
unfolding known_datagram IsReceived IsPeer decrement
known_datagram-IsReceived m p f pd h i e =
    let others = unlink p.pd_list f.datagram_label in
    let ok : Datagrams others = unlink-Datagrams p.pd_list f.datagram_label h.0 in
    let (gone, len) = unlink_gone p.pd_list f.datagram_label {pd = pd} h.0 e in
    let (d, label) = find-Datagrams p.pd_list f.datagram_label {pd = pd} h.0 e in
    let clash = frag_overlap pd.fi_list f.fg_off (length f.bytes) in
    elim (Bool-cases (clash || pd.datagram_size != f.dg_size)) [
      | inl discard ↦ elim (pd_new-cases m f i) [
        | inl (new, built, d', label') ↦
            rw (known_datagram, discard, built)
              (conclude-IsReceived m p f others p.pdg_size new ok (h.1 ∙ len) h.2 d'
                (ap (pd_find others) label' ∙ gone))
        | inr (failed, short) ↦
            rw (known_datagram, discard, failed) ((ok, omega arith, omega arith), inr short)
      ]
      | inr keep ↦ elim (pd_update-cases m pd f i d label (ground arith) (ground arith)) [
        | inl (new, built, d', label') ↦
            rw (known_datagram, keep, built)
              (conclude-IsReceived m p f others p.pdg_size new ok (h.1 ∙ len) h.2 d'
                (ap (pd_find others) label' ∙ gone))
        | inr (failed, short) ↦
            rw (known_datagram, keep, failed) ((ok, omega arith, omega arith), inr short)
      ]
    ]

-- A fragment that lies in a datagram of at most 4096 bytes, for a peer whose partial datagrams are
-- disjoint parts in buffers of the right size, counted, at most 30 and with distinct labels. The
-- peer stays so; the call takes no entry from an empty list; it fails only where an allocation
-- does; and a datagram that it passes on has had every byte of its buffer written.
pub incoming_fragment-IsReceived :
    (m : Memory) (p : Peer) (f : Incoming)
    → IsPeer p
    → IsIncoming f
    → IsReceived m (incoming_fragment m p f)
unfolding incoming_fragment
incoming_fragment-IsReceived m p f h i = elim (Option-cases (pd_find p.pd_list f.datagram_label)) [
  | inl e ↦ rw (incoming_fragment, e) (new_datagram-IsReceived m p f h i e)
  | inr (pd, e) ↦ rw (incoming_fragment, e) (known_datagram-IsReceived m p f pd h i e)
]
