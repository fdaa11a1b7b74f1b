-- ===== src/Net/Datagrams/Assemble.antt =====
-- From the first fragment of a datagram to the whole of it.
use linux_firewire_dkms.Prelude.{
  ℕ, ◌+◌, ◌≤◌, ◌<◌, ◌≡◌, refl, sym, ◌∙◌, ap, arith, true, false, none, some, List, [], ◌∷◌, ◌++◌,
  map, length, replicate, ◌==◌, u32, length-append,
}
use mathlib.Core.List.{append-nil, append_assoc}
use linux_firewire_dkms.Net.Fragments.{frag_new, frag_walk, placed, new_fragment, is_complete}
use linux_firewire_dkms.Net.Datagrams.{
  PartialDatagram, Peer, returned, incoming_fragment, new_datagram, pd_find, pd_new, make_room,
  conclude, with_datagrams, decrement,
}
use linux_firewire_dkms.Net.Datagrams.Peers.{IsPeer}
use linux_firewire_dkms.Net.Datagrams.Receive.{make_room-Datagrams}
use linux_firewire_dkms.Net.Datagrams.Deliver.{
  receive_all, concat, NonEmpty, later_pieces, first_piece, ample, partial, waiting, total, joined,
  later_delivered, memcpy_fresh,
}

joined-concat : (a : List ℕ) (cs : List (List ℕ)) → joined a cs ≡ a ++ concat cs
unfolding joined concat
joined-concat a [] = sym (append-nil a)
joined-concat a (c ∷ cs) = joined-concat (a ++ c) cs ∙ append_assoc a c (concat cs)

length-concat : (cs : List (List ℕ)) → length (concat cs) ≡ total cs
unfolding total concat
length-concat [] = refl
length-concat (c ∷ cs) = length-append c (concat cs) ∙ ap (λ n. length c + n) (length-concat cs)

module _ (label ether_type : ℕ) (c : List ℕ) (r : ℕ) (small : length c + r ≤ 4096)
    (some_bytes : 0 < length c) (more : 0 < r) where
  alone : frag_new true [] 0 (length c) ≡ some (record { offset = 0; len = length c } ∷ [])
  unfolding frag_new frag_walk placed new_fragment
  alone = ground arith

  made :
      pd_new ample (first_piece label (length c + r) ether_type c)
      ≡ some (record {
        fi_list = record { offset = 0; len = length c } ∷ [];
        pbuf = map some c ++ replicate r none;
        datagram_label = label;
        ether_type = none;
        datagram_size = length c + r;
      })
  unfolding pd_new
  made =
      rw (pd_new, alone, memcpy_fresh c r)
        (ap
          (λ n. some (record {
            fi_list = record { offset = 0; len = length c } ∷ [];
            pbuf = map some c ++ replicate r none;
            datagram_label = label;
            ether_type = none;
            datagram_size = n;
          }))
          (omega arith))

  first_step :
      (p : Peer) (others : List PartialDatagram) (n : ℕ)
      → pd_find p.pd_list label ≡ none
      → make_room p.pd_list p.pdg_size ≡ some (others, n)
      → incoming_fragment ample p (first_piece label (length c + r) ether_type c)
        ≡ returned true (waiting p (u32 (n + 1)) others (partial label ether_type c r))
  unfolding incoming_fragment new_datagram conclude is_complete
  first_step p others n gone room =
      let unfinished : length c == length c + r ≡ false = ground arith in
      rw (incoming_fragment, gone, new_datagram, room, made, conclude, unfinished) refl

-- A datagram of at most 4096 bytes is cut into two or more non-empty parts, and a fragment for each
-- of them reaches, in order and with memory for each, a peer that has nothing of the same label: one
-- datagram is delivered, with the EtherType of the first fragment and all of the bytes.
pub receive_all-delivered :
    (p : Peer) (label ether_type size : ℕ) (c d : List ℕ) (ds : List (List ℕ))
    → IsPeer p
    → pd_find p.pd_list label ≡ none
    → NonEmpty (c ∷ d ∷ ds)
    → length (concat (c ∷ d ∷ ds)) ≡ size
    → size ≤ 4096
    → (pd : PartialDatagram) × (q : Peer) × (receive_all ample p
          (first_piece label size ether_type c ∷ later_pieces label size (length c) (d ∷ ds))
        ≡ ((pd ∷ []), q))
      × (pd.ether_type ≡ some ether_type)
      × (pd.pbuf ≡ map some (concat (c ∷ d ∷ ds)))
unfolding receive_all IsPeer NonEmpty total joined concat
receive_all-delivered p label ether_type size c d ds ok gone nonempty size_is small =
    let (others, n, room, _, _, few, gone') =
      make_room-Datagrams p.pd_list p.pdg_size label ok.0 ok.1 ok.2 gone in
    let r = total (d ∷ ds) in
    let size_sum : size ≡ length c + r = sym size_is ∙ length-concat (c ∷ d ∷ ds) in
    let step =
      first_step label ether_type c r (omega arith) nonempty.0 (omega (arith, nonempty.1.0)) p
        others n gone room in
    let all =
      later_delivered label ether_type c d ds (omega arith) nonempty.1 p (u32 (n + 1)) others
        gone' in
    (
      partial label ether_type (joined c (d ∷ ds)) 0,
      with_datagrams p others (decrement (u32 (n + 1))),
      ap
            (λ s.
              receive_all ample p
                (first_piece label s ether_type c ∷ later_pieces label s (length c) (d ∷ ds)))
            size_sum
          ∙ rw (receive_all, step) all,
      refl,
      append-nil (map some (joined c (d ∷ ds))) ∙ ap (map some) (joined-concat c (d ∷ ds)),
    )
