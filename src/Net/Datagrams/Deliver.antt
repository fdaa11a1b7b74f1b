-- ===== src/Net/Datagrams/Deliver.antt =====
-- A datagram whose fragments arrive in order is put together again.
use linux_firewire_dkms.Prelude.{
  ℕ, suc, ◌+◌, ◌≤◌, ◌<◌, ◌≡◌, ◌≢◌, refl, sym, ◌∙◌, ap, ap₂, arith, true, false, Option, none, some,
  List, [], ◌∷◌, ◌++◌, map, length, replicate, ◌==◌, ◌!=◌, length-append,
}
use linux_firewire_dkms.Net.Fragments.{
  frag_new, frag_walk, frag_overlap, hits, placed, tack_on_end, after, is_complete,
}
use linux_firewire_dkms.Net.Datagrams.{
  PartialDatagram, Peer, Memory, Incoming, returned, delivered, fault, incoming_fragment,
  known_datagram, pd_find, unlink, pd_update, conclude, first_fragment, memcpy, with_datagrams,
  decrement,
}

-- What the fragments of a list deliver, one after the other, and the peer after them.
unfoldable pub receive_all : Memory → Peer → List Incoming → List PartialDatagram × Peer
receive_all m p [] = ([], p)
receive_all m p (f ∷ fs) = elim (incoming_fragment m p f) [
  | returned b q ↦ receive_all m q fs
  | delivered pd q ↦ let r = receive_all m q fs in (pd ∷ r.0, r.1)
  | fault ↦ ([], p)
]

unfoldable pub concat : List (List ℕ) → List ℕ
concat [] = []
concat (c ∷ cs) = c ++ concat cs

unfoldable pub NonEmpty : List (List ℕ) → Type 0
NonEmpty [] = Unit
NonEmpty (c ∷ cs) = (0 < length c) × NonEmpty cs

abbrev pub interior_fragment : ℕ
interior_fragment = 3

abbrev pub last_fragment : ℕ
last_fragment = 2

-- The type of a fragment with these behind it.
unfoldable pub lf_before : List (List ℕ) → ℕ
lf_before [] = last_fragment
lf_before (c ∷ cs) = interior_fragment

-- The fragments behind the first: the parts from byte `offset` on.
unfoldable pub later_pieces : ℕ → ℕ → ℕ → List (List ℕ) → List Incoming
later_pieces label size offset [] = []
later_pieces label size offset (c ∷ cs) =
    record {
      lf = lf_before cs;
      datagram_label = label;
      ether_type = 0;
      dg_size = size;
      fg_off = offset;
      bytes = c;
    }
    ∷ later_pieces label size (offset + length c) cs

abbrev pub first_piece : ℕ → ℕ → ℕ → List ℕ → Incoming
first_piece label size ether_type c = record {
  lf = first_fragment;
  datagram_label = label;
  ether_type = ether_type;
  dg_size = size;
  fg_off = 0;
  bytes = c;
}

abbrev pub ample : Memory
ample = record { for_datagram = true; for_fragment = true; for_skb = true }

memcpy_nothing : (xs : List (Option ℕ)) → memcpy xs 0 [] ≡ xs
unfolding memcpy
memcpy_nothing [] = refl
memcpy_nothing (x ∷ xs) = refl

pub memcpy_fresh :
    (b : List ℕ) (r : ℕ)
    → memcpy (replicate (length b + r) none) 0 b ≡ map some b ++ replicate r none
unfolding memcpy
memcpy_fresh [] r =
    memcpy_nothing (replicate (0 + r) none) ∙ ap (λ n. replicate n none) (omega arith)
memcpy_fresh (c ∷ b) r =
    let n : suc (length b) + r ≡ suc (length b + r) = omega arith in
    ap (λ n. memcpy (replicate n none) 0 (c ∷ b)) n ∙ ap (λ t. some c ∷ t) (memcpy_fresh b r)

memcpy_next :
    (a b : List ℕ) (r : ℕ)
    → memcpy (map some a ++ replicate (length b + r) none) (length a) b
      ≡ map some (a ++ b) ++ replicate r none
unfolding memcpy
memcpy_next [] b r = memcpy_fresh b r
memcpy_next (x ∷ a) b r = ap (λ t. some x ∷ t) (memcpy_next a b r)

-- The datagram of which the bytes `a` have arrived, and `r` have not.
abbrev pub partial : ℕ → ℕ → List ℕ → ℕ → PartialDatagram
partial label ether_type a r = record {
  fi_list = record { offset = 0; len = length a } ∷ [];
  pbuf = map some a ++ replicate r none;
  datagram_label = label;
  ether_type = some ether_type;
  datagram_size = length a + r;
}

pd_find_last :
    (others : List PartialDatagram) (pd : PartialDatagram)
    → pd_find others pd.datagram_label ≡ none
    → (pd_find (others ++ (pd ∷ [])) pd.datagram_label ≡ some pd)
      × (unlink (others ++ (pd ∷ [])) pd.datagram_label ≡ others)
unfolding pd_find unlink
pd_find_last [] pd e = ground arith
pd_find_last (o ∷ others) pd e = ground (arith, pd_find_last others pd)

-- A fragment `c` that follows the bytes `a`.
abbrev piece : ℕ → List ℕ → List ℕ → ℕ → ℕ → ℕ → Incoming
piece label a c lf type size = record {
  lf = lf;
  datagram_label = label;
  ether_type = type;
  dg_size = size;
  fg_off = length a;
  bytes = c;
}

module _ (label ether_type : ℕ) (a c : List ℕ) (r : ℕ) (small : length a + (length c + r) ≤ 4096)
    (some_bytes : 0 < length c) where
  tack_on :
      frag_new true (record { offset = 0; len = length a } ∷ []) (length a) (length c)
      ≡ some (record { offset = 0; len = length (a ++ c) } ∷ [])
  unfolding frag_new frag_walk placed tack_on_end after
  tack_on = ground (arith, length-append a c)

  free : frag_overlap (record { offset = 0; len = length a } ∷ []) (length a) (length c) ≡ false
  unfolding frag_overlap hits
  free = ground arith

  updated :
      (lf type size : ℕ)
      → pd_update ample (partial label ether_type a (length c + r)) (piece label a c lf type size)
        ≡ some (partial label ether_type (a ++ c) r)
  unfolding pd_update
  updated lf type size =
      rw (pd_update, tack_on, memcpy_next a c r)
        (ap
          (λ n. some (record {
            fi_list = record { offset = 0; len = length (a ++ c) } ∷ [];
            pbuf = map some (a ++ c) ++ replicate r none;
            datagram_label = label;
            ether_type = some ether_type;
            datagram_size = n;
          }))
          (omega (arith, length-append a c)))

  -- A fragment that follows: the datagram comes out of the list and, longer by the fragment, is
  -- passed on or goes back to the end of the list.
  next_piece :
      (p : Peer) (n : ℕ) (others : List PartialDatagram) (lf type : ℕ)
      → pd_find others label ≡ none
      → incoming_fragment ample
          (with_datagrams p (others ++ (partial label ether_type a (length c + r) ∷ [])) n)
          (piece label a c lf type (length a + (length c + r)))
        ≡ conclude p
            (piece label a c lf type (length a + (length c + r)))
            others
            n
            (partial label ether_type (a ++ c) r)
  unfolding incoming_fragment known_datagram conclude
  next_piece p n others lf type gone =
      let old = partial label ether_type a (length c + r) in
      let f = piece label a c lf type (length a + (length c + r)) in
      let q = with_datagrams p (others ++ (old ∷ [])) n in
      let found : pd_find (others ++ (old ∷ [])) label ≡ some old =
        (pd_find_last others old gone).0 in
      let unlinked : unlink (others ++ (old ∷ [])) label ≡ others =
        (pd_find_last others old gone).1 in
      let known : incoming_fragment ample q f ≡ known_datagram ample q f old =
        rw (incoming_fragment, found) refl in
      let size : old.datagram_size != length a + (length c + r) ≡ false = ground arith in
      known
      ∙ rw (known_datagram, free, size, updated lf type (length a + (length c + r)), unlinked) refl

-- One fragment in the middle: the datagram waits at the end of the list.
interior_step :
    (label ether_type : ℕ) (a c : List ℕ) (r : ℕ)
    → length a + (length c + r) ≤ 4096
    → 0 < length c
    → 0 < r
    → (p : Peer) (n : ℕ) (others : List PartialDatagram) (lf type : ℕ) → lf ≢ first_fragment
    → pd_find others label ≡ none
    → incoming_fragment ample
        (with_datagrams p (others ++ (partial label ether_type a (length c + r) ∷ [])) n)
        (piece label a c lf type (length a + (length c + r)))
      ≡ returned true (with_datagrams p (others ++ (partial label ether_type (a ++ c) r ∷ [])) n)
unfolding conclude is_complete
interior_step label ether_type a c r small some_bytes more p n others lf type ne gone =
    let f = piece label a c lf type (length a + (length c + r)) in
    let unfinished : length (a ++ c) == length (a ++ c) + r ≡ false = ground arith in
    let other : (lf == first_fragment) ≡ false = ground arith in
    next_piece label ether_type a c r small some_bytes p n others lf type gone
    ∙ rw (conclude, unfinished, other) refl

-- The last fragment: the datagram is passed on.
last_step :
    (label ether_type : ℕ) (a c : List ℕ)
    → length a + (length c + 0) ≤ 4096
    → 0 < length c
    → (p : Peer) (n : ℕ) (others : List PartialDatagram) (lf type : ℕ) → lf ≢ first_fragment
    → pd_find others label ≡ none
    → incoming_fragment ample
        (with_datagrams p (others ++ (partial label ether_type a (length c + 0) ∷ [])) n)
        (piece label a c lf type (length a + (length c + 0)))
      ≡ delivered (partial label ether_type (a ++ c) 0) (with_datagrams p others (decrement n))
unfolding conclude is_complete
last_step label ether_type a c small some_bytes p n others lf type ne gone =
    let finished : length (a ++ c) == length (a ++ c) + 0 ≡ true = ground arith in
    let other : (lf == first_fragment) ≡ false = ground arith in
    next_piece label ether_type a c 0 small some_bytes p n others lf type gone
    ∙ rw (conclude, finished, other) refl

unfoldable pub total : List (List ℕ) → ℕ
total [] = 0
total (c ∷ cs) = length c + total cs

unfoldable pub joined : List ℕ → List (List ℕ) → List ℕ
joined a [] = a
joined a (c ∷ cs) = joined (a ++ c) cs

abbrev pub waiting : Peer → ℕ → List PartialDatagram → PartialDatagram → Peer
waiting p n others pd = with_datagrams p (others ++ (pd ∷ [])) n

-- The fragments behind the first complete the datagram.
pub later_delivered :
    (label ether_type : ℕ) (a c : List ℕ) (cs : List (List ℕ))
    → length a + (length c + total cs) ≤ 4096
    → NonEmpty (c ∷ cs)
    → (p : Peer) (n : ℕ) (others : List PartialDatagram) → pd_find others label ≡ none
    → receive_all ample
        (waiting p n others (partial label ether_type a (length c + total cs)))
        (later_pieces label (length a + (length c + total cs)) (length a) (c ∷ cs))
      ≡ (
        (partial label ether_type (joined a (c ∷ cs)) 0 ∷ []),
        with_datagrams p others (decrement n),
      )
unfolding receive_all later_pieces NonEmpty total joined lf_before
later_delivered label ether_type a c [] small nonempty p n others gone =
    let step =
      last_step label ether_type a c small nonempty.0 p n others last_fragment 0 (λ e. ground arith)
        gone in
    rw (receive_all, step) refl
later_delivered label ether_type a c (d ∷ ds) small nonempty p n others gone =
    let step =
      interior_step label ether_type a c (total (d ∷ ds)) small nonempty.0
        (omega (arith, nonempty.1.0)) p n others interior_fragment 0 (λ e. ground arith) gone in
    let moved : length (a ++ c) ≡ length a + length c = length-append a c in
    let size : length a + (length c + total (d ∷ ds)) ≡ length (a ++ c) + total (d ∷ ds) =
      omega arith in
    let q = waiting p n others (partial label ether_type (a ++ c) (total (d ∷ ds))) in
    rw (receive_all, step)
      (ap₂ (λ s o. receive_all ample q (later_pieces label s o (d ∷ ds))) size (sym moved)
        ∙ later_delivered label ether_type (a ++ c) d ds (omega arith) nonempty.1 p n others gone)
