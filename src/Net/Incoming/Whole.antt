-- ===== src/Net/Incoming/Whole.antt =====
-- Whatever comes in, the peers stay as they should be and only whole datagrams go up.
use linux_firewire_dkms.Prelude.{
  ℕ, ◌-◌, ◌≤◌, ◌<◌, ◌≡◌, refl, arith, true, false, ◌&&◌, Option, none, some, List, [], ◌∷◌, map,
  length, drop, leb, ◌==◌, inl, inr, Bool-cases, Option-cases, length-drop, length-take_eq,
}
use mathlib.Core.Path.{subst}
use linux_firewire_dkms.Net.Datagrams.{Peer, Outcome, incoming_fragment, returned, delivered}
use linux_firewire_dkms.Net.Datagrams.Peers.{IsPeer, IsIncoming}
use linux_firewire_dkms.Net.Datagrams.Receive.{IsReceived, incoming_fragment-IsReceived}
use linux_firewire_dkms.Net.Header.{
  Header, Parsed, ignored, whole, fragment, parse, parse_fragment, be32_at,
}
use linux_firewire_dkms.Net.Header.Roundtrip.{get_hdr_dg_size_lem}
use linux_firewire_dkms.Net.Incoming.{
  Device, Skb, Kernel, Result, result, undefined, Found, finish_incoming_packet,
  peer_find_by_node_id, put_back, after_fragment, incoming_parsed, incoming_packet,
}

unfoldable pub Peers : List Peer → Type 0
Peers [] = Unit
Peers (p ∷ ps) = IsPeer p × Peers ps

unfoldable pub IsWritten : Option Skb → Type 0
IsWritten none = Unit
IsWritten (some skb) = (bytes : List ℕ) × (skb.bytes ≡ map some bytes)

unfoldable pub IsFine : Result → Type 0
IsFine (result retval d up) = Peers d.peer_list × IsWritten up
IsFine undefined = ⊥

unfoldable IsParsed : Parsed → Type 0
IsParsed ignored = Unit
IsParsed (whole t bytes) = Unit
IsParsed (fragment f) = IsIncoming f

parse_fragment-IsParsed :
    (h : Header) (buf : List ℕ) (len : ℕ)
    → len ≤ length buf
    → 8 < len
    → IsParsed (parse_fragment h buf len)
unfolding parse_fragment IsParsed IsIncoming
parse_fragment-IsParsed h buf len fits long = ground (
  arith,
  get_hdr_dg_size_lem h,
  length-take_eq (len - 8) (drop 8 buf) (omega (arith, length-drop 8 buf)),
)

parse-IsParsed : (buf : List ℕ) (len : ℕ) → len ≤ length buf → IsParsed (parse buf len)
unfolding parse IsParsed
parse-IsParsed buf len fits = elim (Bool-cases (leb len 8)) [
  | inl short ↦ ground arith
  | inr long ↦ ground (
    arith,
    parse_fragment-IsParsed (record { w0 = be32_at buf 0; w1 = be32_at buf 4 }) buf len fits
        (ground arith),
  )
]

finish_incoming_packet-IsFine :
    (k : Kernel) (d : Device) (skb : Skb)
    → Peers d.peer_list
    → IsWritten (some skb)
    → IsFine (finish_incoming_packet k d skb)
unfolding finish_incoming_packet IsFine IsWritten
finish_incoming_packet-IsFine k d skb h w = ground arith

abbrev Replaceable : Found → Type 0
Replaceable f = IsPeer f.peer × ((q : Peer) → IsPeer q → Peers (put_back f q))

-- The peer that is found is one of the list's, and the list is in order with another in its place.
Found-Peers :
    (ps : List Peer) (node_id generation : ℕ) (f : Found)
    → Peers ps
    → peer_find_by_node_id ps node_id generation ≡ some f
    → Replaceable f
unfolding Peers peer_find_by_node_id put_back
Found-Peers [] node_id generation f h e = absurd (ground arith)
Found-Peers (p ∷ rest) node_id generation f h e =
    elim (Bool-cases (p.node_id == node_id && p.generation == generation)) [
      | inl here ↦
          let same : record { before = []; peer = p; behind = rest } ≡ f = ground arith in
          subst Replaceable same (h.0, λ q ok. (ok, h.1))
      | inr there ↦ elim (Option-cases (peer_find_by_node_id rest node_id generation)) [
        | inl gone ↦ absurd (ground arith)
        | inr (g, e') ↦
            let (ok, back) = Found-Peers rest node_id generation g h.1 e' in
            let same : record { before = p ∷ g.before; peer = g.peer; behind = g.behind } ≡ f =
              ground arith in
            subst Replaceable same (ok, λ q q_ok. (h.0, back q q_ok))
      ]
    ]

after_fragment-IsFine :
    (k : Kernel) (d : Device) (f : Found) (o : Outcome)
    → Replaceable f
    → IsReceived k.memory o
    → IsFine (after_fragment k d f o)
unfolding after_fragment IsFine IsReceived IsWritten
after_fragment-IsFine k d f (returned true p) h r = (h.1 p r.0, tt)
after_fragment-IsFine k d f (returned false p) h r = (h.1 p r.0, tt)
after_fragment-IsFine k d f (delivered pd p) h r =
    finish_incoming_packet-IsFine k (record { peer_list = put_back f p; stats = d.stats })
      (record { ether_type = pd.ether_type; bytes = pd.pbuf }) (h.1 p r.0) r.1
after_fragment-IsFine k d f Outcome.fault h r = r

incoming_parsed-IsFine :
    (k : Kernel) (d : Device) (packet : Parsed) (source generation : ℕ)
    → Peers d.peer_list
    → IsParsed packet
    → IsFine (incoming_parsed k d packet source generation)
unfolding incoming_parsed IsFine IsWritten IsParsed finish_incoming_packet
incoming_parsed-IsFine k d ignored source generation h i = (h, tt)
incoming_parsed-IsFine k d (whole t bytes) source generation h i =
    elim (Bool-cases k.memory.for_skb) [
      | inl room ↦
          rw (incoming_parsed, room)
            (finish_incoming_packet-IsFine k d
              (record { ether_type = some t; bytes = map some bytes }) h (bytes, refl))
      | inr out ↦ rw (incoming_parsed, out) (h, tt)
    ]
incoming_parsed-IsFine k d (fragment f) source generation h i =
    elim (Option-cases (peer_find_by_node_id d.peer_list source generation)) [
      | inl gone ↦ rw (incoming_parsed, gone) (h, tt)
      | inr (found, e) ↦
          let ok = Found-Peers d.peer_list source generation found h e in
          rw (incoming_parsed, e)
            (after_fragment-IsFine k d found (incoming_fragment k.memory found.peer f) ok
              (incoming_fragment-IsReceived k.memory found.peer f ok.0 i))
    ]

-- Whatever bytes a packet holds, and whichever allocations fail: the partial datagrams of every
-- peer stay disjoint parts in buffers of the right size, counted, at most 30 and with distinct
-- labels; no entry is taken of an empty list; and each byte of a datagram that goes up is one that
-- was written.
pub incoming_packet-IsFine :
    (k : Kernel) (d : Device) (buf : List ℕ) (len source_node_id generation : ℕ)
    → Peers d.peer_list
    → len ≤ length buf
    → IsFine (incoming_packet k d buf len source_node_id generation)
unfolding incoming_packet
incoming_packet-IsFine k d buf len source generation h fits =
    incoming_parsed-IsFine k d (parse buf len) source generation h (parse-IsParsed buf len fits)
