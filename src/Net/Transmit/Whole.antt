-- ===== src/Net/Transmit/Whole.antt =====
-- A datagram, from one end to the other.
use linux_firewire_dkms.Prelude.{
  ℕ, zero, suc, ◌+◌, ◌-◌, ◌*◌, ◌%◌, ◌^◌, ◌≤◌, ◌<◌, ◌≡◌, refl, sym, ◌∙◌, ap, arith, true, false,
  none, some, List, [], ◌∷◌, ◌++◌, map, length, take, drop, leb, ◌==◌, length-drop,
  take-append-drop, length-take_eq,
}
use mathlib.Core.List.{append-nil}
use mathlib.Core.Path.{subst}
use native.Mathlib.Nat.{mod-lt, div-add-mod'}
use linux_firewire_dkms.Net.Fragments.{u16}
use linux_firewire_dkms.Net.Datagrams.{PartialDatagram, Peer, first_fragment, pd_find}
use linux_firewire_dkms.Net.Datagrams.Peers.{IsPeer}
use linux_firewire_dkms.Net.Datagrams.Deliver.{
  first_piece, later_pieces, concat, NonEmpty, receive_all, ample,
}
use linux_firewire_dkms.Net.Datagrams.Assemble.{receive_all-delivered}
use linux_firewire_dkms.Net.Header.{make_ff_hdr, get_hdr_lf, get_hdr_dg_size, get_hdr_dgl}
use linux_firewire_dkms.Net.Header.Roundtrip.{get-make_hdr}
use linux_firewire_dkms.Net.Header.Packet.{packet, parse-ff}
use linux_firewire_dkms.Net.Transmit.{
  Task, resend, start_task, sent_payload, transmit_packet_done, transmit, div_round_up,
}
use linux_firewire_dkms.Net.Transmit.Roundtrip.{
  parse_all, parse_all-step, chunks, take-packet, push-packet, later_task, next_task_later,
  later_transmit,
}

-- Rounding up: the number of parts is enough, and no part is empty.
round_up : (n d q : ℕ) → 0 < d → div_round_up n d ≡ q → (n ≤ q * d) × (q * d < n + d)
round_up n d q pos e =
    let m = n + (d - 1) in
    let split : q * d + m % d ≡ m = ap (λ t. t * d + m % d) (sym e) ∙ div-add-mod' m d in
    (omega (arith, mod-lt m pos), omega (arith, mod-lt m pos))

parts :
    (n d : ℕ)
    → 0 < d
    → d < n
    → (k : ℕ) × (div_round_up n d ≡ suc (suc k)) × (suc k * d < n) × (n ≤ suc (suc k) * d)
parts n d pos more = go (div_round_up n d) refl
  where
    go :
        (q : ℕ)
        → div_round_up n d ≡ q
        → (k : ℕ) × (div_round_up n d ≡ suc (suc k)) × (suc k * d < n) × (n ≤ suc (suc k) * d)
    go zero e = absurd (omega (arith, round_up n d zero pos e))
    go (suc zero) e = absurd (omega (arith, round_up n d 1 pos e))
    go (suc (suc k)) e = (
      k,
      e,
      omega (arith, round_up n d (suc (suc k)) pos e),
      omega (arith, round_up n d (suc (suc k)) pos e),
    )

concat-chunks : (part k : ℕ) (b : List ℕ) → concat (chunks part k b) ≡ b
unfolding concat chunks
concat-chunks part zero b = append-nil b
concat-chunks part (suc k) b =
    ap (λ t. take part b ++ t) (concat-chunks part k (drop part b)) ∙ take-append-drop part b

chunks-NonEmpty :
    (part k : ℕ) (b : List ℕ) → 0 < part → k * part < length b → NonEmpty (chunks part k b)
unfolding NonEmpty chunks
chunks-NonEmpty part zero b pos more = (omega arith, tt)
chunks-NonEmpty part (suc k) b pos more =
    let more' : part + k * part < length b = omega arith in
    (
      omega (arith, length-take_eq part b (omega arith)),
      chunks-NonEmpty part k (drop part b) pos (omega (arith, length-drop part b)),
    )

chunks-cons :
    (part k : ℕ) (b : List ℕ) → (d : List ℕ) × (ds : List (List ℕ)) × (chunks part k b ≡ d ∷ ds)
unfolding chunks
chunks-cons part zero b = (b, [], refl)
chunks-cons part (suc k) b = (take part b, chunks part k (drop part b), refl)

-- The task that the first packet of `k` and two more is sent for.
abbrev first_task : List ℕ → ℕ → ℕ → ℕ → ℕ → Task
first_task skb part k ether_type label = record {
  hdr = make_ff_hdr ether_type (length skb) label;
  skb = skb;
  outstanding_pkts = suc (suc k);
  max_payload = part + 8;
}

module _ (skb : List ℕ) (part k ether_type label : ℕ) (pos : 0 < part)
    (low : part + k * part < length skb) (high : length skb ≤ part + suc k * part)
    (small : length skb ≤ 4096) (et : ether_type < 2 ^ 16) (lb : label < 2 ^ 16) where
  ff_fields :
      let h = make_ff_hdr ether_type (length skb) label in
      (get_hdr_lf h ≡ first_fragment) × (get_hdr_dg_size h ≡ length skb) × (get_hdr_dgl h ≡ label)
  ff_fields =
      let f =
        (get-make_hdr ether_type 0 (length skb) 0 label et (omega arith) (omega arith) small
          (omega arith) lb).0 in
      (f.0, f.2, f.3)

  first_done :
      transmit_packet_done (first_task skb part k ether_type label)
      ≡ resend (later_task label (length skb) part k part (drop part skb))
  unfolding transmit_packet_done
  first_done =
      let t = first_task skb part k ether_type label in
      let off : u16 (part + 8 - 8) ≡ part = omega arith in
      let pkts : suc (suc k) - 1 ≡ suc k = omega arith in
      let some_left : suc k == 0 ≡ false = ground arith in
      let first : get_hdr_lf t.hdr == first_fragment ≡ true = ground (arith, ff_fields) in
      let next =
        next_task_later label (length skb) part k part t (λ z. ground (arith, ff_fields))
          ff_fields.1 ff_fields.2 refl (omega arith) small in
      rw (transmit_packet_done, pkts, some_left, first, off) next

  first_sent :
      sent_payload (first_task skb part k ether_type label)
      ≡ packet (make_ff_hdr ether_type (length skb) label) (take part skb)
  unfolding sent_payload
  first_sent =
      let t = first_task skb part k ether_type label in
      ap (take (part + 8)) (push-packet t (λ z. ground (arith, ff_fields)))
      ∙ take-packet t.hdr part skb

  -- All packets are sent, and are read as the fragments of the datagram's parts.
  all_sent :
      (ps : List (List ℕ)) × (transmit (suc (suc k)) (first_task skb part k ether_type label)
        ≡ some ps)
      × (parse_all ps
          ≡ first_piece label (length skb) ether_type (take part skb)
            ∷ later_pieces label
                (length skb)
                (length (take part skb))
                (chunks part k (drop part skb)))
  unfolding transmit
  all_sent =
      let h = make_ff_hdr ether_type (length skb) label in
      let len = length-drop part skb in
      let len' : length (take part skb) ≡ part = length-take_eq part skb (omega arith) in
      let (ps, e, r) =
        later_transmit label (length skb) part lb small pos k part (drop part skb) (omega arith)
          (omega arith) (omega arith) in
      let f = first_piece label (length skb) ether_type (take part skb) in
      (
        packet h (take part skb) ∷ ps,
        rw (transmit, first_done, e) (ap (λ q. some (q ∷ ps)) first_sent),
        parse_all-step (packet h (take part skb)) ps f (
              parse-ff ether_type (length skb) 0 label 0 (take part skb) et (omega arith) small lb
                (omega arith) (omega arith))
            ∙ ap (λ q. f ∷ q) r
            ∙ ap (λ o. f ∷ later_pieces label (length skb) o (chunks part k (drop part skb)))
                (sym len'),
      )

started :
    (skb : List ℕ) (payload ether_type label k : ℕ)
    → 4 < payload
    → payload < length skb
    → length skb ≤ 4096
    → div_round_up (length skb) (payload - 4) ≡ suc (suc k)
    → start_task skb payload ether_type label ≡ first_task skb (payload - 4) k ether_type label
unfolding start_task
started skb payload ether_type label k big more small q_is =
    let word : u16 (length skb) ≡ length skb = omega arith in
    let many : leb (length skb) payload ≡ false = ground arith in
    let wide : u16 (payload - 4 + 8) ≡ payload - 4 + 8 = omega arith in
    rw (start_task, word, many, q_is, wide) refl

-- A datagram of at most 4096 bytes that does not fit in one packet for the peer, whose limit is
-- above four bytes, is sent in fragments, each acknowledged, and they reach, in order and with
-- memory for each, a node that has nothing of the same label from the sender. No packet is left
-- over or missing: one datagram is delivered there, with the EtherType and all of the bytes.
pub transmit-delivered :
    (p : Peer) (skb : List ℕ) (payload ether_type label : ℕ)
    → IsPeer p
    → pd_find p.pd_list label ≡ none
    → 4 < payload
    → payload < length skb
    → length skb ≤ 4096
    → ether_type < 2 ^ 16
    → label < 2 ^ 16
    → (ps : List (List ℕ)) × (pd : PartialDatagram) × (q : Peer) × (let t =
          start_task skb payload ether_type label in
        transmit t.outstanding_pkts t ≡ some ps)
      × (receive_all ample p (parse_all ps) ≡ ((pd ∷ []), q))
      × (pd.ether_type ≡ some ether_type)
      × (pd.pbuf ≡ map some skb)
unfolding start_task NonEmpty concat
transmit-delivered p skb payload ether_type label ok gone big more small et lb =
    let part = payload - 4 in
    let (k, q_is, low, high) = parts (length skb) part (omega arith) (omega arith) in
    let (ps, e, r) =
      all_sent skb part k ether_type label (omega arith) (omega arith) (omega arith) small et lb in
    let b = drop part skb in
    let (d, ds, c_is) = chunks-cons part k b in
    let len = length-drop part skb in
    let nonempty : NonEmpty (take part skb ∷ chunks part k b) = (
      omega (arith, length-take_eq part skb (omega arith)),
      chunks-NonEmpty part k b (omega arith) (omega arith),
    ) in
    let whole : concat (take part skb ∷ chunks part k b) ≡ skb =
      ap (λ t. take part skb ++ t) (concat-chunks part k b) ∙ take-append-drop part skb in
    let whole' : concat (take part skb ∷ d ∷ ds) ≡ skb =
      ap (λ t. concat (take part skb ∷ t)) (sym c_is) ∙ whole in
    let (pd, q, got, type, bytes) =
      receive_all-delivered p label ether_type (length skb) (take part skb) d ds ok gone
        (subst (λ t. NonEmpty (take part skb ∷ t)) c_is nonempty) (ap length whole') small in
    let f = first_piece label (length skb) ether_type (take part skb) in
    (
      ps,
      pd,
      q,
      subst (λ t. transmit t.outstanding_pkts t ≡ some ps)
          (sym (started skb payload ether_type label k (omega arith) more small q_is)) e,
      ap (receive_all ample p)
            (r ∙ ap (λ t. f ∷ later_pieces label (length skb) (length (take part skb)) t) c_is)
          ∙ got,
      type,
      bytes ∙ ap (map some) whole',
    )
