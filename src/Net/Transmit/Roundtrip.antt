-- ===== src/Net/Transmit/Roundtrip.antt =====
-- The packets of a datagram, read by the receiver.
use linux_firewire_dkms.Prelude.{
  ℕ, zero, suc, ◌+◌, ◌-◌, ◌*◌, ◌^◌, ◌≤◌, ◌<◌, ◌≡◌, ◌≢◌, refl, sym, ◌∙◌, ap, ap₂, arith, true, false,
  some, List, [], ◌∷◌, length, take, drop, ltb, ◌==◌, length-drop, length-take_eq,
}
use linux_firewire_dkms.Net.Fragments.{u16}
use linux_firewire_dkms.Net.Datagrams.{Incoming, first_fragment}
use linux_firewire_dkms.Net.Datagrams.Deliver.{
  later_pieces, lf_before, interior_fragment, last_fragment,
}
use linux_firewire_dkms.Net.Header.{
  Header, parse, fragment, make_sf_hdr, get_hdr_lf, get_hdr_dg_size, get_hdr_fg_off, get_hdr_dgl,
  unfragmented, be32_bytes,
}
use linux_firewire_dkms.Net.Header.Roundtrip.{get-make_hdr}
use linux_firewire_dkms.Net.Header.Packet.{packet, parse-sf}
use linux_firewire_dkms.Net.Transmit.{
  Task, resend, push_header, sent_payload, next_task, transmit_packet_done, transmit,
}

-- The fragments that a receiver reads of packets.
unfoldable pub parse_all : List (List ℕ) → List Incoming
parse_all [] = []
parse_all (p ∷ ps) = elim (parse p (length p)) [ fragment f ↦ f ∷ parse_all ps | _ ↦ parse_all ps ]

pub parse_all-step :
    (p : List ℕ) (ps : List (List ℕ)) (f : Incoming)
    → parse p (length p) ≡ fragment f
    → parse_all (p ∷ ps) ≡ f ∷ parse_all ps
unfolding parse_all
parse_all-step p ps f e = rw (parse_all, e) refl

-- The parts of the bytes `b`: `k` of `part` bytes each, and the rest.
unfoldable pub chunks : ℕ → ℕ → List ℕ → List (List ℕ)
chunks part zero b = b ∷ []
chunks part (suc k) b = take part b ∷ chunks part k (drop part b)

take_over : (n : ℕ) (xs : List ℕ) → length xs ≤ n → take n xs ≡ xs
take_over zero [] h = refl
take_over zero (x ∷ xs) h = absurd (omega arith)
take_over (suc n) [] h = refl
take_over (suc n) (x ∷ xs) h = ap (λ t. x ∷ t) (take_over n xs (omega arith))

eight : (n : ℕ) → n + 8 ≡ suc (suc (suc (suc (suc (suc (suc (suc n)))))))
eight n = omega arith

pub take-packet :
    (h : Header) (n : ℕ) (b : List ℕ) → take (n + 8) (packet h b) ≡ packet h (take n b)
unfolding be32_bytes
take-packet h n b = ap (λ m. take m (packet h b)) (eight n)

drop-packet : (h : Header) (n : ℕ) (b : List ℕ) → drop (n + 8) (packet h b) ≡ drop n b
unfolding be32_bytes
drop-packet h n b = ap (λ m. drop m (packet h b)) (eight n)

pub push-packet : (t : Task) → get_hdr_lf t.hdr ≢ unfragmented → push_header t ≡ packet t.hdr t.skb
unfolding push_header
push-packet t ne =
    let e : get_hdr_lf t.hdr == unfragmented ≡ false = ground arith in rw (push_header, e) refl

abbrev pub kind : ℕ → ℕ
kind zero = last_fragment
kind (suc k) = interior_fragment

abbrev pub limit : ℕ → ℕ → List ℕ → ℕ
limit zero part b = length b + 8
limit (suc k) part b = part + 8

-- The task when `k` packets and one more are to be sent, from byte `n` on.
abbrev pub later_task : ℕ → ℕ → ℕ → ℕ → ℕ → List ℕ → Task
later_task label size part k n b = record {
  hdr = make_sf_hdr (kind k) size n label;
  skb = b;
  outstanding_pkts = suc k;
  max_payload = limit k part b;
}

pub next_task_later :
    (label size part k n : ℕ) (t : Task)
    → get_hdr_lf t.hdr ≢ unfragmented
    → get_hdr_dg_size t.hdr ≡ size
    → get_hdr_dgl t.hdr ≡ label
    → t.max_payload ≡ part + 8
    → size < 2 ^ 16
    → length t.skb ≤ 4096
    → next_task t (suc k) n ≡ resend (later_task label size part k n (drop part t.skb))
unfolding next_task
next_task_later label size part zero n t ne size_is label_is max_is small short =
    let pushed = push-packet t ne in
    let word : u16 size ≡ size = omega arith in
    let rest : drop t.max_payload (push_header t) ≡ drop part t.skb =
      ap₂ drop max_is pushed ∙ drop-packet t.hdr part t.skb in
    let len : u16 (length (drop part t.skb) + 8) ≡ length (drop part t.skb) + 8 =
      omega (arith, length-drop part t.skb) in
    rw (next_task, rest, size_is, label_is, word, len) refl
next_task_later label size part (suc k) n t ne size_is label_is max_is small short =
    let pushed = push-packet t ne in
    let word : u16 size ≡ size = omega arith in
    let more : ltb 1 (suc (suc k)) ≡ true = ground arith in
    let rest : drop t.max_payload (push_header t) ≡ drop part t.skb =
      ap₂ drop max_is pushed ∙ drop-packet t.hdr part t.skb in
    rw (next_task, rest, size_is, label_is, word, more, max_is) refl

module _ (label size part : ℕ) (l : label < 2 ^ 16) (s : size ≤ 4096) (p : 0 < part) where
  sf_fields :
      (k n : ℕ)
      → 0 < size
      → n < 4096
      → let h = make_sf_hdr (kind k) size n label in
        (get_hdr_lf h ≡ kind k)
        × (get_hdr_fg_off h ≡ n)
        × (get_hdr_dg_size h ≡ size)
        × (get_hdr_dgl h ≡ label)
  sf_fields zero n pos in_size =
      (get-make_hdr 0 last_fragment size n label (omega arith) (omega arith) pos s in_size l).1
  sf_fields (suc k) n pos in_size =
      (get-make_hdr 0 interior_fragment size n label (omega arith) (omega arith) pos s in_size l).1

  kind-large : (k : ℕ) → (1 < kind k) × (kind k < 4)
  kind-large zero = (omega arith, omega arith)
  kind-large (suc k) = (omega arith, omega arith)

  -- The payload of a packet: `m` bytes behind the header.
  sent :
      (k n m : ℕ) (b : List ℕ)
      → n + length b ≡ size
      → 0 < length b
      → limit k part b ≡ m + 8
      → sent_payload (later_task label size part k n b)
        ≡ packet (make_sf_hdr (kind k) size n label) (take m b)
  unfolding sent_payload
  sent k n m b sum some_bytes max_is =
      let t = later_task label size part k n b in
      let fields = sf_fields k n (omega arith) (omega arith) in
      let large = kind-large k in
      ap₂ take max_is (push-packet t (λ z. ground arith)) ∙ take-packet t.hdr m b

  read :
      (k n : ℕ) (c : List ℕ)
      → n + length c ≤ size
      → 0 < length c
      → let h = make_sf_hdr (kind k) size n label in
        parse (packet h c) (length (packet h c))
        ≡ fragment (record {
          lf = kind k;
          datagram_label = label;
          ether_type = 0;
          dg_size = size;
          fg_off = n;
          bytes = c;
        })
  read k n c inside some_bytes =
      parse-sf 0 size n label (kind k) c (omega arith) (omega arith) s l some_bytes (kind-large k).0
        (kind-large k).1 inside

  again :
      (k n : ℕ) (b : List ℕ)
      → n + length b ≡ size
      → part < length b
      → transmit_packet_done (later_task label size part (suc k) n b)
        ≡ resend (later_task label size part k (n + part) (drop part b))
  unfolding transmit_packet_done
  again k n b sum more =
      let t = later_task label size part (suc k) n b in
      let fields = sf_fields (suc k) n (omega arith) (omega arith) in
      let pkts : suc (suc k) - 1 ≡ suc k = omega arith in
      let some_left : suc k == 0 ≡ false = ground arith in
      let other : get_hdr_lf t.hdr == first_fragment ≡ false = ground arith in
      let interior : get_hdr_lf t.hdr == interior_fragment ≡ true = ground arith in
      let off : u16 (get_hdr_fg_off t.hdr + (part + 8) - 8) ≡ n + part = omega (arith, fields.1) in
      let next =
        next_task_later label size part k (n + part) t (λ z. ground arith) fields.2 fields.3 refl
          (omega arith) (omega arith) in
      rw (transmit_packet_done, pkts, some_left, other, interior, off) next

  lf_before-chunks : (k : ℕ) (b : List ℕ) → lf_before (chunks part k b) ≡ interior_fragment
  unfolding lf_before chunks
  lf_before-chunks zero b = refl
  lf_before-chunks (suc k) b = refl

  -- The packets from byte `n` on are read as the fragments of the parts that are left.
  pub later_transmit :
      (k n : ℕ) (b : List ℕ)
      → n + length b ≡ size
      → k * part < length b
      → length b ≤ suc k * part
      → (ps : List (List ℕ)) × (transmit (suc k) (later_task label size part k n b) ≡ some ps)
        × (parse_all ps ≡ later_pieces label size n (chunks part k b))
  unfolding transmit parse_all later_pieces chunks transmit_packet_done lf_before
  later_transmit zero n b sum more fits =
      let m = sent zero n (length b) b sum (omega arith) refl in
      let done : sent_payload (later_task label size part zero n b)
          ≡ packet (make_sf_hdr last_fragment size n label) b =
        m
        ∙ ap (packet (make_sf_hdr last_fragment size n label))
            (take_over (length b) b (omega arith)) in
      (
        packet (make_sf_hdr last_fragment size n label) b ∷ [],
        ap (λ t. some (t ∷ [])) done,
        rw (parse_all, read zero n b (omega arith) (omega arith)) refl,
      )
  later_transmit (suc k) n b sum more fits =
      let t = later_task label size part (suc k) n b in
      let more' : part + k * part < length b = omega arith in
      let fits' : length b ≤ part + suc k * part = omega arith in
      let longer : part < length b = omega arith in
      let len : length (drop part b) ≡ length b - part = length-drop part b in
      let len' : length (take part b) ≡ part = length-take_eq part b (omega arith) in
      let (ps, e, r) =
        later_transmit k (n + part) (drop part b) (omega arith) (omega arith) (omega arith) in
      let first : sent_payload t
          ≡ packet (make_sf_hdr interior_fragment size n label) (take part b) =
        sent (suc k) n part b sum (omega arith) refl in
      let c : Incoming = record {
        lf = interior_fragment;
        datagram_label = label;
        ether_type = 0;
        dg_size = size;
        fg_off = n;
        bytes = take part b;
      } in
      (
        packet (make_sf_hdr interior_fragment size n label) (take part b) ∷ ps,
        rw (transmit, again k n b sum longer, e) (ap (λ q. some (q ∷ ps)) first),
        parse_all-step (packet (make_sf_hdr interior_fragment size n label) (take part b)) ps c
              (read (suc k) n (take part b) (omega arith) (omega arith))
            ∙ ap (λ q. c ∷ q)
                (r
                  ∙ ap (λ o. later_pieces label size (n + o) (chunks part k (drop part b)))
                      (sym len'))
            ∙ ap
                (λ lf.
                  record {
                    lf = lf;
                    datagram_label = label;
                    ether_type = 0;
                    dg_size = size;
                    fg_off = n;
                    bytes = take part b;
                  }
                  ∷ later_pieces label size (n + length (take part b))
                      (chunks part k (drop part b)))
                (sym (lf_before-chunks k (drop part b))),
      )
