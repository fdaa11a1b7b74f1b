-- ===== src/Net/Header/Packet.antt =====
-- A packet of a header and bytes behind it, as the receiver reads it.
use linux_firewire_dkms.Prelude.{
  ℕ, suc, ◌+◌, ◌-◌, ◌^◌, ◌≤◌, ◌<◌, ◌≡◌, ◌≢◌, refl, ◌∙◌, ap, arith, true, false, List, [], ◌∷◌, ◌++◌,
  length, take, drop, ltb, leb, ◌==◌,
}
use linux_firewire_dkms.Net.Datagrams.{first_fragment}
use linux_firewire_dkms.Net.Datagrams.Deliver.{first_piece}
use linux_firewire_dkms.Net.Header.{
  Header, be32_at, be32_bytes, parse, parse_fragment, fragment, get_hdr_lf, make_ff_hdr,
  make_sf_hdr, unfragmented,
}
use linux_firewire_dkms.Net.Header.Roundtrip.{get-make_hdr, make_hdr-bounds}

take_all : (xs : List ℕ) → take (length xs) xs ≡ xs
take_all [] = refl
take_all (x ∷ xs) = ap (λ t. x ∷ t) (take_all xs)

-- A packet, whole.
abbrev pub packet : Header → List ℕ → List ℕ
packet h c = be32_bytes h.w0 ++ (be32_bytes h.w1 ++ c)

be32_at-first : (h : Header) (c : List ℕ) → h.w0 < 2 ^ 32 → be32_at (packet h c) 0 ≡ h.w0
unfolding be32_at be32_bytes
be32_at-first h c fits = omega arith

be32_at-second : (h : Header) (c : List ℕ) → h.w1 < 2 ^ 32 → be32_at (packet h c) 4 ≡ h.w1
unfolding be32_at be32_bytes
be32_at-second h c fits = omega arith

length-packet :
    (h : Header) (c : List ℕ)
    → length (packet h c) ≡ suc (suc (suc (suc (suc (suc (suc (suc (length c))))))))
unfolding be32_bytes
length-packet h c = refl

rest_of_packet :
    (h : Header) (c : List ℕ) → take (length (packet h c) - 8) (drop 8 (packet h c)) ≡ c
unfolding be32_bytes
rest_of_packet h c = ap (λ n. take n c) (omega (arith, length-packet h c)) ∙ take_all c

-- A packet of a fragment's header and some bytes is read as a fragment, by the header's fields.
parse-packet :
    (h : Header) (c : List ℕ)
    → h.w0 < 2 ^ 32
    → h.w1 < 2 ^ 32
    → get_hdr_lf h ≢ unfragmented
    → 0 < length c
    → parse (packet h c) (length (packet h c)) ≡ parse_fragment h (packet h c) (length (packet h c))
unfolding parse
parse-packet h c w0 w1 lf some_bytes =
    let len = length-packet h c in
    let long : leb (length (packet h c)) 4 ≡ false = ground arith in
    let longer : leb (length (packet h c)) 8 ≡ false = ground arith in
    let frag : get_hdr_lf h == unfragmented ≡ false = ground arith in
    rw (parse, long, longer, be32_at-first h c w0, be32_at-second h c w1, frag) refl

module _ (ether_type dg_size fg_off dgl lf : ℕ) (c : List ℕ) (e : ether_type < 2 ^ 16)
    (p : 0 < dg_size) (s : dg_size ≤ 4096) (d : dgl < 2 ^ 16) (some_bytes : 0 < length c) where
  -- The first fragment is read as it was sent.
  pub parse-ff :
      length c ≤ dg_size
      → let h = make_ff_hdr ether_type dg_size dgl in
        parse (packet h c) (length (packet h c)) ≡ fragment (first_piece dgl dg_size ether_type c)
  unfolding parse_fragment
  parse-ff fits =
      let h = make_ff_hdr ether_type dg_size dgl in
      let bounds = make_hdr-bounds ether_type 0 dg_size 0 dgl e (omega arith) p s (omega arith) in
      let fields =
        (get-make_hdr ether_type 0 dg_size 0 dgl e (omega arith) p s (omega arith) d).0 in
      let len = length-packet h c in
      let first : get_hdr_lf h == first_fragment ≡ true = ground arith in
      let inside : ltb dg_size (0 + (length (packet h c) - 8)) ≡ false = ground arith in
      parse-packet h c bounds.0 bounds.1 (λ z. ground arith) some_bytes
      ∙ rw
          (
            parse_fragment,
            first,
            fields.2,
            inside,
            rest_of_packet h c,
            fields.3,
            fields.1,
            fields.0,
          )
          refl

  -- So is any other fragment.
  pub parse-sf :
      1 < lf
      → lf < 4
      → fg_off + length c ≤ dg_size
      → let h = make_sf_hdr lf dg_size fg_off dgl in
        parse (packet h c) (length (packet h c))
        ≡ fragment (record {
          lf = lf;
          datagram_label = dgl;
          ether_type = 0;
          dg_size = dg_size;
          fg_off = fg_off;
          bytes = c;
        })
  unfolding parse_fragment
  parse-sf more few fits =
      let h = make_sf_hdr lf dg_size fg_off dgl in
      let bounds = make_hdr-bounds ether_type lf dg_size fg_off dgl e few p s (omega arith) in
      let fields = (get-make_hdr ether_type lf dg_size fg_off dgl e few p s (omega arith) d).1 in
      let len = length-packet h c in
      let other : get_hdr_lf h == first_fragment ≡ false = ground arith in
      let inside : ltb dg_size (fg_off + (length (packet h c) - 8)) ≡ false = ground arith in
      parse-packet h c bounds.2 bounds.3 (λ z. ground arith) some_bytes
      ∙ rw
          (
            parse_fragment,
            other,
            fields.1,
            fields.2,
            inside,
            rest_of_packet h c,
            fields.3,
            fields.0,
          )
          refl
