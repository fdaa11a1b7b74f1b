-- ===== src/Inbound/Response/Fields.antt =====
-- What the asking node reads from the header of a response.
use linux_firewire_dkms.Prelude.{
  ℕ, ◌+◌, ◌%◌, ◌^◌, ◌<◌, ◌≡◌, inl, inr, refl, ◌∙◌, arith, false, Option, ◌==◌, ◌||◌, if◌then◌else◌,
  u32, Bool-cases,
}
use native.Mathlib.Nat.{mod-eq_of_lt}
use linux_firewire_dkms.Packet.Async.{
  Header, IsHeader, get_retry, get_rcode, get_tcode, get_tlabel, get_destination, get_source,
  get_quadlet_data, get_data_length, get_extended_tcode, set_data_length, set_extended_tcode,
  set_quadlet_data, set_tcode,
}
use linux_firewire_dkms.Packet.Async.Laws.{
  get_tlabel_lem, get_destination_lem, get_source_lem, get_extended_tcode_lem,
}
use linux_firewire_dkms.Packet.Async.Fields
use linux_firewire_dkms.Packet.Async.Fields.{
  Field, overlaps, get-set_self, get-set_other, set-IsHeader,
}
use linux_firewire_dkms.Transaction.Fill.{Packet, Payload}
use linux_firewire_dkms.Inbound.Response.{
  response_header, response_by_tcode, fill_response, quadlet_of, address_of,
}

-- The header holds the response: who answers whom, under which label, and how it went.
pub record IsResponse (h : Header) (tlabel destination source rcode : ℕ) : Type 0 where
  pub retry_is : get_retry h ≡ 0
  pub tlabel_is : get_tlabel h ≡ tlabel
  pub destination_is : get_destination h ≡ destination
  pub source_is : get_source h ≡ source
  pub rcode_is : get_rcode h ≡ rcode

module _ (h request : Header) (rcode : ℕ) (w : IsHeader h) (w' : IsHeader request)
    (fits : rcode < 16) where
  tlabel_lt : get_tlabel request < 2 ^ 6
  tlabel_lt = rw (get_tlabel_lem request) (omega arith)

  destination_lt : get_destination request < 2 ^ 16
  destination_lt = rw (get_destination_lem request) (omega arith)

  source_lt : get_source request < 2 ^ 16
  source_lt = rw (get_source_lem request) (omega arith)

  response_header-IsResponse :
      IsHeader (response_header h request rcode)
      × IsResponse
          (response_header h request rcode)
          (get_tlabel request)
          (get_source request)
          (get_destination request)
          rcode
  unfolding response_header Fields.get Fields.set get_retry get_tlabel get_destination get_source
      get_rcode
  response_header-IsResponse =
      let h1 = Fields.set Field.retry h 0 in
      let w1 = set-IsHeader Field.retry h 0 (omega arith) w in
      let h2 = Fields.set Field.tlabel h1 (get_tlabel request) in
      let w2 = set-IsHeader Field.tlabel h1 (get_tlabel request) (omega (arith, tlabel_lt)) w1 in
      let h3 = Fields.set Field.destination h2 (get_source request) in
      let w3 =
        set-IsHeader Field.destination h2 (get_source request) (omega (arith, source_lt)) w2 in
      let h4 = Fields.set Field.source h3 (get_destination request) in
      let w4 =
        set-IsHeader Field.source h3 (get_destination request) (omega (arith, destination_lt)) w3 in
      let h5 = Fields.set Field.rcode h4 rcode in
      let w5 = set-IsHeader Field.rcode h4 rcode (omega arith) w4 in
      (
        record { q0_lt = w5.q0_lt; q1_lt = w5.q1_lt; q2_lt = omega arith; q3_lt = w5.q3_lt },
        record {
          retry_is =
              get-set_other Field.rcode Field.retry h4 rcode refl w4
              ∙ get-set_other Field.source Field.retry h3 (get_destination request) refl w3
              ∙ get-set_other Field.destination Field.retry h2 (get_source request) refl w2
              ∙ get-set_other Field.tlabel Field.retry h1 (get_tlabel request) refl w1
              ∙ get-set_self Field.retry h 0 (omega arith) w;
          tlabel_is =
              get-set_other Field.rcode Field.tlabel h4 rcode refl w4
              ∙ get-set_other Field.source Field.tlabel h3 (get_destination request) refl w3
              ∙ get-set_other Field.destination Field.tlabel h2 (get_source request) refl w2
              ∙ get-set_self Field.tlabel h1 (get_tlabel request) (omega (arith, tlabel_lt)) w1
              ∙ mod-eq_of_lt tlabel_lt;
          destination_is =
              get-set_other Field.rcode Field.destination h4 rcode refl w4
              ∙ get-set_other Field.source Field.destination h3 (get_destination request) refl w3
              ∙ get-set_self Field.destination h2 (get_source request) (omega (arith, source_lt)) w2
              ∙ mod-eq_of_lt source_lt;
          source_is =
              get-set_other Field.rcode Field.source h4 rcode refl w4
              ∙ get-set_self Field.source h3 (get_destination request)
                  (omega (arith, destination_lt)) w3
              ∙ mod-eq_of_lt destination_lt;
          rcode_is = get-set_self Field.rcode h4 rcode (omega arith) w4 ∙ mod-eq_of_lt fits;
        },
      )

keep-IsResponse :
    (g : Field) (h : Header) (v : ℕ) {tlabel destination source rcode : ℕ}
    → overlaps g Field.retry ≡ false
    → overlaps g Field.tlabel ≡ false
    → overlaps g Field.destination ≡ false
    → overlaps g Field.source ≡ false
    → overlaps g Field.rcode ≡ false
    → IsHeader h
    → IsResponse h tlabel destination source rcode
    → IsResponse (Fields.set g h v) tlabel destination source rcode
unfolding Fields.get
keep-IsResponse g h v a b c d e w r = record {
  retry_is = get-set_other g Field.retry h v a w ∙ r.retry_is;
  tlabel_is = get-set_other g Field.tlabel h v b w ∙ r.tlabel_is;
  destination_is = get-set_other g Field.destination h v c w ∙ r.destination_is;
  source_is = get-set_other g Field.source h v d w ∙ r.source_is;
  rcode_is = get-set_other g Field.rcode h v e w ∙ r.rcode_is;
}

-- The response to a request of a transaction code carries what that code calls for.
abbrev pub IsAnswer :
    (before after : Packet) (tcode extended_tcode : ℕ) → Option Payload → ℕ → Type 0
IsAnswer p q tcode ext payload length =
    if tcode == 0x0 || tcode == 0x1
    then (get_tcode q.header ≡ 0x2)
      × (q.header_length ≡ 12)
      × (q.payload ≡ p.payload)
      × (q.payload_length ≡ 0)
    else if tcode == 0x4
    then (get_tcode q.header ≡ 0x6)
      × (get_quadlet_data q.header ≡ quadlet_of payload % 2 ^ 32)
      × (q.header_length ≡ 16)
      × (q.payload ≡ p.payload)
      × (q.payload_length ≡ 0)
    else if tcode == 0x5 || tcode == 0x9
    then (get_tcode q.header ≡ tcode + 2)
      × (get_data_length q.header ≡ length % 2 ^ 16)
      × (get_extended_tcode q.header ≡ ext)
      × (q.header_length ≡ 16)
      × (q.payload ≡ address_of payload)
      × (q.payload_length ≡ length)
    else (q.header_length ≡ p.header_length)
      × (q.payload ≡ p.payload)
      × (q.payload_length ≡ p.payload_length)

-- The three kinds of header that the switch makes.
module _ (h : Header) (w : IsHeader h) {tlabel destination source rcode : ℕ}
    (r : IsResponse h tlabel destination source rcode) where
  tcode_lem :
      (tcode : ℕ)
      → tcode < 16
      → IsResponse (set_tcode h tcode) tlabel destination source rcode
        × (get_tcode (set_tcode h tcode) ≡ tcode)
        × IsHeader (set_tcode h tcode)
  unfolding Fields.get Fields.set
  tcode_lem tcode fits = (
    keep-IsResponse Field.tcode h tcode refl refl refl refl refl w r,
    get-set_self Field.tcode h tcode (omega arith) w ∙ mod-eq_of_lt fits,
    set-IsHeader Field.tcode h tcode (omega arith) w,
  )

  quadlet_lem :
      (v : ℕ)
      → v < 2 ^ 32
      → let h' = set_quadlet_data (set_tcode h 0x6) v in
        IsResponse h' tlabel destination source rcode
        × (get_tcode h' ≡ 0x6)
        × (get_quadlet_data h' ≡ v % 2 ^ 32)
  unfolding Fields.get Fields.set
  quadlet_lem v fits =
      let h1 = Fields.set Field.tcode h 0x6 in
      let (r1, t1, w1) = tcode_lem 0x6 (omega arith) in
      (
        keep-IsResponse Field.quadlet_data h1 v refl refl refl refl refl w1 r1,
        get-set_other Field.quadlet_data Field.tcode h1 v refl w1 ∙ t1,
        get-set_self Field.quadlet_data h1 v (omega arith) w1,
      )

  block_lem :
      (tcode n ext : ℕ)
      → tcode < 16
      → ext < 2 ^ 16
      → let h' = set_extended_tcode (set_data_length (set_tcode h tcode) (u32 n)) ext in
        IsResponse h' tlabel destination source rcode
        × (get_tcode h' ≡ tcode)
        × (get_data_length h' ≡ n % 2 ^ 16)
        × (get_extended_tcode h' ≡ ext)
  unfolding Fields.get Fields.set
  block_lem tcode n ext fits small =
      let h1 = Fields.set Field.tcode h tcode in
      let (r1, t1, w1) = tcode_lem tcode fits in
      let h2 = Fields.set Field.data_length h1 (u32 n) in
      let w2 = set-IsHeader Field.data_length h1 (u32 n) (omega arith) w1 in
      let r2 = keep-IsResponse Field.data_length h1 (u32 n) refl refl refl refl refl w1 r1 in
      (
        keep-IsResponse Field.extended_tcode h2 ext refl refl refl refl refl w2 r2,
        get-set_other Field.extended_tcode Field.tcode h2 ext refl w2
            ∙ get-set_other Field.data_length Field.tcode h1 (u32 n) refl w1
            ∙ t1,
        get-set_other Field.extended_tcode Field.data_length h2 ext refl w2
            ∙ get-set_self Field.data_length h1 (u32 n) (omega arith) w1
            ∙ omega arith,
        get-set_self Field.extended_tcode h2 ext (omega arith) w2 ∙ mod-eq_of_lt small,
      )

response_by_tcode_lem :
    (p : Packet) (tcode ext : ℕ) (payload : Option Payload) (length : ℕ)
    {tlabel destination source rcode : ℕ}
    → ext < 2 ^ 16
    → quadlet_of payload < 2 ^ 32
    → IsHeader p.header
    → IsResponse p.header tlabel destination source rcode
    → let q = response_by_tcode p tcode ext payload length in
      IsResponse q.header tlabel destination source rcode
      × IsAnswer p q tcode ext payload length
      × (q.header.q2 ≡ p.header.q2)
unfolding response_by_tcode set_tcode set_quadlet_data set_extended_tcode set_data_length
response_by_tcode_lem p tcode ext payload length small word w r =
    let a = tcode_lem p.header w r 0x2 (omega arith) in
    let b = quadlet_lem p.header w r (quadlet_of payload) word in
    elim (Bool-cases (tcode == 0x0 || tcode == 0x1)) [
      | inl e ↦ rw e (a.0, (a.1, refl, refl, refl), refl)
      | inr e ↦ elim (Bool-cases (tcode == 0x4)) [
        | inl f ↦ rw (e, f) (b.0, (b.1, b.2, refl, refl, refl), refl)
        | inr f ↦ elim (Bool-cases (tcode == 0x5 || tcode == 0x9)) [
          | inl g ↦
              let d = block_lem p.header w r (tcode + 2) length ext (ground arith) small in
              rw (e, f, g) (d.0, (d.1, d.2, d.3, refl, refl, refl), refl)
          | inr g ↦ rw (e, f, g) (r, (refl, refl, refl), refl)
        ]
      ]
    ]

-- For headers and data in 32-bit quadlets and a response code of four bits: a response is
-- addressed to the node that asked, from the node that was asked, under the label of the request,
-- with retry code 1 and the response code that was given; its reserved quadlet is 0, and its
-- payload is not mapped. Its transaction code, its lengths and its data, a quadlet in the header
-- or the address of a block, are those that the code of the request calls for. Where that is not
-- the code of a request, the lengths and the address stay as they were.
pub fill_response-IsResponse :
    (p : Packet) (request : Header) (rcode : ℕ) (payload : Option Payload) (length : ℕ)
    → IsHeader p.header
    → IsHeader request
    → rcode < 16
    → quadlet_of payload < 2 ^ 32
    → let q = fill_response p request rcode payload length in
      IsResponse q.header (get_tlabel request) (get_source request) (get_destination request) rcode
      × IsAnswer p q (get_tcode request) (get_extended_tcode request) payload length
      × (q.header.q2 ≡ 0)
      × (q.payload_mapped ≡ false)
unfolding fill_response response_header
fill_response-IsResponse p request rcode payload length w w' fits word =
    let (v, r) = response_header-IsResponse p.header request rcode w w' fits in
    let ext_lt : get_extended_tcode request < 2 ^ 16 =
      rw (get_extended_tcode_lem request) (omega arith) in
    let (named, answer, reserved) =
      response_by_tcode_lem (record p { header = response_header p.header request rcode })
        (get_tcode request) (get_extended_tcode request) payload length ext_lt word v r in
    (named, answer, reserved, refl)
