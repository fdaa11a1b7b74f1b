-- ===== src/Net/Header/Roundtrip.antt =====
-- A header is read back as it was made.
use linux_firewire_dkms.Prelude.{
  ℕ, ◌+◌, ◌-◌, ◌*◌, ◌/◌, ◌%◌, ◌^◌, ◌≤◌, ◌<◌, ◌≡◌, refl, ◌∙◌, ap, ap₂, arith, bit_or, shl32, u32,
  field_get_lem, bit_and_ones, bit_or_field,
}
use linux_firewire_dkms.Net.Datagrams.{first_fragment}
use linux_firewire_dkms.Net.Header.{
  Header, get_hdr_lf, get_hdr_ether_type, get_hdr_dg_size, get_hdr_fg_off, get_hdr_dgl, make_ff_hdr,
  make_sf_hdr,
}

words :
    (lf dg_size low : ℕ)
    → lf < 4
    → 0 < dg_size
    → dg_size ≤ 4096
    → low < 2 ^ 16
    → bit_or (bit_or (shl32 lf 30) (shl32 (u32 (dg_size + (2 ^ 32 - 1))) 16)) low
      ≡ lf * 2 ^ 30 + (dg_size - 1) * 2 ^ 16 + low
words lf dg_size low lf_in pos fits low_in =
    let a : bit_or (shl32 lf 30) (shl32 (u32 (dg_size + (2 ^ 32 - 1))) 16)
        ≡ (lf * 2 ^ 2 * 2 ^ 12 + (dg_size - 1)) * 2 ^ 16 + 0 =
      ap₂ bit_or (omega arith) (omega arith)
      ∙ bit_or_field 16 12 (lf * 2 ^ 2) (dg_size - 1) 0 (omega arith) (omega arith) in
    let b : bit_or ((lf * 2 ^ 14 + (dg_size - 1)) * 2 ^ 16 * 2 ^ 0 + 0) (low * 2 ^ 0)
        ≡ ((lf * 2 ^ 14 + (dg_size - 1)) * 2 ^ 16 + low) * 2 ^ 0 + 0 =
      bit_or_field 0 16 (lf * 2 ^ 14 + (dg_size - 1)) low 0 low_in (omega arith) in
    ap (λ t. bit_or t low) a ∙ ap₂ bit_or (omega arith) (omega arith) ∙ b ∙ omega arith

module _ (h : Header) where
  get_hdr_lf_lem : get_hdr_lf h ≡ h.w0 / 2 ^ 30 % 4
  unfolding get_hdr_lf
  get_hdr_lf_lem = field_get_lem 30 2 0xc0000000 h.w0 refl

  get_hdr_ether_type_lem : get_hdr_ether_type h ≡ h.w0 % 2 ^ 16
  unfolding get_hdr_ether_type
  get_hdr_ether_type_lem = bit_and_ones 16 h.w0

  pub get_hdr_dg_size_lem : get_hdr_dg_size h ≡ h.w0 / 2 ^ 16 % 4096 + 1
  unfolding get_hdr_dg_size
  get_hdr_dg_size_lem = ap (λ t. t + 1) (field_get_lem 16 12 0x0fff0000 h.w0 refl)

  get_hdr_fg_off_lem : get_hdr_fg_off h ≡ h.w0 % 4096
  unfolding get_hdr_fg_off
  get_hdr_fg_off_lem = bit_and_ones 12 h.w0

  get_hdr_dgl_lem : get_hdr_dgl h ≡ h.w1 / 2 ^ 16 % 2 ^ 16
  unfolding get_hdr_dgl
  get_hdr_dgl_lem = field_get_lem 16 16 0xffff0000 h.w1 refl

-- The fields of a header for the first fragment, and of one for another fragment: the type (where it
-- is an intermediate or a last one), the datagram's size of 1 to 4096 bytes, its label, and the
-- EtherType or the offset.
pub get-make_hdr :
    (ether_type lf dg_size fg_off dgl : ℕ)
    → ether_type < 2 ^ 16
    → lf < 4
    → 0 < dg_size
    → dg_size ≤ 4096
    → fg_off < 4096
    → dgl < 2 ^ 16
    → ((get_hdr_lf (make_ff_hdr ether_type dg_size dgl) ≡ first_fragment)
        × (get_hdr_ether_type (make_ff_hdr ether_type dg_size dgl) ≡ ether_type)
        × (get_hdr_dg_size (make_ff_hdr ether_type dg_size dgl) ≡ dg_size)
        × (get_hdr_dgl (make_ff_hdr ether_type dg_size dgl) ≡ dgl))
      × ((get_hdr_lf (make_sf_hdr lf dg_size fg_off dgl) ≡ lf)
          × (get_hdr_fg_off (make_sf_hdr lf dg_size fg_off dgl) ≡ fg_off)
          × (get_hdr_dg_size (make_sf_hdr lf dg_size fg_off dgl) ≡ dg_size)
          × (get_hdr_dgl (make_sf_hdr lf dg_size fg_off dgl) ≡ dgl))
unfolding make_ff_hdr make_sf_hdr
get-make_hdr ether_type lf dg_size fg_off dgl e l p s o d =
    let ff = make_ff_hdr ether_type dg_size dgl in
    let sf = make_sf_hdr lf dg_size fg_off dgl in
    let ff_is = words first_fragment dg_size ether_type (omega arith) p s e in
    let sf_is = words lf dg_size fg_off l p s (omega arith) in
    (
      (
        get_hdr_lf_lem ff ∙ omega (arith, ff_is),
        get_hdr_ether_type_lem ff ∙ omega (arith, ff_is),
        get_hdr_dg_size_lem ff ∙ omega (arith, ff_is),
        get_hdr_dgl_lem ff ∙ omega arith,
      ),
      (
        get_hdr_lf_lem sf ∙ omega (arith, sf_is),
        get_hdr_fg_off_lem sf ∙ omega (arith, sf_is),
        get_hdr_dg_size_lem sf ∙ omega (arith, sf_is),
        get_hdr_dgl_lem sf ∙ omega arith,
      ),
    )

-- The words of a header that is made are 32 bits wide.
pub make_hdr-bounds :
    (ether_type lf dg_size fg_off dgl : ℕ)
    → ether_type < 2 ^ 16
    → lf < 4
    → 0 < dg_size
    → dg_size ≤ 4096
    → fg_off < 4096
    → ((make_ff_hdr ether_type dg_size dgl).w0 < 2 ^ 32)
      × ((make_ff_hdr ether_type dg_size dgl).w1 < 2 ^ 32)
      × ((make_sf_hdr lf dg_size fg_off dgl).w0 < 2 ^ 32)
      × ((make_sf_hdr lf dg_size fg_off dgl).w1 < 2 ^ 32)
unfolding make_ff_hdr make_sf_hdr
make_hdr-bounds ether_type lf dg_size fg_off dgl e l p s o = (
  omega (arith, words first_fragment dg_size ether_type (omega arith) p s e),
  omega arith,
  omega (arith, words lf dg_size fg_off l p s (omega arith)),
  omega arith,
)
