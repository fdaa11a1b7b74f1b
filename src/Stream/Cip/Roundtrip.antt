-- ===== src/Stream/Cip/Roundtrip.antt =====
-- A generated header is accepted by a stream of the same protocol, and tells what was put in.
use linux_firewire_dkms.Prelude.{
  ℕ, ◌+◌, ◌-◌, ◌*◌, ◌/◌, ◌%◌, ◌^◌, ◌<◌, ◌≡◌, refl, ap, ap₂, ◌∙◌, ◌⊎◌, inl, inr, false, ◌&&◌, Option,
  none, some, arith, ◌==◌, if◌then◌else◌, bit_and, bit_or, bit_and_field, bit_or_field,
  bit_and_ones, shl32, shr,
}
use native.Mathlib.Nat.{mul-div_left}
use linux_firewire_dkms.Stream.Cip.{
  Stream, ok, generate_cip_header, count_data_blocks, counter_of, is_lost, check_continuity,
  check_cip_header, cip_eoh, fmt_am, fdf_no_data,
}

-- The fields of a stream that sends fit their places in the header.
pub record Fits (s : Stream) : Type 0 where
  pub node : ℕ
  pub node_lt : node < 64
  pub source : s.source_node_id_field ≡ node * 2 ^ 24
  pub dbs_pos : 0 < s.data_block_quadlets
  pub dbs_lt : s.data_block_quadlets < 256
  pub sph_lt : s.sph < 2
  pub fmt_lt : s.fmt < 64
  pub fdf_lt : s.fdf < 256

-- The two quadlets in arithmetic.
abbrev first : (node dbs sph dbc : ℕ) → ℕ
first node dbs sph dbc = node * 2 ^ 24 + dbs * 2 ^ 16 + sph * 2 ^ 10 + dbc

abbrev second : (fmt fdf syt : ℕ) → ℕ
second fmt fdf syt = 2 ^ 31 + fmt * 2 ^ 24 + fdf * 2 ^ 16 + syt

cut_field :
    (s n v : ℕ)
    → v < 2 ^ n
    → shl32 v s / 2 ^ s % 2 ^ n ≡ v
    → bit_and (shl32 v s) ((2 ^ n - 1) * 2 ^ s) ≡ v * 2 ^ s
cut_field s n v h e = bit_and_field s n (shl32 v s) ∙ ap (λ t. t * 2 ^ s) e

first_lem :
    (node dbs sph dbc : ℕ)
    → node < 64
    → dbs < 256
    → sph < 2
    → dbc < 256
    → bit_or
        (bit_or (bit_or (node * 2 ^ 24) (shl32 dbs 16)) (bit_and (shl32 sph 10) 0x00000400))
        dbc
      ≡ first node dbs sph dbc
first_lem node dbs sph dbc a b c d = ground (
  arith,
  cut_field 10 1 sph c (omega arith),
  bit_or_field 16 8 node dbs 0 (omega arith) (omega arith),
  bit_or_field 10 6 (node * 2 ^ 8 + dbs) sph 0 (omega arith) (omega arith),
  bit_or_field 0 8 (((node * 2 ^ 8 + dbs) * 2 ^ 6 + sph) * 4) dbc 0 (omega arith) (omega arith),
)

second_lem :
    (fmt fdf syt : ℕ)
    → fmt < 64
    → fdf < 256
    → syt < 2 ^ 16
    → bit_or
        (bit_or
          (bit_or cip_eoh (bit_and (shl32 fmt 24) 0x3f000000))
          (bit_and (shl32 fdf 16) 0x00ff0000))
        (bit_and syt 0x0000ffff)
      ≡ second fmt fdf syt
second_lem fmt fdf syt a b c = ground (
  arith,
  cut_field 24 6 fmt a (omega arith),
  cut_field 16 8 fdf b (omega arith),
  bit_and_ones 16 syt,
  bit_or_field 24 7 1 fmt 0 (omega arith) (omega arith),
  bit_or_field 16 8 (2 ^ 7 + fmt) fdf 0 (omega arith) (omega arith),
  bit_or_field 0 16 ((2 ^ 7 + fmt) * 2 ^ 8 + fdf) syt 0 (omega arith) (omega arith),
)

pub generate_lem :
    (s : Stream) (f : Fits s) (dbc syt : ℕ)
    → dbc < 256
    → syt < 2 ^ 16
    → generate_cip_header s dbc syt
      ≡ (first f.node s.data_block_quadlets s.sph dbc, second s.fmt s.fdf syt)
unfolding generate_cip_header
generate_lem s f dbc syt h k = rw f.source (
    ap₂ (λ a b. (a, b))
      (first_lem f.node s.data_block_quadlets s.sph dbc f.node_lt f.dbs_lt f.sph_lt h)
      (second_lem s.fmt s.fdf syt f.fmt_lt f.fdf_lt k))

-- What the checks read of the two quadlets.
module _ (node dbs sph dbc : ℕ) (a : node < 64) (b : dbs < 256) (c : sph < 2) (d : dbc < 256) where
  read_eoh : bit_and (first node dbs sph dbc) 0x80000000 ≡ 0
  read_eoh = omega (arith, bit_and_field 31 1 (first node dbs sph dbc))

  read_sph : shr (bit_and (first node dbs sph dbc) 0x00000400) 10 ≡ sph
  read_sph = omega (arith, bit_and_field 10 1 (first node dbs sph dbc))

  read_dbs : shr (bit_and (first node dbs sph dbc) 0x00ff0000) 16 ≡ dbs
  read_dbs = omega (arith, bit_and_field 16 8 (first node dbs sph dbc))

  read_dbc : bit_and (first node dbs sph dbc) 0x000000ff ≡ dbc
  read_dbc = omega (arith, bit_and_ones 8 (first node dbs sph dbc))

module _ (fmt fdf syt : ℕ) (a : fmt < 64) (b : fdf < 256) (c : syt < 2 ^ 16) where
  read_eoh2 : bit_and (second fmt fdf syt) 0x80000000 ≡ cip_eoh
  read_eoh2 = omega (arith, bit_and_field 31 1 (second fmt fdf syt))

  read_fmt : shr (bit_and (second fmt fdf syt) 0x3f000000) 24 ≡ fmt
  read_fmt = omega (arith, bit_and_field 24 6 (second fmt fdf syt))

  read_fdf : shr (bit_and (second fmt fdf syt) 0x00ff0000) 16 ≡ fdf
  read_fdf = omega (arith, bit_and_field 16 8 (second fmt fdf syt))

  read_syt : bit_and (second fmt fdf syt) 0x0000ffff ≡ syt
  read_syt = omega (arith, bit_and_ones 16 (second fmt fdf syt))

-- A stream that receives what `s` sends: the same protocol, and no quirk in how the data blocks or
-- their counter are read.
pub record Receives (s r : Stream) : Type 0 where
  pub sph : r.sph ≡ s.sph
  pub fmt : r.fmt ≡ s.fmt
  pub plain_dbs : r.flags.wrong_dbs ≡ false
  pub plain_dbc : r.flags.dbc_is_end_event ≡ false

four : (a b : ℕ) → a * 4 * b / 4 ≡ a * b
four a b = omega arith

count_lem :
    (s r : Stream) (f : Fits s) (blocks dbc : ℕ)
    → Receives s r
    → dbc < 256
    → (s.fmt == fmt_am && s.fdf == fdf_no_data) ≡ false
    → count_data_blocks r
        (first f.node s.data_block_quadlets s.sph dbc)
        s.fmt
        s.fdf
        (blocks * 4 * s.data_block_quadlets)
      ≡ some blocks
unfolding count_data_blocks
count_lem s r f blocks dbc v h full =
    let dbs = read_dbs f.node s.data_block_quadlets s.sph dbc f.node_lt f.dbs_lt f.sph_lt h in
    rw (dbs, v.plain_dbs, full)
      (ground (arith, mul-div_left blocks f.dbs_pos, four blocks s.data_block_quadlets))

continuity_lem :
    (s r : Stream) (f : Fits s) (blocks dbc payload : ℕ) (last : Option ℕ)
    → Receives s r
    → dbc < 256
    → (last ≡ none) ⊎ (last ≡ some dbc)
    → (counter_of r (first f.node s.data_block_quadlets s.sph dbc) blocks last ≡ dbc)
      × (is_lost r blocks payload dbc last ≡ false)
unfolding counter_of is_lost
continuity_lem s r f blocks dbc payload last v h (inl e) =
    rw (e, read_dbc f.node s.data_block_quadlets s.sph dbc f.node_lt f.dbs_lt f.sph_lt h)
      (refl, refl)
continuity_lem s r f blocks dbc payload last v h (inr e) =
    rw
      (
        e,
        read_dbc f.node s.data_block_quadlets s.sph dbc f.node_lt f.dbs_lt f.sph_lt h,
        v.plain_dbc,
      )
      (ground arith, ground arith)

-- A header that a stream generates for a packet of data blocks is accepted by a receiver of the
-- same protocol without quirks, at its first packet or where it expects that counter, and gives it
-- the number of data blocks, the counter and, where it heeds it, the presentation time.
pub check-generate :
    (s r : Stream) (f : Fits s) (blocks dbc syt own : ℕ) (last : Option ℕ)
    → Receives s r
    → dbc < 256
    → syt < 2 ^ 16
    → (s.fmt == fmt_am && s.fdf == fdf_no_data) ≡ false
    → (last ≡ none) ⊎ (last ≡ some dbc)
    → check_cip_header r
        (generate_cip_header s dbc syt)
        (blocks * 4 * s.data_block_quadlets)
        own
        last
      ≡ ok (record {
        data_blocks = blocks;
        data_block_counter = some dbc;
        syt = if r.flags.unaware_syt then own else syt;
      })
unfolding check_cip_header check_continuity
check-generate s r f blocks dbc syt own last v h k full expected =
    let (d1, d2) =
      continuity_lem s r f blocks dbc (blocks * 4 * s.data_block_quadlets) last v h expected in
    rw
      (
        generate_lem s f dbc syt h k,
        read_eoh f.node s.data_block_quadlets s.sph dbc f.node_lt f.dbs_lt f.sph_lt h,
        read_sph f.node s.data_block_quadlets s.sph dbc f.node_lt f.dbs_lt f.sph_lt h,
        read_eoh2 s.fmt s.fdf syt f.fmt_lt f.fdf_lt k,
        read_fmt s.fmt s.fdf syt f.fmt_lt f.fdf_lt k,
        read_fdf s.fmt s.fdf syt f.fmt_lt f.fdf_lt k,
        count_lem s r f blocks dbc v h full,
        d1,
        d2,
        read_syt s.fmt s.fdf syt f.fmt_lt f.fdf_lt k,
        v.sph,
        v.fmt,
      )
      (ground arith)
