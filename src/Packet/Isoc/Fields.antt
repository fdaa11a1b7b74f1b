-- ===== src/Packet/Isoc/Fields.antt =====
-- The fields of the isochronous header as data.
use linux_firewire_dkms.Prelude.{ℕ, ◌+◌, ◌%◌, ◌^◌, ◌<◌, ◌≡◌, arith, Bool, true, ◌||◌, leb}
use linux_firewire_dkms.Packet.Isoc.{
  get_data_length, set_data_length, get_tag, set_tag, get_channel, set_channel, get_tcode,
  set_tcode, get_sy, set_sy,
}
use linux_firewire_dkms.Packet.Isoc.Laws.{
  get_data_length_lem, set_data_length_lem, get_tag_lem, set_tag_lem, get_channel_lem,
  set_channel_lem, get_tcode_lem, set_tcode_lem, get_sy_lem, set_sy_lem,
}

pub data Field : Type 0 where
  data_length tag channel tcode sy : Field

pub get : Field → ℕ → ℕ
get data_length q = get_data_length q
get tag q = get_tag q
get channel q = get_channel q
get tcode q = get_tcode q
get sy q = get_sy q

pub set : Field → ℕ → ℕ → ℕ
set data_length q v = set_data_length q v
set tag q v = set_tag q v
set channel q v = set_channel q v
set tcode q v = set_tcode q v
set sy q v = set_sy q v

-- The lowest bit of a field, and its width.
abbrev pub low : Field → ℕ
low data_length = 16
low tag = 14
low channel = 8
low tcode = 4
low sy = 0

abbrev pub width : Field → ℕ
width data_length = 16
width tag = 2
width channel = 6
width tcode = 4
width sy = 4

-- Two fields have no bit in common.
abbrev pub apart : Field → Field → Bool
apart f g = leb (low f + width f) (low g) || leb (low g + width g) (low f)

ruleset getters = (get_data_length_lem, get_tag_lem, get_channel_lem, get_tcode_lem, get_sy_lem)

-- Any value can be written to any field of any word, and what is read back is the value cut to the
-- width of the field.
get-set_self_isoc : (f : Field) (q v : ℕ) → q < 2 ^ 32 → get f (set f q v) ≡ v % 2 ^ width f
unfolding get set
get-set_self_isoc data_length q v fits =
    rw (set_data_length_lem q v fits, get_data_length_lem) (omega arith)
get-set_self_isoc tag q v fits = rw (set_tag_lem q v fits, get_tag_lem) (omega arith)
get-set_self_isoc channel q v fits = rw (set_channel_lem q v fits, get_channel_lem) (omega arith)
get-set_self_isoc tcode q v fits = rw (set_tcode_lem q v fits, get_tcode_lem) (omega arith)
get-set_self_isoc sy q v fits = rw (set_sy_lem q v fits, get_sy_lem) (omega arith)

-- Writing a field changes no field that lies apart from it.
get-set_other_isoc :
    (f g : Field) (q v : ℕ) → apart f g ≡ true → q < 2 ^ 32 → get g (set f q v) ≡ get g q
unfolding get set
get-set_other_isoc data_length data_length q v o fits = cc
get-set_other_isoc data_length g q v o fits =
    rw (set_data_length_lem q v fits) (simp getters (omega arith))
get-set_other_isoc tag tag q v o fits = cc
get-set_other_isoc tag g q v o fits = rw (set_tag_lem q v fits) (simp getters (omega arith))
get-set_other_isoc channel channel q v o fits = cc
get-set_other_isoc channel g q v o fits = rw (set_channel_lem q v fits) (simp getters (omega arith))
get-set_other_isoc tcode tcode q v o fits = cc
get-set_other_isoc tcode g q v o fits = rw (set_tcode_lem q v fits) (simp getters (omega arith))
get-set_other_isoc sy sy q v o fits = cc
get-set_other_isoc sy g q v o fits = rw (set_sy_lem q v fits) (simp getters (omega arith))

-- A setter keeps the quadlet a 32-bit word.
pub set-lt_isoc : (f : Field) (q v : ℕ) → q < 2 ^ 32 → set f q v < 2 ^ 32
unfolding set
set-lt_isoc data_length q v fits = rw (set_data_length_lem q v fits) (omega arith)
set-lt_isoc tag q v fits = rw (set_tag_lem q v fits) (omega arith)
set-lt_isoc channel q v fits = rw (set_channel_lem q v fits) (omega arith)
set-lt_isoc tcode q v fits = rw (set_tcode_lem q v fits) (omega arith)
set-lt_isoc sy q v fits = rw (set_sy_lem q v fits) (omega arith)

-- What is written to a field of a 32-bit word is read back, cut to the width of the field, and a
-- field that lies apart from it is read as before.
pub get-set_isoc :
    (f g : Field) (q v : ℕ)
    → apart f g ≡ true
    → q < 2 ^ 32
    → (get f (set f q v) ≡ v % 2 ^ width f) × (get g (set f q v) ≡ get g q)
get-set_isoc f g q v o fits = (get-set_self_isoc f q v fits, get-set_other_isoc f g q v o fits)
