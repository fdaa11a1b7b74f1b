-- ===== src/Packet/Async/Fields.antt =====
-- The fields of the asynchronous header as data, to state at once what the setters do to what
-- the getters read.
use linux_firewire_dkms.Prelude.{ℕ, ◌%◌, ◌^◌, ◌<◌, ◌≡◌, arith, Bool, true, false}
use linux_firewire_dkms.Packet.Async.{
  Header, IsHeader, get_destination, set_destination, get_tlabel, set_tlabel, get_retry, set_retry,
  get_tcode, set_tcode, get_priority, set_priority, get_source, set_source, get_rcode, set_rcode,
  get_data_length, set_data_length, get_extended_tcode, set_extended_tcode, get_offset, set_offset,
  get_quadlet_data, set_quadlet_data,
}
use linux_firewire_dkms.Packet.Async.Laws.{
  get_destination_lem, set_destination_lem, get_tlabel_lem, set_tlabel_lem, get_retry_lem,
  set_retry_lem, get_tcode_lem, set_tcode_lem, get_priority_lem, set_priority_lem, get_source_lem,
  set_source_lem, get_rcode_lem, set_rcode_lem, get_data_length_lem, set_data_length_lem,
  get_extended_tcode_lem, set_extended_tcode_lem, get_offset_lem, set_offset_lem,
  get_quadlet_data_lem, set_quadlet_data_lem,
}

pub data Field : Type 0 where
  destination tlabel retry tcode priority source rcode data_length extended_tcode offset
        quadlet_data :
      Field

unfoldable pub get : Field → Header → ℕ
get destination h = get_destination h
get tlabel h = get_tlabel h
get retry h = get_retry h
get tcode h = get_tcode h
get priority h = get_priority h
get source h = get_source h
get rcode h = get_rcode h
get data_length h = get_data_length h
get extended_tcode h = get_extended_tcode h
get offset h = get_offset h
get quadlet_data h = get_quadlet_data h

unfoldable pub set : Field → Header → ℕ → Header
set destination h v = set_destination h v
set tlabel h v = set_tlabel h v
set retry h v = set_retry h v
set tcode h v = set_tcode h v
set priority h v = set_priority h v
set source h v = set_source h v
set rcode h v = set_rcode h v
set data_length h v = set_data_length h v
set extended_tcode h v = set_extended_tcode h v
set offset h v = set_offset h v
set quadlet_data h v = set_quadlet_data h v

-- The width of a field in bits.
abbrev pub width : Field → ℕ
width destination = 16
width tlabel = 6
width retry = 2
width tcode = 4
width priority = 4
width source = 16
width rcode = 4
width data_length = 16
width extended_tcode = 16
width offset = 48
width quadlet_data = 32

-- `unsigned int` or `u32`, and `u64` for the offset.
abbrev pub argument_width : Field → ℕ
argument_width offset = 64
argument_width _ = 32

-- The fields that share bits: rcode lies in the upper part of offset, and data_length and
-- extended_tcode together are quadlet_data.
abbrev pub overlaps : Field → Field → Bool
overlaps destination destination = true
overlaps tlabel tlabel = true
overlaps retry retry = true
overlaps tcode tcode = true
overlaps priority priority = true
overlaps source source = true
overlaps rcode rcode = true
overlaps rcode offset = true
overlaps data_length data_length = true
overlaps data_length quadlet_data = true
overlaps extended_tcode extended_tcode = true
overlaps extended_tcode quadlet_data = true
overlaps offset rcode = true
overlaps offset offset = true
overlaps quadlet_data data_length = true
overlaps quadlet_data extended_tcode = true
overlaps quadlet_data quadlet_data = true
overlaps _ _ = false

-- A value that fits its field is read back; a wider one is cut to the width of the field.
pub get-set_self :
    (f : Field) (h : Header) (v : ℕ)
    → v < 2 ^ argument_width f
    → IsHeader h
    → get f (set f h v) ≡ v % 2 ^ width f
unfolding get set
get-set_self destination h v fits w =
    rw (set_destination_lem h v (omega arith), get_destination_lem) (omega arith)
get-set_self tlabel h v fits w = rw (set_tlabel_lem h v (omega arith), get_tlabel_lem) (omega arith)
get-set_self retry h v fits w = rw (set_retry_lem h v (omega arith), get_retry_lem) (omega arith)
get-set_self tcode h v fits w = rw (set_tcode_lem h v (omega arith), get_tcode_lem) (omega arith)
get-set_self priority h v fits w =
    rw (set_priority_lem h v (omega arith), get_priority_lem) (omega arith)
get-set_self source h v fits w = rw (set_source_lem h v (omega arith), get_source_lem) (omega arith)
get-set_self rcode h v fits w = rw (set_rcode_lem h v (omega arith), get_rcode_lem) (omega arith)
get-set_self data_length h v fits w =
    rw (set_data_length_lem h v (omega arith), get_data_length_lem) (omega arith)
get-set_self extended_tcode h v fits w =
    rw (set_extended_tcode_lem h v (omega arith), get_extended_tcode_lem) (omega arith)
get-set_self offset h v fits w = ground (arith, set_offset_lem h v, get_offset_lem (set_offset h v))
get-set_self quadlet_data h v fits w = unfold get_quadlet_data set_quadlet_data in omega arith

ruleset getters = (
  get_destination_lem, get_tlabel_lem, get_retry_lem, get_tcode_lem, get_priority_lem,
  get_source_lem, get_rcode_lem, get_data_length_lem, get_extended_tcode_lem, get_quadlet_data_lem,
)

-- A setter changes no field but those that share bits with its own.
pub get-set_other :
    (f g : Field) (h : Header) (v : ℕ)
    → overlaps f g ≡ false
    → IsHeader h
    → get g (set f h v) ≡ get g h
unfolding get set
get-set_other destination destination h v o w = cc
get-set_other destination offset h v o w =
    ground (arith, set_destination_lem h v, get_offset_lem h, get_offset_lem (set_destination h v))
get-set_other destination g h v o w =
    rw (set_destination_lem h v (omega arith)) (simp getters (omega arith))
get-set_other tlabel tlabel h v o w = cc
get-set_other tlabel offset h v o w =
    ground (arith, set_tlabel_lem h v, get_offset_lem h, get_offset_lem (set_tlabel h v))
get-set_other tlabel g h v o w = rw (set_tlabel_lem h v (omega arith)) (simp getters (omega arith))
get-set_other retry retry h v o w = cc
get-set_other retry offset h v o w =
    ground (arith, set_retry_lem h v, get_offset_lem h, get_offset_lem (set_retry h v))
get-set_other retry g h v o w = rw (set_retry_lem h v (omega arith)) (simp getters (omega arith))
get-set_other tcode tcode h v o w = cc
get-set_other tcode offset h v o w =
    ground (arith, set_tcode_lem h v, get_offset_lem h, get_offset_lem (set_tcode h v))
get-set_other tcode g h v o w = rw (set_tcode_lem h v (omega arith)) (simp getters (omega arith))
get-set_other priority priority h v o w = cc
get-set_other priority offset h v o w =
    ground (arith, set_priority_lem h v, get_offset_lem h, get_offset_lem (set_priority h v))
get-set_other priority g h v o w =
    rw (set_priority_lem h v (omega arith)) (simp getters (omega arith))
get-set_other source source h v o w = cc
get-set_other source offset h v o w =
    ground (arith, set_source_lem h v, get_offset_lem h, get_offset_lem (set_source h v))
get-set_other source g h v o w = rw (set_source_lem h v (omega arith)) (simp getters (omega arith))
get-set_other rcode rcode h v o w = cc
get-set_other rcode offset h v o w = cc
get-set_other rcode g h v o w = rw (set_rcode_lem h v (omega arith)) (simp getters (omega arith))
get-set_other data_length data_length h v o w = cc
get-set_other data_length quadlet_data h v o w = cc
get-set_other data_length offset h v o w =
    ground (arith, set_data_length_lem h v, get_offset_lem h, get_offset_lem (set_data_length h v))
get-set_other data_length g h v o w =
    rw (set_data_length_lem h v (omega arith)) (simp getters (omega arith))
get-set_other extended_tcode extended_tcode h v o w = cc
get-set_other extended_tcode quadlet_data h v o w = cc
get-set_other extended_tcode offset h v o w =
    ground
      (arith, set_extended_tcode_lem h v, get_offset_lem h, get_offset_lem (set_extended_tcode h v))
get-set_other extended_tcode g h v o w =
    rw (set_extended_tcode_lem h v (omega arith)) (simp getters (omega arith))
get-set_other offset rcode h v o w = cc
get-set_other offset offset h v o w = cc
get-set_other offset g h v o w = rw (set_offset_lem h v w.q1_lt) (simp getters (omega arith))
get-set_other quadlet_data data_length h v o w = cc
get-set_other quadlet_data extended_tcode h v o w = cc
get-set_other quadlet_data quadlet_data h v o w = cc
get-set_other quadlet_data offset h v o w =
    ground
      (arith, get_offset_lem h, set_quadlet_data_lem h v, get_offset_lem (set_quadlet_data h v))
get-set_other quadlet_data g h v o w = rw (set_quadlet_data_lem h v) (simp getters (omega arith))

-- A setter keeps every quadlet a 32-bit word.
pub set-IsHeader :
    (f : Field) (h : Header) (v : ℕ) → v < 2 ^ argument_width f → IsHeader h → IsHeader (set f h v)
unfolding set
set-IsHeader destination h v fits w = rw (set_destination_lem h v (omega arith)) (omega arith)
set-IsHeader tlabel h v fits w = rw (set_tlabel_lem h v (omega arith)) (omega arith)
set-IsHeader retry h v fits w = rw (set_retry_lem h v (omega arith)) (omega arith)
set-IsHeader tcode h v fits w = rw (set_tcode_lem h v (omega arith)) (omega arith)
set-IsHeader priority h v fits w = rw (set_priority_lem h v (omega arith)) (omega arith)
set-IsHeader source h v fits w = rw (set_source_lem h v (omega arith)) (omega arith)
set-IsHeader rcode h v fits w = rw (set_rcode_lem h v (omega arith)) (omega arith)
set-IsHeader data_length h v fits w = rw (set_data_length_lem h v (omega arith)) (omega arith)
set-IsHeader extended_tcode h v fits w = rw (set_extended_tcode_lem h v (omega arith)) (omega arith)
set-IsHeader offset h v fits w = rw (set_offset_lem h v w.q1_lt) (omega arith)
set-IsHeader quadlet_data h v fits w = rw (set_quadlet_data_lem h v) (omega arith)

-- What is written to a field is read back, cut to the width of the field, and a field that shares
-- no bits with it is read as before.
pub get-set :
    (f g : Field) (h : Header) (v : ℕ)
    → v < 2 ^ argument_width f
    → overlaps f g ≡ false
    → IsHeader h
    → (get f (set f h v) ≡ v % 2 ^ width f) × (get g (set f h v) ≡ get g h)
get-set f g h v fits apart w = (get-set_self f h v fits w, get-set_other f g h v apart w)
