-- ===== src/Inbound/Handlers.antt =====
-- The address handlers of drivers/firewire/core-transaction.c: the list, where a new one is put,
-- and which one a request goes to. Sums are those of 64-bit words.
pub mod Registry
use linux_firewire_dkms.Prelude.{
  ℕ, zero, suc, ◌+◌, ◌-◌, ◌%◌, ◌/◌, ◌^◌, Bool, true, false, ◌&&◌, ◌||◌, Option, none, some, List,
  [], ◌∷◌, ◌++◌, bit_and, ltb, leb, ◌==◌, ◌!=◌, if◌then◌else◌, u64,
}

-- `struct fw_address_handler`, less its callback and its life time.
pub record Handler : Type 0 where
  pub offset : ℕ
  pub length : ℕ

-- The error codes, or the handler as it was put on the list. `exhausted` stands for the fuel.
pub data Added : Type 0 where
  einval ebusy exhausted : Added
  ok : Handler → Added

unfoldable pub overlaps : ℕ → ℕ → Handler → Bool
overlaps offset length h =
    ltb h.offset (u64 (offset + length)) && ltb offset (u64 (h.offset + h.length))

unfoldable pub lookup_overlapping : List Handler → ℕ → ℕ → Option Handler
lookup_overlapping [] offset length = none
lookup_overlapping (h ∷ hs) offset length =
    if overlaps offset length h then some h else lookup_overlapping hs offset length

unfoldable pub is_enclosing : Handler → ℕ → ℕ → Bool
is_enclosing h offset length =
    leb h.offset offset && leb (u64 (offset + length)) (u64 (h.offset + h.length))

unfoldable pub lookup_enclosing : List Handler → ℕ → ℕ → Option Handler
lookup_enclosing [] offset length = none
lookup_enclosing (h ∷ hs) offset length =
    if is_enclosing h offset length then some h else lookup_enclosing hs offset length

unfoldable pub is_in_fcp_region : ℕ → ℕ → Bool
is_in_fcp_region offset length =
    leb (0xfffff0000000 + 0xb00) offset && leb (u64 (offset + length)) (0xfffff0000000 + 0xf00)

-- The handler in the way, if the offset is not free.
abbrev pub in_the_way : List Handler → ℕ → ℕ → Option Handler
in_the_way hs offset length =
    if is_in_fcp_region offset length then none else lookup_overlapping hs offset length

unfoldable pub place_loop : List Handler → (length end : ℕ) → (fuel : ℕ) → (offset : ℕ) → Added
place_loop hs length end zero offset = exhausted
place_loop hs length end (suc fuel) offset =
    if leb (u64 (offset + length)) end
    then elim (in_the_way hs offset length) [
      | none ↦ ok (record { offset = offset; length = length })
      | some other ↦ place_loop hs length end fuel (u64 (offset + other.length))
    ]
    else ebusy

abbrev pub is_invalid : (length start end : ℕ) → Bool
is_invalid length start end =
    bit_and start 0xffff000000000003 != 0
    || leb end start
    || ltb 0x0001000000000000 end
    || bit_and length 3 != 0
    || length == 0

abbrev pub with_added : List Handler → Added → Added × List Handler
with_added hs (ok h) = (ok h, hs ++ (h ∷ []))
with_added hs r = (r, hs)

-- The result, and the list after it.
unfoldable pub add_address_handler : List Handler → (length start end : ℕ) → Added × List Handler
add_address_handler hs length start end =
    if is_invalid length start end
    then (einval, hs)
    else with_added hs (place_loop hs length end (end + 2 - start) start)

-- By its offset, which stands for the address of the handler.
unfoldable pub remove_address_handler : List Handler → ℕ → List Handler
remove_address_handler [] offset = []
remove_address_handler (h ∷ hs) offset =
    if h.offset == offset then hs else h ∷ remove_address_handler hs offset
