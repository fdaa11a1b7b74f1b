-- ===== src/Net/Fragments.antt =====
-- The list of the parts of a datagram that have arrived: `fwnet_frag_overlap`, `fwnet_frag_new`
-- and `fwnet_pd_is_complete` of drivers/firewire/net.c.
pub mod Coverage
pub mod Bounds
pub mod Apart
pub mod Insert
pub mod Order
use linux_firewire_dkms.Prelude.{
  ℕ, ◌+◌, ◌%◌, ◌^◌, Bool, true, false, ◌&&◌, Option, none, some, List, [], ◌∷◌, ltb, ◌==◌,
  if◌then◌else◌, u32,
}

abbrev pub u16 : ℕ → ℕ
u16 n = n % 2 ^ 16

-- struct fwnet_fragment_info
pub record Fragment : Type 0 where
  pub offset : ℕ
  pub len : ℕ

-- The test of one entry, for a new fragment that begins at `offset` and ends before `end`.
unfoldable pub hits : Fragment → ℕ → ℕ → Bool
hits fi offset end = ltb offset (fi.offset + fi.len) && ltb fi.offset end

unfoldable pub frag_overlap : List Fragment → ℕ → ℕ → Bool
frag_overlap [] offset len = false
frag_overlap (fi ∷ rest) offset len =
    if hits fi offset (u32 (offset + len)) then true else frag_overlap rest offset len

-- Where the loop of `fwnet_frag_new` ends: at an entry that the new fragment is tacked on to, at a
-- place for an entry of its own, or at the end of the list, when `list` is still the list's head.
pub data Walk : Type 0 where
  merged : List Fragment → Walk
  inserted : List Fragment → Walk
  at_head : Walk

-- The new fragment begins where `fi` ends, and `rest` is behind `fi`.
unfoldable pub tack_on_end : Fragment → List Fragment → ℕ → ℕ → List Fragment
tack_on_end fi [] offset len = record { offset = fi.offset; len = u16 (fi.len + len) } ∷ []
tack_on_end fi (fi2 ∷ rest) offset len =
    if u32 (offset + len) == fi2.offset
    then record { offset = fi.offset; len = u16 (fi.len + (len + fi2.len)) } ∷ rest
    else record { offset = fi.offset; len = u16 (fi.len + len) } ∷ fi2 ∷ rest

-- The new fragment ends where `fi` begins; the entry before `fi` is given where there is one, and
-- is then the first of the result.
unfoldable pub tack_on_beginning :
    Option Fragment → Fragment → List Fragment → ℕ → ℕ → List Fragment
tack_on_beginning none fi rest offset len =
    record { offset = u16 offset; len = u16 (fi.len + len) } ∷ rest
tack_on_beginning (some fi2) fi rest offset len =
    if fi2.offset + fi2.len == offset
    then record { offset = fi2.offset; len = u16 (fi2.len + (fi.len + len)) } ∷ rest
    else fi2 ∷ record { offset = u16 offset; len = u16 (fi.len + len) } ∷ rest

unfoldable pub after : Option Fragment → List Fragment → List Fragment
after none fs = fs
after (some fi) fs = fi ∷ fs

unfoldable pub keep : Option Fragment → Walk → Walk
keep prev (merged fs) = merged (after prev fs)
keep prev (inserted fs) = inserted (after prev fs)
keep prev at_head = at_head

unfoldable pub new_fragment : ℕ → ℕ → Fragment
new_fragment offset len = record { offset = u16 offset; len = u16 len }

-- The loop with the entry before the current one; the list of the result begins at that entry.
unfoldable pub frag_walk : Option Fragment → List Fragment → ℕ → ℕ → Walk
frag_walk prev [] offset len = at_head
frag_walk prev (fi ∷ rest) offset len =
    let further = frag_walk (some fi) rest offset len in
    if fi.offset + fi.len == offset
    then merged (after prev (tack_on_end fi rest offset len))
    else if u32 (offset + len) == fi.offset
    then merged (tack_on_beginning prev fi rest offset len)
    else if ltb (fi.offset + fi.len) offset
    then inserted (after prev (fi ∷ new_fragment offset len ∷ rest))
    else if ltb (u32 (offset + len)) fi.offset
    then inserted (after prev (new_fragment offset len ∷ fi ∷ rest))
    else keep prev further

unfoldable pub placed : Bool → List Fragment → Fragment → Walk → Option (List Fragment)
placed has_memory fs new (merged gs) = some gs
placed has_memory fs new (inserted gs) = if has_memory then some gs else none
placed has_memory fs new at_head = if has_memory then some (new ∷ fs) else none

-- The list after the call, or none for the null pointer; the first argument tells whether
-- `kmalloc_obj` would succeed.
unfoldable pub frag_new : Bool → List Fragment → ℕ → ℕ → Option (List Fragment)
frag_new has_memory fs offset len =
    placed has_memory fs (new_fragment offset len) (frag_walk none fs offset len)

-- An empty list has no first entry to read: the caller has added one.
unfoldable pub is_complete : List Fragment → ℕ → Bool
is_complete [] datagram_size = false
is_complete (fi ∷ rest) datagram_size = fi.len == datagram_size
