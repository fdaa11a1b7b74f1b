-- ===== src/Inbound/Handlers/Registry.antt =====
-- The handlers of a list keep out of each other's way.
use linux_firewire_dkms.Prelude.{
  ℕ, ◌+◌, ◌^◌, ◌≤◌, ◌<◌, ◌≡◌, ◌⊎◌, inl, inr, arith, true, false, some, List, [], ◌∷◌, ◌++◌,
}
use linux_firewire_dkms.Inbound.Handlers.{
  Handler, Added, ok, einval, ebusy, exhausted, is_enclosing, lookup_enclosing, is_in_fcp_region,
}

-- The two ranges have no address in common.
abbrev pub Apart : Handler → Handler → Type 0
Apart g h = (g.offset + g.length ≤ h.offset) ⊎ (h.offset + h.length ≤ g.offset)

abbrev pub AllApart : List Handler → Handler → Type 0
AllApart [] h = Unit {0}
AllApart (g ∷ hs) h = Apart g h × AllApart hs h

-- The handler lies in the registers of the function control protocol, where handlers may overlap,
-- or apart from all of the list.
abbrev pub Clear : List Handler → Handler → Type 0
Clear hs h = (is_in_fcp_region h.offset h.length ≡ true) ⊎ AllApart hs h

-- Each of the list, later than `g`, lies in those registers or apart from `g`.
abbrev pub ClearOf : Handler → List Handler → Type 0
ClearOf g [] = Unit {0}
ClearOf g (h ∷ hs) = ((is_in_fcp_region h.offset h.length ≡ true) ⊎ Apart g h) × ClearOf g hs

-- Every handler came where it was clear of those before it, covers an address at least, and ends
-- within the 48 bits of addresses.
abbrev pub IsRegistry : List Handler → Type 0
IsRegistry [] = Unit {0}
IsRegistry (g ∷ hs) =
    ((0 < g.length) × (g.offset + g.length ≤ 2 ^ 48)) × ClearOf g hs × IsRegistry hs

-- Where the loop puts a handler.
abbrev Placed : List Handler → (length start end : ℕ) → Added → Type 0
Placed hs length start end einval = Unit {0}
Placed hs length start end ebusy = Unit {0}
Placed hs length start end exhausted = ⊥
Placed hs length start end (ok h) =
    (h.length ≡ length) × (start ≤ h.offset) × (h.offset + length ≤ end) × Clear hs h

-- The answer, and what became of the list.
abbrev pub Registered : List Handler → (length start end : ℕ) → Added → List Handler → Type 0
Registered hs length start end einval hs' = hs' ≡ hs
Registered hs length start end ebusy hs' = hs' ≡ hs
Registered hs length start end exhausted hs' = ⊥
Registered hs length start end (ok h) hs' =
    (h.length ≡ length) × (start ≤ h.offset) × (h.offset + length ≤ end) × (hs' ≡ hs ++ (h ∷ []))

apart_lem :
    (g h : Handler) (offset length : ℕ)
    → Apart g h
    → g.offset + g.length ≤ 2 ^ 48
    → h.offset + h.length ≤ 2 ^ 48
    → 0 < length
    → h.offset ≤ offset
    → offset + length ≤ h.offset + h.length
    → is_enclosing g offset length ≡ false
unfolding is_enclosing
apart_lem g h offset length (inl a) low low' pos from to = ground arith
apart_lem g h offset length (inr a) low low' pos from to = ground arith

-- A handler that is apart from all before it takes every request that falls within its range.
pub lookup_enclosing-append :
    (hs : List Handler) (h : Handler) (offset length : ℕ)
    → AllApart hs h
    → IsRegistry hs
    → h.offset + h.length ≤ 2 ^ 48
    → 0 < length
    → h.offset ≤ offset
    → offset + length ≤ h.offset + h.length
    → lookup_enclosing (hs ++ (h ∷ [])) offset length ≡ some h
unfolding lookup_enclosing is_enclosing
lookup_enclosing-append [] h offset length a v low pos from to = ground arith
lookup_enclosing-append (g ∷ hs) h offset length a v low pos from to =
    let rest = lookup_enclosing-append hs h offset length a.1 v.2 low pos from to in
    let other : is_enclosing g offset length ≡ false =
      apart_lem g h offset length a.0 v.0.1 low pos from to in
    rw other rest
