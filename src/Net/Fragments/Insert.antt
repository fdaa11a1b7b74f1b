-- ===== src/Net/Fragments/Insert.antt =====
-- What `frag_new` and `is_complete` promise: the list stands for the set of bytes that arrived.
use linux_firewire_dkms.Prelude.{
  ℕ, ◌+◌, ◌^◌, ◌≤◌, ◌<◌, ◌≡◌, ◌⊎◌, refl, arith, Bool, true, false, ◌&&◌, ◌||◌, none, some, List, [],
  ◌∷◌, ltb, leb, inl, inr,
}
use linux_firewire_dkms.Net.Fragments.{
  Fragment, Walk, merged, inserted, at_head, hits, frag_overlap, frag_walk, frag_new, placed,
  new_fragment, is_complete, after,
}
use linux_firewire_dkms.Net.Fragments.Coverage.{Fits, listed, overlap-walk}
use linux_firewire_dkms.Net.Fragments.Bounds.{Fits-walk}
use linux_firewire_dkms.Net.Fragments.Apart.{Disjoint, Disjoint-walk}

-- A byte of the datagram has arrived.
unfoldable pub covers : List Fragment → ℕ → Bool
covers [] i = false
covers (f ∷ fs) i = (leb f.offset i && ltb i (f.offset + f.len)) || covers fs i

-- The entries are non-empty parts of a datagram of `size` bytes, and no byte is in two of them.
unfoldable pub IsFragments : ℕ → List Fragment → Type 0
IsFragments size fs = Fits size fs × Disjoint fs

pub IsFragments-empty : (size : ℕ) → IsFragments size []
unfolding IsFragments Fits Disjoint
IsFragments-empty size = (tt, tt)

overlap-covers :
    (fs : List Fragment) (size i : ℕ) → size < 2 ^ 16 → i < size → frag_overlap fs i 1 ≡ covers fs i
unfolding frag_overlap covers hits
overlap-covers [] size i small h = refl
overlap-covers (f ∷ fs) size i small h = ground (arith, overlap-covers fs size i small h)

placed-listed :
    (has_memory : Bool) (fs : List Fragment) (new : Fragment) (w : Walk)
    → (placed has_memory fs new w ≡ some (listed fs new w))
      ⊎ ((placed has_memory fs new w ≡ none) × (has_memory ≡ false))
unfolding placed
placed-listed true fs new (merged gs) = inl refl
placed-listed true fs new (inserted gs) = inl refl
placed-listed true fs new at_head = inl refl
placed-listed false fs new (merged gs) = inl refl
placed-listed false fs new (inserted gs) = inr (refl, refl)
placed-listed false fs new at_head = inr (refl, refl)

covers-walk :
    (fs : List Fragment) (size o l i : ℕ)
    → size < 2 ^ 16
    → Fits size fs
    → 0 < l
    → o + l ≤ size
    → i < size
    → covers (listed fs (new_fragment o l) (frag_walk none fs o l)) i
      ≡ covers fs i || (leb o i && ltb i (o + l))
unfolding hits new_fragment after
covers-walk fs size o l i small fits l_pos inside i_in = ground (
  arith,
  overlap-covers (listed fs (new_fragment o l) (frag_walk none fs o l)) size i small i_in,
  overlap-covers fs size i small i_in,
  overlap-walk none fs size o l i 1 small fits l_pos inside (omega arith) (omega arith),
)

-- A new fragment that lies in the datagram, is not empty and overlaps none before it is added: the
-- list stays one of disjoint non-empty parts of the datagram, and stands for the bytes of before
-- and those of the fragment. Only where memory is out can the call fail instead.
pub frag_new_lem :
    (has_memory : Bool) (fs : List Fragment) (size offset len i : ℕ)
    → size < 2 ^ 16
    → IsFragments size fs
    → 0 < len
    → offset + len ≤ size
    → frag_overlap fs offset len ≡ false
    → i < size
    → ((gs : List Fragment) × (frag_new has_memory fs offset len ≡ some gs)
        × IsFragments size gs
        × (covers gs i ≡ covers fs i || (leb offset i && ltb i (offset + len))))
      ⊎ ((frag_new has_memory fs offset len ≡ none) × (has_memory ≡ false))
unfolding frag_new IsFragments after
frag_new_lem has_memory fs size o l i small h l_pos inside free i_in =
    let new = new_fragment o l in
    let w = frag_walk none fs o l in
    elim (placed-listed has_memory fs new w) [
      | inl e ↦ inl (
        listed fs new w,
        e,
        (
          Fits-walk none fs size o l small h.0 l_pos inside,
          Disjoint-walk none fs size o l small h.0 h.1 l_pos inside free,
        ),
        covers-walk fs size o l i small h.0 l_pos inside i_in,
      )
      | inr failed ↦ inr failed
    ]

-- A datagram that counts as complete has no missing byte.
pub is_complete-covers :
    (fs : List Fragment) (size i : ℕ)
    → IsFragments size fs
    → is_complete fs size ≡ true
    → i < size
    → covers fs i ≡ true
unfolding is_complete covers IsFragments Fits
is_complete-covers [] size i h e i_in = ground arith
is_complete-covers (f ∷ fs) size i h e i_in = ground arith
