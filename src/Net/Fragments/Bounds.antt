-- ===== src/Net/Fragments/Bounds.antt =====
-- Each entry stays inside the datagram, and apart from the others.
use linux_firewire_dkms.Prelude.{
  ℕ, ◌+◌, ◌^◌, ◌≤◌, ◌<◌, ◌≡◌, arith, Option, none, some, List, [], ◌∷◌, u32,
}
use linux_firewire_dkms.Net.Fragments.{
  Fragment, Walk, merged, inserted, at_head, frag_walk, tack_on_end, tack_on_beginning, after, keep,
  new_fragment,
}
use linux_firewire_dkms.Net.Fragments.Coverage.{Fits, Fits-behind, listed}

Fits-after :
    (prev : Option Fragment) (fs gs : List Fragment) (size : ℕ)
    → Fits size (after prev fs)
    → Fits size gs
    → Fits size (after prev gs)
unfolding Fits after
Fits-after none fs gs size h g = g
Fits-after (some p) fs gs size h g = (h.0, h.1, g)

Fits-keep :
    (prev : Option Fragment) (fs : List Fragment) (new : Fragment) (w : Walk) (size : ℕ)
    → Fits size (after prev fs)
    → Fits size (listed fs new w)
    → Fits size (listed (after prev fs) new (keep prev w))
unfolding Fits after keep
Fits-keep none fs new (merged gs) size h g = g
Fits-keep none fs new (inserted gs) size h g = g
Fits-keep none fs new at_head size h g = g
Fits-keep (some p) fs new (merged gs) size h g = (h.0, h.1, g)
Fits-keep (some p) fs new (inserted gs) size h g = (h.0, h.1, g)
Fits-keep (some p) fs new at_head size h g = (g.0, g.1, h)

Fits-tack_on_end :
    (fi : Fragment) (fs : List Fragment) (size o l : ℕ)
    → size < 2 ^ 16
    → Fits size (fi ∷ fs)
    → 0 < l
    → o + l ≤ size
    → fi.offset + fi.len ≡ o
    → Fits size (tack_on_end fi fs o l)
unfolding tack_on_end Fits
Fits-tack_on_end fi [] size o l small fits l_pos inside e = ground arith
Fits-tack_on_end fi (fi2 ∷ fs) size o l small fits l_pos inside e = ground arith

Fits-tack_on_beginning :
    (prev : Option Fragment) (fi : Fragment) (fs : List Fragment) (size o l : ℕ)
    → size < 2 ^ 16
    → Fits size (after prev (fi ∷ fs))
    → 0 < l
    → o + l ≤ size
    → u32 (o + l) ≡ fi.offset
    → Fits size (tack_on_beginning prev fi fs o l)
unfolding tack_on_beginning Fits after
Fits-tack_on_beginning none fi fs size o l small fits l_pos inside e = ground arith
Fits-tack_on_beginning (some p) fi fs size o l small fits l_pos inside e = ground arith

Fits-new :
    (fs : List Fragment) (size o l : ℕ)
    → size < 2 ^ 16
    → Fits size fs
    → 0 < l
    → o + l ≤ size
    → Fits size (new_fragment o l ∷ fs)
unfolding Fits new_fragment
Fits-new fs size o l small fits l_pos inside = (omega arith, omega arith, fits)

Fits-second :
    (fi new : Fragment) (fs : List Fragment) (size : ℕ)
    → Fits size (fi ∷ fs)
    → Fits size (new ∷ fs)
    → Fits size (fi ∷ new ∷ fs)
unfolding Fits
Fits-second fi new fs size h g = (h.0, h.1, g)

-- The list that `frag_new` leaves fits in the datagram.
pub Fits-walk :
    (prev : Option Fragment) (fs : List Fragment) (size o l : ℕ)
    → size < 2 ^ 16
    → Fits size (after prev fs)
    → 0 < l
    → o + l ≤ size
    → Fits size (listed (after prev fs) (new_fragment o l) (frag_walk prev fs o l))
unfolding frag_walk after
Fits-walk prev [] size o l small fits l_pos inside =
    Fits-new (after prev []) size o l small fits l_pos inside
Fits-walk prev (fi ∷ rest) size o l small fits l_pos inside =
    let new = new_fragment o l in
    let here = Fits-behind prev (fi ∷ rest) size fits in
    ground (
      arith,
      Fits-after prev (fi ∷ rest) (tack_on_end fi rest o l) size fits,
      Fits-after prev (fi ∷ rest) (fi ∷ new ∷ rest) size fits,
      Fits-after prev (fi ∷ rest) (new ∷ fi ∷ rest) size fits,
      Fits-second fi new rest size here
          (Fits-new rest size o l small (Fits-behind (some fi) rest size here) l_pos inside),
      Fits-new (fi ∷ rest) size o l small here l_pos inside,
      Fits-tack_on_end fi rest size o l small here l_pos inside,
      Fits-tack_on_beginning prev fi rest size o l small fits l_pos inside,
      Fits-keep prev (fi ∷ rest) new (frag_walk (some fi) rest o l) size fits,
      Fits-walk (some fi) rest size o l small here l_pos inside,
    )
