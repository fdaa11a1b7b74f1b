-- ===== src/Net/Fragments/Coverage.antt =====
-- Which bytes of a datagram the list of fragments stands for.
use linux_firewire_dkms.Prelude.{
  ℕ, ◌+◌, ◌^◌, ◌≤◌, ◌<◌, ◌≡◌, arith, Bool, ◌||◌, Option, none, some, List, [], ◌∷◌, u32,
}
use linux_firewire_dkms.Net.Fragments.{
  Fragment, Walk, merged, inserted, at_head, hits, frag_overlap, frag_walk, tack_on_end,
  tack_on_beginning, after, keep, new_fragment,
}

-- Every fragment is non-empty and lies inside the datagram.
unfoldable pub Fits : ℕ → List Fragment → Type 0
Fits size [] = Unit
Fits size (f ∷ fs) = (0 < f.len) × (f.offset + f.len ≤ size) × Fits size fs

abbrev pub listed : List Fragment → Fragment → Walk → List Fragment
listed fs new (merged gs) = gs
listed fs new (inserted gs) = gs
listed fs new at_head = new ∷ fs

pub overlap-tack_on_end :
    (fi : Fragment) (fs : List Fragment) (size o l x k : ℕ)
    → size < 2 ^ 16
    → Fits size (fi ∷ fs)
    → 0 < l
    → o + l ≤ size
    → 0 < k
    → x + k < 2 ^ 32
    → fi.offset + fi.len ≡ o
    → frag_overlap (tack_on_end fi fs o l) x k
      ≡ hits (new_fragment o l) x (u32 (x + k)) || frag_overlap (fi ∷ fs) x k
unfolding frag_overlap tack_on_end Fits hits new_fragment
overlap-tack_on_end fi [] size o l x k small fits l_pos inside k_pos word e = ground arith
overlap-tack_on_end fi (fi2 ∷ fs) size o l x k small fits l_pos inside k_pos word e = ground arith

overlap-tack_on_beginning :
    (prev : Option Fragment) (fi : Fragment) (fs : List Fragment) (size o l x k : ℕ)
    → size < 2 ^ 16
    → Fits size (after prev (fi ∷ fs))
    → 0 < l
    → o + l ≤ size
    → 0 < k
    → x + k < 2 ^ 32
    → u32 (o + l) ≡ fi.offset
    → frag_overlap (tack_on_beginning prev fi fs o l) x k
      ≡ hits (new_fragment o l) x (u32 (x + k)) || frag_overlap (after prev (fi ∷ fs)) x k
unfolding frag_overlap tack_on_beginning Fits hits after new_fragment
overlap-tack_on_beginning none fi fs size o l x k small fits l_pos inside k_pos word e =
    ground arith
overlap-tack_on_beginning (some p) fi fs size o l x k small fits l_pos inside k_pos word e =
    ground arith

overlap-keep :
    (prev : Option Fragment) (fs : List Fragment) (new : Fragment) (w : Walk) (x k : ℕ)
    → frag_overlap (listed fs new w) x k ≡ hits new x (u32 (x + k)) || frag_overlap fs x k
    → frag_overlap (listed (after prev fs) new (keep prev w)) x k
      ≡ hits new x (u32 (x + k)) || frag_overlap (after prev fs) x k
unfolding frag_overlap after keep
overlap-keep none fs new (merged gs) x k h = h
overlap-keep none fs new (inserted gs) x k h = h
overlap-keep none fs new at_head x k h = h
overlap-keep (some p) fs new (merged gs) x k h = ground arith
overlap-keep (some p) fs new (inserted gs) x k h = ground arith
overlap-keep (some p) fs new at_head x k h = ground arith

overlap-after :
    (prev : Option Fragment) (fs gs : List Fragment) (b : Bool) (x k : ℕ)
    → frag_overlap gs x k ≡ b || frag_overlap fs x k
    → frag_overlap (after prev gs) x k ≡ b || frag_overlap (after prev fs) x k
unfolding frag_overlap after
overlap-after none fs gs b x k h = h
overlap-after (some p) fs gs b x k h = ground arith

pub overlap-front :
    (new fi : Fragment) (rest : List Fragment) (x k : ℕ)
    → frag_overlap (new ∷ rest) x k ≡ hits new x (u32 (x + k)) || frag_overlap rest x k
unfolding frag_overlap
overlap-front new fi rest x k = ground arith

pub overlap-second :
    (new fi : Fragment) (rest : List Fragment) (x k : ℕ)
    → frag_overlap (fi ∷ new ∷ rest) x k ≡ hits new x (u32 (x + k)) || frag_overlap (fi ∷ rest) x k
unfolding frag_overlap
overlap-second new fi rest x k = ground arith

pub Fits-behind :
    (prev : Option Fragment) (fs : List Fragment) (size : ℕ)
    → Fits size (after prev fs)
    → Fits size fs
unfolding Fits after
Fits-behind none fs size h = h
Fits-behind (some p) fs size h = h.2

pub overlap-walk :
    (prev : Option Fragment) (fs : List Fragment) (size o l x k : ℕ)
    → size < 2 ^ 16
    → Fits size (after prev fs)
    → 0 < l
    → o + l ≤ size
    → 0 < k
    → x + k < 2 ^ 32
    → frag_overlap (listed (after prev fs) (new_fragment o l) (frag_walk prev fs o l)) x k
      ≡ hits (new_fragment o l) x (u32 (x + k)) || frag_overlap (after prev fs) x k
unfolding frag_overlap frag_walk after
overlap-walk prev [] size o l x k small fits l_pos inside k_pos word = ground arith
overlap-walk prev (fi ∷ rest) size o l x k small fits l_pos inside k_pos word =
    let new = new_fragment o l in
    ground (
      arith,
      overlap-after prev (fi ∷ rest) (tack_on_end fi rest o l) (hits new x (u32 (x + k))) x k,
      overlap-after prev (fi ∷ rest) (fi ∷ new ∷ rest) (hits new x (u32 (x + k))) x k,
      overlap-after prev (fi ∷ rest) (new ∷ fi ∷ rest) (hits new x (u32 (x + k))) x k,
      overlap-second new fi rest x k,
      overlap-front new fi (fi ∷ rest) x k,
      overlap-tack_on_end fi rest size o l x k small (Fits-behind prev (fi ∷ rest) size fits),
      overlap-tack_on_beginning prev fi rest size o l x k small fits,
      overlap-keep prev (fi ∷ rest) new (frag_walk (some fi) rest o l) x k,
      overlap-walk (some fi) rest size o l x k small (Fits-behind prev (fi ∷ rest) size fits),
    )
