-- ===== src/Net/Fragments/Apart.antt =====
-- No two entries share a byte.
use linux_firewire_dkms.Prelude.{
  ℕ, ◌+◌, ◌^◌, ◌≤◌, ◌<◌, ◌≡◌, refl, ◌∙◌, ap, ap₂, arith, false, ◌||◌, Option, none, some, List, [],
  ◌∷◌, u32,
}
use linux_firewire_dkms.Net.Fragments.{
  Fragment, Walk, merged, inserted, at_head, hits, frag_overlap, frag_walk, tack_on_end,
  tack_on_beginning, after, keep, new_fragment, u16,
}
use linux_firewire_dkms.Net.Fragments.Coverage.{
  Fits, Fits-behind, listed, overlap-walk, overlap-second, overlap-front, overlap-tack_on_end,
}

-- No two fragments share a byte.
unfoldable pub Disjoint : List Fragment → Type 0
Disjoint [] = Unit
Disjoint (f ∷ fs) = (frag_overlap fs f.offset f.len ≡ false) × Disjoint fs

hits_sym :
    (a b : Fragment) (size : ℕ)
    → size < 2 ^ 16
    → a.offset + a.len ≤ size
    → b.offset + b.len ≤ size
    → hits a b.offset (u32 (b.offset + b.len)) ≡ hits b a.offset (u32 (a.offset + a.len))
unfolding hits
hits_sym a b size small fa fb = ground arith

Disjoint-behind :
    (prev : Option Fragment) (fs : List Fragment) → Disjoint (after prev fs) → Disjoint fs
unfolding Disjoint after
Disjoint-behind none fs h = h
Disjoint-behind (some p) fs h = h.1

overlap_behind :
    (prev : Option Fragment) (fs : List Fragment) (o l : ℕ)
    → frag_overlap (after prev fs) o l ≡ false
    → frag_overlap fs o l ≡ false
unfolding frag_overlap after
overlap_behind none fs o l h = h
overlap_behind (some p) fs o l h = ground arith

-- A range that two adjacent ones make up is free where both are.
overlap_glued :
    (fs : List Fragment) (size a m n : ℕ)
    → size < 2 ^ 16
    → Fits size fs
    → a + m + n ≤ size
    → frag_overlap fs a m ≡ false
    → frag_overlap fs (a + m) n ≡ false
    → frag_overlap fs a (u16 (m + n)) ≡ false
unfolding frag_overlap Fits hits
overlap_glued [] size a m n small fits inside h h' = refl
overlap_glued (f ∷ fs) size a m n small fits inside h h' =
    ground (arith, overlap_glued fs size a m n small fits.2)

Disjoint-tack_on_end :
    (fi : Fragment) (fs : List Fragment) (size o l : ℕ)
    → size < 2 ^ 16
    → Fits size (fi ∷ fs)
    → Disjoint (fi ∷ fs)
    → 0 < l
    → o + l ≤ size
    → frag_overlap (fi ∷ fs) o l ≡ false
    → fi.offset + fi.len ≡ o
    → Disjoint (tack_on_end fi fs o l)
unfolding tack_on_end Fits Disjoint frag_overlap
Disjoint-tack_on_end fi [] size o l small fits apart l_pos inside free e = ground arith
Disjoint-tack_on_end fi (fi2 ∷ fs) size o l small fits apart l_pos inside free e = ground (
  arith,
  overlap_glued (fi2 ∷ fs) size fi.offset fi.len l small fits.2,
  overlap_glued fs size fi.offset fi.len (l + fi2.len) small fits.2.2,
  overlap_glued fs size o l fi2.len small fits.2.2,
)

-- The same where the new range is the first of the two.
overlap_glued_front :
    (fs : List Fragment) (size a m n : ℕ)
    → size < 2 ^ 16
    → Fits size fs
    → a + m + n ≤ size
    → frag_overlap fs a m ≡ false
    → frag_overlap fs (a + m) n ≡ false
    → frag_overlap fs (u16 a) (u16 (n + m)) ≡ false
overlap_glued_front fs size a m n small fits inside h h' =
    ap₂ (frag_overlap fs) (omega arith) (omega arith)
    ∙ overlap_glued fs size a m n small fits inside h h'

overlap_glued_sum :
    (fs : List Fragment) (size a m n : ℕ)
    → size < 2 ^ 16
    → Fits size fs
    → a + m + n ≤ size
    → frag_overlap fs a m ≡ false
    → frag_overlap fs (a + m) n ≡ false
    → frag_overlap fs a (n + m) ≡ false
overlap_glued_sum fs size a m n small fits inside h h' =
    ap (frag_overlap fs a) (omega arith) ∙ overlap_glued fs size a m n small fits inside h h'

Disjoint-tack_on_beginning :
    (prev : Option Fragment) (fi : Fragment) (fs : List Fragment) (size o l : ℕ)
    → size < 2 ^ 16
    → Fits size (after prev (fi ∷ fs))
    → Disjoint (after prev (fi ∷ fs))
    → 0 < l
    → o + l ≤ size
    → frag_overlap (after prev (fi ∷ fs)) o l ≡ false
    → u32 (o + l) ≡ fi.offset
    → Disjoint (tack_on_beginning prev fi fs o l)
unfolding tack_on_beginning Fits Disjoint frag_overlap after hits
Disjoint-tack_on_beginning none fi fs size o l small fits apart l_pos inside free e =
    let meets : o + l ≡ fi.offset = omega arith in
    ground (
      arith,
      overlap_glued_front fs size o l fi.len small fits.2,
      ap (λ t. frag_overlap fs t fi.len) meets,
    )
Disjoint-tack_on_beginning (some p) fi fs size o l small fits apart l_pos inside free e =
    let meets : o + l ≡ fi.offset = omega arith in
    ground (
      arith,
      overlap_glued_front fs size o l fi.len small fits.2.2,
      overlap_glued fs size p.offset p.len (fi.len + l) small fits.2.2,
      overlap_glued fs size o l fi.len small fits.2.2,
      ap (λ t. frag_overlap fs t fi.len) meets,
      overlap_glued_sum fs size o l fi.len small fits.2.2,
    )

Disjoint-keep :
    (prev : Option Fragment) (fs : List Fragment) (o l : ℕ) (w : Walk) (size : ℕ)
    → size < 2 ^ 16
    → Fits size (after prev fs)
    → Disjoint (after prev fs)
    → o + l ≤ size
    → frag_overlap (after prev fs) o l ≡ false
    → ((x k : ℕ)
        → 0 < k
        → x + k < 2 ^ 32
        → frag_overlap (listed fs (new_fragment o l) w) x k
          ≡ hits (new_fragment o l) x (u32 (x + k)) || frag_overlap fs x k)
    → Disjoint (listed fs (new_fragment o l) w)
    → Disjoint (listed (after prev fs) (new_fragment o l) (keep prev w))
unfolding after keep Fits Disjoint frag_overlap hits new_fragment
Disjoint-keep none fs o l (merged gs) size small fits apart inside free cover d = d
Disjoint-keep none fs o l (inserted gs) size small fits apart inside free cover d = d
Disjoint-keep none fs o l at_head size small fits apart inside free cover d = d
Disjoint-keep (some p) fs o l (merged gs) size small fits apart inside free cover d =
    ground (arith, cover p.offset p.len)
Disjoint-keep (some p) fs o l (inserted gs) size small fits apart inside free cover d =
    ground (arith, cover p.offset p.len)
Disjoint-keep (some p) fs o l at_head size small fits apart inside free cover d = ground (arith)

Disjoint-after :
    (prev : Option Fragment) (fs gs : List Fragment) (o l size : ℕ)
    → size < 2 ^ 16
    → Fits size (after prev fs)
    → Disjoint (after prev fs)
    → o + l ≤ size
    → frag_overlap (after prev fs) o l ≡ false
    → ((x k : ℕ)
        → 0 < k
        → x + k < 2 ^ 32
        → frag_overlap gs x k ≡ hits (new_fragment o l) x (u32 (x + k)) || frag_overlap fs x k)
    → Disjoint gs
    → Disjoint (after prev gs)
unfolding after Fits Disjoint frag_overlap hits new_fragment
Disjoint-after none fs gs o l size small fits apart inside free cover d = d
Disjoint-after (some p) fs gs o l size small fits apart inside free cover d =
    ground (arith, cover p.offset p.len)

Disjoint-new :
    (fs : List Fragment) (size o l : ℕ)
    → size < 2 ^ 16
    → o + l ≤ size
    → Disjoint fs
    → frag_overlap fs o l ≡ false
    → Disjoint (new_fragment o l ∷ fs)
unfolding Disjoint new_fragment
Disjoint-new fs size o l small inside apart free =
    (ap₂ (frag_overlap fs) (omega arith) (omega arith) ∙ free, apart)

Disjoint-second :
    (fi : Fragment) (fs : List Fragment) (size o l : ℕ)
    → size < 2 ^ 16
    → Fits size (fi ∷ fs)
    → o + l ≤ size
    → Disjoint (fi ∷ fs)
    → frag_overlap (fi ∷ fs) o l ≡ false
    → Disjoint (fi ∷ new_fragment o l ∷ fs)
unfolding Disjoint new_fragment frag_overlap hits Fits
Disjoint-second fi fs size o l small fits inside apart free =
    ground (arith, (Disjoint-new fs size o l small inside))

-- The list that `frag_new` leaves is disjoint, where the new fragment overlaps none of the old.
pub Disjoint-walk :
    (prev : Option Fragment) (fs : List Fragment) (size o l : ℕ)
    → size < 2 ^ 16
    → Fits size (after prev fs)
    → Disjoint (after prev fs)
    → 0 < l
    → o + l ≤ size
    → frag_overlap (after prev fs) o l ≡ false
    → Disjoint (listed (after prev fs) (new_fragment o l) (frag_walk prev fs o l))
unfolding frag_walk after
Disjoint-walk prev [] size o l small fits apart l_pos inside free =
    Disjoint-new (after prev []) size o l small inside apart free
Disjoint-walk prev (fi ∷ rest) size o l small fits apart l_pos inside free =
    let new = new_fragment o l in
    let here = Fits-behind prev (fi ∷ rest) size fits in
    let apart_here = Disjoint-behind prev (fi ∷ rest) apart in
    let free_here = overlap_behind prev (fi ∷ rest) o l free in
    ground (
      arith,
      Disjoint-after prev (fi ∷ rest) (fi ∷ new ∷ rest) o l size small fits apart inside free
          (λ x k _ _. overlap-second new fi rest x k)
          (Disjoint-second fi rest size o l small here inside apart_here free_here),
      Disjoint-after prev (fi ∷ rest) (new ∷ fi ∷ rest) o l size small fits apart inside free
          (λ x k _ _. overlap-front new fi (fi ∷ rest) x k)
          (Disjoint-new (fi ∷ rest) size o l small inside apart_here free_here),
      (λ (e : fi.offset + fi.len ≡ o).
          Disjoint-after prev (fi ∷ rest) (tack_on_end fi rest o l) o l size small fits apart inside
            free
            (λ x k kp w. overlap-tack_on_end fi rest size o l x k small here l_pos inside kp w e)
            (Disjoint-tack_on_end fi rest size o l small here apart_here l_pos inside free_here e)),
      Disjoint-tack_on_beginning prev fi rest size o l small fits apart l_pos inside free,
      Disjoint-keep prev (fi ∷ rest) o l (frag_walk (some fi) rest o l) size small fits apart inside
          free (λ x k kp w. overlap-walk (some fi) rest size o l x k small here l_pos inside kp w)
          (Disjoint-walk (some fi) rest size o l small here apart_here l_pos inside free_here),
    )
