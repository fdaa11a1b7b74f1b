-- ===== src/Net/Datagrams/Buffer.antt =====
-- The bytes of a buffer that have been written, against the fragments that have arrived.
use linux_firewire_dkms.Prelude.{
  ℕ, zero, suc, ◌+◌, ◌≤◌, ◌<◌, ◌≡◌, refl, sym, ◌∙◌, ap, arith, true, false, ◌&&◌, ◌||◌, Option,
  none, some, List, [], ◌∷◌, map, length, replicate, ltb, leb, max,
}
use mathlib.Core.Bool.{true≢false}
use linux_firewire_dkms.Net.Fragments.{Fragment}
use linux_firewire_dkms.Net.Fragments.Insert.{covers}
use linux_firewire_dkms.Net.Datagrams.{memcpy}

-- Of the bytes from number `start` on, those that the list covers have been written.
unfoldable pub Written : List Fragment → ℕ → List (Option ℕ) → Type 0
Written fs start [] = Unit
Written fs start (none ∷ rest) = (covers fs start ≡ false) × Written fs (start + 1) rest
Written fs start (some b ∷ rest) = Written fs (start + 1) rest

pub length-memcpy :
    (pbuf : List (Option ℕ)) (offset : ℕ) (bytes : List ℕ)
    → length (memcpy pbuf offset bytes) ≡ length pbuf
unfolding memcpy
length-memcpy [] offset bytes = refl
length-memcpy (b ∷ pbuf) zero [] = refl
length-memcpy (b ∷ pbuf) zero (c ∷ bytes) = ap suc (length-memcpy pbuf zero bytes)
length-memcpy (b ∷ pbuf) (suc offset) bytes = ap suc (length-memcpy pbuf offset bytes)

pub Written-replicate : (n start : ℕ) → Written [] start (replicate n none)
unfolding Written covers
Written-replicate zero start = tt
Written-replicate (suc n) start = (refl, Written-replicate n (start + 1))

-- A list that covers what the old one does and the bytes from `lo` up to `hi`.
abbrev pub Adds : List Fragment → List Fragment → ℕ → ℕ → ℕ → Type 0
Adds fs gs lo hi size = (i : ℕ) → i < size → covers gs i ≡ covers fs i || (leb lo i && ltb i hi)

-- Behind the range, nothing changes.
Written-later :
    (fs gs : List Fragment) (lo hi size start : ℕ) (pbuf : List (Option ℕ))
    → Adds fs gs lo hi size
    → size ≡ start + length pbuf
    → hi ≤ start
    → Written fs start pbuf
    → Written gs start pbuf
unfolding Written
Written-later fs gs lo hi size start [] adds s_is late w = tt
Written-later fs gs lo hi size start (none ∷ pbuf) adds s_is late w = (
  ground (arith, adds start),
  Written-later fs gs lo hi size (start + 1) pbuf adds (omega arith) (omega arith) w.1,
)
Written-later fs gs lo hi size start (some b ∷ pbuf) adds s_is late w =
    Written-later fs gs lo hi size (start + 1) pbuf adds (omega arith) (omega arith) w

pub Written-memcpy :
    (fs gs : List Fragment) (lo hi size start : ℕ) (pbuf : List (Option ℕ)) (offset : ℕ)
    (bytes : List ℕ)
    → Adds fs gs lo hi size
    → size ≡ start + length pbuf
    → max lo start ≡ start + offset
    → hi ≡ start + offset + length bytes
    → Written fs start pbuf
    → Written gs start (memcpy pbuf offset bytes)
unfolding Written memcpy
Written-memcpy fs gs lo hi size start [] offset bytes adds s_is lo_is hi_is w = tt
Written-memcpy fs gs lo hi size start (none ∷ pbuf) zero [] adds s_is lo_is hi_is w = (
  ground (arith, adds start),
  Written-later fs gs lo hi size (start + 1) pbuf adds (omega arith) (omega arith) w.1,
)
Written-memcpy fs gs lo hi size start (some b ∷ pbuf) zero [] adds s_is lo_is hi_is w =
    Written-later fs gs lo hi size (start + 1) pbuf adds (omega arith) (omega arith) w
Written-memcpy fs gs lo hi size start (none ∷ pbuf) zero (c ∷ bytes) adds s_is lo_is hi_is w =
    Written-memcpy fs gs lo hi size (start + 1) pbuf zero bytes adds (omega arith) (omega arith)
      (omega arith) w.1
Written-memcpy fs gs lo hi size start (some b ∷ pbuf) zero (c ∷ bytes) adds s_is lo_is hi_is w =
    Written-memcpy fs gs lo hi size (start + 1) pbuf zero bytes adds (omega arith) (omega arith)
      (omega arith) w
Written-memcpy fs gs lo hi size start (none ∷ pbuf) (suc offset) bytes adds s_is lo_is hi_is w = (
  ground (arith, adds start),
  Written-memcpy fs gs lo hi size (start + 1) pbuf offset bytes adds (omega arith) (omega arith)
      (omega arith) w.1,
)
Written-memcpy fs gs lo hi size start (some b ∷ pbuf) (suc offset) bytes adds s_is lo_is hi_is w =
    Written-memcpy fs gs lo hi size (start + 1) pbuf offset bytes adds (omega arith) (omega arith)
      (omega arith) w

-- Where every byte is covered, every byte has been written.
pub Written-all :
    (fs : List Fragment) (size start : ℕ) (pbuf : List (Option ℕ))
    → ((i : ℕ) → i < size → covers fs i ≡ true)
    → size ≡ start + length pbuf
    → Written fs start pbuf
    → (bytes : List ℕ) × (pbuf ≡ map some bytes)
unfolding Written
Written-all fs size start [] full e w = ([], refl)
Written-all fs size start (none ∷ pbuf) full e w =
    absurd (true≢false (sym (full start (omega arith)) ∙ w.0))
Written-all fs size start (some b ∷ pbuf) full e w =
    let (bytes, same) = Written-all fs size (start + 1) pbuf full (omega arith) w in
    (b ∷ bytes, ap (λ t. some b ∷ t) same)
