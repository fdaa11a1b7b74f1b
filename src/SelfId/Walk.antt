-- ===== src/SelfId/Walk.antt =====
-- `self_id_sequence_enumerator_next` finds exactly the well-formed sequences.
use linux_firewire_dkms.Prelude.{
  ℕ, suc, ◌+◌, ◌-◌, ◌≤◌, ◌<◌, ◌≡◌, refl, arith, true, false, some, List, [], ◌∷◌, ◌++◌, length,
  take, drop, Bool-cases, inl, inr, not, ◌||◌, leb, ◌!=◌, ◌≢◌, sym, ◌∙◌, length-take, drop-append,
}
use mathlib.Core.Path.{subst}
use linux_firewire_dkms.Packet.Phy.{
  get_self_id_more_packets, get_self_id_extended, get_self_id_extended_sequence,
}
use linux_firewire_dkms.SelfId.{
  Enumerator, found, fault, Scan, done, broken, overrun, scan, enumerator_next, advance,
  maximum_quadlet_count,
}

-- `q` with `qs` behind it ends a sequence whose next extended quadlet has the number `n`.
abbrev pub Chain : ℕ → ℕ → List ℕ → Type 0
Chain n q [] = get_self_id_more_packets q ≡ false
Chain n q (q' ∷ qs) =
    (get_self_id_more_packets q ≡ true)
    × (get_self_id_extended q' ≡ true)
    × (get_self_id_extended_sequence q' ≡ n)
    × Chain (n + 1) q' qs

-- A whole sequence: the quadlet number 0 and up to three extended ones, numbered in order.
abbrev pub IsSequence : List ℕ → Type 0
IsSequence [] = ⊥
IsSequence (q ∷ qs) = Chain 0 q qs × (length qs < maximum_quadlet_count)

-- `scan` ends at the quadlet that closes the chain.
scan_complete :
    (limit count n q : ℕ) (qs rest : List ℕ)
    → Chain n q qs
    → count + length qs ≤ limit
    → count + length qs ≤ maximum_quadlet_count
    → scan limit count n q (qs ++ rest) ≡ done (count + length qs)
unfolding scan
scan_complete limit count n q [] [] c h h' = ground arith
scan_complete limit count n q [] (r ∷ rest) c h h' = ground arith
scan_complete limit count n q (q' ∷ qs) rest c h h' =
    ground (arith, scan_complete limit (count + 1) (n + 1) q' qs rest c.3)

-- What a scan that ends has seen: `m` quadlets that continue the chain.
abbrev Scanned : ℕ → ℕ → ℕ → ℕ → List ℕ → ℕ → Type 0
Scanned limit count n q rest total =
    (m : ℕ) × (total ≡ count + m)
    × Chain n q (take m rest)
    × (m ≤ length rest)
    × (m ≢ 0 → (total ≤ limit) × (total ≤ maximum_quadlet_count))

scan_sound :
    (limit count n q : ℕ) (rest : List ℕ) {total : ℕ}
    → scan limit count n q rest ≡ done total
    → Scanned limit count n q rest total
unfolding scan
scan_sound limit count n q [] e =
    (0, ground arith, ground arith, ground arith, λ z. absurd (z refl))
scan_sound limit count n q (q' ∷ rest) {total} e = elim (Bool-cases (get_self_id_more_packets q)) [
  | inl more ↦
      let fits : leb limit count || leb maximum_quadlet_count count ≡ false = ground arith in
      let ok : not (get_self_id_extended q') || n != get_self_id_extended_sequence q' ≡ false =
        ground arith in
      let (m, total_is, chain, inside, bound) =
        scan_sound limit (count + 1) (n + 1) q' rest {total = total} (ground arith) in
      (suc m, omega arith, (more, ground arith, ground arith, chain), omega arith, ground arith)
  | inr last ↦ (0, ground arith, last, omega arith, λ z. absurd (z refl))
]

-- No read passes the `limit` quadlets that the caller announced.
scan_in_range :
    (limit count n q : ℕ) (rest : List ℕ)
    → limit ≤ count + length rest
    → scan limit count n q rest ≢ overrun
unfolding scan
scan_in_range limit count n q [] fits e = ground arith
scan_in_range limit count n q (q' ∷ rest) fits e =
    ground (arith, scan_in_range limit (count + 1) (n + 1) q' rest)

one-add : (m : ℕ) → 1 + m ≡ suc m
one-add m = omega arith

advance-found :
    (qs : List ℕ) (n : ℕ) (r : Scan) {count : ℕ} {e : Enumerator}
    → advance qs n r ≡ found count e
    → (r ≡ done count) × (e ≡ record { cursor = some (drop count qs); quadlet_count = n - count })
advance-found qs n (done c) eq = ground arith
advance-found qs n broken eq = ground arith
advance-found qs n overrun eq = ground arith

scan_of_found :
    (q : ℕ) (rest : List ℕ) (n : ℕ) {count : ℕ} {e : Enumerator}
    → enumerator_next (record { cursor = some (q ∷ rest); quadlet_count = n }) ≡ found count e
    → (n ≢ 0)
      × (scan n 1 0 q rest ≡ done count)
      × (e ≡ record { cursor = some (drop count (q ∷ rest)); quadlet_count = n - count })
unfolding enumerator_next
scan_of_found q rest n eq = ground (arith, advance-found (q ∷ rest) n (scan n 1 0 q rest))

-- A call never reads behind the quadlets that the enumerator counts, where these lie in memory.
pub enumerator_next-safe :
    (qs : List ℕ) (n : ℕ)
    → n ≤ length qs
    → enumerator_next (record { cursor = some qs; quadlet_count = n }) ≢ fault
unfolding enumerator_next
enumerator_next-safe [] n fits e = ground arith
enumerator_next-safe (q ∷ rest) n fits e = ground (arith, scan_in_range n 1 0 q rest)

-- What a call finds is a whole well-formed sequence of one to four quadlets, within those counted,
-- and the enumerator moves just behind it.
pub enumerator_next_sound :
    (qs : List ℕ) (n : ℕ) {count : ℕ} {e : Enumerator}
    → enumerator_next (record { cursor = some qs; quadlet_count = n }) ≡ found count e
    → IsSequence (take count qs)
      × (0 < count)
      × (count ≤ n)
      × (e ≡ record { cursor = some (drop count qs); quadlet_count = n - count })
unfolding enumerator_next
enumerator_next_sound [] n eq = ground arith
enumerator_next_sound (q ∷ rest) n {count} {e} eq =
    let (some_left, scanned, moved) = scan_of_found q rest n eq in
    let (m, total_is, chain, inside, bound) = scan_sound n 1 0 q rest {total = count} scanned in
    (
      subst (λ c. IsSequence (take c (q ∷ rest))) (sym (total_is ∙ one-add m))
          (chain, ground (arith, length-take m rest)),
      omega arith,
      ground arith,
      moved,
    )

-- A well-formed sequence at the cursor is found, and all of it.
pub enumerator_next_complete :
    (s rest : List ℕ) (n : ℕ)
    → IsSequence s
    → length s ≤ n
    → enumerator_next (record { cursor = some (s ++ rest); quadlet_count = n })
      ≡ found (length s) (record { cursor = some rest; quadlet_count = n - length s })
unfolding enumerator_next
enumerator_next_complete [] rest n w fits = absurd w
enumerator_next_complete (q ∷ qs) rest n w fits =
    ground (arith, scan_complete n 1 0 q qs rest w.0, drop-append qs rest)
