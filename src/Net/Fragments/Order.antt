-- ===== src/Net/Fragments/Order.antt =====
-- Whether a datagram whose bytes have all arrived counts as complete depends on the order.
use linux_firewire_dkms.Prelude.{
  ℕ, ◌+◌, ◌*◌, ◌^◌, ◌<◌, ◌≡◌, ◌↔◌, ◌∙◌, ap, arith, true, false, Option, none, some, List, [], ◌∷◌,
}
use linux_firewire_dkms.Net.Fragments.{
  Fragment, frag_walk, frag_new, placed, new_fragment, is_complete, after, tack_on_end,
}
use linux_firewire_dkms.Net.Fragments.Insert.{covers}

-- Fragments that arrive one after the other, as (offset, len); none once memory is out.
unfoldable pub arrive : List Fragment → List Fragment → Option (List Fragment)
arrive fs [] = some fs
arrive fs (f ∷ rest) = elim (frag_new true fs f.offset f.len) [
  | none ↦ none
  | some gs ↦ arrive gs rest
]

-- The pieces that follow byte `offset` without a gap, of the given lengths.
unfoldable pub consecutive : ℕ → List ℕ → List Fragment
consecutive offset [] = []
consecutive offset (l ∷ ls) = record { offset = offset; len = l } ∷ consecutive (offset + l) ls

unfoldable pub sum : List ℕ → ℕ
sum [] = 0
sum (l ∷ ls) = l + sum ls

abbrev piece : ℕ → ℕ → Fragment
piece offset len = record { offset = offset; len = len }

arrive-step :
    (fs gs rest : List Fragment) (o l : ℕ)
    → frag_new true fs o l ≡ some gs
    → arrive fs (record { offset = o; len = l } ∷ rest) ≡ arrive gs rest
unfolding arrive
arrive-step fs gs rest o l e =
    ap (λ t. elim t as (λ _. Option (List Fragment)) [ none ↦ none | some gs ↦ arrive gs rest ]) e

tack_on_only :
    (n l : ℕ)
    → n + l < 2 ^ 16
    → frag_new true (record { offset = 0; len = n } ∷ []) n l
      ≡ some (record { offset = 0; len = n + l } ∷ [])
unfolding frag_new frag_walk placed tack_on_end after
tack_on_only n l small = ground arith

arrive-consecutive :
    (n : ℕ) (ls : List ℕ)
    → n + sum ls < 2 ^ 16
    → arrive (record { offset = 0; len = n } ∷ []) (consecutive n ls)
      ≡ some (record { offset = 0; len = n + sum ls } ∷ [])
unfolding arrive consecutive sum
arrive-consecutive n [] small = ground arith
arrive-consecutive n (l ∷ ls) small =
    arrive-step (record { offset = 0; len = n } ∷ []) (record { offset = 0; len = n + l } ∷ [])
      (consecutive (n + l) ls) n l (tack_on_only n l (omega arith))
    ∙ (arrive-consecutive (n + l) ls (omega arith)
        ∙ ap (λ t. some (record { offset = 0; len = t } ∷ [])) (omega arith))

first_alone :
    (l : ℕ) → l < 2 ^ 16 → frag_new true [] 0 l ≡ some (record { offset = 0; len = l } ∷ [])
unfolding frag_new frag_walk placed new_fragment
first_alone l small = ground arith

-- Fragments that arrive in the order of their offsets, without a gap, from byte 0 on: each can be
-- added, and the datagram counts as complete just when their lengths add up to its size.
pub arrive-is_complete :
    (l : ℕ) (ls : List ℕ) (size : ℕ)
    → l + sum ls < 2 ^ 16
    → (gs : List Fragment) × (arrive [] (consecutive 0 (l ∷ ls)) ≡ some gs)
      × ((is_complete gs size ≡ true) ↔ (l + sum ls ≡ size))
unfolding arrive consecutive is_complete
arrive-is_complete l ls size small = (
  record { offset = 0; len = l + sum ls } ∷ [],
  ap (λ t. arrive [] (piece 0 l ∷ consecutive t ls)) (omega arith)
      ∙ arrive-step [] (piece 0 l ∷ []) (consecutive l ls) 0 l (first_alone l (omega arith))
      ∙ arrive-consecutive l ls small,
  ((λ e. ground arith), (λ e. ground arith)),
)

-- Four pieces of `n` bytes each, of which the second arrives last.
unfoldable pub out_of_order : ℕ → List Fragment
out_of_order n =
    record { offset = 0; len = n }
    ∷ record { offset = 2 * n; len = n }
    ∷ record { offset = 3 * n; len = n }
    ∷ record { offset = n; len = n }
    ∷ []

module _ (n : ℕ) (n_pos : 0 < n) (small : 4 * n < 2 ^ 16) where
  third : frag_new true (piece 0 n ∷ []) (2 * n) n ≡ some (piece 0 n ∷ piece (2 * n) n ∷ [])
  unfolding frag_new frag_walk placed after new_fragment
  third = ground arith

  fourth :
      frag_new true (piece 0 n ∷ piece (2 * n) n ∷ []) (3 * n) n
      ≡ some (piece 0 n ∷ piece (3 * n) n ∷ piece (2 * n) n ∷ [])
  unfolding frag_new frag_walk placed after new_fragment
  fourth = ground arith

  second :
      frag_new true (piece 0 n ∷ piece (3 * n) n ∷ piece (2 * n) n ∷ []) n n
      ≡ some (piece 0 (2 * n) ∷ piece (3 * n) n ∷ piece (2 * n) n ∷ [])
  unfolding frag_new frag_walk placed after tack_on_end
  second = ground arith

  arrive_four :
      arrive [] (out_of_order n) ≡ some (piece 0 (2 * n) ∷ piece (3 * n) n ∷ piece (2 * n) n ∷ [])
  unfolding out_of_order arrive
  arrive_four =
      let a = piece 0 n ∷ piece (2 * n) n ∷ [] in
      let b = piece 0 n ∷ piece (3 * n) n ∷ piece (2 * n) n ∷ [] in
      let c = piece 0 (2 * n) ∷ piece (3 * n) n ∷ piece (2 * n) n ∷ [] in
      let last_two = piece (3 * n) n ∷ piece n n ∷ [] in
      arrive-step [] (piece 0 n ∷ []) (piece (2 * n) n ∷ last_two) 0 n (first_alone n (omega arith))
      ∙ arrive-step (piece 0 n ∷ []) a last_two (2 * n) n third
      ∙ arrive-step a b (piece n n ∷ []) (3 * n) n fourth
      ∙ arrive-step b c [] n n second

-- A datagram of four pieces of equal length, of which the first, the third, the fourth and then
-- the second arrive: each byte of it has arrived, and it does not count as complete.
pub out_of_order_lem :
    (n i : ℕ)
    → 0 < n
    → 4 * n < 2 ^ 16
    → i < 4 * n
    → (gs : List Fragment) × (arrive [] (out_of_order n) ≡ some gs)
      × (covers gs i ≡ true)
      × (is_complete gs (4 * n) ≡ false)
unfolding covers is_complete
out_of_order_lem n i n_pos small i_in = (
  piece 0 (2 * n) ∷ piece (3 * n) n ∷ piece (2 * n) n ∷ [],
  arrive_four n n_pos small,
  ground arith,
  ground arith,
)
