-- ===== src/Transaction/Pending.antt =====
-- The pending transactions of a card hold distinct labels, each marked in the mask.
use linux_firewire_dkms.Prelude.{
  ℕ, ◌<◌, ◌≡◌, ◌≢◌, ◌⊎◌, arith, Bool, true, some, inl, inr, List, [], ◌∷◌, Bool-cases, bit_and,
  test_bit,
}
use mathlib.Core.Path.{subst}
use linux_firewire_dkms.Transaction.{
  Entry, Card, bit64, not64, remove_id, remove_transaction_entry, find_entry,
}
use linux_firewire_dkms.Transaction.Label.{cleared}

-- No entry of the list is the transaction `id`, and none has the label `l`.
abbrev pub Without : ℕ → ℕ → List Entry → Type 0
Without id l [] = Unit
Without id l (t ∷ ts) = (t.id ≢ id) × (t.tlabel ≢ l) × Without id l ts

-- The entries are different transactions with different labels.
abbrev pub Distinct : List Entry → Type 0
Distinct [] = Unit
Distinct (t ∷ ts) = Without t.id t.tlabel ts × Distinct ts

-- Every entry has a label below 64 that is marked.
abbrev pub Marked : ℕ → List Entry → Type 0
Marked mask [] = Unit
Marked mask (t ∷ ts) = (t.tlabel < 64) × (test_bit mask t.tlabel ≡ 1) × Marked mask ts

abbrev pub Absent : ℕ → List Entry → Type 0
Absent id [] = Unit
Absent id (t ∷ ts) = (t.id ≢ id) × Absent id ts

abbrev pub In : Entry → List Entry → Type 0
In t [] = ⊥
In t (u ∷ us) = (u ≡ t) ⊎ In t us

pub record IsConsistent (c : Card) : Type 0 where
  pub current_lt : c.current_tlabel < 64
  pub distinct : Distinct c.list
  pub marks : Marked c.tlabel_mask c.list

Without-remove_id : (id l k : ℕ) (ts : List Entry) → Without id l ts → Without id l (remove_id k ts)
unfolding remove_id
Without-remove_id id l k [] w = w
Without-remove_id id l k (t ∷ ts) w = ground (arith, Without-remove_id id l k ts w.2)

Distinct-remove_id : (k : ℕ) (ts : List Entry) → Distinct ts → Distinct (remove_id k ts)
unfolding remove_id
Distinct-remove_id k [] d = d
Distinct-remove_id k (t ∷ ts) d =
    ground (arith, Distinct-remove_id k ts d.1, Without-remove_id t.id t.tlabel k ts d.0)

-- Where the label is not on the list, giving it back unmarks no entry.
Marked-cleared :
    (mask id l : ℕ) (ts : List Entry)
    → l < 64
    → Without id l ts
    → Marked mask ts
    → Marked (bit_and mask (not64 (bit64 l))) ts
Marked-cleared mask id l [] h w m = m
Marked-cleared mask id l (t ∷ ts) h w m =
    (m.0, ground (arith, cleared mask l t.tlabel h m.0), Marked-cleared mask id l ts h w.2 m.2)

Without-sym :
    (u t : Entry) (ts : List Entry)
    → Without u.id u.tlabel ts
    → In t ts
    → (u.id ≢ t.id) × (u.tlabel ≢ t.tlabel)
Without-sym u t [] w i = absurd i
Without-sym u t (v ∷ ts) w (inl e) = ground arith
Without-sym u t (v ∷ ts) w (inr i) = Without-sym u t ts w.2 i

Marked-In : (mask : ℕ) (t : Entry) (ts : List Entry) → In t ts → Marked mask ts → t.tlabel < 64
Marked-In mask t [] i m = absurd i
Marked-In mask t (u ∷ us) (inl e) m = ground arith
Marked-In mask t (u ∷ us) (inr i) m = Marked-In mask t us i m.2

Marked-removed :
    (mask : ℕ) (t : Entry) (ts : List Entry)
    → In t ts
    → Distinct ts
    → Marked mask ts
    → Marked (bit_and mask (not64 (bit64 t.tlabel))) (remove_id t.id ts)
unfolding remove_id
Marked-removed mask t [] i d m = absurd i
Marked-removed mask t (u ∷ us) (inl e) d m =
    rw (← e) (ground (arith, Marked-cleared mask u.id u.tlabel us m.0 d.0 m.2))
Marked-removed mask t (u ∷ us) (inr i) d m = ground (
  arith,
  Without-sym u t us d.0 i,
  cleared mask t.tlabel u.tlabel (Marked-In mask t us i m.2) m.0,
  Marked-removed mask t us i d.1 m.2,
)

pub remove-IsConsistent :
    {c : Card} (t : Entry)
    → In t c.list
    → IsConsistent c
    → IsConsistent (remove_transaction_entry c t)
unfolding remove_transaction_entry
remove-IsConsistent {c} t i v = record {
  current_lt = v.current_lt;
  distinct = Distinct-remove_id t.id c.list v.distinct;
  marks = Marked-removed c.tlabel_mask t c.list i v.distinct v.marks;
}

pub find_entry-In :
    (p : Entry → Bool) (ts : List Entry) {t : Entry}
    → find_entry p ts ≡ some t
    → In t ts × (p t ≡ true)
unfolding find_entry
find_entry-In p [] e = cc
find_entry-In p (u ∷ us) {t} e = elim (Bool-cases (p u)) [
  | inl yes_u ↦ let same : u ≡ t = ground arith in (inl same, subst (λ x. p x ≡ true) same yes_u)
  | inr no_u ↦
      let later : find_entry p us ≡ some t = ground arith in
      let r = find_entry-In p us later in (inr r.0, r.1)
]
