-- ===== src/Transaction/Race.antt =====
-- A response and the split timer of its transaction: how often the callback is called.
use mathlib.Core.List.{append_assoc}
use linux_firewire_dkms.Prelude.{
  ℕ, ◌≡◌, ◌≢◌, refl, ◌∙◌, arith, Bool, true, false, ◌&&◌, none, some, inl, inr, List, [], ◌∷◌, ◌++◌,
  Bool-cases, ◌==◌, if◌then◌else◌,
}
use linux_firewire_dkms.Transaction.{
  Entry, Card, State, try_cancel_split_timeout, remove_id, remove_transaction_entry, find_entry,
  find_and_pop_transaction_entry, call, close_transaction, split_transaction_timeout,
  handle_response, rcode_cancelled,
}
use linux_firewire_dkms.Transaction.Pending.{
  Without, Distinct, Absent, In, IsConsistent, find_entry-In,
}

Absent-Without : (id l : ℕ) (ts : List Entry) → Without id l ts → Absent id ts
Absent-Without id l [] w = tt
Absent-Without id l (t ∷ ts) w = (w.0, Absent-Without id l ts w.2)

Without-ne : (id l : ℕ) (t : Entry) (ts : List Entry) → Without id l ts → In t ts → t.id ≢ id
Without-ne id l t [] w i = absurd i
Without-ne id l t (u ∷ us) w (inl e) = ground arith
Without-ne id l t (u ∷ us) w (inr i) = Without-ne id l t us w.2 i

Absent-removed :
    (t : Entry) (ts : List Entry) → In t ts → Distinct ts → Absent t.id (remove_id t.id ts)
unfolding remove_id
Absent-removed t [] i d = absurd i
Absent-removed t (u ∷ us) (inl e) d = ground (arith, Absent-Without u.id u.tlabel us d.0)
Absent-removed t (u ∷ us) (inr i) d =
    ground (arith, Without-ne u.id u.tlabel t us d.0 i, Absent-removed t us i d.1)

find-Absent : (id : ℕ) (ts : List Entry) → Absent id ts → find_entry (λ t. t.id == id) ts ≡ none
unfolding find_entry
find-Absent id [] a = refl
find-Absent id (t ∷ ts) a = ground (arith, find-Absent id ts a.1)

find-present :
    (t : Entry) (ts : List Entry)
    → In t ts
    → (u : Entry) × (find_entry (λ v. v.id == t.id) ts ≡ some u)
unfolding find_entry
find-present t [] i = absurd i
find-present t (v ∷ vs) (inl e) = (v, ground arith)
find-present t (v ∷ vs) (inr i) = elim (Bool-cases (v.id == t.id)) [
  | inl here ↦ (v, rw here)
  | inr later ↦ let (u, e) = find-present t vs i in (u, rw later e)
]

abbrev matching : ℕ → ℕ → Entry → Bool
matching source tlabel t = t.node_id == source && t.tlabel == tlabel

response_lem :
    (source tlabel rcode : ℕ) (s : State) {t : Entry}
    → find_entry (matching source tlabel) s.card.list ≡ some t
    → handle_response source tlabel rcode s
      ≡ call
          (record s {
            card = if try_cancel_split_timeout t then remove_transaction_entry s.card t else s.card;
          })
          t.id
          rcode
unfolding handle_response find_and_pop_transaction_entry
response_lem source tlabel rcode s e = rw (e, find_and_pop_transaction_entry)

list-remove : (c : Card) (t : Entry) → (remove_transaction_entry c t).list ≡ remove_id t.id c.list
unfolding remove_transaction_entry
list-remove c t = refl

timeout-Absent : (id : ℕ) (s : State) → Absent id s.card.list → split_transaction_timeout id s ≡ s
unfolding split_transaction_timeout
timeout-Absent id s a = rw (find-Absent id s.card.list a, split_transaction_timeout)

close-Absent : (id rcode : ℕ) (s : State) → Absent id s.card.list → close_transaction id rcode s ≡ s
unfolding close_transaction find_and_pop_transaction_entry
close-Absent id rcode s a = rw (find-Absent id s.card.list a, find_and_pop_transaction_entry)

-- Where the split timer was not started or can still be stopped, a response calls the callback of
-- its transaction once, with the rcode of the response, takes the transaction off the list, and
-- neither a timeout nor a cancellation of it does anything afterwards.
pub response_once :
    (source tlabel rcode : ℕ) (s : State) {t : Entry}
    → IsConsistent s.card
    → find_entry (λ u. u.node_id == source && u.tlabel == tlabel) s.card.list ≡ some t
    → try_cancel_split_timeout t ≡ true
    → let s' = handle_response source tlabel rcode s in
      (s'.callbacks ≡ s.callbacks ++ (record { id = t.id; rcode = rcode } ∷ []))
      × (split_transaction_timeout t.id s' ≡ s')
      × ((r : ℕ) → close_transaction t.id r s' ≡ s')
response_once source tlabel rcode s {t} v e stopped =
    let i = (find_entry-In (matching source tlabel) s.card.list e).0 in
    let gone = Absent-removed t s.card.list i v.distinct in
    let s' = call (record s { card = remove_transaction_entry s.card t }) t.id rcode in
    let gone' : Absent t.id s'.card.list = rw (list-remove s.card t) gone in
    rw (response_lem source tlabel rcode s e, stopped)
      (refl, timeout-Absent t.id s' gone', λ r. close-Absent t.id r s' gone')

timeout_present :
    (t : Entry) (s : State)
    → In t s.card.list
    → (split_transaction_timeout t.id s).callbacks
      ≡ s.callbacks ++ (record { id = t.id; rcode = rcode_cancelled } ∷ [])
unfolding split_transaction_timeout
timeout_present t s i =
    let (u, e) = find-present t s.card.list i in rw (e, split_transaction_timeout)

-- Where the split timer of the transaction has expired before its response is handled, so that it
-- can no longer be stopped, and its handler runs after, the callback is called twice: with the
-- rcode of the response, and again as cancelled.
pub response_race :
    (source tlabel rcode : ℕ) (s : State) {t : Entry}
    → find_entry (λ u. u.node_id == source && u.tlabel == tlabel) s.card.list ≡ some t
    → t.is_split_transaction ≡ true
    → t.timer_pending ≡ false
    → (split_transaction_timeout t.id (handle_response source tlabel rcode s)).callbacks
      ≡ s.callbacks
        ++ (record { id = t.id; rcode = rcode }
            ∷ record { id = t.id; rcode = rcode_cancelled }
            ∷ [])
response_race source tlabel rcode s {t} e split expired =
    let i = (find_entry-In (matching source tlabel) s.card.list e).0 in
    let late : try_cancel_split_timeout t ≡ false =
      unfold try_cancel_split_timeout in ground arith in
    rw (response_lem source tlabel rcode s e, late)
      (timeout_present t (call s t.id rcode) i ∙ append_assoc s.callbacks _ _)
