-- ===== src/Transaction/Events.antt =====
-- What can happen to the transactions of a card, one critical section at a time, and that each
-- event keeps the card consistent.
use linux_firewire_dkms.Prelude.{
  ℕ, ◌<◌, ◌≡◌, ◌≢◌, refl, sym, arith, Bool, false, ◌&&◌, Option, none, some, inl, inr, List, [],
  ◌∷◌, ◌++◌, Bool-cases, Option-cases, ◌==◌, if◌then◌else◌, test_bit,
}
use linux_firewire_dkms.Transaction.{
  Entry, Card, State, Ack, allocate_tlabel, try_cancel_split_timeout, find_entry,
  find_and_pop_transaction_entry, answer, close_transaction, split_transaction_timeout, start_timer,
  start_split_transaction_timeout, keep_expired, cancel_pending_transactions, transmit_complete,
  handle_response, send_request, rcode_cancelled, new_entry, enlist,
}
use mathlib.Core.Path.{subst}
use linux_firewire_dkms.Transaction.Label.{Allocated, allocate_tlabel-Allocated}
use linux_firewire_dkms.Transaction.Pending.{
  Without, Distinct, Marked, Absent, IsConsistent, remove-IsConsistent, find_entry-In,
}

-- The timer of a transaction expires: its handler is going to run.
unfoldable pub expire : ℕ → List Entry → List Entry
expire id [] = []
expire id (t ∷ ts) =
    if t.id == id then record t { timer_pending = false } ∷ ts else t ∷ expire id ts

pub data Event : Type 0 where
  send : (id destination_id : ℕ) → Event
  transmitted : (id : ℕ) → Ack → Event
  expired : (id : ℕ) → Event
  timed_out : (id : ℕ) → Event
  responded : (source tlabel rcode : ℕ) → Event
  cancelled : (id : ℕ) → Event
  all_cancelled : Event

unfoldable pub step : Event → State → State
step (send id destination_id) s = send_request id destination_id s
step (transmitted id ack) s = transmit_complete id ack s
step (expired id) s = record s { card = record s.card { list = expire id s.card.list } }
step (timed_out id) s = split_transaction_timeout id s
step (responded source tlabel rcode) s = handle_response source tlabel rcode s
step (cancelled id) s = close_transaction id rcode_cancelled s
step all_cancelled s = cancel_pending_transactions s

-- The caller sends no transaction that is still on the list.
abbrev pub Allowed : Event → State → Type 0
Allowed (send id destination_id) s = Absent id s.card.list
Allowed _ s = Unit {0}

answer-card : (s : State) (rcode : ℕ) (r : Option Entry × Card) → (answer s rcode r).card ≡ r.1
answer-card s rcode (none, c) = refl
answer-card s rcode (some t, c) = refl

pop-IsConsistent :
    {c : Card} (p : Entry → Bool)
    → IsConsistent c
    → IsConsistent (find_and_pop_transaction_entry c p).1
unfolding find_and_pop_transaction_entry
pop-IsConsistent {c} p v = elim (Option-cases (find_entry p c.list)) [
  | inl e ↦ rw (e, find_and_pop_transaction_entry) v
  | inr (t, e) ↦ elim (Bool-cases (try_cancel_split_timeout t)) [
    | inl stopped ↦
        rw (e, find_and_pop_transaction_entry, stopped)
          (remove-IsConsistent t (find_entry-In p c.list e).0 v)
    | inr late ↦ rw (e, find_and_pop_transaction_entry, late) v
  ]
]

answered-IsConsistent :
    (s : State) (p : Entry → Bool) (rcode : ℕ)
    → IsConsistent s.card
    → IsConsistent (answer s rcode (find_and_pop_transaction_entry s.card p)).card
answered-IsConsistent s p rcode v =
    subst IsConsistent (sym (answer-card s rcode (find_and_pop_transaction_entry s.card p)))
      (pop-IsConsistent p v)

close-IsConsistent :
    (s : State) (id rcode : ℕ)
    → IsConsistent s.card
    → IsConsistent (close_transaction id rcode s).card
unfolding close_transaction
close-IsConsistent s id rcode v = answered-IsConsistent s (λ t. t.id == id) rcode v

timeout-IsConsistent :
    (s : State) (id : ℕ) → IsConsistent s.card → IsConsistent (split_transaction_timeout id s).card
unfolding split_transaction_timeout
timeout-IsConsistent s id v = elim (Option-cases (find_entry (λ t. t.id == id) s.card.list)) [
  | inl e ↦ rw (e, split_transaction_timeout) v
  | inr (t, e) ↦
      rw (e, split_transaction_timeout)
        (remove-IsConsistent t (find_entry-In (λ t. t.id == id) s.card.list e).0 v)
]

-- Two lists of the same transactions with the same labels, whatever their timers.
abbrev Alike : List Entry → List Entry → Type 0
Alike [] [] = Unit
Alike [] (u ∷ us) = ⊥
Alike (t ∷ ts) [] = ⊥
Alike (t ∷ ts) (u ∷ us) = (t.id ≡ u.id) × (t.tlabel ≡ u.tlabel) × Alike ts us

Alike-refl : (ts : List Entry) → Alike ts ts
Alike-refl [] = tt
Alike-refl (t ∷ ts) = (refl, refl, Alike-refl ts)

Without-Alike : (id l : ℕ) (ts us : List Entry) → Alike ts us → Without id l ts → Without id l us
Without-Alike id l [] [] a w = tt
Without-Alike id l [] (u ∷ us) a w = absurd a
Without-Alike id l (t ∷ ts) [] a w = absurd a
Without-Alike id l (t ∷ ts) (u ∷ us) a w = ground (arith, Without-Alike id l ts us a.2 w.2)

Distinct-Alike : (ts us : List Entry) → Alike ts us → Distinct ts → Distinct us
Distinct-Alike [] [] a d = tt
Distinct-Alike [] (u ∷ us) a d = absurd a
Distinct-Alike (t ∷ ts) [] a d = absurd a
Distinct-Alike (t ∷ ts) (u ∷ us) a d =
    (rw (← a.0, ← a.1) (Without-Alike t.id t.tlabel ts us a.2 d.0), Distinct-Alike ts us a.2 d.1)

Marked-Alike : (mask : ℕ) (ts us : List Entry) → Alike ts us → Marked mask ts → Marked mask us
Marked-Alike mask [] [] a m = tt
Marked-Alike mask [] (u ∷ us) a m = absurd a
Marked-Alike mask (t ∷ ts) [] a m = absurd a
Marked-Alike mask (t ∷ ts) (u ∷ us) a m =
    (rw (← a.1) m.0, rw (← a.1) m.1, Marked-Alike mask ts us a.2 m.2)

relist-IsConsistent :
    {c : Card} (us : List Entry)
    → Alike c.list us
    → IsConsistent c
    → IsConsistent (record c { list = us })
relist-IsConsistent {c} us a v = record {
  current_lt = v.current_lt;
  distinct = Distinct-Alike c.list us a v.distinct;
  marks = Marked-Alike c.tlabel_mask c.list us a v.marks;
}

start_timer-Alike : (id : ℕ) (ts : List Entry) → Alike ts (start_timer id ts)
unfolding start_timer
start_timer-Alike id [] = tt
start_timer-Alike id (t ∷ ts) = ground (arith, start_timer-Alike id ts, Alike-refl ts)

expire-Alike : (id : ℕ) (ts : List Entry) → Alike ts (expire id ts)
unfolding expire
expire-Alike id [] = tt
expire-Alike id (t ∷ ts) = ground (arith, expire-Alike id ts, Alike-refl ts)

Without-keep_expired :
    (id l : ℕ) (ts : List Entry) → Without id l ts → Without id l (keep_expired ts)
unfolding keep_expired
Without-keep_expired id l [] w = w
Without-keep_expired id l (t ∷ ts) w = ground (arith, Without-keep_expired id l ts w.2)

Distinct-keep_expired : (ts : List Entry) → Distinct ts → Distinct (keep_expired ts)
unfolding keep_expired
Distinct-keep_expired [] d = d
Distinct-keep_expired (t ∷ ts) d =
    ground (arith, Distinct-keep_expired ts d.1, Without-keep_expired t.id t.tlabel ts d.0)

Marked-keep_expired : (mask : ℕ) (ts : List Entry) → Marked mask ts → Marked mask (keep_expired ts)
unfolding keep_expired
Marked-keep_expired mask [] m = m
Marked-keep_expired mask (t ∷ ts) m = ground (arith, Marked-keep_expired mask ts m.2)

Without-append :
    (id l : ℕ) (ts : List Entry) (e : Entry)
    → Without id l ts
    → e.id ≢ id
    → e.tlabel ≢ l
    → Without id l (ts ++ (e ∷ []))
Without-append id l [] e w a b = (a, b, tt)
Without-append id l (t ∷ ts) e w a b = (w.0, w.1, Without-append id l ts e w.2 a b)

-- A new transaction with a label that is not marked is distinct from those on the list.
Distinct-append :
    (mask : ℕ) (ts : List Entry) (e : Entry)
    → Distinct ts
    → Absent e.id ts
    → Marked mask ts
    → test_bit mask e.tlabel ≡ 0
    → Distinct (ts ++ (e ∷ []))
Distinct-append mask [] e d a m free = (tt, tt)
Distinct-append mask (t ∷ ts) e d a m free = (
  Without-append t.id t.tlabel ts e d.0 (λ q. a.0 (sym q))
      (λ q. let zero_there = subst (λ l. test_bit mask l ≡ 0) q free in omega arith),
  Distinct-append mask ts e d.1 a.1 m.2 free,
)

Marked-append :
    (mask mask' : ℕ) (ts : List Entry) (e : Entry)
    → ((m : ℕ) → test_bit mask' m ≡ (if m == e.tlabel then 1 else test_bit mask m))
    → e.tlabel < 64
    → Marked mask ts
    → Marked mask' (ts ++ (e ∷ []))
Marked-append mask mask' [] e bits h m = (h, ground (arith, bits e.tlabel), tt)
Marked-append mask mask' (t ∷ ts) e bits h m =
    (m.0, ground (arith, bits t.tlabel), Marked-append mask mask' ts e bits h m.2)

enlist-IsConsistent :
    (s : State) (id destination_id : ℕ) (r : Option (ℕ × Card))
    → Absent id s.card.list
    → IsConsistent s.card
    → Allocated s.card r
    → IsConsistent (enlist s id destination_id r).card
enlist-IsConsistent s id destination_id none a v al = v
enlist-IsConsistent s id destination_id (some (l, c)) a v
      (d, d_lt, at, free, before, bits, next, same) =
    record {
      current_lt = omega arith;
      distinct = rw same (
          Distinct-append s.card.tlabel_mask s.card.list (new_entry id destination_id l) v.distinct
            a v.marks free);
      marks = rw same (
          Marked-append s.card.tlabel_mask c.tlabel_mask s.card.list (new_entry id destination_id l)
            bits (omega arith) v.marks);
    }

transmit-IsConsistent :
    (s : State) (id : ℕ) (ack : Ack)
    → IsConsistent s.card
    → IsConsistent (transmit_complete id ack s).card
unfolding transmit_complete start_split_transaction_timeout
transmit-IsConsistent s id Ack.pending v =
    relist-IsConsistent (start_timer id s.card.list) (start_timer-Alike id s.card.list) v
transmit-IsConsistent s id Ack.complete v = close-IsConsistent s id _ v
transmit-IsConsistent s id Ack.busy_x v = close-IsConsistent s id _ v
transmit-IsConsistent s id Ack.busy_a v = close-IsConsistent s id _ v
transmit-IsConsistent s id Ack.busy_b v = close-IsConsistent s id _ v
transmit-IsConsistent s id Ack.data_error v = close-IsConsistent s id _ v
transmit-IsConsistent s id Ack.type_error v = close-IsConsistent s id _ v
transmit-IsConsistent s id (Ack.other status) v = close-IsConsistent s id status v

-- Every event keeps the transactions on the list different, their labels distinct, below 64 and
-- marked in the mask, where a transaction that is sent is not on the list already; in particular no
-- two pending transactions ever share a label.
pub step-IsConsistent :
    (s : State) (e : Event) → Allowed e s → IsConsistent s.card → IsConsistent (step e s).card
unfolding step send_request handle_response cancel_pending_transactions
step-IsConsistent s (send id destination_id) a v =
    enlist-IsConsistent s id destination_id (allocate_tlabel s.card) a v
      (allocate_tlabel-Allocated s.card v.current_lt)
step-IsConsistent s (transmitted id ack) a v = transmit-IsConsistent s id ack v
step-IsConsistent s (expired id) a v =
    relist-IsConsistent (expire id s.card.list) (expire-Alike id s.card.list) v
step-IsConsistent s (timed_out id) a v = timeout-IsConsistent s id v
step-IsConsistent s (responded source tlabel rcode) a v =
    answered-IsConsistent s (λ t. t.node_id == source && t.tlabel == tlabel) rcode v
step-IsConsistent s (cancelled id) a v = close-IsConsistent s id rcode_cancelled v
step-IsConsistent s all_cancelled a v = record {
  current_lt = v.current_lt;
  distinct = Distinct-keep_expired s.card.list v.distinct;
  marks = Marked-keep_expired s.card.tlabel_mask s.card.list v.marks;
}
