-- ===== src/Tests/Transactions.antt =====
-- Transactions of a card at concrete inputs.
use linux_firewire_dkms.Prelude.{ℕ, ◌≡◌, refl, true, false, ◌&&◌, ◌==◌, some, [], ◌∷◌, arith}
use linux_firewire_dkms.Transaction.{
  Entry, Card, State, allocate_tlabel, handle_response, split_transaction_timeout,
  close_transaction, rcode_cancelled, find_entry, try_cancel_split_timeout,
}
use linux_firewire_dkms.Transaction.Label.{Allocated, allocate_tlabel-Allocated}
use linux_firewire_dkms.Transaction.Pending.{IsConsistent}
use linux_firewire_dkms.Transaction.Events.{Event, step, step-IsConsistent}
use linux_firewire_dkms.Transaction.Race.{response_once, response_race}
use linux_firewire_dkms.Transaction.Fill.{Packet, Payload}

abbrev running : Entry
running = record {
  id = 7;
  node_id = 0xffc1;
  tlabel = 3;
  is_split_transaction = true;
  timer_pending = true;
}

abbrev late : Entry
late = record {
  id = 8;
  node_id = 0xffc2;
  tlabel = 5;
  is_split_transaction = true;
  timer_pending = false;
}

abbrev card : Card
card = record { current_tlabel = 6; tlabel_mask = 0x28; list = running ∷ late ∷ [] }

abbrev state : State
state = record { card = card; callbacks = [] }

card-IsConsistent : IsConsistent card
card-IsConsistent = record {
  current_lt = omega arith;
  distinct = ((omega arith, omega arith, tt), (tt, tt));
  marks = (omega arith, refl, (omega arith, refl, tt));
}

step-IsConsistent_example : IsConsistent (step (Event.send 9 0xffc1) state).card
step-IsConsistent_example =
    step-IsConsistent state (Event.send 9 0xffc1) (omega arith, (omega arith, tt)) card-IsConsistent

allocate_tlabel-Allocated_example : Allocated card (allocate_tlabel card)
allocate_tlabel-Allocated_example = allocate_tlabel-Allocated card (omega arith)

running_found : find_entry (λ u. u.node_id == 0xffc1 && u.tlabel == 3) card.list ≡ some running
unfolding find_entry
running_found = refl

running_stopped : try_cancel_split_timeout running ≡ true
unfolding try_cancel_split_timeout
running_stopped = refl

late_found : find_entry (λ u. u.node_id == 0xffc2 && u.tlabel == 5) card.list ≡ some late
unfolding find_entry
late_found = refl

response_once_example :
    let s' = handle_response 0xffc1 3 0 state in
    (s'.callbacks ≡ record { id = 7; rcode = 0 } ∷ [])
    × (split_transaction_timeout 7 s' ≡ s')
    × ((r : ℕ) → close_transaction 7 r s' ≡ s')
response_once_example =
    response_once 0xffc1 3 0 state {t = running} card-IsConsistent running_found running_stopped

response_race_example :
    (split_transaction_timeout 8 (handle_response 0xffc2 5 0 state)).callbacks
    ≡ record { id = 8; rcode = 0 } ∷ record { id = 8; rcode = rcode_cancelled } ∷ []
response_race_example = response_race 0xffc2 5 0 state {t = late} late_found refl refl

abbrev blank : Packet
blank = record {
  header = record { q0 = 0; q1 = 0; q2 = 0; q3 = 0 };
  header_length = 0;
  payload = 0;
  payload_length = 0;
  speed = 0;
  generation = 0;
  ack = 0;
  payload_mapped = false;
}

abbrev eight_bytes : Payload
eight_bytes = record { address = 0x1000; quadlet = 0x12345678 }
