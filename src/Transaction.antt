-- ===== src/Transaction.antt =====
-- Outbound transactions of drivers/firewire/core-transaction.c: the labels, the list of pending
-- transactions and the split timers of a card.
pub mod Label
pub mod Pending
pub mod Events
pub mod Race
pub mod Fill
use linux_firewire_dkms.Prelude.{
  ℕ, zero, suc, ◌+◌, ◌-◌, ◌*◌, ◌%◌, ◌^◌, Bool, true, false, ◌&&◌, not, Option, none, some, List, [],
  ◌∷◌, ◌++◌, bit_and, bit_or, ◌==◌, ◌!=◌, if◌then◌else◌,
}

-- A `struct fw_transaction` on the list. `id` stands for its address. `timer_pending` is what
-- `timer_delete` would return: false as soon as the timer has expired, even while its handler
-- still waits for the lock.
pub record Entry : Type 0 where
  pub id : ℕ
  pub node_id : ℕ
  pub tlabel : ℕ
  pub is_split_transaction : Bool
  pub timer_pending : Bool

pub record Card : Type 0 where
  pub current_tlabel : ℕ
  pub tlabel_mask : ℕ
  pub list : List Entry

-- A call of a transaction's callback: which transaction, and the rcode.
pub record Callback : Type 0 where
  pub id : ℕ
  pub rcode : ℕ

abbrev pub rcode_complete : ℕ
rcode_complete = 0x0

abbrev pub rcode_data_error : ℕ
rcode_data_error = 0x5

abbrev pub rcode_type_error : ℕ
rcode_type_error = 0x6

abbrev pub rcode_send_error : ℕ
rcode_send_error = 0x10

abbrev pub rcode_cancelled : ℕ
rcode_cancelled = 0x11

abbrev pub rcode_busy : ℕ
rcode_busy = 0x12

-- `1ULL << tlabel`, and the complement of a 64-bit word.
abbrev pub bit64 : ℕ → ℕ
bit64 tlabel = 2 ^ tlabel % 2 ^ 64

abbrev pub not64 : ℕ → ℕ
not64 m = 2 ^ 64 - 1 - m

-- The `while` loop of `allocate_tlabel`, with fuel; `none` is -EBUSY. `Label` shows that the
-- loop never runs out of 64 rounds.
unfoldable pub find_tlabel : ℕ → ℕ → ℕ → ℕ → Option ℕ
find_tlabel zero mask current tlabel = none
find_tlabel (suc fuel) mask current tlabel =
    let next = bit_and (tlabel + 1) 0x3f in
    let rest = find_tlabel fuel mask current next in
    if bit_and mask (bit64 tlabel) != 0 then if next == current then none else rest else some tlabel

abbrev pub take_label : Card → Option ℕ → Option (ℕ × Card)
take_label c none = none
take_label c (some tlabel) = some (
  tlabel,
  record c {
    current_tlabel = bit_and (tlabel + 1) 0x3f;
    tlabel_mask = bit_or c.tlabel_mask (bit64 tlabel);
  },
)

unfoldable pub allocate_tlabel : Card → Option (ℕ × Card)
allocate_tlabel c = take_label c (find_tlabel 64 c.tlabel_mask c.current_tlabel c.current_tlabel)

-- Whether the split timer was stopped before it expired, or was never started.
unfoldable pub try_cancel_split_timeout : Entry → Bool
try_cancel_split_timeout t = if t.is_split_transaction then t.timer_pending else true

unfoldable pub remove_id : ℕ → List Entry → List Entry
remove_id id [] = []
remove_id id (t ∷ ts) = if t.id == id then ts else t ∷ remove_id id ts

unfoldable pub remove_transaction_entry : Card → Entry → Card
remove_transaction_entry c t = record c {
  tlabel_mask = bit_and c.tlabel_mask (not64 (bit64 t.tlabel));
  list = remove_id t.id c.list;
}

unfoldable pub find_entry : (Entry → Bool) → List Entry → Option Entry
find_entry condition [] = none
find_entry condition (t ∷ ts) = if condition t then some t else find_entry condition ts

-- The entry that is found is returned also where it stays on the list, because its timer can no
-- longer be stopped.
unfoldable pub find_and_pop_transaction_entry : Card → (Entry → Bool) → Option Entry × Card
find_and_pop_transaction_entry c condition = elim (find_entry condition c.list) [
  | none ↦ (none, c)
  | some t ↦ (some t, if try_cancel_split_timeout t then remove_transaction_entry c t else c)
]

-- The state of a card, and the callbacks made so far, oldest first.
pub record State : Type 0 where
  pub card : Card
  pub callbacks : List Callback

abbrev pub call : State → ℕ → ℕ → State
call s id rcode = record s { callbacks = s.callbacks ++ (record { id = id; rcode = rcode } ∷ []) }

abbrev answer : State → ℕ → Option Entry × Card → State
answer s rcode (none, c) = record s { card = c }
answer s rcode (some t, c) = call (record s { card = c }) t.id rcode

-- -ENOENT, where the transaction is not on the list, changes nothing.
unfoldable pub close_transaction : ℕ → ℕ → State → State
close_transaction id rcode s =
    answer s rcode (find_and_pop_transaction_entry s.card (λ t. t.id == id))

-- The handler of the split timer. `list_empty(&t->link)`: the transaction is on no list.
unfoldable pub split_transaction_timeout : ℕ → State → State
split_transaction_timeout id s = elim (find_entry (λ t. t.id == id) s.card.list) [
  | none ↦ s
  | some t ↦ call (record s { card = remove_transaction_entry s.card t }) id rcode_cancelled
]

unfoldable pub start_timer : ℕ → List Entry → List Entry
start_timer id [] = []
start_timer id (t ∷ ts) =
    if t.id == id
    then (if t.is_split_transaction
        then t
        else record t { is_split_transaction = true; timer_pending = true })
      ∷ ts
    else t ∷ start_timer id ts

unfoldable pub start_split_transaction_timeout : ℕ → State → State
start_split_transaction_timeout id s = record s {
  card = record s.card { list = start_timer id s.card.list };
}

unfoldable pub keep_expired : List Entry → List Entry
keep_expired [] = []
keep_expired (t ∷ ts) = if try_cancel_split_timeout t then keep_expired ts else t ∷ keep_expired ts

unfoldable pub cancelled_callbacks : List Entry → List Callback
cancelled_callbacks [] = []
cancelled_callbacks (t ∷ ts) =
    if try_cancel_split_timeout t
    then record { id = t.id; rcode = rcode_cancelled } ∷ cancelled_callbacks ts
    else cancelled_callbacks ts

-- `fw_cancel_pending_transactions` leaves the labels marked.
unfoldable pub cancel_pending_transactions : State → State
cancel_pending_transactions s = record {
  card = record s.card { list = keep_expired s.card.list };
  callbacks = s.callbacks ++ cancelled_callbacks s.card.list;
}

-- The acknowledge codes.
pub data Ack : Type 0 where
  complete pending busy_x busy_a busy_b data_error type_error : Ack
  other : (status : ℕ) → Ack

unfoldable pub transmit_complete : ℕ → Ack → State → State
transmit_complete id complete s = close_transaction id rcode_complete s
transmit_complete id pending s = start_split_transaction_timeout id s
transmit_complete id busy_x s = close_transaction id rcode_busy s
transmit_complete id busy_a s = close_transaction id rcode_busy s
transmit_complete id busy_b s = close_transaction id rcode_busy s
transmit_complete id data_error s = close_transaction id rcode_data_error s
transmit_complete id type_error s = close_transaction id rcode_type_error s
transmit_complete id (other status) s = close_transaction id status s

-- `fw_core_handle_response`, with the fields that it reads from the header.
unfoldable pub handle_response : ℕ → ℕ → ℕ → State → State
handle_response source tlabel rcode s =
    answer s rcode
      (find_and_pop_transaction_entry s.card (λ t. t.node_id == source && t.tlabel == tlabel))

abbrev pub new_entry : ℕ → ℕ → ℕ → Entry
new_entry id destination_id tlabel = record {
  id = id;
  node_id = destination_id;
  tlabel = tlabel;
  is_split_transaction = false;
  timer_pending = false;
}

abbrev pub enlist : State → ℕ → ℕ → Option (ℕ × Card) → State
enlist s id destination_id none = call s id rcode_send_error
enlist s id destination_id (some (tlabel, c)) = record s {
  card = record c { list = c.list ++ (new_entry id destination_id tlabel ∷ []) };
}

-- `__fw_send_request` up to the driver's `send_request`.
unfoldable pub send_request : ℕ → ℕ → State → State
send_request id destination_id s = enlist s id destination_id (allocate_tlabel s.card)
