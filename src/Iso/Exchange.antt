-- ===== src/Iso/Exchange.antt =====
-- `fw_iso_resource_manage` against a resource manager that performs each compare-swap on its
-- registers, with nobody else at them.
pub mod Free
pub mod Whole
use linux_firewire_dkms.Prelude.{
  ℕ, zero, suc, ◌+◌, ◌-◌, ◌/◌, ◌%◌, ◌^◌, ◌≤◌, ◌<◌, ◌≡◌, ◌≢◌, refl, sym, ap, ◌∙◌, arith, Bool, true,
  false, ◌&&◌, ltb, leb, ◌==◌, ◌!=◌, if◌then◌else◌, bit_and, bit_xor, test_bit, bit_xor-set,
  bit_xor-clear, test_bit-less, bit_and-pow_eq_zero, ◌⊎◌, all_below-at, Bool-cases, inl, inr, u32,
  Option, none, some, Option-cases, zero-bit_and,
}
use mathlib.Core.Path.{subst}
use linux_firewire_dkms.Iso.Manage.{
  Errno, Outcome, done, error, Reply, resume, Round, unwanted, taken, finished, lost, again,
  is_error, judge, channel_round, channel_loop, manage_channel, channel_of_mask, high_part, settle,
  resource_manage, add_32, csr_bandwidth_available, csr_channels_available_hi,
  csr_channels_available_lo, deallocate_channel, bandwidth_loop, manage_bandwidth, new_bandwidth,
}

abbrev pub Registers : Type 0
Registers = ℕ → ℕ

-- The registers with `value` at an offset.
abbrev pub stored : Registers → (offset value : ℕ) → Registers
stored regs offset value o = if o == offset then value else regs o

unfoldable pub exchange : ℕ → ℕ → ℕ → Registers → Reply × Registers
exchange offset old new regs =
    (Reply.complete (regs offset), if regs offset == old then stored regs offset new else regs)

-- Where the bit of a channel is: the register, and the place in it.
abbrev pub register_of : ℕ → ℕ
register_of channel =
    if ltb channel 32 then csr_channels_available_hi else csr_channels_available_lo

abbrev pub bit_of : ℕ → ℕ
bit_of channel = 31 - channel % 32

-- A channel was taken: its bit was set, and is taken off. An error leaves the registers alone.
abbrev Took : (offset : ℕ) → Registers → Outcome → Registers → Type 0
Took offset regs (done c) regs' =
    (c < 32)
    × (test_bit (regs offset) (31 - c) ≡ 1)
    × (regs' ≡ stored regs offset (regs offset - 2 ^ (31 - c)))
Took offset regs (error e) regs' = regs' ≡ regs

abbrev TookRound : (offset channel : ℕ) → Registers → Round → Registers → Type 0
TookRound offset channel regs (finished (done c)) regs' =
    (c ≡ channel)
    × (test_bit (regs offset) (31 - c) ≡ 1)
    × (regs' ≡ stored regs offset (regs offset - 2 ^ (31 - c)))
TookRound offset channel regs _ regs' = regs' ≡ regs

same_lem : (a b : ℕ) → a == b ≡ true → a ≡ b
same_lem a b e = ground arith

ones : (i : ℕ) → i < 32 → test_bit 0xffffffff i ≡ 1
ones i h = same_lem _ _ (all_below-at 32 (λ i. test_bit 0xffffffff i == 1) refl i h)

bit_cases : (x i : ℕ) → (test_bit x i ≡ 0) ⊎ (test_bit x i ≡ 1)
bit_cases x i = elim (Bool-cases (test_bit x i == 0)) [
  | inl e ↦ inl (ground arith)
  | inr e ↦ inr (ground arith)
]

-- A bit that the round found free, in terms of the register.
free_bit :
    (old i : ℕ)
    → i < 32
    → (bit_and old (2 ^ i) != bit_and 0xffffffff (2 ^ i)) ≡ false
    → test_bit old i ≡ 1
free_bit old i h e = elim (bit_cases old i) [
  | inr set ↦ set
  | inl none_set ↦
      let same : bit_and old (2 ^ i) ≡ bit_and 0xffffffff (2 ^ i) = ground arith in
      let gone = (bit_and-pow_eq_zero old i).1 none_set in
      absurd (omega (arith, ones i h, (bit_and-pow_eq_zero 0xffffffff i).0 (sym same ∙ gone)))
]

exchange-hit :
    (offset old new : ℕ) (regs : Registers)
    → regs offset == old ≡ true
    → exchange offset old new regs ≡ (Reply.complete (regs offset), stored regs offset new)
unfolding exchange
exchange-hit offset old new regs e = rw e refl

exchange-miss :
    (offset old new : ℕ) (regs : Registers)
    → regs offset == old ≡ false
    → exchange offset old new regs ≡ (Reply.complete (regs offset), regs)
unfolding exchange
exchange-miss offset old new regs e = rw e refl

round-TookRound :
    (mask offset channel old : ℕ) (regs : Registers)
    → let r = channel_round exchange true mask offset channel old regs in
      TookRound offset channel regs r.0 r.1
unfolding channel_round judge
round-TookRound mask offset channel old regs =
    let i = 31 - channel in
    let bit = 2 ^ i in
    elim (Bool-cases (bit_and mask (2 ^ channel) == 0)) [
      | inl out ↦ rw (channel_round, out) refl
      | inr wanted ↦ elim (Bool-cases (bit_and old bit != bit_and 0xffffffff bit)) [
        | inl busy ↦ rw (channel_round, wanted, busy) refl
        | inr free ↦ elim (Bool-cases (regs offset == old)) [
          | inl hit ↦
              let is_old = same_lem (regs offset) old hit in
              let set : test_bit (regs offset) i ≡ 1 =
                ap (λ x. test_bit x i) is_old ∙ free_bit old i (omega arith) free in
              let less : bit_xor old bit ≡ regs offset - bit =
                ap (λ x. bit_xor x bit) (sym is_old)
                ∙ omega (arith, bit_xor-set i (regs offset) set) in
              rw
                (
                  channel_round,
                  wanted,
                  free,
                  exchange-hit offset old (bit_xor old bit) regs hit,
                  hit,
                )
                (refl, set, ap (stored regs offset) less)
          | inr miss ↦
              let missed = exchange-miss offset old (bit_xor old bit) regs miss in
              elim (Bool-cases (bit_and (regs offset) bit == bit_and (bit_xor old bit) bit)) [
                | inl gone ↦ rw (channel_round, wanted, free, missed, miss, gone) refl
                | inr still ↦ rw (channel_round, wanted, free, missed, miss, still) refl
              ]
        ]
      ]
    ]

resume-Took :
    (offset left : ℕ) (next : ℕ → Errno → Registers → Outcome × Registers)
    (retry : ℕ → Registers → Outcome × Registers) (old : ℕ) (ret : Errno) (r : Round × Registers)
    (regs : Registers)
    → suc left ≤ 32
    → TookRound offset (31 - left) regs r.0 r.1
    → ((o : ℕ) (e : Errno) (s : Registers) → Took offset s (next o e s).0 (next o e s).1)
    → ((o : ℕ) (s : Registers) → Took offset s (retry o s).0 (retry o s).1)
    → let t = resume exchange next retry old ret r in Took offset regs t.0 t.1
unfolding resume
resume-Took offset left next retry old ret (unwanted, s) regs h g n a =
    subst (λ x. Took offset x (next old ret s).0 (next old ret s).1) g (n old ret s)
resume-Took offset left next retry old ret (taken, s) regs h g n a =
    let t = next old Errno.ebusy s in subst (λ x. Took offset x t.0 t.1) g (n old Errno.ebusy s)
resume-Took offset left next retry old ret (finished (done c), s) regs h g n a =
    (omega (arith, g.0), g.1, g.2)
resume-Took offset left next retry old ret (finished (error e), s) regs h g n a = g
resume-Took offset left next retry old ret (lost seen, s) regs h g n a =
    let t = next seen Errno.ebusy s in subst (λ x. Took offset x t.0 t.1) g (n seen Errno.ebusy s)
resume-Took offset left next retry old ret (again seen, s) regs h g n a =
    subst (λ x. Took offset x (retry seen s).0 (retry seen s).1) g (a seen s)

loop-Took :
    (mask offset left retry old : ℕ) (ret : Errno) (regs : Registers)
    → left ≤ 32
    → let t = channel_loop exchange true mask offset left retry old ret regs in
      Took offset regs t.0 t.1
unfolding channel_loop
loop-Took mask offset zero retry old ret regs h = refl
loop-Took mask offset (suc left) zero old ret regs h =
    resume-Took offset left _ _ old ret _ regs h (round-TookRound mask offset (31 - left) old regs)
      (λ o e s. loop-Took mask offset left zero o e s (omega arith))
      (λ o s. loop-Took mask offset left zero o Errno.eio s (omega arith))
loop-Took mask offset (suc left) (suc retry) old ret regs h =
    resume-Took offset left _ _ old ret _ regs h (round-TookRound mask offset (31 - left) old regs)
      (λ o e s. loop-Took mask offset left (suc retry) o e s (omega arith))
      (λ o s. loop-Took mask offset (suc left) retry o Errno.ebusy s h)

manage_channel-Took :
    (mask offset : ℕ) (regs : Registers)
    → let t = manage_channel exchange true mask offset regs in Took offset regs t.0 t.1
unfolding manage_channel
manage_channel-Took mask offset regs =
    loop-Took mask offset 32 5 0xffffffff Errno.eio regs (omega arith)
