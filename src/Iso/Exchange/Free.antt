-- ===== src/Iso/Exchange/Free.antt =====
-- `deallocate_channel` puts back what was taken.
use linux_firewire_dkms.Prelude.{
  ℕ, zero, suc, ◌+◌, ◌-◌, ◌%◌, ◌^◌, ◌≤◌, ◌<◌, ◌≡◌, ◌≢◌, refl, sym, ap, ◌∙◌, arith, true, false, ltb,
  ◌==◌, ◌!=◌, if◌then◌else◌, bit_and, bit_xor, test_bit, bit_xor-set, bit_xor-clear, test_bit-less,
  bit_and-pow_eq_zero, Bool-cases, inl, inr, zero-bit_and, test_bit-pow_self, test_bit-pow_ne,
  if_of_true, if_of_false,
}
use linux_firewire_dkms.Iso.Manage.{
  Errno, done, resume, unwanted, finished, again, judge, channel_round, channel_loop,
  manage_channel, deallocate_channel,
}
use linux_firewire_dkms.Iso.Exchange.{
  Registers, stored, exchange, exchange-hit, exchange-miss, same_lem, register_of, bit_of,
}

stored_back :
    (regs : Registers) (offset value : ℕ)
    → stored (stored regs offset value) offset (regs offset) ≡ regs
stored_back regs offset value = λ k o. at o k
  where
    at : (o : ℕ) → stored (stored regs offset value) offset (regs offset) o ≡ regs o
    at o = elim (Bool-cases (o == offset)) [
      | inl e ↦ rw e (ap regs (sym (same_lem o offset e)))
      | inr e ↦ rw e refl
    ]

zero-bit_xor : (i : ℕ) → bit_xor 0 (2 ^ i) ≡ 2 ^ i
zero-bit_xor i = bit_xor-clear i 0 (omega (arith, zero_bit i)) ∙ omega arith
  where
    zero_bit : (i : ℕ) → test_bit 0 i ≡ 0
    zero_bit i = (bit_and-pow_eq_zero 0 i).0 (zero-bit_and (2 ^ i))

differ_lem : (a b : ℕ) → a ≢ b → a == b ≡ false
differ_lem a b ne = ground arith

-- The rounds before the channel's.
other_round :
    (k offset channel old : ℕ) (regs : Registers)
    → channel ≢ k
    → channel_round exchange false (2 ^ k) offset channel old regs ≡ (unwanted, regs)
unfolding channel_round
other_round k offset channel old regs ne =
    let out : bit_and (2 ^ k) (2 ^ channel) == 0 ≡ true = ground (
      arith,
      (bit_and-pow_eq_zero (2 ^ k) channel).1 (test_bit-pow_ne k channel (λ e. ne (sym e))),
    ) in
    rw (channel_round, out) refl

module _ (k offset : ℕ) (regs : Registers) (free : test_bit (regs offset) (31 - k) ≡ 0) where
  wanted : (bit_and (2 ^ k) (2 ^ k) == 0) ≡ false
  wanted =
      differ_lem (bit_and (2 ^ k) (2 ^ k)) 0
        (λ z. omega (arith, (bit_and-pow_eq_zero (2 ^ k) k).0 z, test_bit-pow_self k))

  put : Registers
  put = stored regs offset (regs offset + 2 ^ (31 - k))

  -- The round that knows the register.
  known_round :
      (old : ℕ)
      → regs offset == old ≡ true
      → channel_round exchange false (2 ^ k) offset k old regs ≡ (finished (done k), put)
  unfolding channel_round judge put
  known_round old hit =
      let bit = 2 ^ (31 - k) in
      let is_old = same_lem (regs offset) old hit in
      let clear : bit_and old bit ≡ 0 =
        (bit_and-pow_eq_zero old (31 - k)).1 (ap (λ x. test_bit x (31 - k)) (sym is_old) ∙ free) in
      let free_now : (bit_and old bit != bit_and 0 bit) ≡ false =
        ground (arith, clear, zero-bit_and bit) in
      let more : bit_xor old bit ≡ regs offset + bit =
        ap (λ x. bit_xor x bit) (sym is_old) ∙ bit_xor-clear (31 - k) (regs offset) free in
      rw (channel_round, wanted, free_now, exchange-hit offset old (bit_xor old bit) regs hit, hit)
        (ap (λ v. (finished (done k), stored regs offset v)) more)

  -- The first round, which takes the register for 0.
  first_round :
      regs offset == 0 ≡ false
      → channel_round exchange false (2 ^ k) offset k 0 regs ≡ (again (regs offset), regs)
  unfolding channel_round judge
  first_round miss =
      let bit = 2 ^ (31 - k) in
      let free_now : (bit_and 0 bit != bit_and 0 bit) ≡ false = ground arith in
      let clear = (bit_and-pow_eq_zero (regs offset) (31 - k)).1 free in
      let still : (bit_and (regs offset) bit == bit_and (bit_xor 0 bit) bit) ≡ false =
        differ_lem (bit_and (regs offset) bit) (bit_and (bit_xor 0 bit) bit) (λ e. omega (
          arith,
          test_bit-pow_self (31 - k),
          (bit_and-pow_eq_zero bit (31 - k)).0
              (ap (λ x. bit_and x bit) (sym (zero-bit_xor (31 - k))) ∙ sym e ∙ clear),
        )) in
      rw
        (
          channel_round,
          wanted,
          free_now,
          exchange-miss offset 0 (bit_xor 0 bit) regs miss,
          miss,
          still,
        )
        refl

  at_channel :
      (left : ℕ) (ret : Errno)
      → 31 - left ≡ k
      → (channel_loop exchange false (2 ^ k) offset (suc left) 5 0 ret regs).1 ≡ put
  unfolding channel_loop resume
  at_channel left ret e = elim (Bool-cases (regs offset == 0)) [
    | inl hit ↦ rw (channel_loop, e, known_round 0 hit) refl
    | inr miss ↦
        rw (channel_loop, e, first_round miss, known_round (regs offset) (ground arith)) refl
  ]

  free_loop :
      (left : ℕ) (ret : Errno)
      → k < 32
      → 32 - left ≤ k
      → left ≤ 32
      → (channel_loop exchange false (2 ^ k) offset left 5 0 ret regs).1 ≡ put
  unfolding channel_loop resume
  free_loop zero ret h from room = absurd (omega arith)
  free_loop (suc left) ret h from room = elim (Bool-cases (31 - left == k)) [
    | inl e ↦ at_channel left ret (same_lem (31 - left) k e)
    | inr e ↦
        let ne : 31 - left ≢ k = λ q. ground arith in
        rw (channel_loop, other_round k offset (31 - left) 0 regs ne)
          (free_loop left ret h (ground arith) (omega arith))
  ]

-- The registers of a channel that was taken.
abbrev pub without : Registers → ℕ → Registers
without regs channel =
    stored regs (register_of channel) (regs (register_of channel) - 2 ^ bit_of channel)

-- One part of the mask: `k` is the channel there.
put_back :
    (regs : Registers) (offset k : ℕ)
    → k < 32
    → test_bit (regs offset) (31 - k) ≡ 1
    → offset == offset ≡ true
    → let taken = stored regs offset (regs offset - 2 ^ (31 - k)) in
      (manage_channel exchange false (2 ^ k) offset taken).1 ≡ regs
unfolding manage_channel put
put_back regs offset k small set own =
    let bit = 2 ^ (31 - k) in
    let taken = stored regs offset (regs offset - bit) in
    let there : taken offset ≡ regs offset - bit = rw own refl in
    let less : test_bit (taken offset) (31 - k) ≡ 0 =
      ap (λ x. test_bit x (31 - k)) there ∙ test_bit-less (31 - k) (regs offset) set in
    let whole : taken offset + bit ≡ regs offset =
      omega (arith, there, bit_xor-set (31 - k) (regs offset) set) in
    free_loop k offset taken less 32 Errno.eio small (omega arith) (omega arith)
    ∙ ap (stored taken offset) whole
    ∙ stored_back regs offset (regs offset - bit)

mask_of :
    (channel : ℕ)
    → channel < 64
    → (if ltb channel 32 then 2 ^ channel else 2 ^ (channel - 32)) ≡ 2 ^ (channel % 32)
mask_of channel h = elim (Bool-cases (ltb channel 32)) [
  | inl low ↦ if_of_true _ _ low ∙ ap (λ x. 2 ^ x) (ground arith)
  | inr high ↦ if_of_false _ _ high ∙ ap (λ x. 2 ^ x) (ground arith)
]

-- Where the channel's bit was set, freeing the channel gives the registers as they were.
pub deallocate_channel-without :
    (regs : Registers) (channel : ℕ)
    → channel < 64
    → test_bit (regs (register_of channel)) (bit_of channel) ≡ 1
    → deallocate_channel exchange channel (without regs channel) ≡ regs
unfolding deallocate_channel
deallocate_channel-without regs channel h set =
    ap (λ m. (manage_channel exchange false m (register_of channel) (without regs channel)).1)
      (mask_of channel h)
    ∙ put_back regs (register_of channel) (channel % 32) (omega arith) set (ground arith)
