-- ===== src/Iso/Exchange/Whole.antt =====
-- `fw_iso_resource_manage` takes a channel and bandwidth together, or nothing.
use linux_firewire_dkms.Prelude.{
  ℕ, zero, suc, ◌+◌, ◌-◌, ◌/◌, ◌^◌, ◌≤◌, ◌<◌, ◌≡◌, ◌≢◌, refl, sym, ap, ap₂, ◌∙◌, arith, true, false,
  ltb, ◌==◌, ◌!=◌, test_bit, Bool-cases, inl, inr, u32, some, Option-cases, if_of_true, if_of_false,
}
use mathlib.Core.Path.{subst}
use linux_firewire_dkms.Iso.Manage.{
  Errno, Outcome, done, error, is_error, manage_channel, channel_of_mask, high_part, settle,
  resource_manage, add_32, csr_bandwidth_available, csr_channels_available_hi,
  csr_channels_available_lo, deallocate_channel, bandwidth_loop, manage_bandwidth, new_bandwidth,
}
use linux_firewire_dkms.Iso.Exchange.{
  Registers, stored, exchange, exchange-hit, exchange-miss, same_lem, register_of, bit_of, Took,
  manage_channel-Took,
}
use linux_firewire_dkms.Iso.Exchange.Free.{without, deallocate_channel-without}

-- A channel of the 64 was taken, in the register that it belongs to.
abbrev TookOf : Registers → Outcome → Registers → Type 0
TookOf regs (done c) regs' =
    (c < 64) × (test_bit (regs (register_of c)) (bit_of c) ≡ 1) × (regs' ≡ without regs c)
TookOf regs (error e) regs' = regs' ≡ regs

low_channel :
    (regs : Registers) (o : Outcome) (regs' : Registers)
    → Took csr_channels_available_hi regs o regs'
    → TookOf regs o regs'
low_channel regs (done c) regs' t =
    let small = t.0 in
    let r : register_of c ≡ csr_channels_available_hi = ground arith in
    let b : bit_of c ≡ 31 - c = omega arith in
    (
      omega arith,
      ap₂ (λ x y. test_bit (regs x) y) r b ∙ t.1,
      t.2 ∙ ap₂ (λ x y. stored regs x (regs x - 2 ^ y)) (sym r) (sym b),
    )
low_channel regs (error e) regs' t = t

high_channel :
    (regs : Registers) (o : Outcome) (regs' : Registers)
    → Took csr_channels_available_lo regs o regs'
    → TookOf regs (add_32 o) regs'
high_channel regs (done c) regs' t =
    let small = t.0 in
    let r : register_of (c + 32) ≡ csr_channels_available_lo = ground arith in
    let b : bit_of (c + 32) ≡ 31 - c = omega arith in
    (
      omega arith,
      ap₂ (λ x y. test_bit (regs x) y) r b ∙ t.1,
      t.2 ∙ ap₂ (λ x y. stored regs x (regs x - 2 ^ y)) (sym r) (sym b),
    )
high_channel regs (error e) regs' t = t

high_part-TookOf :
    (mask : ℕ) (c : Outcome) (regs s : Registers)
    → TookOf regs c s
    → let t = high_part exchange true mask c s in TookOf regs t.0 t.1
unfolding high_part
high_part-TookOf mask (done c) regs s t = elim (Bool-cases (mask != 0)) [
  | inl e ↦ rw e t
  | inr e ↦ rw e t
]
high_part-TookOf mask (error x) regs s t = elim (Bool-cases (mask != 0)) [
  | inl e ↦ rw e (
      high_channel regs _ _ (
        subst
          (λ r.
            Took csr_channels_available_lo r
              (manage_channel exchange true mask csr_channels_available_lo s).0
              (manage_channel exchange true mask csr_channels_available_lo s).1)
          t (manage_channel-Took mask csr_channels_available_lo s)))
  | inr e ↦ rw e t
]

channel_of_mask-TookOf :
    (mask : ℕ) (regs : Registers)
    → let t = channel_of_mask exchange true mask regs in TookOf regs t.0 t.1
unfolding channel_of_mask
channel_of_mask-TookOf mask regs = elim (Bool-cases (u32 mask != 0)) [
  | inl asked ↦
      rw (channel_of_mask, asked)
        (high_part-TookOf (mask / 2 ^ 32) _ regs _
          (low_channel regs _ _ (manage_channel-Took (u32 mask) csr_channels_available_hi regs)))
  | inr not_asked ↦
      rw (channel_of_mask, not_asked)
        (high_part-TookOf (mask / 2 ^ 32) (error Errno.einval) regs regs refl)
]

-- Bandwidth was taken, or the registers are as before.
abbrev TookUnits : (bandwidth : ℕ) → Registers → Outcome → Registers → Type 0
TookUnits bandwidth regs (done b) regs' =
    (bandwidth ≤ regs csr_bandwidth_available)
    × (regs' ≡ stored regs csr_bandwidth_available (regs csr_bandwidth_available - bandwidth))
TookUnits bandwidth regs (error e) regs' = regs' ≡ regs

new_bandwidth_lem :
    (bandwidth old new : ℕ)
    → new_bandwidth true bandwidth old ≡ some new
    → (bandwidth ≤ old) × (new ≡ old - bandwidth)
unfolding new_bandwidth
new_bandwidth_lem bandwidth old new e = (ground arith, ground arith)

bandwidth_loop-TookUnits :
    (bandwidth tries old : ℕ) (regs : Registers)
    → let t = bandwidth_loop exchange true bandwidth tries old regs in
      TookUnits bandwidth regs t.0 t.1
unfolding bandwidth_loop
bandwidth_loop-TookUnits bandwidth zero old regs = refl
bandwidth_loop-TookUnits bandwidth (suc tries) old regs =
    elim (Option-cases (new_bandwidth true bandwidth old)) [
      | inl busy ↦ rw (bandwidth_loop, busy) refl
      | inr (new, fits) ↦ elim (Bool-cases (regs csr_bandwidth_available == old)) [
        | inl hit ↦
            let is_old = same_lem (regs csr_bandwidth_available) old hit in
            let (enough, new_is) = new_bandwidth_lem bandwidth old new fits in
            rw (bandwidth_loop, fits, exchange-hit csr_bandwidth_available old new regs hit, hit)
              (
                omega arith,
                ap (λ p. p.1) (exchange-hit csr_bandwidth_available old new regs hit)
                    ∙ ap (stored regs csr_bandwidth_available)
                        (new_is ∙ ap (λ x. x - bandwidth) (sym is_old)),
              )
        | inr miss ↦
            rw (bandwidth_loop, fits, exchange-miss csr_bandwidth_available old new regs miss, miss)
              (subst
                (λ s.
                  let t =
                    bandwidth_loop exchange true bandwidth tries (regs csr_bandwidth_available) s in
                  TookUnits bandwidth regs t.0 t.1)
                (sym (ap (λ p. p.1) (exchange-miss csr_bandwidth_available old new regs miss)))
                (bandwidth_loop-TookUnits bandwidth tries (regs csr_bandwidth_available) regs))
      ]
    ]

manage_bandwidth-TookUnits :
    (bandwidth : ℕ) (regs : Registers)
    → let t = manage_bandwidth exchange true bandwidth regs in TookUnits bandwidth regs t.0 t.1
unfolding manage_bandwidth
manage_bandwidth-TookUnits bandwidth regs = bandwidth_loop-TookUnits bandwidth 5 4915 regs

-- The registers after a channel, and the units, were taken.
abbrev pub taken : Registers → (channel bandwidth : ℕ) → Registers
taken regs channel bandwidth =
    stored (without regs channel) csr_bandwidth_available (regs csr_bandwidth_available - bandwidth)

-- All: the channel, whose bit was set, and the bandwidth, which was there. Nothing: an error, and
-- the registers as they were.
abbrev pub AllOrNothing : (bandwidth : ℕ) → Registers → Outcome → ℕ → Registers → Type 0
AllOrNothing bandwidth regs (done c) b regs' =
    (c < 64)
    × (test_bit (regs (register_of c)) (bit_of c) ≡ 1)
    × (b ≡ bandwidth)
    × (bandwidth ≤ regs csr_bandwidth_available)
    × (regs' ≡ taken regs c bandwidth)
AllOrNothing bandwidth regs (error e) b regs' = (b ≡ 0) × (regs' ≡ regs)

apart : (c : ℕ) → csr_bandwidth_available == register_of c ≡ false
apart c = elim (Bool-cases (ltb c 32)) [ inl e ↦ rw e refl | inr e ↦ rw e refl ]

without-bandwidth :
    (regs : Registers) (c : ℕ)
    → without regs c csr_bandwidth_available ≡ regs csr_bandwidth_available
without-bandwidth regs c = if_of_false _ _ (apart c)

-- Taking no units leaves the registers.
taken-zero : (regs : Registers) (c : ℕ) → taken regs c 0 ≡ without regs c
taken-zero regs c = λ k o. at o k
  where
    at : (o : ℕ) → taken regs c 0 o ≡ without regs c o
    at o = elim (Bool-cases (o == csr_bandwidth_available)) [
      | inl e ↦
          if_of_true _ _ e
          ∙ omega arith
          ∙ sym (without-bandwidth regs c)
          ∙ ap (without regs c) (sym (same_lem o csr_bandwidth_available e))
      | inr e ↦ if_of_false _ _ e
    ]

settle-AllOrNothing :
    (bandwidth : ℕ) (regs s : Registers) (c : Outcome) (r : Outcome × Registers)
    → is_error c ≡ false
    → TookOf regs c s
    → TookUnits bandwidth s r.0 r.1
    → let t = settle exchange true c bandwidth r in AllOrNothing bandwidth regs t.0 t.1 t.2
unfolding settle
settle-AllOrNothing bandwidth regs s (error e) r ok t u = cc
settle-AllOrNothing bandwidth regs s (done c) (done b, s') ok t u =
    let same : s csr_bandwidth_available ≡ regs csr_bandwidth_available =
      ap (λ f. f csr_bandwidth_available) t.2 ∙ without-bandwidth regs c in
    (
      t.0,
      t.1,
      refl,
      omega (arith, same, u.0),
      u.1 ∙ ap₂ (λ f n. stored f csr_bandwidth_available (n - bandwidth)) t.2 same,
    )
settle-AllOrNothing bandwidth regs s (done c) (error e, s') ok t u =
    (refl, ap (deallocate_channel exchange c) (u ∙ t.2) ∙ deallocate_channel-without regs c t.0 t.1)

nothing_asked : (regs s : Registers) (c : Outcome) → TookOf regs c s → AllOrNothing 0 regs c 0 s
nothing_asked regs s (done c) t = (t.0, t.1, refl, omega arith, t.2 ∙ sym (taken-zero regs c))
nothing_asked regs s (error e) t = (refl, t)

no_channel :
    (bandwidth : ℕ) (regs s : Registers) (c : Outcome)
    → is_error c ≡ true
    → TookOf regs c s
    → AllOrNothing bandwidth regs c 0 s
no_channel bandwidth regs s (done c) e t = cc
no_channel bandwidth regs s (error x) e t = (refl, t)

-- An allocation, with a channel asked for, from a resource manager that performs each compare-swap,
-- with nobody else at its registers. Either it reports a channel, whose bit was set in the
-- manager's register and is now taken off, with the whole bandwidth, which was available and is now
-- subtracted; or it reports an error and no bandwidth, and every register is as it was.
pub resource_manage-AllOrNothing :
    (channels_mask bandwidth : ℕ) (regs : Registers)
    → channels_mask ≢ 0
    → let t = resource_manage exchange true channels_mask bandwidth regs in
      AllOrNothing bandwidth regs t.0 t.1 t.2
unfolding resource_manage
resource_manage-AllOrNothing mask bandwidth regs ne =
    let asked : (mask != 0) ≡ true = ground arith in
    let r = channel_of_mask exchange true mask regs in
    let t = channel_of_mask-TookOf mask regs in
    elim (Bool-cases (is_error r.0)) [
      | inl failed ↦
          rw (resource_manage, asked, failed) (no_channel bandwidth regs r.1 r.0 failed t)
      | inr got ↦ elim (Bool-cases (bandwidth == 0)) [
        | inl nothing ↦
            let zero_asked = same_lem bandwidth 0 nothing in
            rw (resource_manage, asked, got, nothing)
              (subst (λ b. AllOrNothing b regs r.0 0 r.1) (sym zero_asked)
                (nothing_asked regs r.1 r.0 t))
        | inr something ↦
            rw (resource_manage, asked, got, something)
              (settle-AllOrNothing bandwidth regs r.1 r.0 _ got t
                (manage_bandwidth-TookUnits bandwidth r.1))
      ]
    ]
