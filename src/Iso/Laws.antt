-- ===== src/Iso/Laws.antt =====
-- What `fw_iso_resource_manage` promises, whatever the resource manager replies.
use linux_firewire_dkms.Prelude.{
  ℕ, zero, suc, ◌-◌, ◌/◌, ◌^◌, ◌≤◌, ◌<◌, ◌≡◌, refl, arith, Bool, true, false, ◌&&◌, bit_and,
  bit_xor, test_bit, ◌==◌, ◌!=◌, if◌then◌else◌, u32, bit_and-pow_eq_zero, test_bit-bit_and,
  test_bit-shr, bit_and_ones, sym, ap, ◌∙◌, Bool-cases, inl, inr,
}
use linux_firewire_dkms.Iso.Manage.{
  Errno, Outcome, done, error, Reply, resume, Round, unwanted, taken, finished, lost, again,
  is_error, judge, channel_round, channel_loop, manage_channel, channel_of_mask, high_part, settle,
  resource_manage, add_32, csr_channels_available_hi, csr_channels_available_lo,
}

-- A channel that ends the loop is the one at hand, and in the mask.
abbrev GoodRound : ℕ → ℕ → Round → Type 0
GoodRound mask channel (finished (done c)) = (c ≡ channel) × (test_bit mask channel ≡ 1)
GoodRound mask channel _ = Unit {0}

abbrev GoodChannel : ℕ → Outcome → Type 0
GoodChannel mask (done c) = (c < 32) × (test_bit mask c ≡ 1)
GoodChannel mask (error e) = Unit {0}

judge-Good :
    (allocate : Bool) (mask channel bit old new : ℕ) (r : Reply)
    → test_bit mask channel ≡ 1
    → GoodRound mask channel (judge allocate channel bit old new r)
unfolding judge
judge-Good true mask channel bit old new Reply.generation h = tt
judge-Good false mask channel bit old new Reply.generation h = (refl, h)
judge-Good allocate mask channel bit old new (Reply.complete seen) h =
    elim (Bool-cases (seen == old)) [
      | inl same ↦ rw same (refl, h)
      | inr differ ↦ elim (Bool-cases (bit_and seen bit == bit_and new bit)) [
        | inl gone ↦ rw (differ, gone) tt
        | inr still ↦ rw (differ, still) tt
      ]
    ]
judge-Good allocate mask channel bit old new Reply.failed h = tt

in_mask : (mask c : ℕ) → (bit_and mask (2 ^ c) == 0) ≡ false → test_bit mask c ≡ 1
in_mask mask c h = ground (arith, bit_and-pow_eq_zero mask c)

low_word : (mask c : ℕ) → test_bit (u32 mask) c ≡ 1 → test_bit mask c ≡ 1
low_word mask c h =
    let word : u32 mask ≡ bit_and mask (2 ^ 32 - 1) = sym (bit_and_ones 32 mask) in
    omega (arith, ap (λ t. test_bit t c) word, test_bit-bit_and c mask (2 ^ 32 - 1))

-- A channel of the 64 in the mask.
abbrev pub IsChannelOf : ℕ → Outcome → Type 0
IsChannelOf mask (done c) = (c < 64) × (test_bit mask c ≡ 1)
IsChannelOf mask (error e) = Unit {0}

low_channel : (mask : ℕ) (o : Outcome) → GoodChannel (u32 mask) o → IsChannelOf mask o
low_channel mask (done c) g = (omega arith, low_word mask c g.1)
low_channel mask (error e) g = tt

high_channel :
    (mask : ℕ) (o : Outcome) → GoodChannel (mask / 2 ^ 32) o → IsChannelOf mask (add_32 o)
high_channel mask (done c) g = (omega arith, sym (test_bit-shr 32 mask c) ∙ g.1)
high_channel mask (error e) g = tt

module _ {S : Type 0} (lock : ℕ → ℕ → ℕ → S → Reply × S) where
  round-Good :
      (allocate : Bool) (mask offset channel old : ℕ) (s : S)
      → GoodRound mask channel (channel_round lock allocate mask offset channel old s).0
  unfolding channel_round
  round-Good allocate mask offset channel old s =
      let bit = 2 ^ (31 - channel) in
      let all : ℕ = if allocate then 0xffffffff else 0 in
      elim (Bool-cases (bit_and mask (2 ^ channel) == 0)) [
        | inl out ↦ rw (channel_round, out) tt
        | inr wanted ↦ elim (Bool-cases (bit_and old bit != bit_and all bit)) [
          | inl busy ↦ rw (channel_round, wanted, busy) tt
          | inr free ↦
              rw (channel_round, wanted, free)
                (judge-Good allocate mask channel bit old (bit_xor old bit)
                  (lock offset old (bit_xor old bit) s).0 (in_mask mask channel wanted))
        ]
      ]

  resume-Good :
      (mask left : ℕ) (next : ℕ → Errno → S → Outcome × S) (retry : ℕ → S → Outcome × S) (old : ℕ)
      (ret : Errno) (r : Round × S)
      → suc left ≤ 32
      → GoodRound mask (31 - left) r.0
      → ((o : ℕ) (e : Errno) (s : S) → GoodChannel mask (next o e s).0)
      → ((o : ℕ) (s : S) → GoodChannel mask (retry o s).0)
      → GoodChannel mask (resume lock next retry old ret r).0
  unfolding resume
  resume-Good mask left next retry old ret (unwanted, s) h g n a = n old ret s
  resume-Good mask left next retry old ret (taken, s) h g n a = n old Errno.ebusy s
  resume-Good mask left next retry old ret (finished (done c), s) h g n a =
      (omega arith, rw g.0 g.1)
  resume-Good mask left next retry old ret (finished (error e), s) h g n a = tt
  resume-Good mask left next retry old ret (lost seen, s) h g n a = n seen Errno.ebusy s
  resume-Good mask left next retry old ret (again seen, s) h g n a = a seen s

  loop-Good :
      (allocate : Bool) (mask offset left retry old : ℕ) (ret : Errno) (s : S)
      → left ≤ 32
      → GoodChannel mask (channel_loop lock allocate mask offset left retry old ret s).0
  unfolding channel_loop
  loop-Good allocate mask offset zero retry old ret s h = tt
  loop-Good allocate mask offset (suc left) zero old ret s h =
      resume-Good mask left _ _ old ret _ h (round-Good allocate mask offset (31 - left) old s)
        (λ o e s'. loop-Good allocate mask offset left zero o e s' (omega arith))
        (λ o s'. loop-Good allocate mask offset left zero o Errno.eio s' (omega arith))
  loop-Good allocate mask offset (suc left) (suc retry) old ret s h =
      resume-Good mask left _ _ old ret _ h (round-Good allocate mask offset (31 - left) old s)
        (λ o e s'. loop-Good allocate mask offset left (suc retry) o e s' (omega arith))
        (λ o s'. loop-Good allocate mask offset (suc left) retry o Errno.ebusy s' h)

  manage_channel-Good :
      (allocate : Bool) (mask offset : ℕ) (s : S)
      → GoodChannel mask (manage_channel lock allocate mask offset s).0
  unfolding manage_channel
  manage_channel-Good allocate mask offset s =
      loop-Good allocate mask offset 32 5 (if allocate then 0xffffffff else 0) Errno.eio s
        (omega arith)

  high_part-Good :
      (allocate : Bool) (mask : ℕ) (c : Outcome) (s : S)
      → IsChannelOf mask c
      → IsChannelOf mask (high_part lock allocate (mask / 2 ^ 32) c s).0
  unfolding high_part
  high_part-Good allocate mask c s g = elim (Bool-cases (mask / 2 ^ 32 != 0 && is_error c)) [
    | inl asked ↦
        rw (high_part, asked)
          (high_channel mask _
            (manage_channel-Good allocate (mask / 2 ^ 32) csr_channels_available_lo s))
    | inr not_asked ↦ rw (high_part, not_asked) g
  ]

  channel_of_mask-IsChannelOf :
      (allocate : Bool) (mask : ℕ) (s : S)
      → IsChannelOf mask (channel_of_mask lock allocate mask s).0
  unfolding channel_of_mask
  channel_of_mask-IsChannelOf allocate mask s = elim (Bool-cases (u32 mask != 0)) [
    | inl asked ↦
        rw (channel_of_mask, asked)
          (high_part-Good allocate mask _ _ (
            low_channel mask _
              (manage_channel-Good allocate (u32 mask) csr_channels_available_hi s)))
    | inr not_asked ↦
        rw (channel_of_mask, not_asked) (high_part-Good allocate mask (error Errno.einval) s tt)
  ]

  settle-IsChannelOf :
      (allocate : Bool) (mask bandwidth : ℕ) (c : Outcome) (r : Outcome × S)
      → IsChannelOf mask c
      → IsChannelOf mask (settle lock allocate c bandwidth r).0
  unfolding settle
  settle-IsChannelOf allocate mask bandwidth c (done _, s) g = g
  settle-IsChannelOf false mask bandwidth c (error e, s) g = g
  settle-IsChannelOf true mask bandwidth (done channel) (error e, s) g = tt
  settle-IsChannelOf true mask bandwidth (error _) (error e, s) g = tt

  -- A channel that `fw_iso_resource_manage` reports, allocated or freed, is one of the 64 channels
  -- and in the mask that was asked for, whatever the resource manager replies.
  pub resource_manage-IsChannelOf :
      (allocate : Bool) (channels_mask bandwidth : ℕ) (s : S)
      → IsChannelOf channels_mask (resource_manage lock allocate channels_mask bandwidth s).0
  unfolding resource_manage
  resource_manage-IsChannelOf allocate mask bandwidth s =
      let r = channel_of_mask lock allocate mask s in
      let wanted : ℕ = if allocate && mask != 0 && is_error r.0 then 0 else bandwidth in
      elim (Bool-cases (wanted == 0)) [
        | inl nothing ↦ rw (resource_manage, nothing) (channel_of_mask-IsChannelOf allocate mask s)
        | inr something ↦
            rw (resource_manage, something)
              (settle-IsChannelOf allocate mask wanted r.0 _
                (channel_of_mask-IsChannelOf allocate mask s))
      ]
