-- ===== src/Cmp/Quiet.antt =====
-- Connections to a device whose register only this driver changes, without bus resets.
use linux_firewire_dkms.Prelude.{
  ℕ, suc, ◌+◌, ◌/◌, ◌^◌, ◌<◌, ltb, ◌&&◌, ◌||◌, ◌≡◌, refl, ap, ◌∙◌, inl, inr, ◌≢◌, Bool, true, false,
  Option, none, some, arith, ◌==◌, if◌then◌else◌, Bool-cases, if_of_true, if_of_false,
}
use native.Mathlib.Decide.{ℕ_discrete}
use linux_firewire_dkms.Iso.Resources.{Bus}
use linux_firewire_dkms.Cmp.{
  Connection, Device, Status, success, set_modify, pcr_set_check, pcr_modify, modify_loop,
  snd_fw_transaction, transaction_loop, connection_establish, establish_loop, established,
  connection_break, pcr_break_modify, ebusy, econnrefused, ipcr_set_modify, opcr_set_modify,
  Direction, input, output,
}
use linux_firewire_dkms.Cmp.Registers.{
  cleared, pcr_break_modify_lem, is_free, is_on_line, pcr_set_check_lem, set_of, ipcr_of, opcr_of,
  xspd_of, spd_of, ipcr_set_modify_lem, opcr_set_modify_lem,
}

-- One register, and attempts that complete.
abbrev pub quiet : Bus ℕ → ℕ → Device ℕ
quiet bus max_speed = record {
  bus = bus;
  generation = λ s. 0;
  max_speed = max_speed;
  read = λ generation offset r. (0, r, r);
  lock = λ generation offset old new r. (0, r, if r == old then new else r);
}

same : (r : ℕ) → (r == r) ≡ true
same r = ground arith

differ : (r old : ℕ) → r ≢ old → (r == old) ≡ false
differ r old h = ground arith

module _ (bus : Bus ℕ) (max_speed : ℕ) where
  abbrev d : Device ℕ
  d = quiet bus max_speed

  -- One round of the loop.
  round_lem :
      (modify : Connection → ℕ → ℕ) (check : ℕ → Option Status) (succeed : Bool) (fuel : ℕ)
      (c : Connection) (old r : ℕ)
      → modify_loop d modify check succeed (suc fuel) c old r ≡ (
          let swapped : ℕ = if r == old then modify c old else r in
          elim (r == old) as (λ x. Status × Connection × ℕ) [
            | true ↦ (success, record c { last_pcr_value = modify c old }, swapped)
            | false ↦ elim (check r) as (λ x. Status × Connection × ℕ) [
              | some e ↦ (e, c, swapped)
              | none ↦ modify_loop d modify check succeed fuel c r swapped
            ]
          ])
  unfolding modify_loop snd_fw_transaction transaction_loop
  round_lem modify check succeed fuel c old r = refl

  modify_hit :
      (modify : Connection → ℕ → ℕ) (check : ℕ → Option Status) (succeed : Bool) (fuel : ℕ)
      (c : Connection) (r : ℕ)
      → modify_loop d modify check succeed (suc fuel) c r r
        ≡ (success, record c { last_pcr_value = modify c r }, modify c r)
  modify_hit modify check succeed fuel c r =
      round_lem modify check succeed fuel c r r
      ∙ rw (same r, if_of_true (modify c r) r (same r)) refl

  modify_miss :
      (modify : Connection → ℕ → ℕ) (check : ℕ → Option Status) (succeed : Bool) (fuel : ℕ)
      (c : Connection) (old r : ℕ)
      → r ≢ old
      → modify_loop d modify check succeed (suc fuel) c old r
        ≡ (elim (check r) as (λ x. Status × Connection × ℕ) [
          | some e ↦ (e, c, r)
          | none ↦ modify_loop d modify check succeed fuel c r r
        ])
  modify_miss modify check succeed fuel c old r h =
      round_lem modify check succeed fuel c old r
      ∙ rw (differ r old h) (
          ap
            (λ (t : ℕ). elim (check r) as (λ x. Status × Connection × ℕ) [
              | some e ↦ (e, c, t)
              | none ↦ modify_loop d modify check succeed fuel c r t
            ])
            (if_of_false (modify c old) r (differ r old h)))

  after_check :
      (modify : Connection → ℕ → ℕ) (check : ℕ → Option Status) (succeed : Bool) (fuel : ℕ)
      (c : Connection) (r : ℕ) (o : Option Status)
      → (elim o [ some e ↦ (e, c, r) | none ↦ modify_loop d modify check succeed (suc fuel) c r r ])
        ≡ (elim o as (λ x. Status × Connection × ℕ) [
          | some e ↦ (e, c, r)
          | none ↦ (success, record c { last_pcr_value = modify c r }, modify c r)
        ])
  after_check modify check succeed fuel c r none = modify_hit modify check succeed fuel c r
  after_check modify check succeed fuel c r (some e) = refl

  modified :
      (modify : Connection → ℕ → ℕ) (check : ℕ → Option Status) (succeed : Bool) (fuel : ℕ)
      (c : Connection) (old r : ℕ)
      → modify_loop d modify check succeed (suc (suc fuel)) c old r ≡ (
          if r == old
          then (success, record c { last_pcr_value = modify c r }, modify c r)
          else elim (check r) [
            | some e ↦ (e, c, r)
            | none ↦ (success, record c { last_pcr_value = modify c r }, modify c r)
          ])
  modified modify check succeed fuel c old r = elim (ℕ_discrete r old) [
    | yes e ↦ rw (← e, same r) (modify_hit modify check succeed (suc fuel) c r)
    | no n ↦
        modify_miss modify check succeed (suc fuel) c old r n
        ∙ after_check modify check succeed fuel c r (check r)
        ∙ rw (differ r old n) refl
  ]

  -- Two rounds are enough.
  modify_lem :
      (modify : Connection → ℕ → ℕ) (check : ℕ → Option Status) (succeed : Bool) (fuel : ℕ)
      (c : Connection) (r : ℕ)
      → pcr_modify d modify check succeed (suc (suc fuel)) c r ≡ (
          if r == c.last_pcr_value
          then (success, record c { last_pcr_value = modify c r }, modify c r)
          else elim (check r) [
            | some e ↦ (e, c, r)
            | none ↦ (success, record c { last_pcr_value = modify c r }, modify c r)
          ])
  unfolding pcr_modify
  modify_lem modify check succeed fuel c r = modified modify check succeed fuel c c.last_pcr_value r

  set_modify_lem :
      (c : Connection) (r : ℕ)
      → c.resources.channel < 64
      → c.speed < 7
      → r < 2 ^ 32
      → set_modify d c r ≡ set_of c r
  set_modify_lem c r channel speed word = go c.direction
    where
      go :
          (dir : Direction)
          → (elim dir [ input ↦ ipcr_set_modify c r | output ↦ opcr_set_modify c r ])
            ≡ (elim dir as (λ x. ℕ) [
              | input ↦ ipcr_of c.resources.channel r
              | output ↦
                  opcr_of
                    (xspd_of c.speed)
                    c.resources.channel
                    (spd_of c.speed)
                    (if ltb c.resources.bandwidth_overhead 480
                      then c.resources.bandwidth_overhead / 32 + 1
                      else 0)
                    r
            ])
      go input = ipcr_set_modify_lem c r channel word
      go output = opcr_set_modify_lem c r channel speed word

  -- What comes of it where the register is to become `new`.
  abbrev finished : Connection → ℕ → ℕ → Status × Connection × ℕ
  finished c r new =
      if r == c.last_pcr_value || (is_free r && is_on_line r)
      then (success, record c { last_pcr_value = new; connected = true }, new)
      else (if is_free r then econnrefused else ebusy, c, r)

  in_one_go :
      (resets fuel : ℕ) (c : Connection) (r : ℕ)
      → c.connected ≡ false
      → r < 2 ^ 32
      → connection_establish d (suc resets) (suc (suc fuel)) c r ≡ finished c r (set_modify d c r)
  unfolding connection_establish establish_loop established
  in_one_go resets fuel c r free word = simp free (
      rw (modify_lem (set_modify d) pcr_set_check false fuel c r, pcr_set_check_lem r word)
        (elim (Bool-cases (r == c.last_pcr_value)) [
          | inl e ↦ rw e refl
          | inr e ↦ elim (Bool-cases (is_free r)) [
            | inr f ↦ rw (e, f) refl
            | inl f ↦ elim (Bool-cases (is_on_line r)) [
              | inl g ↦ rw (e, f, g) refl
              | inr g ↦ rw (e, f, g) refl
            ]
          ]
        ]))

  -- On a device all of whose transactions complete, with no bus reset and nobody else at the
  -- register, a connection with a channel and a speed that there are is established in one go.
  -- Where the register is as it was last seen, or the plug has no connection and is on-line, that
  -- succeeds: the register then has the connection, bit by bit, and is remembered so. Else it is
  -- busy, or refused where the plug is free and not on-line, and nothing changes.
  pub connection_establish_lem :
      (resets fuel : ℕ) (c : Connection) (r : ℕ)
      → c.connected ≡ false
      → c.resources.channel < 64
      → c.speed < 7
      → r < 2 ^ 32
      → connection_establish d (suc resets) (suc (suc fuel)) c r ≡ (
          if r == c.last_pcr_value || (is_free r && is_on_line r)
          then (success, record c { last_pcr_value = set_of c r; connected = true }, set_of c r)
          else (if is_free r then econnrefused else ebusy, c, r))
  connection_establish_lem resets fuel c r free channel speed word =
      in_one_go resets fuel c r free word
      ∙ ap (finished c r) (set_modify_lem c r channel speed word)

  -- On a device all of whose transactions complete, with no bus reset and nobody else at its 32-bit
  -- register, breaking a connection clears the connection fields of the register, whatever its
  -- value, leaves its other bits, and forgets the connection; breaking none does nothing.
  pub connection_break_lem :
      (fuel : ℕ) (c : Connection) (r : ℕ)
      → r < 2 ^ 32
      → connection_break d (suc (suc fuel)) c r ≡ (
          if c.connected
          then (record c { last_pcr_value = cleared r; connected = false }, cleared r)
          else (c, r))
  unfolding connection_break
  connection_break_lem fuel c r word =
      rw (modify_lem pcr_break_modify (λ _. none) true fuel c r, pcr_break_modify_lem c r word)
        (elim (Bool-cases (r == c.last_pcr_value)) [ inl e ↦ rw e refl | inr e ↦ rw e refl ])
