-- ===== src/SelfId/Ports.antt =====
-- Reading and writing the two-bit status of a port.
use linux_firewire_dkms.Prelude.{
  ℕ, zero, suc, ◌+◌, ◌-◌, ◌*◌, ◌/◌, ◌%◌, ◌^◌, ◌≤◌, ◌<◌, ◌≡◌, ◌≢◌, refl, arith, List, length, get_or,
  set, get_or-set_self, get_or-set_ne, bit_and, bit_or, u32, not32, shl32, shr, outside_mask,
  bit_and_outside, bit_or_field, bit_and_ones,
}
use linux_firewire_dkms.Prelude.{
  sym, ◌∙◌, ap, ◌==◌, if◌then◌else◌, if_of_true, if_of_false, Bool-cases, inl, inr,
}
use native.Mathlib.Decide.{ℕ_discrete}
use linux_firewire_dkms.SelfId.{get_port_status, set_port_status, port_quadlet, port_shift}

-- The word `w` with the status of the port whose bits start at `s`.
abbrev put : ℕ → ℕ → ℕ → ℕ
put s w status = bit_or (bit_and w (not32 (shl32 0x3 s))) (shl32 status s)

put_lem :
    (s h w status : ℕ)
    → not32 (shl32 0x3 s) ≡ outside_mask s 2 h
    → w / 2 ^ s / 4 < 2 ^ h
    → shl32 status s ≡ status * 2 ^ s
    → status < 4
    → w % 2 ^ s < 2 ^ s
    → put s w status ≡ (w / 2 ^ s / 4 * 4 + status) * 2 ^ s + w % 2 ^ s
put_lem s h w status e fits e' small low =
    rw (e, e', bit_and_outside s 2 h w fits)
      (bit_or_field s 2 (w / 2 ^ s / 4) status (w % 2 ^ s) small low)

-- The eight places of a status in its quadlet, from the top.
data Place : Type 0 where
  p0 p1 p2 p3 p4 p5 p6 p7 : Place

abbrev shift : Place → ℕ
shift p0 = 16
shift p1 = 14
shift p2 = 12
shift p3 = 10
shift p4 = 8
shift p5 = 6
shift p6 = 4
shift p7 = 2

place : (r : ℕ) → r < 8 → (p : Place) × (shift p ≡ 16 - r * 2)
place zero h = (p0, refl)
place (suc zero) h = (p1, refl)
place (suc (suc zero)) h = (p2, refl)
place (suc (suc (suc zero))) h = (p3, refl)
place (suc (suc (suc (suc zero)))) h = (p4, refl)
place (suc (suc (suc (suc (suc zero))))) h = (p5, refl)
place (suc (suc (suc (suc (suc (suc zero)))))) h = (p6, refl)
place (suc (suc (suc (suc (suc (suc (suc zero))))))) h = (p7, refl)
place (suc (suc (suc (suc (suc (suc (suc (suc r)))))))) h = absurd (omega arith)

abbrev read : ℕ → ℕ → ℕ
read s w = bit_and (shr w s) 0x3

read_lem : (s w : ℕ) → read s w ≡ w / 2 ^ s % 4
read_lem s w = bit_and_ones 2 (w / 2 ^ s)

-- A write is read back in its place.
read-put_self :
    (p : Place) (w status : ℕ)
    → w < 2 ^ 32
    → status < 4
    → read (shift p) (put (shift p) w status) ≡ status
read-put_self p0 w status fits small =
    rw (read_lem, put_lem 16 14 w status refl (omega arith) (omega arith) small (omega arith))
      (omega arith)
read-put_self p1 w status fits small =
    rw (read_lem, put_lem 14 16 w status refl (omega arith) (omega arith) small (omega arith))
      (omega arith)
read-put_self p2 w status fits small =
    rw (read_lem, put_lem 12 18 w status refl (omega arith) (omega arith) small (omega arith))
      (omega arith)
read-put_self p3 w status fits small =
    rw (read_lem, put_lem 10 20 w status refl (omega arith) (omega arith) small (omega arith))
      (omega arith)
read-put_self p4 w status fits small =
    rw (read_lem, put_lem 8 22 w status refl (omega arith) (omega arith) small (omega arith))
      (omega arith)
read-put_self p5 w status fits small =
    rw (read_lem, put_lem 6 24 w status refl (omega arith) (omega arith) small (omega arith))
      (omega arith)
read-put_self p6 w status fits small =
    rw (read_lem, put_lem 4 26 w status refl (omega arith) (omega arith) small (omega arith))
      (omega arith)
read-put_self p7 w status fits small =
    rw (read_lem, put_lem 2 28 w status refl (omega arith) (omega arith) small (omega arith))
      (omega arith)

-- It changes no other place.
read-put_other :
    (p q : Place) (w status : ℕ)
    → p ≢ q
    → w < 2 ^ 32
    → status < 4
    → read (shift q) (put (shift p) w status) ≡ read (shift q) w
read-put_other p0 p0 w status ne fits small = absurd (ne refl)
read-put_other p0 q w status ne fits small =
    rw (put_lem 16 14 w status refl (omega arith) (omega arith) small (omega arith))
      (simp read_lem (omega arith))
read-put_other p1 p1 w status ne fits small = absurd (ne refl)
read-put_other p1 q w status ne fits small =
    rw (put_lem 14 16 w status refl (omega arith) (omega arith) small (omega arith))
      (simp read_lem (omega arith))
read-put_other p2 p2 w status ne fits small = absurd (ne refl)
read-put_other p2 q w status ne fits small =
    rw (put_lem 12 18 w status refl (omega arith) (omega arith) small (omega arith))
      (simp read_lem (omega arith))
read-put_other p3 p3 w status ne fits small = absurd (ne refl)
read-put_other p3 q w status ne fits small =
    rw (put_lem 10 20 w status refl (omega arith) (omega arith) small (omega arith))
      (simp read_lem (omega arith))
read-put_other p4 p4 w status ne fits small = absurd (ne refl)
read-put_other p4 q w status ne fits small =
    rw (put_lem 8 22 w status refl (omega arith) (omega arith) small (omega arith))
      (simp read_lem (omega arith))
read-put_other p5 p5 w status ne fits small = absurd (ne refl)
read-put_other p5 q w status ne fits small =
    rw (put_lem 6 24 w status refl (omega arith) (omega arith) small (omega arith))
      (simp read_lem (omega arith))
read-put_other p6 p6 w status ne fits small = absurd (ne refl)
read-put_other p6 q w status ne fits small =
    rw (put_lem 4 26 w status refl (omega arith) (omega arith) small (omega arith))
      (simp read_lem (omega arith))
read-put_other p7 p7 w status ne fits small = absurd (ne refl)
read-put_other p7 q w status ne fits small =
    rw (put_lem 2 28 w status refl (omega arith) (omega arith) small (omega arith))
      (simp read_lem (omega arith))

get_in :
    (qs : List ℕ) (n port : ℕ)
    → port_quadlet port < n
    → n ≤ 4
    → get_port_status qs n port ≡ read (port_shift port) (get_or qs (port_quadlet port) 0)
unfolding get_port_status
get_in qs n port h h' = ground arith

set_in :
    (qs : List ℕ) (n port status : ℕ)
    → port_quadlet port < n
    → set_port_status qs n port status
      ≡ set qs (port_quadlet port) (put (port_shift port) (get_or qs (port_quadlet port) 0) status)
unfolding set_port_status
set_in qs n port status h = ground arith

-- The status that is written to a port is read from it: for a port whose quadlet lies in the
-- sequence, in any sequence of up to four 32-bit quadlets.
get-set_port_status_self :
    (qs : List ℕ) (n port status : ℕ)
    → n ≤ length qs
    → n ≤ 4
    → port + 5 < 8 * n
    → get_or qs (port_quadlet port) 0 < 2 ^ 32
    → status < 4
    → get_port_status (set_port_status qs n port status) n port ≡ status
get-set_port_status_self qs n port status in_memory n_le in_sequence word small =
    let (p, e) = place ((port + 5) % 8) (omega arith) in
    let w = get_or qs (port_quadlet port) 0 in
    let here : port_shift port ≡ shift p = omega arith in
    rw
      (
        set_in qs n port status (omega arith),
        get_in (set qs (port_quadlet port) (put (port_shift port) w status)) n port (omega arith)
            n_le,
        get_or-set_self qs (port_quadlet port) (put (port_shift port) w status) 0 (omega arith),
        here,
      )
      (read-put_self p w status word small)

at_shifts :
    (p q : Place) (s t w status : ℕ)
    → shift p ≡ s
    → shift q ≡ t
    → s ≢ t
    → w < 2 ^ 32
    → status < 4
    → read t (put s w status) ≡ read t w
at_shifts p q s t w status e e' ne word small =
    rw (← e, ← e')
      (read-put_other p q w status (λ same. ne (sym e ∙ ap shift same ∙ e')) word small)

same_quadlet :
    (w status i j : ℕ)
    → w < 2 ^ 32
    → status < 4
    → port_shift i ≢ port_shift j
    → read (port_shift j) (put (port_shift i) w status) ≡ read (port_shift j) w
same_quadlet w status i j word small ne =
    let (p, e) = place (u32 (i + 5) % 8) (omega arith) in
    let (q, e') = place (u32 (j + 5) % 8) (omega arith) in
    at_shifts p q (port_shift i) (port_shift j) w status e e' ne word small

-- A write to one port of the sequence leaves every other port as it was.
get-set_port_status_other :
    (qs : List ℕ) (n i j status : ℕ)
    → i ≢ j
    → n ≤ length qs
    → n ≤ 4
    → i + 5 < 8 * n
    → j + 5 < 8 * n
    → get_or qs (port_quadlet i) 0 < 2 ^ 32
    → status < 4
    → get_port_status (set_port_status qs n i status) n j ≡ get_port_status qs n j
get-set_port_status_other qs n i j status ne in_memory n_le i_in j_in word small =
    let v = put (port_shift i) (get_or qs (port_quadlet i) 0) status in
    rw
      (
        set_in qs n i status (omega arith),
        get_in (set qs (port_quadlet i) v) n j (omega arith) n_le,
        get_in qs n j (omega arith) n_le,
      )
      (elim (ℕ_discrete (port_quadlet i) (port_quadlet j)) [
        | yes same ↦
            rw (← same, get_or-set_self qs (port_quadlet i) v 0 (omega arith))
              (same_quadlet (get_or qs (port_quadlet i) 0) status i j word small (omega arith))
        | no apart ↦ rw (get_or-set_ne qs (port_quadlet i) (port_quadlet j) v 0 apart)
      ])

-- The status that is written to a port is read from it, and every other port of the sequence keeps
-- its own: in any sequence of up to four 32-bit quadlets.
pub get-set_port_status :
    (qs : List ℕ) (n i j status : ℕ)
    → n ≤ length qs
    → n ≤ 4
    → i + 5 < 8 * n
    → j + 5 < 8 * n
    → get_or qs (port_quadlet i) 0 < 2 ^ 32
    → status < 4
    → get_port_status (set_port_status qs n i status) n j
      ≡ (if i == j then status else get_port_status qs n j)
get-set_port_status qs n i j status in_memory n_le i_in j_in word small =
    elim (Bool-cases (i == j)) [
      | inl same ↦
          let e : i ≡ j = ground arith in
          sym (ap (λ k. get_port_status (set_port_status qs n i status) n k) e)
          ∙ get-set_port_status_self qs n i status in_memory n_le i_in word small
          ∙ sym (if_of_true status (get_port_status qs n j) same)
      | inr apart ↦
          get-set_port_status_other qs n i j status (λ e. ground arith) in_memory n_le i_in j_in
            word small
          ∙ sym (if_of_false status (get_port_status qs n j) apart)
    ]
