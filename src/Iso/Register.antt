-- ===== src/Iso/Register.antt =====
-- `manage_bandwidth` against a resource manager that performs each compare-swap, with nobody else
-- at the register.
use linux_firewire_dkms.Prelude.{
  ℕ, ◌+◌, ◌-◌, ◌≤◌, ◌≡◌, arith, Bool, true, false, ◌==◌, if◌then◌else◌, leb,
}
use linux_firewire_dkms.Iso.Manage.{
  Errno, done, error, Reply, new_bandwidth, bandwidth_loop, manage_bandwidth,
}

-- IEEE 1394 compare-swap: the old value is returned, and replaced where it is the expected one.
unfoldable pub swap : ℕ → ℕ → ℕ → ℕ → Reply × ℕ
swap offset old new reg = (Reply.complete reg, if reg == old then new else reg)

-- Where the units are there, `manage_bandwidth` takes exactly these from BANDWIDTH_AVAILABLE;
-- where they are not, it fails as busy and leaves the register alone.
allocate_bandwidth_lem :
    (bandwidth reg : ℕ)
    → reg ≤ 4915
    → manage_bandwidth swap true bandwidth reg
      ≡ (if leb bandwidth reg then (done bandwidth, reg - bandwidth) else (error Errno.ebusy, reg))
unfolding manage_bandwidth bandwidth_loop new_bandwidth swap
allocate_bandwidth_lem bandwidth reg h = ground arith

-- Releasing gives the units back, unless that would pass the 4915 units of a bus; then it fails as
-- busy and changes nothing.
release_bandwidth_lem :
    (bandwidth reg : ℕ)
    → reg ≤ 4915
    → manage_bandwidth swap false bandwidth reg ≡ (
        if leb (reg + bandwidth) 4915
        then (done bandwidth, reg + bandwidth)
        else (error Errno.ebusy, reg))
unfolding manage_bandwidth bandwidth_loop new_bandwidth swap
release_bandwidth_lem bandwidth reg h = ground arith

-- With nobody else at a register of at most 4915 units, `manage_bandwidth` takes or gives back exactly
-- the units, where the register holds them or has room for them; where not, it fails as busy and
-- leaves the register alone.
pub manage_bandwidth_lem :
    (allocate : Bool) (bandwidth reg : ℕ)
    → reg ≤ 4915
    → manage_bandwidth swap allocate bandwidth reg ≡ (
        if (if allocate then leb bandwidth reg else leb (reg + bandwidth) 4915)
        then (done bandwidth, if allocate then reg - bandwidth else reg + bandwidth)
        else (error Errno.ebusy, reg))
manage_bandwidth_lem true bandwidth reg h = allocate_bandwidth_lem bandwidth reg h
manage_bandwidth_lem false bandwidth reg h = release_bandwidth_lem bandwidth reg h
