-- ===== src/Tests/Isochronous.antt =====
-- Isochronous resources and connections at concrete inputs.
use linux_firewire_dkms.Prelude.{
  ℕ, ◌+◌, ◌-◌, ◌*◌, ◌/◌, ◌^◌, ◌<◌, ◌≤◌, ◌≡◌, refl, true, false, arith, ◌==◌, if◌then◌else◌,
}
use linux_firewire_dkms.Iso.Manage.{
  done, resource_manage, manage_bandwidth, csr_bandwidth_available,
}
use linux_firewire_dkms.Iso.Laws.{IsChannelOf, resource_manage-IsChannelOf}
use linux_firewire_dkms.Iso.Exchange.{Registers, exchange}
use linux_firewire_dkms.Iso.Exchange.Whole.{AllOrNothing, resource_manage-AllOrNothing}
use linux_firewire_dkms.Iso.Register.{swap, manage_bandwidth_lem}
use linux_firewire_dkms.Iso.Resources.{Resources, Bus, allocate, update, packet_bandwidth}
use linux_firewire_dkms.Iso.Resources.Laws.{
  MarkedIffOk, KeptIffCurrent, allocate-MarkedIffOk, update-KeptIffCurrent, packet_bandwidth_lem,
}
use linux_firewire_dkms.Cmp.{
  Connection, Direction, success, connection_establish, connection_break, opcr_set_modify,
}
use linux_firewire_dkms.Cmp.Quiet.{quiet, connection_establish_lem, connection_break_lem}
use linux_firewire_dkms.Cmp.Registers.{opcr_of, opcr_set_modify_lem}

resource_manage-IsChannelOf_example :
    IsChannelOf 0x30 (resource_manage swap true 0x30 100 0xffffffff).0
resource_manage-IsChannelOf_example = resource_manage-IsChannelOf swap true 0x30 100 0xffffffff

-- All channels are free, but there are only 50 units: a channel is taken, and put back.
abbrev short : Registers
short o = if o == csr_bandwidth_available then 50 else 0xffffffff

resource_manage-AllOrNothing_example :
    let t = resource_manage exchange true 0x3000000000 100 short in
    AllOrNothing 100 short t.0 t.1 t.2
resource_manage-AllOrNothing_example =
    resource_manage-AllOrNothing 0x3000000000 100 short (λ e. ground arith)

manage_bandwidth_lem_example : manage_bandwidth swap true 1000 4000 ≡ (done 1000, 3000)
manage_bandwidth_lem_example = manage_bandwidth_lem true 1000 4000 (omega arith)

-- A bus whose resource manager holds one bandwidth register.
abbrev bus : Bus ℕ
bus = record {
  generation_now = λ s. 5;
  gap_count_now = λ s. 63;
  wait_after_reset = λ s. (true, s);
  manage = λ allocate mask bandwidth s. (done 4, bandwidth, s - bandwidth);
}

abbrev idle : Resources
idle = record {
  channels_mask = 2 ^ 64 - 1;
  has_unit = true;
  generation = 0;
  channel = 0;
  bandwidth = 0;
  bandwidth_overhead = 0;
  allocated = false;
}

abbrev held : Resources
held = record idle { channel = 4; bandwidth = 100; bandwidth_overhead = 512; allocated = true }

allocate-MarkedIffOk_example : let t = allocate bus 3 idle 64 2 4915 in MarkedIffOk t.0 t.1
allocate-MarkedIffOk_example = allocate-MarkedIffOk bus 3 idle 64 2 4915 refl

update-KeptIffCurrent_example : let t = update bus held 4000 in KeptIffCurrent held t.0 t.1
update-KeptIffCurrent_example = update-KeptIffCurrent bus held 4000 refl

packet_bandwidth_lem_example :
    let bytes : ℕ = 12 + (65 + 3) / 4 * 4 in
    let units = packet_bandwidth 65 3 in
    (bytes * 4 ≤ units * 2 ^ 3) × (units * 2 ^ 3 < bytes * 4 + 2 ^ 3)
packet_bandwidth_lem_example = packet_bandwidth_lem 65 3 (omega arith) (omega arith)

-- An output connection at S400 on channel 4.
abbrev connection : Connection
connection = record {
  speed = 2;
  connected = false;
  resources = held;
  last_pcr_value = 0x80000000;
  pcr_index = 0;
  max_speed = 2;
  direction = Direction.output;
}

-- Bit 31 is "on-line"; bit 24 is one connection.
connection_establish_lem_example :
    connection_establish (quiet bus 2) 1 2 connection 0x80000007
    ≡ (success, record connection { last_pcr_value = 0x81048007; connected = true }, 0x81048007)
connection_establish_lem_example =
    connection_establish_lem bus 2 0 0 connection 0x80000007 refl (omega arith) (omega arith)
      (omega arith)

connection_break_lem_example :
    connection_break (quiet bus 2) 2 (record connection { connected = true }) 0x81040007
    ≡ (record connection { last_pcr_value = 0x80040007; connected = false }, 0x80040007)
connection_break_lem_example =
    connection_break_lem bus 2 0 (record connection { connected = true }) 0x81040007 (omega arith)

opcr_set_modify_lem_example : opcr_set_modify connection 0x80000007 ≡ opcr_of 0 4 2 0 0x80000007
opcr_set_modify_lem_example =
    opcr_set_modify_lem connection 0x80000007 (omega arith) (omega arith) (omega arith)
