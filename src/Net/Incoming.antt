-- ===== src/Net/Incoming.antt =====
-- A packet that comes in: `fwnet_incoming_packet`, the results and counters of
-- `fwnet_finish_incoming_packet`, and `fwnet_receive_packet` of drivers/firewire/net.c.
pub mod Whole
use linux_firewire_dkms.Prelude.{
  ℕ, ◌+◌, Bool, true, false, ◌&&◌, ◌||◌, Option, none, some, List, [], ◌∷◌, ◌++◌, map, length, ◌==◌,
  ◌!=◌, if◌then◌else◌,
}
use linux_firewire_dkms.Net.Datagrams.{
  PartialDatagram, Peer, Memory, Outcome, incoming_fragment, Incoming, returned, delivered,
}
use linux_firewire_dkms.Net.Header.{parse, Parsed, ignored, whole, fragment}

-- struct net_device_stats, the counters of receiving.
pub record Stats : Type 0 where
  pub rx_packets : ℕ
  pub rx_bytes : ℕ
  pub rx_errors : ℕ
  pub rx_dropped : ℕ

-- struct fwnet_device, what receiving uses of it.
pub record Device : Type 0 where
  pub peer_list : List Peer
  pub stats : Stats

-- A socket buffer that goes up: its EtherType, none where it was never written, and its bytes.
pub record Skb : Type 0 where
  pub ether_type : Option ℕ
  pub bytes : List (Option ℕ)

-- The kernel around the call: the allocations, CONFIG_IPV6, whether `netif_rx` drops the buffer,
-- and what unwritten memory reads as.
pub record Kernel : Type 0 where
  pub memory : Memory
  pub has_ipv6 : Bool
  pub drops : Bool
  pub stale : ℕ

pub data Retval : Type 0 where
  success no_entry no_memory : Retval

-- The return value, the device afterwards, and the buffer that `netif_rx` was given.
pub data Result : Type 0 where
  result : Retval → Device → Option Skb → Result
  undefined : Result

abbrev eth_p_ip : ℕ
eth_p_ip = 0x0800

abbrev eth_p_arp : ℕ
eth_p_arp = 0x0806

abbrev eth_p_ipv6 : ℕ
eth_p_ipv6 = 0x86dd

unfoldable pub is_known_type : Bool → ℕ → Bool
is_known_type has_ipv6 t = t == eth_p_arp || t == eth_p_ip || (has_ipv6 && t == eth_p_ipv6)

abbrev read_type : Kernel → Option ℕ → ℕ
read_type k none = k.stale
read_type k (some t) = t

abbrev count_error : Stats → Stats
count_error s = record {
  rx_packets = s.rx_packets;
  rx_bytes = s.rx_bytes;
  rx_errors = s.rx_errors + 1;
  rx_dropped = s.rx_dropped + 1;
}

abbrev count_packet : Stats → ℕ → Stats
count_packet s len = record {
  rx_packets = s.rx_packets + 1;
  rx_bytes = s.rx_bytes + len;
  rx_errors = s.rx_errors;
  rx_dropped = s.rx_dropped;
}

abbrev count_dropped : Stats → Stats
count_dropped s = record {
  rx_packets = s.rx_packets;
  rx_bytes = s.rx_bytes;
  rx_errors = s.rx_errors;
  rx_dropped = s.rx_dropped + 1;
}

abbrev pub with_stats : Device → Stats → Device
with_stats d s = record { peer_list = d.peer_list; stats = s }

unfoldable pub finish_incoming_packet : Kernel → Device → Skb → Result
finish_incoming_packet k d skb =
    if is_known_type k.has_ipv6 (read_type k skb.ether_type)
    then result success
        (with_stats d
          (if k.drops then count_error d.stats else count_packet d.stats (length skb.bytes)))
        (some skb)
    else result no_entry (with_stats d (count_error d.stats)) none

-- `fwnet_peer_find_by_node_id`, with the peers before the one it finds and those behind it.
pub record Found : Type 0 where
  pub before : List Peer
  pub peer : Peer
  pub behind : List Peer

abbrev skip : Peer → Option Found → Option Found
skip p none = none
skip p (some f) = some (record { before = p ∷ f.before; peer = f.peer; behind = f.behind })

unfoldable pub peer_find_by_node_id : List Peer → ℕ → ℕ → Option Found
peer_find_by_node_id [] node_id generation = none
peer_find_by_node_id (p ∷ rest) node_id generation =
    if p.node_id == node_id && p.generation == generation
    then some (record { before = []; peer = p; behind = rest })
    else skip p (peer_find_by_node_id rest node_id generation)

unfoldable pub put_back : Found → Peer → List Peer
put_back f p = f.before ++ (p ∷ f.behind)

abbrev with_peers : Device → List Peer → Device
with_peers d ps = record { peer_list = ps; stats = d.stats }

unfoldable pub after_fragment : Kernel → Device → Found → Outcome → Result
after_fragment k d f (returned true p) = result success (with_peers d (put_back f p)) none
after_fragment k d f (returned false p) = result no_memory (with_peers d (put_back f p)) none
after_fragment k d f (delivered pd p) =
    finish_incoming_packet k (with_peers d (put_back f p))
      (record { ether_type = pd.ether_type; bytes = pd.pbuf })
after_fragment k d f Outcome.fault = undefined

unfoldable pub incoming_parsed : Kernel → Device → Parsed → ℕ → ℕ → Result
incoming_parsed k d ignored source_node_id generation = result success d none
incoming_parsed k d (whole ether_type bytes) source_node_id generation =
    if k.memory.for_skb
    then finish_incoming_packet k d
        (record { ether_type = some ether_type; bytes = map some bytes })
    else result no_memory (with_stats d (count_dropped d.stats)) none
incoming_parsed k d (fragment f) source_node_id generation =
    elim (peer_find_by_node_id d.peer_list source_node_id generation) [
      | none ↦ result no_entry d none
      | some found ↦ after_fragment k d found (incoming_fragment k.memory found.peer f)
    ]

unfoldable pub incoming_packet : Kernel → Device → List ℕ → ℕ → ℕ → ℕ → Result
incoming_packet k d buf len source_node_id generation =
    incoming_parsed k d (parse buf len) source_node_id generation
