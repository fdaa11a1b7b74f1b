-- ===== src/Lib.antt =====
-- Models and theorems for the Linux FireWire subsystem of this repository: the core and IP over
-- 1394 in drivers/firewire, and the audio streaming code in sound/firewire.
--
-- The parts and how they interact. The core sends asynchronous requests to the nodes of a bus and
-- matches the responses with them (core-transaction.c), with packet headers and PHY packets laid
-- out by two headers of bit fields (packet-header-definitions.h, phy-packet-definitions.h). After
-- a bus reset the self-ID sequences of the nodes give the topology (core-topology.c). Channels
-- and bandwidth are taken from the isochronous resource manager by compare-swap transactions
-- (core-iso.c); the audio code keeps them across bus resets (iso-resources.c), sets the plugs of a
-- device with them (cmp.c), and streams packets with common isochronous headers (amdtp-stream.c).
-- The network driver (net.c) cuts datagrams into fragments, one for each request, and puts those
-- together that other nodes send.
--
-- Which file models which part. A function keeps its name without the prefix of its file.
--   Prelude      lists as C arrays, Boolean tests, bits, and the bit fields of a word.
--   Packet       drivers/firewire/packet-header-definitions.h in Packet/Async and Packet/Isoc, a
--                getter and a setter for each field; drivers/firewire/phy-packet-definitions.h in
--                Packet/Phy. Beside each: the arithmetic of the fields in Laws, and the fields as
--                data in Fields, to state at once what setters do to getters.
--   SelfId       the enumerator of self-ID sequences and the port status, of the same header. The
--                memory behind the cursor is a list, and a read past its end is a value.
--   Topology     drivers/firewire/core-topology.c: update_hop_count in Hops; Longest measures trees
--                of nodes with it; fw_node_create and the connecting of a new node in Wiring;
--                build_tree in Build. A list is the memory behind the pointers to nodes, and a
--                pointer is the number of a node. Below Build: Wires, Ports and Rounds follow the
--                pointers, Shape has the tree that self-IDs describe, and Hopcount, Measured and
--                Refine compare the two.
--   Transaction  drivers/firewire/core-transaction.c: the labels, the list of pending transactions
--                and the split timers of a card, with each critical section a function on the
--                state. A transaction's address is an id, its callback an entry of a log. Label,
--                Pending, Events and Race hold the theorems; Fill is fw_fill_request.
--   Iso          drivers/firewire/core-iso.c in Manage, over any state with a compare-swap to the
--                resource manager; sound/firewire/iso-resources.c in Resources, over a record of
--                what it uses of the core (Bus). Register and Exchange have a resource manager that
--                performs each compare-swap, on one register and on all of them.
--   Cmp          sound/firewire/cmp.c, with snd_fw_transaction of sound/firewire/lib.c, over a
--                record of what they use of a device (Device).
--   Stream       sound/firewire/amdtp-stream.c: the sequence of data blocks and presentation times
--                in Sequence, cached ones and the PCM pointers in Replay, CIP headers in
--                Cip, cycle counts in Cycle.
--   Inbound      drivers/firewire/core-transaction.c again: the address handlers in Handlers,
--                fw_fill_response and fw_get_response_length in Response, and the split timeout
--                in Timeout. A handler is the range of its addresses.
--   Net          drivers/firewire/net.c: the list of the parts of a datagram in Fragments, the
--                datagrams of a peer in Datagrams, the headers in Header, fwnet_incoming_packet in
--                Incoming, and the sending of a datagram to one peer in Transmit. A byte that has
--                not been written is a value of its own.
--   Tests        the theorems at concrete inputs.
--
-- Integers. Words are natural numbers; where C wraps around or shifts out, the reduction modulo a
-- power of two is written out. A register in big-endian order is kept in CPU order.
--
-- Bounds and fuel. The search for a label has 64 rounds, as there are 64 labels. The loops of
-- core-iso.c have their own counters: five tries for the bandwidth, 32 channels and five retries.
-- The loops of C that go on as long as bus resets or foreign writes come between (allocate of
-- iso-resources.c, pcr_modify and cmp_connection_establish) have fuel, and a value of their own
-- where it runs out. The search for the place of an address handler has as much fuel as the region
-- has addresses, since every step goes on by one at least, where the sums do not pass 64 bits. The loop of build_tree has a round for
-- each quadlet, and each round takes one at least; the sending of a datagram has one for each
-- packet that fwnet_tx counts.
--
-- What is not modelled. Locks are the critical sections of the steps: of __fw_send_request the
-- label and the entry on the list are taken in one step, though the code leaves the lock in
-- between. Timestamps, trace points, error messages and memory management are left out, and so
-- are the cancelling of a packet in the driver, the DMA contexts, the dispatch of inbound
-- requests, the drivers of controllers and of single devices, and the descriptor queues of the
-- streams. Of net.c, broadcasts, the accounting of queues and what the network layer does with a
-- buffer are left out: whether it drops the buffer, and which allocations fail, are parameters.
pub mod Prelude
pub mod Packet
pub mod SelfId
pub mod Topology
pub mod Transaction
pub mod Iso
pub mod Stream
pub mod Inbound
pub mod Cmp
pub mod Net
pub mod Tests
