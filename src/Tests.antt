-- ===== src/Tests.antt =====
-- The theorems at concrete inputs.
mod Transactions
mod SelfIds
mod Isochronous
mod Streams
mod Network
mod Packets
mod Requests
