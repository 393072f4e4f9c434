-- ===== src/Udp.antt =====
-- src/peer_udp.py: the datagrams between peers.
pub mod Packet
pub mod Reassembler
pub mod Chunks
pub mod Held
pub mod Delivery
pub mod Steps
pub mod RoundTrip
pub mod RateLimit
pub mod Serving
pub mod Sending
pub mod Seen
pub mod Dispatch
