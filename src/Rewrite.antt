-- ===== src/Rewrite.antt =====
-- Packet rewriting (src/rewrite.c): the smoothing of RTP sequence numbers, the RTP packet in
-- memory, the matching of packets and routes, and the functions that the netfilter hooks call.
pub mod Smoothing
pub mod Rtp
pub mod Matching
pub mod Hooks
