-- ===== src/Capture.antt =====
-- server/src/packet_capture.rs, behind the frame parsers of `Frame`.
pub mod Buffer
pub mod Contents
pub mod Registry
pub mod Pcap
pub mod Service
mod Tests
pub mod PcapReader
pub mod Lookups
pub mod Tagging
