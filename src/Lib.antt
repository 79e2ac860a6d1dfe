-- ===== src/Lib.antt =====
-- netpoke: a network survey tool. A browser opens a WebRTC session with the server; the server sends
-- probes with chosen hop limits, sniffs its own traffic, and joins the ICMP errors that come back to
-- the probes that caused them. This library models the server's core and proves it correct.
--
-- The parts:
--   Capture   server/src/packet_capture.rs. Buffer is `PacketRingBuffer`, Registry `SessionRegistry`,
--             Service `PacketCaptureService`, Pcap `packets_to_pcap`. PcapReader is a reader of
--             capture files written from the format, not from the code.
--   Frame     server/src/packet_capture.rs: the parsers by which the service finds the addresses of
--             a frame. Wire has the formats (Ethernet, IPv4, UDP, ICMP) as printers of header records.
--   Icmp      server/src/icmp_listener.rs: `parse_icmp_error` and `parse_icmpv6_error`.
--   Tracker   server/src/packet_tracker.rs: `PacketTracker`. Invariant has a step relation of all its
--             calls in any order.
--   Trace     server/src/tracing_buffer.rs: `TracingBuffer`, the log in memory.
--   Keylog    server/src/dtls_keylog.rs: `KeylogStorage` and the service on it.
--   Access    Normal and Cache are server/src/auth_cache.rs, Iperf and States the admission and the
--             state byte of iperf3-server/src/server.rs, config.rs and protocol.rs; Admission joins the
--             two as server/src/main.rs does.
--   Probes    server/src/measurements.rs with the state of server/src/state.rs: Session has the rounds
--             of the senders and the handlers of the packets, Metrics `calculate_metrics`, Streams the
--             probe streams and `calculate_probe_stream_stats`, Control the messages of
--             server/src/data_channels.rs that start, stop and clear; Run has all of them as events.
--   Traceroute  server/src/measurements.rs: `run_single_traceroute_round`, and in Mtu
--             `run_mtu_traceroute_round`, on the state of Probes and the tracker of Tracker.
--   Upload    server/src/upload_api.rs and upload_utils.rs: `upload_chunk`, the checksums of the
--             chunks, and in Finalize `finalize_upload`.
--   Survey    server/src/auth_handlers.rs and survey_middleware.rs: the login of a surveyor with a magic
--             key, its session cookie (Texts has the operations of `str`), and in Gate who may pass,
--             with auth/src/middleware.rs, service.rs and session.rs.
--   Checksum  server/src/tracking_channel.rs: the checksums of UDP, and the way of a probe from the
--             socket over the callback of server/src/main.rs to Tracker.
--   Cleanup   server/src/cleanup.rs: the descendants of a client, and in Lock the handler's locks.
--   Iperf     iperf3-server/src/session.rs and server.rs: the control connection of a session,
--             `run_session_protocol` with its messages and state bytes (Access.States), and in Sender
--             a task that sends on a TCP stream.
-- The service tags each frame with a session (Frame, then Registry) and stores it (Buffer). The
-- listener parses an ICMP error (Icmp) and hands it to the tracker, whose queue the sessions drain.
--
-- The shared modules: Prelude (names of the libraries, lists and maps over native numbers, and Rings,
-- the ring that two buffers of the program are), Fault (a value, `None`, or a panic of an index, a
-- slice, a remainder), Net (addresses and machine words).
--
-- Conventions. An octet is a number, and so is a word: what the code computes modulo 2^w is written
-- out. A `HashMap` is an association list in the order of insertion; where a theorem needs each key
-- once, it says so. A lock is held for one call, so a call is a function on the state. The clock is an
-- argument, and so is what other tasks do while one sleeps. A float (Probes.Floats), SHA-256 and the
-- formatting of texts are parameters. Recursion is on lists and counts (a loop that waits counts down
-- as the code does); fuel is needed by the reader of capture files, which has as much as the file
-- has octets (each record takes at least sixteen), by the passes of Cleanup (one more than there are
-- clients) and by the folding of a checksum (three tests, enough for a `u32`).
--
-- Not modelled: sockets, timers, libpcap, HTTP, WebRTC, SQL (Upload has a table), the
-- browser client, the vendored crates; logging; how an address is printed.
pub mod Prelude
pub mod Fault
pub mod Net
pub mod Frame
pub mod Capture
pub mod Icmp
pub mod Tracker
pub mod Trace
pub mod Keylog
pub mod Access
pub mod Probes
pub mod Traceroute
pub mod Upload
pub mod Survey
pub mod Checksum
pub mod Cleanup
pub mod Iperf
