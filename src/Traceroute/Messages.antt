-- ===== src/Traceroute/Messages.antt =====
-- common/src/protocol.rs: the control messages that the traceroute rounds send.
use netpoke.Prelude.{ℕ, Option, String}
use netpoke.Net.{SocketAddr}

pub record TraceHopMessage (F : Type 0) : Type 0 where
  pub hop : ℕ
  pub ip_address : Option String
  pub rtt_ms : F
  pub message : String
  pub conn_id : String
  pub survey_session_id : String
  pub original_src_port : ℕ
  pub original_dest_addr : SocketAddr

pub record TracerouteCompletedMessage : Type 0 where
  pub conn_id : String
  pub survey_session_id : String

pub record MtuHopMessage (F : Type 0) : Type 0 where
  pub hop : ℕ
  pub ip_address : Option String
  pub rtt_ms : F
  pub mtu : Option ℕ
  pub message : String
  pub conn_id : String
  pub survey_session_id : String
  pub packet_size : ℕ

pub record MtuTracerouteCompletedMessage : Type 0 where
  pub conn_id : String
  pub survey_session_id : String
  pub packet_size : ℕ

-- The messages of these rounds.
pub data ControlMessage (F : Type 0) : Type 0 where
  trace_hop : TraceHopMessage F → ControlMessage F
  traceroute_completed : TracerouteCompletedMessage → ControlMessage F
  mtu_hop : MtuHopMessage F → ControlMessage F
  mtu_traceroute_completed : MtuTracerouteCompletedMessage → ControlMessage F
