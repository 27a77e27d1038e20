-- ===== src/Udp.antt =====
-- daemon/src/udp and daemon/src/interfaces/UdpMessage.ts: messages between nodes over UDP.
pub mod Parts
pub mod PacketSender
pub mod PacketReceiver
pub mod PartManager
pub mod Held
pub mod Assembly
pub mod Receiver
pub mod Transfer
pub mod Duplicates
pub mod Trial
pub mod Congestion
pub mod Accounting
pub mod Rounds
pub mod Counting
pub mod Pacing
pub mod Progress
use kachery_p2p.Base.{ℕ, ◌-◌, Bool, Option, String}
use kachery_p2p.Stream.{Buffer}

abbrev pub udp_message_header_size : ℕ
udp_message_header_size = 1000

abbrev pub udp_packet_size : ℕ
udp_packet_size = 20000

pub data UdpMessageType : Type 0 where
  node_to_node_request node_to_node_response keep_alive : UdpMessageType
  stream_data_chunk stream_data_error stream_data_end : UdpMessageType

pub record Address : Type 0 where
  pub host_name : Option String
  pub port : Option ℕ
  pub url : Option String

-- The meta data is its JSON text.
pub record UdpBody : Type 0 where
  pub udp_message_id : String
  pub protocol_version : String
  pub from_node_id : String
  pub to_address : Option Address
  pub udp_message_type : UdpMessageType
  pub meta_data : String
  pub part_index : ℕ
  pub num_parts : ℕ
  pub payload_is_json : Bool

pub record UdpHeader : Type 0 where
  pub body : UdpBody
  pub signature : String

pub record UdpMessagePart : Type 0 where
  pub header : UdpHeader
  pub data_buffer : Buffer
