-- ===== src/P4Runtime.antt =====
-- The messages of P4Runtime and of its P4Info description, with the fields that the control plane
-- sets or reads. The classes themselves are generated from the P4Runtime specification, outside the
-- repository; here a message is the record of its fields.
pub mod Switch
use scion_int_p.Prelude.{ℕ, Bytes, List, Option}

-- An exact match on one field of a table key.
pub record FieldMatch : Type 0 where
  pub field_id : ℕ
  pub value : Bytes

pub record ActionParam : Type 0 where
  pub param_id : ℕ
  pub value : Bytes

pub record Action : Type 0 where
  pub action_id : ℕ
  pub params : List ActionParam

pub record TableEntry : Type 0 where
  pub table_id : ℕ
  pub matches : List FieldMatch
  pub action : Option Action

pub record Replica : Type 0 where
  pub egress_port : ℕ
  pub instance_id : ℕ

pub record CloneSession : Type 0 where
  pub session_id : ℕ
  pub replicas : List Replica
  pub class_of_service : ℕ
  pub packet_length_bytes : ℕ

pub record DigestEntry : Type 0 where
  pub digest_id : ℕ
  pub max_timeout_ns : ℕ
  pub max_list_size : ℕ
  pub ack_timeout_ns : ℕ

pub data Entity : Type 0 where
  table_entry : TableEntry → Entity
  multicast_group_entry : ℕ → List Replica → Entity
  clone_session_entry : CloneSession → Entity
  digest_entry : DigestEntry → Entity

pub data UpdateType : Type 0 where
  insert modify delete : UpdateType

pub record Update : Type 0 where
  pub kind : UpdateType
  pub entity : Entity

pub data Atomicity : Type 0 where
  continue_on_error rollback_on_error dataplane_atomic : Atomicity

-- `p4::v1::WriteRequest`
pub record WriteMessage : Type 0 where
  pub device_id : ℕ
  pub election_high : ℕ
  pub election_low : ℕ
  pub atomicity : Atomicity
  pub updates : List Update

-- What the control plane writes to the stream channel.
pub data StreamRequest : Type 0 where
  arbitration : ℕ → ℕ → ℕ → StreamRequest
  digest_ack : ℕ → ℕ → StreamRequest

-- An object of P4Info by its preamble.
pub record Preamble : Type 0 where
  pub id : ℕ
  pub name : Bytes

pub record P4Info : Type 0 where
  pub counters : List Preamble
  pub digests : List Preamble

pub data PipelineAction : Type 0 where
  verify verify_and_commit : PipelineAction

pub record PipelineRequest : Type 0 where
  pub device_id : ℕ
  pub election_high : ℕ
  pub election_low : ℕ
  pub action : PipelineAction
  pub p4info : P4Info
  pub device_config : Bytes

-- One entry of a digest list: the bitstrings of a struct's members, or data of another shape.
pub data DigestData : Type 0 where
  struct : List Bytes → DigestData
  other : DigestData

pub record DigestList : Type 0 where
  pub digest_id : ℕ
  pub list_id : ℕ
  pub entries : List DigestData

-- What the stream channel delivers. An arbitration update is its status code, a packet its payload.
pub data StreamResponse : Type 0 where
  arbitration_update : ℕ → StreamResponse
  packet_in : Bytes → StreamResponse
  digest_list : DigestList → StreamResponse
  idle_timeout : StreamResponse
  stream_error : StreamResponse
  unset : StreamResponse
