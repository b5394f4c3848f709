-- ===== src/Ipc/Types.antt =====
-- crates/yah-plugin-ipc/src/types.rs and the bounds of lib.rs: the wire types. A call id and a
-- handle id is the number in it; texts are lists of code points.
use yet_another_harness.Prelude.{ℕ, ◌-◌, ◌*◌, ◌^◌, Bool, true, false, List, Option, Text}

abbrev pub protocol_version : ℕ
protocol_version = 1

abbrev pub max_control_frame_bytes : ℕ
max_control_frame_bytes = 16 * 1024

abbrev pub max_call_payload_bytes : ℕ
max_call_payload_bytes = 256 * 1024

abbrev pub max_inline_result_bytes : ℕ
max_inline_result_bytes = 64 * 1024

abbrev pub max_stream_data_bytes : ℕ
max_stream_data_bytes = 64 * 1024

abbrev pub max_artifact_read_bytes : ℕ
max_artifact_read_bytes = 24 * 1024

abbrev pub max_error_detail_chars : ℕ
max_error_detail_chars = 512

abbrev pub max_method_chars : ℕ
max_method_chars = 128

abbrev pub max_media_type_chars : ℕ
max_media_type_chars = 128

abbrev pub max_sdk_identity_chars : ℕ
max_sdk_identity_chars = 64

abbrev pub max_goodbye_reason_chars : ℕ
max_goodbye_reason_chars = 256

abbrev pub initial_stream_credit : ℕ
initial_stream_credit = 16

abbrev pub max_stream_credit : ℕ
max_stream_credit = 1024

abbrev pub default_host_calls_in_flight : ℕ
default_host_calls_in_flight = 16

abbrev pub default_worker_calls_in_flight : ℕ
default_worker_calls_in_flight = 32

abbrev pub default_live_handles : ℕ
default_live_handles = 16

abbrev pub max_wire_id : ℕ
max_wire_id = 2 ^ 53 - 1

abbrev pub CallId : Type 0
CallId = ℕ

abbrev pub HandleId : Type 0
HandleId = ℕ

-- `serde_json::Number`: an integer that is not negative, the magnitude of one that is, or a float
-- by its bits.
pub data Number : Type 0 where
  unsigned : ℕ → Number
  negative : ℕ → Number
  float : ℕ → Number

-- `serde_json::Value`
mutual
  pub data Value : Type 0 where
    null : Value
    bool : Bool → Value
    number : Number → Value
    string : Text → Value
    array : Items → Value
    object : Members → Value

  pub data Items : Type 0 where
    nil : Items
    cons : Value → Items → Items

  pub data Members : Type 0 where
    end : Members
    member : Text → Value → Members → Members

pub data WireErrorKind : Type 0 where
  unsupported_version unknown_required_feature negotiation_required invalid_frame : WireErrorKind
  frame_too_large payload_too_large unknown_call duplicate_call unknown_method : WireErrorKind
  resource_exhausted deadline_exceeded cancelled unknown_handle invalid_read : WireErrorKind
  outcome_unknown internal : WireErrorKind

pub data HandleKind : Type 0 where
  capability artifact : HandleKind

abbrev pub kind_eq : HandleKind → HandleKind → Bool
kind_eq capability capability = true
kind_eq artifact artifact = true
kind_eq _ _ = false

pub data CancelTarget : Type 0 where
  call stream : CancelTarget

pub data CancelReason : Type 0 where
  requested enforced : CancelReason

pub data StreamClass : Type 0 where
  lossless lossy : StreamClass

pub record WireError : Type 0 where
  pub kind : WireErrorKind
  pub message : Text
  pub retryable : Bool
  pub reconcile_required : Bool

pub record ArtifactOffer : Type 0 where
  pub handle : HandleId
  pub bytes : ℕ
  pub media_type : Text
  pub digest_blake3 : Text

pub data Outcome : Type 0 where
  ok : Value → Outcome
  spilled : ArtifactOffer → Outcome
  err : WireError → Outcome
  cancelled : CancelReason → Outcome

pub record Hello : Type 0 where
  pub protocol_versions : List ℕ
  pub sdk_name : Text
  pub sdk_version : Text
  pub features : List Text
  pub required_features : List Text

pub record WireLimits : Type 0 where
  pub max_frame_bytes : ℕ
  pub max_control_frame_bytes : ℕ
  pub max_call_payload_bytes : ℕ
  pub max_inline_result_bytes : ℕ
  pub max_stream_data_bytes : ℕ
  pub max_artifact_read_bytes : ℕ

pub record Ceilings : Type 0 where
  pub host_calls_in_flight : ℕ
  pub worker_calls_in_flight : ℕ
  pub live_handles : ℕ
  pub initial_stream_credit : ℕ
  pub max_stream_credit : ℕ

pub record Accept : Type 0 where
  pub protocol_version : ℕ
  pub features : List Text
  pub limits : WireLimits
  pub ceilings : Ceilings

pub record Call : Type 0 where
  pub call_id : CallId
  pub method : Text
  pub deadline_ms : Option ℕ
  pub stream : Bool
  pub payload : Value

pub record StreamData : Type 0 where
  pub call_id : CallId
  pub seq : ℕ
  pub more : Bool
  pub class : StreamClass
  pub dropped : ℕ
  pub payload : Value

pub data WorkerMessage : Type 0 where
  hello : Hello → WorkerMessage
  call : Call → WorkerMessage
  reply : CallId → Outcome → WorkerMessage
  stream_open : CallId → ℕ → WorkerMessage
  stream_data : StreamData → WorkerMessage
  credit : CallId → ℕ → WorkerMessage
  cancel : CallId → CancelTarget → WorkerMessage
  release : HandleId → HandleKind → WorkerMessage
  release_ack : HandleId → HandleKind → WorkerMessage
  goodbye : Text → WorkerMessage

pub data HostMessage : Type 0 where
  accept : Accept → HostMessage
  refuse : WireError → List ℕ → HostMessage
  call : Call → HostMessage
  reply : CallId → Outcome → HostMessage
  stream_open : CallId → ℕ → HostMessage
  stream_data : StreamData → HostMessage
  credit : CallId → ℕ → HostMessage
  cancel : CallId → CancelTarget → HostMessage
  release : HandleId → HandleKind → HostMessage
  release_ack : HandleId → HandleKind → HostMessage
  goodbye : Text → HostMessage
