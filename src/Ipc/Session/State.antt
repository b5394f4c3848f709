-- ===== src/Ipc/Session/State.antt =====
-- crates/yah-plugin-ipc/src/session/mod.rs: the state of a session, its events, and its small
-- helpers. A method that mutates the session returns the new record. `u64` counters wrap, as they
-- do in a release build.
use yet_another_harness.Prelude.{
  ℕ, ◌+◌, ◌%◌, ◌^◌, Bool, true, false, List, [], ◌∷◌, ◌++◌, Option, none, some, Result, leb, length,
  take, Text, text,
}
use yet_another_harness.Prelude.Map.{Map, Set}
use yet_another_harness.Ipc.Frame.{FrameDecoder}
use yet_another_harness.Ipc.Frame
use yet_another_harness.Ipc.Types.{
  CallId, HandleId, Value, Items, Members, Number, null, bool, number, string, array, object, nil,
  cons, end, member, unsigned, negative, float, WireErrorKind, HandleKind, CancelTarget,
  StreamClass, WireLimits, Ceilings, Outcome, WorkerMessage, HostMessage,
}
use yet_another_harness.Ipc.Types

-- What the session takes from the libraries that it calls, and from the strict decoder.
pub record Codec : Type 0 where
  -- `strict::parse` and then `serde_json::from_value::<WorkerMessage>`, or the error's text
  pub decode : List ℕ → Result WorkerMessage Text
  -- the length of `serde_json::to_vec`
  pub to_vec_len : Value → Option ℕ
  -- `serde_json::from_value::<ArtifactRead>`: the handle, the offset and the length
  pub artifact_read : Value → Option (HandleId × ℕ × ℕ)
  -- the 32 bytes of `blake3::hash`
  pub blake3 : List ℕ → List ℕ
  -- `format!("{:?}", …)` of the offered versions, and of the unknown features
  pub debug_versions : List ℕ → Text
  pub debug_features : List Text → Text

pub record SessionConfig : Type 0 where
  pub features : List Text
  pub ceilings : Ceilings
  pub retired_operation_budget : Option ℕ

unfoldable pub default_config : SessionConfig
default_config = record {
  features = [];
  ceilings = record {
    host_calls_in_flight = Types.default_host_calls_in_flight;
    worker_calls_in_flight = Types.default_worker_calls_in_flight;
    live_handles = Types.default_live_handles;
    initial_stream_credit = Types.initial_stream_credit;
    max_stream_credit = Types.max_stream_credit;
  };
  retired_operation_budget = none;
}

unfoldable pub wire_limits : WireLimits
wire_limits = record {
  max_frame_bytes = Frame.max_frame_bytes;
  max_control_frame_bytes = Types.max_control_frame_bytes;
  max_call_payload_bytes = Types.max_call_payload_bytes;
  max_inline_result_bytes = Types.max_inline_result_bytes;
  max_stream_data_bytes = Types.max_stream_data_bytes;
  max_artifact_read_bytes = Types.max_artifact_read_bytes;
}

pub data SessionEvent : Type 0 where
  negotiated : Text → Text → SessionEvent
  call_delivered : CallId → Text → Value → Bool → Option ℕ → SessionEvent
  host_call_settled : CallId → Outcome → SessionEvent
  host_call_lost : CallId → WireErrorKind → Bool → SessionEvent
  stream_opened : CallId → ℕ → SessionEvent
  stream_item : CallId → ℕ → Bool → StreamClass → ℕ → Value → SessionEvent
  credit_granted : CallId → ℕ → SessionEvent
  cancel_requested : CallId → CancelTarget → SessionEvent
  handle_released : HandleId → HandleKind → SessionEvent
  worker_handle_released : HandleId → HandleKind → SessionEvent
  handles_reclaimed : List HandleId → SessionEvent
  worker_goodbye : Text → SessionEvent
  call_refused : CallId → WireErrorKind → SessionEvent
  fatal : WireErrorKind → Text → SessionEvent

pub data Phase : Type 0 where
  awaiting_hello active closed : Phase

pub record WorkerCall : Type 0 where
  pub stream : Bool
  pub stream_credit : Option ℕ
  pub next_seq : ℕ
  pub lossy_dropped : ℕ
  pub last_item_sent : Bool
  pub minted : List HandleId

pub record HostCall : Type 0 where
  pub stream : Bool
  pub stream_open : Bool
  pub credit_left : ℕ
  pub highest_seq : Option ℕ
  pub lossy_dropped : ℕ
  pub last_item_seen : Bool
  pub deadline_at : Option ℕ
  pub stream_muted : Bool

pub record ArtifactBytes : Type 0 where
  pub bytes : List ℕ
  pub media_type : Text
  pub digest_blake3 : Text

pub record Handle : Type 0 where
  pub kind : HandleKind
  pub artifact : Option ArtifactBytes

pub data AppError : Type 0 where
  not_active unknown_call handle_ceiling call_ceiling : AppError
  spill_required payload_too_large : ℕ → AppError
  invalid_field : Text → AppError
  release_pending already_released unknown_worker_handle : AppError
  stream_violation : Text → AppError
  already_settled session_retired : AppError

pub record HostSession : Type 0 where
  pub config : SessionConfig
  pub phase : Phase
  pub decoder : FrameDecoder
  pub now_ms : ℕ
  pub worker_calls : Map WorkerCall
  pub host_calls : Map HostCall
  pub retired_worker_calls : Set
  pub retired_host_calls : Set
  pub next_host_call : ℕ
  pub handles : Map Handle
  pub retired_handles : Set
  pub reclaimed_handles : Map HandleKind
  pub next_handle : ℕ
  pub live_handle_count : ℕ
  pub pending_worker_releases : Map HandleKind
  pub retired_worker_handles : Set
  pub offered_worker_handles : Map HandleKind
  pub outbox : List HostMessage
  pub events : List SessionEvent

unfoldable pub new : SessionConfig → HostSession
new config = record {
  config = config;
  phase = awaiting_hello;
  decoder = Frame.new;
  now_ms = 0;
  worker_calls = [];
  host_calls = [];
  retired_worker_calls = [];
  retired_host_calls = [];
  next_host_call = 1;
  handles = [];
  retired_handles = [];
  reclaimed_handles = [];
  next_handle = 1;
  live_handle_count = 0;
  pending_worker_releases = [];
  retired_worker_handles = [];
  offered_worker_handles = [];
  outbox = [];
  events = [];
}

-- `self.events.push(…)` and `self.outbox.push(…)`
abbrev pub push_event : SessionEvent → HostSession → HostSession
push_event event s = record s { events = s.events ++ event ∷ [] }

abbrev pub push_outbox : HostMessage → HostSession → HostSession
push_outbox message s = record s { outbox = s.outbox ++ message ∷ [] }

unfoldable pub drain_outbox : HostSession → HostSession × List HostMessage
drain_outbox s = (record s { outbox = [] }, s.outbox)

unfoldable pub drain_events : HostSession → HostSession × List SessionEvent
drain_events s = (record s { events = [] }, s.events)

-- `as u32`, of a length
abbrev pub as_u32 : ℕ → ℕ
as_u32 n = n % 2 ^ 32

-- The `u64` sum of a release build.
abbrev pub add_u64 : ℕ → ℕ → ℕ
add_u64 a b = (a + b) % 2 ^ 64

abbrev pub is_active : Phase → Bool
is_active active = true
is_active _ = false

abbrev pub is_closed : Phase → Bool
is_closed closed = true
is_closed _ = false

unfoldable pub in_flight_calls : HostSession → ℕ × ℕ
in_flight_calls s = (as_u32 (length s.host_calls), as_u32 (length s.worker_calls))

unfoldable pub pending_releases : HostSession → ℕ
pending_releases s = as_u32 (length s.pending_worker_releases)

unfoldable pub retired_operations : HostSession → ℕ
retired_operations s =
    length s.retired_worker_calls
    + length s.retired_host_calls
    + length s.retired_handles
    + length s.reclaimed_handles
    + length s.retired_worker_handles
    + length s.offered_worker_handles

unfoldable pub budget_full : HostSession → Bool
budget_full s = elim s.config.retired_operation_budget [
  | none ↦ false
  | some budget ↦ leb budget (retired_operations s)
]

unfoldable pub clip_detail : Text → Text
clip_detail detail = take Types.max_error_detail_chars detail

unfoldable pub kind_name : WireErrorKind → Text
kind_name WireErrorKind.unsupported_version = text "unsupported-version"
kind_name WireErrorKind.unknown_required_feature = text "unknown-required-feature"
kind_name WireErrorKind.negotiation_required = text "negotiation-required"
kind_name WireErrorKind.invalid_frame = text "invalid-frame"
kind_name WireErrorKind.frame_too_large = text "frame-too-large"
kind_name WireErrorKind.payload_too_large = text "payload-too-large"
kind_name WireErrorKind.unknown_call = text "unknown-call"
kind_name WireErrorKind.duplicate_call = text "duplicate-call"
kind_name WireErrorKind.unknown_method = text "unknown-method"
kind_name WireErrorKind.resource_exhausted = text "resource-exhausted"
kind_name WireErrorKind.deadline_exceeded = text "deadline-exceeded"
kind_name WireErrorKind.unknown_handle = text "unknown-handle"
kind_name WireErrorKind.invalid_read = text "invalid-read"
kind_name WireErrorKind.outcome_unknown = text "outcome-unknown"
kind_name WireErrorKind.internal = text "internal"
kind_name WireErrorKind.cancelled = text "cancelled"

unfoldable pub bounded_reason : WireErrorKind → Text
bounded_reason kind = text "protocol fault: " ++ kind_name kind
