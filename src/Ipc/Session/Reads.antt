-- ===== src/Ipc/Session/Reads.antt =====
-- The pull-read of an artifact in crates/yah-plugin-ipc/src/session/handles.rs.
use yet_another_harness.Prelude.{
  ℕ, ◌+◌, ◌-◌, ◌/◌, ◌%◌, Bool, ◌&&◌, not, List, [], ◌∷◌, none, some, leb, ltb, ◌==◌, if◌then◌else◌,
  length, take, drop, Text, text,
}
use yet_another_harness.Prelude.Map.{lookup, insert}
use yet_another_harness.Ipc.Types.{
  Value, string, object, end, member, WireErrorKind, Outcome, Call, HostMessage,
  max_artifact_read_bytes,
}
use yet_another_harness.Ipc.Session.State.{Codec, HostSession, ArtifactBytes, push_outbox}
use yet_another_harness.Ipc.Session.Refuse.{refuse_worker_call}

-- `{byte:02x}`
abbrev hex_digit : ℕ → ℕ
hex_digit n = if ltb n 10 then b'0' + n else b'a' + (n - 10)

unfoldable pub hex : List ℕ → Text
hex [] = []
hex (byte ∷ bytes) = hex_digit (byte / 16) ∷ hex_digit (byte % 16) ∷ hex bytes

-- The `json!` object of a served read.
abbrev pub read_result : List ℕ → Text → Value
read_result chunk media_type = object (
    member (text "bytes_hex") (string (hex chunk))
      (member (text "media_type") (string media_type) end))

-- `offset + len` cannot overflow where both are below the length of a buffer, and where it would,
-- the checked sum is refused like one past the end.
abbrev read_in_range : ℕ → ℕ → ArtifactBytes → Bool
read_in_range offset len held =
    not (len == 0)
    && leb len max_artifact_read_bytes
    && ltb offset (length held.bytes)
    && leb (offset + len) (length held.bytes)

unfoldable pub serve_artifact_read : Codec → Call → HostSession → HostSession
serve_artifact_read c request s = elim (c.artifact_read request.payload) [
  | none ↦ refuse_worker_call request.call_id WireErrorKind.invalid_frame s
  | some (handle, offset, len) ↦ elim (lookup handle s.handles) [
    | none ↦ refuse_worker_call request.call_id WireErrorKind.unknown_handle s
    | some entry ↦ elim entry.artifact [
      | none ↦ refuse_worker_call request.call_id WireErrorKind.unknown_handle s
      | some held ↦
          if read_in_range offset len held
          then push_outbox
              (HostMessage.reply request.call_id
                (Outcome.ok (read_result (take len (drop offset held.bytes)) held.media_type)))
              (record s { retired_worker_calls = insert request.call_id tt s.retired_worker_calls })
          else refuse_worker_call request.call_id WireErrorKind.invalid_read s
    ]
  ]
]
