-- ===== src/Ipc/Session/Negotiate.antt =====
-- crates/yah-plugin-ipc/src/session/negotiate.rs: the first frame decides.
use yet_another_harness.Prelude.{
  Bool, false, ◌||◌, not, List, [], ◌∷◌, ◌++◌, if◌then◌else◌, keep, Text, text, mem_text, mem_nat,
}
use yet_another_harness.Ipc.Types.{
  WireErrorKind, WireError, Hello, Accept, WorkerMessage, hello, HostMessage, protocol_version,
  max_sdk_identity_chars,
}
use yet_another_harness.Ipc.Session.State.{
  Codec, HostSession, SessionEvent, active, closed, push_event, push_outbox, clip_detail,
  wire_limits,
}
use yet_another_harness.Ipc.Session.Handles.{bounded_chars}

abbrev pub refusal : WireErrorKind → Text → WireError
refusal kind message = record {
  kind = kind;
  message = message;
  retryable = false;
  reconcile_required = false;
}

-- The refuse frame, the end of the session, and its event.
unfoldable pub refuse_hello : WireErrorKind → Text → Text → HostSession → HostSession
refuse_hello kind message detail s =
    push_event (SessionEvent.fatal kind detail)
      (record (push_outbox (HostMessage.refuse (refusal kind message) (protocol_version ∷ [])) s) {
        phase = closed;
      })

abbrev pub name_ok : Text → Bool
name_ok name = bounded_chars max_sdk_identity_chars name

-- The required features that the host does not offer.
unfoldable pub unknown_features : List Text → Hello → List Text
unknown_features offered h = keep (λ feature. not (mem_text feature offered)) h.required_features

-- The feature set in force.
unfoldable pub features_in_force : List Text → Hello → List Text
features_in_force offered h =
    keep (λ feature. mem_text feature h.features || mem_text feature h.required_features) offered

unfoldable pub accept_hello : Hello → HostSession → HostSession
accept_hello h s =
    push_event (SessionEvent.negotiated h.sdk_name h.sdk_version)
      (record (push_outbox (HostMessage.accept accepted) s) { phase = active })
  where
    accepted : Accept
    accepted = record {
      protocol_version = protocol_version;
      features = features_in_force s.config.features h;
      limits = wire_limits;
      ceilings = s.config.ceilings;
    }

unfoldable pub on_hello : Codec → Hello → HostSession → HostSession
on_hello c h s =
    if not (name_ok h.sdk_name) || not (name_ok h.sdk_version)
    then refuse_hello WireErrorKind.invalid_frame (text "sdk identity outside its length bound")
        (text "sdk identity outside its length bound") s
    else if not (mem_nat protocol_version h.protocol_versions)
    then refuse_hello WireErrorKind.unsupported_version
        (text "no offered protocol version is supported")
        (clip_detail (text "worker offered " ++ c.debug_versions h.protocol_versions)) s
    else elim (unknown_features s.config.features h) [
      | [] ↦ accept_hello h s
      | feature ∷ features ↦
          refuse_hello WireErrorKind.unknown_required_feature
            (text "a required feature is not offered by this host")
            (clip_detail
              (text "unknown required features: " ++ c.debug_features (feature ∷ features)))
            s
    ]

unfoldable pub on_pre_negotiation : Codec → WorkerMessage → HostSession → HostSession
on_pre_negotiation c (hello h) s = on_hello c h s
on_pre_negotiation c _ s =
    refuse_hello WireErrorKind.negotiation_required (text "the first frame must be a hello")
      (text "first frame was not a hello") s
