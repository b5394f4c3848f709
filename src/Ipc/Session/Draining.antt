-- ===== src/Ipc/Session/Draining.antt =====
-- The loop of `feed` in crates/yah-plugin-ipc/src/session/mod.rs ends, and what it leaves.
use yet_another_harness.Prelude.{
  ℕ, zero, suc, ◌<◌, ◌≡◌, ◌⊎◌, inl, inr, ap, subst, Bool-cases, true, false, List, none, some, ok,
  err, arith, length, Text, text,
}
use yet_another_harness.Ipc.Types.{WireErrorKind}
use yet_another_harness.Ipc.Frame.{FrameDecoder, FrameStreamError}
use yet_another_harness.Ipc.Frame
use yet_another_harness.Ipc.Frame.Chunks.{Polled, polled, waits, yields, fails, next_frame-shortens}
use yet_another_harness.Ipc.Session.State.{Codec, HostSession, SessionConfig, new, is_closed}
use yet_another_harness.Ipc.Session.Settle.{fatal}
use yet_another_harness.Ipc.Session.Machine.{on_frame, feed_loop, stream_fault}
use yet_another_harness.Ipc.Session.Machine
use yet_another_harness.Ipc.Session.Actions.{Action, run}
use yet_another_harness.Ipc.Session.Closing.Histories.{run-new-IsIdle}
use yet_another_harness.Ipc.Session.Closing.{IsIdle}
use yet_another_harness.Ipc.Session.Closing.Inputs.{on_frame-Rests}

-- Either the session is closed, or the decoder holds no complete frame.
abbrev pub IsDrained : HostSession → Type 0
IsDrained s = (is_closed s.phase ≡ true) ⊎ ((Frame.next_frame s.decoder).1 ≡ ok none)

pub fatal-closes :
    (kind : WireErrorKind) (detail : Text) (s : HostSession)
    → is_closed (fatal kind detail s).phase ≡ true
unfolding fatal
fatal-closes kind detail s = ground arith

-- What the complete frames of the decoder make of a session: each one in turn is given to
-- `on_frame`, until the decoder waits for more, the stream is at fault, or a frame closes the session.
pub data HandlesAll (c : Codec) : HostSession → HostSession → Type 0 where
  none_left :
      (s : HostSession) → Frame.next_frame s.decoder ≡ (s.decoder, ok none) → HandlesAll c s s
  at_fault :
      (s : HostSession) (d : FrameDecoder) (error : FrameStreamError)
      → Frame.next_frame s.decoder ≡ (d, err error)
      → HandlesAll c s
          (fatal (stream_fault error) (text "frame stream violation") (record s { decoder = d }))
  last_frame :
      (s : HostSession) (d : FrameDecoder) (frame : List ℕ)
      → Frame.next_frame s.decoder ≡ (d, ok (some frame))
      → is_closed (on_frame c frame (record s { decoder = d })).phase ≡ true
      → HandlesAll c s (on_frame c frame (record s { decoder = d }))
  one_frame :
      (s t : HostSession) (d : FrameDecoder) (frame : List ℕ)
      → Frame.next_frame s.decoder ≡ (d, ok (some frame))
      → is_closed (on_frame c frame (record s { decoder = d })).phase ≡ false
      → HandlesAll c (on_frame c frame (record s { decoder = d })) t
      → HandlesAll c s t

-- Input is ignored by a closed session; another one takes the bytes and handles its frames.
pub data Takes (c : Codec) (bytes : List ℕ) (s : HostSession) : HostSession → Type 0 where
  ignores : is_closed s.phase ≡ true → Takes c bytes s s
  takes :
      (t : HostSession)
      → is_closed s.phase ≡ false
      → HandlesAll c (record s { decoder = Frame.feed bytes s.decoder }) t
      → Takes c bytes s t

HandlesAll-IsDrained : (c : Codec) (s t : HostSession) → HandlesAll c s t → IsDrained t
HandlesAll-IsDrained c s t (none_left _ h) = inr (ap (λ r. r.1) h)
HandlesAll-IsDrained c s t (at_fault _ d error h) =
    inl
      (fatal-closes (stream_fault error) (text "frame stream violation") (record s { decoder = d }))
HandlesAll-IsDrained c s t (last_frame _ d frame h closes) = inl closes
HandlesAll-IsDrained c s t (one_frame _ _ d frame h stays more) =
    HandlesAll-IsDrained c (on_frame c frame (record s { decoder = d })) t more

Takes-IsDrained : (c : Codec) (bytes : List ℕ) (s t : HostSession) → Takes c bytes s t → IsDrained t
Takes-IsDrained c bytes s t (ignores off) = inl off
Takes-IsDrained c bytes s t (takes _ on handled) =
    HandlesAll-IsDrained c (record s { decoder = Frame.feed bytes s.decoder }) t handled

-- One turn of the loop, by what the decoder yields.
module _ (c : Codec) (fuel : ℕ) (s : HostSession) (d : FrameDecoder) where
  loop_waits : Frame.next_frame s.decoder ≡ (s.decoder, ok none) → s ≡ feed_loop c (suc fuel) s
  unfolding feed_loop
  loop_waits h = ground (arith, h)

  loop_fails :
      (error : FrameStreamError)
      → Frame.next_frame s.decoder ≡ (d, err error)
      → fatal (stream_fault error) (text "frame stream violation") (record s { decoder = d })
        ≡ feed_loop c (suc fuel) s
  unfolding feed_loop
  loop_fails error h = ground (arith, h)

  loop_closes :
      (frame : List ℕ)
      → Frame.next_frame s.decoder ≡ (d, ok (some frame))
      → is_closed (on_frame c frame (record s { decoder = d })).phase ≡ true
      → on_frame c frame (record s { decoder = d }) ≡ feed_loop c (suc fuel) s
  unfolding feed_loop
  loop_closes frame h closes = ground (arith, h, closes)

  loop_goes :
      (frame : List ℕ)
      → Frame.next_frame s.decoder ≡ (d, ok (some frame))
      → is_closed (on_frame c frame (record s { decoder = d })).phase ≡ false
      → feed_loop c fuel (on_frame c frame (record s { decoder = d })) ≡ feed_loop c (suc fuel) s
  unfolding feed_loop
  loop_goes frame h stays = ground (arith, h, stays)

feed_loop-HandlesAll :
    (c : Codec) (fuel : ℕ) (s : HostSession)
    → length s.decoder.buffer < fuel
    → IsIdle s
    → HandlesAll c s (feed_loop c fuel s)
feed_loop-HandlesAll c zero s enough idle = absurd (omega arith)
feed_loop-HandlesAll c (suc fuel) s enough idle =
    go (polled s.decoder) (λ t shorter rests. feed_loop-HandlesAll c fuel t shorter rests)
  where
    Continues : Type 0
    Continues =
        (t : HostSession)
        → length t.decoder.buffer < fuel
        → IsIdle t
        → HandlesAll c t (feed_loop c fuel t)

    go : Polled s.decoder → Continues → HandlesAll c s (feed_loop c (suc fuel) s)
    go (waits h) loop = subst (HandlesAll c s) (loop_waits c fuel s s.decoder h) (none_left s h)
    go (fails d error h) loop =
        subst (HandlesAll c s) (loop_fails c fuel s d error h) (at_fault s d error h)
    go (yields d frame h) loop =
        let t = record s { decoder = d } in
        let rests = on_frame-Rests c frame t (λ off. ground (arith, idle off)) in
        let shorter = next_frame-shortens s.decoder d frame h in
        let more = loop (on_frame c frame t) (ground (arith, rests.decoder_same)) rests.idle in
        elim (Bool-cases (is_closed (on_frame c frame t).phase)) [
          | inl closes ↦
              subst (HandlesAll c s) (loop_closes c fuel s d frame h closes)
                (last_frame s d frame h closes)
          | inr stays ↦
              subst (HandlesAll c s) (loop_goes c fuel s d frame h stays)
                (one_frame s (feed_loop c fuel (on_frame c frame t)) d frame h stays more)
        ]

feed_off :
    (c : Codec) (bytes : List ℕ) (s : HostSession)
    → is_closed s.phase ≡ true
    → s ≡ Machine.feed c bytes s
unfolding Machine.feed
feed_off c bytes s off = ground (arith, off)

feed_on :
    (c : Codec) (bytes : List ℕ) (s : HostSession)
    → is_closed s.phase ≡ false
    → feed_loop c
        (suc (length (Frame.feed bytes s.decoder).buffer))
        (record s { decoder = Frame.feed bytes s.decoder })
      ≡ Machine.feed c bytes s
unfolding Machine.feed
feed_on c bytes s on = ground (arith, on)

feed-Takes :
    (c : Codec) (bytes : List ℕ) (s : HostSession)
    → IsIdle s
    → Takes c bytes s (Machine.feed c bytes s)
feed-Takes c bytes s idle = elim (Bool-cases (is_closed s.phase)) [
  | inl off ↦ subst (Takes c bytes s) (feed_off c bytes s off) (ignores off)
  | inr on ↦
      let t = record s { decoder = Frame.feed bytes s.decoder } in
      takes (Machine.feed c bytes s) on (
        subst (HandlesAll c t) (feed_on c bytes s on) (
          feed_loop-HandlesAll c (suc (length t.decoder.buffer)) t (omega arith)
            (λ off. ground (arith, idle off))))
]

-- The fuel of `feed` is enough: in a session with any history, bytes are ignored when the session
-- is closed; otherwise the decoder takes them, and every complete frame that it yields is given to
-- `on_frame` in turn, until the session is closed or the decoder waits for more.
pub run-feed-Takes :
    (c : Codec) (config : SessionConfig) (actions : List Action) (bytes : List ℕ)
    → Takes c bytes (run c actions (new config)) (Machine.feed c bytes (run c actions (new config)))
      × IsDrained (Machine.feed c bytes (run c actions (new config)))
run-feed-Takes c config actions bytes =
    let s = run c actions (new config) in
    let taken = feed-Takes c bytes s (run-new-IsIdle c config actions) in
    (taken, Takes-IsDrained c bytes s (Machine.feed c bytes s) taken)
