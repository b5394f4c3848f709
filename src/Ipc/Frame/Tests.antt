-- ===== src/Ipc/Frame/Tests.antt =====
-- Runs and instances of the theorems on frame.rs.
use yet_another_harness.Prelude.{
  ℕ, ◌+◌, ◌-◌, ◌<◌, ◌≡◌, refl, List, [], ◌∷◌, ◌++◌, some, none, ok, arith, length, take,
  if◌then◌else◌, ltb,
}
use yet_another_harness.Ipc.Frame.{
  clean, truncated_prefix, truncated_frame, empty_frame, frame_too_large, max_frame_bytes,
  from_be_bytes, to_be_bytes, encode, new, feed, poison, next_frame, buffered_len, finish,
}
use yet_another_harness.Ipc.Frame.Codec.{next_frame-encode}
use yet_another_harness.Ipc.Frame.Chunks.{
  IsReleased, drain, feed_drain, prepend, feed_drain-append, feed_drain-bound,
}
use yet_another_harness.Ipc.Frame.Sequence.{encode_all, feed_drain-encode_all, finish-take-encode}

abbrev three : List ℕ
three = 7 ∷ 8 ∷ 9 ∷ []

abbrev three_wire : List ℕ
three_wire = 0 ∷ 0 ∷ 0 ∷ 3 ∷ 7 ∷ 8 ∷ 9 ∷ []

oversize_poisons :
    (feed_drain (0xff ∷ 0 ∷ 0 ∷ 0 ∷ []) new).decoder.poisoned ≡ some (frame_too_large 0xff00_0000)
unfolding feed_drain drain feed next_frame new from_be_bytes
oversize_poisons = refl

empty_poisons : (feed_drain (0 ∷ 0 ∷ 0 ∷ 0 ∷ 5 ∷ []) new).decoder ≡ poison empty_frame new
unfolding feed_drain drain feed next_frame new from_be_bytes
empty_poisons = refl

next_frame-encode_example :
    next_frame (feed (three_wire ++ 1 ∷ []) new)
    ≡ (record { buffer = 1 ∷ []; poisoned = none }, ok (some three))
unfolding new encode to_be_bytes
next_frame-encode_example =
    next_frame-encode three three_wire (1 ∷ []) new (omega arith) refl refl refl

feed_drain-bound_example :
    (buffered_len (feed_drain three_wire new).decoder < 4 + max_frame_bytes)
    × IsReleased (feed_drain three_wire new).decoder
unfolding new
feed_drain-bound_example = feed_drain-bound three_wire new (λ error h. refl)

feed_drain-encode_all_example :
    (wire : List ℕ) × (encode_all (three ∷ three ∷ []) ≡ some wire)
    × (feed_drain wire new ≡ record { frames = three ∷ three ∷ []; decoder = new })
    × (finish (feed_drain wire new).decoder ≡ clean)
feed_drain-encode_all_example = feed_drain-encode_all (three ∷ three ∷ []) (omega arith)

finish-take-encode_example :
    ((feed_drain (take 6 three_wire) new).frames ≡ [])
    × (finish (feed_drain (take 6 three_wire) new).decoder
        ≡ (if ltb 6 4 then truncated_prefix 6 else truncated_frame (length three) (6 - 4)))
unfolding encode to_be_bytes
finish-take-encode_example =
    finish-take-encode three three_wire 6 refl (omega arith) (omega arith) (omega arith)

feed_drain-append_example :
    feed_drain ((0 ∷ 0 ∷ []) ++ (0 ∷ 3 ∷ 7 ∷ 8 ∷ 9 ∷ [])) new
    ≡ prepend
        (feed_drain (0 ∷ 0 ∷ []) new).frames
        (feed_drain (0 ∷ 3 ∷ 7 ∷ 8 ∷ 9 ∷ []) (feed_drain (0 ∷ 0 ∷ []) new).decoder)
feed_drain-append_example = feed_drain-append (0 ∷ 0 ∷ []) (0 ∷ 3 ∷ 7 ∷ 8 ∷ 9 ∷ []) new
