-- ===== src/Ipc/Frame/Codec.antt =====
-- `encode` against the decoder of frame.rs.
use mathlib.Core.List.{append_assoc}
use yet_another_harness.Prelude.{
  ℕ, suc, ◌+◌, ◌≤◌, ◌<◌, ◌≡◌, List, [], ◌++◌, none, some, ok, arith, length, take, drop,
  length-append, take-append, drop-append,
}
use yet_another_harness.Ipc.Frame.{
  FrameDecoder, max_frame_bytes, to_be_bytes, from_be_bytes, encode, feed, next_frame,
}

pub from_be_bytes-to_be_bytes : (n : ℕ) (rest : List ℕ) → from_be_bytes (to_be_bytes n ++ rest) ≡ n
unfolding from_be_bytes to_be_bytes
from_be_bytes-to_be_bytes n rest = omega arith

-- The bytes of a frame that `encode` accepts.
pub encoded :
    (frame wire : List ℕ)
    → encode frame ≡ some wire
    → (wire ≡ to_be_bytes (length frame) ++ frame) × (length frame ≤ max_frame_bytes)
unfolding encode
encoded frame wire h = ground arith

-- What the decoder reads off a buffer that begins with an encoded frame.
record Reads (frame rest buffer : List ℕ) : Type 0 where
  declared : from_be_bytes buffer ≡ length frame
  size : length buffer ≡ 4 + length frame + length rest
  after : drop (4 + length frame) buffer ≡ rest
  payload : take (length frame) (drop 4 buffer) ≡ frame

four_add : (n : ℕ) → 4 + n ≡ suc (suc (suc (suc n)))
four_add n = omega arith

encoded-Reads :
    (frame rest : List ℕ) → Reads frame rest (to_be_bytes (length frame) ++ (frame ++ rest))
unfolding to_be_bytes
encoded-Reads frame rest = record {
  declared = unfold to_be_bytes in from_be_bytes-to_be_bytes (length frame) (frame ++ rest);
  size = omega (arith, length-append frame rest);
  after = rw (four_add (length frame)) (drop-append frame rest);
  payload = take-append frame rest;
}

next_frame-Reads :
    (frame rest : List ℕ) (d : FrameDecoder)
    → 0 < length frame
    → length frame ≤ max_frame_bytes
    → d.poisoned ≡ none
    → Reads frame rest d.buffer
    → next_frame d ≡ (record d { buffer = rest }, ok (some frame))
unfolding next_frame
next_frame-Reads frame rest d pos bound live r = ground arith

pub feed_empty :
    (bytes : List ℕ) (d : FrameDecoder)
    → d.poisoned ≡ none
    → d.buffer ≡ []
    → feed bytes d ≡ record d { buffer = bytes }
unfolding feed
feed_empty bytes d live empty = ground arith

-- A frame of 1 to `max_frame_bytes` bytes that `encode` prefixed, at the front of what a live
-- decoder with an empty buffer is fed, is the next frame that it returns, byte for byte; the bytes
-- behind it stay buffered.
pub next_frame-encode :
    (frame wire rest : List ℕ) (d : FrameDecoder)
    → 0 < length frame
    → encode frame ≡ some wire
    → d.poisoned ≡ none
    → d.buffer ≡ []
    → next_frame (feed (wire ++ rest) d) ≡ (record d { buffer = rest }, ok (some frame))
next_frame-encode frame wire rest d pos e live empty =
    let (bytes, bound) = encoded frame wire e in
    let fed = feed_empty (wire ++ rest) d live empty in
    rw fed (
      next_frame-Reads frame rest (record d { buffer = wire ++ rest }) pos bound live
        (rw (bytes, append_assoc) (encoded-Reads frame rest)))
