-- ===== src/Ipc/Frame/Sequence.antt =====
-- Whole byte streams through the decoder of frame.rs: sequences of frames, and streams cut short.
use mathlib.Core.List.{append-nil}
use yet_another_harness.Prelude.{
  ℕ, zero, suc, ◌+◌, ◌-◌, ◌≤◌, ◌<◌, ◌≡◌, refl, ap, subst, sym, ◌∙◌, List, [], ◌∷◌, ◌++◌, Option,
  none, some, ok, arith, length, take, length-take, if◌then◌else◌, ltb,
}
use yet_another_harness.Ipc.Frame.{
  clean, truncated_prefix, truncated_frame, max_frame_bytes, to_be_bytes, from_be_bytes, encode,
  new, feed, next_frame, finish,
}
use yet_another_harness.Ipc.Frame.Codec.{encoded, next_frame-encode, from_be_bytes-to_be_bytes}
use yet_another_harness.Ipc.Frame.Chunks.{
  prepend, drain, feed_drain, feed_drain-append, drain_waits, drain_yields,
}

-- The frames that may be sent: not empty, and within the bound.
abbrev pub AreSendable : List (List ℕ) → Type 0
AreSendable [] = Unit {0}
AreSendable (frame ∷ frames) =
    (0 < length frame) × (length frame ≤ max_frame_bytes) × AreSendable frames

-- The frames on the wire, one after the other; `none` if one of them is refused.
unfoldable pub encode_all : List (List ℕ) → Option (List ℕ)
encode_all [] = some []
encode_all (frame ∷ frames) = elim (encode frame) [
  | none ↦ none
  | some wire ↦ elim (encode_all frames) [ none ↦ none | some wires ↦ some (wire ++ wires) ]
]

drain-new : (n : ℕ) → drain n new ≡ record { frames = []; decoder = new }
unfolding drain next_frame new
drain-new zero = refl
drain-new (suc n) = refl

-- The one frame on the wire.
first :
    (frame wire : List ℕ)
    → 0 < length frame
    → encode frame ≡ some wire
    → next_frame (feed wire new) ≡ (new, ok (some frame))
unfolding new
first frame wire pos e =
    subst (λ w. next_frame (feed w new) ≡ (new, ok (some frame))) (append-nil wire)
      (next_frame-encode frame wire [] new pos e refl refl)

feed_drain-encode :
    (frame wire : List ℕ)
    → 0 < length frame
    → encode frame ≡ some wire
    → feed_drain wire new ≡ record { frames = frame ∷ []; decoder = new }
unfolding feed_drain
feed_drain-encode frame wire pos e =
    drain_yields (length (feed wire new).buffer) (feed wire new) new frame (first frame wire pos e)
    ∙ ap (prepend (frame ∷ [])) (drain-new (length (feed wire new).buffer))

encode_sendable :
    (frame : List ℕ) → length frame ≤ max_frame_bytes → (wire : List ℕ) × (encode frame ≡ some wire)
unfolding encode
encode_sendable frame h = (to_be_bytes (length frame) ++ frame, ground arith)

drained_append :
    (frame wire : List ℕ) (frames : List (List ℕ)) (wires : List ℕ)
    → 0 < length frame
    → encode frame ≡ some wire
    → feed_drain wires new ≡ record { frames = frames; decoder = new }
    → feed_drain (wire ++ wires) new ≡ record { frames = frame ∷ frames; decoder = new }
drained_append frame wire frames wires pos e rest =
    rw (feed_drain-append wire wires new, feed_drain-encode frame wire pos e, rest) refl

-- Sendable frames are encoded, and a new decoder that is fed their bytes gives the same frames in
-- the same order, and ends as a new decoder, in which end of input is clean.
pub feed_drain-encode_all :
    (frames : List (List ℕ))
    → AreSendable frames
    → (wire : List ℕ) × (encode_all frames ≡ some wire)
      × (feed_drain wire new ≡ record { frames = frames; decoder = new })
      × (finish (feed_drain wire new).decoder ≡ clean)
unfolding encode_all finish feed_drain drain next_frame new feed
feed_drain-encode_all [] h = ([], refl, refl, refl)
feed_drain-encode_all (frame ∷ frames) h =
    let (wire, e) = encode_sendable frame h.1 in
    let (wires, es, drained, ended) = feed_drain-encode_all frames h.2 in
    let whole = drained_append frame wire frames wires h.0 e drained in
    (wire ++ wires, rw (e, es, encode_all) refl, whole, rw whole refl)

length-to_be_bytes : (n : ℕ) (xs : List ℕ) → length (to_be_bytes n ++ xs) ≡ 4 + length xs
unfolding to_be_bytes
length-to_be_bytes n xs = omega arith

from_be_bytes-take :
    (k n : ℕ) (xs : List ℕ) → 4 ≤ k → from_be_bytes (take k (to_be_bytes n ++ xs)) ≡ n
unfolding to_be_bytes
from_be_bytes-take (suc (suc (suc (suc k)))) n xs h = from_be_bytes-to_be_bytes n (take k xs)
from_be_bytes-take _ n xs h = absurd (omega arith)

module _ (bytes : List ℕ) (k declared : ℕ) where
  waits :
      0 < k
      → length bytes ≡ k
      → k < 4 + declared
      → (4 ≤ k → from_be_bytes bytes ≡ declared)
      → declared ≤ max_frame_bytes
      → 0 < declared
      → next_frame (feed bytes new) ≡ (feed bytes new, ok none)
  unfolding next_frame feed new
  waits kpos size short prefix bound pos = ground arith

  finishes :
      0 < k
      → length bytes ≡ k
      → k < 4 + declared
      → (4 ≤ k → from_be_bytes bytes ≡ declared)
      → finish (feed bytes new)
        ≡ (if ltb k 4 then truncated_prefix k else truncated_frame declared (k - 4))
  unfolding finish feed new
  finishes kpos size short prefix = ground arith

-- A buffer that holds less than its frame.
cut_short :
    (bytes : List ℕ) (k declared : ℕ)
    → 0 < k
    → length bytes ≡ k
    → k < 4 + declared
    → (4 ≤ k → from_be_bytes bytes ≡ declared)
    → declared ≤ max_frame_bytes
    → 0 < declared
    → ((feed_drain bytes new).frames ≡ [])
      × (finish (feed_drain bytes new).decoder
          ≡ (if ltb k 4 then truncated_prefix k else truncated_frame declared (k - 4)))
unfolding feed_drain
cut_short bytes k declared kpos size short prefix bound pos =
    rw
      (drain_waits (length (feed bytes new).buffer) (feed bytes new)
        (waits bytes k declared kpos size short prefix bound pos))
      (refl, finishes bytes k declared kpos size short prefix)

-- A frame cut short after `k` of its bytes on the wire, at least one, gives no frame, and end of
-- input is classified by where the cut fell: in the prefix, with the bytes that are there, or in
-- the body, with the declared size and the bytes of the body that are there.
pub finish-take-encode :
    (frame wire : List ℕ) (k : ℕ)
    → encode frame ≡ some wire
    → 0 < length frame
    → 0 < k
    → k < length wire
    → ((feed_drain (take k wire) new).frames ≡ [])
      × (finish (feed_drain (take k wire) new).decoder
          ≡ (if ltb k 4 then truncated_prefix k else truncated_frame (length frame) (k - 4)))
finish-take-encode frame wire k e pos kpos cut =
    let (bytes, bound) = encoded frame wire e in
    let size = length-take k wire in
    let prefix = λ (h : 4 ≤ k).
      subst (λ w. from_be_bytes (take k w) ≡ length frame) (sym bytes)
        (from_be_bytes-take k (length frame) frame h) in
    cut_short (take k wire) k (length frame) kpos (omega arith)
      (omega (arith, ap length bytes, length-to_be_bytes (length frame) frame)) prefix bound pos
