-- ===== src/Ipc/Frame/Chunks.antt =====
-- The drain loop over the decoder of frame.rs: chunk boundaries, the bound on retained bytes.
use mathlib.Core.List.{append_assoc}
use yet_another_harness.Prelude.{
  ℕ, zero, suc, ◌+◌, ◌≤◌, ◌<◌, ◌≡◌, refl, ap, subst, sym, ◌∙◌, List, [], ◌∷◌, ◌++◌, Option, none,
  some, Result, ok, err, arith, length, drop, length-append, length-drop, take-append_of_le,
  drop-append_of_le,
}
use yet_another_harness.Ipc.Frame.{
  buffered_len, FrameDecoder, FrameStreamError, max_frame_bytes, from_be_bytes, feed, next_frame,
}

-- What draining a decoder gives: the frames, and the decoder that is left.
pub record Drained : Type 0 where
  pub frames : List (List ℕ)
  pub decoder : FrameDecoder

-- The caller's loop: `next_frame` until it returns no frame. Each frame takes at least five bytes
-- off the buffer, so that a fuel above the buffer's length is enough.
unfoldable pub drain : ℕ → FrameDecoder → Drained
drain zero d = record { frames = []; decoder = d }
drain (suc fuel) d =
    let r = next_frame d in
    elim r.1 [
      | err error ↦ record { frames = []; decoder = r.0 }
      | ok none ↦ record { frames = []; decoder = r.0 }
      | ok (some frame) ↦
          let more = drain fuel r.0 in
          record { frames = frame ∷ more.frames; decoder = more.decoder }
    ]

-- Feeding a chunk and draining.
unfoldable pub feed_drain : List ℕ → FrameDecoder → Drained
feed_drain bytes d = drain (suc (length (feed bytes d).buffer)) (feed bytes d)

-- The prefix of a buffer of at least four bytes is that of the longer one.
from_be_bytes-append :
    (xs ys : List ℕ) → 4 ≤ length xs → from_be_bytes (xs ++ ys) ≡ from_be_bytes xs
unfolding from_be_bytes
from_be_bytes-append (a ∷ b ∷ c ∷ d ∷ xs) ys h = refl
from_be_bytes-append _ ys h = absurd (omega arith)

-- More bytes behind a complete frame do not change it.
next_frame-feed_frame :
    (d e : FrameDecoder) (frame ys : List ℕ)
    → next_frame d ≡ (e, ok (some frame))
    → (next_frame (feed ys d) ≡ (feed ys e, ok (some frame))) × (length e.buffer < length d.buffer)
unfolding next_frame feed
next_frame-feed_frame d e frame ys h = ground (
  arith,
  from_be_bytes-append d.buffer ys,
  length-append d.buffer ys,
  length-drop (4 + from_be_bytes d.buffer) d.buffer,
  drop-append_of_le (4 + from_be_bytes d.buffer) d.buffer ys,
  drop-append_of_le 4 d.buffer ys,
  length-drop 4 d.buffer,
  take-append_of_le (from_be_bytes d.buffer) (drop 4 d.buffer) ys,
)

pub next_frame-shortens :
    (d e : FrameDecoder) (frame : List ℕ)
    → next_frame d ≡ (e, ok (some frame))
    → length e.buffer < length d.buffer
next_frame-shortens d e frame h = (next_frame-feed_frame d e frame [] h).1

-- A violation is final: no later byte changes it.
next_frame-feed_error :
    (d e : FrameDecoder) (error : FrameStreamError) (ys : List ℕ)
    → next_frame d ≡ (e, err error)
    → (next_frame (feed ys d) ≡ (e, err error))
      × (next_frame (feed ys e) ≡ (e, err error))
      × (feed ys e ≡ e)
unfolding next_frame feed
next_frame-feed_error d e error ys h =
    ground (arith, from_be_bytes-append d.buffer ys, length-append d.buffer ys)

next_frame-none : (d e : FrameDecoder) → next_frame d ≡ (e, ok none) → e ≡ d
unfolding next_frame
next_frame-none d e h = ground arith

-- What a call of `next_frame` can do.
pub data Polled (d : FrameDecoder) : Type 0 where
  waits : next_frame d ≡ (d, ok none) → Polled d
  yields : (e : FrameDecoder) (frame : List ℕ) → next_frame d ≡ (e, ok (some frame)) → Polled d
  fails : (e : FrameDecoder) (error : FrameStreamError) → next_frame d ≡ (e, err error) → Polled d

pub polled : (d : FrameDecoder) → Polled d
polled d = go (next_frame d) refl
  where
    go :
        (r : FrameDecoder × Result (Option (List ℕ)) FrameStreamError) → next_frame d ≡ r → Polled d
    go (e, ok none) h = waits (h ∙ ap (λ x. (x, ok none)) (next_frame-none d e h))
    go (e, ok (some frame)) h = yields e frame h
    go (e, err error) h = fails e error h

-- Frames read first, put before the rest.
abbrev pub prepend : List (List ℕ) → Drained → Drained
prepend frames x = record { frames = frames ++ x.frames; decoder = x.decoder }

module _ (n : ℕ) (d : FrameDecoder) where
  pub drain_waits :
      next_frame d ≡ (d, ok none) → drain (suc n) d ≡ record { frames = []; decoder = d }
  unfolding drain
  drain_waits h = ground arith

  pub drain_yields :
      (e : FrameDecoder) (frame : List ℕ)
      → next_frame d ≡ (e, ok (some frame))
      → drain (suc n) d ≡ prepend (frame ∷ []) (drain n e)
  unfolding drain
  drain_yields e frame h = ground arith

  drain_fails :
      (e : FrameDecoder) (error : FrameStreamError)
      → next_frame d ≡ (e, err error)
      → drain (suc n) d ≡ record { frames = []; decoder = e }
  unfolding drain
  drain_fails e error h = ground arith

-- Enough fuel gives the result, whatever the fuel.
drain-fuel :
    (m n : ℕ) (d : FrameDecoder) → length d.buffer < m → length d.buffer < n → drain m d ≡ drain n d
drain-fuel zero n d h k = elim h [ ]
drain-fuel (suc m) zero d h k = elim k [ ]
drain-fuel (suc m) (suc n) d h k = elim (polled d) [
  | waits e ↦ drain_waits m d e ∙ sym (drain_waits n d e)
  | yields e frame p ↦
      let shorter = (next_frame-feed_frame d e frame [] p).1 in
      drain_yields m d e frame p
      ∙ ap (prepend (frame ∷ [])) (drain-fuel m n e (omega arith) (omega arith))
      ∙ sym (drain_yields n d e frame p)
  | fails e error p ↦ drain_fails m d e error p ∙ sym (drain_fails n d e error p)
]

drain-feed :
    (m n : ℕ) (d : FrameDecoder) (ys : List ℕ)
    → length d.buffer < m
    → length (feed ys d).buffer < n
    → drain n (feed ys d) ≡ prepend (drain m d).frames (feed_drain ys (drain m d).decoder)
unfolding feed_drain
drain-feed zero n d ys h k = elim h [ ]
drain-feed (suc m) zero d ys h k = elim k [ ]
drain-feed (suc m) (suc n) d ys h k = elim (polled d) [
  | waits e ↦
      rw (drain_waits m d e)
        (drain-fuel (suc n) (suc (length (feed ys d).buffer)) (feed ys d) k (omega arith))
  | yields e frame p ↦
      let (fed, shorter) = next_frame-feed_frame d e frame ys p in
      let (_, fed_shorter) = next_frame-feed_frame (feed ys d) (feed ys e) frame [] fed in
      drain_yields n (feed ys d) (feed ys e) frame fed
      ∙ rw (drain_yields m d e frame p)
          (ap (prepend (frame ∷ [])) (drain-feed m n e ys (omega arith) (omega arith)))
  | fails e error p ↦
      let (fed, again, same) = next_frame-feed_error d e error ys p in
      drain_fails n (feed ys d) e error fed
      ∙ rw (drain_fails m d e error p)
          (sym (drain_fails (length (feed ys e).buffer) (feed ys e) e error again))
]

feed-feed : (xs ys : List ℕ) (d : FrameDecoder) → feed (xs ++ ys) d ≡ feed ys (feed xs d)
unfolding feed
feed-feed xs ys d = ground (arith, append_assoc d.buffer xs ys)

-- Chunk boundaries are meaningless, for any bytes and any decoder: feeding and draining two chunks
-- one after the other gives the frames, in order, and the decoder of feeding and draining them as
-- one.
pub feed_drain-append :
    (xs ys : List ℕ) (d : FrameDecoder)
    → feed_drain (xs ++ ys) d
      ≡ prepend (feed_drain xs d).frames (feed_drain ys (feed_drain xs d).decoder)
unfolding feed_drain
feed_drain-append xs ys d = simp feed-feed (drained_all (feed xs d) ys)
  where
    drained_all :
        (e : FrameDecoder) (zs : List ℕ)
        → drain (suc (length (feed zs e).buffer)) (feed zs e)
          ≡ prepend
              (drain (suc (length e.buffer)) e).frames
              (feed_drain zs (drain (suc (length e.buffer)) e).decoder)
    drained_all e zs = drain-feed _ _ e zs (omega arith) (omega arith)

-- A poisoned decoder holds no bytes.
abbrev pub IsReleased : FrameDecoder → Type 0
IsReleased d = (error : FrameStreamError) → d.poisoned ≡ some error → d.buffer ≡ []

next_frame-IsReleased : (d : FrameDecoder) → IsReleased d → IsReleased (next_frame d).0
unfolding next_frame
next_frame-IsReleased d r error h = ground (arith, r error)

waits_bound :
    (d : FrameDecoder)
    → IsReleased d
    → next_frame d ≡ (d, ok none)
    → length d.buffer < 4 + max_frame_bytes
unfolding next_frame
waits_bound d r h = ground arith

fails_bound :
    (d e : FrameDecoder) (error : FrameStreamError)
    → IsReleased d
    → next_frame d ≡ (e, err error)
    → e.buffer ≡ []
unfolding next_frame
fails_bound d e error r h = ground (arith, r error)

drain_bound :
    (n : ℕ) (d : FrameDecoder)
    → length d.buffer < n
    → IsReleased d
    → (buffered_len (drain n d).decoder < 4 + max_frame_bytes) × IsReleased (drain n d).decoder
unfolding buffered_len
drain_bound zero d h r = elim h [ ]
drain_bound (suc n) d h r = elim (polled d) [
  | waits e ↦ rw (drain_waits n d e) (waits_bound d r e, r)
  | yields e frame p ↦
      let shorter = (next_frame-feed_frame d e frame [] p).1 in
      rw (drain_yields n d e frame p)
        (drain_bound n e (omega arith) (subst (λ x. IsReleased x.0) p (next_frame-IsReleased d r)))
  | fails e error p ↦ rw (drain_fails n d e error p) (
    rw (fails_bound d e error r p) (omega arith),
    subst (λ x. IsReleased x.0) p (next_frame-IsReleased d r),
  )
]

feed-IsReleased : (bytes : List ℕ) (d : FrameDecoder) → IsReleased d → IsReleased (feed bytes d)
unfolding feed
feed-IsReleased bytes d r error h = ground (arith, r error)

-- If a poisoned decoder holds no bytes, as in a new one, then after any bytes are fed and drained
-- this holds again, and fewer bytes than one maximal frame and its prefix stay buffered.
pub feed_drain-bound :
    (bytes : List ℕ) (d : FrameDecoder)
    → IsReleased d
    → (buffered_len (feed_drain bytes d).decoder < 4 + max_frame_bytes)
      × IsReleased (feed_drain bytes d).decoder
unfolding feed_drain
feed_drain-bound bytes d r = drain_bound _ _ (omega arith) (feed-IsReleased bytes d r)
