-- ===== src/Ipc/Frame.antt =====
-- crates/yah-plugin-ipc/src/frame.rs: length-prefixed framing and its incremental decoder. Bytes
-- are numbers. A panic of `encode` is `none`. The allocation behind the buffer is not modelled.
pub mod Codec
pub mod Chunks
pub mod Sequence
mod Tests
use yet_another_harness.Prelude.{
  ℕ, suc, ◌+◌, ◌-◌, ◌*◌, ◌/◌, ◌%◌, ◌^◌, Bool, List, [], ◌∷◌, ◌++◌, Option, none, some, Result, ok,
  err, ltb, leb, ◌==◌, if◌then◌else◌, length, take, drop,
}

abbrev pub max_frame_bytes : ℕ
max_frame_bytes = 1024 * 1024 + 4096

-- `u32::to_be_bytes`
unfoldable pub to_be_bytes : ℕ → List ℕ
to_be_bytes n = (n / 2 ^ 24) ∷ (n / 2 ^ 16 % 256) ∷ (n / 2 ^ 8 % 256) ∷ (n % 256) ∷ []

-- `u32::from_be_bytes` of the first four bytes of the buffer, which has them where this is called
unfoldable pub from_be_bytes : List ℕ → ℕ
from_be_bytes (a ∷ b ∷ c ∷ d ∷ _) = a * 2 ^ 24 + b * 2 ^ 16 + c * 2 ^ 8 + d
from_be_bytes _ = 0

unfoldable pub encode : List ℕ → Option (List ℕ)
encode frame =
    if leb (length frame) max_frame_bytes then some (to_be_bytes (length frame) ++ frame) else none

pub data FrameStreamError : Type 0 where
  frame_too_large : ℕ → FrameStreamError
  empty_frame : FrameStreamError

pub data EndOfInput : Type 0 where
  clean : EndOfInput
  truncated_prefix : ℕ → EndOfInput
  truncated_frame : ℕ → ℕ → EndOfInput

pub record FrameDecoder : Type 0 where
  pub buffer : List ℕ
  pub poisoned : Option FrameStreamError

unfoldable pub new : FrameDecoder
new = record { buffer = []; poisoned = none }

unfoldable pub feed : List ℕ → FrameDecoder → FrameDecoder
feed bytes d = elim d.poisoned [ none ↦ record d { buffer = d.buffer ++ bytes } | some _ ↦ d ]

unfoldable pub poison : FrameStreamError → FrameDecoder → FrameDecoder
poison error d = record d { buffer = []; poisoned = some error }

-- The decoder after the call, and what the call returns.
unfoldable pub next_frame : FrameDecoder → FrameDecoder × Result (Option (List ℕ)) FrameStreamError
unfolding poison
next_frame d = elim d.poisoned [
  | some error ↦ (d, err error)
  | none ↦
      if ltb (length d.buffer) 4
      then (d, ok none)
      else let declared = from_be_bytes d.buffer in
        if declared == 0
        then (poison empty_frame d, err empty_frame)
        else if ltb max_frame_bytes declared
        then (poison (frame_too_large declared) d, err (frame_too_large declared))
        else if ltb (length d.buffer) (4 + declared)
        then (d, ok none)
        else (
          record d { buffer = drop (4 + declared) d.buffer },
          ok (some (take declared (drop 4 d.buffer))),
        )
]

unfoldable pub buffered_len : FrameDecoder → ℕ
buffered_len d = length d.buffer

unfoldable pub finish : FrameDecoder → EndOfInput
finish d =
    if length d.buffer == 0
    then clean
    else if ltb (length d.buffer) 4
    then truncated_prefix (length d.buffer)
    else truncated_frame (from_be_bytes d.buffer) (length d.buffer - 4)
