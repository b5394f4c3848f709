-- ===== src/Kernel/Ids.antt =====
-- crates/yah-kernel/src/ids.rs: UUIDs, digests and wire identifiers. A `Uuid7` is its 128-bit
-- number, a digest its wire text; the epochs and stamps are numbers. Only `mint` reduces its
-- arguments: a `u64` clock and a `u128` entropy.
pub mod Roundtrip
use yet_another_harness.Prelude.{
  ℕ, suc, zero, ◌+◌, ◌-◌, ◌*◌, ◌/◌, ◌%◌, ◌^◌, Bool, true, false, ◌&&◌, ◌||◌, not, Option, none,
  some, List, [], ◌∷◌, ◌++◌, Text, text, byte_length, all, keep, mem_nat, length, leb, ltb, ◌==◌,
  if◌then◌else◌, drop, take, text_eq, ◌>>?◌,
}

abbrev pub Uuid7 : Type 0
Uuid7 = ℕ

unfoldable pub mint : ℕ → ℕ → Uuid7
mint unix_ms entropy =
    (unix_ms % 2 ^ 48) * 2 ^ 80
    + 7 * 2 ^ 76
    + (entropy / 2 ^ 64 % 2 ^ 12) * 2 ^ 64
    + 2 * 2 ^ 62
    + entropy % 2 ^ 62

-- One digit of `{:02x}`.
unfoldable pub hex_char : ℕ → ℕ
hex_char d = if ltb d 10 then d + 48 else d + 87

-- The last digits of a number, the given count of them.
unfoldable pub hex_pad : ℕ → ℕ → Text
hex_pad zero v = []
hex_pad (suc n) v = hex_pad n (v / 16) ++ hex_char (v % 16) ∷ []

-- The code point of a hyphen.
abbrev pub hyphen : ℕ
hyphen = 45

-- Five groups, with hyphens between them.
unfoldable pub hyphenated : Text → Text → Text → Text → Text → Text
hyphenated a b c d e = a ++ (hyphen ∷ (b ++ (hyphen ∷ (c ++ (hyphen ∷ (d ++ (hyphen ∷ e)))))))

-- `fmt::Display` of a UUID: its sixteen bytes, in five groups.
unfoldable pub display : Uuid7 → Text
display v =
    hyphenated (hex_pad 8 (v / 2 ^ 96 % 2 ^ 32)) (hex_pad 4 (v / 2 ^ 80 % 2 ^ 16))
      (hex_pad 4 (v / 2 ^ 64 % 2 ^ 16)) (hex_pad 4 (v / 2 ^ 48 % 2 ^ 16)) (hex_pad 12 (v % 2 ^ 48))

-- The value of a hexadecimal digit, of either case.
unfoldable pub hex_value : ℕ → Option ℕ
hex_value c =
    if leb 48 c && ltb c 58
    then some (c - 48)
    else if leb 97 c && ltb c 103
    then some (c - 87)
    else if leb 65 c && ltb c 71
    then some (c - 55)
    else none

-- The digits of `u128::from_str_radix(_, 16)`, after the value read so far. Thirty-two digits
-- cannot overflow.
unfoldable pub from_hex : ℕ → Text → Option ℕ
from_hex value [] = some value
from_hex value (c ∷ cs) = hex_value c >>? λ digit. from_hex (value * 16 + digit) cs

-- `u128::from_str_radix(_, 16)`, which admits a plus sign before the digits.
unfoldable pub from_str_radix : Text → Option ℕ
from_str_radix [] = none
from_str_radix (c ∷ []) = from_hex 0 (c ∷ [])
from_str_radix (c ∷ d ∷ cs) = if c == 43 then from_hex 0 (d ∷ cs) else from_hex 0 (c ∷ d ∷ cs)

-- `TryFrom<String>` of a UUID.
unfoldable pub uuid_try_from : Text → Option Uuid7
uuid_try_from s =
    let hex = keep (λ c. not (c == hyphen)) s in
    if (byte_length s == 36) && (byte_length hex == 32) then from_str_radix hex else none

abbrev pub is_lower_hex : ℕ → Bool
is_lower_hex c = (leb 48 c && ltb c 58) || (leb 97 c && ltb c 103)

-- `TryFrom<String>` of a digest succeeds.
unfoldable pub is_digest : Text → Bool
is_digest s =
    text_eq (take 7 s) (text "blake3:")
    && (byte_length (drop 7 s) == 64)
    && all is_lower_hex (drop 7 s)

abbrev pub is_ascii_alphanumeric : ℕ → Bool
is_ascii_alphanumeric c =
    (leb 48 c && ltb c 58) || (leb 65 c && ltb c 91) || (leb 97 c && ltb c 123)

-- Letters, digits, and `_.:-`.
abbrev pub is_wire_byte : ℕ → Bool
is_wire_byte c = is_ascii_alphanumeric c || mem_nat c (95 ∷ 46 ∷ 58 ∷ 45 ∷ [])

unfoldable pub valid_wire_identifier : Text → Bool
valid_wire_identifier value =
    not (length value == 0) && leb (byte_length value) 64 && all is_wire_byte value
