-- ===== src/Kernel/Ids/Roundtrip.antt =====
-- UUIDs of crates/yah-kernel/src/ids.rs: the bits that `mint` forces, and printing against parsing.
use yet_another_harness.Prelude.{
  ℕ, suc, zero, ◌+◌, ◌*◌, ◌/◌, ◌%◌, ◌^◌, ◌≤◌, ◌<◌, ◌≡◌, refl, ap, sym, ◌∙◌, ◌>>?◌, Bool, true, not,
  Option, none, some, [], ◌∷◌, ◌++◌, Text, byte_length, keep, keep-append, byte_length-append, all,
  length, length-append, ◌&&◌, ◌==◌, if◌then◌else◌, arith,
}
use yet_another_harness.Kernel.Ids.{
  Uuid7, mint, hex_char, hex_pad, hyphen, display, hyphenated, hex_value, from_hex, from_str_radix,
  uuid_try_from, is_lower_hex,
}

-- A minted UUID is a 128-bit number whose version is 7 and whose variant is 2, with the low
-- 48 bits of the clock before them.
pub mint-IsVersion7 :
    (unix_ms entropy : ℕ)
    → (mint unix_ms entropy < 2 ^ 128)
      × (mint unix_ms entropy / 2 ^ 80 ≡ unix_ms % 2 ^ 48)
      × (mint unix_ms entropy / 2 ^ 76 % 16 ≡ 7)
      × (mint unix_ms entropy / 2 ^ 62 % 4 ≡ 2)
unfolding mint
mint-IsVersion7 unix_ms entropy = (omega arith, omega arith, omega arith, omega arith)

hex_value-hex_char : (d : ℕ) → d < 16 → hex_value (hex_char d) ≡ some d
unfolding hex_value hex_char
hex_value-hex_char d h = ground arith

from_hex-append :
    (value : ℕ) (xs ys : Text)
    → from_hex value (xs ++ ys) ≡ (from_hex value xs >>? λ read. from_hex read ys)
unfolding from_hex
from_hex-append value [] ys = refl
from_hex-append value (x ∷ xs) ys =
    bind_both (λ digit. from_hex-append (value * 16 + digit) xs ys) (hex_value x)
  where
    Splits : Option ℕ → Type 0
    Splits o =
        (o >>? λ digit. from_hex (value * 16 + digit) (xs ++ ys))
        ≡ ((o >>? λ digit. from_hex (value * 16 + digit) xs) >>? λ read. from_hex read ys)

    bind_both : ((digit : ℕ) → Splits (some digit)) → (o : Option ℕ) → Splits o
    bind_both h none = refl
    bind_both h (some digit) = h digit

read_last : (value d : ℕ) → d < 16 → from_hex value (hex_char d ∷ []) ≡ some (value * 16 + d)
unfolding from_hex
read_last value d h = rw (hex_value-hex_char d h)

from_hex_nil : (value : ℕ) → from_hex value [] ≡ some value
unfolding from_hex
from_hex_nil value = refl

-- Reading the digits of a number after a value.
from_hex-hex_pad :
    (n value v : ℕ) → v < 16 ^ n → from_hex value (hex_pad n v) ≡ some (value * 16 ^ n + v)
unfolding hex_pad
from_hex-hex_pad zero value v h = from_hex_nil value ∙ ap some (omega (arith, h))
from_hex-hex_pad (suc n) value v h =
    let high = from_hex-hex_pad n value (v / 16) (omega (arith, h)) in
    let last = read_last (value * 16 ^ n + v / 16) (v % 16) (omega arith) in
    let read = from_hex-append value (hex_pad n (v / 16)) (hex_char (v % 16) ∷ []) in
    (read ∙ rw (high, last)) ∙ ap some (next_digit value (16 ^ n) (16 ^ suc n) v (omega arith))
  where
    next_digit : (value p q v : ℕ) → q ≡ p * 16 → (value * p + v / 16) * 16 + v % 16 ≡ value * q + v
    next_digit value p q v h = product value p v ∙ ap (λ r. value * r + v) (sym h)
      where
        product : (value p v : ℕ) → (value * p + v / 16) * 16 + v % 16 ≡ value * (p * 16) + v
        product value p v = omega arith

-- Reading a group of digits, and then the rest.
read_group :
    (n value v : ℕ) (rest : Text)
    → v < 16 ^ n
    → from_hex value (hex_pad n v ++ rest) ≡ from_hex (value * 16 ^ n + v) rest
read_group n value v rest h =
    rw (from_hex-append value (hex_pad n v) rest, from_hex-hex_pad n value v h)

-- What is printed holds hexadecimal digits, each one byte.
abbrev IsHex : Text → Type 0
IsHex s = all is_lower_hex s ≡ true

append-IsHex : (s t : Text) → IsHex s → IsHex t → IsHex (s ++ t)
append-IsHex [] t h k = k
append-IsHex (c ∷ cs) t h k = ground (arith, append-IsHex cs t)

hex_char_lem : (d : ℕ) → d < 16 → IsHex (hex_char d ∷ [])
unfolding hex_char
hex_char_lem d h = ground arith

hex_pad-IsHex : (n v : ℕ) → IsHex (hex_pad n v)
unfolding hex_pad
hex_pad-IsHex zero v = refl
hex_pad-IsHex (suc n) v = append-IsHex (hex_pad n (v / 16)) _ (hex_pad-IsHex n (v / 16)) last_digit
  where
    last_digit : IsHex (hex_char (v % 16) ∷ [])
    last_digit = hex_char_lem (v % 16) (omega arith)

length-hex_pad : (n v : ℕ) → length (hex_pad n v) ≡ n
unfolding hex_pad
length-hex_pad zero v = refl
length-hex_pad (suc n) v =
    omega (
      arith,
      length-append (hex_pad n (v / 16)) (hex_char (v % 16) ∷ []),
      length-hex_pad n (v / 16),
    )

keep_hex : (s : Text) → IsHex s → keep (λ c. not (c == hyphen)) s ≡ s
keep_hex [] h = refl
keep_hex (c ∷ cs) h = ground (arith, keep_hex cs)

byte_length_hex : (s : Text) → IsHex s → byte_length s ≡ length s
byte_length_hex [] h = refl
byte_length_hex (c ∷ cs) h = ground (arith, byte_length_hex cs)

from_str_radix_hex : (s : Text) → IsHex s → 1 ≤ length s → from_str_radix s ≡ from_hex 0 s
unfolding from_str_radix
from_str_radix_hex [] h k = absurd (omega arith)
from_str_radix_hex (c ∷ []) h k = refl
from_str_radix_hex (c ∷ d ∷ cs) h k = ground arith

abbrev is_digit : ℕ → Bool
is_digit c = not (c == hyphen)

-- A group and its hyphen.
keep_group :
    (s rest : Text) → IsHex s → keep is_digit (s ++ hyphen ∷ rest) ≡ s ++ keep is_digit rest
keep_group s rest h =
    keep-append is_digit s (hyphen ∷ rest) ∙ ap (λ t. t ++ keep is_digit rest) (keep_hex s h)

byte_length_group :
    (s rest : Text) → IsHex s → byte_length (s ++ hyphen ∷ rest) ≡ length s + 1 + byte_length rest
byte_length_group s rest h =
    omega (arith, byte_length-append s (hyphen ∷ rest), byte_length_hex s h)

module _ (a b c d e : Text) (ha : IsHex a) (hb : IsHex b) (hc : IsHex c) (hd : IsHex d)
    (he : IsHex e) where
  keep-hyphenated : keep is_digit (hyphenated a b c d e) ≡ a ++ (b ++ (c ++ (d ++ e)))
  unfolding hyphenated
  keep-hyphenated =
      keep_group a _ ha
      ∙ ap (λ t. a ++ t)
          (keep_group b _ hb
            ∙ ap (λ t. b ++ t)
                (keep_group c _ hc
                  ∙ ap (λ t. c ++ t) (keep_group d _ hd ∙ ap (λ t. d ++ t) (keep_hex e he))))

  byte_length-hyphenated :
      byte_length (hyphenated a b c d e) ≡ length a + length b + length c + length d + length e + 4
  unfolding hyphenated
  byte_length-hyphenated = omega (
    arith,
    byte_length_group a (b ++ (hyphen ∷ (c ++ (hyphen ∷ (d ++ (hyphen ∷ e)))))) ha,
    byte_length_group b (c ++ (hyphen ∷ (d ++ (hyphen ∷ e)))) hb,
    byte_length_group c (d ++ (hyphen ∷ e)) hc,
    byte_length_group d e hd,
    byte_length_hex e he,
  )

  joined-IsHex : IsHex (a ++ (b ++ (c ++ (d ++ e))))
  joined-IsHex =
      append-IsHex a (b ++ (c ++ (d ++ e))) ha
        (append-IsHex b (c ++ (d ++ e)) hb (append-IsHex c (d ++ e) hc (append-IsHex d e hd he)))

  -- Five groups of 32 digits are parsed as one number.
  uuid_try_from-hyphenated :
      length a ≡ 8
      → length b + length c + length d + length e ≡ 24
      → (byte_length (hyphenated a b c d e) ≡ 36)
        × (uuid_try_from (hyphenated a b c d e) ≡ from_hex 0 (a ++ (b ++ (c ++ (d ++ e)))))
  unfolding uuid_try_from
  uuid_try_from-hyphenated ha hs =
      (long, by_keep (keep is_digit (hyphenated a b c d e)) keep-hyphenated)
    where
      long : byte_length (hyphenated a b c d e) ≡ 36
      long = omega (arith, byte_length-hyphenated)

      count : length (a ++ (b ++ (c ++ (d ++ e)))) ≡ 32
      count = omega (
        arith,
        length-append a (b ++ (c ++ (d ++ e))),
        length-append b (c ++ (d ++ e)),
        length-append c (d ++ e),
        length-append d e,
      )

      by_keep :
          (hex : Text)
          → hex ≡ a ++ (b ++ (c ++ (d ++ e)))
          → (if (byte_length (hyphenated a b c d e) == 36) && (byte_length hex == 32)
              then from_str_radix hex
              else none)
            ≡ from_hex 0 (a ++ (b ++ (c ++ (d ++ e))))
      by_keep hex same =
          let bytes = byte_length_hex (a ++ (b ++ (c ++ (d ++ e)))) joined-IsHex in
          let parsed =
            from_str_radix_hex (a ++ (b ++ (c ++ (d ++ e)))) joined-IsHex (omega (arith, count)) in
          ground (arith, long, count, bytes, parsed, same)

from_hex-groups :
    (v : Uuid7)
    → v < 2 ^ 128
    → from_hex 0 (
        hex_pad 8 (v / 2 ^ 96 % 2 ^ 32)
        ++ (hex_pad 4 (v / 2 ^ 80 % 2 ^ 16)
            ++ (hex_pad 4 (v / 2 ^ 64 % 2 ^ 16)
                ++ (hex_pad 4 (v / 2 ^ 48 % 2 ^ 16) ++ hex_pad 12 (v % 2 ^ 48)))))
      ≡ some v
from_hex-groups v h =
    read_group 8 0 (v / 2 ^ 96 % 2 ^ 32) _ (omega arith)
    ∙ (read_group 4 _ (v / 2 ^ 80 % 2 ^ 16) _ (omega arith)
        ∙ (read_group 4 _ (v / 2 ^ 64 % 2 ^ 16) _ (omega arith)
            ∙ (read_group 4 _ (v / 2 ^ 48 % 2 ^ 16) _ (omega arith)
                ∙ (from_hex-hex_pad 12 _ (v % 2 ^ 48) (omega arith) ∙ ap some (omega arith)))))

-- A UUID of 128 bits is printed as 36 bytes, and parses as itself.
pub uuid_try_from-display :
    (v : Uuid7)
    → v < 2 ^ 128
    → (byte_length (display v) ≡ 36) × (uuid_try_from (display v) ≡ some v)
unfolding display
uuid_try_from-display v h =
    let groups =
      uuid_try_from-hyphenated (hex_pad 8 (v / 2 ^ 96 % 2 ^ 32)) (hex_pad 4 (v / 2 ^ 80 % 2 ^ 16))
        (hex_pad 4 (v / 2 ^ 64 % 2 ^ 16)) (hex_pad 4 (v / 2 ^ 48 % 2 ^ 16))
        (hex_pad 12 (v % 2 ^ 48)) (hex_pad-IsHex 8 (v / 2 ^ 96 % 2 ^ 32))
        (hex_pad-IsHex 4 (v / 2 ^ 80 % 2 ^ 16)) (hex_pad-IsHex 4 (v / 2 ^ 64 % 2 ^ 16))
        (hex_pad-IsHex 4 (v / 2 ^ 48 % 2 ^ 16)) (hex_pad-IsHex 12 (v % 2 ^ 48))
        (length-hex_pad 8 (v / 2 ^ 96 % 2 ^ 32))
        (omega (
          arith,
          length-hex_pad 4 (v / 2 ^ 80 % 2 ^ 16),
          length-hex_pad 4 (v / 2 ^ 64 % 2 ^ 16),
          length-hex_pad 4 (v / 2 ^ 48 % 2 ^ 16),
          length-hex_pad 12 (v % 2 ^ 48),
        )) in
    (groups.0, groups.1 ∙ from_hex-groups v h)
