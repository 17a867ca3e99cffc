-- ===== src/Attestor/Hex.antt =====
-- `decode_hex` of attestor-client/src/lib.rs, on the characters of its text.
use Prim.Native.Char.{Char, code}
use Prim.Native.String.{[] as nil, ◌∷◌ as cons}
use dlc_stack.Base.{
  ℕ, zero, suc, ◌+◌, ◌*◌, ◌/◌, ◌%◌, ◌<◌, ◌-◌, ltb, leb, true, false, ◌&&◌, if◌then◌else◌, String,
  ◌≡◌, refl, ap, ◌∙◌, arith, Option, none, some, List, [], ◌∷◌, All,
}
use dlc_stack.Clients.Ids.{hex_digit, hex_bytes}

-- `DecodeHexError`, without the text of the parser's error.
pub data DecodeHexError : Type 0 where
  odd_length parse_int : DecodeHexError

-- A slice that cuts a character in two is a panic.
pub data Decoded : Type 0 where
  bytes : List ℕ → Decoded
  failed : DecodeHexError → Decoded
  slice_panicked : Decoded

-- The bytes of a character in UTF-8.
abbrev pub width : Char → ℕ
width c =
    if ltb (code c) 128
    then 1
    else if ltb (code c) 2048
    then 2
    else if ltb (code c) 65536
    then 3
    else 4

-- `s.len()`
unfoldable pub len : String → ℕ
len nil = 0
len (cons c s) = width c + len s

-- `to_digit(16)`
abbrev pub to_digit : ℕ → Option ℕ
to_digit n =
    if leb 48 n && leb n 57
    then some (n - 48)
    else if leb 97 n && leb n 102
    then some (n - 87)
    else if leb 65 n && leb n 70
    then some (n - 55)
    else none

abbrev pub two_digits : Option ℕ → Option ℕ → Option ℕ
two_digits none low = none
two_digits (some high) none = none
two_digits (some high) (some low) = some (high * 16 + low)

-- `u8::from_str_radix` of two characters, which takes a plus sign.
unfoldable pub from_str_radix : Char → Char → Option ℕ
from_str_radix c d =
    if leb 43 (code c) && leb (code c) 43
    then to_digit (code d)
    else two_digits (to_digit (code c)) (to_digit (code d))

abbrev pub prepend : Option ℕ → Decoded → Decoded
prepend none rest = failed parse_int
prepend (some b) (bytes bs) = bytes (b ∷ bs)
prepend (some b) rest = rest

-- The slices of two bytes, up to the first one that is no number.
unfoldable pub slices : String → Decoded
unfolding from_str_radix
slices nil = bytes []
slices (cons c nil) =
    if leb 2 (width c) && leb (width c) 2 then failed parse_int else slice_panicked
slices (cons c (cons d s)) =
    let rest = slices s in
    if ltb (width c) 2
    then (if ltb (width d) 2 then prepend (from_str_radix c d) rest else slice_panicked)
    else (if ltb (width c) 3 then failed parse_int else slice_panicked)

unfoldable pub decode_hex : String → Decoded
unfolding len slices
decode_hex s = if ltb 0 (len s % 2) then failed odd_length else slices s

-- What a reader finds in a digit that is written.
record IsDigit (c : Char) (n : ℕ) : Type 0 where
  read : to_digit (code c) ≡ some n
  ascii : ltb (code c) 128 ≡ true
  no_plus : (leb 43 (code c) && leb (code c) 43) ≡ false

hex_digit-IsDigit : (n : ℕ) → n < 16 → IsDigit (hex_digit n) n
hex_digit-IsDigit zero h = record { read = refl; ascii = refl; no_plus = refl }
hex_digit-IsDigit (suc zero) h = record { read = refl; ascii = refl; no_plus = refl }
hex_digit-IsDigit (suc (suc zero)) h = record { read = refl; ascii = refl; no_plus = refl }
hex_digit-IsDigit (suc (suc (suc zero))) h = record { read = refl; ascii = refl; no_plus = refl }
hex_digit-IsDigit (suc (suc (suc (suc zero)))) h = record {
  read = refl;
  ascii = refl;
  no_plus = refl;
}
hex_digit-IsDigit (suc (suc (suc (suc (suc zero))))) h = record {
  read = refl;
  ascii = refl;
  no_plus = refl;
}
hex_digit-IsDigit (suc (suc (suc (suc (suc (suc zero)))))) h = record {
  read = refl;
  ascii = refl;
  no_plus = refl;
}
hex_digit-IsDigit (suc (suc (suc (suc (suc (suc (suc zero))))))) h = record {
  read = refl;
  ascii = refl;
  no_plus = refl;
}
hex_digit-IsDigit (suc (suc (suc (suc (suc (suc (suc (suc zero)))))))) h = record {
  read = refl;
  ascii = refl;
  no_plus = refl;
}
hex_digit-IsDigit (suc (suc (suc (suc (suc (suc (suc (suc (suc zero))))))))) h = record {
  read = refl;
  ascii = refl;
  no_plus = refl;
}
hex_digit-IsDigit (suc (suc (suc (suc (suc (suc (suc (suc (suc (suc zero)))))))))) h = record {
  read = refl;
  ascii = refl;
  no_plus = refl;
}
hex_digit-IsDigit (suc (suc (suc (suc (suc (suc (suc (suc (suc (suc (suc zero))))))))))) h =
    record { read = refl; ascii = refl; no_plus = refl }
hex_digit-IsDigit (suc (suc (suc (suc (suc (suc (suc (suc (suc (suc (suc (suc zero)))))))))))) h =
    record { read = refl; ascii = refl; no_plus = refl }
hex_digit-IsDigit (suc (suc (suc (suc (suc (suc (suc (suc (suc (suc (suc (suc (suc zero)))))))))))))
      h =
    record { read = refl; ascii = refl; no_plus = refl }
hex_digit-IsDigit
      (suc (suc (suc (suc (suc (suc (suc (suc (suc (suc (suc (suc (suc (suc zero)))))))))))))) h =
    record { read = refl; ascii = refl; no_plus = refl }
hex_digit-IsDigit
      (suc (suc (suc (suc (suc (suc (suc (suc (suc (suc (suc (suc (suc (suc (suc zero)))))))))))))))
      h =
    record { read = refl; ascii = refl; no_plus = refl }
hex_digit-IsDigit
      (suc
        (suc (suc (suc (suc (suc (suc (suc (suc (suc (suc (suc (suc (suc (suc (suc n))))))))))))))))
      h =
    absurd (omega (arith, h))

slices-byte :
    (c d : Char) (high low : ℕ) (s : String)
    → IsDigit c high
    → IsDigit d low
    → slices (cons c (cons d s)) ≡ prepend (some (high * 16 + low)) (slices s)
unfolding slices from_str_radix
slices-byte c d high low s p q = rw (p.ascii, q.ascii, p.no_plus, p.read, q.read) refl

len-even : (bs : List ℕ) → All (λ b. b < 256) bs → len (hex_bytes bs) % 2 ≡ 0
unfolding len hex_bytes
len-even [] h = refl
len-even (b ∷ bs) (small, h) =
    let upper = hex_digit-IsDigit (b / 16) (omega (arith, small)) in
    let lower = hex_digit-IsDigit (b % 16) (omega arith) in
    rw (upper.ascii, lower.ascii) (omega (arith, len-even bs h))

slices-hex_bytes : (bs : List ℕ) → All (λ b. b < 256) bs → slices (hex_bytes bs) ≡ bytes bs
unfolding slices hex_bytes
slices-hex_bytes [] h = refl
slices-hex_bytes (b ∷ bs) (small, h) =
    let upper : b / 16 < 16 = omega (arith, small) in
    let lower : b % 16 < 16 = omega arith in
    let byte : b / 16 * 16 + b % 16 ≡ b = omega arith in
    slices-byte _ _ (b / 16) (b % 16) (hex_bytes bs) (hex_digit-IsDigit (b / 16) upper)
      (hex_digit-IsDigit (b % 16) lower)
    ∙ ap (prepend (some (b / 16 * 16 + b % 16))) (slices-hex_bytes bs h)
    ∙ ap (λ x. bytes (x ∷ bs)) byte

-- The lower-case hexadecimal text of bytes is decoded to these bytes.
pub decode_hex-hex_bytes :
    (bs : List ℕ) → All (λ b. b < 256) bs → decode_hex (hex_bytes bs) ≡ bytes bs
unfolding decode_hex
decode_hex-hex_bytes bs h = rw (len-even bs h) (slices-hex_bytes bs h)
