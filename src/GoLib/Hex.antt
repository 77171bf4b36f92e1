-- ===== src/GoLib/Hex.antt =====
-- encoding/hex: two lower-case digits for a byte; decoding reads both cases.
use opni_monitoring.Prelude.{
  ℕ, suc, ◌+◌, ◌-◌, ◌*◌, ◌/◌, ◌%◌, ◌<◌, Str, Bool, true, ◌&&◌, [], ◌∷◌, leb, ltb, if◌then◌else◌,
  Option, none, some, ◌≡◌, refl, ap, arith, length, all, Result, ok, err, other,
}

-- the table "0123456789abcdef"
unfoldable pub hex_digit : ℕ → ℕ
hex_digit n = if ltb n 10 then b'0' + n else b'a' + (n - 10)

unfoldable pub encode : Str → Str
unfolding hex_digit
encode [] = []
encode (b ∷ s) = hex_digit (b / 16) ∷ hex_digit (b % 16) ∷ encode s

-- fromHexChar
unfoldable pub from_hex_char : ℕ → Option ℕ
from_hex_char c =
    if leb b'0' c && leb c b'9'
    then some (c - b'0')
    else if leb b'a' c && leb c b'f'
    then some (c - b'a' + 10)
    else if leb b'A' c && leb c b'F'
    then some (c - b'A' + 10)
    else none

-- The byte of two digits in front of what the rest decodes to.
unfoldable pub decode_pair : Option ℕ → Option ℕ → Result Str → Result Str
decode_pair none lo rest = err other
decode_pair (some a) none rest = err other
decode_pair (some a) (some b) (ok s) = ok ((a * 16 + b) ∷ s)
decode_pair (some a) (some b) (err e) = err e

-- DecodeString; an odd digit at the end is ErrLength.
unfoldable pub decode : Str → Result Str
unfolding from_hex_char decode_pair
decode [] = ok []
decode (x ∷ []) = err other
decode (x ∷ y ∷ s) = decode_pair (from_hex_char x) (from_hex_char y) (decode s)

-- A []byte holds bytes.
abbrev pub is_bytes : Str → Bool
is_bytes = all (λ b. ltb b 256)

from_hex_char-hex_digit : (n : ℕ) → n < 16 → from_hex_char (hex_digit n) ≡ some n
unfolding from_hex_char hex_digit
from_hex_char-hex_digit n h = ground arith

decode_pair-digits :
    (b : ℕ) (s : Str)
    → b < 256
    → decode_pair (from_hex_char (hex_digit (b / 16))) (from_hex_char (hex_digit (b % 16))) (ok s)
      ≡ ok (b ∷ s)
unfolding decode_pair
decode_pair-digits b s h =
    rw
      (
        from_hex_char-hex_digit (b / 16) (omega arith),
        from_hex_char-hex_digit (b % 16) (omega arith),
      )
      (ap (λ (x : ℕ). ok (x ∷ s)) (omega arith))

pub decode-encode : (s : Str) → is_bytes s ≡ true → decode (encode s) ≡ ok s
unfolding decode encode
decode-encode [] h = refl
decode-encode (b ∷ s) h =
    rw (decode-encode s (ground arith)) (decode_pair-digits b s (ground arith))

pub length-encode : (s : Str) → length (encode s) ≡ 2 * length s
unfolding encode
length-encode [] = omega arith
length-encode (b ∷ s) = omega (arith, length-encode s)

-- No digit is a dot, a colon or a slash.
pub has_digits_only : (c : ℕ) (s : Str) → c < 48 → all (λ d. leb 48 d) (encode s) ≡ true
unfolding encode hex_digit
has_digits_only c [] h = refl
has_digits_only c (b ∷ s) h = ground (arith, has_digits_only c s h)

decode_pair-length :
    (a b : Option ℕ) (r : Result Str) {s : Str}
    → decode_pair a b r ≡ ok s
    → (t : Str) × (r ≡ ok t) × (length s ≡ suc (length t))
unfolding decode_pair
decode_pair-length none b r h = cc
decode_pair-length (some a) none r h = cc
decode_pair-length (some a) (some b) (ok t) {s} h = (t, refl, ground arith)
decode_pair-length (some a) (some b) (err e) h = cc

-- Decoding halves the length.
pub length-decode : (s : Str) {t : Str} → decode s ≡ ok t → length s ≡ 2 * length t
unfolding decode
length-decode [] h = ground arith
length-decode (x ∷ []) h = cc
length-decode (x ∷ y ∷ s) h =
    let (t, e, l) = decode_pair-length (from_hex_char x) (from_hex_char y) (decode s) h in
    omega (arith, length-decode s e)
