-- ===== src/GoLib/Base64.antt =====
-- encoding/base64.RawURLEncoding: the URL alphabet with no padding. The decoder skips line breaks
-- and, not being strict, ignores the low bits of a last incomplete group.
use opni_monitoring.Prelude.{
  ℕ, ◌+◌, ◌-◌, ◌*◌, ◌/◌, ◌%◌, ◌<◌, Str, Bool, true, false, not, ◌&&◌, ◌||◌, [], ◌∷◌, ◌==◌, leb, ltb,
  if◌then◌else◌, ◌≡◌, refl, ap, arith, all, any, keep, Result, ok, err, other, ◌>>=◌,
}
use opni_monitoring.GoLib.Hex.{is_bytes}

unfoldable pub digit : ℕ → ℕ
digit n =
    if ltb n 26
    then b'A' + n
    else if ltb n 52
    then b'a' + (n - 26)
    else if ltb n 62
    then b'0' + (n - 52)
    else if n == 62
    then b'-'
    else b'_'

unfoldable pub from_digit : ℕ → Result ℕ
from_digit c =
    if leb b'A' c && leb c b'Z'
    then ok (c - b'A')
    else if leb b'a' c && leb c b'z'
    then ok (c - b'a' + 26)
    else if leb b'0' c && leb c b'9'
    then ok (c - b'0' + 52)
    else if c == b'-'
    then ok 62
    else if c == b'_'
    then ok 63
    else err other

unfoldable pub encode : Str → Str
unfolding digit
encode [] = []
encode (a ∷ []) = digit (a / 4) ∷ digit (a % 4 * 16) ∷ []
encode (a ∷ b ∷ []) = digit (a / 4) ∷ digit (a % 4 * 16 + b / 16) ∷ digit (b % 16 * 4) ∷ []
encode (a ∷ b ∷ c ∷ s) =
    digit (a / 4)
    ∷ digit (a % 4 * 16 + b / 16)
    ∷ digit (b % 16 * 4 + c / 64)
    ∷ digit (c % 64)
    ∷ encode s

abbrev byte1 : ℕ → ℕ → ℕ
byte1 p q = p * 4 + q / 16

abbrev byte2 : ℕ → ℕ → ℕ
byte2 q r = q % 16 * 16 + r / 4

abbrev byte3 : ℕ → ℕ → ℕ
byte3 r t = r % 4 * 64 + t

unfoldable pub decode_digits : Str → Result Str
unfolding from_digit
decode_digits [] = ok []
decode_digits (w ∷ []) = err other
decode_digits (w ∷ x ∷ []) = do p ← from_digit w; q ← from_digit x; ok (byte1 p q ∷ [])
decode_digits (w ∷ x ∷ y ∷ []) = do
  p ← from_digit w
  q ← from_digit x
  r ← from_digit y
  ok (byte1 p q ∷ byte2 q r ∷ [])
decode_digits (w ∷ x ∷ y ∷ z ∷ s) =
    let rest = decode_digits s in
    do
      p ← from_digit w
      q ← from_digit x
      r ← from_digit y
      t ← from_digit z
      more ← rest
      ok (byte1 p q ∷ byte2 q r ∷ byte3 r t ∷ more)

abbrev is_break : ℕ → Bool
is_break c = c == 10 || c == 13

unfoldable pub decode : Str → Result Str
unfolding decode_digits
decode s = decode_digits (keep (λ c. not (is_break c)) s)

from_digit-digit : (n : ℕ) → n < 64 → from_digit (digit n) ≡ ok n
unfolding from_digit digit
from_digit-digit n h = ground arith

decode_digits-encode : (s : Str) → is_bytes s ≡ true → decode_digits (encode s) ≡ ok s
unfolding decode_digits encode
decode_digits-encode [] h = refl
decode_digits-encode (a ∷ []) h =
    let ha : a < 256 = ground arith in
    rw (from_digit-digit (a / 4) (omega arith), from_digit-digit (a % 4 * 16) (omega arith))
      (ap (λ (x : ℕ). ok (x ∷ [])) (omega arith))
decode_digits-encode (a ∷ b ∷ []) h =
    let ha : a < 256 = ground arith in
    let hb : b < 256 = ground arith in
    rw
      (
        from_digit-digit (a / 4) (omega arith),
        from_digit-digit (a % 4 * 16 + b / 16) (omega arith),
        from_digit-digit (b % 16 * 4) (omega arith),
      )
      (ground arith)
decode_digits-encode (a ∷ b ∷ c ∷ s) h =
    let ha : a < 256 = ground arith in
    let hb : b < 256 = ground arith in
    let hc : c < 256 = ground arith in
    rw
      (
        from_digit-digit (a / 4) (omega arith),
        from_digit-digit (a % 4 * 16 + b / 16) (omega arith),
        from_digit-digit (b % 16 * 4 + c / 64) (omega arith),
        from_digit-digit (c % 64) (omega arith),
        decode_digits-encode s (ground arith),
      )
      (ground arith)

-- A character of the alphabet: a letter, a digit, a dash or an underscore.
abbrev pub is_digit : ℕ → Bool
is_digit c =
    leb b'A' c && leb c b'Z'
    || leb b'a' c && leb c b'z'
    || leb b'0' c && leb c b'9'
    || c == b'-'
    || c == b'_'

is_digit-digit : (n : ℕ) → n < 64 → is_digit (digit n) ≡ true
unfolding digit
is_digit-digit n h = ground arith

-- The encoding is over the alphabet, so it holds no separator of the formats that embed it.
pub all-encode : (s : Str) → is_bytes s ≡ true → all is_digit (encode s) ≡ true
unfolding encode
all-encode [] h = refl
all-encode (a ∷ []) h =
    let ha : a < 256 = ground arith in
    rw (is_digit-digit (a / 4) (omega arith), is_digit-digit (a % 4 * 16) (omega arith))
all-encode (a ∷ b ∷ []) h =
    let ha : a < 256 = ground arith in
    let hb : b < 256 = ground arith in
    rw (
      is_digit-digit (a / 4) (omega arith),
      is_digit-digit (a % 4 * 16 + b / 16) (omega arith),
      is_digit-digit (b % 16 * 4) (omega arith),
    )
all-encode (a ∷ b ∷ c ∷ s) h =
    let ha : a < 256 = ground arith in
    let hb : b < 256 = ground arith in
    let hc : c < 256 = ground arith in
    rw
      (
        is_digit-digit (a / 4) (omega arith),
        is_digit-digit (a % 4 * 16 + b / 16) (omega arith),
        is_digit-digit (b % 16 * 4 + c / 64) (omega arith),
        is_digit-digit (c % 64) (omega arith),
      )
      (all-encode s (ground arith))

keep-all :
    (p q : ℕ → Bool) (s : Str) → ((c : ℕ) → p c ≡ true → q c ≡ true) → all p s ≡ true → keep q s ≡ s
keep-all p q [] imp h = refl
keep-all p q (c ∷ s) imp h = ground (arith, imp c, keep-all p q s imp)

pub any_of_all :
    (p q : ℕ → Bool) (s : Str)
    → ((c : ℕ) → p c ≡ true → q c ≡ false)
    → all p s ≡ true
    → any q s ≡ false
any_of_all p q [] imp h = refl
any_of_all p q (c ∷ s) imp h = ground (arith, imp c, any_of_all p q s imp)

pub decode-encode : (s : Str) → is_bytes s ≡ true → decode (encode s) ≡ ok s
unfolding decode
decode-encode s h =
    rw (keep-all is_digit (λ c. not (is_break c)) (encode s) (λ c p. ground arith) (all-encode s h))
      (decode_digits-encode s h)
