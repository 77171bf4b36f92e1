-- ===== src/Validation.antt =====
-- pkg/validation/validation.go. The patterns are matched byte by byte: every class but the one of
-- subject names holds ASCII only, so there a match is of as many bytes as runes.
pub mod Utf8
pub mod Laws
use opni_monitoring.Prelude.{
  ℕ, zero, suc, ◌-◌, Str, str_eq, Assoc, Bool, true, false, ◌&&◌, ◌||◌, not, List, [], ◌∷◌, ltb,
  leb, ◌==◌, if◌then◌else◌, length, all, Result, ok, err, Error, guard, ◌>>◌, ◌>>=◌,
  invalid_label_name, invalid_label_value, invalid_id, invalid_subject_name,
}
use opni_monitoring.Validation.Utf8.{rune_count}

abbrev pub between : ℕ → ℕ → ℕ → Bool
between lo hi c = leb lo c && leb c hi

-- [a-zA-Z0-9]
unfoldable pub is_alnum : ℕ → Bool
is_alnum c = between b'a' b'z' c || between b'A' b'Z' c || between b'0' b'9' c

-- [a-zA-Z0-9-_./]
unfoldable pub is_label_name_char : ℕ → Bool
unfolding is_alnum
is_label_name_char c = is_alnum c || c == b'-' || c == b'_' || c == b'.' || c == b'/'

-- [a-zA-Z0-9-_.]
unfoldable pub is_label_value_char : ℕ → Bool
unfolding is_alnum
is_label_value_char c = is_alnum c || c == b'-' || c == b'_' || c == b'.'

-- [a-zA-Z0-9-_.\(\)]
unfoldable pub is_id_char : ℕ → Bool
unfolding is_alnum
is_id_char c = is_alnum c || c == b'-' || c == b'_' || c == b'.' || c == b'(' || c == b')'

-- [^\\*"'\s], where \s is tab, newline, form feed, carriage return and space
unfoldable pub is_subject_char : ℕ → Bool
is_subject_char c = not (
    c == 0x5c
    || c == b'*'
    || c == 0x22
    || c == 0x27
    || c == 9
    || c == 10
    || c == 12
    || c == 13
    || c == 32)

-- [class]{0,n}$
unfoldable pub match_up_to : (ℕ → Bool) → ℕ → Str → Bool
match_up_to cls n [] = true
match_up_to cls zero (c ∷ s) = false
match_up_to cls (suc n) (c ∷ s) = cls c && match_up_to cls n s

-- ^[first][rest]{0,n}$
unfoldable pub match_first : (ℕ → Bool) → (ℕ → Bool) → ℕ → Str → Bool
unfolding match_up_to
match_first first rest n [] = false
match_first first rest n (c ∷ s) = first c && match_up_to rest n s

unfoldable pub label_name_regex : Str → Bool
unfolding match_first is_label_name_char
label_name_regex = match_first is_alnum is_label_name_char 63

unfoldable pub label_value_regex : Str → Bool
unfolding match_first is_label_value_char
label_value_regex = match_first is_alnum is_label_value_char 63

unfoldable pub id_regex : Str → Bool
unfolding match_first is_id_char
id_regex = match_first is_id_char is_id_char 127

unfoldable pub subject_name_regex : Str → Bool
unfolding is_subject_char
subject_name_regex s = leb 1 (rune_count s) && leb (rune_count s) 256 && all is_subject_char s

unfoldable pub validate_label_name : Str → Result (Unit {0})
unfolding label_name_regex
validate_label_name s = guard (label_name_regex s) invalid_label_name

unfoldable pub validate_label_value : Str → Result (Unit {0})
unfolding label_value_regex
validate_label_value s = guard (label_value_regex s) invalid_label_value

-- The range over a map has no order; the entries are taken in the order of the list.
unfoldable pub validate_labels : Assoc Str → Result (Unit {0})
unfolding validate_label_name validate_label_value
validate_labels [] = ok tt
validate_labels ((k, v) ∷ m) = do validate_label_name k; validate_label_value v; validate_labels m

-- strings.Repeat(s, n) at one byte
unfoldable pub repeat_byte : ℕ → ℕ → Str
repeat_byte c zero = []
repeat_byte c (suc n) = c ∷ repeat_byte c n

unfoldable pub validate_id : Str → Result (Unit {0})
unfolding id_regex repeat_byte
validate_id id = do
  guard (id_regex id) invalid_id
  guard (not (str_eq (repeat_byte b'.' (length id)) id)) invalid_id

unfoldable pub validate_subject : Str → Result (Unit {0})
unfolding subject_name_regex
validate_subject s = guard (subject_name_regex s) invalid_subject_name
