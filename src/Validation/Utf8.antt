-- ===== src/Validation/Utf8.antt =====
-- The runes that Go reads in a string, as the regexp package counts them: a well-formed UTF-8
-- sequence is one rune, and any other byte is one rune (U+FFFD) of its own.
use opni_monitoring.Prelude.{ℕ, zero, suc, Str, Bool, ◌&&◌, [], ◌∷◌, leb, ◌==◌, if◌then◌else◌}

abbrev in_range : ℕ → ℕ → ℕ → Bool
in_range lo hi c = leb lo c && leb c hi

-- The bounds on the second byte of a sequence that begins with `a`.
abbrev second_lo : ℕ → ℕ
second_lo a = if a == 0xE0 then 0xA0 else if a == 0xF0 then 0x90 else 0x80

abbrev second_hi : ℕ → ℕ
second_hi a = if a == 0xED then 0x9F else if a == 0xF4 then 0x8F else 0xBF

abbrev is_second : ℕ → ℕ → Bool
is_second a b = in_range (second_lo a) (second_hi a) b

abbrev is_tail : ℕ → Bool
is_tail = in_range 0x80 0xBF

-- How many bytes follow the first one in its rune.
unfoldable pub rune_tail : ℕ → Str → ℕ
rune_tail a [] = 0
rune_tail a (b ∷ []) = if in_range 0xC2 0xDF a && is_second a b then 1 else 0
rune_tail a (b ∷ c ∷ []) =
    if is_second a b
    then (if in_range 0xC2 0xDF a then 1 else if in_range 0xE0 0xEF a && is_tail c then 2 else 0)
    else 0
rune_tail a (b ∷ c ∷ d ∷ s) =
    if is_second a b
    then (if in_range 0xC2 0xDF a
        then 1
        else if in_range 0xE0 0xEF a && is_tail c
        then 2
        else if in_range 0xF0 0xF4 a && is_tail c && is_tail d
        then 3
        else 0)
    else 0

-- Runes in a string of which the first `k` bytes belong to a rune already counted.
rune_count_from : ℕ → Str → ℕ
unfolding rune_tail
rune_count_from k [] = 0
rune_count_from zero (a ∷ s) = suc (rune_count_from (rune_tail a s) s)
rune_count_from (suc k) (a ∷ s) = rune_count_from k s

unfoldable pub rune_count : Str → ℕ
unfolding rune_count_from
rune_count = rune_count_from 0
