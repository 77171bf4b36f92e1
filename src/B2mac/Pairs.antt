-- ===== src/B2mac/Pairs.antt =====
-- The pairs of the header Authorization: their quoted values, and how they are split.
use mathlib.Core.List.{reverse-append, reverse-reverse}
use opni_monitoring.Prelude.{
  ℕ, Str, str_eq, Bool, true, false, not, ◌&&◌, ◌==◌, [], ◌∷◌, ◌++◌, any-append, reverse, ok, ◌≡◌,
  refl, ap, arith,
}
use opni_monitoring.GoLib
use opni_monitoring.GoLib.Hex.{is_bytes}
use opni_monitoring.GoLib.Base64.{decode-encode, all-encode, any_of_all, is_digit}
use opni_monitoring.GoLib.Split.{split_on, has_byte, split_on-append, split_on_plain}
use opni_monitoring.GoLib.Text.{is_space, trim_left, trim_space}
use opni_monitoring.B2mac.{drop_quote}

-- The last byte is no white space.
abbrev pub last_solid : Str → Bool
last_solid [] = false
last_solid (c ∷ []) = not (is_space c)
last_solid (c ∷ d ∷ s) = last_solid (d ∷ s)

pub last_solid-append : (s : Str) (c : ℕ) (t : Str) → last_solid (s ++ (c ∷ t)) ≡ last_solid (c ∷ t)
last_solid-append [] c t = refl
last_solid-append (x ∷ []) c t = refl
last_solid-append (x ∷ y ∷ s) c t = last_solid-append (y ∷ s) c t

split_last :
    (s : Str)
    → last_solid s ≡ true
    → (start : Str) × (c : ℕ) × (s ≡ start ++ (c ∷ [])) × (is_space c ≡ false)
split_last [] h = cc
split_last (c ∷ []) h = ([], c, refl, ground arith)
split_last (c ∷ d ∷ s) h =
    let (start, x, e, solid) = split_last (d ∷ s) h in
    (c ∷ start, x, ap (λ (t : Str). c ∷ t) e, solid)

pub trim_end : (s : Str) → last_solid s ≡ true → reverse (trim_left (reverse s)) ≡ s
unfolding trim_left
trim_end s h =
    let (start, c, e, solid) = split_last s h in
    rw
      (
        e,
        reverse-append start (c ∷ []),
        solid,
        reverse-append (c ∷ []) (reverse start),
        reverse-reverse start,
      )
      refl

abbrev pub quoted : Str → Str
quoted s = s ++ (b'"' ∷ [])

pub drop_quote-quoted : (s : Str) → drop_quote (quoted s) ≡ ok s
unfolding drop_quote
drop_quote-quoted [] = refl
drop_quote-quoted (c ∷ []) = refl
drop_quote-quoted (c ∷ d ∷ s) = rw (drop_quote-quoted (d ∷ s)) refl

-- A text of a pair: it has neither of the two separators.
abbrev pub is_value : Str → Bool
is_value s = not (has_byte b',' s) && not (has_byte b'=' s)

quoted_plain :
    (sep : ℕ) (s : Str)
    → (34 == sep) ≡ false
    → has_byte sep s ≡ false
    → has_byte sep (quoted s) ≡ false
quoted_plain sep s q h = ground (arith, any-append (λ c. c == sep) s (b'"' ∷ []))

pub encode_value : (s : Str) → is_bytes s ≡ true → is_value (GoLib.Base64.encode s) ≡ true
encode_value s h =
    rw
      (
        any_of_all is_digit (λ c. c == b',') (GoLib.Base64.encode s) (λ c d. ground arith)
            (all-encode s h),
        any_of_all is_digit (λ c. c == b'=') (GoLib.Base64.encode s) (λ c d. ground arith)
            (all-encode s h),
      )
      refl

abbrev pub pair : Str → Str → Str
pair key value = key ++ (b'=' ∷ b'"' ∷ quoted value)

-- A key that the code looks for, as far as the separators and the white space go.
abbrev is_key : Str → Bool
is_key key = is_value key && str_eq (trim_space key) key

value_no_comma : (s : Str) → is_value s ≡ true → has_byte b',' s ≡ false
value_no_comma s h = ground arith

value_no_equals : (s : Str) → is_value s ≡ true → has_byte b'=' s ≡ false
value_no_equals s h = ground arith

pub split_pair :
    (key value : Str)
    → is_value key ≡ true
    → is_value value ≡ true
    → split_on b'=' (pair key value) ≡ key ∷ (b'"' ∷ quoted value) ∷ []
split_pair key value hk hv =
    rw
      (
        split_on-append b'=' key (b'"' ∷ quoted value),
        split_on_plain b'=' key (value_no_equals key hk),
        split_on_plain b'=' (b'"' ∷ quoted value)
            (quoted_plain b'=' value refl (value_no_equals value hv)),
      )
      refl

pub pair_no_comma :
    (key value : Str)
    → is_value key ≡ true
    → is_value value ≡ true
    → has_byte b',' (pair key value) ≡ false
pair_no_comma key value hk hv =
    rw
      (
        any-append (λ c. c == b',') key (b'=' ∷ b'"' ∷ quoted value),
        value_no_comma key hk,
        quoted_plain b',' value refl (value_no_comma value hv),
      )
      refl

pub split_list :
    (a b c : Str)
    → has_byte b',' a ≡ false
    → has_byte b',' b ≡ false
    → has_byte b',' c ≡ false
    → split_on b',' (a ++ (b',' ∷ (b ++ (b',' ∷ c)))) ≡ a ∷ b ∷ c ∷ []
split_list a b c ha hb hc =
    rw
      (
        split_on-append b',' a (b ++ (b',' ∷ c)),
        split_on_plain b',' a ha,
        split_on-append b',' b c,
        split_on_plain b',' b hb,
        split_on_plain b',' c hc,
      )
      refl
