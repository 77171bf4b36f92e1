-- ===== src/Http/Codec/Laws.antt =====
-- The header that the RBAC middleware sets carries the ids: it decodes to them.
use opni_monitoring.Prelude.{
  ℕ, Str, Bool, true, false, not, List, [], ◌∷◌, ◌==◌, all, is_empty, map, reverse, Result, ok, ◌≡◌,
  refl, ap, ◌∙◌, arith, ◌&&◌, ◌≤◌, length, is_ok, err,
}
use mathlib.Core.List.{reverse_aux, reverse-reverse}
use opni_monitoring.GoLib.Split.{split_on, split_on-append, split_on_plain, has_byte}
use opni_monitoring.GoLib.Text.{is_space, trim_left, trim_space}
use opni_monitoring.Validation.{validate_id, is_id_char, is_alnum}
use opni_monitoring.Validation.Laws.{validate_id_iff}
use opni_monitoring.Http.Codec.{join_with, filtered, encode, decode}

-- No byte of it is white space.
abbrev is_dense : Str → Bool
is_dense s = all (λ c. not (is_space c)) s

trim_left_dense : (s : Str) → is_dense s ≡ true → trim_left s ≡ s
unfolding trim_left
trim_left_dense [] h = refl
trim_left_dense (c ∷ s) h = ground arith

dense_reverse :
    (s t : Str) → is_dense s ≡ true → is_dense t ≡ true → is_dense (reverse_aux s t) ≡ true
dense_reverse [] t h k = k
dense_reverse (c ∷ s) t h k = dense_reverse s (c ∷ t) (ground arith) (ground arith)

trim_space_dense : (s : Str) → is_dense s ≡ true → trim_space s ≡ s
unfolding trim_space
trim_space_dense s h =
    ap (λ (t : Str). reverse (trim_left (reverse t))) (trim_left_dense s h)
    ∙ ap (λ (t : Str). reverse t) (trim_left_dense (reverse s) (dense_reverse s [] h refl))
    ∙ reverse-reverse s

-- A valid id is neither empty nor has white space or the delimiter.
dense_char : (c : ℕ) → is_id_char c ≡ true → not (is_space c) ≡ true
unfolding is_id_char is_alnum
dense_char c h = ground arith

bar_char : (c : ℕ) → is_id_char c ≡ true → (c == b'|') ≡ false
unfolding is_id_char is_alnum
bar_char c h = ground arith

dense_id : (s : Str) → all is_id_char s ≡ true → is_dense s ≡ true
dense_id [] h = refl
dense_id (c ∷ s) h = ground (arith, dense_char c, dense_id s)

bar_id : (s : Str) → all is_id_char s ≡ true → has_byte b'|' s ≡ false
bar_id [] h = refl
bar_id (c ∷ s) h = ground (arith, bar_char c, bar_id s)

abbrev is_fit : Str → Bool
is_fit s = all is_id_char s && not (is_empty s)

filtered_fit : (ids : List Str) → all is_fit ids ≡ true → filtered ids ≡ ids
unfolding filtered
filtered_fit [] h = refl
filtered_fit (id ∷ ids) h = ground (arith, filtered_fit ids, trim_space_dense id, dense_id id)

split_on-join_with :
    (id : Str) (ids : List Str)
    → all is_fit (id ∷ ids) ≡ true
    → split_on b'|' (join_with b'|' (id ∷ ids)) ≡ id ∷ ids
unfolding join_with
split_on-join_with id [] h = split_on_plain b'|' id (bar_id id (ground arith))
split_on-join_with id (next ∷ ids) h = ground (
  arith,
  split_on-append b'|' id (join_with b'|' (next ∷ ids)),
  split_on_plain b'|' id,
  bar_id id,
  split_on-join_with next ids,
)

map-trim_space_fit : (ids : List Str) → all is_fit ids ≡ true → map trim_space ids ≡ ids
map-trim_space_fit [] h = refl
map-trim_space_fit (id ∷ ids) h =
    ground (arith, map-trim_space_fit ids, trim_space_dense id, dense_id id)

-- Every id passes ValidateID.
abbrev pub all_valid : List Str → Bool
all_valid ids = all (λ id. is_ok (validate_id id)) ids

fit_of_valid : (s : Str) → is_ok (validate_id s) ≡ true → is_fit s ≡ true
fit_of_valid s h = ground (arith, validate_id_iff s, accepted (validate_id s) h, fit_empty s)
  where
    accepted : (r : Result (Unit {0})) → is_ok r ≡ true → r ≡ ok tt
    accepted (ok tt) e = refl
    accepted (err fault) e = cc

    fit_empty : (t : Str) → 1 ≤ length t → is_empty t ≡ false
    fit_empty [] e = ground arith
    fit_empty (c ∷ t) e = refl

all_fit : (ids : List Str) → all_valid ids ≡ true → all is_fit ids ≡ true
all_fit [] h = refl
all_fit (id ∷ ids) h = ground (arith, fit_of_valid id, all_fit ids)

-- Decode gives back the ids that Encode was given, in their order, if there is at least one and
-- each of them passes ValidateID.
pub decode-encode :
    (id : Str) (ids : List Str)
    → all_valid (id ∷ ids) ≡ true
    → decode b'|' (encode b'|' (id ∷ ids)) ≡ id ∷ ids
unfolding decode encode
decode-encode id ids h =
    let f = all_fit (id ∷ ids) h in
    ap (λ (parts : List Str). map trim_space (split_on b'|' (join_with b'|' parts)))
      (filtered_fit (id ∷ ids) f)
    ∙ ap (λ (parts : List Str). map trim_space parts) (split_on-join_with id ids f)
    ∙ map-trim_space_fit (id ∷ ids) f
