-- ===== src/Validation/Laws.antt =====
-- Which texts the validators accept, described without the matchers.
use opni_monitoring.Prelude.{
  ℕ, zero, suc, ◌≤◌, Str, str_eq, Assoc, Bool, true, false, ◌&&◌, [], ◌∷◌, leb, ◌==◌, length, all,
  ok, ◌≡◌, ◌↔◌, refl, ap, arith, is_ok,
}
use opni_monitoring.GoLib.Path.{is_plain}
use opni_monitoring.GoLib.Split.{has_byte}
use opni_monitoring.Validation.{
  match_up_to, match_first, is_alnum, is_label_name_char, is_label_value_char, is_id_char, id_regex,
  label_name_regex, label_value_regex, validate_id, validate_labels, validate_label_name,
  validate_label_value, repeat_byte,
}

-- `[class]{0,n}` matches the texts over the class of at most `n` bytes.
match_up_to_iff :
    (cls : ℕ → Bool) (n : ℕ) (s : Str) → match_up_to cls n s ≡ (leb (length s) n && all cls s)
unfolding match_up_to
match_up_to_iff cls zero [] = ground arith
match_up_to_iff cls (suc n) [] = ground arith
match_up_to_iff cls zero (c ∷ s) = ground arith
match_up_to_iff cls (suc n) (c ∷ s) = ground (arith, match_up_to_iff cls n s)

id_regex_lem : (s : Str) → id_regex s ≡ (leb 1 (length s) && leb (length s) 128 && all is_id_char s)
unfolding id_regex match_first
id_regex_lem [] = refl
id_regex_lem (c ∷ s) = ground (arith, match_up_to_iff is_id_char 127 s)

-- A run of dots is equal to a text of its length exactly when that text has dots only.
repeat_byte_iff : (c : ℕ) (s : Str) → str_eq (repeat_byte c (length s)) s ≡ all (λ x. c == x) s
unfolding repeat_byte str_eq
repeat_byte_iff c [] = refl
repeat_byte_iff c (x ∷ s) = ap (λ (b : Bool). (c == x) && b) (repeat_byte_iff c s)

-- An id is accepted exactly when it has 1 to 128 bytes, each a letter, a digit or one of -_.(),
-- and at least one of them is not a dot.
pub validate_id_iff :
    (s : Str)
    → (validate_id s ≡ ok tt) ↔ (
        (1 ≤ length s)
        × (length s ≤ 128)
        × (all is_id_char s ≡ true)
        × (all (λ c. b'.' == c) s ≡ false))
unfolding validate_id
validate_id_iff s = ground (arith, id_regex_lem s, repeat_byte_iff b'.' s)

id_char_not_slash : (c : ℕ) → is_id_char c ≡ true → (c == b'/') ≡ false
unfolding is_id_char is_alnum
id_char_not_slash c h = ground arith

all_id_no_slash : (s : Str) → all is_id_char s ≡ true → has_byte b'/' s ≡ false
all_id_no_slash [] h = refl
all_id_no_slash (c ∷ s) h = ground (arith, id_char_not_slash c, all_id_no_slash s)

plain_of :
    (s : Str)
    → 1 ≤ length s
    → has_byte b'/' s ≡ false
    → all (λ c. b'.' == c) s ≡ false
    → is_plain s ≡ true
unfolding str_eq
plain_of [] p q r = absurd (omega arith)
plain_of (a ∷ []) p q r = ground arith
plain_of (a ∷ b ∷ []) p q r = ground arith
plain_of (a ∷ b ∷ c ∷ s) p q r = ground arith

-- An accepted id has no slash and is not empty, a dot or two dots, so that path.Join keeps it as
-- one element.
pub validate_id-is_plain : (s : Str) → validate_id s ≡ ok tt → is_plain s ≡ true
validate_id-is_plain s h =
    let (p, _, q, r) = (validate_id_iff s).0 h in plain_of s p (all_id_no_slash s q) r

abbrev pub starts : (ℕ → Bool) → Str → Bool
starts p [] = false
starts p (c ∷ s) = p c

-- At most 64 bytes of the class, the first of them a letter or a digit.
abbrev pub is_label : (ℕ → Bool) → Str → Bool
is_label cls s = starts is_alnum s && leb (length s) 64 && all cls s

match_first_lem :
    (cls : ℕ → Bool) (s : Str)
    → ((c : ℕ) → is_alnum c ≡ true → cls c ≡ true)
    → match_first is_alnum cls 63 s ≡ is_label cls s
unfolding match_first
match_first_lem cls [] imp = refl
match_first_lem cls (c ∷ s) imp = ground (arith, match_up_to_iff cls 63 s, imp c)

name_char_of_alnum : (c : ℕ) → is_alnum c ≡ true → is_label_name_char c ≡ true
unfolding is_label_name_char
name_char_of_alnum c h = ground arith

value_char_of_alnum : (c : ℕ) → is_alnum c ≡ true → is_label_value_char c ≡ true
unfolding is_label_value_char
value_char_of_alnum c h = ground arith

pub is_ok-validate_label_name :
    (s : Str) → is_ok (validate_label_name s) ≡ is_label is_label_name_char s
unfolding validate_label_name label_name_regex
is_ok-validate_label_name s =
    ground (arith, match_first_lem is_label_name_char s name_char_of_alnum)

pub is_ok-validate_label_value :
    (s : Str) → is_ok (validate_label_value s) ≡ is_label is_label_value_char s
unfolding validate_label_value label_value_regex
is_ok-validate_label_value s =
    ground (arith, match_first_lem is_label_value_char s value_char_of_alnum)

abbrev pub is_label_pair : Str × Str → Bool
is_label_pair (k, v) = is_label is_label_name_char k && is_label is_label_value_char v

-- A label map is accepted exactly when every key and every value in it is a text of 1 to 64 bytes
-- that begins with a letter or a digit and goes on with those or -_. (in keys, also a slash), in
-- whatever order the entries are visited.
pub is_ok-validate_labels : (m : Assoc Str) → is_ok (validate_labels m) ≡ all is_label_pair m
unfolding validate_labels
is_ok-validate_labels [] = refl
is_ok-validate_labels ((k, v) ∷ m) =
    ground
      (arith, is_ok-validate_label_name k, is_ok-validate_label_value v, is_ok-validate_labels m)
