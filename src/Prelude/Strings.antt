-- ===== src/Prelude/Strings.antt =====
-- A Go string or []byte is a sequence of bytes.
use Prim.Native.Nat.{ℕ}
use Prim.Native.Char.{code}
use Prim.Native.String.{String}
use mathlib.Core.Logic.{◌≢◌}
use mathlib.Core.Path.{sym, ◌∙◌, ap, ◌≡◌, refl}
use mathlib.Core.Logic.{◌↔◌}
use mathlib.Core.Bool.{Bool, true, false, ◌&&◌}
use mathlib.Core.List.{List, [], ◌∷◌}
use native.Mathlib.Omega.{arith}
use opni_monitoring.Prelude.Tests.{◌==◌, ltb, if◌then◌else◌}

abbrev pub Str : Type 0
Str = List ℕ

-- The bytes of an ASCII literal.
abbrev pub codes : String → Str
codes String.[] = []
codes (String.◌∷◌ c s) = code c ∷ codes s

unfoldable pub str_eq : Str → Str → Bool
str_eq [] [] = true
str_eq [] (y ∷ ys) = false
str_eq (x ∷ xs) [] = false
str_eq (x ∷ xs) (y ∷ ys) = (x == y) && str_eq xs ys

pub str_eq_sound : (s t : Str) → str_eq s t ≡ true → s ≡ t
unfolding str_eq
str_eq_sound [] [] h = refl
str_eq_sound [] (y ∷ ys) h = cc
str_eq_sound (x ∷ xs) [] h = cc
str_eq_sound (x ∷ xs) (y ∷ ys) h = ground (arith, str_eq_sound xs ys)

pub str_eq_refl : (s : Str) → str_eq s s ≡ true
unfolding str_eq
str_eq_refl [] = refl
str_eq_refl (x ∷ xs) = ground (arith, str_eq_refl xs)

pub str_eq_iff : (s t : Str) → (str_eq s t ≡ true) ↔ (s ≡ t)
str_eq_iff s t = (str_eq_sound s t, λ e. rw e (str_eq_refl t))

-- The two readings of a test that fails.
pub str_ne : (s t : Str) → s ≢ t → str_eq s t ≡ false
str_ne s t h = ground (arith, str_eq_iff s t)

pub ne_str : (s t : Str) → str_eq s t ≡ false → s ≢ t
ne_str s t h e = true_apart (sym (str_eq_refl t) ∙ ap (λ (x : Str). str_eq x t) (sym e) ∙ h)
  where
    true_apart : true ≡ false → ⊥
    true_apart e = cc

pub str_eq_comm : (s t : Str) → str_eq s t ≡ str_eq t s
str_eq_comm s t = ground (arith, str_eq_iff s t, str_eq_iff t s)

-- Go's < on strings: bytewise, a proper prefix first.
unfoldable pub str_lt : Str → Str → Bool
str_lt [] [] = false
str_lt [] (y ∷ ys) = true
str_lt (x ∷ xs) [] = false
str_lt (x ∷ xs) (y ∷ ys) = if ltb x y then true else (x == y) && str_lt xs ys

pub str_lt_irrefl : (s : Str) → str_lt s s ≡ false
unfolding str_lt
str_lt_irrefl [] = refl
str_lt_irrefl (x ∷ xs) = ground (arith, str_lt_irrefl xs)

pub str_lt_trans : (s t u : Str) → str_lt s t ≡ true → str_lt t u ≡ true → str_lt s u ≡ true
unfolding str_lt
str_lt_trans [] [] u p q = cc
str_lt_trans [] (y ∷ ys) [] p q = cc
str_lt_trans [] (y ∷ ys) (z ∷ zs) p q = refl
str_lt_trans (x ∷ xs) [] u p q = cc
str_lt_trans (x ∷ xs) (y ∷ ys) [] p q = cc
str_lt_trans (x ∷ xs) (y ∷ ys) (z ∷ zs) p q = ground (arith, str_lt_trans xs ys zs)

-- Two different strings are in order one way or the other.
pub str_lt_total : (s t : Str) → str_eq s t ≡ false → str_lt s t ≡ false → str_lt t s ≡ true
unfolding str_lt str_eq
str_lt_total [] [] p q = cc
str_lt_total [] (y ∷ ys) p q = cc
str_lt_total (x ∷ xs) [] p q = refl
str_lt_total (x ∷ xs) (y ∷ ys) p q = ground (arith, str_lt_total xs ys)
