-- ===== src/GoLib/Index.antt =====
-- bytes.IndexByte and bytes.LastIndexByte, and slices cut at such an index. `none` is -1.
use opni_monitoring.Prelude.{
  ℕ, suc, Str, Bool, true, false, [], ◌∷◌, ◌++◌, ◌==◌, if◌then◌else◌, Option, none, some, ◌≡◌, refl,
  ap, arith, length, take, drop,
}
use opni_monitoring.GoLib.Split.{has_byte}

abbrev bump : Option ℕ → Option ℕ
bump none = none
bump (some i) = some (suc i)

unfoldable pub index_byte : ℕ → Str → Option ℕ
index_byte c [] = none
index_byte c (x ∷ s) = let rest = index_byte c s in if x == c then some 0 else bump rest

abbrev or_zero : Bool → Option ℕ → Option ℕ
or_zero hit (some i) = some (suc i)
or_zero true none = some 0
or_zero false none = none

unfoldable pub last_index_byte : ℕ → Str → Option ℕ
last_index_byte c [] = none
last_index_byte c (x ∷ s) = or_zero (x == c) (last_index_byte c s)

pub index_byte-append :
    (c : ℕ) (h t : Str) → has_byte c h ≡ false → index_byte c (h ++ (c ∷ t)) ≡ some (length h)
unfolding index_byte
index_byte-append c [] t p = ground arith
index_byte-append c (x ∷ h) t p = ground (arith, index_byte-append c h t)

last_index_byte-none : (c : ℕ) (s : Str) → has_byte c s ≡ false → last_index_byte c s ≡ none
unfolding last_index_byte
last_index_byte-none c [] p = refl
last_index_byte-none c (x ∷ s) p = ground (arith, last_index_byte-none c s)

pub last_index_byte-append :
    (c : ℕ) (h t : Str) → has_byte c t ≡ false → last_index_byte c (h ++ (c ∷ t)) ≡ some (length h)
unfolding last_index_byte
last_index_byte-append c [] t p = rw (last_index_byte-none c t p) (ground arith)
last_index_byte-append c (x ∷ h) t p = rw (last_index_byte-append c h t p)

pub take-append : (h t : Str) → take (length h) (h ++ t) ≡ h
take-append [] t = refl
take-append (x ∷ h) t = ap (λ (s : Str). x ∷ s) (take-append h t)

pub drop-append : (h t : Str) → drop (length h) (h ++ t) ≡ t
drop-append [] t = refl
drop-append (x ∷ h) t = drop-append h t
