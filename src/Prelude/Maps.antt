-- ===== src/Prelude/Maps.antt =====
-- A Go map with string keys, as its entries. A lookup takes the first entry of a key.
use mathlib.Core.Path.{◌≡◌, refl, sym, ◌∙◌}
use mathlib.Core.Logic.{◌⊎◌, inl, inr}
use mathlib.Core.Bool.{Bool, true, false}
use mathlib.Core.Option.{Option, none, some}
use mathlib.Core.List.{List, [], ◌∷◌}
use native.Mathlib.Omega.{arith}
use opni_monitoring.Prelude.Tests.{if◌then◌else◌, Bool-cases}
use opni_monitoring.Prelude.Strings.{Str, str_eq, str_eq_iff, str_eq_refl, str_eq_sound}

abbrev pub Assoc {ℓ} : Type ℓ → Type ℓ
Assoc V = List (Str × V)

module _ {ℓ} {V : Type ℓ} where
  unfoldable pub lookup : Str → Assoc V → Option V
  lookup k [] = none
  lookup k ((j, v) ∷ m) = if str_eq j k then some v else lookup k m

  -- delete(m, k)
  unfoldable pub remove : Str → Assoc V → Assoc V
  remove k [] = []
  remove k ((j, v) ∷ m) = let rest = remove k m in if str_eq j k then rest else (j, v) ∷ rest

  -- m[k] = v
  unfoldable pub insert : Str → V → Assoc V → Assoc V
  insert k v [] = (k, v) ∷ []
  insert k v ((j, w) ∷ m) = if str_eq j k then (k, v) ∷ m else (j, w) ∷ insert k v m

  -- _, ok := m[k]
  abbrev pub has_key : Str → Assoc V → Bool
  has_key k m = elim (lookup k m) [ none ↦ false | some v ↦ true ]

  pub lookup-remove :
      (k j : Str) (m : Assoc V) → lookup j (remove k m) ≡ (if str_eq k j then none else lookup j m)
  unfolding lookup remove
  lookup-remove k j [] = ground arith
  lookup-remove k j ((i, w) ∷ m) =
      ground (arith, str_eq_iff k j, str_eq_iff i k, str_eq_iff i j, lookup-remove k j m)

  pub lookup-insert :
      (k j : Str) (v : V) (m : Assoc V)
      → lookup j (insert k v m) ≡ (if str_eq k j then some v else lookup j m)
  unfolding lookup insert
  lookup-insert k j v [] = refl
  lookup-insert k j v ((i, w) ∷ m) =
      ground (arith, str_eq_iff k j, str_eq_iff i k, str_eq_iff i j, lookup-insert k j v m)

  pub lookup-insert_same : (k : Str) (v : V) (m : Assoc V) → lookup k (insert k v m) ≡ some v
  lookup-insert_same k v m = rw (lookup-insert k k v m, str_eq_refl k) refl

  pub lookup-insert_other :
      (k j : Str) (v : V) (m : Assoc V) → str_eq k j ≡ false → lookup j (insert k v m) ≡ lookup j m
  lookup-insert_other k j v m h = rw (lookup-insert k j v m, h) refl

  pub lookup-remove_other :
      (k j : Str) (m : Assoc V) → str_eq k j ≡ false → lookup j (remove k m) ≡ lookup j m
  lookup-remove_other k j m h = rw (lookup-remove k j m, h) refl

  -- Where an entry that is found after an insertion comes from.
  pub found-insert :
      (k j : Str) (v w : V) (m : Assoc V)
      → lookup j (insert k v m) ≡ some w
      → ((k ≡ j) × (v ≡ w)) ⊎ ((str_eq k j ≡ false) × (lookup j m ≡ some w))
  found-insert k j v w m h = elim (Bool-cases (str_eq k j)) [
    | inl same ↦ inl (str_eq_sound k j same, ground (arith, lookup-insert k j v m))
    | inr differ ↦ inr (differ, ground (arith, lookup-insert k j v m))
  ]

  pub found-remove :
      (k j : Str) (w : V) (m : Assoc V)
      → lookup j (remove k m) ≡ some w
      → (str_eq k j ≡ false) × (lookup j m ≡ some w)
  found-remove k j w m h = elim (Bool-cases (str_eq k j)) [
    | inl same ↦ absurd (none_apart (sym (lookup-remove k j m ∙ rw same refl) ∙ h))
    | inr differ ↦ (differ, ground (arith, lookup-remove k j m))
  ]
    where
      none_apart : ◌≡◌ {A = Option V} none (some w) → ⊥
      none_apart e = cc

  abbrev pub keys : Assoc V → List Str
  keys [] = []
  keys ((k, v) ∷ m) = k ∷ keys m
