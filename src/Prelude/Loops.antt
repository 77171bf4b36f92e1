-- ===== src/Prelude/Loops.antt =====
-- Loops that append to a list, and what stands in it afterwards.
use mathlib.Core.List.{List, [], ◌∷◌, ◌++◌, Memᴰ}
use mathlib.Core.List.Memᴰ
use mathlib.Core.Option.{Option, none, some}
use mathlib.Core.Logic.{◌⊎◌, inl, inr}
use mathlib.Core.Path.{◌≡◌, refl, sym, ap, ◌∙◌, subst}

module _ {ℓ} {B : Type ℓ} where
  in_append : (xs bs : List B) {b : B} → Memᴰ b (xs ++ bs) → Memᴰ b xs ⊎ Memᴰ b bs
  in_append [] bs m = inr m
  in_append (x ∷ xs) bs (Memᴰ.head e) = inl (Memᴰ.head e)
  in_append (x ∷ xs) bs (Memᴰ.tail m) = elim (in_append xs bs m) [
    | inl y ↦ inl (Memᴰ.tail y)
    | inr y ↦ inr y
  ]

  unfoldable pub prepend : Option B → List B → List B
  prepend none bs = bs
  prepend (some b) bs = b ∷ bs

  in_prepend :
      (o : Option B) (bs : List B) {b : B} → Memᴰ b (prepend o bs) → (o ≡ some b) ⊎ Memᴰ b bs
  unfolding prepend
  in_prepend none bs m = inr m
  in_prepend (some x) bs (Memᴰ.head e) = inl (ap some (sym e))
  in_prepend (some x) bs (Memᴰ.tail m) = inr m

  at_some : (o : Option B) (bs : List B) {b : B} → o ≡ some b → Memᴰ b (prepend o bs)
  unfolding prepend
  at_some o bs {b} h = subst (λ (x : Option B). Memᴰ b (prepend x bs)) (sym h) (Memᴰ.head refl)

  at_rest : (o : Option B) (bs : List B) {b : B} → Memᴰ b bs → Memᴰ b (prepend o bs)
  unfolding prepend
  at_rest none bs m = m
  at_rest (some x) bs m = Memᴰ.tail m

module _ {ℓ κ} {A : Type ℓ} {B : Type κ} where
  -- A loop that appends one element, or continues without.
  unfoldable pub collect : (A → Option B) → List A → List B
  unfolding prepend
  collect f [] = []
  collect f (x ∷ xs) = prepend (f x) (collect f xs)

  -- A loop that appends a list.
  unfoldable pub gather : (A → List B) → List A → List B
  gather f [] = []
  gather f (x ∷ xs) = f x ++ gather f xs

  pub in_collect :
      (f : A → Option B) (xs : List A) {b : B}
      → Memᴰ b (collect f xs)
      → (a : A) × Memᴰ a xs × (f a ≡ some b)
  unfolding collect
  in_collect f [] m = elim m [ ]
  in_collect f (x ∷ xs) m = elim (in_prepend (f x) (collect f xs) m) [
    | inl e ↦ (x, Memᴰ.head refl, e)
    | inr m' ↦ let (y, my, e) = in_collect f xs m' in (y, Memᴰ.tail my, e)
  ]

  pub collect_in :
      (f : A → Option B) (xs : List A) {a : A} {b : B}
      → Memᴰ a xs
      → f a ≡ some b
      → Memᴰ b (collect f xs)
  unfolding collect
  collect_in f [] m h = elim m [ ]
  collect_in f (x ∷ xs) (Memᴰ.head e) h = at_some (f x) (collect f xs) (ap f (sym e) ∙ h)
  collect_in f (x ∷ xs) (Memᴰ.tail m) h = at_rest (f x) (collect f xs) (collect_in f xs m h)

  pub in_gather :
      (f : A → List B) (xs : List A) {b : B}
      → Memᴰ b (gather f xs)
      → (a : A) × Memᴰ a xs × Memᴰ b (f a)
  unfolding gather
  in_gather f [] m = elim m [ ]
  in_gather f (x ∷ xs) m = elim (in_append (f x) (gather f xs) m) [
    | inl y ↦ (x, Memᴰ.head refl, y)
    | inr y ↦ let (z, mz, mb) = in_gather f xs y in (z, Memᴰ.tail mz, mb)
  ]

  pub gather_in :
      (f : A → List B) (xs : List A) {a : A} {b : B}
      → Memᴰ a xs
      → Memᴰ b (f a)
      → Memᴰ b (gather f xs)
  unfolding gather
  gather_in f [] n m = elim n [ ]
  gather_in f (x ∷ xs) {a} {b} (Memᴰ.head e) m =
      Memᴰ.append_left (gather f xs) (subst (λ y. Memᴰ b (f y)) e m)
  gather_in f (x ∷ xs) (Memᴰ.tail n) m = Memᴰ.append_right (f x) (gather_in f xs n m)
