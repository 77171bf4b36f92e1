-- ===== src/GoLib/Split.antt =====
-- strings.Split and bytes.Split at a separator of one byte.
use opni_monitoring.Prelude.{
  ℕ, Str, Bool, false, List, [], ◌∷◌, ◌++◌, ◌==◌, if◌then◌else◌, any, ◌≡◌, refl, arith,
}

-- Puts a byte in front of the first part.
unfoldable pub cons_head : ℕ → List Str → List Str
cons_head c [] = (c ∷ []) ∷ []
cons_head c (s ∷ parts) = (c ∷ s) ∷ parts

unfoldable pub split_on : ℕ → Str → List Str
unfolding cons_head
split_on sep [] = [] ∷ []
split_on sep (c ∷ s) =
    let parts = split_on sep s in if c == sep then [] ∷ parts else cons_head c parts

abbrev pub has_byte : ℕ → Str → Bool
has_byte sep s = any (λ c. c == sep) s

-- The parts are never none, so `cons_head` finds a first one.
cons_head-append :
    (sep c : ℕ) (s : Str) (ys : List Str)
    → cons_head c (split_on sep s ++ ys) ≡ cons_head c (split_on sep s) ++ ys
unfolding split_on
cons_head-append sep c [] ys = refl
cons_head-append sep c (d ∷ s) ys = ground (arith, cons_head-append sep d s ys)

-- A separator between two texts separates their parts.
pub split_on-append :
    (sep : ℕ) (s t : Str) → split_on sep (s ++ (sep ∷ t)) ≡ split_on sep s ++ split_on sep t
unfolding split_on
split_on-append sep [] t = ground arith
split_on-append sep (c ∷ s) t =
    ground (arith, split_on-append sep s t, cons_head-append sep c s (split_on sep t))

-- A text without the separator is its only part.
pub split_on_plain : (sep : ℕ) (s : Str) → has_byte sep s ≡ false → split_on sep s ≡ s ∷ []
unfolding split_on
split_on_plain sep [] h = refl
split_on_plain sep (c ∷ s) h = ground (arith, split_on_plain sep s)
